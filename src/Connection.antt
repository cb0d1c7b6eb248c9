-- ===== src/Connection.antt =====
-- `wivrn_connection` of server/driver/wivrn_connection.cpp: the handshake over the two sockets,
-- and which socket a packet goes out on. Polls and the clock are its environment: a list of what
-- each turn of the loop finds.
mod Handshake
pub mod Polling
mod Runs
use wi_vrn.Common.{
  ℕ, ◌≡◌, List, [], ◌∷◌, ◌++◌, Option, none, some, Bool, true, false, if◌then◌else◌, ◌==◌,
}
use wi_vrn.Common.{
  Result, ok, err, Exception, system_error, invalid_handshake, no_handshake, socket_error,
}

-- What `control.receive()` gave in one turn.
pub data Control : Type 0 where
  nothing_read : Control
  partial : Control
  handshake : Control
  other_packet : Control

-- One turn: the result of `::poll`, a hang-up or an error of either socket, the address and the
-- port a datagram came from, the control packet, and whether the clock has passed the timeout.
pub record Turn : Type 0 where
  pub poll_failed : Bool
  pub stream_broken : Bool
  pub control_broken : Bool
  pub datagram : Option (ℕ × ℕ)
  pub control : Control
  pub is_late : Bool

pub data Stream : Type 0 where
  absent : Stream
  bound : ℕ → Stream
  connected : ℕ → ℕ → Stream

-- `stream_port` of a handshake is -1 where the stream is not used.
pub data StreamPort : Type 0 where
  no_port : StreamPort
  port : ℕ → StreamPort

pub record Connection : Type 0 where
  pub active : Bool
  pub stream : Stream
  -- The handshakes sent on `control`, the first one first.
  pub sent : List StreamPort

pub data Outcome : Type 0 where
  -- Every turn given is used and the loop still runs.
  waiting : Connection → Outcome
  thrown : Exception → Connection → Outcome
  finished : Connection → Outcome

unfoldable pub send_handshake : StreamPort → Connection → Connection
send_handshake p c = record c { sent = c.sent ++ (p ∷ []) }

-- After the loop: the second handshake, and `active`. That `set_tos` fails is only logged.
unfoldable pub conclude : StreamPort → Connection → Outcome
unfolding send_handshake
conclude p c = finished (record (send_handshake p c) { active = true })

-- The last two of the loop's `if`s: the control socket, then the timeout.
unfoldable pub after_datagram : StreamPort → Turn → Connection → Outcome → Outcome
unfolding conclude
after_datagram p t c again = elim (t.control) [
  | handshake ↦ conclude no_port (record c { stream = absent })
  | other_packet ↦ thrown invalid_handshake c
  | _ ↦ if t.is_late then thrown no_handshake c else again
]

-- `::poll` reports nothing for the descriptor of a socket that is absent.
unfoldable pub heard : Stream → Option (ℕ × ℕ) → Option (ℕ × ℕ)
heard absent datagram = none
heard (bound server_port) datagram = datagram
heard (connected address from) datagram = datagram

-- One turn of the loop, before the turns that follow (`again`).
unfoldable pub turn : ℕ → StreamPort → Turn → Connection → Outcome → Outcome
unfolding conclude after_datagram heard
turn client p t c again =
    if t.poll_failed
    then thrown system_error c
    else (if t.stream_broken
        then thrown socket_error c
        else (if t.control_broken then thrown socket_error c else elim (heard c.stream t.datagram) [
          | none ↦ after_datagram p t c again
          | some (address, from) ↦
              if address == client
              then conclude p (record c { stream = connected address from })
              else after_datagram p t c again
        ]))

unfoldable pub loop : ℕ → StreamPort → List Turn → Connection → Outcome
unfolding turn
loop client p [] c = waiting c
loop client p (t ∷ ts) c = let again = loop client p ts c in turn client p t c again

-- `init`, whose first system calls gave the server's port and the client's address.
unfoldable pub init : Bool → ℕ → ℕ → List Turn → Connection → Outcome
unfolding loop send_handshake
init tcp_only server_port client ts c =
    if tcp_only
    then loop client no_port ts
        (send_handshake no_port (record c { active = false; stream = absent }))
    else loop client (port server_port) ts (
        send_handshake (port server_port) (record c { active = false; stream = bound server_port }))

-- `reset` on a new control socket, on which nothing was sent.
unfoldable pub reset : Bool → ℕ → ℕ → List Turn → Connection → Outcome
reset tcp_only server_port client ts c =
    init tcp_only server_port client ts (record c { sent = [] })

-- Which socket a packet goes out on.
pub data Route : Type 0 where
  dropped : Route
  on_control : Route
  on_stream : Route

unfoldable pub send_control : Connection → Route
send_control c = if c.active then on_control else dropped

unfoldable pub send_stream : Connection → Route
send_stream c =
    if c.active then (elim (c.stream) [ absent ↦ on_control | _ ↦ on_stream ]) else on_control

-- What either of them leaves when the socket throws.
unfoldable pub send_failed : Connection → Connection
send_failed c = record c { active = false }
