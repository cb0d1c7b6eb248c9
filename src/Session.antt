-- ===== src/Session.antt =====
-- `wivrn_session` of client/wivrn_client.cpp and .h: the headset's side of the handshake. The polls,
-- the clock and the failures of system calls are its environment, a list of turns for each of the
-- two loops. A send that throws, which ends the handshake too, is left out.
mod Established
mod Runs
use wi_vrn.Common.{ℕ, ◌+◌, List, [], ◌∷◌, Option, none, some, Bool, true, false, if◌then◌else◌, ltb}
use wi_vrn.Common.{Exception, system_error, socket_error, invalid_handshake, no_handshake}
use wi_vrn.Common.Int.{ℤ, pos, negsuc}

-- What the control socket gave in a turn of the first loop; a handshake carries `stream_port`, and
-- whether connecting and setting up the stream throws.
pub data FirstTurn : Type 0 where
  poll_failed : FirstTurn
  silent : Bool → FirstTurn
  partial : FirstTurn
  handshake : ℤ → Bool → FirstTurn
  other_packet : FirstTurn

-- What `poll` gave in a turn of the second loop: an exception, or how many sockets were ready; then
-- whether the timeout has passed.
pub data SecondTurn : Type 0 where
  threw : Exception → SecondTurn
  ready : ℕ → Bool → SecondTurn

-- The port that the stream is connected to, and the handshakes sent on each socket.
pub record Session : Type 0 where
  pub stream : Option ℕ
  pub sent_on_control : ℕ
  pub sent_on_stream : ℕ

pub data Handshake : Type 0 where
  -- The turns given are used up.
  waiting : Session → Handshake
  thrown : Exception → Handshake
  returned : Session → Handshake

-- `send_stream(from_headset::handshake{})`
unfoldable pub send_handshake : Session → Session
send_handshake s = elim (s.stream) [
  | none ↦ record s { sent_on_control = s.sent_on_control + 1 }
  | some p ↦ record s { sent_on_stream = s.sent_on_stream + 1 }
]

-- `if (stream) stream.send(from_headset::handshake{})`
unfoldable pub resend_handshake : Session → Session
resend_handshake s = elim (s.stream) [
  | none ↦ s
  | some p ↦ record s { sent_on_stream = s.sent_on_stream + 1 }
]

unfoldable pub second_loop : List SecondTurn → Session → Handshake
unfolding resend_handshake
second_loop [] s = waiting s
second_loop (threw e ∷ ts) s = thrown e
second_loop (ready n is_late ∷ ts) s =
    let again = second_loop ts (resend_handshake s) in
    if ltb 0 n then returned s else (if is_late then thrown no_handshake else again)

-- `h.stream_port > 0`
unfoldable pub open_stream : ℤ → Session → Session
open_stream (negsuc n) s = s
open_stream (pos n) s = if ltb 0 n then record s { stream = some n } else s

unfoldable pub needs_stream : ℤ → Bool
needs_stream (negsuc n) = false
needs_stream (pos n) = ltb 0 n

unfoldable pub first_loop : List FirstTurn → List SecondTurn → Session → Handshake
unfolding second_loop send_handshake open_stream needs_stream
first_loop [] us s = waiting s
first_loop (poll_failed ∷ ts) us s = thrown system_error
first_loop (silent is_late ∷ ts) us s =
    let again = first_loop ts us s in if is_late then thrown no_handshake else again
first_loop (partial ∷ ts) us s = first_loop ts us s
first_loop (handshake port fails ∷ ts) us s =
    let next = second_loop us (send_handshake (open_stream port s)) in
    if needs_stream port then (if fails then thrown invalid_handshake else next) else next
first_loop (other_packet ∷ ts) us s = thrown invalid_handshake

-- The session that the constructor makes before it calls `handshake`.
abbrev pub new_session : Session
new_session = record { stream = none; sent_on_control = 0; sent_on_stream = 0 }

unfoldable pub shake_hands : List FirstTurn → List SecondTurn → Handshake
unfolding first_loop
shake_hands ts us = first_loop ts us new_session
