-- ===== src/Connection/Handshake.antt =====
-- The outcomes of the handshake of server/driver/wivrn_connection.cpp.

use wi_vrn.Common.{
  ℕ, ◌≡◌, refl, List, [], ◌∷◌, Option, none, some, Bool, true, false, if◌then◌else◌, ◌==◌, ◌⊎◌, inl,
  inr, ==_iff, Bool-cases, system_error, no_handshake, socket_error,
}
use wi_vrn.Connection.{
  Control, nothing_read, partial, handshake, other_packet, Turn, Stream, absent, bound, connected,
  StreamPort, no_port, port, Connection, Outcome, waiting, thrown, finished, send_handshake,
  conclude, after_datagram, turn, loop, init, heard, on_stream, on_control, send_stream,
}

-- The stream as the last handshake announces it: to the client's address, or not at all.
abbrev pub Announced : ℕ → StreamPort → Connection → Type 0
Announced client p c = elim (c.stream) [
  | absent ↦ (p ≡ no_port) × (send_stream c ≡ on_control)
  | bound server_port ↦ ⊥
  | connected address from ↦ (address ≡ client) × (send_stream c ≡ on_stream)
]

-- A connection is active exactly once the handshake is done, when two handshakes are out: `first`,
-- and one that announces the stream; the stream's port is `first` or withdrawn.
abbrev pub Agreed : ℕ → StreamPort → Outcome → Type 0
Agreed client first (waiting c) = c.active ≡ false
Agreed client first (thrown e c) = c.active ≡ false
Agreed client first (finished c) =
    (c.active ≡ true)
    × ((second : StreamPort) × ((c.sent ≡ first ∷ second ∷ [])
          × (((second ≡ first) ⊎ (second ≡ no_port)) × Announced client second c)))

abbrev start : StreamPort → Stream → Connection
start p s = record { active = false; stream = s; sent = p ∷ [] }

after_datagram-Agreed :
    (client : ℕ) (p : StreamPort) (t : Turn) (s : Stream) (again : Outcome)
    → Agreed client p again
    → Agreed client p (after_datagram p t (start p s) again)
unfolding after_datagram conclude send_handshake send_stream
after_datagram-Agreed client p t s again h = go t.control refl
  where
    late : (b : Bool) → Agreed client p (if b then thrown no_handshake (start p s) else again)
    late true = refl
    late false = h

    go : (x : Control) → t.control ≡ x → Agreed client p (after_datagram p t (start p s) again)
    go nothing_read e = rw e (late t.is_late)
    go partial e = rw e (late t.is_late)
    go handshake e = rw e (refl, (no_port, (refl, (inr refl, (refl, refl)))))
    go other_packet e = rw e refl

turn-Agreed :
    (client : ℕ) (p : StreamPort) (t : Turn) (s : Stream) (again : Outcome)
    → Agreed client p again
    → Agreed client p (turn client p t (start p s) again)
unfolding turn conclude send_handshake send_stream
turn-Agreed client p t s again h = go t.poll_failed t.stream_broken t.control_broken
  where
    rest : Agreed client p (after_datagram p t (start p s) again)
    rest = after_datagram-Agreed client p t s again h

    from_datagram :
        (x : Option (ℕ × ℕ))
        → Agreed client p (elim x [
          | none ↦ after_datagram p t (start p s) again
          | some (address, from) ↦
              if address == client
              then conclude p (record (start p s) { stream = connected address from })
              else after_datagram p t (start p s) again
        ])
    from_datagram none = rest
    from_datagram (some (address, from)) = elim (Bool-cases (address == client)) [
      | inl same ↦ rw same (refl, (p, (refl, (inl refl, ((==_iff address client).0 same, refl)))))
      | inr different ↦ rw different rest
    ]

    go :
        (b₁ b₂ b₃ : Bool)
        → Agreed client p (
            if b₁
            then thrown system_error (start p s)
            else (if b₂
                then thrown socket_error (start p s)
                else (if b₃ then thrown socket_error (start p s) else elim (heard s t.datagram) [
                  | none ↦ after_datagram p t (start p s) again
                  | some (address, from) ↦
                      if address == client
                      then conclude p (record (start p s) { stream = connected address from })
                      else after_datagram p t (start p s) again
                ])))
    go true b₂ b₃ = refl
    go false true b₃ = refl
    go false false true = refl
    go false false false = from_datagram (heard s t.datagram)

loop-Agreed :
    (client : ℕ) (p : StreamPort) (ts : List Turn) (s : Stream)
    → Agreed client p (loop client p ts (start p s))
unfolding loop
loop-Agreed client p [] s = refl
loop-Agreed client p (t ∷ ts) s =
    turn-Agreed client p t s (loop client p ts (start p s)) (loop-Agreed client p ts s)

-- Whatever the polls find: the connection becomes active only by finishing the handshake, with
-- exactly two handshake packets sent, the second of which repeats the port announced first or
-- withdraws it; a stream that is connected leads to the client's own address and carries what
-- `send_stream` sends, and without one the second handshake announces none and `send_stream` uses
-- the control socket.
pub init-Agreed :
    (tcp_only : Bool) (server_port client : ℕ) (ts : List Turn) (c : Connection)
    → c.sent ≡ []
    → Agreed client
        (if tcp_only then no_port else port server_port)
        (init tcp_only server_port client ts c)
unfolding init send_handshake
init-Agreed true server_port client ts c fresh = rw fresh (loop-Agreed client no_port ts absent)
init-Agreed false server_port client ts c fresh =
    rw fresh (loop-Agreed client (port server_port) ts (bound server_port))
