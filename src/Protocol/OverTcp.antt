-- ===== src/Protocol/OverTcp.antt =====
-- A message from the `send` of one typed_socket to the `receive` of the other, over TCP: the two
-- ends of common/wivrn_sockets.h and common/wivrn_sockets.cpp together.
use wi_vrn.Common.{
  ℕ, ◌+◌, ◌^◌, ◌<◌, ◌≤◌, ◌≡◌, refl, ap, ◌∙◌, List, [], ◌∷◌, Option, some, arith, length, map, All,
  append-nil, concat,
}
use mathlib.Core.Path.{subst}
use wi_vrn.Common.{Result, ok}
use wi_vrn.Serial.Types.{Ty, Tys, Value, Choice, IsPlain, IsWf, count}
use wi_vrn.Serial.Packet.{Packet, wire, to_spans}
use wi_vrn.Serial.Cursor.{Cursor, At}
use wi_vrn.Protocol.TypedSocket.{Alternative, inject, send, receive}
use wi_vrn.Protocol.Exchange.{wire-send, receive-send}
use wi_vrn.Socket.{Tcp, Sent, returned, send_raw}
use wi_vrn.Socket.Receiving.{frame, deliver, deliver-frames}
use wi_vrn.Socket.Sending.{AllSent, send_raw-frame}

-- The packet that `receive_raw` hands over for a payload: the whole frame, to be read from behind
-- its size.
abbrev pub packet_of : List ℕ → Cursor
packet_of payload = record { buffer = frame payload; read_index = 2 }

-- What `receive` returns, in order, on a socket that gets these bytes in these pieces.
abbrev pub received : (ts : Tys) → List ℕ → Tcp → List ℕ → List (Result (Option (Choice ts)))
received ts choices s bytes = map (λ p. receive ts (packet_of p)) (deliver choices s bytes)

At-packet_of : (p : List ℕ) → length p < 2 ^ 16 → At (packet_of p) p
At-packet_of p small = record { inside = omega arith; small = omega arith; left = refl }

concat-to_spans : (p : Packet) → concat (to_spans p) ≡ wire p
unfolding wire
concat-to_spans p = refl

-- A message of a plain type, shorter than 64 KiB, that is sent on a TCP socket arrives: however many
-- bytes `sendmsg` takes at a time and `recv` hands over at a time, if each of them moves one byte at
-- least and they are called as often as the frame has bytes, `send` returns, and `receive` returns
-- one message on the other side, which is the value that was sent, under its alternative. The
-- value fits its C++ type, there are at most 256 alternatives, and the receiver starts empty.
pub received-send :
    {t : Ty} {ts : Tys} (a : Alternative t ts) (v : Value t) (answers : List Sent)
    (choices : List ℕ) (s : Tcp)
    → count ts ≤ 256
    → IsPlain t
    → IsWf t v
    → length (wire (send a v)) < 2 ^ 16
    → AllSent answers
    → length (wire (send a v)) + 2 ≤ length answers
    → s.buffer ≡ []
    → All (λ k. 0 < k) choices
    → length (wire (send a v)) + 2 ≤ length choices
    → ((send_raw answers (to_spans (send a v))).0 ≡ returned)
      × (received ts choices s (send_raw answers (to_spans (send a v))).1
          ≡ ok (some (inject a v)) ∷ [])
received-send {t} {ts} a v answers choices s few plain wf small sends enough fresh positive calls =
    let q = wire (send a v) in
    let spans = to_spans (send a v) in
    let joined : concat spans ≡ q = concat-to_spans (send a v) in
    let sent : send_raw answers spans ≡ (returned, frame q) =
      send_raw-frame answers spans (omega (arith, ap length joined)) sends
        (omega (arith, ap length joined))
      ∙ ap (λ x. (returned, frame x)) joined in
    let nonempty : 0 < length q = omega (arith, ap length (wire-send a v)) in
    let there : deliver choices s (frame q) ≡ q ∷ [] =
      subst (λ x. deliver choices s x ≡ q ∷ []) (append-nil (frame q))
        (deliver-frames (q ∷ []) choices s fresh ((nonempty, small), tt) positive
          (omega (arith, ap length (append-nil (frame q))))) in
    (
      ap (λ r. r.0) sent,
      ap (λ r. received ts choices s r.1) sent
          ∙ ap (map (λ p. receive ts (packet_of p))) there
          ∙ ap (λ r. r ∷ []) (receive-send a v (packet_of q) few plain wf (At-packet_of q small)),
    )
