-- ===== src/Protocol/Exchange.antt =====
-- Both ends of typed_socket of common/wivrn_sockets.h: `send` on one, `receive` on the other.
use wi_vrn.Common.{
  ℕ, suc, ◌-◌, ◌%◌, ◌≤◌, ◌<◌, ◌≡◌, refl, ap, ◌∙◌, List, [], ◌∷◌, ◌++◌, some, append-nil,
  append_assoc, length, length-drop, arith, false, leb, ◌==◌,
}
use wi_vrn.Common.{ok}
use wi_vrn.Serial.Types.{
  Ty, Tys, nil, cons, structure, Value, Fields, count, IsPlain, IsWf, ArePlain, AreWf,
}
use wi_vrn.Serial.Packet.{clear, write, wire}
use wi_vrn.Serial.Packet.Wire.{clear-IsValid, wire-clear, write-IsValid, wire-write}
use wi_vrn.Serial.Cursor.{Cursor, At, At-advance, advance, is_empty, steal_buffer}
use wi_vrn.Serial.Encoding.{
  bytes_of, encode, encode_fields, deserialize, deserialize_fields, deserialize_aux,
}
use wi_vrn.Serial.Encoding.Writing.{wire-serialize}
use wi_vrn.Serial.Encoding.Reading.{Reads-number}
use wi_vrn.Serial.Encoding.RoundTrip.{deserialize-encode}
use wi_vrn.Protocol.Base.{hold_last}
use wi_vrn.Protocol.TypedSocket.{Alternative, here, there, position, inject, send, receive}

-- A message: the index of its type, then its encoding.
abbrev pub message : {t : Ty} {ts : Tys} → Alternative t ts → Value t → List ℕ
message {t} a v = bytes_of 1 (position a) ++ encode t v

position-lt-count : {t : Ty} {ts : Tys} (a : Alternative t ts) → position a < count ts
position-lt-count here = omega arith
position-lt-count (there a) = omega (arith, position-lt-count a)

pub wire-send :
    {t : Ty} {ts : Tys} (a : Alternative t ts) (v : Value t) → wire (send a v) ≡ message a v
unfolding send
wire-send {t} a v =
    let head = bytes_of 1 (position a % 256) in
    let e : position a % 256 % 256 ≡ position a % 256 = omega arith in
    (wire-serialize t v (write head clear) (write-IsValid clear head clear-IsValid)).1
    ∙ rw (wire-write clear head clear-IsValid, wire-clear, e)

-- The reader of an alternative runs behind the index.
deserialize_aux-inject :
    {t : Ty} {ts : Tys} (a : Alternative t ts) (c d : Cursor) (w : Value t)
    → deserialize t c ≡ ok (w, d)
    → deserialize_aux ts (position a) c ≡ ok (inject a w, d)
unfolding deserialize
deserialize_aux-inject here c d w h = rw h
deserialize_aux-inject (there a) c d w h =
    let e : suc (position a) - 1 ≡ position a = omega arith in
    let z : (suc (position a) == 0) ≡ false = ground arith in
    rw (z, e) (rw (deserialize_aux-inject a c d w h))

At-nonempty : (c : Cursor) (x : ℕ) (xs : List ℕ) → At c (x ∷ xs) → is_empty c ≡ false
unfolding is_empty
At-nonempty c x xs h = ground (arith, length-drop c.read_index c.buffer, ap length h.left)

receive-inject :
    {t : Ty} {ts : Tys} (a : Alternative t ts) (v w : Value t) (c d : Cursor)
    → count ts ≤ 256
    → At c (message a v)
    → deserialize t (advance c 1) ≡ ok (w, d)
    → receive ts c ≡ ok (some (inject a w))
unfolding receive deserialize
receive-inject {t} {ts} a v w c d small h r =
    let lt = position-lt-count a in
    let i = (Reads-number 1 (position a) (omega arith)).at c (encode t v) h in
    let f : leb (count ts) (position a) ≡ false = ground arith in
    rw (
      At-nonempty c (position a % 256) (encode t v) h,
      i,
      f,
      deserialize_aux-inject a (advance c 1) d w r,
    )

-- A message of a plain type that is one of the receiver's at most 256 alternatives is received as
-- that alternative with the value that was sent, if the sender's value fits its C++ type and the
-- unread bytes of the received packet, shorter than 2^64, are the bytes that `send` put out.
pub receive-send :
    {t : Ty} {ts : Tys} (a : Alternative t ts) (v : Value t) (c : Cursor)
    → count ts ≤ 256
    → IsPlain t
    → IsWf t v
    → At c (wire (send a v))
    → receive ts c ≡ ok (some (inject a v))
receive-send {t} a v c small p w h =
    let h' : At c (message a v) = rw (wire-send a v) at h in
    let next : At (advance c 1) (encode t v) =
      At-advance c (bytes_of 1 (position a)) (encode t v) h' in
    receive-inject a v v c _ small h'
      (deserialize-encode t v (advance c 1) [] p w (rw (append-nil (encode t v)) next))

-- The fields `v`, and a holder that owns `buffer`.
abbrev pub held : (ts : Tys) → Fields ts → List ℕ → Fields (hold_last ts)
held nil v buffer = (buffer, tt)
held (cons t ts) v buffer = (v.0, held ts v.1 buffer)

deserialize_fields-held :
    (ts : Tys) (v : Fields ts) (own : List ℕ) (c : Cursor) (rest : List ℕ)
    → ArePlain ts
    → AreWf ts v
    → At c (encode_fields (hold_last ts) (held ts v own) ++ rest)
    → (d : Cursor) × (deserialize_fields (hold_last ts) c ≡ ok (held ts v c.buffer, d))
unfolding deserialize steal_buffer
deserialize_fields-held nil v own c rest p w h = (record c { buffer = [] }, refl)
deserialize_fields-held (cons t ts) v own c rest p w h =
    let later = encode_fields (hold_last ts) (held ts v.1 own) in
    let h' : At c (encode t v.0 ++ (later ++ rest)) = rw append_assoc at h in
    let first = deserialize-encode t v.0 c (later ++ rest) p.0 w.0 h' in
    let (d, e) =
      deserialize_fields-held ts v.1 own (advance c (length (encode t v.0))) rest p.1 w.1
        (At-advance c (encode t v.0) (later ++ rest) h') in
    (d, rw first (rw e))

-- The messages that carry bytes out of line, audio data and video shards: their fields are
-- received as they were sent, and the holder owns the whole received packet, so that the bytes
-- behind the spans stay alive. What the sender's holder owns is not sent. The fields before the
-- holder are of plain types and fit them, and there are at most 256 alternatives.
pub receive-send-held :
    (ts : Tys) {us : Tys} (a : Alternative (structure (hold_last ts)) us) (v : Fields ts)
    (own : List ℕ) (c : Cursor)
    → count us ≤ 256
    → ArePlain ts
    → AreWf ts v
    → At c (wire (send a (held ts v own)))
    → receive us c ≡ ok (some (inject a (held ts v c.buffer)))
unfolding deserialize
receive-send-held ts {us} a v own c small p w h =
    let sent = held ts v own in
    let bytes = encode_fields (hold_last ts) sent in
    let h' : At c (message a sent) = rw (wire-send a sent) at h in
    let next : At (advance c 1) bytes = At-advance c (bytes_of 1 (position a)) bytes h' in
    let (d, e) =
      deserialize_fields-held ts v own (advance c 1) [] p w (rw (append-nil bytes) next) in
    receive-inject a sent (held ts v c.buffer) c d small h' e
