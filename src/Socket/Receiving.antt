-- ===== src/Socket/Receiving.antt =====
-- TCP::receive_raw of common/wivrn_sockets.cpp on a stream that comes in pieces.
use wi_vrn.Common.{
  ℕ, ◌+◌, ◌^◌, ◌<◌, ◌≤◌, ◌≡◌, refl, sym, ap, ◌∙◌, List, [], ◌∷◌, ◌++◌, length, take, drop, concat,
  map, min, leb, if◌then◌else◌, false, arith, length-append, take-append, take_prefix, take_all,
  drop_all, length-take, length-drop, take-append-drop, drop-append, append-nil, append_assoc, All,
}
use native.Mathlib.Decide.{dec_lt}
use wi_vrn.Common.{Result, ok, err}
use wi_vrn.Serial.Cursor.{Cursor, is_empty}
use wi_vrn.Serial.Encoding.{bytes_of, number_of}
use wi_vrn.Serial.Encoding.Reading.{number_of-bytes_of, length-bytes_of}
use wi_vrn.Socket.{
  Tcp, Recv, received, payload_size, expected_size, no_packet, finish_receive, receive_raw,
}

-- A message on the stream.
abbrev pub frame : List ℕ → List ℕ
frame payload = bytes_of 2 (length payload) ++ payload

-- The unread bytes of a packet, if there is one.
abbrev pub unread : Result Cursor → List (List ℕ)
unread (ok c) = if is_empty c then [] else drop c.read_index c.buffer ∷ []
unread (err e) = []

-- The kernel holds the bytes `pending`; each call of `recv` hands over at most as many as asked
-- for, and at most as many as the next choice says. The messages that come out, in order.
unfoldable pub deliver : List ℕ → Tcp → List ℕ → List (List ℕ)
deliver [] s pending = []
deliver (k ∷ choices) s pending =
    let m = min k (expected_size s.buffer) in
    let (r, s') = receive_raw (λ n. received (take m pending)) s in
    unread r ++ deliver choices s' (drop m pending)

-- `b` is what was received of the frame of `q`, and `c` is what is still to come of it.
module _ (q b c : List ℕ) (small : length q < 2 ^ 16) (e : b ++ c ≡ frame q) where
  length-parts : length b + length c ≡ 2 + length q
  length-parts =
      omega (arith, length-append b c, ap length e, length-append (bytes_of 2 (length q)) q)

  payload_size-part : 2 ≤ length b → payload_size b ≡ length q
  payload_size-part h =
      ap number_of (
        sym (take-append 2 b c h)
        ∙ ap (take 2) e
        ∙ take_prefix 2 (bytes_of 2 (length q)) q (length-bytes_of 2 (length q)))
      ∙ number_of-bytes_of 2 (length q) (omega arith)

  -- It asks for no more than the frame still lacks, and for one byte at least.
  expected_size-part : 0 < length c → (0 < expected_size b) × (expected_size b ≤ length c)
  expected_size-part h = ground (arith, length-parts, payload_size-part)

  finish_receive-part :
      (s : Tcp) → s.buffer ≡ b → 0 < length c → finish_receive s ≡ (ok no_packet, s)
  unfolding finish_receive
  finish_receive-part s h more = ground (arith, length-parts, payload_size-part)

finish_receive-frame :
    (q : List ℕ) (s : Tcp)
    → length q < 2 ^ 16
    → s.buffer ≡ frame q
    → finish_receive s
      ≡ (ok (record { buffer = s.buffer; read_index = 2 }), record s { buffer = [] })
unfolding finish_receive
finish_receive-frame q s small h = ground (
  arith,
  length-parts q (frame q) [] small (append-nil (frame q)),
  payload_size-part q (frame q) [] small (append-nil (frame q)),
)

unread-frame :
    (q buffer : List ℕ)
    → 0 < length q
    → buffer ≡ frame q
    → unread (ok (record { buffer = buffer; read_index = 2 })) ≡ q ∷ []
unfolding is_empty
unread-frame [] buffer h e = absurd (omega arith)
unread-frame (x ∷ q) buffer h e =
    let t : leb (length (frame (x ∷ q))) 2 ≡ false = ground arith in rw e (rw t)

-- The socket with the bytes `d` behind its buffer.
abbrev grown : Tcp → List ℕ → Tcp
grown s d = record s { buffer = s.buffer ++ d; bytes_received = s.bytes_received + length d }

receive_raw-received :
    (recv : ℕ → Recv) (s : Tcp) (d : List ℕ)
    → 0 < length d
    → recv (expected_size s.buffer) ≡ received d
    → receive_raw recv s ≡ finish_receive (grown s d)
unfolding receive_raw
receive_raw-received recv s [] p h = absurd (omega arith)
receive_raw-received recv s (x ∷ xs) p h = rw (h, receive_raw)

receive_raw-nil :
    (recv : ℕ → Recv) (s : Tcp)
    → recv (expected_size s.buffer) ≡ received []
    → unread (receive_raw recv s).0 ≡ []
unfolding receive_raw
receive_raw-nil recv s h = rw (h, receive_raw)

deliver-nil : (choices : List ℕ) (s : Tcp) → deliver choices s [] ≡ []
unfolding deliver
deliver-nil [] s = refl
deliver-nil (k ∷ choices) s =
    let m = min k (expected_size s.buffer) in
    let recv : ℕ → Recv = λ n. received (take m []) in
    rw
      (
        drop_all {A = ℕ} m [] (omega arith),
        receive_raw-nil recv s (ap received (take_all m [] (omega arith))),
      )
      (deliver-nil choices _)

-- A call that gets part of what is still to come of a frame, and a call that gets the rest.
receive_raw-part :
    (recv : ℕ → Recv) (s : Tcp) (q d c : List ℕ)
    → length q < 2 ^ 16
    → (s.buffer ++ d) ++ c ≡ frame q
    → 0 < length d
    → 0 < length c
    → recv (expected_size s.buffer) ≡ received d
    → receive_raw recv s ≡ (ok no_packet, grown s d)
receive_raw-part recv s q d c small e p more h =
    receive_raw-received recv s d p h
    ∙ finish_receive-part q (s.buffer ++ d) c small e (grown s d) refl more

receive_raw-whole :
    (recv : ℕ → Recv) (s : Tcp) (q d : List ℕ)
    → length q < 2 ^ 16
    → s.buffer ++ d ≡ frame q
    → 0 < length d
    → recv (expected_size s.buffer) ≡ received d
    → receive_raw recv s
      ≡ (ok (record { buffer = s.buffer ++ d; read_index = 2 }), record (grown s d) { buffer = [] })
receive_raw-whole recv s q d small e p h =
    receive_raw-received recv s d p h ∙ finish_receive-frame q (grown s d) small e

-- What `deliver` does while `b ++ c` is the frame of `q`, `b` is in the buffer and `c` is pending.
deliver_step :
    (q c rest choices : List ℕ) (k : ℕ) (s : Tcp) (ms : List (List ℕ))
    → length q < 2 ^ 16
    → 0 < length q
    → s.buffer ++ c ≡ frame q
    → 0 < length c
    → 0 < k
    → ((s' : Tcp) (c' : List ℕ)
        → s'.buffer ++ c' ≡ frame q
        → 0 < length c'
        → length c' < length c
        → deliver choices s' (c' ++ rest) ≡ q ∷ ms)
    → ((s' : Tcp) → s'.buffer ≡ [] → deliver choices s' rest ≡ ms)
    → deliver (k ∷ choices) s (c ++ rest) ≡ q ∷ ms
unfolding deliver is_empty
deliver_step q c rest choices k s ms small full e more hk part whole =
    rw (take-append m c rest bound.1, drop-append m c rest bound.1)
      (elim (dec_lt m (length c)) [
        | yes lt ↦
            rw (receive_raw-part recv s q (take m c) (drop m c) small split taken (left lt) refl)
              (part (grown s (take m c)) (drop m c) split (left lt) shorter)
        | no all ↦
            rw (take_all m c (omega arith), drop_all m c (omega arith))
              (rw
                (
                  receive_raw-whole (λ n. received c) s q c small e more refl,
                  unread-frame q (s.buffer ++ c) full e,
                )
                (ap (◌∷◌ q) (whole (record (grown s c) { buffer = [] }) refl)))
      ])
  where
    m : ℕ
    m = min k (expected_size s.buffer)

    recv : ℕ → Recv
    recv n = received (take m c)

    bound : (0 < m) × (m ≤ length c)
    bound = let b = expected_size-part q s.buffer c small e more in omega (arith, b.0, b.1)

    split : (s.buffer ++ take m c) ++ drop m c ≡ frame q
    split =
        append_assoc s.buffer (take m c) (drop m c) ∙ ap (◌++◌ s.buffer) (take-append-drop m c) ∙ e

    taken : 0 < length (take m c)
    taken = omega (arith, length-take m c, bound.0, bound.1)

    left : m < length c → 0 < length (drop m c)
    left lt = omega (arith, length-drop m c)

    shorter : length (drop m c) < length c
    shorter = omega (arith, length-drop m c, bound.0, bound.1)

abbrev pub frames : List (List ℕ) → List ℕ
frames qs = concat (map frame qs)

-- A payload that a frame can carry: not empty, and of a size that 16 bits hold.
abbrev pub IsPayload : List ℕ → Type 0
IsPayload q = (0 < length q) × (length q < 2 ^ 16)

deliver_within :
    (choices : List ℕ) (q : List ℕ) (qs : List (List ℕ)) (s : Tcp) (c : List ℕ)
    → s.buffer ++ c ≡ frame q
    → 0 < length c
    → All IsPayload (q ∷ qs)
    → All (λ k. 0 < k) choices
    → length (c ++ frames qs) ≤ length choices
    → deliver choices s (c ++ frames qs) ≡ q ∷ qs
deliver_within [] q qs s c e more g p enough = absurd (omega (arith, length-append c (frames qs)))
deliver_within (k ∷ ks) q [] s c e more g p enough =
    deliver_step q c [] ks k s [] g.0.1 g.0.0 e more p.0
      (λ s' c' e' more' lt.
        deliver_within ks q [] s' c' e' more' g p.1
          (omega (arith, length-append c [], length-append c' [])))
      (λ s' h. deliver-nil ks s')
deliver_within (k ∷ ks) q (q' ∷ qs) s c e more g p enough =
    deliver_step q c (frames (q' ∷ qs)) ks k s (q' ∷ qs) g.0.1 g.0.0 e more p.0
      (λ s' c' e' more' lt.
        deliver_within ks q (q' ∷ qs) s' c' e' more' g p.1
          (omega (arith, length-append c (frames (q' ∷ qs)), length-append c' (frames (q' ∷ qs)))))
      (λ s' h.
        deliver_within ks q' qs s' (frame q') (rw h) (omega arith) g.1 p.1
          (omega (arith, length-append c (frames (q' ∷ qs)))))

-- For any non-empty payloads below 64 KiB, written to the stream one after the other as frames, and
-- for any way in which the kernel hands the stream over in pieces of at least one byte each, a
-- socket that starts empty returns exactly those payloads, in order, once there were as many calls
-- as the stream has bytes.
pub deliver-frames :
    (qs : List (List ℕ)) (choices : List ℕ) (s : Tcp)
    → s.buffer ≡ []
    → All IsPayload qs
    → All (λ k. 0 < k) choices
    → length (frames qs) ≤ length choices
    → deliver choices s (frames qs) ≡ qs
deliver-frames [] choices s h g p enough = deliver-nil choices s
deliver-frames (q ∷ qs) choices s h g p enough =
    deliver_within choices q qs s (frame q) (rw h) (omega arith) g p enough
