-- ===== src/Session/Established.antt =====
-- The outcomes of the handshake of client/wivrn_client.cpp.

use wi_vrn.Common.{
  ℕ, ◌<◌, ◌≡◌, refl, List, [], ◌∷◌, Option, none, some, Bool, true, false, if◌then◌else◌, ltb, inl,
  inr, arith, Exception, Bool-cases, ltb→lt,
}
use wi_vrn.Common.Int.{ℤ, pos, negsuc}
use wi_vrn.Session.{
  FirstTurn, poll_failed, silent, partial, handshake, other_packet, SecondTurn, threw, ready,
  Session, Handshake, waiting, thrown, returned, send_handshake, resend_handshake, second_loop,
  open_stream, needs_stream, first_loop, new_session, shake_hands,
}

-- Handshakes went out on one socket only: on the stream if it is connected, to a port that is not 0,
-- at least once; or else on the control socket exactly once.
abbrev pub IsEstablished : Session → Type 0
IsEstablished s = elim (s.stream) [
  | none ↦ (s.sent_on_control ≡ 1) × (s.sent_on_stream ≡ 0)
  | some p ↦ (s.sent_on_control ≡ 0) × (0 < s.sent_on_stream) × (0 < p)
]

abbrev pub WhenReturned : (Session → Type 0) → Handshake → Type 0
WhenReturned P (waiting s) = Unit
WhenReturned P (thrown e) = Unit
WhenReturned P (returned s) = P s

resend_handshake-IsEstablished :
    (s : Session) → IsEstablished s → IsEstablished (resend_handshake s)
unfolding resend_handshake
resend_handshake-IsEstablished s h = go s.stream refl h
  where
    go :
        (o : Option ℕ)
        → s.stream ≡ o
        → IsEstablished (record s { stream = o })
        → IsEstablished (resend_handshake (record s { stream = o }))
    go none e h = h
    go (some p) e h = (h.0, omega arith, h.2)

second_loop-IsEstablished :
    (us : List SecondTurn) (s : Session)
    → IsEstablished s
    → WhenReturned IsEstablished (second_loop us s)
unfolding second_loop
second_loop-IsEstablished [] s h = tt
second_loop-IsEstablished (threw e ∷ us) s h = tt
second_loop-IsEstablished (ready n is_late ∷ us) s h =
    go (ltb 0 n) is_late
      (second_loop-IsEstablished us (resend_handshake s) (resend_handshake-IsEstablished s h))
  where
    go :
        (b c : Bool)
        → WhenReturned IsEstablished (second_loop us (resend_handshake s))
        → WhenReturned IsEstablished (
            if b
            then returned s
            else (if c then thrown Exception.no_handshake else second_loop us (resend_handshake s)))
    go true c rest = h
    go false true rest = tt
    go false false rest = rest

opened-IsEstablished : (port : ℤ) → IsEstablished (send_handshake (open_stream port new_session))
unfolding send_handshake open_stream
opened-IsEstablished (negsuc n) = (refl, refl)
opened-IsEstablished (pos n) = elim (Bool-cases (ltb 0 n)) [
  | inl t ↦ rw t (refl, omega arith, ltb→lt 0 n t)
  | inr t ↦ rw t (refl, refl)
]

-- Whatever the polls find: when the headset's handshake returns, its handshake packet went out on
-- one socket only, on the stream at least once if the stream is connected, which then is to a
-- positive port, and on the control socket exactly once otherwise.
pub shake_hands-IsEstablished :
    (ts : List FirstTurn) (us : List SecondTurn) → WhenReturned IsEstablished (shake_hands ts us)
unfolding shake_hands first_loop
shake_hands-IsEstablished [] us = tt
shake_hands-IsEstablished (poll_failed ∷ ts) us = tt
shake_hands-IsEstablished (silent true ∷ ts) us = tt
shake_hands-IsEstablished (silent false ∷ ts) us = shake_hands-IsEstablished ts us
shake_hands-IsEstablished (partial ∷ ts) us = shake_hands-IsEstablished ts us
shake_hands-IsEstablished (other_packet ∷ ts) us = tt
shake_hands-IsEstablished (handshake port fails ∷ ts) us = go (needs_stream port) fails
  where
    next : Handshake
    next = second_loop us (send_handshake (open_stream port new_session))

    go :
        (b c : Bool)
        → WhenReturned IsEstablished
            (if b then (if c then thrown Exception.invalid_handshake else next) else next)
    go true true = tt
    go true false = second_loop-IsEstablished us _ (opened-IsEstablished port)
    go false c = second_loop-IsEstablished us _ (opened-IsEstablished port)
