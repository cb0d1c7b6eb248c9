-- ===== src/Pacer/Pacing.antt =====
-- The wake-up times of server/driver/wivrn_pacer.cpp.

use wi_vrn.Common.{
  ℕ, suc, ◌+◌, ◌%◌, ◌^◌, ◌<◌, ◌≤◌, ◌≡◌, List, [], ◌∷◌, ltb, arith, Bool-cases, inl, inr, ltb→lt,
  length, ◌*◌,
}
use wi_vrn.Pacer.{Pacer, Prediction, predict}

-- Calls of `predict` one after the other, each with its time.
unfoldable pub predictions : List ℕ → Pacer → List Prediction
unfolding predict
predictions [] p = []
predictions (now ∷ nows) p = let (prediction, q) = predict now p in prediction ∷ predictions nows q

-- Each wakes up no earlier than it was asked for and than `frame_duration` after `previous` and
-- the one before it, and is then presented, then displayed, after the mean times.
abbrev pub ArePaced : ℕ → ℕ → ℕ → ℕ → List ℕ → List Prediction → Type 0
ArePaced duration present display previous [] [] = Unit
ArePaced duration present display previous (now ∷ nows) (x ∷ xs) =
    (now ≤ x.wake_up_time_ns)
    × (previous + duration ≤ x.wake_up_time_ns)
    × (x.desired_present_time_ns ≡ x.wake_up_time_ns + present)
    × (x.predicted_display_time_ns ≡ x.desired_present_time_ns + display)
    × ArePaced duration present display x.wake_up_time_ns nows xs
ArePaced duration present display previous _ _ = ⊥

-- The times asked for stay so far below the wrap of the 64-bit clock that `n` more frames do too.
abbrev pub AllBelow : ℕ → List ℕ → Type 0
AllBelow bound [] = Unit
AllBelow bound (now ∷ nows) = (now ≤ bound) × AllBelow bound nows

AllBelow-mono : (a b : ℕ) (nows : List ℕ) → a ≤ b → AllBelow a nows → AllBelow b nows
AllBelow-mono a b [] h all = tt
AllBelow-mono a b (now ∷ nows) h all = (omega (arith, all.0), AllBelow-mono a b nows h all.1)

suc-times : (n d : ℕ) → suc n * d ≡ d + n * d
suc-times n d = omega arith

-- Between calls of `predict` without feedback, successive frames are at least the frame duration
-- apart and none is asked to wake up in the past; presentation and display follow by the mean times.
-- No time comes near the wrap of the 64-bit clock.
pub predictions-ArePaced :
    (nows : List ℕ) (p : Pacer) (bound : ℕ)
    → p.next_frame_ns ≤ bound
    → AllBelow bound nows
    → bound
        + length nows * p.frame_duration_ns
        + p.mean_wake_up_to_present_ns
        + p.mean_present_to_display_ns
      < 2 ^ 64
    → ArePaced p.frame_duration_ns p.mean_wake_up_to_present_ns p.mean_present_to_display_ns
        p.next_frame_ns nows
        (predictions nows p)
unfolding predictions predict
predictions-ArePaced [] p bound h all far = tt
predictions-ArePaced (now ∷ nows) p bound h all far =
    let d = p.frame_duration_ns in
    let more = suc-times (length nows) d in
    let sum : (p.next_frame_ns + d) % 2 ^ 64 ≡ p.next_frame_ns + d = omega (arith, more) in
    let wider = AllBelow-mono bound (bound + d) nows (omega arith) all.1 in
    elim (Bool-cases (ltb (p.next_frame_ns + d) now)) [
      | inl past ↦
          let waited = ltb→lt (p.next_frame_ns + d) now past in
          rw (sum, past)
            (
              omega arith,
              omega arith,
              omega (arith, all.0, more),
              omega (arith, all.0, more),
              predictions-ArePaced nows (record p { next_frame_ns = now }) (bound + d)
                  (omega (arith, all.0)) wider (omega (arith, more)),
            )
      | inr ahead ↦
          let on_time : now ≤ p.next_frame_ns + d = ground arith in
          rw (sum, ahead)
            (
              omega arith,
              omega arith,
              omega (arith, more),
              omega (arith, more),
              predictions-ArePaced nows (record p { next_frame_ns = p.next_frame_ns + d })
                  (bound + d) (omega arith) wider (omega (arith, more)),
            )
    ]
