-- ===== src/Video/Accumulator/Delivery.antt =====
-- What the decoder gets from the shards of one frame (client/decoder/shard_accumulator.cpp).
use wi_vrn.Common.{
  ℕ, suc, ◌<◌, ◌≡◌, refl, sym, ap, ◌∙◌, List, [], ◌∷◌, Option, none, some, true, false, Bool-cases,
  inl, inr, arith, length,
}
use mathlib.Core.Path.{subst}
use native.Mathlib.Decide.{dec_lt}
use wi_vrn.Video.Shard.{Shard, ViewInfo, IsTrain}
use wi_vrn.Video.Accumulator.{
  Accumulator, Effect, push_data, frame_completed, send_feedback, frame_index, frame_diff, insert,
  submit, try_submit_frame, push_shard, sequence, payloads, ends_well,
}
use wi_vrn.Video.Accumulator.Slots.{
  insert-slots, Agrees, IsAt, put-Agrees, filled, sequence-filled, sequence-IsTrain,
  train-ends_well, filled-le,
}
use wi_vrn.Video.Accumulator.Progress.{push_shard_cases}

abbrev pub inserted : ℕ → Shard → Accumulator → Accumulator
inserted now s a = record a { current = insert now s a.current }

-- A shard of the current frame goes into the current set, which is submitted if it can be.
pub push_shard-same :
    (fuel now : ℕ) (s : Shard) (a : Accumulator)
    → s.frame_idx ≡ frame_index a.current
    → push_shard (suc fuel) now s a ≡ some (try_submit_frame (inserted now s a))
push_shard-same fuel now s a e =
    let d : frame_diff s a ≡ 0 = omega arith in
    push_shard_cases (λ r. r ≡ some (try_submit_frame (inserted now s a))) fuel now s a
      (λ past. absurd (omega arith)) (λ le z. refl) (λ le z. absurd (omega arith))
      (λ le z. absurd (omega arith)) (λ le z. absurd (omega arith))

-- Whatever is pushed to the decoder are these payloads, for this frame.
abbrev pub Pushes : List (List ℕ) → ℕ → List Effect → Type 0
Pushes ps frame [] = Unit
Pushes ps frame (push_data qs g ∷ es) = (qs ≡ ps) × (g ≡ frame) × Pushes ps frame es
Pushes ps frame (frame_completed fb t v ∷ es) = Pushes ps frame es
Pushes ps frame (send_feedback fb ∷ es) = Pushes ps frame es

abbrev pub Effects : (List Effect → Type 0) → Option (Accumulator × List Effect) → Type 0
Effects P none = ⊥
Effects P (some r) = P r.1

submit-Pushes :
    (a : Accumulator) (s : Shard) (ss : List Shard)
    → Pushes (payloads (s ∷ ss)) s.frame_idx (submit a s ss).1
unfolding submit
submit-Pushes a s ss = go s.view_info refl
  where
    go :
        (v : Option ViewInfo)
        → s.view_info ≡ v
        → Pushes (payloads (s ∷ ss)) s.frame_idx (submit a s ss).1
    go none e = rw (e, submit) (refl, refl, tt)
    go (some v) e = rw (e, submit) (refl, refl, tt)

try_submit_frame-wait :
    (a : Accumulator) → ends_well (sequence a.current.slots) ≡ false → try_submit_frame a ≡ (a, [])
unfolding try_submit_frame
try_submit_frame-wait a h = go (sequence a.current.slots) refl h
  where
    go :
        (o : Option (List Shard))
        → sequence a.current.slots ≡ o
        → ends_well o ≡ false
        → try_submit_frame a ≡ (a, [])
    go none e f = rw (e, try_submit_frame)
    go (some []) e f = rw (e, try_submit_frame)
    go (some (s ∷ ss)) e f = rw (e, try_submit_frame) (rw f)

-- `try_submit_frame` on slots that hold shards of the frame `ss`.
module _ (frame : ℕ) (s₀ : Shard) (ss : List Shard) (train : IsTrain frame true 0 (s₀ ∷ ss)) where
  pub try_submit_frame_cases :
      (P : Accumulator × List Effect → Type 0) (a : Accumulator)
      → Agrees a.current.slots (s₀ ∷ ss)
      → (filled a.current.slots < length (s₀ ∷ ss) → P (a, []))
      → (sequence a.current.slots ≡ some (s₀ ∷ ss) → P (submit a s₀ ss))
      → P (try_submit_frame a)
  unfolding try_submit_frame
  try_submit_frame_cases P a agrees wait whole =
      elim (Bool-cases (ends_well (sequence a.current.slots))) [
        | inl t ↦
            let e = sequence-IsTrain frame 0 a.current.slots (s₀ ∷ ss) agrees train t in
            rw (e, try_submit_frame) (rw (train-ends_well frame 0 s₀ ss train) (whole e))
        | inr t ↦ rw (try_submit_frame-wait a t) (
            wait (elim (dec_lt (filled a.current.slots) (length (s₀ ∷ ss))) [
              | yes lt ↦ lt
              | no all ↦
                  let e =
                    sequence-filled a.current.slots (s₀ ∷ ss) agrees
                      (omega (arith, filled-le a.current.slots (s₀ ∷ ss) agrees)) in
                  cc (ap ends_well e, t, train-ends_well frame 0 s₀ ss train)
            ]))
      ]

  -- While the current set holds nothing but shards of one frame, each at its place, pushing any
  -- shard of that frame, a new one or a repeated one, in any order, hands over to the decoder
  -- either nothing or exactly the payloads of the whole frame in order, under its index.
  pub push_shard-Pushes :
      (fuel now : ℕ) (s : Shard) (a : Accumulator)
      → Agrees a.current.slots (s₀ ∷ ss)
      → frame_index a.current ≡ frame
      → s.frame_idx ≡ frame
      → IsAt s.shard_idx s (s₀ ∷ ss)
      → Effects (Pushes (payloads (s₀ ∷ ss)) frame) (push_shard (suc fuel) now s a)
  push_shard-Pushes fuel now s a agrees cur same at =
      rw (push_shard-same fuel now s a (same ∙ sym cur)) (
        try_submit_frame_cases (λ r. Pushes (payloads (s₀ ∷ ss)) frame r.1) (inserted now s a)
          (rw (insert-slots now s a.current)
            (put-Agrees s.shard_idx s a.current.slots (s₀ ∷ ss) at agrees))
          (λ lt. tt)
          (λ e.
            subst (λ f. Pushes (payloads (s₀ ∷ ss)) f (submit (inserted now s a) s₀ ss).1) train.0
              (submit-Pushes (inserted now s a) s₀ ss)))
