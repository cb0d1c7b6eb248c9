-- ===== src/Video/Accumulator/AnyOrder.antt =====
-- The shards of a frame in any order of arrival (client/decoder/shard_accumulator.cpp).
use wi_vrn.Common.{
  ℕ, suc, ◌+◌, ◌<◌, ◌≡◌, ◌≢◌, refl, sym, ap, ◌∙◌, List, [], ◌∷◌, Option, none, some, true, arith,
  length, All,
}
use wi_vrn.Video.Shard.{Shard, ViewInfo, no_timing, IsTrain}
use wi_vrn.Video.Accumulator.{
  Accumulator, ShardSet, Feedback, Effect, push_data, frame_completed, frame_index, advance, submit,
  try_submit_frame, push_all, payloads, timing_of, is_free, with_effects,
}
use wi_vrn.Video.Accumulator.Slots.{
  put, insert-slots, Agrees, IsAt, put-Agrees, filled, filled-put, is_free-put_ne, filled-sequence,
}
use wi_vrn.Video.Accumulator.Progress.{insert-frame_index}
use wi_vrn.Video.Accumulator.Delivery.{inserted, push_shard-same, try_submit_frame_cases}
use mathlib.Core.Path.{subst}

-- No two shards of the list have the same place.
abbrev pub Distinct : List (ℕ × Shard) → Type 0
Distinct [] = Unit
Distinct ((now, s) ∷ arrivals) = All (λ t. s.shard_idx ≢ t.1.shard_idx) arrivals × Distinct arrivals

-- The arrivals are shards of the frame `ss`, each at its place.
abbrev pub AreOf : ℕ → List Shard → List (ℕ × Shard) → Type 0
AreOf frame ss = All (λ t. (t.1.frame_idx ≡ frame) × IsAt t.1.shard_idx t.1 ss)

abbrev AreFree : List (Option Shard) → List (ℕ × Shard) → Type 0
AreFree slots = All (λ t. is_free slots t.1.shard_idx ≡ true)

AreFree-put :
    (i : ℕ) (s : Shard) (slots : List (Option Shard)) (arrivals : List (ℕ × Shard))
    → All (λ t. i ≢ t.1.shard_idx) arrivals
    → AreFree slots arrivals
    → AreFree (put i s slots) arrivals
AreFree-put i s slots [] d f = tt
AreFree-put i s slots (t ∷ ts) d f =
    (is_free-put_ne i t.1.shard_idx s slots d.0 f.0, AreFree-put i s slots ts d.1 f.1)

AreFree-nil : (arrivals : List (ℕ × Shard)) → AreFree [] arrivals
AreFree-nil [] = tt
AreFree-nil (t ∷ ts) = (refl, AreFree-nil ts)

module _ (frame : ℕ) (s₀ : Shard) (ss : List Shard) (train : IsTrain frame true 0 (s₀ ∷ ss))
    (view : ViewInfo) (viewed : s₀.view_info ≡ some view) where
  -- The outcome of a run that delivers the frame: one `push_data`, one `frame_completed`.
  abbrev pub Delivers : ShardSet → Option (Accumulator × List Effect) → Type 0
  Delivers next r =
      (b : Accumulator) × (fb : Feedback) × (r
        ≡ some (
          b,
          push_data (payloads (s₀ ∷ ss)) frame
              ∷ frame_completed fb (timing_of no_timing (s₀ ∷ ss)) view
              ∷ [],
        ))
      × (fb.frame_index ≡ frame)
      × (b.current ≡ next)

  submit-viewed :
      (a : Accumulator)
      → submit a s₀ ss ≡ (
        advance a,
        push_data (payloads (s₀ ∷ ss)) frame
            ∷ frame_completed a.current.feedback (timing_of no_timing (s₀ ∷ ss)) view
            ∷ [],
      )
  unfolding submit
  submit-viewed a =
      subst
        (λ f. submit a s₀ ss ≡ (
          advance a,
          push_data (payloads (s₀ ∷ ss)) f
              ∷ frame_completed a.current.feedback (timing_of no_timing (s₀ ∷ ss)) view
              ∷ [],
        ))
        train.0 (rw (viewed, submit))

  -- What a shard of the frame does, by what is filled after it.
  try_submit_frame-inserted :
      (now : ℕ) (s : Shard) (a : Accumulator)
      → Agrees (inserted now s a).current.slots (s₀ ∷ ss)
      → (filled (inserted now s a).current.slots < length (s₀ ∷ ss)
          → try_submit_frame (inserted now s a) ≡ (inserted now s a, []))
        × (filled (inserted now s a).current.slots ≡ length (s₀ ∷ ss)
            → try_submit_frame (inserted now s a) ≡ submit (inserted now s a) s₀ ss)
  try_submit_frame-inserted now s a agrees =
      try_submit_frame_cases frame s₀ ss train
        (λ r.
          (filled (inserted now s a).current.slots < length (s₀ ∷ ss) → r ≡ (inserted now s a, []))
          × (filled (inserted now s a).current.slots ≡ length (s₀ ∷ ss)
              → r ≡ submit (inserted now s a) s₀ ss))
        (inserted now s a) agrees (λ lt. (λ h. refl, λ e. absurd (omega arith)))
        (λ e. (
          λ h. absurd (omega (arith, filled-sequence (inserted now s a).current.slots (s₀ ∷ ss) e)),
          λ h. refl,
        ))

  push_all-step :
      (now : ℕ) (s : Shard) (arrivals : List (ℕ × Shard)) (a : Accumulator)
      (r : Accumulator × List Effect)
      → frame_index a.current ≡ frame
      → s.frame_idx ≡ frame
      → try_submit_frame (inserted now s a) ≡ r
      → push_all ((now, s) ∷ arrivals) a ≡ with_effects r.1 (push_all arrivals r.0)
  unfolding push_all
  push_all-step now s arrivals a r cur same e =
      rw (push_shard-same 1 now s a (same ∙ sym cur) ∙ ap some e, push_all)

  with_effects-nil : (r : Option (Accumulator × List Effect)) → with_effects [] r ≡ r
  with_effects-nil none = refl
  with_effects-nil (some r) = refl

  current-advance : (a : Accumulator) → (advance a).current ≡ a.next
  unfolding advance
  current-advance a = refl

  -- The slots after an arrival at a free place.
  slots-inserted :
      (now : ℕ) (s : Shard) (a : Accumulator)
      → Agrees a.current.slots (s₀ ∷ ss)
      → IsAt s.shard_idx s (s₀ ∷ ss)
      → is_free a.current.slots s.shard_idx ≡ true
      → Agrees (inserted now s a).current.slots (s₀ ∷ ss)
        × (filled (inserted now s a).current.slots ≡ suc (filled a.current.slots))
  slots-inserted now s a agrees at free = rw (insert-slots now s a.current) (
    put-Agrees s.shard_idx s a.current.slots (s₀ ∷ ss) at agrees,
    filled-put s.shard_idx s a.current.slots free,
  )

  push_all-Delivers :
      (arrivals : List (ℕ × Shard)) (a : Accumulator)
      → frame_index a.current ≡ frame
      → Agrees a.current.slots (s₀ ∷ ss)
      → AreOf frame (s₀ ∷ ss) arrivals
      → Distinct arrivals
      → AreFree a.current.slots arrivals
      → 0 < length arrivals
      → filled a.current.slots + length arrivals ≡ length (s₀ ∷ ss)
      → Delivers a.next (push_all arrivals a)
  push_all-Delivers [] a cur agrees of d free some_left count = absurd (omega arith)
  push_all-Delivers ((now, s) ∷ []) a cur agrees of d free some_left count =
      let (agrees', filled') = slots-inserted now s a agrees of.0.1 free.0 in
      let b = inserted now s a in
      let done = (try_submit_frame-inserted now s a agrees').1 (omega (arith, filled', count)) in
      (
        advance b,
        b.current.feedback,
        push_all-step now s [] a _ cur of.0.0 (done ∙ submit-viewed b) ∙ unfold push_all in refl,
        insert-frame_index now s a.current ∙ cur,
        current-advance b,
      )
  push_all-Delivers ((now, s) ∷ (t ∷ ts)) a cur agrees of d free some_left count =
      let (agrees', filled') = slots-inserted now s a agrees of.0.1 free.0 in
      let b = inserted now s a in
      let wait = (try_submit_frame-inserted now s a agrees').0 (omega (arith, filled', count)) in
      let e =
        push_all-step now s (t ∷ ts) a (b, []) cur of.0.0 wait
        ∙ with_effects-nil (push_all (t ∷ ts) b) in
      subst (Delivers a.next) (sym e) (
        push_all-Delivers (t ∷ ts) b (insert-frame_index now s a.current ∙ cur) agrees' of.1 d.1
          (subst (λ slots. AreFree slots (t ∷ ts)) (sym (insert-slots now s a.current))
            (AreFree-put s.shard_idx s a.current.slots (t ∷ ts) d.0 free.1))
          (omega arith) (omega (arith, filled', count)))

  -- From a current set that is empty and expects the frame, any arrivals of the shards of the frame,
  -- each once, in any order and at any times, hand over to the decoder the payloads of the whole
  -- frame in order, exactly once, then report the frame as completed with the position information
  -- of its first shard, and make the next set current.
  pub push_all-frame :
      (arrivals : List (ℕ × Shard)) (a : Accumulator)
      → frame_index a.current ≡ frame
      → a.current.slots ≡ []
      → AreOf frame (s₀ ∷ ss) arrivals
      → Distinct arrivals
      → length arrivals ≡ length (s₀ ∷ ss)
      → Delivers a.next (push_all arrivals a)
  push_all-frame arrivals a cur empty of d count =
      push_all-Delivers arrivals a cur (rw empty tt) of d (rw empty (AreFree-nil arrivals))
        (omega arith) (rw empty (omega arith))
