-- ===== src/Video/Accumulator/Progress.antt =====
-- The branches and the calls of itself of `push_shard` (client/decoder/shard_accumulator.cpp).
use wi_vrn.Common.{
  ℕ, suc, ◌+◌, ◌%◌, ◌^◌, ◌<◌, ◌≤◌, ◌≡◌, refl, ◌∙◌, List, [], ◌∷◌, Option, none, some, ltb, ◌==◌,
  Bool-cases, inl, inr, arith,
}
use wi_vrn.Video.Shard.{Shard, ends_frame}
use wi_vrn.Video.Accumulator.{
  Accumulator, ShardSet, Effect, send_feedback, frame_index, frame_diff, insert, reset, advance,
  submit, try_submit_frame, push_shard, push_next, restart, with_effect, is_complete, sequence,
  last,
}

-- The assertion at the top of `push_shard`, with the wrap of the 64-bit counter.
abbrev pub IsLinked : Accumulator → Type 0
IsLinked a =
    (frame_index a.current < 2 ^ 64) × (frame_index a.next ≡ (frame_index a.current + 1) % 2 ^ 64)

abbrev pub Returns : (Accumulator → Type 0) → Option (Accumulator × List Effect) → Type 0
Returns P none = ⊥
Returns P (some r) = P r.0

Returns-with_effect :
    (P : Accumulator → Type 0) (e : Effect) (r : Option (Accumulator × List Effect))
    → Returns P r
    → Returns P (with_effect e r)
Returns-with_effect P e none h = h
Returns-with_effect P e (some r) h = h

advance-IsLinked : (a : Accumulator) → IsLinked a → IsLinked (advance a)
unfolding advance reset
advance-IsLinked a h = omega (arith, h.0, h.1)

submit-IsLinked :
    (a : Accumulator) (s : Shard) (ss : List Shard) → IsLinked a → IsLinked (submit a s ss).0
unfolding submit
submit-IsLinked a s ss h = go s.view_info refl
  where
    go : (v : _) → s.view_info ≡ v → IsLinked (submit a s ss).0
    go none e = rw (e, submit) h
    go (some v) e = rw (e, submit) (advance-IsLinked a h)

try_submit_frame-IsLinked : (a : Accumulator) → IsLinked a → IsLinked (try_submit_frame a).0
unfolding try_submit_frame
try_submit_frame-IsLinked a h = go (sequence a.current.slots) refl
  where
    go : (o : Option (List Shard)) → sequence a.current.slots ≡ o → IsLinked (try_submit_frame a).0
    go none e = rw (e, try_submit_frame) h
    go (some []) e = rw (e, try_submit_frame) h
    go (some (s ∷ ss)) e =
        rw (e, try_submit_frame)
          (elim (Bool-cases (ends_frame (last s ss))) [
            | inl t ↦ rw t (submit-IsLinked a s ss h)
            | inr t ↦ rw t h
          ])

pub insert-frame_index :
    (now : ℕ) (s : Shard) (set : ShardSet) → frame_index (insert now s set) ≡ frame_index set
unfolding insert
insert-frame_index now s set = refl

push_next-IsLinked :
    (now : ℕ) (s : Shard) (a : Accumulator) → IsLinked a → IsLinked (push_next now s a).0
unfolding push_next
push_next-IsLinked now s a h =
    let b = record a { next = insert now s a.next } in
    let l : IsLinked b = (h.0, insert-frame_index now s a.next ∙ h.1) in
    elim (Bool-cases (is_complete b.next)) [
      | inl t ↦ rw t (try_submit_frame-IsLinked (advance b) (advance-IsLinked b l))
      | inr t ↦ rw t l
    ]

restart-IsLinked : (i : ℕ) (a : Accumulator) → i < 2 ^ 64 → IsLinked (restart i a)
unfolding restart reset
restart-IsLinked i a h = (h, refl)

-- The branches of a call, for a shard that is not of a past frame.
pub push_shard_cases :
    (P : Option (Accumulator × List Effect) → Type 0) (fuel now : ℕ) (s : Shard) (a : Accumulator)
    → (s.frame_idx < frame_index a.current → P (some (a, [])))
    → (frame_index a.current ≤ s.frame_idx
        → frame_diff s a ≡ 0
        → P (some (try_submit_frame (record a { current = insert now s a.current }))))
    → (frame_index a.current ≤ s.frame_idx → frame_diff s a ≡ 1 → P (some (push_next now s a)))
    → (frame_index a.current ≤ s.frame_idx
        → frame_diff s a ≡ 2
        → P (with_effect (send_feedback a.current.feedback) (push_shard fuel now s (advance a))))
    → (frame_index a.current ≤ s.frame_idx
        → 2 < frame_diff s a
        → P (
            with_effect (send_feedback a.current.feedback) (
              with_effect
                (send_feedback a.next.feedback)
                (push_shard fuel now s (restart s.frame_idx a)))))
    → P (push_shard (suc fuel) now s a)
unfolding push_shard
push_shard_cases P fuel now s a past same near behind lost =
    elim (Bool-cases (ltb s.frame_idx (frame_index a.current))) [
      | inl t₁ ↦ rw t₁ (past (ground arith))
      | inr t₁ ↦
          let le : frame_index a.current ≤ s.frame_idx = ground arith in
          elim (Bool-cases (frame_diff s a == 0)) [
            | inl t₂ ↦ rw (t₁, t₂) (same le (ground arith))
            | inr t₂ ↦ elim (Bool-cases (frame_diff s a == 1)) [
              | inl t₃ ↦ rw (t₁, t₂, t₃) (near le (ground arith))
              | inr t₃ ↦ elim (Bool-cases (frame_diff s a == 2)) [
                | inl t₄ ↦ rw (t₁, t₂, t₃, t₄) (behind le (ground arith))
                | inr t₄ ↦ rw (t₁, t₂, t₃, t₄) (lost le (ground arith))
              ]
            ]
          ]
    ]

push_shard-near :
    (fuel now : ℕ) (s : Shard) (a : Accumulator)
    → IsLinked a
    → frame_diff s a ≤ 1
    → Returns IsLinked (push_shard (suc fuel) now s a)
push_shard-near fuel now s a h d =
    push_shard_cases (Returns IsLinked) fuel now s a (λ past. h)
      (λ le e.
        try_submit_frame-IsLinked (record a { current = insert now s a.current })
          (omega (arith, insert-frame_index now s a.current, h.0, h.1)))
      (λ le e. push_next-IsLinked now s a h) (λ le e. absurd (omega arith))
      (λ le e. absurd (omega arith))

-- Whatever the shard, with a 64-bit frame index, a call of `push_shard` that finds the two shard
-- sets on consecutive frames, as its assertion wants, returns after calling itself at most once,
-- and leaves them so.
pub push_shard-Returns :
    (fuel now : ℕ) (s : Shard) (a : Accumulator)
    → s.frame_idx < 2 ^ 64
    → IsLinked a
    → Returns IsLinked (push_shard (suc (suc fuel)) now s a)
push_shard-Returns fuel now s a small h =
    push_shard_cases (Returns IsLinked) (suc fuel) now s a (λ past. h)
      (λ le e.
        try_submit_frame-IsLinked (record a { current = insert now s a.current })
          (omega (arith, insert-frame_index now s a.current, h.0, h.1)))
      (λ le e. push_next-IsLinked now s a h)
      (λ le e.
        Returns-with_effect IsLinked _ (push_shard (suc fuel) now s (advance a))
          (push_shard-near fuel now s (advance a) (advance-IsLinked a h) (behind le e)))
      (λ le e. Returns-with_effect IsLinked _ _ (
        Returns-with_effect IsLinked _ (push_shard (suc fuel) now s (restart s.frame_idx a)) (
          push_shard-near fuel now s (restart s.frame_idx a) (restart-IsLinked s.frame_idx a small)
            restarted)))
  where
    behind : frame_index a.current ≤ s.frame_idx → frame_diff s a ≡ 2 → frame_diff s (advance a) ≤ 1
    behind le e = unfold advance in omega (arith, h.0, h.1)

    restarted : frame_diff s (restart s.frame_idx a) ≤ 1
    restarted = unfold restart reset in omega arith
