-- ===== src/ClockOffset/Buffer.antt =====
-- The samples that the estimator of server/driver/clock_offset.cpp keeps.
use native.Mathlib.Nat.{mod-lt}
use wi_vrn.Common.{
  ℕ, zero, suc, ◌+◌, ◌<◌, ◌≤◌, ◌≡◌, inl, inr, refl, sym, ap, ◌∙◌, Bool, ◌||◌, not, List, [], ◌∷◌,
  ◌++◌, arith, length, drop, set, ltb, ltb→lt, if◌then◌else◌, Bool-cases, append-nil, length-set,
  length-append, min,
}
use wi_vrn.ClockOffset.{
  Doubles, Sample, Estimator, ClockOffset, no_offset, offset_of, num_samples, is_slow, reset,
  push_sample, replace_sample, add_sample,
}
use wi_vrn.ClockOffset.Aged.{aged, recent, aged-set, aged_next, recent-snoc, recent_all}

module _ {d : Doubles} where
  -- Whether `add_sample` keeps the sample.
  abbrev pub accepts : Estimator d → Sample → Bool
  accepts e s = ltb (length e.samples) num_samples || not (is_slow e.samples s)

  -- The estimator after some responses, with those that it accepted.
  abbrev pub add_samples : List Sample → Estimator d → List Sample → Estimator d × List Sample
  add_samples [] e accepted = (e, accepted)
  add_samples (s ∷ rest) e accepted =
      add_samples rest (add_sample s e) (if accepts e s then accepted ++ (s ∷ []) else accepted)

  record Inv (e : Estimator d) (accepted : List Sample) : Type 0 where
    kept : aged e.samples e.sample_index ≡ recent num_samples accepted
    filled : length e.samples ≡ min num_samples (length accepted)
    below : e.sample_index < num_samples
    unused : length e.samples < num_samples → e.sample_index ≡ 0

  all_kept :
      (e : Estimator d) (accepted : List Sample)
      → length e.samples < num_samples
      → Inv e accepted
      → e.samples ≡ accepted
  all_kept e accepted lt v =
      sym (ap (aged e.samples) (v.unused lt) ∙ append-nil e.samples)
      ∙ v.kept
      ∙ recent_all num_samples accepted (omega (arith, v.filled))

  push-Inv :
      (e : Estimator d) (accepted : List Sample) (s : Sample)
      → length e.samples < num_samples
      → Inv e accepted
      → Inv (push_sample s e) (accepted ++ (s ∷ []))
  push-Inv e accepted s lt v =
      let old = v.unused lt in
      record {
        kept =
            ap (aged (e.samples ++ (s ∷ []))) old
            ∙ append-nil (e.samples ++ (s ∷ []))
            ∙ ap (◌++ (s ∷ [])) (all_kept e accepted lt v)
            ∙ sym (
                recent_all num_samples (accepted ++ (s ∷ []))
                  (omega (arith, length-append accepted (s ∷ []), v.filled)));
        filled =
            omega
              (arith, length-append e.samples (s ∷ []), length-append accepted (s ∷ []), v.filled);
        below = v.below;
        unused = λ _. old;
      }

  replace-Inv :
      (e : Estimator d) (accepted : List Sample) (s : Sample)
      → num_samples ≤ length e.samples
      → Inv e accepted
      → Inv (replace_sample s e) (accepted ++ (s ∷ []))
  replace-Inv e accepted s ge v = record {
    kept =
        aged_next (set e.samples e.sample_index s) e.sample_index num_samples v.below
          (omega (arith, length-set e.samples e.sample_index s, v.filled))
        ∙ aged-set e.samples e.sample_index s (omega (arith, v.below))
        ∙ ap (λ l. drop 1 (l ++ (s ∷ []))) v.kept
        ∙ sym (recent-snoc num_samples accepted s (omega (arith, v.filled)));
    filled =
        omega
          (arith, length-set e.samples e.sample_index s, length-append accepted (s ∷ []), v.filled);
    below = mod-lt (e.sample_index + 1) (omega arith);
    unused = λ lt. absurd (omega (arith, length-set e.samples e.sample_index s));
  }

  add_sample-Inv :
      (e : Estimator d) (accepted : List Sample) (s : Sample)
      → Inv e accepted
      → Inv (add_sample s e) (if accepts e s then accepted ++ (s ∷ []) else accepted)
  unfolding add_sample
  add_sample-Inv e accepted s v = elim (Bool-cases (ltb (length e.samples) num_samples)) [
    | inl lt ↦ rw lt (push-Inv e accepted s (ltb→lt (length e.samples) num_samples lt) v)
    | inr full ↦ elim (Bool-cases (is_slow e.samples s)) [
      | inl slow ↦
          rw (full, slow)
            record { kept = v.kept; filled = v.filled; below = v.below; unused = v.unused }
      | inr fast ↦ rw (full, fast) (replace-Inv e accepted s (ground arith) v)
    ]
  ]

  add_samples-Inv :
      (responses : List Sample) (e : Estimator d) (accepted : List Sample)
      → Inv e accepted
      → Inv (add_samples responses e accepted).0 (add_samples responses e accepted).1
  add_samples-Inv [] e accepted v = v
  add_samples-Inv (s ∷ rest) e accepted v =
      add_samples-Inv rest (add_sample s e) (if accepts e s then accepted ++ (s ∷ []) else accepted)
        (add_sample-Inv e accepted s v)

  -- What the offset is computed from.
  abbrev pub offset_from : List Sample → ClockOffset d
  offset_from [] = no_offset
  offset_from (s ∷ samples) = offset_of d (s ∷ samples)

  offset_from-snoc :
      (l : List Sample) (s : Sample) → offset_of d (l ++ (s ∷ [])) ≡ offset_from (l ++ (s ∷ []))
  offset_from-snoc [] s = refl
  offset_from-snoc (x ∷ l) s = refl

  offset_from-set :
      (l : List Sample) (i : ℕ) (s : Sample)
      → 0 < length l
      → offset_of d (set l i s) ≡ offset_from (set l i s)
  offset_from-set [] i s h = absurd (omega arith)
  offset_from-set (x ∷ l) zero s h = refl
  offset_from-set (x ∷ l) (suc i) s h = refl

  add_sample-offset :
      (e : Estimator d) (s : Sample)
      → e.offset ≡ offset_from e.samples
      → (add_sample s e).offset ≡ offset_from (add_sample s e).samples
  unfolding add_sample
  add_sample-offset e s h = elim (Bool-cases (ltb (length e.samples) num_samples)) [
    | inl lt ↦ rw lt (offset_from-snoc e.samples s)
    | inr full ↦ elim (Bool-cases (is_slow e.samples s)) [
      | inl slow ↦ rw (full, slow) h
      | inr fast ↦ rw (full, fast) (offset_from-set e.samples e.sample_index s (ground arith))
    ]
  ]

  add_samples-offset :
      (responses : List Sample) (e : Estimator d) (accepted : List Sample)
      → e.offset ≡ offset_from e.samples
      → (add_samples responses e accepted).0.offset
        ≡ offset_from (add_samples responses e accepted).0.samples
  add_samples-offset [] e accepted h = h
  add_samples-offset (s ∷ rest) e accepted h =
      add_samples-offset rest (add_sample s e)
        (if accepts e s then accepted ++ (s ∷ []) else accepted) (add_sample-offset e s h)

  -- After any responses since `reset`, the samples of the estimator, from its index around to its
  -- index, are the last 100 of the responses that it accepted, the oldest first, and its offset is
  -- computed from exactly these, or is the unknown one when there are none.
  pub add_samples-recent :
      (responses : List Sample) (e : Estimator d)
      → (aged
            (add_samples responses (reset e) []).0.samples
            (add_samples responses (reset e) []).0.sample_index
          ≡ recent num_samples (add_samples responses (reset e) []).1)
        × ((add_samples responses (reset e) []).0.offset
            ≡ offset_from (add_samples responses (reset e) []).0.samples)
  unfolding reset
  add_samples-recent responses e =
      let v =
        add_samples-Inv responses (reset e) []
          (record { kept = refl; filled = refl; below = omega arith; unused = λ _. refl }) in
      (v.kept, add_samples-offset responses (reset e) [] refl)
