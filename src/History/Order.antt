-- ===== src/History/Order.antt =====
-- The samples that `add_sample` of server/driver/history.h keeps: ascending by their times as
-- unsigned numbers, and no more than `MaxSamples`.

use wi_vrn.Common.{
  ℕ, ◌<◌, ◌≤◌, List, [], ◌∷◌, Bool, true, false, not, ◌&&◌, if◌then◌else◌, ltb, ◌==◌, length, arith,
  Bool-cases, inl, inr, ltb→lt,
}
use wi_vrn.History.{
  TimedData, back, pop_back, insert, trim, forget_prediction, is_outdated, add_sample,
}

module _ {Data : Type 0} where
  -- Every sample is later than the one before it, and the first one later than `t`.
  abbrev pub IsAscendingFrom : ℕ → List (TimedData Data) → Type 0
  IsAscendingFrom t [] = Unit
  IsAscendingFrom t (x ∷ xs) = (t < x.at_timestamp_ns) × IsAscendingFrom x.at_timestamp_ns xs

  abbrev pub IsAscending : List (TimedData Data) → Type 0
  IsAscending [] = Unit
  IsAscending (x ∷ xs) = IsAscendingFrom x.at_timestamp_ns xs

  weaken : (t u : ℕ) (l : List (TimedData Data)) → t ≤ u → IsAscendingFrom u l → IsAscendingFrom t l
  weaken t u [] h a = tt
  weaken t u (x ∷ xs) h (p, a) = (omega arith, a)

  insert-IsAscendingFrom :
      (t : ℕ) (s : TimedData Data) (l : List (TimedData Data))
      → t < s.at_timestamp_ns
      → IsAscendingFrom t l
      → IsAscendingFrom t (insert s l)
  unfolding insert
  insert-IsAscendingFrom t s [] h a = (h, tt)
  insert-IsAscendingFrom t s (x ∷ xs) h (p, a) =
      elim (Bool-cases (ltb x.at_timestamp_ns s.at_timestamp_ns)) [
        | inl less ↦ rw less (
          p,
          insert-IsAscendingFrom x.at_timestamp_ns s xs
              (ltb→lt x.at_timestamp_ns s.at_timestamp_ns less) a,
        )
        | inr not_less ↦ elim (Bool-cases (x.at_timestamp_ns == s.at_timestamp_ns)) [
          | inl same ↦
              rw (not_less, same)
                (h, weaken s.at_timestamp_ns x.at_timestamp_ns xs (ground arith) a)
          | inr different ↦ rw (not_less, different) (h, (ground arith, a))
        ]
      ]

  insert-IsAscending :
      (s : TimedData Data) (l : List (TimedData Data)) → IsAscending l → IsAscending (insert s l)
  unfolding insert
  insert-IsAscending s [] a = tt
  insert-IsAscending s (x ∷ xs) a = elim (Bool-cases (ltb x.at_timestamp_ns s.at_timestamp_ns)) [
    | inl less ↦ rw less (
        insert-IsAscendingFrom x.at_timestamp_ns s xs
          (ltb→lt x.at_timestamp_ns s.at_timestamp_ns less) a)
    | inr not_less ↦ elim (Bool-cases (x.at_timestamp_ns == s.at_timestamp_ns)) [
      | inl same ↦
          rw (not_less, same) (weaken s.at_timestamp_ns x.at_timestamp_ns xs (ground arith) a)
      | inr different ↦ rw (not_less, different) (ground arith, a)
    ]
  ]

  pop_back-IsAscendingFrom :
      (t : ℕ) (x : TimedData Data) (xs : List (TimedData Data))
      → IsAscendingFrom t (x ∷ xs)
      → IsAscendingFrom t (pop_back x xs)
  unfolding pop_back
  pop_back-IsAscendingFrom t x [] a = tt
  pop_back-IsAscendingFrom t x (y ∷ ys) (p, a) =
      (p, pop_back-IsAscendingFrom x.at_timestamp_ns y ys a)

  forget_prediction-IsAscending :
      (s : TimedData Data) (l : List (TimedData Data))
      → IsAscending l
      → IsAscending (forget_prediction s l)
  unfolding forget_prediction pop_back
  forget_prediction-IsAscending s [] a = tt
  forget_prediction-IsAscending s (x ∷ xs) a = go (
      not (s.at_timestamp_ns == s.produced_timestamp)
      && not ((back x xs).at_timestamp_ns == (back x xs).produced_timestamp))
    where
      popped : (xs : List (TimedData Data)) → IsAscending (x ∷ xs) → IsAscending (pop_back x xs)
      popped [] a = tt
      popped (y ∷ ys) a = pop_back-IsAscendingFrom x.at_timestamp_ns y ys a

      go : (b : Bool) → IsAscending (if b then pop_back x xs else x ∷ xs)
      go true = popped xs a
      go false = a

  tail-IsAscending :
      (x : TimedData Data) (xs : List (TimedData Data)) → IsAscending (x ∷ xs) → IsAscending xs
  tail-IsAscending x [] a = tt
  tail-IsAscending x (y ∷ ys) (p, a) = a

  trim-Keeps :
      (max_samples : ℕ) (l : List (TimedData Data))
      → IsAscending l
      → IsAscending (trim max_samples l) × (length (trim max_samples l) ≤ max_samples)
  unfolding trim
  trim-Keeps max_samples [] a = (tt, omega arith)
  trim-Keeps max_samples (x ∷ xs) a = elim (Bool-cases (ltb max_samples (length (x ∷ xs)))) [
    | inl more ↦ rw more (trim-Keeps max_samples xs (tail-IsAscending x xs a))
    | inr enough ↦ rw enough (a, ground arith)
  ]

  -- `add_sample` keeps the samples ascending in time, no two of the same time, and at most
  -- `MaxSamples` of them, whatever the clock offset and however packets are reordered.
  pub add_sample-IsAscending :
      (from_headset : ℕ → ℕ) (max_samples produced timestamp : ℕ) (sample : Data)
      (l : List (TimedData Data))
      → IsAscending l
      → length l ≤ max_samples
      → IsAscending (add_sample from_headset max_samples produced timestamp sample l)
        × (length (add_sample from_headset max_samples produced timestamp sample l) ≤ max_samples)
  unfolding add_sample
  add_sample-IsAscending from_headset max_samples produced timestamp sample l a fits =
      go (is_outdated s l)
    where
      s : TimedData Data
      s = record {
        sample = sample;
        produced_timestamp = from_headset produced;
        at_timestamp_ns = from_headset timestamp;
      }

      kept : List (TimedData Data)
      kept = trim max_samples (insert s (forget_prediction s l))

      go :
          (b : Bool)
          → IsAscending (if b then l else kept) × (length (if b then l else kept) ≤ max_samples)
      go true = (a, fits)
      go false =
          trim-Keeps max_samples (insert s (forget_prediction s l))
            (insert-IsAscending s (forget_prediction s l) (forget_prediction-IsAscending s l a))
