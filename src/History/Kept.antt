-- ===== src/History/Kept.antt =====
-- What `add_sample` of server/driver/history.h keeps.
use wi_vrn.Common.{ℕ, inl, inr, not, ◌&&◌, List, [], ◌∷◌, All, ltb, ◌==◌, length, Bool-cases}
use wi_vrn.History.{
  TimedData, back, pop_back, insert, trim, forget_prediction, is_outdated, add_sample,
}

module _ {Data : Type 0} (P : TimedData Data → Type 0) where
  All-insert : (s : TimedData Data) (l : List (TimedData Data)) → P s → All P l → All P (insert s l)
  unfolding insert
  All-insert s [] p all = (p, tt)
  All-insert s (x ∷ xs) p (q, all) = elim (Bool-cases (ltb x.at_timestamp_ns s.at_timestamp_ns)) [
    | inl less ↦ rw less (q, All-insert s xs p all)
    | inr not_less ↦ elim (Bool-cases (x.at_timestamp_ns == s.at_timestamp_ns)) [
      | inl same ↦ rw (not_less, same) (p, all)
      | inr different ↦ rw (not_less, different) (p, (q, all))
    ]
  ]

  All-trim : (max_samples : ℕ) (l : List (TimedData Data)) → All P l → All P (trim max_samples l)
  unfolding trim
  All-trim max_samples [] all = tt
  All-trim max_samples (x ∷ xs) (p, all) = elim (Bool-cases (ltb max_samples (length (x ∷ xs)))) [
    | inl more ↦ rw more (All-trim max_samples xs all)
    | inr enough ↦ rw enough (p, all)
  ]

  All-pop_back :
      (x : TimedData Data) (xs : List (TimedData Data)) → All P (x ∷ xs) → All P (pop_back x xs)
  unfolding pop_back
  All-pop_back x [] all = tt
  All-pop_back x (y ∷ ys) (p, all) = (p, All-pop_back y ys all)

  All-forget :
      (s : TimedData Data) (l : List (TimedData Data)) → All P l → All P (forget_prediction s l)
  unfolding forget_prediction
  All-forget s [] all = tt
  All-forget s (x ∷ xs) all =
      elim (Bool-cases (
        not (s.at_timestamp_ns == s.produced_timestamp)
        && not ((back x xs).at_timestamp_ns == (back x xs).produced_timestamp))) [
          | inl forget ↦ rw forget (All-pop_back x xs all)
          | inr keep ↦ rw keep all
        ]

  -- The samples kept are old ones and the new one.
  pub All-add_sample :
      (from_headset : ℕ → ℕ) (max_samples produced timestamp : ℕ) (sample : Data)
      (l : List (TimedData Data))
      → P (record {
        sample = sample;
        produced_timestamp = from_headset produced;
        at_timestamp_ns = from_headset timestamp;
      })
      → All P l
      → All P (add_sample from_headset max_samples produced timestamp sample l)
  unfolding add_sample
  All-add_sample from_headset max_samples produced timestamp sample l new all =
      let s : TimedData Data = record {
        sample = sample;
        produced_timestamp = from_headset produced;
        at_timestamp_ns = from_headset timestamp;
      } in
      elim (Bool-cases (is_outdated s l)) [
        | inl outdated ↦ rw outdated all
        | inr recent ↦ rw recent (
            All-trim max_samples (insert s (forget_prediction s l))
              (All-insert s (forget_prediction s l) new (All-forget s l all)))
      ]
