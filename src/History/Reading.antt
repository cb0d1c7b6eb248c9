-- ===== src/History/Reading.antt =====
-- What `get_at` of server/driver/history.h interpolates between.

use wi_vrn.Common.{
  ℕ, ◌+◌, ◌-◌, ◌<◌, ◌≤◌, min, ◌≡◌, refl, ap, List, [], ◌∷◌, ◌++◌, some, Bool, false, ltb, arith,
  Bool-cases, inl, inr, ltb→lt,
}
use wi_vrn.Common.Int.{sub_ℕ}
use wi_vrn.History.{TimedData, back, bracket, read_at, get_at}

module _ {Data : Type 0} where
  -- `before` and `after` stand side by side in `l`, on the two sides of `t`.
  abbrev pub Brackets : ℕ → List (TimedData Data) → TimedData Data → TimedData Data → Type 0
  Brackets t l before after =
      (earlier : List (TimedData Data)) × ((later : List (TimedData Data)) × ((l
            ≡ earlier ++ before ∷ after ∷ later)
          × ((before.at_timestamp_ns ≤ t) × (t < after.at_timestamp_ns))))

  bracket-Brackets :
      (t : ℕ) (x : TimedData Data) (xs : List (TimedData Data))
      → x.at_timestamp_ns ≤ t
      → t < (back x xs).at_timestamp_ns
      → (before : TimedData Data) × ((after : TimedData Data) × ((bracket t x xs
              ≡ some (before, after))
            × Brackets t (x ∷ xs) before after))
  unfolding bracket back
  bracket-Brackets t x [] h k = absurd (omega arith)
  bracket-Brackets t x (y ∷ ys) h k = elim (Bool-cases (ltb t y.at_timestamp_ns)) [
    | inl less ↦ (x, (y, (rw less refl, ([], (ys, (refl, (h, ltb→lt t y.at_timestamp_ns less)))))))
    | inr not_less ↦
        let (before, (after, (p, (earlier, (later, (q, r)))))) =
          bracket-Brackets t y ys (ground arith) k in
        (before, (after, (rw (not_less, p) refl, (x ∷ earlier, (later, (ap (λ l. x ∷ l) q, r))))))
  ]

  -- Read at a time from the first sample's up to before the last one's, the history interpolates
  -- between the two neighbours on either side of that time, by the share of the time between them
  -- that is left, and keeps its samples; the prediction is measured from the earlier of the times
  -- at which the two were produced.
  pub get_at-Brackets :
      {Float : Type 0} (ratio : ℕ → ℕ → Float) (interpolate : Data → Data → Float → Data)
      (extrapolate : Data → Data → ℕ → ℕ → ℕ → Data) (extrapolates : Bool) (t : ℕ)
      (x : TimedData Data) (xs : List (TimedData Data))
      → x.at_timestamp_ns ≤ t
      → t < (back x xs).at_timestamp_ns
      → (before : TimedData Data) × ((after : TimedData Data) × (Brackets t (x ∷ xs) before after
            × (get_at ratio interpolate extrapolate extrapolates t (x ∷ xs) ≡ (
              some (
                sub_ℕ t (min before.produced_timestamp after.produced_timestamp),
                interpolate before.sample after.sample (
                    ratio
                      (after.at_timestamp_ns - t)
                      (after.at_timestamp_ns - before.at_timestamp_ns)),
              ),
              x ∷ xs,
            ))))
  unfolding get_at read_at back
  get_at-Brackets ratio interpolate extrapolate extrapolates t x [] h k = absurd (omega arith)
  get_at-Brackets ratio interpolate extrapolate extrapolates t x (y ∷ ys) h k =
      let (before, (after, (p, b))) = bracket-Brackets t x (y ∷ ys) h k in
      let not_first : ltb t x.at_timestamp_ns ≡ false = ground arith in
      let not_stale : ltb ((back x (y ∷ ys)).at_timestamp_ns + 1000000000) t ≡ false =
        ground arith in
      (before, (after, (b, rw (not_stale, not_first, p) refl)))
