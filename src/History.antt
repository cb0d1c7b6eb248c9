-- ===== src/History.antt =====
-- `history` of server/driver/history.h: the last samples of a tracked object, ascending by time,
-- and the value read from them. The clock offset, the floats and the two functions of `Derived`
-- are parameters; times are natural numbers of nanoseconds. The times that `add_sample` gets are those
-- of the bits of an `XrTime`; `get_at` is for times that are not negative.
pub mod Order
pub mod Kept
mod Reading
mod Runs
use wi_vrn.Common.{
  ℕ, zero, suc, ◌+◌, ◌-◌, ◌%◌, ◌^◌, ◌<◌, min, ◌≡◌, List, [], ◌∷◌, ◌++◌, Option, none, some, Bool,
  true, false, not, ◌&&◌, if◌then◌else◌, ltb, ◌==◌, length,
}
use wi_vrn.Common.Int.{ℤ, pos, sub_ℕ}

-- `TimedData`
pub record TimedData (Data : Type 0) : Type 0 where
  pub sample : Data
  pub produced_timestamp : ℕ
  pub at_timestamp_ns : ℕ

unfoldable pub back : {A : Type 0} → A → List A → A
back x [] = x
back x (y ∷ ys) = back y ys

unfoldable pub pop_back : {A : Type 0} → A → List A → List A
pop_back x [] = []
pop_back x (y ∷ ys) = x ∷ pop_back y ys

-- Whether an `XrTime` is less than another one, by their 64 bits.
abbrev pub signed_lt : ℕ → ℕ → Bool
signed_lt a b = ltb ((a + 2 ^ 63) % 2 ^ 64) ((b + 2 ^ 63) % 2 ^ 64)

module _ {Data : Type 0} where
  -- `std::lower_bound`, which compares unsigned numbers, then the three ways to put the sample there.
  unfoldable pub insert : TimedData Data → List (TimedData Data) → List (TimedData Data)
  insert s [] = s ∷ []
  insert s (x ∷ xs) =
      let rest = insert s xs in
      if ltb x.at_timestamp_ns s.at_timestamp_ns
      then x ∷ rest
      else (if x.at_timestamp_ns == s.at_timestamp_ns then s ∷ xs else s ∷ x ∷ xs)

  -- The last loop: only the newest `max_samples` stay.
  unfoldable pub trim : ℕ → List (TimedData Data) → List (TimedData Data)
  trim max_samples [] = []
  trim max_samples (x ∷ xs) =
      let rest = trim max_samples xs in if ltb max_samples (length (x ∷ xs)) then rest else x ∷ xs

  -- Only one predicted value is kept.
  unfoldable pub forget_prediction : TimedData Data → List (TimedData Data) → List (TimedData Data)
  unfolding back pop_back
  forget_prediction s [] = []
  forget_prediction s (x ∷ xs) =
      if not (s.at_timestamp_ns == s.produced_timestamp)
        && not ((back x xs).at_timestamp_ns == (back x xs).produced_timestamp)
      then pop_back x xs
      else x ∷ xs

  unfoldable pub is_outdated : TimedData Data → List (TimedData Data) → Bool
  unfolding back
  is_outdated s [] = false
  is_outdated s (x ∷ xs) = signed_lt s.produced_timestamp (back x xs).produced_timestamp

  unfoldable pub add_sample :
      (ℕ → ℕ) → ℕ → ℕ → ℕ → Data → List (TimedData Data) → List (TimedData Data)
  unfolding is_outdated forget_prediction insert trim
  add_sample from_headset max_samples produced_timestamp timestamp sample l =
      let s : TimedData Data = record {
        sample = sample;
        produced_timestamp = from_headset produced_timestamp;
        at_timestamp_ns = from_headset timestamp;
      } in
      if is_outdated s l then l else trim max_samples (insert s (forget_prediction s l))

  -- The pair of neighbours that the loop of `get_at` stops at.
  unfoldable pub bracket :
      ℕ → TimedData Data → List (TimedData Data) → Option (TimedData Data × TimedData Data)
  bracket t before [] = none
  bracket t before (after ∷ rest) =
      let found = bracket t after rest in
      if ltb t after.at_timestamp_ns then some (before, after) else found

  module _ {Float : Type 0} (ratio : ℕ → ℕ → Float) (interpolate : Data → Data → Float → Data)
      (extrapolate : Data → Data → ℕ → ℕ → ℕ → Data) where
    abbrev extrapolated : TimedData Data → TimedData Data → ℕ → Data
    extrapolated a b t = extrapolate a.sample b.sample a.at_timestamp_ns b.at_timestamp_ns t

    -- The last two samples, the newer one second.
    abbrev last_two :
        TimedData Data → TimedData Data → List (TimedData Data) → TimedData Data × TimedData Data
    last_two x y [] = (x, y)
    last_two x y (z ∷ zs) = last_two y z zs

    -- What is read from two samples or more that are not stale.
    unfoldable pub read_at :
        Bool → ℕ → TimedData Data → TimedData Data → List (TimedData Data) → ℤ × Data
    unfolding bracket
    read_at extrapolates t x y ys =
        if ltb t x.at_timestamp_ns
        then (pos 0, (if extrapolates then extrapolated x y t else x.sample))
        else elim (bracket t x (y ∷ ys)) [
          | some (before, after) ↦ (
            sub_ℕ t (min before.produced_timestamp after.produced_timestamp),
            interpolate before.sample after.sample (
                ratio (after.at_timestamp_ns - t) (after.at_timestamp_ns - before.at_timestamp_ns)),
          )
          | none ↦
              let (prev, last) = last_two x y ys in
              (
                sub_ℕ t last.produced_timestamp,
                (if extrapolates then extrapolated prev last t else last.sample),
              )
        ]

    -- The value, which is the default one (`none`) if there is no sample, and the samples left.
    unfoldable pub get_at :
        Bool → ℕ → List (TimedData Data) → Option (ℤ × Data) × List (TimedData Data)
    unfolding back read_at
    get_at extrapolates t [] = (none, [])
    get_at extrapolates t (x ∷ []) =
        if ltb (x.at_timestamp_ns + 1000000000) t
        then (none, [])
        else (some (pos 0, x.sample), x ∷ [])
    get_at extrapolates t (x ∷ y ∷ ys) =
        if ltb ((back x (y ∷ ys)).at_timestamp_ns + 1000000000) t
        then (none, [])
        else (some (read_at extrapolates t x y ys), x ∷ y ∷ ys)
