-- ===== src/History/Runs.antt =====
-- A concrete history of numbers, with shares of time in thousandths.
use wi_vrn.Common.{ℕ, ◌+◌, ◌-◌, ◌*◌, ◌/◌, min, ◌≡◌, refl, List, [], ◌∷◌, some, false, arith}
use wi_vrn.Common.Int.{sub_ℕ}
use wi_vrn.History.{
  TimedData, add_sample, get_at, insert, trim, forget_prediction, is_outdated, back, pop_back,
}
use wi_vrn.History.Reading.{Brackets, get_at-Brackets}

abbrev at_time : ℕ → ℕ → TimedData ℕ
at_time t x = record { sample = x; produced_timestamp = t; at_timestamp_ns = t }

abbrev samples : List (TimedData ℕ)
samples = at_time 100 1 ∷ at_time 200 3 ∷ at_time 300 4 ∷ []

-- The headset's clock is 50 behind; the history keeps three samples.
add_sample_run :
    add_sample (λ t. t + 50) 3 300 300 7 samples
    ≡ at_time 200 3 ∷ at_time 300 4 ∷ at_time 350 7 ∷ []
unfolding add_sample insert trim forget_prediction is_outdated back pop_back
add_sample_run = refl

abbrev share : ℕ → ℕ → ℕ
share part whole = part * 1000 / whole

abbrev blend : ℕ → ℕ → ℕ → ℕ
blend x y left = (x * left + y * (1000 - left)) / 1000

abbrev hold : ℕ → ℕ → ℕ → ℕ → ℕ → ℕ
hold x y t u v = y

get_at-Brackets_example :
    (before : TimedData ℕ) × ((after : TimedData ℕ) × (Brackets 250 samples before after
        × (get_at share blend hold false 250 samples ≡ (
          some (
            sub_ℕ 250 (min before.produced_timestamp after.produced_timestamp),
            blend before.sample after.sample (
                share
                  (after.at_timestamp_ns - 250)
                  (after.at_timestamp_ns - before.at_timestamp_ns)),
          ),
          samples,
        ))))
unfolding back
get_at-Brackets_example =
    get_at-Brackets share blend hold false 250 (at_time 100 1) (at_time 200 3 ∷ at_time 300 4 ∷ [])
      (omega arith) (omega arith)
