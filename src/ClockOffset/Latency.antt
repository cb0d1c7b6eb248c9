-- ===== src/ClockOffset/Latency.antt =====
-- Which samples the estimator of server/driver/clock_offset.cpp drops.
use native.Mathlib.Nat.{mod-eq_of_lt, add-mod_right, div-le_of_le-mul}
use wi_vrn.Common.{
  ℕ, ◌+◌, ◌-◌, ◌*◌, ◌/◌, ◌%◌, ◌^◌, ◌<◌, ◌≤◌, ◌≡◌, ap, ◌∙◌, List, [], ◌∷◌, arith, length, ltb, All,
}
use wi_vrn.ClockOffset.{
  Sample, latency_of, sum_latency, mean_latency, is_slow, add_int64, gt_int64, num_samples,
}

-- A sample whose answer came after its query, at a time below 2^55 nanoseconds, more than a year.
abbrev pub IsHonest : Sample → Type 0
IsHonest s = (s.query ≤ s.received) × (s.received < 2 ^ 55)

abbrev pub total_latency : List Sample → ℕ
total_latency [] = 0
total_latency (s ∷ samples) = (s.received - s.query) + total_latency samples

regroup : (a b : ℕ) → b ≤ a → a + 2 ^ 64 - b ≡ (a - b) + 2 ^ 64
regroup a b h = omega arith

gt-exact : (a b : ℕ) → a < 2 ^ 60 → b < 2 ^ 60 → gt_int64 a b ≡ ltb b a
gt-exact a b ha hb =
    rw
      (
        mod-eq_of_lt {n = b + 2 ^ 63} {m = 2 ^ 64} (omega arith),
        mod-eq_of_lt {n = a + 2 ^ 63} {m = 2 ^ 64} (omega arith),
      )
      (ground arith)

latency-exact : (s : Sample) → IsHonest s → latency_of s ≡ s.received - s.query
latency-exact s (le, lt) =
    ap (λ k. k % 2 ^ 64) (regroup s.received s.query le)
    ∙ add-mod_right (s.received - s.query) (2 ^ 64)
    ∙ mod-eq_of_lt (omega arith)

total_bound :
    (samples : List Sample) → All IsHonest samples → total_latency samples ≤ length samples * 2 ^ 55
total_bound [] h = omega arith
total_bound (s ∷ samples) ((le, lt), h) = omega (arith, total_bound samples h)

sum-exact :
    (samples : List Sample) (sum : ℕ)
    → All IsHonest samples
    → sum + length samples * 2 ^ 55 < 2 ^ 64
    → sum_latency sum samples ≡ sum + total_latency samples
sum-exact [] sum h lt = omega arith
sum-exact (s ∷ samples) sum (honest, h) lt =
    let e = latency-exact s honest in
    let here : add_int64 sum (latency_of s) ≡ sum + (s.received - s.query) =
      ap (λ k. (sum + k) % 2 ^ 64) e ∙ mod-eq_of_lt (omega arith) in
    ap (λ k. sum_latency k samples) here
    ∙ sum-exact samples (sum + (s.received - s.query)) h (omega arith)
    ∙ omega arith

-- For at most 100 kept samples and a new one whose answers came after their queries, at times below
-- 2^55, no computation overflows: the new one is dropped exactly if its latency is more than three
-- times the mean latency of the kept ones.
pub is_slow-exact :
    (samples : List Sample) (s : Sample)
    → All IsHonest samples
    → IsHonest s
    → 0 < length samples
    → length samples ≤ num_samples
    → is_slow samples s ≡ ltb (3 * (total_latency samples / length samples)) (s.received - s.query)
is_slow-exact samples s h honest some_kept few =
    let latency = latency-exact s honest in
    let sum = sum-exact samples 0 h (omega arith) in
    let mean : mean_latency samples ≡ total_latency samples / length samples =
      ap (λ k. k / length samples) (sum ∙ omega arith) in
    let low : total_latency samples / length samples ≤ 2 ^ 55 =
      div-le_of_le-mul (length samples) (total_bound samples h) in
    let triple : (3 * mean_latency samples) % 2 ^ 64
        ≡ 3 * (total_latency samples / length samples) =
      ap (λ k. (3 * k) % 2 ^ 64) mean ∙ mod-eq_of_lt (omega arith) in
    ap (λ k. gt_int64 k ((3 * mean_latency samples) % 2 ^ 64)) latency
    ∙ ap (gt_int64 (s.received - s.query)) triple
    ∙ gt-exact (s.received - s.query) (3 * (total_latency samples / length samples))
        (omega (arith, honest.0, honest.1)) (omega arith)
