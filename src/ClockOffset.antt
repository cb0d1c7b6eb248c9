-- ===== src/ClockOffset.antt =====
-- `clock_offset_estimator` of server/driver/clock_offset.cpp and .h. An `int64_t` is its 64 bits, a
-- number below 2^64; the arithmetic on doubles is a parameter, and so are the clocks.
mod Aged
mod Buffer
mod Latency
mod Queries
mod Runs
use wi_vrn.Common.{
  ℕ, zero, suc, ◌+◌, ◌-◌, ◌*◌, ◌/◌, ◌%◌, ◌^◌, Bool, true, false, Option, none, some, List, [], ◌∷◌,
  ◌++◌, ltb, leb, if◌then◌else◌, not, ◌==◌, length, set,
}

abbrev pub num_samples : ℕ
num_samples = 100

-- A `timesync_response` and when it was received.
pub record Sample : Type 0 where
  pub query : ℕ
  pub response : ℕ
  pub received : ℕ

-- Double precision: `of_int` and `to_int` convert from and to an `int64_t`, `of_size` from a size.
pub record Doubles : Type 1 where
  pub Double : Type 0
  pub zero_double : Double
  pub one_double : Double
  pub half : Double
  pub plus : Double → Double → Double
  pub minus : Double → Double → Double
  pub times : Double → Double → Double
  pub over : Double → Double → Double
  pub of_int : ℕ → Double
  pub of_size : ℕ → Double
  pub to_int : Double → ℕ

-- a - b and a + b of two `int64_t`.
abbrev pub sub_int64 : ℕ → ℕ → ℕ
sub_int64 a b = (a + 2 ^ 64 - b) % 2 ^ 64

abbrev pub add_int64 : ℕ → ℕ → ℕ
add_int64 a b = (a + b) % 2 ^ 64

-- a > b of two `int64_t`.
abbrev pub gt_int64 : ℕ → ℕ → Bool
gt_int64 a b = ltb ((b + 2 ^ 63) % 2 ^ 64) ((a + 2 ^ 63) % 2 ^ 64)

abbrev pub latency_of : Sample → ℕ
latency_of s = sub_int64 s.received s.query

abbrev pub sum_latency : ℕ → List Sample → ℕ
sum_latency sum [] = sum
sum_latency sum (s ∷ samples) = sum_latency (add_int64 sum (latency_of s)) samples

-- `latency /= samples.size()`, which divides as unsigned numbers.
abbrev pub mean_latency : List Sample → ℕ
mean_latency samples = sum_latency 0 samples / length samples

abbrev pub is_slow : List Sample → Sample → Bool
is_slow samples s = gt_int64 (latency_of s) ((3 * mean_latency samples) % 2 ^ 64)

module _ (d : Doubles) where
  pub record ClockOffset : Type 0 where
    pub b : ℕ
    pub a : d.Double

  -- The times are nanoseconds.
  pub record Estimator : Type 0 where
    pub samples : List Sample
    pub sample_index : ℕ
    pub offset : ClockOffset
    pub next_sample : ℕ
    pub sample_interval : ℕ

module _ {d : Doubles} where
  abbrev pub no_offset : ClockOffset d
  no_offset = record { b = 0; a = d.one_double }

  -- `operator bool`.
  unfoldable pub is_known : ClockOffset d → Bool
  is_known o = not (o.b == 0)

  unfoldable pub from_headset : ClockOffset d → ℕ → ℕ
  from_headset o ts = d.to_int (d.over (d.of_int (sub_int64 ts o.b)) o.a)

  unfoldable pub to_headset : ClockOffset d → ℕ → ℕ
  to_headset o timestamp_ns = d.to_int (d.plus (d.times o.a (d.of_int timestamp_ns)) (d.of_int o.b))

  abbrev pub new_estimator : Estimator d
  new_estimator = record {
    samples = [];
    sample_index = 0;
    offset = no_offset;
    next_sample = 0;
    sample_interval = 10000000;
  }

  unfoldable pub reset : Estimator d → Estimator d
  reset e = record {
    samples = [];
    sample_index = 0;
    offset = no_offset;
    next_sample = 0;
    sample_interval = 10000000;
  }

module _ (d : Doubles) where
  -- The time on the server of a sample, in the middle of its round trip.
  abbrev pub server_time : Sample → d.Double
  server_time s = d.times (d.of_int (add_int64 s.query s.received)) d.half

  abbrev pub sum_over : (Sample → d.Double) → d.Double → List Sample → d.Double
  sum_over f sum [] = sum
  sum_over f sum (s ∷ samples) = sum_over f (d.plus sum (f s)) samples

  abbrev pub mean : (Sample → d.Double) → List Sample → d.Double
  mean f samples = d.over (sum_over f d.zero_double samples) (d.of_size (length samples))

  -- The linear regression of all the samples.
  abbrev pub regression : List Sample → d.Double → d.Double → ClockOffset d
  regression samples x0 y0 =
      let inv_n = d.over d.one_double (d.of_size (length samples)) in
      let x : Sample → d.Double = λ s. d.minus (server_time s) x0 in
      let y : Sample → d.Double = λ s. d.minus (d.of_int s.response) y0 in
      let sum_x2 = sum_over (λ s. d.times (x s) (x s)) d.zero_double samples in
      let sum_xy = sum_over (λ s. d.times (x s) (y s)) d.zero_double samples in
      let mean_x = d.times (sum_over x d.zero_double samples) inv_n in
      let mean_y = d.times (sum_over y d.zero_double samples) inv_n in
      let cov = d.minus (d.times inv_n sum_xy) (d.times mean_x mean_y) in
      let v = d.minus (d.times inv_n sum_x2) (d.times mean_x mean_x) in
      let a = d.over cov v in
      let b = d.minus mean_y (d.times a mean_x) in
      record { b = d.to_int (d.minus (d.plus y0 b) (d.of_int (d.to_int (d.times a x0)))); a = a }

  abbrev pub offset_of : List Sample → ClockOffset d
  offset_of samples =
      let x0 = mean server_time samples in
      let y0 = mean (λ s. d.of_int s.response) samples in
      if ltb (length samples) num_samples
      then record { b = d.to_int (d.minus y0 x0); a = d.one_double }
      else regression samples x0 y0

module _ {d : Doubles} where
  abbrev pub push_sample : Sample → Estimator d → Estimator d
  push_sample s e =
      let samples = e.samples ++ (s ∷ []) in
      record e { samples = samples; offset = offset_of d samples }

  abbrev pub replace_sample : Sample → Estimator d → Estimator d
  replace_sample s e =
      let samples = set e.samples e.sample_index s in
      record e {
        samples = samples;
        sample_index = (e.sample_index + 1) % num_samples;
        offset = offset_of d samples;
        sample_interval = 1000000000;
      }

  -- A dropped sample returns before the offset is computed.
  unfoldable pub add_sample : Sample → Estimator d → Estimator d
  add_sample s e =
      if ltb (length e.samples) num_samples
      then push_sample s e
      else if is_slow e.samples s
      then record e { sample_interval = 1000000000 }
      else replace_sample s e

  -- `check_time` and `send_time` are the two readings of the steady clock; the time of the query
  -- comes from another clock.
  unfoldable pub request_sample :
      (check_time send_time query : ℕ) → Estimator d → Option ℕ × Estimator d
  request_sample check_time send_time query e =
      if ltb check_time e.next_sample
      then (none, e)
      else (some query, record e { next_sample = send_time + e.sample_interval })
