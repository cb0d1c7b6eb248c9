-- ===== src/ClockOffset/Runs.antt =====
-- Runs of the estimator of server/driver/clock_offset.cpp, with numbers in place of doubles.
use wi_vrn.Common.{ℕ, ◌≡◌, ◌+◌, ◌-◌, ◌*◌, ◌/◌, List, [], ◌∷◌, refl, true}
use wi_vrn.ClockOffset.{
  request_sample, Doubles, Sample, Estimator, new_estimator, reset, add_sample, num_samples,
  is_known,
}
use wi_vrn.ClockOffset.Aged.{aged, recent}
use wi_vrn.ClockOffset.Buffer.{add_samples, add_samples-recent, offset_from}
use wi_vrn.ClockOffset.Queries.{Call, query_times}

abbrev integers : Doubles
integers = record {
  Double = ℕ;
  zero_double = 0;
  one_double = 1;
  half = 1;
  plus = λ a b. a + b;
  minus = λ a b. a - b;
  times = λ a b. a * b;
  over = λ a b. a / b;
  of_int = λ a. a;
  of_size = λ a. a;
  to_int = λ a. a;
}

abbrev fresh : Estimator integers
fresh = new_estimator

abbrev answer : ℕ → Sample
answer t = record { query = t; response = t + 1000; received = t + 4 }

abbrev answers : List Sample
answers = answer 10 ∷ answer 20 ∷ answer 30 ∷ []

add_samples-recent_example :
    (aged
        (add_samples answers (reset fresh) []).0.samples
        (add_samples answers (reset fresh) []).0.sample_index
      ≡ recent num_samples (add_samples answers (reset fresh) []).1)
    × ((add_samples answers (reset fresh) []).0.offset
        ≡ offset_from (add_samples answers (reset fresh) []).0.samples)
add_samples-recent_example = add_samples-recent answers fresh

three_known : is_known (add_samples answers (reset fresh) []).0.offset ≡ true
unfolding is_known add_sample reset
three_known = refl

abbrev at : ℕ → Call
at t = record { check_time = t; send_time = t + 1; query = t }

abbrev calls : List Call
calls = at 0 ∷ at 4000000 ∷ at 11000000 ∷ []

-- The second call comes too early.
calls_queries : query_times calls fresh ≡ 1 ∷ 11000001 ∷ []
unfolding request_sample
calls_queries = refl
