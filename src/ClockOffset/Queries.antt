-- ===== src/ClockOffset/Queries.antt =====
-- How often the estimator of server/driver/clock_offset.cpp asks for the headset's time.
use wi_vrn.Common.{ℕ, ◌+◌, ◌≤◌, inl, inr, Option, none, some, List, [], ◌∷◌, arith, ltb, Bool-cases}
use wi_vrn.ClockOffset.{Doubles, Estimator, request_sample}

-- One call of `request_sample`: its two readings of the steady clock and one of the other clock.
pub record Call : Type 0 where
  pub check_time : ℕ
  pub send_time : ℕ
  pub query : ℕ

-- The steady clock does not go back.
abbrev pub IsSteadyFrom : ℕ → List Call → Type 0
IsSteadyFrom now [] = Unit
IsSteadyFrom now (c ∷ calls) =
    (now ≤ c.check_time) × (c.check_time ≤ c.send_time) × IsSteadyFrom c.send_time calls

-- Each time is at least `gap` behind the one before it.
abbrev pub IsSpacedFrom : ℕ → ℕ → List ℕ → Type 0
IsSpacedFrom gap earliest [] = Unit
IsSpacedFrom gap earliest (t ∷ times) = (earliest ≤ t) × IsSpacedFrom gap (t + gap) times

abbrev pub sent : Option ℕ → ℕ → List ℕ → List ℕ
sent none now times = times
sent (some query) now times = now ∷ times

module _ {d : Doubles} where
  -- When some calls in a row send a query.
  abbrev pub query_times : List Call → Estimator d → List ℕ
  query_times [] e = []
  query_times (c ∷ calls) e =
      let (query, next) = request_sample c.check_time c.send_time c.query e in
      sent query c.send_time (query_times calls next)

  -- Calls in a row of `request_sample`, on a clock that does not go back, send no query before the
  -- time of the estimator's next sample, and none less than the sample interval after the last.
  pub query_times-IsSpacedFrom :
      (calls : List Call) (now : ℕ) (e : Estimator d)
      → IsSteadyFrom now calls
      → IsSpacedFrom e.sample_interval e.next_sample (query_times calls e)
  unfolding request_sample
  query_times-IsSpacedFrom [] now e steady = tt
  query_times-IsSpacedFrom (c ∷ calls) now e (a, b, steady) =
      elim (Bool-cases (ltb c.check_time e.next_sample)) [
        | inl early ↦ rw early (query_times-IsSpacedFrom calls c.send_time e steady)
        | inr due ↦ rw due (
          ground arith,
          query_times-IsSpacedFrom calls c.send_time
              (record e { next_sample = c.send_time + e.sample_interval }) steady,
        )
      ]
