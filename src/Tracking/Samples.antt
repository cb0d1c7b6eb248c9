-- ===== src/Tracking/Samples.antt =====
-- The samples that a turn of the thread in client/scenes/stream_tracking.cpp takes: where the loop over
-- Δt stands, and how it ends.

use Prim.Native.Nat.{max}
use wi_vrn.Common.{
  ℕ, zero, suc, ◌+◌, ◌≤◌, ◌≡◌, refl, List, [], ◌∷◌, ◌++◌, Bool, true, false, ◌||◌, ◌==◌, leb,
  if◌then◌else◌, take, length, arith, Bool-cases, inl, inr, ap,
}
use wi_vrn.Tracking.{
  TrackingPacket, Runtime, sample_packets, Outcome, located, time_invalid, throws_after, clamp,
  next_period, send_before, sample_loop,
}

-- The times that a turn samples: its own, and the predicted one if that is another.
unfoldable pub sample_times : ℕ → ℕ → List ℕ
sample_times t0 prediction = if prediction == 0 then t0 ∷ [] else t0 ∷ (t0 + prediction) ∷ []

-- What a sample for a time sends.
unfoldable pub sent : Runtime → ℕ → ℕ → Outcome → List TrackingPacket
sent r t0 time (located busy_time) = sample_packets r t0 time
sent r t0 time (time_invalid n) = take n (sample_packets r t0 time)
sent r t0 time (throws_after n) = take n (sample_packets r t0 time)

unfoldable pub ends : Outcome → Bool
ends (located busy_time) = false
ends (time_invalid n) = false
ends (throws_after n) = true

-- What the samples for some times send, until one of them throws, and whether one does.
unfoldable pub all_sent : Runtime → ℕ → List ℕ → List Outcome → List TrackingPacket
unfolding sent ends
all_sent r t0 [] outcomes = []
all_sent r t0 (time ∷ times) [] = []
all_sent r t0 (time ∷ times) (o ∷ outcomes) =
    let more = all_sent r t0 times outcomes in sent r t0 time o ++ (if ends o then [] else more)

unfoldable pub throws : List ℕ → List Outcome → Bool
unfolding ends
throws [] outcomes = false
throws (time ∷ times) [] = false
throws (time ∷ times) (o ∷ outcomes) = ends o || throws times outcomes

abbrev pub IsPeriod : ℕ → Type 0
IsPeriod period = (1000000 ≤ period) × (period ≤ 5000000)

-- What the loop gives: the packets, a period between 1 and 5 ms, and whether it throws.
pub record Gives (packets : List TrackingPacket) (thrown : Bool)
    (r : List TrackingPacket × ℕ × Bool) : Type 0 where
  pub packets_sent : r.0 ≡ packets
  pub period : IsPeriod r.1
  pub throwing : r.2 ≡ thrown

-- The times that are left where the loop stands.
abbrev Stands : ℕ → ℕ → ℕ → List ℕ → Type 0
Stands t0 prediction dt [] = leb dt prediction ≡ false
Stands t0 prediction dt (time ∷ times) =
    (leb dt prediction ≡ true)
    × ((t0 + dt ≡ time) × Stands t0 prediction (dt + max 1 prediction) times)

send_before-Gives :
    (packets more : List TrackingPacket) (thrown : Bool) (r : List TrackingPacket × ℕ × Bool)
    → Gives more thrown r
    → Gives (packets ++ more) thrown (send_before packets r)
unfolding send_before
send_before-Gives packets more thrown (xs, period, b) g = record {
  packets_sent = ap (λ ys. packets ++ ys) g.packets_sent;
  period = g.period;
  throwing = g.throwing;
}

append_nil : (xs : List TrackingPacket) → xs ≡ xs ++ []
append_nil [] = refl
append_nil (x ∷ xs) = ap (λ ys. x ∷ ys) (append_nil xs)

Stands-sample_times : (t0 prediction : ℕ) → Stands t0 prediction 0 (sample_times t0 prediction)
unfolding sample_times
Stands-sample_times t0 prediction = elim (Bool-cases (prediction == 0)) [
  | inl z ↦ rw z (ground arith, (omega arith, ground arith))
  | inr n ↦ rw n (ground arith, (omega arith, (ground arith, (ground arith, ground arith))))
]

module _ (lerp : ℕ → ℕ → ℕ) where
  pub next_period-IsPeriod : (period busy_time : ℕ) → IsPeriod (next_period lerp period busy_time)
  unfolding next_period clamp
  next_period-IsPeriod period busy_time = ground arith

  sample_loop-over :
      (fuel : ℕ) (r : Runtime) (t0 prediction dt period : ℕ) (outcomes : List Outcome)
      → leb dt prediction ≡ false
      → sample_loop lerp (suc fuel) r t0 prediction dt period outcomes ≡ ([], period, false)
  unfolding sample_loop
  sample_loop-over fuel r t0 prediction dt period [] e = refl
  sample_loop-over fuel r t0 prediction dt period (o ∷ outcomes) e = rw e refl

  sample_loop-Gives :
      (times : List ℕ) (fuel : ℕ) (r : Runtime) (t0 prediction dt period : ℕ)
      (outcomes : List Outcome)
      → length times ≤ fuel
      → Stands t0 prediction dt times
      → IsPeriod period
      → Gives
          (all_sent r t0 times outcomes)
          (throws times outcomes)
          (sample_loop lerp (suc fuel) r t0 prediction dt period outcomes)
  unfolding sample_loop all_sent throws
  sample_loop-Gives [] fuel r t0 prediction dt period outcomes le over p =
      rw (sample_loop-over fuel r t0 prediction dt period outcomes over)
        (record { packets_sent = refl; period = p; throwing = refl })
  sample_loop-Gives (time ∷ times) fuel r t0 prediction dt period [] le at p = record {
    packets_sent = refl;
    period = p;
    throwing = refl;
  }
  sample_loop-Gives (time ∷ times) zero r t0 prediction dt period (o ∷ outcomes) le at p =
      absurd (omega arith)
  sample_loop-Gives (time ∷ times) (suc fuel) r t0 prediction dt period (located busy ∷ outcomes) le
        at p =
      let period' = next_period lerp period busy in
      rw (at.0, at.1.0)
        (send_before-Gives (sample_packets r t0 time) (all_sent r t0 times outcomes)
          (throws times outcomes)
          (sample_loop lerp (suc fuel) r t0 prediction (dt + max 1 prediction) period' outcomes)
          (sample_loop-Gives times fuel r t0 prediction (dt + max 1 prediction) period' outcomes
            (omega arith) at.1.1 (next_period-IsPeriod period busy)))
  sample_loop-Gives (time ∷ times) (suc fuel) r t0 prediction dt period (time_invalid n ∷ outcomes)
        le at p =
      rw (at.0, at.1.0)
        (send_before-Gives (take n (sample_packets r t0 time)) (all_sent r t0 times outcomes)
          (throws times outcomes)
          (sample_loop lerp (suc fuel) r t0 prediction (dt + max 1 prediction) period outcomes)
          (sample_loop-Gives times fuel r t0 prediction (dt + max 1 prediction) period outcomes
            (omega arith) at.1.1 p))
  sample_loop-Gives (time ∷ times) (suc fuel) r t0 prediction dt period (throws_after n ∷ outcomes)
        le at p =
      rw (at.0, at.1.0)
        (record {
          packets_sent = append_nil (take n (sample_packets r t0 time));
          period = p;
          throwing = refl;
        })

  -- A turn of the loop, with fuel for three turns or more: it samples at `t0` and at the predicted
  -- time.
  pub sample_loop-times :
      (extra : ℕ) (r : Runtime) (t0 prediction period : ℕ) (outcomes : List Outcome)
      → IsPeriod period
      → Gives
          (all_sent r t0 (sample_times t0 prediction) outcomes)
          (throws (sample_times t0 prediction) outcomes)
          (sample_loop lerp (suc (suc (suc extra))) r t0 prediction 0 period outcomes)
  unfolding sample_times
  sample_loop-times extra r t0 prediction period outcomes p =
      sample_loop-Gives (sample_times t0 prediction) (suc (suc extra)) r t0 prediction 0 period
        outcomes (ground arith) (Stands-sample_times t0 prediction) p
