-- ===== src/Tracking/Rate.antt =====
-- How often, and for which times, the thread of client/scenes/stream_tracking.cpp samples the poses.

use Prim.Native.Nat.{max}
use wi_vrn.Common.{
  ℕ, zero, suc, ◌+◌, ◌≤◌, ◌≡◌, ◌⊎◌, refl, inl, inr, List, [], ◌∷◌, ◌++◌, Bool, true, false, ◌||◌,
  ◌==◌, if◌then◌else◌, min, take, All, arith, Bool-cases,
}
use wi_vrn.Tracking.{
  TrackingPacket, tracking, hand_tracking, Runtime, sample_packets, Outcome, located, time_invalid,
  throws_after, Turn, Tracker, sample_loop, tracking_turn, tracking_turns, new_tracker,
}
use wi_vrn.Tracking.Samples.{
  sample_times, sent, ends, all_sent, throws, IsPeriod, sample_loop-times,
}

abbrev pub production_of : TrackingPacket → ℕ
production_of (tracking production timestamp poses) = production
production_of (hand_tracking production timestamp left poses) = production

abbrev pub timestamp_of : TrackingPacket → ℕ
timestamp_of (tracking production timestamp poses) = timestamp
timestamp_of (hand_tracking production timestamp left poses) = timestamp

-- A packet of a turn: produced at `t0`, for that time or for the predicted one.
abbrev pub IsSampled : ℕ → ℕ → TrackingPacket → Type 0
IsSampled t0 prediction p =
    (production_of p ≡ t0) × ((timestamp_of p ≡ t0) ⊎ (timestamp_of p ≡ t0 + prediction))

abbrev pub AreSampled : ℕ → ℕ → List TrackingPacket → Type 0
AreSampled t0 prediction packets = All (IsSampled t0 prediction) packets

AreSampled-append :
    (t0 prediction : ℕ) (xs ys : List TrackingPacket)
    → AreSampled t0 prediction xs
    → AreSampled t0 prediction ys
    → AreSampled t0 prediction (xs ++ ys)
AreSampled-append t0 prediction [] ys a b = b
AreSampled-append t0 prediction (x ∷ xs) ys a b = (a.0, AreSampled-append t0 prediction xs ys a.1 b)

AreSampled-take :
    (t0 prediction n : ℕ) (xs : List TrackingPacket)
    → AreSampled t0 prediction xs
    → AreSampled t0 prediction (take n xs)
AreSampled-take t0 prediction zero xs a = tt
AreSampled-take t0 prediction (suc n) [] a = tt
AreSampled-take t0 prediction (suc n) (x ∷ xs) a = (a.0, AreSampled-take t0 prediction n xs a.1)

abbrev IsTime : ℕ → ℕ → ℕ → Type 0
IsTime t0 prediction time = (time ≡ t0) ⊎ (time ≡ t0 + prediction)

sample_packets-AreSampled :
    (r : Runtime) (t0 prediction time : ℕ)
    → IsTime t0 prediction time
    → AreSampled t0 prediction (sample_packets r t0 time)
unfolding sample_packets
sample_packets-AreSampled r t0 prediction time at = elim (Bool-cases r.has_hands) [
  | inl y ↦ rw y ((refl, at), ((refl, at), ((refl, at), tt)))
  | inr n ↦ rw n ((refl, at), tt)
]

sent-AreSampled :
    (r : Runtime) (t0 prediction time : ℕ) (o : Outcome)
    → IsTime t0 prediction time
    → AreSampled t0 prediction (sent r t0 time o)
unfolding sent
sent-AreSampled r t0 prediction time (located busy) at =
    sample_packets-AreSampled r t0 prediction time at
sent-AreSampled r t0 prediction time (time_invalid n) at =
    AreSampled-take t0 prediction n (sample_packets r t0 time)
      (sample_packets-AreSampled r t0 prediction time at)
sent-AreSampled r t0 prediction time (throws_after n) at =
    AreSampled-take t0 prediction n (sample_packets r t0 time)
      (sample_packets-AreSampled r t0 prediction time at)

all_sent-AreSampled :
    (r : Runtime) (t0 prediction : ℕ) (times : List ℕ) (outcomes : List Outcome)
    → All (IsTime t0 prediction) times
    → AreSampled t0 prediction (all_sent r t0 times outcomes)
unfolding all_sent
all_sent-AreSampled r t0 prediction [] outcomes a = tt
all_sent-AreSampled r t0 prediction (time ∷ times) [] a = tt
all_sent-AreSampled r t0 prediction (time ∷ times) (o ∷ outcomes) a =
    let more = all_sent r t0 times outcomes in
    let rest = all_sent-AreSampled r t0 prediction times outcomes a.1 in
    AreSampled-append t0 prediction (sent r t0 time o) (if ends o then [] else more)
      (sent-AreSampled r t0 prediction time o a.0)
      (elim (Bool-cases (ends o)) [ inl y ↦ rw y tt | inr n ↦ rw n rest ])

sample_times-AreTimes :
    (t0 prediction : ℕ) → All (IsTime t0 prediction) (sample_times t0 prediction)
unfolding sample_times
sample_times-AreTimes t0 prediction = elim (Bool-cases (prediction == 0)) [
  | inl z ↦ rw z (inl refl, tt)
  | inr n ↦ rw n (inl refl, (inr refl, tt))
]

abbrev pub prediction_of : Turn → ℕ
prediction_of t = min t.prediction_offset 80000000

-- Once a turn throws, no further one is made.
abbrev pub Continues : Bool → List (List TrackingPacket) → Type 0 → Type 0
Continues true more Rest = more ≡ []
Continues false more Rest = Rest

-- From turn to turn, for the earliest and the latest time of the next one: a turn samples at `t0`,
-- which is not before the time at which the turn begins, and not later than it has to be, and it sends
-- what the samples for `t0` and for the predicted time, at most 80 ms ahead, give.
abbrev pub ArePaced : ℕ → ℕ → List Turn → List (List TrackingPacket) → Type 0
ArePaced earliest latest [] packets = packets ≡ []
ArePaced earliest latest (t ∷ turns) [] = ⊥
ArePaced earliest latest (t ∷ turns) (packets ∷ more) =
    (t0 : ℕ) × ((max earliest t.now ≤ t0)
      × ((t0 ≤ max latest t.now)
          × (AreSampled t0 (prediction_of t) packets
              × ((packets ≡ all_sent t.runtime t0 (sample_times t0 (prediction_of t)) t.outcomes)
                  × Continues (throws (sample_times t0 (prediction_of t)) t.outcomes) more
                      (ArePaced (t0 + 1000000) (t0 + 5000000) turns more)))))

ArePaced-if :
    (earliest latest : ℕ) (turns : List Turn) (b : Bool) (packets : List (List TrackingPacket))
    → b ≡ false
    → ArePaced earliest latest turns packets
    → ArePaced earliest latest turns (if b then [] else packets)
ArePaced-if earliest latest turns true packets e h = cc
ArePaced-if earliest latest turns false packets e h = h

module _ (lerp : ℕ → ℕ → ℕ) where
  abbrev times_of : Turn → Tracker → List ℕ
  times_of t s = sample_times (max s.t0 t.now) (prediction_of t)

  -- The next turn begins between 1 and 5 ms after this one, or when it can.
  record Paces (t : Turn) (s : Tracker) (r : Tracker × List TrackingPacket) : Type 0 where
    sends : r.1 ≡ all_sent t.runtime (max s.t0 t.now) (times_of t s) t.outcomes
    period : IsPeriod r.0.tracking_period
    exits : r.0.exiting ≡ (s.exiting || throws (times_of t s) t.outcomes)
    next :
        (throws (times_of t s) t.outcomes ≡ true)
        ⊎ ((max s.t0 t.now + 1000000 ≤ r.0.t0) × (r.0.t0 ≤ max s.t0 t.now + 5000000))

  tracking_turn-Paces :
      (t : Turn) (s : Tracker) → IsPeriod s.tracking_period → Paces t s (tracking_turn lerp t s)
  unfolding tracking_turn
  tracking_turn-Paces t s p =
      let t0 = max s.t0 t.now in
      let loop = sample_loop lerp 3 t.runtime t0 (prediction_of t) 0 s.tracking_period t.outcomes in
      let g =
        sample_loop-times lerp 0 t.runtime t0 (prediction_of t) s.tracking_period t.outcomes p in
      let throwing : loop.2 ≡ throws (times_of t s) t.outcomes = g.throwing in
      record {
        sends = g.packets_sent;
        period = g.period;
        exits = rw (← throwing) refl;
        next = elim (Bool-cases loop.2) [
          | inl y ↦ inl (ground arith)
          | inr n ↦ inr (rw n (omega (arith, g.period.0), omega (arith, g.period.1)))
        ];
      }

  tracking_turns-exited :
      (turns : List Turn) (s : Tracker) → s.exiting ≡ true → tracking_turns lerp turns s ≡ []
  unfolding tracking_turns
  tracking_turns-exited [] s e = refl
  tracking_turns-exited (t ∷ turns) s e = rw e refl

  turns-ArePaced :
      (turns : List Turn) (s : Tracker) (earliest latest : ℕ)
      → s.exiting ≡ false
      → IsPeriod s.tracking_period
      → earliest ≤ s.t0
      → s.t0 ≤ latest
      → ArePaced earliest latest turns (tracking_turns lerp turns s)
  unfolding tracking_turns
  turns-ArePaced [] s earliest latest e p above below = refl
  turns-ArePaced (t ∷ turns) s earliest latest e p above below =
      let turn = tracking_turn-Paces t s p in
      let t0 = max s.t0 t.now in
      let s' = (tracking_turn lerp t s).0 in
      let sampled : AreSampled t0 (prediction_of t) (tracking_turn lerp t s).1 = rw turn.sends (
        all_sent-AreSampled t.runtime t0 (prediction_of t) (times_of t s) t.outcomes
          (sample_times-AreTimes t0 (prediction_of t))) in
      let rest : Continues (throws (times_of t s) t.outcomes) (tracking_turns lerp turns s')
          (ArePaced (t0 + 1000000) (t0 + 5000000) turns (tracking_turns lerp turns s')) =
        elim (Bool-cases (throws (times_of t s) t.outcomes)) [
          | inl y ↦ rw y (tracking_turns-exited turns s' (ground (arith, turn.exits)))
          | inr n ↦
              let exits : s'.exiting ≡ false = ground (arith, turn.exits) in
              elim (turn.next) [
                | inl y ↦ absurd (ground arith)
                | inr b ↦ rw n (
                    turns-ArePaced turns s' (t0 + 1000000) (t0 + 5000000) exits turn.period b.0 b.1)
              ]
        ] in
      ArePaced-if earliest latest (t ∷ turns) s.exiting
        ((tracking_turn lerp t s).1 ∷ tracking_turns lerp turns s') e
        (t0, (omega arith, (omega arith, (sampled, (turn.sends, rest)))))

  -- However long the calls of OpenXR take, whatever errors come, and however the predicted times and the
  -- interpolation of the period go: there is a turn for each that could be made, up to the first one that
  -- throws; the turns sample at times that are at least 1 ms apart, and at most 5 ms apart unless
  -- the turn begins later than that, never at a time that is over when the turn begins; and a turn
  -- sends exactly what the samples for its time, and for one ahead of it by the prediction of at most
  -- 80 ms if that is not 0, give before one of them throws, each packet produced at the turn's time.
  pub tracking_turns-ArePaced :
      (turns : List Turn) (now : ℕ)
      → ArePaced now now turns (tracking_turns lerp turns (new_tracker now))
  unfolding new_tracker
  tracking_turns-ArePaced turns now =
      turns-ArePaced turns (record { t0 = now; tracking_period = 1000000; exiting = false }) now now
        refl (omega arith) (omega arith) (omega arith)
