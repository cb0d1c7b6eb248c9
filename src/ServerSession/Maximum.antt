-- ===== src/ServerSession/Maximum.antt =====
-- `max_accumulator::add` of server/driver/wivrn_session.h among other threads.
use wi_vrn.Common.{
  ℕ, zero, suc, ◌<◌, ◌≤◌, ◌≡◌, inl, inr, refl, false, not, ◌&&◌, none, some, arith, ltb, ltb→lt,
  ◌==◌, if◌then◌else◌, Bool-cases,
}
use wi_vrn.ServerSession.{Interference, after, add_loop, add}

abbrev pub undisturbed : Interference
undisturbed = record { stored = none; is_spurious = false }

unequal : (a b : ℕ) → b < a → (a == b) ≡ false
unequal a b lt = ground arith

-- When only the first turn of the loop is disturbed, `add` ends within two turns: a sample above
-- the maximum becomes the maximum if the first exchange succeeds. If it fails, since another thread
-- stored another value before it or for no reason, the loop stops, and the maximum is what the
-- other thread left, even if the sample is above it.
pub add-outcome :
    (fuel : ℕ) (env : ℕ → Interference) (sample max : ℕ)
    → 2 ≤ fuel
    → ((i : ℕ) → env (suc i) ≡ undisturbed)
    → add fuel env sample max
      ≡ some (
          if ltb max sample
          then if (after (env 0).stored max == max) && not (env 0).is_spurious
            then sample
            else after (env 0).stored max
          else max)
unfolding add_loop
add-outcome zero env sample max two quiet = absurd (omega arith)
add-outcome (suc zero) env sample max two quiet = absurd (omega arith)
add-outcome (suc (suc n)) env sample max two quiet = elim (Bool-cases (ltb max sample)) [
  | inr ge ↦ rw ge refl
  | inl lt ↦ elim (Bool-cases (after (env 0).stored max == max)) [
    | inr other ↦ rw (lt, other) refl
    | inl same ↦ elim (Bool-cases (env 0).is_spurious) [
      | inl spurious ↦ rw (lt, same, spurious) refl
      | inr strong ↦
          rw (lt, same, strong) (rw (quiet 0, unequal sample max (ltb→lt max sample lt)) refl)
    ]
  ]
]
