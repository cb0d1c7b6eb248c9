-- ===== src/App/Runs.antt =====
-- Concrete runs of the main loop.

use wi_vrn.Common.{
  arith, ℕ, ◌≡◌, refl, List, [], ◌∷◌, none, some, true, false, Bool, map, ◌&&◌, ◌==◌, if◌then◌else◌,
}
use wi_vrn.Common.Int.{pos}
use wi_vrn.App.{
  ready, synchronized, visible, focused, idle, unknown, state_changed, Turn, pushes, pops, run,
  start, is_in,
}
use wi_vrn.App.Focus.{follow, run-follow}
use wi_vrn.App.Lifecycle.{IsCurrent, may_follow, last_state, all_reported, session_calls, runs}
use wi_vrn.App.Lifecycle.Turns.{made, run-session}
use wi_vrn.App.WifiLock.{
  SceneKind, lobby, stream, last_locks, after_call, after_calls, new_wifi_lock, has_focus,
  run-apply,
}

-- The lobby, scene 0, puts the stream, scene 1, on the stack; the stream leaves it later.
abbrev turns : List Turn
turns =
    record {
      events =
          state_changed true idle
          ∷ state_changed true ready
          ∷ state_changed true synchronized
          ∷ state_changed true visible
          ∷ state_changed true focused
          ∷ [];
      kept = λ s. true;
      edits = pushes 1 ∷ [];
    }
    ∷ record { events = []; kept = λ s. true; edits = pops ∷ [] }
    ∷ record { events = []; kept = λ s. true; edits = [] }
    ∷ []

abbrev kind : ℕ → SceneKind
kind s = if s == 0 then lobby else stream

run-follow_example : follow none (run turns (start 0)).1 ≡ some (run turns (start 0)).0.last_scene
run-follow_example = run-follow 0 turns

last_focus : (run turns (start 0)).0.last_scene ≡ some 0
unfolding run start is_in
last_focus = refl

run-session_example :
    (session_calls false (run turns (start 0)).1
      ≡ some (runs (last_state unknown (all_reported (made turns (start 0))))))
    × IsCurrent (last_state unknown (all_reported (made turns (start 0)))) (run turns (start 0)).0
unfolding may_follow
run-session_example = run-session 0 turns (refl, (refl, (refl, (refl, (refl, tt)))))

run-apply_example :
    (last_locks (after_calls kind (run turns (start 0)).1 new_wifi_lock) ≡ (
      (after_calls kind (run turns (start 0)).1 new_wifi_lock).enabled
          && has_focus kind lobby (run turns (start 0)).0.last_scene,
      (after_calls kind (run turns (start 0)).1 new_wifi_lock).enabled
          && has_focus kind stream (run turns (start 0)).0.last_scene,
    ))
    × ((after_calls kind (run turns (start 0)).1 new_wifi_lock).wants_multicast
        ≡ pos (if has_focus kind lobby (run turns (start 0)).0.last_scene then 1 else 0))
    × ((after_calls kind (run turns (start 0)).1 new_wifi_lock).wants_low_latency
        ≡ pos (if has_focus kind stream (run turns (start 0)).0.last_scene then 1 else 0))
unfolding run start is_in
run-apply_example = run-apply kind 0 turns (omega arith)

-- One multicast lock for each change, the last one first: no lock that is acquired is released.
multicast_locks :
    map (λ (l : Bool × Bool). l.0) (after_calls kind (run turns (start 0)).1 new_wifi_lock).locks
    ≡ true ∷ false ∷ false ∷ false ∷ true ∷ false ∷ []
unfolding run start is_in after_calls after_call new_wifi_lock
multicast_locks = refl
