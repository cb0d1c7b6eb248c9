-- ===== src/App/WifiLock.antt =====
-- client/wifi_lock.cpp and .h, and the calls that client/scenes/lobby.cpp and client/scenes/stream.cpp
-- make of it when they are focused and unfocused. Every change makes two new lock objects of Android
-- and acquires or releases those; whether an object that was made before is still held is Android's.

use wi_vrn.Common.{
  ℕ, zero, suc, ◌≡◌, refl, List, [], ◌∷◌, Option, none, some, Bool, true, false, ◌&&◌,
  if◌then◌else◌, Option-cases, inl, inr, All, arith,
}
use mathlib.Core.Path.{ap₂}
use wi_vrn.Common.Int.{ℤ, pos, negsuc}
use wi_vrn.App.{
  Call, begin_session, end_session, sleep, sync_actions, wait_frame, set_wifi_enabled,
  on_session_state_changed, on_interaction_profile_changed, on_reference_space_changed, on_focused,
  on_unfocused, render, expired, Turn, run, start,
}
use wi_vrn.App.Focus.{follow, follow_call, run-follow}

pub data SceneKind : Type 0 where
  lobby stream : SceneKind

-- The members, and for each call of `apply`, the last one first, what it did with the multicast lock and
-- the lock for low latency that it made: `true` is `acquire`, `false` is `release`.
pub record WifiLock : Type 0 where
  pub enabled : Bool
  pub wants_multicast : ℤ
  pub wants_low_latency : ℤ
  pub locks : List (Bool × Bool)

unfoldable pub new_wifi_lock : WifiLock
new_wifi_lock = record {
  enabled = true;
  wants_multicast = pos 0;
  wants_low_latency = pos 0;
  locks = [];
}

-- `+= enabled ? 1 : -1`.
unfoldable pub want : Bool → ℤ → ℤ
want true (pos n) = pos (suc n)
want true (negsuc zero) = pos 0
want true (negsuc (suc n)) = negsuc n
want false (pos zero) = negsuc 0
want false (pos (suc n)) = pos n
want false (negsuc n) = negsuc (suc n)

abbrev is_wanted : ℤ → Bool
is_wanted (pos zero) = false
is_wanted (pos (suc n)) = true
is_wanted (negsuc n) = true

unfoldable pub apply : WifiLock → WifiLock
apply w = record w {
  locks =
      (w.enabled && is_wanted w.wants_multicast, w.enabled && is_wanted w.wants_low_latency)
      ∷ w.locks;
}

unfoldable pub set_enabled : Bool → WifiLock → WifiLock
unfolding apply
set_enabled enabled w = apply (record w { enabled = enabled })

unfoldable pub want_multicast : Bool → WifiLock → WifiLock
unfolding want apply
want_multicast enabled w = apply (record w { wants_multicast = want enabled w.wants_multicast })

unfoldable pub want_low_latency : Bool → WifiLock → WifiLock
unfolding want apply
want_low_latency enabled w =
    apply (record w { wants_low_latency = want enabled w.wants_low_latency })

-- What `on_focused` and `on_unfocused` of a scene ask for.
unfoldable pub scene_wants : SceneKind → Bool → WifiLock → WifiLock
unfolding want_multicast want_low_latency
scene_wants lobby enabled w = want_multicast enabled w
scene_wants stream enabled w = want_low_latency enabled w

unfoldable pub after_call : (ℕ → SceneKind) → Call → WifiLock → WifiLock
unfolding scene_wants set_enabled
after_call kind (on_focused s) w = scene_wants (kind s) true w
after_call kind (on_unfocused s) w = scene_wants (kind s) false w
after_call kind (set_wifi_enabled enabled) w = set_enabled enabled w
after_call kind begin_session w = w
after_call kind end_session w = w
after_call kind sleep w = w
after_call kind sync_actions w = w
after_call kind wait_frame w = w
after_call kind (on_session_state_changed s state) w = w
after_call kind (on_interaction_profile_changed s) w = w
after_call kind (on_reference_space_changed s) w = w
after_call kind (render s) w = w
after_call kind (expired s) w = w

unfoldable pub after_calls : (ℕ → SceneKind) → List Call → WifiLock → WifiLock
after_calls kind [] w = w
after_calls kind (c ∷ calls) w = after_calls kind calls (after_call kind c w)

-- No scene ceases to exist while it is focused.
abbrev pub Stays : Call → Type 0
Stays (expired s) = ⊥
Stays _ = Unit {0}

-- The focused scene is of a kind.
unfoldable pub has_focus : (ℕ → SceneKind) → SceneKind → Option ℕ → Bool
has_focus kind lobby none = false
has_focus kind stream none = false
has_focus kind lobby (some s) = elim (kind s) [ lobby ↦ true | stream ↦ false ]
has_focus kind stream (some s) = elim (kind s) [ lobby ↦ false | stream ↦ true ]

-- What the last change asked of its locks, or nothing if there was none.
abbrev pub last_locks : WifiLock → Bool × Bool
last_locks w = elim (w.locks) [ [] ↦ (false, false) | l ∷ before ↦ l ]

record Wants (kind : ℕ → SceneKind) (f : Option ℕ) (w : WifiLock) : Type 0 where
  multicast : w.wants_multicast ≡ pos (if has_focus kind lobby f then 1 else 0)
  low_latency : w.wants_low_latency ≡ pos (if has_focus kind stream f then 1 else 0)
  asked_multicast : (last_locks w).0 ≡ (w.enabled && has_focus kind lobby f)
  asked_low_latency : (last_locks w).1 ≡ (w.enabled && has_focus kind stream f)

after_call-Wants :
    (kind : ℕ → SceneKind) (c : Call) (f f' : Option ℕ) (w : WifiLock)
    → Stays c
    → follow_call c f ≡ some f'
    → Wants kind f w
    → Wants kind f' (after_call kind c w)
unfolding follow_call after_call has_focus want
after_call-Wants kind c f f' w k e h = ground arith

after_calls-Wants :
    (kind : ℕ → SceneKind) (calls : List Call) (f f' : Option ℕ) (w : WifiLock)
    → All Stays calls
    → follow f calls ≡ some f'
    → Wants kind f w
    → Wants kind f' (after_calls kind calls w)
unfolding follow after_calls
after_calls-Wants kind [] f f' w k e h = let p : f ≡ f' = cc in rw (← p) h
after_calls-Wants kind (c ∷ calls) f f' w k e h = elim (Option-cases (follow_call c f)) [
  | inl n ↦ let e' : none ≡ some f' = rw (n, follow) at e in cc
  | inr (g, s) ↦
      let e' : follow g calls ≡ some f' = rw (s, follow) at e in
      after_calls-Wants kind calls g f' (after_call kind c w) k.1 e'
        (after_call-Wants kind c f g w k.0 s h)
]

-- As long as no scene ceases to exist while it is focused: whatever events come, and whatever scenes
-- do to the stack, the last change acquired the multicast lock that it made exactly if the locks are
-- enabled and the lobby is focused, and the one for low latency exactly if they are enabled and the
-- stream is focused, and released them otherwise; and each scene's request is counted exactly while
-- it is focused.
pub run-apply :
    (kind : ℕ → SceneKind) (scene : ℕ) (turns : List Turn)
    → All Stays (run turns (start scene)).1
    → let r = run turns (start scene) in
      let w = after_calls kind r.1 new_wifi_lock in
      (last_locks w ≡ (
        w.enabled && has_focus kind lobby r.0.last_scene,
        w.enabled && has_focus kind stream r.0.last_scene,
      ))
      × (w.wants_multicast ≡ pos (if has_focus kind lobby r.0.last_scene then 1 else 0))
      × (w.wants_low_latency ≡ pos (if has_focus kind stream r.0.last_scene then 1 else 0))
run-apply kind scene turns k =
    let r = run turns (start scene) in
    let h =
      after_calls-Wants kind r.1 none r.0.last_scene new_wifi_lock k (run-follow scene turns) (
        unfold new_wifi_lock has_focus in
        record {
          multicast = refl;
          low_latency = refl;
          asked_multicast = refl;
          asked_low_latency = refl;
        }) in
    (
      ap₂ (λ (a : Bool) (b : Bool). (a, b)) h.asked_multicast h.asked_low_latency,
      h.multicast,
      h.low_latency,
    )
