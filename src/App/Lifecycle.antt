-- ===== src/App/Lifecycle.antt =====
-- The session that client/application.cpp begins and ends, and its flags: what OpenXR may report, and
-- how calls follow one another.

pub mod Events
pub mod Turns
use wi_vrn.Common.{
  ℕ, ◌≡◌, refl, sym, ap, ◌∙◌, List, [], ◌∷◌, ◌++◌, Option, none, some, Bool, true, false, ◌||◌,
  ◌==◌, if◌then◌else◌, Bool-cases, Option-cases, inl, inr, arith,
}
use wi_vrn.App.{
  App, SessionState, unknown, idle, ready, synchronized, visible, focused, stopping, exiting, Call,
  begin_session, end_session, sleep, sync_actions, wait_frame, set_wifi_enabled,
  on_session_state_changed, on_interaction_profile_changed, on_reference_space_changed, on_focused,
  on_unfocused, render, expired, switch_state, tell_scene, current_scene, session_state_changed,
  XrEvent, instance_loss_pending, other_event, interaction_profile_changed,
  reference_space_change_pending, state_changed, handle_event, poll_events, edit_stack, Edit,
  pushes, pops, push_scene, pop_scene, Turn, change_focus, is_in, run_scene, loop, run, start,
}

-- The state changes that OpenXR may report of a session that is not lost.
unfoldable pub may_follow : SessionState → SessionState → Bool
may_follow unknown idle = true
may_follow idle ready = true
may_follow idle exiting = true
may_follow ready synchronized = true
may_follow synchronized visible = true
may_follow synchronized stopping = true
may_follow visible focused = true
may_follow visible synchronized = true
may_follow focused visible = true
may_follow stopping idle = true
may_follow _ _ = false

abbrev pub IsLifecycle : SessionState → List SessionState → Type 0
IsLifecycle s [] = Unit {0}
IsLifecycle s (s' ∷ states) = (may_follow s s' ≡ true) × IsLifecycle s' states

abbrev pub last_state : SessionState → List SessionState → SessionState
last_state s [] = s
last_state s (s' ∷ states) = last_state s' states

-- The states of the session that some events report.
abbrev pub reported : List XrEvent → List SessionState
reported [] = []
reported (state_changed true s ∷ events) = s ∷ reported events
reported (_ ∷ events) = reported events

abbrev pub all_reported : List Turn → List SessionState
all_reported [] = []
all_reported (t ∷ turns) = reported t.events ++ all_reported turns

unfoldable pub runs : SessionState → Bool
runs ready = true
runs synchronized = true
runs visible = true
runs focused = true
runs _ = false

unfoldable pub is_visible : SessionState → Bool
is_visible visible = true
is_visible focused = true
is_visible _ = false

unfoldable pub is_focused : SessionState → Bool
is_focused focused = true
is_focused _ = false

-- The flags are those of a state.
pub record IsCurrent (s : SessionState) (a : App) : Type 0 where
  pub running : a.session_running ≡ runs s
  pub shows : a.session_visible ≡ is_visible s
  pub focuses : a.session_focused ≡ is_focused s

-- A session is begun only while none runs and ended only while one does, and actions are synchronised
-- and frames waited for and rendered only while one does. The Boolean is whether one runs, and
-- `none` as the result means that a call breaks this.
unfoldable pub session_call : Call → Bool → Option Bool
session_call begin_session open' = if open' then none else some true
session_call end_session open' = if open' then some false else none
session_call sync_actions open' = if open' then some true else none
session_call wait_frame open' = if open' then some true else none
session_call (render s) open' = if open' then some true else none
session_call sleep open' = some open'
session_call (set_wifi_enabled enabled) open' = some open'
session_call (on_session_state_changed s state) open' = some open'
session_call (on_interaction_profile_changed s) open' = some open'
session_call (on_reference_space_changed s) open' = some open'
session_call (on_focused s) open' = some open'
session_call (on_unfocused s) open' = some open'
session_call (expired s) open' = some open'

unfoldable pub session_calls : Bool → List Call → Option Bool
session_calls open' [] = some open'
session_calls open' (c ∷ calls) = elim (session_call c open') [
  | none ↦ none
  | some after ↦ session_calls after calls
]

pub session_calls-append :
    (b b' : Bool) (calls more : List Call)
    → session_calls b calls ≡ some b'
    → session_calls b (calls ++ more) ≡ session_calls b' more
unfolding session_calls
session_calls-append b b' [] more e = let p : b ≡ b' = cc in rw p refl
session_calls-append b b' (c ∷ calls) more e = elim (Option-cases (session_call c b)) [
  | inl n ↦ let e' : none ≡ some b' = rw (n, session_calls) at e in cc
  | inr (g, s) ↦
      let e' : session_calls g calls ≡ some b' = rw (s, session_calls) at e in
      rw (s, session_calls) (session_calls-append g b' calls more e')
]

-- From one state to another, what an operation does to the flags and which calls it makes.
pub record Moves (s' : SessionState) (a : App) (r : App × List Call) : Type 0 where
  pub current : IsCurrent s' r.0
  pub calls : session_calls a.session_running r.1 ≡ some r.0.session_running

pub IsLifecycle-split :
    (s : SessionState) (xs ys : List SessionState)
    → IsLifecycle s (xs ++ ys)
    → IsLifecycle s xs × IsLifecycle (last_state s xs) ys
IsLifecycle-split s [] ys l = (tt, l)
IsLifecycle-split s (x ∷ xs) ys l =
    let rest = IsLifecycle-split x xs ys l.1 in ((l.0, rest.0), rest.1)

pub last_state-append :
    (s : SessionState) (xs ys : List SessionState)
    → last_state s (xs ++ ys) ≡ last_state (last_state s xs) ys
last_state-append s [] ys = refl
last_state-append s (x ∷ xs) ys = last_state-append x xs ys
