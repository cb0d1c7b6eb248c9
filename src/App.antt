-- ===== src/App.antt =====
-- The headset's main loop, client/application.cpp: the state of the OpenXR session, the stack of
-- scenes and the calls that scenes get, and client/wifi_lock.cpp. OpenXR is seen by its events.

pub mod Focus
pub mod Lifecycle
pub mod WifiLock
mod Runs
use wi_vrn.Common.{
  ℕ, ◌==◌, List, [], ◌∷◌, ◌++◌, Option, none, some, Bool, true, false, ◌||◌, if◌then◌else◌,
}

-- XrSessionState.
pub data SessionState : Type 0 where
  unknown idle ready synchronized visible focused stopping loss_pending exiting : SessionState

-- A scene goes by a number. `expired` is no call: `last_scene` was found to point to a scene that
-- exists no more.
pub data Call : Type 0 where
  begin_session end_session sleep sync_actions wait_frame : Call
  set_wifi_enabled : Bool → Call
  on_session_state_changed : ℕ → SessionState → Call
  on_interaction_profile_changed : ℕ → Call
  on_reference_space_changed : ℕ → Call
  on_focused : ℕ → Call
  on_unfocused : ℕ → Call
  render : ℕ → Call
  expired : ℕ → Call

-- The top of the stack is first.
pub record App : Type 0 where
  pub session_running : Bool
  pub session_visible : Bool
  pub session_focused : Bool
  pub exit_requested : Bool
  pub scene_stack : List ℕ
  pub last_scene : Option ℕ

unfoldable pub current_scene : App → Option ℕ
current_scene a = elim (a.scene_stack) [ [] ↦ none | s ∷ below ↦ some s ]

unfoldable pub push_scene : ℕ → App → App
push_scene s a = record a { scene_stack = s ∷ a.scene_stack }

unfoldable pub pop_scene : App → App
pop_scene a = record a { scene_stack = elim (a.scene_stack) [ [] ↦ [] | s ∷ below ↦ below ] }

-- The switch of `session_state_changed`.
unfoldable pub switch_state : SessionState → App → App × List Call
switch_state SessionState.ready a = (record a { session_running = true }, begin_session ∷ [])
switch_state SessionState.synchronized a =
    (record a { session_visible = false; session_focused = false }, [])
switch_state SessionState.visible a =
    (record a { session_visible = true; session_focused = false }, [])
switch_state SessionState.focused a =
    (record a { session_visible = true; session_focused = true }, set_wifi_enabled true ∷ [])
switch_state SessionState.stopping a = (
  record a { session_visible = false; session_focused = false; session_running = false },
  end_session ∷ set_wifi_enabled false ∷ [],
)
switch_state SessionState.exiting a = (record a { exit_requested = true }, [])
switch_state SessionState.loss_pending a = (record a { exit_requested = true }, [])
switch_state SessionState.unknown a = (a, [])
switch_state SessionState.idle a = (a, [])

-- A call for the scene on top, if there is one.
unfoldable pub tell_scene : (ℕ → Call) → App → List Call
unfolding current_scene
tell_scene call a = elim (current_scene a) [ none ↦ [] | some s ↦ call s ∷ [] ]

unfoldable pub session_state_changed : SessionState → App → App × List Call
unfolding switch_state tell_scene
session_state_changed new_state a =
    let (a', calls) = switch_state new_state a in
    (a', calls ++ tell_scene (λ s. on_session_state_changed s new_state) a')

-- The events that `poll_event` gives; the Boolean is whether one is about the session.
pub data XrEvent : Type 0 where
  instance_loss_pending other_event : XrEvent
  interaction_profile_changed : Bool → XrEvent
  reference_space_change_pending : Bool → XrEvent
  state_changed : Bool → SessionState → XrEvent

unfoldable pub handle_event : XrEvent → App → App × List Call
unfolding session_state_changed tell_scene
handle_event instance_loss_pending a = (record a { exit_requested = true }, [])
handle_event other_event a = (a, [])
handle_event (interaction_profile_changed ours) a =
    (a, if ours then tell_scene on_interaction_profile_changed a else [])
handle_event (reference_space_change_pending ours) a =
    (a, if ours then tell_scene on_reference_space_changed a else [])
handle_event (state_changed ours new_state) a =
    if ours then session_state_changed new_state a else (a, [])

unfoldable pub poll_events : List XrEvent → App → App × List Call
unfolding handle_event
poll_events [] a = (a, [])
poll_events (e ∷ events) a =
    let (a', calls) = handle_event e a in
    let (a'', more) = poll_events events a' in (a'', calls ++ more)

-- What a scene may do to the stack while it renders.
pub data Edit : Type 0 where
  pushes : ℕ → Edit
  pops : Edit

unfoldable pub edit_stack : List Edit → App → App
unfolding push_scene pop_scene
edit_stack [] a = a
edit_stack (pushes s ∷ edits) a = edit_stack edits (push_scene s a)
edit_stack (pops ∷ edits) a = edit_stack edits (pop_scene a)

-- What happens in one turn: the events, the scenes that something but the stack keeps alive, and
-- what rendering does to the stack.
pub record Turn : Type 0 where
  pub events : List XrEvent
  pub kept : ℕ → Bool
  pub edits : List Edit

unfoldable pub is_in : ℕ → List ℕ → Bool
is_in s [] = false
is_in s (t ∷ stack) = s == t || is_in s stack

-- The test of `last_scene` against the scene on top, and the calls that follow.
unfoldable pub change_focus : (ℕ → Bool) → ℕ → App → List Call
unfolding is_in
change_focus kept scene a = elim (a.last_scene) [
  | none ↦ on_focused scene ∷ []
  | some last ↦
      if kept last || is_in last a.scene_stack
      then (if scene == last then [] else on_unfocused last ∷ on_focused scene ∷ [])
      else expired last ∷ on_focused scene ∷ []
]

-- A turn of `loop` once the events were handled, by the scene on top.
unfoldable pub run_scene : Turn → App → Option ℕ → App × List Call
unfolding change_focus edit_stack
run_scene t a none = (record a { exit_requested = true }, [])
run_scene t a (some scene) = (
  edit_stack t.edits (record a { last_scene = some scene }),
  (sync_actions ∷ []) ++ (change_focus t.kept scene a ++ (wait_frame ∷ render scene ∷ [])),
)

unfoldable pub loop : Turn → App → App × List Call
unfolding run_scene current_scene poll_events
loop t a =
    let (a', calls) = poll_events t.events a in
    let (a'', more) =
      if a'.session_running then run_scene t a' (current_scene a') else (a', sleep ∷ []) in
    (a'', calls ++ more)

-- `run`, for the turns until it ends or is looked at.
unfoldable pub run : List Turn → App → App × List Call
unfolding loop
run [] a = (a, [])
run (t ∷ turns) a =
    let (a', calls) = loop t a in
    let (a'', more) = run turns a' in if a.exit_requested then (a, []) else (a'', calls ++ more)

-- The application with its first scene.
unfoldable pub start : ℕ → App
start scene = record {
  session_running = false;
  session_visible = false;
  session_focused = false;
  exit_requested = false;
  scene_stack = scene ∷ [];
  last_scene = none;
}

-- `read_action_bool`, `read_action_float`, `read_action_vec2`, for the state that OpenXR gives.
unfoldable pub read_action {ℓ} : {A : Type ℓ} → Option A → App → Option A
read_action state a = if a.session_focused then state else none
