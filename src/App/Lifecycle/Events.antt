-- ===== src/App/Lifecycle/Events.antt =====
-- `poll_events` of client/application.cpp, and the session.

use wi_vrn.Common.{
  ℕ, ◌≡◌, refl, ap, ◌∙◌, List, [], ◌∷◌, ◌++◌, some, Bool, true, false, Option-cases, inl, inr,
  arith,
}
use wi_vrn.App.{
  App, SessionState, Call, on_session_state_changed, on_interaction_profile_changed,
  on_reference_space_changed, switch_state, tell_scene, current_scene, session_state_changed,
  XrEvent, instance_loss_pending, other_event, interaction_profile_changed,
  reference_space_change_pending, state_changed, handle_event, poll_events,
}
use wi_vrn.App.Lifecycle.{
  may_follow, IsLifecycle, last_state, reported, runs, is_visible, is_focused, IsCurrent,
  session_call, session_calls, session_calls-append, Moves, IsLifecycle-split, last_state-append,
}

switch_state-Moves :
    (s s' : SessionState) (a : App)
    → may_follow s s' ≡ true
    → IsCurrent s a
    → Moves s' a (switch_state s' a)
unfolding may_follow switch_state runs is_visible is_focused session_calls session_call
switch_state-Moves s s' a m c = ground (arith)

tell_scene-session :
    (call : ℕ → Call) (a : App) (b : Bool)
    → ((s : ℕ) → session_call (call s) b ≡ some b)
    → session_calls b (tell_scene call a) ≡ some b
unfolding tell_scene session_calls
tell_scene-session call a b h = elim (Option-cases (current_scene a)) [
  | inl n ↦ rw (n, tell_scene) refl
  | inr (s, e) ↦ rw (e, tell_scene) (rw (h s, session_calls) refl)
]

session_state_changed-Moves :
    (s s' : SessionState) (a : App)
    → may_follow s s' ≡ true
    → IsCurrent s a
    → Moves s' a (session_state_changed s' a)
unfolding session_state_changed session_call
session_state_changed-Moves s s' a m c =
    let moves = switch_state-Moves s s' a m c in
    let a' = (switch_state s' a).0 in
    record {
      current = moves.current;
      calls =
          session_calls-append a.session_running a'.session_running (switch_state s' a).1
            (tell_scene (λ n. on_session_state_changed n s') a') moves.calls
          ∙ tell_scene-session (λ n. on_session_state_changed n s') a' a'.session_running
              (λ n. refl);
    }

handle_event-Moves :
    (e : XrEvent) (s : SessionState) (a : App)
    → IsLifecycle s (reported (e ∷ []))
    → IsCurrent s a
    → Moves (last_state s (reported (e ∷ []))) a (handle_event e a)
unfolding handle_event session_calls session_call
handle_event-Moves instance_loss_pending s a l c = record {
  current = record { running = c.running; shows = c.shows; focuses = c.focuses };
  calls = refl;
}
handle_event-Moves other_event s a l c = record { current = c; calls = refl }
handle_event-Moves (interaction_profile_changed false) s a l c = record {
  current = c;
  calls = refl;
}
handle_event-Moves (interaction_profile_changed true) s a l c = record {
  current = c;
  calls = tell_scene-session on_interaction_profile_changed a a.session_running (λ n. refl);
}
handle_event-Moves (reference_space_change_pending false) s a l c = record {
  current = c;
  calls = refl;
}
handle_event-Moves (reference_space_change_pending true) s a l c = record {
  current = c;
  calls = tell_scene-session on_reference_space_changed a a.session_running (λ n. refl);
}
handle_event-Moves (state_changed false s') s a l c = record { current = c; calls = refl }
handle_event-Moves (state_changed true s') s a l c = session_state_changed-Moves s s' a l.0 c

reported-cons :
    (e : XrEvent) (events : List XrEvent)
    → reported (e ∷ events) ≡ reported (e ∷ []) ++ reported events
reported-cons instance_loss_pending events = refl
reported-cons other_event events = refl
reported-cons (interaction_profile_changed b) events = refl
reported-cons (reference_space_change_pending b) events = refl
reported-cons (state_changed false s) events = refl
reported-cons (state_changed true s) events = refl

pub poll_events-Moves :
    (events : List XrEvent) (s : SessionState) (a : App)
    → IsLifecycle s (reported events)
    → IsCurrent s a
    → Moves (last_state s (reported events)) a (poll_events events a)
unfolding poll_events session_calls
poll_events-Moves [] s a l c = record { current = c; calls = refl }
poll_events-Moves (e ∷ events) s a l c =
    let l' : IsLifecycle s (reported (e ∷ []) ++ reported events) =
      rw (reported-cons e events) at l in
    let parts = IsLifecycle-split s (reported (e ∷ [])) (reported events) l' in
    let one = handle_event-Moves e s a parts.0 c in
    let a' = (handle_event e a).0 in
    let more = poll_events-Moves events (last_state s (reported (e ∷ []))) a' parts.1 one.current in
    let whole : last_state s (reported (e ∷ events))
        ≡ last_state (last_state s (reported (e ∷ []))) (reported events) =
      ap (last_state s) (reported-cons e events)
      ∙ last_state-append s (reported (e ∷ [])) (reported events) in
    record {
      current = rw whole more.current;
      calls =
          session_calls-append a.session_running a'.session_running (handle_event e a).1
            (poll_events events a').1 one.calls
          ∙ more.calls;
    }
