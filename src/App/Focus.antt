-- ===== src/App/Focus.antt =====
-- Which scene is focused, in the main loop of client/application.cpp.

use wi_vrn.Common.{
  ℕ, ◌==◌, ◌≡◌, refl, sym, ap, ◌∙◌, List, [], ◌∷◌, ◌++◌, Option, none, some, Bool, true, false,
  ◌||◌, if◌then◌else◌, Bool-cases, Option-cases, inl, inr, ==-refl, ==_iff,
}
use wi_vrn.App.{
  App, SessionState, Call, begin_session, end_session, sleep, sync_actions, wait_frame,
  set_wifi_enabled, on_session_state_changed, on_interaction_profile_changed,
  on_reference_space_changed, on_focused, on_unfocused, render, expired, switch_state, tell_scene,
  current_scene, session_state_changed, XrEvent, instance_loss_pending, other_event,
  interaction_profile_changed, reference_space_change_pending, state_changed, handle_event,
  poll_events, edit_stack, Edit, pushes, pops, push_scene, pop_scene, Turn, is_in, change_focus,
  run_scene, loop, run, start,
}

-- What a scene may expect: it is focused only while no other is, it is unfocused or has ceased to
-- exist only after it was focused, and it renders only while it is focused. `none` as the result
-- means that a call breaks this.
unfoldable pub follow_call : Call → Option ℕ → Option (Option ℕ)
follow_call (on_focused s) f = elim f [ none ↦ some (some s) | some t ↦ none ]
follow_call (on_unfocused s) f = elim f [
  | none ↦ none
  | some t ↦ if t == s then some none else none
]
follow_call (expired s) f = elim f [ none ↦ none | some t ↦ if t == s then some none else none ]
follow_call (render s) f = elim f [ none ↦ none | some t ↦ if t == s then some (some t) else none ]
follow_call begin_session f = some f
follow_call end_session f = some f
follow_call sleep f = some f
follow_call sync_actions f = some f
follow_call wait_frame f = some f
follow_call (set_wifi_enabled enabled) f = some f
follow_call (on_session_state_changed s state) f = some f
follow_call (on_interaction_profile_changed s) f = some f
follow_call (on_reference_space_changed s) f = some f

-- The scene that is focused after some calls, from the one before them.
unfoldable pub follow : Option ℕ → List Call → Option (Option ℕ)
follow f [] = some f
follow f (c ∷ calls) = elim (follow_call c f) [ none ↦ none | some f' ↦ follow f' calls ]

pub follow-append :
    (f f' : Option ℕ) (calls more : List Call)
    → follow f calls ≡ some f'
    → follow f (calls ++ more) ≡ follow f' more
unfolding follow
follow-append f f' [] more e = let p : f ≡ f' = cc in rw p refl
follow-append f f' (c ∷ calls) more e = elim (Option-cases (follow_call c f)) [
  | inl n ↦ let e' : none ≡ some f' = rw (n, follow) at e in cc
  | inr (g, s) ↦
      let e' : follow g calls ≡ some f' = rw (s, follow) at e in
      rw (s, follow) (follow-append g f' calls more e')
]

-- Handling events says nothing about focus and leaves `last_scene`.
Quiet : App → App × List Call → Type 0
Quiet a r = ((f : Option ℕ) → follow f r.1 ≡ some f) × (r.0.last_scene ≡ a.last_scene)

switch_state-Quiet : (state : SessionState) (a : App) → Quiet a (switch_state state a)
unfolding Quiet follow follow_call switch_state
switch_state-Quiet SessionState.unknown a = ((λ f. refl), refl)
switch_state-Quiet SessionState.idle a = ((λ f. refl), refl)
switch_state-Quiet SessionState.ready a = ((λ f. refl), refl)
switch_state-Quiet SessionState.synchronized a = ((λ f. refl), refl)
switch_state-Quiet SessionState.visible a = ((λ f. refl), refl)
switch_state-Quiet SessionState.focused a = ((λ f. refl), refl)
switch_state-Quiet SessionState.stopping a = ((λ f. refl), refl)
switch_state-Quiet SessionState.loss_pending a = ((λ f. refl), refl)
switch_state-Quiet SessionState.exiting a = ((λ f. refl), refl)

tell_scene-follow :
    (call : ℕ → Call) (a : App) (f : Option ℕ)
    → ((s : ℕ) → follow_call (call s) f ≡ some f)
    → follow f (tell_scene call a) ≡ some f
unfolding tell_scene follow
tell_scene-follow call a f h = elim (Option-cases (current_scene a)) [
  | inl n ↦ rw (n, tell_scene) refl
  | inr (s, e) ↦ rw (e, tell_scene) (rw (h s, follow) refl)
]

session_state_changed-Quiet :
    (state : SessionState) (a : App) → Quiet a (session_state_changed state a)
unfolding session_state_changed Quiet follow_call
session_state_changed-Quiet state a =
    let q = switch_state-Quiet state a in
    let a' = (switch_state state a).0 in
    (
      λ f.
          follow-append f f (switch_state state a).1
            (tell_scene (λ s. on_session_state_changed s state) a') (q.0 f)
          ∙ tell_scene-follow (λ s. on_session_state_changed s state) a' f (λ s. refl),
      q.1,
    )

handle_event-Quiet : (e : XrEvent) (a : App) → Quiet a (handle_event e a)
unfolding handle_event Quiet follow follow_call
handle_event-Quiet instance_loss_pending a = ((λ f. refl), refl)
handle_event-Quiet other_event a = ((λ f. refl), refl)
handle_event-Quiet (interaction_profile_changed false) a = ((λ f. refl), refl)
handle_event-Quiet (interaction_profile_changed true) a =
    ((λ f. tell_scene-follow on_interaction_profile_changed a f (λ s. refl)), refl)
handle_event-Quiet (reference_space_change_pending false) a = ((λ f. refl), refl)
handle_event-Quiet (reference_space_change_pending true) a =
    ((λ f. tell_scene-follow on_reference_space_changed a f (λ s. refl)), refl)
handle_event-Quiet (state_changed false state) a = ((λ f. refl), refl)
handle_event-Quiet (state_changed true state) a = session_state_changed-Quiet state a

poll_events-Quiet : (events : List XrEvent) (a : App) → Quiet a (poll_events events a)
unfolding poll_events Quiet follow
poll_events-Quiet [] a = ((λ f. refl), refl)
poll_events-Quiet (e ∷ events) a =
    let one = handle_event-Quiet e a in
    let a' = (handle_event e a).0 in
    let more = poll_events-Quiet events a' in
    (
      λ f. follow-append f f (handle_event e a).1 (poll_events events a').1 (one.0 f) ∙ more.0 f,
      more.1 ∙ one.1,
    )

edit_stack-last : (edits : List Edit) (a : App) → (edit_stack edits a).last_scene ≡ a.last_scene
unfolding edit_stack push_scene pop_scene
edit_stack-last [] a = refl
edit_stack-last (pushes s ∷ edits) a = edit_stack-last edits (push_scene s a)
edit_stack-last (pops ∷ edits) a = edit_stack-last edits (pop_scene a)

-- The calls of a turn keep to what scenes may expect, and `last_scene` is the one that is focused.
Follows : App → App × List Call → Type 0
Follows a r = follow a.last_scene r.1 ≡ some r.0.last_scene

follow-unfocused :
    (last : ℕ) (calls : List Call)
    → follow (some last) (on_unfocused last ∷ calls) ≡ follow none calls
unfolding follow
follow-unfocused last calls =
    let e : follow_call (on_unfocused last) (some last) ≡ some none =
      unfold follow_call in rw (==-refl last) refl in
    rw (e, follow) refl

follow-expired :
    (last : ℕ) (calls : List Call) → follow (some last) (expired last ∷ calls) ≡ follow none calls
unfolding follow
follow-expired last calls =
    let e : follow_call (expired last) (some last) ≡ some none =
      unfold follow_call in rw (==-refl last) refl in
    rw (e, follow) refl

follow-render :
    (s : ℕ) (calls : List Call) → follow (some s) (render s ∷ calls) ≡ follow (some s) calls
unfolding follow
follow-render s calls =
    let e : follow_call (render s) (some s) ≡ some (some s) =
      unfold follow_call in rw (==-refl s) refl in
    rw (e, follow) refl

follow-focused : (s : ℕ) → follow none (on_focused s ∷ []) ≡ some (some s)
unfolding follow follow_call
follow-focused s = refl

-- The calls that follow the test of `last_scene`, for its value.
follow-change :
    (kept : ℕ → Bool) (scene : ℕ) (a : App) (last : ℕ)
    → follow (some last) (
        if kept last || is_in last a.scene_stack
        then (if scene == last then [] else on_unfocused last ∷ on_focused scene ∷ [])
        else expired last ∷ on_focused scene ∷ [])
      ≡ some (some scene)
unfolding follow
follow-change kept scene a last = elim (Bool-cases (kept last || is_in last a.scene_stack)) [
  | inr gone ↦ rw gone (follow-expired last (on_focused scene ∷ []) ∙ follow-focused scene)
  | inl there ↦ elim (Bool-cases (scene == last)) [
    | inl same ↦ rw (there, same) (ap (λ (n : ℕ). some (some n)) (sym ((==_iff scene last).0 same)))
    | inr other ↦
        rw (there, other) (follow-unfocused last (on_focused scene ∷ []) ∙ follow-focused scene)
  ]
]

change_focus-follow :
    (kept : ℕ → Bool) (scene : ℕ) (a : App)
    → follow a.last_scene (change_focus kept scene a) ≡ some (some scene)
unfolding change_focus
change_focus-follow kept scene a = elim (Option-cases a.last_scene) [
  | inl e ↦ rw (e, change_focus) (follow-focused scene)
  | inr (last, e) ↦ rw (e, change_focus) (follow-change kept scene a last)
]

run_scene-follow : (t : Turn) (a : App) (top : Option ℕ) → Follows a (run_scene t a top)
unfolding run_scene Follows follow
run_scene-follow t a none = refl
run_scene-follow t a (some scene) =
    unfold follow_call in
    (follow-append a.last_scene (some scene) (change_focus t.kept scene a)
        (wait_frame ∷ render scene ∷ []) (change_focus-follow t.kept scene a)
      ∙ follow-render scene []
      ∙ ap (λ (f : Option ℕ). some f)
          (sym (edit_stack-last t.edits (record a { last_scene = some scene }))))

Follows-if :
    (a : App) (b : Bool) (r r' : App × List Call)
    → Follows a r
    → Follows a r'
    → Follows a (if b then r else r')
Follows-if a true r r' h h' = h
Follows-if a false r r' h h' = h'

-- A turn goes on with the scene on top if the session runs.
running-follow :
    (t : Turn) (a : App)
    → Follows a (if a.session_running then run_scene t a (current_scene a) else (a, sleep ∷ []))
unfolding Follows follow follow_call
running-follow t a =
    Follows-if a a.session_running (run_scene t a (current_scene a)) (a, sleep ∷ [])
      (run_scene-follow t a (current_scene a)) refl

loop-follow : (t : Turn) (a : App) → Follows a (loop t a)
unfolding loop Follows Quiet
loop-follow t a =
    let quiet = poll_events-Quiet t.events a in
    let a' = (poll_events t.events a).0 in
    let more : List Call =
      (if a'.session_running then run_scene t a' (current_scene a') else (a', sleep ∷ [])).1 in
    follow-append a.last_scene a.last_scene (poll_events t.events a).1 more (quiet.0 a.last_scene)
    ∙ ap (λ f. follow f more) (sym quiet.1)
    ∙ running-follow t a'

run-follow-from : (turns : List Turn) (a : App) → Follows a (run turns a)
unfolding run Follows follow
run-follow-from [] a = refl
run-follow-from (t ∷ turns) a =
    let a' = (loop t a).0 in
    Follows-if a a.exit_requested (a, []) ((run turns a').0, (loop t a).1 ++ (run turns a').1) refl
      (follow-append a.last_scene a'.last_scene (loop t a).1 (run turns a').1 (loop-follow t a)
        ∙ run-follow-from turns a')

-- Whatever events come, whatever scenes do to the stack while they render, and whichever live on
-- without it: a scene is focused only while no other one is, it is unfocused only after that, unless
-- it ceases to exist, and it renders only while it is focused; and the scene that is focused at
-- the end is `last_scene`.
pub run-follow :
    (scene : ℕ) (turns : List Turn)
    → follow none (run turns (start scene)).1 ≡ some (run turns (start scene)).0.last_scene
unfolding start Follows
run-follow scene turns = run-follow-from turns (start scene)
