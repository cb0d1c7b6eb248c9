-- ===== src/App/Lifecycle/Turns.antt =====
-- `loop` and `run` of client/application.cpp, and the session.

use wi_vrn.Common.{
  ℕ, ◌≡◌, refl, sym, ap, ◌∙◌, List, [], ◌∷◌, ◌++◌, Option, none, some, Bool, true, false, ◌||◌,
  ◌==◌, if◌then◌else◌, Bool-cases, Option-cases, inl, inr,
}
use wi_vrn.App.{
  App, SessionState, unknown, Call, sleep, sync_actions, wait_frame, render, current_scene,
  poll_events, edit_stack, Edit, pushes, pops, push_scene, pop_scene, Turn, change_focus, is_in,
  run_scene, loop, run, start,
}
use wi_vrn.App.Lifecycle.{
  IsLifecycle, last_state, reported, all_reported, runs, is_visible, is_focused, IsCurrent,
  session_call, session_calls, session_calls-append, Moves, IsLifecycle-split, last_state-append,
}
use wi_vrn.App.Lifecycle.Events.{poll_events-Moves}

-- Neither the change of focus nor a scene that renders touches the session.
change_focus-session :
    (kept : ℕ → Bool) (scene : ℕ) (a : App) (b : Bool)
    → session_calls b (change_focus kept scene a) ≡ some b
unfolding change_focus session_calls session_call
change_focus-session kept scene a b = elim (Option-cases a.last_scene) [
  | inl e ↦ rw (e, change_focus) refl
  | inr (last, e) ↦
      rw (e, change_focus)
        (elim (Bool-cases (kept last || is_in last a.scene_stack)) [
          | inr gone ↦ rw gone refl
          | inl there ↦ elim (Bool-cases (scene == last)) [
            | inl same ↦ rw (there, same) refl
            | inr other ↦ rw (there, other) refl
          ]
        ])
]

edit_stack-IsCurrent :
    (edits : List Edit) (s : SessionState) (a : App)
    → IsCurrent s a
    → IsCurrent s (edit_stack edits a)
unfolding edit_stack push_scene pop_scene
edit_stack-IsCurrent [] s a c = c
edit_stack-IsCurrent (pushes n ∷ edits) s a c =
    edit_stack-IsCurrent edits s (push_scene n a)
      (record { running = c.running; shows = c.shows; focuses = c.focuses })
edit_stack-IsCurrent (pops ∷ edits) s a c =
    edit_stack-IsCurrent edits s (pop_scene a)
      (record { running = c.running; shows = c.shows; focuses = c.focuses })

session_calls-sync :
    (b : Bool) (calls : List Call)
    → b ≡ true
    → session_calls b (sync_actions ∷ calls) ≡ session_calls true calls
unfolding session_calls session_call
session_calls-sync true calls y = refl
session_calls-sync false calls y = cc

session_calls-frame : (scene : ℕ) → session_calls true (wait_frame ∷ render scene ∷ []) ≡ some true
unfolding session_calls session_call
session_calls-frame scene = refl

run_scene-Moves :
    (t : Turn) (s : SessionState) (a : App) (top : Option ℕ)
    → a.session_running ≡ true
    → IsCurrent s a
    → Moves s a (run_scene t a top)
unfolding run_scene session_calls
run_scene-Moves t s a none y c = record {
  current = record { running = c.running; shows = c.shows; focuses = c.focuses };
  calls = refl;
}
run_scene-Moves t s a (some scene) y c =
    let after = record a { last_scene = some scene } in
    let c' : IsCurrent s after = record {
      running = c.running;
      shows = c.shows;
      focuses = c.focuses;
    } in
    let edited = edit_stack-IsCurrent t.edits s after c' in
    let running : (edit_stack t.edits after).session_running ≡ true =
      edited.running ∙ sym c.running ∙ y in
    record {
      current = edited;
      calls =
          session_calls-sync a.session_running
            (change_focus t.kept scene a ++ (wait_frame ∷ render scene ∷ [])) y
          ∙ session_calls-append true true (change_focus t.kept scene a)
              (wait_frame ∷ render scene ∷ []) (change_focus-session t.kept scene a true)
          ∙ session_calls-frame scene
          ∙ ap (λ (b : Bool). some b) (sym running);
    }

Moves-if :
    (s : SessionState) (a : App) (b : Bool) (r r' : App × List Call)
    → (b ≡ true → Moves s a r)
    → Moves s a r'
    → Moves s a (if b then r else r')
Moves-if s a true r r' h h' = h refl
Moves-if s a false r r' h h' = h'

loop-Moves :
    (t : Turn) (s : SessionState) (a : App)
    → IsLifecycle s (reported t.events)
    → IsCurrent s a
    → Moves (last_state s (reported t.events)) a (loop t a)
unfolding loop session_call session_calls
loop-Moves t s a l c =
    let s' = last_state s (reported t.events) in
    let polled = poll_events-Moves t.events s a l c in
    let a' = (poll_events t.events a).0 in
    let turn : Moves s' a'
        (if a'.session_running then run_scene t a' (current_scene a') else (a', sleep ∷ [])) =
      Moves-if s' a' a'.session_running (run_scene t a' (current_scene a')) (a', sleep ∷ [])
        (λ y. run_scene-Moves t s' a' (current_scene a') y polled.current)
        (record { current = polled.current; calls = refl }) in
    record {
      current = turn.current;
      calls =
          session_calls-append a.session_running a'.session_running (poll_events t.events a).1
            (if a'.session_running then run_scene t a' (current_scene a') else (a', sleep ∷ [])).1
            polled.calls
          ∙ turn.calls;
    }

-- The turns that are made before the application ends.
unfoldable pub made : List Turn → App → List Turn
made [] a = []
made (t ∷ turns) a = let rest = made turns (loop t a).0 in if a.exit_requested then [] else t ∷ rest

run-Moves :
    (turns : List Turn) (s : SessionState) (a : App)
    → IsLifecycle s (all_reported turns)
    → IsCurrent s a
    → Moves (last_state s (all_reported (made turns a))) a (run turns a)
unfolding run made session_calls
run-Moves [] s a l c = record { current = c; calls = refl }
run-Moves (t ∷ turns) s a l c =
    let parts = IsLifecycle-split s (reported t.events) (all_reported turns) l in
    let s' = last_state s (reported t.events) in
    let a' = (loop t a).0 in
    let one = loop-Moves t s a parts.0 c in
    let more = run-Moves turns s' a' parts.1 one.current in
    let next : Moves (last_state s (all_reported (t ∷ made turns a'))) a
        ((run turns a').0, (loop t a).1 ++ (run turns a').1) =
      record {
        current =
            rw (last_state-append s (reported t.events) (all_reported (made turns a')))
              more.current;
        calls =
            session_calls-append a.session_running a'.session_running (loop t a).1 (run turns a').1
              one.calls
            ∙ more.calls;
      } in
    go a.exit_requested next
  where
    go :
        (b : Bool)
        → Moves
            (last_state s (all_reported (t ∷ made turns (loop t a).0)))
            a
            ((run turns (loop t a).0).0, (loop t a).1 ++ (run turns (loop t a).0).1)
        → Moves (last_state s (all_reported (if b then [] else t ∷ made turns (loop t a).0))) a (
            if b
            then (a, [])
            else ((run turns (loop t a).0).0, (loop t a).1 ++ (run turns (loop t a).0).1))
    go true next = record { current = c; calls = refl }
    go false next = next

-- When the session's states follow one another as OpenXR has them, and the session is not lost:
-- whatever else happens, a session is begun only while none runs and ended only while one does, in
-- alternation; actions are synchronised, frames waited for and scenes rendered only while one runs;
-- and the flags for running, visible and focused are those of the state reported last.
pub run-session :
    (scene : ℕ) (turns : List Turn)
    → IsLifecycle unknown (all_reported turns)
    → let r = run turns (start scene) in
      let s = last_state unknown (all_reported (made turns (start scene))) in
      (session_calls false r.1 ≡ some (runs s)) × IsCurrent s r.0
unfolding start runs is_visible is_focused
run-session scene turns l =
    let moves =
      run-Moves turns unknown (start scene) l
        (record { running = refl; shows = refl; focuses = refl }) in
    (moves.calls ∙ ap (λ (b : Bool). some b) moves.current.running, moves.current)
