-- ===== src/ServerSession/Thread.antt =====
-- The turns of the network thread of server/driver/wivrn_session.cpp, with the connection's `poll`
-- in them, and the events that they are.
use wi_vrn.Common.{
  ℕ, ◌≡◌, refl, ap, ◌∙◌, Option, none, some, List, [], ◌∷◌, ◌++◌, append_assoc, Result, ok, err,
  if◌then◌else◌, Bool-cases, Option-cases, inl, inr,
}
use wi_vrn.ClockOffset.{Doubles}
use wi_vrn.Connection.Polling.{Polled, Visitor, visit, poll}
use wi_vrn.ServerSession.{
  Packet, Call, ServerSession, Reconnection, Event, handle, reconnect, turn, run,
}

-- What a turn finds: what `poll` finds, when, and how a reconnection would end.
pub record Round (P : Type 0) : Type 0 where
  pub polled : Polled (Packet P)
  pub now : ℕ
  pub outcome : Reconnection

module _ {P : Type 0} {d : Doubles} where
  -- The session as the visitor of `poll`, with the calls that it made.
  abbrev pub session_visitor : ℕ → Visitor (Packet P) (List (Call P d) × ServerSession d)
  session_visitor now packet (calls, s) =
      let (more, next) = handle s now packet in (ok tt, (calls ++ more, next))

  -- What follows `poll` in a turn: nothing, or a reconnection.
  abbrev pub after_poll :
      Reconnection
      → Result ℕ × (List (Call P d) × ServerSession d)
      → List (Call P d) × ServerSession d
  after_poll outcome (ok r, (calls, s)) = (calls, s)
  after_poll outcome (err e, (calls, s)) =
      let (more, next) = reconnect outcome s in (calls ++ more, next)

  unfoldable pub thread_turn : Round P → ServerSession d → List (Call P d) × ServerSession d
  thread_turn t s = after_poll t.outcome (poll (session_visitor t.now) t.polled ([], s))

  -- The loop of `run`, without what it sends to the headset and its end.
  unfoldable pub run_thread : List (Round P) → ServerSession d → List (Call P d)
  run_thread [] s = []
  run_thread (t ∷ rounds) s = let (calls, next) = thread_turn t s in calls ++ run_thread rounds next

module _ {P : Type 0} where
  abbrev pub visit_events :
      Round P → Option (Result (Option (Packet P))) → List (Event P) → List (Event P)
  visit_events t none rest = rest
  visit_events t (some (err e)) rest = Event.broken t.outcome ∷ []
  visit_events t (some (ok none)) rest = rest
  visit_events t (some (ok (some packet))) rest = Event.received t.now packet ∷ rest

  -- The events of a turn.
  abbrev pub ready_events : Round P → List (Event P)
  ready_events t =
      if t.polled.is_stream_broken
      then Event.broken t.outcome ∷ []
      else if t.polled.is_control_broken
      then Event.broken t.outcome ∷ []
      else visit_events t t.polled.stream_packet (visit_events t t.polled.control_packet [])

  abbrev pub round_events : Round P → List (Event P)
  round_events t = elim (t.polled.ready) [
    | none ↦ Event.broken t.outcome ∷ []
    | some r ↦ ready_events t
  ]

  abbrev pub events_of : List (Round P) → List (Event P)
  events_of [] = []
  events_of (t ∷ rounds) = round_events t ++ events_of rounds

module _ {P : Type 0} {d : Doubles} where
  -- The calls of some events behind earlier ones, and the session after them.
  abbrev replay :
      List (Event P) → List (Call P d) × ServerSession d → List (Call P d) × ServerSession d
  replay [] (calls, s) = (calls, s)
  replay (event ∷ events) (calls, s) =
      let (more, next) = turn event s in replay events (calls ++ more, next)

  replay-run :
      (events rest : List (Event P)) (calls : List (Call P d)) (s : ServerSession d)
      → (replay events (calls, s)).0 ++ run rest (replay events (calls, s)).1
        ≡ calls ++ run (events ++ rest) s
  replay-run [] rest calls s = refl
  replay-run (event ∷ events) rest calls s =
      replay-run events rest (calls ++ (turn event s).0) (turn event s).1
      ∙ append_assoc calls (turn event s).0 (run (events ++ rest) (turn event s).1)

  visit-replay :
      (t : Round P) (packet : Option (Result (Option (Packet P))))
      (next : List (Call P d) × ServerSession d → Result ℕ × (List (Call P d) × ServerSession d))
      (rest : List (Event P)) (acc : List (Call P d) × ServerSession d)
      → ((acc : List (Call P d) × ServerSession d)
          → after_poll t.outcome (next acc) ≡ replay rest acc)
      → after_poll t.outcome (visit (session_visitor t.now) packet next acc)
        ≡ replay (visit_events t packet rest) acc
  visit-replay t none next rest acc h = h acc
  visit-replay t (some (err e)) next rest (calls, s) h = refl
  visit-replay t (some (ok none)) next rest acc h = h acc
  visit-replay t (some (ok (some packet))) next rest (calls, s) h =
      h (calls ++ (handle s t.now packet).0, (handle s t.now packet).1)

  thread_turn-replay :
      (t : Round P) (s : ServerSession d) → thread_turn t s ≡ replay (round_events t) ([], s)
  unfolding thread_turn poll
  thread_turn-replay t s = elim (Option-cases t.polled.ready) [
    | inl failed ↦ rw failed refl
    | inr (r, ready) ↦ rw ready (elim (Bool-cases t.polled.is_stream_broken) [
      | inl broken ↦ rw broken refl
      | inr fine ↦ elim (Bool-cases t.polled.is_control_broken) [
        | inl broken ↦ rw (fine, broken) refl
        | inr fine' ↦
            rw (fine, fine')
              (visit-replay t t.polled.stream_packet
                (visit (session_visitor t.now) t.polled.control_packet (λ acc. (ok r, acc)))
                (visit_events t t.polled.control_packet []) ([], s)
                (λ acc.
                  visit-replay t t.polled.control_packet (λ acc. (ok r, acc)) [] acc (λ acc. refl)))
      ]
    ])
  ]

  -- The network thread makes the calls of the events that its turns are: what the two sockets
  -- receive, the stream's packet first, up to the first failure of the turn, and then a
  -- reconnection.
  pub run_thread-run :
      (rounds : List (Round P)) (s : ServerSession d)
      → run_thread rounds s ≡ run (events_of rounds) s
  unfolding run_thread
  run_thread-run [] s = refl
  run_thread-run (t ∷ rounds) s =
      ap (λ r. r.0 ++ run_thread rounds r.1) (thread_turn-replay t s)
      ∙ ap (λ calls. (replay (round_events t) ([], s)).0 ++ calls)
          (run_thread-run rounds (replay (round_events t) ([], s)).1)
      ∙ replay-run (round_events t) (events_of rounds) [] s
