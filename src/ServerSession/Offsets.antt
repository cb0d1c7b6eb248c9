-- ===== src/ServerSession/Offsets.antt =====
-- What reaches the devices from server/driver/wivrn_session.cpp, and with which clock offset.
use mathlib.Core.Path.{subst}
use wi_vrn.Common.{sym, ℕ, ◌≡◌, inl, inr, refl, true, false, List, [], ◌∷◌, ◌++◌, All, Bool-cases}
use wi_vrn.ClockOffset.{Doubles, ClockOffset, Estimator, is_known, reset}
use wi_vrn.ServerSession.Thread.{Round, run_thread, events_of, run_thread-run}
use wi_vrn.ServerSession.{
  Packet, Call, ServerSession, Event, Reconnection, handle, reconnect, turn, run, when_known,
}

module _ {P : Type 0} {d : Doubles} where
  -- The call has no clock offset, or one that is known.
  abbrev pub IsDated : Call P d → Type 0
  IsDated (Call.head_tracking t o) = is_known o ≡ true
  IsDated (Call.left_tracking t o) = is_known o ≡ true
  IsDated (Call.right_tracking t o) = is_known o ≡ true
  IsDated (Call.left_hand_tracking t o) = is_known o ≡ true
  IsDated (Call.right_hand_tracking t o) = is_known o ≡ true
  IsDated (Call.left_inputs i o) = is_known o ≡ true
  IsDated (Call.right_inputs i o) = is_known o ≡ true
  IsDated (Call.on_feedback f o) = is_known o ≡ true
  IsDated (Call.process_mic_data a) = Unit
  IsDated (Call.notify visible focused) = Unit
  IsDated Call.reset_encoders = Unit
  IsDated Call.send_description = Unit

  -- The call has no clock offset.
  abbrev pub IsTimeless : Call P d → Type 0
  IsTimeless (Call.head_tracking t o) = ⊥
  IsTimeless (Call.left_tracking t o) = ⊥
  IsTimeless (Call.right_tracking t o) = ⊥
  IsTimeless (Call.left_hand_tracking t o) = ⊥
  IsTimeless (Call.right_hand_tracking t o) = ⊥
  IsTimeless (Call.left_inputs i o) = ⊥
  IsTimeless (Call.right_inputs i o) = ⊥
  IsTimeless (Call.on_feedback f o) = ⊥
  IsTimeless (Call.process_mic_data a) = Unit
  IsTimeless (Call.notify visible focused) = Unit
  IsTimeless Call.reset_encoders = Unit
  IsTimeless Call.send_description = Unit

-- The event is no answer with the headset's time.
abbrev pub IsUntimed : {P : Type 0} → Event P → Type 0
IsUntimed (Event.received now (Packet.timesync_response query response)) = ⊥
IsUntimed (Event.received now packet) = Unit
IsUntimed (Event.broken outcome) = Unit

module _ {A : Type 0} (Q : A → Type 0) where
  All-append : (xs ys : List A) → All Q xs → All Q ys → All Q (xs ++ ys)
  All-append [] ys p q = q
  All-append (x ∷ xs) ys (p, ps) q = (p, All-append xs ys ps q)

module _ {P : Type 0} {d : Doubles} where
  known-IsDated :
      (e : Estimator d) (calls : ClockOffset d → List (Call P d))
      → ((o : ClockOffset d) → is_known o ≡ true → All IsDated (calls o))
      → All IsDated (when_known e calls)
  known-IsDated e calls dated = elim (Bool-cases (is_known e.offset)) [
    | inl known ↦ rw known (dated e.offset known)
    | inr unknown ↦ rw unknown tt
  ]

  handle-IsDated :
      (s : ServerSession d) (now : ℕ) (packet : Packet P) → All IsDated (handle s now packet).0
  unfolding handle
  handle-IsDated s now Packet.handshake = tt
  handle-IsDated s now Packet.headset_info = tt
  handle-IsDated s now (Packet.tracking t) =
      known-IsDated s.offset_est
        (λ o. Call.head_tracking t o ∷ Call.left_tracking t o ∷ Call.right_tracking t o ∷ [])
        (λ o k. (k, (k, (k, tt))))
  handle-IsDated s now (Packet.hand_tracking t) =
      known-IsDated s.offset_est
        (λ o. Call.left_hand_tracking t o ∷ Call.right_hand_tracking t o ∷ []) (λ o k. (k, (k, tt)))
  handle-IsDated s now (Packet.inputs i) =
      known-IsDated s.offset_est (λ o. Call.left_inputs i o ∷ Call.right_inputs i o ∷ [])
        (λ o k. (k, (k, tt)))
  handle-IsDated s now (Packet.timesync_response query response) = tt
  handle-IsDated s now (Packet.feedback f) =
      known-IsDated s.offset_est (λ o. Call.on_feedback f o ∷ []) (λ o k. (k, tt))
  handle-IsDated s now (Packet.audio_data a) = elim (Bool-cases s.has_audio) [
    | inl e ↦ rw e (tt, tt)
    | inr e ↦ rw e tt
  ]

module _ (P : Type 0) {d : Doubles} where
  reconnect-IsTimeless :
      (s : ServerSession d) (outcome : Reconnection)
      → All IsTimeless (reconnect {P = P} outcome s).0
  unfolding reconnect
  reconnect-IsTimeless s Reconnection.refused = (tt, tt)
  reconnect-IsTimeless s Reconnection.silent = elim (Bool-cases s.has_audio) [
    | inl e ↦ rw e (tt, (tt, (tt, tt)))
    | inr e ↦ rw e (tt, (tt, tt))
  ]
  reconnect-IsTimeless s Reconnection.established = elim (Bool-cases s.has_audio) [
    | inl e ↦ rw e (tt, (tt, (tt, (tt, tt))))
    | inr e ↦ rw e (tt, (tt, (tt, tt)))
  ]

  reconnected :
      (s : ServerSession d) (outcome : Reconnection)
      → is_known (reconnect {P = P} outcome s).1.offset_est.offset ≡ false
  unfolding reconnect reset is_known
  reconnected s outcome = refl

module _ {P : Type 0} {d : Doubles} where
  Call-IsDated : (c : Call P d) → IsTimeless c → IsDated c
  Call-IsDated (Call.head_tracking t o) h = absurd h
  Call-IsDated (Call.left_tracking t o) h = absurd h
  Call-IsDated (Call.right_tracking t o) h = absurd h
  Call-IsDated (Call.left_hand_tracking t o) h = absurd h
  Call-IsDated (Call.right_hand_tracking t o) h = absurd h
  Call-IsDated (Call.left_inputs i o) h = absurd h
  Call-IsDated (Call.right_inputs i o) h = absurd h
  Call-IsDated (Call.on_feedback f o) h = absurd h
  Call-IsDated (Call.process_mic_data a) h = tt
  Call-IsDated (Call.notify visible focused) h = tt
  Call-IsDated Call.reset_encoders h = tt
  Call-IsDated Call.send_description h = tt

  IsTimeless-IsDated : (calls : List (Call P d)) → All IsTimeless calls → All IsDated calls
  IsTimeless-IsDated [] all = tt
  IsTimeless-IsDated (c ∷ calls) (h, all) = (Call-IsDated c h, IsTimeless-IsDated calls all)

  turn-IsDated : (event : Event P) (s : ServerSession d) → All IsDated (turn event s).0
  turn-IsDated (Event.received now packet) s = handle-IsDated s now packet
  turn-IsDated (Event.broken b) s =
      IsTimeless-IsDated (reconnect {P = P} b s).0 (reconnect-IsTimeless P s b)

  run-IsDated : (events : List (Event P)) (s : ServerSession d) → All IsDated (run events s)
  run-IsDated [] s = tt
  run-IsDated (event ∷ events) s =
      All-append IsDated (turn event s).0 (run events (turn event s).1) (turn-IsDated event s)
        (run-IsDated events (turn event s).1)

  -- With no known offset and no answer with the headset's time, no call has an offset, and none
  -- becomes known.
  untimed_turn :
      (event : Event P) (s : ServerSession d)
      → IsUntimed event
      → is_known s.offset_est.offset ≡ false
      → All IsTimeless (turn event s).0 × (is_known (turn event s).1.offset_est.offset ≡ false)
  unfolding handle
  untimed_turn (Event.received now Packet.handshake) s u unknown = (tt, unknown)
  untimed_turn (Event.received now Packet.headset_info) s u unknown = (tt, unknown)
  untimed_turn (Event.received now (Packet.tracking t)) s u unknown = (rw unknown tt, unknown)
  untimed_turn (Event.received now (Packet.hand_tracking t)) s u unknown = (rw unknown tt, unknown)
  untimed_turn (Event.received now (Packet.inputs i)) s u unknown = (rw unknown tt, unknown)
  untimed_turn (Event.received now (Packet.timesync_response query response)) s u unknown = absurd u
  untimed_turn (Event.received now (Packet.feedback f)) s u unknown = (rw unknown tt, unknown)
  untimed_turn (Event.received now (Packet.audio_data a)) s u unknown =
      (elim (Bool-cases s.has_audio) [ inl e ↦ rw e (tt, tt) | inr e ↦ rw e tt ], unknown)
  untimed_turn (Event.broken b) s u unknown = (reconnect-IsTimeless P s b, reconnected P s b)

  untimed_run :
      (events : List (Event P)) (s : ServerSession d)
      → All IsUntimed events
      → is_known s.offset_est.offset ≡ false
      → All IsTimeless (run events s)
  untimed_run [] s u unknown = tt
  untimed_run (event ∷ events) s (here, u) unknown =
      let (calls, still) = untimed_turn event s here unknown in
      All-append IsTimeless (turn event s).0 (run events (turn event s).1) calls
        (untimed_run events (turn event s).1 u still)

  -- From a reconnection on, however it ended: until an answer with the headset's time comes, the
  -- network thread makes no call with a clock offset at all, whatever the sockets receive and
  -- however often the connection breaks again; and from any session, every call with a clock offset
  -- that the thread makes has one that is known.
  pub run_thread-IsDated :
      (rounds others : List (Round P)) (outcome : Reconnection) (s : ServerSession d)
      → All IsUntimed (events_of rounds)
      → All IsTimeless (run_thread rounds (reconnect {P = P} outcome s).1)
        × All IsDated (run_thread others s)
  run_thread-IsDated rounds others outcome s u =
      let next = (reconnect {P = P} outcome s).1 in
      (
        subst (All IsTimeless) (sym (run_thread-run rounds next))
            (untimed_run (events_of rounds) next u (reconnected P s outcome)),
        subst (All IsDated) (sym (run_thread-run others s)) (run-IsDated (events_of others) s),
      )
