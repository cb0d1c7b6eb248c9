-- ===== src/ServerSession.antt =====
-- `wivrn_session` of server/driver/wivrn_session.cpp and .h once it is created: what it does with
-- the headset's packets, its network thread, the reconnection, and `max_accumulator`. `P` is what
-- the devices are given, which the session passes on; the file of timings is left out, and so are
-- the texts that are logged.
mod Thread
mod Offsets
mod Maximum
mod Runs
use wi_vrn.Common.{
  ℕ, zero, suc, Bool, true, false, Option, none, some, List, [], ◌∷◌, ◌++◌, if◌then◌else◌, ltb,
  ◌==◌,
}
use wi_vrn.ClockOffset.{Doubles, Sample, ClockOffset, Estimator, is_known, reset, add_sample}
use wi_vrn.Video.Accumulator.{Feedback}

module _ (P : Type 0) where
  -- `from_headset::packets`.
  pub data Packet : Type 0 where
    handshake : Packet
    headset_info : Packet
    tracking : P → Packet
    hand_tracking : P → Packet
    inputs : P → Packet
    timesync_response : (query response : ℕ) → Packet
    feedback : Feedback → Packet
    audio_data : P → Packet

module _ (P : Type 0) (d : Doubles) where
  -- What the session calls: the head, the left and the right controller, the compositor's target,
  -- the audio device, and the event sink of the clients.
  pub data Call : Type 0 where
    head_tracking left_tracking right_tracking : P → ClockOffset d → Call
    left_hand_tracking right_hand_tracking : P → ClockOffset d → Call
    left_inputs right_inputs : P → ClockOffset d → Call
    on_feedback : Feedback → ClockOffset d → Call
    process_mic_data : P → Call
    notify : (visible focused : Bool) → Call
    reset_encoders : Call
    send_description : Call

-- How `reconnect` ends: before it has the headset's first packet, with an exception; when it fails
-- to send the description of the audio streams; or with a session.
pub data Reconnection : Type 0 where
  refused silent established : Reconnection

module _ (d : Doubles) where
  pub record ServerSession : Type 0 where
    pub offset_est : Estimator d
    pub has_audio : Bool

module _ {P : Type 0} {d : Doubles} where
  -- Calls that are made when the offset is known.
  abbrev pub when_known : Estimator d → (ClockOffset d → List (Call P d)) → List (Call P d)
  when_known e calls = if is_known e.offset then calls e.offset else []

  -- The overloads of `operator()`; `now` is when a packet is handled.
  unfoldable pub handle : ServerSession d → (now : ℕ) → Packet P → List (Call P d) × ServerSession d
  handle s now Packet.handshake = ([], s)
  handle s now Packet.headset_info = ([], s)
  handle s now (Packet.tracking t) = (
    when_known s.offset_est
        (λ o. Call.head_tracking t o ∷ Call.left_tracking t o ∷ Call.right_tracking t o ∷ []),
    s,
  )
  handle s now (Packet.hand_tracking t) = (
    when_known s.offset_est (λ o. Call.left_hand_tracking t o ∷ Call.right_hand_tracking t o ∷ []),
    s,
  )
  handle s now (Packet.inputs i) =
      (when_known s.offset_est (λ o. Call.left_inputs i o ∷ Call.right_inputs i o ∷ []), s)
  handle s now (Packet.timesync_response query response) = (
    [],
    record s {
      offset_est =
          add_sample (record { query = query; response = response; received = now }) s.offset_est;
    },
  )
  handle s now (Packet.feedback f) = (when_known s.offset_est (λ o. Call.on_feedback f o ∷ []), s)
  handle s now (Packet.audio_data a) = (if s.has_audio then Call.process_mic_data a ∷ [] else [], s)

  abbrev pub reconnect_calls : Reconnection → (has_audio : Bool) → List (Call P d)
  reconnect_calls Reconnection.refused has_audio = []
  reconnect_calls Reconnection.silent has_audio =
      Call.reset_encoders ∷ (if has_audio then Call.send_description ∷ [] else [])
  reconnect_calls Reconnection.established has_audio =
      Call.reset_encoders ∷ (if has_audio then Call.send_description ∷ [] else [])
      ++ (Call.notify true true ∷ [])

  -- `reconnect` on an accepted connection; the process exits when none is accepted.
  unfoldable pub reconnect : Reconnection → ServerSession d → List (Call P d) × ServerSession d
  reconnect outcome s = (
    Call.notify false false ∷ reconnect_calls outcome s.has_audio,
    record s { offset_est = reset s.offset_est },
  )

-- What the turns of the network thread are made of: `poll` hands over a packet, or something
-- throws.
pub data Event (P : Type 0) : Type 0 where
  received : (now : ℕ) → Packet P → Event P
  broken : Reconnection → Event P

module _ {P : Type 0} {d : Doubles} where
  abbrev pub turn : Event P → ServerSession d → List (Call P d) × ServerSession d
  turn (Event.received now packet) s = handle s now packet
  turn (Event.broken outcome) s = reconnect outcome s

  -- The calls of some events.
  abbrev pub run : List (Event P) → ServerSession d → List (Call P d)
  run [] s = []
  run (event ∷ events) s = let (calls, next) = turn event s in calls ++ run events next

-- `max_accumulator`, without the times of `send`; the durations are no negative numbers. This is
-- what one turn of the loop of `add` meets: another thread may have stored a value since the last
-- look at `max`, and the weak exchange may fail for no reason.
pub record Interference : Type 0 where
  pub stored : Option ℕ
  pub is_spurious : Bool

abbrev pub after : Option ℕ → ℕ → ℕ
after none max = max
after (some m) max = m

-- The loop of `add` with the loaded value `prev`, in at most `fuel` turns, and the maximum at its
-- end. It goes on while the exchange succeeds, and stops when it fails.
unfoldable pub add_loop : (fuel : ℕ) → (ℕ → Interference) → (sample prev max : ℕ) → Option ℕ
add_loop zero env sample prev max = none
add_loop (suc fuel) env sample prev max =
    let seen = after (env 0).stored max in
    let again = add_loop fuel (λ i. env (suc i)) sample prev sample in
    if ltb prev sample
    then if seen == prev then if (env 0).is_spurious then some seen else again else some seen
    else some max

-- `add`, which loads the maximum first.
abbrev pub add : (fuel : ℕ) → (ℕ → Interference) → (sample max : ℕ) → Option ℕ
add fuel env sample max = add_loop fuel env sample max max

-- `send` when it is due: what it sends, and the maximum.
unfoldable pub send : ℕ → Option ℕ × ℕ
send max = (if max == 0 then none else some max, 0)
