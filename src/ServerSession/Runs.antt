-- ===== src/ServerSession/Runs.antt =====
-- Runs of the session of server/driver/wivrn_session.cpp, with numbers in place of doubles.
use wi_vrn.Common.{
  ok, none, some, false, length, ℕ, zero, suc, ◌+◌, ◌-◌, ◌*◌, ◌/◌, ◌≡◌, ◌==◌, ◌&&◌, not, refl,
  arith, true, false, some, List, [], ◌∷◌, All, ltb, if◌then◌else◌,
}
use wi_vrn.ClockOffset.{Doubles, new_estimator, is_known, add_sample}
use wi_vrn.ServerSession.{
  reconnect, Packet, ServerSession, Reconnection, handle, Interference, after, add,
}
use wi_vrn.Connection.Polling.{Polled, poll}
use wi_vrn.ServerSession.Thread.{Round, thread_turn, run_thread}
use wi_vrn.ServerSession.Offsets.{IsDated, IsTimeless, run_thread-IsDated}
use wi_vrn.ServerSession.Maximum.{add-outcome, undisturbed}

abbrev integers : Doubles
integers = record {
  Double = ℕ;
  zero_double = 0;
  one_double = 1;
  half = 1;
  plus = λ a b. a + b;
  minus = λ a b. a - b;
  times = λ a b. a * b;
  over = λ a b. a / b;
  of_int = λ a. a;
  of_size = λ a. a;
  to_int = λ a. a;
}

abbrev session : ServerSession integers
session = record { offset_est = new_estimator; has_audio = true }

abbrev silence : Polled (Packet ℕ)
silence = record {
  ready = some 0;
  is_stream_broken = false;
  is_control_broken = false;
  stream_packet = none;
  control_packet = none;
}

abbrev round : Polled (Packet ℕ) → Round ℕ
round polled = record { polled = polled; now = 20; outcome = Reconnection.established }

abbrev tracked : Packet ℕ → Packet ℕ → Round ℕ
tracked a b = round (record (silence) {
  ready = some 2;
  stream_packet = some (ok (some a));
  control_packet = some (ok (some b));
})

-- Tracking before any answer, silence, and a broken connection.
abbrev early : List (Round ℕ)
early =
    tracked (Packet.tracking 7) (Packet.inputs 8)
    ∷ round silence
    ∷ round (record (silence) { ready = some 1; is_control_broken = true })
    ∷ tracked (Packet.audio_data 3) (Packet.inputs 8)
    ∷ []

-- An answer and then tracking.
abbrev late : List (Round ℕ)
late =
    tracked (Packet.tracking 9) (Packet.timesync_response 10 2000)
    ∷ tracked (Packet.tracking 9) Packet.handshake
    ∷ []

run_thread-IsDated_example :
    All IsTimeless (run_thread early (reconnect {P = ℕ} Reconnection.refused session).1)
    × All IsDated (run_thread late session)
run_thread-IsDated_example =
    run_thread-IsDated early late Reconnection.refused session (tt, (tt, (tt, (tt, (tt, tt)))))

-- The last tracking is passed on to the head and both controllers.
late_calls : length (run_thread late session) ≡ 3
unfolding run_thread thread_turn poll handle is_known add_sample
late_calls = refl

-- Another thread stores 40 before the exchange: the sample 70 is lost.
abbrev disturbed : ℕ → Interference
disturbed zero = record { stored = some 40; is_spurious = false }
disturbed (suc i) = undisturbed

add-outcome_example :
    add 2 disturbed 70 30
    ≡ some (
        if ltb 30 70
        then if (after (disturbed 0).stored 30 == 30) && not (disturbed 0).is_spurious
          then 70
          else after (disturbed 0).stored 30
        else 30)
add-outcome_example = add-outcome 2 disturbed 70 30 (omega arith) (λ i. refl)

lost_sample :
    (if ltb 30 70
      then if (after (disturbed 0).stored 30 == 30) && not (disturbed 0).is_spurious
        then 70
        else after (disturbed 0).stored 30
      else 30)
    ≡ 40
lost_sample = refl
