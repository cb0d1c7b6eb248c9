-- ===== src/Pacer/Runs.antt =====
-- Concrete runs of the pacer, with a mean in place of the interpolation on doubles.
use wi_vrn.Common.{ℕ, ◌+◌, ◌/◌, ◌≡◌, refl, List, [], ◌∷◌, Bool, false, arith, replicate, map}
use wi_vrn.Common.Int.{ℤ, pos}
use wi_vrn.Video.Accumulator.{Feedback, new_feedback}
use wi_vrn.Pacer.{
  Pacer, new_stream, no_frame, predict, on_feedback, adjust_duration, record_wait, record_display,
  blitted_at, add_time, adjust_next_frame, wait_more, wait_less,
}
use wi_vrn.Pacer.Pacing.{ArePaced, predictions, predictions-ArePaced}

abbrev pacer : Pacer
pacer = record {
  next_frame_ns = 1000;
  frame_duration_ns = 100;
  mean_wake_up_to_present_ns = 10;
  mean_present_to_display_ns = 30;
  last_wake_up_ns = 0;
  streams = new_stream ∷ [];
  in_flight_frames = replicate 4 no_frame;
}

-- The second call comes late.
predictions_run :
    map (λ x. x.wake_up_time_ns) (predictions (1050 ∷ 1400 ∷ 1410 ∷ []) pacer)
    ≡ 1100 ∷ 1400 ∷ 1500 ∷ []
unfolding predictions predict
predictions_run = refl

predictions-ArePaced_example :
    ArePaced 100 10 30 1000 (1050 ∷ 1400 ∷ 1410 ∷ []) (predictions (1050 ∷ 1400 ∷ 1410 ∷ []) pacer)
predictions-ArePaced_example =
    predictions-ArePaced (1050 ∷ 1400 ∷ 1410 ∷ []) pacer 2000 (omega arith)
      (omega arith, (omega arith, (omega arith, tt))) (omega arith)

abbrev never : ℕ → List ℤ → Bool
never k times = false

abbrev halfway : ℕ → ℕ → ℕ
halfway a b = (a + b) / 2

abbrev keep : ℕ → ℕ → ℕ → ℕ
keep duration before after = duration

abbrev displayed : Feedback
displayed = record (new_feedback 5 0) {
  sent_to_decoder = 40;
  received_from_decoder = 50;
  blitted = 60;
  displayed = 90;
  times_displayed = 1;
}

on_feedback_run :
    map (λ s. s.times) (on_feedback never halfway keep (λ t. t) displayed pacer).streams
    ≡ (pos 10 ∷ []) ∷ []
unfolding on_feedback adjust_duration record_wait record_display blitted_at add_time
    adjust_next_frame wait_more wait_less
on_feedback_run = refl
