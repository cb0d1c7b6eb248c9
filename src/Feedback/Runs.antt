-- ===== src/Feedback/Runs.antt =====
-- Concrete feedback.
use wi_vrn.Common.{◌≡◌, ◌↔◌, refl, List, [], ◌∷◌, none, true, false, length}
use wi_vrn.Video.Shard.{no_timing}
use wi_vrn.Video.Encoder.{Encoder, initial_last_idr_frame}
use wi_vrn.Video.Accumulator.{new_feedback}
use wi_vrn.Feedback.{on_feedback, out_of_bounds, sync_encoder, on_feedback-out_of_bounds}

abbrev encoder : Encoder
encoder = record {
  stream_idx = 0;
  shard = record {
    stream_item_idx = 0;
    frame_idx = 0;
    shard_idx = 0;
    flags = 0;
    view_info = none;
    timing_info = none;
    payload = [];
  };
  timing_info = no_timing;
  sync_needed = false;
  last_idr_frame = initial_last_idr_frame;
}

abbrev two_encoders : List Encoder
two_encoders = encoder ∷ encoder ∷ []

on_feedback_run : on_feedback true (new_feedback 9 2) two_encoders ≡ out_of_bounds
unfolding on_feedback sync_encoder
on_feedback_run = refl

on_feedback-out_of_bounds_example :
    (on_feedback true (new_feedback 9 2) two_encoders ≡ out_of_bounds)
    ↔ ((new_feedback 9 2).stream_index ≡ length two_encoders)
on_feedback-out_of_bounds_example = on_feedback-out_of_bounds (new_feedback 9 2) two_encoders refl
