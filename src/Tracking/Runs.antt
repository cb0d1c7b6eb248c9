-- ===== src/Tracking/Runs.antt =====
-- Concrete runs of the tracking thread.

use wi_vrn.Common.{ℕ, ◌+◌, ◌/◌, ◌≡◌, refl, List, [], ◌∷◌, none, true, false, map}
use wi_vrn.Tracking.{
  LocationFlags, Runtime, Turn, located, time_invalid, throws_after, tracking_turns, new_tracker,
}
use wi_vrn.Tracking.Rate.{timestamp_of, ArePaced, tracking_turns-ArePaced}

abbrev tracked : LocationFlags
tracked = record {
  orientation_valid = true;
  position_valid = true;
  orientation_tracked = true;
  position_tracked = false;
  linear_valid = true;
  angular_valid = false;
}

abbrev runtime : Runtime
runtime = record {
  has_hands = false;
  locate_device = λ device time. tracked;
  locate_joints = λ left time. none;
}

abbrev mean : ℕ → ℕ → ℕ
mean x y = (x + y) / 2

-- A turn with a predicted sample, a late one without, and one that ends the thread.
abbrev turns : List Turn
turns =
    record {
      now = 1000;
      prediction_offset = 20000000;
      runtime = runtime;
      outcomes = located 100 ∷ located 400000 ∷ [];
    }
    ∷ record {
      now = 9000000;
      prediction_offset = 0;
      runtime = runtime;
      outcomes = time_invalid 0 ∷ [];
    }
    ∷ record {
      now = 10000000;
      prediction_offset = 0;
      runtime = runtime;
      outcomes = throws_after 1 ∷ [];
    }
    ∷ []

tracking_turns-ArePaced_example :
    ArePaced 500 500 turns (tracking_turns mean turns (new_tracker 500))
tracking_turns-ArePaced_example = tracking_turns-ArePaced mean turns 500

sampled :
    map (map timestamp_of) (tracking_turns mean turns (new_tracker 500))
    ≡ (1000 ∷ 20001000 ∷ []) ∷ [] ∷ (10500000 ∷ []) ∷ []
unfolding tracking_turns new_tracker
sampled = refl
