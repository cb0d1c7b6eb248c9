-- ===== src/Poses/Runs.antt =====
-- The left grip of server/driver/pose_list.cpp after two packets, with numbers for vectors.
use wi_vrn.Common.{ℕ, ◌+◌, ◌-◌, ◌*◌, ◌/◌, ◌≤◌, ◌≡◌, refl, false, List, [], ◌∷◌, All, length}
use wi_vrn.ClockOffset.{Doubles}
use wi_vrn.History.Order.{IsAscending}
use wi_vrn.Poses.{Space, Pose, cast_flags}
use wi_vrn.Poses.Tracked.{Tracking, track, IsSampleOfOne, track-samples}

abbrev line : Space
line = record {
  Float = ℕ;
  Vector = ℕ;
  Quaternion = ℕ;
  seconds = λ t. t;
  add = λ a b. a + b;
  difference = λ a b. a - b;
  scale = λ a t. a * t;
  shrink = λ a t. a / t;
  rotate = λ q a t. q + a * t;
}

abbrev integers : Doubles
integers = record {
  Double = ℕ;
  zero_double = 0;
  one_double = 1;
  half = 1;
  plus = λ a b. a + b;
  minus = λ a b. a - b;
  times = λ a b. a * b;
  over = λ a b. a / b;
  of_int = λ a. a;
  of_size = λ a. a;
  to_int = λ a. a;
}

abbrev grip : ℕ → ℕ → Pose line
grip device x = record {
  device = device;
  position = x;
  orientation = 0;
  linear_velocity = 0;
  angular_velocity = 0;
  flags = 3;
}

abbrev at : ℕ → Tracking line integers
at t = record {
  production_timestamp = t;
  timestamp = t;
  device_poses = grip 5 1 ∷ grip 3 t ∷ [];
  offset = record { b = 7; a = 1 };
}

-- The second packet is late.
abbrev packets : List (Tracking line integers)
packets = at 1000 ∷ at 900 ∷ at 1100 ∷ []

track-samples_example :
    IsAscending (track 10 3 packets [])
    × (length (track 10 3 packets []) ≤ 10)
    × All (IsSampleOfOne 10 3 packets) (track 10 3 packets [])
track-samples_example = track-samples 10 3 packets

only_valid : (cast_flags 3).linear_velocity_valid ≡ false
unfolding cast_flags
only_valid = refl
