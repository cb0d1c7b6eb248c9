-- ===== src/Tracking/Flags.antt =====
-- The flags of a pose, from OpenXR on the headset in client/scenes/stream_tracking.cpp to the server's
-- relation in server/driver/pose_list.cpp.

use wi_vrn.Common.{ℕ, ◌≡◌, Bool, arith}
use wi_vrn.Poses.{cast_flags}
use wi_vrn.Tracking.{LocationFlags, pose_flags, set_if}

abbrev flags_of : Bool → Bool → Bool → Bool → Bool → Bool → ℕ
flags_of a b c d e f =
    set_if f 32 (set_if e 16 (set_if d 8 (set_if c 4 (set_if b 2 (set_if a 1 0)))))

abbrev Survive : Bool → Bool → Bool → Bool → Bool → Bool → Type 0
Survive a b c d e f = cast_flags (flags_of a b c d e f) ≡ record {
  orientation_valid = a;
  position_valid = b;
  linear_velocity_valid = c;
  angular_velocity_valid = d;
  orientation_tracked = e;
  position_tracked = f;
}

survives : (a b c d e f : Bool) → Survive a b c d e f
unfolding cast_flags
survives a b c d e f = ground arith

-- What OpenXR says of a pose is what the server's relation says of it: each of the six flags arrives,
-- and no other one.
pub cast_flags-pose_flags :
    (l : LocationFlags)
    → cast_flags (pose_flags l) ≡ record {
      orientation_valid = l.orientation_valid;
      position_valid = l.position_valid;
      linear_velocity_valid = l.linear_valid;
      angular_velocity_valid = l.angular_valid;
      orientation_tracked = l.orientation_tracked;
      position_tracked = l.position_tracked;
    }
unfolding pose_flags
cast_flags-pose_flags l =
    survives l.orientation_valid l.position_valid l.linear_valid l.angular_valid
      l.orientation_tracked l.position_tracked
