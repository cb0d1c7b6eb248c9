-- ===== src/Poses.antt =====
-- The poses of the tracked devices and hands on the server: `pose_list` of
-- server/driver/pose_list.cpp and `hand_joints_list` of server/driver/hand_joints_list.cpp. The
-- arithmetic on floats and vectors is a parameter, and so are Monado's interpolation of two poses
-- and its pose of a joint relative to the wrist. The flags of a relation are its six truth values.
mod Tracked
mod Runs
use wi_vrn.Common.{
  ℕ, ◌+◌, ◌-◌, ◌/◌, ◌%◌, ◌^◌, Bool, true, false, ◌&&◌, Option, none, some, List, [], ◌∷◌, ltb, leb,
  ◌==◌, if◌then◌else◌, map,
}
use wi_vrn.ClockOffset.{Doubles, ClockOffset, from_headset}
use wi_vrn.History.{TimedData, add_sample}

-- `seconds` of an unsigned number of nanoseconds; `rotate` turns an orientation by an angular
-- velocity for a time.
pub record Space : Type 1 where
  pub Float : Type 0
  pub Vector : Type 0
  pub Quaternion : Type 0
  pub seconds : ℕ → Float
  pub add : Vector → Vector → Vector
  pub difference : Vector → Vector → Vector
  pub scale : Vector → Float → Vector
  pub shrink : Vector → Float → Vector
  pub rotate : Quaternion → Vector → Float → Quaternion

pub record Flags : Type 0 where
  pub orientation_valid : Bool
  pub position_valid : Bool
  pub linear_velocity_valid : Bool
  pub angular_velocity_valid : Bool
  pub orientation_tracked : Bool
  pub position_tracked : Bool

-- The bit `i` of the headset's flags.
abbrev pub has_bit : ℕ → ℕ → Bool
has_bit flags i = flags / 2 ^ i % 2 == 1

-- `cast_flags`, and the flags of `convert_pose`.
unfoldable pub cast_flags : ℕ → Flags
cast_flags in_flags = record {
  orientation_valid = has_bit in_flags 0;
  position_valid = has_bit in_flags 1;
  linear_velocity_valid = has_bit in_flags 2;
  angular_velocity_valid = has_bit in_flags 3;
  orientation_tracked = has_bit in_flags 4;
  position_tracked = has_bit in_flags 5;
}

-- `a & b` of two flags.
abbrev pub both_flags : Flags → Flags → Flags
both_flags a b = record {
  orientation_valid = a.orientation_valid && b.orientation_valid;
  position_valid = a.position_valid && b.position_valid;
  linear_velocity_valid = a.linear_velocity_valid && b.linear_velocity_valid;
  angular_velocity_valid = a.angular_velocity_valid && b.angular_velocity_valid;
  orientation_tracked = a.orientation_tracked && b.orientation_tracked;
  position_tracked = a.position_tracked && b.position_tracked;
}

module _ (v : Space) where
  -- `xrt_space_relation`.
  pub record Relation : Type 0 where
    pub relation_flags : Flags
    pub position : v.Vector
    pub orientation : v.Quaternion
    pub linear_velocity : v.Vector
    pub angular_velocity : v.Vector

  -- A pose of a `tracking` or `hand_tracking` packet.
  pub record Pose : Type 0 where
    pub device : ℕ
    pub position : v.Vector
    pub orientation : v.Quaternion
    pub linear_velocity : v.Vector
    pub angular_velocity : v.Vector
    pub flags : ℕ

  pub record Joint : Type 0 where
    pub relation : Relation
    pub radius : v.Float

  pub record JointSet : Type 0 where
    pub is_active : Bool
    pub hand_pose : Relation
    pub joints : List Joint

-- A difference of two `uint64_t` times.
abbrev pub since : ℕ → ℕ → ℕ
since t t' = (t + 2 ^ 64 - t') % 2 ^ 64

module _ {v : Space} where
  -- `convert_pose`, and `to_relation`.
  unfoldable pub convert_pose : Pose v → Relation v
  convert_pose pose = record {
    relation_flags = cast_flags pose.flags;
    position = pose.position;
    orientation = pose.orientation;
    linear_velocity = pose.linear_velocity;
    angular_velocity = pose.angular_velocity;
  }

  -- `pose_list::interpolate`, with Monado's `m_space_relation_interpolate`.
  abbrev pub interpolate :
      (Relation v → Relation v → v.Float → Flags → Relation v)
      → Relation v
      → Relation v
      → v.Float
      → Relation v
  interpolate m_interpolate a b t =
      m_interpolate a b t (both_flags a.relation_flags b.relation_flags)

  -- The linear velocity of `res`, or the mean one from `a` to `b`.
  abbrev pub velocity : Relation v → Relation v → (ta tb : ℕ) → Relation v → v.Vector
  velocity a b ta tb res =
      if res.relation_flags.linear_velocity_valid
      then res.linear_velocity
      else v.shrink (v.difference b.position a.position) (v.seconds (since tb ta))

  -- `res` moved on at a velocity for a time.
  abbrev pub advance : Relation v → v.Vector → v.Float → Relation v
  advance res lin_vel dt = record res {
    position = v.add res.position (v.scale lin_vel dt);
    orientation =
        if res.relation_flags.angular_velocity_valid
        then v.rotate res.orientation res.angular_velocity dt
        else res.orientation;
  }

  -- `pose_list::extrapolate`.
  unfoldable pub extrapolate : Relation v → Relation v → (ta tb t : ℕ) → Relation v
  extrapolate a b ta tb t =
      let res = if ltb t ta then a else b in
      advance res (velocity a b ta tb res) (v.seconds (since t tb))

  -- The first pose of the device.
  abbrev pub pose_of : ℕ → List (Pose v) → Option (Pose v)
  pose_of device [] = none
  pose_of device (pose ∷ poses) = if pose.device == device then some pose else pose_of device poses

  -- The joints of a set, one by one; both sets have them all.
  abbrev pub interpolate_joints :
      (Joint v → Joint v → v.Float → Joint v)
      → List (Joint v)
      → List (Joint v)
      → v.Float
      → List (Joint v)
  interpolate_joints joint [] bs t = []
  interpolate_joints joint (a ∷ more) [] t = a ∷ more
  interpolate_joints joint (a ∷ more) (b ∷ bs) t = joint a b t ∷ interpolate_joints joint more bs t

  -- `hand_joints_list::interpolate`; the rest of the set is that of `a`.
  abbrev pub interpolate_hand :
      (Joint v → Joint v → v.Float → Joint v) → JointSet v → JointSet v → v.Float → JointSet v
  interpolate_hand joint a b t = record a { joints = interpolate_joints joint a.joints b.joints t }

  -- `hand_joints_list::extrapolate`.
  unfoldable pub extrapolate_hand : JointSet v → JointSet v → (ta tb t : ℕ) → JointSet v
  extrapolate_hand a b ta tb t =
      let j = if leb t ta then a else b in
      record j { hand_pose = extrapolate a.hand_pose b.hand_pose ta tb t }

module _ {v : Space} {d : Doubles} where
  abbrev pub add_pose :
      ClockOffset d
      → (max_samples production_timestamp timestamp : ℕ) → Option (Pose v)
      → List (TimedData (Relation v))
      → List (TimedData (Relation v))
  add_pose o max_samples production_timestamp timestamp none l = l
  add_pose o max_samples production_timestamp timestamp (some pose) l =
      add_sample (from_headset o) max_samples production_timestamp timestamp (convert_pose pose) l

  -- `pose_list::update_tracking`.
  unfoldable pub update_tracking :
      ClockOffset d
      → (max_samples device production_timestamp timestamp : ℕ) → List (Pose v)
      → List (TimedData (Relation v))
      → List (TimedData (Relation v))
  update_tracking o max_samples device production_timestamp timestamp device_poses l =
      add_pose o max_samples production_timestamp timestamp (pose_of device device_poses) l
