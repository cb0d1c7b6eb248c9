-- ===== src/Tracking.antt =====
-- The tracking thread of the headset, client/scenes/stream_tracking.cpp. OpenXR is seen by what it
-- locates and by the errors it gives, and `std::lerp` on times is a parameter. Times and durations
-- are nanoseconds.

pub mod Flags
pub mod Samples
pub mod Rate
mod Runs
use Prim.Native.Nat.{bit_or, max}
use wi_vrn.Common.{
  ℕ, zero, suc, ◌+◌, ◌-◌, ◌*◌, ◌≤◌, List, [], ◌∷◌, ◌++◌, Option, none, some, Bool, true, false, ltb,
  leb, ◌||◌, if◌then◌else◌, min, map, take,
}
use wi_vrn.Common.Int.{ℤ, pos, negsuc}

-- The flags of XrSpaceLocation or XrHandJointLocationEXT, and of the velocity.
pub record LocationFlags : Type 0 where
  pub orientation_valid : Bool
  pub position_valid : Bool
  pub orientation_tracked : Bool
  pub position_tracked : Bool
  pub linear_valid : Bool
  pub angular_valid : Bool

-- `if (condition) res.flags |= bit`.
abbrev pub set_if : Bool → ℕ → ℕ → ℕ
set_if condition bit flags = if condition then bit_or flags bit else flags

-- The flags of the pose that `locate_space` gives, and of each of those of `locate_hands`.
unfoldable pub pose_flags : LocationFlags → ℕ
pose_flags l = set_if l.position_tracked 32 (
    set_if l.orientation_tracked 16 (
      set_if l.angular_valid 8
        (set_if l.linear_valid 4 (set_if l.position_valid 2 (set_if l.orientation_valid 1 0)))))

-- A pose with the device's id, or the joint's number, and the flags.
abbrev pub LocatedPose : Type 0
LocatedPose = ℕ × ℕ

-- `timestamp` is the time the poses are for.
pub data TrackingPacket : Type 0 where
  tracking : (production_timestamp timestamp : ℕ) → List LocatedPose → TrackingPacket
  hand_tracking :
      (production_timestamp timestamp : ℕ) → Bool → Option (List LocatedPose) → TrackingPacket

-- What OpenXR locates: the flags of a device's space at a time, and those of the joints of the left
-- (`true`) or right hand.
pub record Runtime : Type 0 where
  pub has_hands : Bool
  pub locate_device : ℕ → ℕ → LocationFlags
  pub locate_joints : Bool → ℕ → Option (List LocationFlags)

-- `locate_space`.
unfoldable pub locate_space : Runtime → ℕ → ℕ → LocatedPose
locate_space r time device = (device, pose_flags (r.locate_device device time))

unfoldable pub number_joints : ℕ → List LocationFlags → List LocatedPose
number_joints i [] = []
number_joints i (l ∷ joints) = (i, pose_flags l) ∷ number_joints (suc i) joints

-- `locate_hands`.
unfoldable pub locate_hands : Runtime → Bool → ℕ → Option (List LocatedPose)
unfolding number_joints
locate_hands r left time = elim (r.locate_joints left time) [
  | none ↦ none
  | some joints ↦ some (number_joints 0 joints)
]

-- HEAD, LEFT_AIM, LEFT_GRIP, RIGHT_AIM and RIGHT_GRIP.
abbrev pub spaces : List ℕ
spaces = 0 ∷ 4 ∷ 3 ∷ 6 ∷ 5 ∷ []

-- What a sample sends, if nothing throws.
unfoldable pub sample_packets : Runtime → ℕ → ℕ → List TrackingPacket
unfolding locate_space locate_hands
sample_packets r t0 time =
    tracking t0 time (map (locate_space r time) spaces)
    ∷ (if r.has_hands
        then hand_tracking t0 time true (locate_hands r true time)
          ∷ hand_tracking t0 time false (locate_hands r false time)
          ∷ []
        else [])

-- How a sample ends: with the time that its calls took, or once some packets went out with an error:
-- XR_ERROR_TIME_INVALID, which locating the views or a hand may give and which is caught, or another
-- one, which leaves the loop.
pub data Outcome : Type 0 where
  located : (busy_time : ℕ) → Outcome
  time_invalid : (sent : ℕ) → Outcome
  throws_after : (sent : ℕ) → Outcome

-- A turn of the loop: the time at its beginning, `tracking_prediction_offset`, the runtime, and how
-- the samples end.
pub record Turn : Type 0 where
  pub now : ℕ
  pub prediction_offset : ℕ
  pub runtime : Runtime
  pub outcomes : List Outcome

pub record Tracker : Type 0 where
  pub t0 : ℕ
  pub tracking_period : ℕ
  pub exiting : Bool

-- `std::clamp`.
unfoldable pub clamp : ℕ → ℕ → ℕ → ℕ
clamp value low high = if ltb value low then low else if ltb high value then high else value

-- What is sent before the rest of the samples.
unfoldable pub send_before :
    List TrackingPacket → List TrackingPacket × ℕ × Bool → List TrackingPacket × ℕ × Bool
send_before packets (more, period, thrown) = (packets ++ more, period, thrown)

module _ (lerp : ℕ → ℕ → ℕ) where
  -- Between 1 and 5 ms.
  unfoldable pub next_period : ℕ → ℕ → ℕ
  unfolding clamp
  next_period tracking_period busy_time =
      clamp (lerp tracking_period (busy_time * 5)) 1000000 5000000

  -- The loop over Δt, which stands at the samples that are left: what is sent, the period after it,
  -- and whether an exception leaves it. It ends by its test before the fuel does.
  unfoldable pub sample_loop :
      ℕ → Runtime → ℕ → ℕ → ℕ → ℕ → List Outcome → List TrackingPacket × ℕ × Bool
  unfolding next_period sample_packets send_before
  sample_loop zero r t0 prediction dt period outcomes = ([], period, false)
  sample_loop (suc fuel) r t0 prediction dt period [] = ([], period, false)
  sample_loop (suc fuel) r t0 prediction dt period (o ∷ outcomes) =
      let rest = λ (period' : ℕ).
        sample_loop fuel r t0 prediction (dt + max 1 prediction) period' outcomes in
      let packets = sample_packets r t0 (t0 + dt) in
      let result : List TrackingPacket × ℕ × Bool = elim o [
        | located busy_time ↦ send_before packets (rest (next_period period busy_time))
        | time_invalid sent ↦ send_before (take sent packets) (rest period)
        | throws_after sent ↦ (take sent packets, period, true)
      ] in
      if leb dt prediction then result else ([], period, false)

  -- A turn of the loop in `tracking`. It sleeps until shortly before `t0`, if that is to come.
  unfoldable pub tracking_turn : Turn → Tracker → Tracker × List TrackingPacket
  unfolding sample_loop
  tracking_turn t s =
      let t0 = max s.t0 t.now in
      let prediction = min t.prediction_offset 80000000 in
      let (packets, period, thrown) =
        sample_loop 3 t.runtime t0 prediction 0 s.tracking_period t.outcomes in
      (
        record {
          t0 = if thrown then t0 else t0 + period;
          tracking_period = period;
          exiting = s.exiting || thrown;
        },
        packets,
      )

  -- The packets of each turn, until the thread exits.
  unfoldable pub tracking_turns : List Turn → Tracker → List (List TrackingPacket)
  unfolding tracking_turn
  tracking_turns [] s = []
  tracking_turns (t ∷ turns) s =
      let (s', packets) = tracking_turn t s in
      let more = tracking_turns turns s' in if s.exiting then [] else packets ∷ more

unfoldable pub new_tracker : ℕ → Tracker
new_tracker now = record { t0 = now; tracking_period = 1000000; exiting = false }

-- The handler of `prediction_offset`, which arrives signed, for the interpolation of doubles.
unfoldable pub set_prediction_offset : (ℕ → ℕ → ℕ) → ℤ → ℕ → ℕ
set_prediction_offset lerp (pos offset) before = lerp offset before
set_prediction_offset lerp (negsuc n) before = before
