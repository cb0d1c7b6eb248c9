-- ===== src/Pacer.antt =====
-- `wivrn_pacer` of server/driver/wivrn_pacer.cpp and .h. The arithmetic on doubles and the clock
-- offset are parameters; the headset's times are natural numbers below 2^63.
mod Waits
mod Pacing
mod Runs
use wi_vrn.Common.{
  ℕ, zero, suc, ◌+◌, ◌-◌, ◌*◌, ◌/◌, ◌%◌, ◌^◌, List, [], ◌∷◌, ◌++◌, none, some, Bool, true, false,
  not, ◌&&◌, ◌||◌, if◌then◌else◌, ltb, leb, ◌==◌, length, set, get_elem?, map, replicate, take,
}
use wi_vrn.Common.Int.{ℤ, sub_ℕ}
use wi_vrn.Video.Accumulator.{Feedback, new_feedback}

abbrev pub num_wait_times : ℕ
num_wait_times = 100

abbrev pub min_wait_times : ℕ
min_wait_times = 50

pub record StreamData : Type 0 where
  pub last_feedback : Feedback
  pub times : List ℤ
  pub next_times_index : ℕ

pub record FrameHistory : Type 0 where
  pub frame_id : ℕ
  pub present_ns : ℕ

pub record Pacer : Type 0 where
  pub next_frame_ns : ℕ
  pub frame_duration_ns : ℕ
  pub mean_wake_up_to_present_ns : ℕ
  pub mean_present_to_display_ns : ℕ
  pub last_wake_up_ns : ℕ
  pub streams : List StreamData
  pub in_flight_frames : List FrameHistory

abbrev pub no_frame : FrameHistory
no_frame = record { frame_id = 0; present_ns = 0 }

abbrev pub new_stream : StreamData
new_stream = record { last_feedback = new_feedback 0 0; times = []; next_times_index = 0 }

-- The constructor, which leaves the frames in flight unset; `frame_id` 0 stands for that.
unfoldable pub new_pacer : ℕ → Pacer
new_pacer frame_duration = record {
  next_frame_ns = 0;
  frame_duration_ns = frame_duration;
  mean_wake_up_to_present_ns = 1000000;
  mean_present_to_display_ns = frame_duration;
  last_wake_up_ns = 0;
  streams = [];
  in_flight_frames = replicate 4 no_frame;
}

unfoldable pub set_stream_count : ℕ → Pacer → Pacer
set_stream_count count p = record p {
  streams = take count (p.streams ++ replicate (count - length p.streams) new_stream);
}

pub record Prediction : Type 0 where
  pub wake_up_time_ns : ℕ
  pub desired_present_time_ns : ℕ
  pub present_slop_ns : ℕ
  pub predicted_display_time_ns : ℕ

unfoldable pub predict : ℕ → Pacer → Prediction × Pacer
predict now p =
    let next = (p.next_frame_ns + p.frame_duration_ns) % 2 ^ 64 in
    let wake_up = if ltb next now then now else next in
    let present = (wake_up + p.mean_wake_up_to_present_ns) % 2 ^ 64 in
    (
      record {
        wake_up_time_ns = wake_up;
        desired_present_time_ns = present;
        present_slop_ns = 0;
        predicted_display_time_ns = (present + p.mean_present_to_display_ns) % 2 ^ 64;
      },
      record p { next_frame_ns = wake_up },
    )

-- A sample of the wait time: appended to the first `num_wait_times`, then in place of the oldest.
unfoldable pub add_time : ℤ → StreamData → StreamData
add_time t s =
    if ltb (length s.times) num_wait_times
    then record s { times = s.times ++ (t ∷ []) }
    else record s {
      times = set s.times s.next_times_index t;
      next_times_index = (s.next_times_index + 1) % num_wait_times;
    }

-- `blitted`, which is estimated for a frame that was skipped.
unfoldable pub blitted_at : Feedback → Feedback → Pacer → ℕ
blitted_at last feedback p =
    if not (last.blitted == 0) && not (feedback.received_from_decoder == 0) && feedback.blitted == 0
    then (last.blitted
        + p.frame_duration_ns * ((feedback.frame_index + 2 ^ 64 - last.frame_index) % 2 ^ 64))
      % 2 ^ 64
    else feedback.blitted

unfoldable pub reset_stream : StreamData → StreamData
reset_stream s = record s { times = []; next_times_index = 0 }

unfoldable pub reset : Pacer → Pacer
unfolding reset_stream
reset p = record p { streams = map reset_stream p.streams; in_flight_frames = replicate 4 no_frame }

-- `mean_is_below k times`: the mean is less than `k` standard deviations; `lerp a b` is `std::lerp`
-- at 0.1, and `lerp_duration` the same towards the time between two displayed frames.
module _ (mean_is_below : ℕ → List ℤ → Bool) (lerp : ℕ → ℕ → ℕ) (lerp_duration : ℕ → ℕ → ℕ → ℕ)
    (from_headset : ℕ → ℕ) where
  unfoldable pub wait_more : List StreamData → Bool
  wait_more [] = false
  wait_more (s ∷ ss) =
      (leb min_wait_times (length s.times) && mean_is_below 3 s.times) || wait_more ss

  unfoldable pub wait_less : List StreamData → Bool
  wait_less [] = true
  wait_less (s ∷ ss) =
      not (leb min_wait_times (length s.times) && mean_is_below 4 s.times) && wait_less ss

  unfoldable pub adjust_next_frame : Pacer → Pacer
  unfolding wait_more wait_less
  adjust_next_frame p =
      let step = p.frame_duration_ns / 1000 in
      if wait_more p.streams
      then record p { next_frame_ns = (p.next_frame_ns + 2 ^ 64 - step) % 2 ^ 64 }
      else (if wait_less p.streams
          then record p { next_frame_ns = (p.next_frame_ns + step) % 2 ^ 64 }
          else p)

  unfoldable pub adjust_duration : Feedback → Feedback → Pacer → Pacer
  adjust_duration last feedback p =
      if feedback.stream_index == 0
        && not (last.displayed == 0)
        && not (feedback.displayed == 0)
        && feedback.frame_index == (last.frame_index + 1) % 2 ^ 64
      then record p {
        frame_duration_ns = lerp_duration p.frame_duration_ns last.displayed feedback.displayed;
      }
      else p

  -- The sample that `blitted` gives, and what follows from it for the first stream.
  unfoldable pub record_wait : Feedback → ℕ → StreamData → Pacer → Pacer
  unfolding add_time adjust_next_frame
  record_wait feedback blitted s p =
      let i = feedback.stream_index in
      let t = add_time (sub_ℕ blitted feedback.received_from_decoder) s in
      let q : Pacer = record p { streams = set p.streams i t } in
      if not (blitted == 0) && leb feedback.times_displayed 1
      then (if i == 0 then adjust_next_frame q else q)
      else record p { streams = set p.streams i s }

  unfoldable pub record_display : Feedback → Pacer → Pacer
  record_display feedback p =
      let slot = feedback.frame_index % 4 in
      elim (get_elem? p.in_flight_frames slot) [
        | none ↦ p
        | some when ↦
            if not (feedback.displayed == 0) && when.frame_id == feedback.frame_index
            then record p {
              mean_present_to_display_ns =
                  if ltb when.present_ns (from_headset feedback.displayed)
                  then lerp p.mean_present_to_display_ns
                      (from_headset feedback.displayed - when.present_ns)
                  else p.mean_present_to_display_ns;
              in_flight_frames = set p.in_flight_frames slot (record when { frame_id = 0 });
            }
            else p
      ]

  unfoldable pub on_feedback : Feedback → Pacer → Pacer
  unfolding adjust_duration record_wait record_display blitted_at
  on_feedback feedback p = elim (get_elem? p.streams feedback.stream_index) [
    | none ↦ p
    | some s ↦
        let q = adjust_duration s.last_feedback feedback p in
        let blitted = blitted_at s.last_feedback feedback q in
        record_display feedback
          (record_wait feedback blitted (record s { last_feedback = feedback }) q)
  ]

  -- `mark_timing_point` for the two points that it acts on; it does nothing at the others.
  unfoldable pub mark_wake_up : ℕ → Pacer → Pacer
  mark_wake_up now p = record p { last_wake_up_ns = now }

  unfoldable pub mark_submit_end : ℕ → ℕ → Pacer → Pacer
  mark_submit_end frame_id now p = record p {
    mean_wake_up_to_present_ns =
        lerp p.mean_wake_up_to_present_ns ((now + 2 ^ 64 - p.last_wake_up_ns) % 2 ^ 64);
    in_flight_frames =
        set p.in_flight_frames (frame_id % 4) (record { frame_id = frame_id; present_ns = now });
  }
