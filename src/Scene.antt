-- ===== src/Scene.antt =====
-- The decoded frames that the streaming scene of the headset keeps: `push_blit_handle`, `frames`,
-- `common_frame` and `frame` of client/scenes/stream.cpp, and `accumulator_images` of stream.h.
-- `std::ranges::set_intersection` is the usual merge of its two ranges; the standard states its
-- result for ranges that are sorted. A decoder is known by a number in place of its address.
mod Merge
mod Shared
mod Synchronised
mod Runs
use wi_vrn.Common.{
  ℕ, ◌+◌, ◌-◌, ◌^◌, Bool, true, false, ◌&&◌, not, Option, none, some, List, [], ◌∷◌, ◌++◌, ltb,
  ◌==◌, if◌then◌else◌,
}
use wi_vrn.Video.Accumulator.{Feedback}

pub record BlitHandle : Type 0 where
  pub feedback : Feedback
  pub display_time : ℕ

-- The frames from the oldest to the most recent, with no handle in an unused place.
abbrev pub LatestFrames : Type 0
LatestFrames = List (Option BlitHandle)

pub record AccumulatorImages : Type 0 where
  pub decoder : ℕ
  pub latest_frames : LatestFrames

pub data State : Type 0 where
  initializing streaming stalled : State

pub record Scene : Type 0 where
  pub decoders : List AccumulatorImages
  pub state : State

-- The handle that is given up, and the frames after the new one moved in at the end.
abbrev pub push_frame : BlitHandle → LatestFrames → Option BlitHandle × LatestFrames
push_frame handle [] = (none, [])
push_frame handle (oldest ∷ frames) = (oldest, frames ++ (some handle ∷ []))

abbrev pub received_at : ℕ → BlitHandle → BlitHandle
received_at now handle = record handle {
  feedback = record (handle.feedback) { received_from_decoder = now };
}

-- The loop over the decoders, up to the one that made the frame.
abbrev pub push_to :
    (now decoder : ℕ)
    → BlitHandle
    → List AccumulatorImages
    → Option BlitHandle × List AccumulatorImages
push_to now decoder handle [] = (none, [])
push_to now decoder handle (i ∷ decoders) =
    let rest = push_to now decoder handle decoders in
    let pushed = push_frame (received_at now handle) i.latest_frames in
    if i.decoder == decoder
    then (pushed.0, record i { latest_frames = pushed.1 } ∷ decoders)
    else (rest.0, i ∷ rest.1)

-- `latest_frames.back()`, as a truth value.
abbrev pub has_latest : LatestFrames → Bool
has_latest [] = false
has_latest (none ∷ []) = false
has_latest (some handle ∷ []) = true
has_latest (frame ∷ next ∷ frames) = has_latest (next ∷ frames)

abbrev pub all_have_latest : List AccumulatorImages → Bool
all_have_latest [] = true
all_have_latest (i ∷ decoders) = has_latest i.latest_frames && all_have_latest decoders

abbrev pub next_state : List AccumulatorImages → State → State
next_state decoders state = if all_have_latest decoders then State.streaming else state

-- The feedback of a frame that was never shown.
abbrev pub unblitted : Option BlitHandle → Option Feedback
unblitted none = none
unblitted (some handle) = if handle.feedback.blitted == 0 then some handle.feedback else none

-- What it sends is the feedback of the frame that it gives up.
unfoldable pub push_blit_handle :
    (is_visible : Bool) (now decoder : ℕ) → BlitHandle → Scene → Option Feedback × Scene
push_blit_handle is_visible now decoder handle s =
    let (removed, decoders) = push_to now decoder handle s.decoders in
    if is_visible
    then (unblitted removed, record { decoders = decoders; state = next_state decoders s.state })
    else (none, s)

unfoldable pub frames : LatestFrames → List ℕ
frames [] = []
frames (none ∷ latest) = frames latest
frames (some handle ∷ latest) = handle.feedback.frame_index ∷ frames latest

-- `proj`: no handle counts as -1, of 64 bits.
abbrev pub proj : Option BlitHandle → ℕ
proj none = 2 ^ 64 - 1
proj (some handle) = handle.feedback.frame_index

-- The merge of `set_intersection` at the element `a` of the first range, with `rest` for what
-- comes after `a`.
abbrev pub intersect_at :
    (LatestFrames → LatestFrames) → Option BlitHandle → LatestFrames → LatestFrames
intersect_at rest a [] = []
intersect_at rest a (b ∷ bs) =
    let later = intersect_at rest a bs in
    if ltb (proj a) (proj b)
    then rest (b ∷ bs)
    else if ltb (proj b) (proj a)
    then later
    else a ∷ rest bs

abbrev pub set_intersection : LatestFrames → LatestFrames → LatestFrames
set_intersection [] bs = []
set_intersection (a ∷ more) bs = intersect_at (set_intersection more) a bs

abbrev pub handles : LatestFrames → LatestFrames
handles [] = []
handles (none ∷ latest) = handles latest
handles (some handle ∷ latest) = some handle ∷ handles latest

-- The loop over the sets behind the first one.
abbrev pub intersect_all : LatestFrames → List LatestFrames → LatestFrames
intersect_all common [] = common
intersect_all common (latest ∷ sets) = intersect_all (set_intersection latest common) sets

abbrev pub common_frames : List LatestFrames → LatestFrames
common_frames [] = []
common_frames (first ∷ sets) = intersect_all (handles first) sets

abbrev pub distance : ℕ → ℕ → ℕ
distance a b = if ltb a b then b - a else a - b

-- How far the frame is from `display_time`; without a handle, the maximum of an `XrTime`.
abbrev pub time_from : ℕ → Option BlitHandle → ℕ
time_from display_time none = 2 ^ 63 - 1
time_from display_time (some handle) = distance handle.display_time display_time

-- `std::ranges::min_element`, the first of the least.
abbrev pub min_element :
    (Option BlitHandle → ℕ) → Option BlitHandle → LatestFrames → Option BlitHandle
min_element f least [] = least
min_element f least (a ∷ more) = min_element f (if ltb (f a) (f least) then a else least) more

abbrev pub nearest : ℕ → LatestFrames → Option BlitHandle
nearest display_time [] = none
nearest display_time (a ∷ more) = min_element (time_from display_time) a more

abbrev pub index_of : Option BlitHandle → Option ℕ
index_of none = none
index_of (some handle) = some handle.feedback.frame_index

unfoldable pub common_frame : List LatestFrames → ℕ → Option ℕ
common_frame sets display_time = index_of (nearest display_time (common_frames sets))

abbrev pub matches : Option ℕ → BlitHandle → Bool
matches none handle = true
matches (some id) handle = handle.feedback.frame_index == id

-- The last of the frames that matches.
unfoldable pub frame : LatestFrames → Option ℕ → Option BlitHandle
frame [] id = none
frame (none ∷ latest) id = frame latest id
frame (some handle ∷ latest) id = elim (frame latest id) [
  | some found ↦ some found
  | none ↦ if matches id handle then some handle else none
]
