-- ===== src/Decoding/Android.antt =====
-- `wivrn::android::decoder` of client/decoder/android/android_decoder.cpp and .h. MediaCodec is seen
-- by its calls; the image of a picture, the sampler and the logging are left out. The feedback and the
-- information about a frame are those of the accumulator.

pub mod Buffers
pub mod Pictures
use wi_vrn.Common.{
  ℕ, zero, suc, ◌+◌, ◌*◌, ◌/◌, ◌%◌, ◌^◌, List, [], ◌∷◌, ◌++◌, Option, none, some, Bool, true, false,
  ltb, leb, ◌==◌, if◌then◌else◌, length, concat, Result, ok, err, runtime_error,
}
use wi_vrn.Queue.{SyncQueue, Wait, blocked, done, push, pop, pop_if, drop_until}
use wi_vrn.Video.Accumulator.{Feedback}
use wi_vrn.Video.Shard.{TimingInfo, ViewInfo}
use wi_vrn.Decoding.Nal.{Reading, inside, outside, endless, filter_csd}

pub record FrameInfo : Type 0 where
  pub feedback : Feedback
  pub timing_info : TimingInfo
  pub view_info : ViewInfo

-- `media_codec` is whether there is one. A buffer of the codec goes by its index.
pub record Decoder : Type 0 where
  pub media_codec : Bool
  pub input_buffers : SyncQueue ℕ
  pub frame_infos : SyncQueue FrameInfo

-- The calls that a decoder makes: it writes bytes into an input buffer at an offset, hands an input
-- buffer of a size to the codec, sends feedback, and gives a picture to the scene.
pub data Call : Type 0 where
  memcpy : ℕ → ℕ → List ℕ → Call
  queue_input_buffer : ℕ → ℕ → ℕ → Bool → Call
  send_feedback : Feedback → Call
  push_blit_handle : FrameInfo → Call

-- The loop over `data`, from `data_size` on; `none` where the frame is skipped.
unfoldable pub copy_spans : ℕ → ℕ → ℕ → List (List ℕ) → List Call × Option ℕ
copy_spans size input_buffer data_size [] = ([], some data_size)
copy_spans size input_buffer data_size (sub_data ∷ more) =
    let rest = copy_spans size input_buffer (data_size + length sub_data) more in
    if ltb size (length sub_data)
    then ([], none)
    else (memcpy input_buffer data_size sub_data ∷ rest.0, rest.1)

-- What `queueInputBuffer` is called with, if it is, and what it leads to. `accepts` is its status.
unfoldable pub finish_input :
    Bool → ℕ → ℕ → Bool → List Call × Option ℕ → List Call × Result (Unit {0})
finish_input accepts input_buffer timestamp partial (calls, none) = (calls, ok tt)
finish_input accepts input_buffer timestamp partial (calls, some data_size) = (
  calls ++ (queue_input_buffer input_buffer data_size timestamp partial ∷ []),
  if accepts then ok tt else err runtime_error,
)

-- `sizes` are those of the codec's input buffers. A queue that is closed makes `pop` throw.
unfoldable pub push_nals :
    (ℕ → ℕ)
    → Bool
    → List (List ℕ)
    → ℕ
    → Bool
    → Decoder
    → Wait (Decoder × List Call × Result (Unit {0}))
unfolding finish_input
push_nals sizes accepts spans timestamp partial d = elim (pop d.input_buffers) [
  | blocked ↦ blocked
  | done (err e) ↦ done (d, [], err e)
  | done (ok (input_buffer, rest)) ↦
      let finished =
        finish_input accepts input_buffer timestamp partial
          (copy_spans (sizes input_buffer) input_buffer 0 spans) in
      done (record d { input_buffers = rest }, finished.0, finished.1)
]

unfoldable pub fake_timestamp_us : ℕ → ℕ
fake_timestamp_us frame_index = frame_index * 10000 % 2 ^ 64

-- What `push_data` does before `push_nals`: nothing if there is a codec, else it needs parameter
-- sets in the data to create one. `starts` is whether every call that sets the codec up succeeds.
pub data Preparation : Type 0 where
  prepared : Decoder → Preparation
  dropped : Preparation
  failed : Decoder → Preparation
  faulty : Preparation

unfoldable pub prepare : Bool → List (List ℕ) → Decoder → Preparation
prepare starts spans d = if d.media_codec then prepared d else elim (filter_csd (concat spans)) [
  | inside (csd, not_csd) ↦ elim csd [
    | [] ↦ dropped
    | b ∷ bytes ↦
        if starts
        then prepared (record d { media_codec = true })
        else failed (record d { media_codec = true })
  ]
  | outside ↦ faulty
  | endless ↦ faulty
]

-- `none` is a read outside the data.
unfoldable pub push_data :
    (ℕ → ℕ)
    → Bool
    → Bool
    → List (List ℕ)
    → ℕ
    → Bool
    → Decoder
    → Option (Wait (Decoder × List Call × Result (Unit {0})))
unfolding prepare
push_data sizes accepts starts spans frame_index partial d = elim (prepare starts spans d) [
  | prepared d' ↦ some (push_nals sizes accepts spans (fake_timestamp_us frame_index) partial d')
  | dropped ↦ some (done (d, [], ok tt))
  | failed d' ↦ some (done (d', [], err runtime_error))
  | faulty ↦ none
]

-- Without a codec, the feedback is sent, and the frame is kept all the same. `has_scene` is whether
-- the scene is still there.
unfoldable pub frame_completed : Bool → ℕ → FrameInfo → Decoder → Decoder × List Call
frame_completed has_scene now info d = (
  record d {
    frame_infos =
        push (record info { feedback = record info.feedback { sent_to_decoder = now } })
          d.frame_infos;
  },
  if d.media_codec then [] else if has_scene then send_feedback info.feedback ∷ [] else [],
)

-- The frame of a picture, by its timestamp.
unfoldable pub frame_of_ns : ℕ → ℕ
frame_of_ns fake_timestamp_ns = (fake_timestamp_ns + 5000000) / 10000000

-- What comes of the outcome of `pop_if`, for the frames that are left by `drop_until`. Every
-- exception is caught.
unfoldable pub show_picture :
    Bool
    → Decoder
    → SyncQueue FrameInfo
    → Wait (Result (Option FrameInfo × SyncQueue FrameInfo))
    → Wait (Decoder × List Call)
show_picture has_scene d infos blocked = blocked
show_picture has_scene d infos (done (err e)) = done (record d { frame_infos = infos }, [])
show_picture has_scene d infos (done (ok (none, infos'))) =
    done (record d { frame_infos = infos' }, [])
show_picture has_scene d infos (done (ok (some info, infos'))) =
    done (record d { frame_infos = infos' }, if has_scene then push_blit_handle info ∷ [] else [])

-- What `on_image_available` does with the picture of a timestamp: the calls that it makes, or a wait.
unfoldable pub on_image_available : Bool → ℕ → Decoder → Wait (Decoder × List Call)
unfolding show_picture
on_image_available has_scene fake_timestamp_ns d =
    let frame_index = frame_of_ns fake_timestamp_ns in
    let infos =
      drop_until (λ (x : FrameInfo). leb frame_index x.feedback.frame_index) d.frame_infos in
    show_picture has_scene d infos
      (pop_if (λ (x : FrameInfo). x.feedback.frame_index == frame_index) infos)

unfoldable pub on_media_input_available : ℕ → Decoder → Decoder
on_media_input_available index d = record d { input_buffers = push index d.input_buffers }
