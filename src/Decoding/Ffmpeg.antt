-- ===== src/Decoding/Ffmpeg.antt =====
-- `ffmpeg::decoder` of client/decoder/ffmpeg/ffmpeg_decoder.cpp and .h: the bytes of a frame, and the
-- images that decoded frames are kept in. FFmpeg is seen by its answers; Vulkan is left out.

pub mod Answers
pub mod Images
use wi_vrn.Common.{
  ℕ, zero, suc, ◌+◌, ◌-◌, ◌==◌, List, [], ◌∷◌, ◌++◌, Option, none, some, Bool, true, false,
  if◌then◌else◌, length, concat, update,
}

unfoldable pub image_count : ℕ
image_count = 12

-- A handle that the scene or the renderer has, with the frame that it was made for.
pub record BlitHandle : Type 0 where
  pub image_index : ℕ
  pub frame_index : ℕ

-- The members of the decoder, with the frame in each of `decoded_images`, then the handles that are
-- alive, and the packets that FFmpeg was sent.
pub record Decoder : Type 0 where
  pub packet : List ℕ
  pub frame_index : ℕ
  pub free_images : List ℕ
  pub decoded_images : ℕ → ℕ
  pub handles : List BlitHandle
  pub sent_packets : List (List ℕ)

-- `from`, `from + 1` and so on, `n` of them.
unfoldable pub counting : ℕ → ℕ → List ℕ
counting zero from = []
counting (suc n) from = from ∷ counting n (suc from)

unfoldable pub new_decoder : Decoder
unfolding counting image_count
new_decoder = record {
  packet = [];
  frame_index = 0;
  free_images = counting image_count 0;
  decoded_images = λ i. 0;
  handles = [];
  sent_packets = [];
}

unfoldable pub push_data : List (List ℕ) → ℕ → Decoder → Decoder
push_data spans frame_index d = record d {
  packet = d.packet ++ concat spans;
  frame_index = frame_index;
}

-- The answers of `avcodec_send_packet` and `avcodec_receive_frame`, and whether `sws_scale` succeeds.
pub data Sent : Type 0 where
  sent try_again not_sent : Sent

pub data Received : Type 0 where
  received no_frame_yet not_received : Received

pub record Answer : Type 0 where
  pub sending : Sent
  pub receiving : Received
  pub scaled : Bool

-- The outcome of a call: it returns with the answers that are left, throws, or waits for an answer.
pub data Outcome : Type 0 where
  returned : Decoder → List Answer → Outcome
  thrown : Decoder → Outcome
  unanswered : Decoder → Outcome

-- `back` and `pop_back`.
unfoldable pub pop_back : List ℕ → Option (List ℕ × ℕ)
pop_back [] = none
pop_back (i ∷ images) = elim (pop_back images) [
  | none ↦ some ([], i)
  | some (front, last) ↦ some (i ∷ front, last)
]

-- The handle goes to the scene, or is destroyed if there is none.
unfoldable pub hand_over : Bool → ℕ → Decoder → Decoder
hand_over true index d = record d {
  handles = record { image_index = index; frame_index = d.frame_index } ∷ d.handles;
}
hand_over false index d = record d { free_images = d.free_images ++ (index ∷ []) }

-- What follows once an image was taken.
unfoldable pub fill_image : Bool → Bool → List Answer → ℕ → Decoder → Outcome
unfolding hand_over
fill_image has_scene scaled more index d =
    let written = record d { decoded_images = update d.decoded_images index d.frame_index } in
    if scaled then returned (hand_over has_scene index written) more else thrown written

unfoldable pub take_image : Bool → Bool → List Answer → Decoder → Outcome
unfolding fill_image
take_image has_scene scaled more d = elim (pop_back d.free_images) [
  | none ↦ returned d more
  | some (front, last) ↦ fill_image has_scene scaled more last (record d { free_images = front })
]

-- What follows once the packet was sent.
unfoldable pub receive_frame : Bool → Answer → List Answer → Decoder → Outcome
unfolding take_image
receive_frame has_scene a more d = elim (a.receiving) [
  | no_frame_yet ↦ returned d more
  | not_received ↦ thrown d
  | received ↦ take_image has_scene a.scaled more (record d { packet = [] })
]

-- The loop that sends the bytes, which are those of the packet when the call began. Where FFmpeg is
-- to be asked again, `frame_completed` calls itself before that. Every turn takes an answer.
unfoldable pub send_loop : ℕ → Bool → List ℕ → List Answer → Decoder → Outcome
send_loop zero has_scene bytes answers d = unanswered d
send_loop (suc fuel) has_scene bytes answers d = elim answers [
  | [] ↦ unanswered d
  | a ∷ more ↦
      let d' = record d { sent_packets = d.sent_packets ++ (bytes ∷ []) } in
      elim (a.sending) [
        | not_sent ↦ thrown d'
        | sent ↦ receive_frame has_scene a more d'
        | try_again ↦ elim (send_loop fuel has_scene d'.packet more d') [
          | returned d'' left ↦ send_loop fuel has_scene bytes left d''
          | thrown d'' ↦ thrown d''
          | unanswered d'' ↦ unanswered d''
        ]
      ]
]

unfoldable pub frame_completed : Bool → List Answer → Decoder → Outcome
unfolding send_loop receive_frame
frame_completed has_scene answers d = send_loop (suc (length answers)) has_scene d.packet answers d

abbrev pub state_of : Outcome → Decoder
state_of (returned d left) = d
state_of (thrown d) = d
state_of (unanswered d) = d

-- The end of a handle, by its place among those that are alive.
unfoldable pub remove_at : ℕ → List BlitHandle → Option (BlitHandle × List BlitHandle)
remove_at i [] = none
remove_at zero (h ∷ handles) = some (h, handles)
remove_at (suc i) (h ∷ handles) = elim (remove_at i handles) [
  | none ↦ none
  | some (h', handles') ↦ some (h', h ∷ handles')
]

unfoldable pub destroy_handle : ℕ → Decoder → Decoder
destroy_handle i d = elim (remove_at i d.handles) [
  | none ↦ d
  | some (h, handles) ↦ record d {
    handles = handles;
    free_images = d.free_images ++ (h.image_index ∷ []);
  }
]

-- What happens to a decoder. A call that throws leaves what it did.
pub data Event : Type 0 where
  pushed : List (List ℕ) → ℕ → Event
  completed : Bool → List Answer → Event
  destroyed : ℕ → Event

unfoldable pub handle_event : Event → Decoder → Decoder
unfolding push_data frame_completed destroy_handle
handle_event (pushed spans frame_index) d = push_data spans frame_index d
handle_event (completed has_scene answers) d = state_of (frame_completed has_scene answers d)
handle_event (destroyed i) d = destroy_handle i d

unfoldable pub handle_events : List Event → Decoder → Decoder
unfolding handle_event
handle_events [] d = d
handle_events (e ∷ events) d = handle_events events (handle_event e d)
