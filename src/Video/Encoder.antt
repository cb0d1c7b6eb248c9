-- ===== src/Video/Encoder.antt =====
-- `VideoEncoder` of server/encoder/video_encoder.cpp: the frame header with the throttle on IDR
-- frames, and the cutting of encoded data into shards. Times are arguments, on the headset's clock;
-- the encoder proper, the video dump and the timing log are not modelled.
pub mod Split
pub mod Throttle
use Prim.Native.Nat.{bit_or}
use wi_vrn.Common.{
  ℕ, zero, suc, ◌+◌, ◌-◌, ◌%◌, ◌^◌, List, [], ◌∷◌, ◌++◌, Option, none, some, Bool, true, false,
  ◌&&◌, ltb, leb, ◌==◌, if◌then◌else◌, length, take, drop,
}
use wi_vrn.Video.Shard.{
  Shard, ViewInfo, TimingInfo, start_of_slice, end_of_slice, end_of_frame, max_payload_size,
  view_info_size,
}

pub record Encoder : Type 0 where
  pub stream_idx : ℕ
  pub shard : Shard
  pub timing_info : TimingInfo
  pub sync_needed : Bool
  pub last_idr_frame : ℕ

abbrev pub idr_throttle : ℕ
idr_throttle = 100

-- The members that the constructor sets; `-idr_throttle` wraps.
abbrev pub initial_last_idr_frame : ℕ
initial_last_idr_frame = 2 ^ 64 - idr_throttle

unfoldable pub sync_requested : Encoder → Encoder
sync_requested e = record e { sync_needed = true }

-- `idr and frame_index < last_idr_frame + idr_throttle`
unfoldable pub is_throttled : Encoder → ℕ → Bool
is_throttled e frame_index =
    e.sync_needed && ltb frame_index ((e.last_idr_frame + idr_throttle) % 2 ^ 64)

-- `Encode`, up to the call of the encoder proper: the new state, and whether an IDR frame is made.
unfoldable pub encode : Encoder → ViewInfo → ℕ → ℕ → Encoder × Bool
unfolding is_throttled
encode e view_info frame_index encode_begin =
    let throttled = is_throttled e frame_index in
    let idr = if throttled then false else e.sync_needed in
    (
      record e {
        sync_needed = throttled;
        last_idr_frame = if idr then frame_index else e.last_idr_frame;
        timing_info = record (e.timing_info) { encode_begin = encode_begin };
        shard = record (e.shard) {
          stream_item_idx = e.stream_idx;
          frame_idx = frame_index;
          shard_idx = 0;
          view_info = some view_info;
          timing_info = none;
        };
      },
      idr,
    )

abbrev pub room : Shard → ℕ
room s = max_payload_size - elim (s.view_info) [ none ↦ 0 | some v ↦ view_info_size ]

-- The shard that goes out, with the next bytes, and the template of the one after it.
unfoldable pub fill : Bool → TimingInfo → Shard → List ℕ → Shard
fill ends timing s bytes =
    let is_last = leb (length bytes) (room s) in
    record s {
      flags =
          if is_last
          then bit_or (bit_or s.flags end_of_slice) (if ends then end_of_frame else 0)
          else s.flags;
      timing_info = if is_last && ends then some timing else s.timing_info;
      payload = take (room s) bytes;
    }

unfoldable pub following : Shard → Shard
following s = record s { shard_idx = (s.shard_idx + 1) % 2 ^ 16; flags = 0; view_info = none }

-- The loop of `SendData`: what is handed to `send_stream`, whose errors are ignored, and the
-- template that is left.
unfoldable pub send_loop : ℕ → Bool → TimingInfo → Shard → List ℕ → List Shard × Shard
unfolding fill following
send_loop fuel ends timing s [] = ([], s)
send_loop zero ends timing s (b ∷ bs) = ([], s)
send_loop (suc fuel) ends timing s (b ∷ bs) =
    let out = fill ends timing s (b ∷ bs) in
    let (outs, s') = send_loop fuel ends timing (following out) (drop (room s) (b ∷ bs)) in
    (out ∷ outs, s')

-- The timing of the frame after the clock readings of `SendData`.
unfoldable pub stamp : Encoder → Bool → ℕ → TimingInfo
stamp e ends now =
    let t = e.timing_info in
    record t {
      send_end = if ends then now else t.send_end;
      send_begin = if e.shard.shard_idx == 0 then now else t.send_begin;
    }

unfoldable pub send_data : List ℕ → Bool → ℕ → Encoder → List Shard × Encoder
unfolding stamp send_loop
send_data bytes ends now e =
    let timing = stamp e ends now in
    let template = record (e.shard) { flags = start_of_slice } in
    let (outs, s') = send_loop (length bytes) ends timing template bytes in
    (outs, record e { shard = s'; timing_info = timing })
