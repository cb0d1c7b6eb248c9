-- ===== src/Video/Shard.antt =====
-- `video_stream_data_shard` and `feedback` of common/wivrn_packets.h, as records.
use Prim.Native.Nat.{bit_and}
use wi_vrn.Common.{
  ℕ, List, Option, none, some, Bool, true, false, not, ◌&&◌, ◌==◌, ◌≡◌, ◌+◌, [], ◌∷◌,
}
use wi_vrn.Serial.Types.{Value, Fields}
use wi_vrn.Protocol.ToHeadset.{view_info, shard_fields}

abbrev pub ViewInfo : Type 0
ViewInfo = Value view_info

pub record TimingInfo : Type 0 where
  pub encode_begin : ℕ
  pub send_begin : ℕ
  pub send_end : ℕ

-- `timing_info_t{}`
abbrev pub no_timing : TimingInfo
no_timing = record { encode_begin = 0; send_begin = 0; send_end = 0 }

pub record Shard : Type 0 where
  pub stream_item_idx : ℕ
  pub frame_idx : ℕ
  pub shard_idx : ℕ
  pub flags : ℕ
  pub view_info : Option ViewInfo
  pub timing_info : Option TimingInfo
  pub payload : List ℕ

abbrev pub start_of_slice : ℕ
start_of_slice = 1

abbrev pub end_of_slice : ℕ
end_of_slice = 2

abbrev pub end_of_frame : ℕ
end_of_frame = 4

-- `flags & video_stream_data_shard::end_of_frame`
abbrev pub ends_frame : Shard → Bool
ends_frame s = not (bit_and s.flags end_of_frame == 0)

abbrev pub max_payload_size : ℕ
max_payload_size = 1400

-- `sizeof(view_info_t)`: a time, two poses and two fields of view, with no padding.
abbrev pub view_info_size : ℕ
view_info_size = 96

abbrev pub is_nil : List Shard → Bool
is_nil [] = true
is_nil (s ∷ ss) = false

-- The packet that a shard is sent as, without the holder.
abbrev pub shard_value : Shard → Fields shard_fields
shard_value s = (
  s.stream_item_idx,
  (
    s.frame_idx,
    (
      s.shard_idx,
      (
        s.flags,
        (
          s.view_info,
          (
            elim (s.timing_info) [
              | none ↦ none
              | some t ↦ some (t.encode_begin, (t.send_begin, (t.send_end, tt)))
            ],
            (s.payload, tt),
          ),
        ),
      ),
    ),
  ),
)

-- `ss` are the shards of frame `frame`, numbered on from `start`; the last one ends the frame
-- if `final`, and no other does.
abbrev pub IsTrain : ℕ → Bool → ℕ → List Shard → Type 0
IsTrain frame final start [] = Unit
IsTrain frame final start (s ∷ ss) =
    (s.frame_idx ≡ frame)
    × (s.shard_idx ≡ start)
    × (ends_frame s ≡ (final && is_nil ss))
    × IsTrain frame final (start + 1) ss
