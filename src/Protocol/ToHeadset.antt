-- ===== src/Protocol/ToHeadset.antt =====
-- `to_headset` of common/wivrn_packets.h.
use wi_vrn.Serial.Types.{
  Ty, Tys, int, arithmetic, enumeration, structure, vector, optional, array, span, nil, cons,
}
use wi_vrn.Protocol.Base.{
  uint8, uint16, uint64, float32, float64, xr_time, nanoseconds, posef, fovf, device_id, hold_last,
  audio_data, audio_description,
}

abbrev pub handshake : Ty
handshake = structure (cons (arithmetic int 4) nil)

abbrev pub audio_stream_description : Ty
audio_stream_description =
    structure (cons (optional audio_description) (cons (optional audio_description) nil))

-- Sizes and offsets of one video stream, its codec, and the optional range and colour model.
abbrev pub stream_item : Ty
stream_item = structure (
    cons uint16 (
      cons uint16 (
        cons uint16 (
          cons uint16 (
            cons uint16 (
              cons uint16 (
                cons (enumeration 4)
                  (cons (optional (enumeration 4)) (cons (optional (enumeration 4)) nil)))))))))

abbrev pub foveation_parameter_item : Ty
foveation_parameter_item = structure (cons float64 (cons float64 (cons float64 (cons float64 nil))))

abbrev pub foveation_parameter : Ty
foveation_parameter = structure (cons foveation_parameter_item (cons foveation_parameter_item nil))

abbrev pub video_stream_description : Ty
video_stream_description = structure (
    cons uint16 (
      cons uint16
        (cons float32 (cons (array foveation_parameter 2) (cons (vector stream_item) nil)))))

abbrev pub view_info : Ty
view_info = structure (cons xr_time (cons (array posef 2) (cons (array fovf 2) nil)))

abbrev pub timing_info : Ty
timing_info = structure (cons xr_time (cons xr_time (cons xr_time nil)))

abbrev pub shard_fields : Tys
shard_fields = cons uint8 (
    cons uint64 (
      cons uint16
        (cons uint8 (cons (optional view_info) (cons (optional timing_info) (cons span nil))))))

abbrev pub video_stream_data_shard : Ty
video_stream_data_shard = structure (hold_last shard_fields)

abbrev pub haptics : Ty
haptics = structure (cons device_id (cons nanoseconds (cons float32 (cons float32 nil))))

abbrev pub timesync_query : Ty
timesync_query = structure (cons xr_time nil)

abbrev pub prediction_offset : Ty
prediction_offset = structure (cons nanoseconds nil)

abbrev pub packets : Tys
packets = cons handshake (
    cons audio_stream_description (
      cons video_stream_description (
        cons audio_data (
          cons video_stream_data_shard
            (cons haptics (cons timesync_query (cons prediction_offset nil)))))))
