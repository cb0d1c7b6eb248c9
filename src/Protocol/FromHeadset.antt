-- ===== src/Protocol/FromHeadset.antt =====
-- `from_headset` of common/wivrn_packets.h.
use wi_vrn.Serial.Types.{
  Ty, Tys, uint, arithmetic, enumeration, structure, vector, optional, array, nil, cons,
}
use wi_vrn.Protocol.Base.{
  uint8, uint16, uint32, uint64, float32, xr_time, vector3, posef, fovf, device_id, audio_data,
  audio_description,
}

abbrev pub headset_info_packet : Ty
headset_info_packet = structure (
    cons uint32 (
      cons uint32 (
        cons (vector float32) (
          cons float32 (
            cons (optional audio_description) (
              cons (optional audio_description)
                (cons (array fovf 2) (cons (arithmetic uint 1) nil))))))))

abbrev pub handshake : Ty
handshake = structure nil

-- A tracked device: which, its pose, two velocities and the validity flags.
abbrev pub tracking_pose : Ty
tracking_pose =
    structure (cons device_id (cons posef (cons vector3 (cons vector3 (cons uint8 nil)))))

abbrev pub view : Ty
view = structure (cons posef (cons fovf nil))

abbrev pub tracking : Ty
tracking = structure (
    cons xr_time
      (cons xr_time (cons uint64 (cons (array view 2) (cons (vector tracking_pose) nil)))))

abbrev pub hand_pose : Ty
hand_pose = structure (cons posef (cons vector3 (cons vector3 (cons uint16 (cons uint8 nil)))))

abbrev pub hand_tracking : Ty
hand_tracking =
    structure (
      cons xr_time (cons xr_time (cons (enumeration 1) (cons (optional (array hand_pose 26)) nil))))

abbrev pub input_value : Ty
input_value = structure (cons device_id (cons float32 (cons xr_time nil)))

abbrev pub inputs : Ty
inputs = structure (cons (vector input_value) nil)

abbrev pub timesync_response : Ty
timesync_response = structure (cons xr_time (cons xr_time nil))

-- The frame and the stream, six timestamps, and how often the frame was displayed.
abbrev pub feedback : Ty
feedback = structure (
    cons uint64 (
      cons uint8 (
        cons xr_time (
          cons xr_time
            (cons xr_time (cons xr_time (cons xr_time (cons xr_time (cons uint8 nil)))))))))

abbrev pub packets : Tys
packets = cons headset_info_packet (
    cons feedback (
      cons audio_data (
        cons handshake
          (cons tracking (cons hand_tracking (cons inputs (cons timesync_response nil)))))))
