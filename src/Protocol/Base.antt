-- ===== src/Protocol/Base.antt =====
-- The types that the packets of common/wivrn_packets.h are made of. The OpenXR structures are those
-- of openxr.h; a Vulkan enum and an unscoped enum have four bytes.
use wi_vrn.Common.{ℕ}
use wi_vrn.Serial.Types.{
  Ty, Tys, float, uint, int, arithmetic, enumeration, structure, duration, span, data_holder, nil,
  cons,
}

abbrev pub default_port : ℕ
default_port = 9757

abbrev pub uint8 : Ty
uint8 = arithmetic uint 1

abbrev pub uint16 : Ty
uint16 = arithmetic uint 2

abbrev pub uint32 : Ty
uint32 = arithmetic uint 4

abbrev pub uint64 : Ty
uint64 = arithmetic uint 8

abbrev pub float32 : Ty
float32 = arithmetic float 4

abbrev pub float64 : Ty
float64 = arithmetic float 8

-- `XrTime`
abbrev pub xr_time : Ty
xr_time = arithmetic int 8

abbrev pub nanoseconds : Ty
nanoseconds = duration 8 1 1000000000

abbrev pub vector3 : Ty
vector3 = structure (cons float32 (cons float32 (cons float32 nil)))

abbrev pub quaternion : Ty
quaternion = structure (cons float32 (cons float32 (cons float32 (cons float32 nil))))

-- `XrPosef`
abbrev pub posef : Ty
posef = structure (cons quaternion (cons vector3 nil))

-- `XrFovf`
abbrev pub fovf : Ty
fovf = structure (cons float32 (cons float32 (cons float32 (cons float32 nil))))

-- `device_id : uint8_t`
abbrev pub device_id : Ty
device_id = enumeration 1

-- The fields `ts` followed by a `data_holder`.
abbrev pub hold_last : Tys → Tys
hold_last nil = cons data_holder nil
hold_last (cons t ts) = cons t (hold_last ts)

abbrev pub audio_data_fields : Tys
audio_data_fields = cons xr_time (cons span nil)

abbrev pub audio_data : Ty
audio_data = structure (hold_last audio_data_fields)

-- The number of channels and the sample rate of an audio device.
abbrev pub audio_description : Ty
audio_description = structure (cons uint8 (cons uint32 nil))
