-- ===== src/EncoderSettings.antt =====
-- `get_encoder_settings` of server/encoder/encoder_settings.cpp, in a build with nvenc and vaapi.
-- The arithmetic on doubles, the sizes that nvenc accepts and the vendor of the GPU are parameters;
-- a text is the list of its characters, and a group is no negative number.
mod Regions
mod Runs
use wi_vrn.Common.{
  ℕ, ◌+◌, ◌-◌, ◌*◌, ◌%◌, ◌^◌, min, Bool, true, false, Option, none, some, List, [], ◌∷◌, ltb,
  if◌then◌else◌,
}

abbrev pub Text : Type 0
Text = List ℕ

pub data VideoCodec : Type 0 where
  h265 : VideoCodec

-- Double precision: `of_number` converts any unsigned integer, `ceil_uint16` rounds up and converts.
pub record Doubles : Type 1 where
  pub Double : Type 0
  pub zero_double : Double
  pub one_double : Double
  pub default_scale : Double
  pub of_number : ℕ → Double
  pub plus : Double → Double → Double
  pub times : Double → Double → Double
  pub over : Double → Double → Double
  pub is_greater : Double → Double → Bool
  pub ceil_uint16 : Double → ℕ
  pub to_uint32 : Double → ℕ
  pub to_uint64 : Double → ℕ

-- `configuration::encoder`.
pub record EncoderConfig (Double : Type 0) : Type 0 where
  pub name : Text
  pub width : Option Double
  pub height : Option Double
  pub offset_x : Option Double
  pub offset_y : Option Double
  pub group : Option ℕ
  pub codec : Option VideoCodec
  pub options : List (Text × Text)
  pub device : Option Text

pub record EncoderSettings : Type 0 where
  pub encoder_name : Text
  pub width : ℕ
  pub height : ℕ
  pub video_width : ℕ
  pub video_height : ℕ
  pub offset_x : ℕ
  pub offset_y : ℕ
  pub codec : VideoCodec
  pub bitrate : ℕ
  pub options : List (Text × Text)
  pub group : ℕ
  pub device : Option Text

abbrev pub default_bitrate : ℕ
default_bitrate = 50000000

abbrev pub value_or {ℓ} : {A : Type ℓ} → Option A → A → A
value_or none a = a
value_or (some b) a = b

-- `make_even(value, max)` of two `uint16_t`.
abbrev pub make_even : ℕ → ℕ → ℕ
make_even value max = min ((value + value % 2) % 2 ^ 16) max

-- A difference of two `uint32_t` as a `uint16_t`.
abbrev pub room : ℕ → ℕ → ℕ
room size offset = (size + 2 ^ 32 - offset) % 2 ^ 32 % 2 ^ 16

abbrev pub max : ℕ → ℕ → ℕ
max a b = if ltb a b then b else a

module _ (d : Doubles) where
  -- One part of the scale; the height's is divided by the width.
  abbrev pub limit : (size limit_size width : ℕ) → d.Double → d.Double
  limit size limit_size width scale =
      if d.is_greater (d.times (d.of_number size) scale) (d.of_number limit_size)
      then d.over (d.of_number (limit_size - 1)) (d.of_number width)
      else scale

  -- `check_scale`.
  abbrev pub check_scale :
      (is_nvenc : Text → Bool) (max_size : VideoCodec → ℕ × ℕ)
      → Text
      → VideoCodec
      → (width height : ℕ) → d.Double × d.Double
      → d.Double × d.Double
  check_scale is_nvenc max_size name codec width height scale =
      if is_nvenc name
      then (
        limit width (max_size codec).0 width scale.0,
        limit height (max_size codec).1 width scale.1,
      )
      else scale

  -- `std::ceil(fraction.value_or(otherwise) * size)`.
  abbrev pub part_of : Option d.Double → d.Double → ℕ → ℕ
  part_of fraction otherwise size =
      d.ceil_uint16 (d.times (value_or fraction otherwise) (d.of_number size))

  abbrev pub check_scales :
      (is_nvenc : Text → Bool) (max_size : VideoCodec → ℕ × ℕ)
      → List (EncoderConfig d.Double)
      → (width height : ℕ) → d.Double × d.Double
      → d.Double × d.Double
  check_scales is_nvenc max_size [] width height scale = scale
  check_scales is_nvenc max_size (e ∷ encoders) width height scale =
      check_scales is_nvenc max_size encoders width height (
        check_scale is_nvenc max_size e.name (value_or e.codec VideoCodec.h265)
          (part_of e.width d.one_double width) (part_of e.height d.one_double height) scale)

  -- `size *= scale; size += size % 2` of a `uint32_t`.
  abbrev pub scale_size : ℕ → d.Double → ℕ
  scale_size size scale =
      let scaled = d.to_uint32 (d.times (d.of_number size) scale) in (scaled + scaled % 2) % 2 ^ 32

  -- The settings of one encoder, with no bitrate yet.
  abbrev pub settings_of : EncoderConfig d.Double → (width height next_group : ℕ) → EncoderSettings
  settings_of e width height next_group =
      let w = part_of e.width d.one_double width in
      let h = part_of e.height d.one_double height in
      let x = part_of e.offset_x d.zero_double width in
      let y = part_of e.offset_y d.zero_double height in
      record {
        encoder_name = e.name;
        width = make_even w (room width x);
        height = make_even h (room height y);
        video_width = w;
        video_height = h;
        offset_x = x;
        offset_y = y;
        codec = value_or e.codec VideoCodec.h265;
        bitrate = 0;
        options = e.options;
        group = value_or e.group next_group;
        device = e.device;
      }

  abbrev pub all_settings :
      List (EncoderConfig d.Double) → (width height next_group : ℕ) → List EncoderSettings
  all_settings [] width height next_group = []
  all_settings (e ∷ encoders) width height next_group =
      let settings = settings_of e width height next_group in
      settings ∷ all_settings encoders width height (max next_group (settings.group + 1))

  -- The weight of an encoder is the number of its pixels, an `int`, which does not overflow below
  -- 2^31.
  abbrev pub weight : EncoderSettings → ℕ
  weight s = s.width * s.height

  abbrev pub total_weight : d.Double → List EncoderSettings → d.Double
  total_weight total [] = total
  total_weight total (s ∷ encoders) = total_weight (d.plus total (d.of_number (weight s))) encoders

  abbrev pub share_bitrate : ℕ → d.Double → List EncoderSettings → List EncoderSettings
  share_bitrate bitrate total [] = []
  share_bitrate bitrate total (s ∷ encoders) =
      record s { bitrate = d.to_uint64 (d.over (d.of_number (weight s * bitrate % 2 ^ 64)) total) }
      ∷ share_bitrate bitrate total encoders

  abbrev pub split_bitrate : ℕ → List EncoderSettings → List EncoderSettings
  split_bitrate bitrate encoders =
      share_bitrate bitrate (total_weight d.zero_double encoders) encoders

  -- An encoder of which only the name is configured.
  abbrev pub only_name : Text → EncoderConfig d.Double
  only_name name = record {
    name = name;
    width = none;
    height = none;
    offset_x = none;
    offset_y = none;
    group = none;
    codec = none;
    options = [];
    device = none;
  }

  -- `get_encoder_default_settings`: what stands behind its first return is never reached.
  abbrev pub default_settings :
      (nvenc vaapi : Text) (is_nvidia : Bool) → List (EncoderConfig d.Double)
  default_settings nvenc vaapi is_nvidia =
      if is_nvidia then only_name nvenc ∷ [] else only_name vaapi ∷ []

  abbrev pub configured :
      List (EncoderConfig d.Double) → List (EncoderConfig d.Double) → List (EncoderConfig d.Double)
  configured [] defaults = defaults
  configured (e ∷ encoders) defaults = e ∷ encoders

  -- The size of the image, which the function also changes, and the settings.
  unfoldable pub get_encoder_settings :
      (is_nvenc : Text → Bool) (max_size : VideoCodec → ℕ × ℕ)
      → (defaults encoders : List (EncoderConfig d.Double)) → Option ℕ
      → Option (d.Double × d.Double)
      → (width height : ℕ) → ℕ × ℕ × List EncoderSettings
  get_encoder_settings is_nvenc max_size defaults encoders bitrate scale width height =
      let chosen = configured encoders defaults in
      let scales =
        check_scales is_nvenc max_size chosen width height
          (value_or scale (d.default_scale, d.default_scale)) in
      let w = scale_size width scales.0 in
      let h = scale_size height scales.1 in
      (w, h, split_bitrate (value_or bitrate default_bitrate) (all_settings chosen w h 0))
