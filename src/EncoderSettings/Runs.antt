-- ===== src/EncoderSettings/Runs.antt =====
-- The settings that server/encoder/encoder_settings.cpp makes of three encoders, with percents in
-- place of doubles.
use wi_vrn.Common.{
  some, ◌∷◌, ℕ, ◌+◌, ◌*◌, ◌/◌, ◌%◌, ◌^◌, refl, false, none, List, [], ltb, arith, All,
}
use wi_vrn.EncoderSettings.{
  Doubles, EncoderConfig, EncoderSettings, default_settings, configured, get_encoder_settings,
}
use wi_vrn.EncoderSettings.Regions.{IsRegion, AreGrouped, settings-regions}

abbrev percents : Doubles
percents = record {
  Double = ℕ;
  zero_double = 0;
  one_double = 100;
  default_scale = 80;
  of_number = λ n. n;
  plus = λ a b. a + b;
  times = λ a b. a * b;
  over = λ a b. a / b;
  is_greater = λ a b. ltb b a;
  ceil_uint16 = λ a. (a + 99) / 100 % 2 ^ 16;
  to_uint32 = λ a. a / 100;
  to_uint64 = λ a. a;
}

abbrev part : (width height offset_y : ℕ) → EncoderConfig ℕ
part width height offset_y = record {
  name = [];
  width = some width;
  height = some height;
  offset_x = none;
  offset_y = some offset_y;
  group = none;
  codec = none;
  options = [];
  device = none;
}

abbrev split : List (EncoderConfig ℕ)
split = part 50 25 0 ∷ part 50 75 25 ∷ part 50 100 50 ∷ []

abbrev result : ℕ × ℕ × List EncoderSettings
result =
    get_encoder_settings percents (λ name. false) (λ codec. (4096, 4096))
      (default_settings percents [] [] false) split none none 2001 1001

settings-regions_example :
    All (IsRegion 1600 800) result.2
    × AreGrouped [] (configured percents split (default_settings percents [] [] false)) result.2
unfolding get_encoder_settings
settings-regions_example =
    settings-regions percents (λ name. false) (λ codec. (4096, 4096))
      (default_settings percents [] [] false) split none none 2001 1001 1600 800 result.2 refl
      (omega arith) (omega arith)
      ((omega arith, omega arith), ((omega arith, omega arith), ((omega arith, omega arith), tt)))
