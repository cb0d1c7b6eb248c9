-- ===== src/EncoderSettings/Regions.antt =====
-- The parts of the image and the groups of the encoders, server/encoder/encoder_settings.cpp.
use mathlib.Core.Path.{subst}
use wi_vrn.Common.{
  ℕ, ◌+◌, ◌-◌, ◌%◌, ◌^◌, ◌<◌, ◌≤◌, min, ◌≡◌, ◌⊎◌, inl, inr, refl, ap, ◌∙◌, Bool, true, Option, none,
  some, List, [], ◌∷◌, ltb, arith, All, Bool-cases, Option-cases,
}
use wi_vrn.EncoderSettings.{
  Text, VideoCodec, Doubles, EncoderConfig, EncoderSettings, value_or, make_even, room, max,
  settings_of, all_settings, share_bitrate, configured, check_scales, scale_size, default_bitrate,
  total_weight, split_bitrate, get_encoder_settings,
}

-- The part of the image that starts at the offset lies inside, and its size is even unless it
-- reaches the edge.
abbrev pub IsPart : (size offset part : ℕ) → Type 0
IsPart size offset part = (offset + part ≤ size) × ((part % 2 ≡ 0) ⊎ (offset + part ≡ size))

abbrev pub IsRegion : (width height : ℕ) → EncoderSettings → Type 0
IsRegion width height s = IsPart width s.offset_x s.width × IsPart height s.offset_y s.height

abbrev pub StartsInside : (width height : ℕ) → EncoderSettings → Type 0
StartsInside width height s = (s.offset_x ≤ width) × (s.offset_y ≤ height)

-- An encoder has the group that is configured, or one above all the earlier groups.
abbrev pub AreGrouped :
    {D : Type 0} → List ℕ → List (EncoderConfig D) → List EncoderSettings → Type 0
AreGrouped earlier [] [] = Unit
AreGrouped earlier [] (s ∷ settings) = ⊥
AreGrouped earlier (e ∷ encoders) [] = ⊥
AreGrouped earlier (e ∷ encoders) (s ∷ settings) =
    ((e.group ≡ some s.group) ⊎ ((e.group ≡ none) × All (λ g. g < s.group) earlier))
    × AreGrouped (s.group ∷ earlier) encoders settings

room-exact : (size offset : ℕ) → offset ≤ size → size < 2 ^ 16 → room size offset ≡ size - offset
room-exact size offset le lt = omega arith

rounded : (value : ℕ) → (value + value % 2) % 2 ^ 16 % 2 ≡ 0
rounded value = omega arith

min-left : (a b : ℕ) → ltb a b ≡ true → min a b ≡ a
min-left a b h = ground arith

smaller :
    (size offset value free : ℕ)
    → offset ≤ size
    → free ≡ size - offset
    → value % 2 ≡ 0
    → (min value free % 2 ≡ 0) ⊎ (offset + min value free ≡ size)
smaller size offset value free le e even = elim (Bool-cases (ltb value free)) [
  | inl lt ↦ inl (ap (λ k. k % 2) (min-left value free lt) ∙ even)
  | inr ge ↦ inr (ground (arith, ge))
]

make_even-IsPart :
    (size offset value : ℕ)
    → offset ≤ size
    → size < 2 ^ 16
    → IsPart size offset (make_even value (room size offset))
make_even-IsPart size offset value le lt =
    let r = room-exact size offset le lt in
    let even = rounded value in
    (
      omega (arith, r),
      smaller size offset ((value + value % 2) % 2 ^ 16) (room size offset) le r even,
    )

module _ (d : Doubles) where
  all_settings-regions :
      (encoders : List (EncoderConfig d.Double)) (width height next_group : ℕ)
      → width < 2 ^ 16
      → height < 2 ^ 16
      → All (StartsInside width height) (all_settings d encoders width height next_group)
      → All (IsRegion width height) (all_settings d encoders width height next_group)
  all_settings-regions [] width height next_group hw hh starts = tt
  all_settings-regions (e ∷ encoders) width height next_group hw hh ((x, y), starts) =
      let s = settings_of d e width height next_group in
      (
        (
          make_even-IsPart width s.offset_x s.video_width x hw,
          make_even-IsPart height s.offset_y s.video_height y hh,
        ),
        all_settings-regions encoders width height (max next_group (s.group + 1)) hw hh starts,
      )

  share-starts :
      (bitrate : ℕ) (total : d.Double) (width height : ℕ) (settings : List EncoderSettings)
      → All (StartsInside width height) (share_bitrate d bitrate total settings)
      → All (StartsInside width height) settings
  share-starts bitrate total width height [] starts = tt
  share-starts bitrate total width height (s ∷ settings) (start, starts) =
      (start, share-starts bitrate total width height settings starts)

  share-regions :
      (bitrate : ℕ) (total : d.Double) (width height : ℕ) (settings : List EncoderSettings)
      → All (IsRegion width height) settings
      → All (IsRegion width height) (share_bitrate d bitrate total settings)
  share-regions bitrate total width height [] regions = tt
  share-regions bitrate total width height (s ∷ settings) (region, regions) =
      (region, share-regions bitrate total width height settings regions)

  share-AreGrouped :
      (bitrate : ℕ) (total : d.Double) (earlier : List ℕ) (encoders : List (EncoderConfig d.Double))
      (settings : List EncoderSettings)
      → AreGrouped earlier encoders settings
      → AreGrouped earlier encoders (share_bitrate d bitrate total settings)
  share-AreGrouped bitrate total earlier [] [] grouped = grouped
  share-AreGrouped bitrate total earlier [] (s ∷ settings) grouped = grouped
  share-AreGrouped bitrate total earlier (e ∷ encoders) [] grouped = grouped
  share-AreGrouped bitrate total earlier (e ∷ encoders) (s ∷ settings) (group, grouped) =
      (group, share-AreGrouped bitrate total (s.group ∷ earlier) encoders settings grouped)

  All-max : (earlier : List ℕ) (a b : ℕ) → All (λ g. g < a) earlier → All (λ g. g < max a b) earlier
  All-max [] a b below = tt
  All-max (g ∷ earlier) a b (lt, below) = (ground arith, All-max earlier a b below)

  group_cases :
      (e : EncoderConfig d.Double) (next_group : ℕ) (earlier : List ℕ)
      → All (λ g. g < next_group) earlier
      → (e.group ≡ some (value_or e.group next_group))
        ⊎ ((e.group ≡ none) × All (λ g. g < value_or e.group next_group) earlier)
  group_cases e next_group earlier below = elim (Option-cases e.group) [
    | inl unset ↦ rw unset (inr (refl, below))
    | inr (g, given) ↦ rw given (inl refl)
  ]

  all_settings-AreGrouped :
      (encoders : List (EncoderConfig d.Double)) (width height next_group : ℕ) (earlier : List ℕ)
      → All (λ g. g < next_group) earlier
      → AreGrouped earlier encoders (all_settings d encoders width height next_group)
  all_settings-AreGrouped [] width height next_group earlier below = tt
  all_settings-AreGrouped (e ∷ encoders) width height next_group earlier below =
      let group = value_or e.group next_group in
      (
        group_cases e next_group earlier below,
        all_settings-AreGrouped encoders width height (max next_group (group + 1)) (group ∷ earlier)
            (ground arith, All-max earlier next_group (group + 1) below),
      )

  of_sizes :
      (chosen : List (EncoderConfig d.Double)) (w h bitrate : ℕ)
      → w < 2 ^ 16
      → h < 2 ^ 16
      → All (StartsInside w h) (split_bitrate d bitrate (all_settings d chosen w h 0))
      → All (IsRegion w h) (split_bitrate d bitrate (all_settings d chosen w h 0))
        × AreGrouped [] chosen (split_bitrate d bitrate (all_settings d chosen w h 0))
  of_sizes chosen w h bitrate hw hh starts =
      let settings = all_settings d chosen w h 0 in
      let total = total_weight d d.zero_double settings in
      (
        share-regions bitrate total w h settings (
            all_settings-regions chosen w h 0 hw hh
              (share-starts bitrate total w h settings starts)),
        share-AreGrouped bitrate total [] chosen settings
            (all_settings-AreGrouped chosen w h 0 [] tt),
      )

  abbrev scales_of :
      (is_nvenc : Text → Bool) (max_size : VideoCodec → ℕ × ℕ)
      → List (EncoderConfig d.Double)
      → (width height : ℕ) → Option (d.Double × d.Double)
      → d.Double × d.Double
  scales_of is_nvenc max_size chosen width height scale =
      check_scales d is_nvenc max_size chosen width height
        (value_or scale (d.default_scale, d.default_scale))

  -- On an image of less than 65536 pixels each way, whatever the scale and the fractions are: the
  -- part of each encoder that starts inside the image lies inside, and each of its sizes is even or
  -- reaches the edge, if all of them start inside; and an encoder has the group that is configured
  -- for it, or else one above all the groups before it.
  pub settings-regions :
      (is_nvenc : Text → Bool) (max_size : VideoCodec → ℕ × ℕ)
      (defaults encoders : List (EncoderConfig d.Double)) (bitrate : Option ℕ)
      (scale : Option (d.Double × d.Double)) (width height w h : ℕ)
      (settings : List EncoderSettings)
      → get_encoder_settings d is_nvenc max_size defaults encoders bitrate scale width height
        ≡ (w, h, settings)
      → w < 2 ^ 16
      → h < 2 ^ 16
      → All (StartsInside w h) settings
      → All (IsRegion w h) settings × AreGrouped [] (configured d encoders defaults) settings
  unfolding get_encoder_settings
  settings-regions is_nvenc max_size defaults encoders bitrate scale width height w h settings e =
      let chosen = configured d encoders defaults in
      subst
        (λ r.
          r.0 < 2 ^ 16
          → r.1 < 2 ^ 16
          → All (StartsInside r.0 r.1) r.2
          → All (IsRegion r.0 r.1) r.2 × AreGrouped [] chosen r.2)
        e
        (of_sizes chosen
          (scale_size d width (scales_of is_nvenc max_size chosen width height scale).0)
          (scale_size d height (scales_of is_nvenc max_size chosen width height scale).1)
          (value_or bitrate default_bitrate))
