-- ===== src/Scene/Runs.antt =====
-- The choice of a frame by client/scenes/stream.cpp for two decoders.
use wi_vrn.Common.{ℕ, ◌≡◌, inl, inr, refl, arith, Option, none, some, [], ◌∷◌, All}
use wi_vrn.Video.Accumulator.{new_feedback}
use wi_vrn.Scene.{BlitHandle, LatestFrames, common_frames, common_frame, frame, frames}
use wi_vrn.Scene.Merge.{IsNumbered, Has}
use wi_vrn.Scene.Synchronised.{common_frame-nearest, common_frame-unused, IsNearest}

abbrev shown : ℕ → ℕ → Option BlitHandle
shown index time = some (record { feedback = new_feedback index 0; display_time = time })

abbrev left : LatestFrames
left = shown 4 40 ∷ shown 5 50 ∷ shown 6 60 ∷ []

abbrev right : LatestFrames
right = shown 5 50 ∷ shown 6 60 ∷ shown 7 70 ∷ []

abbrev started : LatestFrames
started = none ∷ shown 5 50 ∷ shown 6 60 ∷ []

left-IsNumbered : All IsNumbered left
left-IsNumbered = (omega arith, (omega arith, (omega arith, tt)))

chosen : common_frame (left ∷ right ∷ []) 52 ≡ some 5
unfolding common_frame
chosen = refl

common_frame-nearest_example :
    Has 6 (common_frames (left ∷ right ∷ []))
    × IsNearest 52 (common_frames (left ∷ right ∷ [])) (common_frame (left ∷ right ∷ []) 52)
common_frame-nearest_example =
    common_frame-nearest left (right ∷ []) 52 6 left-IsNumbered
      ((omega arith, (omega arith, tt)), ((omega arith, tt), (tt, tt)))
      (((omega arith, (omega arith, tt)), ((omega arith, tt), (tt, tt))), tt)
      (inr (inr (inl refl)), (inr (inl refl), tt))

common_frame-unused_example : common_frame (left ∷ started ∷ []) 52 ≡ none
common_frame-unused_example =
    common_frame-unused left [] (shown 5 50 ∷ shown 6 60 ∷ []) [] 52 left-IsNumbered

-- Both decoders have the frames 5 and 6.
frames-started : frames started ≡ 5 ∷ 6 ∷ []
unfolding frames
frames-started = refl

latest_frame : frame left none ≡ shown 6 60
unfolding frame
latest_frame = refl
