-- ===== src/Swapchain/Runs.antt =====
-- Runs of the images shared by the compositor and two encoder threads of
-- server/driver/wivrn_comp_target.cpp, and the theorems on them.
use wi_vrn.Common.{
  ◌==◌, if◌then◌else◌, ◌-◌, none, some, ℕ, ◌≡◌, ◌≢◌, [], ◌∷◌, refl, arith, true, false,
}
use wi_vrn.Swapchain.{
  Item, Swapchain, Step, Reach, IsInitial, EncoderThread, Compositor, image_free, image_presented,
  has_bit, has_status_bit, is_free,
}
use wi_vrn.Swapchain.Holding.{reach_held}
use wi_vrn.Swapchain.Waking.{reach_awake}
use wi_vrn.Swapchain.Choice.{last_pending}

abbrev first_images : ℕ → Item
first_images i = record { status = image_free 2; frame_index = 0; display_time = 0 }

abbrev at_start : Swapchain
at_start = record {
  images = first_images;
  present_gen = 0;
  compositor = Compositor.idle;
  encoder_threads = λ i. EncoderThread.starting;
}

at_start_reached : Reach 2 at_start
at_start_reached = Reach.start (IsInitial.initial first_images (λ i. refl))

-- A state that the threads reach.
abbrev Run : Type 0
Run = (s : Swapchain) × Reach 2 s

abbrev onward : {t : Swapchain} (run : Run) → Step 2 run.0 t → Run
onward {t} run step = (t, Reach.later run.1 step)

-- The compositor presents image 0 to be shown at `time`.
abbrev announced : ℕ → Run
announced time =
    onward
      (onward
        (onward (onward (at_start, at_start_reached) (Step.acquire 0 refl (omega arith) refl))
          (Step.mark 0 refl))
        (Step.describe 0 5 time refl))
      (Step.announce 0 refl)

-- Encoder thread 1 looks at the three images and chooses image 0.
abbrev chosen : Run
chosen =
    onward
      (onward
        (onward
          (onward (onward (announced 70) (Step.begin 1 (omega arith) refl))
            (Step.inspect 1 1 0 none [] refl (omega arith)))
          (Step.inspect 1 1 1 (some 0) (0 ∷ []) refl (omega arith)))
        (Step.inspect 1 1 2 (some 0) (0 ∷ []) refl (omega arith)))
      (Step.choose 1 1 0 (0 ∷ []) refl)

-- With the time 0 it passes over the image and sleeps.
abbrev asleep : Run
asleep =
    onward
      (onward
        (onward
          (onward (onward (announced 0) (Step.begin 1 (omega arith) refl))
            (Step.inspect 1 1 0 none [] refl (omega arith)))
          (Step.inspect 1 1 1 none (0 ∷ []) refl (omega arith)))
        (Step.inspect 1 1 2 none (0 ∷ []) refl (omega arith)))
      (Step.sleep 1 1 (0 ∷ []) refl)

reach_held_example :
    (has_bit (chosen.0.images 0).status 2 ≡ true)
    × (is_free (chosen.0.images 0).status ≡ false)
    × (chosen.0.compositor ≢ Compositor.holding 0)
reach_held_example = reach_held 2 chosen.0 1 0 chosen.1 refl

reach_awake_example : (asleep.0.images 0).display_time ≡ 0
reach_awake_example =
    reach_awake 2 asleep.0 1 0 asleep.1 (omega arith) (λ e. e) refl (omega arith) refl

-- Two images wait for thread 1, and the first is to be shown last.
abbrev two_pending : ℕ → Item
two_pending i = record {
  status = if i == 2 then image_free 2 else image_presented 2;
  frame_index = i;
  display_time = 90 - i;
}

two_pending_last : last_pending 1 two_pending 3 ≡ some 1
two_pending_last = refl

-- The eighth encoder thread has no bit in its mask.
late_bit : has_status_bit (image_presented 8) 7 ≡ false
late_bit = refl
