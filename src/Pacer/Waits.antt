-- ===== src/Pacer/Waits.antt =====
-- The sizes and indices of the samples in server/driver/wivrn_pacer.cpp.

use wi_vrn.Common.{
  ℕ, zero, suc, ◌+◌, ◌-◌, ◌^◌, ◌/◌, ◌%◌, ◌<◌, ◌≤◌, ◌≡◌, refl, ap, ◌∙◌, List, [], ◌∷◌, some, Bool,
  true, false, not, ◌&&◌, if◌then◌else◌, ltb, leb, ◌==◌, length, set, get_elem?, arith, All,
  Bool-cases, inl, inr, length-append, Option-cases,
}
use mathlib.Core.Path.{subst}
use wi_vrn.Common.Int.{ℤ, sub_ℕ}
use wi_vrn.Video.Accumulator.{Feedback}
use wi_vrn.Pacer.{
  Pacer, StreamData, num_wait_times, add_time, record_wait, record_display, adjust_duration,
  adjust_next_frame, blitted_at, on_feedback, wait_more, wait_less,
}

-- A stream's samples fit, and the next one to replace is among them.
abbrev pub IsBounded : StreamData → Type 0
IsBounded s = (length s.times ≤ num_wait_times) × (s.next_times_index < num_wait_times)

abbrev pub IsWf : Pacer → Type 0
IsWf p = All IsBounded p.streams × (length p.in_flight_frames ≡ 4)

length-set {ℓ} : {A : Type ℓ} (xs : List A) (i : ℕ) (v : A) → length (set xs i v) ≡ length xs
length-set [] i v = refl
length-set (x ∷ xs) zero v = refl
length-set (x ∷ xs) (suc i) v = ap suc (length-set xs i v)

All-set {ℓ} :
    {A : Type ℓ} (P : A → Type 0) (xs : List A) (i : ℕ) (v : A)
    → All P xs
    → P v
    → All P (set xs i v)
All-set P [] i v a h = tt
All-set P (x ∷ xs) zero v a h = (h, a.1)
All-set P (x ∷ xs) (suc i) v a h = (a.0, All-set P xs i v a.1 h)

All-get_elem? {ℓ} :
    {A : Type ℓ} (P : A → Type 0) (xs : List A) (i : ℕ) (v : A)
    → All P xs
    → get_elem? xs i ≡ some v
    → P v
All-get_elem? P [] i v a e = cc
All-get_elem? P (x ∷ xs) zero v a e = subst P x≡v a.0
  where
    x≡v : x ≡ v
    x≡v = cc
All-get_elem? P (x ∷ xs) (suc i) v a e = All-get_elem? P xs i v a.1 e

add_time-IsBounded : (t : ℤ) (s : StreamData) → IsBounded s → IsBounded (add_time t s)
unfolding add_time
add_time-IsBounded t s h = elim (Bool-cases (ltb (length s.times) num_wait_times)) [
  | inl less ↦ rw less (ground (arith, length-append s.times (t ∷ [])), h.1)
  | inr full ↦ rw full (omega (arith, length-set s.times s.next_times_index t, h.0), omega arith)
]

module _ (mean_is_below : ℕ → List ℤ → Bool) (lerp : ℕ → ℕ → ℕ) (lerp_duration : ℕ → ℕ → ℕ → ℕ)
    (from_headset : ℕ → ℕ) where
  adjust_duration-IsWf :
      (last feedback : Feedback) (p : Pacer)
      → IsWf p
      → (IsWf (adjust_duration mean_is_below lerp lerp_duration from_headset last feedback p))
        × ((adjust_duration mean_is_below lerp lerp_duration from_headset last feedback p).streams
            ≡ p.streams)
  unfolding adjust_duration
  adjust_duration-IsWf last feedback p h = go (
      feedback.stream_index == 0
      && not (last.displayed == 0)
      && not (feedback.displayed == 0)
      && feedback.frame_index == (last.frame_index + 1) % 2 ^ 64)
    where
      adjusted : Pacer
      adjusted = record p {
        frame_duration_ns = lerp_duration p.frame_duration_ns last.displayed feedback.displayed;
      }

      go :
          (b : Bool)
          → IsWf (if b then adjusted else p) × ((if b then adjusted else p).streams ≡ p.streams)
      go true = (h, refl)
      go false = (h, refl)

  adjust_next_frame-IsWf :
      (p : Pacer)
      → IsWf p
      → IsWf (adjust_next_frame mean_is_below lerp lerp_duration from_headset p)
  unfolding adjust_next_frame
  adjust_next_frame-IsWf p h =
      go (wait_more mean_is_below lerp lerp_duration from_headset p.streams)
        (wait_less mean_is_below lerp lerp_duration from_headset p.streams)
    where
      at : ℕ → Pacer
      at t = record p { next_frame_ns = t }

      step : ℕ
      step = p.frame_duration_ns / 1000

      go :
          (b c : Bool)
          → IsWf (
              if b
              then at ((p.next_frame_ns + 2 ^ 64 - step) % 2 ^ 64)
              else (if c then at ((p.next_frame_ns + step) % 2 ^ 64) else p))
      go true c = h
      go false true = h
      go false false = h

  record_wait-IsWf :
      (feedback : Feedback) (blitted : ℕ) (s : StreamData) (p : Pacer)
      → IsWf p
      → IsBounded s
      → IsWf (record_wait mean_is_below lerp lerp_duration from_headset feedback blitted s p)
  unfolding record_wait
  record_wait-IsWf feedback blitted s p h k =
      go (not (blitted == 0) && leb feedback.times_displayed 1) (feedback.stream_index == 0)
    where
      with_stream : StreamData → Pacer
      with_stream t = record p { streams = set p.streams feedback.stream_index t }

      with_stream-IsWf : (t : StreamData) → IsBounded t → IsWf (with_stream t)
      with_stream-IsWf t b = (All-set IsBounded p.streams feedback.stream_index t h.0 b, h.1)

      t : StreamData
      t = add_time (sub_ℕ blitted feedback.received_from_decoder) s

      timed : IsWf (with_stream t)
      timed =
          with_stream-IsWf t (add_time-IsBounded (sub_ℕ blitted feedback.received_from_decoder) s k)

      go :
          (b c : Bool)
          → IsWf (
              if b
              then (if c
                  then adjust_next_frame mean_is_below lerp lerp_duration from_headset
                      (with_stream t)
                  else with_stream t)
              else with_stream s)
      go true true = adjust_next_frame-IsWf (with_stream t) timed
      go true false = timed
      go false c = with_stream-IsWf s k

  record_display-IsWf :
      (feedback : Feedback) (p : Pacer)
      → IsWf p
      → IsWf (record_display mean_is_below lerp lerp_duration from_headset feedback p)
  unfolding record_display
  record_display-IsWf feedback p h =
      elim (Option-cases (get_elem? p.in_flight_frames (feedback.frame_index % 4))) [
        | inl e ↦ rw (e, record_display) h
        | inr (when, e) ↦
            elim (Bool-cases
              (not (feedback.displayed == 0) && when.frame_id == feedback.frame_index)) [
                | inl t ↦
                    rw (e, record_display) rw t
                      (
                        h.0,
                        length-set p.in_flight_frames (feedback.frame_index % 4)
                              (record when { frame_id = 0 })
                            ∙ h.1,
                      )
                | inr t ↦ rw (e, record_display) rw t h
              ]
      ]

  -- Feedback of any content, for any stream index, keeps every stream's samples within
  -- `num_wait_times`, the index of the next one to replace inside them, and the four frames in
  -- flight, whatever the clock offset and the arithmetic on doubles give.
  pub on_feedback-IsWf :
      (feedback : Feedback) (p : Pacer)
      → IsWf p
      → IsWf (on_feedback mean_is_below lerp lerp_duration from_headset feedback p)
  unfolding on_feedback
  on_feedback-IsWf feedback p h = elim (Option-cases (get_elem? p.streams feedback.stream_index)) [
    | inl e ↦ rw (e, on_feedback) h
    | inr (s, e) ↦
        let k = All-get_elem? IsBounded p.streams feedback.stream_index s h.0 e in
        let q =
          adjust_duration mean_is_below lerp lerp_duration from_headset s.last_feedback feedback
            p in
        let blitted = blitted_at s.last_feedback feedback q in
        let w = adjust_duration-IsWf s.last_feedback feedback p h in
        rw (e, on_feedback)
          (record_display-IsWf feedback
            (record_wait mean_is_below lerp lerp_duration from_headset feedback blitted
              (record s { last_feedback = feedback }) q)
            (record_wait-IsWf feedback blitted (record s { last_feedback = feedback }) q w.0 k))
  ]
