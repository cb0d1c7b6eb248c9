-- ===== src/Video/Encoder/Throttle.antt =====
-- The throttle on IDR frames in `Encode`.
use wi_vrn.Common.{
  ℕ, ◌+◌, ◌%◌, ◌^◌, ◌<◌, ◌≤◌, ◌≡◌, refl, List, [], ◌∷◌, Bool, true, false, ltb, if◌then◌else◌,
  arith, Bool-cases, inl, inr, ◌⊎◌,
}
use mathlib.Core.Path.{subst}
use wi_vrn.Common.{◌∙◌}
use wi_vrn.Video.Shard.{ViewInfo}
use wi_vrn.Video.Encoder.{Encoder, encode, sync_requested, idr_throttle}

-- Calls of `Encode`, each with whether `SyncNeeded` was called before it, its position
-- information, its frame index and its time; the frame indices of the IDR frames that result.
unfoldable pub idr_frames : List (Bool × ViewInfo × ℕ × ℕ) → Encoder → List ℕ
unfolding encode
idr_frames [] e = []
idr_frames ((sync, view, frame, now) ∷ calls) e =
    let before = if sync then sync_requested e else e in
    let (after, idr) = encode before view frame now in
    let later = idr_frames calls after in if idr then frame ∷ later else later

-- Each is `idr_throttle` frames at least after `previous`, and after the one before it.
abbrev pub AreSpaced : ℕ → List ℕ → Type 0
AreSpaced previous [] = Unit
AreSpaced previous (f ∷ fs) = (previous + idr_throttle ≤ f) × AreSpaced f fs

-- Frame indices do not come near the wrap of the 64-bit counter.
abbrev pub AllFrames : List (Bool × ViewInfo × ℕ × ℕ) → Type 0
AllFrames [] = Unit
AllFrames (c ∷ calls) = (c.2 + idr_throttle < 2 ^ 64) × AllFrames calls

encode_cases :
    (P : Encoder × Bool → Type 0) (e : Encoder) (view : ViewInfo) (frame now : ℕ)
    → ((b : Encoder) → b.last_idr_frame ≡ e.last_idr_frame → P (b, false))
    → ((b : Encoder)
        → b.last_idr_frame ≡ frame
        → (e.last_idr_frame + idr_throttle) % 2 ^ 64 ≤ frame
        → P (b, true))
    → P (encode e view frame now)
unfolding encode
encode_cases P e view frame now plain idr = elim (Bool-cases e.sync_needed) [
  | inr f ↦ rw f (plain _ refl)
  | inl t ↦ elim (Bool-cases (ltb frame ((e.last_idr_frame + idr_throttle) % 2 ^ 64))) [
    | inl u ↦ rw (t, u) (plain _ refl)
    | inr u ↦ rw (t, u) (idr _ refl (ground arith))
  ]
]

last_idr_frame-requested :
    (b : Bool) (e : Encoder) → (if b then sync_requested e else e).last_idr_frame ≡ e.last_idr_frame
unfolding sync_requested
last_idr_frame-requested true e = refl
last_idr_frame-requested false e = refl

-- From an encoder whose last IDR frame is `last_idr_frame`, for any sequence of frames and of
-- requests to synchronise, two IDR frames are at least `idr_throttle` frames apart, and the first
-- comes that long after `last_idr_frame`; as long as no frame index is near the wrap.
pub idr_frames-AreSpaced :
    (calls : List (Bool × ViewInfo × ℕ × ℕ)) (e : Encoder)
    → e.last_idr_frame + idr_throttle < 2 ^ 64
    → AllFrames calls
    → AreSpaced e.last_idr_frame (idr_frames calls e)
unfolding idr_frames
idr_frames-AreSpaced [] e h all = tt
idr_frames-AreSpaced ((sync, view, frame, now) ∷ calls) e h all =
    let before : Encoder = if sync then sync_requested e else e in
    let same : before.last_idr_frame ≡ e.last_idr_frame = last_idr_frame-requested sync e in
    encode_cases
      (λ r.
        AreSpaced e.last_idr_frame
          (let later = idr_frames calls r.0 in if r.1 then frame ∷ later else later))
      before view frame now
      (λ b eq.
        subst (λ p. AreSpaced p (idr_frames calls b)) (eq ∙ same)
          (idr_frames-AreSpaced calls b (omega (arith, eq, same)) all.1))
      (λ b eq past. (
        omega (arith, same),
        subst (λ p. AreSpaced p (idr_frames calls b)) eq
            (idr_frames-AreSpaced calls b (omega (arith, eq, all.0)) all.1),
      ))

-- A request to synchronise is not lost: `Encode` makes an IDR frame exactly when the request is not
-- throttled, a throttled request stays for the frames after it, and an IDR frame answers it.
pub encode-answers :
    (e : Encoder) (view : ViewInfo) (frame now : ℕ)
    → e.sync_needed ≡ true
    → let (b, idr) = encode e view frame now in
      ((idr ≡ true)
        × (b.sync_needed ≡ false)
        × (b.last_idr_frame ≡ frame)
        × ((e.last_idr_frame + idr_throttle) % 2 ^ 64 ≤ frame))
      ⊎ ((idr ≡ false)
          × (b.sync_needed ≡ true)
          × (b.last_idr_frame ≡ e.last_idr_frame)
          × (frame < (e.last_idr_frame + idr_throttle) % 2 ^ 64))
unfolding encode
encode-answers e view frame now h =
    elim (Bool-cases (ltb frame ((e.last_idr_frame + idr_throttle) % 2 ^ 64))) [
      | inl u ↦ rw (h, u) (inr (refl, refl, refl, ground arith))
      | inr u ↦ rw (h, u) (inl (refl, refl, refl, ground arith))
    ]
