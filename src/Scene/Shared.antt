-- ===== src/Scene/Shared.antt =====
-- The frames that several sets have, as `common_frame` of client/scenes/stream.cpp finds them.
use mathlib.Core.Path.{subst}
use wi_vrn.Common.{
  ℕ, ◌-◌, ◌^◌, ◌<◌, ◌≡◌, inl, inr, refl, sym, ap, ◌∙◌, Option, none, some, List, [], ◌∷◌, arith,
  All,
}
use wi_vrn.Scene.{
  BlitHandle, LatestFrames, proj, set_intersection, handles, intersect_all, common_frames, index_of,
}
use wi_vrn.Scene.Merge.{IsNumbered, Has, All-mono, All-intersection, intersection_empty}

pub intersect_all_empty : (sets : List LatestFrames) → intersect_all [] sets ≡ []
intersect_all_empty [] = refl
intersect_all_empty (latest ∷ sets) =
    ap (λ c. intersect_all c sets) (intersection_empty latest) ∙ intersect_all_empty sets

-- A handle, and what is known of its number.
abbrev pub IsKnown : (ℕ → Type 0) → Option BlitHandle → Type 0
IsKnown N none = ⊥
IsKnown N (some handle) = (handle.feedback.frame_index < 2 ^ 64 - 1) × N handle.feedback.frame_index

-- A place of `latest`, by what is known of its index.
abbrev pub IsPlaceOf : LatestFrames → Option BlitHandle → Type 0
IsPlaceOf latest a = (n : ℕ) → index_of a ≡ some n → Has n latest

pub places : (latest : LatestFrames) → All (IsPlaceOf latest) latest
places [] = tt
places (a ∷ latest) = (
  λ n e. inl e,
  All-mono (IsPlaceOf latest) (IsPlaceOf (a ∷ latest)) latest (λ b at n e. inr (at n e))
      (places latest),
)

pub share :
    (latest : LatestFrames) (N : ℕ → Type 0) (a b : Option BlitHandle)
    → IsPlaceOf latest a
    → IsKnown N b
    → proj a ≡ proj b
    → IsKnown (λ n. N n × Has n latest) a
share latest N a none at known e = absurd known
share latest N none (some h) at (lt, known) e = absurd (omega (arith, e))
share latest N (some g) (some h) at (lt, known) e =
    (omega (arith, e), (subst N (sym e) known, at g.feedback.frame_index refl))

pub IsKnown-mono :
    (M N : ℕ → Type 0) (a : Option BlitHandle) → ((n : ℕ) → M n → N n) → IsKnown M a → IsKnown N a
IsKnown-mono M N none f known = known
IsKnown-mono M N (some h) f (lt, known) = (lt, f h.feedback.frame_index known)

pub intersect_all-IsKnown :
    (sets : List LatestFrames) (N : ℕ → Type 0) (common : LatestFrames)
    → All (IsKnown N) common
    → All (IsKnown (λ n. N n × All (Has n) sets)) (intersect_all common sets)
intersect_all-IsKnown [] N common all =
    All-mono (IsKnown N) (IsKnown (λ n. N n × All (Has n) [])) common
      (λ a. IsKnown-mono N (λ n. N n × All (Has n) []) a (λ n known. (known, tt))) all
intersect_all-IsKnown (latest ∷ sets) N common all =
    let M : ℕ → Type 0 = λ n. N n × Has n latest in
    let step : All (IsKnown M) (set_intersection latest common) =
      All-intersection (IsPlaceOf latest) (IsKnown N) (IsKnown M) latest common (places latest) all
        (share latest N) in
    All-mono (IsKnown (λ n. M n × All (Has n) sets))
      (IsKnown (λ n. N n × All (Has n) (latest ∷ sets)))
      (intersect_all (set_intersection latest common) sets)
      (λ a.
        IsKnown-mono (λ n. M n × All (Has n) sets) (λ n. N n × All (Has n) (latest ∷ sets)) a
          (λ n (m, h). (m.0, (m.1, h))))
      (intersect_all-IsKnown sets M (set_intersection latest common) step)

pub handles-IsKnown :
    (latest : LatestFrames)
    → All IsNumbered latest
    → All (IsKnown (λ n. Has n latest)) (handles latest)
handles-IsKnown [] h = tt
handles-IsKnown (none ∷ latest) (_, h) =
    All-mono (IsKnown (λ n. Has n latest)) (IsKnown (λ n. Has n (none ∷ latest))) (handles latest)
      (λ a. IsKnown-mono (λ n. Has n latest) (λ n. Has n (none ∷ latest)) a (λ n at. inr at))
      (handles-IsKnown latest h)
handles-IsKnown (some g ∷ latest) (lt, h) = (
  (lt, inl refl),
  All-mono (IsKnown (λ n. Has n latest)) (IsKnown (λ n. Has n (some g ∷ latest))) (handles latest)
      (λ a. IsKnown-mono (λ n. Has n latest) (λ n. Has n (some g ∷ latest)) a (λ n at. inr at))
      (handles-IsKnown latest h),
)

pub common_frames-IsKnown :
    (first : LatestFrames) (sets : List LatestFrames)
    → All IsNumbered first
    → All (IsKnown (λ n. All (Has n) (first ∷ sets))) (common_frames (first ∷ sets))
common_frames-IsKnown first sets h =
    intersect_all-IsKnown sets (λ n. Has n first) (handles first) (handles-IsKnown first h)
