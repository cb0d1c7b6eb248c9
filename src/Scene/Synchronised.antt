-- ===== src/Scene/Synchronised.antt =====
-- The frame that `common_frame` of client/scenes/stream.cpp chooses.
use mathlib.Core.Option.{some-injective}
use mathlib.Core.Path.{subst}
use wi_vrn.Common.{
  ℕ, ◌-◌, ◌^◌, ◌≤◌, ◌≡◌, ◌⊎◌, inl, inr, refl, sym, ap, ◌∙◌, Option, none, some, List, [], ◌∷◌, ◌++◌,
  arith, ltb, le→ltb, lt→ltb, if◌then◌else◌, Bool-cases, All,
}
use wi_vrn.Scene.{
  BlitHandle, LatestFrames, intersect_at, set_intersection, handles, intersect_all, common_frames,
  time_from, min_element, nearest, index_of, common_frame,
}
use wi_vrn.Scene.Merge.{
  IsNumbered, Has, IsAscending, All-mono, intersection-Has, intersection-IsAscending,
}
use wi_vrn.Scene.Shared.{intersect_all_empty, IsKnown, common_frames-IsKnown}

-- `min_element` is one of the elements, and none is less.
All-min :
    (R : Option BlitHandle → Type 0) (f : Option BlitHandle → ℕ) (a : Option BlitHandle)
    (l : LatestFrames)
    → R a
    → All R l
    → R (min_element f a l)
All-min R f a [] r all = r
All-min R f a (b ∷ l) r (q, all) = elim (Bool-cases (ltb (f b) (f a))) [
  | inl lt ↦ rw lt (All-min R f b l q all)
  | inr ge ↦ rw ge (All-min R f a l r all)
]

min_least :
    (f : Option BlitHandle → ℕ) (a : Option BlitHandle) (l : LatestFrames) (m : Option BlitHandle)
    → min_element f a l ≡ m
    → (f m ≤ f a) × All (λ b. f m ≤ f b) l
min_least f a [] m e = (omega (arith, ap f e), tt)
min_least f a (b ∷ l) m e = elim (Bool-cases (ltb (f b) (f a))) [
  | inl lt ↦
      let (least, all) =
        min_least f b l m (sym (ap (λ c. min_element f (if c then b else a) l) lt) ∙ e) in
      (ground (arith, lt, least), (least, all))
  | inr ge ↦
      let (least, all) =
        min_least f a l m (sym (ap (λ c. min_element f (if c then b else a) l) ge) ∙ e) in
      (least, (ground (arith, ge, least), all))
]

known_index :
    (N : ℕ → Type 0) (a : Option BlitHandle) (n : ℕ) → IsKnown N a → index_of a ≡ some n → N n
known_index N none n known e = absurd known
known_index N (some h) n (lt, known) e = subst N (some-injective _ _ e) known

nearest_known :
    (N : ℕ → Type 0) (display_time n : ℕ) (l : LatestFrames)
    → All (IsKnown N) l
    → index_of (nearest display_time l) ≡ some n
    → N n
nearest_known N display_time n [] all e = absurd (ground (arith, e))
nearest_known N display_time n (a ∷ l) (known, all) e =
    known_index N (nearest display_time (a ∷ l)) n
      (All-min (IsKnown N) (time_from display_time) a l known all) e

-- When frames have numbers below 2^64 - 1, the frame that `common_frame` chooses is one that every
-- decoder has.
pub common_frame-shared :
    (first : LatestFrames) (sets : List LatestFrames) (display_time n : ℕ)
    → All IsNumbered first
    → common_frame (first ∷ sets) display_time ≡ some n
    → All (Has n) (first ∷ sets)
unfolding common_frame
common_frame-shared first sets display_time n h e =
    nearest_known (λ n. All (Has n) (first ∷ sets)) display_time n (common_frames (first ∷ sets))
      (common_frames-IsKnown first sets h) e

intersect_all-Has :
    (n : ℕ) (common : LatestFrames) (sets : List LatestFrames)
    → IsAscending common
    → All IsAscending sets
    → Has n common
    → All (Has n) sets
    → Has n (intersect_all common sets)
intersect_all-Has n common [] asc all at every = at
intersect_all-Has n common (latest ∷ sets) asc (up, all) at (here, every) =
    intersect_all-Has n (set_intersection latest common) sets
      (intersection-IsAscending latest common up) all
      (intersection-Has n latest common up asc here at) every

Has-handles : (n : ℕ) (latest : LatestFrames) → Has n latest → Has n (handles latest)
Has-handles n [] at = at
Has-handles n (none ∷ latest) (inl e) = absurd (ground (arith, e))
Has-handles n (none ∷ latest) (inr at) = Has-handles n latest at
Has-handles n (some h ∷ latest) (inl e) = inl e
Has-handles n (some h ∷ latest) (inr at) = inr (Has-handles n latest at)

-- A place is among others.
abbrev pub IsAmong : Option BlitHandle → LatestFrames → Type 0
IsAmong a [] = ⊥
IsAmong a (b ∷ l) = (a ≡ b) ⊎ IsAmong a l

All-IsAmong : (l : LatestFrames) → All (λ a. IsAmong a l) l
All-IsAmong [] = tt
All-IsAmong (a ∷ l) = (
  inl refl,
  All-mono (λ b. IsAmong b l) (λ b. IsAmong b (a ∷ l)) l (λ b m. inr m) (All-IsAmong l),
)

-- What `common_frame` chooses from common frames: the number of one of them, such that no other one is
-- nearer.
abbrev pub IsNearest : ℕ → LatestFrames → Option ℕ → Type 0
IsNearest display_time common chosen =
    (h : BlitHandle) × (chosen ≡ some h.feedback.frame_index)
    × IsAmong (some h) common
    × All (λ b. time_from display_time (some h) ≤ time_from display_time b) common

chosen :
    (N : ℕ → Type 0) (display_time : ℕ) (l : LatestFrames) (m : Option BlitHandle)
    → IsKnown N m
    → IsAmong m l
    → All (λ b. time_from display_time m ≤ time_from display_time b) l
    → IsNearest display_time l (index_of m)
chosen N display_time l none known among all = absurd known
chosen N display_time l (some h) known among all = (h, refl, among, all)

nearest_of :
    (N : ℕ → Type 0) (display_time n : ℕ) (l : LatestFrames)
    → All (IsKnown N) l
    → Has n l
    → IsNearest display_time l (index_of (nearest display_time l))
nearest_of N display_time n [] all at = absurd at
nearest_of N display_time n (a ∷ l) (known, all) at =
    let own = All-IsAmong (a ∷ l) in
    chosen N display_time (a ∷ l) (min_element (time_from display_time) a l)
      (All-min (IsKnown N) (time_from display_time) a l known all)
      (All-min (λ b. IsAmong b (a ∷ l)) (time_from display_time) a l own.0 own.1)
      (min_least (time_from display_time) a l (min_element (time_from display_time) a l) refl)

-- When the sets are sorted by frame numbers below 2^64 - 1 and all have a frame `n`, then `n` is
-- among the common frames, and `common_frame` chooses the number of one of the common frames, such
-- that none of them is shown nearer to the given time.
pub common_frame-nearest :
    (first : LatestFrames) (sets : List LatestFrames) (display_time n : ℕ)
    → All IsNumbered first
    → IsAscending (handles first)
    → All IsAscending sets
    → All (Has n) (first ∷ sets)
    → Has n (common_frames (first ∷ sets))
      × IsNearest display_time
          (common_frames (first ∷ sets))
          (common_frame (first ∷ sets) display_time)
unfolding common_frame
common_frame-nearest first sets display_time n h asc all (at, every) =
    let common = intersect_all-Has n (handles first) sets asc all (Has-handles n first at) every in
    (
      common,
      nearest_of (λ n. All (Has n) (first ∷ sets)) display_time n (common_frames (first ∷ sets))
          (common_frames-IsKnown first sets h) common,
    )

intersect_none :
    (N : ℕ → Type 0) (rest : LatestFrames → LatestFrames) (common : LatestFrames)
    → All (IsKnown N) common
    → intersect_at rest none common ≡ []
intersect_none N rest [] all = refl
intersect_none N rest (none ∷ common) (known, all) = absurd known
intersect_none N rest (some h ∷ common) ((lt, known), all) =
    rw
      (
        le→ltb (2 ^ 64 - 1) h.feedback.frame_index (omega (arith, lt)),
        lt→ltb h.feedback.frame_index (2 ^ 64 - 1) lt,
      )
      (intersect_none N rest common all)

intersect_all-append :
    (common : LatestFrames) (before after : List LatestFrames)
    → intersect_all common (before ++ after) ≡ intersect_all (intersect_all common before) after
intersect_all-append common [] after = refl
intersect_all-append common (latest ∷ before) after =
    intersect_all-append (set_intersection latest common) before after

-- When a set behind the first one begins with an unused place, `common_frame` finds no frame, even
-- if every decoder has one, since the unused place counts as the greatest number and stands in
-- front.
pub common_frame-unused :
    (first : LatestFrames) (before : List LatestFrames) (rest : LatestFrames)
    (after : List LatestFrames) (display_time : ℕ)
    → All IsNumbered first
    → common_frame (first ∷ before ++ ((none ∷ rest) ∷ after)) display_time ≡ none
unfolding common_frame
common_frame-unused first before rest after display_time h =
    let known = common_frames-IsKnown first before h in
    let empty : common_frames (first ∷ before ++ ((none ∷ rest) ∷ after)) ≡ [] =
      intersect_all-append (handles first) before ((none ∷ rest) ∷ after)
      ∙ ap (λ c. intersect_all c after)
          (intersect_none (λ n. All (Has n) (first ∷ before)) (set_intersection rest)
            (common_frames (first ∷ before)) known)
      ∙ intersect_all_empty after in
    ap (λ c. index_of (nearest display_time c)) empty
