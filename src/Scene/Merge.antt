-- ===== src/Scene/Merge.antt =====
-- The intersection of two sets of frames, as `common_frame` of client/scenes/stream.cpp has it.
use mathlib.Core.Option.{some-injective}
use wi_vrn.Common.{
  ℕ, ◌-◌, ◌^◌, ◌<◌, ◌≤◌, ◌≡◌, ◌⊎◌, inl, inr, refl, Option, none, some, [], ◌∷◌, arith, ltb,
  Bool-cases, All,
}
use wi_vrn.Scene.{BlitHandle, LatestFrames, proj, intersect_at, set_intersection, index_of}

-- The number of no handle is no frame's.
abbrev pub IsNumbered : Option BlitHandle → Type 0
IsNumbered none = Unit
IsNumbered (some handle) = handle.feedback.frame_index < 2 ^ 64 - 1

-- One of the frames has the index `n`.
abbrev pub Has : ℕ → LatestFrames → Type 0
Has n [] = ⊥
Has n (frame ∷ latest) = (index_of frame ≡ some n) ⊎ Has n latest

pub All-mono :
    (P Q : Option BlitHandle → Type 0) (l : LatestFrames)
    → ((a : Option BlitHandle) → P a → Q a)
    → All P l
    → All Q l
All-mono P Q [] f all = tt
All-mono P Q (a ∷ l) f (p, all) = (f a p, All-mono P Q l f all)

-- What `R` says of the elements of the first range that also stand in the second.
All-intersection_at :
    (P Q R : Option BlitHandle → Type 0) (a : Option BlitHandle)
    (rest : LatestFrames → LatestFrames) (common : LatestFrames)
    → P a
    → All Q common
    → ((c : LatestFrames) → All Q c → All R (rest c))
    → ((a b : Option BlitHandle) → P a → Q b → proj a ≡ proj b → R a)
    → All R (intersect_at rest a common)
All-intersection_at P Q R a rest [] p q r join = tt
All-intersection_at P Q R a rest (b ∷ bs) p (q, qs) r join =
    elim (Bool-cases (ltb (proj a) (proj b))) [
      | inl lt ↦ rw lt (r (b ∷ bs) (q, qs))
      | inr ge ↦ elim (Bool-cases (ltb (proj b) (proj a))) [
        | inl gt ↦ rw (ge, gt) (All-intersection_at P Q R a rest bs p qs r join)
        | inr le ↦ rw (ge, le) (join a b p q (ground (arith, ge, le)), r bs qs)
      ]
    ]

pub All-intersection :
    (P Q R : Option BlitHandle → Type 0) (latest common : LatestFrames)
    → All P latest
    → All Q common
    → ((a b : Option BlitHandle) → P a → Q b → proj a ≡ proj b → R a)
    → All R (set_intersection latest common)
All-intersection P Q R [] common p q join = tt
All-intersection P Q R (a ∷ latest) common (p, ps) q join =
    All-intersection_at P Q R a (set_intersection latest) common p q
      (λ c qc. All-intersection P Q R latest c ps qc join) join

pub intersection_empty : (latest : LatestFrames) → set_intersection latest [] ≡ []
intersection_empty [] = refl
intersection_empty (a ∷ latest) = refl

index-proj : (a : Option BlitHandle) (n : ℕ) → index_of a ≡ some n → proj a ≡ n
index-proj none n e = absurd (ground (arith, e))
index-proj (some h) n e = some-injective _ _ e

-- The numbers strictly ascend, as `set_intersection` asks for.
abbrev pub IsAscending : LatestFrames → Type 0
IsAscending [] = Unit
IsAscending (a ∷ latest) = All (λ b. proj a < proj b) latest × IsAscending latest

above : (x n : ℕ) (l : LatestFrames) → All (λ b. x < proj b) l → Has n l → x < n
above x n [] all at = absurd at
above x n (b ∷ l) (lt, all) (inl e) = omega (arith, index-proj b n e)
above x n (b ∷ l) (lt, all) (inr at) = above x n l all at

not_first :
    (n : ℕ) (a : Option BlitHandle) (l : LatestFrames) → Has n (a ∷ l) → ¬ (proj a ≡ n) → Has n l
not_first n a l (inl e) ne = absurd (ne (index-proj a n e))
not_first n a l (inr at) ne = at

-- No number of an ascending set is below its first.
at_least :
    (n : ℕ) (a : Option BlitHandle) (l : LatestFrames)
    → All (λ b. proj a < proj b) l
    → Has n (a ∷ l)
    → proj a ≤ n
at_least n a l up (inl e) = omega (arith, index-proj a n e)
at_least n a l up (inr at) = omega (arith, above (proj a) n l up at)

both :
    (n : ℕ) (a b : Option BlitHandle) (latest bs : LatestFrames)
    → All (λ c. proj a < proj c) latest
    → ((c : LatestFrames)
        → IsAscending c
        → Has n latest
        → Has n c
        → Has n (set_intersection latest c))
    → IsAscending bs
    → proj a ≡ proj b
    → Has n (a ∷ latest)
    → Has n (b ∷ bs)
    → Has n (a ∷ set_intersection latest bs)
both n a b latest bs up ih asc same (inl e) with_common = inl e
both n a b latest bs up ih asc same (inr at) with_common =
    let lt = above (proj a) n latest up at in
    inr (ih bs asc at (not_first n b bs with_common (λ e. omega (arith, e))))

intersect_at-Has :
    (n : ℕ) (a : Option BlitHandle) (latest common : LatestFrames)
    → All (λ b. proj a < proj b) latest
    → ((c : LatestFrames)
        → IsAscending c
        → Has n latest
        → Has n c
        → Has n (set_intersection latest c))
    → IsAscending common
    → Has n (a ∷ latest)
    → Has n common
    → Has n (intersect_at (set_intersection latest) a common)
intersect_at-Has n a latest [] up ih asc at with_common = with_common
intersect_at-Has n a latest (b ∷ bs) up ih (bup, asc) at with_common =
    elim (Bool-cases (ltb (proj a) (proj b))) [
      | inl lt ↦ rw lt (
          ih (b ∷ bs) (bup, asc)
            (not_first n a latest at (λ e. ground (arith, lt, at_least n b bs bup with_common)))
            with_common)
      | inr ge ↦ elim (Bool-cases (ltb (proj b) (proj a))) [
        | inl gt ↦
            rw (ge, gt)
              (intersect_at-Has n a latest bs up ih asc at
                (not_first n b bs with_common (λ e. ground (arith, gt, at_least n a latest up at))))
        | inr le ↦
            rw (ge, le) (both n a b latest bs up ih asc (ground (arith, ge, le)) at with_common)
      ]
    ]

-- A number that is in both ranges is in the result.
pub intersection-Has :
    (n : ℕ) (latest common : LatestFrames)
    → IsAscending latest
    → IsAscending common
    → Has n latest
    → Has n common
    → Has n (set_intersection latest common)
intersection-Has n [] common up asc at with_common = at
intersection-Has n (a ∷ latest) common (up, rest) asc at with_common =
    intersect_at-Has n a latest common up
      (λ c. λ cup here there. intersection-Has n latest c rest cup here there) asc at with_common

any : (l : LatestFrames) → All (λ _. Unit {0}) l
any [] = tt
any (a ∷ l) = (tt, any l)

intersect_at-IsAscending :
    (a : Option BlitHandle) (latest common : LatestFrames)
    → All (λ b. proj a < proj b) latest
    → ((c : LatestFrames) → IsAscending (set_intersection latest c))
    → IsAscending (intersect_at (set_intersection latest) a common)
intersect_at-IsAscending a latest [] up ih = tt
intersect_at-IsAscending a latest (b ∷ bs) up ih = elim (Bool-cases (ltb (proj a) (proj b))) [
  | inl lt ↦ rw lt (ih (b ∷ bs))
  | inr ge ↦ elim (Bool-cases (ltb (proj b) (proj a))) [
    | inl gt ↦ rw (ge, gt) (intersect_at-IsAscending a latest bs up ih)
    | inr le ↦
        rw (ge, le)
          (
            All-intersection (λ c. proj a < proj c) (λ _. Unit) (λ c. proj a < proj c) latest bs up
                (any bs) (λ c d lt _ _. lt),
            ih bs,
          )
  ]
]

pub intersection-IsAscending :
    (latest common : LatestFrames)
    → IsAscending latest
    → IsAscending (set_intersection latest common)
intersection-IsAscending [] common asc = tt
intersection-IsAscending (a ∷ latest) common (up, asc) =
    intersect_at-IsAscending a latest common up (λ c. intersection-IsAscending latest c asc)
