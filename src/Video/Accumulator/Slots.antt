-- ===== src/Video/Accumulator/Slots.antt =====
-- The slots of a shard set against the shards of the frame that they are filled from.
use wi_vrn.Common.{
  ℕ, zero, suc, ◌+◌, ◌-◌, ◌≤◌, ◌≡◌, ◌≢◌, refl, ap, ◌∙◌, List, [], ◌∷◌, Option, none, some, true,
  leb, if◌then◌else◌, Bool-cases, inl, inr, length, set, replicate, arith,
}
use wi_vrn.Video.Shard.{Shard, IsTrain, ends_frame}
use wi_vrn.Video.Accumulator.{ShardSet, insert, resize, sequence, join, last, is_free, ends_well}

-- A write that grows the list with empty slots where it has to.
abbrev pub put : ℕ → Shard → List (Option Shard) → List (Option Shard)
put zero s [] = some s ∷ []
put zero s (o ∷ slots) = some s ∷ slots
put (suc i) s [] = none ∷ put i s []
put (suc i) s (o ∷ slots) = o ∷ put i s slots

set-replicate : (i : ℕ) (s : Shard) → set (replicate (suc i) none) i (some s) ≡ put i s []
set-replicate zero s = refl
set-replicate (suc i) s = ap (◌∷◌ none) (set-replicate i s)

abbrev grow : List (Option Shard) → ℕ → List (Option Shard)
grow slots i = if leb (length slots) i then resize (i + 1) slots else slots

grow-suc :
    (o : Option Shard) (slots : List (Option Shard)) (i : ℕ)
    → grow (o ∷ slots) (suc i) ≡ o ∷ grow slots i
grow-suc o slots i =
    let e : suc i + 1 - suc (length slots) ≡ i + 1 - length slots = omega arith in
    let l : leb (suc (length slots)) (suc i) ≡ leb (length slots) i = ground arith in
    rw (e, l) (elim (Bool-cases (leb (length slots) i)) [ inl t ↦ rw t | inr t ↦ rw t ])

set-grow :
    (i : ℕ) (s : Shard) (slots : List (Option Shard))
    → set (grow slots i) i (some s) ≡ put i s slots
set-grow i s [] =
    let e : i + 1 - 0 ≡ suc i = omega arith in
    let t : leb 0 i ≡ true = ground arith in rw (t, e) (set-replicate i s)
set-grow zero s (o ∷ slots) = ground arith
set-grow (suc i) s (o ∷ slots) = rw (grow-suc o slots i) (ap (◌∷◌ o) (set-grow i s slots))

pub insert-slots :
    (now : ℕ) (s : Shard) (set : ShardSet) → (insert now s set).slots ≡ put s.shard_idx s set.slots
unfolding insert
insert-slots now s set = set-grow s.shard_idx s set.slots

-- Every filled slot holds the frame's shard of that place.
abbrev pub Agrees : List (Option Shard) → List Shard → Type 0
Agrees [] ss = Unit
Agrees (o ∷ slots) [] = ⊥
Agrees (none ∷ slots) (s ∷ ss) = Agrees slots ss
Agrees (some t ∷ slots) (s ∷ ss) = (t ≡ s) × Agrees slots ss

-- `s` stands at place `i`.
abbrev pub IsAt : ℕ → Shard → List Shard → Type 0
IsAt i s [] = ⊥
IsAt zero s (t ∷ ss) = s ≡ t
IsAt (suc i) s (t ∷ ss) = IsAt i s ss

pub put-Agrees :
    (i : ℕ) (s : Shard) (slots : List (Option Shard)) (ss : List Shard)
    → IsAt i s ss
    → Agrees slots ss
    → Agrees (put i s slots) ss
put-Agrees i s slots [] at h = absurd at
put-Agrees zero s [] (t ∷ ss) at h = (at, tt)
put-Agrees zero s (none ∷ slots) (t ∷ ss) at h = (at, h)
put-Agrees zero s (some u ∷ slots) (t ∷ ss) at h = (at, h.1)
put-Agrees (suc i) s [] (t ∷ ss) at h = put-Agrees i s [] ss at tt
put-Agrees (suc i) s (none ∷ slots) (t ∷ ss) at h = put-Agrees i s slots ss at h
put-Agrees (suc i) s (some u ∷ slots) (t ∷ ss) at h = (h.0, put-Agrees i s slots ss at h.1)

abbrev pub filled : List (Option Shard) → ℕ
filled [] = 0
filled (none ∷ slots) = filled slots
filled (some s ∷ slots) = suc (filled slots)

pub filled-put :
    (i : ℕ) (s : Shard) (slots : List (Option Shard))
    → is_free slots i ≡ true
    → filled (put i s slots) ≡ suc (filled slots)
filled-put zero s [] h = refl
filled-put zero s (none ∷ slots) h = refl
filled-put zero s (some t ∷ slots) h = cc
filled-put (suc i) s [] h = filled-put i s [] refl
filled-put (suc i) s (none ∷ slots) h = filled-put i s slots h
filled-put (suc i) s (some t ∷ slots) h = ap suc (filled-put i s slots h)

pub is_free-put_ne :
    (i j : ℕ) (s : Shard) (slots : List (Option Shard))
    → i ≢ j
    → is_free slots j ≡ true
    → is_free (put i s slots) j ≡ true
is_free-put_ne zero zero s slots n h = absurd (n refl)
is_free-put_ne zero (suc j) s [] n h = refl
is_free-put_ne zero (suc j) s (o ∷ slots) n h = h
is_free-put_ne (suc i) zero s [] n h = refl
is_free-put_ne (suc i) zero s (o ∷ slots) n h = h
is_free-put_ne (suc i) (suc j) s [] n h = is_free-put_ne i j s [] (λ e. n (ap suc e)) refl
is_free-put_ne (suc i) (suc j) s (o ∷ slots) n h = is_free-put_ne i j s slots (λ e. n (ap suc e)) h

pub filled-le :
    (slots : List (Option Shard)) (ss : List Shard) → Agrees slots ss → filled slots ≤ length ss
filled-le [] ss h = omega arith
filled-le (o ∷ slots) [] h = absurd h
filled-le (none ∷ slots) (s ∷ ss) h = omega (arith, filled-le slots ss h)
filled-le (some t ∷ slots) (s ∷ ss) h = omega (arith, filled-le slots ss h.1)

-- With as many filled slots as the frame has shards, the slots are the frame.
pub sequence-filled :
    (slots : List (Option Shard)) (ss : List Shard)
    → Agrees slots ss
    → filled slots ≡ length ss
    → sequence slots ≡ some ss
sequence-filled [] [] h e = refl
sequence-filled [] (s ∷ ss) h e = absurd (omega arith)
sequence-filled (o ∷ slots) [] h e = absurd h
sequence-filled (none ∷ slots) (s ∷ ss) h e = absurd (omega (arith, filled-le slots ss h))
sequence-filled (some t ∷ slots) (s ∷ ss) h e =
    rw (sequence-filled slots ss h.1 (omega arith)) (ap (λ u. some (u ∷ ss)) h.0)

sequence-cons :
    (frame start : ℕ) (t s : Shard) (ss : List Shard) (o : Option (List Shard))
    → t ≡ s
    → IsTrain frame true start (s ∷ ss)
    → (ends_well o ≡ true → o ≡ some ss)
    → ends_well (join t o) ≡ true
    → join t o ≡ some (s ∷ ss)
sequence-cons frame start t s ss none e train rec ends = cc
sequence-cons frame start t s [] (some []) e train rec ends = ap (λ u. some (u ∷ [])) e
sequence-cons frame start t s (u ∷ us) (some []) e train rec ends = cc (train.2, ends)
sequence-cons frame start t s ss (some (u ∷ us)) e train rec ends = cc (rec ends, e)

-- Slots that could be submitted are the whole frame.
pub sequence-IsTrain :
    (frame start : ℕ) (slots : List (Option Shard)) (ss : List Shard)
    → Agrees slots ss
    → IsTrain frame true start ss
    → ends_well (sequence slots) ≡ true
    → sequence slots ≡ some ss
sequence-IsTrain frame start [] ss h t e = cc
sequence-IsTrain frame start (o ∷ slots) [] h t e = absurd h
sequence-IsTrain frame start (none ∷ slots) (s ∷ ss) h t e = cc
sequence-IsTrain frame start (some u ∷ slots) (s ∷ ss) h t e =
    sequence-cons frame start u s ss (sequence slots) h.0 t
      (sequence-IsTrain frame (start + 1) slots ss h.1 t.3) e

-- The last shard of a frame is marked.
pub train-ends_well :
    (frame start : ℕ) (s : Shard) (ss : List Shard)
    → IsTrain frame true start (s ∷ ss)
    → ends_frame (last s ss) ≡ true
train-ends_well frame start s [] t = t.2
train-ends_well frame start s (u ∷ us) t = train-ends_well frame (start + 1) u us t.3

pub filled-sequence :
    (slots : List (Option Shard)) (ss : List Shard)
    → sequence slots ≡ some ss
    → filled slots ≡ length ss
filled-sequence [] [] e = refl
filled-sequence [] (s ∷ ss) e = cc
filled-sequence (none ∷ slots) ss e = cc
filled-sequence (some t ∷ slots) ss e = go (sequence slots) refl e (filled-sequence slots)
  where
    go :
        (o : Option (List Shard))
        → sequence slots ≡ o
        → join t o ≡ some ss
        → ((us : List Shard) → sequence slots ≡ some us → filled slots ≡ length us)
        → suc (filled slots) ≡ length ss
    go none p q rec = cc
    go (some us) p q rec =
        ap suc (rec us p)
        ∙ ap (λ (o : Option (List Shard)). elim o [ none ↦ 0 | some ts ↦ length ts ]) q
