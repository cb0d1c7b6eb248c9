-- ===== src/Swapchain/Bits.antt =====
-- The bits of an image's status, of server/driver/wivrn_comp_target.cpp.
use wi_vrn.Common.{
  ℕ, zero, suc, ◌+◌, ◌-◌, ◌^◌, ◌<◌, ◌≡◌, ◌≢◌, ◌↔◌, inl, inr, refl, sym, ap, ◌∙◌, Bool, true, false,
  List, [], ◌∷◌, arith, ltb, ◌==◌, ◌&&◌, if◌then◌else◌, Bool-cases, all_below, all_below_sound,
  ltb→lt, lt→ltb, replicate, ==_iff,
}
use wi_vrn.Swapchain.{
  Status, image_free, image_acquired, image_presented, value, is_free, has_bit, clear_bit,
  has_status_bit, clear_status_bit,
}

pub has_bit-replicate : (n i : ℕ) → has_bit (replicate n true) i ≡ ltb i n
has_bit-replicate zero zero = refl
has_bit-replicate zero (suc i) = ground arith
has_bit-replicate (suc n) zero = ground arith
has_bit-replicate (suc n) (suc i) = has_bit-replicate n i ∙ ground arith

pub no_bit-replicate : (n i : ℕ) → has_bit (replicate n false) i ≡ false
no_bit-replicate zero i = refl
no_bit-replicate (suc n) zero = refl
no_bit-replicate (suc n) (suc i) = no_bit-replicate n i

-- No bit of a free status is set.
pub no_bit-free : (status : Status) (i : ℕ) → is_free status ≡ true → has_bit status i ≡ false
no_bit-free [] i h = refl
no_bit-free (false ∷ bs) zero h = refl
no_bit-free (false ∷ bs) (suc i) h = no_bit-free bs i h
no_bit-free (true ∷ bs) i h = absurd (ground arith)

pub has_bit-clear-same : (status : Status) (i : ℕ) → has_bit (clear_bit status i) i ≡ false
has_bit-clear-same [] i = refl
has_bit-clear-same (b ∷ bs) zero = refl
has_bit-clear-same (b ∷ bs) (suc i) = has_bit-clear-same bs i

pub has_bit-clear-other :
    (status : Status) (i j : ℕ) → i ≢ j → has_bit (clear_bit status i) j ≡ has_bit status j
has_bit-clear-other [] i j h = refl
has_bit-clear-other (b ∷ bs) zero zero h = absurd (h refl)
has_bit-clear-other (b ∷ bs) zero (suc j) h = refl
has_bit-clear-other (b ∷ bs) (suc i) zero h = refl
has_bit-clear-other (b ∷ bs) (suc i) (suc j) h = has_bit-clear-other bs i j (λ e. h (ap suc e))

pub clear-keeps_false :
    (status : Status) (i j : ℕ) → has_bit status j ≡ false → has_bit (clear_bit status i) j ≡ false
clear-keeps_false [] i j h = refl
clear-keeps_false (b ∷ bs) zero zero h = refl
clear-keeps_false (b ∷ bs) zero (suc j) h = h
clear-keeps_false (b ∷ bs) (suc i) zero h = h
clear-keeps_false (b ∷ bs) (suc i) (suc j) h = clear-keeps_false bs i j h

-- A status is free exactly if no bit is set.
pub is_free_of_no_bit :
    (status : Status) → ((i : ℕ) → has_bit status i ≡ false) → is_free status ≡ true
is_free_of_no_bit [] h = refl
is_free_of_no_bit (false ∷ bs) h = is_free_of_no_bit bs (λ i. h (suc i))
is_free_of_no_bit (true ∷ bs) h = absurd (ground (arith, h 0))

-- Encoder threads clear their bits one after another.
abbrev pub clear_all : Status → List ℕ → Status
clear_all status [] = status
clear_all status (thread ∷ threads) = clear_all (clear_bit status (suc thread)) threads

abbrev pub has : List ℕ → ℕ → Bool
has [] i = false
has (j ∷ js) i = if j == i then true else has js i

has_bit-clear :
    (status : Status) (j i : ℕ)
    → has_bit (clear_bit status (suc j)) (suc i)
      ≡ (if j == i then false else has_bit status (suc i))
has_bit-clear status j i = elim (Bool-cases (j == i)) [
  | inl e ↦ rw e (
      ap (λ k. has_bit (clear_bit status (suc j)) (suc k)) (sym ((==_iff j i).0 e))
      ∙ has_bit-clear-same status (suc j))
  | inr n ↦ rw n (has_bit-clear-other status (suc j) (suc i) (λ e. ground (arith, e)))
]

has_bit-clear_all :
    (status : Status) (threads : List ℕ) (i : ℕ)
    → has_bit (clear_all status threads) (suc i)
      ≡ (if has threads i then false else has_bit status (suc i))
has_bit-clear_all status [] i = refl
has_bit-clear_all status (j ∷ js) i =
    ground (arith, has_bit-clear_all (clear_bit status (suc j)) js i, has_bit-clear status j i)

value-zeros : (n : ℕ) → value (replicate n false) ≡ 0
value-zeros zero = refl
value-zeros (suc n) = omega (arith, value-zeros n)

value-ones : (n : ℕ) → value (replicate n true) + 1 ≡ 2 ^ n
value-ones zero = refl
value-ones (suc n) = omega (arith, value-ones n)

value-is_free : (status : Status) → (is_free status ≡ true) ↔ (value status ≡ 0)
value-is_free [] = ground arith
value-is_free (true ∷ bs) = ground arith
value-is_free (false ∷ bs) = ground (arith, value-is_free bs)

all_below-intro : (n : ℕ) (p : ℕ → Bool) → ((i : ℕ) → i < n → p i ≡ true) → all_below n p ≡ true
all_below-intro zero p h = refl
all_below-intro (suc n) p h =
    rw (h n (omega arith)) (all_below-intro n p (λ i lt. h i (omega arith)))

acquired_bit-clear_all :
    (status : Status) (threads : List ℕ) → has_bit (clear_all status threads) 0 ≡ has_bit status 0
acquired_bit-clear_all status [] = refl
acquired_bit-clear_all status (j ∷ js) =
    acquired_bit-clear_all (clear_bit status (suc j)) js
    ∙ has_bit-clear-other status (suc j) 0 (λ e. omega (arith, e))

one_of :
    (n : ℕ) (threads : List ℕ) (i : ℕ)
    → is_free (clear_all (image_presented n) threads) ≡ true
    → i < n
    → has threads i ≡ true
one_of n threads i free lt =
    let e = has_bit-clear_all (image_presented n) threads i in
    let none_set = no_bit-free (clear_all (image_presented n) threads) (suc i) free in
    let b = has_bit-replicate n i ∙ lt→ltb i n lt in
    elim (Bool-cases (has threads i)) [ inl h ↦ h | inr h ↦ ground (arith, e, none_set, b, h) ]

none_left :
    (n : ℕ) (threads : List ℕ)
    → all_below n (has threads) ≡ true
    → (i : ℕ) → has_bit (clear_all (image_presented n) threads) i ≡ false
none_left n threads all zero = acquired_bit-clear_all (image_presented n) threads
none_left n threads all (suc i) =
    let e = has_bit-clear_all (image_presented n) threads i in
    let b = has_bit-replicate n i in
    elim (Bool-cases (ltb i n)) [
      | inl lt ↦ ground (arith, e, all_below_sound n (has threads) i all (ltb→lt i n lt))
      | inr ge ↦ ground (arith, e, b, ge)
    ]

-- When the given encoder threads have cleared their bits in the status that `comp_wivrn_present`
-- stores, the image is free exactly if every one of the `n` threads is among them.
pub presented-clear_all :
    (n : ℕ) (threads : List ℕ)
    → (is_free (clear_all (image_presented n) threads) ≡ true) ↔ (all_below n (has threads) ≡ true)
presented-clear_all n threads = (
  λ free. all_below-intro n (has threads) (λ i lt. one_of n threads i free lt),
  λ all. is_free_of_no_bit (clear_all (image_presented n) threads) (none_left n threads all),
)

-- As numbers, the free status is 0, the acquired one is 1 and the presented one is 2^(n + 1) - 2;
-- no status but the free ones is 0.
pub status-value :
    (n : ℕ) (status : Status)
    → (value (image_free n) ≡ 0)
      × (value (image_acquired n) ≡ 1)
      × (value (image_presented n) ≡ 2 ^ suc n - 2)
      × ((is_free status ≡ true) ↔ (value status ≡ 0))
status-value n status = (
  value-zeros (suc n),
  omega (arith, value-zeros n),
  omega (arith, value-ones n),
  value-is_free status,
)

-- The bit of an encoder thread, as the mask has it.
pub has_status_bit-early :
    (status : Status) (thread : ℕ)
    → thread < 7
    → has_bit status (suc thread) ≡ true
    → has_status_bit status thread ≡ true
has_status_bit-early status thread early b = ground (arith, early, b)

pub bit_of_status :
    (status : Status) (thread : ℕ)
    → has_status_bit status thread ≡ true
    → has_bit status (suc thread) ≡ true
bit_of_status status thread b = ground (arith, b)

has_status_bit-none :
    (status : Status) (thread : ℕ)
    → has_bit status (suc thread) ≡ false
    → has_status_bit status thread ≡ false
has_status_bit-none status thread n = ground (arith, n)

pub no_status_bit-replicate :
    (b : Bool) (n thread : ℕ) → has_status_bit (b ∷ replicate n false) thread ≡ false
no_status_bit-replicate b n thread =
    has_status_bit-none (b ∷ replicate n false) thread (no_bit-replicate n thread)

pub no_status_bit-free :
    (status : Status) (thread : ℕ) → is_free status ≡ true → has_status_bit status thread ≡ false
no_status_bit-free status thread free =
    has_status_bit-none status thread (no_bit-free status (suc thread) free)

pub has_status_bit-clear-other :
    (status : Status) (i j : ℕ)
    → i ≢ j
    → has_status_bit (clear_status_bit status i) j ≡ has_status_bit status j
has_status_bit-clear-other status i j ne = elim (Bool-cases (ltb i 7)) [
  | inl early ↦ rw early (
      ap (λ b. ltb j 7 && b)
        (has_bit-clear-other status (suc i) (suc j) (λ e. ne (omega (arith, e)))))
  | inr late ↦ rw late refl
]

pub clear_status-keeps_false :
    (status : Status) (i j : ℕ)
    → has_status_bit status j ≡ false
    → has_status_bit (clear_status_bit status i) j ≡ false
clear_status-keeps_false status i j n = elim (Bool-cases (ltb i 7)) [
  | inr late ↦ rw late n
  | inl early ↦ rw early (elim (Bool-cases (ltb j 7)) [
    | inr far ↦ rw far refl
    | inl near ↦
        has_status_bit-none (clear_bit status (suc i)) j
          (clear-keeps_false status (suc i) (suc j) (ground (arith, n, near)))
  ])
]
