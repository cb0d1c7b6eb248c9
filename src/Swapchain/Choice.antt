-- ===== src/Swapchain/Choice.antt =====
-- Which image an encoder thread of server/driver/wivrn_comp_target.cpp presents.
use wi_vrn.Common.{
  ℕ, zero, suc, ◌+◌, ◌≡◌, inl, inr, refl, ap, ◌∙◌, Bool, ◌&&◌, Option, none, some, List, [], ◌∷◌,
  ◌++◌, arith, ltb, if◌then◌else◌, Bool-cases,
}
use wi_vrn.Swapchain.{Item, has_status_bit, EncoderThread, look}

-- The rest of the loop over `n` more images, which nobody changes meanwhile.
abbrev pub scan : ℕ → (ℕ → Item) → ℕ → EncoderThread → EncoderThread
scan thread images zero t = t
scan thread images (suc n) (EncoderThread.scanning gen i presenting_index indices) =
    scan thread images n (look thread gen i (images i) presenting_index indices)
scan thread images (suc n) t = t

-- The thread has its bit in the image, and the image a time to be shown at.
abbrev pub is_pending : ℕ → Item → Bool
is_pending thread item = has_status_bit item.status thread && ltb 0 item.display_time

-- Of the first `n` images, the last pending one.
abbrev pub last_pending : ℕ → (ℕ → Item) → ℕ → Option ℕ
last_pending thread images zero = none
last_pending thread images (suc n) =
    if is_pending thread (images n) then some n else last_pending thread images n

-- Of the first `n` images, those with the thread's bit.
abbrev pub with_bit : ℕ → (ℕ → Item) → ℕ → List ℕ
with_bit thread images zero = []
with_bit thread images (suc n) =
    if has_status_bit (images n).status thread
    then with_bit thread images n ++ (n ∷ [])
    else with_bit thread images n

abbrev seen : ℕ → (ℕ → Item) → ℕ → ℕ → EncoderThread
seen thread images gen i =
    EncoderThread.scanning gen i (last_pending thread images i) (with_bit thread images i)

look-seen :
    (thread : ℕ) (images : ℕ → Item) (gen i : ℕ)
    → look thread gen i (images i) (last_pending thread images i) (with_bit thread images i)
      ≡ seen thread images gen (suc i)
look-seen thread images gen i = elim (Bool-cases (has_status_bit (images i).status thread)) [
  | inl b ↦ elim (Bool-cases (ltb 0 (images i).display_time)) [
    | inl later ↦ rw (b, later) refl
    | inr never ↦ rw (b, never) refl
  ]
  | inr b ↦ rw b refl
]

scan_from :
    (thread : ℕ) (images : ℕ → Item) (gen i n : ℕ)
    → scan thread images n (seen thread images gen i) ≡ seen thread images gen (i + n)
scan_from thread images gen i zero = ap (seen thread images gen) (omega arith)
scan_from thread images gen i (suc n) =
    ap (scan thread images n) (look-seen thread images gen i)
    ∙ scan_from thread images gen (suc i) n
    ∙ ap (seen thread images gen) (omega arith)

-- On images that nobody changes meanwhile, an encoder thread collects those that have its bit, in
-- their order, and presents the one with the highest index of those that also have a time to be
-- shown at, whatever their times are.
pub scan-last :
    (thread : ℕ) (images : ℕ → Item) (gen n : ℕ)
    → scan thread images n (EncoderThread.scanning gen 0 none [])
      ≡ EncoderThread.scanning gen n (last_pending thread images n) (with_bit thread images n)
scan-last thread images gen n =
    scan_from thread images gen 0 n ∙ ap (seen thread images gen) (omega arith)
