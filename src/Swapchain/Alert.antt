-- ===== src/Swapchain/Alert.antt =====
-- What an encoder thread of server/driver/wivrn_comp_target.cpp has seen before it waits.
use mathlib.Core.Path.{subst}
use wi_vrn.Common.{
  ℕ, suc, ◌<◌, ◌≤◌, ◌≡◌, ◌≢◌, inl, inr, true, Option, none, some, List, arith, ltb, Bool-cases,
}
use wi_vrn.Swapchain.{Item, image_count, has_status_bit, Compositor, EncoderThread, look}

-- A thread has its bit in the image, and the image a time to be shown at.
abbrev pub IsPending : Item → ℕ → Type 0
IsPending item thread = (has_status_bit item.status thread ≡ true) × (0 < item.display_time)

-- The compositor presents the image and has not counted `present_gen` up yet.
abbrev pub IsAnnouncing : Compositor → ℕ → Type 0
IsAnnouncing Compositor.idle k = ⊥
IsAnnouncing (Compositor.holding index) k = ⊥
IsAnnouncing (Compositor.marked index) k = index ≡ k
IsAnnouncing (Compositor.described index) k = index ≡ k

-- A thread that loaded `gen` and passed over the first `n` images.
abbrev pub HasSeen : (ℕ → Item) → ℕ → Compositor → ℕ → ℕ → ℕ → Type 0
HasSeen images present_gen c thread gen n =
    (gen ≤ present_gen)
    × (gen ≡ present_gen → (k : ℕ) → k < n → IsPending (images k) thread → IsAnnouncing c k)

abbrev pub IsAlert : (ℕ → Item) → ℕ → Compositor → ℕ → EncoderThread → Type 0
IsAlert images g c j EncoderThread.starting = Unit
IsAlert images g c j (EncoderThread.scanning gen i none indices) = HasSeen images g c j gen i
IsAlert images g c j (EncoderThread.scanning gen i (some p) indices) = Unit
IsAlert images g c j (EncoderThread.waiting gen) = HasSeen images g c j gen image_count
IsAlert images g c j (EncoderThread.fencing p indices) = Unit
IsAlert images g c j (EncoderThread.clearing p indices) = Unit
IsAlert images g c j (EncoderThread.encoding p) = Unit
IsAlert images g c j EncoderThread.stopped = Unit

-- The images and the compositor change, and no thread has a reason to wake up that it had not.
abbrev pub IsQuiet : (images images' : ℕ → Item) (c c' : Compositor) → Type 0
IsQuiet images images' c c' =
    (j k : ℕ)
    → IsPending (images' k) j
    → (IsPending (images k) j → IsAnnouncing c k)
    → IsAnnouncing c' k

pub IsAlert-quiet :
    (images images' : ℕ → Item) (g : ℕ) (c c' : Compositor) (j : ℕ) (t : EncoderThread)
    → IsQuiet images images' c c'
    → IsAlert images g c j t
    → IsAlert images' g c' j t
IsAlert-quiet images images' g c c' j EncoderThread.starting q a = tt
IsAlert-quiet images images' g c c' j (EncoderThread.scanning gen i none indices) q (le, seen) =
    (le, λ e k lt p. q j k p (seen e k lt))
IsAlert-quiet images images' g c c' j (EncoderThread.scanning gen i (some p) indices) q a = tt
IsAlert-quiet images images' g c c' j (EncoderThread.waiting gen) q (le, seen) =
    (le, λ e k lt p. q j k p (seen e k lt))
IsAlert-quiet images images' g c c' j (EncoderThread.fencing p indices) q a = tt
IsAlert-quiet images images' g c c' j (EncoderThread.clearing p indices) q a = tt
IsAlert-quiet images images' g c c' j (EncoderThread.encoding p) q a = tt
IsAlert-quiet images images' g c c' j EncoderThread.stopped q a = tt

-- Whoever loaded `present_gen` before it is counted up loaded another value.
pub IsAlert-announce :
    (images : ℕ → Item) (g : ℕ) (c c' : Compositor) (j : ℕ) (t : EncoderThread)
    → IsAlert images g c j t
    → IsAlert images (suc g) c' j t
IsAlert-announce images g c c' j EncoderThread.starting a = tt
IsAlert-announce images g c c' j (EncoderThread.scanning gen i none indices) (le, seen) =
    (omega arith, λ e k lt p. absurd (omega arith))
IsAlert-announce images g c c' j (EncoderThread.scanning gen i (some p) indices) a = tt
IsAlert-announce images g c c' j (EncoderThread.waiting gen) (le, seen) =
    (omega arith, λ e k lt p. absurd (omega arith))
IsAlert-announce images g c c' j (EncoderThread.fencing p indices) a = tt
IsAlert-announce images g c c' j (EncoderThread.clearing p indices) a = tt
IsAlert-announce images g c c' j (EncoderThread.encoding p) a = tt
IsAlert-announce images g c c' j EncoderThread.stopped a = tt

pub below_next : (k i : ℕ) → k < suc i → k ≢ i → k < i
below_next k i lt ne = ground arith

pub look-IsAlert :
    (images : ℕ → Item) (g : ℕ) (c : Compositor) (j gen i : ℕ) (p : Option ℕ) (indices : List ℕ)
    → IsAlert images g c j (EncoderThread.scanning gen i p indices)
    → IsAlert images g c j (look j gen i (images i) p indices)
look-IsAlert images g c j gen i (some p) indices a =
    elim (Bool-cases (has_status_bit (images i).status j)) [
      | inl set ↦ elim (Bool-cases (ltb 0 (images i).display_time)) [
        | inl later ↦ rw (set, later) tt
        | inr never ↦ rw (set, never) tt
      ]
      | inr unset ↦ rw unset tt
    ]
look-IsAlert images g c j gen i none indices (le, seen) =
    elim (Bool-cases (has_status_bit (images i).status j)) [
      | inl set ↦ elim (Bool-cases (ltb 0 (images i).display_time)) [
        | inl later ↦ rw (set, later) tt
        | inr never ↦
            rw (set, never)
              (
                le,
                λ e k lt (b, time).
                    seen e k
                      (below_next k i lt (λ same.
                        ground (arith, never, subst (λ k. 0 < (images k).display_time) same time)))
                      (b, time),
              )
      ]
      | inr unset ↦ rw unset (
        le,
        λ e k lt (b, time).
            seen e k
              (below_next k i lt (λ same.
                ground
                  (arith, unset, subst (λ k. has_status_bit (images k).status j ≡ true) same b)))
              (b, time),
      )
    ]
