-- ===== src/Swapchain/Held.antt =====
-- The images that an encoder thread of server/driver/wivrn_comp_target.cpp holds, and their bits.
use wi_vrn.Common.{
  ℕ, ◌<◌, ◌≡◌, ◌⊎◌, inl, inr, refl, ap, ◌∙◌, true, false, List, [], ◌∷◌, ◌++◌, arith, ◌==◌,
  Bool-cases, ==_iff, update,
}
use wi_vrn.Swapchain.{Item, has_status_bit, Compositor, EncoderThread, Swapchain}
use wi_vrn.Swapchain.Bits.{has}

-- The images whose bits an encoder thread has seen and not cleared yet.
abbrev pub indices_of : EncoderThread → List ℕ
indices_of EncoderThread.starting = []
indices_of (EncoderThread.scanning gen i presenting_index indices) = indices
indices_of (EncoderThread.waiting gen) = []
indices_of (EncoderThread.fencing presenting_index indices) = indices
indices_of (EncoderThread.clearing presenting_index indices) = indices
indices_of (EncoderThread.encoding presenting_index) = []
indices_of EncoderThread.stopped = []

abbrev pub IsDistinct : List ℕ → Type 0
IsDistinct [] = Unit
IsDistinct (i ∷ is) = (has is i ≡ false) × IsDistinct is

abbrev pub IsBelow : ℕ → List ℕ → Type 0
IsBelow n is = (k : ℕ) → has is k ≡ true → k < n

abbrev pub IsOrderly : EncoderThread → Type 0
IsOrderly EncoderThread.starting = Unit
IsOrderly (EncoderThread.scanning gen i p indices) = IsDistinct indices × IsBelow i indices
IsOrderly (EncoderThread.waiting gen) = Unit
IsOrderly (EncoderThread.fencing p indices) = IsDistinct indices
IsOrderly (EncoderThread.clearing p indices) = IsDistinct indices
IsOrderly (EncoderThread.encoding p) = Unit
IsOrderly EncoderThread.stopped = Unit

abbrev pub HasBits : (ℕ → Item) → ℕ → List ℕ → Type 0
HasBits images thread is =
    (k : ℕ) → has is k ≡ true → has_status_bit (images k).status thread ≡ true

abbrev pub HasNoBits : (ℕ → Item) → Compositor → Type 0
HasNoBits images Compositor.idle = Unit
HasNoBits images (Compositor.holding index) =
    (thread : ℕ) → has_status_bit (images index).status thread ≡ false
HasNoBits images (Compositor.marked index) = Unit
HasNoBits images (Compositor.described index) = Unit

pub record Inv (s : Swapchain) : Type 0 where
  pub orderly : (thread : ℕ) → IsOrderly (s.encoder_threads thread)
  pub bits : (thread : ℕ) → HasBits s.images thread (indices_of (s.encoder_threads thread))
  pub no_bits : HasNoBits s.images s.compositor

pub has-snoc : (is : List ℕ) (i k : ℕ) → has (is ++ (i ∷ [])) k ≡ true → (has is k ≡ true) ⊎ (i ≡ k)
has-snoc [] i k h = ground arith
has-snoc (j ∷ js) i k h = ground (arith, has-snoc js i k)

pub IsDistinct-snoc :
    (is : List ℕ) (i : ℕ) → IsDistinct is → has is i ≡ false → IsDistinct (is ++ (i ∷ []))
IsDistinct-snoc [] i d h = (refl, tt)
IsDistinct-snoc (j ∷ js) i (n, d) h =
    (ground (arith, has-snoc js i j), IsDistinct-snoc js i d (ground arith))

pub HasBits-update :
    (images : ℕ → Item) (index : ℕ) (item : Item) (thread : ℕ) (is : List ℕ)
    → (has_status_bit (images index).status thread ≡ true
        → has_status_bit item.status thread ≡ true)
    → HasBits images thread is
    → HasBits (update images index item) thread is
HasBits-update images index item thread is keep bits k h = elim (Bool-cases (index == k)) [
  | inl e ↦
      rw e
        (keep (ap (λ x. has_status_bit (images x).status thread) ((==_iff index k).0 e) ∙ bits k h))
  | inr e ↦ rw e (bits k h)
]
