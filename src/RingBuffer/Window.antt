-- ===== src/RingBuffer/Window.antt =====
-- The items between the two indices of the ring of common/utils/ring_buffer.h.
use native.Mathlib.Nat.{mod-eq_of_lt, mod_self}
use wi_vrn.Common.{
  update, update-other, ℕ, ◌+◌, ◌%◌, ◌<◌, ◌≡◌, ◌≢◌, ◌⊎◌, inl, inr, refl, ap, ◌∙◌, List, [], ◌∷◌,
  ◌++◌, arith, length,
}
use wi_vrn.RingBuffer.{next}

last : (capacity i : ℕ) → i < capacity → (i + 1 < capacity) ⊎ (i + 1 ≡ capacity)
last capacity i h = ground arith

pub next_cases :
    (capacity i : ℕ)
    → i < capacity
    → ((i + 1 < capacity) × (next capacity i ≡ i + 1))
      ⊎ ((i + 1 ≡ capacity) × (next capacity i ≡ 0))
next_cases capacity i h = elim (last capacity i h) [
  | inl lt ↦ inl (lt, mod-eq_of_lt lt)
  | inr e ↦ inr (e, ap (λ n. n % capacity) e ∙ mod_self capacity)
]

module _ (capacity : ℕ) where
  pub next_below : (i : ℕ) → i < capacity → next capacity i < capacity
  next_below i h = ground (arith, next_cases capacity i h)

  pub next_injective :
      (i j : ℕ) → i < capacity → j < capacity → next capacity i ≡ next capacity j → i ≡ j
  next_injective i j hi hj e = ground (arith, next_cases capacity i hi, next_cases capacity j hj)

module _ {A : Type 0} (capacity : ℕ) where
  -- `q` are the items behind the index `r`, up to and with the one at the index `w`.
  abbrev pub Window : (ℕ → A) → ℕ → List A → ℕ → Type 0
  Window c r [] w = r ≡ w
  Window c r (x ∷ q) w = (c (next capacity r) ≡ x) × Window c (next capacity r) q w

  pub position :
      (c : ℕ → A) (r w : ℕ) (q : List A)
      → r < capacity
      → length q < capacity
      → Window c r q w
      → (w ≡ r + length q) ⊎ (w + capacity ≡ r + length q)
  position c r w [] hr hq win = inl (omega (arith, win))
  position c r w (x ∷ q) hr hq (_, win) =
      let rest = position c (next capacity r) w q (next_below capacity r hr) (omega arith) win in
      ground (arith, next_cases capacity r hr, rest)

  pub Window-snoc :
      (c : ℕ → A) (r w : ℕ) (q : List A) (x : A)
      → Window c r q w
      → c (next capacity w) ≡ x
      → Window c r (q ++ (x ∷ [])) (next capacity w)
  Window-snoc c r w [] x win e = (rw win e, rw win refl)
  Window-snoc c r w (y ∷ q) x (h, win) e = (h, Window-snoc c (next capacity r) w q x win e)

  -- The reader's next item stands elsewhere than the writer's.
  pub apart :
      (c : ℕ → A) (r w : ℕ) (x : A) (q : List A)
      → r < capacity
      → w < capacity
      → length (x ∷ q) < capacity
      → Window c r (x ∷ q) w
      → next capacity w ≢ next capacity r
  apart c r w x q hr hw hq win e =
      let same = next_injective capacity w r hw hr e in
      omega (arith, same, position c r w (x ∷ q) hr hq win)

  pub Window-update :
      (c : ℕ → A) (r w : ℕ) (q : List A) (t : A)
      → r < capacity
      → w < capacity
      → length q < capacity
      → Window c r q w
      → Window (update c (next capacity w) t) r q w
  Window-update c r w [] t hr hw hq win = win
  Window-update c r w (x ∷ q) t hr hw hq (h, win) = (
    update-other c (next capacity w) (next capacity r) t (apart c r w x q hr hw hq (h, win)) ∙ h,
    Window-update c (next capacity r) w q t (next_below capacity r hr) hw (omega arith) win,
  )

  -- The index behind the last item is not the reader's: one more item leaves a free slot.
  pub has_room :
      (c : ℕ → A) (r w : ℕ) (q : List A)
      → r < capacity
      → length q < capacity
      → Window c r q w
      → w < capacity
      → next capacity w ≢ r
      → length q + 1 < capacity
  has_room c r w q hr hq win hw ne =
      ground (arith, position c r w q hr hq win, next_cases capacity w hw)
