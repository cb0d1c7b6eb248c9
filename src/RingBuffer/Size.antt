-- ===== src/RingBuffer/Size.antt =====
-- `size` of the ring of common/utils/ring_buffer.h.
use native.Mathlib.Nat.{mod-eq_of_lt, add-mod_right}
use wi_vrn.Common.{ℕ, ◌+◌, ◌-◌, ◌%◌, ◌^◌, ◌<◌, ◌≤◌, ◌≡◌, ◌↔◌, ◌⊎◌, inl, inr, ap, ◌∙◌, arith, min}
use wi_vrn.RingBuffer.{next}
use wi_vrn.RingBuffer.Window.{next_cases}

wrapped : (k n : ℕ) → k ≡ n + 2 ^ 64 → n < 2 ^ 64 → k % 2 ^ 64 ≡ n
wrapped k n h lt = ap (λ m. m % 2 ^ 64) h ∙ add-mod_right n (2 ^ 64) ∙ mod-eq_of_lt lt

-- The size between two indices that are `n` slots apart.
pub distance :
    (capacity r w n : ℕ)
    → r < capacity
    → w < capacity
    → n < capacity
    → capacity ≤ 2 ^ 63
    → (w ≡ r + n) ⊎ (w + capacity ≡ r + n)
    → min ((w + 2 ^ 64 - r) % 2 ^ 64) ((capacity + w + 2 ^ 64 - r) % 2 ^ 64) ≡ n
distance capacity r w n hr hw hn bound (inl at) = omega (
  arith,
  wrapped (w + 2 ^ 64 - r) n (omega arith) (omega arith),
  wrapped (capacity + w + 2 ^ 64 - r) (capacity + n) (omega arith) (omega arith),
)
distance capacity r w n hr hw hn bound (inr at) = omega (
  arith,
  mod-eq_of_lt {n = w + 2 ^ 64 - r} {m = 2 ^ 64} (omega arith),
  wrapped (capacity + w + 2 ^ 64 - r) n (omega arith) (omega arith),
)

-- The tests of `write` and `read` for a full and an empty buffer.
pub full :
    (capacity r w n : ℕ)
    → r < capacity
    → w < capacity
    → n < capacity
    → (w ≡ r + n) ⊎ (w + capacity ≡ r + n)
    → (next capacity w ≡ r) ↔ (n + 1 ≡ capacity)
full capacity r w n hr hw hn at = ground (arith, next_cases capacity w hw)

pub empty :
    (capacity r w n : ℕ)
    → r < capacity
    → w < capacity
    → n < capacity
    → (w ≡ r + n) ⊎ (w + capacity ≡ r + n)
    → (r ≡ w) ↔ (n ≡ 0)
empty capacity r w n hr hw hn at = ground arith
