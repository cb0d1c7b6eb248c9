-- ===== src/Serial/Cursor.antt =====
-- `deserialization_packet` of common/wivrn_serialization.h. `size_t` has 64 bits.
use wi_vrn.Common.{
  ℕ, zero, suc, ◌+◌, ◌-◌, ◌%◌, ◌^◌, ◌≤◌, ◌<◌, ◌≡◌, refl, ap, ◌∙◌, List, [], ◌∷◌, ◌++◌, arith,
  length, length-append, take, drop, ltb, leb, if◌then◌else◌, Bool, take_prefix, drop_prefix,
}
use wi_vrn.Common.{Result, ok, err, deserialization_error, ◌>>◌, length-drop, lt→ltb, le→ltb}

pub record Cursor : Type 0 where
  pub buffer : List ℕ
  pub read_index : ℕ

-- `buffer.size() - read_index`, which wraps.
unfoldable pub remaining : Cursor → ℕ
remaining c = (length c.buffer + 2 ^ 64 - c.read_index) % 2 ^ 64

unfoldable pub is_empty : Cursor → Bool
is_empty c = leb (length c.buffer) c.read_index

unfoldable pub check_remaining_size : ℕ → Cursor → Result (Unit {0})
unfolding remaining
check_remaining_size min_size c =
    if ltb (remaining c) min_size then err deserialization_error else ok tt

abbrev pub advance : Cursor → ℕ → Cursor
advance c n = record c { read_index = c.read_index + n }

-- `read` copies the bytes out, `read_span` points to them; the model has one value for both.
unfoldable pub read : ℕ → Cursor → Result (List ℕ × Cursor)
unfolding check_remaining_size
read size c =
    check_remaining_size size c >> ok (take size (drop c.read_index c.buffer), advance c size)

-- The buffer is moved out and left empty; the read index stays.
unfoldable pub steal_buffer : Cursor → (ℕ × List ℕ) × Cursor
steal_buffer c = ((c.read_index, c.buffer), record c { buffer = [] })

-- What is left to read is `xs`.
pub record At (c : Cursor) (xs : List ℕ) : Type 0 where
  pub inside : c.read_index ≤ length c.buffer
  pub small : length c.buffer < 2 ^ 64
  pub left : drop c.read_index c.buffer ≡ xs

drop-drop : (m n : ℕ) (xs : List ℕ) → drop (m + n) xs ≡ drop n (drop m xs)
drop-drop zero n xs = let e : 0 + n ≡ n = omega arith in rw e
drop-drop (suc m) zero [] = let e : suc m + 0 ≡ suc m = omega arith in rw e
drop-drop (suc m) (suc n) [] = let e : suc m + suc n ≡ suc (suc (m + n)) = omega arith in rw e
drop-drop (suc m) n (x ∷ xs) =
    let e : suc m + n ≡ suc (m + n) = omega arith in rw e (drop-drop m n xs)

At-length : (c : Cursor) (xs : List ℕ) → At c xs → length c.buffer ≡ c.read_index + length xs
At-length c xs a = omega (arith, length-drop c.read_index c.buffer, ap length a.left, a.inside)

pub At-advance : (c : Cursor) (xs ys : List ℕ) → At c (xs ++ ys) → At (advance c (length xs)) ys
At-advance c xs ys a = record {
  inside = omega (arith, At-length c (xs ++ ys) a, length-append xs ys);
  small = a.small;
  left =
      drop-drop c.read_index (length xs) c.buffer
      ∙ ap (drop (length xs)) a.left
      ∙ drop_prefix (length xs) xs ys refl;
}

remaining-At : (c : Cursor) (xs : List ℕ) → At c xs → remaining c ≡ length xs
unfolding remaining
remaining-At c xs a = omega (arith, At-length c xs a, a.small)

-- Enough bytes are left: no exception.
pub check_remaining_size-At :
    (c : Cursor) (n : ℕ) (xs : List ℕ) → At c xs → n ≤ length xs → check_remaining_size n c ≡ ok tt
unfolding check_remaining_size
check_remaining_size-At c n xs a h = rw (remaining-At c xs a, le→ltb (length xs) n h)

pub read-At :
    (c : Cursor) (xs ys : List ℕ)
    → At c (xs ++ ys)
    → read (length xs) c ≡ ok (xs, advance c (length xs))
unfolding read
read-At c xs ys a =
    rw (check_remaining_size-At c (length xs) (xs ++ ys) a (omega (arith, length-append xs ys)))
      (rw a.left (rw (take_prefix (length xs) xs ys refl)))

-- Too few bytes are left: the exception.
pub read_short :
    (c : Cursor) (n : ℕ) (xs : List ℕ)
    → At c xs
    → length xs < n
    → read n c ≡ err deserialization_error
unfolding read check_remaining_size
read_short c n xs a h = rw (remaining-At c xs a, lt→ltb (length xs) n h)
