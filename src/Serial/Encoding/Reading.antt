-- ===== src/Serial/Encoding/Reading.antt =====
-- The readers of common/wivrn_serialization.h on an encoding, one kind of type at a time.
use wi_vrn.Common.{
  ℕ, zero, suc, ◌*◌, ◌/◌, ◌^◌, ◌<◌, ◌≤◌, ◌≡◌, refl, ap, ◌∙◌, List, [], ◌∷◌, ◌++◌, length,
  length-append, concat, map, append_assoc, arith, take_prefix, drop_prefix, All,
}
use wi_vrn.Common.{Result, ok, ◌>>=◌, ◌>>◌}
use wi_vrn.Serial.Types.{Ty, arithmetic, enumeration, Value, IsWf}
use wi_vrn.Serial.Cursor.{
  Cursor, At, advance, read, check_remaining_size, At-advance, read-At, check_remaining_size-At,
}
use wi_vrn.Serial.Encoding.{
  bytes_of, number_of, numbers_of, deserialize_number, deserialize_n, deserialize_vector,
  deserialize_text, deserialize_span, encode,
}
use native.Mathlib.Nat.{pow-suc}

pub length-bytes_of : (n v : ℕ) → length (bytes_of n v) ≡ n
length-bytes_of zero v = refl
length-bytes_of (suc n) v = ap suc (length-bytes_of n (v / 256))

pub number_of-bytes_of : (n v : ℕ) → v < 256 ^ n → number_of (bytes_of n v) ≡ v
number_of-bytes_of zero v h = omega arith
number_of-bytes_of (suc n) v h =
    omega (arith, number_of-bytes_of n (v / 256) (omega (arith, pow-suc 256 n)))

-- Where `bytes` come next, `f` returns `v` and passes over them.
pub record Reads {A : Type 0} (f : Cursor → Result (A × Cursor)) (bytes : List ℕ) (v : A)
    : Type 0 where
  pub at :
      (c : Cursor) (rest : List ℕ) → At c (bytes ++ rest) → f c ≡ ok (v, advance c (length bytes))

advance-append :
    (c : Cursor) (xs ys : List ℕ)
    → advance (advance c (length xs)) (length ys) ≡ advance c (length (xs ++ ys))
advance-append c xs ys =
    ap (λ i. record { buffer = c.buffer; read_index = i }) (omega (arith, length-append xs ys))

pub Reads-pure : {A : Type 0} (a : A) → Reads (λ c. ok (a, c)) [] a
Reads-pure a = record {
  at = λ c rest h. ap (λ i. ok (a, record { buffer = c.buffer; read_index = i })) (omega arith);
}

pub Reads-bind :
    {A B : Type 0} {f : Cursor → Result (A × Cursor)} (g : A → Cursor → Result (B × Cursor))
    {xs ys : List ℕ} {a : A} {b : B}
    → Reads f xs a
    → Reads (g a) ys b
    → Reads (λ c. f c >>= λ r. g r.0 r.1) (xs ++ ys) b
Reads-bind {f} g {xs} {ys} {a} {b} p q = record {
  at = λ c rest h.
      let h' : At c (xs ++ (ys ++ rest)) = rw append_assoc at h in
      rw (p.at c (ys ++ rest) h') (
        q.at (advance c (length xs)) rest (At-advance c xs (ys ++ rest) h')
        ∙ ap (λ d. ok (b, d)) (advance-append c xs ys));
}

pub Reads-map :
    {A B : Type 0} {f : Cursor → Result (A × Cursor)} {xs : List ℕ} {a : A} (g : A → B)
    → Reads f xs a
    → Reads (λ c. f c >>= λ r. ok (g r.0, r.1)) xs (g a)
Reads-map g p = record { at = λ c rest h. rw (p.at c rest h) }

Reads-read : (xs : List ℕ) → Reads (read (length xs)) xs xs
Reads-read xs = record { at = λ c rest h. read-At c xs rest h }

pub Reads-number : (n v : ℕ) → v < 256 ^ n → Reads (deserialize_number n) (bytes_of n v) v
unfolding deserialize_number
Reads-number n v h = record {
  at = λ c rest a.
      let r = (rw (length-bytes_of n v) at (Reads-read (bytes_of n v))).at c rest a in
      rw r (ap (λ w. ok (w, advance c (length (bytes_of n v)))) (number_of-bytes_of n v h));
}

-- A check that passes wherever `bytes` come next.
pub Reads-check :
    {A : Type 0} {f : Cursor → Result (A × Cursor)} {bytes : List ℕ} {a : A} (n : ℕ)
    → n ≤ length bytes
    → Reads f bytes a
    → Reads (λ c. check_remaining_size n c >> f c) bytes a
Reads-check {bytes} n le r = record {
  at = λ c rest h.
      rw (check_remaining_size-At c n (bytes ++ rest) h (omega (arith, length-append bytes rest)))
        (r.at c rest h);
}

module _ {A : Type 0} (f : Cursor → Result (A × Cursor)) (enc : A → List ℕ) (P : A → Type 0)
    (one : (a : A) → P a → Reads f (enc a) a) where
  pub Reads-n :
      (vs : List A) → All P vs → Reads (deserialize_n f (length vs)) (concat (map enc vs)) vs
  unfolding deserialize_n
  Reads-n [] h = Reads-pure []
  Reads-n (v ∷ vs) h =
      Reads-bind (λ w c. deserialize_n f (length vs) c >>= λ r. ok (w ∷ r.0, r.1)) (one v h.0)
        (Reads-map (λ ws. v ∷ ws) (Reads-n vs h.1))

length-flat : (n : ℕ) (vs : List ℕ) → length (concat (map (bytes_of n) vs)) ≡ length vs * n
length-flat n [] = omega arith
length-flat n (v ∷ vs) = omega (
  arith,
  length-append (bytes_of n v) (concat (map (bytes_of n) vs)),
  length-bytes_of n v,
  length-flat n vs,
)

numbers_of-flat :
    (n : ℕ) (vs : List ℕ)
    → All (λ v. v < 256 ^ n) vs
    → numbers_of n (length vs) (concat (map (bytes_of n) vs)) ≡ vs
numbers_of-flat n [] h = refl
numbers_of-flat n (v ∷ vs) h =
    let later = concat (map (bytes_of n) vs) in
    rw
      (
        take_prefix n (bytes_of n v) later (length-bytes_of n v),
        drop_prefix n (bytes_of n v) later (length-bytes_of n v),
        number_of-bytes_of n v h.0,
      )
      (ap (◌∷◌ v) (numbers_of-flat n vs h.1))

Reads-bulk :
    (n : ℕ) (vs : List ℕ)
    → All (λ v. v < 256 ^ n) vs
    → Reads
        (λ c. read (length vs * n) c >>= λ r. ok (numbers_of n (length vs) r.0, r.1))
        (concat (map (bytes_of n) vs))
        vs
Reads-bulk n vs h = record {
  at = λ c rest a.
      let r = (rw (length-flat n vs) at (Reads-read (concat (map (bytes_of n) vs)))).at c rest a in
      rw r (
        ap (λ ws. ok (ws, advance c (length (concat (map (bytes_of n) vs)))))
          (numbers_of-flat n vs h));
}

pub Reads-vector :
    (t : Ty) (f : Cursor → Result (Value t × Cursor))
    → ((v : Value t) → IsWf t v → Reads f (encode t v) v)
    → (vs : List (Value t)) → All (IsWf t) vs
    → Reads (deserialize_vector t f (length vs)) (concat (map (encode t) vs)) vs
unfolding deserialize_vector
Reads-vector (arithmetic k n) f one vs h =
    Reads-check (length vs * n) (omega (arith, length-flat n vs)) (Reads-bulk n vs h)
Reads-vector (enumeration n) f one vs h =
    Reads-n f (encode (enumeration n)) (IsWf (enumeration n)) one vs h
Reads-vector t f one vs h = Reads-n f (encode t) (IsWf t) one vs h

pub Reads-size : (n : ℕ) → n < 2 ^ 16 → Reads (deserialize_number 2) (bytes_of 2 n) n
Reads-size n h = Reads-number 2 n h

pub Reads-span :
    (s : List ℕ) → length s < 2 ^ 16 → Reads deserialize_span (bytes_of 2 (length s) ++ s) s
unfolding deserialize_span
Reads-span s h = Reads-bind read (Reads-size (length s) h) (Reads-read s)

pub Reads-text :
    (s : List ℕ) → length s < 2 ^ 16 → Reads deserialize_text (bytes_of 2 (length s) ++ s) s
unfolding deserialize_text
Reads-text s h =
    Reads-bind (λ n c. check_remaining_size n c >> read n c) (Reads-size (length s) h)
      (Reads-check (length s) (omega arith) (Reads-read s))
