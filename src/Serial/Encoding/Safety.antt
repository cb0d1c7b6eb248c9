-- ===== src/Serial/Encoding/Safety.antt =====
-- `deserialize` of common/wivrn_serialization.h on any bytes at all.
use wi_vrn.Common.{
  ℕ, zero, suc, ◌+◌, ◌-◌, ◌*◌, ◌%◌, ◌^◌, ◌<◌, ◌≤◌, ◌≡◌, refl, ap, ◌∙◌, [], ◌∷◌, none, some, inl,
  inr, length, arith, leb, ltb, ◌==◌, true, false, if◌then◌else◌, Bool-cases, Bool,
}
use wi_vrn.Common.{Result, ok, err, deserialization_error, ◌>>=◌, ◌>>◌}
use wi_vrn.Serial.Types.{
  Ty, Tys, arithmetic, enumeration, structure, string, vector, optional, array, variant, duration,
  span, data_holder, nil, cons, Value, count, IsPlain, ArePlain,
}
use wi_vrn.Serial.Cursor.{Cursor, read, check_remaining_size}
use wi_vrn.Serial.Encoding.{
  numbers_of, deserialize_number, deserialize_n, deserialize_vector, deserialize_text,
  deserialize_span, deserialize_optional, deserialize, deserialize_fields, deserialize_aux,
}

abbrev pub IsInside : Cursor → Type 0
IsInside c = (c.read_index ≤ length c.buffer) × (length c.buffer < 2 ^ 64)

-- The outcome of a reader at `c`: it only throws `deserialization_error`, and a cursor that it
-- returns is over the same buffer, not before `c` and not behind the end.
abbrev pub Outcome : {A : Type 0} → Cursor → Result (A × Cursor) → Type 0
Outcome c (ok r) =
    (r.1.buffer ≡ c.buffer) × (c.read_index ≤ r.1.read_index) × (r.1.read_index ≤ length c.buffer)
Outcome c (err e) = e ≡ deserialization_error

pub record IsSafe {A : Type 0} (f : Cursor → Result (A × Cursor)) : Type 0 where
  pub at : (c : Cursor) → IsInside c → Outcome c (f c)

IsSafe-pure : {A : Type 0} (a : A) → IsSafe (λ c. ok (a, c))
IsSafe-pure a = record { at = λ c h. (refl, omega arith, h.0) }

IsSafe-throw : {A : Type 0} → IsSafe {A = A} (λ c. err deserialization_error)
IsSafe-throw = record { at = λ c h. refl }

Outcome-trans :
    {A : Type 0} (c d : Cursor) (r : Result (A × Cursor))
    → d.buffer ≡ c.buffer
    → c.read_index ≤ d.read_index
    → Outcome d r
    → Outcome c r
Outcome-trans c d (ok r) b i o = (o.0 ∙ b, omega arith, omega (arith, ap length b))
Outcome-trans c d (err e) b i o = o

Outcome-bind :
    {A B : Type 0} (c : Cursor) (r : Result (A × Cursor)) (g : A → Cursor → Result (B × Cursor))
    → IsInside c
    → Outcome c r
    → ((a : A) → IsSafe (g a))
    → Outcome c (r >>= λ x. g x.0 x.1)
Outcome-bind c (ok (a, d)) g h o k =
    Outcome-trans c d (g a d) o.0 o.1
      ((k a).at d (omega (arith, ap length o.0), omega (arith, ap length o.0)))
Outcome-bind c (err e) g h o k = o

pub IsSafe-bind :
    {A B : Type 0} {f : Cursor → Result (A × Cursor)} (g : A → Cursor → Result (B × Cursor))
    → IsSafe f
    → ((a : A) → IsSafe (g a))
    → IsSafe (λ c. f c >>= λ r. g r.0 r.1)
IsSafe-bind {f} g p k = record { at = λ c h. Outcome-bind c (f c) g h (p.at c h) k }

IsSafe-map :
    {A B : Type 0} {f : Cursor → Result (A × Cursor)} (g : A → B)
    → IsSafe f
    → IsSafe (λ c. f c >>= λ r. ok (g r.0, r.1))
IsSafe-map g p = IsSafe-bind (λ a c. ok (g a, c)) p (λ a. IsSafe-pure (g a))

Outcome-read : (n : ℕ) (c : Cursor) → IsInside c → Outcome c (read n c)
unfolding read check_remaining_size
Outcome-read n c h = elim (Bool-cases (ltb rest n)) [
  | inl short ↦ rw short refl
  | inr enough ↦ rw enough (refl, omega arith, ground arith)
]
  where
    rest : ℕ
    rest = (length c.buffer + 2 ^ 64 - c.read_index) % 2 ^ 64

IsSafe-read : (n : ℕ) → IsSafe (read n)
IsSafe-read n = record { at = Outcome-read n }

Outcome-check :
    {A : Type 0} (n : ℕ) (c : Cursor) (r : Result (A × Cursor))
    → Outcome c r
    → Outcome c (check_remaining_size n c >> r)
unfolding check_remaining_size
Outcome-check n c r o =
    elim (Bool-cases (ltb ((length c.buffer + 2 ^ 64 - c.read_index) % 2 ^ 64) n)) [
      | inl short ↦ rw short refl
      | inr enough ↦ rw enough o
    ]

IsSafe-check :
    {A : Type 0} {f : Cursor → Result (A × Cursor)} (n : ℕ)
    → IsSafe f
    → IsSafe (λ c. check_remaining_size n c >> f c)
IsSafe-check {f} n p = record { at = λ c h. Outcome-check n c (f c) (p.at c h) }

IsSafe-if :
    {A : Type 0} (b : Bool) (f g : Cursor → Result (A × Cursor))
    → IsSafe f
    → IsSafe g
    → IsSafe (λ c. if b then f c else g c)
IsSafe-if true f g p q = p
IsSafe-if false f g p q = q

IsSafe-number : (n : ℕ) → IsSafe (deserialize_number n)
unfolding deserialize_number
IsSafe-number n = IsSafe-map _ (IsSafe-read n)

module _ {A : Type 0} (f : Cursor → Result (A × Cursor)) (one : IsSafe f) where
  IsSafe-n : (n : ℕ) → IsSafe (deserialize_n f n)
  unfolding deserialize_n
  IsSafe-n zero = IsSafe-pure []
  IsSafe-n (suc n) =
      IsSafe-bind (λ v c. deserialize_n f n c >>= λ r. ok (v ∷ r.0, r.1)) one
        (λ v. IsSafe-map (λ vs. v ∷ vs) (IsSafe-n n))

  IsSafe-optional : IsSafe (deserialize_optional f)
  unfolding deserialize_optional
  IsSafe-optional =
      IsSafe-bind (λ flag c. if flag == 0 then ok (none, c) else (f c >>= λ r. ok (some r.0, r.1)))
        (IsSafe-number 1)
        (λ flag. IsSafe-if (flag == 0) _ _ (IsSafe-pure none) (IsSafe-map some one))

IsSafe-vector :
    (t : Ty) (f : Cursor → Result (Value t × Cursor))
    → IsSafe f
    → (n : ℕ) → IsSafe (deserialize_vector t f n)
unfolding deserialize_vector
IsSafe-vector (arithmetic k m) f one n =
    IsSafe-check (n * m) (IsSafe-map (numbers_of m n) (IsSafe-read (n * m)))
IsSafe-vector (enumeration m) f one n = IsSafe-n f one n
IsSafe-vector t f one n = IsSafe-n f one n

IsSafe-span : IsSafe deserialize_span
unfolding deserialize_span
IsSafe-span = IsSafe-bind read (IsSafe-number 2) IsSafe-read

IsSafe-text : IsSafe deserialize_text
unfolding deserialize_text
IsSafe-text =
    IsSafe-bind (λ n c. check_remaining_size n c >> read n c) (IsSafe-number 2)
      (λ n. IsSafe-check n (IsSafe-read n))

IsSafe-aux-step :
    (t : Ty) (ts : Tys) (i : ℕ)
    → IsSafe (deserialize t)
    → IsSafe (deserialize_aux ts (i - 1))
    → IsSafe (deserialize_aux (cons t ts) i)
unfolding deserialize
IsSafe-aux-step t ts i first later =
    let s = IsSafe-if (i == 0) _ _ (IsSafe-map inl first) (IsSafe-map inr later) in
    record { at = λ c h. s.at c h }

mutual
  unfolding deserialize

  IsSafe-deserialize : (t : Ty) → IsPlain t → IsSafe (deserialize t)
  IsSafe-deserialize (arithmetic k n) p = IsSafe-number n
  IsSafe-deserialize (enumeration n) p = IsSafe-number n
  IsSafe-deserialize (structure ts) p = IsSafe-fields ts p
  IsSafe-deserialize string p = IsSafe-text
  IsSafe-deserialize (vector t) p =
      IsSafe-bind (deserialize_vector t (deserialize t)) (IsSafe-number 2)
        (IsSafe-vector t (deserialize t) (IsSafe-deserialize t p))
  IsSafe-deserialize (optional t) p = IsSafe-optional (deserialize t) (IsSafe-deserialize t p)
  IsSafe-deserialize (array t n) p = IsSafe-n (deserialize t) (IsSafe-deserialize t p) n
  IsSafe-deserialize (variant ts) p =
      IsSafe-bind
        (λ i c. if leb (count ts) i then err deserialization_error else deserialize_aux ts i c)
        (IsSafe-number 1) (λ i. IsSafe-if (leb (count ts) i) _ _ IsSafe-throw (IsSafe-aux ts p.1 i))
  IsSafe-deserialize (duration n num den) p = IsSafe-number n
  IsSafe-deserialize span p = IsSafe-span
  IsSafe-deserialize data_holder p = absurd p

  IsSafe-fields : (ts : Tys) → ArePlain ts → IsSafe (deserialize_fields ts)
  IsSafe-fields nil p = IsSafe-pure tt
  IsSafe-fields (cons t ts) p =
      IsSafe-bind (λ x c. deserialize_fields ts c >>= λ r. ok ((x, r.0), r.1))
        (IsSafe-deserialize t p.0) (λ x. IsSafe-map (λ xs. (x, xs)) (IsSafe-fields ts p.1))

  IsSafe-aux : (ts : Tys) → ArePlain ts → (i : ℕ) → IsSafe (deserialize_aux ts i)
  IsSafe-aux nil p i = IsSafe-throw
  IsSafe-aux (cons t ts) p i =
      IsSafe-aux-step t ts i (IsSafe-deserialize t p.0) (IsSafe-aux ts p.1 (i - 1))

-- On any buffer shorter than 2^64, whatever its bytes are, reading a plain type from a read index inside the buffer
-- either throws `deserialization_error`, or returns with the buffer as it was and the read index
-- moved forward and still inside.
pub deserialize-Outcome :
    (t : Ty) (c : Cursor) → IsPlain t → IsInside c → Outcome c (deserialize t c)
deserialize-Outcome t c p h = (IsSafe-deserialize t p).at c h
