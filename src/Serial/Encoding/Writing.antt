-- ===== src/Serial/Encoding/Writing.antt =====
-- What `serialize` of common/wivrn_serialization.h adds to what goes out.
use wi_vrn.Common.{
  ℕ, ◌/◌, ◌%◌, ◌^◌, ◌≡◌, sym, ap, ◌∙◌, List, [], ◌∷◌, ◌++◌, Option, none, some, inl, inr, length,
  concat, map, append-nil, append_assoc, arith,
}
use wi_vrn.Serial.Types.{
  Ty, Tys, arithmetic, enumeration, structure, string, vector, optional, array, variant, duration,
  span, data_holder, nil, cons, Value, Fields, Choice, index,
}
use wi_vrn.Serial.Packet.{Packet, write, write_span, wire, IsValid}
use wi_vrn.Serial.Packet.Wire.{write-IsValid, wire-write, write_span-IsValid, wire-write_span}
use wi_vrn.Serial.Encoding.{
  bytes_of, serialize_size, serialize_all, serialize_vector, serialize_optional, serialize,
  serialize_fields, serialize_choice, encode, encode_fields, encode_choice,
}

-- `f` keeps packets valid and appends `bytes` to what goes out.
pub record Writes (f : Packet → Packet) (bytes : List ℕ) : Type 0 where
  pub valid : (p : Packet) → IsValid p → IsValid (f p)
  pub out : (p : Packet) → IsValid p → wire (f p) ≡ wire p ++ bytes

Writes-id : Writes (λ p. p) []
Writes-id = record { valid = λ p v. v; out = λ p v. sym (append-nil (wire p)) }

Writes-write : (bytes : List ℕ) → Writes (write bytes) bytes
Writes-write bytes = record {
  valid = λ p v. write-IsValid p bytes v;
  out = λ p v. wire-write p bytes v;
}

Writes-write_span : (bytes : List ℕ) → Writes (write_span bytes) bytes
Writes-write_span bytes = record {
  valid = λ p v. write_span-IsValid p bytes v;
  out = λ p v. wire-write_span p bytes v;
}

pub Writes-then :
    {f g : Packet → Packet} {xs ys : List ℕ}
    → Writes f xs
    → Writes g ys
    → Writes (λ p. g (f p)) (xs ++ ys)
Writes-then {f} {g} {xs} {ys} a b = record {
  valid = λ p v. b.valid (f p) (a.valid p v);
  out = λ p v.
      b.out (f p) (a.valid p v) ∙ ap (λ zs. zs ++ ys) (a.out p v) ∙ append_assoc (wire p) xs ys;
}

bytes_of-mod : (n : ℕ) → bytes_of 2 (n % 2 ^ 16) ≡ bytes_of 2 n
bytes_of-mod n =
    let e : n % 2 ^ 16 % 256 ≡ n % 256 = omega arith in
    let e' : n % 2 ^ 16 / 256 % 256 ≡ n / 256 % 256 = omega arith in rw (e, e')

Writes-serialize_size : (n : ℕ) → Writes (serialize_size n) (bytes_of 2 n)
unfolding serialize_size
Writes-serialize_size n =
    let w : Writes (serialize_size n) (bytes_of 2 (n % 2 ^ 16)) =
      Writes-write (bytes_of 2 (n % 2 ^ 16)) in
    rw (bytes_of-mod n) at w

Writes-index : (n : ℕ) → Writes (write (bytes_of 1 (n % 256))) (bytes_of 1 n)
Writes-index n = let e : n % 256 % 256 ≡ n % 256 = omega arith in rw e (Writes-write (bytes_of 1 n))

Writes-serialize_all :
    {A : Type 0} (f : A → Packet → Packet) (enc : A → List ℕ)
    → ((a : A) → Writes (f a) (enc a))
    → (xs : List A) → Writes (serialize_all f xs) (concat (map enc xs))
unfolding serialize_all
Writes-serialize_all f enc h [] = Writes-id
Writes-serialize_all f enc h (x ∷ xs) = Writes-then (h x) (Writes-serialize_all f enc h xs)

Writes-serialize_vector :
    (t : Ty) (f : Value t → Packet → Packet)
    → ((v : Value t) → Writes (f v) (encode t v))
    → (vs : List (Value t))
    → Writes (serialize_vector t f vs) (bytes_of 2 (length vs) ++ concat (map (encode t) vs))
unfolding serialize_vector
Writes-serialize_vector (arithmetic k n) f h vs =
    Writes-then (Writes-serialize_size (length vs)) (Writes-write (concat (map (bytes_of n) vs)))
Writes-serialize_vector (enumeration n) f h vs =
    Writes-then (Writes-serialize_size (length vs)) (Writes-serialize_all f _ h vs)
Writes-serialize_vector _ f h vs =
    Writes-then (Writes-serialize_size (length vs)) (Writes-serialize_all f _ h vs)

Writes-serialize_optional :
    (t : Ty) (f : Value t → Packet → Packet)
    → ((v : Value t) → Writes (f v) (encode t v))
    → (v : Option (Value t)) → Writes (serialize_optional f v) (encode (optional t) v)
unfolding serialize_optional
Writes-serialize_optional t f h none = Writes-write (bytes_of 1 0)
Writes-serialize_optional t f h (some v) = Writes-then (Writes-write (bytes_of 1 1)) (h v)

mutual
  unfolding serialize

  Writes-serialize : (t : Ty) (v : Value t) → Writes (serialize t v) (encode t v)
  Writes-serialize (arithmetic k n) v = Writes-write (bytes_of n v)
  Writes-serialize (enumeration n) v = Writes-write (bytes_of n v)
  Writes-serialize (structure ts) v = Writes-fields ts v
  Writes-serialize string v = Writes-then (Writes-serialize_size (length v)) (Writes-write v)
  Writes-serialize (vector t) v = Writes-serialize_vector t (serialize t) (Writes-serialize t) v
  Writes-serialize (optional t) v = Writes-serialize_optional t (serialize t) (Writes-serialize t) v
  Writes-serialize (array t n) v =
      Writes-serialize_all (serialize t) (encode t) (Writes-serialize t) v
  Writes-serialize (variant ts) v = Writes-then (Writes-index (index ts v)) (Writes-choice ts v)
  Writes-serialize (duration n num den) v = Writes-write (bytes_of n v)
  Writes-serialize span v = Writes-then (Writes-serialize_size (length v)) (Writes-write_span v)
  Writes-serialize data_holder v = Writes-id

  Writes-fields : (ts : Tys) (v : Fields ts) → Writes (serialize_fields ts v) (encode_fields ts v)
  Writes-fields nil v = Writes-id
  Writes-fields (cons t ts) v = Writes-then (Writes-serialize t v.0) (Writes-fields ts v.1)

  Writes-choice : (ts : Tys) (v : Choice ts) → Writes (serialize_choice ts v) (encode_choice ts v)
  Writes-choice nil v = absurd v
  Writes-choice (cons t ts) (inl v) = Writes-serialize t v
  Writes-choice (cons t ts) (inr v) = Writes-choice ts v

-- Serialising any value of any type into a valid packet keeps it valid, and what goes out is what
-- went out before followed by the encoding of the value, whether its bytes are copied or spanned.
pub wire-serialize :
    (t : Ty) (v : Value t) (p : Packet)
    → IsValid p
    → IsValid (serialize t v p) × (wire (serialize t v p) ≡ wire p ++ encode t v)
wire-serialize t v p h = ((Writes-serialize t v).valid p h, (Writes-serialize t v).out p h)
