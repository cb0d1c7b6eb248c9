-- ===== src/Serial/Encoding.antt =====
-- The `serialization_traits` of common/wivrn_serialization.h: what each type writes to a packet and
-- reads from a cursor, and the byte string that stands for a value. Objects are copied as they
-- stand in memory, little-endian on the targets of the program.
pub mod Writing
pub mod Reading
pub mod RoundTrip
pub mod Safety
use wi_vrn.Common.{
  ℕ, zero, suc, ◌+◌, ◌-◌, ◌*◌, ◌/◌, ◌%◌, ◌^◌, ◌≡◌, Bool, true, false, not, List, [], ◌∷◌, ◌++◌,
  Option, none, some, inl, inr, length, concat, map, take, drop, leb, if◌then◌else◌, ◌==◌,
}
use wi_vrn.Common.{Result, ok, err, deserialization_error, ◌>>=◌, ◌>>◌}
use wi_vrn.Serial.Types.{
  Kind, Ty, Tys, arithmetic, enumeration, structure, string, vector, optional, array, variant,
  duration, span, data_holder, nil, cons, Value, Fields, Choice, count, index,
}
use wi_vrn.Serial.Packet.{Packet, write, write_span}
use wi_vrn.Serial.Cursor.{Cursor, read, check_remaining_size, steal_buffer}

-- The object representation of an n-byte object.
abbrev pub bytes_of : ℕ → ℕ → List ℕ
bytes_of zero v = []
bytes_of (suc n) v = v % 256 ∷ bytes_of n (v / 256)

abbrev pub number_of : List ℕ → ℕ
number_of [] = 0
number_of (b ∷ bs) = b + 256 * number_of bs

-- `packet.serialize<uint16_t>(value.size())`
unfoldable pub serialize_size : ℕ → Packet → Packet
unfolding write
serialize_size n p = write (bytes_of 2 (n % 2 ^ 16)) p

unfoldable pub serialize_all : {A : Type 0} → (A → Packet → Packet) → List A → Packet → Packet
serialize_all f [] p = p
serialize_all f (x ∷ xs) p = serialize_all f xs (f x p)

-- `std::vector<T>`: one copy of the whole array if `T` is arithmetic, else each element.
unfoldable pub serialize_vector :
    (t : Ty) → (Value t → Packet → Packet) → List (Value t) → Packet → Packet
unfolding serialize_size serialize_all
serialize_vector (arithmetic k n) f vs p =
    write (concat (map (bytes_of n) vs)) (serialize_size (length vs) p)
serialize_vector _ f vs p = serialize_all f vs (serialize_size (length vs) p)

unfoldable pub serialize_optional :
    {A : Type 0} → (A → Packet → Packet) → Option A → Packet → Packet
serialize_optional f none p = write (bytes_of 1 0) p
serialize_optional f (some a) p = f a (write (bytes_of 1 1) p)

unfoldable mutual
  unfolding serialize_size serialize_all serialize_vector serialize_optional

  pub serialize : (t : Ty) → Value t → Packet → Packet
  serialize (arithmetic k n) v p = write (bytes_of n v) p
  serialize (enumeration n) v p = write (bytes_of n v) p
  serialize (structure ts) v p = serialize_fields ts v p
  serialize string v p = write v (serialize_size (length v) p)
  serialize (vector t) v p = serialize_vector t (serialize t) v p
  serialize (optional t) v p = serialize_optional (serialize t) v p
  serialize (array t n) v p = serialize_all (serialize t) v p
  serialize (variant ts) v p = serialize_choice ts v (write (bytes_of 1 (index ts v % 256)) p)
  serialize (duration n num den) v p = write (bytes_of n v) p
  serialize span v p = write_span v (serialize_size (length v) p)
  serialize data_holder v p = p

  pub serialize_fields : (ts : Tys) → Fields ts → Packet → Packet
  serialize_fields nil v p = p
  serialize_fields (cons t ts) v p = serialize_fields ts v.1 (serialize t v.0 p)

  -- `std::visit` over the alternatives.
  pub serialize_choice : (ts : Tys) → Choice ts → Packet → Packet
  serialize_choice nil v p = absurd v
  serialize_choice (cons t ts) (inl v) p = serialize t v p
  serialize_choice (cons t ts) (inr v) p = serialize_choice ts v p

unfoldable pub deserialize_number : ℕ → Cursor → Result (ℕ × Cursor)
deserialize_number n c = do (bytes, c') ← read n c; ok (number_of bytes, c')

unfoldable pub deserialize_n :
    {A : Type 0} → (Cursor → Result (A × Cursor)) → ℕ → Cursor → Result (List A × Cursor)
deserialize_n f zero c = ok ([], c)
deserialize_n f (suc n) c = do (v, c₁) ← f c; (vs, c₂) ← deserialize_n f n c₁; ok (v ∷ vs, c₂)

-- The array of n-byte objects that a copy of its bytes makes.
abbrev pub numbers_of : ℕ → ℕ → List ℕ → List ℕ
numbers_of n zero bytes = []
numbers_of n (suc k) bytes = number_of (take n bytes) ∷ numbers_of n k (drop n bytes)

unfoldable pub deserialize_vector :
    (t : Ty) → (Cursor → Result (Value t × Cursor)) → ℕ → Cursor → Result (List (Value t) × Cursor)
unfolding deserialize_n
deserialize_vector (arithmetic k n) f size c = do
  check_remaining_size (size * n) c
  (bytes, c') ← read (size * n) c
  ok (numbers_of n size bytes, c')
deserialize_vector _ f size c = deserialize_n f size c

unfoldable pub deserialize_text : Cursor → Result (List ℕ × Cursor)
unfolding deserialize_number
deserialize_text c = do
  (size, c₁) ← deserialize_number 2 c
  check_remaining_size size c₁
  read size c₁

unfoldable pub deserialize_span : Cursor → Result (List ℕ × Cursor)
unfolding deserialize_number
deserialize_span c = do (size, c₁) ← deserialize_number 2 c; read size c₁

unfoldable pub deserialize_optional :
    {A : Type 0} → (Cursor → Result (A × Cursor)) → Cursor → Result (Option A × Cursor)
unfolding deserialize_number
deserialize_optional f c = do
  (flag, c₁) ← deserialize_number 1 c
  if flag == 0 then ok (none, c₁) else (do (v, c₂) ← f c₁; ok (some v, c₂))

unfoldable mutual
  unfolding deserialize_number deserialize_n deserialize_vector deserialize_text deserialize_span
      deserialize_optional

  pub deserialize : (t : Ty) → Cursor → Result (Value t × Cursor)
  deserialize (arithmetic k n) c = deserialize_number n c
  deserialize (enumeration n) c = deserialize_number n c
  deserialize (structure ts) c = deserialize_fields ts c
  deserialize string c = deserialize_text c
  deserialize (vector t) c = do
    (size, c₁) ← deserialize_number 2 c
    deserialize_vector t (deserialize t) size c₁
  deserialize (optional t) c = deserialize_optional (deserialize t) c
  deserialize (array t n) c = deserialize_n (deserialize t) n c
  deserialize (variant ts) c = do
    (type_index, c₁) ← deserialize_number 1 c
    if leb (count ts) type_index
        then err deserialization_error
        else deserialize_aux ts type_index c₁
  deserialize (duration n num den) c = deserialize_number n c
  deserialize span c = deserialize_span c
  deserialize data_holder c = let (stolen, c') = steal_buffer c in ok (stolen.1, c')

  pub deserialize_fields : (ts : Tys) → Cursor → Result (Fields ts × Cursor)
  deserialize_fields nil c = ok (tt, c)
  deserialize_fields (cons t ts) c = do
    (v, c₁) ← deserialize t c
    (vs, c₂) ← deserialize_fields ts c₁
    ok ((v, vs), c₂)

  -- The alternative with the index that was read; there is always one (`type_index` is checked).
  pub deserialize_aux : (ts : Tys) → ℕ → Cursor → Result (Choice ts × Cursor)
  deserialize_aux nil type_index c = err deserialization_error
  deserialize_aux (cons t ts) type_index c =
      let first : Result (Choice (cons t ts) × Cursor) = (do
        (v, c₁) ← deserialize t c
        ok (inl v, c₁)) in
      let later : Result (Choice (cons t ts) × Cursor) = (do
        (v, c₁) ← deserialize_aux ts (type_index - 1) c
        ok (inr v, c₁)) in
      if type_index == 0 then first else later

-- The bytes that stand for a value.
abbrev mutual
  pub encode : (t : Ty) → Value t → List ℕ
  encode (arithmetic k n) v = bytes_of n v
  encode (enumeration n) v = bytes_of n v
  encode (structure ts) v = encode_fields ts v
  encode string v = bytes_of 2 (length v) ++ v
  encode (vector t) v = bytes_of 2 (length v) ++ concat (map (encode t) v)
  encode (optional t) none = bytes_of 1 0
  encode (optional t) (some v) = bytes_of 1 1 ++ encode t v
  encode (array t n) v = concat (map (encode t) v)
  encode (variant ts) v = bytes_of 1 (index ts v) ++ encode_choice ts v
  encode (duration n num den) v = bytes_of n v
  encode span v = bytes_of 2 (length v) ++ v
  encode data_holder v = []

  pub encode_fields : (ts : Tys) → Fields ts → List ℕ
  encode_fields nil v = []
  encode_fields (cons t ts) v = encode t v.0 ++ encode_fields ts v.1

  pub encode_choice : (ts : Tys) → Choice ts → List ℕ
  encode_choice nil v = []
  encode_choice (cons t ts) (inl v) = encode t v
  encode_choice (cons t ts) (inr v) = encode_choice ts v
