-- ===== src/Serial/Hash.antt =====
-- `details::hash_context` and the `type_hash` of each type in common/wivrn_serialization.h: the
-- hash by which the two ends agree on the protocol.
pub mod Described
use Prim.Native.Nat.{bit_xor}
use Prim.Native.String.{String}
use Prim.Native.Char.{code}
use wi_vrn.Common.{
  ℕ, zero, suc, ◌+◌, ◌-◌, ◌*◌, ◌/◌, ◌%◌, ◌^◌, ◌<◌, ◌≤◌, ◌≡◌, refl, sym, ap, ◌∙◌, List, [], ◌∷◌,
  ◌++◌, arith, ltb, if◌then◌else◌, append_assoc, Bool-cases, inl, inr,
}
use wi_vrn.Serial.Types.{
  Kind, float, uint, int, Ty, Tys, arithmetic, enumeration, structure, string, vector, optional,
  array, variant, duration, span, data_holder, nil, cons,
}

-- The characters of a text, all ASCII here.
abbrev pub codes : String → List ℕ
codes String.[] = []
codes (String.◌∷◌ c s) = code c ∷ codes s

abbrev pub fnv_prime : ℕ
fnv_prime = 0x100000001b3

abbrev pub fnv_offset_basis : ℕ
fnv_offset_basis = 0xcbf29ce484222325

-- `feed(std::string_view)`
unfoldable pub feed : List ℕ → ℕ → ℕ
feed [] hash = hash
feed (c ∷ s) hash = feed s (bit_xor hash c * fnv_prime % 2 ^ 64)

-- `feed_unsigned` on a number of at most `fuel` digits; `feed(n / 10)` in it comes back to it by
-- way of `feed(int64_t)`.
unfoldable pub feed_unsigned : ℕ → ℕ → ℕ → ℕ
unfolding feed
feed_unsigned zero n hash = hash
feed_unsigned (suc fuel) n hash =
    let before = feed_unsigned fuel (n / 10) hash in
    feed ((b'0' + n % 10) ∷ []) (if ltb n 10 then hash else before)

-- `feed(int64_t)` on the numbers that are fed, sizes and periods, which are not negative.
unfoldable pub feed_int : ℕ → ℕ → ℕ
unfolding feed_unsigned
feed_int n hash = feed_unsigned 20 n hash

abbrev pub kind_name : Kind → List ℕ
kind_name float = codes "float"
kind_name uint = codes "uint"
kind_name int = codes "int"

unfoldable mutual
  unfolding feed feed_int

  pub type_hash : Ty → ℕ → ℕ
  type_hash (arithmetic k n) h = feed_int (n * 8) (feed (kind_name k) h)
  type_hash (enumeration n) h = feed_int (n * 8) (feed (codes "enum") h)
  type_hash (structure ts) h = feed (codes "}") (type_list_hash ts (feed (codes "structure{") h))
  type_hash string h = feed (codes "string") h
  type_hash (vector t) h = feed (codes ">") (type_hash t (feed (codes "vector<") h))
  type_hash (optional t) h = feed (codes ">") (type_hash t (feed (codes "optional<") h))
  type_hash (array t n) h =
      feed (codes ">") (feed_int n (feed (codes ",") (type_hash t (feed (codes "array<") h))))
  type_hash (variant ts) h = feed (codes ">") (type_list_hash ts (feed (codes "variant<") h))
  type_hash (duration n num den) h = feed (codes ">") (
      feed_int den (
        feed (codes "/") (
          feed_int num (
            feed (codes ",")
              (feed_int (n * 8) (feed (codes "int") (feed (codes "duration<") h)))))))
  type_hash span h = feed (codes "span<uint8_t>") h
  type_hash data_holder h = h

  -- The types of a structure or of a variant, with commas between them.
  pub type_list_hash : Tys → ℕ → ℕ
  type_list_hash nil h = h
  type_list_hash (cons t nil) h = type_hash t h
  type_list_hash (cons t (cons u us)) h =
      type_list_hash (cons u us) (feed (codes ",") (type_hash t h))

unfoldable pub serialization_type_hash : Ty → ℕ
unfolding type_hash
serialization_type_hash t = type_hash t fnv_offset_basis

-- Decimal digits, for numbers below 10 ^ fuel.
abbrev pub digits : ℕ → ℕ → List ℕ
digits zero n = []
digits (suc fuel) n =
    let before = digits fuel (n / 10) in (if ltb n 10 then [] else before) ++ ((b'0' + n % 10) ∷ [])

-- The text that a type hash is the hash of.
abbrev mutual
  pub describe : Ty → List ℕ
  describe (arithmetic k n) = kind_name k ++ digits 20 (n * 8)
  describe (enumeration n) = codes "enum" ++ digits 20 (n * 8)
  describe (structure ts) = codes "structure{" ++ (describe_list ts ++ codes "}")
  describe string = codes "string"
  describe (vector t) = codes "vector<" ++ (describe t ++ codes ">")
  describe (optional t) = codes "optional<" ++ (describe t ++ codes ">")
  describe (array t n) = codes "array<" ++ (describe t ++ (codes "," ++ (digits 20 n ++ codes ">")))
  describe (variant ts) = codes "variant<" ++ (describe_list ts ++ codes ">")
  describe (duration n num den) =
      codes "duration<"
      ++ (codes "int"
          ++ (digits 20 (n * 8)
              ++ (codes "," ++ (digits 20 num ++ (codes "/" ++ (digits 20 den ++ codes ">"))))))
  describe span = codes "span<uint8_t>"
  describe data_holder = []

  pub describe_list : Tys → List ℕ
  describe_list nil = []
  describe_list (cons t nil) = describe t
  describe_list (cons t (cons u us)) = describe t ++ (codes "," ++ describe_list (cons u us))
