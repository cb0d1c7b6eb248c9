-- ===== src/Serial/Types.antt =====
-- common/wivrn_serialization.h: the types that `serialization_traits` is specialised for, their
-- values, and when a value has the shape and the ranges of its C++ type.
use wi_vrn.Common.{ℕ, suc, ◌^◌, ◌≤◌, ◌<◌, ◌≡◌, List, Option, none, some, ◌⊎◌, inl, inr, length, All}

-- How `type_hash` spells an arithmetic type.
pub data Kind : Type 0 where
  float uint int : Kind

-- One constructor for each specialisation; sizes are in bytes. `duration` has its `Rep` as an
-- integer of a size, and the numerator and the denominator of its `Period`.
mutual
  pub data Ty : Type 0 where
    arithmetic : Kind → ℕ → Ty
    enumeration : ℕ → Ty
    structure : Tys → Ty
    string : Ty
    vector : Ty → Ty
    optional : Ty → Ty
    array : Ty → ℕ → Ty
    variant : Tys → Ty
    duration : ℕ → ℕ → ℕ → Ty
    span : Ty
    data_holder : Ty

  pub data Tys : Type 0 where
    nil : Tys
    cons : Ty → Tys → Tys

-- A number stands for the bit pattern of its object; a byte string for a string, for the bytes
-- that a span points to, or for the buffer that a holder owns.
abbrev mutual
  pub Value : Ty → Type 0
  Value (arithmetic k n) = ℕ
  Value (enumeration n) = ℕ
  Value (structure ts) = Fields ts
  Value string = List ℕ
  Value (vector t) = List (Value t)
  Value (optional t) = Option (Value t)
  Value (array t n) = List (Value t)
  Value (variant ts) = Choice ts
  Value (duration n num den) = ℕ
  Value span = List ℕ
  Value data_holder = List ℕ

  pub Fields : Tys → Type 0
  Fields nil = Unit
  Fields (cons t ts) = Value t × Fields ts

  pub Choice : Tys → Type 0
  Choice nil = ⊥
  Choice (cons t ts) = Value t ⊎ Choice ts

abbrev pub IsByte : ℕ → Type 0
IsByte b = b < 256

-- A byte string whose size fits the uint16_t that is sent before it.
abbrev pub IsText : List ℕ → Type 0
IsText s = (length s < 2 ^ 16) × All IsByte s

abbrev pub WhenSome : {A : Type 0} → (A → Type 0) → Option A → Type 0
WhenSome P none = Unit
WhenSome P (some a) = P a

abbrev mutual
  pub IsWf : (t : Ty) → Value t → Type 0
  IsWf (arithmetic k n) v = v < 256 ^ n
  IsWf (enumeration n) v = v < 256 ^ n
  IsWf (structure ts) v = AreWf ts v
  IsWf string v = IsText v
  IsWf (vector t) v = (length v < 2 ^ 16) × All (IsWf t) v
  IsWf (optional t) v = WhenSome (IsWf t) v
  IsWf (array t n) v = (length v ≡ n) × All (IsWf t) v
  IsWf (variant ts) v = IsWfChoice ts v
  IsWf (duration n num den) v = v < 256 ^ n
  IsWf span v = IsText v
  IsWf data_holder v = Unit

  pub AreWf : (ts : Tys) → Fields ts → Type 0
  AreWf nil v = Unit
  AreWf (cons t ts) v = IsWf t v.0 × AreWf ts v.1

  pub IsWfChoice : (ts : Tys) → Choice ts → Type 0
  IsWfChoice nil v = Unit
  IsWfChoice (cons t ts) (inl v) = IsWf t v
  IsWfChoice (cons t ts) (inr v) = IsWfChoice ts v

abbrev pub count : Tys → ℕ
count nil = 0
count (cons t ts) = suc (count ts)

abbrev pub index : (ts : Tys) → Choice ts → ℕ
index nil v = 0
index (cons t ts) (inl v) = 0
index (cons t ts) (inr v) = suc (index ts v)

-- No `data_holder` inside, and every variant has an index that fits the uint8_t sent for it.
abbrev mutual
  pub IsPlain : Ty → Type 0
  IsPlain (structure ts) = ArePlain ts
  IsPlain (vector t) = IsPlain t
  IsPlain (optional t) = IsPlain t
  IsPlain (array t n) = IsPlain t
  IsPlain (variant ts) = (count ts ≤ 256) × ArePlain ts
  IsPlain data_holder = ⊥
  IsPlain _ = Unit

  pub ArePlain : Tys → Type 0
  ArePlain nil = Unit
  ArePlain (cons t ts) = IsPlain t × ArePlain ts
