-- ===== src/Serial/Hash/Described.antt =====
-- The type hash of common/wivrn_serialization.h against the text that describes the type.
use wi_vrn.Common.{
  ℕ, zero, suc, ◌+◌, ◌/◌, ◌%◌, ◌≡◌, refl, ap, List, [], ◌∷◌, ◌++◌, ltb, Bool-cases, inl, inr,
}
use wi_vrn.Serial.Types.{
  Ty, Tys, arithmetic, enumeration, structure, string, vector, optional, array, variant, duration,
  span, data_holder, nil, cons,
}
use wi_vrn.Serial.Hash.{
  feed, feed_unsigned, feed_int, type_hash, type_list_hash, serialization_type_hash,
  fnv_offset_basis, digits, describe, describe_list,
}

feed-append : (xs ys : List ℕ) (h : ℕ) → feed (xs ++ ys) h ≡ feed ys (feed xs h)
unfolding feed
feed-append [] ys h = refl
feed-append (x ∷ xs) ys h = feed-append xs ys _

feed-nil : (h : ℕ) → h ≡ feed [] h
unfolding feed
feed-nil h = refl

feed_unsigned-digits : (fuel n h : ℕ) → feed_unsigned fuel n h ≡ feed (digits fuel n) h
unfolding feed_unsigned
feed_unsigned-digits zero n h = unfold feed in refl
feed_unsigned-digits (suc fuel) n h = elim (Bool-cases (ltb n 10)) [
  | inl small ↦ rw small
  | inr large ↦
      rw (large, feed-append (digits fuel (n / 10)) ((b'0' + n % 10) ∷ []) h)
        (ap (feed ((b'0' + n % 10) ∷ [])) (feed_unsigned-digits fuel (n / 10) h))
]

feed_int-digits : (n h : ℕ) → feed_int n h ≡ feed (digits 20 n) h
unfolding feed_int
feed_int-digits n h = feed_unsigned-digits 20 n h

mutual
  unfolding type_hash

  type_hash-feed : (t : Ty) (h : ℕ) → type_hash t h ≡ feed (describe t) h
  type_hash-feed (arithmetic k n) h = simp (feed-append, feed_int-digits)
  type_hash-feed (enumeration n) h = simp (feed-append, feed_int-digits)
  type_hash-feed (structure ts) h = simp (feed-append, type_list_hash-feed ts)
  type_hash-feed string h = refl
  type_hash-feed (vector t) h = simp (feed-append, type_hash-feed t)
  type_hash-feed (optional t) h = simp (feed-append, type_hash-feed t)
  type_hash-feed (array t n) h = simp (feed-append, type_hash-feed t, feed_int-digits)
  type_hash-feed (variant ts) h = simp (feed-append, type_list_hash-feed ts)
  type_hash-feed (duration n num den) h = simp (feed-append, feed_int-digits)
  type_hash-feed span h = refl
  type_hash-feed data_holder h = feed-nil h

  type_list_hash-feed : (ts : Tys) (h : ℕ) → type_list_hash ts h ≡ feed (describe_list ts) h
  type_list_hash-feed nil h = feed-nil h
  type_list_hash-feed (cons t nil) h = type_hash-feed t h
  type_list_hash-feed (cons t (cons u us)) h =
      simp (feed-append, type_hash-feed t, type_list_hash-feed (cons u us))

-- The type hash of any type is what `feed` makes, from the offset basis, of the text that describes
-- the type.
pub serialization_type_hash-describe :
    (t : Ty) → serialization_type_hash t ≡ feed (describe t) fnv_offset_basis
unfolding serialization_type_hash
serialization_type_hash-describe t = type_hash-feed t fnv_offset_basis
