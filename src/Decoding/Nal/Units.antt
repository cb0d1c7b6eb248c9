-- ===== src/Decoding/Nal/Units.antt =====
-- The units that `filter_csd` of client/decoder/android/android_decoder.cpp cuts a packet into.

use wi_vrn.Common.{
  ℕ, zero, suc, ◌+◌, ◌-◌, ◌≤◌, ◌<◌, ◌≡◌, refl, ap, ◌∙◌, ◌⊎◌, inl, inr, List, [], ◌∷◌, ◌++◌, some,
  Bool, true, false, not, ◌&&◌, ◌==◌, if◌then◌else◌, length, get_elem?, take, drop, map, concat,
  arith, Bool-cases, Option-cases, length-drop, ==_iff,
}
use wi_vrn.Decoding.Nal.{
  NalClass, csd, payload, get_nal_class, is_header, search_header, follows_zero, next_header,
}

-- The bytes begin with a start code of three or four bytes.
abbrev pub StartsUnit : List ℕ → Type 0
StartsUnit bytes =
    (is_header bytes ≡ true) ⊎ ((get_elem? bytes 0 ≡ some 0) × (is_header (drop 1 bytes) ≡ true))

-- There is no header behind the one that a unit starts with.
abbrev pub HasOneHeader : List ℕ → Type 0
HasOneHeader unit = search_header (drop 3 unit) ≡ length (drop 3 unit)

abbrev pub ClassedUnit : Type 0
ClassedUnit = NalClass × List ℕ

abbrev pub bytes_of : List ClassedUnit → List ℕ
bytes_of units = concat (map (λ (u : ClassedUnit). u.1) units)

-- The units with their classes, each read where the unit starts in the packet.
abbrev pub AreUnits : List ClassedUnit → Type 0
AreUnits [] = Unit {0}
AreUnits (u ∷ units) =
    (get_nal_class (u.1 ++ bytes_of units) ≡ some u.0)
    × (HasOneHeader u.1 × (((bytes_of units ≡ []) ⊎ StartsUnit (bytes_of units)) × AreUnits units))

-- The bytes of the units of a class, in their order.
abbrev pub of_csd : List ClassedUnit → List ℕ
of_csd [] = []
of_csd (u ∷ units) = elim (u.0) [ csd ↦ u.1 ++ of_csd units | _ ↦ of_csd units ]

abbrev pub of_payload : List ClassedUnit → List ℕ
of_payload [] = []
of_payload (u ∷ units) = elim (u.0) [ payload ↦ u.1 ++ of_payload units | _ ↦ of_payload units ]

-- The last three bytes are a header.
unfoldable pub ends_in_header : List ℕ → Bool
ends_in_header [] = false
ends_in_header (a ∷ []) = false
ends_in_header (a ∷ b ∷ []) = false
ends_in_header (a ∷ b ∷ c ∷ []) = is_header (a ∷ b ∷ c ∷ [])
ends_in_header (a ∷ b ∷ c ∷ d ∷ more) = ends_in_header (b ∷ c ∷ d ∷ more)

ends_in_header-cons :
    (a : ℕ) (l : List ℕ) → ends_in_header (a ∷ l) ≡ false → ends_in_header l ≡ false
unfolding ends_in_header
ends_in_header-cons a [] h = refl
ends_in_header-cons a (b ∷ []) h = refl
ends_in_header-cons a (b ∷ c ∷ []) h = refl
ends_in_header-cons a (b ∷ c ∷ d ∷ more) h = h

pub ends_in_header-drop :
    (n : ℕ) (l : List ℕ) → ends_in_header l ≡ false → ends_in_header (drop n l) ≡ false
ends_in_header-drop zero l h = h
ends_in_header-drop (suc n) [] h = h
ends_in_header-drop (suc n) (a ∷ l) h = ends_in_header-drop n l (ends_in_header-cons a l h)

search_header-le : (l : List ℕ) → search_header l ≤ length l
unfolding search_header
search_header-le [] = omega arith
search_header-le (a ∷ l) = ground (arith, search_header-le l)

search_header-found :
    (l : List ℕ) → search_header l < length l → is_header (drop (search_header l) l) ≡ true
unfolding search_header
search_header-found [] h = absurd (omega arith)
search_header-found (a ∷ l) h = elim (Bool-cases (is_header (a ∷ l))) [
  | inl t ↦ rw t t
  | inr f ↦
      let shorter : search_header l < length l =
        let h' : suc (search_header l) < suc (length l) = rw f at h in omega arith in
      rw f (search_header-found l shorter)
]

is_header-take : (n : ℕ) (l : List ℕ) → is_header l ≡ false → is_header (take n l) ≡ false
unfolding is_header
is_header-take zero l h = refl
is_header-take (suc n) [] h = refl
is_header-take (suc zero) (a ∷ l) h = refl
is_header-take (suc (suc n)) (a ∷ []) h = refl
is_header-take (suc (suc zero)) (a ∷ b ∷ l) h = refl
is_header-take (suc (suc (suc n))) (a ∷ b ∷ []) h = refl
is_header-take (suc (suc (suc n))) (a ∷ b ∷ c ∷ l) h = h

-- There is no header in front of the first one.
search_header-take :
    (n : ℕ) (l : List ℕ) → n ≤ search_header l → search_header (take n l) ≡ length (take n l)
unfolding search_header
search_header-take zero l h = refl
search_header-take (suc n) [] h = refl
search_header-take (suc n) (a ∷ l) h = elim (Bool-cases (is_header (a ∷ l))) [
  | inl t ↦ absurd (let h' : suc n ≤ 0 = rw t at h in omega arith)
  | inr f ↦
      let h' : suc n ≤ suc (search_header l) = rw f at h in
      rw (is_header-take (suc n) (a ∷ l) f) (ap suc (search_header-take n l (omega arith)))
]

-- Where a unit may end: behind its own header, at the end or at the next start code.
pub record IsCut (nal : List ℕ) (offset : ℕ) : Type 0 where
  pub positive : 0 < offset
  pub within : offset ≤ length nal
  pub one_header : HasOneHeader (take offset nal)
  pub starts : (drop offset nal ≡ []) ⊎ StartsUnit (drop offset nal)

drop-drop_3 : (n : ℕ) (l : List ℕ) → drop (suc (suc (suc n))) l ≡ drop n (drop 3 l)
drop-drop_3 zero l = refl
drop-drop_3 (suc n) [] = refl
drop-drop_3 (suc n) (a ∷ []) = refl
drop-drop_3 (suc n) (a ∷ b ∷ []) = refl
drop-drop_3 (suc n) (a ∷ b ∷ c ∷ l) = refl

drop_3-take : (n : ℕ) (l : List ℕ) → drop 3 (take (suc (suc (suc n))) l) ≡ take n (drop 3 l)
drop_3-take zero [] = refl
drop_3-take zero (a ∷ []) = refl
drop_3-take zero (a ∷ b ∷ []) = refl
drop_3-take zero (a ∷ b ∷ c ∷ l) = refl
drop_3-take (suc n) [] = refl
drop_3-take (suc n) (a ∷ []) = refl
drop_3-take (suc n) (a ∷ b ∷ []) = refl
drop_3-take (suc n) (a ∷ b ∷ c ∷ l) = refl

drop-get_elem? :
    (k : ℕ) (l : List ℕ) (x : ℕ) → get_elem? l k ≡ some x → drop k l ≡ x ∷ drop (suc k) l
drop-get_elem? zero [] x h = cc
drop-get_elem? (suc k) [] x h = cc
drop-get_elem? zero (a ∷ l) x h = cc
drop-get_elem? (suc k) (a ∷ l) x h = drop-get_elem? k l x h

follows_zero-get_elem? :
    (nal : List ℕ) (offset : ℕ)
    → follows_zero nal offset ≡ true
    → get_elem? nal (offset - 1) ≡ some 0
unfolding follows_zero
follows_zero-get_elem? nal offset h = elim (Option-cases (get_elem? nal (offset - 1))) [
  | inl e ↦ let h' : false ≡ true = rw (e, follows_zero) at h in cc
  | inr (b, e) ↦
      let h' : (b == 0) ≡ true = rw (e, follows_zero) at h in
      e ∙ ap (λ (n : ℕ). some n) ((==_iff b 0).0 h')
]

drop_end : (l : List ℕ) → drop (length l) l ≡ []
drop_end [] = refl
drop_end (a ∷ l) = drop_end l

take_end : (l : List ℕ) → take (length l) l ≡ l
take_end [] = refl
take_end (a ∷ l) = ap (◌∷◌ a) (take_end l)

module _ (nal : List ℕ) (size : 3 ≤ length nal) where
  distance : ℕ
  distance = search_header (drop 3 nal)

  distance_le : suc (suc (suc distance)) ≤ length nal
  unfolding distance
  distance_le = omega (arith, search_header-le (drop 3 nal), length-drop 3 nal)

  one_header_before : (n : ℕ) → n ≤ distance → HasOneHeader (take (suc (suc (suc n))) nal)
  unfolding distance
  one_header_before n h = rw (drop_3-take n nal) (search_header-take n (drop 3 nal) h)

  header_found :
      suc (suc (suc distance)) < length nal → is_header (drop (suc (suc (suc distance))) nal) ≡ true
  unfolding distance
  header_found h =
      rw (drop-drop_3 (search_header (drop 3 nal)) nal)
        (search_header-found (drop 3 nal) (omega (arith, length-drop 3 nal)))

  IsCut-at_end : suc (suc (suc distance)) ≡ length nal → IsCut nal (suc (suc (suc distance)))
  IsCut-at_end e = record {
    positive = omega arith;
    within = omega arith;
    one_header = one_header_before distance (omega arith);
    starts = inl (rw e (drop_end nal));
  }

  IsCut-at_header : suc (suc (suc distance)) < length nal → IsCut nal (suc (suc (suc distance)))
  IsCut-at_header h = record {
    positive = omega arith;
    within = omega arith;
    one_header = one_header_before distance (omega arith);
    starts = inr (inl (header_found h));
  }

  one_header_short : HasOneHeader (take 2 nal)
  unfolding search_header
  one_header_short = two nal
    where
      two : (l : List ℕ) → HasOneHeader (take 2 l)
      two [] = refl
      two (a ∷ []) = refl
      two (a ∷ b ∷ l) = refl

  one_header_at : (d : ℕ) → d ≤ distance → HasOneHeader (take (suc (suc d)) nal)
  one_header_at zero h = one_header_short
  one_header_at (suc d) h = one_header_before d (omega arith)

  IsCut-before_zero :
      suc (suc (suc distance)) < length nal
      → get_elem? nal (suc (suc distance)) ≡ some 0
      → IsCut nal (suc (suc distance))
  IsCut-before_zero h z =
      let e : drop (suc (suc distance)) nal ≡ 0 ∷ drop (suc (suc (suc distance))) nal =
        drop-get_elem? (suc (suc distance)) nal 0 z in
      record {
        positive = omega arith;
        within = omega arith;
        one_header = one_header_at distance (omega arith);
        starts = inr (inr (rw e (refl, header_found h)));
      }

  next_header-distance : next_header nal ≡ (
      if not (suc (suc (suc distance)) == length nal) && follows_zero nal (suc (suc (suc distance)))
      then suc (suc distance)
      else suc (suc (suc distance)))
  unfolding next_header distance
  next_header-distance =
      let e : 3 + search_header (drop 3 nal) ≡ suc (suc (suc (search_header (drop 3 nal)))) =
        omega arith in
      let e' : suc (suc (suc (search_header (drop 3 nal)))) - 1
          ≡ suc (suc (search_header (drop 3 nal))) =
        omega arith in
      rw (e, e') refl

  pub next_header-IsCut : IsCut nal (next_header nal)
  next_header-IsCut =
      rw next_header-distance (elim (Bool-cases (suc (suc (suc distance)) == length nal)) [
        | inl t ↦ rw t (IsCut-at_end ((==_iff _ _).0 t))
        | inr f ↦
            let inner : suc (suc (suc distance)) < length nal = ground (arith, distance_le) in
            elim (Bool-cases (follows_zero nal (suc (suc (suc distance))))) [
              | inl z ↦
                  let less : suc (suc (suc distance)) - 1 ≡ suc (suc distance) = omega arith in
                  let zeroed = follows_zero-get_elem? nal (suc (suc (suc distance))) z in
                  rw (f, z) (IsCut-before_zero inner (rw less at zeroed))
              | inr n ↦ rw (f, n) (IsCut-at_header inner)
            ]
      ])
