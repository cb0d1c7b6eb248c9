-- ===== src/Decoding/Nal/Filtered.antt =====
-- What `filter_csd` of client/decoder/android/android_decoder.cpp keeps of a packet.

use wi_vrn.Common.{
  ℕ, zero, suc, ◌/◌, ◌%◌, ◌≤◌, ◌<◌, ◌≡◌, refl, sym, ap, ◌∙◌, ◌⊎◌, inl, inr, List, [], ◌∷◌, ◌++◌,
  some, false, ◌==◌, length, take, drop, arith, Bool-cases, length-drop, take-append-drop,
  append_assoc, append-nil, le→ltb,
}
use wi_vrn.Decoding.Nal.{
  NalClass, csd, garbage, payload, get_nal_class, is_header, next_header, inside, put, filter_loop,
  filter_csd, class_of,
}
use wi_vrn.Decoding.Nal.Units.{
  ClassedUnit, StartsUnit, bytes_of, AreUnits, of_csd, of_payload, ends_in_header,
  ends_in_header-drop, next_header-IsCut,
}

HasClass : List ℕ → Type 0
HasClass rest = (c : NalClass) × (get_nal_class rest ≡ some c)

class_long : (rest : List ℕ) → 5 ≤ length rest → HasClass rest
unfolding HasClass get_nal_class
class_long [] h = absurd (omega arith)
class_long (a ∷ []) h = absurd (omega arith)
class_long (a ∷ b ∷ []) h = absurd (omega arith)
class_long (a ∷ b ∷ c ∷ []) h = absurd (omega arith)
class_long (a ∷ b ∷ c ∷ d ∷ []) h = absurd (omega arith)
class_long (a ∷ b ∷ c ∷ d ∷ e ∷ more) h = elim (Bool-cases (c == 0)) [
  | inl t ↦ (class_of (e / 2 % 64), rw (t, get_nal_class) refl)
  | inr f ↦ (class_of (d / 2 % 64), rw (f, get_nal_class) refl)
]

-- A unit that is not only a start code at the end of the packet has a class to be read.
class_start :
    (rest : List ℕ)
    → StartsUnit rest
    → ends_in_header rest ≡ false
    → (3 ≤ length rest) × HasClass rest
unfolding HasClass get_nal_class is_header ends_in_header
class_start [] (inl h) n = cc
class_start [] (inr (z, h)) n = cc
class_start (a ∷ []) (inl h) n = cc
class_start (a ∷ []) (inr (z, h)) n = cc
class_start (a ∷ b ∷ []) (inl h) n = cc
class_start (a ∷ b ∷ []) (inr (z, h)) n = cc
class_start (a ∷ b ∷ c ∷ []) (inl h) n = cc
class_start (a ∷ b ∷ c ∷ []) (inr (z, h)) n = cc
class_start (a ∷ b ∷ c ∷ d ∷ []) (inl h) n =
    let one : c ≡ 1 = ground arith in (omega arith, (class_of (d / 2 % 64), rw one refl))
class_start (a ∷ b ∷ c ∷ d ∷ []) (inr (z, h)) n = cc
class_start (a ∷ b ∷ c ∷ d ∷ e ∷ more) h n =
    (omega arith, class_long (a ∷ b ∷ c ∷ d ∷ e ∷ more) (omega arith))

-- What the loop may stand at.
IsReady : List ℕ → Type 0
IsReady rest = (rest ≡ []) ⊎ ((3 ≤ length rest) × HasClass rest)

ready : (rest : List ℕ) → (rest ≡ []) ⊎ StartsUnit rest → ends_in_header rest ≡ false → IsReady rest
unfolding IsReady
ready rest (inl e) n = inl e
ready rest (inr s) n = inr (class_start rest s n)

Filtered : ℕ → List ℕ → List ℕ × List ℕ → Type 0
Filtered fuel rest out =
    (units : List ClassedUnit) × ((bytes_of units ≡ rest)
      × (AreUnits units
          × (filter_loop fuel rest out
              ≡ inside (out.0 ++ of_csd units, out.1 ++ of_payload units))))

put-units :
    (c : NalClass) (nal : List ℕ) (units : List ClassedUnit) (out : List ℕ × List ℕ)
    → ((put c nal out).0 ++ of_csd units ≡ out.0 ++ of_csd ((c, nal) ∷ units))
      × ((put c nal out).1 ++ of_payload units ≡ out.1 ++ of_payload ((c, nal) ∷ units))
unfolding put
put-units csd nal units out = (append_assoc out.0 nal (of_csd units), refl)
put-units payload nal units out = (refl, append_assoc out.1 nal (of_payload units))
put-units garbage nal units out = (refl, refl)

loop_step :
    (fuel : ℕ) (rest : List ℕ) (out : List ℕ × List ℕ) (c : NalClass)
    → 3 ≤ length rest
    → get_nal_class rest ≡ some c
    → filter_loop (suc fuel) rest out
      ≡ filter_loop fuel (drop (next_header rest) rest) (put c (take (next_header rest) rest) out)
unfolding filter_loop
loop_step fuel [] out c size e = absurd (omega arith)
loop_step fuel (a ∷ more) out c size e = rw (le→ltb (suc (length more)) 3 size, e) refl

join :
    (fuel : ℕ) (rest : List ℕ) (out : List ℕ × List ℕ) (c : NalClass)
    → 3 ≤ length rest
    → get_nal_class rest ≡ some c
    → Filtered fuel (drop (next_header rest) rest) (put c (take (next_header rest) rest) out)
    → Filtered (suc fuel) rest out
unfolding Filtered
join fuel rest out c size e (units, (bytes, (are, run))) =
    let nal = take (next_header rest) rest in
    let cut = next_header-IsCut rest size in
    let whole : nal ++ bytes_of units ≡ rest =
      ap (λ l. nal ++ l) bytes ∙ take-append-drop (next_header rest) rest in
    (
      (c, nal) ∷ units,
      (
        whole,
        (
          (rw whole e, (cut.one_header, (rw bytes cut.starts, are))),
          loop_step fuel rest out c size e ∙ run ∙ (λ i.
              inside (((put-units c nal units out).0 i), ((put-units c nal units out).1 i))),
        ),
      ),
    )

filtered_end :
    (fuel : ℕ) (rest : List ℕ) (out : List ℕ × List ℕ) → rest ≡ [] → Filtered (suc fuel) rest out
unfolding Filtered filter_loop
filtered_end fuel [] out e =
    ([], (refl, (tt, λ i. inside (sym (append-nil out.0) i, sym (append-nil out.1) i))))
filtered_end fuel (a ∷ rest) out e = cc

filter_loop-Filtered :
    (fuel : ℕ) (rest : List ℕ) (out : List ℕ × List ℕ)
    → length rest < fuel
    → ends_in_header rest ≡ false
    → IsReady rest
    → Filtered fuel rest out
unfolding IsReady HasClass
filter_loop-Filtered zero rest out h n r = absurd (omega arith)
filter_loop-Filtered (suc fuel) rest out h n (inl e) = filtered_end fuel rest out e
filter_loop-Filtered (suc fuel) rest out h n (inr (size, (c, e))) =
    let cut = next_header-IsCut rest size in
    let n' = ends_in_header-drop (next_header rest) rest n in
    join fuel rest out c size e (
      filter_loop-Filtered fuel (drop (next_header rest) rest)
        (put c (take (next_header rest) rest) out)
        (omega (arith, cut.positive, length-drop (next_header rest) rest)) n'
        (ready (drop (next_header rest) rest) cut.starts n'))

-- From a packet of five bytes or more that does not end in a header, `filter_csd` keeps what it is
-- to keep: the packet is a sequence of units, each of which begins with a start code, but for the
-- first one, and has no header behind that; what comes back is the bytes of the units of parameter
-- sets, and the bytes of those that are neither that nor delimiters or filler, in their order; and
-- nothing is read outside the packet.
pub filter_csd-units :
    (packet : List ℕ)
    → 5 ≤ length packet
    → ends_in_header packet ≡ false
    → (units : List ClassedUnit) × ((bytes_of units ≡ packet)
        × (AreUnits units × (filter_csd packet ≡ inside (of_csd units, of_payload units))))
unfolding filter_csd Filtered IsReady
filter_csd-units packet h n = rw (le→ltb (length packet) 4 (omega arith)) (
    filter_loop-Filtered (suc (length packet)) packet ([], []) (omega arith) n
      (inr (omega arith, class_long packet h)))
