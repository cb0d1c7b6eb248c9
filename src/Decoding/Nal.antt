-- ===== src/Decoding/Nal.antt =====
-- `filter_csd` and `get_nal_class_h265` of client/decoder/android/android_decoder.cpp, which cut what
-- the encoder made into NAL units. An iterator into the packet is what is left of the packet there.

pub mod Units
pub mod Filtered
use wi_vrn.Common.{
  ℕ, zero, suc, ◌+◌, ◌-◌, ◌/◌, ◌%◌, List, [], ◌∷◌, ◌++◌, Option, none, some, Bool, true, false, not,
  ◌&&◌, ltb, ◌==◌, if◌then◌else◌, length, get_elem?, take, drop,
}

pub data NalClass : Type 0 where
  csd garbage : NalClass
  payload : NalClass

abbrev vps : ℕ
vps = 32

abbrev sps : ℕ
sps = 33

abbrev pps : ℕ
pps = 34

abbrev aud : ℕ
aud = 35

abbrev filler : ℕ
filler = 38

pub class_of : ℕ → NalClass
class_of nal_type =
    if nal_type == vps
    then csd
    else if nal_type == sps
    then csd
    else if nal_type == pps
    then csd
    else if nal_type == aud
    then garbage
    else if nal_type == filler
    then garbage
    else payload

-- `none` where the code reads behind the end of the packet.
unfoldable pub get_nal_class : List ℕ → Option NalClass
get_nal_class nal = elim (get_elem? nal 2) [
  | none ↦ none
  | some third ↦ elim (get_elem? nal (if third == 0 then 4 else 3)) [
    | none ↦ none
    | some header ↦ some (class_of (header / 2 % 64))
  ]
]

-- The bytes begin with `header`, 0 0 1.
unfoldable pub is_header : List ℕ → Bool
is_header [] = false
is_header (a ∷ []) = false
is_header (a ∷ b ∷ []) = false
is_header (a ∷ b ∷ c ∷ more) = a == 0 && (b == 0 && c == 1)

-- `std::search`: how far the next header is away, or the end if there is none.
unfoldable pub search_header : List ℕ → ℕ
search_header [] = 0
search_header (a ∷ more) = if is_header (a ∷ more) then 0 else suc (search_header more)

-- `next_header[-1] == 0`, for an offset.
pub follows_zero : List ℕ → ℕ → Bool
follows_zero nal offset = elim (get_elem? nal (offset - 1)) [ none ↦ false | some b ↦ b == 0 ]

-- The offset of `next_header`.
unfoldable pub next_header : List ℕ → ℕ
unfolding follows_zero
next_header nal =
    let found = 3 + search_header (drop 3 nal) in
    if not (found == length nal) && follows_zero nal found then found - 1 else found

-- The outcome of reading a packet: what was found, a read outside of it, or no end in sight.
pub data Reading {ℓ} (A : Type ℓ) : Type ℓ where
  inside : A → Reading A
  outside : Reading A
  endless : Reading A

unfoldable pub put : NalClass → List ℕ → List ℕ × List ℕ → List ℕ × List ℕ
put csd nal out = (out.0 ++ nal, out.1)
put payload nal out = (out.0, out.1 ++ nal)
put garbage nal out = out

-- The loop, each turn of which takes a byte at least. `header_start + 3` is behind the end where
-- fewer than three bytes are left.
unfoldable pub filter_loop : ℕ → List ℕ → List ℕ × List ℕ → Reading (List ℕ × List ℕ)
filter_loop zero header_start out = endless
filter_loop (suc fuel) header_start out = elim header_start [
  | [] ↦ inside out
  | a ∷ more ↦ if ltb (length (a ∷ more)) 3 then outside else elim (get_nal_class (a ∷ more)) [
    | none ↦ outside
    | some class ↦
        filter_loop fuel (drop (next_header (a ∷ more)) (a ∷ more))
          (put class (take (next_header (a ∷ more)) (a ∷ more)) out)
  ]
]

unfoldable pub filter_csd : List ℕ → Reading (List ℕ × List ℕ)
unfolding filter_loop get_nal_class class_of next_header search_header is_header put
filter_csd packet =
    if ltb (length packet) 4
    then inside ([], [])
    else filter_loop (suc (length packet)) packet ([], [])
