-- ===== src/Serial/Runs.antt =====
-- Concrete values through the serialisation.
use wi_vrn.Common.{◌≡◌, refl, [], ◌∷◌, ◌++◌, some, arith, length}
use wi_vrn.Common.{ok}
use wi_vrn.Serial.Types.{
  Ty, uint, arithmetic, string, vector, optional, structure, nil, cons, Value,
}
use wi_vrn.Serial.Packet.{clear, wire, IsValid}
use wi_vrn.Serial.Packet.Wire.{clear-IsValid}
use wi_vrn.Serial.Cursor.{Cursor, advance}
use wi_vrn.Serial.Encoding.{serialize, deserialize, encode}
use wi_vrn.Serial.Encoding.Writing.{wire-serialize}
use wi_vrn.Serial.Encoding.RoundTrip.{deserialize-encode}
use wi_vrn.Serial.Encoding.Safety.{Outcome, deserialize-Outcome}
use wi_vrn.Serial.Hash.{feed, codes, fnv_offset_basis}

-- A name, and an optional list of 16-bit numbers.
abbrev entry : Ty
entry = structure (cons string (cons (optional (vector (arithmetic uint 2))) nil))

abbrev entry_value : Value entry
entry_value = (72 ∷ 105 ∷ [], (some (258 ∷ 7 ∷ []), tt))

-- A byte before the entry, and a byte after it.
abbrev entry_bytes : Cursor
entry_bytes = record {
  buffer = 9 ∷ 2 ∷ 0 ∷ 72 ∷ 105 ∷ 1 ∷ 2 ∷ 0 ∷ 2 ∷ 1 ∷ 7 ∷ 0 ∷ 3 ∷ [];
  read_index = 1;
}

deserialize-encode_example :
    deserialize entry entry_bytes
    ≡ ok (entry_value, advance entry_bytes (length (encode entry entry_value)))
deserialize-encode_example =
    deserialize-encode entry entry_value entry_bytes (3 ∷ []) (tt, (tt, tt))
      (
        (omega arith, (omega arith, (omega arith, tt))),
        ((omega arith, (omega arith, (omega arith, tt))), tt),
      )
      (record { inside = omega arith; small = omega arith; left = refl })

-- The last number is cut off.
abbrev short_bytes : Cursor
short_bytes = record { buffer = 2 ∷ 0 ∷ 72 ∷ 105 ∷ 1 ∷ 2 ∷ 0 ∷ 2 ∷ 1 ∷ 7 ∷ []; read_index = 0 }

deserialize-Outcome_example : Outcome short_bytes (deserialize entry short_bytes)
deserialize-Outcome_example =
    deserialize-Outcome entry short_bytes (tt, (tt, tt)) (omega arith, omega arith)

wire-serialize_example :
    IsValid (serialize entry entry_value clear)
    × (wire (serialize entry entry_value clear) ≡ wire clear ++ encode entry entry_value)
wire-serialize_example = wire-serialize entry entry_value clear clear-IsValid

-- A published value of the 64-bit FNV-1a hash.
fnv_run : feed (codes "foobar") fnv_offset_basis ≡ 0x85944171f73967e8
unfolding feed
fnv_run = refl
