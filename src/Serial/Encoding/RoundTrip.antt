-- ===== src/Serial/Encoding/RoundTrip.antt =====
-- `deserialize` of common/wivrn_serialization.h on what `serialize` wrote.
use wi_vrn.Common.{
  ℕ, suc, ◌-◌, ◌<◌, ◌≤◌, ◌≡◌, sym, ap, ◌∙◌, List, [], ◌++◌, Option, none, some, inl, inr, length,
  append-nil, arith, leb, ◌==◌, false, if◌then◌else◌,
}
use wi_vrn.Common.{Result, ok, err, deserialization_error, ◌>>=◌}
use wi_vrn.Serial.Types.{
  Ty, Tys, arithmetic, enumeration, structure, string, vector, optional, array, variant, duration,
  span, data_holder, nil, cons, Value, Fields, Choice, index, count, WhenSome, IsWf, AreWf,
  IsWfChoice, IsPlain, ArePlain,
}
use wi_vrn.Serial.Packet.{wire, clear}
use wi_vrn.Serial.Packet.Wire.{clear-IsValid, wire-clear}
use wi_vrn.Serial.Cursor.{Cursor, At, advance}
use wi_vrn.Serial.Encoding.{
  deserialize_vector, deserialize_optional, deserialize, deserialize_fields, deserialize_aux,
  encode, encode_fields, encode_choice, serialize,
}
use wi_vrn.Serial.Encoding.Writing.{wire-serialize}
use wi_vrn.Serial.Encoding.Reading.{
  Reads, Reads-bind, Reads-map, Reads-n, Reads-vector, Reads-span, Reads-text, Reads-number,
  Reads-pure, Reads-size,
}

index-lt-count : (ts : Tys) (v : Choice ts) → index ts v < count ts
index-lt-count nil v = absurd v
index-lt-count (cons t ts) (inl v) = omega arith
index-lt-count (cons t ts) (inr v) = omega (arith, index-lt-count ts v)

leb-count : (ts : Tys) (v : Choice ts) → leb (count ts) (index ts v) ≡ false
leb-count ts v = ground (arith, index-lt-count ts v)

Reads-optional :
    (t : Ty) (f : Cursor → Result (Value t × Cursor))
    → ((v : Value t) → IsWf t v → Reads f (encode t v) v)
    → (v : Option (Value t)) → WhenSome (IsWf t) v
    → Reads (deserialize_optional f) (encode (optional t) v) v
unfolding deserialize_optional
Reads-optional t f one none h =
    Reads-bind (λ flag c. if flag == 0 then ok (none, c) else (f c >>= λ r. ok (some r.0, r.1)))
      (Reads-number 1 0 (omega arith)) (Reads-pure none)
Reads-optional t f one (some v) h =
    Reads-bind (λ flag c. if flag == 0 then ok (none, c) else (f c >>= λ r. ok (some r.0, r.1)))
      (Reads-number 1 1 (omega arith)) (Reads-map some (one v h))

Reads-alternative :
    (t : Ty) (ts : Tys)
    → ((v : Value t) → IsWf t v → Reads (deserialize t) (encode t v) v)
    → ((v : Choice ts)
        → IsWfChoice ts v
        → Reads (deserialize_aux ts (index ts v)) (encode_choice ts v) v)
    → (v : Choice (cons t ts)) → IsWfChoice (cons t ts) v
    → Reads (deserialize_aux (cons t ts) (index (cons t ts) v)) (encode_choice (cons t ts) v) v
unfolding deserialize
Reads-alternative t ts first later (inl v) w = Reads-map inl (first v w)
Reads-alternative t ts first later (inr v) w =
    let e : suc (index ts v) - 1 ≡ index ts v = omega arith in
    let d : (suc (index ts v) == 0) ≡ false = ground arith in
    record { at = λ c rest h. rw (d, e) ((Reads-map inr (later v w)).at c rest h) }

Reads-variant :
    (ts : Tys) (v : Choice ts)
    → count ts ≤ 256
    → Reads (deserialize_aux ts (index ts v)) (encode_choice ts v) v
    → Reads (deserialize (variant ts)) (encode (variant ts) v) v
unfolding deserialize
Reads-variant ts v h r =
    Reads-bind
      (λ i c. if leb (count ts) i then err deserialization_error else deserialize_aux ts i c)
      (Reads-number 1 (index ts v) (omega (arith, index-lt-count ts v))) (rw (leb-count ts v) r)

mutual
  unfolding deserialize

  Reads-deserialize :
      (t : Ty) (v : Value t) → IsPlain t → IsWf t v → Reads (deserialize t) (encode t v) v
  Reads-deserialize (arithmetic k n) v p w = Reads-number n v w
  Reads-deserialize (enumeration n) v p w = Reads-number n v w
  Reads-deserialize (structure ts) v p w = Reads-fields ts v p w
  Reads-deserialize string v p w = Reads-text v w.0
  Reads-deserialize (vector t) v p w =
      Reads-bind (deserialize_vector t (deserialize t)) (Reads-size (length v) w.0)
        (Reads-vector t (deserialize t) (λ x h. Reads-deserialize t x p h) v w.1)
  Reads-deserialize (optional t) v p w =
      Reads-optional t (deserialize t) (λ x h. Reads-deserialize t x p h) v w
  Reads-deserialize (array t n) v p w =
      rw (sym w.0)
        (Reads-n (deserialize t) (encode t) (IsWf t) (λ x h. Reads-deserialize t x p h) v w.1)
  Reads-deserialize (variant ts) v p w = Reads-variant ts v p.0 (Reads-aux ts v p.1 w)
  Reads-deserialize (duration n num den) v p w = Reads-number n v w
  Reads-deserialize span v p w = Reads-span v w.0
  Reads-deserialize data_holder v p w = absurd p

  Reads-fields :
      (ts : Tys) (v : Fields ts)
      → ArePlain ts
      → AreWf ts v
      → Reads (deserialize_fields ts) (encode_fields ts v) v
  Reads-fields nil v p w = Reads-pure v
  Reads-fields (cons t ts) v p w =
      Reads-bind (λ x c. deserialize_fields ts c >>= λ r. ok ((x, r.0), r.1))
        (Reads-deserialize t v.0 p.0 w.0)
        (Reads-map (λ xs. (v.0, xs)) (Reads-fields ts v.1 p.1 w.1))

  Reads-aux :
      (ts : Tys) (v : Choice ts)
      → ArePlain ts
      → IsWfChoice ts v
      → Reads (deserialize_aux ts (index ts v)) (encode_choice ts v) v
  Reads-aux nil v p w = absurd v
  Reads-aux (cons t ts) v p w =
      Reads-alternative t ts (λ x h. Reads-deserialize t x p.0 h) (λ x h. Reads-aux ts x p.1 h) v w

-- Whatever follows it in the buffer, a value of a plain type that fits its C++ type and its size
-- fields is read back from its encoding, and the read index ends just behind the encoding. The buffer
-- is shorter than 2^64 bytes.
pub deserialize-encode :
    (t : Ty) (v : Value t) (c : Cursor) (rest : List ℕ)
    → IsPlain t
    → IsWf t v
    → At c (encode t v ++ rest)
    → deserialize t c ≡ ok (v, advance c (length (encode t v)))
deserialize-encode t v c rest p w h = (Reads-deserialize t v p w).at c rest h

-- A packet holding one serialised value is read back by `deserialize`, if what is left to read is
-- exactly what went out.
pub deserialize-serialize :
    (t : Ty) (v : Value t) (c : Cursor)
    → IsPlain t
    → IsWf t v
    → At c (wire (serialize t v clear))
    → deserialize t c ≡ ok (v, advance c (length (wire (serialize t v clear))))
deserialize-serialize t v c p w h =
    let e : wire (serialize t v clear) ≡ encode t v =
      (wire-serialize t v clear clear-IsValid).1 ∙ ap (λ xs. xs ++ encode t v) wire-clear in
    rw e (deserialize-encode t v c [] p w (rw (append-nil (encode t v)) (rw e at h)))
