-- ===== src/Controller/Inputs.antt =====
-- What the inputs of server/driver/wivrn_controller.cpp read after a packet.
use mathlib.Core.Option.{some-injective}
use mathlib.Core.Path.{subst}
use wi_vrn.Common.{
  ℕ, ◌%◌, ◌<◌, ◌≡◌, ◌≢◌, inl, inr, refl, sym, ap, ◌∙◌, Bool, true, false, not, ◌&&◌, ◌||◌, some,
  List, [], ◌∷◌, arith, ltb, ltb→lt, ◌==◌, ==_iff, if◌then◌else◌, Bool-cases, Option-cases,
  update-same,
}
use wi_vrn.ClockOffset.{Doubles, ClockOffset}
use wi_vrn.Controller.{
  InputType, Binding, Input, InputValue, Controller, input_count, bindings_of, find_binding,
  set_value, write_binding, set_input, change_time, set_all, set_inputs, update_inputs, is_nonzero,
  byte_of,
}

-- What is read back from an input of a type.
abbrev pub read : InputType → Input → ℕ
read InputType.bool i = i.word0 % 256
read InputType.float i = i.word0
read InputType.vec2_x i = i.word0
read InputType.vec2_y i = i.word1

abbrev pub encoded : InputType → ℕ → ℕ
encoded InputType.bool value = byte_of (is_nonzero value)
encoded InputType.float value = value
encoded InputType.vec2_x value = value
encoded InputType.vec2_y value = value

-- The last value that the packet has for the device id.
abbrev pub last_value : ℕ → InputType → List InputValue → ℕ → ℕ
last_value id type [] old = old
last_value id type (v ∷ values) old =
    last_value id type values (if v.id == id then encoded type v.value else old)

abbrev is_vec2_pair : InputType → InputType → Bool
is_vec2_pair InputType.vec2_x InputType.vec2_y = true
is_vec2_pair InputType.vec2_y InputType.vec2_x = true
is_vec2_pair s t = false

-- Two bindings have the same device id, or do not share what they write.
abbrev are_apart : Binding → Binding → Bool
are_apart a b =
    (a.wivrn_id == b.wivrn_id)
    || not (a.input_id == b.input_id)
    || is_vec2_pair a.input_type b.input_type

abbrev all_of : (Binding → Bool) → List Binding → Bool
all_of p [] = true
all_of p (b ∷ bindings) = p b && all_of p bindings

and-left : (a b : Bool) → a && b ≡ true → a ≡ true
and-left true b h = refl
and-left false b h = h

and-right : (a b : Bool) → a && b ≡ true → b ≡ true
and-right true b h = h
and-right false b h = absurd (ground (arith, h))

found :
    (p : Binding → Bool) (bindings : List Binding) (id : ℕ) (b : Binding)
    → all_of p bindings ≡ true
    → find_binding bindings id ≡ some b
    → (p b ≡ true) × (b.wivrn_id ≡ id)
found p [] id b all e = absurd (ground (arith, e))
found p (a ∷ bindings) id b all e = elim (Bool-cases (a.wivrn_id == id)) [
  | inl same ↦
      let is_b : a ≡ b =
        some-injective _ _
          (sym (ap (λ c. if c then some a else find_binding bindings id) same) ∙ e) in
      (
        subst (λ c. p c ≡ true) is_b (and-left (p a) (all_of p bindings) all),
        subst (λ c. c.wivrn_id ≡ id) is_b ((==_iff a.wivrn_id id).0 same),
      )
  | inr other ↦
      found p bindings id b (and-right (p a) (all_of p bindings) all)
        (sym (ap (λ c. if c then some a else find_binding bindings id) other) ∙ e)
]

tables_apart :
    (is_left : Bool)
    → all_of (λ a. all_of (are_apart a) (bindings_of is_left)) (bindings_of is_left) ≡ true
tables_apart true = refl
tables_apart false = refl

tables_bounded :
    (is_left : Bool) → all_of (λ b. ltb b.input_id input_count) (bindings_of is_left) ≡ true
tables_bounded true = refl
tables_bounded false = refl

read-set :
    (type : InputType) (value : ℕ) (i : Input)
    → read type (set_value type value i) ≡ encoded type value
read-set InputType.bool value i = elim (Bool-cases (is_nonzero value)) [
  | inl e ↦ rw e (omega arith)
  | inr e ↦ rw e (omega arith)
]
read-set InputType.float value i = refl
read-set InputType.vec2_x value i = refl
read-set InputType.vec2_y value i = refl

read-set-pair :
    (s t : InputType) (value : ℕ) (i : Input)
    → is_vec2_pair s t ≡ true
    → read t (set_value s value i) ≡ read t i
read-set-pair InputType.vec2_x InputType.vec2_y value i h = refl
read-set-pair InputType.vec2_y InputType.vec2_x value i h = refl
read-set-pair InputType.bool t value i h = absurd (ground (arith, h))
read-set-pair InputType.float t value i h = absurd (ground (arith, h))
read-set-pair InputType.vec2_x InputType.bool value i h = absurd (ground (arith, h))
read-set-pair InputType.vec2_x InputType.float value i h = absurd (ground (arith, h))
read-set-pair InputType.vec2_x InputType.vec2_x value i h = absurd (ground (arith, h))
read-set-pair InputType.vec2_y InputType.bool value i h = absurd (ground (arith, h))
read-set-pair InputType.vec2_y InputType.float value i h = absurd (ground (arith, h))
read-set-pair InputType.vec2_y InputType.vec2_y value i h = absurd (ground (arith, h))

read-time :
    (type : InputType) (i : Input) (time : ℕ)
    → read type (record i { timestamp = time }) ≡ read type i
read-time InputType.bool i time = refl
read-time InputType.float i time = refl
read-time InputType.vec2_x i time = refl
read-time InputType.vec2_y i time = refl

-- The input of `a` is written; that of `b` is read.
read-write-other :
    (a b : Binding) (value time : ℕ) (staging : ℕ → Input)
    → a.wivrn_id ≢ b.wivrn_id
    → are_apart a b ≡ true
    → read b.input_type (write_binding (some a) value time staging b.input_id)
      ≡ read b.input_type (staging b.input_id)
read-write-other a b value time staging ne h = elim (Bool-cases (a.input_id == b.input_id)) [
  | inl same ↦ rw same (
      read-set-pair a.input_type b.input_type value
        (record (staging a.input_id) { timestamp = time }) (ground (arith, same, h, ne))
      ∙ read-time b.input_type (staging a.input_id) time
      ∙ ap (λ k. read b.input_type (staging k)) ((==_iff a.input_id b.input_id).0 same))
  | inr other ↦ rw other refl
]

read-write-same :
    (b : Binding) (value time : ℕ) (staging : ℕ → Input)
    → read b.input_type (write_binding (some b) value time staging b.input_id)
      ≡ encoded b.input_type value
read-write-same b value time staging =
    ap (read b.input_type) (
      update-same staging b.input_id
        (set_value b.input_type value (record (staging b.input_id) { timestamp = time })))
    ∙ read-set b.input_type value (record (staging b.input_id) { timestamp = time })

module _ (is_left : Bool) (id : ℕ) (b : Binding) where
  of_other :
      (v value time : ℕ) (staging : ℕ → Input)
      → find_binding (bindings_of is_left) id ≡ some b
      → v ≢ id
      → read b.input_type (set_input is_left v value time staging b.input_id)
        ≡ read b.input_type (staging b.input_id)
  of_other v value time staging bound ne =
      elim (Option-cases (find_binding (bindings_of is_left) v)) [
        | inl unbound ↦
            ap (λ o. read b.input_type (write_binding o value time staging b.input_id)) unbound
        | inr (a, is_bound) ↦
            let (ok, va) =
              found (λ a. all_of (are_apart a) (bindings_of is_left)) (bindings_of is_left) v a
                (tables_apart is_left) is_bound in
            let (apart, vb) = found (are_apart a) (bindings_of is_left) id b ok bound in
            ap (λ o. read b.input_type (write_binding o value time staging b.input_id)) is_bound
            ∙ read-write-other a b value time staging (λ e. ne (sym va ∙ e ∙ vb)) apart
      ]

  read-set_input :
      (v value time : ℕ) (staging : ℕ → Input)
      → find_binding (bindings_of is_left) id ≡ some b
      → read b.input_type (set_input is_left v value time staging b.input_id)
        ≡ (if v == id then encoded b.input_type value else read b.input_type (staging b.input_id))
  read-set_input v value time staging bound = elim (Bool-cases (v == id)) [
    | inl same ↦ rw same (
        ap (λ o. read b.input_type (write_binding o value time staging b.input_id))
          (ap (find_binding (bindings_of is_left)) ((==_iff v id).0 same) ∙ bound)
        ∙ read-write-same b value time staging)
    | inr other ↦ rw other (of_other v value time staging bound (λ e. ground (arith, other, e)))
  ]

module _ {d : Doubles} where
  read-set_all :
      (is_left : Bool) (id : ℕ) (b : Binding) (o : ClockOffset d) (values : List InputValue)
      (staging : ℕ → Input)
      → find_binding (bindings_of is_left) id ≡ some b
      → read b.input_type (set_all is_left o values staging b.input_id)
        ≡ last_value id b.input_type values (read b.input_type (staging b.input_id))
  read-set_all is_left id b o [] staging bound = refl
  read-set_all is_left id b o (v ∷ values) staging bound =
      let next = set_input is_left v.id v.value (change_time o v.last_change_time) staging in
      read-set_all is_left id b o values next bound
      ∙ ap (last_value id b.input_type values) (
          read-set_input is_left id b v.id v.value (change_time o v.last_change_time) staging bound)

  -- Once a packet was handled and the inputs are updated, the input that a device id is bound to,
  -- which is one of the controller's, reads the last value that the packet has for that id, or what
  -- was staged before if it has none, whatever else is in the packet.
  pub update_inputs-last :
      (c : Controller) (o : ClockOffset d) (values : List InputValue) (id : ℕ) (b : Binding)
      → find_binding (bindings_of c.is_left) id ≡ some b
      → (b.input_id < input_count)
        × (read b.input_type ((update_inputs (set_inputs values o c)).inputs_array b.input_id)
            ≡ last_value id b.input_type values (read b.input_type (c.inputs_staging b.input_id)))
  unfolding update_inputs set_inputs
  update_inputs-last c o values id b bound = (
    ltb→lt b.input_id input_count
        (found (λ b. ltb b.input_id input_count) (bindings_of c.is_left) id b
          (tables_bounded c.is_left) bound).0,
    read-set_all c.is_left id b o values c.inputs_staging bound,
  )
