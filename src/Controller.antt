-- ===== src/Controller.antt =====
-- The inputs of `wivrn_controller` of server/driver/wivrn_controller.cpp. A device id and an index
-- of an input are the numbers of their enumerators, a float is its 32 bits, the value of an input is
-- the two words of its union, and an array is a function of the index.
mod Inputs
mod Runs
use wi_vrn.Common.{
  ℕ, ◌+◌, ◌*◌, ◌/◌, ◌%◌, ◌^◌, Bool, true, false, not, Option, none, some, List, [], ◌∷◌, ◌==◌,
  if◌then◌else◌, update,
}
use wi_vrn.ClockOffset.{Doubles, ClockOffset, from_headset}

pub data InputType : Type 0 where
  bool float vec2_x vec2_y : InputType

-- `wivrn_to_wivrn_controller_input`.
pub record Binding : Type 0 where
  pub input_id : ℕ
  pub wivrn_id : ℕ
  pub input_type : InputType

abbrev pub bind : ℕ → ℕ → InputType → Binding
bind input_id wivrn_id input_type = record {
  input_id = input_id;
  wivrn_id = wivrn_id;
  input_type = input_type;
}

-- WIVRN_CONTROLLER_INPUT_COUNT.
abbrev pub input_count : ℕ
input_count = 17

abbrev pub left_hand_bindings : List Binding
left_hand_bindings =
    bind 3 11 InputType.bool
    ∷ bind 4 7 InputType.bool
    ∷ bind 5 8 InputType.bool
    ∷ bind 6 9 InputType.bool
    ∷ bind 7 10 InputType.bool
    ∷ bind 3 11 InputType.bool
    ∷ bind 9 12 InputType.float
    ∷ bind 11 13 InputType.float
    ∷ bind 12 14 InputType.bool
    ∷ bind 13 15 InputType.vec2_x
    ∷ bind 13 16 InputType.vec2_y
    ∷ bind 14 17 InputType.bool
    ∷ bind 15 18 InputType.bool
    ∷ bind 16 19 InputType.bool
    ∷ []

abbrev pub right_hand_bindings : List Binding
right_hand_bindings =
    bind 4 20 InputType.bool
    ∷ bind 5 21 InputType.bool
    ∷ bind 6 22 InputType.bool
    ∷ bind 7 23 InputType.bool
    ∷ bind 9 25 InputType.float
    ∷ bind 11 26 InputType.float
    ∷ bind 12 27 InputType.bool
    ∷ bind 13 28 InputType.vec2_x
    ∷ bind 13 29 InputType.vec2_y
    ∷ bind 14 30 InputType.bool
    ∷ bind 15 31 InputType.bool
    ∷ bind 16 32 InputType.bool
    ∷ []

-- `xrt_input`: its time and its union.
pub record Input : Type 0 where
  pub timestamp : ℕ
  pub word0 : ℕ
  pub word1 : ℕ

-- `value != 0` of a float, which is false for both zeros.
abbrev pub is_nonzero : ℕ → Bool
is_nonzero value = not (value % 2 ^ 31 == 0)

abbrev pub byte_of : Bool → ℕ
byte_of b = if b then 1 else 0

-- The switch on the type of the input; a bool is the lowest byte of the union.
abbrev pub set_value : InputType → ℕ → Input → Input
set_value InputType.bool value i = record i {
  word0 = i.word0 / 256 * 256 + byte_of (is_nonzero value);
}
set_value InputType.float value i = record i { word0 = value }
set_value InputType.vec2_x value i = record i { word0 = value }
set_value InputType.vec2_y value i = record i { word1 = value }

pub record Controller : Type 0 where
  pub is_left : Bool
  pub inputs_staging : ℕ → Input
  pub inputs_array : ℕ → Input

abbrev pub bindings_of : Bool → List Binding
bindings_of is_left = if is_left then left_hand_bindings else right_hand_bindings

-- The first binding of the device id.
abbrev pub find_binding : List Binding → ℕ → Option Binding
find_binding [] input_id = none
find_binding (b ∷ bindings) input_id =
    if b.wivrn_id == input_id then some b else find_binding bindings input_id

abbrev pub write_binding : Option Binding → (value last_change_time : ℕ) → (ℕ → Input) → ℕ → Input
write_binding none value last_change_time staging = staging
write_binding (some b) value last_change_time staging =
    update staging b.input_id
      (set_value b.input_type value (record (staging b.input_id) { timestamp = last_change_time }))

-- `set_inputs` for one input.
abbrev pub set_input :
    (is_left : Bool) (input_id value last_change_time : ℕ) → (ℕ → Input) → ℕ → Input
set_input is_left input_id value last_change_time staging =
    write_binding (find_binding (bindings_of is_left) input_id) value last_change_time staging

-- `from_headset::inputs::input_value`.
pub record InputValue : Type 0 where
  pub id : ℕ
  pub value : ℕ
  pub last_change_time : ℕ

module _ {d : Doubles} where
  -- A time of 0 stays 0.
  abbrev pub change_time : ClockOffset d → ℕ → ℕ
  change_time o time = if time == 0 then 0 else from_headset o time

  abbrev pub set_all : Bool → ClockOffset d → List InputValue → (ℕ → Input) → ℕ → Input
  set_all is_left o [] staging = staging
  set_all is_left o (v ∷ values) staging =
      set_all is_left o values
        (set_input is_left v.id v.value (change_time o v.last_change_time) staging)

  -- `set_inputs` for a packet.
  unfoldable pub set_inputs : List InputValue → ClockOffset d → Controller → Controller
  set_inputs values o c = record c { inputs_staging = set_all c.is_left o values c.inputs_staging }

unfoldable pub update_inputs : Controller → Controller
update_inputs c = record c { inputs_array = c.inputs_staging }
