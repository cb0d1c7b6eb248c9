-- ===== src/Controller/Runs.antt =====
-- A packet of inputs for the left controller of server/driver/wivrn_controller.cpp.
use wi_vrn.Common.{ℕ, ◌+◌, ◌-◌, ◌*◌, ◌/◌, ◌<◌, ◌≡◌, refl, true, List, [], ◌∷◌}
use wi_vrn.ClockOffset.{Doubles, ClockOffset, from_headset}
use wi_vrn.Controller.{
  InputType, bind, InputValue, Controller, input_count, set_inputs, update_inputs,
}
use wi_vrn.Controller.Inputs.{read, last_value, update_inputs-last}

abbrev integers : Doubles
integers = record {
  Double = ℕ;
  zero_double = 0;
  one_double = 1;
  half = 1;
  plus = λ a b. a + b;
  minus = λ a b. a - b;
  times = λ a b. a * b;
  over = λ a b. a / b;
  of_int = λ a. a;
  of_size = λ a. a;
  to_int = λ a. a;
}

abbrev offset : ClockOffset integers
offset = record { b = 5; a = 1 }

abbrev left : Controller
left = record {
  is_left = true;
  inputs_staging = λ i. record { timestamp = 0; word0 = 0; word1 = 0 };
  inputs_array = λ i. record { timestamp = 0; word0 = 0; word1 = 0 };
}

-- Both axes of the thumbstick, a button, and an input of the right hand.
abbrev packet : List InputValue
packet =
    record { id = 15; value = 1065353216; last_change_time = 100 }
    ∷ record { id = 16; value = 1056964608; last_change_time = 100 }
    ∷ record { id = 11; value = 1065353216; last_change_time = 0 }
    ∷ record { id = 28; value = 3; last_change_time = 100 }
    ∷ []

update_inputs-last_example :
    (13 < input_count)
    × (read InputType.vec2_x ((update_inputs (set_inputs packet offset left)).inputs_array 13)
        ≡ last_value 15 InputType.vec2_x packet (read InputType.vec2_x (left.inputs_staging 13)))
update_inputs-last_example =
    update_inputs-last left offset packet 15 (bind 13 15 InputType.vec2_x) refl

button_read :
    read InputType.bool ((update_inputs (set_inputs packet offset left)).inputs_array 3) ≡ 1
unfolding update_inputs set_inputs from_headset
button_read = refl
