-- ===== src/Shm/AuxCommand.antt =====
-- robot_controller/shm/aux_command.py: the button mask of the joystick's segment. A dict of buttons is
-- a list of its entries.
pub mod Buttons
use Prim.Native.String.{String}
use text.Mathlib.Text.{◌==◌ as str_eq}
use sparq_control.Common.{
  ℕ, ◌+◌, ◌/◌, ◌%◌, ◌^◌, bit_or, Bool, true, false, List, [], ◌∷◌, ◌==◌, if◌then◌else◌,
}

-- `BUTTON_FIELDS`
abbrev pub button_fields : List String
button_fields =
    "a_button" ∷ "b_button" ∷ "x_button" ∷ "y_button" ∷ "lb_button" ∷ "rb_button" ∷ "back_button"
    ∷ "start_button" ∷ "guide_button" ∷ "l3_button" ∷ "r3_button" ∷ []

-- `buttons.get(name, False)`
unfoldable pub is_pressed : List (String × Bool) → String → Bool
is_pressed [] name = false
is_pressed ((k, b) ∷ d) name = if str_eq k name then b else is_pressed d name

-- The loop of `buttons_to_mask` from an index on.
unfoldable pub set_bits : List (String × Bool) → List String → ℕ → ℕ → ℕ
unfolding is_pressed
set_bits buttons [] index mask = mask
set_bits buttons (name ∷ names) index mask =
    set_bits buttons names (index + 1)
      (if is_pressed buttons name then bit_or mask (2 ^ index) else mask)

-- `buttons_to_mask`
unfoldable pub buttons_to_mask : List (String × Bool) → ℕ
unfolding set_bits
buttons_to_mask buttons = set_bits buttons button_fields 0 0

-- The entries of `mask_to_buttons` from an index on; `mask & (1 << index)` is not 0 exactly when
-- this bit of the mask is 1.
unfoldable pub get_bits : ℕ → List String → ℕ → List (String × Bool)
get_bits mask [] index = []
get_bits mask (name ∷ names) index =
    (name, mask / 2 ^ index % 2 == 1) ∷ get_bits mask names (index + 1)

-- `mask_to_buttons`
unfoldable pub mask_to_buttons : ℕ → List (String × Bool)
unfolding get_bits
mask_to_buttons mask = get_bits mask button_fields 0
