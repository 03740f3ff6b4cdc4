-- ===== src/Shm/AuxCommand/Buttons.antt =====
-- The round trip of button masks in robot_controller/shm/aux_command.py.
use mathlib.Core.Path.{refl}
use sparq_control.Common.{ℕ, zero, suc, ◌<◌, ◌≡◌, Bool, true, ◌&&◌, ◌==◌, arith}
use sparq_control.Shm.AuxCommand.{buttons_to_mask, mask_to_buttons}

abbrev survives : ℕ → Bool
survives mask = buttons_to_mask (mask_to_buttons mask) == mask

-- All masks below a bound survive.
survive_below : ℕ → Bool
survive_below zero = true
survive_below (suc k) = let lower = survive_below k in survives k && lower

survive_below-at : (k j : ℕ) → j < k → survive_below k ≡ true → survives j ≡ true
unfolding survive_below
survive_below-at zero j small all = ground arith
survive_below-at (suc k) j small all = ground (arith, survive_below-at k j)

masks_survive : survive_below 2048 ≡ true
unfolding survive_below buttons_to_mask mask_to_buttons
masks_survive = refl

-- A mask of the eleven buttons is written back from the dict that it is read as.
pub buttons_to_mask-mask_to_buttons :
    (mask : ℕ) → mask < 2048 → buttons_to_mask (mask_to_buttons mask) ≡ mask
buttons_to_mask-mask_to_buttons mask small =
    ground (arith, survive_below-at 2048 mask small masks_survive)
