-- ===== src/Hal/Actuator/Latest.antt =====
-- The latest-value semantics of the merged state in hal/hardware/can/actuator/driver.py.
use sparq_control.Common.{◌≡◌, refl, arith, Option, none, List, [], ◌∷◌, map}
use sparq_control.Hal.Actuator.{ActuatorState, or_keep, merge}

-- The last value that is there.
abbrev pub last_some {ℓ} : {A : Type ℓ} → List (Option A) → Option A
last_some [] = none
last_some (o ∷ os) = or_keep (last_some os) o

module _ {F : Type 0} where
  abbrev pub merge_all : ActuatorState F → List (ActuatorState F) → ActuatorState F
  merge_all s [] = s
  merge_all s (p ∷ ps) = merge_all (merge s p) ps

  -- A field that `merge` treats as a value that may be missing.
  abbrev Merges {ℓ} : {A : Type ℓ} → (ActuatorState F → Option A) → Type ℓ
  Merges f = (s p : ActuatorState F) → f (merge s p) ≡ or_keep (f p) (f s)

  latest_field {ℓ} :
      {A : Type ℓ} (f : ActuatorState F → Option A)
      → Merges f
      → (s : ActuatorState F) (ps : List (ActuatorState F))
      → f (merge_all s ps) ≡ last_some (f s ∷ map f ps)
  latest_field f h s [] = refl
  latest_field f h s (p ∷ ps) = ground (arith, latest_field f h (merge s p) ps, h s p)

  -- After any partial states are merged into a state, each field holds the last value that one of
  -- them had for it, and the state's own value if none had one.
  pub merge_all-last_some :
      (s : ActuatorState F) (ps : List (ActuatorState F))
      → let t = merge_all s ps in
        (t.position_rad ≡ last_some (s.position_rad ∷ map (λ p. p.position_rad) ps))
        × (t.velocity_rad_s ≡ last_some (s.velocity_rad_s ∷ map (λ p. p.velocity_rad_s) ps))
        × (t.torque_nm ≡ last_some (s.torque_nm ∷ map (λ p. p.torque_nm) ps))
        × (t.current_a ≡ last_some (s.current_a ∷ map (λ p. p.current_a) ps))
        × (t.temperature_c ≡ last_some (s.temperature_c ∷ map (λ p. p.temperature_c) ps))
        × (t.voltage_v ≡ last_some (s.voltage_v ∷ map (λ p. p.voltage_v) ps))
        × (t.fault_code ≡ last_some (s.fault_code ∷ map (λ p. p.fault_code) ps))
        × (t.is_enabled ≡ last_some (s.is_enabled ∷ map (λ p. p.is_enabled) ps))
        × (t.mode ≡ last_some (s.mode ∷ map (λ p. p.mode) ps))
  unfolding merge
  merge_all-last_some s ps = (
    latest_field (λ p. p.position_rad) (λ s p. refl) s ps,
    latest_field (λ p. p.velocity_rad_s) (λ s p. refl) s ps,
    latest_field (λ p. p.torque_nm) (λ s p. refl) s ps,
    latest_field (λ p. p.current_a) (λ s p. refl) s ps,
    latest_field (λ p. p.temperature_c) (λ s p. refl) s ps,
    latest_field (λ p. p.voltage_v) (λ s p. refl) s ps,
    latest_field (λ p. p.fault_code) (λ s p. refl) s ps,
    latest_field (λ p. p.is_enabled) (λ s p. refl) s ps,
    latest_field (λ p. p.mode) (λ s p. refl) s ps,
  )
