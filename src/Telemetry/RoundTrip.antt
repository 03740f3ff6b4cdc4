-- ===== src/Telemetry/RoundTrip.antt =====
-- What readers of the robot state segment make of a published snapshot.
use sparq_control.Common.{
  ℕ, ◌<◌, ◌^◌, ◌≡◌, Option, none, some, true, false, pos, ltb, if◌then◌else◌,
}
use sparq_control.Common.Floats.{Floats}
use sparq_control.Shm.RobotState.{ActuatorDict}
use sparq_control.Telemetry.Snapshot.{ActuatorSnapshot}
use sparq_control.Telemetry.Publisher.{float_or_zero, seconds}

-- The fault code fits an int32.
abbrev pub Fits : Option ℕ → Type 0
Fits none = Unit
Fits (some n) = n < 2 ^ 31

module _ (fl : Floats) where
  open fl use {F, of_int, lt, neg, single}

  -- What a reader gets: an absent value under feedback is read as zero.
  pub ReadBack : ActuatorSnapshot F → ActuatorDict F → Type 0
  ReadBack a d =
      let seen =
        λ (x : Option F). if ltb 0 a.last_feedback_t then some (float_or_zero fl x) else none in
      (d.can_id ≡ a.can_id)
      × (d.position_rad ≡ seen a.position_rad)
      × (d.velocity_rad_s ≡ seen a.velocity_rad_s)
      × (d.torque_nm ≡ seen a.torque_nm)
      × (d.current_a ≡ seen a.current_a)
      × (d.temperature_c ≡ seen a.temperature_c)
      × (d.fault_code ≡ a.fault_code)
      × (d.is_enabled ≡ a.is_enabled)
      × (d.last_feedback_t ≡ a.last_feedback_t)
      × (d.age ≡ elim a.age [ none ↦ none | some t ↦ some (single (seconds fl t)) ])
      × (d.online ≡ a.online)
      × (d.stale ≡ a.stale)

  -- A number that a `c_float` keeps is negative for -1 s, and not for a time.
  pub record KeepsSign : Type 0 where
    pub minus_one : lt (single (neg (of_int (pos 1)))) (of_int (pos 0)) ≡ true
    pub times : (t : ℕ) → lt (single (seconds fl t)) (of_int (pos 0)) ≡ false
