-- ===== src/Telemetry/RateLimit.antt =====
-- The rate limit of robot_controller/telemetry/shm_state_publisher.py.
use sparq_control.Common.{
  ℕ, ◌+◌, ◌≤◌, ◌<◌, ◌%◌, ◌^◌, ◌≡◌, ◌⊎◌, ◌==◌, Bool, true, false, Option, none, some, List, [], ◌∷◌,
  arith, ltb, if◌then◌else◌, refl, inl, inr, Option-cases, Bool-cases,
}
use mathlib.Core.Path.{subst}
use sparq_control.Common.Floats.{Floats}
use sparq_control.Shm.RobotState.{RobotStateC}
use sparq_control.Telemetry.Snapshot.{RobotSnapshot}
use sparq_control.Telemetry.Publisher.{Publisher, publish, snapshot_to_cstruct}

module _ (fl : Floats) where
  open fl use {F}

  -- A call of `publish`: the snapshot, `force`, and the two clocks.
  pub record Call : Type 0 where
    pub snapshot : RobotSnapshot F
    pub force : Bool
    pub now : ℕ
    pub ns : ℕ

  -- The segment has the stamp `ns`.
  abbrev pub has_stamp : Publisher F → ℕ → Bool
  has_stamp p ns = elim p.segment [ none ↦ false | some s ↦ s.timestamp_ns == ns ]

  -- The times of the calls after which the segment has their own stamp.
  unfoldable pub writes : Publisher F → List Call → List ℕ
  writes p [] = []
  writes p (c ∷ cs) =
      let p' = publish fl p c.snapshot c.force c.now c.ns in
      let rest = writes p' cs in if has_stamp p' c.ns then c.now ∷ rest else rest

  -- The stamps grow, from one above `last` on, and fit their field.
  abbrev pub Stamped : ℕ → List Call → Type 0
  Stamped last [] = Unit
  Stamped last (c ∷ cs) = (last < c.ns) × (c.ns < 2 ^ 64) × Stamped c.ns cs

  -- The segment has no stamp above `last`.
  abbrev pub IsOlder : Publisher F → ℕ → Type 0
  IsOlder p last = elim p.segment [ none ↦ Unit | some s ↦ s.timestamp_ns ≤ last ]

  -- No call is forced.
  abbrev pub Unforced : List Call → Type 0
  Unforced [] = Unit
  Unforced (c ∷ cs) = (c.force ≡ false) × Unforced cs

  -- Each time is a period or more after the one before, the first after `last`.
  abbrev pub Spaced : ℕ → ℕ → List ℕ → Type 0
  Spaced period last [] = Unit
  Spaced period last (t ∷ ts) = (last + period ≤ t) × Spaced period t ts

  -- What an unforced call does.
  Step : Publisher F → Call → Publisher F → Type 0
  Step p c p' =
      (p'.period ≡ p.period)
      × (((p' ≡ p) × (has_stamp p' c.ns ≡ false))
          ⊎ ((p.last_publish_t + p.period ≤ c.now)
              × (p'.last_publish_t ≡ c.now)
              × (has_stamp p' c.ns ≡ true)))
      × IsOlder p' c.ns

  unwritten :
      (p : Publisher F) (last ns : ℕ)
      → IsOlder p last
      → last < ns
      → (has_stamp p ns ≡ false) × IsOlder p ns
  unwritten p last ns old later = elim (Option-cases p.segment) [
    | inl empty ↦ rw empty (refl, tt)
    | inr (s, present) ↦
        let le : s.timestamp_ns ≤ last =
          subst
            (λ (o : Option (RobotStateC F)). elim o [
              | none ↦ Unit {0}
              | some r ↦ r.timestamp_ns ≤ last
            ])
            present old in
        rw present (ground arith, omega arith)
  ]

  publish-Step :
      (p : Publisher F) (c : Call) (last : ℕ)
      → c.force ≡ false
      → IsOlder p last
      → last < c.ns
      → c.ns < 2 ^ 64
      → Step p c (publish fl p c.snapshot c.force c.now c.ns)
  unfolding Step publish snapshot_to_cstruct
  publish-Step p c last calm old later fits =
      elim (Bool-cases (ltb c.now (p.last_publish_t + p.period))) [
        | inl early ↦
            let (none_new, older) = unwritten p last c.ns old later in
            rw (calm, early) (refl, inl (refl, none_new), older)
        | inr due ↦
            let same : c.ns % 2 ^ 64 ≡ c.ns = omega arith in
            rw (calm, due, same) (refl, inr (ground arith, refl, ground arith), omega arith)
      ]

  -- Without forced calls, the times of the calls that have written the segment are at least a period
  -- apart, and the first is at least a period after the last write before. The stamps in nanoseconds
  -- of the calls grow and fit 64 bits, and the segment has no stamp later than `last`.
  pub publish-Spaced :
      (p : Publisher F) (last : ℕ) (cs : List Call)
      → Unforced cs
      → IsOlder p last
      → Stamped last cs
      → Spaced p.period p.last_publish_t (writes p cs)
  unfolding writes Step
  publish-Spaced p last [] h old stamped = tt
  publish-Spaced p last (c ∷ cs) h old stamped =
      let p' = publish fl p c.snapshot c.force c.now c.ns in
      let (period, what, older) = publish-Step p c last h.0 old stamped.0 stamped.1 in
      let rest : Spaced p.period p'.last_publish_t (writes p' cs) =
        subst (λ k. Spaced k p'.last_publish_t (writes p' cs)) period
          (publish-Spaced p' c.ns cs h.1 older stamped.2) in
      elim what [
        | inl (kept, unseen) ↦
            rw unseen (subst (λ q. Spaced p.period q.last_publish_t (writes p' cs)) kept rest)
        | inr (due, at_now, seen) ↦
            rw seen (due, subst (λ t. Spaced p.period t (writes p' cs)) at_now rest)
      ]
