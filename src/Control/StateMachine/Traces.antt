-- ===== src/Control/StateMachine/Traces.antt =====
-- What holds of robot_controller/state_machine.py over a sequence of updates.
use sparq_control.Common.{
  ℕ, ◌+◌, ◌≤◌, ◌<◌, ◌≡◌, ◌≢◌, ◌⊎◌, inl, inr, refl, arith, Option, List, [], ◌∷◌, ◌++◌, All,
}
use sparq_control.Shm.OperatorCommand.{Code, none_code, enable, reset_fault, run, OperatorCommand}
use sparq_control.Control.StateMachine.{
  enabling, normal, damping, estop, Machine, read_code, update, run_updates,
}

abbrev pub Event : Type 0
Event = Option OperatorCommand × ℕ

abbrev pub code_at : Event → Code
code_at e = read_code e.0

run_updates-append :
    (m : Machine) (es fs : List Event)
    → run_updates m (es ++ fs) ≡ run_updates (run_updates m es) fs
unfolding run_updates
run_updates-append m [] fs = refl
run_updates-append m (e ∷ es) fs = run_updates-append (update m e.0 e.1) es fs

estop_step :
    (m : Machine) (e : Event) → m.mode ≡ estop → code_at e ≢ reset_fault → update m e.0 e.1 ≡ m
unfolding update
estop_step m e h k = ground arith

-- From ESTOP, no sequence of updates without a RESET_FAULT command changes the machine.
pub run_updates-estop :
    (m : Machine) (es : List Event)
    → m.mode ≡ estop
    → All (λ e. code_at e ≢ reset_fault) es
    → run_updates m es ≡ m
unfolding run_updates
run_updates-estop m [] h ks = refl
run_updates-estop m (e ∷ es) h (k, ks) = rw (estop_step m e h k) (run_updates-estop m es h ks)

normal_step :
    (m : Machine) (e : Event)
    → m.mode ≢ normal
    → ((code_at e ≡ run) × (m.mode ≡ damping)) ⊎ ((update m e.0 e.1).mode ≢ normal)
unfolding update
normal_step m e h = ground arith

-- A machine that is not in NORMAL gets there only by a RUN command that it reads in DAMPING: the
-- sequence of updates splits at that one.
pub normal_needs_run :
    (m : Machine) (es : List Event)
    → m.mode ≢ normal
    → (run_updates m es).mode ≡ normal
    → (before : List Event) × (e : Event) × (after : List Event) × (es ≡ before ++ e ∷ after)
      × (code_at e ≡ run)
      × ((run_updates m before).mode ≡ damping)
unfolding run_updates
normal_needs_run m [] h n = absurd (h n)
normal_needs_run m (e ∷ es) h n = elim (normal_step m e h) [
  | inl (r, d) ↦ ([], e, es, refl, r, d)
  | inr q ↦
      let (before, f, after, split, r, d) = normal_needs_run (update m e.0 e.1) es q n in
      (e ∷ before, f, after, rw split, r, d)
]

-- The commands that leave a machine to its enable timer.
abbrev pub Waits : Event → Type 0
Waits e = (code_at e ≡ none_code) ⊎ (code_at e ≡ enable)

wait_step :
    (m : Machine) (e : Event)
    → m.mode ≡ enabling
    → Waits e
    → e.1 < m.mode_enter_time + m.enable_duration
    → update m e.0 e.1 ≡ m
unfolding update
wait_step m e h w early = ground arith

due_step :
    (m : Machine) (e : Event)
    → m.mode ≡ enabling
    → Waits e
    → m.mode_enter_time + m.enable_duration ≤ e.1
    → update m e.0 e.1 ≡ record m { mode = damping; mode_enter_time = e.1 }
unfolding update
due_step m e h w due = ground arith

wait_steps :
    (m : Machine) (es : List Event)
    → m.mode ≡ enabling
    → All Waits es
    → All (λ e. e.1 < m.mode_enter_time + m.enable_duration) es
    → run_updates m es ≡ m
unfolding run_updates
wait_steps m [] h ws early = refl
wait_steps m (e ∷ es) h (w, ws) (t, ts) = rw (wait_step m e h w t) (wait_steps m es h ws ts)

-- While only NONE and ENABLE commands are read, a machine in ENABLING stays unchanged at all times
-- before the end of its enable duration, and the first update at or after the end takes it to
-- DAMPING, entered at that time.
pub enabling_timed :
    (m : Machine) (es : List Event) (last : Event)
    → m.mode ≡ enabling
    → All Waits es
    → All (λ e. e.1 < m.mode_enter_time + m.enable_duration) es
    → Waits last
    → m.mode_enter_time + m.enable_duration ≤ last.1
    → (run_updates m es ≡ m)
      × (run_updates m (es ++ last ∷ []) ≡ record m { mode = damping; mode_enter_time = last.1 })
unfolding run_updates
enabling_timed m es last h ws ts w due =
    let stay = wait_steps m es h ws ts in
    (stay, rw (run_updates-append m es (last ∷ []), stay) (due_step m last h w due))
