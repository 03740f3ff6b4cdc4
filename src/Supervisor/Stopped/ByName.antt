-- ===== src/Supervisor/Stopped/ByName.antt =====
-- robot_controller/supervisor/process_supervisor.py: stopping one process ends, and the process is not alive.
use Prim.Native.String.{String}
use sparq_control.Common.{
  ℕ, suc, ◌+◌, ◌*◌, ◌-◌, ◌≤◌, ◌⊎◌, Bool, true, false, Option, none, some, if◌then◌else◌, ◌≡◌, refl,
  arith, Bool-cases, inl, inr,
}
use sparq_control.Common.Result.{ok, err, timeout_expired}
use sparq_control.Config.Controller.{ProcessConfig}
use sparq_control.Supervisor.{Os, Supervisor, sigterm, sigkill, find, runs, managed, read_pidfile}
use sparq_control.Supervisor.Stop.{
  close_log_handle, terminate, signal_managed, stop_managed, stop_child, stop_waiting, signal_both,
  stop_known, stop_by_name, Outcome,
}
use sparq_control.Supervisor.Stopped.{
  nap, Later, Laws, Later-refl, Later-trans, Gone, Same, Reaches, Waited, wait_pid_exit-Reaches,
  wait_managed-Reaches, later_signal_managed,
}

module _ (os : Os) where
  open os use {
    W, now, sleep, wait, signal_group, signal_pid, pid_is_running, unlink, pidfile, was_sent,
  }

  -- How stopping a process ends: it is gone, or its second wait has timed out.
  unfoldable pub Ended : String → Supervisor → W → Outcome os → Type 0
  Ended name sup w (ok _, sup', w') = Same os sup sup' × Later os w w' × Gone os sup' w' name
  Ended name sup w (err e, sup', w') = Same os sup sup' × Later os w w' × (e ≡ timeout_expired)

  -- After the unlinking no pid is read.
  unlinked-read_pidfile :
      (laws : Laws os) (sup : Supervisor) (name : String) (w : W)
      → read_pidfile os sup name (unlink name w) ≡ none
  unfolding read_pidfile
  unlinked-read_pidfile laws sup name w = by_config (find name sup.process_configs)
    where
      by_config :
          (config : Option ProcessConfig)
          → (elim config [ none ↦ none | some c ↦ managed (pidfile name (unlink name w)) ]) ≡ none
      by_config none = refl
      by_config (some c) = rw laws.unlinked refl

  -- A wait that returns, and the unlinking of the pidfile.
  child-Gone :
      (laws : Laws os) (sup : Supervisor) (name : String) (h t : ℕ) (w : W)
      → find name sup.processes ≡ some h
      → (wait h t w).0 ≡ true
      → Gone os sup (unlink name (wait h t w).1) name
  child-Gone laws sup name h t w found ended = (
    rw found ((laws.later_unlink name (wait h t w).1).ended h (laws.waited h t w ended)),
    unlinked-read_pidfile laws sup name (wait h t w).1,
  )

  later_wait_unlink :
      (laws : Laws os) (name : String) (h t : ℕ) (w : W) → Later os w (unlink name (wait h t w).1)
  later_wait_unlink laws name h t w =
      Later-trans os (laws.later_wait h t w) (laws.later_unlink name (wait h t w).1)

  Ended-if :
      (b : Bool) (name : String) (sup sup' : Supervisor) (w w' : W)
      → Same os sup sup'
      → Later os w w'
      → (b ≡ true → Gone os sup' w' name)
      → Ended name sup w ((if b then ok tt else err timeout_expired), sup', w')
  unfolding Ended
  Ended-if true name sup sup' w w' same l gone = (same, l, gone refl)
  Ended-if false name sup sup' w w' same l gone = (same, l, refl)

  stop_child-Ended :
      (laws : Laws os) (deadline timeout : ℕ) (name : String) (h : ℕ) (pid : Option ℕ)
      (sup : Supervisor) (w : W)
      → find name sup.processes ≡ some h
      → Ended name sup w (stop_child os deadline timeout name h pid sup w)
  unfolding stop_child close_log_handle read_pidfile
  stop_child-Ended laws deadline timeout name h pid sup w found =
      by_first (wait h (deadline - now w) w).0 refl
    where
      by_first :
          (b : Bool)
          → (wait h (deadline - now w) w).0 ≡ b
          → Ended name sup w (stop_child os deadline timeout name h pid sup w)
      by_first true e = rw e (
          Ended-if true name sup (close_log_handle os name sup) w _ (refl, refl)
            (later_wait_unlink laws name h (deadline - now w) w)
            (λ t. child-Gone laws sup name h (deadline - now w) w found e))
      by_first false e = rw e (
          Ended-if _ name sup (close_log_handle os name sup) w _ (refl, refl)
            (Later-trans os (laws.later_wait h (deadline - now w) w) (
              Later-trans os (later_signal_managed os laws sigkill pid _) (
                Later-trans os (laws.later_group sigkill h _)
                  (later_wait_unlink laws name h timeout _))))
            (λ t. child-Gone laws sup name h timeout _ found t))

  Ended-Later :
      (name : String) (sup : Supervisor) (w : W) (out : Outcome os)
      → Ended name sup w out
      → Later os w out.2
  unfolding Ended
  Ended-Later name sup w (ok _, sup', w') h = h.1
  Ended-Later name sup w (err e, sup', w') h = h.1

  -- From `v` to `x`, a managed process was seen not to run, or was killed when the timeout was over.
  abbrev pub Killed : ℕ → ℕ → W → W → Type 0
  Killed timeout pid v x =
      ((u : W) × Later os v u × Later os u x × (pid_is_running pid u ≡ false))
      ⊎ ((u : W) × Later os v u
          × Later os u x
          × (now v + timeout ≤ now u)
          × (was_sent sigkill pid x ≡ true))

  -- The signals to a managed process: SIGTERM, and SIGKILL if there is no child.
  unfoldable pub Signalled : ℕ → Option ℕ → Option ℕ → W → W → Type 0
  Signalled timeout child none v x = Unit
  Signalled timeout (some h) (some pid) v x = was_sent sigterm pid x ≡ true
  Signalled timeout none (some pid) v x = (was_sent sigterm pid x ≡ true) × Killed timeout pid v x

  Killed-later :
      (timeout pid : ℕ) (v x y : W) → Later os x y → Killed timeout pid v x → Killed timeout pid v y
  Killed-later timeout pid v x y l (inl (u, a, b, c)) = inl (u, a, Later-trans os b l, c)
  Killed-later timeout pid v x y l (inr (u, a, b, c, d)) =
      inr (u, a, Later-trans os b l, c, l.kept sigkill pid d)

  pub Signalled-later :
      (timeout : ℕ) (child pid : Option ℕ) (v x y : W)
      → Later os x y
      → Signalled timeout child pid v x
      → Signalled timeout child pid v y
  unfolding Signalled
  Signalled-later timeout child none v x y l h = tt
  Signalled-later timeout (some h) (some pid) v x y l told = l.kept sigterm pid told
  Signalled-later timeout none (some pid) v x y l (told, killed) =
      (l.kept sigterm pid told, Killed-later timeout pid v x y l killed)

  -- Stopping ends within its fuel.
  unfoldable pub Stops :
      ℕ → Option ℕ → Option ℕ → String → Supervisor → W → Option (Outcome os) → Type 0
  Stops timeout child pid name sup w o =
      (out : Outcome os) × (o ≡ some out)
      × Ended name sup w out
      × Signalled timeout child pid w out.2

  no_child :
      (laws : Laws os) (sup : Supervisor) (name : String) (w w' : W)
      → find name sup.processes ≡ none
      → Later os w w'
      → Ended name sup w (ok tt, sup, unlink name w')
  unfolding Ended
  no_child laws sup name w w' found l = (
    (refl, refl),
    Later-trans os l (laws.later_unlink name w'),
    (rw found refl, unlinked-read_pidfile laws sup name w'),
  )

  stop_managed-Stops :
      (laws : Laws os) (fuel timeout : ℕ) (name : String) (pid : ℕ) (sup : Supervisor) (v w : W)
      → find name sup.processes ≡ none
      → timeout ≤ fuel * nap
      → Later os v w
      → (now v + timeout ≤ now w) ⊎ (pid_is_running pid w ≡ false)
      → was_sent sigterm pid w ≡ true
      → Stops timeout none (some pid) name sup v (stop_managed os (suc fuel) timeout name pid sup w)
  unfolding stop_managed Stops Reaches Signalled
  stop_managed-Stops laws fuel timeout name pid sup v w found enough l waited told =
      elim (Bool-cases (pid_is_running pid w)) [
        | inl running ↦
            let killed = signal_pid sigkill pid w in
            let (w', e, l', again) =
              wait_pid_exit-Reaches os laws fuel pid (now killed + timeout) killed
                (omega (arith, enough)) in
            let since : Later os killed (unlink name w') =
              Later-trans os l' (laws.later_unlink name w') in
            let after : Later os w (unlink name w') =
              Later-trans os (laws.later_pid sigkill pid w) since in
            (
              (ok tt, sup, unlink name w'),
              rw (running, e) refl,
              no_child laws sup name v w' found
                  (Later-trans os l (Later-trans os (laws.later_pid sigkill pid w) l')),
              (
                after.kept sigterm pid told,
                inr (
                  w,
                  l,
                  after,
                  overdue waited running,
                  since.kept sigkill pid (laws.told sigkill pid w),
                ),
              ),
            )
        | inr ended ↦ (
          (ok tt, sup, unlink name w),
          rw ended refl,
          no_child laws sup name v w found l,
          (
            (laws.later_unlink name w).kept sigterm pid told,
            inl (w, l, laws.later_unlink name w, ended),
          ),
        )
      ]
    where
      overdue :
          (now v + timeout ≤ now w) ⊎ (pid_is_running pid w ≡ false)
          → pid_is_running pid w ≡ true
          → now v + timeout ≤ now w
      overdue (inl late) running = late
      overdue (inr ended) running = ground (arith, ended, running)

  Ended-later :
      (name : String) (sup : Supervisor) (v w : W) (out : Outcome os)
      → Later os v w
      → Ended name sup w out
      → Ended name sup v out
  unfolding Ended
  Ended-later name sup v w (ok _, sup', w') l (same, l', gone) = (same, Later-trans os l l', gone)
  Ended-later name sup v w (err e, sup', w') l (same, l', same_error) =
      (same, Later-trans os l l', same_error)

  -- SIGTERM was sent to a managed process, if there is one.
  abbrev Told : Option ℕ → W → Type 0
  Told none w = Unit
  Told (some pid) w = was_sent sigterm pid w ≡ true

  Told-later : (pid : Option ℕ) {w w' : W} → Later os w w' → Told pid w → Told pid w'
  Told-later none l h = tt
  Told-later (some pid) l h = l.kept sigterm pid h

  Signalled-child :
      (timeout h : ℕ) (pid : Option ℕ) (v x : W) → Told pid x → Signalled timeout (some h) pid v x
  unfolding Signalled
  Signalled-child timeout h none v x told = tt
  Signalled-child timeout h (some pid) v x told = told

  stop_waiting-Stops :
      (laws : Laws os) (fuel timeout : ℕ) (name : String) (child pid : Option ℕ) (sup : Supervisor)
      (v w : W)
      → find name sup.processes ≡ child
      → timeout ≤ fuel * nap
      → Later os v w
      → Told pid w
      → Stops timeout child pid name sup v
          (stop_waiting os (suc fuel) (now w + timeout) timeout name child pid sup w)
  unfolding stop_waiting Stops Reaches Signalled
  stop_waiting-Stops laws fuel timeout name child pid sup v w found enough l told =
      let (w', e, l', waited) =
        wait_managed-Reaches os laws fuel pid (now w + timeout) w (omega (arith, enough)) in
      rw (stop_waiting, e)
        (by_child child pid w' found (Later-trans os l l') waited (Told-later pid l' told))
    where
      in_time :
          (p : ℕ) (x : W)
          → Waited os (some p) (now w + timeout) x
          → (now v + timeout ≤ now x) ⊎ (pid_is_running p x ≡ false)
      in_time p x (inl late) = inl (omega (arith, late, l.clock))
      in_time p x (inr ended) = inr ended

      by_child :
          (child pid : Option ℕ) (w' : W)
          → find name sup.processes ≡ child
          → Later os v w'
          → Waited os pid (now w + timeout) w'
          → Told pid w'
          → Stops timeout child pid name sup v (elim child [
            | some h ↦ some (stop_child os (now w + timeout) timeout name h pid sup w')
            | none ↦ elim pid [
              | none ↦ some (ok tt, sup, unlink name w')
              | some p ↦ stop_managed os (suc fuel) timeout name p sup w'
            ]
          ])
      by_child (some h) pid w' found l waited told =
          let ended = stop_child-Ended laws (now w + timeout) timeout name h pid sup w' found in
          (
            _,
            refl,
            Ended-later name sup v w' _ l ended,
            Signalled-child timeout h pid v _
                (Told-later pid (Ended-Later name sup w' _ ended) told),
          )
      by_child none none w' found l waited told = (_, refl, no_child laws sup name v w' found l, tt)
      by_child none (some p) w' found l waited told =
          stop_managed-Stops laws fuel timeout name p sup v w' found enough l (in_time p w' waited)
            told

  later_terminate : (laws : Laws os) (h : ℕ) (x : W) → Later os x (terminate os h x)
  later_terminate laws h x = by_flag (runs os h x)
    where
      by_flag : (b : Bool) → Later os x (if b then signal_group sigterm h x else x)
      by_flag true = laws.later_group sigterm h x
      by_flag false = Later-refl os x

  later_signal_both :
      (laws : Laws os) (child pid : Option ℕ) (w : W) → Later os w (signal_both os child pid w)
  later_signal_both laws none pid w = later_signal_managed os laws sigterm pid w
  later_signal_both laws (some h) pid w =
      Later-trans os (later_signal_managed os laws sigterm pid w)
        (later_terminate laws h (signal_managed os sigterm pid w))

  Told-managed :
      (laws : Laws os) (pid : Option ℕ) (w : W) → Told pid (signal_managed os sigterm pid w)
  Told-managed laws none w = tt
  Told-managed laws (some pid) w = laws.told sigterm pid w

  Told-both :
      (laws : Laws os) (child pid : Option ℕ) (w : W) → Told pid (signal_both os child pid w)
  Told-both laws none pid w = Told-managed laws pid w
  Told-both laws (some h) pid w =
      Told-later pid (later_terminate laws h (signal_managed os sigterm pid w))
        (Told-managed laws pid w)

  stop_known-Stops :
      (laws : Laws os) (fuel timeout : ℕ) (name : String) (child pid : Option ℕ) (sup : Supervisor)
      (w : W)
      → find name sup.processes ≡ child
      → read_pidfile os sup name w ≡ pid
      → timeout ≤ fuel * nap
      → Stops timeout child pid name sup w (stop_known os (suc fuel) timeout name child pid sup w)
  unfolding stop_known Stops Ended Signalled
  stop_known-Stops laws fuel timeout name none none sup w found read enough =
      (_, refl, ((refl, refl), Later-refl os w, (rw found refl, read)), tt)
  stop_known-Stops laws fuel timeout name none (some p) sup w found read enough =
      stop_waiting-Stops laws fuel timeout name none (some p) sup w _ found enough
        (later_signal_both laws none (some p) w) (Told-both laws none (some p) w)
  stop_known-Stops laws fuel timeout name (some h) pid sup w found read enough =
      stop_waiting-Stops laws fuel timeout name (some h) pid sup w _ found enough
        (later_signal_both laws (some h) pid w) (Told-both laws (some h) pid w)

  pub stop_by_name-Stops :
      (laws : Laws os) (fuel timeout : ℕ) (name : String) (sup : Supervisor) (w : W)
      → timeout ≤ fuel * nap
      → Stops timeout
          (find name sup.processes)
          (read_pidfile os sup name w)
          name
          sup
          w
          (stop_by_name os (suc fuel) timeout name sup w)
  unfolding stop_by_name
  stop_by_name-Stops laws fuel timeout name sup w enough =
      stop_known-Stops laws fuel timeout name (find name sup.processes) (read_pidfile os sup name w)
        sup w refl refl enough
