-- ===== src/Supervisor/Stop.antt =====
-- robot_controller/supervisor/process_supervisor.py: `stop_by_name` and `stop_all`. The loop of
-- `_wait_pid_exit` has fuel, and `none` says that it ran out.
use Prim.Native.String.{String}
use text.Mathlib.Text.{◌==◌ as str_eq}
use sparq_control.Common.{
  sorted_by, ℕ, zero, suc, ◌+◌, ◌-◌, not, List, [], ◌∷◌, Option, none, some, map, leb, filter,
  if◌then◌else◌,
}
use sparq_control.Common.Result.{Result, ok, err, timeout_expired}
use sparq_control.Config.Controller.{ProcessConfig}
use sparq_control.Supervisor.{Os, Supervisor, Signal, sigterm, sigkill, find, runs, read_pidfile}

module _ (os : Os) where
  open os use {W, now, sleep, wait, signal_group, signal_pid, pid_is_running, unlink}

  -- `_wait_pid_exit`
  unfoldable pub wait_pid_exit : ℕ → ℕ → ℕ → W → Option W
  wait_pid_exit zero pid deadline w = none
  wait_pid_exit (suc fuel) pid deadline w =
      let again = wait_pid_exit fuel pid deadline (sleep w) in
      if leb deadline (now w) then some w else if not (pid_is_running pid w) then some w else again

  -- The wait for a managed process, if there is one.
  unfoldable pub wait_managed : ℕ → Option ℕ → ℕ → W → Option W
  unfolding wait_pid_exit
  wait_managed fuel none deadline w = some w
  wait_managed fuel (some pid) deadline w = wait_pid_exit fuel pid deadline w

  abbrev pub signal_managed : Signal → Option ℕ → W → W
  signal_managed s none w = w
  signal_managed s (some pid) w = signal_pid s pid w

  -- SIGTERM to a child that has not ended.
  abbrev pub terminate : ℕ → W → W
  terminate h w = if runs os h w then signal_group sigterm h w else w

  -- `_close_log_handle`
  unfoldable pub close_log_handle : String → Supervisor → Supervisor
  unfolding filter
  close_log_handle name sup = record sup {
    log_handles = filter (λ n. not (str_eq n name)) sup.log_handles;
  }

  abbrev pub Outcome : Type 0
  Outcome = Result (Unit {0}) × Supervisor × W

  -- A managed process of an earlier supervisor: it is killed if it runs on.
  unfoldable pub stop_managed : ℕ → ℕ → String → ℕ → Supervisor → W → Option Outcome
  unfolding wait_pid_exit
  stop_managed fuel timeout name pid sup w =
      if pid_is_running pid w
      then elim (wait_pid_exit fuel pid (now (signal_pid sigkill pid w) + timeout)
          (signal_pid sigkill pid w)) [ none ↦ none | some w' ↦ some (ok tt, sup, unlink name w') ]
      else some (ok tt, sup, unlink name w)

  -- The end of a child: it is waited for, and killed if it runs on. The `finally` is in both ends.
  unfoldable pub stop_child : ℕ → ℕ → String → ℕ → Option ℕ → Supervisor → W → Outcome
  unfolding close_log_handle
  stop_child deadline timeout name h pid sup w =
      let (ended, w') = wait h (deadline - now w) w in
      if ended
      then (ok tt, close_log_handle name sup, unlink name w')
      else let killed = signal_group sigkill h (signal_managed sigkill pid w') in
        let (gone, w'') = wait h timeout killed in
        (if gone then ok tt else err timeout_expired, close_log_handle name sup, unlink name w'')

  -- `stop_by_name` after the signals, at the deadline.
  unfoldable pub stop_waiting :
      ℕ → ℕ → ℕ → String → Option ℕ → Option ℕ → Supervisor → W → Option Outcome
  unfolding wait_managed stop_managed stop_child
  stop_waiting fuel deadline timeout name child pid sup w =
      elim (wait_managed fuel pid deadline w) [
        | none ↦ none
        | some w' ↦ elim child [
          | some h ↦ some (stop_child deadline timeout name h pid sup w')
          | none ↦ elim pid [
            | none ↦ some (ok tt, sup, unlink name w')
            | some p ↦ stop_managed fuel timeout name p sup w'
          ]
        ]
      ]

  -- The signals of `stop_by_name`.
  abbrev pub signal_both : Option ℕ → Option ℕ → W → W
  signal_both none pid w = signal_managed sigterm pid w
  signal_both (some h) pid w = terminate h (signal_managed sigterm pid w)

  unfoldable pub stop_known : ℕ → ℕ → String → Option ℕ → Option ℕ → Supervisor → W → Option Outcome
  unfolding stop_waiting
  stop_known fuel timeout name none none sup w = some (ok tt, sup, w)
  stop_known fuel timeout name child pid sup w =
      let w' = signal_both child pid w in
      stop_waiting fuel (now w' + timeout) timeout name child pid sup w'

  unfoldable pub stop_by_name : ℕ → ℕ → String → Supervisor → W → Option Outcome
  unfolding find read_pidfile stop_known
  stop_by_name fuel timeout name sup w =
      stop_known fuel timeout name (find name sup.processes) (read_pidfile os sup name w) sup w

  -- The loop of `stop_all`, which an exception ends.
  unfoldable pub stop_each : ℕ → ℕ → List String → Supervisor → W → Option Outcome
  unfolding stop_by_name
  stop_each fuel timeout [] sup w = some (ok tt, sup, w)
  stop_each fuel timeout (name ∷ names) sup w = elim (stop_by_name fuel timeout name sup w) [
    | none ↦ none
    | some (err e, sup', w') ↦ some (err e, sup', w')
    | some (ok _, sup', w') ↦ stop_each fuel timeout names sup' w'
  ]

  unfoldable pub stop_names : Supervisor → List String
  unfolding sorted_by
  stop_names sup =
      map (λ (e : String × ProcessConfig). e.0)
        (sorted_by (λ (e : String × ProcessConfig). e.1.stop_order) sup.process_configs)

  unfoldable pub stop_all : ℕ → ℕ → Supervisor → W → Option Outcome
  unfolding stop_each stop_names
  stop_all fuel timeout sup w = stop_each fuel timeout (stop_names sup) sup w
