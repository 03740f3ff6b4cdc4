-- ===== src/Supervisor.antt =====
-- robot_controller/supervisor/process_supervisor.py: starting and stopping the subprocesses. What the
-- operating system does is the argument `Os`. Times are in nanoseconds.
pub mod Start
pub mod Stop
pub mod Stopped
pub mod Order
use Prim.Native.String.{String}
use text.Mathlib.Text.{◌==◌ as str_eq}
use sparq_control.Common.{
  ℕ, Bool, true, false, ◌&&◌, ◌||◌, List, [], ◌∷◌, Option, none, some, ℤ, pos, pos_part, ltb_ℤ,
  leb_ℤ, if◌then◌else◌,
}
use sparq_control.Common.Result.{Result, ok, err}
use sparq_control.Config.Platform.{assign}
use sparq_control.Config.Controller.{ProcessConfig}

pub data Signal : Type 0 where
  sigterm sigkill : Signal

-- The operating system, with the state `W`. A process that was started has a handle, and a managed
-- process the pid that its pidfile has. The files of a process are known by its name.
pub record Os : Type 1 where
  pub W : Type 0
  -- `time.monotonic`
  pub now : W → ℕ
  -- `time.sleep(0.02)`
  pub sleep : W → W
  -- Opening the log file, and `subprocess.Popen` on a command line.
  pub open_log : String → W → Result (Unit {0}) × W
  pub popen : ProcessConfig → List String → W → Result ℕ × W
  -- `process.poll()`
  pub poll : ℕ → W → Option ℤ
  -- `process.wait(timeout=...)`, where `false` is `TimeoutExpired`
  pub wait : ℕ → ℕ → W → Bool × W
  -- `_terminate_process_group` and `_terminate_pid`, which raise nothing
  pub signal_group : Signal → ℕ → W → W
  pub signal_pid : Signal → ℕ → W → W
  -- `_pid_is_running`
  pub pid_is_running : ℕ → W → Bool
  -- The number in a pidfile, where `none` says that there is no file.
  pub pidfile : String → W → Option (Result ℤ)
  -- `pidfile.unlink()`, if it is there
  pub unlink : String → W → W
  -- Whether a signal was sent to this pid, which the code never asks.
  pub was_sent : Signal → ℕ → W → Bool

-- `_ProcessSupervisorBase`
pub record Supervisor : Type 0 where
  pub process_configs : List (String × ProcessConfig)
  pub processes : List (String × ℕ)
  pub log_handles : List String

-- `dict.get(name)`
unfoldable pub find {ℓ} : {A : Type ℓ} → String → List (String × A) → Option A
find name [] = none
find name ((k, v) ∷ d) = if str_eq k name then some v else find name d

-- `{config.name: config for config in process_configs}`
unfoldable pub by_name :
    List ProcessConfig → List (String × ProcessConfig) → List (String × ProcessConfig)
unfolding assign
by_name [] d = d
by_name (config ∷ rest) d = by_name rest (assign config.name config d)

unfoldable pub new_supervisor : List ProcessConfig → Supervisor
unfolding by_name
new_supervisor configs = record {
  process_configs = by_name configs [];
  processes = [];
  log_handles = [];
}

-- `return value if value > 1 else None`
abbrev pub managed : Option (Result ℤ) → Option ℕ
managed (some (ok value)) = if ltb_ℤ (pos 1) value then some (pos_part value) else none
managed _ = none

module _ (os : Os) where
  open os use {W, poll, pid_is_running, pidfile}

  -- `poll() is None`
  abbrev pub runs : ℕ → W → Bool
  runs h w = elim (poll h w) [ none ↦ true | some code ↦ false ]

  -- `_read_pidfile(self._pidfiles.get(name))`
  unfoldable pub read_pidfile : Supervisor → String → W → Option ℕ
  unfolding find
  read_pidfile sup name w = elim (find name sup.process_configs) [
    | none ↦ none
    | some config ↦ managed (pidfile name w)
  ]

  unfoldable pub managed_runs : Option ℕ → W → Bool
  managed_runs none w = false
  managed_runs (some pid) w = pid_is_running pid w

  abbrev pub handle_runs : Option ℕ → W → Bool
  handle_runs none w = false
  handle_runs (some h) w = runs h w

  unfoldable pub is_alive : Supervisor → String → W → Bool
  unfolding find read_pidfile managed_runs
  is_alive sup name w =
      handle_runs (find name sup.processes) w || managed_runs (read_pidfile sup name w) w

  -- `ProcessHealth`
  pub record Health : Type 0 where
    pub can_daemon_alive : Bool
    pub task_controller_alive : Bool
    pub aux_reader_alive : Bool
    pub dashboard_alive : Bool

  unfoldable pub health : Supervisor → W → Health
  unfolding is_alive
  health sup w = record {
    can_daemon_alive = is_alive sup "can_daemon" w;
    task_controller_alive = is_alive sup "task_controller" w;
    aux_reader_alive = is_alive sup "aux_reader" w;
    dashboard_alive = is_alive sup "dashboard" w;
  }

  -- An entry of `status`, without the texts.
  pub record Status : Type 0 where
    pub config : ProcessConfig
    pub pid : Option ℕ
    pub managed_pid : Option ℕ
    pub alive : Bool
    pub returncode : Option ℤ

  unfoldable pub status_of : Supervisor → W → String × ProcessConfig → String × Status
  unfolding find read_pidfile is_alive
  status_of sup w (name, config) = (
    name,
    record {
      config = config;
      pid = find name sup.processes;
      managed_pid = read_pidfile sup name w;
      alive = is_alive sup name w;
      returncode = elim (find name sup.processes) [ none ↦ none | some h ↦ poll h w ];
    },
  )
