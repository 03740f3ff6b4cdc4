-- ===== src/Supervisor/Start.antt =====
-- robot_controller/supervisor/process_supervisor.py: `start_by_name` and `start_all`.
use Prim.Native.String.{String}
use sparq_control.Common.{sorted_by, not, List, [], ◌∷◌, ◌++◌, none, some, map, if◌then◌else◌}
use sparq_control.Common.Result.{Result, ok, err, value_error, key_error}
use sparq_control.Config.Yaml.{is_empty_text}
use sparq_control.Config.Platform.{assign}
use sparq_control.Config.Platform.Load.{is_empty}
use sparq_control.Config.Controller.{ProcessConfig}
use sparq_control.Supervisor.{Os, Supervisor, find, is_alive}

-- `_launch_command`, where `shell_line` is the line that a terminal's shell runs.
unfoldable pub launch_command : (ProcessConfig → String) → ProcessConfig → Result (List String)
launch_command shell_line config =
    if not config.new_terminal
    then ok config.command
    else if is_empty config.terminal_command
    then err value_error
    else ok (config.terminal_command ++ ("bash" ∷ "-lc" ∷ shell_line config ∷ []))

module _ (os : Os) (shell_line : ProcessConfig → String) where
  open os use {W, open_log, popen, unlink}

  -- A call gives back its result, the supervisor and the system.
  abbrev pub Outcome : Type 0
  Outcome = Result (Unit {0}) × Supervisor × W

  -- Starting with the command line, when the files are ready.
  abbrev pub spawn : ProcessConfig → Supervisor → W → Result (List String) → Outcome
  spawn config sup w (err e) = (err e, sup, w)
  spawn config sup w (ok line) =
      let (r, w') = popen config line w in
      elim r [
        | err e ↦ (err e, sup, w')
        | ok h ↦ (ok tt, record sup { processes = assign config.name h sup.processes }, w')
      ]

  -- The log of a process that has no terminal of its own.
  abbrev pub with_log : ProcessConfig → Supervisor → W → Outcome
  with_log config sup w =
      let (r, w') = open_log config.name w in
      elim r [
        | err e ↦ (err e, sup, w')
        | ok _ ↦
            spawn config (record sup { log_handles = config.name ∷ sup.log_handles }) w'
              (launch_command shell_line config)
      ]

  -- `start_by_name` after its checks.
  unfoldable pub launch : ProcessConfig → Supervisor → W → Outcome
  unfolding launch_command assign
  launch config sup w =
      if config.new_terminal
      then spawn config sup (unlink config.name w) (launch_command shell_line config)
      else with_log config sup (unlink config.name w)

  unfoldable pub start_by_name : String → Supervisor → W → Outcome
  unfolding find is_alive launch
  start_by_name name sup w =
      if is_empty_text name
      then (err value_error, sup, w)
      else elim (find name sup.process_configs) [
        | none ↦ (err key_error, sup, w)
        | some config ↦
            if is_alive os sup name w
            then (ok tt, sup, w)
            else if is_empty config.command
            then (err value_error, sup, w)
            else launch config sup w
      ]

  -- The loop of `start_all`, which an exception ends.
  unfoldable pub start_each : List String → Supervisor → W → Outcome
  unfolding start_by_name
  start_each [] sup w = (ok tt, sup, w)
  start_each (name ∷ names) sup w =
      let (r, sup', w') = start_by_name name sup w in
      let rest = start_each names sup' w' in elim r [ err e ↦ (err e, sup', w') | ok _ ↦ rest ]

  -- The names in the order of starting.
  unfoldable pub start_names : Supervisor → List String
  unfolding sorted_by
  start_names sup =
      map (λ (c : ProcessConfig). c.name)
        (sorted_by (λ (c : ProcessConfig). c.start_order)
          (map (λ (e : String × ProcessConfig). e.1) sup.process_configs))

  unfoldable pub start_all : Supervisor → W → Outcome
  unfolding start_each start_names
  start_all sup w = start_each (start_names sup) sup w
