-- ===== src/Tests/Supervisor.antt =====
-- Tests of the modules for the process supervisor, on an operating system with one child.
use Prim.Native.String.{String}
use sparq_control.Common.{
  ℕ, ◌+◌, ◌==◌, ◌&&◌, any, Bool, true, false, [], ◌∷◌, none, some, pos, List, ◌≡◌, refl,
  if◌then◌else◌,
}
use sparq_control.Common.Result.{ok}
use sparq_control.Config.Controller.{ProcessConfig}
use sparq_control.Supervisor.{Os, Supervisor, Signal, sigterm, sigkill, new_supervisor}
use sparq_control.Supervisor.Start.{start_names, start_by_name, start_all}
use sparq_control.Supervisor.Stop.{stop_all, stop_by_name}
use sparq_control.Supervisor.Order.{InOrder, in_turn, in_turn_if, start_all-stop_all}
use sparq_control.Supervisor.Stopped.{nap}

record System : Type 0 where
  time : ℕ
  runs_child : Bool
  has_pidfile : Bool
  signals : List (Signal × ℕ)

abbrev same_signal : Signal → Signal → Bool
same_signal sigterm sigterm = true
same_signal sigkill sigkill = true
same_signal _ _ = false

abbrev one_child : Os
one_child = record {
  W = System;
  now = λ w. w.time;
  sleep = λ w. record w { time = w.time + nap };
  open_log = λ name w. (ok tt, w);
  popen = λ config line w. (ok 3, record w { runs_child = true });
  poll = λ h w. if w.runs_child then none else some (pos 0);
  wait = λ h t w. (true, record w { runs_child = false });
  signal_group = λ s h w. w;
  signal_pid = λ s pid w. record w { signals = (s, pid) ∷ w.signals };
  pid_is_running = λ pid w. w.runs_child;
  pidfile = λ name w. if w.has_pidfile then some (ok (pos 70)) else none;
  unlink = λ name w. record w { has_pidfile = false };
  was_sent = λ s pid w. any (λ t. same_signal s t.0 && pid == t.1) w.signals;
}

abbrev reader : ProcessConfig
reader = record {
  name = "aux_reader";
  command = "python3" ∷ [];
  start_order = pos 20;
  stop_order = pos 80;
  new_terminal = false;
  terminal_command = [];
  working_dir = ".";
  env = [];
}

abbrev board : ProcessConfig
board = record reader { name = "dashboard"; start_order = pos 10; stop_order = pos 99 }

abbrev two_processes : Supervisor
two_processes = record {
  process_configs = ("aux_reader", reader) ∷ ("dashboard", board) ∷ [];
  processes = ("aux_reader", 3) ∷ [];
  log_handles = "aux_reader" ∷ [];
}

new_supervisor_run :
    new_supervisor (reader ∷ board ∷ []) ≡ record two_processes { processes = []; log_handles = [] }
unfolding new_supervisor
new_supervisor_run = refl

start_names_run : start_names one_child (λ c. "") two_processes ≡ "dashboard" ∷ "aux_reader" ∷ []
unfolding start_names
start_names_run = refl

abbrev busy : System
busy = record { time = 5; runs_child = true; has_pidfile = true; signals = [] }

start_all-stop_all_example :
    ((names : List String) × InOrder
        (λ (c : ProcessConfig). c.name)
        (λ (c : ProcessConfig). c.start_order)
        (reader ∷ board ∷ [])
        names
      × (start_all one_child (λ c. "") two_processes busy
          ≡ in_turn (start_by_name one_child (λ c. "")) names two_processes busy))
    × ((names : List String) × InOrder
          (λ (e : String × ProcessConfig). e.0)
          (λ (e : String × ProcessConfig). e.1.stop_order)
          (("aux_reader", reader) ∷ ("dashboard", board) ∷ [])
          names
        × (stop_all one_child 101 2_000_000_000 two_processes busy
            ≡ in_turn_if (stop_by_name one_child 101 2_000_000_000) names two_processes busy))
start_all-stop_all_example =
    start_all-stop_all one_child (λ c. "") 101 2_000_000_000 two_processes busy
