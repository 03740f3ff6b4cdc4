-- ===== src/Supervisor/Stopped.antt =====
-- robot_controller/supervisor/process_supervisor.py: stopping ends, and what is stopped is not alive.
pub mod ByName
pub mod StopAll
use Prim.Native.String.{String}
use text.Mathlib.Text.{◌==◌ as str_eq}
use sparq_control.Common.{
  ℕ, zero, suc, ◌+◌, ◌*◌, ◌-◌, ◌≤◌, Bool, true, false, not, ◌||◌, ◌⊎◌, inl, inr, List, [], ◌∷◌,
  Option, none, some, ℤ, ltb, leb, if◌then◌else◌, ◌≡◌, refl, arith,
}
use sparq_control.Common.Result.{Result, ok, err, Exn, timeout_expired}
use sparq_control.Config.Controller.{ProcessConfig}
use sparq_control.Supervisor.{
  Os, Supervisor, Signal, sigterm, sigkill, find, runs, handle_runs, managed, managed_runs,
  read_pidfile, is_alive,
}
use sparq_control.Supervisor.Stop.{
  wait_pid_exit, wait_managed, signal_managed, terminate, close_log_handle, stop_managed,
  stop_child, stop_waiting, signal_both, stop_known, stop_by_name, Outcome,
}

-- `time.sleep(0.02)`, in nanoseconds.
abbrev pub nap : ℕ
nap = 20_000_000

module _ (os : Os) where
  open os use {
    W, now, sleep, wait, signal_group, signal_pid, pid_is_running, unlink, pidfile, was_sent,
  }

  -- A child that has ended stays so, no pidfile gets a pid, the clock does not go back, and a signal
  -- that was sent stays sent.
  pub record Later (w w' : W) : Type 0 where
    pub clock : now w ≤ now w'
    pub kept : (s : Signal) (pid : ℕ) → was_sent s pid w ≡ true → was_sent s pid w' ≡ true
    pub ended : (h : ℕ) → runs os h w ≡ false → runs os h w' ≡ false
    pub empty : (name : String) → managed (pidfile name w) ≡ none → managed (pidfile name w') ≡ none

  -- What the code relies on: during each call, a sleep among them, what has ended stays so and no
  -- pidfile gets a pid; a wait that returns has seen the end of the child, a file that was unlinked is
  -- gone, a signal to a pid is sent, and a sleep takes its time.
  pub record Laws : Type 0 where
    pub later_sleep : (w : W) → Later w (sleep w)
    pub later_wait : (h t : ℕ) (w : W) → Later w (wait h t w).1
    pub later_group : (s : Signal) (h : ℕ) (w : W) → Later w (signal_group s h w)
    pub later_pid : (s : Signal) (pid : ℕ) (w : W) → Later w (signal_pid s pid w)
    pub later_unlink : (name : String) (w : W) → Later w (unlink name w)
    pub waited : (h t : ℕ) (w : W) → (wait h t w).0 ≡ true → runs os h (wait h t w).1 ≡ false
    pub unlinked : (name : String) (w : W) → pidfile name (unlink name w) ≡ none
    pub told : (s : Signal) (pid : ℕ) (w : W) → was_sent s pid (signal_pid s pid w) ≡ true
    pub slept : (w : W) → now w + nap ≤ now (sleep w)

  pub Later-refl : (w : W) → Later w w
  Later-refl w = record {
    clock = omega arith;
    kept = λ s p e. e;
    ended = λ h e. e;
    empty = λ n e. e;
  }

  pub Later-trans : {v w x : W} → Later v w → Later w x → Later v x
  Later-trans a b = record {
    clock = omega (arith, a.clock, b.clock);
    kept = λ s p e. b.kept s p (a.kept s p e);
    ended = λ h e. b.ended h (a.ended h e);
    empty = λ n e. b.empty n (a.empty n e);
  }

  -- No child of this name runs, and its pidfile names no process.
  abbrev pub Gone : Supervisor → W → String → Type 0
  Gone sup w name =
      (handle_runs os (find name sup.processes) w ≡ false) × (read_pidfile os sup name w ≡ none)

  pub Gone-is_alive :
      (sup : Supervisor) (name : String) (w : W) → Gone sup w name → is_alive os sup name w ≡ false
  unfolding is_alive managed_runs
  Gone-is_alive sup name w (ended, empty) = rw (ended, empty) refl

  -- The same configurations and children.
  abbrev pub Same : Supervisor → Supervisor → Type 0
  Same sup sup' = (sup'.process_configs ≡ sup.process_configs) × (sup'.processes ≡ sup.processes)

  handle_runs-later :
      {w w' : W} (child : Option ℕ)
      → Later w w'
      → handle_runs os child w ≡ false
      → handle_runs os child w' ≡ false
  handle_runs-later none l e = refl
  handle_runs-later (some h) l e = l.ended h e

  managed-later :
      {w w' : W} (name : String) (config : Option ProcessConfig)
      → Later w w'
      → (elim config [ none ↦ none | some c ↦ managed (pidfile name w) ]) ≡ none
      → (elim config [ none ↦ none | some c ↦ managed (pidfile name w') ]) ≡ none
  managed-later name none l e = refl
  managed-later name (some c) l e = l.empty name e

  pub Gone-later :
      (sup sup' : Supervisor) {w w' : W} (name : String)
      → Same sup sup'
      → Later w w'
      → Gone sup w name
      → Gone sup' w' name
  unfolding read_pidfile
  Gone-later sup sup' name same l gone = (
    rw same.1 (handle_runs-later (find name sup.processes) l gone.0),
    rw same.0 (managed-later name (find name sup.process_configs) l gone.1),
  )

  -- The deadline has come, or the process does not run.
  abbrev pub Waited : Option ℕ → ℕ → W → Type 0
  Waited none deadline w = Unit
  Waited (some pid) deadline w = (deadline ≤ now w) ⊎ (pid_is_running pid w ≡ false)

  -- A wait ends, with a later state of the system.
  unfoldable pub Reaches : Option ℕ → ℕ → W → Option W → Type 0
  Reaches pid deadline w o = (w' : W) × (o ≡ some w') × Later w w' × Waited pid deadline w'

  by_tests :
      (p q : Bool) (pid deadline : ℕ) (w : W) (again : Option W)
      → leb deadline (now w) ≡ p
      → pid_is_running pid w ≡ q
      → (p ≡ false → Reaches (some pid) deadline w again)
      → Reaches (some pid) deadline w (if p then some w else if not q then some w else again)
  unfolding Reaches
  by_tests true q pid deadline w again late runs h =
      (w, refl, Later-refl w, inl (ground (arith, late)))
  by_tests false false pid deadline w again late runs h = (w, refl, Later-refl w, inr runs)
  by_tests false true pid deadline w again late runs h = h refl

  -- The loop that waits ends before its fuel.
  pub wait_pid_exit-Reaches :
      (laws : Laws) (fuel pid deadline : ℕ) (w : W)
      → deadline ≤ now w + fuel * nap
      → Reaches (some pid) deadline w (wait_pid_exit os (suc fuel) pid deadline w)
  unfolding wait_pid_exit Reaches
  wait_pid_exit-Reaches laws zero pid deadline w enough =
      by_tests (leb deadline (now w)) (pid_is_running pid w) pid deadline w none refl refl
        (λ early. absurd (ground (arith, enough, early)))
  wait_pid_exit-Reaches laws (suc f) pid deadline w enough =
      by_tests (leb deadline (now w)) (pid_is_running pid w) pid deadline w _ refl refl (λ early.
        let (w', e, l, waited) =
          wait_pid_exit-Reaches laws f pid deadline (sleep w)
            (omega (arith, laws.slept w, enough)) in
        (w', e, Later-trans (laws.later_sleep w) l, waited))

  pub wait_managed-Reaches :
      (laws : Laws) (fuel : ℕ) (pid : Option ℕ) (deadline : ℕ) (w : W)
      → deadline ≤ now w + fuel * nap
      → Reaches pid deadline w (wait_managed os (suc fuel) pid deadline w)
  unfolding wait_managed Reaches
  wait_managed-Reaches laws fuel none deadline w enough = (w, refl, Later-refl w, tt)
  wait_managed-Reaches laws fuel (some pid) deadline w enough =
      wait_pid_exit-Reaches laws fuel pid deadline w enough

  pub later_signal_managed :
      (laws : Laws) (s : Signal) (pid : Option ℕ) (w : W) → Later w (signal_managed os s pid w)
  later_signal_managed laws s none w = Later-refl w
  later_signal_managed laws s (some pid) w = laws.later_pid s pid w
