-- ===== src/Supervisor/Stopped/StopAll.antt =====
-- robot_controller/supervisor/process_supervisor.py: `stop_all` ends, and what it stopped is not alive.
use Prim.Native.String.{String}
use sparq_control.Common.{false, List, Option, some, ◌≡◌, All, ℕ}
use sparq_control.Common.Result.{ok, err, timeout_expired}
use sparq_control.Supervisor.{Os, Supervisor, find, read_pidfile, is_alive}
use sparq_control.Supervisor.Stop.{stop_names, Outcome}
use sparq_control.Supervisor.Stopped.{Later, Same, Gone}
use sparq_control.Supervisor.Stopped.ByName.{Signalled}

module _ (os : Os) where
  open os use {W}

  -- From the state in which it was stopped on, the signals were sent to the process of this name.
  abbrev pub WasSignalled : ℕ → Supervisor → W → W → String → Type 0
  WasSignalled timeout sup w x name =
      (v : W) × Later os w v
      × Signalled os timeout (find name sup.processes) (read_pidfile os sup name v) v x

  -- How stopping a list of processes ends: all are gone and were signalled, or a wait has timed out.
  AllEnded : ℕ → List String → Supervisor → W → Outcome os → Type 0
  AllEnded timeout names sup w (ok _, sup', w') =
      Same os sup sup'
      × Later os w w'
      × All (Gone os sup' w') names
      × All (WasSignalled timeout sup w w') names
  AllEnded timeout names sup w (err e, sup', w') = e ≡ timeout_expired

  AllStop : ℕ → List String → Supervisor → W → Option (Outcome os) → Type 0
  AllStop timeout names sup w o =
      (out : Outcome os) × (o ≡ some out) × AllEnded timeout names sup w out

  -- How `stop_all` ends: no configured process is alive, and each was signalled, or a wait has timed
  -- out.
  abbrev pub Dead : ℕ → Supervisor → W → Outcome os → Type 0
  Dead timeout sup w (ok _, sup', w') =
      All (λ name. is_alive os sup' name w' ≡ false) (stop_names os sup)
      × All (WasSignalled timeout sup w w') (stop_names os sup)
  Dead timeout sup w (err e, sup', w') = e ≡ timeout_expired
