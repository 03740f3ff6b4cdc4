-- ===== src/Hal/Dispatcher/Dispatch.antt =====
-- `dispatch` of hal/can_bus/dispatcher.py against one pass over all the callbacks.
use sparq_control.Common.{ℕ, ◌+◌, List, [], ◌∷◌, ◌++◌, Bool, ◌≡◌, refl, arith, if◌then◌else◌}
use sparq_control.Hal.Frame.{CanFrame}
use sparq_control.Hal.Dispatcher.{CallbackId, Dispatcher, callbacks_for, run_callbacks, dispatch}

module _ {ℓ} {S : Type ℓ} (call : CallbackId → CanFrame → S → S × Bool) where
  -- The world after all the callbacks, each called once, in the order of the list.
  abbrev pub after_all : List CallbackId → CanFrame → S → S
  after_all [] frame s = s
  after_all (c ∷ cs) frame s = after_all cs frame (call c frame s).0

  -- How many of these calls return.
  abbrev pub returned_count : List CallbackId → CanFrame → S → ℕ
  returned_count [] frame s = 0
  returned_count (c ∷ cs) frame s =
      (if (call c frame s).1 then 1 else 0) + returned_count cs frame (call c frame s).0

  run_callbacks_lem :
      (cs : List CallbackId) (frame : CanFrame) (s : S) (n : ℕ)
      → run_callbacks call cs frame (s, n) ≡ (after_all cs frame s, n + returned_count cs frame s)
  unfolding run_callbacks
  run_callbacks_lem [] frame s n = ground arith
  run_callbacks_lem (c ∷ cs) frame s n =
      let (s', returned) = call c frame s in
      ground (arith, run_callbacks_lem cs frame s' (if returned then n + 1 else n))

  after_all-append :
      (cs ds : List CallbackId) (frame : CanFrame) (s : S)
      → after_all (cs ++ ds) frame s ≡ after_all ds frame (after_all cs frame s)
  after_all-append [] ds frame s = refl
  after_all-append (c ∷ cs) ds frame s = after_all-append cs ds frame (call c frame s).0

  returned_count-append :
      (cs ds : List CallbackId) (frame : CanFrame) (s : S)
      → returned_count (cs ++ ds) frame s
        ≡ returned_count cs frame s + returned_count ds frame (after_all cs frame s)
  returned_count-append [] ds frame s = omega arith
  returned_count-append (c ∷ cs) ds frame s =
      omega (arith, returned_count-append cs ds frame (call c frame s).0)

  -- `dispatch` calls each callback of the frame's id once, in the order of registration, and then
  -- each wildcard callback once, whether or not earlier ones raise. It returns the number of those
  -- that did not raise.
  pub dispatch-after_all :
      (d : Dispatcher) (frame : CanFrame) (s : S)
      → let called = callbacks_for d frame.can_id ++ d.wildcard_callbacks in
        dispatch call d frame s ≡ (after_all called frame s, returned_count called frame s)
  unfolding dispatch
  dispatch-after_all d frame s = ground (
    arith,
    run_callbacks_lem (callbacks_for d frame.can_id) frame s 0,
    run_callbacks_lem d.wildcard_callbacks frame (after_all (callbacks_for d frame.can_id) frame s)
        (returned_count (callbacks_for d frame.can_id) frame s),
    after_all-append (callbacks_for d frame.can_id) d.wildcard_callbacks frame s,
    returned_count-append (callbacks_for d frame.can_id) d.wildcard_callbacks frame s,
  )
