-- ===== src/Hal/Dispatcher/Registered.antt =====
-- hal/can_bus/dispatcher.py: what `dispatch` calls after a series of registrations.
use sparq_control.Common.{
  ℕ, List, [], ◌∷◌, ◌++◌, Bool, ◌==◌, if◌then◌else◌, ◌≡◌, refl, ap, sym, ◌∙◌, Bool-cases, inl, inr,
}
use sparq_control.Hal.Frame.{CanFrame}
use sparq_control.Hal.Dispatcher.{
  CallbackId, Dispatcher, empty_dispatcher, callbacks_for, find, register, register_wildcard,
  dispatch,
}
use sparq_control.Hal.Dispatcher.Registry.{IsTable, register-callbacks_for}
use sparq_control.Hal.Dispatcher.Dispatch.{after_all, returned_count, dispatch-after_all}

unfoldable pub register_each : Dispatcher → List (ℕ × CallbackId) → Dispatcher
unfolding register
register_each d [] = d
register_each d ((k, c) ∷ rs) = register_each (register d k c) rs

unfoldable pub register_wildcards : Dispatcher → List CallbackId → Dispatcher
unfolding register_wildcard
register_wildcards d [] = d
register_wildcards d (c ∷ cs) = register_wildcards (register_wildcard d c) cs

-- The callbacks registered for an id, in order.
abbrev pub registered : ℕ → List (ℕ × CallbackId) → List CallbackId
registered id [] = []
registered id ((k, c) ∷ rs) = let rest = registered id rs in if id == k then c ∷ rest else rest

append_assoc : (xs ys zs : List CallbackId) → (xs ++ ys) ++ zs ≡ xs ++ (ys ++ zs)
append_assoc [] ys zs = refl
append_assoc (x ∷ xs) ys zs = ap (λ l. x ∷ l) (append_assoc xs ys zs)

append_none : (xs : List CallbackId) → xs ++ [] ≡ xs
append_none [] = refl
append_none (x ∷ xs) = ap (λ l. x ∷ l) (append_none xs)

callbacks_for-register_each :
    (d : Dispatcher) (rs : List (ℕ × CallbackId)) (id : ℕ)
    → IsTable d.callbacks_by_id
    → callbacks_for (register_each d rs) id ≡ callbacks_for d id ++ registered id rs
unfolding register_each
callbacks_for-register_each d [] id h = sym (append_none (callbacks_for d id))
callbacks_for-register_each d ((k, c) ∷ rs) id h =
    let (h', called) = register-callbacks_for d k id c h in
    let rest = callbacks_for-register_each (register d k c) rs id h' in
    elim (Bool-cases (id == k)) [
      | inl same ↦
          rest
          ∙ (ap (λ l. l ++ registered id rs) called
              ∙ rw same (append_assoc (callbacks_for d id) (c ∷ []) (registered id rs)))
      | inr other ↦ rest ∙ (ap (λ l. l ++ registered id rs) called ∙ rw other refl)
    ]

wildcards-register_each :
    (d : Dispatcher) (rs : List (ℕ × CallbackId))
    → (register_each d rs).wildcard_callbacks ≡ d.wildcard_callbacks
unfolding register_each register
wildcards-register_each d [] = refl
wildcards-register_each d ((k, c) ∷ rs) = wildcards-register_each (register d k c) rs

wildcards-register_wildcards :
    (d : Dispatcher) (ws : List CallbackId)
    → (register_wildcards d ws).wildcard_callbacks ≡ d.wildcard_callbacks ++ ws
unfolding register_wildcards register_wildcard
wildcards-register_wildcards d [] = sym (append_none d.wildcard_callbacks)
wildcards-register_wildcards d (w ∷ ws) =
    wildcards-register_wildcards (register_wildcard d w) ws
    ∙ append_assoc d.wildcard_callbacks (w ∷ []) ws

callbacks_for-register_wildcards :
    (d : Dispatcher) (ws : List CallbackId) (id : ℕ)
    → callbacks_for (register_wildcards d ws) id ≡ callbacks_for d id
unfolding register_wildcards register_wildcard callbacks_for
callbacks_for-register_wildcards d [] id = refl
callbacks_for-register_wildcards d (w ∷ ws) id =
    callbacks_for-register_wildcards (register_wildcard d w) ws id

callbacks_for-empty : (id : ℕ) → callbacks_for empty_dispatcher id ≡ []
unfolding callbacks_for find
callbacks_for-empty id = refl

module _ {ℓ} {S : Type ℓ} (call : CallbackId → CanFrame → S → S × Bool) where
  -- After any registrations, `dispatch` calls each callback that was registered for the frame's id, once
  -- per registration and in their order, and then the wildcard callbacks in theirs, whether or not
  -- earlier ones raise. It returns the number of calls that did not raise.
  pub dispatch-registered :
      (rs : List (ℕ × CallbackId)) (ws : List CallbackId) (frame : CanFrame) (s : S)
      → let d = register_wildcards (register_each empty_dispatcher rs) ws in
        let called = registered frame.can_id rs ++ ws in
        dispatch call d frame s
        ≡ (after_all call called frame s, returned_count call called frame s)
  dispatch-registered rs ws frame s =
      let built = register_each empty_dispatcher rs in
      let d = register_wildcards built ws in
      let own : callbacks_for d frame.can_id ≡ registered frame.can_id rs =
        callbacks_for-register_wildcards built ws frame.can_id
        ∙ (callbacks_for-register_each empty_dispatcher rs frame.can_id tt
            ∙ ap (λ l. l ++ registered frame.can_id rs) (callbacks_for-empty frame.can_id)) in
      let wild : d.wildcard_callbacks ≡ ws =
        wildcards-register_wildcards built ws
        ∙ ap (λ l. l ++ ws) (wildcards-register_each empty_dispatcher rs) in
      dispatch-after_all call d frame s
      ∙ ap (λ l. (after_all call l frame s, returned_count call l frame s))
          (ap (λ l. l ++ d.wildcard_callbacks) own ∙ ap (λ l. registered frame.can_id rs ++ l) wild)
