-- ===== src/Control/Tick/Kept.antt =====
-- What the output methods of robot_controller/controller.py keep of the robot: its modes and
-- drivers stay, and the frames sent before.
use mathlib.Core.Path.{refl}
use sparq_control.Common.{◌≡◌, List, [], ◌∷◌, ◌++◌, All, arith}
use sparq_control.Common.Result.{Result, ok, err}
use sparq_control.Hal.Frame.{CanFrame}
use sparq_control.Hal.Transport.{Transport, send_frame}
use sparq_control.Telemetry.Snapshot.{Source, CommandTarget}
use sparq_control.Control.Sends.{record_output_command}
use sparq_control.Control.World.{Robot, Env, Action, ◌>>=◌, send, after_send, proceed}

-- The later list extends the earlier one by frames with the property.
pub SentBy : (CanFrame → Type 0) → List CanFrame → List CanFrame → Type 0
SentBy P before after = (fs : List CanFrame) × (after ≡ before ++ fs) × All P fs

append_nil : (xs : List CanFrame) → xs ++ [] ≡ xs
append_nil [] = refl
append_nil (x ∷ xs) = ground (arith, append_nil xs)

append_assoc : (xs ys zs : List CanFrame) → (xs ++ ys) ++ zs ≡ xs ++ (ys ++ zs)
append_assoc [] ys zs = refl
append_assoc (x ∷ xs) ys zs = ground (arith, append_assoc xs ys zs)

All-append :
    (P : CanFrame → Type 0) (xs ys : List CanFrame) → All P xs → All P ys → All P (xs ++ ys)
All-append P [] ys hx hy = hy
All-append P (x ∷ xs) ys hx hy = (hx.0, All-append P xs ys hx.1 hy)

pub SentBy-refl : (P : CanFrame → Type 0) (xs : List CanFrame) → SentBy P xs xs
unfolding SentBy
SentBy-refl P xs = ([], ground (arith, append_nil xs), tt)

pub SentBy-trans :
    (P : CanFrame → Type 0) (xs ys zs : List CanFrame)
    → SentBy P xs ys
    → SentBy P ys zs
    → SentBy P xs zs
unfolding SentBy
SentBy-trans P xs ys zs (fs, e, h) (gs, e', h') =
    (fs ++ gs, cc (e, e', append_assoc xs fs gs), All-append P fs gs h h')

All-weaken :
    (P Q : CanFrame → Type 0) (xs : List CanFrame)
    → ((f : CanFrame) → P f → Q f)
    → All P xs
    → All Q xs
All-weaken P Q [] w h = tt
All-weaken P Q (x ∷ xs) w h = (w x h.0, All-weaken P Q xs w h.1)

pub SentBy-weaken :
    (P Q : CanFrame → Type 0) (xs ys : List CanFrame)
    → ((f : CanFrame) → P f → Q f)
    → SentBy P xs ys
    → SentBy Q xs ys
unfolding SentBy
SentBy-weaken P Q xs ys w (fs, e, h) = (fs, e, All-weaken P Q fs w h)

module _ {F : Type 0} (P : CanFrame → Type 0) where
  pub Kept : Robot F → Robot F → Type 0
  Kept r s =
      (s.machine ≡ r.machine)
      × (s.latch ≡ r.latch)
      × (s.actuators ≡ r.actuators)
      × SentBy P r.sent s.sent

  pub Kept-refl : (r : Robot F) → Kept r r
  unfolding Kept
  Kept-refl r = (refl, refl, refl, SentBy-refl P r.sent)

  pub Kept-trans : (r s t : Robot F) → Kept r s → Kept s t → Kept r t
  unfolding Kept
  Kept-trans r s t h k = (
    ground (arith, h.0, k.0),
    ground (arith, h.1, k.1),
    ground (arith, h.2, k.2),
    SentBy-trans P r.sent s.sent t.sent h.3 k.3,
  )

  pub Kept-SentBy : (r s : Robot F) → Kept r s → SentBy P r.sent s.sent
  unfolding Kept
  Kept-SentBy r s h = h.3

  pub Kept-machine : (r s : Robot F) → Kept r s → s.machine ≡ r.machine
  unfolding Kept
  Kept-machine r s h = h.0

  pub Kept-latch : (r s : Robot F) → Kept r s → s.latch ≡ r.latch
  unfolding Kept
  Kept-latch r s h = h.1

  bind_outcome :
      {A B : Type 0} (r : Robot F) (o : Result A × Robot F) (f : A → Action F B)
      → Kept r o.1
      → ((a : A) (s : Robot F) → Kept s (f a s).1)
      → Kept r (proceed o f).1
  bind_outcome r (ok a, s) f h k = Kept-trans r s (f a s).1 h (k a s)
  bind_outcome r (err e, s) f h k = h

  pub Kept-bind :
      {A B : Type 0} (m : Action F A) (f : A → Action F B)
      → ((r : Robot F) → Kept r (m r).1)
      → ((a : A) (s : Robot F) → Kept s (f a s).1)
      → (r : Robot F) → Kept r ((m >>= f) r).1
  Kept-bind m f h k r = bind_outcome r (m r) f (h r) k

  after :
      (frame : CanFrame) (r : Robot F) (o : Result (Unit {0}) × Transport)
      → P frame
      → Kept r (after_send frame r o).1
  unfolding after_send Kept SentBy
  after frame r (ok _, t) p = (refl, refl, refl, (frame ∷ [], refl, (p, tt)))
  after frame r (err e, t) p = (refl, refl, refl, SentBy-refl P r.sent)

  pub Kept-send :
      (env : Env) (frame : CanFrame) → P frame → (r : Robot F) → Kept r (send env frame r).1
  unfolding send
  Kept-send env frame p r = after frame r (send_frame env.link frame (env.clock r.readings) r.can) p

  pub Kept-record :
      (env : Env) (source : Source) (targets : List CommandTarget) (r : Robot F)
      → Kept r (record_output_command env source targets r).1
  unfolding record_output_command Kept
  Kept-record env source targets r = (refl, refl, refl, SentBy-refl P r.sent)
