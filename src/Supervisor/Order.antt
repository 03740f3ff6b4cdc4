-- ===== src/Supervisor/Order.antt =====
-- robot_controller/supervisor/process_supervisor.py: the order in which `start_all` and `stop_all` go
-- through the processes.
use Prim.Native.String.{String}
use sparq_control.Common.{
  insert_by, sorted_by, ℕ, ◌+◌, Bool, true, false, List, [], ◌∷◌, ℤ, leb_ℤ, map, if◌then◌else◌, ◌≡◌,
  refl, arith, ap, ◌∙◌, Bool-cases, Option, none, some, inl, inr,
}
use sparq_control.Common.Result.{Result, ok, err}
use sparq_control.Config.Controller.{ProcessConfig}
use sparq_control.Supervisor.{Os, Supervisor}
use sparq_control.Supervisor.Start.{start_names, start_by_name, start_each, start_all}
use sparq_control.Supervisor.Stop.{stop_names, stop_by_name, stop_each, stop_all}

leb_ℤ-total : (a b : ℤ) → leb_ℤ a b ≡ false → leb_ℤ b a ≡ true
leb_ℤ-total a b h = ground (arith, h)

module _ {ℓ} {A : Type ℓ} where
  -- How many elements pass a test.
  abbrev pub count : (A → Bool) → List A → ℕ
  count p [] = 0
  count p (x ∷ xs) = (if p x then 1 else 0) + count p xs

  module _ (key : A → ℤ) where
    -- No element has a key above that of its successor.
    abbrev pub Ascending : List A → Type 0
    Ascending [] = Unit
    Ascending (x ∷ []) = Unit
    Ascending (x ∷ (y ∷ ys)) = (leb_ℤ (key x) (key y) ≡ true) × Ascending (y ∷ ys)

    count-insert_by :
        (p : A → Bool) (x : A) (ys : List A) → count p (insert_by key x ys) ≡ count p (x ∷ ys)
    unfolding insert_by
    count-insert_by p x [] = refl
    count-insert_by p x (y ∷ ys) = ground (arith, count-insert_by p x ys)

    count-sorted_by : (p : A → Bool) (xs : List A) → count p (sorted_by key xs) ≡ count p xs
    unfolding sorted_by
    count-sorted_by p [] = refl
    count-sorted_by p (x ∷ xs) =
        count-insert_by p x (sorted_by key xs)
        ∙ ap (λ n. (if p x then 1 else 0) + n) (count-sorted_by p xs)

    insert_by-Ascending : (x : A) (ys : List A) → Ascending ys → Ascending (insert_by key x ys)
    unfolding insert_by
    insert_by-Ascending x [] h = tt
    insert_by-Ascending x (y ∷ []) h = elim (Bool-cases (leb_ℤ (key x) (key y))) [
      | inl first ↦ rw first (first, tt)
      | inr later ↦ rw later (leb_ℤ-total (key x) (key y) later, tt)
    ]
    insert_by-Ascending x (y ∷ (z ∷ zs)) h = elim (Bool-cases (leb_ℤ (key x) (key y))) [
      | inl first ↦ rw first (first, h)
      | inr later ↦
          rw later
            (behind (leb_ℤ-total (key x) (key y) later) h (insert_by-Ascending x (z ∷ zs) h.1))
    ]
      where
        behind :
            leb_ℤ (key y) (key x) ≡ true
            → (leb_ℤ (key y) (key z) ≡ true) × Ascending (z ∷ zs)
            → Ascending (insert_by key x (z ∷ zs))
            → Ascending (y ∷ insert_by key x (z ∷ zs))
        behind below (step, rest) whole = elim (Bool-cases (leb_ℤ (key x) (key z))) [
          | inl first ↦ rw first (below, (first, rest))
          | inr later ↦ rw later (step, rw later at whole)
        ]

    sorted_by-Ascending : (xs : List A) → Ascending (sorted_by key xs)
    unfolding sorted_by
    sorted_by-Ascending [] = tt
    sorted_by-Ascending (x ∷ xs) = insert_by-Ascending x (sorted_by key xs) (sorted_by-Ascending xs)

-- A list of names goes through these items once each, with the names and keys that they have, by
-- ascending key.
abbrev pub InOrder : {A : Type 0} → (A → String) → (A → ℤ) → List A → List String → Type 0
InOrder {A} name key items names =
    (xs : List A) × (names ≡ map name xs)
    × Ascending key xs
    × ((p : A → Bool) → count p xs ≡ count p items)

sorted_by-InOrder :
    {A : Type 0} (name : A → String) (key : A → ℤ) (items : List A)
    → InOrder name key items (map name (sorted_by key items))
sorted_by-InOrder name key items =
    (sorted_by key items, refl, sorted_by-Ascending key items, λ p. count-sorted_by key p items)

-- One call after the other on the supervisor and the system, until one raises.
abbrev pub in_turn :
    {S W : Type 0}
    → (String → S → W → Result (Unit {0}) × S × W)
    → List String
    → S
    → W
    → Result (Unit {0}) × S × W
in_turn act [] sup w = (ok tt, sup, w)
in_turn act (name ∷ names) sup w =
    let (r, sup', w') = act name sup w in
    let rest = in_turn act names sup' w' in elim r [ err e ↦ (err e, sup', w') | ok _ ↦ rest ]

-- The same for calls that may not end.
abbrev pub in_turn_if :
    {S W : Type 0}
    → (String → S → W → Option (Result (Unit {0}) × S × W))
    → List String
    → S
    → W
    → Option (Result (Unit {0}) × S × W)
in_turn_if act [] sup w = some (ok tt, sup, w)
in_turn_if act (name ∷ names) sup w = elim (act name sup w) [
  | none ↦ none
  | some (err e, sup', w') ↦ some (err e, sup', w')
  | some (ok _, sup', w') ↦ in_turn_if act names sup' w'
]

module _ (os : Os) where
  start_each-in_turn :
      (line : ProcessConfig → String) (names : List String) (sup : Supervisor) (w : os.W)
      → start_each os line names sup w ≡ in_turn (start_by_name os line) names sup w
  unfolding start_each
  start_each-in_turn line [] sup w = refl
  start_each-in_turn line (name ∷ names) sup w =
      let (r, sup', w') = start_by_name os line name sup w in
      ap
        (λ (o : Result (Unit {0}) × Supervisor × os.W). elim r [
          | err e ↦ (err e, sup', w')
          | ok u ↦ o
        ])
        (start_each-in_turn line names sup' w')

  stop_each-in_turn :
      (fuel timeout : ℕ) (names : List String) (sup : Supervisor) (w : os.W)
      → stop_each os fuel timeout names sup w
        ≡ in_turn_if (stop_by_name os fuel timeout) names sup w
  unfolding stop_each
  stop_each-in_turn fuel timeout [] sup w = refl
  stop_each-in_turn fuel timeout (name ∷ names) sup w =
      after (stop_by_name os fuel timeout name sup w) (stop_each os fuel timeout names)
        (stop_each-in_turn fuel timeout names)
    where
      after :
          (o : Option (Result (Unit {0}) × Supervisor × os.W))
          (rest : Supervisor → os.W → Option (Result (Unit {0}) × Supervisor × os.W))
          → ((sup' : Supervisor) (w' : os.W)
              → rest sup' w' ≡ in_turn_if (stop_by_name os fuel timeout) names sup' w')
          → (elim o [
            | none ↦ none
            | some (err e, sup', w') ↦ some (err e, sup', w')
            | some (ok _, sup', w') ↦ rest sup' w'
          ])
            ≡ (elim o [
              | none ↦ none
              | some (err e, sup', w') ↦ some (err e, sup', w')
              | some (ok _, sup', w') ↦ in_turn_if (stop_by_name os fuel timeout) names sup' w'
            ])
      after none rest same = refl
      after (some (err e, sup', w')) rest same = refl
      after (some (ok _, sup', w')) rest same = same sup' w'

-- `start_all` starts the configured processes by their names, one after the other and each once, in
-- ascending `start_order`, until a start raises. `stop_all` stops the entries in the same way, in
-- ascending `stop_order`.
pub start_all-stop_all :
    (os : Os) (line : ProcessConfig → String) (fuel timeout : ℕ) (sup : Supervisor) (w : os.W)
    → ((names : List String) × InOrder
          (λ (c : ProcessConfig). c.name)
          (λ (c : ProcessConfig). c.start_order)
          (map (λ (e : String × ProcessConfig). e.1) sup.process_configs)
          names
        × (start_all os line sup w ≡ in_turn (start_by_name os line) names sup w))
      × ((names : List String) × InOrder
            (λ (e : String × ProcessConfig). e.0)
            (λ (e : String × ProcessConfig). e.1.stop_order)
            sup.process_configs
            names
          × (stop_all os fuel timeout sup w
              ≡ in_turn_if (stop_by_name os fuel timeout) names sup w))
unfolding start_names stop_names start_all stop_all
start_all-stop_all os line fuel timeout sup w = (
  (
    start_names os line sup,
    sorted_by-InOrder (λ (c : ProcessConfig). c.name) (λ (c : ProcessConfig). c.start_order)
        (map (λ (e : String × ProcessConfig). e.1) sup.process_configs),
    start_each-in_turn os line (start_names os line sup) sup w,
  ),
  (
    stop_names os sup,
    sorted_by-InOrder (λ (e : String × ProcessConfig). e.0)
        (λ (e : String × ProcessConfig). e.1.stop_order) sup.process_configs,
    stop_each-in_turn os fuel timeout (stop_names os sup) sup w,
  ),
)
