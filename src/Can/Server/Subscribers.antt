-- ===== src/Can/Server/Subscribers.antt =====
-- robot_controller/subprocesses/can_daemon/main.py: who is subscribed to the received frames.
use sparq_control.Common.{
  ℕ, Bool, true, false, not, ◌&&◌, ◌||◌, List, [], ◌∷◌, ◌++◌, elem, filter, ◌==◌, ==_iff, ◌≡◌, refl,
  arith, ap, ◌∙◌, Bool-cases, inl, inr,
}
use sparq_control.Common.Result.{Result, ok, err}
use sparq_control.Can.Message.{Message}
use sparq_control.Can.Server.{
  Server, Subscribers, answer_tx, add, remove, publish_to, publish, leave, subscribe,
  handle_tx_client, handle_client,
}

filter-ext : (p q : ℕ → Bool) (xs : List ℕ) → ((x : ℕ) → p x ≡ q x) → filter p xs ≡ filter q xs
unfolding filter
filter-ext p q [] h = refl
filter-ext p q (x ∷ xs) h = rw (h x, filter-ext p q xs h) refl

module _ (accepts : ℕ → Bool) where
  -- A subscriber stays after the loop over these sockets.
  abbrev stays : List ℕ → ℕ → Bool
  stays rest x = not (elem x rest) || accepts x

  stays-cons :
      (sock x : ℕ) (rest : List ℕ) → accepts sock ≡ true → stays rest x ≡ stays (sock ∷ rest) x
  stays-cons sock x rest h = elim (Bool-cases (x == sock)) [
    | inl same ↦ ground (arith, same, h, ap accepts ((==_iff x sock).0 same))
    | inr other ↦ ground (arith, other)
  ]

  filter-remove :
      (sock : ℕ) (rest subs : List ℕ)
      → accepts sock ≡ false
      → filter (stays rest) (remove sock subs) ≡ filter (stays (sock ∷ rest)) subs
  unfolding filter remove
  filter-remove sock rest [] h = refl
  filter-remove sock rest (x ∷ subs) h = elim (Bool-cases (x == sock)) [
    | inl same ↦
        ground (arith, same, h, ap accepts ((==_iff x sock).0 same), filter-remove sock rest subs h)
    | inr other ↦ ground (arith, other, filter-remove sock rest subs h)
  ]

  publish_to-lem :
      (rest : List ℕ) (subs : Subscribers)
      → publish_to accepts rest subs ≡ (filter accepts rest, filter (stays rest) subs)
  unfolding publish_to filter
  publish_to-lem [] subs = ap (λ xs. ([], xs)) (all_stay subs)
    where
      all_stay : (xs : List ℕ) → xs ≡ filter (stays []) xs
      all_stay [] = refl
      all_stay (x ∷ xs) = ap (λ ys. x ∷ ys) (all_stay xs)
  publish_to-lem (sock ∷ rest) subs = elim (Bool-cases (accepts sock)) [
    | inl taken ↦
        rw (taken, publish_to-lem rest subs)
          (ap (λ xs. (sock ∷ filter accepts rest, xs))
            (filter-ext _ _ subs (λ x. stays-cons sock x rest taken)))
    | inr refused ↦
        rw (refused, publish_to-lem rest (remove sock subs))
          (ap (λ xs. (filter accepts rest, xs)) (filter-remove sock rest subs refused))
  ]

  kept :
      (rest xs : List ℕ)
      → ((x : ℕ) → elem x xs ≡ true → elem x rest ≡ true)
      → filter (stays rest) xs ≡ filter accepts xs
  unfolding filter
  kept rest [] h = refl
  kept rest (x ∷ xs) h = ground (arith, h x, kept rest xs (λ y m. h y (ground (arith, m))))

  -- A received frame goes to each subscriber that takes it, and those stay subscribed, in order. The
  -- others are removed.
  pub publish-filter :
      (subs : Subscribers) → publish accepts subs ≡ (filter accepts subs, filter accepts subs)
  unfolding publish
  publish-filter subs =
      publish_to-lem subs subs ∙ ap (λ xs. (filter accepts subs, xs)) (kept subs subs (λ x h. h))

elem-remove :
    (sock x : ℕ) (subs : Subscribers) → elem x (remove sock subs) ≡ (not (sock == x) && elem x subs)
unfolding remove
elem-remove sock x [] = ground arith
elem-remove sock x (y ∷ subs) = ground (arith, elem-remove sock x subs)

-- Who is subscribed when the handler of a client returns.
abbrev pub After : ℕ → Server → Server → Type 0
After sock s t = (x : ℕ) → elem x t.subscribers ≡ (not (sock == x) && elem x s.subscribers)

subscribers-answer_tx : (m : Message) (s : Server) → (answer_tx m s).1.subscribers ≡ s.subscribers
unfolding answer_tx
subscribers-answer_tx m s = ground arith

subscribers-handle_tx_client :
    (lines : List (Result Message)) (s : Server)
    → (handle_tx_client lines s).1.subscribers ≡ s.subscribers
unfolding handle_tx_client
subscribers-handle_tx_client [] s = refl
subscribers-handle_tx_client (err e ∷ rest) s = refl
subscribers-handle_tx_client (ok m ∷ rest) s =
    ground (arith, subscribers-answer_tx m s, subscribers-handle_tx_client rest (answer_tx m s).1)

elem-snoc : (x y : ℕ) (subs : List ℕ) → elem x (subs ++ y ∷ []) ≡ (elem x subs || x == y)
elem-snoc x y [] = ground arith
elem-snoc x y (z ∷ subs) = ground (arith, elem-snoc x y subs)

elem-add : (sock x : ℕ) (subs : Subscribers) → elem x (add sock subs) ≡ (elem x subs || x == sock)
unfolding add
elem-add sock x subs = elim (Bool-cases (x == sock)) [
  | inl same ↦
      ground (arith, elem-snoc x sock subs, ap (λ y. elem y subs) ((==_iff x sock).0 same), same)
  | inr other ↦ ground (arith, elem-snoc x sock subs, other)
]

-- What others do while a client listens leaves a subscriber's membership as it is.
abbrev pub Spares : ℕ → (Server → Server) → Type 0
Spares x meanwhile = (t : Server) → elem x (meanwhile t).subscribers ≡ elem x t.subscribers

leave-elem :
    (sock x : ℕ) (s : Server)
    → elem x (leave sock s).subscribers ≡ (not (sock == x) && elem x s.subscribers)
unfolding leave
leave-elem sock x s = elem-remove sock x s.subscribers

subscribe-elem :
    (sock x : ℕ) (s : Server)
    → elem x (subscribe sock s).subscribers ≡ (elem x s.subscribers || x == sock)
unfolding subscribe
subscribe-elem sock x s = elem-add sock x s.subscribers

-- However a client behaves, and whatever happens in the meantime, its socket is subscribed no more
-- when its handler returns. Any other subscriber that nobody else touched is subscribed as before.
pub handle_client-elem :
    (sock : ℕ) (meanwhile : Server → Server) (first : Result Message)
    (lines : List (Result Message)) (s : Server)
    → let t = (handle_client sock meanwhile first lines s).1 in
      (elem sock t.subscribers ≡ false)
      × ((x : ℕ)
          → (sock == x) ≡ false
          → Spares x meanwhile
          → elem x t.subscribers ≡ elem x s.subscribers)
unfolding handle_client
handle_client-elem sock meanwhile first lines s = (ended first, others first)
  where
    ended :
        (m : Result Message)
        → elem sock (handle_client sock meanwhile m lines s).1.subscribers ≡ false
    ended (err e) = ground (arith, leave-elem sock sock s)
    ended (ok m) = ground (
      arith,
      leave-elem sock sock s,
      leave-elem sock sock (handle_tx_client lines s).1,
      leave-elem sock sock (meanwhile (subscribe sock s)),
    )

    others :
        (m : Result Message) (x : ℕ)
        → (sock == x) ≡ false
        → Spares x meanwhile
        → elem x (handle_client sock meanwhile m lines s).1.subscribers ≡ elem x s.subscribers
    others (err e) x other spares = ground (arith, leave-elem sock x s, other)
    others (ok m) x other spares = ground (
      arith,
      other,
      leave-elem sock x s,
      leave-elem sock x (handle_tx_client lines s).1,
      leave-elem sock x (meanwhile (subscribe sock s)),
      spares (subscribe sock s),
      subscribe-elem sock x s,
      subscribers-handle_tx_client lines s,
    )
