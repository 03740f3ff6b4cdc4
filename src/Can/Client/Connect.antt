-- ===== src/Can/Client/Connect.antt =====
-- hal/can_bus/process_client.py: the loop of `connect` ends.
use sparq_control.Common.{
  ℕ, zero, suc, ◌+◌, ◌*◌, ◌≤◌, ◌<◌, Bool, true, false, not, Option, some, leb, if◌then◌else◌, ◌≡◌,
  refl, arith, Bool-cases, ◌==◌, inl, inr, leb→le,
}
use mathlib.Core.Path.{subst}
use sparq_control.Hal.Dispatcher.{Dispatcher}
use sparq_control.Common.Result.{Result, ok, err, os_error}
use sparq_control.Can.Client.{
  Client, Attempt, attempt_roles, close, is_os_error, connect_from, connect,
}

-- `time.sleep(0.05)`, in nanoseconds.
abbrev pub retry_sleep : ℕ
retry_sleep = 50_000_000

abbrev pub IsClosed : Client → Type 0
IsClosed k = (k.tx_open ≡ false) × (k.rx_open ≡ false) × (k.has_rx_thread ≡ false)

-- The roles that a connected client of this kind has.
abbrev pub IsConnected : Client → Type 0
IsConnected k = (k.tx_open ≡ true) × (k.rx_open ≡ k.rx_enabled) × (k.has_rx_thread ≡ k.rx_enabled)

-- A client before `connect`.
abbrev pub closed_client : Bool → Dispatcher → Client
closed_client enabled d = record {
  rx_enabled = enabled;
  dispatcher = d;
  tx_open = false;
  rx_open = false;
  has_rx_thread = false;
}

module _ (attempts : ℕ → Attempt) (clock : ℕ → ℕ) where
  -- What an attempt of a client comes to: its second role is tried only if it receives.
  abbrev pub outcome : Bool → Attempt → Result (Unit {0})
  outcome rx_enabled a = elim a.tx [ err e ↦ err e | ok _ ↦ (if rx_enabled then a.rx else ok tt) ]

  -- The attempts from `start` to `n` have failed with an `OSError` before the deadline.
  abbrev pub Retried : ℕ → Bool → ℕ → ℕ → Type 0
  Retried deadline rx_enabled start n =
      (m : ℕ)
      → start ≤ m
      → m < n
      → (outcome rx_enabled (attempts m) ≡ err os_error) × (clock m < deadline)

  -- How the loop ends with attempt `n`: with a connected client, with a closed client after the
  -- deadline, or with an exception that is no `OSError`.
  abbrev pub Ended : ℕ → Bool → ℕ → Result (Unit {0}) → Client → Type 0
  Ended deadline rx_enabled n (ok _) k =
      (outcome rx_enabled (attempts n) ≡ ok tt) × IsConnected k × (k.rx_enabled ≡ rx_enabled)
  Ended deadline rx_enabled n (err os_error) k =
      (outcome rx_enabled (attempts n) ≡ err os_error) × (deadline ≤ clock n) × IsClosed k
  Ended deadline rx_enabled n (err e) k =
      (outcome rx_enabled (attempts n) ≡ err e) × (is_os_error e ≡ false)

  abbrev pub Ends : ℕ → Bool → ℕ → Option (Result (Unit {0}) × Client) → Type 0
  Ends deadline rx_enabled start o =
      (r : Result (Unit {0})) × (k : Client) × (n : ℕ) × (o ≡ some (r, k))
      × (start ≤ n)
      × Retried deadline rx_enabled start n
      × Ended deadline rx_enabled n r k

  Tried : Bool → Attempt → Result (Unit {0}) → Client → Type 0
  Tried rx_enabled a (ok _) k =
      (outcome rx_enabled a ≡ ok tt) × IsConnected k × (k.rx_enabled ≡ rx_enabled)
  Tried rx_enabled a (err e) k = (outcome rx_enabled a ≡ err e) × (k.rx_enabled ≡ rx_enabled)

  roles-Tried :
      (tx rx : Result (Unit {0})) (enabled : Bool) (d : Dispatcher)
      → Tried enabled
          (record { tx = tx; rx = rx })
          (attempt_roles (record { tx = tx; rx = rx }) (closed_client enabled d)).0
          (attempt_roles (record { tx = tx; rx = rx }) (closed_client enabled d)).1
  unfolding Tried attempt_roles
  roles-Tried (err e) rx enabled d = (refl, refl)
  roles-Tried (ok _) rx false d = (refl, (refl, refl, refl), refl)
  roles-Tried (ok _) (err e) true d = (refl, refl)
  roles-Tried (ok _) (ok _) true d = (refl, (refl, refl, refl), refl)

  no_attempts : (deadline n : ℕ) (enabled : Bool) → Retried deadline enabled n n
  no_attempts deadline n enabled m from below = absurd (omega arith)

  one_more :
      (deadline n last : ℕ) (enabled : Bool)
      → outcome enabled (attempts n) ≡ err os_error
      → clock n < deadline
      → Retried deadline enabled (n + 1) last
      → Retried deadline enabled n last
  one_more deadline n last enabled failed early more m from below = elim (Bool-cases (m == n)) [
    | inl here ↦
        let same : n ≡ m = ground arith in
        subst (λ i. (outcome enabled (attempts i) ≡ err os_error) × (clock i < deadline)) same
          (failed, early)
    | inr later ↦ more m (ground arith) below
  ]

  -- The end of a round, on how the attempt went.
  finish :
      (deadline n : ℕ) (enabled : Bool) (r : Result (Unit {0})) (k : Client)
      (again : Option (Result (Unit {0}) × Client))
      → Tried enabled (attempts n) r k
      → (clock n < deadline → Ends deadline enabled (n + 1) again)
      → Ends deadline enabled n (elim r [
        | ok _ ↦ some (ok tt, k)
        | err e ↦
            if not (is_os_error e)
            then some (err e, k)
            else if leb deadline (clock n)
            then some (err e, close k)
            else again
      ])
  unfolding Tried close
  finish deadline n enabled (ok _) k again tried more =
      (ok tt, k, n, refl, omega arith, no_attempts deadline n enabled, tried)
  finish deadline n enabled (err os_error) k again tried more =
      elim (Bool-cases (leb deadline (clock n))) [
        | inl late ↦ (
          err os_error,
          close k,
          n,
          rw late refl,
          omega arith,
          no_attempts deadline n enabled,
          (tried.0, leb→le deadline (clock n) late, (refl, refl, refl)),
        )
        | inr early ↦
            let soon : clock n < deadline = ground (arith, early) in
            let (r, k', last, gives, from, before, ended) = more soon in
            rw early (
              r,
              k',
              last,
              gives,
              omega (arith, from),
              one_more deadline n last enabled tried.0 soon before,
              ended,
            )
      ]
  finish deadline n enabled (err e) k again tried more =
      (err e, k, n, refl, omega arith, no_attempts deadline n enabled, (tried.0, refl))

  Ends-of_same :
      {deadline n : ℕ} {enabled enabled' : Bool} {o : Option (Result (Unit {0}) × Client)}
      → enabled' ≡ enabled
      → Ends deadline enabled' n o
      → Ends deadline enabled n o
  Ends-of_same {deadline} {n} {o} e h = rw (← e) h

  rx_enabled-attempt_roles :
      (tx rx : Result (Unit {0})) (enabled : Bool) (d : Dispatcher)
      → (attempt_roles (record { tx = tx; rx = rx }) (closed_client enabled d)).1.rx_enabled
        ≡ enabled
  unfolding attempt_roles
  rx_enabled-attempt_roles (err e) rx enabled d = refl
  rx_enabled-attempt_roles (ok _) rx false d = refl
  rx_enabled-attempt_roles (ok _) (err e) true d = refl
  rx_enabled-attempt_roles (ok _) (ok _) true d = refl

  connect_from-Ends :
      (fuel deadline n : ℕ) (enabled : Bool) (d : Dispatcher)
      → ((m : ℕ) → clock m + retry_sleep ≤ clock (m + 1))
      → deadline ≤ clock n + fuel * retry_sleep
      → Ends deadline enabled n
          (connect_from attempts clock (suc fuel) deadline n (closed_client enabled d))
  unfolding connect_from close
  connect_from-Ends zero deadline n enabled d sleeps enough =
      finish deadline n enabled _ _ _ (roles-Tried (attempts n).tx (attempts n).rx enabled d)
        (λ early. absurd (omega (arith, early, enough)))
  connect_from-Ends (suc f) deadline n enabled d sleeps enough =
      finish deadline n enabled _ _ _ (roles-Tried (attempts n).tx (attempts n).rx enabled d)
        (λ early.
          let next = (attempt_roles (attempts n) (closed_client enabled d)).1 in
          let ends =
            connect_from-Ends f deadline (n + 1) next.rx_enabled next.dispatcher sleeps
              (omega (arith, sleeps n, enough)) in
          Ends-of_same (rx_enabled-attempt_roles (attempts n).tx (attempts n).rx enabled d) ends)

  -- `connect` ends with its first attempt that does not fail with an `OSError`, or with the first after
  -- which the clock has reached the deadline. In the first case it returns with the sockets that the
  -- client is to have open, or raises what is no `OSError`; in the second it raises the `OSError` with
  -- all sockets closed. The client was closed, every turn of the loop sleeps, and the
  -- fuel covers the timeout.
  pub connect-Ends :
      (fuel now connect_timeout : ℕ) (enabled : Bool) (d : Dispatcher)
      → now ≤ clock 0
      → ((m : ℕ) → clock m + retry_sleep ≤ clock (m + 1))
      → connect_timeout ≤ fuel * retry_sleep
      → Ends
          (now + connect_timeout)
          enabled
          0
          (connect attempts clock (suc fuel) now connect_timeout (closed_client enabled d))
  unfolding connect
  connect-Ends fuel now connect_timeout enabled d begins sleeps enough =
      connect_from-Ends fuel (now + connect_timeout) 0 enabled d sleeps (omega arith)
