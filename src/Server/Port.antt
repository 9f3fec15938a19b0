-- ===== src/Server/Port.antt =====
-- The loop of `Server::new` (server.rs) over the ports.
use mathlib.Core.Path.{subst}
use ember.Prelude.{
  ℕ, zero, ◌%◌, ◌^◌, ◌≢◌, ◌⊎◌, suc, ◌+◌, ◌≤◌, ◌<◌, ◌≡◌, refl, ap, ◌∙◌, Bool, true, false, ltb,
  lt→ltb, le→ltb_not, Bool-cases, inl, inr, arith, ok, panic, out_of_fuel,
}
use ember.Text.Decimal.{max_u16}
use ember.Server.{Sockets, Does, next_port, on_attempt, find_port}
use ember.Server.Listener.{
  IsHealthy, Later, Listens, listens, Refuses, refuses, build_listener-Listens,
  build_listener-Refuses,
}

nearer :
    (port p fuel : ℕ)
    → ((port ≤ p) × (p < port + suc fuel)) ⊎ ((p < port) × (p + 2 ^ 16 < port + suc fuel))
    → port ≢ p
    → ((port + 1 ≤ p) × (p < port + 1 + fuel)) ⊎ ((p < port + 1) × (p + 2 ^ 16 < port + 1 + fuel))
nearer port p fuel (inl h) differs = inl (ground arith, ground arith)
nearer port p fuel (inr h) differs = inr (omega arith, omega arith)

from_zero :
    (port p fuel : ℕ)
    → port ≤ max_u16
    → p ≤ max_u16
    → ((port ≤ p) × (p < port + suc fuel)) ⊎ ((p < port) × (p + 2 ^ 16 < port + suc fuel))
    → port ≢ p
    → max_u16 ≤ port
    → ((0 ≤ p) × (p < 0 + fuel)) ⊎ ((p < 0) × (p + 2 ^ 16 < 0 + fuel))
from_zero port p fuel le top (inl h) differs last = absurd (ground arith)
from_zero port p fuel le top (inr h) differs last = inl (omega arith, omega arith)

module _ (sys : Sockets) (held : ℕ → sys.Net → Bool) (healthy : IsHealthy sys held) where
  open sys use {Net, Socket, Listener}

  -- the port that was found, in a later state
  pub data Finds (n : Net) (p : ℕ) : Does sys ℕ → Type 0 where
    finds : {m : Net} → Later sys held healthy n m → Finds n p (ok p, m)

  on_attempt-Finds :
      (checks : Bool) (port : ℕ) (again : ℕ → Net → Does sys ℕ) (n : Net) (r : Does sys Listener)
      → Listens sys held healthy n r
      → Finds n port (on_attempt sys checks port again r)
  unfolding on_attempt
  on_attempt-Finds checks port again n _ (listens {l} {m} h) =
      finds (λ p. healthy.close_listener_held l m p ∙ h p)

  on_attempt-goes_on :
      (checks : Bool) (port p : ℕ) (again : ℕ → Net → Does sys ℕ) (n : Net) (r : Does sys Listener)
      → port < max_u16
      → ((m : Net) → Later sys held healthy n m → Finds n p (again (port + 1) m))
      → Refuses sys held healthy n r
      → Finds n p (on_attempt sys checks port again r)
  unfolding on_attempt next_port
  on_attempt-goes_on checks port p again n _ lt ih (refuses {e} {m} in_use h) =
      rw (in_use, lt→ltb port max_u16 lt) (ih m h)

  Finds-Later :
      (n m : Net) (p : ℕ) (r : Does sys ℕ) → Later sys held healthy n m → Finds m p r → Finds n p r
  Finds-Later n m p _ h (finds h') = finds (λ q. h' q ∙ h q)

  pub find_port-Finds :
      (checks : Bool) (fuel port p : ℕ) (n : Net)
      → port ≤ p
      → p < port + fuel
      → p ≤ max_u16
      → ((q : ℕ) → port ≤ q → q < p → held q n ≡ true)
      → held p n ≡ false
      → Finds n p (find_port sys checks fuel port n)
  unfolding find_port
  find_port-Finds checks zero port p n le lt top busy free = absurd (omega arith)
  find_port-Finds checks (suc fuel) port p n le lt top busy free = elim (Bool-cases (ltb port p)) [
    | inl h ↦
        let before : port < p = ground arith in
        on_attempt-goes_on checks port p _ n _ (omega arith)
          (λ m later. Finds-Later n m p _ later (
            find_port-Finds checks fuel (port + 1) p m (omega arith) (omega arith) top
              (λ q lo hi. later q ∙ busy q (omega arith) hi) (later p ∙ free)))
          (build_listener-Refuses sys held healthy port n (busy port (omega arith) before))
    | inr h ↦
        let same : port ≡ p = ground arith in
        subst (λ x. Finds n x (find_port sys checks (suc fuel) port n)) same
          (on_attempt-Finds checks port _ n _
            (build_listener-Listens sys held healthy port n (ap (λ x. held x n) same ∙ free)))
  ]

  Finds-port : (n : Net) (p : ℕ) (r : Does sys ℕ) → Finds n p r → r.0 ≡ ok p
  Finds-port n p _ (finds h) = refl

  -- On a system that refuses only to bind the ports that other programs hold, the server takes the
  -- first port from the one that it is given on that is not held, if there is one: as many tries
  -- are enough as there are ports up to it.
  pub find_port_first :
      (checks : Bool) (fuel port p : ℕ) (n : Net)
      → port ≤ p
      → p < port + fuel
      → p ≤ max_u16
      → ((q : ℕ) → port ≤ q → q < p → held q n ≡ true)
      → held p n ≡ false
      → (find_port sys checks fuel port n).0 ≡ ok p
  find_port_first checks fuel port p n le lt top busy free =
      Finds-port n p _ (find_port-Finds checks fuel port p n le lt top busy free)

  data Panics : Does sys ℕ → Type 0 where
    panics : {m : Net} → Panics (panic, m)

  on_attempt-last :
      (port : ℕ) (again : ℕ → Net → Does sys ℕ) (n : Net) (r : Does sys Listener)
      → max_u16 ≤ port
      → Refuses sys held healthy n r
      → Panics (on_attempt sys true port again r)
  unfolding on_attempt next_port
  on_attempt-last port again n _ top (refuses in_use h) =
      rw (in_use, le→ltb_not port max_u16 top) panics

  on_attempt-not_last :
      (port : ℕ) (again : ℕ → Net → Does sys ℕ) (n : Net) (r : Does sys Listener)
      → port < max_u16
      → ((m : Net) → Later sys held healthy n m → Panics (again (port + 1) m))
      → Refuses sys held healthy n r
      → Panics (on_attempt sys true port again r)
  unfolding on_attempt next_port
  on_attempt-not_last port again n _ lt ih (refuses {e} {m} in_use h) =
      rw (in_use, lt→ltb port max_u16 lt) (ih m h)

  find_port-Panics :
      (fuel port : ℕ) (n : Net)
      → port ≤ max_u16
      → max_u16 < port + fuel
      → ((q : ℕ) → port ≤ q → q ≤ max_u16 → held q n ≡ true)
      → Panics (find_port sys true fuel port n)
  unfolding find_port
  find_port-Panics zero port n le lt busy = absurd (omega arith)
  find_port-Panics (suc fuel) port n le lt busy = elim (Bool-cases (ltb port max_u16)) [
    | inl h ↦
        let before : port < max_u16 = ground arith in
        on_attempt-not_last port _ n _ before
          (λ m later.
            find_port-Panics fuel (port + 1) m (omega arith) (omega arith)
              (λ q lo hi. later q ∙ busy q (omega arith) hi))
          (build_listener-Refuses sys held healthy port n (busy port (omega arith) le))
    | inr h ↦
        on_attempt-last port _ n _ (ground arith)
          (build_listener-Refuses sys held healthy port n (busy port (omega arith) le))
  ]

  Panics-panic : (r : Does sys ℕ) → Panics r → r.0 ≡ panic
  Panics-panic _ panics = refl

  -- If every port from the given one on is held, a build that checks overflow panics on the number
  -- of the next port, instead of returning the error of the last one.
  pub find_port_exhausted :
      (fuel port : ℕ) (n : Net)
      → port ≤ max_u16
      → max_u16 < port + fuel
      → ((q : ℕ) → port ≤ q → q ≤ max_u16 → held q n ≡ true)
      → (find_port sys true fuel port n).0 ≡ panic
  find_port_exhausted fuel port n le lt busy =
      Panics-panic _ (find_port-Panics fuel port n le lt busy)

  Finds-fuel : (n : Net) (p : ℕ) (r : Does sys ℕ) → Finds n p r → r.0 ≢ out_of_fuel
  Finds-fuel n p _ (finds h) = cc

  wrapped : (port : ℕ) → port ≤ max_u16 → max_u16 ≤ port → (port + 1) % 2 ^ 16 ≡ 0
  wrapped port le top = omega arith

  on_attempt-fuel :
      (checks : Bool) (port : ℕ) (again : ℕ → Net → Does sys ℕ) (n : Net) (r : Does sys Listener)
      → port ≤ max_u16
      → (port < max_u16
          → (m : Net) → Later sys held healthy n m
          → (again (port + 1) m).0 ≢ out_of_fuel)
      → (max_u16 ≤ port → (m : Net) → Later sys held healthy n m → (again 0 m).0 ≢ out_of_fuel)
      → Refuses sys held healthy n r
      → (on_attempt sys checks port again r).0 ≢ out_of_fuel
  unfolding on_attempt next_port
  on_attempt-fuel checks port again n _ le next first (refuses {e} {m} in_use h) =
      elim (Bool-cases (ltb port max_u16)) [
        | inl lt ↦ rw (in_use, lt) (next (ground arith) m h)
        | inr top ↦
            let at_top : max_u16 ≤ port = ground arith in
            elim (Bool-cases checks) [
              | inl checked ↦ rw (in_use, top, checked) (cc)
              | inr wraps ↦ rw (in_use, top, wraps, wrapped port le at_top) (first at_top m h)
            ]
      ]

  -- The search ends, if any port is not held, with a unit of fuel for each port from its start up to
  -- that one, by way of 0 if that one is below: 2^16 units are always enough.
  pub find_port_ends :
      (checks : Bool) (fuel port p : ℕ) (n : Net)
      → port ≤ max_u16
      → p ≤ max_u16
      → ((port ≤ p) × (p < port + fuel)) ⊎ ((p < port) × (p + 2 ^ 16 < port + fuel))
      → held p n ≡ false
      → (find_port sys checks fuel port n).0 ≢ out_of_fuel
  unfolding find_port
  find_port_ends checks zero port p n le top (inl near) free = absurd (omega arith)
  find_port_ends checks zero port p n le top (inr near) free = absurd (omega arith)
  find_port_ends checks (suc fuel) port p n le top near free = elim (Bool-cases (held port n)) [
    | inl busy ↦
        let differs : port ≢ p = λ same. cc (ap (λ q. held q n) same, busy, free) in
        on_attempt-fuel checks port _ n _ le
          (λ lt m later.
            find_port_ends checks fuel (port + 1) p m (omega arith) top
              (nearer port p fuel near differs) (later p ∙ free))
          (λ last m later.
            find_port_ends checks fuel 0 p m (omega arith) top
              (from_zero port p fuel le top near differs last) (later p ∙ free))
          (build_listener-Refuses sys held healthy port n busy)
    | inr open_port ↦ Finds-fuel n port _ (
        on_attempt-Finds checks port _ n _
          (build_listener-Listens sys held healthy port n open_port))
  ]
