-- ===== src/Dispatcher/Plain.antt =====
-- The commands that are not about transactions, and the loop that executes a queue of them.
use ember.Prelude.{
  ℕ, suc, ◌≡◌, ◌≢◌, refl, Bool, List, [], ◌∷◌, Result, ok, err, panic, out_of_fuel, All,
}
use ember.Text.{Bytes}
use ember.Resp.Types.{RespType}
use ember.Database.Map.{DashMap}
use ember.Database.Object.{RedisObject, string, list}
use ember.Database.Core.Total.{
  set-fuel, get-fuel, delete-fuel, lpush-fuel, rpush-fuel, lrange-fuel, expire-fuel,
}
use ember.Database.Core.{Instant}
use ember.Command.{
  Command, ping, echo, set, get, delete, lpush, rpush, lrange, expire, multi, discard, exec, save,
}
use ember.Dispatcher.{
  Session, Reply, Replies, string_reply, range_reply, next_reply, failing, run_queue,
  execute_command,
}

-- A command that is not about transactions.
abbrev pub IsPlain : Command → Type 0
IsPlain multi = ⊥
IsPlain discard = ⊥
IsPlain exec = ⊥
IsPlain _ = Unit

module _ (dm : DashMap) where
  -- A plain command leaves the client alone.
  pub client-execute :
      (checks : Bool) (fuel : ℕ) (clock : ℕ → Instant) (c : Command) (s : Session dm)
      → IsPlain c
      → (execute_command dm checks (suc fuel) clock c s).1.client ≡ s.client
  unfolding execute_command
  client-execute checks fuel clock ping s p = refl
  client-execute checks fuel clock multi s p = absurd p
  client-execute checks fuel clock discard s p = absurd p
  client-execute checks fuel clock exec s p = absurd p
  client-execute checks fuel clock _ s p = refl

  module _ (execute : (ℕ → Instant) → Command → Session dm → Reply dm) where
    -- What holds of a session and is kept by each command of a queue is kept by the loop.
    next_reply-keeps :
        (P : Session dm → Type 0) (r : Result Bytes RespType) (s : Session dm) (rest : Replies dm)
        → P s
        → P rest.1
        → P (next_reply dm r s rest).1
    unfolding next_reply
    next_reply-keeps P (ok rep) s rest ps pr = pr
    next_reply-keeps P (err e) s rest ps pr = ps
    next_reply-keeps P panic s rest ps pr = ps
    next_reply-keeps P out_of_fuel s rest ps pr = ps

    pub run_queue-keeps :
        (P : Session dm → Type 0)
        → ((clock : ℕ → Instant) (c : Command) (s : Session dm)
            → IsPlain c
            → P s
            → P (execute clock c s).1)
        → (clock : ℕ → Instant) (cs : List Command) (s : Session dm) → All IsPlain cs
        → P s
        → P (run_queue dm execute clock cs s).1
    unfolding run_queue
    run_queue-keeps P keep clock [] s h p = p
    run_queue-keeps P keep clock (c ∷ cs) s (hc, hcs) p =
        let p' = keep clock c s hc p in
        next_reply-keeps P _ _ _ p' (run_queue-keeps P keep (λ i. clock (suc i)) cs _ hcs p')

    next_reply-fuel :
        (r : Result Bytes RespType) (s : Session dm) (rest : Replies dm)
        → r ≢ out_of_fuel
        → rest.0 ≢ out_of_fuel
        → (next_reply dm r s rest).0 ≢ out_of_fuel
    unfolding next_reply
    next_reply-fuel (ok rep) s (ok reps, s') h k = cc
    next_reply-fuel (ok rep) s (err e, s') h k = cc
    next_reply-fuel (ok rep) s (panic, s') h k = cc
    next_reply-fuel (ok rep) s (out_of_fuel, s') h k = absurd (k refl)
    next_reply-fuel (err e) s rest h k = cc
    next_reply-fuel panic s rest h k = cc
    next_reply-fuel out_of_fuel s rest h k = absurd (h refl)

    pub run_queue-fuel :
        ((clock : ℕ → Instant) (c : Command) (s : Session dm)
          → IsPlain c
          → (execute clock c s).0 ≢ out_of_fuel)
        → (clock : ℕ → Instant) (cs : List Command) (s : Session dm) → All IsPlain cs
        → (run_queue dm execute clock cs s).0 ≢ out_of_fuel
    unfolding run_queue
    run_queue-fuel enough clock [] s h = cc
    run_queue-fuel enough clock (c ∷ cs) s (hc, hcs) =
        next_reply-fuel _ _ _ (enough clock c s hc)
          (run_queue-fuel enough (λ i. clock (suc i)) cs _ hcs)

  failing-fuel :
      {A : Type 0} (k : A → Result Bytes RespType) (r : Result Bytes A)
      → ((a : A) → k a ≢ out_of_fuel)
      → r ≢ out_of_fuel
      → failing k r ≢ out_of_fuel
  failing-fuel k (ok a) hk hr = hk a
  failing-fuel k (err e) hk hr = cc
  failing-fuel k panic hk hr = cc
  failing-fuel k out_of_fuel hk hr = absurd (hr refl)

  string_reply-fuel : (o : RedisObject) → string_reply o ≢ out_of_fuel
  unfolding string_reply
  string_reply-fuel (string s) = cc
  string_reply-fuel (list l) = cc

  range_reply-fuel : (o : RedisObject) → range_reply o ≢ out_of_fuel
  unfolding range_reply
  range_reply-fuel (string s) = cc
  range_reply-fuel (list l) = cc

  -- A plain command needs no more than one unit of fuel.
  pub execute-fuel :
      (checks : Bool) (fuel : ℕ) (clock : ℕ → Instant) (c : Command) (s : Session dm)
      → IsPlain c
      → (execute_command dm checks (suc fuel) clock c s).0 ≢ out_of_fuel
  unfolding execute_command
  execute-fuel checks fuel clock ping s p = cc
  execute-fuel checks fuel clock (echo m) s p = cc
  execute-fuel checks fuel clock (set k v e) s p =
      failing-fuel _ _ (λ _. cc) (set-fuel dm k _ e s.db)
  execute-fuel checks fuel clock (get k) s p =
      failing-fuel _ _ string_reply-fuel (get-fuel dm (clock 0) k s.db)
  execute-fuel checks fuel clock (delete k) s p = failing-fuel _ _ (λ _. cc) (delete-fuel dm k s.db)
  execute-fuel checks fuel clock (lpush k vs) s p =
      failing-fuel _ _ (λ _. cc) (lpush-fuel dm k _ s.db)
  execute-fuel checks fuel clock (rpush k vs) s p =
      failing-fuel _ _ (λ _. cc) (rpush-fuel dm k _ s.db)
  execute-fuel checks fuel clock (lrange k a b) s p =
      failing-fuel _ _ range_reply-fuel (lrange-fuel dm checks (clock 0) k a b s.db)
  execute-fuel checks fuel clock (expire k t o) s p =
      failing-fuel _ _ (λ _. cc) (expire-fuel dm k t o s.db)
  execute-fuel checks fuel clock multi s p = absurd p
  execute-fuel checks fuel clock discard s p = absurd p
  execute-fuel checks fuel clock exec s p = absurd p
  execute-fuel checks fuel clock save s p = cc
