-- ===== src/Dispatcher.antt =====
-- src/command/dispatcher.rs, with the `Client` of src/config/client.rs: a command is queued or
-- executed. `clock i` is what `Instant::now` returns to the i-th command that is executed.
pub mod Plain
pub mod Queue
pub mod Replay
pub mod Transaction
use Prim.Native.Nat.{zero}
use ember.Prelude.{
  ℕ, suc, ◌+◌, Bool, true, false, List, [], ◌∷◌, ◌++◌, map, Option, none, some, if◌then◌else◌,
  Result, ok, err, panic, out_of_fuel, ◌>>=◌,
}
use ember.Prelude.Int.{ℤ}
use ember.Text.{Bytes, codes}
use ember.Resp.Types.{RespType, RespTypes, simple_string, bulk_string, array, from_list}
use ember.Database.Map.{DashMap}
use ember.Database.Object
use ember.Database.Object.{RedisObject}
use ember.Database.Core
use ember.Database.Core.{Instant, Db}
use ember.Command.{
  Command, ping, echo, set, get, delete, lpush, rpush, lrange, expire, multi, discard, exec, save,
}

pub record Client : Type 0 where
  pub in_transaction : Bool
  pub queued_commands : List Command

abbrev pub new_client : Client
new_client = record { in_transaction = false; queued_commands = [] }

-- A connection's client, the store, and the snapshots handed to background tasks, the newest last.
pub record Session (dm : DashMap) : Type 0 where
  pub client : Client
  pub db : Db dm
  pub snapshots : List (Db dm)

abbrev pub Reply : DashMap → Type 0
Reply dm = Result Bytes RespType × Session dm

abbrev pub simple : Bytes → Result Bytes RespType
simple s = ok (simple_string s)

-- `anyhow!("Failed to execute command. E: {}", e)` around what a method of the store returned
abbrev pub failing {ℓ} :
    {A : Type ℓ} → (A → Result Bytes RespType) → Result Bytes A → Result Bytes RespType
failing k (ok a) = k a
failing k (err e) = err (codes "Failed to execute command. E: " ++ e)
failing k panic = panic
failing k out_of_fuel = out_of_fuel

string_reply : RedisObject → Result Bytes RespType
string_reply (Object.string s) = ok (bulk_string s)
string_reply (Object.list l) = err (codes "Wrong data type. Expected String, got List.")

-- the strings of a list, the nested lists left out
bulk_items : List RedisObject → List RespType
bulk_items [] = []
bulk_items (Object.string s ∷ os) = bulk_string s ∷ bulk_items os
bulk_items (Object.list l ∷ os) = bulk_items os

range_reply : RedisObject → Result Bytes RespType
unfolding bulk_items
range_reply (Object.list l) = ok (array (from_list (bulk_items (Object.to_list l))))
range_reply (Object.string s) = ok (bulk_string s)

module _ (dm : DashMap) where
  -- a method of the store, and the reply made of its result
  abbrev on_db :
      {A : Type 0}
      → (A → Result Bytes RespType)
      → (Db dm → Result Bytes A × Db dm)
      → Session dm
      → Reply dm
  on_db k method s = let (r, db') = method s.db in (failing k r, record s { db = db' })

  abbrev pub Replies : Type 0
  Replies = Result Bytes (List RespType) × Session dm

  -- what the loop does with the reply to one command, given the rest of its run
  next_reply : Result Bytes RespType → Session dm → Replies → Replies
  next_reply (ok rep) s (rs, s') = (rs >>= λ reps. ok (rep ∷ reps), s')
  next_reply (err e) s rest = (err (codes "Failed to execute queued commands. E: " ++ e), s)
  next_reply panic s rest = (panic, s)
  next_reply out_of_fuel s rest = (out_of_fuel, s)

  -- the loop of `EXEC`; the first error ends it, and what was done before stays done
  unfoldable pub run_queue :
      ((ℕ → Instant) → Command → Session dm → Reply dm)
      → (ℕ → Instant)
      → List Command
      → Session dm
      → Replies
  unfolding next_reply
  run_queue execute clock [] s = (ok [], s)
  run_queue execute clock (c ∷ cs) s =
      let (r, s') = execute clock c s in
      next_reply r s' (run_queue execute (λ i. clock (suc i)) cs s')

  abbrev leave_transaction : Session dm → Session dm
  leave_transaction s = record s { client = new_client }

  -- the end of `EXEC`, if no command failed
  pub finish_exec : Replies → Reply dm
  finish_exec (ok reps, s) = (ok (array (from_list reps)), leave_transaction s)
  finish_exec (err e, s) = (err e, s)
  finish_exec (panic, s) = (panic, s)
  finish_exec (out_of_fuel, s) = (out_of_fuel, s)

  -- `execute_command`; `EXEC` executes the queued commands by the function itself, and each level
  -- of that costs a unit of fuel.
  unfoldable pub execute_command : Bool → ℕ → (ℕ → Instant) → Command → Session dm → Reply dm
  unfolding string_reply range_reply finish_exec
  execute_command checks zero clock c s = (out_of_fuel, s)
  execute_command checks (suc fuel) clock ping s = (simple (codes "Pong"), s)
  execute_command checks (suc fuel) clock (echo msg) s = (ok (bulk_string msg), s)
  execute_command checks (suc fuel) clock (set key value expires_in) s =
      on_db (λ _. simple (codes "Ok")) (Core.set dm key (Object.string value) expires_in) s
  execute_command checks (suc fuel) clock (get key) s =
      on_db string_reply (Core.get dm (clock 0) key) s
  execute_command checks (suc fuel) clock (delete key) s =
      on_db (λ _. ok (bulk_string (codes "Ok"))) (Core.delete dm key) s
  execute_command checks (suc fuel) clock (expire key expires_at option) s =
      on_db (λ _. simple (codes "Ok")) (Core.expire dm key expires_at option) s
  execute_command checks (suc fuel) clock (lpush key vals) s =
      on_db (λ _. simple (codes "Ok")) (Core.lpush dm key (map Object.string vals)) s
  execute_command checks (suc fuel) clock (rpush key vals) s =
      on_db (λ _. simple (codes "Ok")) (Core.rpush dm key (map Object.string vals)) s
  execute_command checks (suc fuel) clock (lrange key start stop) s =
      on_db range_reply (Core.lrange dm checks (clock 0) key start stop) s
  execute_command checks (suc fuel) clock multi s = (
    simple (codes "Ok"),
    record s { client = record { in_transaction = true; queued_commands = [] } },
  )
  execute_command checks (suc fuel) clock discard s = (simple (codes "Ok"), leave_transaction s)
  execute_command checks (suc fuel) clock exec s =
      finish_exec
        (run_queue (λ cl c t. execute_command checks fuel cl c t) clock s.client.queued_commands s)
  execute_command checks (suc fuel) clock save s =
      (simple (codes "Ok"), record s { snapshots = s.snapshots ++ s.db ∷ [] })

  abbrev enqueue : Command → Session dm → Reply dm
  enqueue c s = (
    simple (codes "QUEUED"),
    record s { client = record s.client { queued_commands = s.client.queued_commands ++ c ∷ [] } },
  )

  -- in a transaction
  dispatch_queued : (Command → Session dm → Reply dm) → Command → Session dm → Reply dm
  dispatch_queued execute multi s = (err (codes "Can not nest multi"), s)
  dispatch_queued execute exec s = execute exec s
  dispatch_queued execute discard s = execute discard s
  dispatch_queued execute c s = enqueue c s

  -- Two units of fuel: one for `EXEC`, one for the commands that it executes.
  unfoldable pub dispatch : Bool → (ℕ → Instant) → Command → Session dm → Reply dm
  unfolding dispatch_queued
  dispatch checks clock c s =
      if s.client.in_transaction
      then dispatch_queued (execute_command checks 2 clock) c s
      else execute_command checks 2 clock c s
