-- ===== src/Dispatcher/Queue.antt =====
-- A session between two commands: what it holds, and that a command is never out of fuel.
use ember.Prelude.{
  ℕ, suc, ◌≡◌, ◌≢◌, refl, Bool, true, false, [], ◌∷◌, if◌then◌else◌, ok, err, panic, out_of_fuel,
  All, All-append,
}
use ember.Database.Map.{DashMap}
use ember.Database.Core.{Instant}
use ember.Command.{Command, multi, discard, exec}
use ember.Dispatcher.{
  Session, Reply, Replies, finish_exec, execute_command, dispatch_queued, dispatch, enqueue,
}
use ember.Dispatcher.Plain.{IsPlain, client-execute, run_queue-keeps, run_queue-fuel, execute-fuel}

module _ (dm : DashMap) where
  -- A session as the dispatcher leaves it: only plain commands are queued, and outside of a
  -- transaction none.
  pub record IsValid (s : Session dm) : Type 0 where
    pub plain : All IsPlain s.client.queued_commands
    pub idle : s.client.in_transaction ≡ false → s.client.queued_commands ≡ []

  finish_exec-fuel : (r : Replies dm) → r.0 ≢ out_of_fuel → (finish_exec dm r).0 ≢ out_of_fuel
  unfolding finish_exec
  finish_exec-fuel (ok reps, s) h = cc
  finish_exec-fuel (err e, s) h = cc
  finish_exec-fuel (panic, s) h = cc
  finish_exec-fuel (out_of_fuel, s) h = absurd (h refl)

  -- Two units are enough for any command, if only plain commands are queued.
  execute_exec-fuel :
      (checks : Bool) (clock : ℕ → Instant) (s : Session dm)
      → All IsPlain s.client.queued_commands
      → (execute_command dm checks 2 clock exec s).0 ≢ out_of_fuel
  unfolding execute_command
  execute_exec-fuel checks clock s h = finish_exec-fuel _ (
      run_queue-fuel dm (λ cl c t. execute_command dm checks 1 cl c t)
        (λ cl c t p. execute-fuel dm checks 0 cl c t p) clock s.client.queued_commands s h)

  finish_exec-IsValid : (r : Replies dm) → IsValid r.1 → IsValid (finish_exec dm r).1
  unfolding finish_exec
  finish_exec-IsValid (ok reps, s) v = record { plain = tt; idle = λ _. refl }
  finish_exec-IsValid (err e, s) v = v
  finish_exec-IsValid (panic, s) v = v
  finish_exec-IsValid (out_of_fuel, s) v = v

  same_client-IsValid : (s t : Session dm) → t.client ≡ s.client → IsValid s → IsValid t
  same_client-IsValid s t e v = record {
    plain = rw e v.plain;
    idle = λ h. rw e (v.idle (rw e at h));
  }

  execute-IsValid :
      (checks : Bool) (fuel : ℕ) (clock : ℕ → Instant) (c : Command) (s : Session dm)
      → IsPlain c
      → IsValid s
      → IsValid (execute_command dm checks (suc fuel) clock c s).1
  execute-IsValid checks fuel clock c s p v =
      same_client-IsValid s _ (client-execute dm checks fuel clock c s p) v

  execute_exec-IsValid :
      (checks : Bool) (clock : ℕ → Instant) (s : Session dm)
      → IsValid s
      → IsValid (execute_command dm checks 2 clock exec s).1
  unfolding execute_command
  execute_exec-IsValid checks clock s v = finish_exec-IsValid _ (
      run_queue-keeps dm (λ cl c t. execute_command dm checks 1 cl c t) IsValid
        (λ cl c t p. execute-IsValid checks 0 cl c t p) clock s.client.queued_commands s v.plain v)

  -- the reply is no lack of fuel, and the session is valid
  abbrev Settled : Reply dm → Type 0
  Settled r = (r.0 ≢ out_of_fuel) × IsValid r.1

  execute_exec-Settled :
      (checks : Bool) (clock : ℕ → Instant) (s : Session dm)
      → IsValid s
      → Settled (execute_command dm checks 2 clock exec s)
  execute_exec-Settled checks clock s v =
      (execute_exec-fuel checks clock s v.plain, execute_exec-IsValid checks clock s v)

  execute_plain-Settled :
      (checks : Bool) (clock : ℕ → Instant) (c : Command) (s : Session dm)
      → IsPlain c
      → IsValid s
      → Settled (execute_command dm checks 2 clock c s)
  execute_plain-Settled checks clock c s p v =
      (execute-fuel dm checks 1 clock c s p, execute-IsValid checks 1 clock c s p v)

  execute-Settled :
      (checks : Bool) (clock : ℕ → Instant) (c : Command) (s : Session dm)
      → IsValid s
      → Settled (execute_command dm checks 2 clock c s)
  execute-Settled checks clock exec s v = execute_exec-Settled checks clock s v
  execute-Settled checks clock multi s v =
      unfold execute_command in (cc, record { plain = tt; idle = λ h. cc })
  execute-Settled checks clock discard s v =
      unfold execute_command in (cc, record { plain = tt; idle = λ h. refl })
  execute-Settled checks clock c s v = execute_plain-Settled checks clock c s tt v

  enqueue-Settled :
      (c : Command) (s : Session dm)
      → IsPlain c
      → s.client.in_transaction ≡ true
      → IsValid s
      → Settled (enqueue dm c s)
  enqueue-Settled c s p h v = (
    cc,
    record {
      plain = All-append IsPlain s.client.queued_commands (c ∷ []) v.plain (p, tt);
      idle = λ out. cc;
    },
  )

  dispatch_queued-Settled :
      (checks : Bool) (clock : ℕ → Instant) (c : Command) (s : Session dm)
      → s.client.in_transaction ≡ true
      → IsValid s
      → Settled (dispatch_queued dm (execute_command dm checks 2 clock) c s)
  unfolding dispatch_queued
  dispatch_queued-Settled checks clock multi s h v = (cc, v)
  dispatch_queued-Settled checks clock exec s h v = execute-Settled checks clock exec s v
  dispatch_queued-Settled checks clock discard s h v = execute-Settled checks clock discard s v
  dispatch_queued-Settled checks clock c s h v = enqueue-Settled c s tt h v

  Settled-if :
      (b : Bool) (x y : Reply dm)
      → (b ≡ true → Settled x)
      → (b ≡ false → Settled y)
      → Settled (if b then x else y)
  Settled-if true x y hx hy = hx refl
  Settled-if false x y hx hy = hy refl

  -- Every command of a valid session is answered within the fuel, whatever happens in it, and leaves
  -- a valid session: only plain commands are queued, and none outside of a transaction.
  pub dispatch_settles :
      (checks : Bool) (clock : ℕ → Instant) (c : Command) (s : Session dm)
      → IsValid s
      → ((dispatch dm checks clock c s).0 ≢ out_of_fuel) × IsValid (dispatch dm checks clock c s).1
  unfolding dispatch
  dispatch_settles checks clock c s v =
      Settled-if s.client.in_transaction _ _ (λ h. dispatch_queued-Settled checks clock c s h v)
        (λ h. execute-Settled checks clock c s v)
