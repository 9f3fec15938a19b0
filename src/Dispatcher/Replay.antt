-- ===== src/Dispatcher/Replay.antt =====
-- `EXEC` runs its queue as a client outside of a transaction would.
use ember.Prelude.{
  ℕ, suc, ◌≡◌, refl, Bool, true, List, [], ◌∷◌, Result, ok, err, panic, out_of_fuel, All,
}
use ember.Text.{Bytes}
use ember.Resp.Types.{RespType, array, from_list}
use ember.Database.Map.{DashMap}
use ember.Database.Core.{Instant}
use ember.Command.{Command, multi, discard, exec}
use ember.Dispatcher.{
  Client, new_client, Session, Reply, Replies, next_reply, run_queue, finish_exec, execute_command,
  dispatch,
}
use ember.Dispatcher.Plain.{IsPlain}

abbrev pub queueing : List Command → Client
queueing q = record { in_transaction = true; queued_commands = q }

module _ (dm : DashMap) where
  abbrev pub with_client : Client → Session dm → Session dm
  with_client cl s = record s { client = cl }

  -- What `EXEC` of `q` makes of the run of these commands by themselves: one array of their replies;
  -- or the error of the one that failed, with the client still in the transaction.
  unfoldable pub exec_of : List Command → Replies dm → Reply dm
  exec_of q (ok reps, s) = (ok (array (from_list reps)), with_client new_client s)
  exec_of q (err e, s) = (err e, with_client (queueing q) s)
  exec_of q (panic, s) = (panic, with_client (queueing q) s)
  exec_of q (out_of_fuel, s) = (out_of_fuel, with_client (queueing q) s)

  -- A plain command does not look at the client.
  execute-with_client :
      (checks : Bool) (fuel : ℕ) (clock : ℕ → Instant) (c : Command) (cl : Client) (s : Session dm)
      → IsPlain c
      → execute_command dm checks (suc fuel) clock c (with_client cl s) ≡ (
        (execute_command dm checks (suc fuel) clock c s).0,
        with_client cl (execute_command dm checks (suc fuel) clock c s).1,
      )
  unfolding execute_command
  execute-with_client checks fuel clock multi cl s p = absurd p
  execute-with_client checks fuel clock discard cl s p = absurd p
  execute-with_client checks fuel clock exec cl s p = absurd p
  execute-with_client checks fuel clock _ cl s p = refl

  -- one step of the loop of `EXEC`, with another client
  next_reply-with_client :
      (cl : Client) (r : Result Bytes RespType) (s : Session dm) (rest : Replies dm)
      → next_reply dm r (with_client cl s) (rest.0, with_client cl rest.1)
        ≡ ((next_reply dm r s rest).0, with_client cl (next_reply dm r s rest).1)
  unfolding next_reply
  next_reply-with_client cl (ok rep) s rest = refl
  next_reply-with_client cl (err e) s rest = refl
  next_reply-with_client cl panic s rest = refl
  next_reply-with_client cl out_of_fuel s rest = refl

  pub finish_exec-exec_of :
      (q : List Command) (r : Replies dm)
      → finish_exec dm (r.0, with_client (queueing q) r.1) ≡ exec_of q r
  unfolding finish_exec exec_of
  finish_exec-exec_of q (ok reps, s) = refl
  finish_exec-exec_of q (err e, s) = refl
  finish_exec-exec_of q (panic, s) = refl
  finish_exec-exec_of q (out_of_fuel, s) = refl

  -- outside of a transaction a plain command is executed, with any fuel
  dispatch-plain :
      (checks : Bool) (fuel : ℕ) (clock : ℕ → Instant) (c : Command) (s : Session dm)
      → IsPlain c
      → dispatch dm checks clock c (with_client new_client s)
        ≡ execute_command dm checks (suc fuel) clock c (with_client new_client s)
  unfolding dispatch execute_command
  dispatch-plain checks fuel clock multi s p = absurd p
  dispatch-plain checks fuel clock discard s p = absurd p
  dispatch-plain checks fuel clock exec s p = absurd p
  dispatch-plain checks fuel clock _ s p = refl

  -- The loop of `EXEC` runs the queue as a client outside of a transaction would.
  pub run_queue-dispatch :
      (checks : Bool) (clock : ℕ → Instant) (cs : List Command) (cl : Client) (s : Session dm)
      → All IsPlain cs
      → let direct = run_queue dm (dispatch dm checks) clock cs (with_client new_client s) in
        run_queue dm (λ k c t. execute_command dm checks 1 k c t) clock cs (with_client cl s)
        ≡ (direct.0, with_client cl direct.1)
  unfolding run_queue
  run_queue-dispatch checks clock [] cl s h = refl
  run_queue-dispatch checks clock (c ∷ cs) cl s (hc, hcs) =
      let t = (execute_command dm checks 1 clock c s).1 in
      rw
        (
          dispatch-plain checks 0 clock c s hc,
          execute-with_client checks 0 clock c cl s hc,
          execute-with_client checks 0 clock c new_client s hc,
          run_queue-dispatch checks (λ i. clock (suc i)) cs cl t hcs,
        )
        (next_reply-with_client cl (execute_command dm checks 1 clock c s).0
          (with_client new_client t)
          (run_queue dm (dispatch dm checks) (λ i. clock (suc i)) cs (with_client new_client t)))
