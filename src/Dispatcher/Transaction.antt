-- ===== src/Dispatcher/Transaction.antt =====
-- A whole transaction: `MULTI`, the commands that are queued, and `EXEC` or `DISCARD`.
use ember.Prelude.{
  ℕ, suc, ◌≡◌, refl, ap, drop, Bool, List, [], ◌∷◌, ◌++◌, map, append-nil, append_assoc, Result, ok,
  err, All,
}
use ember.Text.{Bytes, codes}
use ember.Resp.Types.{RespType, array, from_list}
use ember.Database.Map.{DashMap}
use ember.Database.Core.{Instant}
use ember.Command.{Command, multi, discard, exec}
use ember.Dispatcher.{
  new_client, Session, simple, next_reply, run_queue, execute_command, dispatch_queued, dispatch,
}
use ember.Dispatcher.Plain.{IsPlain}
use ember.Dispatcher.Replay.{
  with_client, queueing, exec_of, finish_exec-exec_of, run_queue-dispatch,
}

-- Commands that a client sends one after the other: all replies, and the session at the end.
-- `clock i` is what `Instant::now` returns to the i-th.
unfoldable pub send_all :
    (dm : DashMap)
    → Bool
    → (ℕ → Instant)
    → List Command
    → Session dm
    → List (Result Bytes RespType) × Session dm
send_all dm checks clock [] s = ([], s)
send_all dm checks clock (c ∷ cs) s =
    let (r, s') = dispatch dm checks clock c s in
    let (rs, s'') = send_all dm checks (λ i. clock (suc i)) cs s' in (r ∷ rs, s'')

-- the clock of the command behind these
unfoldable pub clock_after : List Command → (ℕ → Instant) → ℕ → Instant
clock_after [] clock = clock
clock_after (c ∷ cs) clock = clock_after cs (λ i. clock (suc i))

module _ (dm : DashMap) where
  dispatch-queueing :
      (checks : Bool) (clock : ℕ → Instant) (c : Command) (q : List Command) (s : Session dm)
      → IsPlain c
      → dispatch dm checks clock c (with_client dm (queueing q) s)
        ≡ (simple (codes "QUEUED"), with_client dm (queueing (q ++ c ∷ [])) s)
  unfolding dispatch dispatch_queued
  dispatch-queueing checks clock multi q s p = absurd p
  dispatch-queueing checks clock discard q s p = absurd p
  dispatch-queueing checks clock exec q s p = absurd p
  dispatch-queueing checks clock _ q s p = refl

  send_all-queueing :
      (checks : Bool) (clock : ℕ → Instant) (cs q : List Command) (s : Session dm)
      → All IsPlain cs
      → send_all dm checks clock cs (with_client dm (queueing q) s)
        ≡ (map (λ _. simple (codes "QUEUED")) cs, with_client dm (queueing (q ++ cs)) s)
  unfolding send_all
  send_all-queueing checks clock [] q s h = rw (append-nil q)
  send_all-queueing checks clock (c ∷ cs) q s (hc, hcs) = rw (
    dispatch-queueing checks clock c q s hc,
    send_all-queueing checks (λ i. clock (suc i)) cs (q ++ c ∷ []) s hcs,
    append_assoc q (c ∷ []) cs,
  )

  dispatch-exec :
      (checks : Bool) (clock : ℕ → Instant) (cs : List Command) (s : Session dm)
      → All IsPlain cs
      → dispatch dm checks clock exec (with_client dm (queueing cs) s)
        ≡ exec_of dm cs (run_queue dm (dispatch dm checks) clock cs (with_client dm new_client s))
  unfolding dispatch dispatch_queued execute_command
  dispatch-exec checks clock cs s h = rw (run_queue-dispatch dm checks clock cs (queueing cs) s h) (
      finish_exec-exec_of dm cs
        (run_queue dm (dispatch dm checks) clock cs (with_client dm new_client s)))

  -- The commands `cs`, sent after `MULTI`.
  abbrev pub queued :
      Bool → (ℕ → Instant) → List Command → Session dm → List (Result Bytes RespType) × Session dm
  queued checks clock cs s = send_all dm checks clock cs (dispatch dm checks clock multi s).1

  queued_lem :
      (checks : Bool) (clock : ℕ → Instant) (cs : List Command) (s : Session dm)
      → All IsPlain cs
      → queued checks clock cs (with_client dm new_client s)
        ≡ (map (λ _. simple (codes "QUEUED")) cs, with_client dm (queueing cs) s)
  unfolding dispatch execute_command
  queued_lem checks clock cs s h = send_all-queueing checks clock cs [] s h

  run_queue-send_all :
      (checks : Bool) (clock : ℕ → Instant) (cs : List Command) (s s' : Session dm)
      (reps : List RespType)
      → send_all dm checks clock cs s ≡ (map ok reps, s')
      → run_queue dm (dispatch dm checks) clock cs s ≡ (ok reps, s')
  unfolding send_all run_queue next_reply
  run_queue-send_all checks clock [] s s' [] h = cc
  run_queue-send_all checks clock [] s s' (rep ∷ reps) h = absurd cc
  run_queue-send_all checks clock (c ∷ cs) s s' [] h = absurd cc
  run_queue-send_all checks clock (c ∷ cs) s s' (rep ∷ reps) h =
      let first : (dispatch dm checks clock c s).0 ≡ ok rep = cc in
      let t = (dispatch dm checks clock c s).1 in
      let others : send_all dm checks (λ i. clock (suc i)) cs t ≡ (map ok reps, s') =
        ap (λ p. (drop 1 p.0, p.1)) h in
      rw (first, run_queue-send_all checks (λ i. clock (suc i)) cs t s' reps others)

  run_queue-send_all_failed :
      (checks : Bool) (clock : ℕ → Instant) (cs : List Command) (c : Command) (cs' : List Command)
      (s s' s'' : Session dm) (reps : List RespType) (why : Bytes)
      → send_all dm checks clock cs s ≡ (map ok reps, s')
      → dispatch dm checks (clock_after cs clock) c s' ≡ (err why, s'')
      → run_queue dm (dispatch dm checks) clock (cs ++ c ∷ cs') s
        ≡ (err (codes "Failed to execute queued commands. E: " ++ why), s'')
  unfolding send_all run_queue next_reply clock_after
  run_queue-send_all_failed checks clock [] c cs' s s' s'' [] why h e = rw (ap (λ p. p.1) h, e)
  run_queue-send_all_failed checks clock [] c cs' s s' s'' (rep ∷ reps) why h e = absurd cc
  run_queue-send_all_failed checks clock (d ∷ cs) c cs' s s' s'' [] why h e = absurd cc
  run_queue-send_all_failed checks clock (d ∷ cs) c cs' s s' s'' (rep ∷ reps) why h e =
      let first : (dispatch dm checks clock d s).0 ≡ ok rep = cc in
      let t = (dispatch dm checks clock d s).1 in
      rw (
        first,
        run_queue-send_all_failed checks (λ i. clock (suc i)) cs c cs' t s' s'' reps why
            (ap (λ p. (drop 1 p.0, p.1)) h) e,
      )

  -- A transaction of plain commands, none of which fails when a client outside of a transaction
  -- sends them one after the other at the same times: each is answered `QUEUED`, and `EXEC` then answers with one
  -- array of the replies that they had given by themselves, in order, and leaves the store as they
  -- had left it, and the client outside of a transaction.
  pub exec_lem :
      (checks : Bool) (clock clock' : ℕ → Instant) (cs : List Command) (s s' : Session dm)
      (reps : List RespType)
      → All IsPlain cs
      → send_all dm checks clock cs (with_client dm new_client s) ≡ (map ok reps, s')
      → let (rs, t) = queued checks clock' cs (with_client dm new_client s) in
        (rs ≡ map (λ _. simple (codes "QUEUED")) cs)
        × (dispatch dm checks clock exec t
            ≡ (ok (array (from_list reps)), with_client dm new_client s'))
  unfolding exec_of
  exec_lem checks clock clock' cs s s' reps h e =
      rw
        (
          queued_lem checks clock' cs s h,
          dispatch-exec checks clock cs s h,
          run_queue-send_all checks clock cs (with_client dm new_client s) s' reps e,
        )
        (refl, refl)

  -- A transaction of plain commands in which one fails, as it fails when they are sent one after the
  -- other at the same times: `EXEC` reports its error, what was done before it stays done, the commands behind
  -- it are not executed, and the client stays in the transaction, with its whole queue.
  pub exec_failed :
      (checks : Bool) (clock clock' : ℕ → Instant) (cs : List Command) (c : Command)
      (cs' : List Command) (s s' s'' : Session dm) (reps : List RespType) (why : Bytes)
      → All IsPlain (cs ++ c ∷ cs')
      → send_all dm checks clock cs (with_client dm new_client s) ≡ (map ok reps, s')
      → dispatch dm checks (clock_after cs clock) c s' ≡ (err why, s'')
      → dispatch dm checks clock exec
          (queued checks clock' (cs ++ c ∷ cs') (with_client dm new_client s)).1
        ≡ (
          err (codes "Failed to execute queued commands. E: " ++ why),
          with_client dm (queueing (cs ++ c ∷ cs')) s'',
        )
  unfolding exec_of
  exec_failed checks clock clock' cs c cs' s s' s'' reps why h e f = rw (
    queued_lem checks clock' (cs ++ c ∷ cs') s h,
    dispatch-exec checks clock (cs ++ c ∷ cs') s h,
    run_queue-send_all_failed checks clock cs c cs' (with_client dm new_client s) s' s'' reps why e
        f,
  )

  -- `DISCARD` undoes a transaction: the session is the one before `MULTI`.
  pub discard_lem :
      (checks : Bool) (clock : ℕ → Instant) (cs : List Command) (s : Session dm)
      → All IsPlain cs
      → dispatch dm checks clock discard (queued checks clock cs (with_client dm new_client s)).1
        ≡ (simple (codes "Ok"), with_client dm new_client s)
  unfolding dispatch dispatch_queued execute_command
  discard_lem checks clock cs s h = rw (queued_lem checks clock cs s h)
