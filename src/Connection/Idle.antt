-- ===== src/Connection/Idle.antt =====
-- The outer loop of `Client::handle` (config/client.rs) while reads would block.
use ember.Prelude.{
  ℕ, zero, suc, ◌≡◌, refl, ap, ◌+◌, ◌∙◌, true, false, if◌then◌else◌, arith, List, ◌∷◌, ◌++◌, err,
  replicate, Bool-cases, inl, inr,
}
use ember.Resp.Parser.{incomplete, parse}
use ember.Database.Map.{DashMap}
use ember.Connection.{
  Environment, ReadResult, would_block, reading, Conn, is_empty, next_round, drain, after_drain,
  drain_pass, on_reading, next_read, read_next, serve,
}
use ember.Connection.Requests.{round-incomplete}

module _ (dm : DashMap) (env : Environment dm) where
  open env use {build, itoa, sink, extract_time, clock, others}

  pass_idle :
      (c : Conn dm env) → parse build c.buf ≡ err incomplete → drain_pass dm env c ≡ (reading, c)
  unfolding drain_pass drain next_round after_drain
  pass_idle c short =
      rw
        (round-incomplete dm env (record { conn = c; pipeline_count = 0; made_progress = false })
          short)
        refl

  -- a read that blocks, with bytes in the buffer
  serve-turns :
      (rs : List ReadResult) (c : Conn dm env)
      → is_empty c.buf ≡ false
      → parse build c.buf ≡ err incomplete
      → serve dm env (would_block ∷ rs) c ≡ serve dm env rs (record c { passes = suc c.passes })
  unfolding serve next_read on_reading read_next
  serve-turns rs c some_bytes short =
      rw (some_bytes, pass_idle (record c { passes = suc c.passes }) short)

  serve-turning :
      (n : ℕ) (rs : List ReadResult) (c : Conn dm env)
      → is_empty c.buf ≡ false
      → parse build c.buf ≡ err incomplete
      → serve dm env (replicate n would_block ++ rs) c
        ≡ serve dm env rs (record c { passes = n + c.passes })
  serve-turning zero rs c some_bytes short =
      ap (λ k. serve dm env rs (record c { passes = k })) (omega arith)
  serve-turning (suc n) rs c some_bytes short =
      serve-turns (replicate n would_block ++ rs) c some_bytes short
      ∙ serve-turning n rs (record c { passes = suc c.passes }) some_bytes short
      ∙ ap (λ k. serve dm env rs (record c { passes = k })) (omega arith)

  serve-waiting :
      (n : ℕ) (rs : List ReadResult) (c : Conn dm env)
      → is_empty c.buf ≡ true
      → serve dm env (replicate n would_block ++ rs) c ≡ serve dm env rs c
  unfolding serve next_read on_reading read_next
  serve-waiting zero rs c no_bytes = refl
  serve-waiting (suc n) rs c no_bytes = rw no_bytes (serve-waiting n rs c no_bytes)

  -- While a buffer holds the beginning of a value and no more, each read that would block costs a whole
  -- pass over the buffer, without a wait, and changes nothing else: the loop turns as often as it reads.
  -- While the buffer is empty, such reads only suspend the task.
  pub serve-would_block :
      (n : ℕ) (rs : List ReadResult) (c : Conn dm env)
      → parse build c.buf ≡ err incomplete
      → serve dm env (replicate n would_block ++ rs) c
        ≡ serve dm env rs (record c { passes = if is_empty c.buf then c.passes else n + c.passes })
  serve-would_block n rs c short = elim (Bool-cases (is_empty c.buf)) [
    | inl no_bytes ↦ rw no_bytes (serve-waiting n rs c no_bytes)
    | inr some_bytes ↦ rw some_bytes (serve-turning n rs c some_bytes short)
  ]
