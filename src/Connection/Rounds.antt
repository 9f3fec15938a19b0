-- ===== src/Connection/Rounds.antt =====
-- The inner loop of `Client::handle` (config/client.rs): a round that answers a request.
use mathlib.Core.Path.{subst}
use ember.Prelude.{
  ℕ, ◌≡◌, refl, ap, ◌∙◌, Bool, true, false, ◌++◌, Option, none, some, leb, Result, ok, err, panic,
  out_of_fuel, if◌then◌else◌,
}
use ember.Prelude.Int.{ℤ}
use ember.Text.{Bytes}
use ember.Text.Decimal.{format_int}
use ember.Resp.Types.{RespType, simple_error, to_string, IoResult, written, io_error, write_to}
use ember.Resp.Types.Write.{write_to-to_string}
use ember.Resp.Parser.{parse}
use ember.Database.Map.{DashMap}
use ember.Command.{Command}
use ember.Dispatcher.{Session, dispatch}
use ember.Connection.{
  Environment, Conn, Pass, Round, again, on_mid_flush, on_written, on_dispatched, on_command,
  on_parsed, round, max_pipeline_depth, report,
}
use ember.Connection.Requests.{
  IsReliable, View, reply_bytes, with_session, answer_command, answer, after, view_of, sent_view,
  has_bytes,
}

module _ (dm : DashMap) (env : Environment dm) where
  open env use {build, itoa, sink, extract_time, clock, others}

  module _ (view : sink.aw.Writer → Bytes) (reliable : IsReliable sink view)
      (itoa_lem : (z : ℤ) → itoa z ≡ format_int z) where
    abbrev seen : Conn dm env → View dm env
    seen c = view_of dm env view c

    -- a round that goes on with this view
    pub data Answered (v : View dm env) : Round dm env → Type 0 where
      answered : {p : Pass dm env} → seen p.conn ≡ v → Answered v (again p)

    write_to-written : (v : RespType) (w : sink.aw.Writer) → (write_to sink.aw itoa v w).0 ≡ written
    write_to-written v w =
        rw (write_to-to_string sink.aw itoa reliable.is_stream itoa_lem v w)
          (reliable.write_written (to_string v) w)

    pub write_to-view :
        (v : RespType) (w : sink.aw.Writer)
        → view (write_to sink.aw itoa v w).1 ≡ view w ++ to_string v
    write_to-view v w =
        rw (write_to-to_string sink.aw itoa reliable.is_stream itoa_lem v w)
          (reliable.write_view (to_string v) w)

    on_mid_flush-Answered :
        (r : IoResult × sink.aw.Writer) (p : Pass dm env)
        → r.0 ≡ written
        → Answered (sent_view dm env view (view r.1) p.conn) (on_mid_flush dm env r p)
    unfolding on_mid_flush
    on_mid_flush-Answered (written, w) p e = answered refl
    on_mid_flush-Answered (io_error why, w) p e = absurd cc

    Answered-if :
        {v : View dm env} (b : Bool) {x y : Round dm env}
        → Answered v x
        → Answered v y
        → Answered v (if b then x else y)
    Answered-if true hx hy = hx
    Answered-if false hx hy = hy

    on_written-Answered :
        (r : IoResult × sink.aw.Writer) (p : Pass dm env) (bytes : Bytes)
        → r.0 ≡ written
        → view r.1 ≡ bytes
        → Answered (sent_view dm env view bytes p.conn) (on_written dm env r p)
    unfolding on_written
    on_written-Answered (written, w) p bytes e h =
        Answered-if (leb max_pipeline_depth p.pipeline_count)
          (subst
            (λ b. Answered (sent_view dm env view b p.conn) (on_mid_flush dm env (sink.flush w) p))
            (reliable.flush_view w ∙ h)
            (on_mid_flush-Answered (sink.flush w) p (reliable.flush_written w)))
          (answered (ap (λ b. sent_view dm env view b p.conn) h))
    on_written-Answered (io_error why, w) p bytes e h = absurd cc

    report-Answered :
        (why : Bytes) (p : Pass dm env)
        → Answered
            (sent_view dm env view (view p.conn.writer ++ to_string (simple_error why)) p.conn)
            (again (report dm env why p))
    report-Answered why p =
        answered (
          ap (λ b. sent_view dm env view b p.conn) (write_to-view (simple_error why) p.conn.writer))

    on_dispatched-Answered :
        (r : Result Bytes RespType) (p : Pass dm env) (bytes : Bytes)
        → reply_bytes dm env r ≡ some bytes
        → Answered
            (sent_view dm env view (view p.conn.writer ++ bytes) p.conn)
            (on_dispatched dm env r p)
    unfolding on_dispatched reply_bytes
    on_dispatched-Answered (ok res) p bytes e =
        on_written-Answered (write_to sink.aw itoa res p.conn.writer) p _
          (write_to-written res p.conn.writer)
          (write_to-view res p.conn.writer ∙ ap (λ b. view p.conn.writer ++ b) cc)
    on_dispatched-Answered (err why) p bytes e =
        subst
          (λ b.
            Answered (sent_view dm env view (view p.conn.writer ++ b) p.conn)
              (again (report dm env why p)))
          (cc) (report-Answered why p)
    on_dispatched-Answered panic p bytes e = absurd cc
    on_dispatched-Answered out_of_fuel p bytes e = absurd cc

    with_session-some :
        (s s' : Session dm) (o : Option Bytes) (bytes : Bytes)
        → with_session dm env s o ≡ some (bytes, s')
        → (o ≡ some bytes) × (s ≡ s')
    unfolding with_session
    with_session-some s s' none bytes e = absurd cc
    with_session-some s s' (some b) bytes e = (cc, cc)

    on_command-Answered :
        (i : ℕ) (r : Result Bytes Command) (p : Pass dm env) (bytes : Bytes) (s : Session dm)
        → answer_command dm env i r p.conn.session ≡ some (bytes, s)
        → Answered
            (record (seen p.conn) { session = s; sent = view p.conn.writer ++ bytes })
            (on_command dm env i r p)
    unfolding on_command answer_command
    on_command-Answered i (ok cmd) p bytes s e =
        let (res, s₁) = dispatch dm build.overflow_checks (clock i) cmd p.conn.session in
        let (same_bytes, same_session) = with_session-some s₁ s (reply_bytes dm env res) bytes e in
        let q : Pass dm env = record p { conn = record p.conn { session = s₁ } } in
        subst
          (λ t.
            Answered (record (seen p.conn) { session = t; sent = view p.conn.writer ++ bytes })
              (on_dispatched dm env res q))
          same_session (on_dispatched-Answered res q bytes same_bytes)
    on_command-Answered i (err why) p bytes s e =
        let same : (to_string (simple_error why), p.conn.session) ≡ (bytes, s) = cc in
        subst
          (λ (b, t).
            Answered (record (seen p.conn) { session = t; sent = view p.conn.writer ++ b })
              (again (report dm env why p)))
          same (report-Answered why p)
    on_command-Answered i panic p bytes s e = absurd cc
    on_command-Answered i out_of_fuel p bytes s e = absurd cc

    pub round-Answered :
        (p : Pass dm env) (value : RespType) (n : ℕ) (bytes : Bytes) (s : Session dm)
        → parse build p.conn.buf ≡ ok (value, n)
        → answer dm env p.conn.served value p.conn.session ≡ some (bytes, s)
        → Answered (after dm env n bytes s (seen p.conn)) (round dm env p)
    unfolding round on_parsed answer
    round-Answered p value n bytes s e h =
        rw (has_bytes dm env p.conn.buf (cc), e) (on_command-Answered p.conn.served _ _ bytes s h)
