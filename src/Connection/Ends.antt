-- ===== src/Connection/Ends.antt =====
-- `Client::handle` (config/client.rs) at what ends a run of requests: bytes that are no value, or a
-- request that panics.
use ember.Prelude.{
  ℕ, zero, suc, ◌<◌, ◌≡◌, ◌≢◌, refl, ap, sym, ◌∙◌, Bool, true, false, not, ◌&&◌, [], ◌++◌, Option,
  none, some, arith, length, length-drop, drop, Result, ok, err, panic, out_of_fuel, if◌then◌else◌,
}
use mathlib.Core.Path.{subst}
use ember.Prelude.Int.{ℤ}
use ember.Text.{Bytes}
use ember.Text.Decimal.{format_int}
use ember.Resp.Types.{RespType, simple_error, to_string, IoResult, written, io_error, write_to}
use ember.Resp.Parser.{invalid, parse}
use ember.Resp.Parser.Bounds.{parse_consumes}
use ember.Database.Map.{DashMap}
use ember.Command.{Command}
use ember.Command.Total.{extract_command_ends}
use ember.Dispatcher.{Session, dispatch}
use ember.Dispatcher.Queue.{IsValid, dispatch_settles}
use ember.Connection.{
  Environment, Ending, reading, crashed, Conn, Pass, Round, stop, crash, on_dispatched, on_command,
  on_parsed, round, next_round, drain, on_flush, after_drain, drain_pass,
}
use ember.Connection.Requests.{
  IsReliable, View, answer, answer_command, reply_bytes, with_session, after, Serves, done, request,
  view_of, sent_view, has_bytes,
}
use ember.Connection.Rounds.{Answered, answered, round-Answered, write_to-view}
use ember.Connection.Cut.{Reached, reached}

module _ (dm : DashMap) (env : Environment dm) where
  open env use {build, itoa, sink, extract_time, clock, others}

  module _ (view : sink.aw.Writer → Bytes) (reliable : IsReliable sink view)
      (itoa_lem : (z : ℤ) → itoa z ≡ format_int z) where
    abbrev seen : Conn dm env → View dm env
    seen c = view_of dm env view c

    -- The inner loop comes to a round with this view.
    data ComesTo (v : View dm env) (r : Round dm env) : Type 0 where
      comes_to :
          (fuel : ℕ) (p : Pass dm env)
          → r ≡ drain dm env (suc fuel) p
          → seen p.conn ≡ v
          → ComesTo v r

    next_round-ComesTo :
        (v u : View dm env) (fuel : ℕ) (r : Round dm env)
        → ((q : Pass dm env) → seen q.conn ≡ u → ComesTo v (drain dm env fuel q))
        → Answered dm env view reliable itoa_lem u r
        → ComesTo v (next_round dm env (λ q. drain dm env fuel q) r)
    unfolding next_round
    next_round-ComesTo v u fuel _ ih (answered {p} e) = ih p e

    drain-ComesTo :
        (fuel : ℕ) (p : Pass dm env) (v u : View dm env)
        → length p.conn.buf < fuel
        → seen p.conn ≡ u
        → Serves dm env v u
        → ComesTo v (drain dm env fuel p)
    unfolding drain
    drain-ComesTo zero p v u h same serves = absurd (omega arith)
    drain-ComesTo (suc fuel) p v _ h same done = comes_to fuel p refl same
    drain-ComesTo (suc fuel) p v u h same (request {value} {n} {bytes} {s} parsed answers serves) =
        let here : parse build p.conn.buf ≡ ok (value, n) =
          ap (λ x. parse build x.stream) same ∙ parsed in
        let (some_bytes, bytes_there) = parse_consumes build p.conn.buf value n here in
        next_round-ComesTo v (after dm env n bytes s u) fuel (round dm env p)
          (λ q e.
            let shorter : q.conn.buf ≡ drop n p.conn.buf =
              ap (λ x. x.stream) e ∙ ap (λ x. drop n x.stream) (sym same) in
            drain-ComesTo fuel q v (after dm env n bytes s u)
              (omega (arith, ap length shorter, length-drop n p.conn.buf)) e serves)
          (subst
            (λ x.
              Answered dm env view reliable itoa_lem (after dm env n bytes s x) (round dm env p))
            same
            (round-Answered dm env view reliable itoa_lem p value n bytes s here
              (ap (λ x. answer dm env x.served value x.session) same ∙ answers)))

    -- A writer that has taken what an error is printed as, and is flushed.
    report_flushed :
        (why : Bytes) (w : sink.aw.Writer)
        → view (sink.flush (write_to sink.aw itoa (simple_error why) w).1).1
          ≡ view w ++ to_string (simple_error why)
    report_flushed why w =
        reliable.flush_view _ ∙ write_to-view dm env view reliable itoa_lem (simple_error why) w

    on_flush-Reached :
        (r : IoResult × sink.aw.Writer) (c : Conn dm env)
        → r.0 ≡ written
        → view r.1 ≡ view c.writer
        → Reached dm env view reliable itoa_lem (seen c) (on_flush dm env r c)
    unfolding on_flush
    on_flush-Reached (written, w) c e h = reached (ap (λ b. sent_view dm env view b c) h)
    on_flush-Reached (io_error why, w) c e h = absurd cc

    flush_if-Reached :
        (b : Bool) (c : Conn dm env)
        → Reached dm env view reliable itoa_lem
            (seen c)
            (if b then on_flush dm env (sink.flush c.writer) c else (reading, c))
    flush_if-Reached true c =
        on_flush-Reached (sink.flush c.writer) c (reliable.flush_written c.writer)
          (reliable.flush_view c.writer)
    flush_if-Reached false c = reached refl

    stop-Reached :
        (p : Pass dm env)
        → Reached dm env view reliable itoa_lem (seen p.conn) (after_drain dm env (stop p))
    unfolding after_drain
    stop-Reached p =
        flush_if-Reached (p.made_progress && not (sink.buffer_is_empty p.conn.writer)) p.conn

    -- what the connection's peer has seen when it was told of malformed bytes
    abbrev told : Bytes → View dm env → View dm env
    told msg v = record v { stream = []; sent = v.sent ++ to_string (simple_error msg) }

    after_invalid :
        (r : Round dm env) (v : View dm env) (msg : Bytes)
        → ComesTo v r
        → parse build v.stream ≡ err (invalid msg)
        → Reached dm env view reliable itoa_lem (told msg v) (after_drain dm env r)
    unfolding drain next_round round on_parsed
    after_invalid _ v msg (comes_to fuel p e same) bad =
        let here : parse build p.conn.buf ≡ err (invalid msg) =
          ap (λ x. parse build x.stream) same ∙ bad in
        let w = (sink.flush (write_to sink.aw itoa (simple_error msg) p.conn.writer).1).1 in
        let q : Pass dm env = record p { conn = record p.conn { buf = []; writer = w } } in
        rw (e, has_bytes dm env p.conn.buf (cc), here)
          (subst (λ x. Reached dm env view reliable itoa_lem x (after_drain dm env (stop q)))
            (ap (λ b. record (seen p.conn) { stream = []; sent = b })
                (report_flushed msg p.conn.writer)
              ∙ ap (told msg) same)
            (stop-Reached q))

    Reached-view :
        {w : View dm env} (r : Ending × Conn dm env)
        → Reached dm env view reliable itoa_lem w r
        → (r.0 ≡ reading) × (view_of dm env view r.1 ≡ w)
    Reached-view _ (reached e) = (refl, e)

    -- A round that panicked, with these bytes sent.
    data Crashes (sent : Bytes) : Round dm env → Type 0 where
      crashes : {c : Conn dm env} → view c.writer ≡ sent → Crashes sent (crash c)

    on_dispatched-Crashes :
        (r : Result Bytes RespType) (p : Pass dm env)
        → r ≢ out_of_fuel
        → reply_bytes dm env r ≡ none
        → Crashes (view p.conn.writer) (on_dispatched dm env r p)
    unfolding on_dispatched reply_bytes
    on_dispatched-Crashes (ok res) p h e = absurd cc
    on_dispatched-Crashes (err why) p h e = absurd cc
    on_dispatched-Crashes panic p h e = crashes refl
    on_dispatched-Crashes out_of_fuel p h e = absurd (h refl)

    with_session-none :
        (s : Session dm) (o : Option Bytes) → with_session dm env s o ≡ none → o ≡ none
    unfolding with_session
    with_session-none s none e = refl
    with_session-none s (some b) e = absurd cc

    on_command-Crashes :
        (i : ℕ) (r : Result Bytes Command) (p : Pass dm env)
        → r ≢ out_of_fuel
        → IsValid dm p.conn.session
        → answer_command dm env i r p.conn.session ≡ none
        → Crashes (view p.conn.writer) (on_command dm env i r p)
    unfolding on_command answer_command
    on_command-Crashes i (ok cmd) p h v e =
        let r = dispatch dm build.overflow_checks (clock i) cmd p.conn.session in
        on_dispatched-Crashes r.0 (record p { conn = record p.conn { session = r.1 } })
          (dispatch_settles dm build.overflow_checks (clock i) cmd p.conn.session v).0
          (with_session-none r.1 (reply_bytes dm env r.0) e)
    on_command-Crashes i (err why) p h v e = absurd cc
    on_command-Crashes i panic p h v e = crashes refl
    on_command-Crashes i out_of_fuel p h v e = absurd (h refl)

    round-Crashes :
        (p : Pass dm env) (value : RespType) (n : ℕ)
        → parse build p.conn.buf ≡ ok (value, n)
        → IsValid dm p.conn.session
        → answer dm env p.conn.served value p.conn.session ≡ none
        → Crashes (view p.conn.writer) (round dm env p)
    unfolding round on_parsed answer
    round-Crashes p value n e v refused =
        rw (has_bytes dm env p.conn.buf (cc), e)
          (on_command-Crashes p.conn.served _ _
            (extract_command_ends build.overflow_checks (extract_time p.conn.served) value)
            (record { plain = v.plain; idle = v.idle }) refused)

    after_crash :
        (sent : Bytes) (fuel : ℕ) (r : Round dm env)
        → Crashes sent r
        → let (ending, d) = after_drain dm env (next_round dm env (λ q. drain dm env fuel q) r) in
          (ending ≡ crashed) × (view d.writer ≡ sent)
    unfolding next_round after_drain
    after_crash sent fuel _ (crashes e) = (refl, e)

    after_panic :
        (r : Round dm env) (v : View dm env) (value : RespType) (n : ℕ)
        → ComesTo v r
        → parse build v.stream ≡ ok (value, n)
        → IsValid dm v.session
        → answer dm env v.served value v.session ≡ none
        → let (ending, d) = after_drain dm env r in (ending ≡ crashed) × (view d.writer ≡ v.sent)
    unfolding drain
    after_panic _ v value n (comes_to fuel p e same) parsed valid refused = rw e (
        after_crash v.sent fuel (round dm env p) (
          subst (λ b. Crashes b (round dm env p)) (ap (λ x. x.sent) same)
            (round-Crashes p value n (ap (λ x. parse build x.stream) same ∙ parsed)
              (subst (λ x. IsValid dm x.session) (sym same) valid)
              (ap (λ x. answer dm env x.served value x.session) same ∙ refused))))

    -- Bytes in the buffer from which a view is reached by answering the requests in them, and that
    -- then go on with bytes that are no value: what was answered stays answered, the error is
    -- sent, everything else in the buffer is dropped, and the connection reads on.
    pub drain_pass-invalid :
        (c : Conn dm env) (v : View dm env) (msg : Bytes)
        → Serves dm env v (view_of dm env view c)
        → parse build v.stream ≡ err (invalid msg)
        → let (ending, d) = drain_pass dm env c in
          (ending ≡ reading)
          × (view_of dm env view d
              ≡ record v { stream = []; sent = v.sent ++ to_string (simple_error msg) })
    unfolding drain_pass
    drain_pass-invalid c v msg serves bad = Reached-view _ (
        after_invalid _ v msg
          (drain-ComesTo (suc (length c.buf))
            (record { conn = c; pipeline_count = 0; made_progress = false }) v (seen c)
            (omega arith) refl serves)
          bad)

    -- Bytes in the buffer from which a view with a valid session is reached by answering the
    -- requests in them, and of which the next is a request that panics: the connection's task ends,
    -- and the writer has been given the replies to the requests before, and nothing more.
    pub drain_pass-panic :
        (c : Conn dm env) (v : View dm env) (value : RespType) (n : ℕ)
        → Serves dm env v (view_of dm env view c)
        → parse build v.stream ≡ ok (value, n)
        → IsValid dm v.session
        → answer dm env v.served value v.session ≡ none
        → let (ending, d) = drain_pass dm env c in (ending ≡ crashed) × (view d.writer ≡ v.sent)
    unfolding drain_pass
    drain_pass-panic c v value n serves parsed valid refused =
        after_panic _ v value n
          (drain-ComesTo (suc (length c.buf))
            (record { conn = c; pipeline_count = 0; made_progress = false }) v (seen c)
            (omega arith) refl serves)
          parsed valid refused
