-- ===== src/Connection/Total.antt =====
-- The fuel of the loops of `Client::handle` (config/client.rs).
use ember.Prelude.{
  ℕ, zero, suc, ◌<◌, ◌≡◌, ◌≢◌, refl, Bool, true, false, List, [], ◌∷◌, arith, leb, length,
  length-drop, Result, ok, err, panic, out_of_fuel, if◌then◌else◌, not, ◌&&◌,
}
use ember.Text.{Bytes}
use ember.Resp.Types.{RespType, IoResult, written, io_error, write_to}
use ember.Resp.Parser.{ParseError, incomplete, invalid, parse}
use ember.Resp.Parser.Bounds.{parse_total, parse_consumes}
use ember.Database.Map.{DashMap}
use ember.Command.{Command}
use ember.Command.Total.{extract_command_ends}
use ember.Dispatcher.{Session}
use ember.Dispatcher.Queue.{IsValid, dispatch_settles}
use ember.Connection.{
  Environment, ReadResult, Ending, reading, closed, aborted, crashed, starved, Conn, Pass, Round,
  again, stop, leave, return, crash, on_mid_flush, on_written, on_dispatched, on_command, on_parsed,
  is_empty, round, next_round, drain, on_flush, after_drain, drain_pass, Reading, fill, suspended,
  finished, on_reading, next_read, read_next, serve, max_pipeline_depth,
}

module _ (dm : DashMap) (env : Environment dm) where
  open env use {build, extract_time, clock, others}

  -- A round that leaves a valid session, and has fewer than `n` bytes to go on with.
  data Settles (n : ℕ) : Round dm env → Type 0 where
    goes_on :
        {p : Pass dm env} → length p.conn.buf < n → IsValid dm p.conn.session → Settles n (again p)
    stops : {p : Pass dm env} → IsValid dm p.conn.session → Settles n (stop p)
    leaves : {c : Conn dm env} → Settles n (leave c)
    returns : {c : Conn dm env} → Settles n (return c)
    crashes : {c : Conn dm env} → Settles n (crash c)

  Settles-if :
      {n : ℕ} (b : Bool) {x y : Round dm env}
      → Settles n x
      → Settles n y
      → Settles n (if b then x else y)
  Settles-if true hx hy = hx
  Settles-if false hx hy = hy

  module _ (n : ℕ) where
    on_mid_flush-Settles :
        (r : IoResult × env.sink.aw.Writer) (p : Pass dm env)
        → length p.conn.buf < n
        → IsValid dm p.conn.session
        → Settles n (on_mid_flush dm env r p)
    unfolding on_mid_flush
    on_mid_flush-Settles (written, w) p lt v = goes_on lt v
    on_mid_flush-Settles (io_error e, w) p lt v = leaves

    on_written-Settles :
        (r : IoResult × env.sink.aw.Writer) (p : Pass dm env)
        → length p.conn.buf < n
        → IsValid dm p.conn.session
        → Settles n (on_written dm env r p)
    unfolding on_written
    on_written-Settles (written, w) p lt v =
        Settles-if (leb max_pipeline_depth p.pipeline_count)
          (on_mid_flush-Settles (env.sink.flush w) p lt v) (goes_on lt v)
    on_written-Settles (io_error e, w) p lt v = returns

    on_dispatched-Settles :
        (r : Result Bytes RespType) (p : Pass dm env)
        → r ≢ out_of_fuel
        → length p.conn.buf < n
        → IsValid dm p.conn.session
        → Settles n (on_dispatched dm env r p)
    unfolding on_dispatched
    on_dispatched-Settles (ok res) p h lt v =
        on_written-Settles (write_to env.sink.aw env.itoa res p.conn.writer) p lt v
    on_dispatched-Settles (err e) p h lt v = goes_on lt v
    on_dispatched-Settles panic p h lt v = crashes
    on_dispatched-Settles out_of_fuel p h lt v = absurd (h refl)

    on_command-Settles :
        (i : ℕ) (r : Result Bytes Command) (p : Pass dm env)
        → r ≢ out_of_fuel
        → length p.conn.buf < n
        → IsValid dm p.conn.session
        → Settles n (on_command dm env i r p)
    unfolding on_command
    on_command-Settles i (ok cmd) p h lt v =
        let (answered, valid) =
          dispatch_settles dm build.overflow_checks (clock i) cmd p.conn.session v in
        on_dispatched-Settles _ _ answered lt valid
    on_command-Settles i (err e) p h lt v = goes_on lt v
    on_command-Settles i panic p h lt v = crashes
    on_command-Settles i out_of_fuel p h lt v = absurd (h refl)

  others-IsValid :
      (i : ℕ) (s : Session dm) → IsValid dm s → IsValid dm (record s { db = others i s.db })
  others-IsValid i s v = record { plain = v.plain; idle = v.idle }

  on_parsed-Settles :
      (r : Result ParseError (RespType × ℕ)) (p : Pass dm env)
      → parse build p.conn.buf ≡ r
      → IsValid dm p.conn.session
      → Settles (length p.conn.buf) (on_parsed dm env r p)
  unfolding on_parsed
  on_parsed-Settles (ok (resp, consumed)) p e v =
      let (some_bytes, bytes_there) = parse_consumes build p.conn.buf resp consumed e in
      on_command-Settles (length p.conn.buf) p.conn.served _ _
        (extract_command_ends build.overflow_checks (extract_time p.conn.served) resp)
        (omega (arith, some_bytes, bytes_there, length-drop consumed p.conn.buf))
        (others-IsValid p.conn.served p.conn.session v)
  on_parsed-Settles (err incomplete) p e v = stops v
  on_parsed-Settles (err (invalid msg)) p e v = stops v
  on_parsed-Settles panic p e v = crashes
  on_parsed-Settles out_of_fuel p e v = absurd (parse_total build p.conn.buf e)

  round-Settles :
      (p : Pass dm env) → IsValid dm p.conn.session → Settles (length p.conn.buf) (round dm env p)
  unfolding round
  round-Settles p v =
      Settles-if (is_empty p.conn.buf) (stops v)
        (on_parsed-Settles (parse build p.conn.buf) p refl v)

  next_round-Settles :
      (n fuel : ℕ) (r : Round dm env)
      → ((q : Pass dm env)
          → length q.conn.buf < n
          → IsValid dm q.conn.session
          → Settles 0 (drain dm env fuel q))
      → Settles n r
      → Settles 0 (next_round dm env (λ q. drain dm env fuel q) r)
  unfolding next_round
  next_round-Settles n fuel _ ih (goes_on {p} lt v) = ih p lt v
  next_round-Settles n fuel _ ih (stops v) = stops v
  next_round-Settles n fuel _ ih leaves = leaves
  next_round-Settles n fuel _ ih returns = returns
  next_round-Settles n fuel _ ih crashes = crashes

  -- More fuel than bytes is enough for the inner loop.
  drain-Settles :
      (fuel : ℕ) (p : Pass dm env)
      → length p.conn.buf < fuel
      → IsValid dm p.conn.session
      → Settles 0 (drain dm env fuel p)
  unfolding drain
  drain-Settles zero p h v = absurd (omega arith)
  drain-Settles (suc fuel) p h v =
      next_round-Settles (length p.conn.buf) fuel (round dm env p)
        (λ q lt valid. drain-Settles fuel q (omega arith) valid) (round-Settles p v)

  -- An ending within the fuel, after which a connection that reads on has a valid session.
  data Ended : Ending × Conn dm env → Type 0 where
    reads_on : {c : Conn dm env} → IsValid dm c.session → Ended (reading, c)
    is_over : {e : Ending} {c : Conn dm env} → e ≢ starved → e ≢ reading → Ended (e, c)

  on_flush-Ended :
      (r : IoResult × env.sink.aw.Writer) (c : Conn dm env)
      → IsValid dm c.session
      → Ended (on_flush dm env r c)
  unfolding on_flush
  on_flush-Ended (written, w) c v = reads_on v
  on_flush-Ended (io_error e, w) c v = is_over (cc) (cc)

  Ended-if :
      (b : Bool) {x y : Ending × Conn dm env} → Ended x → Ended y → Ended (if b then x else y)
  Ended-if true hx hy = hx
  Ended-if false hx hy = hy

  after_drain-Ended : (r : Round dm env) → Settles 0 r → Ended (after_drain dm env r)
  unfolding after_drain
  after_drain-Ended _ (goes_on lt v) = absurd (omega arith)
  after_drain-Ended _ (stops {p} v) =
      Ended-if (p.made_progress && not (env.sink.buffer_is_empty p.conn.writer))
        (on_flush-Ended (env.sink.flush p.conn.writer) p.conn v) (reads_on v)
  after_drain-Ended _ leaves = is_over (cc) (cc)
  after_drain-Ended _ returns = is_over (cc) (cc)
  after_drain-Ended _ crashes = is_over (cc) (cc)

  on_reading-Ended :
      (r : Reading) (c : Conn dm env) → IsValid dm c.session → Ended (on_reading dm env r c)
  unfolding on_reading drain_pass
  on_reading-Ended (fill s) c v =
      after_drain-Ended _ (drain-Settles (suc (length s)) _ (omega arith) v)
  on_reading-Ended suspended c v = reads_on v
  on_reading-Ended finished c v = is_over (cc) (cc)

  next_read-Ended :
      (rs : List ReadResult) (r : Ending × Conn dm env)
      → ((c : Conn dm env) → IsValid dm c.session → Ended (serve dm env rs c))
      → Ended r
      → Ended (next_read dm env (λ d. serve dm env rs d) r)
  unfolding next_read
  next_read-Ended rs _ ih (reads_on {c} v) = ih c v
  next_read-Ended rs (reading, c) ih (is_over h h') = absurd (h' refl)
  next_read-Ended rs (starved, c) ih (is_over h h') = absurd (h refl)
  next_read-Ended rs (closed, c) ih (is_over h h') = is_over h h'
  next_read-Ended rs (aborted, c) ih (is_over h h') = is_over h h'
  next_read-Ended rs (crashed, c) ih (is_over h h') = is_over h h'

  serve-Ended :
      (rs : List ReadResult) (c : Conn dm env) → IsValid dm c.session → Ended (serve dm env rs c)
  unfolding serve
  serve-Ended [] c v = reads_on v
  serve-Ended (r ∷ rs) c v =
      next_read-Ended rs _ (λ d valid. serve-Ended rs d valid)
        (on_reading-Ended (read_next c.buf r) c v)

  Ended-fuel : (r : Ending × Conn dm env) → Ended r → r.0 ≢ starved
  Ended-fuel _ (reads_on v) = cc
  Ended-fuel _ (is_over h h') = h

  -- Whatever a connection with a valid session reads, and whatever becomes of its writes, each pass
  -- of the inner loop over its buffer ends within a fuel of one unit more than there are bytes.
  pub serve_ends :
      (rs : List ReadResult) (c : Conn dm env)
      → IsValid dm c.session
      → (serve dm env rs c).0 ≢ starved
  serve_ends rs c v = Ended-fuel (serve dm env rs c) (serve-Ended rs c v)
