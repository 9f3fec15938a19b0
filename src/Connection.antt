-- ===== src/Connection.antt =====
-- src/config/client.rs: `Client::handle`, which serves a connection until it ends. The socket gives
-- what its reads come to, one after another; what the runtime and the other connections do in
-- between is the environment's.
pub mod Total
pub mod Requests
pub mod Rounds
pub mod Cut
pub mod Replies
pub mod Ends
pub mod Idle
use ember.Prelude.{
  ℕ, zero, suc, ◌+◌, ◌*◌, Bool, true, false, not, ◌&&◌, List, [], ◌∷◌, ◌++◌, length, drop, leb,
  if◌then◌else◌, Result, ok, err, panic, out_of_fuel,
}
use ember.Prelude.Int.{ℤ}
use ember.Text.{Bytes}
use ember.Resp.Types.{RespType, simple_error, IoResult, written, io_error, AsyncWrite, write_to}
use ember.Resp.Parser.{ParseError, incomplete, invalid, Build, parse}
use ember.Database.Map.{DashMap}
use ember.Database.Core.{Db, Instant}
use ember.Command.{Command, extract_command}
use ember.Dispatcher.{Session, new_client, dispatch}

abbrev pub max_pipeline_depth : ℕ
max_pipeline_depth = 1000

-- `tokio::io::BufWriter`: a writer that keeps what it is given until it is flushed.
pub record BufWriter : Type 1 where
  pub aw : AsyncWrite
  pub flush : aw.Writer → IoResult × aw.Writer
  -- `buffer().is_empty()`
  pub buffer_is_empty : aw.Writer → Bool

-- What is around a connection. The requests are counted: `extract_time i` and `clock i` are what
-- `Instant::now` returns while the i-th is extracted and executed, and `others i` is what the other
-- tasks have done to the store since the request before.
pub record Environment (dm : DashMap) : Type 1 where
  pub build : Build
  pub itoa : ℤ → Bytes
  pub sink : BufWriter
  pub extract_time : ℕ → Instant
  pub clock : ℕ → ℕ → Instant
  pub others : ℕ → Db dm → Db dm

-- What `read_buf` and `try_read_buf` come to: no bytes are the end of the stream, and
-- `would_block` is `ErrorKind::WouldBlock`.
pub data ReadResult : Type 0 where
  received : Bytes → ReadResult
  would_block : ReadResult
  failed : Bytes → ReadResult

-- How far `handle` has come at the end of what was read: it reads on; it has left the outer loop,
-- and has flushed; it has returned from within; it panicked.
pub data Ending : Type 0 where
  reading : Ending
  closed : Ending
  aborted : Ending
  crashed : Ending
  starved : Ending

unfoldable pub is_empty : Bytes → Bool
is_empty [] = true
is_empty (b ∷ s) = false

-- What the outer loop's read does to the buffer. On an empty buffer it awaits data, so that
-- `would_block` only suspends the task.
pub data Reading : Type 0 where
  fill : Bytes → Reading
  suspended : Reading
  finished : Reading

unfoldable pub read_next : Bytes → ReadResult → Reading
unfolding is_empty
read_next buf (received []) = finished
read_next buf (received (b ∷ s)) = fill (buf ++ b ∷ s)
read_next buf would_block = if is_empty buf then suspended else fill buf
read_next buf (failed e) = finished

module _ (dm : DashMap) (env : Environment dm) where
  open env use {build, itoa, sink, extract_time, clock, others}
  open sink use {aw, flush, buffer_is_empty}

  -- The variables of `handle`, with two counts that it does not keep: the requests that it has served,
  -- and the passes that it has made over the buffer, which are the rounds of the outer loop whose read
  -- did not suspend the task or end the loop.
  pub record Conn : Type 0 where
    pub buf : Bytes
    pub writer : aw.Writer
    pub session : Session dm
    pub served : ℕ
    pub passes : ℕ

  -- The variables of a drain pass.
  pub record Pass : Type 0 where
    pub conn : Conn
    pub pipeline_count : ℕ
    pub made_progress : Bool

  -- How a round of the inner loop ends: `continue`, `break`, `break 'outer`, `return`, a panic.
  pub data Round : Type 0 where
    again : Pass → Round
    stop : Pass → Round
    leave : Conn → Round
    return : Conn → Round
    crash : Conn → Round
    starve : Conn → Round

  abbrev put_writer : aw.Writer → Pass → Pass
  put_writer w p = record p { conn = record p.conn { writer = w } }

  -- `let _ = RespType::SimpleError(..).write_to(&mut writer).await`
  abbrev report : Bytes → Pass → Pass
  report why p = put_writer (write_to aw itoa (simple_error why) p.conn.writer).1 p

  -- the flush at the depth cap
  on_mid_flush : IoResult × aw.Writer → Pass → Round
  on_mid_flush (written, w) p = again (record (put_writer w p) { pipeline_count = 0 })
  on_mid_flush (io_error e, w) p = leave (put_writer w p).conn

  -- behind `res.write_to(&mut writer).await`
  on_written : IoResult × aw.Writer → Pass → Round
  unfolding on_mid_flush
  on_written (written, w) p =
      if leb max_pipeline_depth p.pipeline_count
      then on_mid_flush (flush w) p
      else again (put_writer w p)
  on_written (io_error e, w) p = return (put_writer w p).conn

  on_dispatched : Result Bytes RespType → Pass → Round
  unfolding on_written
  on_dispatched (ok res) p = on_written (write_to aw itoa res p.conn.writer) p
  on_dispatched (err e) p = again (report e p)
  on_dispatched panic p = crash p.conn
  on_dispatched out_of_fuel p = starve p.conn

  on_command : ℕ → Result Bytes Command → Pass → Round
  unfolding on_dispatched
  on_command i (ok cmd) p =
      let (res, s) = dispatch dm build.overflow_checks (clock i) cmd p.conn.session in
      on_dispatched res (record p { conn = record p.conn { session = s } })
  on_command i (err e) p = again (report e p)
  on_command i panic p = crash p.conn
  on_command i out_of_fuel p = starve p.conn

  -- `buf.advance(consumed)`; by now the other tasks have had their turn.
  abbrev advance : ℕ → Conn → Conn
  advance consumed c = record {
    buf = drop consumed c.buf;
    writer = c.writer;
    session = record c.session { db = others c.served c.session.db };
    served = suc c.served;
    passes = c.passes;
  }

  on_parsed : Result ParseError (RespType × ℕ) → Pass → Round
  unfolding on_command
  on_parsed (ok (resp, consumed)) p =
      on_command p.conn.served
        (extract_command build.overflow_checks (extract_time p.conn.served) resp)
        (record {
          conn = advance consumed p.conn;
          pipeline_count = p.pipeline_count + 1;
          made_progress = true;
        })
  on_parsed (err incomplete) p = stop p
  on_parsed (err (invalid msg)) p =
      let w = (flush (report msg p).conn.writer).1 in
      stop (record p { conn = record p.conn { buf = []; writer = w } })
  on_parsed panic p = crash p.conn
  on_parsed out_of_fuel p = starve p.conn

  -- one round of the inner loop
  unfoldable pub round : Pass → Round
  unfolding is_empty on_parsed
  round p = if is_empty p.conn.buf then stop p else on_parsed (parse build p.conn.buf) p

  next_round : (Pass → Round) → Round → Round
  next_round k (again p) = k p
  next_round k r = r

  -- The inner loop. Each of its rounds consumes a byte, and costs a unit of fuel.
  unfoldable pub drain : ℕ → Pass → Round
  unfolding next_round
  drain zero p = starve p.conn
  drain (suc fuel) p = next_round (λ q. drain fuel q) (round p)

  -- behind the inner loop, where there is something to flush
  on_flush : IoResult × aw.Writer → Conn → Ending × Conn
  on_flush (written, w) c = (reading, record c { writer = w })
  on_flush (io_error e, w) c = (aborted, record c { writer = w })

  -- behind the outer loop
  abbrev pub close : Conn → Ending × Conn
  close c = (closed, record c { writer = (flush c.writer).1 })

  after_drain : Round → Ending × Conn
  unfolding on_flush
  after_drain (stop p) =
      if p.made_progress && not (buffer_is_empty p.conn.writer)
      then on_flush (flush p.conn.writer) p.conn
      else (reading, p.conn)
  after_drain (leave c) = close c
  after_drain (return c) = (aborted, c)
  after_drain (crash c) = (crashed, c)
  after_drain (starve c) = (starved, c)
  after_drain (again p) = (starved, p.conn)

  -- a round of the outer loop, from the read on
  unfoldable pub drain_pass : Conn → Ending × Conn
  unfolding after_drain
  drain_pass c =
      after_drain (
        drain (suc (length c.buf)) (record { conn = c; pipeline_count = 0; made_progress = false }))

  on_reading : Reading → Conn → Ending × Conn
  unfolding drain_pass
  on_reading (fill s) c = drain_pass (record c { buf = s; passes = suc c.passes })
  on_reading suspended c = (reading, c)
  on_reading finished c = close c

  next_read : (Conn → Ending × Conn) → Ending × Conn → Ending × Conn
  next_read k (reading, c) = k c
  next_read k r = r

  -- The outer loop, over what its reads come to.
  unfoldable pub serve : List ReadResult → Conn → Ending × Conn
  unfolding on_reading next_read
  serve [] c = (reading, c)
  serve (r ∷ rs) c = next_read (λ d. serve rs d) (on_reading (read_next c.buf r) c)

abbrev write_buf_bytes : ℕ
write_buf_bytes = 64 * 1024

abbrev so_sndbuf_bytes : ℕ
so_sndbuf_bytes = 256 * 1024

abbrev tcp_keepalive_idle_secs : ℕ
tcp_keepalive_idle_secs = 60

-- The calls of tokio and socket2 on a connected socket, each with the socket that it leaves.
pub record TcpStream (Writer : Type 0) : Type 1 where
  pub Socket : Type 0
  pub set_nodelay : Bool → Socket → IoResult × Socket
  pub set_tcp_keepalive : ℕ → Socket → IoResult × Socket
  pub set_send_buffer_size : ℕ → Socket → IoResult × Socket
  -- `BufWriter::with_capacity` around the writing half of `into_split`
  pub with_capacity : ℕ → Socket → Writer

module _ (dm : DashMap) (env : Environment dm) where
  -- Of an option that cannot be set, the program only warns.
  unfoldable pub handle :
      (tcp : TcpStream env.sink.aw.Writer)
      → tcp.Socket
      → Db dm
      → List ReadResult
      → Ending × Conn dm env
  handle tcp socket db reads =
      let s₁ = (tcp.set_nodelay true socket).1 in
      let s₂ = (tcp.set_tcp_keepalive tcp_keepalive_idle_secs s₁).1 in
      let s₃ = (tcp.set_send_buffer_size so_sndbuf_bytes s₂).1 in
      serve dm env reads (record {
        buf = [];
        writer = tcp.with_capacity write_buf_bytes s₃;
        session = record { client = new_client; db = db; snapshots = [] };
        served = 0;
        passes = 0;
      })
