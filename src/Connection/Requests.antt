-- ===== src/Connection/Requests.antt =====
-- `Client::handle` (config/client.rs) as the peer of a connection sees it: requests that are read off a
-- stream, and the replies to them.
use ember.Prelude.{
  ℕ, suc, ◌≡◌, ◌≢◌, inl, inr, refl, false, List, [], ◌∷◌, ◌++◌, Option, none, some, drop, Result,
  ok, err, panic, out_of_fuel, Bool-cases,
}
use ember.Text.{Bytes}
use ember.Resp.Types.{RespType, simple_error, to_string, written}
use ember.Resp.Types.Write.{IsStream}
use ember.Resp.Parser.{incomplete, parse, parse_fuel}
use ember.Database.Map.{DashMap}
use ember.Command.{Command, extract_command}
use ember.Dispatcher.{Session, dispatch}
use ember.Connection.{Environment, BufWriter, Conn, Pass, stop, on_parsed, is_empty, round}

-- A writer that takes every byte, and does not fail; `view` is what it has taken, and `delivered` what
-- has gone out to the peer, which after a flush is all of it.
pub record IsReliable (sink : BufWriter) (view : sink.aw.Writer → Bytes) : Type 0 where
  pub delivered : sink.aw.Writer → Bytes
  pub is_stream : IsStream sink.aw
  pub write_written : (s : Bytes) (w : sink.aw.Writer) → (sink.aw.write_all s w).0 ≡ written
  pub write_view : (s : Bytes) (w : sink.aw.Writer) → view (sink.aw.write_all s w).1 ≡ view w ++ s
  pub flush_written : (w : sink.aw.Writer) → (sink.flush w).0 ≡ written
  pub flush_view : (w : sink.aw.Writer) → view (sink.flush w).1 ≡ view w
  pub flush_delivered : (w : sink.aw.Writer) → delivered (sink.flush w).1 ≡ view w

-- the bytes of pieces that follow one another
abbrev pub joined : List Bytes → Bytes
joined [] = []
joined (s ∷ ss) = s ++ joined ss

module _ (dm : DashMap) (env : Environment dm) where
  open env use {build, itoa, sink, extract_time, clock, others}

  -- A connection, as its peer sees it: the bytes it has yet to look at, and those it has sent.
  pub record View : Type 0 where
    pub stream : Bytes
    pub session : Session dm
    pub sent : Bytes
    pub served : ℕ

  -- what is sent for a result of the dispatcher; a panic sends nothing
  unfoldable pub reply_bytes : Result Bytes RespType → Option Bytes
  reply_bytes (ok res) = some (to_string res)
  reply_bytes (err e) = some (to_string (simple_error e))
  reply_bytes panic = none
  reply_bytes out_of_fuel = none

  unfoldable pub with_session : Session dm → Option Bytes → Option (Bytes × Session dm)
  with_session s none = none
  with_session s (some bytes) = some (bytes, s)

  unfoldable pub answer_command :
      ℕ → Result Bytes Command → Session dm → Option (Bytes × Session dm)
  unfolding with_session reply_bytes
  answer_command i (ok cmd) s =
      let (res, s') = dispatch dm build.overflow_checks (clock i) cmd s in
      with_session s' (reply_bytes res)
  answer_command i (err e) s = some (to_string (simple_error e), s)
  answer_command i panic s = none
  answer_command i out_of_fuel s = none

  -- The reply to the i-th request, and the session behind it; none if the request panics.
  unfoldable pub answer : ℕ → RespType → Session dm → Option (Bytes × Session dm)
  unfolding answer_command
  answer i request s =
      answer_command i (extract_command build.overflow_checks (extract_time i) request)
        (record s { db = others i s.db })

  abbrev pub after : ℕ → Bytes → Session dm → View → View
  after n bytes s v = record {
    stream = drop n v.stream;
    session = s;
    sent = v.sent ++ bytes;
    served = suc v.served;
  }

  -- From the one view, requests are read off the stream and answered until the other is reached.
  pub data Serves (w : View) : View → Type 0 where
    done : Serves w w
    request :
        {v : View} {value : RespType} {n : ℕ} {bytes : Bytes} {s : Session dm}
        → parse build v.stream ≡ ok (value, n)
        → answer v.served value v.session ≡ some (bytes, s)
        → Serves w (after n bytes s v)
        → Serves w v

  pub parse-nil : parse build [] ≡ err incomplete
  unfolding parse parse_fuel
  parse-nil = refl

  -- a buffer that holds a value is not empty
  pub has_bytes : (buf : Bytes) → parse build buf ≢ err incomplete → is_empty buf ≡ false
  unfolding is_empty
  has_bytes [] e = absurd (e parse-nil)
  has_bytes (b ∷ s) e = refl

  pub round-incomplete :
      (p : Pass dm env) → parse build p.conn.buf ≡ err incomplete → round dm env p ≡ stop p
  unfolding round on_parsed is_empty
  round-incomplete p e = elim (Bool-cases (is_empty p.conn.buf)) [
    | inl h ↦ rw h
    | inr h ↦ rw (h, e)
  ]

  module _ (view : sink.aw.Writer → Bytes) where
    abbrev pub view_of : Conn dm env → View
    view_of c = record {
      stream = c.buf;
      session = c.session;
      sent = view c.writer;
      served = c.served;
    }

    -- `p` with a writer that has taken these bytes
    abbrev pub sent_view : Bytes → Conn dm env → View
    sent_view bytes c = record (view_of c) { sent = bytes }
