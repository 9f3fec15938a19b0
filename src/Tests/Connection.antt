-- ===== src/Tests/Connection.antt =====
-- Connections at concrete inputs.
use native.Mathlib.Omega.{arith}
use ember.Prelude.{
  ◌+◌, ◌≡◌, ◌≢◌, refl, ap, sym, Bool, true, false, List, [], ◌∷◌, ◌++◌, map, none, some, append-nil,
  append_assoc, replicate, ok, err,
}
use ember.Text.{Bytes, codes, str_eq}
use ember.Text.Ascii.{split_whitespace, chars, is_whitespace, ascii_upper, to_ascii_uppercase}
use ember.Text.Utf8.{from_utf8, utf8_run, utf8_step}
use ember.Text.Decimal.{format_int, format_usize, digits, parse_signed, scan, scan_digits}
use ember.Resp.Types.{RespType, bulk_string, array, from_list, to_string, written}
use ember.Resp.Parser.{
  parse, parse_fuel, is_inline, parse_marker, line_of, read_until_crlf, incomplete, invalid,
  utf8_or, or_incomplete, or_invalid, parse_inline, parse_integer,
}
use ember.Resp.Parser.RoundTrip.{canonical, IsPrintable}
use ember.Database.Map.{assoc_map, lookup}
use ember.Database.Core.{Db, Instant, new_in_memory}
use ember.Database.Core as Core
use ember.Command.{extract_command, parse_command, parse_one, arg}
use ember.Dispatcher.{Session, new_client, dispatch, execute_command}
use ember.Dispatcher.Queue.{IsValid}
use ember.Connection.{
  BufWriter, Environment, Conn, TcpStream, received, would_block, starved, closed, crashed, reading,
  serve, handle, drain_pass, is_empty,
}
use ember.Connection.Total.{serve_ends}
use ember.Connection.Requests.{IsReliable, View, done, request, answer, view_of, parse-nil}
use ember.Connection.Cut.{serve-chunks}
use ember.Connection.Replies.{replies, handle-requests}
use ember.Connection.Ends.{drain_pass-invalid, drain_pass-panic}
use ember.Connection.Idle.{serve-would_block}
use ember.Tests.Resp.{release}

-- what was sent, and what waits for a flush
record Peer : Type 0 where
  sent : Bytes
  buffered : Bytes

is_nil : Bytes → Bool
is_nil [] = true
is_nil (b ∷ s) = false

abbrev peer : BufWriter
peer = record {
  aw = record {
    Writer = Peer;
    write_all = λ s w. (written, record w { buffered = w.buffered ++ s });
  };
  flush = λ w. (written, record { sent = w.sent ++ w.buffered; buffered = [] });
  buffer_is_empty = λ w. is_nil w.buffered;
}

abbrev taken : Peer → Bytes
taken w = w.sent ++ w.buffered

abbrev peer-IsReliable : IsReliable peer taken
peer-IsReliable = record {
  delivered = λ w. w.sent;
  is_stream = record {
    write_nil = λ w. ap (λ b. (written, record w { buffered = b })) (append-nil w.buffered);
    write_append =
        λ s t w. ap (λ b. (written, record w { buffered = b })) (append_assoc w.buffered s t);
  };
  write_written = λ s w. refl;
  write_view = λ s w. sym (append_assoc w.sent w.buffered s);
  flush_written = λ w. refl;
  flush_view = λ w. append-nil (w.sent ++ w.buffered);
  flush_delivered = λ w. refl;
}

abbrev env : Environment assoc_map
env = record {
  build = release;
  itoa = format_int;
  sink = peer;
  extract_time = λ i. i;
  clock = λ i j. i + j;
  others = λ i db. db;
}

abbrev tcp : TcpStream Peer
tcp = record {
  Socket = Unit;
  set_nodelay = λ on s. (written, s);
  set_tcp_keepalive = λ secs s. (written, s);
  set_send_buffer_size = λ size s. (written, s);
  with_capacity = λ size s. record { sent = []; buffered = [] };
}

abbrev session : Session assoc_map
session = record { client = new_client; db = new_in_memory assoc_map; snapshots = [] }

-- PING, and GET a
abbrev requests : List RespType
requests =
    array (from_list (bulk_string (codes "PING") ∷ []))
    ∷ array (from_list (bulk_string (codes "get") ∷ bulk_string (codes "a") ∷ []))
    ∷ []

-- their bytes, cut within the first and within the second
abbrev pieces : List Bytes
pieces = codes "*1\r\n$4\r\nPI" ∷ codes "NG\r\n*2\r\n$3\r\nget\r\n$1\r" ∷ codes "\na\r\n" ∷ []

requests_served :
    replies assoc_map env 0 (map canonical requests) session
    ≡ some (codes "+Pong\r\n$3\r\nnil\r\n", session)
unfolding replies answer canonical extract_command to_ascii_uppercase ascii_upper parse_command
    parse_one arg str_eq dispatch execute_command Core.get Core.lazily_expired lookup to_string
    format_int format_usize digits new_in_memory
requests_served = refl

abbrev fresh_conn : Conn assoc_map env
fresh_conn = record {
  buf = [];
  writer = record { sent = []; buffered = [] };
  session = session;
  served = 0;
  passes = 0;
}

session-IsValid : IsValid assoc_map session
session-IsValid = record { plain = tt; idle = λ _. refl }

serve_ends_example :
    (serve assoc_map env
      (received (codes "*1\r\n$4\r\nPING\r\n$9") ∷ would_block ∷ [])
      fresh_conn).0
    ≢ starved
serve_ends_example =
    serve_ends assoc_map env (received (codes "*1\r\n$4\r\nPING\r\n$9") ∷ would_block ∷ [])
      fresh_conn session-IsValid

handle-requests_example :
    let (ending, c) =
      handle assoc_map env tcp tt
        (new_in_memory assoc_map)
        (map received pieces ++ received [] ∷ []) in
    (ending ≡ closed)
    × (c.writer.sent ≡ codes "+Pong\r\n$3\r\nnil\r\n")
    × (c.session ≡ session)
    × (c.buf ≡ [])
unfolding IsPrintable utf8_run utf8_step to_string format_int format_usize digits
handle-requests_example =
    handle-requests assoc_map env taken peer-IsReliable (λ z. refl) tcp (λ n s. refl) tt
      (new_in_memory assoc_map) requests pieces (codes "+Pong\r\n$3\r\nnil\r\n") session
      ((omega arith, omega arith, (refl, tt)), ((omega arith, omega arith, (refl, (refl, tt))), tt))
      (omega arith, (omega arith, (omega arith, tt))) refl (omega arith) requests_served

-- an inline command, and the beginning of another
abbrev inline_pieces : List Bytes
inline_pieces = codes "pi" ∷ codes "ng\r\nge" ∷ []

abbrev ping_line : RespType
ping_line = array (from_list (bulk_string (codes "ping") ∷ []))

ping_parsed : parse release (codes "ping\r\nge") ≡ ok (ping_line, 6)
unfolding parse parse_fuel is_inline parse_inline line_of read_until_crlf utf8_or from_utf8 utf8_run
    utf8_step or_incomplete or_invalid split_whitespace chars is_whitespace
ping_parsed = refl

rest_incomplete : parse release (codes "ge") ≡ err incomplete
unfolding parse parse_fuel is_inline parse_inline line_of read_until_crlf utf8_or from_utf8 utf8_run
    utf8_step or_incomplete or_invalid split_whitespace chars is_whitespace
rest_incomplete = refl

nothing_incomplete : parse release [] ≡ err incomplete
unfolding parse parse_fuel
nothing_incomplete = refl

ping_answered : answer assoc_map env 0 ping_line session ≡ some (codes "+Pong\r\n", session)
unfolding answer extract_command to_ascii_uppercase ascii_upper parse_command parse_one arg str_eq
    dispatch execute_command to_string
ping_answered = refl

abbrev after_ping : Bytes → View assoc_map env
after_ping rest = record { stream = rest; session = session; sent = codes "+Pong\r\n"; served = 1 }

serve-chunks_example :
    let (ending, d) =
      serve assoc_map env (map received inline_pieces ++ received [] ∷ []) fresh_conn in
    (ending ≡ closed)
    × (view_of assoc_map env taken d ≡ after_ping (codes "ge"))
    × (d.writer.sent ≡ codes "+Pong\r\n")
serve-chunks_example =
    serve-chunks assoc_map env taken peer-IsReliable (λ z. refl) inline_pieces fresh_conn
      (after_ping (codes "ge")) (omega arith, (omega arith, tt)) (omega arith)
      (request ping_parsed ping_answered done) rest_incomplete nothing_incomplete

-- bytes of no known kind behind an inline command
abbrev malformed : Bytes
malformed = codes "ping\r\n:x\r\nping\r\n"

abbrev holding : Bytes → Conn assoc_map env
holding s = record fresh_conn { buf = s }

malformed_ping : parse release malformed ≡ ok (ping_line, 6)
unfolding parse parse_fuel is_inline parse_inline line_of read_until_crlf utf8_or from_utf8 utf8_run
    utf8_step or_incomplete or_invalid split_whitespace chars is_whitespace
malformed_ping = refl

malformed_rest :
    parse release (codes ":x\r\nping\r\n") ≡ err (invalid (codes "Invalid integer value."))
unfolding parse parse_fuel is_inline parse_marker parse_integer parse_signed scan scan_digits
    line_of read_until_crlf utf8_or from_utf8 utf8_run utf8_step or_incomplete or_invalid
malformed_rest = refl

drain_pass-invalid_example :
    let (ending, d) = drain_pass assoc_map env (holding malformed) in
    (ending ≡ reading)
    × (view_of assoc_map env taken d
        ≡ record (after_ping []) { sent = codes "+Pong\r\n-Invalid integer value.\r\n" })
unfolding to_string
drain_pass-invalid_example =
    drain_pass-invalid assoc_map env taken peer-IsReliable (λ z. refl) (holding malformed)
      (after_ping (codes ":x\r\nping\r\n")) (codes "Invalid integer value.")
      (request malformed_ping ping_answered done) malformed_rest

-- GET without a key
abbrev get_line : RespType
get_line = array (from_list (bulk_string (codes "GET") ∷ []))

get_parsed : parse release (codes "GET\r\n") ≡ ok (get_line, 5)
unfolding parse parse_fuel is_inline parse_inline line_of read_until_crlf utf8_or from_utf8 utf8_run
    utf8_step or_incomplete or_invalid split_whitespace chars is_whitespace
get_parsed = refl

get_panics : answer assoc_map env 0 get_line session ≡ none
unfolding answer extract_command to_ascii_uppercase ascii_upper parse_command parse_one arg str_eq
get_panics = refl

drain_pass-panic_example :
    let (ending, d) = drain_pass assoc_map env (holding (codes "GET\r\n")) in
    (ending ≡ crashed) × (taken d.writer ≡ [])
drain_pass-panic_example =
    drain_pass-panic assoc_map env taken peer-IsReliable (λ z. refl) (holding (codes "GET\r\n"))
      (view_of assoc_map env taken (holding (codes "GET\r\n"))) get_line 5 done get_parsed
      session-IsValid get_panics

serve-would_block_example :
    serve assoc_map env (replicate 3 would_block ++ received [] ∷ []) (holding (codes "ge"))
    ≡ serve assoc_map env (received [] ∷ []) (record (holding (codes "ge")) { passes = 3 })
unfolding is_empty
serve-would_block_example =
    serve-would_block assoc_map env 3 (received [] ∷ []) (holding (codes "ge")) rest_incomplete

-- With nothing in the buffer the task waits instead.
serve-waits :
    serve assoc_map env (replicate 3 would_block ++ received [] ∷ []) fresh_conn
    ≡ serve assoc_map env (received [] ∷ []) fresh_conn
unfolding is_empty
serve-waits =
    serve-would_block assoc_map env 3 (received [] ∷ []) fresh_conn (parse-nil assoc_map env)
