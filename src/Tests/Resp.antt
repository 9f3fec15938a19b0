-- ===== src/Tests/Resp.antt =====
-- The protocol at concrete inputs.
use ember.Prelude.{
  ℕ, ◌-◌, ◌^◌, ◌≤◌, ◌<◌, ◌≡◌, ◌≢◌, refl, true, false, [], ◌∷◌, ◌++◌, length, ◌==◌, if◌then◌else◌,
  arith, ok, panic, out_of_fuel, Bool-cases, inl, inr,
}
use ember.Prelude.Int.{negsuc}
use ember.Text.{Bytes, codes, str_eq}
use ember.Text.Utf8.{from_utf8, utf8_run, utf8_step}
use ember.Text.Ascii.{split_whitespace, chars, is_whitespace}
use ember.Text.Decimal.{
  format_int, format_usize, digits, parse_unsigned, parse_signed, scan, scan_digits, max_usize,
}
use ember.Resp.Types.{
  RespType, simple_string, integer, bulk_string, array, null, boolean, nil, cons, to_string,
  IoResult, written, io_error, AsyncWrite, and_then, write_to,
}
use ember.Resp.Types.Write.{IsStream, write_to-to_string}
use ember.Resp.Parser.{
  Build, parse, parse_fuel, is_inline, parse_marker, parse_array, line_of, read_until_crlf,
  parse_usize_from_buf, utf8_or, parse_elements, slice_from, parse_bulk_string, bulk_data,
  add_usize, slice, or_incomplete, or_invalid, parse_bool, parse_integer, parse_null, parse_simple,
  parse_inline,
}
use ember.Resp.Parser.Extend.{parse_extend}
use ember.Resp.Parser.Bounds.{parse_total, parse_consumes}
use ember.Resp.Parser.RoundTrip.{canonical, IsPrintable, parse-to_string}

abbrev pub release : Build
release = record { overflow_checks = false; max_capacity = 2 ^ 58 }

-- a value of every kind
abbrev sample : RespType
sample = array (
    cons (bulk_string (codes "foo")) (
      cons (integer (negsuc 41)) (
        cons (array (cons null (cons (boolean true) nil)))
          (cons (simple_string (codes "Ok")) nil))))

print_sample : to_string sample ≡ codes "*4\r\n$3\r\nfoo\r\n:-42\r\n*2\r\n_\r\n#t\r\n+Ok\r\n"
unfolding to_string format_int
print_sample = refl

parse-sample :
    parse release (codes "*4\r\n$3\r\nfoo\r\n:-42\r\n*2\r\n_\r\n#t\r\n+Ok\r\n+more")
    ≡ ok (sample, 35)
unfolding parse parse_fuel is_inline parse_marker parse_array line_of read_until_crlf
    parse_usize_from_buf utf8_or from_utf8 utf8_run utf8_step parse_unsigned parse_elements
    slice_from parse_bulk_string bulk_data add_usize slice or_incomplete or_invalid parse_bool
    parse_integer parse_null parse_simple parse_signed scan scan_digits str_eq
parse-sample = refl

-- A length of 2^64 - 20 wraps around in a release build, and the slice of the data is out of order.
parse_huge_bulk : parse release (codes "$18446744073709551596\r\n") ≡ panic
unfolding parse parse_fuel is_inline parse_marker line_of read_until_crlf parse_usize_from_buf
    utf8_or from_utf8 utf8_run utf8_step parse_unsigned parse_bulk_string bulk_data add_usize slice
    or_incomplete or_invalid scan scan_digits str_eq
parse_huge_bulk = refl

-- So does an array's length that the allocator does not grant.
parse_huge_array : parse release (codes "*1000000000000000000\r\n") ≡ panic
unfolding parse parse_fuel is_inline parse_marker parse_array line_of read_until_crlf
    parse_usize_from_buf utf8_or from_utf8 utf8_run utf8_step parse_unsigned or_incomplete
    or_invalid scan scan_digits
parse_huge_array = refl

parse_inline_ping :
    parse release (codes "get  a\r\n")
    ≡ ok (array (cons (bulk_string (codes "get")) (cons (bulk_string (codes "a")) nil)), 8)
unfolding parse parse_fuel is_inline parse_inline line_of read_until_crlf utf8_or from_utf8 utf8_run
    utf8_step or_incomplete or_invalid split_whitespace chars is_whitespace
parse_inline_ping = refl

sample-IsPrintable : IsPrintable (2 ^ 58) sample
unfolding IsPrintable utf8_run utf8_step read_until_crlf
sample-IsPrintable = (
  omega arith,
  omega arith,
  (refl, (omega arith, ((omega arith, omega arith, (tt, (tt, tt))), ((refl, refl), tt)))),
)

sample_fits : length (to_string sample ++ codes "+more") ≤ max_usize
unfolding to_string format_int format_usize digits
sample_fits = omega arith

parse-to_string_example :
    parse release (to_string sample ++ codes "+more") ≡ ok (sample, length (to_string sample))
unfolding canonical
parse-to_string_example =
    parse-to_string release sample (codes "+more") sample-IsPrintable sample_fits

parse_total_example : parse release (codes "*2\r\n*1\r\n$-1\r\n") ≢ out_of_fuel
parse_total_example = parse_total release (codes "*2\r\n*1\r\n$-1\r\n")

-- ten more bytes behind the sample
parse_extend_example :
    parse release
      (codes "*4\r\n$3\r\nfoo\r\n:-42\r\n*2\r\n_\r\n#t\r\n+Ok\r\n+more" ++ codes "0123456789")
    ≡ parse release (codes "*4\r\n$3\r\nfoo\r\n:-42\r\n*2\r\n_\r\n#t\r\n+Ok\r\n+more")
parse_extend_example =
    parse_extend release (codes "*4\r\n$3\r\nfoo\r\n:-42\r\n*2\r\n_\r\n#t\r\n+Ok\r\n+more")
      (codes "0123456789") (λ e. cc (parse-sample, e)) (omega arith)

parse_consumes_example : (0 < 35) × (35 ≤ 40)
parse_consumes_example =
    parse_consumes release (codes "*4\r\n$3\r\nfoo\r\n:-42\r\n*2\r\n_\r\n#t\r\n+Ok\r\n+more") sample
      35 parse-sample

-- A socket with room for `room` bytes: what was sent, and a write that does not fit fails.
pub record Socket : Type 0 where
  pub room : ℕ
  pub sent : Bytes

unfoldable pub send : Bytes → Socket → IoResult × Socket
send [] s = (written, s)
send (b ∷ bs) s =
    let rest = send bs (record { room = s.room - 1; sent = s.sent ++ b ∷ [] }) in
    if s.room == 0 then (io_error (codes "full"), s) else rest

abbrev pub twenty : Socket
twenty = record { room = 20; sent = [] }

abbrev pub socket : AsyncWrite
socket = record { Writer = Socket; write_all = send }

send_append : (s t : Bytes) (w : Socket) → and_then (send s w) (send t) ≡ send (s ++ t) w
unfolding send
send_append [] t w = refl
send_append (b ∷ s) t w = elim (Bool-cases (w.room == 0)) [
  | inl h ↦ rw h
  | inr h ↦ rw h (send_append s t (record { room = w.room - 1; sent = w.sent ++ b ∷ [] }))
]

pub socket-IsStream : IsStream socket
unfolding send
socket-IsStream = record { write_nil = λ w. refl; write_append = send_append }

write_to-to_string_example :
    write_to socket format_int sample twenty ≡ send (to_string sample) twenty
write_to-to_string_example =
    write_to-to_string socket format_int socket-IsStream (λ z. refl) sample twenty
