-- ===== src/Resp/Parser.antt =====
-- resp/parser.rs: `Parser::parse` and its helpers. A buffer is its bytes, and its length is below
-- 2^63, so that of the sums only those with a number read from the buffer can overflow.
pub mod Line
pub mod Bounds
pub mod Pieces
pub mod Printed
pub mod Slice
pub mod Extend
pub mod RoundTrip
use ember.Prelude.{
  ℕ, zero, suc, ◌+◌, ◌-◌, ◌/◌, ◌%◌, ◌^◌, Bool, true, false, ◌&&◌, ◌||◌, List, [], ◌∷◌, ◌++◌, map,
  Option, none, some, ltb, leb, ◌==◌, if◌then◌else◌, length, take, drop, Result, ok, err, panic,
  out_of_fuel, ◌>>=◌, ◌≡◌, refl, not,
}
use ember.Prelude.Int.{ℤ}
use ember.Text.{Bytes, codes, str_eq}
use ember.Text.Utf8.{from_utf8}
use ember.Text.Ascii.{split_whitespace}
use ember.Text.Decimal.{parse_unsigned, parse_signed, max_usize, max_i64}
use ember.Resp.Types.{
  RespType, RespTypes, simple_string, integer, bulk_string, array, null, boolean, nil, cons,
  from_list, crlf,
}

pub data ParseError : Type 0 where
  incomplete : ParseError
  invalid : Bytes → ParseError

abbrev pub Parsed : Type 0 → Type 0
Parsed A = Result ParseError A

-- How the program was built: whether arithmetic overflow panics, as in a debug build, or wraps, as
-- in a release build; and the greatest length that `Vec::with_capacity` grants.
pub record Build : Type 0 where
  pub overflow_checks : Bool
  pub max_capacity : ℕ

unfoldable pub add_usize : Bool → ℕ → ℕ → Parsed ℕ
add_usize checks a b =
    if leb (a + b) max_usize then ok (a + b) else if checks then panic else ok ((a + b) % 2 ^ 64)

-- `&buf[start..stop]`
unfoldable pub slice : ℕ → ℕ → Bytes → Parsed Bytes
slice start stop buf =
    if leb start stop && leb stop (length buf)
    then ok (take (stop - start) (drop start buf))
    else panic

-- `&buf[start..]`
unfoldable pub slice_from : ℕ → Bytes → Parsed Bytes
slice_from start buf = if leb start (length buf) then ok (drop start buf) else panic

abbrev shift : ℕ → Option (Bytes × ℕ) → Option (Bytes × ℕ)
shift b none = none
shift b (some (found, len)) = some (b ∷ found, suc len)

-- The bytes before the first CRLF, and how many bytes they and the CRLF are.
unfoldable pub read_until_crlf : Bytes → Option (Bytes × ℕ)
read_until_crlf [] = none
read_until_crlf (a ∷ []) = none
read_until_crlf (a ∷ b ∷ s) =
    if a == b'\r' && b == b'\n' then some ([], 2) else shift a (read_until_crlf (b ∷ s))

-- `.map_err(|_| ParseError::Invalid(..))?`
unfoldable pub or_invalid {ℓ} : {A : Type ℓ} → Option A → Bytes → Result ParseError A
or_invalid none why = err (invalid why)
or_invalid (some a) why = ok a

unfoldable pub or_incomplete {ℓ} : {A : Type ℓ} → Option A → Result ParseError A
or_incomplete none = err incomplete
or_incomplete (some a) = ok a

unfoldable pub utf8_or : Bytes → Bytes → Parsed Bytes
unfolding or_invalid
utf8_or s why = or_invalid (from_utf8 s) why

-- `if let Some(..) = read_until_crlf(..)`, else `Incomplete`
unfoldable pub line_of : Bytes → Parsed (Bytes × ℕ)
unfolding or_incomplete
line_of buf = or_incomplete (read_until_crlf buf)

unfoldable pub parse_simple : Bytes → Parsed (RespType × ℕ)
parse_simple buf = do
  (line, len) ← line_of (drop 1 buf)
  s ← utf8_or line (codes "Simple string value is not a valid utf8 string.")
  ok (simple_string s, len + 1)

unfoldable pub parse_integer : Bytes → Parsed (RespType × ℕ)
parse_integer buf = do
  (line, len) ← line_of (drop 1 buf)
  s ← utf8_or line (codes "Integer value is not valid.")
  int ← or_invalid (parse_signed max_i64 s) (codes "Invalid integer value.")
  ok (integer int, len + 1)

unfoldable pub parse_usize_from_buf : Bytes → Parsed ℕ
parse_usize_from_buf buf = do
  s ← utf8_or buf (codes "Invalid UTF-8 string.")
  or_invalid (parse_unsigned max_usize s) (codes "Invalid value for an integer.")

module _ (build : Build) where
  -- from `data_start` on: the data of the stated length, and the CRLF behind it
  unfoldable pub bulk_data : Bytes → ℕ → ℕ → Parsed (RespType × ℕ)
  bulk_data buf data_start bulk_str_len = do
    data_end ← add_usize build.overflow_checks data_start bulk_str_len
    stop ← add_usize build.overflow_checks data_end 2
    if ltb (length buf) stop then err incomplete else do
      bytes ← slice data_start data_end buf
      ending ← slice data_end stop buf
      if not (str_eq ending crlf)
          then err (invalid (codes "Missing CRLF after bulk string"))
          else do s ← utf8_or bytes (codes "Invalid UTF-8"); ok (bulk_string s, stop)

  unfoldable pub parse_bulk_string : Bytes → Parsed (RespType × ℕ)
  parse_bulk_string buf = do
    (line, len) ← line_of (drop 1 buf)
    bulk_str_len ← parse_usize_from_buf line
    bulk_data buf (len + 1) bulk_str_len

  -- `for _ in 0..arr_len`, over the parser of one element
  unfoldable pub parse_elements :
      (Bytes → Parsed (RespType × ℕ)) → ℕ → Bytes → ℕ → Parsed (RespTypes × ℕ)
  parse_elements parse zero buf bytes_consumed = ok (nil, bytes_consumed)
  parse_elements parse (suc n) buf bytes_consumed = do
    rest ← slice_from bytes_consumed buf
    (el, len) ← parse rest
    (els, stop) ← parse_elements parse n buf (bytes_consumed + len)
    ok (cons el els, stop)

  unfoldable pub parse_array : (Bytes → Parsed (RespType × ℕ)) → Bytes → Parsed (RespType × ℕ)
  parse_array parse buf = do
    (line, len) ← line_of (drop 1 buf)
    arr_len ← parse_usize_from_buf line
    if ltb build.max_capacity arr_len
        then panic
        else do (arr, stop) ← parse_elements parse arr_len buf (len + 1); ok (array arr, stop)

unfoldable pub parse_null : Bytes → Parsed (RespType × ℕ)
parse_null buf = do (_, len) ← line_of (drop 1 buf); ok (null, len + 1)

bool_payload : Bytes → Option Bool
bool_payload (c ∷ []) = if c == b't' then some true else if c == b'f' then some false else none
bool_payload _ = none

unfoldable pub parse_bool : Bytes → Parsed (RespType × ℕ)
unfolding bool_payload
parse_bool buf = do
  (line, len) ← line_of (drop 1 buf)
  b ←
      or_invalid (bool_payload line)
        (codes "Invalid value for boolean. Only \"t\" or \"f\" is accepted.")
  ok (boolean b, len + 1)

unfoldable pub parse_inline : Bytes → Parsed (RespType × ℕ)
parse_inline buf = do
  (bytes, len) ← line_of buf
  line ← utf8_or bytes (codes "Invalid inline command")
  ok (array (from_list (map bulk_string (split_whitespace line))), len)

unfoldable pub is_inline : ℕ → Bool
is_inline c =
    not (c == b'+' || c == b'-' || c == b':' || c == b'$' || c == b'*' || c == b'_' || c == b'#')

-- `u8 as char`, in UTF-8
abbrev char_of : ℕ → Bytes
char_of c = if ltb c 0x80 then c ∷ [] else (0xc0 + c / 64) ∷ (0x80 + c % 64) ∷ []

module _ (build : Build) where
  -- the `match buf[0] as char` of `parse`, over the parser of an array's elements
  unfoldable pub parse_marker : (Bytes → Parsed (RespType × ℕ)) → ℕ → Bytes → Parsed (RespType × ℕ)
  parse_marker parse c buf =
      if c == b'+'
      then parse_simple buf
      else if c == b'-'
      then parse_simple buf
      else if c == b':'
      then parse_integer buf
      else if c == b'$'
      then parse_bulk_string build buf
      else if c == b'*'
      then parse_array build parse buf
      else if c == b'_'
      then parse_null buf
      else if c == b'#'
      then parse_bool buf
      else err (invalid (codes "Invalid RESP type: " ++ char_of c))

  -- Each level of nesting costs a unit of fuel.
  unfoldable pub parse_fuel : ℕ → Bytes → Parsed (RespType × ℕ)
  parse_fuel zero buf = out_of_fuel
  parse_fuel (suc fuel) [] = err incomplete
  parse_fuel (suc fuel) (c ∷ rest) =
      if is_inline c
      then parse_inline (c ∷ rest)
      else parse_marker (λ b. parse_fuel fuel b) c (c ∷ rest)

  unfoldable pub parse : Bytes → Parsed (RespType × ℕ)
  parse buf = parse_fuel (suc (length buf)) buf
