-- ===== src/Resp/Parser/Pieces.antt =====
-- The steps of the parser on a buffer whose front is known.
use native.Mathlib.Nat.{add-sub_cancel_left}
use ember.Prelude.{
  ℕ, zero, suc, ◌+◌, ◌-◌, ◌≤◌, ◌<◌, ◌≡◌, refl, ap, sym, ◌∙◌, Bool, true, false, ◌&&◌, List, [], ◌∷◌,
  ◌++◌, arith, ltb, leb, ◌==◌, if◌then◌else◌, le→leb, le→ltb_not, length, length-append, take, drop,
  take-length_append, drop-length_append, append_assoc, Result, ok, err, panic, ◌>>=◌, not, some,
  All,
}
use ember.Text.{Bytes}
use ember.Text.Utf8.{IsUtf8, from_utf8-IsUtf8, ascii-IsUtf8}
use ember.Text.Decimal.{format_usize, max_usize}
use ember.Text.Decimal.RoundTrip.{IsDigit, format_usize-IsDigit, parse_unsigned-format}
use ember.Resp.Types.{
  RespType, RespTypes, simple_string, bulk_string, array, size, crlf, to_string, to_string_items,
}
use ember.Resp.Parser.{
  Parsed, utf8_or, or_invalid, line_of, add_usize, slice, slice_from, parse_simple,
  parse_usize_from_buf,
}
use ember.Resp.Parser.Line.{HasNoCrlf, line_of-append, IsDigit-HasNoCrlf}

pub utf8_or-IsUtf8 : (s why : Bytes) → IsUtf8 s → utf8_or s why ≡ ok s
unfolding utf8_or
utf8_or-IsUtf8 s why h = rw (from_utf8-IsUtf8 s h)

pub digit_ascii : (s : Bytes) → All IsDigit s → All (λ b. b < 128) s
digit_ascii [] h = tt
digit_ascii (c ∷ s) (hc, hs) = (omega arith, digit_ascii s hs)

pub IsDigit-IsUtf8 : (s : Bytes) → All IsDigit s → IsUtf8 s
IsDigit-IsUtf8 s h = ascii-IsUtf8 s (digit_ascii s h)

pub parse_usize_from_buf-format :
    (n : ℕ) → n ≤ max_usize → parse_usize_from_buf (format_usize n) ≡ ok n
unfolding parse_usize_from_buf or_invalid
parse_usize_from_buf-format n h =
    rw (utf8_or-IsUtf8 _ _ (IsDigit-IsUtf8 _ (format_usize-IsDigit n)), parse_unsigned-format _ n h)

pub parse_simple-line :
    (m : ℕ) (s rest : Bytes)
    → IsUtf8 s
    → HasNoCrlf s
    → parse_simple (m ∷ (s ++ (crlf ++ rest))) ≡ ok (simple_string s, length s + 2 + 1)
unfolding parse_simple
parse_simple-line m s rest u h = rw (line_of-append s rest h, utf8_or-IsUtf8 s _ u)

pub add_usize-le : (checks : Bool) (a b : ℕ) → a + b ≤ max_usize → add_usize checks a b ≡ ok (a + b)
unfolding add_usize
add_usize-le checks a b h = rw (le→leb (a + b) max_usize h)

pub slice_from-append : (xs ys : Bytes) → slice_from (length xs) (xs ++ ys) ≡ ok ys
unfolding slice_from
slice_from-append xs ys = rw (
  le→leb (length xs) (length (xs ++ ys)) (omega (arith, length-append xs ys)),
  drop-length_append xs ys,
)

pub slice-append :
    (xs ys zs : Bytes) → slice (length xs) (length xs + length ys) (xs ++ (ys ++ zs)) ≡ ok ys
unfolding slice
slice-append xs ys zs = rw (
  le→leb (length xs) (length xs + length ys) (omega arith),
  le→leb (length xs + length ys) (length (xs ++ (ys ++ zs)))
      (omega (arith, length-append xs (ys ++ zs), length-append ys zs)),
  add-sub_cancel_left (length xs) (length ys),
  drop-length_append xs (ys ++ zs),
  take-length_append ys zs,
)

-- the CRLF behind the data
pub slice-crlf :
    (pre s rest : Bytes)
    → slice (length pre + length s) (length pre + length s + 2) (pre ++ (s ++ (crlf ++ rest)))
      ≡ ok crlf
slice-crlf pre s rest =
    rw (← length-append pre s, ← append_assoc pre s (crlf ++ rest))
      (slice-append (pre ++ s) crlf rest)

-- a line, and what stands behind it
pub length-line : (xs ys : Bytes) → length (xs ++ (crlf ++ ys)) ≡ length xs + 2 + length ys
length-line xs ys = omega (arith, length-append xs (crlf ++ ys))

pub length-bulk :
    (s rest : Bytes)
    → length (to_string (bulk_string s) ++ rest)
      ≡ length (b'$' ∷ (format_usize (length s) ++ (crlf ++ (s ++ (crlf ++ rest)))))
unfolding to_string
length-bulk s rest =
    let digits = format_usize (length s) in
    omega (
      arith,
      length-append (digits ++ (crlf ++ (s ++ crlf))) rest,
      length-line digits (s ++ crlf),
      length-append s crlf,
      length-line digits (s ++ (crlf ++ rest)),
      length-line s rest,
    )

pub length-array :
    (vs : RespTypes) (rest : Bytes)
    → length (to_string (array vs) ++ rest)
      ≡ length (format_usize (size vs)) + 3 + length (to_string_items vs ++ rest)
unfolding to_string
length-array vs rest =
    let digits = format_usize (size vs) in
    omega (
      arith,
      length-append (digits ++ (crlf ++ to_string_items vs)) rest,
      length-line digits (to_string_items vs),
      length-append (to_string_items vs) rest,
    )

pub bulk_total :
    (s : Bytes)
    → length (format_usize (length s)) + 2 + 1 + length s + 2 ≡ length (to_string (bulk_string s))
unfolding to_string
bulk_total s =
    omega (arith, length-line (format_usize (length s)) (s ++ crlf), length-append s crlf)

-- the header `<m><n>\r\n`
abbrev pub header : ℕ → ℕ → Bytes
header m n = m ∷ (format_usize n ++ crlf)

pub length-header : (m n : ℕ) → length (format_usize n) + 2 + 1 ≡ length (header m n)
length-header m n = omega (arith, length-append (format_usize n) crlf)

pub header-append :
    (m n : ℕ) (rest : Bytes)
    → ◌≡◌ {A = Bytes} (m ∷ (format_usize n ++ (crlf ++ rest))) (header m n ++ rest)
header-append m n rest = ap (λ r. m ∷ r) (sym (append_assoc (format_usize n) crlf rest))

pub line_of-format :
    (n : ℕ) (rest : Bytes)
    → line_of (format_usize n ++ (crlf ++ rest)) ≡ ok (format_usize n, length (format_usize n) + 2)
line_of-format n rest =
    line_of-append (format_usize n) rest (IsDigit-HasNoCrlf _ (format_usize-IsDigit n))

-- positive fuel is a successor
pub with_fuel : (P : ℕ → Type 0) (n f : ℕ) → n < f → ((f' : ℕ) → n ≤ f' → P (suc f')) → P f
with_fuel P n zero h k = absurd (omega arith)
with_fuel P n (suc f') h k = k f' (omega arith)

pub length-append_bytes : (xs ys : Bytes) → length (xs ++ ys) ≡ length xs + length ys
length-append_bytes = length-append

pub ruleset lengths = (arith, length-append_bytes)

pub length-to_string_pos : (v : RespType) → 0 < length (to_string v)
unfolding to_string
length-to_string_pos (simple_string s) = omega arith
length-to_string_pos _ = omega arith

pub ok_at :
    {A : Type 0} (a : A) {m n : ℕ} → m ≡ n → ◌≡◌ {A = Parsed (A × ℕ)} (ok (a, m)) (ok (a, n))
ok_at a e = rw e
