-- ===== src/Resp/Parser/Printed.antt =====
-- The parser of each kind on a value that `to_string` printed.

use ember.Prelude.{
  ℕ, suc, ◌+◌, ◌≤◌, ◌≡◌, refl, ◌∙◌, Bool, true, false, [], ◌∷◌, ◌++◌, arith, if◌then◌else◌,
  le→ltb_not, length, length-append, append_assoc, ok,
}
use ember.Prelude.Int.{ℤ, pos, negsuc}
use ember.Text.{Bytes, str_eq_refl}
use ember.Text.Utf8.{IsUtf8, ascii-IsUtf8}
use ember.Text.Decimal.{format_usize, format_int, max_usize, max_i64}
use ember.Text.Decimal.RoundTrip.{Fits, format_usize-IsDigit, parse_signed-format}
use ember.Resp.Types.{
  RespType, RespTypes, simple_string, integer, bulk_string, array, null, boolean, cons, size, crlf,
  to_string, to_string_items,
}
use ember.Resp.Parser.{
  Build, Parsed, or_invalid, parse_simple, parse_integer, bulk_data, parse_bulk_string,
  parse_elements, parse_array, parse_null, parse_bool, bool_payload, read_until_crlf, parse,
}
use ember.Resp.Parser.Line.{HasNoCrlf, line_of-append, IsDigit-HasNoCrlf, HasNoCrlf-cons}
use ember.Resp.Parser.Pieces.{
  utf8_or-IsUtf8, digit_ascii, IsDigit-IsUtf8, parse_usize_from_buf-format, parse_simple-line,
  add_usize-le, slice_from-append, slice-append, slice-crlf, length-bulk, bulk_total, header,
  length-header, header-append, line_of-format, ok_at, lengths,
}

pub simple_printed :
    (m : ℕ) (s rest : Bytes)
    → IsUtf8 s
    → HasNoCrlf s
    → parse_simple (m ∷ ((s ++ crlf) ++ rest)) ≡ ok (simple_string s, suc (length (s ++ crlf)))
simple_printed m s rest u n =
    rw (append_assoc s crlf rest) (parse_simple-line m s rest u n ∙ ok_at _ (omega lengths))

pub format_int-IsUtf8 : (z : ℤ) → IsUtf8 (format_int z)
unfolding format_int
format_int-IsUtf8 (pos n) = IsDigit-IsUtf8 _ (format_usize-IsDigit n)
format_int-IsUtf8 (negsuc n) =
    ascii-IsUtf8 _ (omega arith, digit_ascii _ (format_usize-IsDigit (suc n)))

pub format_int-HasNoCrlf : (z : ℤ) → HasNoCrlf (format_int z)
unfolding format_int
format_int-HasNoCrlf (pos n) = IsDigit-HasNoCrlf _ (format_usize-IsDigit n)
format_int-HasNoCrlf (negsuc n) =
    HasNoCrlf-cons b'-' _ (omega arith) (IsDigit-HasNoCrlf _ (format_usize-IsDigit (suc n)))

pub integer_printed :
    (z : ℤ) (rest : Bytes)
    → Fits max_i64 z
    → parse_integer (b':' ∷ ((format_int z ++ crlf) ++ rest))
      ≡ ok (integer z, suc (length (format_int z ++ crlf)))
unfolding parse_integer or_invalid
integer_printed z rest fits =
    rw
      (
        append_assoc (format_int z) crlf rest,
        line_of-append (format_int z) rest (format_int-HasNoCrlf z),
        utf8_or-IsUtf8 _ _ (format_int-IsUtf8 z),
        parse_signed-format max_i64 z fits,
      )
      (ok_at _ (omega lengths))

pub null_printed : (rest : Bytes) → parse_null (b'_' ∷ (crlf ++ rest)) ≡ ok (null, 3)
unfolding parse_null
null_printed rest = rw (line_of-append [] rest (unfold read_until_crlf in refl))

pub bool_printed :
    (b : Bool) (rest : Bytes)
    → parse_bool (b'#' ∷ (if b then b't' else b'f') ∷ (crlf ++ rest)) ≡ ok (boolean b, 4)
unfolding parse_bool or_invalid bool_payload
bool_printed true rest = rw (line_of-append (b't' ∷ []) rest (unfold read_until_crlf in refl))
bool_printed false rest = rw (line_of-append (b'f' ∷ []) rest (unfold read_until_crlf in refl))

module _ (build : Build) where
  pub bulk_data-append :
      (pre s rest : Bytes)
      → IsUtf8 s
      → length (pre ++ (s ++ (crlf ++ rest))) ≤ max_usize
      → bulk_data build (pre ++ (s ++ (crlf ++ rest))) (length pre) (length s)
        ≡ ok (bulk_string s, length pre + length s + 2)
  unfolding bulk_data
  bulk_data-append pre s rest u fits =
      let buf = pre ++ (s ++ (crlf ++ rest)) in
      let start = length pre in
      let stop = start + length s in
      let total : length buf ≡ stop + (2 + length rest) = omega (
        arith,
        length-append pre (s ++ (crlf ++ rest)),
        length-append s (crlf ++ rest),
        length-append crlf rest,
      ) in
      rw (
        add_usize-le build.overflow_checks start (length s) (omega arith),
        add_usize-le build.overflow_checks stop 2 (omega arith),
        le→ltb_not (length buf) (stop + 2) (omega arith),
        slice-append pre s (crlf ++ rest),
        slice-crlf pre s rest,
        str_eq_refl crlf,
        utf8_or-IsUtf8 s _ u,
      )

  pub bulk_data_at :
      (buf : Bytes) (start : ℕ) (pre s rest : Bytes)
      → buf ≡ pre ++ (s ++ (crlf ++ rest))
      → start ≡ length pre
      → IsUtf8 s
      → length buf ≤ max_usize
      → bulk_data build buf start (length s) ≡ ok (bulk_string s, start + length s + 2)
  bulk_data_at buf start pre s rest e₁ e₂ u fits =
      rw (e₁, e₂) (bulk_data-append pre s rest u (rw e₁ at fits))

  pub parse_bulk_string-append :
      (s rest : Bytes)
      → let buf = b'$' ∷ (format_usize (length s) ++ (crlf ++ (s ++ (crlf ++ rest)))) in
        IsUtf8 s
        → length buf ≤ max_usize
        → parse_bulk_string build buf
          ≡ ok (bulk_string s, length (format_usize (length s)) + 2 + 1 + length s + 2)
  unfolding parse_bulk_string
  parse_bulk_string-append s rest u fits =
      rw
        (
          line_of-format (length s) (s ++ (crlf ++ rest)),
          parse_usize_from_buf-format (length s) (omega lengths),
        )
        (bulk_data_at _ _ (header b'$' (length s)) s rest
          (header-append b'$' (length s) (s ++ (crlf ++ rest))) (length-header b'$' (length s)) u
          fits)

  -- the loop over the elements, given what the parser of one element does
  pub parse_array-append :
      (parse : Bytes → Parsed (RespType × ℕ)) (n : ℕ) (body : Bytes) {els : RespTypes} {stop : ℕ}
      → n ≤ build.max_capacity
      → n ≤ max_usize
      → parse_elements build parse n (header b'*' n ++ body) (length (header b'*' n))
        ≡ ok (els, stop)
      → parse_array build parse (b'*' ∷ (format_usize n ++ (crlf ++ body))) ≡ ok (array els, stop)
  unfolding parse_array
  parse_array-append parse n body cap fits h = rw (
    line_of-format n body,
    parse_usize_from_buf-format n fits,
    le→ltb_not build.max_capacity n cap,
    header-append b'*' n body,
    length-header b'*' n,
    h,
  )

  pub bulk_printed :
      (s rest : Bytes)
      → IsUtf8 s
      → length (to_string (bulk_string s) ++ rest) ≤ max_usize
      → parse_bulk_string build (to_string (bulk_string s) ++ rest)
        ≡ ok (bulk_string s, length (to_string (bulk_string s)))
  unfolding to_string
  bulk_printed s rest u fits =
      rw
        (
          append_assoc (format_usize (length s)) (crlf ++ (s ++ crlf)) rest,
          append_assoc s crlf rest,
        )
        (parse_bulk_string-append s rest u (omega (arith, length-bulk s rest))
          ∙ ok_at _ (bulk_total s))

  pub array_printed :
      (parse : Bytes → Parsed (RespType × ℕ)) (vs : RespTypes) (rest : Bytes) {els : RespTypes}
      → size vs ≤ build.max_capacity
      → size vs ≤ max_usize
      → (let pre = header b'*' (size vs) in
          parse_elements build parse (size vs) (pre ++ (to_string_items vs ++ rest)) (length pre)
          ≡ ok (els, length pre + length (to_string_items vs)))
      → parse_array build parse (to_string (array vs) ++ rest)
        ≡ ok (array els, length (to_string (array vs)))
  unfolding to_string
  array_printed parse vs rest granted small h =
      rw (append_assoc (format_usize (size vs)) (crlf ++ to_string_items vs) rest) (
        parse_array-append parse (size vs) (to_string_items vs ++ rest) granted small h
        ∙ ok_at _ (omega lengths))

  pub elements_cons :
      (parse : Bytes → Parsed (RespType × ℕ)) (n : ℕ) (pre one rest : Bytes) {v : RespType}
      {els : RespTypes} {stop : ℕ}
      → parse (one ++ rest) ≡ ok (v, length one)
      → parse_elements build parse n ((pre ++ one) ++ rest) (length (pre ++ one)) ≡ ok (els, stop)
      → parse_elements build parse (suc n) (pre ++ (one ++ rest)) (length pre)
        ≡ ok (cons v els, stop)
  unfolding parse_elements
  elements_cons parse n pre one rest first others = rw (
    slice_from-append pre (one ++ rest),
    first,
    ← length-append pre one,
    ← append_assoc pre one rest,
    others,
  )
