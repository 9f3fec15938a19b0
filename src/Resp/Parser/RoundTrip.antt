-- ===== src/Resp/Parser/RoundTrip.antt =====
-- What `to_string` prints, `parse` reads back, whatever follows it in the buffer.

use ember.Prelude.{ℕ, suc, ◌+◌, ◌≤◌, ◌<◌, ◌≡◌, ◌∙◌, ◌++◌, arith, length, append_assoc, ok}
use ember.Text.{Bytes}
use ember.Text.Utf8.{IsUtf8}
use ember.Text.Decimal.{max_usize, max_i64}
use ember.Text.Decimal.RoundTrip.{Fits}
use ember.Resp.Types.{
  RespType, RespTypes, simple_string, simple_error, integer, bulk_string, array, null, boolean, nil,
  cons, size, to_string, to_string_items,
}
use ember.Resp.Parser.{Build, parse_elements, is_inline, parse_marker, parse_fuel, parse}
use ember.Resp.Parser.Line.{HasNoCrlf}
use ember.Resp.Parser.Pieces.{length-array, header, with_fuel, length-to_string_pos, ok_at, lengths}
use ember.Resp.Parser.Printed.{
  simple_printed, integer_printed, null_printed, bool_printed, bulk_printed, array_printed,
  elements_cons,
}

-- The value that comes back: an error line is read as a simple string.
unfoldable mutual
  pub canonical : RespType → RespType
  canonical (simple_string s) = simple_string s
  canonical (simple_error s) = simple_string s
  canonical (integer n) = integer n
  canonical (bulk_string s) = bulk_string s
  canonical (array vs) = array (canonical_items vs)
  canonical null = null
  canonical (boolean b) = boolean b

  pub canonical_items : RespTypes → RespTypes
  canonical_items nil = nil
  canonical_items (cons v vs) = cons (canonical v) (canonical_items vs)

-- What a Rust value satisfies by its type (strings are UTF-8, integers fit i64), and that a line
-- holds no CRLF and an array has a length that `with_capacity` grants.
unfoldable mutual
  pub IsPrintable : ℕ → RespType → Type 0
  IsPrintable cap (simple_string s) = IsUtf8 s × HasNoCrlf s
  IsPrintable cap (simple_error s) = IsUtf8 s × HasNoCrlf s
  IsPrintable cap (integer n) = Fits max_i64 n
  IsPrintable cap (bulk_string s) = IsUtf8 s
  IsPrintable cap (array vs) = (size vs ≤ cap) × (size vs ≤ max_usize) × ArePrintable cap vs
  IsPrintable cap null = Unit
  IsPrintable cap (boolean b) = Unit

  pub ArePrintable : ℕ → RespTypes → Type 0
  ArePrintable cap nil = Unit
  ArePrintable cap (cons v vs) = IsPrintable cap v × ArePrintable cap vs

module _ (build : Build) where
  mutual
    unfolding to_string canonical IsPrintable parse_fuel is_inline parse_marker parse_elements

    parse_fuel-to_string :
        (v : RespType) (f : ℕ) (rest : Bytes)
        → IsPrintable build.max_capacity v
        → length (to_string v ++ rest) ≤ f
        → length (to_string v ++ rest) ≤ max_usize
        → parse_fuel build (suc f) (to_string v ++ rest) ≡ ok (canonical v, length (to_string v))
    parse_fuel-to_string (simple_string s) f rest (u, n) h fits = simple_printed b'+' s rest u n
    parse_fuel-to_string (simple_error s) f rest (u, n) h fits = simple_printed b'-' s rest u n
    parse_fuel-to_string (integer z) f rest p h fits = integer_printed z rest p
    parse_fuel-to_string (bulk_string s) f rest u h fits = bulk_printed build s rest u fits
    parse_fuel-to_string (array vs) f rest (granted, small, p) h fits =
        array_printed build (λ b. parse_fuel build f b) vs rest granted small
          (parse_elements-to_string vs f (header b'*' (size vs)) rest p
            (omega (arith, length-array vs rest)) (omega (arith, length-array vs rest)))
    parse_fuel-to_string null f rest p h fits = null_printed rest
    parse_fuel-to_string (boolean b) f rest p h fits = bool_printed b rest

    parse_elements-to_string :
        (vs : RespTypes) (f : ℕ) (pre rest : Bytes)
        → ArePrintable build.max_capacity vs
        → length (to_string_items vs ++ rest) < f
        → length (to_string_items vs ++ rest) ≤ max_usize
        → parse_elements build
            (λ b. parse_fuel build f b)
            (size vs)
            (pre ++ (to_string_items vs ++ rest))
            (length pre)
          ≡ ok (canonical_items vs, length pre + length (to_string_items vs))
    parse_elements-to_string nil f pre rest p h fits = ok_at nil (omega arith)
    parse_elements-to_string (cons v vs) f pre rest (pv, pvs) h fits =
        with_fuel
          (λ k.
            parse_elements build (λ b. parse_fuel build k b) (suc (size vs))
              (pre ++ (to_string_items (cons v vs) ++ rest)) (length pre)
            ≡ ok (canonical_items (cons v vs), length pre + length (to_string_items (cons v vs))))
          _ f h
          λ f' h'. rw (append_assoc (to_string v) (to_string_items vs) rest) (
            elements_cons build (λ b. parse_fuel build (suc f') b) (size vs) pre (to_string v)
              (to_string_items vs ++ rest)
              (parse_fuel-to_string v f' (to_string_items vs ++ rest) pv (omega lengths)
                (omega lengths))
              (parse_elements-to_string vs (suc f') (pre ++ to_string v) rest pvs
                (omega (lengths, length-to_string_pos v)) (omega lengths))
            ∙ ok_at _ (omega lengths))

-- A value that a Rust program can hold and a line can carry is read back from what `to_string`
-- printed, whatever bytes follow it: the value returned is the one printed, but that an error line
-- is read as a simple string, at every depth, and exactly the printed bytes are consumed. The
-- buffer is at most `usize::MAX` bytes long, and the allocator grants the arrays' lengths.
pub parse-to_string :
    (build : Build) (v : RespType) (rest : Bytes)
    → IsPrintable build.max_capacity v
    → length (to_string v ++ rest) ≤ max_usize
    → parse build (to_string v ++ rest) ≡ ok (canonical v, length (to_string v))
unfolding parse
parse-to_string build v rest p fits =
    parse_fuel-to_string build v (length (to_string v ++ rest)) rest p (omega arith) fits
