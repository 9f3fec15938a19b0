-- ===== src/Resp/Parser/Bounds.antt =====
-- What a successful parse consumes, and that the fuel suffices.
use ember.Prelude.{
  ℕ, zero, suc, ◌+◌, ◌≤◌, ◌<◌, ◌≡◌, ◌≢◌, refl, ap, leb→le, Bool, ◌&&◌, Option, none, some, [], ◌∷◌,
  arith, ltb, leb, ◌==◌, length, drop, length-drop, ok, out_of_fuel, Ensures, holds, failed,
  panicked, Ensures-bind, Ensures-if, Ensures-ok, Ensures-out_of_fuel, not,
}
use ember.Text.{Bytes, str_eq}
use ember.Text.Utf8.{from_utf8}
use ember.Text.Decimal.{max_usize}
use ember.Resp.Types.{RespType, crlf}
use ember.Resp.Parser.{
  Parsed, Build, or_invalid, utf8_or, add_usize, slice, slice_from, parse_simple, parse_integer,
  parse_usize_from_buf, bulk_data, parse_bulk_string, parse_elements, parse_array, parse_null,
  parse_bool, parse_inline, is_inline, parse_marker, parse_fuel, parse,
}
use ember.Resp.Parser.Line.{line_of-Ensures}

-- At least one byte is consumed, and no more than there are.
abbrev pub Consumes : Bytes → RespType × ℕ → Type 0
Consumes buf (_, n) = (0 < n) × (n ≤ length buf)

abbrev pub Any {ℓ} : {A : Type ℓ} → A → Type 0
Any _ = Unit

or_invalid-Ensures {ℓ} : {A : Type ℓ} (o : Option A) (why : Bytes) → Ensures Any (or_invalid o why)
unfolding or_invalid
or_invalid-Ensures none why = failed
or_invalid-Ensures (some a) why = holds tt

utf8_or-Ensures : (s why : Bytes) → Ensures Any (utf8_or s why)
unfolding utf8_or
utf8_or-Ensures s why = or_invalid-Ensures (from_utf8 s) why

add_usize-Ensures : (checks : Bool) (a b : ℕ) → Ensures Any (add_usize checks a b)
unfolding add_usize
add_usize-Ensures checks a b =
    Ensures-if (leb (a + b) max_usize) (λ _. holds tt)
      λ _. Ensures-if checks (λ _. panicked) (λ _. holds tt)

slice-Ensures :
    (start stop : ℕ) (buf : Bytes)
    → Ensures (λ _. (start ≤ stop) × (stop ≤ length buf)) (slice start stop buf)
unfolding slice
slice-Ensures start stop buf =
    Ensures-if (leb start stop && leb stop (length buf)) (λ h. holds (ground arith)) (λ _. panicked)

slice_from-Ensures :
    (start : ℕ) (buf : Bytes)
    → Ensures (λ rest. (start ≤ length buf) × (rest ≡ drop start buf)) (slice_from start buf)
unfolding slice_from
slice_from-Ensures start buf =
    Ensures-if (leb start (length buf)) (λ h. holds (leb→le start (length buf) h, refl))
      (λ _. panicked)

module _ (c : ℕ) (rest : Bytes) where
  parse_simple-Ensures : Ensures (Consumes (c ∷ rest)) (parse_simple (c ∷ rest))
  unfolding parse_simple
  parse_simple-Ensures =
      Ensures-bind (line_of-Ensures rest)
        λ (line, len) h. Ensures-bind (utf8_or-Ensures _ _) λ s _. holds (omega arith)

  parse_integer-Ensures : Ensures (Consumes (c ∷ rest)) (parse_integer (c ∷ rest))
  unfolding parse_integer
  parse_integer-Ensures = Ensures-bind (line_of-Ensures rest) λ (line, len) h.
      Ensures-bind (utf8_or-Ensures _ _)
        λ s _. Ensures-bind (or_invalid-Ensures _ _) λ int _. holds (omega arith)

  parse_null-Ensures : Ensures (Consumes (c ∷ rest)) (parse_null (c ∷ rest))
  unfolding parse_null
  parse_null-Ensures = Ensures-bind (line_of-Ensures rest) λ (line, len) h. holds (omega arith)

  parse_bool-Ensures : Ensures (Consumes (c ∷ rest)) (parse_bool (c ∷ rest))
  unfolding parse_bool
  parse_bool-Ensures =
      Ensures-bind (line_of-Ensures rest)
        λ (line, len) h. Ensures-bind (or_invalid-Ensures _ _) λ b _. holds (omega arith)

parse_usize-Ensures : (s : Bytes) → Ensures Any (parse_usize_from_buf s)
unfolding parse_usize_from_buf
parse_usize-Ensures s = Ensures-bind (utf8_or-Ensures _ _) λ t _. or_invalid-Ensures _ _

parse_inline-Ensures : (buf : Bytes) → Ensures (Consumes buf) (parse_inline buf)
unfolding parse_inline
parse_inline-Ensures buf =
    Ensures-bind (line_of-Ensures buf)
      λ (line, len) h. Ensures-bind (utf8_or-Ensures _ _) λ s _. holds (omega arith)

module _ (build : Build) where
  bulk_data-Ensures :
      (buf : Bytes) (data_start n : ℕ)
      → 0 < data_start
      → Ensures (Consumes buf) (bulk_data build buf data_start n)
  unfolding bulk_data
  bulk_data-Ensures buf data_start n pos = Ensures-bind (add_usize-Ensures _ _ _) λ data_end _.
      Ensures-bind (add_usize-Ensures _ _ _) λ stop _.
        Ensures-if (ltb (length buf) stop) (λ _. failed)
          λ _. Ensures-bind (slice-Ensures data_start data_end buf) λ bytes h₁.
            Ensures-bind (slice-Ensures data_end stop buf) λ ending h₂.
              Ensures-if (not (str_eq ending crlf)) (λ _. failed)
                λ _. Ensures-bind (utf8_or-Ensures _ _) λ s _. holds (omega arith)

  parse_bulk_string-Ensures : (buf : Bytes) → Ensures (Consumes buf) (parse_bulk_string build buf)
  unfolding parse_bulk_string
  parse_bulk_string-Ensures buf = Ensures-bind (line_of-Ensures (drop 1 buf)) λ (line, len) h.
      Ensures-bind (parse_usize-Ensures line) λ n _. bulk_data-Ensures buf (len + 1) n (omega arith)

  -- The parser of one element is used on what is left of the buffer, which is shorter.
  parse_elements-Ensures :
      (parse : Bytes → Parsed (RespType × ℕ)) (buf : Bytes)
      → ((b : Bytes) → length b < length buf → Ensures (Consumes b) (parse b))
      → (n bytes_consumed : ℕ) → 0 < bytes_consumed
      → bytes_consumed ≤ length buf
      → Ensures
          (λ (_, stop). (bytes_consumed ≤ stop) × (stop ≤ length buf))
          (parse_elements build parse n buf bytes_consumed)
  unfolding parse_elements
  parse_elements-Ensures parse buf ih zero consumed p le = holds (omega arith)
  parse_elements-Ensures parse buf ih (suc n) consumed p le =
      Ensures-bind (slice_from-Ensures consumed buf) λ rest (_, e).
        Ensures-bind (ih rest (rw e (omega (arith, length-drop consumed buf)))) λ (el, len) h.
          Ensures-bind
            (parse_elements-Ensures parse buf ih n (consumed + len) (omega arith)
              (omega (arith, h.1, ap length e, length-drop consumed buf)))
            λ (els, stop) h'. holds (omega arith)

  parse_array-Ensures :
      (parse : Bytes → Parsed (RespType × ℕ)) (buf : Bytes)
      → ((b : Bytes) → length b < length buf → Ensures (Consumes b) (parse b))
      → 0 < length buf
      → Ensures (Consumes buf) (parse_array build parse buf)
  unfolding parse_array
  parse_array-Ensures parse buf ih nonempty =
      Ensures-bind (line_of-Ensures (drop 1 buf)) λ (line, len) h.
        Ensures-bind (parse_usize-Ensures line) λ n _.
          Ensures-if (ltb build.max_capacity n) (λ _. panicked)
            λ _.
              Ensures-bind
                (parse_elements-Ensures parse buf ih n (len + 1) (omega arith)
                  (omega (arith, h.1, length-drop 1 buf)))
                λ (arr, stop) h'. holds (omega arith)

  parse_marker-Ensures :
      (parse : Bytes → Parsed (RespType × ℕ)) (c : ℕ) (rest : Bytes)
      → ((b : Bytes) → length b < length (c ∷ rest) → Ensures (Consumes b) (parse b))
      → Ensures (Consumes (c ∷ rest)) (parse_marker build parse c (c ∷ rest))
  unfolding parse_marker
  parse_marker-Ensures parse c rest ih =
      Ensures-if (c == b'+') (λ _. parse_simple-Ensures c rest)
        λ _.
          Ensures-if (c == b'-') (λ _. parse_simple-Ensures c rest)
            λ _.
              Ensures-if (c == b':') (λ _. parse_integer-Ensures c rest)
                λ _.
                  Ensures-if (c == b'$') (λ _. parse_bulk_string-Ensures (c ∷ rest))
                    λ _.
                      Ensures-if (c == b'*')
                        (λ _. parse_array-Ensures parse (c ∷ rest) ih (omega arith))
                        λ _.
                          Ensures-if (c == b'_') (λ _. parse_null-Ensures c rest)
                            λ _.
                              Ensures-if (c == b'#') (λ _. parse_bool-Ensures c rest) (λ _. failed)

  pub parse_fuel-Ensures :
      (fuel : ℕ) (buf : Bytes)
      → length buf < fuel
      → Ensures (Consumes buf) (parse_fuel build fuel buf)
  unfolding parse_fuel
  parse_fuel-Ensures zero buf h = absurd (omega arith)
  parse_fuel-Ensures (suc fuel) [] h = failed
  parse_fuel-Ensures (suc fuel) (c ∷ rest) h =
      Ensures-if (is_inline c) (λ _. parse_inline-Ensures (c ∷ rest))
        λ _.
          parse_marker-Ensures (λ b. parse_fuel build fuel b) c rest
            λ b shorter. parse_fuel-Ensures fuel b (omega arith)

  pub parse-Ensures : (buf : Bytes) → Ensures (Consumes buf) (parse build buf)
  unfolding parse
  parse-Ensures buf = parse_fuel-Ensures (suc (length buf)) buf (omega arith)

-- Whatever the bytes and the build, the parser keeps within its fuel, one unit more than there are
-- bytes: it reports a value, an error or a panic.
pub parse_total : (build : Build) (buf : Bytes) → parse build buf ≢ out_of_fuel
parse_total build buf = Ensures-out_of_fuel (parse-Ensures build buf)

-- A value is reported with a number of bytes that is positive and no greater than the buffer's
-- length.
pub parse_consumes :
    (build : Build) (buf : Bytes) (v : RespType) (n : ℕ)
    → parse build buf ≡ ok (v, n)
    → (0 < n) × (n ≤ length buf)
parse_consumes build buf v n e = Ensures-ok (parse-Ensures build buf) e
