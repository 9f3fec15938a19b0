-- ===== src/Resp/Parser/Extend.antt =====
-- `Parser::parse` (resp/parser.rs) on a buffer to which bytes are added.
use ember.Prelude.{
  ℕ, zero, suc, ◌+◌, ◌≤◌, ◌<◌, ◌≡◌, ◌≢◌, refl, Bool, true, false, ◌&&◌, [], ◌∷◌, ◌++◌, none, arith,
  ltb, ◌==◌, le→ltb_not, if◌then◌else◌, Bool-cases, ◌⊎◌, inl, inr, length, length-append, drop,
  length-drop, ok, err, panic, out_of_fuel, ◌>>=◌, Ensures-ok,
}
use ember.Text.{Bytes}
use ember.Resp.Types.{RespType}
use ember.Resp.Parser.{
  incomplete, Parsed, Build, add_usize, read_until_crlf, or_incomplete, line_of, parse_simple,
  parse_integer, parse_usize_from_buf, bulk_data, parse_bulk_string, parse_elements, parse_array,
  parse_null, parse_bool, parse_inline, is_inline, parse_marker, parse_fuel, parse,
}
use ember.Resp.Parser.Line.{line_of-Ensures}
use ember.Resp.Parser.Bounds.{parse_fuel-Ensures}
use ember.Resp.Parser.Slice.{slice_extend, slice_data, slice_from_extend, add_usize_two, max_isize}

-- What a parser may report when bytes have been added: the same, if it did not ask for more.
pub data Grows {A : Type 0} (r r' : Parsed A) : Type 0 where
  same : r' ≡ r → Grows r r'
  short : r ≡ err incomplete → Grows r r'

bind_same :
    {A B : Type 0} (m : Parsed A) {k k' : A → Parsed B}
    → ((a : A) → m ≡ ok a → Grows (k a) (k' a))
    → Grows (m >>= k) (m >>= k')
bind_same (ok a) h = h a refl
bind_same (err e) h = same refl
bind_same panic h = same refl
bind_same out_of_fuel h = same refl

Grows-bind :
    {A B : Type 0} {m m' : Parsed A} {k k' : A → Parsed B}
    → Grows m m'
    → ((a : A) → m ≡ ok a → Grows (k a) (k' a))
    → Grows (m >>= k) (m' >>= k')
Grows-bind {m} (same e) h = rw e (bind_same m h)
Grows-bind (short e) h = short (rw e)

Grows-if :
    {A : Type 0} (b : Bool) {x x' y y' : Parsed A}
    → Grows x x'
    → Grows y y'
    → Grows (if b then x else y) (if b then x' else y')
Grows-if true hx hy = hx
Grows-if false hx hy = hy

read_until_crlf_extend :
    (s more : Bytes)
    → (read_until_crlf s ≡ none) ⊎ (read_until_crlf (s ++ more) ≡ read_until_crlf s)
unfolding read_until_crlf
read_until_crlf_extend [] more = inl refl
read_until_crlf_extend (a ∷ []) more = inl refl
read_until_crlf_extend (a ∷ b ∷ s) more = elim (Bool-cases (a == b'\r' && b == b'\n')) [
  | inl h ↦ inr (rw h)
  | inr h ↦ elim (read_until_crlf_extend (b ∷ s) more) [
    | inl e ↦ inl (rw (h, e))
    | inr e ↦ inr (rw (h, e))
  ]
]

line_of-Grows : (s more : Bytes) → Grows (line_of s) (line_of (s ++ more))
unfolding line_of or_incomplete
line_of-Grows s more = elim (read_until_crlf_extend s more) [
  | inl e ↦ short (rw e)
  | inr e ↦ same (rw e)
]

module _ (c : ℕ) (rest more : Bytes) where
  parse_simple-Grows : Grows (parse_simple (c ∷ rest)) (parse_simple (c ∷ (rest ++ more)))
  unfolding parse_simple
  parse_simple-Grows = Grows-bind (line_of-Grows rest more) λ p e. same refl

  parse_integer-Grows : Grows (parse_integer (c ∷ rest)) (parse_integer (c ∷ (rest ++ more)))
  unfolding parse_integer
  parse_integer-Grows = Grows-bind (line_of-Grows rest more) λ p e. same refl

  parse_null-Grows : Grows (parse_null (c ∷ rest)) (parse_null (c ∷ (rest ++ more)))
  unfolding parse_null
  parse_null-Grows = Grows-bind (line_of-Grows rest more) λ p e. same refl

  parse_bool-Grows : Grows (parse_bool (c ∷ rest)) (parse_bool (c ∷ (rest ++ more)))
  unfolding parse_bool
  parse_bool-Grows = Grows-bind (line_of-Grows rest more) λ p e. same refl

parse_inline-Grows : (buf more : Bytes) → Grows (parse_inline buf) (parse_inline (buf ++ more))
unfolding parse_inline
parse_inline-Grows buf more = Grows-bind (line_of-Grows buf more) λ p e. same refl

module _ (build : Build) where
  bulk_data-Grows :
      (buf more : Bytes) (data_start n : ℕ)
      → length (buf ++ more) ≤ max_isize
      → Grows (bulk_data build buf data_start n) (bulk_data build (buf ++ more) data_start n)
  unfolding bulk_data
  bulk_data-Grows buf more data_start n fits =
      bind_same (add_usize build.overflow_checks data_start n) λ data_end e₁.
        bind_same (add_usize build.overflow_checks data_end 2) λ stop e₂.
          elim (Bool-cases (ltb (length buf) stop)) [
            | inl h ↦ short (rw h)
            | inr h ↦
                let le : stop ≤ length buf = ground arith in
                rw
                  (
                    h,
                    le→ltb_not (length (buf ++ more)) stop (omega (arith, length-append buf more)),
                    slice_data data_start data_end stop buf more fits
                        (add_usize_two build.overflow_checks data_end e₂) le,
                    slice_extend data_end stop buf more le,
                  )
                  (same refl)
          ]

  parse_bulk_string-Grows :
      (c : ℕ) (rest more : Bytes)
      → length (c ∷ (rest ++ more)) ≤ max_isize
      → Grows (parse_bulk_string build (c ∷ rest)) (parse_bulk_string build (c ∷ (rest ++ more)))
  unfolding parse_bulk_string
  parse_bulk_string-Grows c rest more fits = Grows-bind (line_of-Grows rest more) λ (line, len) e.
      bind_same (parse_usize_from_buf line) λ n e'. bulk_data-Grows (c ∷ rest) more (len + 1) n fits

  parse_elements-Grows :
      (p p' : Bytes → Parsed (RespType × ℕ)) (buf more : Bytes)
      → ((b : Bytes) → length b < length buf → Grows (p b) (p' (b ++ more)))
      → ((b : Bytes)
          → length b < length buf
          → (v : RespType) (n : ℕ) → p b ≡ ok (v, n)
          → n ≤ length b)
      → (n bytes_consumed : ℕ) → 0 < bytes_consumed
      → bytes_consumed ≤ length buf
      → Grows
          (parse_elements build p n buf bytes_consumed)
          (parse_elements build p' n (buf ++ more) bytes_consumed)
  unfolding parse_elements
  parse_elements-Grows p p' buf more ih within zero consumed pos le = same refl
  parse_elements-Grows p p' buf more ih within (suc n) consumed pos le =
      let (e₁, e₂) = slice_from_extend consumed buf more le in
      let rest = drop consumed buf in
      let shorter : length rest < length buf = omega (arith, length-drop consumed buf) in
      rw (e₁, e₂)
        (Grows-bind (ih rest shorter) λ (el, len) e.
          Grows-bind
            (parse_elements-Grows p p' buf more ih within n (consumed + len) (omega arith)
              (omega (arith, within rest shorter el len e, length-drop consumed buf)))
            λ r e'. same refl)

  parse_array-Grows :
      (p p' : Bytes → Parsed (RespType × ℕ)) (c : ℕ) (rest more : Bytes)
      → ((b : Bytes) → length b < length (c ∷ rest) → Grows (p b) (p' (b ++ more)))
      → ((b : Bytes)
          → length b < length (c ∷ rest)
          → (v : RespType) (n : ℕ) → p b ≡ ok (v, n)
          → n ≤ length b)
      → Grows (parse_array build p (c ∷ rest)) (parse_array build p' (c ∷ (rest ++ more)))
  unfolding parse_array
  parse_array-Grows p p' c rest more ih within =
      Grows-bind (line_of-Grows rest more) λ (line, len) e.
        bind_same (parse_usize_from_buf line) λ n e'.
          Grows-if (ltb build.max_capacity n) (same refl) (
            Grows-bind
              (parse_elements-Grows p p' (c ∷ rest) more ih within n (len + 1) (omega arith)
                (omega (arith, (Ensures-ok (line_of-Ensures rest) e).1)))
              λ r e''. same refl)

  parse_marker-Grows :
      (p p' : Bytes → Parsed (RespType × ℕ)) (c : ℕ) (rest more : Bytes)
      → length (c ∷ (rest ++ more)) ≤ max_isize
      → ((b : Bytes) → length b < length (c ∷ rest) → Grows (p b) (p' (b ++ more)))
      → ((b : Bytes)
          → length b < length (c ∷ rest)
          → (v : RespType) (n : ℕ) → p b ≡ ok (v, n)
          → n ≤ length b)
      → Grows (parse_marker build p c (c ∷ rest)) (parse_marker build p' c (c ∷ (rest ++ more)))
  unfolding parse_marker
  parse_marker-Grows p p' c rest more fits ih within =
      Grows-if (c == b'+') (parse_simple-Grows c rest more) (
        Grows-if (c == b'-') (parse_simple-Grows c rest more) (
          Grows-if (c == b':') (parse_integer-Grows c rest more) (
            Grows-if (c == b'$') (parse_bulk_string-Grows c rest more fits) (
              Grows-if (c == b'*') (parse_array-Grows p p' c rest more ih within) (
                Grows-if (c == b'_') (parse_null-Grows c rest more)
                  (Grows-if (c == b'#') (parse_bool-Grows c rest more) (same refl)))))))

  parse_fuel-Grows :
      (f f' : ℕ) (buf more : Bytes)
      → length buf < f
      → length (buf ++ more) < f'
      → length (buf ++ more) ≤ max_isize
      → Grows (parse_fuel build f buf) (parse_fuel build f' (buf ++ more))
  unfolding parse_fuel
  parse_fuel-Grows zero f' buf more h h' fits = absurd (omega arith)
  parse_fuel-Grows (suc f) zero buf more h h' fits = absurd (omega arith)
  parse_fuel-Grows (suc f) (suc f') [] more h h' fits = short refl
  parse_fuel-Grows (suc f) (suc f') (c ∷ rest) more h h' fits =
      Grows-if (is_inline c) (parse_inline-Grows (c ∷ rest) more) (
        parse_marker-Grows (λ b. parse_fuel build f b) (λ b. parse_fuel build f' b) c rest more fits
          (λ b lt.
            parse_fuel-Grows f f' b more (omega arith)
              (omega (arith, length-append b more, length-append rest more))
              (omega (arith, length-append b more, length-append rest more)))
          (λ b lt v n e. (Ensures-ok (parse_fuel-Ensures build f b (omega arith)) e).1))

  parse-Grows :
      (buf more : Bytes)
      → length (buf ++ more) ≤ max_isize
      → Grows (parse build buf) (parse build (buf ++ more))
  unfolding parse
  parse-Grows buf more fits =
      parse_fuel-Grows (suc (length buf)) (suc (length (buf ++ more))) buf more (omega arith)
        (omega arith) fits

-- What the parser has reported of a buffer, a value with its length, a malformed value or a panic,
-- it reports unchanged when more bytes have arrived: only a report that the value is incomplete is
-- provisional. The longer buffer is at most `isize::MAX` bytes long.
pub parse_extend :
    (build : Build) (buf more : Bytes)
    → parse build buf ≢ err incomplete
    → length (buf ++ more) ≤ max_isize
    → parse build (buf ++ more) ≡ parse build buf
parse_extend build buf more h fits = elim (parse-Grows build buf more fits) [
  | same e ↦ e
  | short e ↦ absurd (h e)
]
