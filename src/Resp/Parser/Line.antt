-- ===== src/Resp/Parser/Line.antt =====
-- `read_until_crlf`: what it finds, and that it finds what was written.
use ember.Prelude.{
  ℕ, ◌+◌, ◌≡◌, ◌≢◌, refl, ap, inl, inr, true, false, ◌&&◌, Option, none, some, [], ◌∷◌, ◌++◌, arith,
  ◌==◌, length, length-append, drop, Bool-cases, All, Ensures, holds, failed, ok, ◌≤◌,
}
use ember.Text.{Bytes}
use ember.Text.Decimal.RoundTrip.{IsDigit}
use ember.Resp.Types.{crlf}
use ember.Resp.Parser.{read_until_crlf, shift, line_of, or_incomplete}

-- What is found: the bytes stand in front, and a CRLF behind them.
abbrev Found : Bytes → Option (Bytes × ℕ) → Type 0
Found s none = Unit
Found s (some (d, n)) = (n ≡ length d + 2) × (s ≡ d ++ (crlf ++ drop n s))

Found-shift : (a : ℕ) (s : Bytes) (o : Option (Bytes × ℕ)) → Found s o → Found (a ∷ s) (shift a o)
Found-shift a s none h = tt
Found-shift a s (some (d, n)) (len, e) = (omega arith, ap (λ r. a ∷ r) e)

Found-here :
    (a b : ℕ) (s : Bytes) → (a == b'\r' && b == b'\n') ≡ true → Found (a ∷ b ∷ s) (some ([], 2))
Found-here a b s h = (refl, ground arith)

read_until_crlf-Found : (s : Bytes) → Found s (read_until_crlf s)
unfolding read_until_crlf
read_until_crlf-Found [] = tt
read_until_crlf-Found (a ∷ []) = tt
read_until_crlf-Found (a ∷ b ∷ s) = elim (Bool-cases (a == b'\r' && b == b'\n')) [
  | inl found ↦ rw (found, read_until_crlf, Found) (Found-here a b s found)
  | inr other ↦
      rw (other, read_until_crlf, Found) (Found-shift a (b ∷ s) _ (read_until_crlf-Found (b ∷ s)))
]

pub read_until_crlf_sound :
    (s : Bytes) {d : Bytes} {n : ℕ}
    → read_until_crlf s ≡ some (d, n)
    → (n ≡ length d + 2) × (s ≡ d ++ (crlf ++ drop n s))
read_until_crlf_sound s h = rw h at (read_until_crlf-Found s)

-- A text without a CRLF, which a reply's line can hold.
abbrev pub HasNoCrlf : Bytes → Type 0
HasNoCrlf d = read_until_crlf d ≡ none

shift-eq-none : (a : ℕ) (o : Option (Bytes × ℕ)) → shift a o ≡ none → o ≡ none
shift-eq-none a none h = refl
shift-eq-none a (some (d, n)) h = cc

-- A text without a CRLF is read back up to the CRLF that follows it.
pub read_until_crlf-append :
    (d rest : Bytes) → HasNoCrlf d → read_until_crlf (d ++ (crlf ++ rest)) ≡ some (d, length d + 2)
unfolding read_until_crlf
read_until_crlf-append [] rest h = refl
read_until_crlf-append (a ∷ []) rest h = ground arith
read_until_crlf-append (a ∷ b ∷ d) rest h =
    ground (arith, shift-eq-none a (read_until_crlf (b ∷ d)), read_until_crlf-append (b ∷ d) rest)

digit_not_cr : (a b : ℕ) → IsDigit a → (a == b'\r' && b == b'\n') ≡ false
digit_not_cr a b h = ground arith

pub IsDigit-HasNoCrlf : (d : Bytes) → All IsDigit d → HasNoCrlf d
unfolding read_until_crlf
IsDigit-HasNoCrlf [] h = refl
IsDigit-HasNoCrlf (a ∷ []) h = refl
IsDigit-HasNoCrlf (a ∷ b ∷ d) (ha, hd) =
    rw (digit_not_cr a b ha, read_until_crlf, IsDigit-HasNoCrlf (b ∷ d) hd)

pub HasNoCrlf-cons : (a : ℕ) (d : Bytes) → a ≢ b'\r' → HasNoCrlf d → HasNoCrlf (a ∷ d)
unfolding read_until_crlf
HasNoCrlf-cons a [] ne h = refl
HasNoCrlf-cons a (b ∷ d) ne h = ground arith

pub line_of-append :
    (d rest : Bytes) → HasNoCrlf d → line_of (d ++ (crlf ++ rest)) ≡ ok (d, length d + 2)
unfolding line_of
line_of-append d rest h = rw (line_of, read_until_crlf-append d rest h)

-- A line that is read lies within the buffer.
abbrev pub LineIn : Bytes → Bytes × ℕ → Type 0
LineIn buf (_, n) = (2 ≤ n) × (n ≤ length buf)

or_incomplete-LineIn :
    (buf : Bytes) (o : Option (Bytes × ℕ)) → Found buf o → Ensures (LineIn buf) (or_incomplete o)
unfolding or_incomplete
or_incomplete-LineIn buf none h = failed
or_incomplete-LineIn buf (some (d, n)) (len, e) = holds (
    omega
      (arith, ap length e, length-append d (crlf ++ drop n buf), length-append crlf (drop n buf)))

pub line_of-Ensures : (buf : Bytes) → Ensures (LineIn buf) (line_of buf)
unfolding line_of
line_of-Ensures buf = or_incomplete-LineIn buf _ (read_until_crlf-Found buf)
