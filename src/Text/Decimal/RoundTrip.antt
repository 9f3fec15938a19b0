-- ===== src/Text/Decimal/RoundTrip.antt =====
-- Printed numbers are read back.
use ember.Prelude.{
  ℕ, zero, suc, ◌+◌, ◌-◌, ◌*◌, ◌/◌, ◌%◌, ◌≤◌, ◌<◌, ◌≡◌, refl, ◌≢◌, inl, inr, List, [], ◌∷◌, ◌++◌,
  Option, none, some, arith, ltb, Bool-cases, All, All-append,
}
use ember.Prelude.Int.{ℤ, pos, negsuc}
use ember.Text.Decimal.{
  digits, format_usize, format_int, scan, scan_digits, parse_unsigned, parse_signed,
}

abbrev pub IsDigit : ℕ → Type 0
IsDigit c = (b'0' ≤ c) × (c ≤ b'9')

abbrev then_scan : ℕ → Option ℕ → List ℕ → Option ℕ
then_scan limit none s = none
then_scan limit (some acc) s = scan limit acc s

scan-append :
    (limit acc : ℕ) (s t : List ℕ) → scan limit acc (s ++ t) ≡ then_scan limit (scan limit acc s) t
unfolding scan
scan-append limit acc [] t = refl
scan-append limit acc (c ∷ s) t = ground (arith, scan-append limit (acc * 10 + (c - b'0')) s t)

-- reading the last digit of `n` after the digits before it gives `n`
scan_last : (limit n : ℕ) → n ≤ limit → scan limit (n / 10) ((b'0' + n % 10) ∷ []) ≡ some n
unfolding scan
scan_last limit n h = ground arith

scan_only : (limit n : ℕ) → n ≤ limit → n < 10 → scan limit 0 ((b'0' + n) ∷ []) ≡ some n
unfolding scan
scan_only limit n h small = ground arith

pub scan-digits : (limit f n : ℕ) → n < f → n ≤ limit → scan limit 0 (digits f n) ≡ some n
unfolding digits
scan-digits limit zero n lt h = absurd (omega arith)
scan-digits limit (suc f) n lt h = elim (Bool-cases (ltb n 10)) [
  | inl small ↦ rw (small, digits) (scan_only limit n h (ground arith))
  | inr large ↦
      rw (large, digits)
        (rw scan-append
          (rw (scan-digits limit f (n / 10) (ground arith) (omega arith)) (scan_last limit n h)))
]

digits-IsDigit : (f n : ℕ) → All IsDigit (digits f n)
unfolding digits
digits-IsDigit zero n = tt
digits-IsDigit (suc f) n = elim (Bool-cases (ltb n 10)) [
  | inl small ↦ rw (small, digits) (ground arith)
  | inr large ↦
      rw (large, digits) (All-append IsDigit _ _ (digits-IsDigit f (n / 10)) (omega arith))
]

pub format_usize-IsDigit : (n : ℕ) → All IsDigit (format_usize n)
unfolding format_usize
format_usize-IsDigit n = digits-IsDigit (suc n) n

append-ne-nil : (s : List ℕ) (c : ℕ) → s ++ c ∷ [] ≢ []
append-ne-nil [] c = cc
append-ne-nil (a ∷ s) c = cc

digits-ne-nil : (f n : ℕ) → digits (suc f) n ≢ []
unfolding digits
digits-ne-nil f n = elim (Bool-cases (ltb n 10)) [
  | inl small ↦ rw (small, digits) (cc)
  | inr large ↦ rw (large, digits) (append-ne-nil _ _)
]

pub format_usize-ne-nil : (n : ℕ) → format_usize n ≢ []
unfolding format_usize
format_usize-ne-nil n = digits-ne-nil n n

scan_digits-scan : (limit : ℕ) (s : List ℕ) → s ≢ [] → scan_digits limit s ≡ scan limit 0 s
unfolding scan_digits
scan_digits-scan limit [] h = absurd (h refl)
scan_digits-scan limit (c ∷ s) h = refl

pub scan_digits-format : (limit n : ℕ) → n ≤ limit → scan_digits limit (format_usize n) ≡ some n
unfolding format_usize
scan_digits-format limit n h =
    rw (scan_digits-scan limit _ (digits-ne-nil n n)) (scan-digits limit (suc n) n (omega arith) h)

-- a text of digits has no sign
parse_unsigned-scan_digits :
    (limit : ℕ) (s : List ℕ) → All IsDigit s → parse_unsigned limit s ≡ scan_digits limit s
unfolding parse_unsigned
parse_unsigned-scan_digits limit [] h = refl
parse_unsigned-scan_digits limit (c ∷ s) h = ground arith

pub parse_unsigned-format :
    (limit n : ℕ) → n ≤ limit → parse_unsigned limit (format_usize n) ≡ some n
parse_unsigned-format limit n h =
    rw (parse_unsigned-scan_digits limit _ (format_usize-IsDigit n)) (scan_digits-format limit n h)

parse_signed-scan_digits :
    (limit n : ℕ) (s : List ℕ)
    → All IsDigit s
    → scan_digits limit s ≡ some n
    → parse_signed limit s ≡ some (pos n)
unfolding parse_signed
parse_signed-scan_digits limit n [] h e = cc
parse_signed-scan_digits limit n (c ∷ s) h e = ground arith

-- The values that fit a signed type whose greatest is `limit`.
abbrev pub Fits : ℕ → ℤ → Type 0
Fits limit (pos n) = n ≤ limit
Fits limit (negsuc n) = n ≤ limit

pub parse_signed-format :
    (limit : ℕ) (z : ℤ) → Fits limit z → parse_signed limit (format_int z) ≡ some z
unfolding format_int
parse_signed-format limit (pos n) h =
    parse_signed-scan_digits limit n (format_usize n) (format_usize-IsDigit n)
      (scan_digits-format limit n h)
parse_signed-format limit (negsuc n) h =
    unfold parse_signed in rw (scan_digits-format (suc limit) (suc n) (omega arith))
