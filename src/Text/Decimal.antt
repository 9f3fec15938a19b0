-- ===== src/Text/Decimal.antt =====
-- Decimal numbers: `Display` of the integer types, and `parse::<usize>` and the like.
pub mod RoundTrip
use ember.Prelude.{
  ℕ, zero, suc, ◌+◌, ◌-◌, ◌*◌, ◌/◌, ◌%◌, ◌^◌, Bool, true, false, ◌&&◌, List, [], ◌∷◌, ◌++◌, Option,
  none, some, ltb, leb, ◌==◌, if◌then◌else◌, ◌≡◌, refl,
}
use ember.Prelude.Int.{ℤ, pos, negsuc}

-- One digit for each unit of fuel; `n + 1` units are enough for `n`.
unfoldable pub digits : ℕ → ℕ → List ℕ
digits zero n = []
digits (suc fuel) n = elim (ltb n 10) [
  | true ↦ (b'0' + n) ∷ []
  | false ↦ digits fuel (n / 10) ++ (b'0' + n % 10) ∷ []
]

unfoldable pub format_usize : ℕ → List ℕ
unfolding digits
format_usize n = digits (suc n) n

unfoldable pub format_int : ℤ → List ℕ
unfolding format_usize
format_int (pos n) = format_usize n
format_int (negsuc n) = b'-' ∷ format_usize (suc n)

abbrev is_digit : ℕ → Bool
is_digit c = leb b'0' c && leb c b'9'

-- The checked accumulation: `none` as soon as the value passes `limit`.
unfoldable pub scan : ℕ → ℕ → List ℕ → Option ℕ
scan limit acc [] = some acc
scan limit acc (c ∷ s) =
    let acc' = acc * 10 + (c - b'0') in
    elim (is_digit c && leb acc' limit) [ true ↦ scan limit acc' s | false ↦ none ]

unfoldable pub scan_digits : ℕ → List ℕ → Option ℕ
unfolding scan
scan_digits limit [] = none
scan_digits limit (c ∷ s) = scan limit 0 (c ∷ s)

-- `parse` of an unsigned type with the greatest value `limit`: a `+` may stand in front.
unfoldable pub parse_unsigned : ℕ → List ℕ → Option ℕ
unfolding scan_digits
parse_unsigned limit [] = none
parse_unsigned limit (c ∷ s) = if c == b'+' then scan_digits limit s else scan_digits limit (c ∷ s)

abbrev negated : Option ℕ → Option ℤ
negated none = none
negated (some zero) = some (pos 0)
negated (some (suc n)) = some (negsuc n)

abbrev nonnegative : Option ℕ → Option ℤ
nonnegative none = none
nonnegative (some n) = some (pos n)

-- `parse` of a signed type with the values from `- limit - 1` to `limit`.
unfoldable pub parse_signed : ℕ → List ℕ → Option ℤ
unfolding scan_digits
parse_signed limit [] = none
parse_signed limit (c ∷ s) =
    if c == b'-'
    then negated (scan_digits (suc limit) s)
    else if c == b'+'
    then nonnegative (scan_digits limit s)
    else nonnegative (scan_digits limit (c ∷ s))

abbrev pub max_usize : ℕ
max_usize = 2 ^ 64 - 1

abbrev pub max_i64 : ℕ
max_i64 = 2 ^ 63 - 1

abbrev pub max_i32 : ℕ
max_i32 = 2 ^ 31 - 1

abbrev pub max_u16 : ℕ
max_u16 = 2 ^ 16 - 1
