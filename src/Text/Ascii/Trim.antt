-- ===== src/Text/Ascii/Trim.antt =====
-- `trim` leaves a text of visible ASCII characters as it is; `to_ascii_uppercase` is idempotent.
use mathlib.Core.List.{reverse, reverse-reverse, reverse-cons, flatten}
use ember.Prelude.{ℕ, ◌<◌, ◌≡◌, refl, ap, List, [], ◌∷◌, ◌++◌, map, arith, All, All-append}
use ember.Text.Ascii.{
  ascii_upper, to_ascii_uppercase, chars, join_char, is_continuation, is_whitespace,
  drop_whitespace, trim,
}

-- neither white space nor a control character nor beyond ASCII
abbrev pub IsVisible : ℕ → Type 0
IsVisible c = (32 < c) × (c < 127)

abbrev single : ℕ → List ℕ
single c = c ∷ []

join_char-single :
    (b : ℕ) (s : List ℕ) → All IsVisible s → join_char b (map single s) ≡ single b ∷ map single s
unfolding join_char is_continuation
join_char-single b [] h = refl
join_char-single b (c ∷ s) h = ground arith

chars-IsVisible : (s : List ℕ) → All IsVisible s → chars s ≡ map single s
unfolding chars
chars-IsVisible [] h = refl
chars-IsVisible (c ∷ s) (hc, hs) = rw (chars-IsVisible s hs) (join_char-single c s hs)

drop_whitespace-single :
    (s : List ℕ) → All IsVisible s → drop_whitespace (map single s) ≡ map single s
unfolding drop_whitespace is_whitespace
drop_whitespace-single [] h = refl
drop_whitespace-single (c ∷ s) h = ground arith

map-single_append : (s : List ℕ) (c : ℕ) → map single s ++ single c ∷ [] ≡ map single (s ++ c ∷ [])
map-single_append [] c = refl
map-single_append (a ∷ s) c = ap (λ r. single a ∷ r) (map-single_append s c)

reverse-single : (s : List ℕ) → reverse (map single s) ≡ map single (reverse s)
reverse-single [] = refl
reverse-single (c ∷ s) =
    rw (reverse-cons (single c) (map single s), reverse-single s, reverse-cons c s)
      (map-single_append (reverse s) c)

All-reverse : (s : List ℕ) → All IsVisible s → All IsVisible (reverse s)
All-reverse [] h = tt
All-reverse (c ∷ s) (hc, hs) =
    rw (reverse-cons c s) (All-append IsVisible (reverse s) (c ∷ []) (All-reverse s hs) (hc, tt))

flatten-single : (s : List ℕ) → flatten (map single s) ≡ s
unfolding flatten
flatten-single [] = refl
flatten-single (c ∷ s) = ap (λ r. c ∷ r) (flatten-single s)

pub trim-IsVisible : (s : List ℕ) → All IsVisible s → trim s ≡ s
unfolding trim
trim-IsVisible s h =
    rw
      (
        chars-IsVisible s h,
        drop_whitespace-single s h,
        reverse-single s,
        drop_whitespace-single (reverse s) (All-reverse s h),
        reverse-single (reverse s),
        reverse-reverse s,
      )
      (flatten-single s)

pub to_ascii_uppercase-to_ascii_uppercase :
    (s : List ℕ) → to_ascii_uppercase (to_ascii_uppercase s) ≡ to_ascii_uppercase s
unfolding to_ascii_uppercase ascii_upper
to_ascii_uppercase-to_ascii_uppercase [] = refl
to_ascii_uppercase-to_ascii_uppercase (c ∷ s) =
    ground (arith, to_ascii_uppercase-to_ascii_uppercase s)
