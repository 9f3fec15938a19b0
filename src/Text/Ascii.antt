-- ===== src/Text/Ascii.antt =====
-- `to_ascii_uppercase`, `split_whitespace` and `trim`.
pub mod Trim
use Prim.Native.Nat.{zero, suc}
use mathlib.Core.List.{reverse, flatten}
use ember.Prelude.{
  ℕ, ◌-◌, Bool, true, false, ◌&&◌, ◌||◌, List, [], ◌∷◌, ◌++◌, map, ◌≡◌, refl, ltb, leb, ◌==◌,
  if◌then◌else◌,
}

is_lower : ℕ → Bool
is_lower c = leb b'a' c && leb c b'z'

unfoldable pub ascii_upper : ℕ → ℕ
unfolding is_lower
ascii_upper c = if is_lower c then c - 32 else c

unfoldable pub to_ascii_uppercase : List ℕ → List ℕ
unfolding ascii_upper
to_ascii_uppercase = map ascii_upper

-- A byte of the form 10xxxxxx goes on with the character before it.
is_continuation : ℕ → Bool
is_continuation b = leb 0x80 b && leb b 0xbf

-- The first argument is the byte that stands in front of the characters.
join_char : ℕ → List (List ℕ) → List (List ℕ)
join_char b [] = (b ∷ []) ∷ []
join_char b ([] ∷ cs) = (b ∷ []) ∷ cs
join_char b ((c ∷ s) ∷ cs) = if is_continuation c then (b ∷ c ∷ s) ∷ cs else (b ∷ []) ∷ (c ∷ s) ∷ cs

-- The characters of a string, each as its bytes.
unfoldable pub chars : List ℕ → List (List ℕ)
unfolding join_char is_continuation
chars [] = []
chars (b ∷ s) = join_char b (chars s)

-- `char::is_whitespace`, the property White_Space, on a character's bytes: U+0009 to U+000D,
-- U+0020, U+0085, U+00A0, U+1680, U+2000 to U+200A, U+2028, U+2029, U+202F, U+205F and U+3000.
unfoldable pub is_whitespace : List ℕ → Bool
is_whitespace (a ∷ []) = leb 9 a && leb a 13 || a == 32
is_whitespace (a ∷ b ∷ []) = a == 0xc2 && (b == 0x85 || b == 0xa0)
is_whitespace (a ∷ b ∷ c ∷ []) =
    (a == 0xe1 && b == 0x9a && c == 0x80)
    || (a == 0xe2 && b == 0x80 && (leb 0x80 c && leb c 0x8a || c == 0xa8 || c == 0xa9 || c == 0xaf))
    || (a == 0xe2 && b == 0x81 && c == 0x9f)
    || (a == 0xe3 && b == 0x80 && c == 0x80)
is_whitespace _ = false

-- a word that is complete goes in front of the words behind it, if it is not empty
push_word : List ℕ → List (List ℕ) → List (List ℕ)
push_word [] words = words
push_word (c ∷ w) words = (c ∷ w) ∷ words

split_words : List (List ℕ) → List ℕ → List (List ℕ)
unfolding push_word
split_words [] word = push_word word []
split_words (c ∷ cs) word = elim (is_whitespace c) [
  | true ↦ push_word word (split_words cs [])
  | false ↦ split_words cs (word ++ c)
]

unfoldable pub split_whitespace : List ℕ → List (List ℕ)
unfolding split_words chars is_whitespace
split_whitespace s = split_words (chars s) []

drop_whitespace : List (List ℕ) → List (List ℕ)
drop_whitespace [] = []
drop_whitespace (c ∷ cs) = if is_whitespace c then drop_whitespace cs else c ∷ cs

unfoldable pub trim : List ℕ → List ℕ
unfolding drop_whitespace chars is_whitespace flatten
trim s = flatten (reverse (drop_whitespace (reverse (drop_whitespace (chars s)))))
