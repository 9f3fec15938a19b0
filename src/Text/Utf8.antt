-- ===== src/Text/Utf8.antt =====
-- `std::str::from_utf8` and `String::from_utf8_lossy`: the standard's table of well-formed byte
-- sequences, as an automaton over the bytes.
pub mod Lossy
use ember.Prelude.{
  ℕ, ◌<◌, ◌≡◌, refl, Bool, true, false, ◌&&◌, List, [], ◌∷◌, ◌++◌, Option, none, some, arith, ltb,
  leb, ◌==◌, if◌then◌else◌, All,
}

-- How many continuation bytes are wanted, and the ranges that the first bytes E0, ED, F0 and F4
-- leave for the second.
pub data Utf8State : Type 0 where
  start tail1 tail2 tail3 after_e0 after_ed after_f0 after_f4 : Utf8State

within : ℕ → ℕ → ℕ → Bool
within lo hi b = leb lo b && leb b hi

lead : ℕ → Option Utf8State
lead b =
    if ltb b 0x80
    then some start
    else if within 0xc2 0xdf b
    then some tail1
    else if b == 0xe0
    then some after_e0
    else if b == 0xed
    then some after_ed
    else if within 0xe1 0xef b
    then some tail2
    else if b == 0xf0
    then some after_f0
    else if within 0xf1 0xf3 b
    then some tail3
    else if b == 0xf4
    then some after_f4
    else none

abbrev check : Bool → Utf8State → Option Utf8State
check b s = if b then some s else none

unfoldable pub utf8_step : Utf8State → ℕ → Option Utf8State
unfolding within lead
utf8_step start b = lead b
utf8_step tail1 b = check (within 0x80 0xbf b) start
utf8_step tail2 b = check (within 0x80 0xbf b) tail1
utf8_step tail3 b = check (within 0x80 0xbf b) tail2
utf8_step after_e0 b = check (within 0xa0 0xbf b) tail1
utf8_step after_ed b = check (within 0x80 0x9f b) tail1
utf8_step after_f0 b = check (within 0x90 0xbf b) tail2
utf8_step after_f4 b = check (within 0x80 0x8f b) tail2

unfoldable pub utf8_run : Utf8State → List ℕ → Option Utf8State
unfolding utf8_step
utf8_run state [] = some state
utf8_run state (b ∷ s) = elim (utf8_step state b) [ none ↦ none | some state' ↦ utf8_run state' s ]

abbrev pub is_start : Option Utf8State → Bool
is_start (some start) = true
is_start _ = false

abbrev pub IsUtf8 : List ℕ → Type 0
IsUtf8 s = utf8_run start s ≡ some start

unfoldable pub from_utf8 : List ℕ → Option (List ℕ)
from_utf8 s = if is_start (utf8_run start s) then some s else none

-- U+FFFD
abbrev replacement : List ℕ
replacement = 0xef ∷ 0xbf ∷ 0xbd ∷ []

-- One byte of the lossy decoder: what it writes, and the state and the pending bytes after it. A
-- sequence that breaks off is one U+FFFD, and the byte that broke it starts anew.
restart : ℕ → Option Utf8State → List ℕ × Utf8State × List ℕ
restart b none = (replacement, start, [])
restart b (some start) = (b ∷ [], start, [])
restart b (some state) = ([], state, b ∷ [])

lossy_step : Utf8State → List ℕ → ℕ → Option Utf8State → List ℕ × Utf8State × List ℕ
unfolding restart utf8_step
lossy_step state pending b (some start) = (pending ++ b ∷ [], start, [])
lossy_step state pending b (some state') = ([], state', pending ++ b ∷ [])
lossy_step start pending b none = (replacement, start, [])
lossy_step state pending b none =
    let (written, state', pending') = restart b (utf8_step start b) in
    (replacement ++ written, state', pending')

lossy : Utf8State → List ℕ → List ℕ → List ℕ
unfolding lossy_step
lossy start pending [] = []
lossy state pending [] = replacement
lossy state pending (b ∷ s) =
    let (written, state', pending') = lossy_step state pending b (utf8_step state b) in
    written ++ lossy state' pending' s

unfoldable pub from_utf8_lossy : List ℕ → List ℕ
unfolding lossy
from_utf8_lossy s = lossy start [] s

pub from_utf8-IsUtf8 : (s : List ℕ) → IsUtf8 s → from_utf8 s ≡ some s
unfolding from_utf8
from_utf8-IsUtf8 s h = rw h

-- What `from_utf8` returns is its argument, and well formed.
pub from_utf8_sound : (s : List ℕ) {t : List ℕ} → from_utf8 s ≡ some t → (s ≡ t) × IsUtf8 s
unfolding from_utf8
from_utf8_sound s h = ground arith

-- a byte below 128 is a character of its own
utf8_step_ascii : (b : ℕ) → b < 128 → utf8_step start b ≡ some start
unfolding utf8_step
utf8_step_ascii b h = ground arith

pub ascii-IsUtf8 : (s : List ℕ) → All (λ b. b < 128) s → IsUtf8 s
unfolding utf8_run
ascii-IsUtf8 [] h = refl
ascii-IsUtf8 (b ∷ s) (hb, hs) = rw (utf8_step_ascii b hb, utf8_run) (ascii-IsUtf8 s hs)
