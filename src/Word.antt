-- ===== src/Word.antt =====
-- `i32` arithmetic, and the casts between `i32` and the 64-bit types. An `i32` is its value, an integer in range.
use ember.Prelude.{ℕ, suc, ◌+◌, ◌-◌, ◌*◌, ◌%◌, ◌^◌, Bool, ltb, leb, if◌then◌else◌}
use ember.Prelude.{Result, ok, panic}
use ember.Prelude.Int.{ℤ, pos, negsuc, pos_part, neg_part, sub_ℕ}
use ember.Text.{Bytes}
use ember.Text.Decimal.{max_i32}

-- the value of a pattern of 32 bits
abbrev pub signed32 : ℕ → ℤ
signed32 w = if ltb w (2 ^ 31) then pos w else negsuc (2 ^ 32 - w - 1)

-- the 32 low bits of an integer in two's complement
abbrev pub low32 : ℤ → ℕ
low32 (pos n) = n % 2 ^ 32
low32 (negsuc n) = 2 ^ 32 - 1 - n % 2 ^ 32

-- `n as i32` of a `usize`
unfoldable pub usize_as_i32 : ℕ → ℤ
usize_as_i32 n = signed32 (n % 2 ^ 32)

-- `z as usize` and `z as u64`: a negative value is extended with ones
unfoldable pub i32_as_usize : ℤ → ℕ
i32_as_usize (pos n) = n
i32_as_usize (negsuc n) = 2 ^ 64 - 1 - n

abbrev pub fits_i32 : ℤ → Bool
fits_i32 (pos n) = leb n max_i32
fits_i32 (negsuc n) = leb n max_i32

-- a result that is out of range panics or wraps around
abbrev pub checked_i32 : Bool → ℤ → Result Bytes ℤ
checked_i32 checks z =
    if fits_i32 z then ok z else if checks then panic else ok (signed32 (low32 z))

unfoldable pub add_i32 : Bool → ℤ → ℤ → Result Bytes ℤ
add_i32 checks a b = checked_i32 checks (sub_ℕ (pos_part a + pos_part b) (neg_part a + neg_part b))

unfoldable pub mul_i32 : Bool → ℤ → ℕ → Result Bytes ℤ
mul_i32 checks (pos n) k = checked_i32 checks (pos (n * k))
mul_i32 checks (negsuc n) k = checked_i32 checks (sub_ℕ 0 (suc n * k))
