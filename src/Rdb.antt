-- ===== src/Rdb.antt =====
-- src/rdb: the snapshot file, as its bytes, and the numbers in it.
pub mod Writer
pub mod Reader
pub mod RoundTrip
pub mod View
pub mod File
pub mod Expiry
use ember.Prelude.{ℕ, zero, suc, ◌+◌, ◌*◌, ◌/◌, ◌%◌, List, [], ◌∷◌}

-- What the two clocks return, in nanoseconds: `Instant::now`, and `SystemTime::now` since the epoch.
pub record Now : Type 0 where
  pub instant : ℕ
  pub system : ℕ

-- `to_be_bytes` of a `u32`
unfoldable pub to_be_bytes : ℕ → List ℕ
to_be_bytes n = n / 256 / 256 / 256 % 256 ∷ n / 256 / 256 % 256 ∷ n / 256 % 256 ∷ n % 256 ∷ []

unfoldable pub from_be_bytes : List ℕ → ℕ
from_be_bytes (a ∷ b ∷ c ∷ d ∷ []) = ((a * 256 + b) * 256 + c) * 256 + d
from_be_bytes _ = 0

-- `to_le_bytes` of a number of `k` bytes
unfoldable pub to_le_bytes : ℕ → ℕ → List ℕ
to_le_bytes zero n = []
to_le_bytes (suc k) n = n % 256 ∷ to_le_bytes k (n / 256)

unfoldable pub from_le_bytes : List ℕ → ℕ
from_le_bytes [] = 0
from_le_bytes (b ∷ bs) = b + 256 * from_le_bytes bs
