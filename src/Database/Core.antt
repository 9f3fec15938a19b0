-- ===== src/Database/Core.antt =====
-- The methods of `DB`, over any map that keeps the laws of `DashMap`. `now` is what `Instant::now`
-- returns to the call, in nanoseconds. A method returns its result and the store that it leaves;
-- it is run alone here, with no step of another task between its own.
pub mod View
pub mod Push
pub mod Expire
pub mod Sync
pub mod Range
pub mod Cycle
pub mod Total
use Prim.Native.Nat.{max}
use mathlib.Core.List.{reverse}
use ember.Prelude.{
  ℕ, zero, suc, ◌+◌, ◌*◌, Bool, true, false, ◌&&◌, not, List, [], ◌∷◌, ◌++◌, map, Option, none,
  some, ltb, leb, ◌==◌, if◌then◌else◌, length, take, drop, Result, ok, err, panic, out_of_fuel,
  ◌>>=◌,
}
use ember.Prelude.Int.{ℤ, is_neg}
use ember.Text.{Bytes, codes, str_eq}
use ember.Database.Map.{DashMap}
use ember.Database.Object.{RedisObject, Objects, string, list, to_list, from_list, nil_string}
use ember.Word.{usize_as_i32, i32_as_usize, add_i32}

abbrev pub Instant : Type 0
Instant = ℕ

pub record Db (dm : DashMap) : Type 0 where
  pub values : dm.Map RedisObject
  pub expirations : dm.Map Instant

-- what a method returns: a result, with the text of an error, and the store
abbrev pub Outcome : DashMap → Type 0 → Type 0
Outcome dm A = Result Bytes A × Db dm

abbrev pub sample_size : ℕ
sample_size = 20

module _ (dm : DashMap) where
  unfoldable pub new_in_memory : Db dm
  new_in_memory = record { values = dm.new; expirations = dm.new }

  unfoldable pub set : Bytes → RedisObject → Option Instant → Db dm → Outcome dm Unit
  set key val expires_at db =
      let db₁ : Db dm = record db { expirations = dm.remove db.expirations key } in
      let db₂ : Db dm = record db₁ { values = dm.insert db₁.values key val } in
      elim expires_at [
        | some exp ↦ (ok tt, record db₂ { expirations = dm.insert db₂.expirations key exp })
        | none ↦ (ok tt, db₂)
      ]

  abbrev pub purge : Bytes → Db dm → Db dm
  purge key db = record {
    values = dm.remove db.values key;
    expirations = dm.remove db.expirations key;
  }

  unfoldable pub is_expired : Instant → Bytes → Db dm → Bool
  is_expired now key db = elim (dm.get db.expirations key) [
    | some expires_at ↦ ltb expires_at now
    | none ↦ false
  ]

  -- the lazy expiration that `get` and `lrange` begin with: is the key to be dropped?
  unfoldable pub lazily_expired : Instant → Bytes → Db dm → Bool
  unfolding is_expired
  lazily_expired now key db = elim (dm.get db.expirations key) [
    | some exp ↦ is_expired now key db
    | none ↦ false
  ]

  abbrev pub read_value : Option RedisObject → Result Bytes RedisObject
  read_value (some ro) = ok ro
  read_value none = ok nil_string

  unfoldable pub get : Instant → Bytes → Db dm → Outcome dm RedisObject
  unfolding lazily_expired
  get now key db =
      if lazily_expired now key db
      then (ok nil_string, purge key db)
      else (read_value (dm.get db.values key), db)

  unfoldable pub delete : Bytes → Db dm → Outcome dm Unit
  delete key db = (ok tt, purge key db)

  abbrev wrong_type : Bytes
  wrong_type = codes "Wrong data type. Expected List, got String."

  -- `get_mut` writes through its guard: the key keeps its place and has a new value.
  abbrev write_value : Bytes → RedisObject → Db dm → Db dm
  write_value key val db = record db { values = dm.insert db.values key val }

  unfoldable pub lpush_at : Bytes → List RedisObject → Option RedisObject → Db dm → Outcome dm Unit
  lpush_at key vals none db = (ok tt, write_value key (list (from_list (reverse vals))) db)
  lpush_at key vals (some (list l)) db =
      (ok tt, write_value key (list (from_list (vals ++ to_list l))) db)
  lpush_at key vals (some (string s)) db = (err wrong_type, db)

  unfoldable pub lpush : Bytes → List RedisObject → Db dm → Outcome dm Unit
  unfolding lpush_at
  lpush key vals db = lpush_at key vals (dm.get db.values key) db

  unfoldable pub rpush_at : Bytes → List RedisObject → Option RedisObject → Db dm → Outcome dm Unit
  rpush_at key vals none db = (ok tt, write_value key (list (from_list vals)) db)
  rpush_at key vals (some (list l)) db =
      (ok tt, write_value key (list (from_list (to_list l ++ vals))) db)
  rpush_at key vals (some (string s)) db = (err wrong_type, db)

  unfoldable pub rpush : Bytes → List RedisObject → Db dm → Outcome dm Unit
  unfolding rpush_at
  rpush key vals db = rpush_at key vals (dm.get db.values key) db

-- `.enumerate().filter(lo <= idx && idx <= hi)`, from the index `idx` on
unfoldable pub in_range : ℕ → ℕ → ℕ → List RedisObject → List RedisObject
in_range lo hi idx [] = []
in_range lo hi idx (v ∷ vs) =
    let rest = in_range lo hi (suc idx) vs in if leb lo idx && leb idx hi then v ∷ rest else rest

-- a negative index counts from the end
unfoldable pub from_end : Bool → ℤ → ℕ → Result Bytes ℤ
from_end checks i len = if is_neg i then add_i32 checks i (usize_as_i32 len) else ok i

unfoldable pub lrange_of : Bool → ℤ → ℤ → Option RedisObject → Result Bytes RedisObject
unfolding in_range
lrange_of checks start stop none = ok nil_string
lrange_of checks start stop (some (string s)) = err (codes "Wrong type. Expected list.")
lrange_of checks start stop (some (list l)) = do
  lo ← from_end checks start (length (to_list l))
  hi ← from_end checks stop (length (to_list l))
  ok (list (from_list (in_range (i32_as_usize lo) (i32_as_usize hi) 0 (to_list l))))

abbrev entry_not_found : Bytes
entry_not_found = codes "Entry not found."

abbrev invalid_option : Bytes
invalid_option = codes "Invalid option for expire command."

-- `update_expiry` of `expire`, given whether the key has an expiration, and which; `none` is an
-- option that is not known
unfoldable pub update_expiry : Option Bytes → Instant → Bool → Option Instant → Option Bool
update_expiry none expires_at has_expiry old = some true
update_expiry (some opt) expires_at has_expiry old =
    if str_eq opt (codes "NX")
    then some (not has_expiry)
    else if str_eq opt (codes "XX")
    then some has_expiry
    else if str_eq opt (codes "GT")
    then some (elim old [ none ↦ false | some e ↦ ltb e expires_at ])
    else if str_eq opt (codes "LT")
    then some (elim old [ none ↦ false | some e ↦ ltb expires_at e ])
    else none

module _ (dm : DashMap) where
  unfoldable pub lrange : Bool → Instant → Bytes → ℤ → ℤ → Db dm → Outcome dm RedisObject
  unfolding lazily_expired lrange_of
  lrange checks now key start stop db =
      if lazily_expired dm now key db
      then (ok nil_string, purge dm key db)
      else (lrange_of checks start stop (dm.get db.values key), db)

  expire_if : Bytes → Instant → Option Bool → Db dm → Outcome dm Unit
  expire_if key expires_at none db = (err invalid_option, db)
  expire_if key expires_at (some false) db = (ok tt, db)
  expire_if key expires_at (some true) db =
      (ok tt, record db { expirations = dm.insert db.expirations key expires_at })

  unfoldable pub expire : Bytes → Instant → Option Bytes → Db dm → Outcome dm Unit
  unfolding expire_if update_expiry
  expire key expires_at option db =
      if not (dm.contains_key db.values key)
      then (err entry_not_found, db)
      else expire_if key expires_at
          (update_expiry option expires_at (dm.contains_key db.expirations key)
            (dm.get db.expirations key))
          db

  -- one key of the sample: is it expired, and the store without it
  purge_found : Instant → Bytes → Option Instant → Db dm → Bool × Db dm
  purge_found now key none db = (false, db)
  purge_found now key (some exp) db = if ltb exp now then (true, purge dm key db) else (false, db)

  unfoldable pub purge_expired : Instant → Bytes → Db dm → Bool × Db dm
  unfolding purge_found
  purge_expired now key db = purge_found now key (dm.get db.expirations key) db

  -- the loop over the sample, with the count of those that were expired
  unfoldable pub purge_sample : Instant → List Bytes → ℕ → Db dm → ℕ × Db dm
  unfolding purge_expired
  purge_sample now [] expired db = (expired, db)
  purge_sample now (key ∷ keys) expired db =
      let (hit, db') = purge_expired now key db in
      purge_sample now keys (if hit then suc expired else expired) db'

  unfoldable pub sample : ℕ → Db dm → List Bytes
  sample skip db = take sample_size (drop skip (map (λ e. e.0) (dm.iter db.expirations)))

  -- Each round has its own `Instant::now` and its own draw below the number of entries. The ratio
  -- of two numbers up to 20 is above 0.25, as `f64` too, exactly if four times the first is above
  -- the second. `none` means that the fuel ran out.
  unfoldable pub active_expiration_cycle : ℕ → (ℕ → Instant) → (ℕ → ℕ → ℕ) → Db dm → Option (Db dm)
  unfolding purge_sample sample
  active_expiration_cycle zero clock draw db = none
  active_expiration_cycle (suc fuel) clock draw db =
      let total = dm.len db.expirations in
      let sampled = sample (draw 0 total) db in
      let (expired, db') = purge_sample (clock 0) sampled 0 db in
      let checked = max (length sampled) 1 in
      let again = active_expiration_cycle fuel (λ i. clock (suc i)) (λ i. draw (suc i)) db' in
      if total == 0 then some db else if ltb checked (4 * expired) then again else some db'

  -- `active_expiration_task`, for a number of its rounds from the i-th on. `others i` is what the
  -- other tasks do to the store while it sleeps behind the i-th. A cycle has a unit of fuel more
  -- than there are expirations.
  unfoldable pub active_expiration_task :
      (ℕ → ℕ → Instant) → (ℕ → ℕ → ℕ → ℕ) → (ℕ → Db dm → Db dm) → ℕ → ℕ → Db dm → Option (Db dm)
  active_expiration_task clock draw others zero i db = some db
  active_expiration_task clock draw others (suc rounds) i db =
      elim (active_expiration_cycle (suc (dm.len db.expirations)) (clock i) (draw i) db) [
        | none ↦ none
        | some db' ↦ active_expiration_task clock draw others rounds (suc i) (others i db')
      ]
