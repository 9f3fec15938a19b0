-- ===== src/Database/Core/Total.antt =====
-- No method of the store is out of fuel.
use ember.Prelude.{
  ℕ, ◌≢◌, Bool, true, false, not, ◌+◌, List, Option, none, some, if◌then◌else◌, Result, out_of_fuel,
  Ensures, holds, failed, panicked, Ensures-bind, Ensures-if, Ensures-out_of_fuel,
}
use ember.Prelude.Int.{ℤ, is_neg, sub_ℕ, pos_part, neg_part}
use ember.Text.{Bytes}
use ember.Word.{add_i32, checked_i32, fits_i32}
use ember.Database.Map.{DashMap}
use ember.Database.Object.{RedisObject, string, list}
use ember.Database.Core.{
  Instant, Db, set, get, delete, lpush, rpush, lpush_at, rpush_at, lrange, lrange_of, from_end,
  expire, expire_if, lazily_expired, read_value,
}

abbrev Any {ℓ} : {A : Type ℓ} → A → Type 0
Any _ = Unit

checked_i32-Ensures : (checks : Bool) (z : ℤ) → Ensures Any (checked_i32 checks z)
checked_i32-Ensures checks z =
    Ensures-if (fits_i32 z) (λ _. holds tt) λ _. Ensures-if checks (λ _. panicked) (λ _. holds tt)

add_i32-Ensures : (checks : Bool) (a b : ℤ) → Ensures Any (add_i32 checks a b)
unfolding add_i32
add_i32-Ensures checks a b =
    checked_i32-Ensures checks (sub_ℕ (pos_part a + pos_part b) (neg_part a + neg_part b))

from_end-Ensures : (checks : Bool) (i : ℤ) (len : ℕ) → Ensures Any (from_end checks i len)
unfolding from_end
from_end-Ensures checks i len =
    Ensures-if (is_neg i) (λ _. add_i32-Ensures checks i _) (λ _. holds tt)

lrange_of-Ensures :
    (checks : Bool) (start stop : ℤ) (o : Option RedisObject)
    → Ensures Any (lrange_of checks start stop o)
unfolding lrange_of
lrange_of-Ensures checks start stop none = holds tt
lrange_of-Ensures checks start stop (some (string s)) = failed
lrange_of-Ensures checks start stop (some (list l)) =
    Ensures-bind (from_end-Ensures checks start _)
      λ lo _. Ensures-bind (from_end-Ensures checks stop _) λ hi _. holds tt

module _ (dm : DashMap) where
  if-fuel :
      {A : Type 0} (b : Bool) (x y : Result Bytes A × Db dm)
      → x.0 ≢ out_of_fuel
      → y.0 ≢ out_of_fuel
      → (if b then x else y).0 ≢ out_of_fuel
  if-fuel true x y hx hy = hx
  if-fuel false x y hx hy = hy

  pub set-fuel :
      (key : Bytes) (val : RedisObject) (e : Option Instant) (db : Db dm)
      → (set dm key val e db).0 ≢ out_of_fuel
  unfolding set
  set-fuel key val none db = cc
  set-fuel key val (some e) db = cc

  read_value-fuel : (o : Option RedisObject) → read_value dm o ≢ out_of_fuel
  read_value-fuel none = cc
  read_value-fuel (some v) = cc

  pub get-fuel : (now : Instant) (key : Bytes) (db : Db dm) → (get dm now key db).0 ≢ out_of_fuel
  unfolding get
  get-fuel now key db = if-fuel (lazily_expired dm now key db) _ _ (cc) (read_value-fuel _)

  pub delete-fuel : (key : Bytes) (db : Db dm) → (delete dm key db).0 ≢ out_of_fuel
  unfolding delete
  delete-fuel key db = cc

  lpush_at-fuel :
      (key : Bytes) (vals : List RedisObject) (o : Option RedisObject) (db : Db dm)
      → (lpush_at dm key vals o db).0 ≢ out_of_fuel
  unfolding lpush_at
  lpush_at-fuel key vals none db = cc
  lpush_at-fuel key vals (some (list l)) db = cc
  lpush_at-fuel key vals (some (string s)) db = cc

  rpush_at-fuel :
      (key : Bytes) (vals : List RedisObject) (o : Option RedisObject) (db : Db dm)
      → (rpush_at dm key vals o db).0 ≢ out_of_fuel
  unfolding rpush_at
  rpush_at-fuel key vals none db = cc
  rpush_at-fuel key vals (some (list l)) db = cc
  rpush_at-fuel key vals (some (string s)) db = cc

  pub lpush-fuel :
      (key : Bytes) (vals : List RedisObject) (db : Db dm) → (lpush dm key vals db).0 ≢ out_of_fuel
  unfolding lpush
  lpush-fuel key vals db = lpush_at-fuel key vals _ db

  pub rpush-fuel :
      (key : Bytes) (vals : List RedisObject) (db : Db dm) → (rpush dm key vals db).0 ≢ out_of_fuel
  unfolding rpush
  rpush-fuel key vals db = rpush_at-fuel key vals _ db

  pub lrange-fuel :
      (checks : Bool) (now : Instant) (key : Bytes) (start stop : ℤ) (db : Db dm)
      → (lrange dm checks now key start stop db).0 ≢ out_of_fuel
  unfolding lrange
  lrange-fuel checks now key start stop db =
      if-fuel (lazily_expired dm now key db) _ _ (cc)
        (Ensures-out_of_fuel (lrange_of-Ensures checks start stop (dm.get db.values key)))

  expire_if-fuel :
      (key : Bytes) (t : Instant) (o : Option Bool) (db : Db dm)
      → (expire_if dm key t o db).0 ≢ out_of_fuel
  unfolding expire_if
  expire_if-fuel key t none db = cc
  expire_if-fuel key t (some true) db = cc
  expire_if-fuel key t (some false) db = cc

  pub expire-fuel :
      (key : Bytes) (t : Instant) (o : Option Bytes) (db : Db dm)
      → (expire dm key t o db).0 ≢ out_of_fuel
  unfolding expire
  expire-fuel key t o db =
      if-fuel (not (dm.contains_key db.values key)) _ _ (cc) (expire_if-fuel key t _ db)
