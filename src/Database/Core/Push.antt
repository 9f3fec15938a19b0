-- ===== src/Database/Core/Push.antt =====
-- `lpush` and `rpush` as a client sees them, on a key that is not expired.
use mathlib.Core.List.{reverse}
use ember.Prelude.{
  ◌≡◌, refl, true, false, List, ◌++◌, Option, none, some, arith, if◌then◌else◌, Result, ok, err,
}
use ember.Text.{Bytes, codes, str_eq, str_eq_iff}
use ember.Database.Map.{DashMap}
use ember.Database.Object.{RedisObject, string, list, to_list, from_list}
use ember.Database.Core.{Instant, Db, lpush, rpush, lpush_at, rpush_at}
use ember.Database.Core.View.{past, live}

-- A push makes `fresh` the list of a key that holds nothing, changes a list by `f`, and leaves a
-- string alone, with an error.
abbrev pub pushed :
    List RedisObject
    → (List RedisObject → List RedisObject)
    → Option RedisObject
    → Option RedisObject
pushed fresh f none = some (list (from_list fresh))
pushed fresh f (some (list l)) = some (list (from_list (f (to_list l))))
pushed fresh f (some (string s)) = some (string s)

abbrev pub push_result : Option RedisObject → Result Bytes (Unit {0})
push_result (some (string s)) = err (codes "Wrong data type. Expected List, got String.")
push_result (some (list l)) = ok tt
push_result none = ok tt

module _ (dm : DashMap) (later : Instant) (key : Bytes) (vals : List RedisObject) where
  -- what the push does to the reader's view, and what it returns
  abbrev pub Pushes :
      Db dm
      → List RedisObject
      → (List RedisObject → List RedisObject)
      → Option RedisObject
      → Result Bytes (Unit {0}) × Db dm
      → Type 0
  Pushes db fresh f held (result, db') =
      (result ≡ push_result held)
      × ((j : Bytes)
          → live dm later db' j
            ≡ (if str_eq key j then pushed fresh f held else live dm later db j))

  live-not_past :
      (db : Db dm)
      → past later (dm.get db.expirations key) ≡ false
      → live dm later db key ≡ dm.get db.values key
  unfolding live
  live-not_past db h = rw h

  rpush_at-Pushes :
      (db : Db dm) (o : Option RedisObject)
      → dm.get db.values key ≡ o
      → past later (dm.get db.expirations key) ≡ false
      → Pushes db vals (λ l. l ++ vals) o (rpush_at dm key vals o db)
  unfolding rpush_at live
  rpush_at-Pushes db none e h = (refl, λ j. simp dm.get-insert (ground (arith, str_eq_iff key j)))
  rpush_at-Pushes db (some (list l)) e h =
      (refl, λ j. simp dm.get-insert (ground (arith, str_eq_iff key j)))
  rpush_at-Pushes db (some (string s)) e h = (refl, λ j. ground (arith, str_eq_iff key j))

  lpush_at-Pushes :
      (db : Db dm) (o : Option RedisObject)
      → dm.get db.values key ≡ o
      → past later (dm.get db.expirations key) ≡ false
      → Pushes db (reverse vals) (λ l. vals ++ l) o (lpush_at dm key vals o db)
  unfolding lpush_at live
  lpush_at-Pushes db none e h = (refl, λ j. simp dm.get-insert (ground (arith, str_eq_iff key j)))
  lpush_at-Pushes db (some (list l)) e h =
      (refl, λ j. simp dm.get-insert (ground (arith, str_eq_iff key j)))
  lpush_at-Pushes db (some (string s)) e h = (refl, λ j. ground (arith, str_eq_iff key j))

  -- On a key that is not expired, `rpush` appends to the list that the key holds, makes a new list
  -- of a key that holds nothing, and refuses a string. No other key changes.
  pub rpush_lem :
      (db : Db dm)
      → past later (dm.get db.expirations key) ≡ false
      → let held = live dm later db key in
        (((rpush dm key vals db).0) ≡ push_result held)
        × ((j : Bytes)
            → live dm later (rpush dm key vals db).1 j
              ≡ (if str_eq key j then pushed vals (λ l. l ++ vals) held else live dm later db j))
  unfolding rpush
  rpush_lem db h = rw (live-not_past db h) (rpush_at-Pushes db _ refl h)

  -- On a key that is not expired, `lpush` puts the values in front of the list that the key holds,
  -- in their order, but makes a new list of them in reverse order where the key holds nothing. It
  -- refuses a string. No other key changes.
  pub lpush_lem :
      (db : Db dm)
      → past later (dm.get db.expirations key) ≡ false
      → let held = live dm later db key in
        (((lpush dm key vals db).0) ≡ push_result held)
        × ((j : Bytes)
            → live dm later (lpush dm key vals db).1 j ≡ (
                if str_eq key j
                then pushed (reverse vals) (λ l. vals ++ l) held
                else live dm later db j))
  unfolding lpush
  lpush_lem db h = rw (live-not_past db h) (lpush_at-Pushes db _ refl h)

  -- A push onto a key that is expired and not yet dropped is lost: the reply of `rpush` and that of
  -- `lpush` are those for the value that is there, and a reader still finds nothing.
  pub push_expired_lost :
      (db : Db dm)
      → past later (dm.get db.expirations key) ≡ true
      → (live dm later (rpush dm key vals db).1 key ≡ none)
        × (live dm later (lpush dm key vals db).1 key ≡ none)
        × ((rpush dm key vals db).0 ≡ push_result (dm.get db.values key))
        × ((lpush dm key vals db).0 ≡ push_result (dm.get db.values key))
  unfolding live lpush rpush lpush_at rpush_at
  push_expired_lost db h = ground arith
