-- ===== src/Database/Steps.antt =====
-- src/database/core.rs: the methods of `DB` but `lrange`, and the removal of one key by the cycle, as the calls of the maps that they consist of. Each call is atomic; between two of them the
-- calls of other tasks may come. A test of an expiration is one step with the read of it, since the
-- reference that it holds locks the entry.
pub mod Values
pub mod Race
use mathlib.Core.List.{reverse}
use ember.Prelude.{
  ℕ, zero, suc, ◌≡◌, refl, Bool, true, false, List, [], ◌∷◌, ◌++◌, Option, none, some, ltb,
  if◌then◌else◌, Bool-cases, inl, inr, ok, Result,
}
use ember.Text.{Bytes}
use ember.Database.Map.{DashMap}
use ember.Database.Object.{RedisObject, string, list, to_list, from_list}
use ember.Database.Core as Core
use ember.Database.Core.{Instant, Db}

-- Where a task is within a method.
pub data Call : Type 0 where
  set_begin : Bytes → RedisObject → Option Instant → Call
  set_value : Bytes → RedisObject → Option Instant → Call
  set_expiration : Bytes → Option Instant → Call
  get_begin : Bytes → Call
  get_read : Bytes → Call
  -- `get`, having found that the key has expired
  get_purge : Bytes → Call
  get_purge_expiration : Bytes → Call
  delete_begin : Bytes → Call
  delete_expiration : Bytes → Call
  rpush_begin : Bytes → List RedisObject → Call
  lpush_begin : Bytes → List RedisObject → Call
  -- a push, having found no value
  push_insert : Bytes → List RedisObject → Call
  expire_begin : Bytes → Instant → Option Bytes → Call
  expire_test : Bytes → Instant → Option Bytes → Call
  expire_insert : Bytes → Instant → Call
  -- the cycle, at a key of its sample, with its time
  cycle_begin : Instant → Bytes → Call
  cycle_purge : Bytes → Call
  cycle_purge_expiration : Bytes → Call
  -- a method that has returned; `get` with the key and what it found
  set_done : Call
  get_done : Bytes → Option RedisObject → Call
  delete_done : Call
  push_done : Call
  expire_done : Call
  cycle_done : Call

module _ (dm : DashMap) where
  abbrev put_value : Bytes → RedisObject → Db dm → Db dm
  put_value key val db = record db { values = dm.insert db.values key val }

  abbrev drop_value : Bytes → Db dm → Db dm
  drop_value key db = record db { values = dm.remove db.values key }

  abbrev drop_expiration : Bytes → Db dm → Db dm
  drop_expiration key db = record db { expirations = dm.remove db.expirations key }

  put_expiration : Bytes → Option Instant → Db dm → Db dm
  put_expiration key none db = db
  put_expiration key (some exp) db = record db { expirations = dm.insert db.expirations key exp }

  -- has the expiration passed?
  passed : Instant → Option Instant → Bool
  passed now none = false
  passed now (some exp) = ltb exp now

  -- the pushes, given the entry that `get_mut` locks
  rpush_entry : Bytes → List RedisObject → Option RedisObject → Db dm → Call × Db dm
  rpush_entry key vals none db = (push_insert key vals, db)
  rpush_entry key vals (some (list l)) db =
      (push_done, put_value key (list (from_list (to_list l ++ vals))) db)
  rpush_entry key vals (some (string s)) db = (push_done, db)

  lpush_entry : Bytes → List RedisObject → Option RedisObject → Db dm → Call × Db dm
  lpush_entry key vals none db = (push_insert key (reverse vals), db)
  lpush_entry key vals (some (list l)) db =
      (push_done, put_value key (list (from_list (vals ++ to_list l))) db)
  lpush_entry key vals (some (string s)) db = (push_done, db)

  -- `expire`, given whether the expiration is to be written, if the option is known
  expire_next : Bytes → Instant → Option Bool → Call
  expire_next key expires_at none = expire_done
  expire_next key expires_at (some false) = expire_done
  expire_next key expires_at (some true) = expire_insert key expires_at

  -- One atomic step of a task, at a time.
  unfoldable pub advance : Instant → Call → Db dm → Call × Db dm
  unfolding put_expiration passed rpush_entry lpush_entry expire_next
  advance now (set_begin key val exp) db = (set_value key val exp, drop_expiration key db)
  advance now (set_value key val exp) db = (set_expiration key exp, put_value key val db)
  advance now (set_expiration key exp) db = (set_done, put_expiration key exp db)
  advance now (get_begin key) db =
      (if passed now (dm.get db.expirations key) then get_purge key else get_read key, db)
  advance now (get_read key) db = (get_done key (dm.get db.values key), db)
  advance now (get_purge key) db = (get_purge_expiration key, drop_value key db)
  advance now (get_purge_expiration key) db = (get_done key none, drop_expiration key db)
  advance now (delete_begin key) db = (delete_expiration key, drop_value key db)
  advance now (delete_expiration key) db = (delete_done, drop_expiration key db)
  advance now (rpush_begin key vals) db = rpush_entry key vals (dm.get db.values key) db
  advance now (lpush_begin key vals) db = lpush_entry key vals (dm.get db.values key) db
  advance now (push_insert key vals) db = (push_done, put_value key (list (from_list vals)) db)
  advance now (expire_begin key expires_at option) db =
      (if dm.contains_key db.values key then expire_test key expires_at option else expire_done, db)
  advance now (expire_test key expires_at option) db = (
    expire_next key expires_at (
        Core.update_expiry option expires_at (dm.contains_key db.expirations key)
          (dm.get db.expirations key)),
    db,
  )
  advance now (expire_insert key expires_at) db =
      (expire_done, put_expiration key (some expires_at) db)
  advance now (cycle_begin started key) db =
      (if passed started (dm.get db.expirations key) then cycle_purge key else cycle_done, db)
  advance now (cycle_purge key) db = (cycle_purge_expiration key, drop_value key db)
  advance now (cycle_purge_expiration key) db = (cycle_done, drop_expiration key db)
  advance now c db = (c, db)

  -- The tasks, and the store that they share.
  pub record System : Type 0 where
    pub calls : List Call
    pub db : Db dm

  -- one task makes a step
  pub data Step (s : System) : System → Type 0 where
    moves :
        (before : List Call) (c : Call) (after : List Call) (now : Instant)
        → s.calls ≡ before ++ c ∷ after
        → Step s (record {
          calls = before ++ (advance now c s.db).0 ∷ after;
          db = (advance now c s.db).1;
        })

  -- any interleaving of the tasks' steps
  pub data Reaches (s : System) : System → Type 0 where
    here : Reaches s s
    later : {t u : System} → Reaches s t → Step t u → Reaches s u
