-- ===== src/Database/Core/Sync.antt =====
-- The two maps stay in step: a key with an expiration has a value.
use ember.Prelude.{
  ℕ, ◌≡◌, ◌≢◌, Bool, true, false, List, [], ◌∷◌, Option, none, some, arith, ltb, if◌then◌else◌, inl,
  inr, Option-cases,
}
use ember.Text.{Bytes, str_eq_iff}
use ember.Database.Map.{DashMap}
use ember.Database.Object.{RedisObject, string, list}
use ember.Prelude.Int.{ℤ}
use ember.Database.Core.{
  Instant, Db, new_in_memory, set, get, delete, lpush, rpush, lpush_at, rpush_at, lrange, expire,
  expire_if, lazily_expired, purge, purge_found, purge_expired, purge_sample,
}

module _ (dm : DashMap) where
  pub record IsSynced (db : Db dm) : Type 0 where
    pub has_value : (k : Bytes) → dm.get db.values k ≡ none → dm.get db.expirations k ≡ none

  pub new_in_memory-IsSynced : IsSynced (new_in_memory dm)
  unfolding new_in_memory
  new_in_memory-IsSynced = record { has_value = λ k h. dm.get-new k }

  pub purge-IsSynced : (key : Bytes) (db : Db dm) → IsSynced db → IsSynced (purge dm key db)
  purge-IsSynced key db s = record {
    has_value = λ k h.
        ground
          (arith, dm.get-remove db.values key k, dm.get-remove db.expirations key k, s.has_value k);
  }

  set-IsSynced :
      (key : Bytes) (val : RedisObject) (exp : Option Instant) (db : Db dm)
      → IsSynced db
      → IsSynced (set dm key val exp db).1
  unfolding set
  set-IsSynced key val none db s = record {
    has_value = λ k. simp (dm.get-insert, dm.get-remove) (ground (arith, s.has_value k));
  }
  set-IsSynced key val (some e) db s = record {
    has_value = λ k. simp (dm.get-insert, dm.get-remove) (ground (arith, s.has_value k));
  }

  IsSynced-if :
      {A : Type 0} (b : Bool) (x y : A × Db dm)
      → IsSynced x.1
      → IsSynced y.1
      → IsSynced (if b then x else y).1
  IsSynced-if true x y hx hy = hx
  IsSynced-if false x y hx hy = hy

  get-IsSynced :
      (now : Instant) (key : Bytes) (db : Db dm) → IsSynced db → IsSynced (get dm now key db).1
  unfolding get
  get-IsSynced now key db s =
      IsSynced-if (lazily_expired dm now key db) _ _ (purge-IsSynced key db s) s

  lrange-IsSynced :
      (checks : Bool) (now : Instant) (key : Bytes) (start stop : ℤ) (db : Db dm)
      → IsSynced db
      → IsSynced (lrange dm checks now key start stop db).1
  unfolding lrange
  lrange-IsSynced checks now key start stop db s =
      IsSynced-if (lazily_expired dm now key db) _ _ (purge-IsSynced key db s) s

  -- a write of a value
  write-IsSynced :
      (key : Bytes) (val : RedisObject) (db : Db dm)
      → IsSynced db
      → IsSynced (record db { values = dm.insert db.values key val })
  write-IsSynced key val db s = record {
    has_value = λ k. simp dm.get-insert (ground (arith, s.has_value k));
  }

  lpush_at-IsSynced :
      (key : Bytes) (vals : List RedisObject) (o : Option RedisObject) (db : Db dm)
      → IsSynced db
      → IsSynced (lpush_at dm key vals o db).1
  unfolding lpush_at
  lpush_at-IsSynced key vals none db s = write-IsSynced key _ db s
  lpush_at-IsSynced key vals (some (list l)) db s = write-IsSynced key _ db s
  lpush_at-IsSynced key vals (some (string t)) db s = s

  rpush_at-IsSynced :
      (key : Bytes) (vals : List RedisObject) (o : Option RedisObject) (db : Db dm)
      → IsSynced db
      → IsSynced (rpush_at dm key vals o db).1
  unfolding rpush_at
  rpush_at-IsSynced key vals none db s = write-IsSynced key _ db s
  rpush_at-IsSynced key vals (some (list l)) db s = write-IsSynced key _ db s
  rpush_at-IsSynced key vals (some (string t)) db s = s

  lpush-IsSynced :
      (key : Bytes) (vals : List RedisObject) (db : Db dm)
      → IsSynced db
      → IsSynced (lpush dm key vals db).1
  unfolding lpush
  lpush-IsSynced key vals db = lpush_at-IsSynced key vals (dm.get db.values key) db

  rpush-IsSynced :
      (key : Bytes) (vals : List RedisObject) (db : Db dm)
      → IsSynced db
      → IsSynced (rpush dm key vals db).1
  unfolding rpush
  rpush-IsSynced key vals db = rpush_at-IsSynced key vals (dm.get db.values key) db

  expire_if-IsSynced :
      (key : Bytes) (t : Instant) (allowed : Option Bool) (db : Db dm)
      → dm.get db.values key ≢ none
      → IsSynced db
      → IsSynced (expire_if dm key t allowed db).1
  unfolding expire_if
  expire_if-IsSynced key t none db held s = s
  expire_if-IsSynced key t (some false) db held s = s
  expire_if-IsSynced key t (some true) db held s = record {
    has_value = λ k. simp dm.get-insert (ground (arith, s.has_value k, str_eq_iff key k));
  }

  expire-IsSynced :
      (key : Bytes) (t : Instant) (option : Option Bytes) (db : Db dm)
      → IsSynced db
      → IsSynced (expire dm key t option db).1
  unfolding expire
  expire-IsSynced key t option db s = elim (Option-cases (dm.get db.values key)) [
    | inl missing ↦ rw (dm.contains_key-get db.values key, missing) s
    | inr (v, held) ↦
        rw (dm.contains_key-get db.values key, held)
          (expire_if-IsSynced key t _ db (rw held (cc)) s)
  ]

  purge_found-IsSynced :
      (now : Instant) (key : Bytes) (o : Option Instant) (db : Db dm)
      → IsSynced db
      → IsSynced (purge_found dm now key o db).1
  unfolding purge_found
  purge_found-IsSynced now key none db s = s
  purge_found-IsSynced now key (some e) db s =
      IsSynced-if (ltb e now) _ _ (purge-IsSynced key db s) s

  pub purge_expired-IsSynced :
      (now : Instant) (key : Bytes) (db : Db dm)
      → IsSynced db
      → IsSynced (purge_expired dm now key db).1
  unfolding purge_expired
  purge_expired-IsSynced now key db s =
      purge_found-IsSynced now key (dm.get db.expirations key) db s

  pub purge_sample-IsSynced :
      (now : Instant) (keys : List Bytes) (n : ℕ) (db : Db dm)
      → IsSynced db
      → IsSynced (purge_sample dm now keys n db).1
  unfolding purge_sample
  purge_sample-IsSynced now [] n db s = s
  purge_sample-IsSynced now (key ∷ keys) n db s =
      purge_sample-IsSynced now keys _ _ (purge_expired-IsSynced now key db s)

-- The methods of the store that change it, with their arguments.
pub data Call : Type 0 where
  call_set : Bytes → RedisObject → Option Instant → Call
  call_get : Instant → Bytes → Call
  call_delete : Bytes → Call
  call_lpush call_rpush : Bytes → List RedisObject → Call
  call_lrange : Bool → Instant → Bytes → ℤ → ℤ → Call
  call_expire : Bytes → Instant → Option Bytes → Call

module _ (dm : DashMap) where
  abbrev pub after : Call → Db dm → Db dm
  after (call_set k v e) db = (set dm k v e db).1
  after (call_get now k) db = (get dm now k db).1
  after (call_delete k) db = (delete dm k db).1
  after (call_lpush k vs) db = (lpush dm k vs db).1
  after (call_rpush k vs) db = (rpush dm k vs db).1
  after (call_lrange c now k i j) db = (lrange dm c now k i j db).1
  after (call_expire k t o) db = (expire dm k t o db).1

  -- the store after a run of calls
  abbrev pub after_all : List Call → Db dm → Db dm
  after_all [] db = db
  after_all (c ∷ cs) db = after_all cs (after c db)

  after-IsSynced : (c : Call) (db : Db dm) → IsSynced dm db → IsSynced dm (after c db)
  after-IsSynced (call_set k v e) db s = set-IsSynced dm k v e db s
  after-IsSynced (call_get now k) db s = get-IsSynced dm now k db s
  after-IsSynced (call_delete k) db s = unfold delete in purge-IsSynced dm k db s
  after-IsSynced (call_lpush k vs) db s = lpush-IsSynced dm k vs db s
  after-IsSynced (call_rpush k vs) db s = rpush-IsSynced dm k vs db s
  after-IsSynced (call_lrange c now k i j) db s = lrange-IsSynced dm c now k i j db s
  after-IsSynced (call_expire k t o) db s = expire-IsSynced dm k t o db s

  -- Whatever calls are made of a synced store, one after another, it stays synced: a key with an
  -- expiration has a value.
  pub after_all-IsSynced :
      (cs : List Call) (db : Db dm) → IsSynced dm db → IsSynced dm (after_all cs db)
  after_all-IsSynced [] db s = s
  after_all-IsSynced (c ∷ cs) db s = after_all-IsSynced cs _ (after-IsSynced c db s)
