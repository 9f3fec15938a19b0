-- ===== src/Database/Core/View.antt =====
-- What a client can see of the store: the values of the keys that have not expired.

use ember.Prelude.{
  ◌≤◌, ◌≡◌, Bool, true, false, Option, none, some, arith, ltb, if◌then◌else◌, ok, inl, inr,
  Bool-cases,
}
use ember.Text.{Bytes, str_eq, str_eq_iff}
use ember.Database.Map.{DashMap}
use ember.Database.Object.{RedisObject, nil_string}
use ember.Database.Core.{Instant, Db, set, get, delete, lazily_expired, purge}

-- An expiration is in the past.
abbrev pub past : Instant → Option Instant → Bool
past now none = false
past now (some e) = ltb e now

-- What a key holds for a reader at `now`.
abbrev pub unexpired : Bool → Option RedisObject → Option RedisObject
unexpired true v = none
unexpired false v = v

module _ (dm : DashMap) where
  unfoldable pub live : Instant → Db dm → Bytes → Option RedisObject
  live now db k = unexpired (past now (dm.get db.expirations k)) (dm.get db.values k)

  lazily_expired-past :
      (now : Instant) (k : Bytes) (db : Db dm)
      → lazily_expired dm now k db ≡ past now (dm.get db.expirations k)
  unfolding lazily_expired
  lazily_expired-past now k db = ground arith

  -- what `get` answers for a key that holds `v`
  abbrev pub answer : Option RedisObject → RedisObject
  answer none = nil_string
  answer (some v) = v

  get-answer :
      (now : Instant) (key : Bytes) (db : Db dm)
      → (get dm now key db).0 ≡ ok (answer (live now db key))
  unfolding get live
  get-answer now key db = rw (lazily_expired-past now key db) (ground arith)

  pub live-purge :
      (now later : Instant) (key j : Bytes) (db : Db dm)
      → now ≤ later
      → past now (dm.get db.expirations key) ≡ true
      → live later (purge dm key db) j ≡ live later db j
  unfolding live
  live-purge now later key j db le h = simp (dm.get-remove) (ground (arith, str_eq_iff key j))

  live-get :
      (now later : Instant) (key j : Bytes) (db : Db dm)
      → now ≤ later
      → live later (get dm now key db).1 j ≡ live later db j
  unfolding get
  live-get now later key j db le = elim (Bool-cases (past now (dm.get db.expirations key))) [
    | inl h ↦ rw (lazily_expired-past now key db, h) (live-purge now later key j db le h)
    | inr h ↦ rw (lazily_expired-past now key db, h)
  ]

  -- `get` answers what the key holds, or nil. It may drop expired entries, and a reader at that time
  -- or later cannot tell.
  pub get_lem :
      (now later : Instant) (key j : Bytes) (db : Db dm)
      → now ≤ later
      → ((get dm now key db).0 ≡ ok (answer (live now db key)))
        × (live later (get dm now key db).1 j ≡ live later db j)
  get_lem now later key j db le = (get-answer now key db, live-get now later key j db le)

  -- After `set`, its key holds the value until the expiration has passed, and for ever if none was
  -- given, whatever expiration the key had before. The other keys hold what they held.
  pub live-set :
      (later : Instant) (key : Bytes) (val : RedisObject) (exp : Option Instant) (db : Db dm)
      (j : Bytes)
      → live later (set dm key val exp db).1 j
        ≡ (if str_eq key j then unexpired (past later exp) (some val) else live later db j)
  unfolding live set
  live-set later key val none db j = simp (dm.get-insert, dm.get-remove) (ground arith)
  live-set later key val (some e) db j = simp (dm.get-insert, dm.get-remove) (ground arith)

  pub live-delete :
      (later : Instant) (key : Bytes) (db : Db dm) (j : Bytes)
      → live later (delete dm key db).1 j ≡ (if str_eq key j then none else live later db j)
  unfolding live delete
  live-delete later key db j = simp dm.get-remove (ground arith)
