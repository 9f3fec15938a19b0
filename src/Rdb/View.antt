-- ===== src/Rdb/View.antt =====
-- What a reader finds in a store that was saved and loaded.
use ember.Prelude.{ℕ, suc, ◌≡◌, refl, ◌∙◌, List, [], ◌∷◌, arith, Option, none, some, ok}
use ember.Text.{Bytes, str_eq_iff}
use ember.Database.Map.{DashMap, lookup, lookup-put, lookup-nil}
use ember.Database.Core.{Instant, Db}
use ember.Database.Object.{RedisObject, string, list, nil, cons}
use ember.Rdb.{Now}
use ember.Rdb.Writer.Encode.{rdb_bytes}
use ember.Rdb.Reader.{Loaded, parse_rdb}
use ember.Rdb.RoundTrip.{
  store_all, restore_all, clock_behind, nothing_loaded, AreStorable, AreExpiries,
  parse_rdb-rdb_bytes,
}
use ember.Rdb.RoundTrip.Rounds.{stored}

-- No key is listed twice.
abbrev pub IsDistinct : {A : Type 0} → List (Bytes × A) → Type 0
IsDistinct [] = Unit
IsDistinct ((key, a) ∷ es) = (lookup key es ≡ none) × IsDistinct es

-- What is loaded for a value, in place of what was there: a list without items is not saved.
abbrev pub kept : Option RedisObject → Option RedisObject → Option RedisObject
kept none old = old
kept (some (string s)) old = some (string s)
kept (some (list nil)) old = old
kept (some (list (cons o os))) old = some (list (cons o os))

kept_first :
    (key k : Bytes) (o : RedisObject) (db : List (Bytes × RedisObject)) (st : Loaded)
    → lookup key db ≡ none
    → kept (lookup k db) (lookup k (stored key o st).db)
      ≡ kept (lookup k ((key, o) ∷ db)) (lookup k st.db)
unfolding lookup
kept_first key k (string s) db st h =
    rw (lookup-put key k (string s) st.db) (ground (arith, str_eq_iff key k))
kept_first key k (list nil) db st h = ground (arith, str_eq_iff key k)
kept_first key k (list (cons o os)) db st h =
    rw (lookup-put key k (list (cons o os)) st.db) (ground (arith, str_eq_iff key k))

lookup-store_all :
    (k : Bytes) (db : List (Bytes × RedisObject)) (st : Loaded)
    → IsDistinct db
    → lookup k (store_all db st).db ≡ kept (lookup k db) (lookup k st.db)
lookup-store_all k [] st d = rw (lookup-nil {V = RedisObject} k)
lookup-store_all k ((key, o) ∷ db) st (absent, d) =
    lookup-store_all k db (stored key o st) d ∙ kept_first key k o db st absent

db-restore_all :
    (written read : ℕ → Now) (es : List (Bytes × Instant)) (st : Loaded)
    → (restore_all written read es st).db ≡ st.db
db-restore_all written read [] st = refl
db-restore_all written read ((key, t) ∷ es) st =
    db-restore_all (λ i. written (suc i)) (λ i. read (suc i)) es _

-- A store that is saved and loaded again holds the same value under every key, but for the lists
-- without items, which are gone. The entries are listed once each and can be held by a file: UTF-8
-- of less than 2^32 bytes, lists of less than 2^32 strings and nothing else, and no key with an
-- expiration spelled like the name of a type.
pub saved_is_loaded :
    (dm : DashMap) (written read : ℕ → Now) (db : Db dm) (k : Bytes)
    → IsDistinct (dm.iter db.values)
    → AreStorable (dm.iter db.values)
    → AreExpiries (dm.iter db.expirations)
    → (loaded : Loaded) × (parse_rdb read
          (rdb_bytes written (dm.iter db.values) (dm.iter db.expirations))
        ≡ ok loaded)
      × (lookup k loaded.db ≡ kept (dm.get db.values k) none)
saved_is_loaded dm written read db k distinct storable expiries =
    let entries = dm.iter db.values in
    let later = clock_behind entries (λ i. read (suc i)) in
    let full = store_all entries nothing_loaded in
    (
      restore_all written later (dm.iter db.expirations) full,
      parse_rdb-rdb_bytes written read entries (dm.iter db.expirations) storable expiries,
      rw (
        db-restore_all written later (dm.iter db.expirations) full,
        lookup-store_all k entries nothing_loaded distinct,
        dm.lookup-iter db.values k,
        lookup-nil {V = RedisObject} k,
      ),
    )
