-- ===== src/Snapshot/Restart.antt =====
-- `DB::new` (database/core.rs) on the disk that the task of `DB::save_rdb` leaves.
use ember.Prelude.{ℕ, ◌≡◌, ◌≢◌, refl, ap, ◌∙◌, List, [], ◌∷◌, none, some, ◌⊎◌, inl, inr, ok}
use ember.Text.{Bytes}
use ember.Resp.Types.{written}
use ember.Database.Map.{DashMap, lookup}
use ember.Database.Core.{Db}
use ember.Rdb.{Now}
use ember.Rdb.Reader.{parse_rdb}
use ember.Rdb.RoundTrip.{AreStorable, AreExpiries}
use ember.Rdb.View.{IsDistinct, kept, saved_is_loaded}
use ember.Rdb.File.{FileSystem, load_rdb}
use ember.Rdb.File.Contract.{IsFileSystem}
use ember.Rdb.File.Atomic.{save_rdb_atomic}
use ember.Snapshot.{rdb_file, from_iter, on_loaded, new, save_task}

module _ (dm : DashMap) where
  get-from_iter :
      {V : Type 0} (es : List (Bytes × V)) (k : Bytes) → dm.get (from_iter dm es) k ≡ lookup k es
  unfolding from_iter lookup
  get-from_iter [] k = dm.get-new k
  get-from_iter ((j, v) ∷ es) k =
      dm.get-insert (from_iter dm es) j v k ∙ rw (get-from_iter es k) refl

  module _ (fs : FileSystem) (is_fs : IsFileSystem fs) where
    load_rdb-content :
        (clock : ℕ → Now) (path s : Bytes) (d : fs.Disk)
        → is_fs.content path d ≡ some s
        → load_rdb fs clock path d ≡ parse_rdb clock s
    unfolding load_rdb
    load_rdb-content clock path s d e =
        rw (is_fs.exists_content path d, is_fs.open_content path s d e, e) refl

    load_rdb-no_file :
        (clock : ℕ → Now) (path : Bytes) (d : fs.Disk)
        → is_fs.content path d ≡ none
        → load_rdb fs clock path d ≡ ok (record { db = []; expirations = [] })
    unfolding load_rdb
    load_rdb-no_file clock path d e = rw (is_fs.exists_content path d, e) refl

    -- The task of a SAVE, and then a start of the program on the disk that the task leaves, whose
    -- files can be read and are not links to one another. If the save succeeds, the program starts
    -- with a store that holds the same value under each key, but for the lists without items, which
    -- are gone; if it fails, the file is the one before. The entries are listed once each, keys and
    -- strings are UTF-8 of less than 2^32 bytes, lists have less than 2^32 strings and nothing else,
    -- and no key with an expiration is spelled like the name of a type, `string` or `list`, in
    -- whatever case.
    pub save_and_restart :
        (written_at read_at : ℕ → Now) (db : Db dm) (d : fs.Disk) (k : Bytes)
        → IsDistinct (dm.iter db.values)
        → AreStorable (dm.iter db.values)
        → AreExpiries (dm.iter db.expirations)
        → let (r, d') = save_task dm fs written_at db d in
          ((r ≡ written)
            × (db' : Db dm) × (new dm fs read_at d' ≡ ok db')
            × (dm.get db'.values k ≡ kept (dm.get db.values k) none))
          ⊎ ((r ≢ written) × (is_fs.content rdb_file d' ≡ is_fs.content rdb_file d))
    unfolding save_task new on_loaded
    save_and_restart written_at read_at db d k distinct storable expiries =
        elim (save_rdb_atomic fs is_fs written_at rdb_file (dm.iter db.values)
          (dm.iter db.expirations) d) [
            | inl (done, new_content) ↦
                let (loaded, parsed, same) =
                  saved_is_loaded dm written_at read_at db k distinct storable expiries in
                inl (
                  done,
                  record {
                    values = from_iter dm loaded.db;
                    expirations = from_iter dm loaded.expirations;
                  },
                  ap (on_loaded dm) (load_rdb-content read_at rdb_file _ _ new_content ∙ parsed),
                  get-from_iter loaded.db k ∙ same,
                )
            | inr failed ↦ inr failed
          ]

    -- Where there is no snapshot the program starts with a store in which no key has a value or an
    -- expiration.
    pub new-no_file :
        (clock : ℕ → Now) (d : fs.Disk) (k : Bytes)
        → is_fs.content rdb_file d ≡ none
        → (db : Db dm) × (new dm fs clock d ≡ ok db)
          × (dm.get db.values k ≡ none)
          × (dm.get db.expirations k ≡ none)
    unfolding new on_loaded from_iter
    new-no_file clock d k e = (
      record { values = dm.new; expirations = dm.new },
      ap (on_loaded dm) (load_rdb-no_file clock rdb_file d e),
      dm.get-new k,
      dm.get-new k,
    )
