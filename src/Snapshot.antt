-- ===== src/Snapshot.antt =====
-- src/database/core.rs: `DB::new` and `DB::save_rdb`, which load the store from the disk and save it.
pub mod Restart
use ember.Prelude.{ℕ, List, [], ◌∷◌, Result, ok, err, panic, out_of_fuel}
use ember.Text.{Bytes, codes}
use ember.Resp.Types.{IoResult}
use ember.Database.Map.{DashMap}
use ember.Database.Object.{RedisObject}
use ember.Database.Core.{Instant, Db}
use ember.Rdb.{Now}
use ember.Rdb.Reader.{Loaded}
use ember.Rdb.File.{FileSystem, save_rdb, load_rdb}

abbrev pub rdb_file : Bytes
rdb_file = codes "snapshots/dump.rdb"

module _ (dm : DashMap) where
  -- `DashMap::from_iter` of a `HashMap`, which lists each key once, in any order
  unfoldable pub from_iter : {V : Type 0} → List (Bytes × V) → dm.Map V
  from_iter [] = dm.new
  from_iter ((k, v) ∷ es) = dm.insert (from_iter es) k v

  -- `load_rdb(..).unwrap()`
  on_loaded : Result Bytes Loaded → Result Bytes (Db dm)
  unfolding from_iter
  on_loaded (ok l) = ok (record { values = from_iter l.db; expirations = from_iter l.expirations })
  on_loaded (err e) = panic
  on_loaded panic = panic
  on_loaded out_of_fuel = out_of_fuel

  -- `DB::new`. The task that it spawns runs the cycles of the active expiration.
  unfoldable pub new : (fs : FileSystem) → (ℕ → Now) → fs.Disk → Result Bytes (Db dm)
  unfolding on_loaded
  new fs clock d = on_loaded (load_rdb fs clock rdb_file d)

  -- The entries that `DB::save_rdb` copies, and hands to the task that it spawns.
  abbrev pub snapshot : Db dm → List (Bytes × RedisObject) × List (Bytes × Instant)
  snapshot db = (dm.iter db.values, dm.iter db.expirations)

  -- That task; of an error it only prints the text.
  unfoldable pub save_task : (fs : FileSystem) → (ℕ → Now) → Db dm → fs.Disk → IoResult × fs.Disk
  save_task fs clock db d =
      let (data_snapshot, exp_snapshot) = snapshot db in
      save_rdb fs clock rdb_file data_snapshot exp_snapshot d
