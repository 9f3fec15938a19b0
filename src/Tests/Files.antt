-- ===== src/Tests/Files.antt =====
-- Snapshots on a disk that may be full.
use ember.Prelude.{ℕ, ◌≡◌, ◌≢◌, refl, List, [], ◌∷◌, some, arith, replicate, ◌⊎◌, ok}
use ember.Text.{Bytes, codes, str_eq}
use ember.Text.Utf8.{utf8_run, utf8_step}
use ember.Text.Ascii.{ascii_upper, to_ascii_uppercase}
use ember.Resp.Types.{written, io_error}
use ember.Database.Map.{assoc_map, lookup, put, without}
use ember.Database.Object.{RedisObject, string}
use ember.Database.Core.{Instant, Db}
use ember.Rdb.{Now, to_le_bytes}
use ember.Rdb.Writer.{
  write_rdb, write_db, write_length, write_entries, write_object, write_string, write_value,
  write_expiries, write_expiry, write_list,
}
use ember.Rdb.Reader.{Loaded, parse_rdb}
use ember.Rdb.Writer.Encode.{rdb_bytes}
use ember.Rdb.RoundTrip.{AreStorable, AreExpiries}
use ember.Rdb.Expiry.{MeansSame, saved_expiration}
use ember.Rdb.File.{save_rdb}
use ember.Rdb.File.Atomic.{save_rdb_atomic}
use ember.Tests.Disk.{Files, Volume, Open, volume, volume-IsFileSystem, no_space}
use ember.Snapshot.{rdb_file, new, save_task}
use ember.Snapshot.Restart.{save_and_restart}

-- The run that saves started at the system's time 5 ms, the run that loads at 1 s; the times below
-- are in nanoseconds.
abbrev saving : ℕ → Now
saving i = record { instant = 2_000_000; system = 7_000_000 }

abbrev pub loading : ℕ → Now
loading i = record { instant = 3_000_000; system = 1_003_000_000 }

abbrev values : List (Bytes × RedisObject)
values = (codes "a", string (codes "1")) ∷ []

abbrev expirations : List (Bytes × Instant)
expirations = (codes "a", 9_000_600_000) ∷ []

abbrev store : Db assoc_map
store = record { values = values; expirations = expirations }

abbrev old_file : Files
old_file = (rdb_file, codes "REDIS0001") ∷ []

abbrev old_disk : Volume
old_disk = record { files = old_file; room = 1000 }

-- The snapshot has 32 bytes and more.
abbrev full_disk : Volume
full_disk = record { files = old_file; room = 20 }

abbrev empty_file : Open
empty_file = record { target = rdb_file; flushed = []; buffer = [] }

abbrev no_room : Volume
no_room = record { files = old_file; room = 0 }

-- Two short writes are kept in the buffer where one long write is refused.
two_writes : (volume.write_all (replicate 10 0) (empty_file, no_room)).0 ≡ written
two_writes = refl

one_write : (volume.write_all (replicate 20 0) (empty_file, no_room)).0 ≢ written
one_write = cc

save_rdb_fails :
    (save_rdb volume saving rdb_file values expirations full_disk).0 ≡ io_error no_space
unfolding save_rdb write_rdb write_db write_length write_entries write_object write_string
    write_value write_expiries write_expiry write_list to_le_bytes put without str_eq
save_rdb_fails = refl

save_rdb_atomic_example :
    let (r, d') = save_rdb volume saving rdb_file values expirations full_disk in
    ((r ≡ written) × (lookup rdb_file d'.files ≡ some (rdb_bytes saving values expirations)))
    ⊎ ((r ≢ written) × (lookup rdb_file d'.files ≡ lookup rdb_file full_disk.files))
unfolding volume-IsFileSystem
save_rdb_atomic_example =
    save_rdb_atomic volume volume-IsFileSystem saving rdb_file values expirations full_disk

values-AreStorable : AreStorable values
unfolding utf8_run utf8_step
values-AreStorable = (((refl, omega arith), (refl, omega arith)), tt)

expirations-AreExpiries : AreExpiries expirations
unfolding utf8_run utf8_step to_ascii_uppercase ascii_upper str_eq
expirations-AreExpiries = (((refl, omega arith), refl, refl), tt)

save_and_restart_example :
    let (r, d') = save_task assoc_map volume saving store old_disk in
    ((r ≡ written)
      × (db' : Db assoc_map) × (new assoc_map volume loading d' ≡ ok db')
      × (lookup (codes "a") db'.values ≡ some (string (codes "1"))))
    ⊎ ((r ≢ written) × (lookup rdb_file d'.files ≡ lookup rdb_file old_disk.files))
unfolding lookup str_eq volume-IsFileSystem
save_and_restart_example =
    save_and_restart assoc_map volume volume-IsFileSystem saving loading store old_disk (codes "a")
      (refl, tt) values-AreStorable expirations-AreExpiries

saved_expiration_example :
    (loaded : Loaded) × (i : ℕ) × (t' : Instant) × (parse_rdb loading
        (rdb_bytes saving values expirations)
      ≡ ok loaded)
    × (lookup (codes "a") loaded.expirations ≡ some t')
    × MeansSame 5_000_000 1_000_000_000 (loading i) 9_000_600_000 t'
unfolding lookup str_eq
saved_expiration_example =
    saved_expiration 5_000_000 1_000_000_000 saving loading values expirations (codes "a")
      9_000_600_000 values-AreStorable expirations-AreExpiries (refl, tt) refl (λ i. refl)
      (λ i. refl) (λ i. omega arith) (omega arith)
