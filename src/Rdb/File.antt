-- ===== src/Rdb/File.antt =====
-- src/rdb: what `save_rdb` and `load_rdb` do with the files. The calls of `std::fs` are operations on
-- a disk.
pub mod Contract
pub mod Atomic
use ember.Prelude.{ℕ, Bool, List, [], ◌++◌, ◌⊎◌, inl, inr, not, if◌then◌else◌, Result, ok, ◌>>=◌}
use ember.Text.{Bytes, codes}
use ember.Resp.Types.{IoResult, written, io_error, AsyncWrite, and_then}
use ember.Database.Object.{RedisObject}
use ember.Database.Core.{Instant}
use ember.Rdb.{Now}
use ember.Rdb.Writer.{write_rdb}
use ember.Rdb.Reader.{Loaded, parse_rdb}

-- `std::fs`, and `BufWriter<File>`; each call leaves a disk, whether it fails or not.
pub record FileSystem : Type 1 where
  pub Disk : Type 0
  pub Handle : Type 0
  -- `Path::exists`
  pub exists : Bytes → Disk → Bool
  -- `File::open`, and the bytes up to the end of the file
  pub open_file : Bytes → Disk → Result Bytes Bytes
  -- `BufWriter::new(File::create(..)?)`, an error on the left
  pub create : Bytes → Disk → (Bytes ⊎ Handle) × Disk
  pub write_all : Bytes → Handle × Disk → IoResult × (Handle × Disk)
  pub flush : Handle × Disk → IoResult × (Handle × Disk)
  -- a writer that is dropped before it is flushed
  pub drop : Handle × Disk → Disk
  pub rename : Bytes → Bytes → Disk → IoResult × Disk

module _ (fs : FileSystem) where
  open fs use {Disk, Handle}

  abbrev pub file_writer : AsyncWrite
  file_writer = record { Writer = Handle × Disk; write_all = fs.write_all }

  abbrev pub temp_path : Bytes → Bytes
  temp_path path = path ++ codes ".tmp"

  -- Behind the flush. A writer that was flushed has nothing left to write when it is dropped.
  on_flushed : Bytes → IoResult × (Handle × Disk) → IoResult × Disk
  on_flushed path (written, (h, d)) = fs.rename (temp_path path) path d
  on_flushed path (io_error e, w) = (io_error e, fs.drop w)

  on_created :
      (ℕ → Now)
      → Bytes
      → List (Bytes × RedisObject)
      → List (Bytes × Instant)
      → (Bytes ⊎ Handle) × Disk
      → IoResult × Disk
  unfolding on_flushed
  on_created clock path db expirations (inl e, d) = (io_error e, d)
  on_created clock path db expirations (inr h, d) =
      on_flushed path (and_then (write_rdb file_writer clock db expirations (h, d)) λ w. fs.flush w)

  unfoldable pub save_rdb :
      (ℕ → Now)
      → Bytes
      → List (Bytes × RedisObject)
      → List (Bytes × Instant)
      → Disk
      → IoResult × Disk
  unfolding on_created
  save_rdb clock path db expirations d =
      on_created clock path db expirations (fs.create (temp_path path) d)

  unfoldable pub load_rdb : (ℕ → Now) → Bytes → Disk → Result Bytes Loaded
  load_rdb clock path d =
      if not (fs.exists path d)
      then ok (record { db = []; expirations = [] })
      else (do file ← fs.open_file path d; parse_rdb clock file)
