-- ===== src/Rdb/File/Contract.antt =====
-- What is asked of the calls of std::fs and of `BufWriter` that `save_rdb` (rdb/writer.rs) makes, and
-- what it then makes of a row of writes.
use mathlib.Core.Path.{subst}
use ember.Prelude.{
  ℕ, ◌≡◌, ◌≢◌, refl, ◌∙◌, ap, sym, false, List, [], ◌++◌, Option, some, inr, ok, append_assoc,
  append-nil,
}
use ember.Text.{Bytes, str_eq}
use ember.Resp.Types.{IoResult, written, io_error, and_then}
use ember.Database.Map.{is_some}
use ember.Database.Object.{RedisObject}
use ember.Database.Core.{Instant}
use ember.Rdb.{Now}
use ember.Rdb.Writer.{write_rdb}
use ember.Rdb.Writer.Encode.{rdb_bytes, write_rdb-Writes}
use ember.Rdb.File.{FileSystem, file_writer}

-- What the documentation of `std::fs` and of `BufWriter` says: a file has bytes, a handle is of one
-- file and has taken bytes, and a call touches no file but those that it is given, as long as the
-- handle's file is under its path. Each call that changes the disk may fail. Whether a write fails may
-- depend on how the bytes before it were cut into writes, and what a failed write has taken is left
-- open. Under the paths there are files, not directories and not links to one another, and a file
-- that is there can be read.
pub record IsFileSystem (fs : FileSystem) : Type 1 where
  pub content : Bytes → fs.Disk → Option Bytes
  pub target : fs.Handle → Bytes
  pub accepted : fs.Handle → Bytes
  -- the handle's file is under its path, and under no other
  pub is_open : fs.Handle × fs.Disk → Type 0
  pub exists_content : (p : Bytes) (d : fs.Disk) → fs.exists p d ≡ is_some (content p d)
  pub open_content : (p s : Bytes) (d : fs.Disk) → content p d ≡ some s → fs.open_file p d ≡ ok s
  pub create_others :
      (p q : Bytes) (d : fs.Disk) → str_eq p q ≡ false → content q (fs.create p d).1 ≡ content q d
  pub create_new :
      (p : Bytes) (d : fs.Disk) (h : fs.Handle)
      → (fs.create p d).0 ≡ inr h
      → (target h ≡ p) × (accepted h ≡ []) × is_open (h, (fs.create p d).1)
  pub write_others :
      (s q : Bytes) (h : fs.Handle) (d : fs.Disk)
      → is_open (h, d)
      → str_eq (target h) q ≡ false
      → content q (fs.write_all s (h, d)).1.1 ≡ content q d
  pub write_target :
      (s : Bytes) (w : fs.Handle × fs.Disk) → target (fs.write_all s w).1.0 ≡ target w.0
  pub write_open : (s : Bytes) (w : fs.Handle × fs.Disk) → is_open w → is_open (fs.write_all s w).1
  pub write_accepted :
      (s : Bytes) (w : fs.Handle × fs.Disk)
      → (fs.write_all s w).0 ≡ written
      → accepted (fs.write_all s w).1.0 ≡ accepted w.0 ++ s
  pub flush_others :
      (q : Bytes) (h : fs.Handle) (d : fs.Disk)
      → is_open (h, d)
      → str_eq (target h) q ≡ false
      → content q (fs.flush (h, d)).1.1 ≡ content q d
  pub flush_target : (w : fs.Handle × fs.Disk) → target (fs.flush w).1.0 ≡ target w.0
  pub flush_open : (w : fs.Handle × fs.Disk) → is_open w → is_open (fs.flush w).1
  pub flush_content :
      (w : fs.Handle × fs.Disk)
      → is_open w
      → (fs.flush w).0 ≡ written
      → content (target w.0) (fs.flush w).1.1 ≡ some (accepted w.0)
  pub drop_others :
      (q : Bytes) (h : fs.Handle) (d : fs.Disk)
      → is_open (h, d)
      → str_eq (target h) q ≡ false
      → content q (fs.drop (h, d)) ≡ content q d
  pub rename_written :
      (p q : Bytes) (d : fs.Disk)
      → (fs.rename p q d).0 ≡ written
      → content q (fs.rename p q d).1 ≡ content p d
  pub rename_failed :
      (p q r : Bytes) (d : fs.Disk)
      → (fs.rename p q d).0 ≢ written
      → content r (fs.rename p q d).1 ≡ content r d

module _ (fs : FileSystem) (is_fs : IsFileSystem fs) where
  open is_fs use {content, target, accepted, is_open}

  -- other files than the open one
  abbrev pub OthersKept : fs.Handle × fs.Disk → fs.Handle × fs.Disk → Type 0
  OthersKept w w₁ = (q : Bytes) → str_eq (target w.0) q ≡ false → content q w₁.1 ≡ content q w.1

  -- Of some writes: they were all accepted, and make up the bytes, or one of them failed.
  pub data Appends (s : Bytes) (w : fs.Handle × fs.Disk)
      : IoResult × (fs.Handle × fs.Disk) → Type 0 where
    took :
        {w₁ : fs.Handle × fs.Disk}
        → target w₁.0 ≡ target w.0
        → accepted w₁.0 ≡ accepted w.0 ++ s
        → OthersKept w w₁
        → is_open w₁
        → Appends s w (written, w₁)
    gave_up :
        {e : Bytes} {w₁ : fs.Handle × fs.Disk}
        → target w₁.0 ≡ target w.0
        → OthersKept w w₁
        → is_open w₁
        → Appends s w (io_error e, w₁)

  write_all-Appends-at :
      (s : Bytes) (w : fs.Handle × fs.Disk) (r : IoResult × (fs.Handle × fs.Disk))
      → is_open w
      → fs.write_all s w ≡ r
      → Appends s w r
  write_all-Appends-at s w (written, w₁) o e =
      took (ap (λ x. target x.1.0) (sym e) ∙ is_fs.write_target s w)
        (ap (λ x. accepted x.1.0) (sym e) ∙ is_fs.write_accepted s w (ap (λ x. x.0) e))
        (λ q h. ap (λ x. content q x.1.1) (sym e) ∙ is_fs.write_others s q w.0 w.1 o h)
        (subst (λ x. is_open x.1) e (is_fs.write_open s w o))
  write_all-Appends-at s w (io_error why, w₁) o e =
      gave_up (ap (λ x. target x.1.0) (sym e) ∙ is_fs.write_target s w)
        (λ q h. ap (λ x. content q x.1.1) (sym e) ∙ is_fs.write_others s q w.0 w.1 o h)
        (subst (λ x. is_open x.1) e (is_fs.write_open s w o))

  OthersKept-trans :
      (w w₁ w₂ : fs.Handle × fs.Disk)
      → target w₁.0 ≡ target w.0
      → OthersKept w w₁
      → OthersKept w₁ w₂
      → OthersKept w w₂
  OthersKept-trans w w₁ w₂ at first second q h = second q (rw at h) ∙ first q h

  Appends-after :
      (s t : Bytes) (w w₁ : fs.Handle × fs.Disk) (r : IoResult × (fs.Handle × fs.Disk))
      → target w₁.0 ≡ target w.0
      → accepted w₁.0 ≡ accepted w.0 ++ s
      → OthersKept w w₁
      → Appends t w₁ r
      → Appends (s ++ t) w r
  Appends-after s t w w₁ (_, w₂) at all others (took at₂ all₂ others₂ o) =
      took (at₂ ∙ at) (all₂ ∙ ap (λ u. u ++ t) all ∙ append_assoc (accepted w.0) s t)
        (OthersKept-trans w w₁ w₂ at others others₂) o
  Appends-after s t w w₁ (_, w₂) at all others (gave_up at₂ others₂ o) =
      gave_up (at₂ ∙ at) (OthersKept-trans w w₁ w₂ at others others₂) o

  and_then-Appends :
      (s t : Bytes) (w : fs.Handle × fs.Disk) (m : IoResult × (fs.Handle × fs.Disk))
      (k : fs.Handle × fs.Disk → IoResult × (fs.Handle × fs.Disk))
      → Appends s w m
      → ((w₁ : fs.Handle × fs.Disk) → is_open w₁ → Appends t w₁ (k w₁))
      → Appends (s ++ t) w (and_then m k)
  and_then-Appends s t w (_, w₁) k (took at all others o) h =
      Appends-after s t w w₁ (k w₁) at all others (h w₁ o)
  and_then-Appends s t w (_, w₁) k (gave_up at others o) h = gave_up at others o

  pub write_rdb-Appends :
      (clock : ℕ → Now) (db : List (Bytes × RedisObject)) (expirations : List (Bytes × Instant))
      (w : fs.Handle × fs.Disk)
      → is_open w
      → Appends
          (rdb_bytes clock db expirations)
          w
          (write_rdb (file_writer fs) clock db expirations w)
  write_rdb-Appends =
      write_rdb-Writes (file_writer fs) (λ s w r. is_open w → Appends s w r)
        (λ s w o. write_all-Appends-at s w (fs.write_all s w) o refl)
        (λ w o. took refl (sym (append-nil (accepted w.0))) (λ q h. refl) o)
        (λ s t w m k first h o. and_then-Appends s t w m k (first o) h)
