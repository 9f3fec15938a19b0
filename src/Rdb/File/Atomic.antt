-- ===== src/Rdb/File/Atomic.antt =====
-- The files that `save_rdb` (rdb/writer.rs) leaves, given what the documentation of std::fs says.
use mathlib.Core.Path.{subst}
use ember.Prelude.{
  ℕ, ◌≡◌, ◌≢◌, refl, ◌∙◌, ap, sym, false, List, [], ◌∷◌, ◌++◌, Option, some, arith, ◌⊎◌, inl, inr,
}
use ember.Text.{Bytes, str_eq}
use ember.Resp.Types.{IoResult, written, io_error, and_then}
use ember.Database.Object.{RedisObject}
use ember.Database.Core.{Instant}
use ember.Rdb.{Now}
use ember.Rdb.Writer.{write_rdb}
use ember.Rdb.Writer.Encode.{rdb_bytes}
use ember.Rdb.File.{FileSystem, file_writer, temp_path, on_flushed, on_created, save_rdb}
use ember.Rdb.File.Contract.{IsFileSystem, Appends, took, gave_up, write_rdb-Appends}

temp_path_differs : (path suffix : Bytes) (b : ℕ) → str_eq (path ++ b ∷ suffix) path ≡ false
unfolding str_eq
temp_path_differs [] suffix b = refl
temp_path_differs (a ∷ path) suffix b = ground (arith, temp_path_differs path suffix b)

module _ (fs : FileSystem) (is_fs : IsFileSystem fs) where
  open is_fs use {content, target, accepted, is_open}

  -- The file holds the new bytes exactly if there was no error, and else what it held.
  pub data Saved (path bytes : Bytes) (old : Option Bytes) : IoResult × fs.Disk → Type 0 where
    replaced : {d : fs.Disk} → content path d ≡ some bytes → Saved path bytes old (written, d)
    kept : {e : Bytes} {d : fs.Disk} → content path d ≡ old → Saved path bytes old (io_error e, d)

  rename-Saved :
      (path bytes : Bytes) (old : Option Bytes) (d : fs.Disk) (r : IoResult × fs.Disk)
      → fs.rename (temp_path fs path) path d ≡ r
      → content (temp_path fs path) d ≡ some bytes
      → content path d ≡ old
      → Saved path bytes old r
  rename-Saved path bytes old d (written, d') e new same = replaced (
      ap (λ x. content path x.1) (sym e)
      ∙ is_fs.rename_written (temp_path fs path) path d (ap (λ x. x.0) e)
      ∙ new)
  rename-Saved path bytes old d (io_error why, d') e new same = kept (
      ap (λ x. content path x.1) (sym e)
      ∙ is_fs.rename_failed (temp_path fs path) path path d (cc)
      ∙ same)

  module _ (path bytes : Bytes) (old : Option Bytes) where
    abbrev temp : Bytes
    temp = temp_path fs path

    on_flushed-Saved :
        (w : fs.Handle × fs.Disk) (r : IoResult × (fs.Handle × fs.Disk))
        → fs.flush w ≡ r
        → is_open w
        → target w.0 ≡ temp
        → accepted w.0 ≡ bytes
        → content path w.1 ≡ old
        → Saved path bytes old (on_flushed fs path r)
    unfolding on_flushed
    on_flushed-Saved (h, d) (written, (h', d')) e o at all same =
        rename-Saved path bytes old d' (fs.rename temp path d') refl
          (ap (λ p. content p d') (sym at)
            ∙ ap (λ x. content (target h) x.1.1) (sym e)
            ∙ is_fs.flush_content (h, d) o (ap (λ x. x.0) e)
            ∙ ap some all)
          (ap (λ x. content path x.1.1) (sym e)
            ∙ is_fs.flush_others path h d o (rw at (temp_path_differs path _ _))
            ∙ same)
    on_flushed-Saved (h, d) (io_error why, (h', d')) e o at all same = kept (
        is_fs.drop_others path h' d' (subst (λ x. is_open x.1) e (is_fs.flush_open (h, d) o)) (
          rw (ap (λ x. target x.1.0) (sym e) ∙ is_fs.flush_target (h, d) ∙ at)
            (temp_path_differs path _ _))
        ∙ ap (λ x. content path x.1.1) (sym e)
        ∙ is_fs.flush_others path h d o (rw at (temp_path_differs path _ _))
        ∙ same)

    written-Saved :
        (w : fs.Handle × fs.Disk) (r : IoResult × (fs.Handle × fs.Disk))
        → Appends fs is_fs bytes w r
        → target w.0 ≡ temp
        → accepted w.0 ≡ []
        → content path w.1 ≡ old
        → Saved path bytes old (on_flushed fs path (and_then r λ w₁. fs.flush w₁))
    unfolding on_flushed
    written-Saved w (_, w₁) (took at all others o) same_target none_yet same =
        on_flushed-Saved w₁ (fs.flush w₁) refl o (at ∙ same_target)
          (all ∙ ap (λ s. s ++ bytes) none_yet)
          (others path (rw same_target (temp_path_differs path _ _)) ∙ same)
    written-Saved w (_, (h₁, d₁)) (gave_up at others o) same_target none_yet same = kept (
        is_fs.drop_others path h₁ d₁ o (rw (at ∙ same_target) (temp_path_differs path _ _))
        ∙ others path (rw same_target (temp_path_differs path _ _))
        ∙ same)

  module _ (clock : ℕ → Now) (path : Bytes) (db : List (Bytes × RedisObject))
      (expirations : List (Bytes × Instant)) where
    on_created-Saved :
        (d : fs.Disk) (r : (Bytes ⊎ fs.Handle) × fs.Disk)
        → fs.create (temp_path fs path) d ≡ r
        → Saved path
            (rdb_bytes clock db expirations)
            (content path d)
            (on_created fs clock path db expirations r)
    unfolding on_created
    on_created-Saved d (inl why, d') e = kept (
        ap (λ x. content path x.1) (sym e)
        ∙ is_fs.create_others (temp_path fs path) path d (temp_path_differs path _ _))
    on_created-Saved d (inr h, d') e =
        let (at, none_yet, o) = is_fs.create_new (temp_path fs path) d h (ap (λ x. x.0) e) in
        written-Saved path (rdb_bytes clock db expirations) (content path d) (h, d')
          (write_rdb (file_writer fs) clock db expirations (h, d'))
          (write_rdb-Appends fs is_fs clock db expirations (h, d')
            (subst (λ x. is_open (h, x.1)) e o))
          at none_yet
          (ap (λ x. content path x.1) (sym e)
            ∙ is_fs.create_others (temp_path fs path) path d (temp_path_differs path _ _))

    pub save_rdb-Saved :
        (d : fs.Disk)
        → Saved path
            (rdb_bytes clock db expirations)
            (content path d)
            (save_rdb fs clock path db expirations d)
    unfolding save_rdb
    save_rdb-Saved d = on_created-Saved d (fs.create (temp_path fs path) d) refl

    Saved-cases :
        (bytes : Bytes) (old : Option Bytes) (r : IoResult × fs.Disk)
        → Saved path bytes old r
        → ((r.0 ≡ written) × (content path r.1 ≡ some bytes))
          ⊎ ((r.0 ≢ written) × (content path r.1 ≡ old))
    Saved-cases bytes old _ (replaced e) = inl (refl, e)
    Saved-cases bytes old _ (kept e) = inr (cc, e)

    -- If the calls of `std::fs` do what their documentation says on files that are not links to one
    -- another, whichever of them fails on the way, and however that depends on how the bytes are cut
    -- into writes, a save that reports success has left all the bytes of the snapshot under the path,
    -- and one that reports an error has left what was there before, which may be no file.
    pub save_rdb_atomic :
        (d : fs.Disk)
        → let (r, d') = save_rdb fs clock path db expirations d in
          ((r ≡ written) × (content path d' ≡ some (rdb_bytes clock db expirations)))
          ⊎ ((r ≢ written) × (content path d' ≡ content path d))
    save_rdb_atomic d = Saved-cases _ _ _ (save_rdb-Saved d)
