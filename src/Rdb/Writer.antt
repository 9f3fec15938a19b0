-- ===== src/Rdb/Writer.antt =====
-- src/rdb/writer.rs: what `save_rdb` writes into the temporary file. `AsyncWrite` stands for
-- `std::io::Write` here; creating the file, and renaming it at the end, are left out.
pub mod Encode
use ember.Prelude.{
  ℕ, zero, suc, ◌+◌, ◌-◌, ◌/◌, ◌%◌, ◌^◌, Bool, List, [], ◌∷◌, ltb, if◌then◌else◌, length,
}
use ember.Text.{Bytes, codes}
use ember.Resp.Types.{IoResult, written, AsyncWrite, and_then}
use ember.Database.Core.{Instant}
use ember.Database.Object
use ember.Database.Object.{RedisObject, to_list}
use ember.Rdb.{Now, to_be_bytes, to_le_bytes}

-- the expiration as milliseconds since the epoch, in 64 bits
unfoldable pub expiry_millis : Now → Instant → ℕ
expiry_millis now t =
    (if ltb now.instant t then now.system + (t - now.instant) else now.system) / 1_000_000 % 2 ^ 64

module _ (file : AsyncWrite) where
  open file use {Writer, write_all}

  unfoldable pub write_length : ℕ → Writer → IoResult × Writer
  write_length len w =
      if ltb len 64
      then write_all (len ∷ []) w
      else and_then (write_all (0x80 ∷ []) w) λ w₁. write_all (to_be_bytes (len % 2 ^ 32)) w₁

  unfoldable pub write_string : Bytes → Writer → IoResult × Writer
  write_string s w = and_then (write_length (length s) w) λ w₁. write_all s w₁

  unfoldable pub write_value : Bytes → Bytes → Writer → IoResult × Writer
  write_value key value w =
      and_then (write_all (0x00 ∷ []) w)
        λ w₁. and_then (write_string key w₁) λ w₂. write_string value w₂

  -- the loop over the items of a list, the nested lists left out
  unfoldable pub write_list : Bytes → List RedisObject → Writer → IoResult × Writer
  write_list key [] w = (written, w)
  write_list key (Object.string s ∷ l) w = and_then (write_value key s w) λ w₁. write_list key l w₁
  write_list key (Object.list os ∷ l) w = write_list key l w

  unfoldable pub write_object : Bytes → RedisObject → Writer → IoResult × Writer
  write_object key (Object.string s) w =
      and_then (write_string (codes "string") w) λ w₁. write_value key s w₁
  write_object key (Object.list l) w =
      and_then (write_string (codes "list") w)
        λ w₁. and_then (write_length (length (to_list l)) w₁) λ w₂. write_list key (to_list l) w₂

  unfoldable pub write_expiry : Now → Bytes → Instant → Writer → IoResult × Writer
  write_expiry now key t w = and_then (write_string key w) λ w₁.
      and_then (write_all (0xFC ∷ []) w₁) λ w₂. write_all (to_le_bytes 8 (expiry_millis now t)) w₂

  unfoldable pub write_entries : List (Bytes × RedisObject) → Writer → IoResult × Writer
  write_entries [] w = (written, w)
  write_entries ((key, value) ∷ db) w =
      and_then (write_object key value w) λ w₁. write_entries db w₁

  unfoldable pub write_expiries : (ℕ → Now) → List (Bytes × Instant) → Writer → IoResult × Writer
  write_expiries clock [] w = (written, w)
  write_expiries clock ((key, t) ∷ expirations) w =
      and_then (write_expiry (clock 0) key t w)
        λ w₁. write_expiries (λ i. clock (suc i)) expirations w₁

  -- The maps are listed in the order in which they are iterated over.
  unfoldable pub write_db :
      (ℕ → Now) → List (Bytes × RedisObject) → List (Bytes × Instant) → Writer → IoResult × Writer
  write_db clock db expirations w = and_then (write_all (0xFE ∷ []) w) λ w₁.
      and_then (write_length 0 w₁)
        λ w₂. and_then (write_entries db w₂) λ w₃. write_expiries clock expirations w₃

  -- the part of `save_rdb` between the creation of the file and the flush
  unfoldable pub write_rdb :
      (ℕ → Now) → List (Bytes × RedisObject) → List (Bytes × Instant) → Writer → IoResult × Writer
  write_rdb clock db expirations w =
      and_then (write_all (codes "REDIS0001") w) λ w₁. write_db clock db expirations w₁
