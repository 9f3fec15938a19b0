-- ===== src/Rdb/Writer/Encode.antt =====
-- The bytes of a snapshot, and that these are what is written.
use mathlib.Core.Path.{fun_ext}
use ember.Prelude.{
  ℕ, suc, ◌%◌, ◌^◌, ◌≡◌, refl, sym, Bool-cases, inl, inr, List, [], ◌∷◌, ◌++◌, ltb, if◌then◌else◌,
  length,
}
use ember.Text.{Bytes, codes}
use ember.Resp.Types.{IoResult, written, AsyncWrite, and_then}
use ember.Resp.Types.Write.{IsStream}
use ember.Database.Core.{Instant}
use ember.Database.Object.{RedisObject, string, list, to_list}
use ember.Rdb.{Now, to_be_bytes, to_le_bytes}
use ember.Rdb.Writer.{
  expiry_millis, write_length, write_string, write_value, write_list, write_object, write_expiry,
  write_entries, write_expiries, write_db, write_rdb,
}

unfoldable pub length_bytes : ℕ → Bytes
length_bytes len = if ltb len 64 then len ∷ [] else 0x80 ∷ to_be_bytes (len % 2 ^ 32)

unfoldable pub string_bytes : Bytes → Bytes
string_bytes s = length_bytes (length s) ++ s

unfoldable pub value_bytes : Bytes → Bytes → Bytes
value_bytes key value = 0x00 ∷ (string_bytes key ++ string_bytes value)

unfoldable pub items_bytes : Bytes → List RedisObject → Bytes
items_bytes key [] = []
items_bytes key (string s ∷ l) = value_bytes key s ++ items_bytes key l
items_bytes key (list os ∷ l) = items_bytes key l

unfoldable pub object_bytes : Bytes → RedisObject → Bytes
object_bytes key (string s) = string_bytes (codes "string") ++ value_bytes key s
object_bytes key (list l) =
    string_bytes (codes "list")
    ++ (length_bytes (length (to_list l)) ++ items_bytes key (to_list l))

unfoldable pub expiry_bytes : Now → Bytes → Instant → Bytes
expiry_bytes now key t = string_bytes key ++ 0xFC ∷ to_le_bytes 8 (expiry_millis now t)

unfoldable pub entries_bytes : List (Bytes × RedisObject) → Bytes
entries_bytes [] = []
entries_bytes ((key, value) ∷ db) = object_bytes key value ++ entries_bytes db

unfoldable pub expiries_bytes : (ℕ → Now) → List (Bytes × Instant) → Bytes
expiries_bytes clock [] = []
expiries_bytes clock ((key, t) ∷ expirations) =
    expiry_bytes (clock 0) key t ++ expiries_bytes (λ i. clock (suc i)) expirations

unfoldable pub rdb_bytes : (ℕ → Now) → List (Bytes × RedisObject) → List (Bytes × Instant) → Bytes
rdb_bytes clock db expirations =
    codes "REDIS0001" ++ 0xFE ∷ 0 ∷ (entries_bytes db ++ expiries_bytes clock expirations)

-- What holds of one write, of no write and of two in a row holds of a whole snapshot: `Writes s w r`
-- is what is known of a result `r` of writing the bytes `s` to `w`, in however many pieces.
module _ (file : AsyncWrite) (Writes : Bytes → file.Writer → IoResult × file.Writer → Type 0)
    (one : (s : Bytes) (w : file.Writer) → Writes s w (file.write_all s w))
    (nothing : (w : file.Writer) → Writes [] w (written, w))
    (both : (s t : Bytes) (w : file.Writer) (m : IoResult × file.Writer)
        (k : file.Writer → IoResult × file.Writer)
      → Writes s w m
      → ((w₁ : file.Writer) → Writes t w₁ (k w₁))
      → Writes (s ++ t) w (and_then m k)) where
  open file use {Writer, write_all}

  then_both :
      (s t : Bytes) (w : Writer) (k : Writer → IoResult × Writer)
      → ((w₁ : Writer) → Writes t w₁ (k w₁))
      → Writes (s ++ t) w (and_then (write_all s w) k)
  then_both s t w k h = both s t w (write_all s w) k (one s w) h

  write_length-Writes :
      (len : ℕ) (w : Writer) → Writes (length_bytes len) w (write_length file len w)
  unfolding write_length length_bytes
  write_length-Writes len w = elim (Bool-cases (ltb len 64)) [
    | inl h ↦ rw h (one (len ∷ []) w)
    | inr h ↦ rw h (
        then_both (0x80 ∷ []) (to_be_bytes (len % 2 ^ 32)) w _
          (λ w₁. one (to_be_bytes (len % 2 ^ 32)) w₁))
  ]

  write_length-zero : (w : Writer) → Writes (0 ∷ []) w (write_length file 0 w)
  unfolding write_length
  write_length-zero w = one (0 ∷ []) w

  write_string-Writes : (s : Bytes) (w : Writer) → Writes (string_bytes s) w (write_string file s w)
  unfolding write_string string_bytes
  write_string-Writes s w =
      both (length_bytes (length s)) s w _ _ (write_length-Writes (length s) w) (λ w₁. one s w₁)

  write_value-Writes :
      (key value : Bytes) (w : Writer)
      → Writes (value_bytes key value) w (write_value file key value w)
  unfolding write_value value_bytes
  write_value-Writes key value w =
      then_both (0x00 ∷ []) (string_bytes key ++ string_bytes value) w _ λ w₁.
        both (string_bytes key) (string_bytes value) w₁ _ _ (write_string-Writes key w₁)
          (λ w₂. write_string-Writes value w₂)

  write_list-Writes :
      (key : Bytes) (l : List RedisObject) (w : Writer)
      → Writes (items_bytes key l) w (write_list file key l w)
  unfolding write_list items_bytes
  write_list-Writes key [] w = nothing w
  write_list-Writes key (string s ∷ l) w =
      both (value_bytes key s) (items_bytes key l) w _ _ (write_value-Writes key s w)
        (λ w₁. write_list-Writes key l w₁)
  write_list-Writes key (list os ∷ l) w = write_list-Writes key l w

  write_object-Writes :
      (key : Bytes) (value : RedisObject) (w : Writer)
      → Writes (object_bytes key value) w (write_object file key value w)
  unfolding write_object object_bytes
  write_object-Writes key (string s) w =
      both (string_bytes (codes "string")) (value_bytes key s) w _ _ (write_string-Writes _ w)
        (λ w₁. write_value-Writes key s w₁)
  write_object-Writes key (list l) w =
      both (string_bytes (codes "list")) _ w _ _ (write_string-Writes _ w) λ w₁.
        both (length_bytes (length (to_list l))) (items_bytes key (to_list l)) w₁ _ _
          (write_length-Writes _ w₁) (λ w₂. write_list-Writes key (to_list l) w₂)

  write_expiry-Writes :
      (now : Now) (key : Bytes) (t : Instant) (w : Writer)
      → Writes (expiry_bytes now key t) w (write_expiry file now key t w)
  unfolding write_expiry expiry_bytes
  write_expiry-Writes now key t w =
      both (string_bytes key) (0xFC ∷ to_le_bytes 8 (expiry_millis now t)) w _ _
        (write_string-Writes key w)
        λ w₁. then_both (0xFC ∷ []) (to_le_bytes 8 (expiry_millis now t)) w₁ _ (λ w₂. one _ w₂)

  write_entries-Writes :
      (db : List (Bytes × RedisObject)) (w : Writer)
      → Writes (entries_bytes db) w (write_entries file db w)
  unfolding write_entries entries_bytes
  write_entries-Writes [] w = nothing w
  write_entries-Writes ((key, value) ∷ db) w =
      both (object_bytes key value) (entries_bytes db) w _ _ (write_object-Writes key value w)
        (λ w₁. write_entries-Writes db w₁)

  write_expiries-Writes :
      (clock : ℕ → Now) (expirations : List (Bytes × Instant)) (w : Writer)
      → Writes (expiries_bytes clock expirations) w (write_expiries file clock expirations w)
  unfolding write_expiries expiries_bytes
  write_expiries-Writes clock [] w = nothing w
  write_expiries-Writes clock ((key, t) ∷ es) w =
      both (expiry_bytes (clock 0) key t) _ w _ _ (write_expiry-Writes (clock 0) key t w)
        (λ w₁. write_expiries-Writes (λ i. clock (suc i)) es w₁)

  pub write_rdb-Writes :
      (clock : ℕ → Now) (db : List (Bytes × RedisObject)) (expirations : List (Bytes × Instant))
      (w : Writer)
      → Writes (rdb_bytes clock db expirations) w (write_rdb file clock db expirations w)
  unfolding write_rdb write_db rdb_bytes
  write_rdb-Writes clock db expirations w = then_both (codes "REDIS0001") _ w _ λ w₁.
      then_both (0xFE ∷ []) _ w₁ _ λ w₂. both (0 ∷ []) _ w₂ _ _ (write_length-zero w₂) λ w₃.
        both (entries_bytes db) (expiries_bytes clock expirations) w₃ _ _
          (write_entries-Writes db w₃) (λ w₄. write_expiries-Writes clock expirations w₄)

module _ (file : AsyncWrite) (stream : IsStream file) where
  open file use {Writer, write_all}

  both_all :
      (s t : Bytes) (w : Writer) (m : IoResult × Writer) (k : Writer → IoResult × Writer)
      → m ≡ write_all s w
      → ((w₁ : Writer) → k w₁ ≡ write_all t w₁)
      → and_then m k ≡ write_all (s ++ t) w
  both_all s t w m k e h = rw (e, fun_ext h) (stream.write_append s t w)

  -- Into a writer that cannot tell how its input was cut into writes, a snapshot is written as the
  -- bytes of the file's format, whether the writes succeed or fail: the header, the selector of the
  -- database, every entry under the name of its type, and every expiration behind its key.
  pub write_rdb-rdb_bytes :
      (clock : ℕ → Now) (db : List (Bytes × RedisObject)) (expirations : List (Bytes × Instant))
      (w : Writer)
      → write_rdb file clock db expirations w ≡ write_all (rdb_bytes clock db expirations) w
  write_rdb-rdb_bytes clock db expirations w =
      write_rdb-Writes file (λ s w₁ r. r ≡ write_all s w₁) (λ s w₁. refl)
        (λ w₁. sym (stream.write_nil w₁)) both_all clock db expirations w
