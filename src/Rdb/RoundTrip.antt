-- ===== src/Rdb/RoundTrip.antt =====
-- A snapshot that was written is loaded.
pub mod Numbers
pub mod Rounds
use ember.Prelude.{
  ℕ, zero, suc, ◌+◌, ◌-◌, ◌*◌, ◌/◌, ◌%◌, ◌^◌, ◌≤◌, ◌<◌, ◌≡◌, ◌≢◌, refl, ap, sym, ◌∙◌, true, false,
  List, [], ◌∷◌, ◌++◌, append_assoc, append-nil, arith, ltb, leb, ◌==◌, le→leb, ltb→lt,
  if◌then◌else◌, Bool-cases, inl, inr, length, take, drop, length-append, Option, none, some, All,
  Result, ok, err, panic, out_of_fuel, ◌>>=◌, not,
}
use ember.Text.{Bytes, codes, str_eq}
use ember.Text.Utf8.{utf8_run, utf8_step}
use ember.Text.Ascii.{to_ascii_uppercase, ascii_upper}
use ember.Database.Core.{Instant}
use ember.Database.Map.{put}
use ember.Database.Object.{
  RedisObject, Objects, string, list, nil, cons, to_list, from_list, from_list-to_list,
}
use ember.Rdb.{Now, to_le_bytes}
use ember.Rdb.Writer.{expiry_millis}
use ember.Rdb.Writer.Encode.{
  length_bytes, string_bytes, value_bytes, items_bytes, object_bytes, expiry_bytes, entries_bytes,
  expiries_bytes, rdb_bytes,
}
use ember.Rdb.Reader.{
  Loads, Loaded, read_exact, read_byte, read_header, expiry_instant, read_expiry, read_length,
  read_value, read_length_with_first, read_items, first_key, insert_list, read_entry, read_marked,
  parse_marked, parse_rdb,
}
use ember.Rdb.RoundTrip.Numbers.{
  IsSized, marker_of, length_tail, length_bytes-marker_of, read_exact-append,
  read_length-length_bytes, read_string-tail, read_string-string_bytes, read_value-value_bytes,
  from_le_bytes-to_le_bytes,
}
use ember.Rdb.RoundTrip.Rounds.{
  IsItem, items_key, items_key-first_key, read_items-items_bytes, stored, IsStorable,
  insert_list-stored, go_on, not_special, parse_marked-token, read_entry-string, read_entry-list,
  name-IsSized, parse_marked-object, IsExpiryKey, restored, read_exact_le, read_expiry-bytes,
  expiry_millis_small, parse_marked-expiry,
}

-- the clocks of the rounds behind those on these entries
abbrev pub clock_behind {ℓ} : {A : Type ℓ} → List A → (ℕ → Now) → ℕ → Now
clock_behind [] clock = clock
clock_behind (e ∷ es) clock = clock_behind es (λ i. clock (suc i))

-- What the entries add, in order, and what the expirations add.
abbrev pub store_all : List (Bytes × RedisObject) → Loaded → Loaded
store_all [] st = st
store_all ((key, o) ∷ db) st = store_all db (stored key o st)

abbrev pub restore_all : (ℕ → Now) → (ℕ → Now) → List (Bytes × Instant) → Loaded → Loaded
restore_all written read [] st = st
restore_all written read ((key, t) ∷ es) st =
    restore_all (λ i. written (suc i)) (λ i. read (suc i)) es
      (record st { expirations = put key (restored (written 0) (read 0) t) st.expirations })

abbrev pub AreStorable : List (Bytes × RedisObject) → Type 0
AreStorable db = All (λ (key, o). IsStorable key o) db

abbrev pub AreExpiries : List (Bytes × Instant) → Type 0
AreExpiries es = All (λ (key, t). IsExpiryKey key) es

length-object_bytes_pos : (key : Bytes) (o : RedisObject) → 0 < length (object_bytes key o)
unfolding object_bytes string_bytes length_bytes
length-object_bytes_pos key (string s) = omega arith
length-object_bytes_pos key (list os) = omega arith

length-expiry_bytes_pos :
    (now : Now) (key : Bytes) (t : Instant) → 0 < length (expiry_bytes now key t)
unfolding expiry_bytes to_le_bytes
length-expiry_bytes_pos now key t =
    omega (arith, length-append (string_bytes key) (0xFC ∷ to_le_bytes 8 (expiry_millis now t)))

parse_marked-entries :
    (db : List (Bytes × RedisObject)) (f : ℕ) (clock : ℕ → Now) (st : Loaded) (rest : Bytes)
    → AreStorable db
    → length (entries_bytes db ++ rest) < f
    → (g : ℕ) × (length rest < g)
      × (parse_marked f clock st (entries_bytes db ++ rest)
          ≡ parse_marked g (clock_behind db clock) (store_all db st) rest)
unfolding entries_bytes
parse_marked-entries [] f clock st rest h lt = (f, lt, refl)
parse_marked-entries (e ∷ db) zero clock st rest h lt = absurd (omega arith)
parse_marked-entries ((key, o) ∷ db) (suc f) clock st rest (ho, h) lt =
    let enough : length (entries_bytes db ++ rest) < f = omega (
      arith,
      length-append (object_bytes key o ++ entries_bytes db) rest,
      length-append (object_bytes key o) (entries_bytes db),
      length-append (entries_bytes db) rest,
      length-object_bytes_pos key o,
    ) in
    let (g, more, e) =
      parse_marked-entries db f (λ i. clock (suc i)) (stored key o st) rest h enough in
    (
      g,
      more,
      ap (λ b. parse_marked (suc f) clock st b)
            (append_assoc (object_bytes key o) (entries_bytes db) rest)
          ∙ (parse_marked-object f clock st key o (entries_bytes db ++ rest) ho ∙ e),
    )

parse_marked-expiries :
    (es : List (Bytes × Instant)) (f : ℕ) (written read : ℕ → Now) (st : Loaded)
    → AreExpiries es
    → length (expiries_bytes written es) < f
    → parse_marked f read st (expiries_bytes written es) ≡ ok (restore_all written read es st)
unfolding expiries_bytes parse_marked
parse_marked-expiries es zero written read st h lt = absurd (omega arith)
parse_marked-expiries [] (suc f) written read st h lt = refl
parse_marked-expiries ((key, t) ∷ es) (suc f) written read st (hk, h) lt =
    let others = expiries_bytes (λ i. written (suc i)) es in
    parse_marked-expiry f read st (written 0) key t others hk
    ∙ parse_marked-expiries es f (λ i. written (suc i)) (λ i. read (suc i)) _ h
        (omega (
          arith,
          length-append (expiry_bytes (written 0) key t) others,
          length-expiry_bytes_pos (written 0) key t,
        ))

abbrev pub nothing_loaded : Loaded
nothing_loaded = record { db = []; expirations = [] }

read_header-magic : (rest : Bytes) → read_header (codes "REDIS0001" ++ rest) ≡ ok (tt, rest)
unfolding read_header str_eq
read_header-magic rest = rw (read_exact-append (codes "REDIS0001") rest)

parse_marked-selector :
    (f : ℕ) (clock : ℕ → Now) (st : Loaded) (rest : Bytes)
    → parse_marked (suc f) clock st (0xFE ∷ 0 ∷ rest) ≡ parse_marked f (λ i. clock (suc i)) st rest
unfolding parse_marked read_marked read_length read_byte read_length_with_first
parse_marked-selector f clock st rest = refl

-- The file of a snapshot is loaded without an error, whatever the clocks return: every string and
-- every list comes back under its key, but for the lists without items, and every expiration comes
-- back through both clocks, in milliseconds. The keys and strings are UTF-8 of less than 2^32
-- bytes, the lists hold less than 2^32 strings and nothing else, and no key with an expiration is
-- spelled like the name of a type.
pub parse_rdb-rdb_bytes :
    (written read : ℕ → Now) (db : List (Bytes × RedisObject)) (es : List (Bytes × Instant))
    → AreStorable db
    → AreExpiries es
    → parse_rdb read (rdb_bytes written db es)
      ≡ ok (
          restore_all written
            (clock_behind db (λ i. read (suc i)))
            es
            (store_all db nothing_loaded))
unfolding parse_rdb rdb_bytes
parse_rdb-rdb_bytes written read db es hdb hes =
    let body = entries_bytes db ++ expiries_bytes written es in
    let (g, enough, e) =
      parse_marked-entries db (suc (suc (length body))) (λ i. read (suc i)) nothing_loaded
        (expiries_bytes written es) hdb (omega arith) in
    rw (
      read_header-magic (0xFE ∷ 0 ∷ body),
      parse_marked-selector (suc (suc (length body))) read nothing_loaded body,
      e,
      parse_marked-expiries es g written (clock_behind db (λ i. read (suc i)))
          (store_all db nothing_loaded) hes enough,
    )
