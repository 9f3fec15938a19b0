-- ===== src/Tests/Rdb.antt =====
-- Snapshots at concrete inputs.
use ember.Prelude.{ℕ, ◌≡◌, ◌≢◌, refl, List, [], ◌∷◌, arith, some, ok, err, out_of_fuel}
use ember.Text.{Bytes, codes, str_eq}
use ember.Text.Utf8.{utf8_run, utf8_step, from_utf8_lossy}
use ember.Text.Ascii.{ascii_upper, to_ascii_uppercase}
use ember.Database.Core.{Instant, Db}
use ember.Rdb.View.{saved_is_loaded}
use ember.Database.Map.{assoc_map, lookup, put}
use ember.Database.Object.{RedisObject, string, list, nil, cons}
use ember.Rdb.{Now, to_le_bytes}
use ember.Text.Decimal.{format_usize, digits}
use ember.Rdb.Writer.{expiry_millis, write_rdb}
use ember.Rdb.Writer.Encode.{
  rdb_bytes, entries_bytes, expiries_bytes, expiry_bytes, string_bytes, length_bytes,
  write_rdb-rdb_bytes,
}
use ember.Rdb.Reader.Total.{parse_rdb_total}
use ember.Rdb.Reader.{
  Loaded, expiry_instant, parse_rdb, read_header, read_exact, parse_marked, read_marked,
  read_length, read_byte, read_length_with_first, read_entry, read_string_with_first_len,
  read_value,
}
use ember.Rdb.RoundTrip.{AreStorable, AreExpiries, parse_rdb-rdb_bytes}
use ember.Tests.Resp.{socket, twenty, send, socket-IsStream}

abbrev words : RedisObject
words = list (cons (string (codes "x")) (cons (string (codes "y")) nil))

abbrev db : List (Bytes × RedisObject)
db = (codes "name", string (codes "ember")) ∷ (codes "words", words) ∷ (codes "none", list nil) ∷ []

abbrev expirations : List (Bytes × Instant)
expirations = (codes "name", 7_000_000) ∷ []

-- The program starts at the epoch; the reader reads one millisecond later than the writer writes.
abbrev written : ℕ → Now
written i = record { instant = 2_000_000; system = 2_000_000 }

abbrev read : ℕ → Now
read i = record { instant = 3_000_000; system = 3_000_000 }

db-AreStorable : AreStorable db
unfolding utf8_run utf8_step
db-AreStorable = (
  ((refl, omega arith), (refl, omega arith)),
  (
    ((refl, omega arith), omega arith, ((refl, omega arith), ((refl, omega arith), tt))),
    (((refl, omega arith), omega arith, tt), tt),
  ),
)

expirations-AreExpiries : AreExpiries expirations
unfolding utf8_run utf8_step to_ascii_uppercase ascii_upper str_eq
expirations-AreExpiries = (((refl, omega arith), refl, refl), tt)

parse_rdb-rdb_bytes_example :
    parse_rdb read (rdb_bytes written db expirations)
    ≡ ok (record {
      db = (codes "name", string (codes "ember")) ∷ (codes "words", words) ∷ [];
      expirations = (codes "name", 7_000_000) ∷ [];
    })
unfolding put str_eq expiry_millis expiry_instant
parse_rdb-rdb_bytes_example =
    parse_rdb-rdb_bytes written read db expirations db-AreStorable expirations-AreExpiries

write_rdb-rdb_bytes_example :
    write_rdb socket written db expirations twenty ≡ send (rdb_bytes written db expirations) twenty
write_rdb-rdb_bytes_example =
    write_rdb-rdb_bytes socket socket-IsStream written db expirations twenty

parse_rdb_total_example : parse_rdb read (codes "REDIS0001string") ≢ out_of_fuel
parse_rdb_total_example = parse_rdb_total read (codes "REDIS0001string")

-- A key with an expiration that is spelled like the name of a type makes the load fail.
key_named_string :
    parse_rdb read (rdb_bytes written [] ((codes "String", 7_000_000) ∷ []))
    ≡ err (codes "Unexpected value type marker for STRING: 252")
unfolding parse_rdb rdb_bytes entries_bytes expiries_bytes expiry_bytes string_bytes length_bytes
    expiry_millis to_le_bytes read_header read_exact parse_marked read_marked read_length read_byte
    read_length_with_first read_entry read_string_with_first_len read_value from_utf8_lossy
    utf8_step to_ascii_uppercase ascii_upper str_eq format_usize digits
key_named_string = refl

abbrev store : Db assoc_map
store = record { values = db; expirations = expirations }

saved_is_loaded_example :
    (loaded : Loaded) × (parse_rdb read (rdb_bytes written db expirations) ≡ ok loaded)
    × (lookup (codes "words") loaded.db ≡ some words)
unfolding lookup str_eq
saved_is_loaded_example =
    saved_is_loaded assoc_map written read store (codes "words") (refl, (refl, (refl, tt)))
      db-AreStorable expirations-AreExpiries
