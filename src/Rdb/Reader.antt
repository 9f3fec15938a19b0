-- ===== src/Rdb/Reader.antt =====
-- src/rdb/reader.rs: `load_rdb` on the bytes of a file that exists. A function takes the bytes that
-- are left and returns those behind what it read. The buffers for a stated length are granted.
pub mod Total
use ember.Prelude.{
  ℕ, zero, suc, ◌+◌, ◌-◌, ◌*◌, ◌/◌, ◌%◌, ◌^◌, Bool, true, false, not, List, [], ◌∷◌, ◌++◌, Option,
  none, some, ltb, leb, ◌==◌, if◌then◌else◌, length, take, drop, Result, ok, err, panic,
  out_of_fuel, ◌>>=◌,
}
use ember.Text.{Bytes, codes, str_eq}
use ember.Text.Utf8.{from_utf8_lossy}
use ember.Text.Ascii.{to_ascii_uppercase}
use ember.Text.Decimal.{format_usize}
use ember.Database.Core.{Instant}
use ember.Database.Map.{put}
use ember.Database.Object.{RedisObject, string, list, from_list}
use ember.Rdb.{Now, from_be_bytes, from_le_bytes}

-- what a read returns: a value and the rest of the file
abbrev pub Loads : Type 0 → Type 0
Loads A = Result Bytes (A × Bytes)

-- the two maps that are filled
pub record Loaded : Type 0 where
  pub db : List (Bytes × RedisObject)
  pub expirations : List (Bytes × Instant)

-- `read_exact` of `n` bytes
unfoldable pub read_exact : ℕ → Bytes → Loads Bytes
read_exact n file =
    if leb n (length file)
    then ok (take n file, drop n file)
    else err (codes "failed to fill whole buffer")

unfoldable pub read_byte : Bytes → Loads ℕ
read_byte [] = err (codes "failed to fill whole buffer")
read_byte (b ∷ file) = ok (b, file)

unfoldable pub read_header : Bytes → Loads (Unit {0})
read_header file = do
  (buf, rest) ← read_exact 9 file
  if not (str_eq (take 5 buf) (codes "REDIS")) then err (codes "Invalid header.") else ok (tt, rest)

-- the milliseconds since the epoch as an `Instant`; what has passed is now
unfoldable pub expiry_instant : Now → ℕ → Instant
expiry_instant now ms = now.instant + (ms * 1_000_000 - now.system)

unfoldable pub read_expiry : Now → Bytes → Loads Instant
read_expiry now file = do
  (buf, rest) ← read_exact 8 file
  ok (expiry_instant now (from_le_bytes buf), rest)

hex_digit : ℕ → ℕ
hex_digit d = if ltb d 10 then b'0' + d else b'A' + (d - 10)

unfoldable pub read_length_with_first : ℕ → Bytes → Loads ℕ
unfolding hex_digit
read_length_with_first first file =
    if ltb first 64
    then ok (first, file)
    else if first == 0x80
    then (do (buf, rest) ← read_exact 4 file; ok (from_be_bytes buf, rest))
    else err (
        codes "Unsupported length encoding prefix: 0x"
        ++ hex_digit (first / 16) ∷ hex_digit (first % 16) ∷ [])

unfoldable pub read_length : Bytes → Loads ℕ
read_length file = do (first, rest) ← read_byte file; read_length_with_first first rest

unfoldable pub read_string_with_first_len : Bytes → ℕ → Loads Bytes
read_string_with_first_len file first_len_byte = do
  (len, file₁) ← read_length_with_first first_len_byte file
  (buf, rest) ← read_exact len file₁
  ok (from_utf8_lossy buf, rest)

unfoldable pub read_string : Bytes → Loads Bytes
read_string file = do
  (len, file₁) ← read_length file
  (buf, rest) ← read_exact len file₁
  ok (from_utf8_lossy buf, rest)

-- the marker, the key and the text of a string entry or of one item of a list
unfoldable pub read_value : Bytes → Bytes → Loads (Bytes × Bytes)
read_value why file = do
  (value_type, file₁) ← read_byte file
  if not (value_type == 0x00) then err (why ++ format_usize value_type) else do
    (key, file₂) ← read_string file₁
    (value, rest) ← read_string file₂
    ok ((key, value), rest)

-- the first key that was read
abbrev pub first_key : Option Bytes → Bytes → Option Bytes
first_key none key = some key
first_key (some k) key = some k

-- the loop over the items of a list
unfoldable pub read_items :
    ℕ → Option Bytes → List RedisObject → Bytes → Loads (Option Bytes × List RedisObject)
read_items zero key values file = ok ((key, values), file)
read_items (suc length) key values file = do
  ((current_key, item), rest) ←
      read_value (codes "Unexpected value type marker for LIST item: ") file
  read_items length (first_key key current_key) (values ++ string item ∷ []) rest

abbrev pub insert_list : Option Bytes → List RedisObject → Loaded → Loaded
insert_list none values st = st
insert_list (some k) values st = record st { db = put k (list (from_list values)) st.db }

unfoldable pub read_entry : Now → ℕ → Bytes → Loaded → Bytes → Loads Loaded
read_entry now marker token st file =
    if str_eq (to_ascii_uppercase token) (codes "STRING")
    then (do
      ((key, value), rest) ← read_value (codes "Unexpected value type marker for STRING: ") file
      ok (record st { db = put key (string value) st.db }, rest))
    else if str_eq (to_ascii_uppercase token) (codes "LIST")
    then (do
      (len, file₁) ← read_length file
      ((key, values), rest) ← read_items len none [] file₁
      ok (insert_list key values st, rest))
    else (do
      (expiry_opcode, file₁) ← read_byte file
      if not (expiry_opcode == 0xFC)
          then err (codes "Unknown opcode: " ++ format_usize marker)
          else do
            (expiry, rest) ← read_expiry now file₁
            ok (record st { expirations = put token expiry st.expirations }, rest))

-- one round of the loop of `parse`, for a marker that is not the end
unfoldable pub read_marked : Now → ℕ → Loaded → Bytes → Loads Loaded
read_marked now marker st file =
    if marker == 0xFE
    then (do (_, rest) ← read_length file; ok (st, rest))
    else if marker == 0xFC
    then (do
      (key, file₁) ← read_string file
      (expiry, rest) ← read_expiry now file₁
      ok (record st { expirations = put key expiry st.expirations }, rest))
    else (do
      (token, rest) ← read_string_with_first_len file marker
      read_entry now marker token st rest)

-- A round reads at least its marker, so that a unit of fuel for each byte is enough. `clock i` is
-- what the clocks return in the i-th round.
unfoldable pub parse_marked : ℕ → (ℕ → Now) → Loaded → Bytes → Result Bytes Loaded
parse_marked zero clock st file = out_of_fuel
parse_marked (suc fuel) clock st [] = ok st
parse_marked (suc fuel) clock st (marker ∷ file) = if marker == 0xFF then ok st else (do
  (st', rest) ← read_marked (clock 0) marker st file
  parse_marked fuel (λ i. clock (suc i)) st' rest)

unfoldable pub parse_rdb : (ℕ → Now) → Bytes → Result Bytes Loaded
parse_rdb clock file = do
  (_, rest) ← read_header file
  parse_marked (suc (length rest)) clock (record { db = []; expirations = [] }) rest
