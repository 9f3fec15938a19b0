-- ===== src/Rdb/RoundTrip/Rounds.antt =====
-- A round of the reader's loop on what the writer made of one entry.
use ember.Prelude.{
  ℕ, suc, ◌^◌, ◌<◌, ◌≡◌, refl, false, List, [], ◌∷◌, ◌++◌, append_assoc, append-nil, arith, ◌==◌,
  length, Option, none, some, All, Result, ok, ◌>>=◌,
}
use ember.Text.{Bytes, codes, str_eq}
use ember.Text.Utf8.{utf8_run, utf8_step}
use ember.Text.Ascii.{to_ascii_uppercase, ascii_upper}
use ember.Database.Core.{Instant}
use ember.Database.Map.{put}
use ember.Database.Object.{
  RedisObject, Objects, string, list, nil, cons, to_list, from_list-to_list,
}
use ember.Rdb.{Now, to_le_bytes}
use ember.Rdb.Writer.{expiry_millis}
use ember.Rdb.Writer.Encode.{
  length_bytes, string_bytes, value_bytes, items_bytes, object_bytes, expiry_bytes,
}
use ember.Rdb.Reader.{
  Loads, Loaded, read_exact, read_byte, expiry_instant, read_expiry, read_items, first_key,
  insert_list, read_entry, read_marked, parse_marked,
}
use ember.Rdb.RoundTrip.Numbers.{
  IsSized, marker_of, length_bytes-marker_of, read_exact-append, read_length-length_bytes,
  read_string-tail, read_value-value_bytes, from_le_bytes-to_le_bytes,
}

-- an item of a list that is a string, as all lists of the commands hold
abbrev pub IsItem : RedisObject → Type 0
IsItem (string s) = IsSized s
IsItem (list os) = ⊥

-- The key under which a list is inserted.
abbrev pub items_key : Option Bytes → Bytes → List RedisObject → Option Bytes
items_key found key [] = found
items_key found key (o ∷ os) = first_key found key

pub items_key-first_key :
    (found : Option Bytes) (key : Bytes) (l : List RedisObject)
    → items_key (first_key found key) key l ≡ first_key found key
items_key-first_key none key [] = refl
items_key-first_key none key (o ∷ l) = refl
items_key-first_key (some k) key [] = refl
items_key-first_key (some k) key (o ∷ l) = refl

pub read_items-items_bytes :
    (found : Option Bytes) (key : Bytes) (values l : List RedisObject) (rest : Bytes)
    → IsSized key
    → All IsItem l
    → read_items (length l) found values (items_bytes key l ++ rest)
      ≡ ok ((items_key found key l, values ++ l), rest)
unfolding read_items items_bytes
read_items-items_bytes found key values [] rest hk h = rw (append-nil values)
read_items-items_bytes found key values (list os ∷ l) rest hk (ho, h) = absurd ho
read_items-items_bytes found key values (string s ∷ l) rest hk (hs, h) = rw (
  append_assoc (value_bytes key s) (items_bytes key l) rest,
  read_value-value_bytes (codes "Unexpected value type marker for LIST item: ") key s
      (items_bytes key l ++ rest) hk hs,
  read_items-items_bytes (first_key found key) key (values ++ string s ∷ []) l rest hk h,
  items_key-first_key found key l,
  append_assoc values (string s ∷ []) l,
)

-- What an entry adds: a list without items adds nothing.
abbrev pub stored : Bytes → RedisObject → Loaded → Loaded
stored key (string s) st = record st { db = put key (string s) st.db }
stored key (list nil) st = st
stored key (list (cons o os)) st = record st { db = put key (list (cons o os)) st.db }

abbrev pub IsStorable : Bytes → RedisObject → Type 0
IsStorable key (string s) = IsSized key × IsSized s
IsStorable key (list os) = IsSized key × (length (to_list os) < 2 ^ 32) × All IsItem (to_list os)

pub insert_list-stored :
    (key : Bytes) (os : Objects) (st : Loaded)
    → insert_list (items_key none key (to_list os)) (to_list os) st ≡ stored key (list os) st
insert_list-stored key nil st = refl
insert_list-stored key (cons o os) st = rw (from_list-to_list os)

-- one round on a name or a key, which is no selector, no opcode and no end
abbrev pub go_on : ℕ → (ℕ → Now) → Loads Loaded → Result Bytes Loaded
go_on f clock r = r >>= λ (st, rest). parse_marked f (λ i. clock (suc i)) st rest

pub not_special : (len c : ℕ) → 0x80 < c → (marker_of len == c) ≡ false
not_special len c h = ground arith

pub parse_marked-token :
    (f : ℕ) (clock : ℕ → Now) (st : Loaded) (token rest : Bytes)
    → IsSized token
    → parse_marked (suc f) clock st (string_bytes token ++ rest)
      ≡ go_on f clock (read_entry (clock 0) (marker_of (length token)) token st rest)
unfolding parse_marked read_marked string_bytes
parse_marked-token f clock st token rest h =
    let len = length token in
    rw (
      append_assoc (length_bytes len) token rest,
      length_bytes-marker_of len (token ++ rest),
      not_special len 0xFF (omega arith),
      not_special len 0xFE (omega arith),
      not_special len 0xFC (omega arith),
      read_string-tail token rest h,
    )

pub read_entry-string :
    (now : Now) (m : ℕ) (key s rest : Bytes) (st : Loaded)
    → IsSized key
    → IsSized s
    → read_entry now m (codes "string") st (value_bytes key s ++ rest)
      ≡ ok (stored key (string s) st, rest)
unfolding read_entry to_ascii_uppercase ascii_upper str_eq
read_entry-string now m key s rest st hk hs =
    rw (read_value-value_bytes (codes "Unexpected value type marker for STRING: ") key s rest hk hs)

pub read_entry-list :
    (now : Now) (m : ℕ) (key : Bytes) (os : Objects) (rest : Bytes) (st : Loaded)
    → IsStorable key (list os)
    → read_entry now m
        (codes "list")
        st
        (length_bytes (length (to_list os)) ++ (items_bytes key (to_list os) ++ rest))
      ≡ ok (stored key (list os) st, rest)
unfolding read_entry to_ascii_uppercase ascii_upper str_eq
read_entry-list now m key os rest st (hk, few, h) = rw (
  read_length-length_bytes (length (to_list os)) (items_bytes key (to_list os) ++ rest) few,
  read_items-items_bytes none key [] (to_list os) rest hk h,
  insert_list-stored key os st,
)

pub name-IsSized : IsSized (codes "string") × IsSized (codes "list")
unfolding utf8_run utf8_step
name-IsSized = ((refl, omega arith), (refl, omega arith))

pub parse_marked-object :
    (f : ℕ) (clock : ℕ → Now) (st : Loaded) (key : Bytes) (o : RedisObject) (rest : Bytes)
    → IsStorable key o
    → parse_marked (suc f) clock st (object_bytes key o ++ rest)
      ≡ parse_marked f (λ i. clock (suc i)) (stored key o st) rest
unfolding object_bytes
parse_marked-object f clock st key (string s) rest (hk, hs) = rw (
  append_assoc (string_bytes (codes "string")) (value_bytes key s) rest,
  parse_marked-token f clock st (codes "string") (value_bytes key s ++ rest) name-IsSized.0,
  read_entry-string (clock 0) (marker_of 6) key s rest st hk hs,
)
parse_marked-object f clock st key (list os) rest h =
    let len = length_bytes (length (to_list os)) in
    rw (
      append_assoc (string_bytes (codes "list")) (len ++ items_bytes key (to_list os)) rest,
      append_assoc len (items_bytes key (to_list os)) rest,
      parse_marked-token f clock st (codes "list") (len ++ (items_bytes key (to_list os) ++ rest))
          name-IsSized.1,
      read_entry-list (clock 0) (marker_of 4) key os rest st h,
    )

-- A key that the reader does not take for the name of a type.
abbrev pub IsExpiryKey : Bytes → Type 0
IsExpiryKey key =
    IsSized key
    × (str_eq (to_ascii_uppercase key) (codes "STRING") ≡ false)
    × (str_eq (to_ascii_uppercase key) (codes "LIST") ≡ false)

-- the expiration that comes back, through the clock of the writer and that of the reader
abbrev pub restored : Now → Now → Instant → Instant
restored written read t = expiry_instant read (expiry_millis written t)

pub read_exact_le :
    (n : ℕ) (rest : Bytes) → read_exact 8 (to_le_bytes 8 n ++ rest) ≡ ok (to_le_bytes 8 n, rest)
unfolding to_le_bytes
read_exact_le n rest = read_exact-append (to_le_bytes 8 n) rest

pub read_expiry-bytes :
    (now : Now) (n : ℕ) (rest : Bytes)
    → n < 2 ^ 64
    → read_expiry now (to_le_bytes 8 n ++ rest) ≡ ok (expiry_instant now n, rest)
unfolding read_expiry
read_expiry-bytes now n rest h = rw (read_exact_le n rest, from_le_bytes-to_le_bytes n h)

pub expiry_millis_small : (now : Now) (t : Instant) → expiry_millis now t < 2 ^ 64
unfolding expiry_millis
expiry_millis_small now t = omega arith

pub parse_marked-expiry :
    (f : ℕ) (clock : ℕ → Now) (st : Loaded) (now : Now) (key : Bytes) (t : Instant) (rest : Bytes)
    → IsExpiryKey key
    → parse_marked (suc f) clock st (expiry_bytes now key t ++ rest)
      ≡ parse_marked f
          (λ i. clock (suc i))
          (record st { expirations = put key (restored now (clock 0) t) st.expirations })
          rest
unfolding expiry_bytes read_entry read_byte
parse_marked-expiry f clock st now key t rest (hk, h₁, h₂) =
    let ms = to_le_bytes 8 (expiry_millis now t) in
    rw (
      append_assoc (string_bytes key) (0xFC ∷ ms) rest,
      parse_marked-token f clock st key (0xFC ∷ (ms ++ rest)) hk,
      h₁,
      h₂,
      read_expiry-bytes (clock 0) (expiry_millis now t) rest (expiry_millis_small now t),
    )
