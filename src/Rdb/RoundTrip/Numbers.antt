-- ===== src/Rdb/RoundTrip/Numbers.antt =====
-- The numbers and strings of a snapshot are read back.
use ember.Prelude.{
  ℕ, zero, suc, ◌*◌, ◌/◌, ◌%◌, ◌^◌, ◌<◌, ◌≡◌, ap, [], ◌∷◌, ◌++◌, append_assoc, arith, ltb, le→leb,
  if◌then◌else◌, Bool-cases, inl, inr, length, length-append, take-length_append,
  drop-length_append, ok,
}
use ember.Text.{Bytes}
use ember.Text.Utf8.{IsUtf8}
use ember.Text.Utf8.Lossy.{from_utf8_lossy-IsUtf8}
use ember.Rdb.{to_be_bytes, from_be_bytes, to_le_bytes, from_le_bytes}
use ember.Rdb.Writer.Encode.{length_bytes, string_bytes, value_bytes}
use ember.Rdb.Reader.{
  read_exact, read_byte, read_length_with_first, read_length, read_string_with_first_len,
  read_string, read_value,
}

from_be_bytes-to_be_bytes : (n : ℕ) → n < 2 ^ 32 → from_be_bytes (to_be_bytes n) ≡ n
unfolding from_be_bytes to_be_bytes
from_be_bytes-to_be_bytes n h = omega arith

-- 256 ^ k
bound : ℕ → ℕ
bound zero = 1
bound (suc k) = 256 * bound k

from_le_bytes-bound : (k n : ℕ) → n < bound k → from_le_bytes (to_le_bytes k n) ≡ n
unfolding from_le_bytes to_le_bytes bound
from_le_bytes-bound zero n h = omega arith
from_le_bytes-bound (suc k) n h = omega (arith, from_le_bytes-bound k (n / 256) (omega arith))

pub from_le_bytes-to_le_bytes : (n : ℕ) → n < 2 ^ 64 → from_le_bytes (to_le_bytes 8 n) ≡ n
unfolding bound
from_le_bytes-to_le_bytes n h = from_le_bytes-bound 8 n (omega arith)

pub read_exact-append : (xs ys : Bytes) → read_exact (length xs) (xs ++ ys) ≡ ok (xs, ys)
unfolding read_exact
read_exact-append xs ys = rw (
  le→leb (length xs) (length (xs ++ ys)) (omega (arith, length-append xs ys)),
  take-length_append xs ys,
  drop-length_append xs ys,
)

-- the first byte of a length
abbrev pub marker_of : ℕ → ℕ
marker_of len = if ltb len 64 then len else 0x80

-- and the bytes behind it
abbrev pub length_tail : ℕ → Bytes
length_tail len = if ltb len 64 then [] else to_be_bytes (len % 2 ^ 32)

pub length_bytes-marker_of :
    (len : ℕ) (rest : Bytes)
    → ◌≡◌ {A = Bytes} (length_bytes len ++ rest) (marker_of len ∷ (length_tail len ++ rest))
unfolding length_bytes
length_bytes-marker_of len rest = elim (Bool-cases (ltb len 64)) [ inl h ↦ rw h | inr h ↦ rw h ]

read_exact-be :
    (n : ℕ) (rest : Bytes) → read_exact 4 (to_be_bytes n ++ rest) ≡ ok (to_be_bytes n, rest)
unfolding to_be_bytes
read_exact-be n rest = read_exact-append (to_be_bytes n) rest

pub read_length-tail :
    (len : ℕ) (rest : Bytes)
    → len < 2 ^ 32
    → read_length_with_first (marker_of len) (length_tail len ++ rest) ≡ ok (len, rest)
unfolding read_length_with_first
read_length-tail len rest lt = elim (Bool-cases (ltb len 64)) [
  | inl h ↦ rw (h, h)
  | inr h ↦
      rw
        (
          h,
          read_exact-be (len % 2 ^ 32) rest,
          from_be_bytes-to_be_bytes (len % 2 ^ 32) (omega arith),
        )
        (ap (λ n. ok (n, rest)) (omega arith))
]

pub read_length-length_bytes :
    (len : ℕ) (rest : Bytes)
    → len < 2 ^ 32
    → read_length (length_bytes len ++ rest) ≡ ok (len, rest)
unfolding read_length read_byte
read_length-length_bytes len rest h =
    rw (length_bytes-marker_of len rest, read_length-tail len rest h)

-- a string that a file can hold
abbrev pub IsSized : Bytes → Type 0
IsSized s = IsUtf8 s × (length s < 2 ^ 32)

pub read_string-tail :
    (s rest : Bytes)
    → IsSized s
    → read_string_with_first_len (length_tail (length s) ++ (s ++ rest)) (marker_of (length s))
      ≡ ok (s, rest)
unfolding read_string_with_first_len
read_string-tail s rest (u, lt) = rw (
  read_length-tail (length s) (s ++ rest) lt,
  read_exact-append s rest,
  from_utf8_lossy-IsUtf8 s u,
)

pub read_string-string_bytes :
    (s rest : Bytes) → IsSized s → read_string (string_bytes s ++ rest) ≡ ok (s, rest)
unfolding read_string string_bytes
read_string-string_bytes s rest (u, lt) = rw (
  append_assoc (length_bytes (length s)) s rest,
  read_length-length_bytes (length s) (s ++ rest) lt,
  read_exact-append s rest,
  from_utf8_lossy-IsUtf8 s u,
)

pub read_value-value_bytes :
    (why key value rest : Bytes)
    → IsSized key
    → IsSized value
    → read_value why (value_bytes key value ++ rest) ≡ ok ((key, value), rest)
unfolding read_value value_bytes read_byte
read_value-value_bytes why key value rest hk hv = rw (
  append_assoc (string_bytes key) (string_bytes value) rest,
  read_string-string_bytes key (string_bytes value ++ rest) hk,
  read_string-string_bytes value rest hv,
)
