-- ===== src/Rdb/Reader/Total.antt =====
-- The reader ends on every file: no read gives back more than it was given.
use ember.Prelude.{
  ℕ, zero, suc, ◌≤◌, ◌<◌, ◌≢◌, not, List, [], ◌∷◌, ◌++◌, Option, none, arith, ltb, leb, ◌==◌,
  length, take, length-drop, Result, out_of_fuel, Ensures, holds, failed, Ensures-out_of_fuel,
  Ensures-bind, Ensures-if, Ensures-mono,
}
use ember.Text.{Bytes, codes, str_eq}
use ember.Text.Ascii.{to_ascii_uppercase}
use ember.Database.Object.{RedisObject, string}
use ember.Rdb.{Now}
use ember.Rdb.Reader.{
  Loads, Loaded, read_exact, read_byte, read_header, read_expiry, read_length_with_first,
  read_length, read_string_with_first_len, read_string, read_value, read_items, first_key,
  read_entry, read_marked, parse_marked, parse_rdb,
}

-- What is left is no longer than the file.
abbrev Shrinks : {A : Type 0} → Bytes → Loads A → Type 0
Shrinks {A} file r = Ensures (λ (p : A × Bytes). length p.1 ≤ length file) r

read_exact-Shrinks : (n : ℕ) (file : Bytes) → Shrinks file (read_exact n file)
unfolding read_exact
read_exact-Shrinks n file =
    Ensures-if (leb n (length file)) (λ h. holds (omega (arith, length-drop n file))) (λ h. failed)

read_byte-Shrinks : (file : Bytes) → Shrinks file (read_byte file)
unfolding read_byte
read_byte-Shrinks [] = failed
read_byte-Shrinks (b ∷ file) = holds (omega arith)

read_header-Shrinks : (file : Bytes) → Shrinks file (read_header file)
unfolding read_header
read_header-Shrinks file = Ensures-bind (read_exact-Shrinks 9 file) λ (buf, rest) le1.
    Ensures-if (not (str_eq (take 5 buf) (codes "REDIS"))) (λ h. failed) (λ h. holds (omega arith))

read_expiry-Shrinks : (now : Now) (file : Bytes) → Shrinks file (read_expiry now file)
unfolding read_expiry
read_expiry-Shrinks now file =
    Ensures-bind (read_exact-Shrinks 8 file) λ (buf, rest) le2. holds (omega arith)

read_length_with_first-Shrinks :
    (first : ℕ) (file : Bytes) → Shrinks file (read_length_with_first first file)
unfolding read_length_with_first
read_length_with_first-Shrinks first file =
    Ensures-if (ltb first 64) (λ h. holds (omega arith))
      λ _.
        Ensures-if (first == 0x80)
          (λ h. Ensures-bind (read_exact-Shrinks 4 file) λ (buf, rest) le3. holds (omega arith))
          (λ h. failed)

read_length-Shrinks : (file : Bytes) → Shrinks file (read_length file)
unfolding read_length
read_length-Shrinks file = Ensures-bind (read_byte-Shrinks file) λ (first, rest) le4.
    Ensures-mono (λ q le. omega arith) (read_length_with_first-Shrinks first rest)

read_string_with_first_len-Shrinks :
    (file : Bytes) (first : ℕ) → Shrinks file (read_string_with_first_len file first)
unfolding read_string_with_first_len
read_string_with_first_len-Shrinks file first =
    Ensures-bind (read_length_with_first-Shrinks first file) λ (len, file₁) le5.
      Ensures-bind (read_exact-Shrinks len file₁) λ (buf, rest) le6. holds (omega arith)

read_string-Shrinks : (file : Bytes) → Shrinks file (read_string file)
unfolding read_string
read_string-Shrinks file = Ensures-bind (read_length-Shrinks file) λ (len, file₁) le7.
    Ensures-bind (read_exact-Shrinks len file₁) λ (buf, rest) le8. holds (omega arith)

read_value-Shrinks : (why file : Bytes) → Shrinks file (read_value why file)
unfolding read_value
read_value-Shrinks why file = Ensures-bind (read_byte-Shrinks file) λ (value_type, file₁) le9.
    Ensures-if (not (value_type == 0x00)) (λ h. failed)
      λ h. Ensures-bind (read_string-Shrinks file₁) λ (key, file₂) le10.
        Ensures-bind (read_string-Shrinks file₂) λ (value, rest) le11. holds (omega arith)

read_items-Shrinks :
    (n : ℕ) (key : Option Bytes) (values : List RedisObject) (file : Bytes)
    → Shrinks file (read_items n key values file)
unfolding read_items
read_items-Shrinks zero key values file = holds (omega arith)
read_items-Shrinks (suc n) key values file =
    Ensures-bind (read_value-Shrinks (codes "Unexpected value type marker for LIST item: ") file)
      λ ((current, item), rest) le12.
        Ensures-mono (λ q le. omega arith)
          (read_items-Shrinks n (first_key key current) (values ++ string item ∷ []) rest)

read_entry-Shrinks :
    (now : Now) (marker : ℕ) (token : Bytes) (st : Loaded) (file : Bytes)
    → Shrinks file (read_entry now marker token st file)
unfolding read_entry
read_entry-Shrinks now marker token st file =
    Ensures-if (str_eq (to_ascii_uppercase token) (codes "STRING"))
      (λ h.
        Ensures-bind (read_value-Shrinks (codes "Unexpected value type marker for STRING: ") file)
          λ (p, rest) le13. holds (omega arith))
      λ _.
        Ensures-if (str_eq (to_ascii_uppercase token) (codes "LIST"))
          (λ h. Ensures-bind (read_length-Shrinks file) λ (len, file₁) le14.
            Ensures-bind (read_items-Shrinks len none [] file₁)
              λ (p, rest) le15. holds (omega arith))
          λ _. Ensures-bind (read_byte-Shrinks file) λ (opcode, file₁) le16.
            Ensures-if (not (opcode == 0xFC)) (λ h. failed)
              λ h.
                Ensures-bind (read_expiry-Shrinks now file₁)
                  λ (expiry, rest) le17. holds (omega arith)

read_marked-Shrinks :
    (now : Now) (marker : ℕ) (st : Loaded) (file : Bytes)
    → Shrinks file (read_marked now marker st file)
unfolding read_marked
read_marked-Shrinks now marker st file =
    Ensures-if (marker == 0xFE)
      (λ h. Ensures-bind (read_length-Shrinks file) λ (len, rest) le18. holds (omega arith))
      λ _.
        Ensures-if (marker == 0xFC)
          (λ h. Ensures-bind (read_string-Shrinks file) λ (key, file₁) le19.
            Ensures-bind (read_expiry-Shrinks now file₁) λ (expiry, rest) le20. holds (omega arith))
          λ _. Ensures-bind (read_string_with_first_len-Shrinks file marker) λ (token, rest) le21.
            Ensures-mono (λ q le. omega arith) (read_entry-Shrinks now marker token st rest)

abbrev Ends : Result Bytes Loaded → Type 0
Ends r = Ensures (λ (st : Loaded). Unit {0}) r

parse_marked-Ends :
    (fuel : ℕ) (clock : ℕ → Now) (st : Loaded) (file : Bytes)
    → length file < fuel
    → Ends (parse_marked fuel clock st file)
unfolding parse_marked
parse_marked-Ends zero clock st file h = absurd (omega arith)
parse_marked-Ends (suc fuel) clock st [] h = holds tt
parse_marked-Ends (suc fuel) clock st (marker ∷ file) h =
    Ensures-if (marker == 0xFF) (λ _. holds tt)
      λ _.
        Ensures-bind (read_marked-Shrinks (clock 0) marker st file)
          λ (st', rest) le. parse_marked-Ends fuel (λ i. clock (suc i)) st' rest (omega arith)

parse_rdb-Ends : (clock : ℕ → Now) (file : Bytes) → Ends (parse_rdb clock file)
unfolding parse_rdb
parse_rdb-Ends clock file =
    Ensures-bind (read_header-Shrinks file)
      λ (u, rest) le. parse_marked-Ends (suc (length rest)) clock _ rest (omega arith)

-- Whatever the bytes of a file, the reader comes to an end within its fuel, one unit more than there
-- are bytes behind the header.
pub parse_rdb_total : (clock : ℕ → Now) (file : Bytes) → parse_rdb clock file ≢ out_of_fuel
parse_rdb_total clock file = Ensures-out_of_fuel (parse_rdb-Ends clock file)
