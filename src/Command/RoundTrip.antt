-- ===== src/Command/RoundTrip.antt =====
-- What a client may ask for, the words that it sends for it, and the command that is extracted.
use ember.Prelude.{
  ℕ, suc, ◌+◌, ◌*◌, ◌≡◌, ◌-◌, ◌^◌, refl, ap, Bool, true, List, [], ◌∷◌, map, arith, Option, none,
  some, ok, panic, Result, All, Bool-cases, inl, inr, if◌then◌else◌,
}
use ember.Prelude.Int.{ℤ, pos, negsuc, sub_ℕ}
use ember.Text.{Bytes, codes, str_eq}
use ember.Text.Ascii.{ascii_upper, to_ascii_uppercase}
use ember.Text.Ascii.Trim.{IsVisible, trim-IsVisible}
use ember.Text.Decimal.{format_int, max_i32}
use ember.Text.Decimal.RoundTrip.{IsDigit, Fits, format_usize-IsDigit, parse_signed-format}
use ember.Word.{i32_as_usize, mul_i32, fits_i32, signed32, low32, checked_i32}
use ember.Resp.Types.{RespType, bulk_string, array, cons, to_list, from_list, to_list-from_list}
use ember.Database.Core.{Instant}
use ember.Command.{
  Command, ping, echo, set, get, delete, lpush, rpush, lrange, expire, multi, discard, exec, save,
  parse_int, or_zero, arg, bulk_strings, deadline, parse_one, parse_push, millis, parse_expiry,
  parse_set, parse_lrange, is_expire_option, parse_option, parse_expire, parse_command,
  extract_from, extract_command,
}

IsDigit-IsVisible : (s : Bytes) → All IsDigit s → All IsVisible s
IsDigit-IsVisible [] h = tt
IsDigit-IsVisible (c ∷ s) (hc, hs) = (omega arith, IsDigit-IsVisible s hs)

format_int-IsVisible : (z : ℤ) → All IsVisible (format_int z)
unfolding format_int
format_int-IsVisible (pos n) = IsDigit-IsVisible _ (format_usize-IsDigit n)
format_int-IsVisible (negsuc n) = (omega arith, IsDigit-IsVisible _ (format_usize-IsDigit (suc n)))

parse_int-format : (z : ℤ) → Fits max_i32 z → parse_int (format_int z) ≡ z
unfolding parse_int or_zero
parse_int-format z h =
    rw (trim-IsVisible (format_int z) (format_int-IsVisible z), parse_signed-format max_i32 z h)

bulk_strings-map : (ss : List Bytes) → bulk_strings (map bulk_string ss) ≡ ss
unfolding bulk_strings
bulk_strings-map [] = refl
bulk_strings-map (s ∷ ss) = ap (λ r. s ∷ r) (bulk_strings-map ss)

-- What can be asked for. A time is in seconds for `ask_set_ex` and in milliseconds elsewhere.
pub data Request : Type 0 where
  ask_ping ask_multi ask_discard ask_exec ask_save : Request
  ask_echo ask_get ask_delete : Bytes → Request
  ask_set : Bytes → Bytes → Request
  ask_set_ex ask_set_px : Bytes → Bytes → ℤ → Request
  ask_lpush ask_rpush : Bytes → List Bytes → Request
  ask_lrange : Bytes → ℤ → ℤ → Request
  ask_expire : Bytes → ℤ → Request
  ask_expire_if : Bytes → ℤ → Bytes → Request

-- the name of the command, in capitals
unfoldable pub name : Request → Bytes
name ask_ping = codes "PING"
name ask_multi = codes "MULTI"
name ask_discard = codes "DISCARD"
name ask_exec = codes "EXEC"
name ask_save = codes "SAVE"
name (ask_echo msg) = codes "ECHO"
name (ask_get key) = codes "GET"
name (ask_delete key) = codes "DELETE"
name (ask_set key val) = codes "SET"
name (ask_set_ex key val t) = codes "SET"
name (ask_set_px key val t) = codes "SET"
name (ask_lpush key vals) = codes "LPUSH"
name (ask_rpush key vals) = codes "RPUSH"
name (ask_lrange key start stop) = codes "LRANGE"
name (ask_expire key t) = codes "EXPIRE"
name (ask_expire_if key t opt) = codes "EXPIRE"

unfoldable pub words : Request → List Bytes
words (ask_echo msg) = msg ∷ []
words (ask_get key) = key ∷ []
words (ask_delete key) = key ∷ []
words (ask_set key val) = key ∷ val ∷ []
words (ask_set_ex key val t) = key ∷ val ∷ codes "ex" ∷ format_int t ∷ []
words (ask_set_px key val t) = key ∷ val ∷ codes "px" ∷ format_int t ∷ []
words (ask_lpush key vals) = key ∷ vals
words (ask_rpush key vals) = key ∷ vals
words (ask_lrange key start stop) = key ∷ format_int start ∷ format_int stop ∷ []
words (ask_expire key t) = key ∷ format_int t ∷ []
words (ask_expire_if key t opt) = key ∷ format_int t ∷ opt ∷ []
words _ = []

-- a number of milliseconds from now; a negative one is cast to 64 bits, 2^64 more than it is
unfoldable pub after_millis : Instant → ℤ → Instant
after_millis now (pos n) = now + n * 1_000_000
after_millis now (negsuc n) = now + (2 ^ 64 - 1 - n) * 1_000_000

unfoldable pub seconds : ℤ → ℤ
seconds (pos n) = pos (n * 1000)
seconds (negsuc n) = negsuc (n * 1000 + 999)

-- What becomes of a request. Seconds that are no `i32` in milliseconds overflow: a panic in a build
-- that checks, and else the 32 low bits.
unfoldable pub meaning : Bool → Instant → Request → Result Bytes Command
unfolding after_millis seconds
meaning checks now ask_ping = ok ping
meaning checks now ask_multi = ok multi
meaning checks now ask_discard = ok discard
meaning checks now ask_exec = ok exec
meaning checks now ask_save = ok save
meaning checks now (ask_echo msg) = ok (echo msg)
meaning checks now (ask_get key) = ok (get key)
meaning checks now (ask_delete key) = ok (delete key)
meaning checks now (ask_set key val) = ok (set key val none)
meaning checks now (ask_set_ex key val t) =
    if fits_i32 (seconds t)
    then ok (set key val (some (after_millis now (seconds t))))
    else if checks
    then panic
    else ok (set key val (some (after_millis now (signed32 (low32 (seconds t))))))
meaning checks now (ask_set_px key val t) = ok (set key val (some (after_millis now t)))
meaning checks now (ask_lpush key vals) = ok (lpush key vals)
meaning checks now (ask_rpush key vals) = ok (rpush key vals)
meaning checks now (ask_lrange key start stop) = ok (lrange key start stop)
meaning checks now (ask_expire key t) = ok (expire key (after_millis now t) none)
meaning checks now (ask_expire_if key t opt) = ok (expire key (after_millis now t) (some opt))

-- numbers fit `i32`, and an option of `EXPIRE` is one of the four
unfoldable pub IsAskable : Request → Type 0
IsAskable (ask_set_ex key val t) = Fits max_i32 t
IsAskable (ask_set_px key val t) = Fits max_i32 t
IsAskable (ask_lrange key start stop) = Fits max_i32 start × Fits max_i32 stop
IsAskable (ask_expire key t) = Fits max_i32 t
IsAskable (ask_expire_if key t opt) = Fits max_i32 t × (is_expire_option opt ≡ true)
IsAskable _ = Unit

abbrev pub call : Bytes → List Bytes → RespType
call cmd args = array (cons (bulk_string cmd) (from_list (map bulk_string args)))

deadline-after_millis : (now : Instant) (z : ℤ) → deadline now z ≡ after_millis now z
unfolding deadline after_millis i32_as_usize
deadline-after_millis now (pos n) = refl
deadline-after_millis now (negsuc n) = refl

zero_minus : (n : ℕ) → sub_ℕ 0 (suc n * 1000) ≡ negsuc (n * 1000 + 999)
zero_minus n = ground arith

mul_i32-seconds : (checks : Bool) (z : ℤ) → mul_i32 checks z 1000 ≡ checked_i32 checks (seconds z)
unfolding mul_i32 seconds
mul_i32-seconds checks (pos n) = refl
mul_i32-seconds checks (negsuc n) = rw (zero_minus n)

parse_set-ex :
    (checks : Bool) (now : Instant) (key val : Bytes) (t : ℤ)
    → Fits max_i32 t
    → parse_set checks now (
        bulk_string key
        ∷ bulk_string val
        ∷ bulk_string (codes "ex")
        ∷ bulk_string (format_int t)
        ∷ [])
      ≡ meaning checks now (ask_set_ex key val t)
unfolding parse_set parse_expiry arg millis meaning to_ascii_uppercase ascii_upper str_eq
parse_set-ex checks now key val t h =
    rw (parse_int-format t h, mul_i32-seconds checks t)
      (elim (Bool-cases (fits_i32 (seconds t))) [
        | inl e ↦ rw (e, deadline-after_millis)
        | inr e ↦
            rw e (elim (Bool-cases checks) [ inl c ↦ rw c | inr c ↦ rw (c, deadline-after_millis) ])
      ])

parse_expiry-px :
    (checks : Bool) (now : Instant) (t : ℤ) (v₀ v₁ : RespType)
    → Fits max_i32 t
    → parse_expiry checks now (v₀ ∷ v₁ ∷ bulk_string (codes "px") ∷ bulk_string (format_int t) ∷ [])
      ≡ ok (after_millis now t)
unfolding parse_expiry arg millis to_ascii_uppercase ascii_upper str_eq
parse_expiry-px checks now t v₀ v₁ h = rw (parse_int-format t h, deadline-after_millis)

parse_set-expiry :
    (checks : Bool) (now : Instant) (key val : Bytes) (v₂ v₃ : RespType) {t : Instant}
    → (let args = bulk_string key ∷ bulk_string val ∷ v₂ ∷ v₃ ∷ [] in
        parse_expiry checks now args ≡ ok t → parse_set checks now args ≡ ok (set key val (some t)))
unfolding parse_set arg
parse_set-expiry checks now key val v₂ v₃ h = rw h

parse_push-call :
    (why : Bytes) (make : Bytes → List Bytes → Command) (key : Bytes) (vals : List Bytes)
    → parse_push why make (bulk_string key ∷ to_list (from_list (map bulk_string vals)))
      ≡ ok (make key vals)
unfolding parse_push arg
parse_push-call why make key vals =
    rw (to_list-from_list (map bulk_string vals), bulk_strings-map vals)

parse_lrange-call :
    (key : Bytes) (start stop : ℤ)
    → Fits max_i32 start
    → Fits max_i32 stop
    → parse_lrange
        (bulk_string key ∷ bulk_string (format_int start) ∷ bulk_string (format_int stop) ∷ [])
      ≡ ok (lrange key start stop)
unfolding parse_lrange arg
parse_lrange-call key start stop h k = rw (parse_int-format start h, parse_int-format stop k)

parse_expire-call :
    (now : Instant) (key : Bytes) (t : ℤ) (more : List RespType) {o : Option Bytes}
    → Fits max_i32 t
    → (let args = bulk_string key ∷ bulk_string (format_int t) ∷ more in
        parse_option args ≡ ok o → parse_expire now args ≡ ok (expire key (after_millis now t) o))
unfolding parse_expire arg
parse_expire-call now key t more h e = rw (e, parse_int-format t h, deadline-after_millis)

parse_option-call :
    (v₀ v₁ : RespType) (opt : Bytes)
    → is_expire_option opt ≡ true
    → parse_option (v₀ ∷ v₁ ∷ bulk_string opt ∷ []) ≡ ok (some opt)
unfolding parse_option arg
parse_option-call v₀ v₁ opt h = rw h

-- Whatever a client may ask for is extracted as what it means, in any spelling of the command's name
-- in small letters and capitals, if the numbers fit `i32` and an option of EXPIRE is one of the four.
-- A time is counted from now in milliseconds, seconds after the flag EX; a negative one is 2^64
-- milliseconds more. Seconds that do not fit `i32` in milliseconds panic in a build that checks for
-- overflow, and wrap around to 32 bits in one that does not.
pub extract_command-call :
    (checks : Bool) (now : Instant) (cmd : Bytes) (r : Request)
    → IsAskable r
    → to_ascii_uppercase cmd ≡ name r
    → extract_command checks now (call cmd (words r)) ≡ meaning checks now r
unfolding extract_command extract_from parse_command str_eq name words meaning IsAskable parse_one
    arg
extract_command-call checks now cmd ask_ping p e = rw e
extract_command-call checks now cmd ask_multi p e = rw e
extract_command-call checks now cmd ask_discard p e = rw e
extract_command-call checks now cmd ask_exec p e = rw e
extract_command-call checks now cmd ask_save p e = rw e
extract_command-call checks now cmd (ask_echo msg) p e = rw e
extract_command-call checks now cmd (ask_get key) p e = rw e
extract_command-call checks now cmd (ask_delete key) p e = rw e
extract_command-call checks now cmd (ask_set key val) p e = rw e (unfold parse_set in refl)
extract_command-call checks now cmd (ask_set_ex key val t) p e =
    rw e (parse_set-ex checks now key val t p)
extract_command-call checks now cmd (ask_set_px key val t) p e =
    rw e (parse_set-expiry checks now key val _ _ (parse_expiry-px checks now t _ _ p))
extract_command-call checks now cmd (ask_lpush key vals) p e =
    rw e (parse_push-call _ lpush key vals)
extract_command-call checks now cmd (ask_rpush key vals) p e =
    rw e (parse_push-call _ rpush key vals)
extract_command-call checks now cmd (ask_lrange key start stop) p e =
    rw e (parse_lrange-call key start stop p.0 p.1)
extract_command-call checks now cmd (ask_expire key t) p e =
    rw e (parse_expire-call now key t [] p (unfold parse_option in refl))
extract_command-call checks now cmd (ask_expire_if key t opt) p e =
    rw e (parse_expire-call now key t _ p.0 (parse_option-call _ _ opt p.1))
