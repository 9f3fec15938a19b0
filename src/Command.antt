-- ===== src/Command.antt =====
-- src/command/command.rs and src/utils/mod.rs: a RESP array is read as a command. `now` is what
-- `Instant::now` returns, in nanoseconds; `checks` says whether overflow panics.
pub mod RoundTrip
pub mod Panic
pub mod Total
use ember.Prelude.{
  ℕ, suc, ◌+◌, ◌*◌, ◌<◌, Bool, true, false, List, [], ◌∷◌, ◌++◌, Option, none, some, ltb,
  if◌then◌else◌, ◌||◌, length, drop, get_elem?, Result, ok, err, panic, out_of_fuel, ◌>>=◌,
}
use ember.Prelude.Int.{ℤ, pos}
use ember.Text.{Bytes, codes, str_eq}
use ember.Text.Ascii.{to_ascii_uppercase, trim}
use ember.Text.Decimal.{parse_signed, max_i32}
use ember.Word.{i32_as_usize, mul_i32}
use ember.Resp.Types.{
  RespType, RespTypes, simple_string, simple_error, integer, bulk_string, array, null, boolean,
  to_list,
}
use ember.Database.Core.{Instant}

pub data Command : Type 0 where
  ping : Command
  echo : Bytes → Command
  set : Bytes → Bytes → Option Instant → Command
  get : Bytes → Command
  delete : Bytes → Command
  lpush : Bytes → List Bytes → Command
  rpush : Bytes → List Bytes → Command
  lrange : Bytes → ℤ → ℤ → Command
  expire : Bytes → Instant → Option Bytes → Command
  multi discard exec save : Command

abbrev pub Read : Type 0 → Type 0
Read A = Result Bytes A

or_zero : Option ℤ → ℤ
or_zero none = pos 0
or_zero (some z) = z

-- `utils::parse_int`: what is no `i32` is 0.
unfoldable pub parse_int : Bytes → ℤ
unfolding or_zero
parse_int s = or_zero (parse_signed max_i32 (trim s))

-- `args[i]`, which panics out of bounds
unfoldable pub arg : List RespType → ℕ → Read RespType
arg args i = elim (get_elem? args i) [ none ↦ panic | some a ↦ ok a ]

abbrev pub as_bulk : RespType → Option Bytes
as_bulk (bulk_string s) = some s
as_bulk _ = none

-- `if let RespType::BulkString(..)`, with the error of the other branch
abbrev pub bulk_or {ℓ} : {A : Type ℓ} → Bytes → RespType → (Bytes → Result Bytes A) → Result Bytes A
bulk_or why v k = elim (as_bulk v) [ none ↦ err why | some s ↦ k s ]

-- the bulk strings of a list, the others left out
unfoldable pub bulk_strings : List RespType → List Bytes
bulk_strings [] = []
bulk_strings (bulk_string s ∷ args) = s ∷ bulk_strings args
bulk_strings (_ ∷ args) = bulk_strings args

-- `Instant::now() + Duration::from_millis(exp as u64)`
unfoldable pub deadline : Instant → ℤ → Instant
deadline now exp = now + i32_as_usize exp * 1_000_000

-- the commands of one argument, the first
unfoldable pub parse_one : Bytes → (Bytes → Command) → List RespType → Read Command
parse_one why make args = do v ← arg args 0; bulk_or why v λ s. ok (make s)

-- `LPUSH` and `RPUSH`
unfoldable pub parse_push : Bytes → (Bytes → List Bytes → Command) → List RespType → Read Command
parse_push why make args = do
  v ← arg args 0
  bulk_or why v λ k. ok (make k (bulk_strings (drop 1 args)))

unfoldable pub millis : Bool → Bytes → ℤ → Read ℤ
millis checks flag expires_in =
    if str_eq (to_ascii_uppercase flag) (codes "EX")
    then mul_i32 checks expires_in 1000
    else if str_eq (to_ascii_uppercase flag) (codes "PX")
    then ok expires_in
    else err (codes "Invalid expiry flag. Only EX and PX are supported.")

abbrev set_not_bulk : Bytes
set_not_bulk = codes "SET arguments must be bulk strings."

abbrev set_bad_expiry : Bytes
set_bad_expiry =
    codes "Invalid SET command format for expiry. Expected EX or PX followed by expiry time."

-- the third and the fourth argument of `SET`
unfoldable pub parse_expiry : Bool → Instant → List RespType → Read Instant
parse_expiry checks now args = do
  v₂ ← arg args 2
  v₃ ← arg args 3
  bulk_or set_bad_expiry v₂ λ flag.
      bulk_or set_bad_expiry v₃
        λ expires_in. do ms ← millis checks flag (parse_int expires_in); ok (deadline now ms)

unfoldable pub parse_set : Bool → Instant → List RespType → Read Command
parse_set checks now args =
    if ltb (length args) 2 then err (codes "SET command requires two arguments.") else do
      v₀ ← arg args 0
      v₁ ← arg args 1
      bulk_or set_not_bulk v₀ λ k. bulk_or set_not_bulk v₁ λ v.
          if ltb (length args) 4
          then ok (set k v none)
          else do t ← parse_expiry checks now args; ok (set k v (some t))

abbrev lrange_arguments : Bytes
lrange_arguments = codes "LRANGE command requires an argument."

unfoldable pub parse_lrange : List RespType → Read Command
parse_lrange args = do
  v₀ ← arg args 0
  v₁ ← arg args 1
  v₂ ← arg args 2
  bulk_or lrange_arguments v₀ λ key. bulk_or lrange_arguments v₁ λ start.
      bulk_or lrange_arguments v₂ λ stop. ok (lrange key (parse_int start) (parse_int stop))

unfoldable pub is_expire_option : Bytes → Bool
is_expire_option opt =
    str_eq opt (codes "NX")
    || str_eq opt (codes "XX")
    || str_eq opt (codes "GT")
    || str_eq opt (codes "LT")

unfoldable pub parse_option : List RespType → Read (Option Bytes)
parse_option args =
    if ltb 2 (length args)
    then (do
      v ← arg args 2
      bulk_or (codes "Invalid option format in expire command. Expected a bulk string.") v λ opt.
          if is_expire_option opt
          then ok (some opt)
          else err (codes "Invalid option in expire command. Only NX, XX, GT, LT are supported."))
    else ok none

abbrev expire_arguments : Bytes
expire_arguments = codes "EXPIRE command requires an argument."

unfoldable pub parse_expire : Instant → List RespType → Read Command
parse_expire now args = do
  v₀ ← arg args 0
  v₁ ← arg args 1
  bulk_or expire_arguments v₀ λ k. bulk_or expire_arguments v₁ λ expires_in. do
    option ← parse_option args
    ok (expire k (deadline now (parse_int expires_in)) option)

unfoldable pub parse_command : Bool → Instant → Bytes → List RespType → Read Command
parse_command checks now cmd args =
    if str_eq cmd (codes "PING")
    then ok ping
    else if str_eq cmd (codes "ECHO")
    then parse_one (codes "ECHO command requires an argument.") echo args
    else if str_eq cmd (codes "SET")
    then parse_set checks now args
    else if str_eq cmd (codes "GET")
    then parse_one (codes "GET command requires an argument.") get args
    else if str_eq cmd (codes "DELETE")
    then parse_one (codes "DELETE command requires an argument.") delete args
    else if str_eq cmd (codes "LPUSH")
    then parse_push (codes "LPUSH command requires an argument.") lpush args
    else if str_eq cmd (codes "RPUSH")
    then parse_push (codes "RPUSH command requires an argument.") rpush args
    else if str_eq cmd (codes "LRANGE")
    then parse_lrange args
    else if str_eq cmd (codes "EXPIRE")
    then parse_expire now args
    else if str_eq cmd (codes "MULTI")
    then ok multi
    else if str_eq cmd (codes "DISCARD")
    then ok discard
    else if str_eq cmd (codes "EXEC")
    then ok exec
    else if str_eq cmd (codes "SAVE")
    then ok save
    else if str_eq cmd (codes "COMMAND")
    then ok ping
    else err (codes "Unknown command: " ++ cmd)

abbrev bad_format : Bytes
bad_format = codes "Invalid command format."

extract_from : Bool → Instant → List RespType → Read Command
extract_from checks now [] = err bad_format
extract_from checks now (bulk_string cmd ∷ args) =
    parse_command checks now (to_ascii_uppercase cmd) args
extract_from checks now (_ ∷ args) = err bad_format

unfoldable pub extract_command : Bool → Instant → RespType → Read Command
unfolding extract_from
extract_command checks now (array arr) = extract_from checks now (to_list arr)
extract_command checks now _ = err bad_format
