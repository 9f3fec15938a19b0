-- ===== src/Command/Total.antt =====
-- `extract_command` (command/command.rs) and the outcome `out_of_fuel`.
use ember.Prelude.{
  ℕ, suc, ◌*◌, ◌≢◌, Bool, List, [], ◌∷◌, Option, none, some, ltb, length, get_elem?, ok, panic,
  out_of_fuel, ◌>>=◌, if◌then◌else◌, Ensures, holds, failed, panicked, Ensures-bind, Ensures-if,
  Ensures-out_of_fuel,
}
use ember.Prelude.Int.{ℤ, pos, negsuc, sub_ℕ}
use ember.Text.{Bytes, codes, str_eq}
use ember.Text.Ascii.{to_ascii_uppercase}
use ember.Word.{checked_i32, fits_i32, mul_i32}
use ember.Resp.Types.{
  RespType, simple_string, simple_error, integer, bulk_string, array, null, boolean, to_list,
}
use ember.Database.Core.{Instant}
use ember.Command.{
  Command, Read, arg, bulk_or, parse_one, parse_push, millis, parse_expiry, parse_set, parse_lrange,
  is_expire_option, parse_option, parse_expire, parse_command, extract_from, extract_command,
}

abbrev Any {ℓ} : {A : Type ℓ} → A → Type 0
Any _ = Unit

-- what ends
abbrev Ends : {A : Type 0} → Read A → Type 0
Ends r = Ensures Any r

Ends-bind :
    {A B : Type 0} {r : Read A} {f : A → Read B} → Ends r → ((a : A) → Ends (f a)) → Ends (r >>= f)
Ends-bind h k = Ensures-bind h λ a _. k a

Ends-if : {A : Type 0} (b : Bool) {x y : Read A} → Ends x → Ends y → Ends (if b then x else y)
Ends-if b hx hy = Ensures-if b (λ _. hx) (λ _. hy)

some_or_panic : {A : Type 0} (o : Option A) → Ends {A = A} (elim o [ none ↦ panic | some a ↦ ok a ])
some_or_panic none = panicked
some_or_panic (some a) = holds tt

arg-Ends : (args : List RespType) (i : ℕ) → Ends (arg args i)
unfolding arg
arg-Ends args i = some_or_panic (get_elem? args i)

bulk_or-Ends :
    {A : Type 0} (why : Bytes) (v : RespType) {k : Bytes → Read A}
    → ((s : Bytes) → Ends (k s))
    → Ends (bulk_or why v k)
bulk_or-Ends why (bulk_string s) h = h s
bulk_or-Ends why (simple_string s) h = failed
bulk_or-Ends why (simple_error s) h = failed
bulk_or-Ends why (integer z) h = failed
bulk_or-Ends why (array vs) h = failed
bulk_or-Ends why null h = failed
bulk_or-Ends why (boolean b) h = failed

checked-Ends : (checks : Bool) (z : ℤ) → Ends (checked_i32 checks z)
checked-Ends checks z = Ends-if (fits_i32 z) (holds tt) (Ends-if checks panicked (holds tt))

mul_i32-Ends : (checks : Bool) (z : ℤ) (k : ℕ) → Ends (mul_i32 checks z k)
unfolding mul_i32
mul_i32-Ends checks (pos n) k = checked-Ends checks (pos (n * k))
mul_i32-Ends checks (negsuc n) k = checked-Ends checks (sub_ℕ 0 (suc n * k))

parse_one-Ends :
    (why : Bytes) (make : Bytes → Command) (args : List RespType) → Ends (parse_one why make args)
unfolding parse_one
parse_one-Ends why make args = Ends-bind (arg-Ends args 0) λ v. bulk_or-Ends why v λ s. holds tt

parse_push-Ends :
    (why : Bytes) (make : Bytes → List Bytes → Command) (args : List RespType)
    → Ends (parse_push why make args)
unfolding parse_push
parse_push-Ends why make args = Ends-bind (arg-Ends args 0) λ v. bulk_or-Ends why v λ s. holds tt

millis-Ends : (checks : Bool) (flag : Bytes) (z : ℤ) → Ends (millis checks flag z)
unfolding millis
millis-Ends checks flag z =
    Ends-if (str_eq (to_ascii_uppercase flag) (codes "EX")) (mul_i32-Ends checks z 1000)
      (Ends-if (str_eq (to_ascii_uppercase flag) (codes "PX")) (holds tt) failed)

parse_expiry-Ends :
    (checks : Bool) (now : Instant) (args : List RespType) → Ends (parse_expiry checks now args)
unfolding parse_expiry
parse_expiry-Ends checks now args = Ends-bind (arg-Ends args 2) λ v₂.
    Ends-bind (arg-Ends args 3) λ v₃.
      bulk_or-Ends _ v₂
        λ flag. bulk_or-Ends _ v₃ λ s. Ends-bind (millis-Ends checks flag _) λ ms. holds tt

parse_set-Ends :
    (checks : Bool) (now : Instant) (args : List RespType) → Ends (parse_set checks now args)
unfolding parse_set
parse_set-Ends checks now args = Ends-if (ltb (length args) 2) failed (
    Ends-bind (arg-Ends args 0) λ v₀. Ends-bind (arg-Ends args 1) λ v₁. bulk_or-Ends _ v₀ λ k.
      bulk_or-Ends _ v₁ λ v.
        Ends-if (ltb (length args) 4) (holds tt)
          (Ends-bind (parse_expiry-Ends checks now args) λ t. holds tt))

parse_lrange-Ends : (args : List RespType) → Ends (parse_lrange args)
unfolding parse_lrange
parse_lrange-Ends args = Ends-bind (arg-Ends args 0) λ v₀. Ends-bind (arg-Ends args 1) λ v₁.
    Ends-bind (arg-Ends args 2)
      λ v₂. bulk_or-Ends _ v₀ λ key. bulk_or-Ends _ v₁ λ start. bulk_or-Ends _ v₂ λ stop. holds tt

parse_option-Ends : (args : List RespType) → Ends (parse_option args)
unfolding parse_option
parse_option-Ends args =
    Ends-if (ltb 2 (length args))
      (Ends-bind (arg-Ends args 2)
        λ v. bulk_or-Ends _ v λ opt. Ends-if (is_expire_option opt) (holds tt) failed)
      (holds tt)

parse_expire-Ends : (now : Instant) (args : List RespType) → Ends (parse_expire now args)
unfolding parse_expire
parse_expire-Ends now args = Ends-bind (arg-Ends args 0) λ v₀. Ends-bind (arg-Ends args 1) λ v₁.
    bulk_or-Ends _ v₀ λ k. bulk_or-Ends _ v₁ λ s. Ends-bind (parse_option-Ends args) λ o. holds tt

parse_command-Ends :
    (checks : Bool) (now : Instant) (cmd : Bytes) (args : List RespType)
    → Ends (parse_command checks now cmd args)
unfolding parse_command
parse_command-Ends checks now cmd args = Ends-if (str_eq cmd (codes "PING")) (holds tt) (
    Ends-if (str_eq cmd (codes "ECHO")) (parse_one-Ends _ _ args) (
      Ends-if (str_eq cmd (codes "SET")) (parse_set-Ends checks now args) (
        Ends-if (str_eq cmd (codes "GET")) (parse_one-Ends _ _ args) (
          Ends-if (str_eq cmd (codes "DELETE")) (parse_one-Ends _ _ args) (
            Ends-if (str_eq cmd (codes "LPUSH")) (parse_push-Ends _ _ args) (
              Ends-if (str_eq cmd (codes "RPUSH")) (parse_push-Ends _ _ args) (
                Ends-if (str_eq cmd (codes "LRANGE")) (parse_lrange-Ends args) (
                  Ends-if (str_eq cmd (codes "EXPIRE")) (parse_expire-Ends now args) (
                    Ends-if (str_eq cmd (codes "MULTI")) (holds tt) (
                      Ends-if (str_eq cmd (codes "DISCARD")) (holds tt) (
                        Ends-if (str_eq cmd (codes "EXEC")) (holds tt) (
                          Ends-if (str_eq cmd (codes "SAVE")) (holds tt)
                            (Ends-if (str_eq cmd (codes "COMMAND")) (holds tt) failed)))))))))))))

extract_from-Ends :
    (checks : Bool) (now : Instant) (vs : List RespType) → Ends (extract_from checks now vs)
unfolding extract_from
extract_from-Ends checks now [] = failed
extract_from-Ends checks now (bulk_string cmd ∷ args) =
    parse_command-Ends checks now (to_ascii_uppercase cmd) args
extract_from-Ends checks now (simple_string s ∷ args) = failed
extract_from-Ends checks now (simple_error s ∷ args) = failed
extract_from-Ends checks now (integer z ∷ args) = failed
extract_from-Ends checks now (array vs ∷ args) = failed
extract_from-Ends checks now (null ∷ args) = failed
extract_from-Ends checks now (boolean b ∷ args) = failed

pub extract_command_ends :
    (checks : Bool) (now : Instant) (v : RespType) → extract_command checks now v ≢ out_of_fuel
unfolding extract_command
extract_command_ends checks now (array arr) =
    Ensures-out_of_fuel (extract_from-Ends checks now (to_list arr))
extract_command_ends checks now (simple_string s) = cc
extract_command_ends checks now (simple_error s) = cc
extract_command_ends checks now (integer z) = cc
extract_command_ends checks now (bulk_string s) = cc
extract_command_ends checks now null = cc
extract_command_ends checks now (boolean b) = cc
