-- ===== src/Command/Panic.antt =====
-- The arguments that `parse_command` indexes without a test of their number.
use ember.Prelude.{
  ℕ, suc, ◌*◌, ◌≤◌, ◌<◌, ◌≡◌, ◌≢◌, ◌↔◌, ◌⊎◌, inl, inr, refl, Bool, true, false, List, [], ◌∷◌,
  arith, ltb, if◌then◌else◌, length, ok, err, panic, ◌>>=◌,
}
use ember.Prelude.Int.{ℤ, pos, negsuc, sub_ℕ}
use ember.Text.{Bytes, codes, str_eq}
use ember.Text.Ascii.{to_ascii_uppercase}
use ember.Word.{fits_i32, mul_i32}
use ember.Resp.Types.{RespType, bulk_string, array, cons, from_list, to_list-from_list}
use ember.Database.Core.{Instant}
use ember.Command.{
  Command, Read, parse_int, arg, bulk_or, parse_one, parse_push, millis, parse_expiry, parse_set,
  parse_lrange, is_expire_option, parse_option, parse_expire, parse_command, extract_from,
  extract_command,
}

-- a command or an error, no panic
pub data Answers {A : Type 0} : Read A → Type 0 where
  answered : {a : A} → Answers (ok a)
  refused : {e : Bytes} → Answers (err e)

-- A reader of arguments that panics exactly if there are fewer than `n`.
pub record NeedsArgs (n : ℕ) (args : List RespType) (r : Read Command) : Type 0 where
  pub few : length args < n → r ≡ panic
  pub enough : n ≤ length args → Answers r

-- The arguments that a command takes without looking how many there are.
unfoldable pub needed : Bytes → ℕ
needed cmd =
    if str_eq cmd (codes "PING")
    then 0
    else if str_eq cmd (codes "ECHO")
    then 1
    else if str_eq cmd (codes "SET")
    then 0
    else if str_eq cmd (codes "GET")
    then 1
    else if str_eq cmd (codes "DELETE")
    then 1
    else if str_eq cmd (codes "LPUSH")
    then 1
    else if str_eq cmd (codes "RPUSH")
    then 1
    else if str_eq cmd (codes "LRANGE")
    then 3
    else if str_eq cmd (codes "EXPIRE")
    then 2
    else if str_eq cmd (codes "MULTI")
    then 0
    else if str_eq cmd (codes "DISCARD")
    then 0
    else if str_eq cmd (codes "EXEC")
    then 0
    else if str_eq cmd (codes "SAVE")
    then 0
    else if str_eq cmd (codes "COMMAND")
    then 0
    else 0

bulk_or-Answers :
    {A : Type 0} (why : Bytes) (v : RespType) {k : Bytes → Read A}
    → ((s : Bytes) → Answers (k s))
    → Answers (bulk_or why v k)
bulk_or-Answers why (bulk_string s) h = h s
bulk_or-Answers why _ h = refused

Answers-bind :
    {A B : Type 0} {m : Read A} {k : A → Read B}
    → Answers m
    → ((a : A) → Answers (k a))
    → Answers (m >>= k)
Answers-bind (answered {a}) h = h a
Answers-bind refused h = refused

Answers-if :
    {A : Type 0} (b : Bool) {x y : Read A} → Answers x → Answers y → Answers (if b then x else y)
Answers-if true hx hy = hx
Answers-if false hx hy = hy

NeedsArgs-if :
    (b : Bool) {args : List RespType} {m n : ℕ} {x y : Read Command}
    → NeedsArgs m args x
    → NeedsArgs n args y
    → NeedsArgs (if b then m else n) args (if b then x else y)
NeedsArgs-if true hx hy = hx
NeedsArgs-if false hx hy = hy

NeedsArgs-zero : (args : List RespType) {r : Read Command} → Answers r → NeedsArgs 0 args r
NeedsArgs-zero args h = record { few = λ lt. absurd (omega arith); enough = λ _. h }

few_panic : (n : ℕ) (args : List RespType) → length args < n → NeedsArgs n args panic
few_panic n args h = record { few = λ _. refl; enough = λ le. absurd (omega arith) }

enough_Answers :
    (n : ℕ) (args : List RespType) {r : Read Command}
    → n ≤ length args
    → Answers r
    → NeedsArgs n args r
enough_Answers n args h a = record { few = λ lt. absurd (omega arith); enough = λ _. a }

parse_one-NeedsArgs :
    (why : Bytes) (make : Bytes → Command) (args : List RespType)
    → NeedsArgs 1 args (parse_one why make args)
unfolding parse_one arg
parse_one-NeedsArgs why make [] = few_panic 1 [] (omega arith)
parse_one-NeedsArgs why make (v ∷ args) =
    enough_Answers 1 (v ∷ args) (omega arith) (bulk_or-Answers why v λ s. answered)

parse_push-NeedsArgs :
    (why : Bytes) (make : Bytes → List Bytes → Command) (args : List RespType)
    → NeedsArgs 1 args (parse_push why make args)
unfolding parse_push arg
parse_push-NeedsArgs why make [] = few_panic 1 [] (omega arith)
parse_push-NeedsArgs why make (v ∷ args) =
    enough_Answers 1 (v ∷ args) (omega arith) (bulk_or-Answers why v λ s. answered)

mul_i32-Answers : (z : ℤ) (k : ℕ) → Answers (mul_i32 false z k)
unfolding mul_i32
mul_i32-Answers (pos n) k = Answers-if (fits_i32 (pos (n * k))) answered answered
mul_i32-Answers (negsuc n) k = Answers-if (fits_i32 (sub_ℕ 0 (suc n * k))) answered answered

millis-Answers : (flag : Bytes) (z : ℤ) → Answers (millis false flag z)
unfolding millis
millis-Answers flag z =
    Answers-if (str_eq (to_ascii_uppercase flag) (codes "EX")) (mul_i32-Answers z 1000)
      (Answers-if (str_eq (to_ascii_uppercase flag) (codes "PX")) answered refused)

parse_expiry-Answers :
    (now : Instant) (v₀ v₁ v₂ v₃ : RespType) (args : List RespType)
    → Answers (parse_expiry false now (v₀ ∷ v₁ ∷ v₂ ∷ v₃ ∷ args))
unfolding parse_expiry arg
parse_expiry-Answers now v₀ v₁ v₂ v₃ args = bulk_or-Answers _ v₂ λ flag.
    bulk_or-Answers _ v₃ λ t. Answers-bind (millis-Answers flag (parse_int t)) λ ms. answered

parse_set-Answers : (now : Instant) (args : List RespType) → Answers (parse_set false now args)
unfolding parse_set arg
parse_set-Answers now [] = refused
parse_set-Answers now (v₀ ∷ []) = refused
parse_set-Answers now (v₀ ∷ v₁ ∷ []) = bulk_or-Answers _ v₀ λ k. bulk_or-Answers _ v₁ λ v. answered
parse_set-Answers now (v₀ ∷ v₁ ∷ v₂ ∷ []) =
    bulk_or-Answers _ v₀ λ k. bulk_or-Answers _ v₁ λ v. answered
parse_set-Answers now (v₀ ∷ v₁ ∷ v₂ ∷ v₃ ∷ args) =
    Answers-if (ltb (length (v₀ ∷ v₁ ∷ v₂ ∷ v₃ ∷ args)) 2) refused (
      bulk_or-Answers _ v₀ λ k. bulk_or-Answers _ v₁ λ v.
        Answers-if (ltb (length (v₀ ∷ v₁ ∷ v₂ ∷ v₃ ∷ args)) 4) answered
          (Answers-bind (parse_expiry-Answers now v₀ v₁ v₂ v₃ args) λ t. answered))

parse_lrange-NeedsArgs : (args : List RespType) → NeedsArgs 3 args (parse_lrange args)
unfolding parse_lrange arg
parse_lrange-NeedsArgs [] = few_panic 3 [] (omega arith)
parse_lrange-NeedsArgs (v₀ ∷ []) = few_panic 3 (v₀ ∷ []) (omega arith)
parse_lrange-NeedsArgs (v₀ ∷ v₁ ∷ []) = few_panic 3 (v₀ ∷ v₁ ∷ []) (omega arith)
parse_lrange-NeedsArgs (v₀ ∷ v₁ ∷ v₂ ∷ args) =
    enough_Answers 3 (v₀ ∷ v₁ ∷ v₂ ∷ args) (omega arith) (
      bulk_or-Answers _ v₀
        λ key. bulk_or-Answers _ v₁ λ start. bulk_or-Answers _ v₂ λ stop. answered)

parse_option-Answers : (args : List RespType) → Answers (parse_option args)
unfolding parse_option arg
parse_option-Answers [] = answered
parse_option-Answers (v₀ ∷ []) = answered
parse_option-Answers (v₀ ∷ v₁ ∷ []) = answered
parse_option-Answers (v₀ ∷ v₁ ∷ v₂ ∷ args) =
    Answers-if (ltb 2 (length (v₀ ∷ v₁ ∷ v₂ ∷ args)))
      (bulk_or-Answers _ v₂ λ opt. Answers-if (is_expire_option opt) answered refused) answered

parse_expire-NeedsArgs :
    (now : Instant) (args : List RespType) → NeedsArgs 2 args (parse_expire now args)
unfolding parse_expire arg
parse_expire-NeedsArgs now [] = few_panic 2 [] (omega arith)
parse_expire-NeedsArgs now (v₀ ∷ []) = few_panic 2 (v₀ ∷ []) (omega arith)
parse_expire-NeedsArgs now (v₀ ∷ v₁ ∷ args) = enough_Answers 2 (v₀ ∷ v₁ ∷ args) (omega arith) (
    bulk_or-Answers _ v₀ λ k.
      bulk_or-Answers _ v₁ λ t. Answers-bind (parse_option-Answers (v₀ ∷ v₁ ∷ args)) λ o. answered)

parse_command-NeedsArgs :
    (now : Instant) (cmd : Bytes) (args : List RespType)
    → NeedsArgs (needed cmd) args (parse_command false now cmd args)
unfolding parse_command needed
parse_command-NeedsArgs now cmd args =
    NeedsArgs-if (str_eq cmd (codes "PING")) (NeedsArgs-zero args answered) (
      NeedsArgs-if (str_eq cmd (codes "ECHO")) (parse_one-NeedsArgs _ _ args) (
        NeedsArgs-if (str_eq cmd (codes "SET")) (NeedsArgs-zero args (parse_set-Answers now args)) (
          NeedsArgs-if (str_eq cmd (codes "GET")) (parse_one-NeedsArgs _ _ args) (
            NeedsArgs-if (str_eq cmd (codes "DELETE")) (parse_one-NeedsArgs _ _ args) (
              NeedsArgs-if (str_eq cmd (codes "LPUSH")) (parse_push-NeedsArgs _ _ args) (
                NeedsArgs-if (str_eq cmd (codes "RPUSH")) (parse_push-NeedsArgs _ _ args) (
                  NeedsArgs-if (str_eq cmd (codes "LRANGE")) (parse_lrange-NeedsArgs args) (
                    NeedsArgs-if (str_eq cmd (codes "EXPIRE")) (parse_expire-NeedsArgs now args) (
                      NeedsArgs-if (str_eq cmd (codes "MULTI")) (NeedsArgs-zero args answered) (
                        NeedsArgs-if (str_eq cmd (codes "DISCARD")) (NeedsArgs-zero args answered) (
                          NeedsArgs-if (str_eq cmd (codes "EXEC")) (NeedsArgs-zero args answered) (
                            NeedsArgs-if (str_eq cmd (codes "SAVE")) (NeedsArgs-zero args answered)
                              (NeedsArgs-if (str_eq cmd (codes "COMMAND"))
                                (NeedsArgs-zero args answered)
                                (NeedsArgs-zero args refused))))))))))))))

Nat_cases : (m n : ℕ) → (m < n) ⊎ (n ≤ m)
Nat_cases m n = ground arith

Answers-no_panic : {A : Type 0} {r : Read A} → Answers r → r ≢ panic
Answers-no_panic answered = cc
Answers-no_panic refused = cc

-- In a release build a command panics exactly if it has fewer arguments than the ones that its name
-- indexes without a test: one for ECHO, GET, DELETE, LPUSH and RPUSH, two for EXPIRE, three for
-- LRANGE, none for the others.
pub extract_command_panics :
    (now : Instant) (cmd : Bytes) (args : List RespType)
    → (extract_command false now (array (cons (bulk_string cmd) (from_list args))) ≡ panic)
      ↔ (length args < needed (to_ascii_uppercase cmd))
unfolding extract_command extract_from
extract_command_panics now cmd args =
    let h = parse_command-NeedsArgs now (to_ascii_uppercase cmd) args in
    rw (to_list-from_list args) (
      (λ e. elim (Nat_cases (length args) (needed (to_ascii_uppercase cmd))) [
        | inl lt ↦ lt
        | inr le ↦ absurd (Answers-no_panic (h.enough le) e)
      ]),
      h.few,
    )
