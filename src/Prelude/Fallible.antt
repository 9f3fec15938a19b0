-- ===== src/Prelude/Fallible.antt =====
-- What a call of Rust code comes to. `err` is the `Err` of a `Result`, `panic` an unwinding panic
-- (an index out of bounds, an overflow that is checked, a capacity that is too large), and
-- `out_of_fuel` has no counterpart in the program.
use mathlib.Core.Bool.{Bool, true, false}
use mathlib.Core.Path.{◌≡◌, refl, subst}
use ember.Prelude.Tests.{if◌then◌else◌}

pub data Result {ℓ} (E : Type 0) (A : Type ℓ) : Type ℓ where
  ok : A → Result E A
  err : E → Result E A
  panic : Result E A
  out_of_fuel : Result E A

-- `?`: what is no value ends the computation.
infixl 5 ◌>>=◌
abbrev pub ◌>>=◌ {ℓ κ} :
    {E : Type 0} {A : Type ℓ} {B : Type κ} → Result E A → (A → Result E B) → Result E B
call >>= next = elim call [
  | ok value ↦ next value
  | err why ↦ err why
  | panic ↦ panic
  | out_of_fuel ↦ out_of_fuel
]

-- A postcondition of a call that keeps within its fuel: `P` holds of the value, if it has one.
-- A panic or an error is allowed.
pub data Ensures {ℓ κ} {E : Type 0} {A : Type ℓ} (P : A → Type κ) : Result E A → Type (ℓ ⊔ κ) where
  holds : {a : A} → P a → Ensures P (ok a)
  failed : {e : E} → Ensures P (err e)
  panicked : Ensures P panic

module _ {ℓ κ} {E : Type 0} {A : Type ℓ} {P : A → Type κ} where
  pub Ensures-ok : {r : Result E A} {a : A} → Ensures P r → r ≡ ok a → P a
  Ensures-ok (holds h) e = subst P (cc) h
  Ensures-ok failed e = cc
  Ensures-ok panicked e = cc

  pub Ensures-out_of_fuel : {r : Result E A} → Ensures P r → ¬ (r ≡ out_of_fuel)
  Ensures-out_of_fuel (holds h) = cc
  Ensures-out_of_fuel failed = cc
  Ensures-out_of_fuel panicked = cc

  pub Ensures-bind {ℓ' κ'} :
      {B : Type ℓ'} {Q : B → Type κ'} {r : Result E A} {f : A → Result E B}
      → Ensures P r
      → ((a : A) → P a → Ensures Q (f a))
      → Ensures Q (r >>= f)
  Ensures-bind (holds {a} h) k = k a h
  Ensures-bind failed k = failed
  Ensures-bind panicked k = panicked

module _ {ℓ κ} {E : Type 0} {A : Type ℓ} {P : A → Type κ} where
  pub Ensures-if :
      (b : Bool) {x y : Result E A}
      → (b ≡ true → Ensures P x)
      → (b ≡ false → Ensures P y)
      → Ensures P (if b then x else y)
  Ensures-if true hx hy = hx refl
  Ensures-if false hx hy = hy refl

  pub Ensures-mono {κ'} :
      {Q : A → Type κ'} {r : Result E A} → ((a : A) → P a → Q a) → Ensures P r → Ensures Q r
  Ensures-mono k (holds {a} h) = holds (k a h)
  Ensures-mono k failed = failed
  Ensures-mono k panicked = panicked
