-- ===== src/Database/Map.antt =====
-- What the store uses of `DashMap<String, V>`, a crate that is not part of the program: the
-- operations, and what its documentation says of them. Each call is one atomic step.
use ember.Prelude.{
  ℕ, ◌+◌, ◌≤◌, ◌≡◌, Bool, true, false, List, [], ◌∷◌, Option, none, some, if◌then◌else◌, length,
  refl, arith,
}
use ember.Text.{Bytes, str_eq, str_eq_iff}

abbrev pub is_some {ℓ} : {A : Type ℓ} → Option A → Bool
is_some none = false
is_some (some a) = true

-- an association list, as the listing of a map's entries
module _ {V : Type 0} where
  unfoldable pub lookup : Bytes → List (Bytes × V) → Option V
  lookup k [] = none
  lookup k ((j, v) ∷ es) = if str_eq j k then some v else lookup k es

  -- `insert` of a map that is such a listing: it replaces or adds
  unfoldable pub put : Bytes → V → List (Bytes × V) → List (Bytes × V)
  put k v [] = (k, v) ∷ []
  put k v ((j, w) ∷ es) = if str_eq j k then (j, v) ∷ es else (j, w) ∷ put k v es

  unfoldable pub without : Bytes → List (Bytes × V) → List (Bytes × V)
  without k [] = []
  without k ((j, v) ∷ es) = let rest = without k es in if str_eq j k then rest else (j, v) ∷ rest

  pub lookup-nil : (k : Bytes) → lookup k [] ≡ none
  unfolding lookup
  lookup-nil k = refl

  pub lookup-put :
      (k j : Bytes) (v : V) (es : List (Bytes × V))
      → lookup j (put k v es) ≡ (if str_eq k j then some v else lookup j es)
  unfolding lookup put
  lookup-put k j v [] = refl
  lookup-put k j v ((i, w) ∷ es) =
      ground (arith, str_eq_iff i k, str_eq_iff i j, str_eq_iff k j, lookup-put k j v es)

  pub lookup-without :
      (k j : Bytes) (es : List (Bytes × V))
      → lookup j (without k es) ≡ (if str_eq k j then none else lookup j es)
  unfolding lookup without
  lookup-without k j [] = ground arith
  lookup-without k j ((i, w) ∷ es) =
      ground (arith, str_eq_iff i k, str_eq_iff i j, str_eq_iff k j, lookup-without k j es)

  pub length-without :
      (k : Bytes) (es : List (Bytes × V))
      → length (without k es) + (if is_some (lookup k es) then 1 else 0) ≤ length es
  unfolding lookup without
  length-without k [] = omega arith
  length-without k ((i, w) ∷ es) = ground (arith, length-without k es)

pub record DashMap : Type 1 where
  pub Map : Type 0 → Type 0
  pub new : {V : Type 0} → Map V
  pub get : {V : Type 0} → Map V → Bytes → Option V
  pub contains_key : {V : Type 0} → Map V → Bytes → Bool
  pub insert : {V : Type 0} → Map V → Bytes → V → Map V
  pub remove : {V : Type 0} → Map V → Bytes → Map V
  pub len : {V : Type 0} → Map V → ℕ
  -- the entries in the order of iteration
  pub iter : {V : Type 0} → Map V → List (Bytes × V)
  pub get-new : {V : Type 0} (k : Bytes) → get {V = V} new k ≡ none
  pub contains_key-get : {V : Type 0} (m : Map V) (k : Bytes) → contains_key m k ≡ is_some (get m k)
  pub get-insert :
      {V : Type 0} (m : Map V) (k : Bytes) (v : V) (j : Bytes)
      → get (insert m k v) j ≡ (if str_eq k j then some v else get m j)
  pub get-remove :
      {V : Type 0} (m : Map V) (k j : Bytes)
      → get (remove m k) j ≡ (if str_eq k j then none else get m j)
  pub len-remove :
      {V : Type 0} (m : Map V) (k : Bytes)
      → len (remove m k) + (if is_some (get m k) then 1 else 0) ≤ len m
  pub lookup-iter : {V : Type 0} (m : Map V) (k : Bytes) → lookup k (iter m) ≡ get m k

-- The association list is such a map.
abbrev pub assoc_map : DashMap
assoc_map = record {
  Map = λ V. List (Bytes × V);
  new = [];
  get = λ m k. lookup k m;
  contains_key = λ m k. is_some (lookup k m);
  insert = λ m k v. put k v m;
  remove = λ m k. without k m;
  len = λ m. length m;
  iter = λ m. m;
  get-new = λ k. lookup-nil k;
  contains_key-get = λ m k. refl;
  get-insert = λ m k v j. lookup-put k j v m;
  get-remove = λ m k j. lookup-without k j m;
  len-remove = λ m k. length-without k m;
  lookup-iter = λ m k. refl;
}
