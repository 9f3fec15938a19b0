-- ===== src/Database/Core/Range.antt =====
-- What `lrange` selects, for every pair of indices.
use ember.Prelude.{
  ℕ, zero, suc, ◌+◌, ◌-◌, ◌≤◌, ◌<◌, ◌≡◌, refl, sym, inl, inr, Bool-cases, take-nil, take_all,
  drop_all, length-drop, ltb→lt, ◌∙◌, Bool, List, [], ◌∷◌, Option, none, some, arith, ltb, leb,
  if◌then◌else◌, length, take, drop, ok,
}
use ember.Prelude.Int.{ℤ, pos, negsuc}
use ember.Text.Decimal.{max_i32}
use ember.Text.Decimal.RoundTrip.{Fits}
use ember.Database.Object.{RedisObject, Objects, list, to_list, from_list}
use ember.Word.{usize_as_i32, i32_as_usize, add_i32}
use ember.Database.Core.{in_range, from_end, lrange_of}

-- past the end of the range
in_range_past : (lo hi idx : ℕ) (l : List RedisObject) → hi < idx → in_range lo hi idx l ≡ []
unfolding in_range
in_range_past lo hi idx [] h = refl
in_range_past lo hi idx (v ∷ vs) h = ground (arith, in_range_past lo hi (suc idx) vs)

-- within the range
in_range-take :
    (lo hi idx n : ℕ) (l : List RedisObject)
    → lo ≤ idx
    → idx + n ≡ suc hi
    → in_range lo hi idx l ≡ take n l
unfolding in_range
in_range-take lo hi idx zero l h e = in_range_past lo hi idx l (omega arith)
in_range-take lo hi idx (suc n) [] h e = refl
in_range-take lo hi idx (suc n) (v ∷ vs) h e = ground (arith, in_range-take lo hi (suc idx) n vs)

-- The filter over the indices selects the elements from `lo` to `hi`.
pub in_range_lem :
    (lo hi idx n : ℕ) (l : List RedisObject)
    → idx + n ≡ lo
    → in_range lo hi idx l ≡ take (suc hi - lo) (drop n l)
unfolding in_range
in_range_lem lo hi idx zero l e = elim (Bool-cases (leb lo (suc hi))) [
  | inl le ↦ in_range-take lo hi idx (suc hi - lo) l (omega arith) (ground arith)
  | inr gt ↦
      let none_left : suc hi - lo ≡ 0 = ground arith in
      rw none_left (in_range_past lo hi idx l (ground arith))
]
in_range_lem lo hi idx (suc n) [] e = sym (take-nil (suc hi - lo))
in_range_lem lo hi idx (suc n) (v ∷ vs) e = ground (arith, in_range_lem lo hi (suc idx) n vs)

-- The index of an element that `i` stands for in a list of `len` elements, counted from the end if
-- `i` is negative; `none` if that is in front of the first.
abbrev pub resolve : ℕ → ℤ → Option ℕ
resolve len (pos n) = some n
resolve len (negsuc n) = if ltb n len then some (len - suc n) else none

-- The elements between two such places.
abbrev pub selected : Option ℕ → Option ℕ → List RedisObject → List RedisObject
selected none stop l = []
selected (some a) none l = drop a l
selected (some a) (some b) l = take (suc b - a) (drop a l)

-- An index in front of the first element becomes a number beyond every index.
Index : ℕ → Option ℕ → ℕ → Type 0
Index len (some a) n = n ≡ a
Index len none n = suc len ≤ n

usize_as_i32_small : (n : ℕ) → n ≤ max_i32 → usize_as_i32 n ≡ pos n
unfolding usize_as_i32
usize_as_i32_small n h = ground arith

add_i32_inside :
    (checks : Bool) (n len : ℕ)
    → n < len
    → len ≤ max_i32
    → add_i32 checks (negsuc n) (pos len) ≡ ok (pos (len - suc n))
unfolding add_i32
add_i32_inside checks n len h le = ground arith

add_i32_before :
    (checks : Bool) (n len : ℕ)
    → len ≤ n
    → n ≤ max_i32
    → add_i32 checks (negsuc n) (pos len) ≡ ok (negsuc (n - len))
unfolding add_i32
add_i32_before checks n len h le = ground arith

from_end_lem :
    (checks : Bool) (i : ℤ) (len : ℕ)
    → Fits max_i32 i
    → len ≤ max_i32
    → (z : ℤ) × (from_end checks i len ≡ ok z) × Index len (resolve len i) (i32_as_usize z)
unfolding from_end i32_as_usize Index
from_end_lem checks (pos n) len fits le = (pos n, refl, refl)
from_end_lem checks (negsuc n) len fits le = elim (Bool-cases (ltb n len)) [
  | inl inside ↦ (
    pos (len - suc n),
    rw (usize_as_i32_small len le) (add_i32_inside checks n len (ltb→lt n len inside) le),
    rw inside refl,
  )
  | inr before ↦ (
    negsuc (n - len),
    rw (usize_as_i32_small len le) (add_i32_before checks n len (ground arith) fits),
    rw before (omega arith),
  )
]

-- The numbers that the indices become select what the indices stand for.
in_range-selected :
    (l : List RedisObject) (start stop : Option ℕ) (lo hi : ℕ)
    → Index (length l) start lo
    → Index (length l) stop hi
    → in_range lo hi 0 l ≡ selected start stop l
unfolding Index
in_range-selected l start stop lo hi h k =
    in_range_lem lo hi 0 lo l (omega arith) ∙ go start stop h k
  where
    go :
        (start stop : Option ℕ)
        → Index (length l) start lo
        → Index (length l) stop hi
        → take (suc hi - lo) (drop lo l) ≡ selected start stop l
    go none stop h k = rw (drop_all lo l (omega arith)) (take-nil (suc hi - lo))
    go (some a) none h k = rw h (take_all (suc hi - a) (drop a l) (omega (arith, length-drop a l)))
    go (some a) (some b) h k = rw (h, k)

-- For a list of at most `i32::MAX` elements, and indices that are `i32` values, `lrange` selects the
-- elements between the two places that the indices stand for, both included, on a debug and on a
-- release build. An index in front of the first element selects nothing if it is the start, and is
-- no bound if it is the stop.
pub lrange_of-selected :
    (checks : Bool) (start stop : ℤ) (l : Objects)
    → Fits max_i32 start
    → Fits max_i32 stop
    → length (to_list l) ≤ max_i32
    → lrange_of checks start stop (some (list l))
      ≡ ok (
          list (
            from_list (
              selected
                (resolve (length (to_list l)) start)
                (resolve (length (to_list l)) stop)
                (to_list l))))
unfolding lrange_of
lrange_of-selected checks start stop l hs ht le =
    let (lo, e₁, i₁) = from_end_lem checks start (length (to_list l)) hs le in
    let (hi, e₂, i₂) = from_end_lem checks stop (length (to_list l)) ht le in
    rw (e₁, e₂, in_range-selected (to_list l) _ _ _ _ i₁ i₂)
