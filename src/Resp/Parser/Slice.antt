-- ===== src/Resp/Parser/Slice.antt =====
-- The slices of resp/parser.rs, of a buffer to which bytes are added.
use ember.Prelude.{
  ℕ, zero, suc, ◌+◌, ◌-◌, ◌^◌, ◌≤◌, ◌<◌, ◌≡◌, refl, ap, sym, ◌∙◌, Bool, List, [], ◌∷◌, ◌++◌, arith,
  leb, le→leb, Bool-cases, ◌⊎◌, inl, inr, length, length-append, take, drop, ok, panic,
}
use ember.Text.{Bytes}
use ember.Text.Decimal.{max_usize}
use ember.Resp.Parser.{add_usize, slice, slice_from}

take_append : {A : Type 0} (n : ℕ) (xs ys : List A) → n ≤ length xs → take n (xs ++ ys) ≡ take n xs
take_append zero xs ys h = refl
take_append (suc n) [] ys h = absurd (omega arith)
take_append (suc n) (x ∷ xs) ys h = ap (λ r. x ∷ r) (take_append n xs ys (omega arith))

take-drop_append :
    {A : Type 0} (start n : ℕ) (xs ys : List A)
    → start + n ≤ length xs
    → take n (drop start (xs ++ ys)) ≡ take n (drop start xs)
take-drop_append zero n xs ys h = take_append n xs ys (omega arith)
take-drop_append (suc start) n [] ys h = absurd (omega arith)
take-drop_append (suc start) n (x ∷ xs) ys h = take-drop_append start n xs ys (omega arith)

pub drop_append :
    {A : Type 0} (n : ℕ) (xs ys : List A) → n ≤ length xs → drop n (xs ++ ys) ≡ drop n xs ++ ys
drop_append zero xs ys h = refl
drop_append (suc n) [] ys h = absurd (omega arith)
drop_append (suc n) (x ∷ xs) ys h = drop_append n xs ys (omega arith)

-- a slice within the buffer
pub slice_extend :
    (start stop : ℕ) (buf more : Bytes)
    → stop ≤ length buf
    → slice start stop (buf ++ more) ≡ slice start stop buf
unfolding slice
slice_extend start stop buf more h = elim (Bool-cases (leb start stop)) [
  | inl le ↦ rw (
    le,
    le→leb stop (length buf) h,
    le→leb stop (length (buf ++ more)) (omega (arith, length-append buf more)),
    take-drop_append start (stop - start) buf more (ground arith),
  )
  | inr gt ↦ rw gt
]

slice_outside : (start stop : ℕ) (buf : Bytes) → length buf < stop → slice start stop buf ≡ panic
unfolding slice
slice_outside start stop buf h = ground arith

-- a sum that is in range, or is at the end of the range
pub add_usize_two :
    (checks : Bool) (n : ℕ) {stop : ℕ}
    → add_usize checks n 2 ≡ ok stop
    → (stop ≡ n + 2) ⊎ (max_usize < n + 2)
unfolding add_usize
add_usize_two checks n e = ground arith

-- The greatest length of a buffer, `isize::MAX`.
abbrev pub max_isize : ℕ
max_isize = 2 ^ 63 - 1

pub slice_data :
    (data_start data_end stop : ℕ) (buf more : Bytes)
    → length (buf ++ more) ≤ max_isize
    → (stop ≡ data_end + 2) ⊎ (max_usize < data_end + 2)
    → stop ≤ length buf
    → slice data_start data_end (buf ++ more) ≡ slice data_start data_end buf
slice_data data_start data_end stop buf more fits (inl e) le =
    slice_extend data_start data_end buf more (omega arith)
slice_data data_start data_end stop buf more fits (inr e) le =
    slice_outside data_start data_end (buf ++ more) (omega arith)
    ∙ sym (slice_outside data_start data_end buf (omega (arith, length-append buf more)))

pub slice_from_extend :
    (start : ℕ) (buf more : Bytes)
    → start ≤ length buf
    → (slice_from start buf ≡ ok (drop start buf))
      × (slice_from start (buf ++ more) ≡ ok (drop start buf ++ more))
unfolding slice_from
slice_from_extend start buf more h = (
  rw (le→leb start (length buf) h),
  rw (
    le→leb start (length (buf ++ more)) (omega (arith, length-append buf more)),
    drop_append start buf more h,
  ),
)
