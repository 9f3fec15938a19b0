-- ===== src/Resp/Types/Write.antt =====
-- `write_to`, which avoids building the reply in memory, against `to_string`.
use mathlib.Core.Path.{fun_ext}
use ember.Prelude.{
  ℕ, ◌≡◌, refl, sym, ◌∙◌, true, false, [], ◌∷◌, ◌++◌, append_assoc, length, inl, inr, Bool-cases,
}
use ember.Prelude.Int.{ℤ, pos}
use ember.Text.{Bytes, codes, str_eq, eq_of_str_eq}
use ember.Text.Decimal.{format_int, format_usize}
use ember.Resp.Types.{
  RespType, RespTypes, simple_string, simple_error, integer, bulk_string, array, null, boolean, nil,
  cons, size, crlf, to_string, to_string_items, IoResult, written, AsyncWrite, and_then, framed,
  write_simple, write_bulk, write_to, write_items,
}

-- A stream cannot tell where one `write_all` ended and the next began.
pub record IsStream (aw : AsyncWrite) : Type 0 where
  pub write_nil : (w : aw.Writer) → aw.write_all [] w ≡ (written, w)
  pub write_append :
      (s t : Bytes) (w : aw.Writer)
      → and_then (aw.write_all s w) (aw.write_all t) ≡ aw.write_all (s ++ t) w

module _ (aw : AsyncWrite) (itoa : ℤ → Bytes) (stream : IsStream aw)
    (itoa_lem : (z : ℤ) → itoa z ≡ format_int z) where
  open aw use {Writer, write_all}

  -- two writes in a row, where the second is known to write `t`
  write_then :
      (s t : Bytes) (w : Writer) (k : Writer → IoResult × Writer)
      → ((w₁ : Writer) → k w₁ ≡ write_all t w₁)
      → and_then (write_all s w) k ≡ write_all (s ++ t) w
  write_then s t w k h = rw (fun_ext h) (stream.write_append s t w)

  framed_lem :
      (marker : ℕ) (body : Bytes) (w : Writer)
      → framed aw itoa marker body w ≡ write_all (marker ∷ (body ++ crlf)) w
  unfolding framed
  framed_lem marker body w =
      write_then (marker ∷ []) (body ++ crlf) w _
        λ w₁. write_then body crlf w₁ (λ w₂. write_all crlf w₂) (λ w₂. refl)

  write_simple_lem :
      (ss : Bytes) (w : Writer) → write_simple aw itoa ss w ≡ write_all (b'+' ∷ (ss ++ crlf)) w
  unfolding write_simple str_eq
  write_simple_lem ss w = elim (Bool-cases (str_eq ss (codes "Ok"))) [
    | inl e ↦ rw (eq_of_str_eq ss _ e) (refl)
    | inr n₁ ↦ elim (Bool-cases (str_eq ss (codes "Pong"))) [
      | inl e ↦ rw (eq_of_str_eq ss _ e) (refl)
      | inr n₂ ↦ elim (Bool-cases (str_eq ss (codes "QUEUED"))) [
        | inl e ↦ rw (eq_of_str_eq ss _ e) (refl)
        | inr n₃ ↦ rw (n₁, n₂, n₃) (framed_lem b'+' ss w)
      ]
    ]
  ]

  bulk_framed :
      (bs : Bytes) (w : Writer)
      → and_then
          (framed aw itoa b'$' (itoa (pos (length bs))) w)
          (λ w₁. and_then (write_all bs w₁) λ w₂. write_all crlf w₂)
        ≡ write_all (to_string (bulk_string bs)) w
  unfolding to_string format_int
  bulk_framed bs w =
      rw (framed_lem, itoa_lem)
        (write_then _ (bs ++ crlf) w _ (λ w₁. write_then bs crlf w₁ _ (λ w₂. refl))
          ∙ simp append_assoc)

  write_bulk_lem :
      (bs : Bytes) (w : Writer) → write_bulk aw itoa bs w ≡ write_all (to_string (bulk_string bs)) w
  unfolding write_bulk to_string
  write_bulk_lem bs w = elim (Bool-cases (str_eq bs (codes "nil"))) [
    | inl e ↦ rw (eq_of_str_eq bs _ e) (unfold str_eq format_usize in refl)
    | inr n ↦ rw n (bulk_framed bs w)
  ]

  array_framed :
      (arr : RespTypes) (w : Writer) (k : Writer → IoResult × Writer)
      → ((w₁ : Writer) → k w₁ ≡ write_all (to_string_items arr) w₁)
      → and_then (framed aw itoa b'*' (itoa (pos (size arr))) w) k
        ≡ write_all (to_string (array arr)) w
  unfolding to_string format_int
  array_framed arr w k h =
      rw (framed_lem, itoa_lem) (write_then _ (to_string_items arr) w k h ∙ simp append_assoc)

  mutual
    unfolding write_to to_string

    write_to-all : (v : RespType) (w : Writer) → write_to aw itoa v w ≡ write_all (to_string v) w
    write_to-all (simple_string ss) w = write_simple_lem ss w
    write_to-all (simple_error se) w = framed_lem b'-' se w
    write_to-all (integer n) w = simp (framed_lem, itoa_lem)
    write_to-all (bulk_string bs) w = write_bulk_lem bs w
    write_to-all (array arr) w = array_framed arr w _ (λ w₁. write_items-all arr w₁)
    write_to-all null w = refl
    write_to-all (boolean true) w = refl
    write_to-all (boolean false) w = refl

    write_items-all :
        (vs : RespTypes) (w : Writer) → write_items aw itoa vs w ≡ write_all (to_string_items vs) w
    write_items-all nil w = sym (stream.write_nil w)
    write_items-all (cons v vs) w =
        rw (write_to-all v w)
          (write_then (to_string v) (to_string_items vs) w _ (λ w₁. write_items-all vs w₁))

-- For a writer that cannot tell how its input was cut into writes, and an `itoa` that prints as
-- `Display` does, `write_to` does to the writer what one write of `to_string` does, whether it
-- succeeds or fails. (The fast paths, the recursion into arrays and every `?` included.)
pub write_to-to_string :
    (aw : AsyncWrite) (itoa : ℤ → Bytes)
    → IsStream aw
    → ((z : ℤ) → itoa z ≡ format_int z)
    → (v : RespType) (w : aw.Writer) → write_to aw itoa v w ≡ aw.write_all (to_string v) w
write_to-to_string aw itoa stream itoa_lem v w = write_to-all aw itoa stream itoa_lem v w
