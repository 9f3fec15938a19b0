-- ===== src/Resp/Types.antt =====
-- resp/types.rs: the RESP values, `to_string`, `to_bytes` and `write_to`.
pub mod Write
use ember.Prelude.{
  ℕ, zero, suc, Bool, true, false, List, [], ◌∷◌, ◌++◌, length, if◌then◌else◌, ◌≡◌, refl, ap,
}
use ember.Prelude.Int.{ℤ, pos, negsuc}
use ember.Text.{Bytes, codes, str_eq}
use ember.Text.Decimal.{format_int, format_usize}

-- `Array(Vec<RespType>)` holds a list of itself: `RespTypes` are those lists.
mutual
  pub data RespType : Type 0 where
    simple_string : Bytes → RespType
    simple_error : Bytes → RespType
    integer : ℤ → RespType
    bulk_string : Bytes → RespType
    array : RespTypes → RespType
    null : RespType
    boolean : Bool → RespType

  pub data RespTypes : Type 0 where
    nil : RespTypes
    cons : RespType → RespTypes → RespTypes

abbrev pub to_list : RespTypes → List RespType
to_list nil = []
to_list (cons v vs) = v ∷ to_list vs

abbrev pub from_list : List RespType → RespTypes
from_list [] = nil
from_list (v ∷ vs) = cons v (from_list vs)

pub to_list-from_list : (vs : List RespType) → to_list (from_list vs) ≡ vs
to_list-from_list [] = refl
to_list-from_list (v ∷ vs) = ap (λ r. v ∷ r) (to_list-from_list vs)

abbrev pub size : RespTypes → ℕ
size nil = 0
size (cons v vs) = suc (size vs)

abbrev pub crlf : Bytes
crlf = b'\r' ∷ b'\n' ∷ []

unfoldable mutual
  pub to_string : RespType → Bytes
  to_string (simple_string ss) = b'+' ∷ (ss ++ crlf)
  to_string (integer int) = b':' ∷ (format_int int ++ crlf)
  to_string (bulk_string bs) = b'$' ∷ (format_usize (length bs) ++ (crlf ++ (bs ++ crlf)))
  to_string (array arr) = b'*' ∷ (format_usize (size arr) ++ (crlf ++ to_string_items arr))
  to_string null = b'_' ∷ crlf
  to_string (boolean b) = b'#' ∷ (if b then b't' else b'f') ∷ crlf
  to_string (simple_error se) = b'-' ∷ (se ++ crlf)

  pub to_string_items : RespTypes → Bytes
  to_string_items nil = []
  to_string_items (cons a arr) = to_string a ++ to_string_items arr

unfoldable pub to_bytes : RespType → Bytes
unfolding to_string
to_bytes v = to_string v

-- What a write comes to.
pub data IoResult : Type 0 where
  written : IoResult
  io_error : Bytes → IoResult

-- `tokio::io::AsyncWriteExt`: a writer, and `write_all`, after which the writer has changed whether
-- it failed or not.
pub record AsyncWrite : Type 1 where
  pub Writer : Type 0
  pub write_all : Bytes → Writer → IoResult × Writer

-- `?` between two writes
abbrev pub and_then : {W : Type 0} → IoResult × W → (W → IoResult × W) → IoResult × W
and_then (written, w) k = k w
and_then (io_error e, w) k = (io_error e, w)

abbrev resp_ok : Bytes
resp_ok = b'+' ∷ b'O' ∷ b'k' ∷ crlf

abbrev resp_pong : Bytes
resp_pong = b'+' ∷ b'P' ∷ b'o' ∷ b'n' ∷ b'g' ∷ crlf

abbrev resp_nil : Bytes
resp_nil = b'$' ∷ b'3' ∷ (crlf ++ (b'n' ∷ b'i' ∷ b'l' ∷ crlf))

abbrev resp_queued : Bytes
resp_queued = b'+' ∷ b'Q' ∷ b'U' ∷ b'E' ∷ b'U' ∷ b'E' ∷ b'D' ∷ crlf

-- `itoa` is the crate's `Buffer::format`.
module _ (aw : AsyncWrite) (itoa : ℤ → Bytes) where
  open aw use {Writer, write_all}

  pub framed : ℕ → Bytes → Writer → IoResult × Writer
  framed marker body w =
      and_then (write_all (marker ∷ []) w)
        λ w₁. and_then (write_all body w₁) λ w₂. write_all crlf w₂

  pub write_simple : Bytes → Writer → IoResult × Writer
  unfolding framed
  write_simple ss w =
      if str_eq ss (codes "Ok")
      then write_all resp_ok w
      else if str_eq ss (codes "Pong")
      then write_all resp_pong w
      else if str_eq ss (codes "QUEUED")
      then write_all resp_queued w
      else framed b'+' ss w

  pub write_bulk : Bytes → Writer → IoResult × Writer
  write_bulk bs w =
      if str_eq bs (codes "nil")
      then write_all resp_nil w
      else and_then (framed b'$' (itoa (pos (length bs))) w)
          λ w₁. and_then (write_all bs w₁) λ w₂. write_all crlf w₂

  unfoldable mutual
    pub write_to : RespType → Writer → IoResult × Writer
    write_to (simple_string ss) w = write_simple ss w
    write_to (simple_error se) w = framed b'-' se w
    write_to (integer n) w = framed b':' (itoa n) w
    write_to (bulk_string bs) w = write_bulk bs w
    write_to (array arr) w =
        and_then (framed b'*' (itoa (pos (size arr))) w) λ w₁. write_items arr w₁
    write_to null w = write_all (b'_' ∷ crlf) w
    write_to (boolean b) w =
        if b then write_all (b'#' ∷ b't' ∷ crlf) w else write_all (b'#' ∷ b'f' ∷ crlf) w

    pub write_items : RespTypes → Writer → IoResult × Writer
    write_items nil w = (written, w)
    write_items (cons item arr) w = and_then (write_to item w) λ w₁. write_items arr w₁
