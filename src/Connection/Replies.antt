-- ===== src/Connection/Replies.antt =====
-- `Client::handle` (config/client.rs) for a client that prints requests and reads the replies.
use mathlib.Core.Path.{subst}
use ember.Prelude.{
  ℕ, suc, ◌+◌, ◌≤◌, ◌<◌, ◌≡◌, refl, ap, sym, ◌∙◌, List, [], ◌∷◌, ◌++◌, map, Option, none, some,
  append-nil, append_assoc, arith, length, length-append, drop-length_append, All,
}
use ember.Prelude.Int.{ℤ}
use ember.Text.{Bytes}
use ember.Text.Decimal.{format_int}
use ember.Resp.Types.{RespType, to_string}
use ember.Resp.Parser.Slice.{max_isize}
use ember.Resp.Parser.RoundTrip.{canonical, IsPrintable, parse-to_string}
use ember.Database.Map.{DashMap}
use ember.Database.Core.{Db}
use ember.Dispatcher.{Session, new_client}
use ember.Connection.{Environment, received, closed, TcpStream, handle}
use ember.Connection.Requests.{IsReliable, answer, Serves, done, request, joined, parse-nil}
use ember.Connection.Cut.{serve-chunks}

module _ (dm : DashMap) (env : Environment dm) where
  open env use {build, itoa, sink}

  -- a reply, and those that follow it
  then_replies :
      (Session dm → Option (Bytes × Session dm))
      → Option (Bytes × Session dm)
      → Option (Bytes × Session dm)
  then_replies k none = none
  then_replies k (some (bytes, s)) = elim (k s) [
    | none ↦ none
    | some (bytes', s') ↦ some (bytes ++ bytes', s')
  ]

  -- The replies to requests that are served one after the other, from the i-th on, and the session
  -- at their end; none if one of them panics.
  unfoldable pub replies : ℕ → List RespType → Session dm → Option (Bytes × Session dm)
  unfolding then_replies
  replies i [] s = some ([], s)
  replies i (v ∷ vs) s = then_replies (λ t. replies (suc i) vs t) (answer dm env i v s)

  -- the parts of `then_replies`, if it has a value
  data Replied (o : Option (Bytes × Session dm)) (k : Session dm → Option (Bytes × Session dm))
      (out : Bytes) (t : Session dm) : Type 0 where
    replied :
        {b b' : Bytes} {s : Session dm}
        → o ≡ some (b, s)
        → k s ≡ some (b', t)
        → b ++ b' ≡ out
        → Replied o k out t

  then_replies-some :
      (o : Option (Bytes × Session dm)) (k : Session dm → Option (Bytes × Session dm)) (out : Bytes)
      (t : Session dm)
      → then_replies k o ≡ some (out, t)
      → Replied o k out t
  unfolding then_replies
  then_replies-some none k out t e = absurd cc
  then_replies-some (some (b, s)) k out t e = rest (k s) refl e
    where
      rest :
          (r : Option (Bytes × Session dm))
          → k s ≡ r
          → elim r as (λ _. Option (Bytes × Session dm)) [
            | none ↦ none
            | some (b', s') ↦ some (b ++ b', s')
          ]
            ≡ some (out, t)
          → Replied (some (b, s)) k out t
      rest none h e' = absurd cc
      rest (some (b', s')) h e' = replied {b' = b'} refl (h ∙ cc) cc

  add_zero : (n : ℕ) → n + 0 ≡ n
  add_zero n = omega arith

  add_suc : (n k : ℕ) → n + suc k ≡ suc n + k
  add_suc n k = omega arith

  replies-Serves :
      (i : ℕ) (vs : List RespType) (s t : Session dm) (sent out : Bytes)
      → All (IsPrintable build.max_capacity) vs
      → length (joined (map to_string vs)) ≤ max_isize
      → replies i (map canonical vs) s ≡ some (out, t)
      → Serves dm env
          (record { stream = []; session = t; sent = sent ++ out; served = i + length vs })
          (record { stream = joined (map to_string vs); session = s; sent = sent; served = i })
  unfolding replies
  replies-Serves i [] s t sent out p fits e =
      let same : ([], s) ≡ (out, t) = cc in
      subst
        (λ (o, u).
          Serves dm env (record { stream = []; session = u; sent = sent ++ o; served = i + 0 })
            (record { stream = []; session = s; sent = sent; served = i }))
        same (rw (append-nil sent, add_zero i) done)
  replies-Serves i (v ∷ vs) s t sent out (pv, pvs) fits e =
      elim (then_replies-some (answer dm env i (canonical v) s) _ out t e) [
        | replied {b} {b'} {s = s₁} answers others same ↦
            rw (sym same, sym (append_assoc sent b b'), add_suc i (length vs))
              (request
                (parse-to_string build v (joined (map to_string vs)) pv (omega (arith, fits)))
                answers
                (rw (drop-length_append (to_string v) (joined (map to_string vs))) (
                  replies-Serves (suc i) vs s₁ t (sent ++ b) b' pvs
                    (omega (arith, fits, length-append (to_string v) (joined (map to_string vs))))
                    others)))
      ]

  -- A client that prints requests, and sends the bytes in any pieces, to a socket that takes every
  -- reply: if none of the requests panics when they are served one after the other, the replies
  -- arrive in the order of the requests, each once and whole; the store and the transaction are as
  -- the last request left them; and the connection is closed at the end of the stream. (The values
  -- are such as a Rust program can hold and a line can carry, and their bytes at most `isize::MAX`.)
  pub handle-requests :
      (view : sink.aw.Writer → Bytes)
      → (reliable : IsReliable sink view) → ((z : ℤ) → itoa z ≡ format_int z)
      → (tcp : TcpStream sink.aw.Writer)
      → ((n : ℕ) (socket : tcp.Socket) → view (tcp.with_capacity n socket) ≡ [])
      → (socket : tcp.Socket) (db : Db dm) (vs : List RespType) (chunks : List Bytes) (out : Bytes)
        (t : Session dm)
      → All (IsPrintable build.max_capacity) vs
      → All (λ s. 0 < length s) chunks
      → joined chunks ≡ joined (map to_string vs)
      → length (joined chunks) ≤ max_isize
      → replies 0 (map canonical vs) (record { client = new_client; db = db; snapshots = [] })
        ≡ some (out, t)
      → let (ending, c) = handle dm env tcp socket db (map received chunks ++ received [] ∷ []) in
        (ending ≡ closed) × (reliable.delivered c.writer ≡ out) × (c.session ≡ t) × (c.buf ≡ [])
  unfolding handle
  handle-requests view reliable itoa_lem tcp fresh socket db vs chunks out t p h same fits e =
      let s₀ : Session dm = record { client = new_client; db = db; snapshots = [] } in
      let served = replies-Serves 0 vs s₀ t [] out p (rw (sym same) fits) e in
      let (is_closed, at_end, delivered) =
        serve-chunks dm env view reliable itoa_lem chunks _
          (record { stream = []; session = t; sent = out; served = 0 + length vs }) h fits
          (rw (fresh, same) served) (parse-nil dm env) (parse-nil dm env) in
      (is_closed, delivered, ap (λ v. v.session) at_end, ap (λ v. v.stream) at_end)
