-- ===== src/Connection/Cut.antt =====
-- `Client::handle` (config/client.rs) on bytes that arrive in pieces.
use mathlib.Core.Path.{subst}
use ember.Prelude.{
  ℕ, zero, suc, ◌≤◌, ◌<◌, ◌≡◌, ◌≢◌, ◌⊎◌, inl, inr, refl, ap, sym, ◌∙◌, Bool, true, false, not, ◌&&◌,
  List, [], ◌∷◌, ◌++◌, map, some, append-nil, append_assoc, arith, length, length-append,
  length-drop, drop, ok, err, panic, out_of_fuel, if◌then◌else◌, All,
}
use ember.Prelude.Int.{ℤ}
use ember.Text.{Bytes}
use ember.Text.Decimal.{format_int}
use ember.Resp.Types.{RespType, IoResult, written, io_error}
use ember.Resp.Parser.{incomplete, invalid, Parsed, parse}
use ember.Resp.Parser.Bounds.{parse_consumes}
use ember.Resp.Parser.Extend.{parse_extend}
use ember.Resp.Parser.Slice.{max_isize, drop_append}
use ember.Database.Map.{DashMap}
use ember.Dispatcher.{Session}
use ember.Connection.{
  Environment, ReadResult, received, Ending, reading, closed, aborted, crashed, starved, Conn, Pass,
  Round, stop, round, next_round, drain, on_flush, after_drain, drain_pass, on_reading, next_read,
  read_next, serve,
}
use ember.Connection.Requests.{
  IsReliable, View, answer, after, Serves, done, request, view_of, sent_view, joined,
  round-incomplete,
}
use ember.Connection.Rounds.{Answered, answered, round-Answered}

module _ (dm : DashMap) (env : Environment dm) where
  open env use {build, itoa, sink, extract_time, clock, others}

  module _ (view : sink.aw.Writer → Bytes) (reliable : IsReliable sink view)
      (itoa_lem : (z : ℤ) → itoa z ≡ format_int z) where
    abbrev seen : Conn dm env → View dm env
    seen c = view_of dm env view c

    -- the view with more bytes to come
    abbrev extend : Bytes → View dm env → View dm env
    extend rest v = record v { stream = v.stream ++ rest }

    -- A round of the inner loop that reads on, with a view from which `w` is still to be reached.
    data Stops (w : View dm env) (rest : Bytes) : Round dm env → Type 0 where
      stops :
          {p : Pass dm env}
          → Serves dm env w (extend rest (seen p.conn))
          → parse build p.conn.buf ≡ err incomplete
          → length (p.conn.buf ++ rest) ≤ max_isize
          → Stops w rest (stop p)

    is_incomplete : (r : Parsed (RespType × ℕ)) → (r ≡ err incomplete) ⊎ (r ≢ err incomplete)
    is_incomplete (ok a) = inr (cc)
    is_incomplete (err incomplete) = inl refl
    is_incomplete (err (invalid why)) = inr (cc)
    is_incomplete panic = inr (cc)
    is_incomplete out_of_fuel = inr (cc)

    -- what a view begins with, if it is not at its end
    data Next (w v : View dm env) : Type 0 where
      next :
          {value : RespType} {n : ℕ} {bytes : Bytes} {s : Session dm}
          → parse build v.stream ≡ ok (value, n)
          → answer dm env v.served value v.session ≡ some (bytes, s)
          → Serves dm env w (after dm env n bytes s v)
          → Next w v

    first_request :
        (w v : View dm env)
        → Serves dm env w v
        → parse build w.stream ≡ err incomplete
        → parse build v.stream ≢ err incomplete
        → Next w v
    first_request w _ done e ne = absurd (ne e)
    first_request w v (request parsed answers serves) e ne = next parsed answers serves

    next_round-Stops :
        (w v : View dm env) (rest : Bytes) (fuel : ℕ) (r : Round dm env)
        → ((q : Pass dm env) → seen q.conn ≡ v → Stops w rest (drain dm env fuel q))
        → Answered dm env view reliable itoa_lem v r
        → Stops w rest (next_round dm env (λ q. drain dm env fuel q) r)
    unfolding next_round
    next_round-Stops w v rest fuel _ ih (answered {p} e) = ih p e

    drain-Stops :
        (fuel : ℕ) (p : Pass dm env) (rest : Bytes) (w : View dm env)
        → length p.conn.buf < fuel
        → length (p.conn.buf ++ rest) ≤ max_isize
        → Serves dm env w (extend rest (seen p.conn))
        → parse build w.stream ≡ err incomplete
        → Stops w rest (drain dm env fuel p)
    unfolding drain
    drain-Stops zero p rest w h fits serves e = absurd (omega arith)
    drain-Stops (suc fuel) p rest w h fits serves e =
        elim (is_incomplete (parse build p.conn.buf)) [
          | inl short ↦ rw (round-incomplete dm env p short) (stops serves short fits)
          | inr long ↦
              let known = parse_extend build p.conn.buf rest long fits in
              elim (first_request w (extend rest (seen p.conn)) serves e
                (λ i. long (sym known ∙ i))) [
                  | next {value} {n} {bytes} {s} parsed answers serves' ↦
                      let here = sym known ∙ parsed in
                      let (some_bytes, bytes_there) =
                        parse_consumes build p.conn.buf value n here in
                      next_round-Stops w (after dm env n bytes s (seen p.conn)) rest fuel
                        (round dm env p)
                        (λ q same.
                          let shorter : q.conn.buf ≡ drop n p.conn.buf = ap (λ v. v.stream) same in
                          drain-Stops fuel q rest w
                            (omega (arith, ap length shorter, length-drop n p.conn.buf))
                            (omega (
                              arith,
                              ap length shorter,
                              length-drop n p.conn.buf,
                              length-append q.conn.buf rest,
                              length-append p.conn.buf rest,
                            ))
                            (subst (λ v. Serves dm env w (extend rest v)) (sym same)
                              (subst
                                (λ t.
                                  Serves dm env w
                                    (record (after dm env n bytes s (seen p.conn)) { stream = t }))
                                (drop_append n p.conn.buf rest bytes_there) serves'))
                            e)
                        (round-Answered dm env view reliable itoa_lem p value n bytes s here
                          answers)
                ]
        ]

    -- The end of a pass that reads on, in the same way.
    data ReadsOn (w : View dm env) (rest : Bytes) : Ending × Conn dm env → Type 0 where
      reads_on :
          {c : Conn dm env}
          → Serves dm env w (extend rest (seen c))
          → parse build c.buf ≡ err incomplete
          → length (c.buf ++ rest) ≤ max_isize
          → ReadsOn w rest (reading, c)

    ReadsOn-if :
        {w : View dm env} {rest : Bytes} (b : Bool) {x y : Ending × Conn dm env}
        → ReadsOn w rest x
        → ReadsOn w rest y
        → ReadsOn w rest (if b then x else y)
    ReadsOn-if true hx hy = hx
    ReadsOn-if false hx hy = hy

    on_flush-ReadsOn :
        (w : View dm env) (rest : Bytes) (r : IoResult × sink.aw.Writer) (c : Conn dm env)
        → r.0 ≡ written
        → view r.1 ≡ view c.writer
        → Serves dm env w (extend rest (seen c))
        → parse build c.buf ≡ err incomplete
        → length (c.buf ++ rest) ≤ max_isize
        → ReadsOn w rest (on_flush dm env r c)
    unfolding on_flush
    on_flush-ReadsOn w rest (written, wr) c e h serves short fits =
        reads_on
          (subst (λ b. Serves dm env w (extend rest (sent_view dm env view b c))) (sym h) serves)
          short fits
    on_flush-ReadsOn w rest (io_error why, wr) c e h serves short fits = absurd cc

    after_drain-ReadsOn :
        (w : View dm env) (rest : Bytes) (r : Round dm env)
        → Stops w rest r
        → ReadsOn w rest (after_drain dm env r)
    unfolding after_drain
    after_drain-ReadsOn w rest _ (stops {p} serves short fits) =
        ReadsOn-if (p.made_progress && not (sink.buffer_is_empty p.conn.writer))
          (on_flush-ReadsOn w rest (sink.flush p.conn.writer) p.conn
            (reliable.flush_written p.conn.writer) (reliable.flush_view p.conn.writer) serves short
            fits)
          (reads_on serves short fits)

    drain_pass-ReadsOn :
        (c : Conn dm env) (rest : Bytes) (w : View dm env)
        → length (c.buf ++ rest) ≤ max_isize
        → Serves dm env w (extend rest (seen c))
        → parse build w.stream ≡ err incomplete
        → ReadsOn w rest (drain_pass dm env c)
    unfolding drain_pass
    drain_pass-ReadsOn c rest w fits serves e = after_drain-ReadsOn w rest _ (
        drain-Stops (suc (length c.buf))
          (record { conn = c; pipeline_count = 0; made_progress = false }) rest w (omega arith) fits
          serves e)

    -- A connection that reads on, with this view.
    pub data Reached (w : View dm env) : Ending × Conn dm env → Type 0 where
      reached : {c : Conn dm env} → seen c ≡ w → Reached w (reading, c)

    Serves-end :
        (w v : View dm env) → Serves dm env w v → parse build v.stream ≡ err incomplete → v ≡ w
    Serves-end w _ done e = refl
    Serves-end w v (request parsed answers serves) e = absurd cc

    next_read-Reached :
        (w : View dm env) (rest : Bytes) (rs : List ReadResult) (r : Ending × Conn dm env)
        → ((c : Conn dm env)
            → Serves dm env w (extend rest (seen c))
            → parse build c.buf ≡ err incomplete
            → length (c.buf ++ rest) ≤ max_isize
            → Reached w (serve dm env rs c))
        → ReadsOn w rest r
        → Reached w (next_read dm env (λ d. serve dm env rs d) r)
    unfolding next_read
    next_read-Reached w rest rs _ ih (reads_on {c} serves short fits) = ih c serves short fits

    serve-Reached :
        (chunks : List Bytes) (c : Conn dm env) (w : View dm env)
        → All (λ s. 0 < length s) chunks
        → length (c.buf ++ joined chunks) ≤ max_isize
        → Serves dm env w (extend (joined chunks) (seen c))
        → parse build w.stream ≡ err incomplete
        → parse build c.buf ≡ err incomplete
        → Reached w (serve dm env (map received chunks) c)
    unfolding serve read_next on_reading
    serve-Reached [] c w h le serves e short = reached (
        Serves-end w (seen c)
          (subst (λ b. Serves dm env w (record (seen c) { stream = b })) (append-nil c.buf) serves)
          short)
    serve-Reached ([] ∷ ss) c w (h, hs) le serves e short = absurd (omega arith)
    serve-Reached ((b ∷ s) ∷ ss) c w (h, hs) le serves e short =
        let filled : Conn dm env = record c { buf = c.buf ++ b ∷ s; passes = suc c.passes } in
        let assoc = append_assoc c.buf (b ∷ s) (joined ss) in
        next_read-Reached w (joined ss) (map received ss) (drain_pass dm env filled)
          (λ d serves' short' fits. serve-Reached ss d w hs fits serves' e short')
          (drain_pass-ReadsOn filled (joined ss) w (rw assoc le) (rw assoc serves) e)

    -- at the end of the stream
    next_read-append :
        (rs rs' : List ReadResult) (r : Ending × Conn dm env)
        → ((c : Conn dm env)
            → serve dm env (rs ++ rs') c
              ≡ next_read dm env (λ d. serve dm env rs' d) (serve dm env rs c))
        → next_read dm env (λ d. serve dm env (rs ++ rs') d) r
          ≡ next_read dm env (λ d. serve dm env rs' d) (next_read dm env (λ d. serve dm env rs d) r)
    unfolding next_read
    next_read-append rs rs' (reading, c) ih = ih c
    next_read-append rs rs' (closed, c) ih = refl
    next_read-append rs rs' (aborted, c) ih = refl
    next_read-append rs rs' (crashed, c) ih = refl
    next_read-append rs rs' (starved, c) ih = refl

    serve-append :
        (rs rs' : List ReadResult) (c : Conn dm env)
        → serve dm env (rs ++ rs') c
          ≡ next_read dm env (λ d. serve dm env rs' d) (serve dm env rs c)
    unfolding serve
    serve-append [] rs' c = unfold next_read in refl
    serve-append (r ∷ rs) rs' c = next_read-append rs rs' _ (λ d. serve-append rs rs' d)

    -- A connection that is closed, with this view, of which all has gone out.
    abbrev Closed : View dm env → Ending × Conn dm env → Type 0
    Closed w (e, c) = (e ≡ closed) × (seen c ≡ w) × (reliable.delivered c.writer ≡ w.sent)

    Reached-Closed :
        (w : View dm env) (r : Ending × Conn dm env)
        → Reached w r
        → Closed w (next_read dm env (λ d. serve dm env (received [] ∷ []) d) r)
    unfolding next_read serve read_next on_reading
    Reached-Closed w _ (reached {c} e) = (
      refl,
      ap (λ b. sent_view dm env view b c) (reliable.flush_view c.writer) ∙ e,
      reliable.flush_delivered c.writer ∙ ap (λ v. v.sent) e,
    )

    -- Bytes from which one view is reached by reading requests off them and answering each without a
    -- panic, and that then leave at most the beginning of another: however they are cut when they
    -- arrive, in pieces that are not empty, the connection has reached that view at the end of the
    -- stream, is closed, and has delivered all that it has sent. The buffer holds at most the
    -- beginning of a request before, the bytes are at most `isize::MAX`, and the writer takes and
    -- delivers every byte.
    pub serve-chunks :
        (chunks : List Bytes) (c : Conn dm env) (w : View dm env)
        → All (λ s. 0 < length s) chunks
        → length (c.buf ++ joined chunks) ≤ max_isize
        → Serves dm env w (record (seen c) { stream = c.buf ++ joined chunks })
        → parse build w.stream ≡ err incomplete
        → parse build c.buf ≡ err incomplete
        → let (ending, d) = serve dm env (map received chunks ++ received [] ∷ []) c in
          (ending ≡ closed) × (seen d ≡ w) × (reliable.delivered d.writer ≡ w.sent)
    serve-chunks chunks c w h le serves e short =
        rw (serve-append (map received chunks) (received [] ∷ []) c)
          (Reached-Closed w _ (serve-Reached chunks c w h le serves e short))
