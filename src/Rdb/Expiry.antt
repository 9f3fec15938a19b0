-- ===== src/Rdb/Expiry.antt =====
-- `write_expiry` (rdb/writer.rs) and `read_expiry` (rdb/reader.rs), in two runs of the program.
use mathlib.Core.Option.{some-injective}
use native.Mathlib.Nat.{mod-eq_of_lt}
use ember.Prelude.{
  ℕ, suc, ◌+◌, ◌-◌, ◌*◌, ◌/◌, ◌^◌, ◌≤◌, ◌<◌, ◌≡◌, refl, sym, ◌∙◌, List, [], ◌∷◌, Option, none, some,
  arith, ltb, lt→ltb, ◌⊎◌, inl, inr, ok, Bool-cases,
}
use ember.Text.{Bytes, str_eq, eq_of_str_eq}
use ember.Database.Map.{lookup, lookup-put}
use ember.Database.Core.{Instant}
use ember.Database.Object.{RedisObject}
use ember.Rdb.{Now}
use ember.Rdb.Writer.{expiry_millis}
use ember.Rdb.Writer.Encode.{rdb_bytes}
use ember.Rdb.Reader.{Loaded, expiry_instant, parse_rdb}
use ember.Rdb.View.{IsDistinct}
use ember.Rdb.RoundTrip.{
  store_all, restore_all, clock_behind, nothing_loaded, AreStorable, AreExpiries,
  parse_rdb-rdb_bytes,
}
use ember.Rdb.RoundTrip.Rounds.{restored}

-- A run of the program in which the system's clock is ahead of `Instant` by `ahead`.
abbrev pub IsSteady : ℕ → Now → Type 0
IsSteady ahead now = now.system ≡ now.instant + ahead

-- An instant `t'` of the run that loads means the instant `t` of the run that saved: to less than a
-- millisecond, and not later; or it is the time of the load, and `t` is then past, to a millisecond.
abbrev pub MeansSame : ℕ → ℕ → Now → Instant → Instant → Type 0
MeansSame saved_ahead loaded_ahead now t t' =
    ((t' ≡ now.instant) × (t + saved_ahead < now.system + 1_000_000))
    ⊎ ((t' + loaded_ahead ≤ t + saved_ahead) × (t + saved_ahead < t' + loaded_ahead + 1_000_000))

expiry_millis-later :
    (a : ℕ) (w : Now) (t : Instant)
    → IsSteady a w
    → w.instant < t
    → (t + a) / 1_000_000 < 2 ^ 64
    → expiry_millis w t ≡ (t + a) / 1_000_000
unfolding expiry_millis
expiry_millis-later a w t hw later fits =
    let same : w.system + (t - w.instant) ≡ t + a = omega arith in
    rw (lt→ltb w.instant t later, same) (mod-eq_of_lt fits)

expiry_instant-MeansSame :
    (a b : ℕ) (r : Now) (t m : ℕ)
    → IsSteady b r
    → m * 1_000_000 ≤ t + a
    → t + a < m * 1_000_000 + 1_000_000
    → MeansSame a b r t (expiry_instant r m)
unfolding expiry_instant
expiry_instant-MeansSame a b r t m hr lo hi = elim (Bool-cases (ltb r.system (m * 1_000_000))) [
  | inl h ↦ inr (ground arith, ground arith)
  | inr h ↦ inl (ground arith, ground arith)
]

restored-MeansSame :
    (a b : ℕ) (w r : Now) (t : Instant)
    → IsSteady a w
    → IsSteady b r
    → w.instant < t
    → (t + a) / 1_000_000 < 2 ^ 64
    → MeansSame a b r t (restored w r t)
restored-MeansSame a b w r t hw hr later fits =
    rw (expiry_millis-later a w t hw later fits)
      (expiry_instant-MeansSame a b r t ((t + a) / 1_000_000) hr (omega arith) (omega arith))

lookup-restore_none :
    (written read : ℕ → Now) (es : List (Bytes × Instant)) (st : Loaded) (k : Bytes)
    → lookup k es ≡ none
    → lookup k (restore_all written read es st).expirations ≡ lookup k st.expirations
unfolding lookup
lookup-restore_none written read [] st k e = refl
lookup-restore_none written read ((j, u) ∷ es) st k e = elim (Bool-cases (str_eq j k)) [
  | inl h ↦ absurd cc
  | inr h ↦
      let rest : lookup k es ≡ none = rw h at e in
      lookup-restore_none (λ i. written (suc i)) (λ i. read (suc i)) es _ k rest
      ∙ lookup-put j k _ st.expirations
      ∙ rw h refl
]

-- An entry that comes back through a time of the one run and a time of the other.
data CameBack (P Q : Now → Type 0) (t : Instant) (o : Option Instant) : Type 0 where
  came_back : {w r : Now} → P w → Q r → o ≡ some (restored w r t) → CameBack P Q t o

lookup-restore_all :
    (P Q : Now → Type 0) (written read : ℕ → Now) (es : List (Bytes × Instant)) (st : Loaded)
    (k : Bytes) (t : Instant)
    → ((i : ℕ) → P (written i))
    → ((i : ℕ) → Q (read i))
    → IsDistinct es
    → lookup k es ≡ some t
    → CameBack P Q t (lookup k (restore_all written read es st).expirations)
unfolding lookup
lookup-restore_all P Q written read [] st k t hp hq d e = absurd cc
lookup-restore_all P Q written read ((j, u) ∷ es) st k t hp hq (absent, d) e =
    elim (Bool-cases (str_eq j k)) [
      | inl h ↦
          let at_head : some u ≡ some t = rw h at e in
          let same : j ≡ k = eq_of_str_eq j k h in
          came_back (hp 0) (hq 0) (
            lookup-restore_none (λ i. written (suc i)) (λ i. read (suc i)) es _ k
              (rw same at absent)
            ∙ lookup-put j k _ st.expirations
            ∙ rw (h, some-injective _ _ at_head) refl)
      | inr h ↦
          lookup-restore_all P Q (λ i. written (suc i)) (λ i. read (suc i)) es _ k t
            (λ i. hp (suc i)) (λ i. hq (suc i)) d (rw h at e)
    ]

clock_behind-all :
    {A : Type 0} (Q : Now → Type 0) (es : List A) (read : ℕ → Now)
    → ((i : ℕ) → Q (read i))
    → (i : ℕ) → Q (clock_behind es read i)
clock_behind-all Q [] read h i = h i
clock_behind-all Q (e ∷ es) read h i = clock_behind-all Q es (λ j. read (suc j)) (λ j. h (suc j)) i

-- A key's expiration that has not passed while a snapshot is written comes back when the snapshot is
-- loaded, by another run of the program with another origin of `Instant`: by the system's clock it
-- is the same to less than a millisecond, and never later; or it has passed by the time of the load,
-- and is then that time, to a millisecond. By the system's clock the expiration is less than 2^64
-- milliseconds after the epoch, each run's two clocks are a fixed distance apart, the expirations are
-- listed once each, keys and strings are UTF-8 of less than 2^32 bytes, lists have less than 2^32
-- strings and nothing else, and no key with an expiration is spelled like the name of a type.
pub saved_expiration :
    (a b : ℕ) (written read : ℕ → Now) (db : List (Bytes × RedisObject))
    (es : List (Bytes × Instant)) (k : Bytes) (t : Instant)
    → AreStorable db
    → AreExpiries es
    → IsDistinct es
    → lookup k es ≡ some t
    → ((i : ℕ) → IsSteady a (written i))
    → ((i : ℕ) → IsSteady b (read i))
    → ((i : ℕ) → (written i).instant < t)
    → (t + a) / 1_000_000 < 2 ^ 64
    → (loaded : Loaded) × (i : ℕ) × (t' : Instant) × (parse_rdb read (rdb_bytes written db es)
        ≡ ok loaded)
      × (lookup k loaded.expirations ≡ some t')
      × MeansSame a b (read i) t t'
saved_expiration a b written read db es k t hdb hes distinct here hw hr later fits =
    let behind = clock_behind db (λ i. read (suc i)) in
    let full = store_all db nothing_loaded in
    elim (lookup-restore_all (λ w. IsSteady a w × (w.instant < t)) (λ r. (i : ℕ) × (r ≡ read i))
      written behind es full k t (λ i. (hw i, later i))
      (clock_behind-all (λ r. (i : ℕ) × (r ≡ read i)) db (λ i. read (suc i)) (λ i. (suc i, refl)))
      distinct here) [
        | came_back {w} {r} (steady, before) (i, e) back ↦ (
          restore_all written behind es full,
          i,
          restored w r t,
          parse_rdb-rdb_bytes written read db es hdb hes,
          back,
          rw (sym e) (restored-MeansSame a b w r t steady (rw e (hr i)) before fits),
        )
      ]
