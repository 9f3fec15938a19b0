-- ===== src/Database/Steps/Values.antt =====
-- The values that the interleaved methods of `DB` (database/core.rs) read, and a method whose steps are
-- not interleaved.
use ember.Prelude.{
  ℕ, zero, suc, ◌≡◌, refl, sym, ◌∙◌, Bool, true, false, List, [], ◌∷◌, ◌++◌, Option, none, some,
  if◌then◌else◌, Bool-cases, inl, inr, All, All-append, ok,
}
use mathlib.Core.Path.{subst}
use mathlib.Core.List.{reverse}
use mathlib.Core.Option.{some-injective}
use ember.Text.{Bytes, str_eq, eq_of_str_eq}
use ember.Database.Map.{DashMap}
use ember.Database.Object.{
  RedisObject, Objects, string, list, to_list, from_list, to_list-from_list, nil_string,
}
use ember.Database.Core as Core
use ember.Database.Core.{Instant, Db}
use ember.Database.Steps.{
  rpush_begin, lpush_begin, push_insert, push_done, expire_begin, expire_test, expire_insert,
  expire_done, rpush_entry, lpush_entry, expire_next, Call, set_begin, set_value, set_expiration,
  get_begin, get_read, get_purge, get_purge_expiration, delete_begin, delete_expiration,
  cycle_begin, cycle_purge, cycle_purge_expiration, set_done, get_done, delete_done, cycle_done,
  put_expiration, passed, advance, System, Step, moves, Reaches, here, later,
}

-- Every value that a call is about to write or has read under a key has the property.
abbrev pub Carries : (Bytes → RedisObject → Type 0) → Call → Type 0
Carries P (set_begin key val exp) = P key val
Carries P (set_value key val exp) = P key val
Carries P (get_done key (some val)) = P key val
Carries P (rpush_begin key vals) = P key (list (from_list vals))
Carries P (lpush_begin key vals) =
    P key (list (from_list vals)) × P key (list (from_list (reverse vals)))
Carries P (push_insert key vals) = P key (list (from_list vals))
Carries P _ = Unit

not_removed :
    {V : Type 0} (b : Bool) (o : Option V) {v : V} → (if b then none else o) ≡ some v → o ≡ some v
not_removed true o e = absurd cc
not_removed false o e = e

All-split : {A : Type 0} (Q : A → Type 0) (xs ys : List A) → All Q (xs ++ ys) → All Q xs × All Q ys
All-split Q [] ys h = (tt, h)
All-split Q (x ∷ xs) ys (hx, h) = let (h₁, h₂) = All-split Q xs ys h in ((hx, h₁), h₂)

-- What two lists have, the one in front of the other has.
abbrev Joins : (Bytes → RedisObject → Type 0) → Type 0
Joins P =
    (k : Bytes) (l m : Objects)
    → P k (list l)
    → P k (list m)
    → P k (list (from_list (to_list l ++ to_list m)))

module _ (dm : DashMap) (P : Bytes → RedisObject → Type 0) (joins : Joins P) where
  abbrev Stores : Db dm → Type 0
  Stores db = (k : Bytes) (v : RedisObject) → dm.get db.values k ≡ some v → P k v

  removed-Stores :
      (key : Bytes) (db : Db dm)
      → Stores db
      → Stores (record db { values = dm.remove db.values key })
  removed-Stores key db h k v e =
      h k v
        (not_removed (str_eq key k) (dm.get db.values k) (sym (dm.get-remove db.values key k) ∙ e))

  inserted-Stores :
      (key : Bytes) (val : RedisObject) (db : Db dm)
      → P key val
      → Stores db
      → Stores (record db { values = dm.insert db.values key val })
  inserted-Stores key val db p h k v e = elim (Bool-cases (str_eq key k)) [
    | inl same ↦
        let at_key : some val ≡ some v = rw (dm.get-insert db.values key val k, same) at e in
        subst (λ x. P x v) (eq_of_str_eq key k same)
          (subst (λ x. P key x) (some-injective _ _ at_key) p)
    | inr differs ↦ h k v (rw (dm.get-insert db.values key val k, differs) at e)
  ]

  pushed :
      (key : Bytes) (l : Objects) (vals : List RedisObject)
      → P key (list l)
      → P key (list (from_list vals))
      → P key (list (from_list (to_list l ++ vals)))
  pushed key l vals hl hv =
      subst (λ vs. P key (list (from_list (to_list l ++ vs)))) (to_list-from_list vals)
        (joins key l (from_list vals) hl hv)

  pushed_front :
      (key : Bytes) (l : Objects) (vals : List RedisObject)
      → P key (list l)
      → P key (list (from_list vals))
      → P key (list (from_list (vals ++ to_list l)))
  pushed_front key l vals hl hv =
      subst (λ vs. P key (list (from_list (vs ++ to_list l)))) (to_list-from_list vals)
        (joins key (from_list vals) l hv hl)

  read-Carries :
      (key : Bytes) (o : Option RedisObject)
      → ((v : RedisObject) → o ≡ some v → P key v)
      → Carries P (get_done key o)
  read-Carries key none h = tt
  read-Carries key (some v) h = h v refl

  if-Carries : (b : Bool) (c d : Call) → Carries P c → Carries P d → Carries P (if b then c else d)
  if-Carries true c d hc hd = hc
  if-Carries false c d hc hd = hd

  put_expiration-Stores :
      (key : Bytes) (exp : Option Instant) (db : Db dm)
      → Stores db
      → Stores (put_expiration dm key exp db)
  unfolding put_expiration
  put_expiration-Stores key none db h = h
  put_expiration-Stores key (some t) db h = h

  rpush-Carries :
      (key : Bytes) (vals : List RedisObject) (o : Option RedisObject) (db : Db dm)
      → P key (list (from_list vals))
      → ((v : RedisObject) → o ≡ some v → P key v)
      → Stores db
      → Carries P (rpush_entry dm key vals o db).0 × Stores (rpush_entry dm key vals o db).1
  unfolding rpush_entry
  rpush-Carries key vals none db p at h = (p, h)
  rpush-Carries key vals (some (string s)) db p at h = (tt, h)
  rpush-Carries key vals (some (list l)) db p at h =
      (tt, inserted-Stores key _ db (pushed key l vals (at (list l) refl) p) h)

  lpush-Carries :
      (key : Bytes) (vals : List RedisObject) (o : Option RedisObject) (db : Db dm)
      → P key (list (from_list vals)) × P key (list (from_list (reverse vals)))
      → ((v : RedisObject) → o ≡ some v → P key v)
      → Stores db
      → Carries P (lpush_entry dm key vals o db).0 × Stores (lpush_entry dm key vals o db).1
  unfolding lpush_entry
  lpush-Carries key vals none db p at h = (p.1, h)
  lpush-Carries key vals (some (string s)) db p at h = (tt, h)
  lpush-Carries key vals (some (list l)) db p at h =
      (tt, inserted-Stores key _ db (pushed_front key l vals (at (list l) refl) p.0) h)

  expire-Carries :
      (key : Bytes) (expires_at : Instant) (o : Option Bool)
      → Carries P (expire_next dm key expires_at o)
  unfolding expire_next
  expire-Carries key expires_at none = tt
  expire-Carries key expires_at (some false) = tt
  expire-Carries key expires_at (some true) = tt

  advance-Carries :
      (now : Instant) (c : Call) (db : Db dm)
      → Carries P c
      → Stores db
      → Carries P (advance dm now c db).0 × Stores (advance dm now c db).1
  unfolding advance
  advance-Carries now (set_begin key val exp) db p h = (p, h)
  advance-Carries now (set_value key val exp) db p h = (tt, inserted-Stores key val db p h)
  advance-Carries now (set_expiration key exp) db p h = (tt, put_expiration-Stores key exp db h)
  advance-Carries now (get_begin key) db p h = (
    if-Carries (passed dm now (dm.get db.expirations key)) (get_purge key) (get_read key) tt tt,
    h,
  )
  advance-Carries now (get_read key) db p h =
      (read-Carries key (dm.get db.values key) (λ v e. h key v e), h)
  advance-Carries now (get_purge key) db p h = (tt, removed-Stores key db h)
  advance-Carries now (get_purge_expiration key) db p h = (tt, h)
  advance-Carries now (delete_begin key) db p h = (tt, removed-Stores key db h)
  advance-Carries now (delete_expiration key) db p h = (tt, h)
  advance-Carries now (rpush_begin key vals) db p h =
      rpush-Carries key vals (dm.get db.values key) db p (λ v e. h key v e) h
  advance-Carries now (lpush_begin key vals) db p h =
      lpush-Carries key vals (dm.get db.values key) db p (λ v e. h key v e) h
  advance-Carries now (push_insert key vals) db p h =
      (tt, inserted-Stores key (list (from_list vals)) db p h)
  advance-Carries now (expire_begin key expires_at option) db p h = (
    if-Carries (dm.contains_key db.values key) (expire_test key expires_at option) expire_done tt
        tt,
    h,
  )
  advance-Carries now (expire_test key expires_at option) db p h =
      (expire-Carries key expires_at _, h)
  advance-Carries now (expire_insert key expires_at) db p h = (tt, h)
  advance-Carries now (cycle_begin started key) db p h = (
    if-Carries (passed dm started (dm.get db.expirations key)) (cycle_purge key) cycle_done tt tt,
    h,
  )
  advance-Carries now (cycle_purge key) db p h = (tt, removed-Stores key db h)
  advance-Carries now (cycle_purge_expiration key) db p h = (tt, h)
  advance-Carries now set_done db p h = (p, h)
  advance-Carries now (get_done key o) db p h = (p, h)
  advance-Carries now delete_done db p h = (p, h)
  advance-Carries now push_done db p h = (p, h)
  advance-Carries now expire_done db p h = (p, h)
  advance-Carries now cycle_done db p h = (p, h)

  Step-Carries :
      (s t : System dm)
      → All (Carries P) s.calls
      → Stores s.db
      → Step dm s t
      → All (Carries P) t.calls × Stores t.db
  Step-Carries s _ all h (moves before c after now e) =
      let (h_before, (h_c, h_after)) =
        All-split (Carries P) before (c ∷ after) (subst (λ cs. All (Carries P) cs) e all) in
      let (h_c', h') = advance-Carries now c s.db h_c h in
      (All-append (Carries P) before _ h_before (h_c', h_after), h')

  Reaches-Carries :
      (s t : System dm)
      → All (Carries P) s.calls
      → Stores s.db
      → Reaches dm s t
      → All (Carries P) t.calls × Stores t.db
  Reaches-Carries s _ all h here = (all, h)
  Reaches-Carries s u all h (later {t} r step) =
      let (all', h') = Reaches-Carries s t all h r in Step-Carries t u all' h' step

-- However the steps of calls of the methods and of the cycle are interleaved, a value that a `get`
-- reads under a key comes from the values that were there at the beginning, those that a `set` of
-- the key was called with, and the lists that a push of the key was called with (for `LPUSH` also in
-- reverse order): a property that all of those have, and that a list has if it is put together
-- from two that have it, is one that every value that is read has.
pub reached_values :
    (dm : DashMap) (P : Bytes → RedisObject → Type 0) (s t : System dm)
    → ((k : Bytes) (l m : Objects)
        → P k (list l)
        → P k (list m)
        → P k (list (from_list (to_list l ++ to_list m))))
    → All (Carries P) s.calls
    → ((k : Bytes) (v : RedisObject) → dm.get s.db.values k ≡ some v → P k v)
    → Reaches dm s t
    → All (Carries P) t.calls
reached_values dm P s t joins all h r = (Reaches-Carries dm P joins s t all h r).0

-- A method's steps one after the other, at one time.
unfoldable pub alone : (dm : DashMap) → ℕ → Instant → Call → Db dm → Call × Db dm
alone dm zero now c db = (c, db)
alone dm (suc n) now c db = let (c', db') = advance dm now c db in alone dm n now c' db'

module _ (dm : DashMap) (now : Instant) (key : Bytes) (db : Db dm) where
  -- Without interleaving the steps are those of the methods.
  alone-set :
      (val : RedisObject) (exp : Option Instant)
      → alone dm 3 now (set_begin key val exp) db ≡ (set_done, (Core.set dm key val exp db).1)
  unfolding alone advance put_expiration Core.set
  alone-set val none = refl
  alone-set val (some exp) = refl

  alone-delete : alone dm 2 now (delete_begin key) db ≡ (delete_done, (Core.delete dm key db).1)
  unfolding alone advance Core.delete
  alone-delete = refl

  alone-get_passed :
      (o : Option Instant)
      → dm.get db.expirations key ≡ o
      → Core.lazily_expired dm now key db ≡ passed dm now o
  unfolding Core.lazily_expired Core.is_expired passed
  alone-get_passed none e = rw (e, Core.lazily_expired) refl
  alone-get_passed (some t) e = rw (e, Core.lazily_expired) (rw (e, Core.is_expired) refl)

  alone-get : (alone dm 3 now (get_begin key) db).1 ≡ (Core.get dm now key db).1
  unfolding alone advance Core.get
  alone-get =
      rw (alone-get_passed (dm.get db.expirations key) refl)
        (go (passed dm now (dm.get db.expirations key)))
    where
      go :
          (b : Bool)
          → (alone dm 2 now (if b then get_purge key else get_read key) db).1
            ≡ (if◌then◌else◌ {A = Core.Outcome dm RedisObject} b
                (ok nil_string, Core.purge dm key db)
                (Core.read_value dm (dm.get db.values key), db)).1
      go true = refl
      go false = refl

  alone-rpush_entry :
      (vals : List RedisObject) (o : Option RedisObject)
      → (alone dm 1 now (rpush_entry dm key vals o db).0 (rpush_entry dm key vals o db).1).1
        ≡ (Core.rpush_at dm key vals o db).1
  unfolding alone advance rpush_entry Core.rpush_at
  alone-rpush_entry vals none = refl
  alone-rpush_entry vals (some (string s)) = refl
  alone-rpush_entry vals (some (list l)) = refl

  alone-rpush :
      (vals : List RedisObject)
      → (alone dm 2 now (rpush_begin key vals) db).1 ≡ (Core.rpush dm key vals db).1
  unfolding alone advance Core.rpush
  alone-rpush vals = alone-rpush_entry vals (dm.get db.values key)

  alone-lpush_entry :
      (vals : List RedisObject) (o : Option RedisObject)
      → (alone dm 1 now (lpush_entry dm key vals o db).0 (lpush_entry dm key vals o db).1).1
        ≡ (Core.lpush_at dm key vals o db).1
  unfolding alone advance lpush_entry Core.lpush_at
  alone-lpush_entry vals none = refl
  alone-lpush_entry vals (some (string s)) = refl
  alone-lpush_entry vals (some (list l)) = refl

  alone-lpush :
      (vals : List RedisObject)
      → (alone dm 2 now (lpush_begin key vals) db).1 ≡ (Core.lpush dm key vals db).1
  unfolding alone advance Core.lpush
  alone-lpush vals = alone-lpush_entry vals (dm.get db.values key)
