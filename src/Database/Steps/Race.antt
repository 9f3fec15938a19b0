-- ===== src/Database/Steps/Race.antt =====
-- Interleavings of methods of `DB` (database/core.rs) that use the same key.
use mathlib.Core.Path.{subst}
use ember.Prelude.{
  Option, List, ◌<◌, ◌≡◌, refl, ◌∙◌, true, [], ◌∷◌, none, some, lt→ltb, if◌then◌else◌,
}
use ember.Text.{Bytes, str_eq_refl}
use ember.Database.Map.{DashMap}
use ember.Database.Object.{RedisObject, list, from_list}
use ember.Database.Core.{Instant, Db}
use ember.Database.Steps.{
  rpush_begin, push_insert, push_done, rpush_entry, Call, set_begin, set_value, set_expiration,
  get_begin, get_read, get_purge, get_purge_expiration, set_done, get_done, passed, put_expiration,
  advance, System, Step, moves, Reaches, here, later,
}

module _ (dm : DashMap) (now : Instant) (key : Bytes) (val : RedisObject) (db : Db dm) where
  abbrev both : Call → Call → Db dm → System dm
  both c d db' = record { calls = c ∷ d ∷ []; db = db' }

  -- the store behind the `set`
  abbrev was_set : Db dm
  was_set = record {
    values = dm.insert db.values key val;
    expirations = dm.remove db.expirations key;
  }

  abbrev was_purged : Db dm
  was_purged = record {
    values = dm.remove was_set.values key;
    expirations = dm.remove was_set.expirations key;
  }

  abbrev begins : Call → System dm
  begins c = both c (set_begin key val none) db

  finds_expired :
      (t : Instant)
      → dm.get db.expirations key ≡ some t
      → t < now
      → Step dm (begins (get_begin key)) (begins (get_purge key))
  unfolding advance passed
  finds_expired t e h =
      let expired : passed dm now (dm.get db.expirations key) ≡ true = rw e (lt→ltb t now h) in
      subst
        (λ b. Step dm (begins (get_begin key)) (begins (if b then get_purge key else get_read key)))
        expired (moves [] (get_begin key) (set_begin key val none ∷ []) now refl)

  set_steps :
      Reaches dm (begins (get_begin key)) (begins (get_purge key))
      → Reaches dm (begins (get_begin key)) (both (get_purge key) set_done was_set)
  unfolding advance put_expiration
  set_steps r =
      later
        (later (later r (moves (get_purge key ∷ []) (set_begin key val none) [] now refl))
          (moves (get_purge key ∷ []) (set_value key val none) [] now refl))
        (moves (get_purge key ∷ []) (set_expiration key none) [] now refl)

  purge_steps :
      Reaches dm (begins (get_begin key)) (both (get_purge key) set_done was_set)
      → Reaches dm (begins (get_begin key)) (both (get_done key none) set_done was_purged)
  unfolding advance
  purge_steps r =
      later (later r (moves [] (get_purge key) (set_done ∷ []) now refl))
        (moves [] (get_purge_expiration key) (set_done ∷ []) now refl)

  -- A `get` of a key that has expired and a `set` of the same key can come to an end at which both
  -- have returned, and the value that was set is gone.
  pub fresh_set_lost :
      (t : Instant)
      → dm.get db.expirations key ≡ some t
      → t < now
      → (db' : Db dm) × Reaches dm
          (record { calls = get_begin key ∷ set_begin key val none ∷ []; db = db })
          (record { calls = get_done key none ∷ set_done ∷ []; db = db' })
        × (dm.get db'.values key ≡ none)
  fresh_set_lost t e h = (
    was_purged,
    purge_steps (set_steps (later here (finds_expired t e h))),
    dm.get-remove was_set.values key key ∙ rw (str_eq_refl key) refl,
  )

module _ (dm : DashMap) (now : Instant) (key : Bytes) (xs ys : List RedisObject) (db : Db dm) where
  -- the entry that both find, and the store behind each of the two inserts
  abbrev pushed_first : Db dm
  pushed_first = record db { values = dm.insert db.values key (list (from_list xs)) }

  abbrev pushed_second : Db dm
  pushed_second = record pushed_first {
    values = dm.insert pushed_first.values key (list (from_list ys));
  }

  abbrev pushing : Call → Call → Db dm → System dm
  pushing c d db' = record { calls = c ∷ d ∷ []; db = db' }

  abbrev start : System dm
  start = pushing (rpush_begin key xs) (rpush_begin key ys) db

  entry_absent :
      (vals : List RedisObject) (o : Option RedisObject)
      → o ≡ none
      → rpush_entry dm key vals o db ≡ (push_insert key vals, db)
  unfolding rpush_entry
  entry_absent vals none e = refl
  entry_absent vals (some v) e = absurd cc

  both_find_nothing :
      dm.get db.values key ≡ none
      → Reaches dm start (pushing (push_insert key xs) (push_insert key ys) db)
  unfolding advance
  both_find_nothing e =
      let first = entry_absent xs (dm.get db.values key) e in
      let second = entry_absent ys (dm.get db.values key) e in
      later
        (later here (
          subst (λ (c, d). Step dm start (pushing c (rpush_begin key ys) d)) first
            (moves [] (rpush_begin key xs) (rpush_begin key ys ∷ []) now refl)))
        (subst
          (λ (c, d).
            Step dm (pushing (push_insert key xs) (rpush_begin key ys) db)
              (pushing (push_insert key xs) c d))
          second (moves (push_insert key xs ∷ []) (rpush_begin key ys) [] now refl))

  both_insert :
      Reaches dm start (pushing (push_insert key xs) (push_insert key ys) db)
      → Reaches dm start (pushing push_done push_done pushed_second)
  unfolding advance
  both_insert r =
      later (later r (moves [] (push_insert key xs) (push_insert key ys ∷ []) now refl))
        (moves (push_done ∷ []) (push_insert key ys) [] now refl)

  -- Two calls of `rpush` on a key that holds nothing can come to an end at which both have returned,
  -- and the list holds the values of only one of them.
  pub pushes_lost :
      dm.get db.values key ≡ none
      → (db' : Db dm) × Reaches dm
          (record { calls = rpush_begin key xs ∷ rpush_begin key ys ∷ []; db = db })
          (record { calls = push_done ∷ push_done ∷ []; db = db' })
        × (dm.get db'.values key ≡ some (list (from_list ys)))
  pushes_lost e = (
    pushed_second,
    both_insert (both_find_nothing e),
    dm.get-insert pushed_first.values key (list (from_list ys)) key ∙ rw (str_eq_refl key) refl,
  )
