-- ===== src/Database/Core/Cycle.antt =====
-- The active expiration: it ends, drops only what is expired, and keeps the maps in step.
use Prim.Native.Nat.{max}
use ember.Prelude.{
  ℕ, zero, suc, ◌+◌, ◌*◌, ◌≤◌, ◌<◌, ◌≡◌, refl, ◌∙◌, Bool, true, false, List, [], ◌∷◌, Option, none,
  some, arith, ltb, ◌==◌, if◌then◌else◌, length, inl, inr, Bool-cases, ltb→lt,
}
use ember.Text.{Bytes}
use ember.Database.Map.{DashMap}
use ember.Database.Core.{
  Instant, Db, purge_found, purge_expired, purge_sample, sample, active_expiration_cycle,
  active_expiration_task,
}
use ember.Database.Core.View.{live, live-purge}
use ember.Database.Core.Sync.{IsSynced, purge_sample-IsSynced}

-- a round that is run again has removed an entry
fuel_left :
    (sampled expired before left fuel : ℕ)
    → ltb (max sampled 1) (4 * expired) ≡ true
    → left + expired ≤ before + 0
    → before < suc fuel
    → left < fuel
fuel_left sampled expired before left fuel many fewer h =
    omega (arith, ltb→lt (max sampled 1) (4 * expired) many)

module _ (dm : DashMap) where
  -- What one or more removals at times up to `bound` keep: what a reader at `bound` or later sees,
  -- and the maps in step.
  pub record Cleans (bound : Instant) (db db' : Db dm) : Type 0 where
    pub same_view :
        (later : Instant) (j : Bytes) → bound ≤ later → live dm later db' j ≡ live dm later db j
    pub same_sync : IsSynced dm db → IsSynced dm db'

  Cleans-refl : (bound : Instant) (db : Db dm) → Cleans bound db db
  Cleans-refl bound db = record { same_view = λ later j le. refl; same_sync = λ s. s }

  Cleans-trans :
      {bound : Instant} {a b c : Db dm} → Cleans bound a b → Cleans bound b c → Cleans bound a c
  Cleans-trans f g = record {
    same_view = λ later j le. g.same_view later j le ∙ f.same_view later j le;
    same_sync = λ s. g.same_sync (f.same_sync s);
  }

  -- The number of entries with an expiration falls by one for each key that is counted.
  abbrev Fewer : ℕ → ℕ → Db dm → Db dm → Type 0
  Fewer n n' db db' = dm.len db'.expirations + n' ≤ dm.len db.expirations + n

  purge_found-view :
      (now later : Instant) (key j : Bytes) (o : Option Instant) (db : Db dm)
      → dm.get db.expirations key ≡ o
      → now ≤ later
      → live dm later (purge_found dm now key o db).1 j ≡ live dm later db j
  unfolding purge_found
  purge_found-view now later key j none db e le = refl
  purge_found-view now later key j (some exp) db e le = elim (Bool-cases (ltb exp now)) [
    | inl old ↦ rw old (live-purge dm now later key j db le (rw e old))
    | inr new ↦ rw new
  ]

  purge_found-Fewer :
      (now : Instant) (key : Bytes) (o : Option Instant) (n : ℕ) (db : Db dm)
      → dm.get db.expirations key ≡ o
      → let (hit, db') = purge_found dm now key o db in Fewer n (if hit then suc n else n) db db'
  unfolding purge_found
  purge_found-Fewer now key none n db e = omega arith
  purge_found-Fewer now key (some exp) n db e = elim (Bool-cases (ltb exp now)) [
    | inl old ↦ rw old (omega (arith, rw e at (dm.len-remove db.expirations key)))
    | inr new ↦ rw new (omega arith)
  ]

  purge_sample-view :
      (now later : Instant) (keys : List Bytes) (n : ℕ) (j : Bytes) (db : Db dm)
      → now ≤ later
      → live dm later (purge_sample dm now keys n db).1 j ≡ live dm later db j
  unfolding purge_sample purge_expired
  purge_sample-view now later [] n j db le = refl
  purge_sample-view now later (key ∷ keys) n j db le =
      purge_sample-view now later keys _ j _ le
      ∙ purge_found-view now later key j (dm.get db.expirations key) db refl le

  purge_sample-Fewer :
      (now : Instant) (keys : List Bytes) (n : ℕ) (db : Db dm)
      → let (expired, db') = purge_sample dm now keys n db in Fewer n expired db db'
  unfolding purge_sample purge_expired
  purge_sample-Fewer now [] n db = omega arith
  purge_sample-Fewer now (key ∷ keys) n db =
      let first = purge_found-Fewer now key (dm.get db.expirations key) n db refl in
      let (hit, db') = purge_found dm now key (dm.get db.expirations key) db in
      omega (arith, first, purge_sample-Fewer now keys (if hit then suc n else n) db')

  purge_sample-Cleans :
      (bound now : Instant) (keys : List Bytes) (n : ℕ) (db : Db dm)
      → now ≤ bound
      → Cleans bound db (purge_sample dm now keys n db).1
  purge_sample-Cleans bound now keys n db le = record {
    same_view = λ later j h. purge_sample-view now later keys n j db (omega arith);
    same_sync = purge_sample-IsSynced dm now keys n db;
  }

  -- How a cycle ends, from a store.
  abbrev Ends : Instant → Db dm → Option (Db dm) → Type 0
  Ends bound db r = (db' : Db dm) × (r ≡ some db') × Cleans bound db db'

  Ends-trans :
      (bound : Instant) (a b : Db dm) (r : Option (Db dm))
      → Cleans bound a b
      → Ends bound b r
      → Ends bound a r
  Ends-trans bound a b r f (c, e, g) = (c, e, Cleans-trans f g)

  Ends-if :
      (bound : Instant) (db : Db dm) (b : Bool) (x y : Option (Db dm))
      → (b ≡ true → Ends bound db x)
      → (b ≡ false → Ends bound db y)
      → Ends bound db (if b then x else y)
  Ends-if bound db true x y hx hy = hx refl
  Ends-if bound db false x y hx hy = hy refl

  active_expiration_cycle-Cleans :
      (fuel : ℕ) (clock : ℕ → Instant) (draw : ℕ → ℕ → ℕ) (bound : Instant) (db : Db dm)
      → dm.len db.expirations < fuel
      → ((i : ℕ) → clock i ≤ bound)
      → (db' : Db dm) × (active_expiration_cycle dm fuel clock draw db ≡ some db')
        × Cleans bound db db'
  unfolding active_expiration_cycle
  active_expiration_cycle-Cleans zero clock draw bound db h le = absurd (omega arith)
  active_expiration_cycle-Cleans (suc fuel) clock draw bound db h le =
      let keys = sample dm (draw 0 (dm.len db.expirations)) db in
      let swept = purge_sample dm (clock 0) keys 0 db in
      let cleans = purge_sample-Cleans bound (clock 0) keys 0 db (le 0) in
      let fewer = purge_sample-Fewer (clock 0) keys 0 db in
      Ends-if bound db (dm.len db.expirations == 0) _ _ (λ _. (db, refl, Cleans-refl bound db))
        λ _.
          Ends-if bound db (ltb (max (length keys) 1) (4 * swept.0)) _ _
            (λ many. Ends-trans bound db swept.1 _ cleans (
              active_expiration_cycle-Cleans fuel (λ i. clock (suc i)) (λ i. draw (suc i)) bound
                swept.1 (fuel_left (length keys) swept.0 _ _ fuel many fewer h) (λ i. le (suc i))))
            (λ _. (swept.1, refl, cleans))

  -- With more fuel than there are entries with an expiration, a cycle comes to an end, however the
  -- samples are drawn. If the clock reads at most `bound` in each of its rounds, a reader at `bound`
  -- or later sees what it would have seen without the cycle; and if each key with an expiration had
  -- a value, it is still so.
  pub active_expiration_cycle_ends :
      (fuel : ℕ) (clock : ℕ → Instant) (draw : ℕ → ℕ → ℕ) (bound later : Instant) (db : Db dm)
      → dm.len db.expirations < fuel
      → ((i : ℕ) → clock i ≤ bound)
      → bound ≤ later
      → IsSynced dm db
      → (db' : Db dm) × (active_expiration_cycle dm fuel clock draw db ≡ some db')
        × ((j : Bytes) → live dm later db' j ≡ live dm later db j)
        × IsSynced dm db'
  active_expiration_cycle_ends fuel clock draw bound later db h le late synced =
      let (db', e, cleans) = active_expiration_cycle-Cleans fuel clock draw bound db h le in
      (db', e, λ j. cleans.same_view later j late, cleans.same_sync synced)

  -- The task goes on for any number of rounds.
  pub active_expiration_task_ends :
      (clock : ℕ → ℕ → Instant) (draw : ℕ → ℕ → ℕ → ℕ) (others : ℕ → Db dm → Db dm)
      (bound : Instant) (rounds i : ℕ) (db : Db dm)
      → ((i j : ℕ) → clock i j ≤ bound)
      → (db' : Db dm) × (active_expiration_task dm clock draw others rounds i db ≡ some db')
  unfolding active_expiration_task
  active_expiration_task_ends clock draw others bound zero i db h = (db, refl)
  active_expiration_task_ends clock draw others bound (suc rounds) i db h =
      let (db', e, cleans) =
        active_expiration_cycle-Cleans (suc (dm.len db.expirations)) (clock i) (draw i) bound db
          (omega arith) (h i) in
      let (db'', e') =
        active_expiration_task_ends clock draw others bound rounds (suc i) (others i db') h in
      (db'', rw (e, active_expiration_task) e')
