-- ===== src/Database/Core/Expire.antt =====
-- `expire`: when it writes, and what it refuses.
use ember.Prelude.{
  ◌≡◌, ◌≢◌, refl, Bool, true, false, not, ◌&&◌, Option, none, some, arith, ltb, if◌then◌else◌, ok,
  err,
}
use ember.Text.{Bytes, codes, str_eq, str_eq_iff}
use ember.Database.Map.{DashMap, is_some}
use ember.Database.Core.{Instant, Db, expire, expire_if, update_expiry}

-- The four options of the command, and what each asks of the expiration that the key has.
pub data ExpireOption : Type 0 where
  nx xx gt lt : ExpireOption

abbrev pub name : ExpireOption → Bytes
name nx = codes "NX"
name xx = codes "XX"
name gt = codes "GT"
name lt = codes "LT"

abbrev pub allows : Option ExpireOption → Instant → Option Instant → Bool
allows none t old = true
allows (some nx) t none = true
allows (some nx) t (some e) = false
allows (some o) t none = false
allows (some xx) t (some e) = true
allows (some gt) t (some e) = ltb e t
allows (some lt) t (some e) = ltb t e

abbrev pub option_name : Option ExpireOption → Option Bytes
option_name none = none
option_name (some o) = some (name o)

update_expiry-allows :
    (o : Option ExpireOption) (t : Instant) (old : Option Instant)
    → update_expiry (option_name o) t (is_some old) old ≡ some (allows o t old)
unfolding update_expiry str_eq
update_expiry-allows none t old = refl
update_expiry-allows (some nx) t none = refl
update_expiry-allows (some nx) t (some e) = refl
update_expiry-allows (some xx) t none = refl
update_expiry-allows (some xx) t (some e) = refl
update_expiry-allows (some gt) t none = refl
update_expiry-allows (some gt) t (some e) = refl
update_expiry-allows (some lt) t none = refl
update_expiry-allows (some lt) t (some e) = refl

module _ (dm : DashMap) (key : Bytes) (t : Instant) where
  expire_write :
      (held allowed : Bool) (db : Db dm)
      → let (result, db') =
          if not held
          then (err (codes "Entry not found."), db)
          else expire_if dm key t (some allowed) db in
        (result ≡ (if held then ok tt else err (codes "Entry not found.")))
        × (db'.values ≡ db.values)
        × ((j : Bytes)
            → dm.get db'.expirations j
              ≡ (if held && (allowed && str_eq key j) then some t else dm.get db.expirations j))
  unfolding expire_if
  expire_write false allowed db = (refl, refl, λ j. refl)
  expire_write true false db = (refl, refl, λ j. refl)
  expire_write true true db = (refl, refl, λ j. dm.get-insert db.expirations key t j)

  -- `expire` fails on a key that has no value. Else it writes the expiration exactly if the option
  -- allows it: always without an option, with NX if there is none yet, with XX if there is one, with
  -- GT or LT if there is one and the new one is later or earlier. Nothing else changes.
  pub expire_lem :
      (o : Option ExpireOption) (db : Db dm)
      → let held = is_some (dm.get db.values key) in
        let old = dm.get db.expirations key in
        let (result, db') = expire dm key t (option_name o) db in
        (result ≡ (if held then ok tt else err (codes "Entry not found.")))
        × (db'.values ≡ db.values)
        × ((j : Bytes)
            → dm.get db'.expirations j ≡ (
                if held && (allows o t old && str_eq key j)
                then some t
                else dm.get db.expirations j))
  unfolding expire expire_if
  expire_lem o db =
      rw
        (
          dm.contains_key-get db.values key,
          dm.contains_key-get db.expirations key,
          update_expiry-allows o t (dm.get db.expirations key),
        )
        (expire_write (is_some (dm.get db.values key)) (allows o t (dm.get db.expirations key)) db)

  -- An option of another name is refused, if the key has a value, and nothing changes.
  pub expire_unknown :
      (opt : Bytes) (db : Db dm)
      → ((o : ExpireOption) → opt ≢ name o)
      → dm.get db.values key ≢ none
      → expire dm key t (some opt) db ≡ (err (codes "Invalid option for expire command."), db)
  unfolding expire update_expiry expire_if
  expire_unknown opt db other held = rw (dm.contains_key-get db.values key) (
      ground (
        arith,
        str_eq_iff opt (codes "NX"),
        str_eq_iff opt (codes "XX"),
        str_eq_iff opt (codes "GT"),
        str_eq_iff opt (codes "LT"),
        other nx,
        other xx,
        other gt,
        other lt,
      ))
