-- ===== src/Tests/Database.antt =====
-- The store at concrete inputs, over association lists.

use ember.Prelude.{◌≡◌, refl, true, List, [], ◌∷◌, ◌++◌, arith, none, some, if◌then◌else◌, ok, All}
use ember.Prelude.Int.{negsuc}
use ember.Text.{Bytes, codes, str_eq, str_eq_iff}
use ember.Database.Map.{assoc_map, lookup, put, without}
use ember.Database.Object.{RedisObject, Objects, string, list, nil, cons, to_list, from_list}
use ember.Database.Core.{
  Db, new_in_memory, set, get, lpush, rpush, lrange_of, expire, active_expiration_cycle,
}
use ember.Database.Core.View.{live, get_lem, live-set}
use ember.Database.Core.Push.{rpush_lem, lpush_lem, push_expired_lost}
use ember.Database.Core.Expire.{gt, expire_lem}
use ember.Database.Core.Sync.{
  IsSynced, Call, call_set, call_rpush, call_expire, after_all, after_all-IsSynced,
  new_in_memory-IsSynced,
}
use ember.Database.Core.Range.{lrange_of-selected}
use ember.Database.Steps.{
  set_begin, set_value, set_expiration, get_begin, get_read, get_done, set_done, rpush_begin,
  push_done, advance, System, Reaches, here, later, moves,
}
use ember.Database.Steps.Values.{Carries, reached_values}
use ember.Database.Steps.Race.{fresh_set_lost, pushes_lost}
use ember.Database.Core.Cycle.{active_expiration_cycle_ends}

abbrev words : Objects
words = cons (string (codes "x")) (cons (string (codes "y")) (cons (string (codes "z")) nil))

-- a string, a list, and a key whose expiration is 5
abbrev shop : Db assoc_map
shop = record {
  values =
      (codes "name", string (codes "ember"))
      ∷ (codes "words", list words)
      ∷ (codes "old", list words)
      ∷ [];
  expirations = (codes "old", 5) ∷ [];
}

get_lem_example :
    ((get assoc_map 10 (codes "old") shop).0 ≡ ok (string (codes "nil")))
    × (live assoc_map 12 (get assoc_map 10 (codes "old") shop).1 (codes "name")
        ≡ some (string (codes "ember")))
unfolding live lookup str_eq
get_lem_example = get_lem assoc_map 10 12 (codes "old") (codes "name") shop (omega arith)

live-set_example :
    live assoc_map 12 (set assoc_map (codes "old") (string (codes "new")) none shop).1 (codes "old")
    ≡ some (string (codes "new"))
unfolding str_eq
live-set_example =
    live-set assoc_map 12 (codes "old") (string (codes "new")) none shop (codes "old")

abbrev more : List RedisObject
more = string (codes "1") ∷ string (codes "2") ∷ []

rpush_lem_example :
    (rpush assoc_map (codes "words") more shop).0 ≡ ok tt
    × ((j : Bytes)
        → live assoc_map 12 (rpush assoc_map (codes "words") more shop).1 j ≡ (
            if str_eq (codes "words") j
            then some (list (from_list (to_list words ++ more)))
            else live assoc_map 12 shop j))
unfolding live lookup str_eq
rpush_lem_example = rpush_lem assoc_map 12 (codes "words") more shop refl

-- a new list is in reverse order
lpush_lem_example :
    (lpush assoc_map (codes "new") more shop).0 ≡ ok tt
    × ((j : Bytes)
        → live assoc_map 12 (lpush assoc_map (codes "new") more shop).1 j ≡ (
            if str_eq (codes "new") j
            then some (list (cons (string (codes "2")) (cons (string (codes "1")) nil)))
            else live assoc_map 12 shop j))
unfolding live lookup str_eq
lpush_lem_example = lpush_lem assoc_map 12 (codes "new") more shop refl

push_expired_lost_example :
    (live assoc_map 12 (rpush assoc_map (codes "old") more shop).1 (codes "old") ≡ none)
    × (live assoc_map 12 (lpush assoc_map (codes "old") more shop).1 (codes "old") ≡ none)
    × ((rpush assoc_map (codes "old") more shop).0 ≡ ok tt)
    × ((lpush assoc_map (codes "old") more shop).0 ≡ ok tt)
unfolding lookup str_eq
push_expired_lost_example = push_expired_lost assoc_map 12 (codes "old") more shop refl

expire_lem_example :
    ((expire assoc_map (codes "old") 9 (some (codes "GT")) shop).0 ≡ ok tt)
    × ((expire assoc_map (codes "old") 9 (some (codes "GT")) shop).1.values ≡ shop.values)
    × ((j : Bytes)
        → lookup j (expire assoc_map (codes "old") 9 (some (codes "GT")) shop).1.expirations
          ≡ (if str_eq (codes "old") j then some 9 else lookup j shop.expirations))
unfolding lookup str_eq
expire_lem_example = expire_lem assoc_map (codes "old") 9 (some gt) shop

lrange_of-selected_example :
    lrange_of true (negsuc 1) (negsuc 0) (some (list words))
    ≡ ok (list (cons (string (codes "y")) (cons (string (codes "z")) nil)))
lrange_of-selected_example =
    lrange_of-selected true (negsuc 1) (negsuc 0) words (omega arith) (omega arith) (omega arith)

abbrev calls : List Call
calls =
    call_set (codes "name") (string (codes "ember")) (some 100)
    ∷ call_rpush (codes "old") more
    ∷ call_expire (codes "old") 5 none
    ∷ []

after_all-IsSynced_example :
    IsSynced assoc_map (after_all assoc_map calls (new_in_memory assoc_map))
after_all-IsSynced_example =
    after_all-IsSynced assoc_map calls (new_in_memory assoc_map) (new_in_memory-IsSynced assoc_map)

shop-IsSynced : IsSynced assoc_map shop
unfolding lookup str_eq
shop-IsSynced = record { has_value = λ k h. ground (arith, str_eq_iff (codes "old") k) }

active_expiration_cycle_ends_example :
    (db : Db assoc_map) × (active_expiration_cycle assoc_map 2 (λ i. 10) (λ i n. 0) shop ≡ some db)
    × ((j : Bytes) → live assoc_map 12 db j ≡ live assoc_map 12 shop j)
    × IsSynced assoc_map db
active_expiration_cycle_ends_example =
    active_expiration_cycle_ends assoc_map 2 (λ i. 10) (λ i n. 0) 10 12 shop (omega arith)
      (λ i. omega arith) (omega arith) shop-IsSynced

-- the cycle drops the expired key
cycle_shop :
    active_expiration_cycle assoc_map 2 (λ i. 10) (λ i n. 0) shop
    ≡ some (record {
      values = (codes "name", string (codes "ember")) ∷ (codes "words", list words) ∷ [];
      expirations = [];
    })
unfolding active_expiration_cycle lookup without str_eq
cycle_shop = refl

-- a SET of a key, and a GET of it, on a store without entries
abbrev one : RedisObject
one = string (codes "1")

abbrev begun : System assoc_map
begun = record {
  calls = set_begin (codes "a") one none ∷ get_begin (codes "a") ∷ [];
  db = new_in_memory assoc_map;
}

abbrev holding_one : Db assoc_map
holding_one = record { values = (codes "a", one) ∷ []; expirations = [] }

abbrev read_one : System assoc_map
read_one = record {
  calls = set_expiration (codes "a") none ∷ get_done (codes "a") (some one) ∷ [];
  db = holding_one;
}

-- the GET takes place before the SET has returned
begun-read_one : Reaches assoc_map begun read_one
unfolding advance lookup put without str_eq new_in_memory
begun-read_one =
    later
      (later
        (later
          (later here
            (moves [] (set_begin (codes "a") one none) (get_begin (codes "a") ∷ []) 1 refl))
          (moves [] (set_value (codes "a") one none) (get_begin (codes "a") ∷ []) 2 refl))
        (moves (set_expiration (codes "a") none ∷ []) (get_begin (codes "a")) [] 3 refl))
      (moves (set_expiration (codes "a") none ∷ []) (get_read (codes "a")) [] 4 refl)

reached_values_example : All (Carries (λ k v. v ≡ one)) read_one.calls
unfolding new_in_memory lookup
reached_values_example =
    reached_values assoc_map (λ k v. v ≡ one) begun read_one (λ k l m e e'. absurd cc)
      (refl, (tt, tt)) (λ k v e. absurd cc) begun-read_one

fresh_set_lost_example :
    (db' : Db assoc_map) × Reaches assoc_map
      (record {
        calls = get_begin (codes "old") ∷ set_begin (codes "old") one none ∷ [];
        db = shop;
      })
      (record { calls = get_done (codes "old") none ∷ set_done ∷ []; db = db' })
    × (lookup (codes "old") db'.values ≡ none)
unfolding lookup str_eq
fresh_set_lost_example = fresh_set_lost assoc_map 9 (codes "old") one shop 5 refl (omega arith)

pushes_lost_example :
    (db' : Db assoc_map) × Reaches assoc_map
      (record {
        calls =
            rpush_begin (codes "new") (one ∷ []) ∷ rpush_begin (codes "new") (one ∷ one ∷ []) ∷ [];
        db = shop;
      })
      (record { calls = push_done ∷ push_done ∷ []; db = db' })
    × (lookup (codes "new") db'.values ≡ some (list (cons one (cons one nil))))
unfolding lookup str_eq
pushes_lost_example = pushes_lost assoc_map 9 (codes "new") (one ∷ []) (one ∷ one ∷ []) shop refl
