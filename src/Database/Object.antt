-- ===== src/Database/Object.antt =====
-- `RedisObject`: a string, or a list of objects.
use ember.Prelude.{List, [], ◌∷◌, ◌≡◌, refl, ap}
use ember.Text.{Bytes, codes}

-- `List(Vec<RedisObject>)` holds a list of itself: `Objects` are those lists.
mutual
  pub data RedisObject : Type 0 where
    string : Bytes → RedisObject
    list : Objects → RedisObject

  pub data Objects : Type 0 where
    nil : Objects
    cons : RedisObject → Objects → Objects

abbrev pub to_list : Objects → List RedisObject
to_list nil = []
to_list (cons o os) = o ∷ to_list os

abbrev pub from_list : List RedisObject → Objects
from_list [] = nil
from_list (o ∷ os) = cons o (from_list os)

pub to_list-from_list : (os : List RedisObject) → to_list (from_list os) ≡ os
to_list-from_list [] = refl
to_list-from_list (o ∷ os) = ap (λ r. o ∷ r) (to_list-from_list os)

pub from_list-to_list : (os : Objects) → from_list (to_list os) ≡ os
from_list-to_list nil = refl
from_list-to_list (cons o os) = ap (λ r. cons o r) (from_list-to_list os)

-- the reply for a key that is not there
abbrev pub nil_string : RedisObject
nil_string = string (codes "nil")
