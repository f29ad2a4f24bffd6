-- ===== src/Util/Sha1/Order/Tests.antt =====
-- Two hashes whose first and last bytes differ.
use evcollect.Prelude.{◌<◌, ◌≡◌, ◌↔◌, refl, true, [], ◌∷◌, ◌++◌, Bytes, replicate, le_value, arith}
use evcollect.Util.Sha1.{compare_from, hash_compare, hash_eq, hash_lt, hash_gt}
use evcollect.Util.Sha1.Order.{hash_lt-le_value}

abbrev first : Bytes
first = 9 ∷ replicate 18 0 ++ 1 ∷ []

abbrev second : Bytes
second = 1 ∷ replicate 18 0 ++ 2 ∷ []

-- The text of the first hash begins with `09`, that of the second with `01`.
in_order : hash_lt first second ≡ true
unfolding hash_lt hash_compare compare_from
in_order = refl

hash_lt-le_value_example :
    ((hash_lt first second ≡ true) ↔ (le_value first < le_value second))
    × ((hash_gt first second ≡ true) ↔ (le_value second < le_value first))
    × ((hash_eq first second ≡ true) ↔ (le_value first ≡ le_value second))
hash_lt-le_value_example = hash_lt-le_value first second refl refl (ground arith) (ground arith)
