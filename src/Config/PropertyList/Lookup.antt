-- ===== src/Config/PropertyList/Lookup.antt =====
-- The three lookups agree: all are views of the list of a key's entries.
use mathlib.Core.List.{head?, flatten}
use native.Mathlib.Nat.{mod-eq_of_lt}
use evcollect.Prelude.{
  ℕ, zero, suc, ◌+◌, ◌-◌, ◌%◌, ◌^◌, ◌<◌, ◌≡◌, refl, Option, none, some, List, [], ◌∷◌, Bytes,
  length, get_elem?, get_elem?-ge, get_elem?-lt, arith,
}
use evcollect.Config.PropertyList.{get, Access, missing, found, read_at, entry_at, getv, get_all}

-- The count is the number of entries that were appended.
get_all-length :
    (key : Bytes) (ps : List (Bytes × List Bytes)) → (get_all key ps).1 ≡ length (get_all key ps).0
unfolding get_all
get_all-length key [] = refl
get_all-length key ((k, vs) ∷ ps) = ground (arith, get_all-length key ps)

-- `get` finds the first value of all values of the key, in order.
get-get_all :
    (key : Bytes) (ps : List (Bytes × List Bytes)) → get key ps ≡ head? (flatten (get_all key ps).0)
unfolding get get_all flatten
get-get_all key [] = refl
get-get_all key ((k, []) ∷ ps) = ground (arith, get-get_all key ps)
get-get_all key ((k, v ∷ vs) ∷ ps) = ground (arith, get-get_all key ps)

abbrev pub at_entry : Option (List Bytes) → ℕ → Access
at_entry none j = missing
at_entry (some vs) j = elim (get_elem? vs j) [ none ↦ missing | some v ↦ found v ]

small : (j : ℕ) → j < 2 ^ 64 - 1 → (j + 1) % 2 ^ 64 ≡ j + 1
small j h = mod-eq_of_lt (omega arith)

entry_at-in_bounds :
    (j : ℕ) (vs : List Bytes) → j < 2 ^ 64 - 1 → entry_at j vs ≡ at_entry (some vs) j
unfolding entry_at read_at
entry_at-in_bounds j vs h = rw (small j h) (ground (arith, get_elem?-ge vs j, get_elem?-lt vs j))

-- `getv` reads value `j` of entry `i`, and answers "missing" beyond either end.
pub getv-get_all :
    (key : Bytes) (i j : ℕ) (ps : List (Bytes × List Bytes))
    → j < 2 ^ 64 - 1
    → getv key i j ps ≡ at_entry (get_elem? (get_all key ps).0 i) j
unfolding getv get_all
getv-get_all key i j [] h = refl
getv-get_all key zero j ((k, vs) ∷ ps) h =
    ground (arith, getv-get_all key zero j ps h, entry_at-in_bounds j vs h)
getv-get_all key (suc i) j ((k, vs) ∷ ps) h =
    ground (arith, getv-get_all key (suc i) j ps h, getv-get_all key i j ps h)
