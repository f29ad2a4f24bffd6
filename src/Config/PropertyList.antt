-- ===== src/Config/PropertyList.antt =====
-- The lookups of `PropertyList`, src/evcollect/config.cc.
pub mod Lookup
mod Tests
use evcollect.Prelude.{
  ℕ, zero, suc, ◌+◌, ◌%◌, ◌^◌, Option, none, some, List, [], ◌∷◌, Bytes, length, get_elem?, ltb,
  not, str_eq, if◌then◌else◌,
}

-- `get(key, std::string* out)`: `none` where it returns false. An entry with no value is passed over.
-- The overload for `const char**` runs the same loop and hands out the `c_str()` of that value.
unfoldable pub get : Bytes → List (Bytes × List Bytes) → Option Bytes
get key [] = none
get key ((k, []) ∷ ps) = get key ps
get key ((k, v ∷ _) ∷ ps) = if not (str_eq k key) then get key ps else some v

-- What `getv` does: `out_of_bounds` is a read past the end of the vector.
pub data Access : Type 0 where
  missing : Access
  found : Bytes → Access
  out_of_bounds : Access

pub read_at : List Bytes → ℕ → Access
read_at vs j = elim (get_elem? vs j) [ none ↦ out_of_bounds | some v ↦ found v ]

-- The sum is one of `size_t`.
pub entry_at : ℕ → List Bytes → Access
unfolding read_at
entry_at j vs = if ltb (length vs) ((j + 1) % 2 ^ 64) then missing else read_at vs j

-- `getv(key, i, j)`: value `j` of entry `i` among those of the key. A loop that ends counts `i` down.
unfoldable pub getv : Bytes → ℕ → ℕ → List (Bytes × List Bytes) → Access
unfolding entry_at
getv key i j [] = missing
getv key zero j ((k, vs) ∷ ps) = if not (str_eq k key) then getv key zero j ps else entry_at j vs
getv key (suc i) j ((k, vs) ∷ ps) = getv key (if not (str_eq k key) then suc i else i) j ps

-- `get(key, vector* out)`: what it appends to `out`, and the count that it returns.
unfoldable pub get_all : Bytes → List (Bytes × List Bytes) → List (List Bytes) × ℕ
get_all key [] = ([], 0)
get_all key ((k, vs) ∷ ps) =
    let (rest, cnt) = get_all key ps in if str_eq k key then (vs ∷ rest, cnt + 1) else (rest, cnt)
