-- ===== src/Config/PropertyList/Tests.antt =====
-- The lookups in the properties that `loadConfig` gives to its target.
use evcollect.Prelude.{◌≡◌, refl, some, none, List, [], ◌∷◌, Bytes, codes, str_eq}
use evcollect.Config.PropertyList.{found, missing, get, getv}

abbrev routes : List (Bytes × List Bytes)
routes =
    (codes "port", [])
    ∷ (codes "route", codes "sys.alive" ∷ codes "test/sys.alive" ∷ [])
    ∷ (codes "port", codes "9175" ∷ [])
    ∷ (codes "route", codes "a" ∷ [])
    ∷ []

lookups :
    (get (codes "port") routes ≡ some (codes "9175"))
    × (get (codes "host") routes ≡ none)
    × (getv (codes "route") 1 0 routes ≡ found (codes "a"))
    × (getv (codes "route") 1 1 routes ≡ missing)
unfolding get getv str_eq
lookups = (refl, refl, refl, refl)
