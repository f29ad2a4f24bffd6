-- ===== src/Plugin/Map/Tests.antt =====
-- A plugin that counts its initialisations, and the theorems on it.
use evcollect.Prelude.{ℕ, ◌+◌, ◌≡◌, refl, false, some, [], ◌∷◌, codes, str_eq}
use evcollect.Util.ReturnCode.{ReturnCode, success}
use evcollect.Plugin.Map.{Bindings, find_plugin, set_initialized, get_plugin}
use evcollect.Plugin.Map.Once.{get_plugin-once}

-- A plugin is a number, which it adds to the world when it is initialised.
abbrev counting : ℕ → ℕ → ℕ × ReturnCode
counting n w = (w + n, success)

abbrev two : Bindings ℕ
two =
    (codes "a", record { plugin = 5; plugin_initialized = false })
    ∷ (codes "b", record { plugin = 7; plugin_initialized = false })
    ∷ []

counted : (get_plugin counting [] (codes "b") two 1).1 ≡ (8, (success, some 7))
unfolding get_plugin find_plugin set_initialized str_eq
counted = refl

get_plugin-once_example :
    (p : ℕ) × ((get_plugin counting [] (codes "b") two 1).1.1.1 ≡ some p)
    × ((w' : ℕ)
        → get_plugin counting [] (codes "b") (get_plugin counting [] (codes "b") two 1).0 w'
          ≡ ((get_plugin counting [] (codes "b") two 1).0, (w', (success, some p))))
unfolding get_plugin find_plugin set_initialized str_eq
get_plugin-once_example = get_plugin-once counting [] (codes "b") two 1 refl
