-- ===== src/Logfile/Event/Tests.antt =====
-- Events of small lines, and the theorems on them.
use evcollect.Prelude.{◌≡◌, refl, none, some, List, [], ◌∷◌, ◌++◌, Bytes, codes, drop}
use evcollect.Util.StringUtil.{join}
use evcollect.Util.Json.{json_escape, escape_byte}
use evcollect.Util.Json.Decode.{plain, decode}
use evcollect.Logfile.{Pcre}
use evcollect.Logfile.Event.{evdata, capture_json, make_event, name_fields}
use evcollect.Logfile.Event.Json.{named, make_event-decode, make_event-join}

-- An expression that splits a line of four characters in the middle.
abbrev halves : Pcre
halves line = some (some (0, 4) ∷ some (0, 2) ∷ some (2, 4) ∷ [])

abbrev fields : List Bytes
fields = [] ∷ codes "a" ∷ codes "b" ∷ []

event-halves :
    make_event (some halves) fields (codes "1\"23") [] ≡ codes "{\"a\":\"1\\\"\",\"b\":\"23\"}"
unfolding make_event capture_json evdata json_escape escape_byte
event-halves = refl

-- A name that is shorter than the longest one keeps the NULs that fill its entry.
names-padded :
    name_fields 2 6
      (0 ∷ 1 ∷ codes "a" ++ 0 ∷ 0 ∷ 0 ∷ 0 ∷ 2 ∷ codes "foo" ++ 0 ∷ [])
      ([] ∷ [] ∷ [] ∷ [])
    ≡ [] ∷ (codes "a" ++ 0 ∷ 0 ∷ []) ∷ codes "foo" ∷ []
unfolding name_fields
names-padded = refl

make_event-decode_example :
    (value : Bytes) × (make_event none [] (codes "say \"hi\"") [] ≡ codes "{ \"data\": \"" ++ value)
    × (decode plain value ≡ some (codes "say \"hi\"", codes " }"))
make_event-decode_example = make_event-decode [] (codes "say \"hi\"") []

make_event-join_example :
    make_event (some halves) fields (codes "1\"23") (codes "x")
    ≡ codes "x"
      ++ (codes "{"
          ++ (join
                (named
                  (codes "1\"23")
                  (drop 1 (some (0, 4) ∷ some (0, 2) ∷ some (2, 4) ∷ []))
                  (drop 1 fields))
                (codes ",")
              ++ codes "}"))
make_event-join_example =
    make_event-join halves fields (codes "1\"23") (codes "x")
      (some (0, 4) ∷ some (0, 2) ∷ some (2, 4) ∷ []) refl
