-- ===== src/Logfile/Event/Json.antt =====
-- The events that the log file gives are JSON.
use evcollect.Prelude.{
  ℕ, suc, ◌≡◌, refl, ap, true, Option, none, some, List, [], ◌∷◌, ◌++◌, arith, Bytes, codes, drop,
  ltb,
}
use evcollect.Util.StringUtil.{
  split, split_loop, find_from, find, starts_with, join, join_more, format,
}
use evcollect.Util.StringUtil.Split.{format-join}
use evcollect.Util.Json.{json_escape}
use evcollect.Util.Json.Decode.{plain, decode, decode-json_escape}
use evcollect.Logfile.{Pcre}
use evcollect.Logfile.Event.{evdata, field, capture_json, make_event}

-- The fields of a line: the groups that have a name, in order.
pub named : Bytes → List (Option (ℕ × ℕ)) → List Bytes → List Bytes
named line [] names = []
named line (g ∷ gs) [] = []
named line (g ∷ gs) ([] ∷ names) = named line gs names
named line (g ∷ gs) ((c ∷ cs) ∷ names) = field (c ∷ cs) (evdata line g) ∷ named line gs names

capture_json-join_more :
    (n : ℕ) (line : Bytes) (gs : List (Option (ℕ × ℕ))) (names : List Bytes)
    → capture_json (suc n) line gs names ≡ join_more (named line gs names) (codes ",")
unfolding capture_json named join_more
capture_json-join_more n line [] names = refl
capture_json-join_more n line (g ∷ gs) [] = refl
capture_json-join_more n line (g ∷ gs) ([] ∷ names) = capture_json-join_more n line gs names
capture_json-join_more n line (g ∷ gs) ((c ∷ cs) ∷ names) =
    let comma : ltb 1 (suc (suc n)) ≡ true = ground arith in
    rw (comma, capture_json-join_more (suc n) line gs names) refl

capture_json-join :
    (line : Bytes) (gs : List (Option (ℕ × ℕ))) (names : List Bytes)
    → capture_json 0 line gs names ≡ join (named line gs names) (codes ",")
unfolding capture_json named join join_more
capture_json-join line [] names = refl
capture_json-join line (g ∷ gs) [] = refl
capture_json-join line (g ∷ gs) ([] ∷ names) = capture_json-join line gs names
capture_json-join line (g ∷ gs) ((c ∷ cs) ∷ names) =
    ap (λ t. field (c ∷ cs) (evdata line g) ++ t) (capture_json-join_more 0 line gs names)

data_event-join :
    (text : Bytes)
    → format (codes "{ \"data\": \"$0\" }") (text ∷ [])
      ≡ codes "{ \"data\": \"" ++ (text ++ codes "\" }")
unfolding split split_loop find_from find starts_with join join_more
data_event-join text =
    format-join (codes "{ \"data\": \"$0\" }") text (codes "{ \"data\": \"" ∷ codes "\" }" ∷ [])
      refl

-- Without an expression, the event of a line is `{ "data": "`, then a text that reads back, up to its closing
-- quote, as the line, whatever its bytes are, and then ` }`.
pub make_event-decode :
    (fields : List Bytes) (line event_json : Bytes)
    → (value : Bytes) × (make_event none fields line event_json ≡ codes "{ \"data\": \"" ++ value)
      × (decode plain value ≡ some (line, codes " }"))
unfolding make_event
make_event-decode fields line event_json = (
  json_escape line ++ codes "\" }",
  data_event-join (json_escape line),
  decode-json_escape line (codes " }"),
)

-- With an expression that matches, the event is the object of the groups that have a name, each with its
-- text, between commas.
pub make_event-join :
    (exec : Pcre) (fields : List Bytes) (line event_json : Bytes) (groups : List (Option (ℕ × ℕ)))
    → exec line ≡ some groups
    → make_event (some exec) fields line event_json
      ≡ event_json
        ++ (codes "{"
            ++ (join (named line (drop 1 groups) (drop 1 fields)) (codes ",") ++ codes "}"))
unfolding make_event
make_event-join exec fields line event_json groups e =
    rw (e, make_event)
      (ap (λ t. event_json ++ (codes "{" ++ (t ++ codes "}")))
        (capture_json-join line (drop 1 groups) (drop 1 fields)))
