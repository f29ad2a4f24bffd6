-- ===== src/Eventql/Target/Tests.antt =====
-- Two routes, one request, and the theorems on them.
use evcollect.Prelude.{◌≡◌, refl, some, List, [], ◌∷◌, ◌++◌, codes, str_eq, drop, arith, Bytes}
use evcollect.Util.ReturnCode.{success}
use evcollect.Util.StringUtil.{split, split_loop, find_from, find, starts_with}
use evcollect.Util.Json.{json_escape}
use evcollect.Util.Json.Decode.{plain, decode}
use evcollect.Eventql.Target.{
  EnqueuedEvent, EventRouting, emit_event, upload_body, attach_all_routes, new_target,
}
use evcollect.Eventql.Target.Attach.{entries, routed_by, attach_all_routes-entries}
use evcollect.Eventql.Target.Routes.{Routed, emit_event-Routed}
use evcollect.Eventql.Target.Request.{upload_body-decode, after_table}

abbrev routes : List EventRouting
routes =
    record { event_name_match = codes "sys.alive"; target = codes "test/sys.alive" }
    ∷ record { event_name_match = codes "logs"; target = codes "no target" }
    ∷ record { event_name_match = codes "sys.alive"; target = codes "test/rollup" }
    ∷ []

abbrev first_event : EnqueuedEvent
first_event = record { database = codes "test"; table = codes "sys.alive"; payload = codes "{}" }

alive :
    emit_event routes (codes "sys.alive") (codes "{}")
    ≡ (first_event ∷ record first_event { table = codes "rollup" } ∷ [], success)
unfolding emit_event str_eq split split_loop find_from find starts_with
alive = refl

emit_event-Routed_example :
    Routed
      (codes "sys.alive")
      (codes "{}")
      routes
      (emit_event routes (codes "sys.alive") (codes "{}")).0
unfolding emit_event str_eq split split_loop find_from find starts_with
emit_event-Routed_example = emit_event-Routed routes (codes "sys.alive") (codes "{}") refl

upload_body-decode_example :
    let tail =
      codes "\"table\": \""
      ++ (json_escape (codes "sys.alive") ++ (b'"' ∷ after_table first_event)) in
    (decode plain (drop 16 (upload_body first_event)) ≡ some (codes "test", b',' ∷ tail))
    × (decode plain (drop 10 tail) ≡ some (codes "sys.alive", after_table first_event))
upload_body-decode_example = upload_body-decode first_event

abbrev config : List (Bytes × List Bytes)
config =
    (codes "port", codes "9175" ∷ [])
    ∷ (codes "route", codes "a" ∷ codes "d/t" ∷ [])
    ∷ (codes "route", codes "b" ∷ [])
    ∷ []

attach_all_routes-entries_example :
    attach_all_routes config (new_target (codes "h") 1)
    ≡ routed_by (entries config) (new_target (codes "h") 1)
attach_all_routes-entries_example =
    attach_all_routes-entries config (omega arith) (omega arith) (new_target (codes "h") 1)
