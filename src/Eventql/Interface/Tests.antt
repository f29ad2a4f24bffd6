-- ===== src/Eventql/Interface/Tests.antt =====
-- A target is attached, another one comes and goes, and an event is emitted.
use evcollect.Prelude.{
  ℕ, ◌≡◌, refl, true, Option, none, List, [], ◌∷◌, ◌++◌, Bytes, codes, c_str, str_eq, arith,
}
use evcollect.Events.{PropertyList, EventData}
use evcollect.Util.ReturnCode.{is_success}
use evcollect.Config.PropertyList.{get, getv, get_all}
use evcollect.Eventql.Target.{
  EnqueuedEvent, EventQlTarget, attached, new_target, add_route, plugin_attach, emit_event,
}
use evcollect.Eventql.Interface.{
  UploadThreads, Targets, enqueue_all, eventql_attach, eventql_emit_event,
}
use evcollect.Eventql.Interface.Lifetime.{Call, attaches, detaches, calls, emit-attached}

-- What was enqueued, with the pointer.
abbrev threads : UploadThreads (List (ℕ × EnqueuedEvent))
threads = record {
  enqueue = λ userdata ev t. t ++ (userdata, ev) ∷ [];
  start = λ userdata target t. t;
  stop = λ userdata t. t;
}

abbrev routed : PropertyList
routed = record { properties = (codes "route", codes "alive" ∷ codes "db/t" ∷ []) ∷ [] }

abbrev nowhere : PropertyList
nowhere = record { properties = [] }

abbrev no_number : Bytes → Option ℕ
no_number text = none

abbrev fresh : Targets (List (ℕ × EnqueuedEvent))
fresh = record { targets = []; error = []; threads = [] }

abbrev target : EventQlTarget
target = add_route (codes "alive") (codes "db/t") (new_target (codes "localhost") 9175)

abbrev between : List Call
between = attaches nowhere ∷ detaches 1 ∷ []

abbrev alive : EventData
alive = record { time = 0; event_name = codes "alive"; event_data = codes "{}" }

accepted : plugin_attach no_number routed.properties ≡ attached target
unfolding plugin_attach getv get_all get str_eq c_str
accepted = refl

emit-attached_example :
    let (p1, (ok, userdata)) = eventql_attach threads no_number 0 routed fresh in
    let p2 = calls threads no_number 0 between p1 in
    let (p3, emitted) = eventql_emit_event threads userdata alive p2 in
    let (evs, rc) = emit_event target.routes (codes "alive") (codes "{}") in
    (ok ≡ true)
    × (emitted ≡ is_success rc)
    × (p3.threads ≡ enqueue_all threads userdata evs p2.threads)
    × (p3.targets ≡ p2.targets)
emit-attached_example =
    emit-attached threads no_number 0 routed target fresh between alive accepted
      (tt, (λ e. ground arith, tt))
