-- ===== src/Service/Run/Tests.antt =====
-- A service with one source that counts down, and one target that keeps what it gets.
use evcollect.Prelude.{
  ℕ, ◌+◌, ◌-◌, ◌*◌, ◌≤◌, ◌⊎◌, ◌≡◌, refl, ap, Bool, true, false, some, List, [], ◌∷◌, ◌++◌, Bytes,
  codes, arith, ltb, if◌then◌else◌,
}
use evcollect.Events.{EventData}
use evcollect.Util.ReturnCode.{ReturnCode, success, is_success, error}
use evcollect.Plugin.{SourcePlugin, OutputPlugin}
use evcollect.Service.{EventSourceBinding, EventBinding, TargetBinding, Service}
use evcollect.Service.Process.{
  Round, collected, sources_round, deliver_event, emit_event, process_rounds, process_event,
  emit_merged,
}
use evcollect.Service.Process.Deliver.{after_all, all_took, deliver_event-all}
use evcollect.Service.Process.Rounds.{RunsDry, process_event-ends}
use evcollect.Service.Run.{Turn, slept, stopped, run_step, run}
use evcollect.Service.Run.Schedule.{IsQueued}
use evcollect.Service.Run.Refines.{Refined, run-Refined}
use evcollect.Service.Run.Sleep.{Honours, wakes, run_step-sleeps}

-- How many events the source has left, and the texts that the target got.
abbrev World : Type 0
World = ℕ × List Bytes

abbrev counter : SourcePlugin World
counter = record {
  init = λ spool w. (w, success);
  free = λ w. w;
  attach = λ config w. (w, (success, 0));
  detach = λ userdata w. w;
  get_next_event = λ userdata buf w. ((w.0 - 1, w.1), (success, codes "e"));
  has_pending_event = λ userdata w. (w, ltb 0 w.0);
}

abbrev keeper : OutputPlugin World
keeper = record {
  init = λ spool w. (w, success);
  free = λ w. w;
  attach = λ config w. (w, (success, 0));
  detach = λ userdata w. w;
  emit_event = λ userdata ev w. ((w.0, w.1 ++ ev.event_data ∷ []), success);
}

abbrev refusing : OutputPlugin World
refusing = record keeper { emit_event = λ userdata ev w. (w, error (codes "E") (codes "no")) }

abbrev targets : List (TargetBinding World)
targets = record { plugin = refusing; userdata = 0 } ∷ record { plugin = keeper; userdata = 0 } ∷ []

abbrev keepers : List (TargetBinding World)
keepers = record { plugin = keeper; userdata = 0 } ∷ []

abbrev source : EventSourceBinding World
source = record { plugin = counter; userdata = 0 }

abbrev job : EventBinding World
job = record {
  event_name = codes "ev";
  interval_micros = 100;
  sources = source ∷ [];
  next_tick = 50;
}

abbrev service : Service World
service = record {
  spool_dir = [];
  plugin_dir = [];
  plugin_map = record { spool_dir = []; plugin_dir = []; source_plugins = []; output_plugins = [] };
  event_bindings = job ∷ [];
  targets = keepers;
  queue = 0 ∷ [];
}

service-Queued : IsQueued service
service-Queued = record { sorted = (tt, tt); once = λ i. ground arith }

abbrev turn : Turn
turn = record { now = 40; select = λ timeout. (false, 60); wall = 1000; finished = 70 }

abbrev event : EventData
event = record { time = 1; event_name = codes "ev"; event_data = codes "x" }

delivered : (deliver_event targets event (3, [])).0 ≡ (3, codes "x" ∷ [])
unfolding deliver_event
delivered = refl

processed : process_event 5 keepers job 9 (2, []) ≡ some ((0, codes "e" ∷ codes "e" ∷ []), success)
unfolding process_event process_rounds sources_round deliver_event
processed = refl

more_left : Round → Bool
more_left (collected merged cont) = cont
more_left _ = false

emit-left :
    (m : ℕ) (xs : List Bytes) (merged : Bytes) → (emit_merged keepers job 9 merged (m, xs)).0.0 ≡ m
unfolding emit_event deliver_event
emit-left m xs [] = refl
emit-left m xs (c ∷ cs) = refl

runs_dry : RunsDry keepers job 9 (λ w. w.0)
unfolding sources_round more_left
runs_dry (n, xs) merged e =
    let more : (if ltb 0 (n - 1) then true else false) ≡ true = ap more_left e in
    ground (arith, emit-left (n - 1) xs merged)

deliver_event-all_example :
    ((deliver_event targets event (3, [])).0 ≡ after_all event targets (3, []))
    × (is_success (deliver_event targets event (3, [])).1 ≡ all_took event targets (3, []))
deliver_event-all_example = deliver_event-all event targets (3, [])

process_event-ends_example :
    (r : World × ReturnCode) × (process_event 4 keepers job 9 (3, []) ≡ some r)
process_event-ends_example =
    process_event-ends keepers job 9 (λ w. w.0) runs_dry 4 (3, []) (omega arith)

run-Refined_example :
    Refined 5 keepers
      (turn ∷ turn ∷ [])
      (service.event_bindings, (2, []))
      (run 5 (turn ∷ turn ∷ []) service (2, []))
run-Refined_example = run-Refined 5 keepers (turn ∷ turn ∷ []) service (2, []) service-Queued refl

-- A `select` that takes the time it gets, in a round that begins when the event is over already.
abbrev late_turn : Turn
late_turn = record {
  now = 51;
  select = λ timeout. (false, 51 + (timeout.0 * 1000000 + timeout.1));
  wall = 9;
  finished = 70;
}

late_turn-Honours : Honours late_turn
unfolding Honours
late_turn-Honours timeout e = omega arith

run_step-sleeps_example :
    (run_step 5 late_turn service (2, []) ≡ stopped service (2, []))
    ⊎ (wakes 50 51 ≤ (slept late_turn job).1)
run_step-sleeps_example =
    run_step-sleeps 5 late_turn service (2, []) 0 [] job refl refl (omega arith) (omega arith)
      late_turn-Honours
