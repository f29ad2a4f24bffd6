-- ===== src/Service/Run/Fair/Tests.antt =====
-- Two events that are due, and the second one runs in the second round.
use evcollect.Prelude.{ℕ, ◌+◌, ◌≡◌, refl, false, some, List, [], ◌∷◌, codes, arith}
use evcollect.Util.ReturnCode.{ReturnCode, success}
use evcollect.Service.{EventSourceBinding, EventBinding, Service}
use evcollect.Service.Process.{
  process_event, process_rounds, sources_round, emit_event, deliver_event,
}
use evcollect.Service.Run.{Turn, went_on, requeue, run_step, run}
use evcollect.Service.Run.Fair.{run_due}
use evcollect.Service.Run.Place.{position}
use evcollect.Service.Run.Fair.Round.{DueBy, Waits}

-- A source that counts how often it is asked.
abbrev source : EventSourceBinding ℕ
source = record {
  plugin = record {
    init = λ spool w. (w, success);
    free = λ w. w;
    attach = λ config w. (w, (success, 0));
    detach = λ userdata w. w;
    get_next_event = λ userdata out w. (w + 1, (success, codes "e"));
    has_pending_event = λ userdata w. (w, false);
  };
  userdata = 0;
}

abbrev first : EventBinding ℕ
first = record {
  event_name = codes "a";
  interval_micros = 10;
  sources = source ∷ [];
  next_tick = 40;
}

abbrev second : EventBinding ℕ
second = record {
  event_name = codes "b";
  interval_micros = 100;
  sources = source ∷ [];
  next_tick = 50;
}

abbrev service : Service ℕ
service = record {
  spool_dir = [];
  plugin_dir = [];
  plugin_map = record { spool_dir = []; plugin_dir = []; source_plugins = []; output_plugins = [] };
  event_bindings = first ∷ second ∷ [];
  targets = [];
  queue = 0 ∷ 1 ∷ [];
}

abbrev turn : Turn
turn = record { now = 40; select = λ timeout. (false, 60); wall = 1000; finished = 70 }

turn-DueBy : DueBy 50 turn
turn-DueBy = record {
  undisturbed = λ timeout. refl;
  awake = λ timeout. omega arith;
  finished = omega arith;
}

second-Waits : Waits 1 [] 1 1 second service
unfolding position process_event process_rounds sources_round deliver_event emit_event
second-Waits = record {
  queued = record { sorted = ((omega arith, tt), (tt, tt)); once = λ i. ground arith };
  answers = (λ tick wall w. (_, refl), (λ tick wall w. (_, refl), tt));
  same_targets = refl;
  binding = refl;
  place = refl;
}

run_due_example :
    (s' : Service ℕ) × (w' : ℕ) × (q : List ℕ) × (r : ℕ × ReturnCode) × (run 1 (turn ∷ []) service 5
      ≡ went_on s' w')
    × (s'.queue ≡ 1 ∷ q)
    × (process_event 1 [] second 1000 w' ≡ some r)
    × (run_step 1 turn s' w' ≡ went_on (requeue 1 q second 70 s') r.0)
run_due_example =
    run_due 1 [] (turn ∷ []) turn service 5 1 second second-Waits (turn-DueBy, tt) turn-DueBy
