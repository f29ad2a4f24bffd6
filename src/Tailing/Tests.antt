-- ===== src/Tailing/Tests.antt =====
-- A log file with two complete lines behind the first one, one of them blank.
use evcollect.Prelude.{◌≡◌, refl, false, none, some, [], ◌∷◌, ◌++◌, List, Bytes, codes, arith}
use evcollect.Util.ReturnCode.{success}
use evcollect.Plugin.{SourcePlugin, OutputPlugin}
use evcollect.Service.Process.{process_event}
use evcollect.Logfile.Input.Blocks.{first_line}
use evcollect.Logfile.Examples.{text, log_file-Serves, tailing, tailing-StandsIn, moment}
use evcollect.Tailing.{World, keeper, log_event}
use evcollect.Tailing.Taking.{Tails, left}
use evcollect.Tailing.Delivered.{Lines, all_events, process_event-Lines}

abbrev source : SourcePlugin World
source = record {
  init = λ spool w. (w, success);
  free = λ w. w;
  attach = λ config w. (w, (success, 0));
  detach = λ userdata w. w;
  get_next_event = λ userdata out w. (w, (success, []));
  has_pending_event = λ userdata w. (w, false);
}

abbrev output : OutputPlugin World
output = record {
  init = λ spool w. (w, success);
  free = λ w. w;
  attach = λ config w. (w, (success, 0));
  detach = λ userdata w. w;
  emit_event = λ userdata ev w. (w, success);
}

abbrev world : World
world = record { tail = record { source = tailing; checkpoint = [] }; calls = 0; sent = [] }

world-Tails : Tails (λ n. moment) text none [] world
world-Tails = record {
  served = λ n. log_file-Serves;
  stands = tailing-StandsIn;
  room = omega arith;
  expression = refl;
  names = refl;
}

process_event-Lines_example :
    (w' : World) × (ls : List Bytes) × (process_event 20
        (keeper output ∷ [])
        (log_event (λ n. moment) source (codes "log") 1000 0)
        5
        world
      ≡ some (w', success))
    × Lines (left text world) ls
    × (w'.sent ≡ [] ++ all_events none [] (codes "log") 5 ls)
    × Tails (λ n. moment) text none [] w'
    × (first_line (left text w') ≡ none)
process_event-Lines_example =
    process_event-Lines (λ n. moment) text none [] source output (codes "log") 1000 0 5 20 world
      world-Tails (omega arith)
