-- ===== src/Tailing.antt =====
-- The components together: the service of src/evcollect/service.cc polls one log file (src/evcollect/logfile.cc) and
-- hands what it gives to a target.
pub mod Taking
pub mod Round
pub mod Delivered
mod Tests
use evcollect.Prelude.{ℕ, ◌+◌, Bool, List, [], ◌∷◌, ◌++◌, Bytes}
use evcollect.Events.{EventData}
use evcollect.Util.ReturnCode.{ReturnCode, success}
use evcollect.Plugin.{SourcePlugin, OutputPlugin}
use evcollect.Service.{EventSourceBinding, TargetBinding, EventBinding}
use evcollect.Logfile.{has_next_line}
use evcollect.Logfile.Checkpoint.{Tail, Moment}
use evcollect.Logfile.Event.{get_next_event}

-- The log file with its source, how often the plugin has been called, and the events that the target took.
pub record World : Type 0 where
  pub tail : Tail
  pub calls : ℕ
  pub sent : List EventData

-- `LogfileSourcePlugin::pluginGetNextEvent` and `pluginHasPendingEvent`. What the system answers to a call depends
-- on how many went before it.
unfoldable pub get_next_event_of : (ℕ → Moment) → Bytes → World → World × (ReturnCode × Bytes)
unfolding get_next_event
get_next_event_of moments event_json w =
    let (t, r) = get_next_event (moments w.calls) event_json w.tail in
    (record w { tail = t; calls = w.calls + 1 }, r)

unfoldable pub has_pending_event_of : (ℕ → Moment) → World → World × Bool
unfolding has_next_line
has_pending_event_of moments w =
    let (src, more) = has_next_line (moments w.calls).file w.tail.source in
    (record w { tail = record (w.tail) { source = src }; calls = w.calls + 1 }, more)

pub log_source : (ℕ → Moment) → SourcePlugin World → EventSourceBinding World
unfolding get_next_event_of has_pending_event_of
log_source moments plugin = record {
  plugin = record plugin {
    get_next_event = λ userdata event_json w. get_next_event_of moments event_json w;
    has_pending_event = λ userdata w. has_pending_event_of moments w;
  };
  userdata = 0;
}

-- A target that takes every event.
pub keeper : OutputPlugin World → TargetBinding World
keeper plugin = record {
  plugin = record plugin {
    emit_event = λ userdata ev w. (record w { sent = w.sent ++ ev ∷ [] }, success);
  };
  userdata = 0;
}

-- An event of the service with this source alone.
abbrev pub log_event : (ℕ → Moment) → SourcePlugin World → Bytes → ℕ → ℕ → EventBinding World
log_event moments plugin name interval next_tick = record {
  event_name = name;
  interval_micros = interval;
  sources = log_source moments plugin ∷ [];
  next_tick = next_tick;
}
