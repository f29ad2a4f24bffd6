-- ===== src/Service.antt =====
-- `ServiceImpl` of src/evcollect/service.cc: the events with their sources, the targets, and the queue of
-- events in the order of their next ticks. `W` is the state of the world that plugins change.
pub mod Queue
pub mod Process
pub mod Setup
pub mod Run
use evcollect.Prelude.{ℕ, List, Bytes}
use evcollect.Plugin.{SourcePlugin, OutputPlugin}
use evcollect.Plugin.Map.{PluginMap}

pub record EventSourceBinding (W : Type 0) : Type 0 where
  pub plugin : SourcePlugin W
  pub userdata : ℕ

pub record EventBinding (W : Type 0) : Type 0 where
  pub event_name : Bytes
  pub interval_micros : ℕ
  pub sources : List (EventSourceBinding W)
  pub next_tick : ℕ

pub record TargetBinding (W : Type 0) : Type 0 where
  pub plugin : OutputPlugin W
  pub userdata : ℕ

-- The pointers in `queue_` are positions in `event_bindings`.
pub record Service (W : Type 0) : Type 0 where
  pub spool_dir : Bytes
  pub plugin_dir : Bytes
  pub plugin_map : PluginMap W
  pub event_bindings : List (EventBinding W)
  pub targets : List (TargetBinding W)
  pub queue : List ℕ
