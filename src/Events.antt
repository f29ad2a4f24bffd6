-- ===== src/Events.antt =====
-- The data of src/evcollect/evcollect.h that the components exchange, and `ProcessConfig` of
-- src/evcollect/config.h.
use evcollect.Prelude.{ℕ, List, Bytes}

pub record EventData : Type 0 where
  pub time : ℕ
  pub event_name : Bytes
  pub event_data : Bytes

-- Keys with their values, in the order of the configuration; a key may come more than once.
pub record PropertyList : Type 0 where
  pub properties : List (Bytes × List Bytes)

pub record EventSourceConfig : Type 0 where
  pub plugin_name : Bytes
  pub plugin_value : Bytes
  pub properties : PropertyList

pub record EventConfig : Type 0 where
  pub event_name : Bytes
  pub interval_micros : ℕ
  pub sources : List EventSourceConfig

pub record TargetConfig : Type 0 where
  pub plugin_name : Bytes
  pub plugin_value : Bytes
  pub properties : PropertyList

pub record ProcessConfig : Type 0 where
  pub event_bindings : List EventConfig
  pub target_bindings : List TargetConfig
  pub spool_dir : Bytes
  pub plugin_dir : Bytes
  pub load_plugins : List Bytes
