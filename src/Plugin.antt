-- ===== src/Plugin.antt =====
-- src/evcollect/plugin.cc and plugin.h: what a plugin is to the service, the plugins that are loaded, and
-- the plugins behind C functions. `W` is the state of the world that plugins change; a `userdata` pointer is
-- a number.
pub mod Map
pub mod Dynamic
use evcollect.Prelude.{ℕ, Bool, Bytes}
use evcollect.Events.{PropertyList, EventData}
use evcollect.Util.ReturnCode.{ReturnCode}

-- The methods of `SourcePlugin` and `OutputPlugin`. An out parameter comes back with the status; `init`
-- gets the spool directory of `PluginConfig`.
pub record SourcePlugin (W : Type 0) : Type 0 where
  pub init : Bytes → W → W × ReturnCode
  pub free : W → W
  pub attach : PropertyList → W → W × (ReturnCode × ℕ)
  pub detach : ℕ → W → W
  pub get_next_event : ℕ → Bytes → W → W × (ReturnCode × Bytes)
  pub has_pending_event : ℕ → W → W × Bool

pub record OutputPlugin (W : Type 0) : Type 0 where
  pub init : Bytes → W → W × ReturnCode
  pub free : W → W
  pub attach : PropertyList → W → W × (ReturnCode × ℕ)
  pub detach : ℕ → W → W
  pub emit_event : ℕ → EventData → W → W × ReturnCode
