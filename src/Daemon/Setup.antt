-- ===== src/Daemon/Setup.antt =====
-- How `main` of src/evcollect/evcollectd.cc sets up the service from its configuration.
pub mod FirstFailure
pub mod Configured
pub mod Released
mod Tests
use evcollect.Prelude.{ℕ, Bool, true, false, Option, List, [], ◌∷◌, Bytes, if◌then◌else◌}
use evcollect.Events.{EventConfig, TargetConfig, ProcessConfig}
use evcollect.Util.ReturnCode.{ReturnCode, success, is_success}
use evcollect.Plugin.{SourcePlugin}
use evcollect.Plugin.Map.{PluginMap}
use evcollect.Service.{Service}
use evcollect.Service.Setup.{new_service, load_plugin, add_event, add_target}

-- What `loadPlugin` needs of the system, and the plugin for log files. `tick_read` is what the monotonic clock
-- reads at the end of an `addEvent` that begins in a world.
pub record ServiceSystem (W : Type 0) : Type 0 where
  pub logfile_plugin : SourcePlugin W
  pub stat_ok : Bytes → Bool
  pub plugin_name_of : Bytes → Option Bytes
  pub load_library : Bytes → Bytes → PluginMap W → W → (PluginMap W × W) × ReturnCode
  pub tick_read : W → ℕ

-- A service, the world, and `rc`.
abbrev pub Progress : Type 0 → Type 0
Progress W = (Service W × W) × ReturnCode

module _ {W : Type 0} where
  -- The loop `for (...) { if (!rc.isSuccess()) { break; } rc = ...; }`, which `main` has three times.
  unfoldable pub while_success :
      {A : Type 0} → (A → Service W → W → Progress W) → List A → Progress W → Progress W
  while_success step [] p = p
  while_success step (x ∷ xs) ((s, w), rc) =
      let rest = while_success step xs (step x s w) in
      elim (is_success rc) [ true ↦ rest | false ↦ ((s, w), rc) ]

module _ {W : Type 0} (sys : ServiceSystem W) where
  abbrev pub load_step : Bytes → Service W → W → Progress W
  load_step plugin s w = load_plugin sys.stat_ok sys.plugin_name_of sys.load_library plugin s w

  abbrev pub event_step : EventConfig → Service W → W → Progress W
  event_step binding s w = add_event binding (sys.tick_read w) s w

  abbrev pub target_step : TargetConfig → Service W → W → Progress W
  target_step binding s w = add_target binding s w

  -- `createService` and the three loops.
  unfoldable pub setup_service : ProcessConfig → W → Progress W
  unfolding while_success load_plugin add_event add_target new_service
  setup_service conf w = while_success target_step conf.target_bindings (
      while_success event_step conf.event_bindings (
        while_success load_step conf.load_plugins
          ((new_service sys.logfile_plugin conf.spool_dir conf.plugin_dir, w), success)))
