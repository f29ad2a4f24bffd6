-- ===== src/Daemon/Setup/Tests.antt =====
-- A configuration with two events, of which the second needs a plugin that is not there.
use evcollect.Prelude.{
  ℕ, suc, ◌-◌, ◌≡◌, refl, arith, true, false, none, [], ◌∷◌, Bytes, codes, map, length, str_eq,
}
use evcollect.Events.{EventConfig, ProcessConfig}
use evcollect.Util.ReturnCode.{success, is_success}
use evcollect.Plugin.{SourcePlugin, OutputPlugin}
use evcollect.Util.Chars.{is_shell_safe}
use evcollect.Plugin.Map.{
  register_plugin, register_output_plugin, register_source_plugin, new_plugin_map,
  get_source_plugin, get_output_plugin,
}
use evcollect.Service.Setup.{destroy_service}
use evcollect.Service.Setup.Balance.{CountsOutput, emplace-All}
use evcollect.Service.Run.Schedule.{IsQueued}
use evcollect.Daemon.Setup.{ServiceSystem, setup_service}
use evcollect.Daemon.Setup.Configured.{of_config, of_binding, setup_service-Configured}
use evcollect.Daemon.Setup.Released.{Loads, setup_service-released}

abbrev sys : ServiceSystem ℕ
sys = record {
  logfile_plugin = record {
    init = λ spool w. (w, success);
    free = λ w. w;
    attach = λ config w. (w, (success, 0));
    detach = λ userdata w. w;
    get_next_event = λ userdata out w. (w, (success, codes "e"));
    has_pending_event = λ userdata w. (w, false);
  };
  stat_ok = λ path. false;
  plugin_name_of = λ path. none;
  load_library = λ name path pm w. ((pm, w), success);
  tick_read = λ w. w;
}

abbrev event_of : Bytes → EventConfig
event_of plugin = record {
  event_name = codes "logs";
  interval_micros = 5;
  sources =
      record { plugin_name = plugin; plugin_value = []; properties = record { properties = [] } }
      ∷ [];
}

abbrev conf : ProcessConfig
conf = record {
  event_bindings = event_of (codes "logfile") ∷ event_of (codes "none") ∷ [];
  target_bindings = [];
  spool_dir = [];
  plugin_dir = [];
  load_plugins = [];
}

setup_service-Configured_example :
    IsQueued (setup_service sys conf 3).0.0
    × (is_success (setup_service sys conf 3).1 ≡ true
        → (map of_binding (setup_service sys conf 3).0.0.event_bindings
            ≡ map of_config conf.event_bindings)
          × (length (setup_service sys conf 3).0.0.targets ≡ length conf.target_bindings))
setup_service-Configured_example = setup_service-Configured sys conf 3

-- The world is the number of attachments.
abbrev counting_source : SourcePlugin ℕ
counting_source = record {
  init = λ spool w. (w, success);
  free = λ w. w;
  attach = λ config w. (suc w, (success, 0));
  detach = λ userdata w. w - 1;
  get_next_event = λ userdata out w. (w, (success, codes "e"));
  has_pending_event = λ userdata w. (w, false);
}

abbrev counting_output : OutputPlugin ℕ
counting_output = record {
  init = λ spool w. (w, success);
  free = λ w. w;
  attach = λ config w. (suc w, (success, 0));
  detach = λ userdata w. w - 1;
  emit_event = λ userdata event w. (w, success);
}

abbrev counting_sys : ServiceSystem ℕ
counting_sys = record {
  logfile_plugin = counting_source;
  stat_ok = λ path. true;
  plugin_name_of = λ path. none;
  load_library = λ name path pm w. ((register_output_plugin name counting_output pm, w), success);
  tick_read = λ w. w;
}

abbrev counting_conf : ProcessConfig
counting_conf = record {
  event_bindings = event_of (codes "logfile") ∷ event_of (codes "logfile") ∷ [];
  target_bindings =
      record {
        plugin_name = codes "out";
        plugin_value = [];
        properties = record { properties = [] };
      }
      ∷ [];
  spool_dir = [];
  plugin_dir = [];
  load_plugins = codes "out" ∷ [];
}

counting_sys-Loads : (name : Bytes) → Loads (λ w. w) (counting_sys.load_library name)
unfolding register_output_plugin register_plugin
counting_sys-Loads name path pm w (sources, outputs) = (
  (
    sources,
    emplace-All (λ w. w) (CountsOutput (λ w. w)) name
        (record { plugin = counting_output; plugin_initialized = false }) pm.output_plugins
        (record {
          inits = λ dir w. refl;
          attaches = λ config w. refl;
          detaches = λ u w n e. omega (arith, e);
        })
        outputs,
  ),
  refl,
)

three_attached :
    (is_success (setup_service counting_sys counting_conf 0).1 ≡ true)
    × ((setup_service counting_sys counting_conf 0).0.1 ≡ 3)
unfolding setup_service is_shell_safe get_source_plugin register_output_plugin
    register_source_plugin new_plugin_map str_eq get_output_plugin
three_attached = (refl, refl)

setup_service-released_example :
    destroy_service
      (setup_service counting_sys counting_conf 0).0.0
      (setup_service counting_sys counting_conf 0).0.1
    ≡ 0
setup_service-released_example =
    setup_service-released (λ w. w) counting_sys
      (record {
        inits = λ dir w. refl;
        frees = λ w. refl;
        attaches = λ config w. refl;
        detaches = λ u w n e. omega (arith, e);
      })
      counting_sys-Loads counting_conf 0 refl three_attached.0
