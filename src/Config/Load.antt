-- ===== src/Config/Load.antt =====
-- `loadConfig` of src/evcollect/config.cc: what it adds to a configuration, whatever file it is given.
use evcollect.Prelude.{List, [], ◌∷◌, ◌++◌, Bytes, codes}
use evcollect.Events.{EventConfig, TargetConfig, ProcessConfig}
use evcollect.Util.ReturnCode.{ReturnCode, success}

abbrev default_events : List EventConfig
default_events =
    record {
      event_name = codes "sys.alive";
      interval_micros = 1000000;
      sources =
          record {
            plugin_name = codes "hostname";
            plugin_value = [];
            properties = record { properties = [] };
          }
          ∷ [];
    }
    ∷ record {
      event_name = codes "logs.access_log";
      interval_micros = 1000000;
      sources =
          record {
            plugin_name = codes "logfile";
            plugin_value = [];
            properties = record {
              properties =
                  (codes "logfile", codes "/tmp/log" ∷ [])
                  ∷ (codes "regex", codes "(?<fuu>[^\\|]*)?(?<bar>.*)" ∷ [])
                  ∷ [];
            };
          }
          ∷ [];
    }
    ∷ []

abbrev default_target : TargetConfig
default_target = record {
  plugin_name = codes "eventql";
  plugin_value = [];
  properties = record {
    properties =
        (codes "route", codes "logs.access_log" ∷ codes "test/logs.access_log" ∷ [])
        ∷ (codes "route", codes "sys.alive" ∷ codes "test/sys.alive" ∷ [])
        ∷ (codes "route", codes "sys.alive" ∷ codes "test/sys.alive.rollup" ∷ [])
        ∷ [];
  };
}

unfoldable pub load_config : Bytes → ProcessConfig → ProcessConfig × ReturnCode
load_config config_file_path conf = (
  record conf {
    load_plugins =
        conf.load_plugins
        ++ codes "./plugins/hostname/.libs/plugin_hostname.so"
          ∷ codes "./plugins/eventql/.libs/plugin_eventql.so"
          ∷ [];
    event_bindings = conf.event_bindings ++ default_events;
    target_bindings = conf.target_bindings ++ default_target ∷ [];
  },
  success,
)
