-- ===== src/Service/Setup.antt =====
-- `addEvent`, `addTarget`, `loadPlugin` and the destructor of src/evcollect/service.cc.
pub mod Balance
use evcollect.Prelude.{
  ℕ, ◌+◌, Bool, true, false, Option, none, some, List, [], ◌∷◌, ◌++◌, Bytes, codes, length, wrap64,
  if◌then◌else◌, c_str,
}
use evcollect.Events.{EventConfig, EventSourceConfig, TargetConfig}
use evcollect.Util.ReturnCode.{ReturnCode, success, error, is_success}
use evcollect.Util.StringUtil.{format, join}
use evcollect.Util.Chars.{is_shell_safe}
use evcollect.Plugin.{SourcePlugin, OutputPlugin}
use evcollect.Plugin.Map.{
  PluginMap, new_plugin_map, register_source_plugin, get_source_plugin, get_output_plugin,
  destroy_plugin_map,
}
use evcollect.Plugin.Dynamic.{load_init}
use evcollect.Service.{EventSourceBinding, EventBinding, TargetBinding, Service}
use evcollect.Service.Queue.{next_tick_of, queue_insert}

abbrev pub candidates : Bytes → Bytes → List Bytes
candidates plugin_dir plugin =
    (plugin_dir ++ (codes "/" ++ plugin))
    ∷ (plugin_dir ++ (codes "/plugin_" ++ (plugin ++ codes ".so")))
    ∷ []

module _ {W : Type 0} where
  -- The constructor, with the log file plugin that is built in.
  unfoldable pub new_service : SourcePlugin W → Bytes → Bytes → Service W
  new_service logfile spool_dir plugin_dir = record {
    spool_dir = spool_dir;
    plugin_dir = plugin_dir;
    plugin_map =
        register_source_plugin (codes "logfile") logfile (new_plugin_map spool_dir plugin_dir);
    event_bindings = [];
    targets = [];
    queue = [];
  }

  -- One source of an event: the plugin is looked up and attached.
  abbrev pub attach_found :
      EventSourceConfig
      → ReturnCode × Option (SourcePlugin W)
      → W
      → W × (ReturnCode × Option (EventSourceBinding W))
  attach_found source (rc, none) w = (w, (rc, none))
  attach_found source (rc, some plugin) w =
      let (w', (attached, userdata)) = plugin.attach source.properties w in
      (
        w',
        (
          attached,
          if is_success attached
              then some (record { plugin = plugin; userdata = userdata })
              else none,
        ),
      )

  unfoldable pub attach_source :
      EventSourceConfig
      → PluginMap W
      → W
      → PluginMap W × (W × (ReturnCode × Option (EventSourceBinding W)))
  attach_source source pm w =
      let (pm', (w', found)) = get_source_plugin source.plugin_name pm w in
      (pm', attach_found source found w')

  -- The loop over the sources: the sources attached, or the status of the first that failed. Those before it
  -- stay attached, and nothing detaches them.
  unfoldable pub attach_sources :
      List EventSourceConfig
      → PluginMap W
      → W
      → PluginMap W × (W × (ReturnCode × List (EventSourceBinding W)))
  unfolding attach_source
  attach_sources [] pm w = (pm, (w, (success, [])))
  attach_sources (s ∷ ss) pm w =
      let r = attach_source s pm w in
      elim r.1.1.1 [
        | none ↦ (r.0, (r.1.0, (r.1.1.0, [])))
        | some b ↦
            let more = attach_sources ss r.0 r.1.0 in
            (more.0, (more.1.0, (more.1.1.0, b ∷ more.1.1.1)))
      ]

  abbrev insert_event : EventBinding W → Service W → Service W
  insert_event ev s =
      let bindings = s.event_bindings ++ ev ∷ [] in
      record s {
        event_bindings = bindings;
        queue = queue_insert (next_tick_of bindings) (length s.event_bindings) s.queue;
      }

  -- `addEvent`, at a time of the monotonic clock.
  unfoldable pub add_event : EventConfig → ℕ → Service W → W → (Service W × W) × ReturnCode
  unfolding attach_sources queue_insert
  add_event binding now s w =
      let (pm, (w', (rc, sources))) = attach_sources binding.sources s.plugin_map w in
      let s' = record s { plugin_map = pm } in
      if is_success rc
      then (
        (
          insert_event
              (record {
                event_name = binding.event_name;
                interval_micros = binding.interval_micros;
                sources = sources;
                next_tick = wrap64 (now + binding.interval_micros);
              })
              s',
          w',
        ),
        success,
      )
      else ((s', w'), rc)

  abbrev pub target_found :
      TargetConfig
      → Service W
      → ReturnCode × Option (OutputPlugin W)
      → W
      → (Service W × W) × ReturnCode
  target_found config s (rc, none) w = ((s, w), rc)
  target_found config s (rc, some plugin) w =
      let (w', (attached, userdata)) = plugin.attach config.properties w in
      if is_success attached
      then (
        (
          record s { targets = s.targets ++ record { plugin = plugin; userdata = userdata } ∷ [] },
          w',
        ),
        success,
      )
      else ((s, w'), attached)

  unfoldable pub add_target : TargetConfig → Service W → W → (Service W × W) × ReturnCode
  add_target config s w =
      let (pm, (w', found)) = get_output_plugin config.plugin_name s.plugin_map w in
      target_found config (record s { plugin_map = pm }) found w'

  -- `loadPlugin` by name or path. `stat_ok` is what `stat` answers on a path, and `plugin_name_of` what the
  -- expression `.*plugin_(\w+)(\.\w+)?` finds in a file name.
  unfoldable pub load_candidates :
      (Bytes → Bool)
      → (Bytes → PluginMap W → W → (PluginMap W × W) × ReturnCode)
      → Bytes
      → List Bytes
      → List Bytes
      → PluginMap W
      → W
      → (PluginMap W × W) × ReturnCode
  load_candidates stat_ok load plugin tried [] pm w = (
    (pm, w),
    error (codes "EPLUGIN")
        (format (codes "plugin not found -- tried $0") (join tried (codes ", ") ∷ [])),
  )
  load_candidates stat_ok load plugin tried (path ∷ paths) pm w = elim (stat_ok (c_str path)) [
    | false ↦ load_candidates stat_ok load plugin tried paths pm w
    | true ↦
        let (after, rc) = load path pm w in
        (
          after,
          if is_success rc
              then rc
              else error (codes "EPLUGIN")
                  (format (codes "error while loading plugin '$0': $1") (plugin ∷ rc.message ∷ [])),
        )
  ]

  unfoldable pub load_plugin :
      (Bytes → Bool)
      → (Bytes → Option Bytes)
      → (Bytes → Bytes → PluginMap W → W → (PluginMap W × W) × ReturnCode)
      → Bytes
      → Service W
      → W
      → (Service W × W) × ReturnCode
  unfolding load_candidates
  load_plugin stat_ok plugin_name_of load plugin s w =
      let try_paths : Bytes → List Bytes → (Service W × W) × ReturnCode = λ name paths.
        (let ((pm, w'), rc) =
            load_candidates stat_ok (load name) plugin paths paths s.plugin_map w in
          ((record s { plugin_map = pm }, w'), rc)) in
      if is_shell_safe plugin
      then try_paths plugin (candidates s.plugin_dir plugin)
      else (elim (plugin_name_of plugin) [
        | none ↦ (
          (s, w),
          error (codes "EPLUGIN") (
              format (codes "invalid plugin filename '$0' -- should be plugin_<name>.so")
                (plugin ∷ [])),
        )
        | some name ↦ try_paths name (plugin ∷ candidates s.plugin_dir plugin)
      ])

  -- `loadPlugin` on a function that is linked in.
  load_plugin_init :
      (W → Bytes)
      → (PluginMap W → W → (PluginMap W × W) × Bool)
      → Service W
      → W
      → (Service W × W) × ReturnCode
  load_plugin_init plugin_error init_fn s w =
      let ((pm, w'), rc) = load_init plugin_error init_fn s.plugin_map w in
      (
        (record s { plugin_map = pm }, w'),
        if is_success rc
            then rc
            else error (codes "EPLUGIN")
                (format (codes "error while loading plugin: $0") (rc.message ∷ [])),
      )

  -- The destructor detaches the sources of every event, then the targets, and then the plugin map goes.
  unfoldable pub detach_sources : List (EventSourceBinding W) → W → W
  detach_sources [] w = w
  detach_sources (s ∷ ss) w = detach_sources ss (s.plugin.detach s.userdata w)

  unfoldable pub detach_events : List (EventBinding W) → W → W
  unfolding detach_sources
  detach_events [] w = w
  detach_events (b ∷ bs) w = detach_events bs (detach_sources b.sources w)

  unfoldable pub detach_targets : List (TargetBinding W) → W → W
  detach_targets [] w = w
  detach_targets (t ∷ ts) w = detach_targets ts (t.plugin.detach t.userdata w)

  unfoldable pub destroy_service : Service W → W → W
  unfolding detach_events detach_targets
  destroy_service s w =
      destroy_plugin_map s.plugin_map (detach_targets s.targets (detach_events s.event_bindings w))
