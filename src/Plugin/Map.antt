-- ===== src/Plugin/Map.antt =====
-- `PluginMap` of src/evcollect/plugin.cc: the plugins by name, each initialised when it is first asked for.
pub mod Once
mod Tests
use evcollect.Prelude.{
  ℕ, Bool, true, false, not, Option, none, some, List, [], ◌∷◌, ◌++◌, Bytes, codes, c_str, str_eq,
  if◌then◌else◌,
}
use evcollect.Util.ReturnCode.{ReturnCode, success, error_fmt, is_success}
use evcollect.Plugin.{SourcePlugin, OutputPlugin}

pub record Binding (P : Type 0) : Type 0 where
  pub plugin : P
  pub plugin_initialized : Bool

-- An `unordered_map` of the standard library: no key comes twice, as `emplace` leaves one that is there.
abbrev pub Bindings : Type 0 → Type 0
Bindings P = List (Bytes × Binding P)

pub record PluginMap (W : Type 0) : Type 0 where
  pub spool_dir : Bytes
  pub plugin_dir : Bytes
  pub source_plugins : Bindings (SourcePlugin W)
  pub output_plugins : Bindings (OutputPlugin W)

unfoldable pub new_plugin_map : {W : Type 0} → Bytes → Bytes → PluginMap W
new_plugin_map spool plugins = record {
  spool_dir = spool;
  plugin_dir = plugins;
  source_plugins = [];
  output_plugins = [];
}

-- What `getSourcePlugin` and `getOutputPlugin` leave: the plugins, the world, and the status with the
-- plugin found.
abbrev pub Found : Type 0 → Type 0 → Type 0
Found P W = Bindings P × (W × (ReturnCode × Option P))

module _ {P : Type 0} where
  unfoldable pub find_plugin : Bytes → Bindings P → Option (Binding P)
  find_plugin key [] = none
  find_plugin key ((k, b) ∷ bs) =
      let later = find_plugin key bs in if str_eq k key then some b else later

  unfoldable pub emplace : Bytes → Binding P → Bindings P → Bindings P
  emplace key b [] = (key, b) ∷ []
  emplace key b ((k, b') ∷ bs) =
      let later = emplace key b bs in if str_eq k key then (k, b') ∷ bs else (k, b') ∷ later

  -- `plugin_initialized = true`, through the iterator.
  unfoldable pub set_initialized : Bytes → Bindings P → Bindings P
  set_initialized key [] = []
  set_initialized key ((k, b) ∷ bs) =
      let later = set_initialized key bs in
      if str_eq k key then (k, record b { plugin_initialized = true }) ∷ bs else (k, b) ∷ later

  -- `registerSourcePlugin` and `registerOutputPlugin`.
  unfoldable pub register_plugin : Bytes → P → Bindings P → Bindings P
  unfolding emplace
  register_plugin name plugin bs =
      emplace name (record { plugin = plugin; plugin_initialized = false }) bs

  module _ {W : Type 0} where
    abbrev pub initialized : Bytes → P → Bindings P → W × ReturnCode → Found P W
    initialized name plugin bs (w, rc) =
        if is_success rc
        then (set_initialized name bs, (w, (success, some plugin)))
        else (bs, (w, (rc, none)))

    unfoldable pub get_plugin :
        (P → W → W × ReturnCode) → Bytes → Bytes → Bindings P → W → Found P W
    unfolding find_plugin set_initialized
    get_plugin init message name bs w = elim (find_plugin name bs) [
      | none ↦ (bs, (w, (error_fmt (codes "PLUGIN_NOT_FOUND") (message ++ c_str name), none)))
      | some b ↦
          if not b.plugin_initialized
          then initialized name b.plugin bs (init b.plugin w)
          else (bs, (w, (success, some b.plugin)))
    ]

module _ {W : Type 0} where
  unfoldable pub register_source_plugin : Bytes → SourcePlugin W → PluginMap W → PluginMap W
  unfolding register_plugin
  register_source_plugin name plugin pm = record pm {
    source_plugins = register_plugin name plugin pm.source_plugins;
  }

  unfoldable pub register_output_plugin : Bytes → OutputPlugin W → PluginMap W → PluginMap W
  unfolding register_plugin
  register_output_plugin name plugin pm = record pm {
    output_plugins = register_plugin name plugin pm.output_plugins;
  }

  unfoldable pub get_source_plugin :
      Bytes → PluginMap W → W → PluginMap W × (W × (ReturnCode × Option (SourcePlugin W)))
  unfolding get_plugin
  get_source_plugin name pm w =
      let (bs, r) =
        get_plugin (λ p. p.init pm.spool_dir) (codes "plugin not found: ") name pm.source_plugins
          w in
      (record pm { source_plugins = bs }, r)

  unfoldable pub get_output_plugin :
      Bytes → PluginMap W → W → PluginMap W × (W × (ReturnCode × Option (OutputPlugin W)))
  unfolding get_plugin
  get_output_plugin name pm w =
      let (bs, r) =
        get_plugin (λ p. p.init pm.spool_dir) (codes "output plugin not found: ") name
          pm.output_plugins w in
      (record pm { output_plugins = bs }, r)

  -- The destructor: it frees the sources that were initialised, and no output.
  unfoldable pub free_sources : Bindings (SourcePlugin W) → W → W
  free_sources [] w = w
  free_sources ((k, b) ∷ bs) w =
      free_sources bs (if not b.plugin_initialized then w else b.plugin.free w)

  unfoldable pub destroy_plugin_map : PluginMap W → W → W
  unfolding free_sources
  destroy_plugin_map pm w = free_sources pm.source_plugins w
