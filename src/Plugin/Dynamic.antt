-- ===== src/Plugin/Dynamic.antt =====
-- `DynamicSourcePlugin`, `DynamicOutputPlugin` and the C interface of src/evcollect/plugin.cc. The functions
-- of a plugin are arguments; `plugin_error` reads `ctx->error`, which they set by `evcollect_seterror`.
use evcollect.Prelude.{
  ℕ, Bool, false, Option, none, some, [], ◌∷◌, ◌++◌, Bytes, codes, c_str, take, if◌then◌else◌,
}
use evcollect.Events.{PropertyList, EventData}
use evcollect.Util.ReturnCode.{ReturnCode, success, error, error_fmt}
use evcollect.Util.StringUtil.{format}
use evcollect.Plugin.Map.{PluginMap, register_source_plugin, register_output_plugin}

module _ (W : Type 0) where
  -- Function pointers of evcollect.h, `none` for a null pointer. `attach` answers with the user data.
  abbrev InitFn : Type 0
  InitFn = Option (W → W × Bool)

  abbrev FreeFn : Type 0
  FreeFn = Option (W → W)

  abbrev AttachFn : Type 0
  AttachFn = Option (PropertyList → W → W × (Bool × ℕ))

  abbrev DetachFn : Type 0
  DetachFn = Option (ℕ → W → W)

module _ {W : Type 0} (plugin_error : W → Bytes) where
  failure : Bytes → W → ReturnCode
  failure what w =
      error_fmt (codes "EPLUGIN") (what ++ (codes " failed: " ++ c_str (plugin_error w)))

  pub status : Bytes → Bool → W → ReturnCode
  unfolding failure
  status what ok w = if ok then success else failure what w

  dynamic_init : InitFn W → W → W × ReturnCode
  unfolding status
  dynamic_init none w = (w, success)
  dynamic_init (some f) w = let (w', ok) = f w in (w', status (codes "pluginInit") ok w')

  dynamic_free : FreeFn W → W → W
  dynamic_free none w = w
  dynamic_free (some f) w = f w

  -- With no function, the user data stays as the caller left it.
  dynamic_attach : AttachFn W → ℕ → PropertyList → W → W × (ReturnCode × ℕ)
  unfolding status
  dynamic_attach none userdata config w = (w, (success, userdata))
  dynamic_attach (some f) userdata config w =
      let (w', (ok, userdata')) = f config w in
      (w', (status (codes "pluginAttach") ok w', userdata'))

  dynamic_detach : DetachFn W → ℕ → W → W
  dynamic_detach none userdata w = w
  dynamic_detach (some f) userdata w = f userdata w

  -- The event that the plugin fills starts empty; `time` has no initial value.
  dynamic_get_next_event :
      (ℕ → EventData → W → W × (Bool × EventData)) → ℕ → ℕ → Bytes → W → W × (ReturnCode × Bytes)
  unfolding failure
  dynamic_get_next_event f indeterminate userdata data_out w =
      let (w', (ok, ev)) =
        f userdata (record { time = indeterminate; event_name = []; event_data = [] }) w in
      if ok
      then (w', (success, ev.event_data))
      else (w', (failure (codes "pluginGetNextEvent") w', data_out))

  dynamic_has_pending_event : Option (ℕ → W → W × Bool) → ℕ → W → W × Bool
  dynamic_has_pending_event none userdata w = (w, false)
  dynamic_has_pending_event (some f) userdata w = f userdata w

  dynamic_emit_event : (ℕ → EventData → W → W × Bool) → ℕ → EventData → W → W × ReturnCode
  unfolding status
  dynamic_emit_event f userdata event w =
      let (w', ok) = f userdata event w in (w', status (codes "pluginEmitEvent") ok w')

  -- `evcollect_source_plugin_register`; `indeterminate` is for the time and the user data that nothing set.
  pub source_plugin_register :
      ℕ
      → Bytes
      → (ℕ → EventData → W → W × (Bool × EventData))
      → Option (ℕ → W → W × Bool)
      → AttachFn W
      → DetachFn W
      → InitFn W
      → FreeFn W
      → PluginMap W
      → PluginMap W
  unfolding dynamic_init dynamic_free dynamic_attach dynamic_detach dynamic_get_next_event
      dynamic_has_pending_event
  source_plugin_register indeterminate name next pending attach_fn detach_fn init_fn free_fn pm =
      register_source_plugin name
        (record {
          init = λ spool. dynamic_init init_fn;
          free = dynamic_free free_fn;
          attach = dynamic_attach attach_fn indeterminate;
          detach = dynamic_detach detach_fn;
          get_next_event = dynamic_get_next_event next indeterminate;
          has_pending_event = dynamic_has_pending_event pending;
        })
        pm

  -- `evcollect_output_plugin_register`.
  pub output_plugin_register :
      ℕ
      → Bytes
      → (ℕ → EventData → W → W × Bool)
      → AttachFn W
      → DetachFn W
      → InitFn W
      → FreeFn W
      → PluginMap W
      → PluginMap W
  unfolding dynamic_init dynamic_free dynamic_attach dynamic_detach dynamic_emit_event
  output_plugin_register indeterminate name emit attach_fn detach_fn init_fn free_fn pm =
      register_output_plugin name
        (record {
          init = λ spool. dynamic_init init_fn;
          free = dynamic_free free_fn;
          attach = dynamic_attach attach_fn indeterminate;
          detach = dynamic_detach detach_fn;
          emit_event = dynamic_emit_event emit;
        })
        pm

  -- `loadPlugin` on the function that registers what a library holds. The registration goes to the plugin
  -- map of the context, which is a part of what the function changes.
  pub load_init :
      (PluginMap W → W → (PluginMap W × W) × Bool)
      → PluginMap W
      → W
      → (PluginMap W × W) × ReturnCode
  load_init init_fn pm w =
      let (after, ok) = init_fn pm w in
      (after, if ok then success else error (codes "EPLUGIN") (plugin_error after.1))

  -- `loadPlugin` on a file: what `dlopen` and `dlsym` answer, each with the text of `dlerror`.
  pub load_library :
      (Bytes → Option (Bytes → Option (PluginMap W → W → (PluginMap W × W) × Bool)))
      → Bytes
      → Bytes
      → Bytes
      → PluginMap W
      → W
      → (PluginMap W × W) × ReturnCode
  unfolding load_init
  load_library open_library dl_error plugin_name plugin_path pm w =
      elim (open_library (c_str plugin_path)) [
        | none ↦ (
          (pm, w),
          error_fmt (codes "EIO") (
              codes "error while loading plugin: "
              ++ (c_str plugin_path ++ (codes ": " ++ dl_error))),
        )
        | some symbols ↦
            let plugin_init_fn = format (codes "plugin_$0_init") (plugin_name ∷ []) in
            elim (symbols (c_str plugin_init_fn)) [
              | none ↦ (
                (pm, w),
                error_fmt (codes "EIO") (
                    codes "error while loading plugin: "
                    ++ (c_str plugin_path
                        ++ (codes ": "
                            ++ (dl_error
                                ++ (codes " [symbol '"
                                    ++ (c_str plugin_init_fn ++ codes "' not found]")))))),
              )
              | some init_fn ↦ load_init init_fn pm w
            ]
      ]

-- `evcollect_event_setname` and `evcollect_event_setdata`: so many bytes from a pointer, and the readers.
event_setname : EventData → Bytes → ℕ → EventData
event_setname ev text size = record ev { event_name = take size text }

unfoldable pub event_setdata : EventData → Bytes → ℕ → EventData
event_setdata ev text size = record ev { event_data = take size text }
