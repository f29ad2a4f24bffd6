-- ===== src/Daemon/Setup/Released.antt =====
-- Attachments to plugins, from the set-up of the service by `main` to the destructor of the service.
use evcollect.Prelude.{ℕ, ◌≡◌, refl, ◌∙◌, Bool, true, false, List, [], ◌∷◌, Bytes, c_str}
use evcollect.Events.{ProcessConfig}
use evcollect.Util.ReturnCode.{ReturnCode, is_success}
use evcollect.Util.Chars.{is_shell_safe}
use evcollect.Plugin.Map.{
  PluginMap, new_plugin_map, register_source_plugin, register_plugin, emplace,
}
use evcollect.Service.{Service}
use evcollect.Service.Setup.{candidates, new_service, load_candidates, load_plugin, destroy_service}
use evcollect.Service.Setup.Balance.{CountsSource}
use evcollect.Service.Setup.Balance.Added.{SourcesCount, OutputsCount}
use evcollect.Service.Setup.Balance.Destroyed.{
  Kept, KeptIf, add_event-Kept, add_target-Kept, destroy_service-none,
}
use evcollect.Daemon.Setup.{
  ServiceSystem, Progress, load_step, event_step, target_step, setup_service,
}
use evcollect.Daemon.Setup.FirstFailure.{AllSucceed}
use evcollect.Daemon.Setup.Configured.{while_success-all, if-either, option-either}

cases-either {ℓ κ} :
    {A : Type ℓ} (P : A → Type κ) (x y : A) (b : Bool)
    → P x
    → P y
    → P (elim b [ false ↦ x | true ↦ y ])
cases-either P x y false p q = p
cases-either P x y true p q = q

module _ {W : Type 0} (held : W → ℕ) where
  abbrev Counts : PluginMap W → Type 0
  Counts pm = SourcesCount held pm.source_plugins × OutputsCount held pm.output_plugins

  -- What comes back has plugins that count, and no more attached.
  abbrev Still : ℕ → (PluginMap W × W) × ReturnCode → Type 0
  Still n r = Counts r.0.0 × (held r.0.1 ≡ n)

  -- A library that is loaded registers plugins that count, and attaches nothing.
  abbrev pub Loads : (Bytes → PluginMap W → W → (PluginMap W × W) × ReturnCode) → Type 0
  Loads load =
      (path : Bytes) (pm : PluginMap W) (w : W) → Counts pm → Still (held w) (load path pm w)

  load_candidates-Still :
      (stat_ok : Bytes → Bool) (load : Bytes → PluginMap W → W → (PluginMap W × W) × ReturnCode)
      (plugin : Bytes) (tried paths : List Bytes) (pm : PluginMap W) (w : W)
      → Loads load
      → Counts pm
      → Still (held w) (load_candidates stat_ok load plugin tried paths pm w)
  unfolding load_candidates
  load_candidates-Still stat_ok load plugin tried [] pm w l h = (h, refl)
  load_candidates-Still stat_ok load plugin tried (path ∷ paths) pm w l h =
      cases-either (Still (held w)) _ _ (stat_ok (c_str path))
        (load_candidates-Still stat_ok load plugin tried paths pm w l h) (l path pm w h)

  with_map :
      (s : Service W) (w : W) (r : (PluginMap W × W) × ReturnCode)
      → Kept held s w
      → Still (held w) r
      → Kept held (record s { plugin_map = r.0.0 }) r.0.1
  with_map s w r k ((sources, outputs), e) = record {
    sources = sources;
    outputs = outputs;
    events = k.events;
    targets = k.targets;
    count = e ∙ k.count;
  }

  abbrev KeptAfter : Progress W → Type 0
  KeptAfter p = Kept held p.0.0 p.0.1

  module _ (sys : ServiceSystem W) where
    tried-Kept :
        (plugin : Bytes) (s : Service W) (w : W) (name : Bytes) (paths : List Bytes)
        → Loads (sys.load_library name)
        → Kept held s w
        → let r =
            load_candidates sys.stat_ok (sys.load_library name) plugin paths paths s.plugin_map w in
          Kept held (record s { plugin_map = r.0.0 }) r.0.1
    tried-Kept plugin s w name paths l k =
        with_map s w
          (load_candidates sys.stat_ok (sys.load_library name) plugin paths paths s.plugin_map w) k
          (load_candidates-Still sys.stat_ok (sys.load_library name) plugin paths paths s.plugin_map
            w l (k.sources, k.outputs))

    load_step-Kept :
        ((name : Bytes) → Loads (sys.load_library name))
        → (plugin : Bytes) (s : Service W) (w : W) → Kept held s w
        → KeptAfter (load_step sys plugin s w)
    unfolding load_plugin
    load_step-Kept l plugin s w k =
        if-either KeptAfter _ _ (is_shell_safe plugin)
          (tried-Kept plugin s w plugin (candidates s.plugin_dir plugin) (l plugin) k)
          (option-either KeptAfter _ _ (sys.plugin_name_of plugin) k
            λ name. tried-Kept plugin s w name (plugin ∷ candidates s.plugin_dir plugin) (l name) k)

    all-Kept :
        {A : Type 0} (step : A → Service W → W → Progress W)
        → ((x : A) (s : Service W) (w : W) → Kept held s w → KeptIf held (step x s w))
        → (xs : List A) (p q : Service W × W) → AllSucceed step xs p q
        → Kept held p.0 p.1
        → Kept held q.0 q.1
    all-Kept step keeps _ p _ (AllSucceed.done _) k = k
    all-Kept step keeps _ _ q (AllSucceed.more x xs s w _ ok all) k =
        all-Kept step keeps xs (step x s w).0 q all (keeps x s w k ok)

    new_service-Kept :
        (spool_dir plugin_dir : Bytes) (w : W)
        → CountsSource held sys.logfile_plugin
        → held w ≡ 0
        → Kept held (new_service sys.logfile_plugin spool_dir plugin_dir) w
    unfolding new_service new_plugin_map register_source_plugin register_plugin emplace
    new_service-Kept spool_dir plugin_dir w q e = record {
      sources = (q, tt);
      outputs = tt;
      events = tt;
      targets = tt;
      count = e;
    }

    -- Let a count of what is attached go up by one where a plugin's `attach` succeeds, down by one with its
    -- `detach`, and stay as it is where a plugin is loaded, initialised or freed, or an `attach` fails. If `main`
    -- sets up the service with success, in a world with nothing attached, then the destructor, from there, leaves
    -- nothing attached.
    pub setup_service-released :
        CountsSource held sys.logfile_plugin
        → ((name : Bytes) → Loads (sys.load_library name))
        → (conf : ProcessConfig) (w : W) → held w ≡ 0
        → is_success (setup_service sys conf w).1 ≡ true
        → let p = setup_service sys conf w in held (destroy_service p.0.0 p.0.1) ≡ 0
    unfolding setup_service
    setup_service-released q l conf w none ok =
        let (e1, targets) = while_success-all sys (target_step sys) conf.target_bindings _ ok in
        let (e2, events) = while_success-all sys (event_step sys) conf.event_bindings _ e1 in
        let (_, plugins) = while_success-all sys (load_step sys) conf.load_plugins _ e2 in
        let k0 = new_service-Kept conf.spool_dir conf.plugin_dir w q none in
        let k1 =
          all-Kept (load_step sys) (λ x s w' k _. load_step-Kept l x s w' k) conf.load_plugins _ _
            plugins k0 in
        let k2 =
          all-Kept (event_step sys) (λ x s w' k. add_event-Kept held x (sys.tick_read w') s w' k)
            conf.event_bindings _ _ events k1 in
        destroy_service-none held _ _
          (all-Kept (target_step sys) (add_target-Kept held) conf.target_bindings _ _ targets k2)
