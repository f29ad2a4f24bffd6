-- ===== src/Service/Setup/Balance/Added.antt =====
-- The sources of an event, attached one after the other.
use mathlib.Core.Path.{subst}
use evcollect.Prelude.{
  ℕ, suc, ◌+◌, ◌≡◌, refl, ◌∙◌, inl, inr, true, false, Bool-cases, Option, none, some, List, [], ◌∷◌,
  codes, arith, length, All,
}
use evcollect.Events.{EventSourceConfig}
use evcollect.Util.ReturnCode.{ReturnCode, is_success}
use evcollect.Plugin.{SourcePlugin, OutputPlugin}
use evcollect.Plugin.Map.{Bindings, PluginMap, get_source_plugin}
use evcollect.Plugin.Map.Once.{is_some, get_source_plugin-Agrees}
use evcollect.Service.{EventSourceBinding}
use evcollect.Service.Setup.{attach_found, attach_source, attach_sources}
use evcollect.Service.Setup.Balance.{
  CountsSource, CountsOutput, AllPlugins, IfFound, get_plugin-Looked,
}

module _ {W : Type 0} (held : W → ℕ) where
  abbrev pub SourcesCount : Bindings (SourcePlugin W) → Type 0
  SourcesCount = AllPlugins held (CountsSource held)

  abbrev pub OutputsCount : Bindings (OutputPlugin W) → Type 0
  OutputsCount = AllPlugins held (CountsOutput held)

  abbrev pub AllSources : List (EventSourceBinding W) → Type 0
  AllSources = All (λ b. CountsSource held b.plugin)

  -- What one source leaves: a plugin that counts, with one attachment more, or a failure.
  abbrev Counted : ℕ → W × (ReturnCode × Option (EventSourceBinding W)) → Type 0
  Counted n (w, (rc, none)) = is_success rc ≡ false
  Counted n (w, (rc, some b)) = CountsSource held b.plugin × (held w ≡ suc n)

  attach_found-Counted :
      (source : EventSourceConfig) (rc : ReturnCode) (found : Option (SourcePlugin W)) (w : W)
      → is_success rc ≡ is_some found
      → IfFound held (CountsSource held) found
      → Counted (held w) (attach_found source (rc, found) w)
  attach_found-Counted source rc none w e q = e
  attach_found-Counted source rc (some plugin) w e q =
      let counts = q.attaches source.properties w in
      elim (Bool-cases (is_success (plugin.attach source.properties w).1.0)) [
        | inl ok ↦ rw ok (q, counts ∙ rw ok refl)
        | inr f ↦ rw f refl
      ]

  abbrev OneSource :
      PluginMap W → ℕ → PluginMap W × (W × (ReturnCode × Option (EventSourceBinding W))) → Type 0
  OneSource pm n r =
      (SourcesCount r.0.source_plugins × (r.0.output_plugins ≡ pm.output_plugins)) × Counted n r.1

  attach_source-OneSource :
      (source : EventSourceConfig) (pm : PluginMap W) (w : W)
      → SourcesCount pm.source_plugins
      → OneSource pm (held w) (attach_source source pm w)
  unfolding attach_source get_source_plugin
  attach_source-OneSource source pm w h =
      let r = get_source_plugin source.plugin_name pm w in
      let ((all, same), q) =
        get_plugin-Looked held (CountsSource held) (λ p. p.init pm.spool_dir)
          (λ p q. q.inits pm.spool_dir) (codes "plugin not found: ") source.plugin_name
          pm.source_plugins w h in
      (
        (all, refl),
        subst (λ n. Counted n (attach_found source r.1.1 r.1.0)) same
            (attach_found-Counted source r.1.1.0 r.1.1.1 r.1.0
              (get_source_plugin-Agrees source.plugin_name pm w) q),
      )

  -- All sources attached, or a failure.
  abbrev ManySources :
      PluginMap W → ℕ → PluginMap W × (W × (ReturnCode × List (EventSourceBinding W))) → Type 0
  ManySources pm n r =
      (SourcesCount r.0.source_plugins × (r.0.output_plugins ≡ pm.output_plugins))
      × (is_success r.1.1.0 ≡ true → AllSources r.1.1.1 × (held r.1.0 ≡ length r.1.1.1 + n))

  abbrev continued :
      List EventSourceConfig
      → PluginMap W × (W × (ReturnCode × Option (EventSourceBinding W)))
      → PluginMap W × (W × (ReturnCode × List (EventSourceBinding W)))
  continued ss r = elim r.1.1.1 [
    | none ↦ (r.0, (r.1.0, (r.1.1.0, [])))
    | some b ↦
        let more = attach_sources ss r.0 r.1.0 in (more.0, (more.1.0, (more.1.1.0, b ∷ more.1.1.1)))
  ]

  continued-ManySources :
      (ss : List EventSourceConfig) (pm : PluginMap W) (n : ℕ)
      (r : PluginMap W × (W × (ReturnCode × Option (EventSourceBinding W))))
      → OneSource pm n r
      → ManySources r.0 (held r.1.0) (attach_sources ss r.0 r.1.0)
      → ManySources pm n (continued ss r)
  continued-ManySources ss pm n (pm', (w, (rc, none))) (h, f) more = (h, λ e. absurd (ground arith))
  continued-ManySources ss pm n (pm', (w, (rc, some b))) ((h, o), (q, e)) ((h', o'), more) =
      ((h', o' ∙ o), λ ok. let (all, count) = more ok in ((q, all), omega (arith, count, e)))

  pub attach_sources-ManySources :
      (ss : List EventSourceConfig) (pm : PluginMap W) (w : W)
      → SourcesCount pm.source_plugins
      → ManySources pm (held w) (attach_sources ss pm w)
  unfolding attach_sources
  attach_sources-ManySources [] pm w h = ((h, refl), λ _. (tt, omega arith))
  attach_sources-ManySources (s ∷ ss) pm w h =
      let r = attach_source s pm w in
      let one = attach_source-OneSource s pm w h in
      continued-ManySources ss pm (held w) r one (attach_sources-ManySources ss r.0 r.1.0 one.0.0)
