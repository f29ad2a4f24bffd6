-- ===== src/Service/Setup/Balance/Destroyed.antt =====
-- Events and targets that are added, and the destructor of the service.
use mathlib.Core.Path.{subst}
use evcollect.Prelude.{
  ℕ, suc, ◌+◌, ◌≡◌, refl, ◌∙◌, sym, inl, inr, true, Bool-cases, Option, none, some, List, [], ◌∷◌,
  ◌++◌, codes, arith, length, length-append, All, not,
}
use evcollect.Events.{EventConfig, TargetConfig}
use evcollect.Util.ReturnCode.{ReturnCode, is_success}
use evcollect.Plugin.{SourcePlugin, OutputPlugin}
use evcollect.Plugin.Map.{Bindings, get_output_plugin, free_sources, destroy_plugin_map}
use evcollect.Plugin.Map.Once.{is_some, get_output_plugin-Agrees}
use evcollect.Service.{EventSourceBinding, EventBinding, TargetBinding, Service}
use evcollect.Service.Setup.{
  attach_sources, add_event, target_found, add_target, detach_sources, detach_events,
  detach_targets, destroy_service,
}
use evcollect.Service.Setup.Balance.{CountsOutput, IfFound, get_plugin-Looked}
use evcollect.Service.Setup.Balance.Added.{
  SourcesCount, OutputsCount, AllSources, attach_sources-ManySources,
}

All-last :
    {A : Type 0} (P : A → Type 0) (xs : List A) (x : A) → All P xs → P x → All P (xs ++ x ∷ [])
All-last P [] x h p = (p, tt)
All-last P (y ∷ xs) x (q, h) p = (q, All-last P xs x h p)

module _ {W : Type 0} (held : W → ℕ) where
  -- The attachments of the events.
  abbrev events_held : List (EventBinding W) → ℕ
  events_held [] = 0
  events_held (b ∷ bs) = length b.sources + events_held bs

  -- Every plugin counts what is attached to it, and that is what the events and the targets have.
  pub record Kept (s : Service W) (w : W) : Type 0 where
    pub sources : SourcesCount held s.plugin_map.source_plugins
    pub outputs : OutputsCount held s.plugin_map.output_plugins
    pub events : All (λ b. AllSources held b.sources) s.event_bindings
    pub targets : All (λ t. CountsOutput held t.plugin) s.targets
    pub count : held w ≡ events_held s.event_bindings + length s.targets

  abbrev pub KeptIf : (Service W × W) × ReturnCode → Type 0
  KeptIf p = is_success p.1 ≡ true → Kept p.0.0 p.0.1

  event-count :
      (bs : List (EventBinding W)) (b : EventBinding W) (n h : ℕ)
      → h ≡ events_held bs + n
      → length b.sources + h ≡ events_held (bs ++ b ∷ []) + n
  event-count [] b n h e = omega (arith, e)
  event-count (c ∷ bs) b n h e = omega (arith, e, event-count bs b n (events_held bs + n) refl)

  target-count :
      (ts : List (TargetBinding W)) (t : TargetBinding W) (m h : ℕ)
      → h ≡ m + length ts
      → suc h ≡ m + length (ts ++ t ∷ [])
  target-count ts t m h e = omega (arith, e, length-append ts (t ∷ []))

  -- An event that is added keeps the balance.
  pub add_event-Kept :
      (config : EventConfig) (now : ℕ) (s : Service W) (w : W)
      → Kept s w
      → KeptIf (add_event config now s w)
  unfolding add_event
  add_event-Kept config now s w k =
      let ((all, same), more) =
        attach_sources-ManySources held config.sources s.plugin_map w k.sources in
      elim (Bool-cases (is_success (attach_sources config.sources s.plugin_map w).1.1.0)) [
        | inl e ↦
            let (bound, count) = more e in
            rw e (λ _. record {
              sources = all;
              outputs = subst (OutputsCount held) (sym same) k.outputs;
              events = All-last _ s.event_bindings _ k.events bound;
              targets = k.targets;
              count = count ∙ event-count s.event_bindings _ (length s.targets) (held w) k.count;
            })
        | inr e ↦ rw e (λ f. absurd (ground arith))
      ]

  target_found-Kept :
      (config : TargetConfig) (s : Service W) (rc : ReturnCode) (found : Option (OutputPlugin W))
      (w : W)
      → is_success rc ≡ is_some found
      → IfFound held (CountsOutput held) found
      → Kept s w
      → KeptIf (target_found config s (rc, found) w)
  target_found-Kept config s rc none w e q k = λ f. absurd (ground arith)
  target_found-Kept config s rc (some plugin) w e q k =
      let counts = q.attaches config.properties w in
      elim (Bool-cases (is_success (plugin.attach config.properties w).1.0)) [
        | inl ok ↦ rw ok (λ _. record {
          sources = k.sources;
          outputs = k.outputs;
          events = k.events;
          targets = All-last _ s.targets _ k.targets q;
          count =
              counts
              ∙ rw ok (target-count s.targets _ (events_held s.event_bindings) (held w) k.count);
        })
        | inr f ↦ rw f (λ g. absurd (ground arith))
      ]

  pub add_target-Kept :
      (config : TargetConfig) (s : Service W) (w : W) → Kept s w → KeptIf (add_target config s w)
  unfolding add_target get_output_plugin
  add_target-Kept config s w k =
      let r = get_output_plugin config.plugin_name s.plugin_map w in
      let ((all, same), q) =
        get_plugin-Looked held (CountsOutput held) (λ p. p.init s.plugin_map.spool_dir)
          (λ p q. q.inits s.plugin_map.spool_dir) (codes "output plugin not found: ")
          config.plugin_name s.plugin_map.output_plugins w k.outputs in
      target_found-Kept config (record s { plugin_map = r.0 }) r.1.1.0 r.1.1.1 r.1.0
        (get_output_plugin-Agrees config.plugin_name s.plugin_map w) q
        (record {
          sources = k.sources;
          outputs = all;
          events = k.events;
          targets = k.targets;
          count = same ∙ k.count;
        })

  detach_sources-held :
      (ss : List (EventSourceBinding W)) (w : W) (n : ℕ)
      → AllSources held ss
      → held w ≡ length ss + n
      → held (detach_sources ss w) ≡ n
  unfolding detach_sources
  detach_sources-held [] w n h e = omega (arith, e)
  detach_sources-held (s ∷ ss) w n (q, h) e =
      detach_sources-held ss (s.plugin.detach s.userdata w) n h
        (q.detaches s.userdata w (length ss + n) (omega (arith, e)))

  detach_events-held :
      (bs : List (EventBinding W)) (w : W) (n : ℕ)
      → All (λ b. AllSources held b.sources) bs
      → held w ≡ events_held bs + n
      → held (detach_events bs w) ≡ n
  unfolding detach_events
  detach_events-held [] w n h e = omega (arith, e)
  detach_events-held (b ∷ bs) w n (q, h) e =
      detach_events-held bs (detach_sources b.sources w) n h
        (detach_sources-held b.sources w (events_held bs + n) q (omega (arith, e)))

  detach_targets-held :
      (ts : List (TargetBinding W)) (w : W)
      → All (λ t. CountsOutput held t.plugin) ts
      → held w ≡ length ts
      → held (detach_targets ts w) ≡ 0
  unfolding detach_targets
  detach_targets-held [] w h e = e
  detach_targets-held (t ∷ ts) w (q, h) e =
      detach_targets-held ts (t.plugin.detach t.userdata w) h
        (q.detaches t.userdata w (length ts) e)

  free_sources-held :
      (bs : Bindings (SourcePlugin W)) (w : W)
      → SourcesCount held bs
      → held (free_sources bs w) ≡ held w
  unfolding free_sources
  free_sources-held [] w h = refl
  free_sources-held ((k, b) ∷ bs) w (q, h) = elim (Bool-cases (not b.plugin_initialized)) [
    | inl e ↦ rw e (free_sources-held bs w h)
    | inr e ↦ rw e (free_sources-held bs (b.plugin.free w) h ∙ q.frees w)
  ]

  pub destroy_service-none : (s : Service W) (w : W) → Kept s w → held (destroy_service s w) ≡ 0
  unfolding destroy_service destroy_plugin_map
  destroy_service-none s w k =
      free_sources-held s.plugin_map.source_plugins
        (detach_targets s.targets (detach_events s.event_bindings w)) k.sources
      ∙ detach_targets-held s.targets (detach_events s.event_bindings w) k.targets
          (detach_events-held s.event_bindings w (length s.targets) k.events k.count)
