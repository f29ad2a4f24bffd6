-- ===== src/Daemon/Setup/Configured.antt =====
-- The service that `main` sets up is the one of the configuration.
use mathlib.Core.List.{map-append}
use mathlib.Core.Path.{subst}
use evcollect.Prelude.{
  ℕ, suc, ◌+◌, ◌≡◌, refl, sym, ap, ◌∙◌, inl, inr, true, false, Bool, Bool-cases, Option, none, some,
  List, [], ◌∷◌, ◌++◌, map, append-nil, append_assoc, Bytes, length, length-append, arith,
  if◌then◌else◌,
}
use evcollect.Events.{EventConfig, TargetConfig, ProcessConfig}
use evcollect.Util.ReturnCode.{ReturnCode, success, is_success}
use evcollect.Util.Chars.{is_shell_safe}
use evcollect.Plugin.{OutputPlugin}
use evcollect.Plugin.Map.{get_output_plugin}
use evcollect.Plugin.Map.Once.{is_some, get_output_plugin-Agrees}
use evcollect.Service.{EventBinding, TargetBinding, Service}
use evcollect.Service.Setup.{
  new_service, load_plugin, add_event, add_target, attach_sources, target_found,
}
use evcollect.Service.Queue.Order.{Queued}
use evcollect.Service.Run.Schedule.{IsQueued, add_event-Queued}
use evcollect.Daemon.Setup.{
  ServiceSystem, Progress, while_success, load_step, event_step, target_step, setup_service,
}
use evcollect.Daemon.Setup.FirstFailure.{
  AllSucceed, while_success-UpToFailure, while_success-failed,
}

-- The name and the interval of an event.
abbrev pub of_config : EventConfig → Bytes × ℕ
of_config c = (c.event_name, c.interval_micros)

abbrev pub of_binding : {W : Type 0} → EventBinding W → Bytes × ℕ
of_binding b = (b.event_name, b.interval_micros)

pub if-either {ℓ κ} :
    {A : Type ℓ} (P : A → Type κ) (x y : A) (b : Bool) → P x → P y → P (if b then x else y)
if-either P x y true p q = p
if-either P x y false p q = q

pub option-either {ℓ κ} :
    {A : Type 0} {B : Type ℓ} (P : B → Type κ) (x : B) (f : A → B) (o : Option A)
    → P x
    → ((a : A) → P (f a))
    → P (elim o [ none ↦ x | some a ↦ f a ])
option-either P x f none p q = p
option-either P x f (some a) p q = q a

module _ {W : Type 0} (sys : ServiceSystem W) where
  -- What a step leaves of the events, the targets and the queue.
  abbrev SameEvents : Service W → Progress W → Type 0
  SameEvents s p = (p.0.0.event_bindings ≡ s.event_bindings) × (p.0.0.queue ≡ s.queue)

  abbrev Same : Service W → Progress W → Type 0
  Same s p = SameEvents s p × (p.0.0.targets ≡ s.targets)

  load_step-Same : (plugin : Bytes) (s : Service W) (w : W) → Same s (load_step sys plugin s w)
  unfolding load_plugin
  load_step-Same plugin s w =
      if-either (Same s) _ _ (is_shell_safe plugin) ((refl, refl), refl)
        (option-either (Same s) _ _ (sys.plugin_name_of plugin) ((refl, refl), refl)
          λ name. ((refl, refl), refl))

  -- A target more, where the step succeeds.
  abbrev OneTarget : Service W → Progress W → Type 0
  OneTarget s p =
      SameEvents s p × (is_success p.1 ≡ true → length p.0.0.targets ≡ suc (length s.targets))

  one_more :
      (ts : List (TargetBinding W)) (t : TargetBinding W) → length (ts ++ t ∷ []) ≡ suc (length ts)
  one_more ts t = omega (arith, length-append ts (t ∷ []))

  target_found-OneTarget :
      (config : TargetConfig) (s : Service W) (rc : ReturnCode) (found : Option (OutputPlugin W))
      (w : W)
      → is_success rc ≡ is_some found
      → OneTarget s (target_found config s (rc, found) w)
  target_found-OneTarget config s rc none w h = ((refl, refl), λ e. absurd (ground arith))
  target_found-OneTarget config s rc (some plugin) w h =
      elim (Bool-cases (is_success (plugin.attach config.properties w).1.0)) [
        | inl e ↦ rw e ((refl, refl), λ _. one_more s.targets _)
        | inr e ↦ rw e ((refl, refl), λ f. absurd (ground arith))
      ]

  target_step-OneTarget :
      (config : TargetConfig) (s : Service W) (w : W) → OneTarget s (target_step sys config s w)
  unfolding add_target
  target_step-OneTarget config s w =
      let r = get_output_plugin config.plugin_name s.plugin_map w in
      target_found-OneTarget config (record s { plugin_map = r.0 }) r.1.1.0 r.1.1.1 r.1.0
        (get_output_plugin-Agrees config.plugin_name s.plugin_map w)

  -- An event more, where the step succeeds, and none where it fails.
  abbrev OneEvent : EventConfig → Service W → Progress W → Type 0
  OneEvent c s p =
      (p.0.0.targets ≡ s.targets)
      × (is_success p.1 ≡ true
          → map of_binding p.0.0.event_bindings
            ≡ map of_binding s.event_bindings ++ of_config c ∷ [])

  event_step-OneEvent :
      (config : EventConfig) (s : Service W) (w : W) → OneEvent config s (event_step sys config s w)
  unfolding add_event
  event_step-OneEvent config s w =
      elim (Bool-cases (is_success (attach_sources config.sources s.plugin_map w).1.1.0)) [
        | inl e ↦ rw e (refl, λ _. map-append of_binding s.event_bindings _)
        | inr e ↦ rw e (refl, λ f. absurd (ground arith))
      ]

  -- What every step keeps, a loop keeps.
  while_success-keeps :
      {A : Type 0} (step : A → Service W → W → Progress W) (P : Service W → Type 0)
      → ((x : A) (s : Service W) (w : W) → P s → P (step x s w).0.0)
      → (xs : List A) (p : Progress W) → P p.0.0
      → P (while_success step xs p).0.0
  unfolding while_success
  while_success-keeps step P keep [] p h = h
  while_success-keeps step P keep (x ∷ xs) ((s, w), rc) h =
      if-success rc (while_success-keeps step P keep xs (step x s w) (keep x s w h))
    where
      if-success :
          (rc : ReturnCode)
          → P (while_success step xs (step x s w)).0.0
          → P (while_success step (x ∷ xs) ((s, w), rc)).0.0
      if-success rc k = elim (Bool-cases (is_success rc)) [ inl e ↦ rw e k | inr e ↦ rw e h ]

  -- A loop that succeeds took every step.
  pub while_success-all :
      {A : Type 0} (step : A → Service W → W → Progress W) (xs : List A) (p : Progress W)
      → is_success (while_success step xs p).1 ≡ true
      → (is_success p.1 ≡ true) × AllSucceed step xs p.0 (while_success step xs p).0
  while_success-all step xs ((s, w), rc) e = elim (Bool-cases (is_success rc)) [
    | inl ok ↦ elim (while_success-UpToFailure step xs s w rc ok) [
      | inl (_, all) ↦ (ok, all)
      | inr (f, _) ↦ absurd (ground arith)
    ]
    | inr f ↦
        let g = ap (λ (r : Progress W). is_success r.1) (while_success-failed step xs s w rc f) in
        absurd (ground arith)
  ]

  all-events :
      (xs : List EventConfig) (p q : Service W × W)
      → AllSucceed (event_step sys) xs p q
      → (q.0.targets ≡ p.0.targets)
        × (map of_binding q.0.event_bindings
            ≡ map of_binding p.0.event_bindings ++ map of_config xs)
  all-events _ p _ (AllSucceed.done _) = (refl, sym (append-nil _))
  all-events _ _ q (AllSucceed.more x xs s w _ ok all) =
      let (targets, events) = all-events xs (event_step sys x s w).0 q all in
      let (same, one) = event_step-OneEvent x s w in
      (
        targets ∙ same,
        events
            ∙ ap (λ bs. bs ++ map of_config xs) (one ok)
            ∙ append_assoc (map of_binding s.event_bindings) (of_config x ∷ []) (map of_config xs),
      )

  all-targets :
      (xs : List TargetConfig) (p q : Service W × W)
      → AllSucceed (target_step sys) xs p q
      → (q.0.event_bindings ≡ p.0.event_bindings)
        × (length q.0.targets ≡ length p.0.targets + length xs)
  all-targets _ p _ (AllSucceed.done _) = (refl, omega arith)
  all-targets _ _ q (AllSucceed.more x xs s w _ ok all) =
      let (events, targets) = all-targets xs (target_step sys x s w).0 q all in
      let (same, one) = target_step-OneTarget x s w in
      (events ∙ same.0, omega (arith, targets, one ok))

  all-plugins :
      (xs : List Bytes) (p q : Service W × W)
      → AllSucceed (load_step sys) xs p q
      → (q.0.event_bindings ≡ p.0.event_bindings) × (q.0.targets ≡ p.0.targets)
  all-plugins _ p _ (AllSucceed.done _) = (refl, refl)
  all-plugins _ _ q (AllSucceed.more x xs s w _ ok all) =
      let (events, targets) = all-plugins xs (load_step sys x s w).0 q all in
      let same = load_step-Same x s w in (events ∙ same.0.0, targets ∙ same.1)

  module _ (conf : ProcessConfig) (w : W) where
    abbrev plugged : Progress W
    plugged =
        while_success (load_step sys) conf.load_plugins
          ((new_service sys.logfile_plugin conf.spool_dir conf.plugin_dir, w), success)

    abbrev with_events : Progress W
    with_events = while_success (event_step sys) conf.event_bindings plugged

    abbrev with_targets : Progress W
    with_targets = while_success (target_step sys) conf.target_bindings with_events

    SameEvents-Queued :
        (s : Service W) (p : Progress W) → SameEvents s p → IsQueued s → IsQueued p.0.0
    SameEvents-Queued s p (e, f) h =
        subst (λ bs. Queued bs p.0.0.queue) (sym e) (subst (Queued s.event_bindings) (sym f) h)

    setup_service-Queued : IsQueued with_targets.0.0
    unfolding new_service
    setup_service-Queued =
        while_success-keeps (target_step sys) IsQueued
          (λ c s w' h.
            SameEvents-Queued s (target_step sys c s w') (target_step-OneTarget c s w').0 h)
          conf.target_bindings with_events
          (while_success-keeps (event_step sys) IsQueued
            (λ c s w' h. add_event-Queued c (sys.tick_read w') s w' h) conf.event_bindings plugged
            (while_success-keeps (load_step sys) IsQueued
              (λ c s w' h. SameEvents-Queued s (load_step sys c s w') (load_step-Same c s w').0 h)
              conf.load_plugins _ (record { sorted = tt; once = λ i. ground arith })))

    -- The service that `main` sets up has its queue in order, with each of its events once, whether the set-up
    -- succeeds or not. If it succeeds, its events are those of the configuration, in their order, with their names
    -- and intervals, and it has as many targets as the configuration.
    pub setup_service-Configured :
        let r = setup_service sys conf w in
        IsQueued r.0.0
        × (is_success r.1 ≡ true
            → (map of_binding r.0.0.event_bindings ≡ map of_config conf.event_bindings)
              × (length r.0.0.targets ≡ length conf.target_bindings))
    unfolding setup_service new_service
    setup_service-Configured = (
      setup_service-Queued,
      λ e.
          let (e1, all_t) =
            while_success-all (target_step sys) conf.target_bindings with_events e in
          let (e2, all_e) = while_success-all (event_step sys) conf.event_bindings plugged e1 in
          let (_, all_p) = while_success-all (load_step sys) conf.load_plugins _ e2 in
          let t = all-targets conf.target_bindings with_events.0 with_targets.0 all_t in
          let v = all-events conf.event_bindings plugged.0 with_events.0 all_e in
          let q = all-plugins conf.load_plugins _ plugged.0 all_p in
          (
            ap (map of_binding) t.0
                ∙ v.1
                ∙ ap (λ bs. map of_binding bs ++ map of_config conf.event_bindings) q.0,
            omega (arith, t.1, ap length v.0, ap length q.1),
          ),
    )
