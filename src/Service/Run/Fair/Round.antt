-- ===== src/Service/Run/Fair/Round.antt =====
-- A round of the loop while an event waits that is due.
use mathlib.Core.Path.{subst}
use evcollect.Prelude.{
  ℕ, suc, ◌≤◌, ◌<◌, ◌≡◌, ◌≢◌, refl, sym, ap, ◌∙◌, false, Option, none, some, List, [], ◌∷◌, arith,
  All, count, get_elem?, get_elem?-lt, set_elem, ltb, if◌then◌else◌,
}
use evcollect.Util.ReturnCode.{ReturnCode}
use evcollect.Service.{EventBinding, TargetBinding, Service}
use evcollect.Service.Queue.{next_tick_of}
use evcollect.Service.Queue.Order.{
  Queued, requeue-Queued, others-tick, Sorted-cong, get_elem?-other, get_elem?-set_elem,
  get_elem?-inside,
}
use evcollect.Service.Process.{process_event}
use evcollect.Service.Run.{
  Turn, slept, sleep_time, rescheduled, Step, stopped, went_on, out_of_fuel, requeue, run_job,
  run_step,
}
use evcollect.Service.Run.Place.{
  position, All-at, position-queue_insert, All-get, All-set_elem, next_tick_of-some,
  finished-rescheduled,
}

-- A round in which `select`, whatever time it gets, comes back unwoken, at a time when the event is due.
pub record DueBy (tick : ℕ) (turn : Turn) : Type 0 where
  pub undisturbed : (timeout : ℕ × ℕ) → (turn.select timeout).0 ≡ false
  pub awake : (timeout : ℕ × ℕ) → tick ≤ (turn.select timeout).1
  pub finished : tick ≤ turn.finished

module _ {W : Type 0} (fuel : ℕ) where
  -- Whatever the clocks and the world are, the event is processed, and its plugins come to an end.
  abbrev pub Answers : List (TargetBinding W) → EventBinding W → Type 0
  Answers targets b =
      (tick wall : ℕ) (w : W)
      → (r : W × ReturnCode) × (process_event fuel targets (record b { next_tick = tick }) wall w
          ≡ some r)

  module _ (turn : Turn) (s : Service W) (w : W) where
    abbrev pub on_binding : ℕ → List ℕ → Option (EventBinding W) → Step W
    on_binding j q o = elim o [
      | none ↦ stopped s w
      | some job ↦ if (slept turn job).0 then stopped s w else run_job fuel turn j q job s w
    ]

    abbrev pub on_queue : List ℕ → Step W
    on_queue queue = elim queue [
      | [] ↦ stopped s w
      | j ∷ q ↦ on_binding j q (get_elem? s.event_bindings j)
    ]

    pub run_step-due :
        (j : ℕ) (q : List ℕ) (job : EventBinding W) (r : W × ReturnCode)
        → s.queue ≡ j ∷ q
        → get_elem? s.event_bindings j ≡ some job
        → DueBy job.next_tick turn
        → process_event fuel s.targets job turn.wall w ≡ some r
        → run_step fuel turn s w ≡ went_on (requeue j q job turn.finished s) r.0
    unfolding run_step
    run_step-due j q job r eq ej due ep =
        ap on_queue eq
        ∙ ap (on_binding j q) ej
        ∙ ap (λ b. if b then stopped s w else run_job fuel turn j q job s w)
            (due.undisturbed (sleep_time job.next_tick turn.now))
        ∙ ap
            (λ b. if b then went_on s w else (elim (process_event fuel s.targets job turn.wall w) [
              | none ↦ out_of_fuel
              | some r ↦ went_on (requeue j q job turn.finished s) r.0
            ]))
            (let late : ltb (slept turn job).1 job.next_tick ≡ false =
                ground (arith, due.awake (sleep_time job.next_tick turn.now)) in
              late)
        ∙ ap
            (λ (o : Option (W × ReturnCode)). elim o [
              | none ↦ out_of_fuel
              | some r ↦ went_on (requeue j q job turn.finished s) r.0
            ])
            ep

  -- The event `i`, with the binding `b`, waits behind `n` others.
  pub record Waits (targets : List (TargetBinding W)) (i n : ℕ) (b : EventBinding W) (s : Service W)
      : Type 0 where
    pub queued : Queued s.event_bindings s.queue
    pub answers : All (Answers targets) s.event_bindings
    pub same_targets : s.targets ≡ targets
    pub binding : get_elem? s.event_bindings i ≡ some b
    pub place : position i s.queue ≡ n

  module _ (targets : List (TargetBinding W)) (turn : Turn) (s : Service W) (w : W) (i n : ℕ)
      (b : EventBinding W) (h : Waits targets i (suc n) b s) (due : DueBy b.next_tick turn) where
    module _ (j : ℕ) (q : List ℕ) (eq : s.queue ≡ j ∷ q) where
      front : Queued s.event_bindings (j ∷ q)
      front = subst (Queued s.event_bindings) eq h.queued

      behind : position i (j ∷ q) ≡ suc n
      behind = ap (position i) (sym eq) ∙ h.place

      other : j ≢ i
      unfolding position
      other e = ground (arith, behind)

      in_rest : 0 < count i q
      in_rest = ground (arith, front.once i, get_elem?-inside i s.event_bindings b h.binding, other)

      place_in_rest : position i q ≡ n
      unfolding position
      place_in_rest = ground (arith, behind, other)

      first_job : (job : EventBinding W) × (get_elem? s.event_bindings j ≡ some job)
      first_job = get_elem?-lt s.event_bindings j (ground (arith, front.once j))

      abbrev first_tick : ℕ
      first_tick = next_tick_of s.event_bindings j

      first_tick-le : first_tick ≤ b.next_tick
      first_tick-le =
          subst (λ t. first_tick ≤ t) (next_tick_of-some s.event_bindings i b h.binding)
            (All-at (λ m. first_tick ≤ next_tick_of s.event_bindings m) i q front.sorted.0 in_rest)

      module _ (job : EventBinding W) (ej : get_elem? s.event_bindings j ≡ some job) where
        abbrev job' : EventBinding W
        job' = record job {
          next_tick = rescheduled job.interval_micros job.next_tick turn.finished;
        }

        job_due : DueBy job.next_tick turn
        job_due =
            let le : job.next_tick ≤ b.next_tick =
              subst (λ t. t ≤ b.next_tick) (next_tick_of-some s.event_bindings j job ej)
                first_tick-le in
            record {
              undisturbed = due.undisturbed;
              awake = λ timeout. omega (arith, due.awake timeout);
              finished = omega (arith, due.finished);
            }

        abbrev ticks : ℕ → ℕ
        ticks = next_tick_of (set_elem j job' s.event_bindings)

        rescheduled-le : ticks i ≤ ticks j
        rescheduled-le = omega (
          arith,
          next_tick_of-some (set_elem j job' s.event_bindings) i b
              (get_elem?-other j i job' s.event_bindings other ∙ h.binding),
          next_tick_of-some (set_elem j job' s.event_bindings) j job' (
              get_elem?-set_elem j job' s.event_bindings
                (get_elem?-inside j s.event_bindings job ej)),
          finished-rescheduled job.interval_micros job.next_tick turn.finished,
          due.finished,
        )

        requeue-Waits : Waits targets i n b (requeue j q job turn.finished s)
        requeue-Waits = record {
          queued = requeue-Queued s.event_bindings j q job' front;
          answers =
              All-set_elem (Answers targets) j job' s.event_bindings h.answers
                (λ tick. All-get (Answers targets) j s.event_bindings job h.answers ej tick);
          same_targets = h.same_targets;
          binding = get_elem?-other j i job' s.event_bindings other ∙ h.binding;
          place =
              position-queue_insert ticks i j q rescheduled-le in_rest (
                Sorted-cong (next_tick_of s.event_bindings) ticks q
                  (others-tick s.event_bindings j q job' front) front.sorted.1)
              ∙ place_in_rest;
        }

        after_first :
            (s' : Service W) × (w' : W) × (run_step fuel turn s w ≡ went_on s' w')
            × Waits targets i n b s'
        after_first =
            let (r, e) =
              All-get (Answers targets) j s.event_bindings job h.answers ej job.next_tick turn.wall
                w in
            (
              requeue j q job turn.finished s,
              r.0,
              run_step-due turn s w j q job r eq ej job_due
                  (ap (λ ts. process_event fuel ts job turn.wall w) h.same_targets ∙ e),
              requeue-Waits,
            )

    on_queue-Waits :
        (queue : List ℕ)
        → s.queue ≡ queue
        → (s' : Service W) × (w' : W) × (run_step fuel turn s w ≡ went_on s' w')
          × Waits targets i n b s'
    unfolding position
    on_queue-Waits [] eq =
        let nowhere : 0 ≡ suc n = ap (position i) (sym eq) ∙ h.place in absurd (omega arith)
    on_queue-Waits (j ∷ q) eq = let (job, ej) = first_job j q eq in after_first j q eq job ej

    pub round-Waits :
        (s' : Service W) × (w' : W) × (run_step fuel turn s w ≡ went_on s' w')
        × Waits targets i n b s'
    round-Waits = on_queue-Waits s.queue refl
