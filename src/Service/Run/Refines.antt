-- ===== src/Service/Run/Refines.antt =====
-- The service as a schedule: a set of events with their times, of which one that is due first runs. The queue is
-- forgotten.
use mathlib.Core.Path.{subst}
use evcollect.Prelude.{
  some-none, ℕ, ◌≤◌, ◌<◌, ◌≡◌, refl, sym, ap, ◌∙◌, ◌⊎◌, inl, inr, Bool, true, false, Option, none,
  some, List, [], ◌∷◌, ◌++◌, arith, count, length, get_elem?, get_elem?-lt, set_elem, ltb,
  if◌then◌else◌,
}
use evcollect.Util.ReturnCode.{ReturnCode}
use evcollect.Service.{EventBinding, TargetBinding, Service}
use evcollect.Service.Queue.{next_tick_of}
use evcollect.Service.Queue.Order.{Queued, requeue-Queued, get_elem?-inside}
use evcollect.Service.Process.{process_event}
use evcollect.Service.Run.{
  Turn, slept, rescheduled, Step, stopped, went_on, out_of_fuel, requeue, run_job, run_step, run,
}
use evcollect.Service.Run.Place.{All-at, next_tick_of-some}
use evcollect.Service.Run.Schedule.{IsQueued, woken_or_job, first, run_step-first}

-- The events, each with the time when it is due, and the world.
abbrev pub Schedule : Type 0 → Type 0
Schedule W = List (EventBinding W) × W

module _ {W : Type 0} (fuel : ℕ) (targets : List (TargetBinding W)) where
  -- What may happen in a turn. `too_early`: no event is due. `runs`: of those that are due, one runs that is due
  -- first; it alone is set anew, and the world is as its processing leaves it.
  pub data OneTurn (turn : Turn) : Schedule W → Schedule W → Type 0 where
    too_early :
        (events : List (EventBinding W)) (w : W) (i : ℕ) (job : EventBinding W)
        → get_elem? events i ≡ some job
        → (slept turn job).0 ≡ false
        → ((j : ℕ) (other : EventBinding W)
            → get_elem? events j ≡ some other
            → (job.next_tick ≤ other.next_tick) × ((slept turn job).1 < other.next_tick))
        → OneTurn turn (events, w) (events, w)
    runs :
        (events : List (EventBinding W)) (w : W) (i : ℕ) (job : EventBinding W) (r : W × ReturnCode)
        → get_elem? events i ≡ some job
        → ((j : ℕ) (other : EventBinding W)
            → get_elem? events j ≡ some other
            → job.next_tick ≤ other.next_tick)
        → (slept turn job).0 ≡ false
        → job.next_tick ≤ (slept turn job).1
        → process_event fuel targets job turn.wall w ≡ some r
        → OneTurn turn
            (events, w)
            (
              set_elem i
                  (record job {
                    next_tick = rescheduled job.interval_micros job.next_tick turn.finished;
                  })
                  events,
              r.0,
            )

  pub data AllTurns : List Turn → Schedule W → Schedule W → Type 0 where
    no_turn : {a : Schedule W} → AllTurns [] a a
    a_turn :
        {t : Turn} {ts : List Turn} {a b c : Schedule W}
        → OneTurn t a b
        → AllTurns ts b c
        → AllTurns (t ∷ ts) a c

  -- `select` comes back for the wakeup pipe, from the sleep before an event that is due first.
  abbrev Woken : Turn → List (EventBinding W) → Type 0
  Woken turn events =
      (i : ℕ) × (job : EventBinding W) × (get_elem? events i ≡ some job)
      × ((j : ℕ) (other : EventBinding W)
          → get_elem? events j ≡ some other
          → job.next_tick ≤ other.next_tick)
      × ((slept turn job).0 ≡ true)

  -- The service goes on after all turns. It stops in a turn that is woken, or where there are no events.
  abbrev pub Refined : List Turn → Schedule W → Step W → Type 0
  Refined turns a r = elim r [
    | went_on s' w' ↦ AllTurns turns a (s'.event_bindings, w')
    | stopped s' w' ↦
        (before : List Turn) × (turn : Turn) × (rest : List Turn) × (turns ≡ before ++ turn ∷ rest)
        × AllTurns before a (s'.event_bindings, w')
        × (Woken turn s'.event_bindings ⊎ (s'.event_bindings ≡ []))
    | out_of_fuel ↦ Unit
  ]

  abbrev StepRefined : Turn → Service W → W → Step W → Type 0
  StepRefined turn s w r = elim r [
    | went_on s' w' ↦
        OneTurn turn (s.event_bindings, w) (s'.event_bindings, w')
        × IsQueued s'
        × (s'.targets ≡ targets)
    | stopped s' w' ↦ (s' ≡ s) × (w' ≡ w) × (Woken turn s.event_bindings ⊎ (s.event_bindings ≡ []))
    | out_of_fuel ↦ Unit
  ]

  module _ (turn : Turn) (s : Service W) (w : W) (h : IsQueued s) (same : s.targets ≡ targets) where
    module _ (i : ℕ) (q : List ℕ) (job : EventBinding W) (eq : s.queue ≡ i ∷ q)
        (ej : get_elem? s.event_bindings i ≡ some job) where
      queued : Queued s.event_bindings (i ∷ q)
      queued = subst (Queued s.event_bindings) eq h

      is_least :
          (j : ℕ) (other : EventBinding W)
          → get_elem? s.event_bindings j ≡ some other
          → job.next_tick ≤ other.next_tick
      is_least j other e =
          let ticks = next_tick_of s.event_bindings in
          let inside = get_elem?-inside j s.event_bindings other e in
          let there : 0 < count j (i ∷ q) = ground (arith, queued.once j, inside) in
          let le : ticks i ≤ ticks j =
            All-at (λ k. ticks i ≤ ticks k) j (i ∷ q) (omega arith, queued.sorted.0) there in
          omega (
            arith,
            le,
            next_tick_of-some s.event_bindings i job ej,
            next_tick_of-some s.event_bindings j other e,
          )

      choice-StepRefined :
          (late : Bool) (outcome : Option (W × ReturnCode))
          → (slept turn job).0 ≡ false
          → ltb (slept turn job).1 job.next_tick ≡ late
          → process_event fuel s.targets job turn.wall w ≡ outcome
          → StepRefined turn s w (
              if late then went_on s w else (elim outcome [
                | none ↦ out_of_fuel
                | some r ↦ went_on (requeue i q job turn.finished s) r.0
              ]))
      choice-StepRefined true outcome ew el eo =
          let early : (slept turn job).1 < job.next_tick = ground arith in
          (
            OneTurn.too_early s.event_bindings w i job ej ew
                (λ j other e. (is_least j other e, omega (arith, early, is_least j other e))),
            h,
            same,
          )
      choice-StepRefined false none ew el eo = tt
      choice-StepRefined false (some r) ew el eo =
          let due : job.next_tick ≤ (slept turn job).1 = ground arith in
          (
            OneTurn.runs s.event_bindings w i job r ej is_least ew due
                (ap (λ ts. process_event fuel ts job turn.wall w) (sym same) ∙ eo),
            requeue-Queued s.event_bindings i q
                (record job {
                  next_tick = rescheduled job.interval_micros job.next_tick turn.finished;
                })
                queued,
            same,
          )

    either-StepRefined :
        (b : Bool) (r : Step W)
        → (b ≡ true → Woken turn s.event_bindings)
        → (b ≡ false → StepRefined turn s w r)
        → StepRefined turn s w (if b then stopped s w else r)
    either-StepRefined true r e k = (refl, refl, inl (e refl))
    either-StepRefined false r e k = k refl

    no_event :
        (bs : List (EventBinding W)) → s.event_bindings ≡ bs → s.queue ≡ [] → s.event_bindings ≡ []
    no_event [] e eq = e
    no_event (b ∷ bs) e eq = absurd (ground (arith, h.once 0, ap (count 0) eq, ap length e))

    job-StepRefined :
        (i : ℕ) (q : List ℕ) (o : Option (EventBinding W))
        → s.queue ≡ i ∷ q
        → get_elem? s.event_bindings i ≡ o
        → StepRefined turn s w (woken_or_job fuel turn s w h i q o)
    job-StepRefined i q none eq e =
        let inside : i < length s.event_bindings = ground (arith, h.once i, ap (count i) eq) in
        let (job, ej) = get_elem?-lt s.event_bindings i inside in absurd (some-none job _ ej e)
    job-StepRefined i q (some job) eq e =
        either-StepRefined (slept turn job).0 (run_job fuel turn i q job s w)
          (λ woken. (i, job, e, is_least i q job eq e, woken))
          (λ undisturbed.
            choice-StepRefined i q job eq e (ltb (slept turn job).1 job.next_tick)
              (process_event fuel s.targets job turn.wall w) undisturbed refl refl)

    first-StepRefined :
        (queue : List ℕ) → s.queue ≡ queue → StepRefined turn s w (first fuel turn s w h queue)
    first-StepRefined [] eq = (refl, refl, inr (no_event s.event_bindings refl eq))
    first-StepRefined (i ∷ q) eq = job-StepRefined i q (get_elem? s.event_bindings i) eq refl

    run_step-StepRefined : StepRefined turn s w (run_step fuel turn s w)
    run_step-StepRefined = rw (run_step-first fuel turn s w h) (first-StepRefined s.queue refl)

  abbrev goes_on : List Turn → Step W → Step W
  goes_on ts r = elim r [
    | stopped s' w' ↦ stopped s' w'
    | out_of_fuel ↦ out_of_fuel
    | went_on s' w' ↦ run fuel ts s' w'
  ]

  a_turn-Refined :
      (t : Turn) (ts : List Turn) (a b : Schedule W) (r : Step W)
      → OneTurn t a b
      → Refined ts b r
      → Refined (t ∷ ts) a r
  a_turn-Refined t ts a b (went_on s' w') o k = AllTurns.a_turn o k
  a_turn-Refined t ts a b out_of_fuel o k = tt
  a_turn-Refined t ts a b (stopped s' w') o (before, turn, rest, e, k, why) =
      (t ∷ before, turn, rest, ap (λ turns. t ∷ turns) e, AllTurns.a_turn o k, why)

  then-Refined :
      (t : Turn) (ts : List Turn) (s : Service W) (w : W) (r : Step W)
      → StepRefined t s w r
      → ((s' : Service W) (w' : W)
          → IsQueued s'
          → s'.targets ≡ targets
          → Refined ts (s'.event_bindings, w') (run fuel ts s' w'))
      → Refined (t ∷ ts) (s.event_bindings, w) (goes_on ts r)
  then-Refined t ts s w (stopped s' w') (es, ew, why) more =
      subst (λ (v : Service W). Refined (t ∷ ts) (s.event_bindings, w) (stopped v w')) (sym es)
        (subst (λ v. Refined (t ∷ ts) (s.event_bindings, w) (stopped s v)) (sym ew)
          ([], t, ts, refl, AllTurns.no_turn, why))
  then-Refined t ts s w out_of_fuel k more = tt
  then-Refined t ts s w (went_on s' w') (o, h', same') more =
      a_turn-Refined t ts (s.event_bindings, w) (s'.event_bindings, w') (run fuel ts s' w') o
        (more s' w' h' same')

  -- `run` does what a schedule without a queue allows: in each turn an event runs that is due first of all, and no
  -- other is touched, or nothing happens, as none is due when `select` comes back. It ends only in a turn that is
  -- woken, or where there are no events.
  pub run-Refined :
      (turns : List Turn) (s : Service W) (w : W)
      → IsQueued s
      → s.targets ≡ targets
      → Refined turns (s.event_bindings, w) (run fuel turns s w)
  unfolding run
  run-Refined [] s w h same = AllTurns.no_turn
  run-Refined (t ∷ ts) s w h same =
      then-Refined t ts s w (run_step fuel t s w) (run_step-StepRefined t s w h same)
        λ s' w' h' same'. run-Refined ts s' w' h' same'
