-- ===== src/Service/Run/Schedule.antt =====
-- When the service runs an event, and when it is due again.
use mathlib.Core.Path.{subst}
use evcollect.Prelude.{
  ℕ, ◌+◌, ◌^◌, ◌≤◌, ◌<◌, ◌≡◌, refl, sym, ap, ◌⊎◌, inl, inr, Bool, true, false, Bool-cases, Option,
  none, some, List, [], ◌∷◌, arith, All, get_elem?, set_elem, ltb, wrap64-small, if◌then◌else◌,
}
use evcollect.Service.{EventBinding, Service}
use evcollect.Service.Queue.{next_tick_of}
use evcollect.Service.Queue.Order.{Queued, requeue-Queued, insert-Queued}
use evcollect.Service.Process.{process_event}
use evcollect.Service.Setup.{add_event, attach_sources}
use evcollect.Service.Run.{
  Turn, slept, rescheduled, Step, stopped, went_on, out_of_fuel, requeue, run_job, run_step, run,
}
use evcollect.Events.{EventConfig}
use evcollect.Util.ReturnCode.{ReturnCode, is_success}

-- What a round leaves. `waited`: the first event is not due yet after `select`, and nothing happens. `ran`: it is
-- due, no other event is due before it, it is processed, and it is the only one whose next tick changes.
pub data Went {W : Type 0} (fuel : ℕ) (turn : Turn) (s : Service W) (w : W) (s' : Service W)
    (w' : W) : Type 0 where
  waited :
      (i : ℕ) (q : List ℕ) (job : EventBinding W)
      → s.queue ≡ i ∷ q
      → get_elem? s.event_bindings i ≡ some job
      → (slept turn job).0 ≡ false
      → (slept turn job).1 < job.next_tick
      → s' ≡ s
      → w' ≡ w
      → Went fuel turn s w s' w'
  ran :
      (i : ℕ) (job : EventBinding W) (r : W × ReturnCode)
      → get_elem? s.event_bindings i ≡ some job
      → (slept turn job).0 ≡ false
      → job.next_tick ≤ (slept turn job).1
      → All (λ j. job.next_tick ≤ next_tick_of s.event_bindings j) s.queue
      → process_event fuel s.targets job turn.wall w ≡ some r
      → s'.event_bindings
        ≡ set_elem i
            (record job { next_tick = rescheduled job.interval_micros job.next_tick turn.finished })
            s.event_bindings
      → w' ≡ r.0
      → Went fuel turn s w s' w'

abbrev pub IsQueued : {W : Type 0} → Service W → Type 0
IsQueued s = Queued s.event_bindings s.queue

-- The queue is kept, and the round went as it should, where the service goes on; where it stops, it and the world
-- are as they were. It is out of fuel only in processing an event that is due.
abbrev pub Kept : {W : Type 0} → ℕ → Turn → Service W → W → Step W → Type 0
Kept {W} fuel turn s w r = elim r [
  | stopped s' w' ↦ (s' ≡ s) × (w' ≡ w)
  | went_on s' w' ↦ IsQueued s' × Went fuel turn s w s' w'
  | out_of_fuel ↦
      (i : ℕ) × (job : EventBinding W) × (get_elem? s.event_bindings i ≡ some job)
      × (job.next_tick ≤ (slept turn job).1)
      × (process_event fuel s.targets job turn.wall w ≡ none)
]

module _ {W : Type 0} (fuel : ℕ) (turn : Turn) (s : Service W) (w : W) (h : IsQueued s) where
  module _ (i : ℕ) (q : List ℕ) (job : EventBinding W) (eq : s.queue ≡ i ∷ q)
      (ej : get_elem? s.event_bindings i ≡ some job) where
    abbrev ticks : ℕ → ℕ
    ticks = next_tick_of s.event_bindings

    tick_of_job : ticks i ≡ job.next_tick
    tick_of_job =
        ap (λ (o : Option (EventBinding W)). elim o [ none ↦ 0 | some b ↦ b.next_tick ]) ej

    queued : Queued s.event_bindings (i ∷ q)
    queued = subst (Queued s.event_bindings) eq h

    first_is_least : All (λ j. job.next_tick ≤ ticks j) s.queue
    first_is_least = subst (All (λ j. job.next_tick ≤ ticks j)) (sym eq) (
      omega (arith, tick_of_job),
      subst (λ t. All (λ j. t ≤ ticks j) q) tick_of_job queued.sorted.0,
    )

    module _ (undisturbed : (slept turn job).0 ≡ false) where
      choice-Kept :
          (late : Bool) (outcome : Option (W × ReturnCode))
          → ltb (slept turn job).1 job.next_tick ≡ late
          → process_event fuel s.targets job turn.wall w ≡ outcome
          → Kept fuel turn s w (
              if late then went_on s w else (elim outcome [
                | none ↦ out_of_fuel
                | some r ↦ went_on (requeue i q job turn.finished s) r.0
              ]))
      choice-Kept true outcome el eo =
          let early : (slept turn job).1 < job.next_tick = ground arith in
          (h, Went.waited i q job eq ej undisturbed early refl refl)
      choice-Kept false none el eo =
          let due : job.next_tick ≤ (slept turn job).1 = ground arith in (i, job, ej, due, eo)
      choice-Kept false (some r) el eo =
          let due : job.next_tick ≤ (slept turn job).1 = ground arith in
          (
            requeue-Queued s.event_bindings i q
                (record job {
                  next_tick = rescheduled job.interval_micros job.next_tick turn.finished;
                })
                queued,
            Went.ran i job r ej undisturbed due first_is_least eo refl refl,
          )

      job-Kept : Kept fuel turn s w (run_job fuel turn i q job s w)
      job-Kept =
          choice-Kept (ltb (slept turn job).1 job.next_tick)
            (process_event fuel s.targets job turn.wall w) refl refl

  abbrev pub woken_or_job : ℕ → List ℕ → Option (EventBinding W) → Step W
  woken_or_job i q o = elim o [
    | none ↦ stopped s w
    | some job ↦ if (slept turn job).0 then stopped s w else run_job fuel turn i q job s w
  ]

  abbrev pub first : List ℕ → Step W
  first queue = elim queue [
    | [] ↦ stopped s w
    | i ∷ q ↦ woken_or_job i q (get_elem? s.event_bindings i)
  ]

  pub run_step-first : run_step fuel turn s w ≡ first s.queue
  unfolding run_step
  run_step-first = refl

  either-Kept :
      (b : Bool) (r : Step W)
      → (b ≡ false → Kept fuel turn s w r)
      → Kept fuel turn s w (if b then stopped s w else r)
  either-Kept true r k = (refl, refl)
  either-Kept false r k = k refl

  woken_or_job-Kept :
      (i : ℕ) (q : List ℕ) (o : Option (EventBinding W))
      → s.queue ≡ i ∷ q
      → get_elem? s.event_bindings i ≡ o
      → Kept fuel turn s w (woken_or_job i q o)
  woken_or_job-Kept i q none eq e = (refl, refl)
  woken_or_job-Kept i q (some job) eq e =
      either-Kept (slept turn job).0 (run_job fuel turn i q job s w) (job-Kept i q job eq e)

  first-Kept : (queue : List ℕ) → s.queue ≡ queue → Kept fuel turn s w (first queue)
  first-Kept [] e = (refl, refl)
  first-Kept (i ∷ q) e = woken_or_job-Kept i q (get_elem? s.event_bindings i) e refl

  pub run_step-Kept : Kept fuel turn s w (run_step fuel turn s w)
  run_step-Kept = rw run_step-first (first-Kept s.queue refl)

-- An event is due again one interval after it was due, or, if that is over, when it was done: never before
-- that, and never twice for the time that was missed.
rescheduled-after :
    (interval next_tick finished : ℕ)
    → next_tick + interval < 2 ^ 64
    → (finished ≤ rescheduled interval next_tick finished)
      × (next_tick + interval ≤ rescheduled interval next_tick finished)
      × ((rescheduled interval next_tick finished ≡ next_tick + interval)
          ⊎ (rescheduled interval next_tick finished ≡ finished))
unfolding rescheduled
rescheduled-after interval next_tick finished h =
    rw (wrap64-small (next_tick + interval) h) (ground arith)

-- The queue of the service that goes on.
abbrev QueueKept : {W : Type 0} → Step W → Type 0
QueueKept r = elim r [
  | stopped s' w' ↦ IsQueued s'
  | went_on s' w' ↦ IsQueued s'
  | out_of_fuel ↦ Unit
]

module _ {W : Type 0} (fuel : ℕ) where
  then-Queued :
      (t : Turn) (ts : List Turn) (s : Service W) (w : W) (r : Step W)
      → IsQueued s
      → Kept fuel t s w r
      → ((s' : Service W) (w' : W) → IsQueued s' → QueueKept (run fuel ts s' w'))
      → QueueKept (elim r [
        | stopped s' w' ↦ stopped s' w'
        | out_of_fuel ↦ out_of_fuel
        | went_on s' w' ↦ run fuel ts s' w'
      ])
  then-Queued t ts s w (stopped s' w') h k more = subst IsQueued (sym k.0) h
  then-Queued t ts s w out_of_fuel h k more = tt
  then-Queued t ts s w (went_on s' w') h k more = more s' w' k.0

  -- However the clocks go, and whatever the plugins do, no event is lost from the queue.
  run-Queued :
      (turns : List Turn) (s : Service W) (w : W) → IsQueued s → QueueKept (run fuel turns s w)
  unfolding run
  run-Queued [] s w h = h
  run-Queued (t ∷ ts) s w h =
      then-Queued t ts s w (run_step fuel t s w) h (run_step-Kept fuel t s w h)
        λ s' w' h'. run-Queued ts s' w' h'

module _ {W : Type 0} where
  -- `addEvent` queues the new event, or leaves the queue as it is where it fails.
  pub add_event-Queued :
      (config : EventConfig) (now : ℕ) (s : Service W) (w : W)
      → IsQueued s
      → IsQueued (add_event config now s w).0.0
  unfolding add_event
  add_event-Queued config now s w h =
      elim (Bool-cases (is_success (attach_sources config.sources s.plugin_map w).1.1.0)) [
        | inl e ↦ rw e (insert-Queued s.event_bindings s.queue _ h)
        | inr e ↦ rw e h
      ]
