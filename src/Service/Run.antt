-- ===== src/Service/Run.antt =====
-- `run` of src/evcollect/service.cc. What the clocks and `select` answer comes from outside.
pub mod Schedule
pub mod Sleep
pub mod Place
pub mod Fair
pub mod Refines
mod Tests
use evcollect.Prelude.{
  ℕ, zero, suc, ◌+◌, ◌/◌, ◌%◌, Bool, true, false, Option, none, some, List, [], ◌∷◌, Bytes,
  get_elem?, set_elem, ltb, wrap64, sub64, if◌then◌else◌,
}
use evcollect.Service.{EventBinding, Service}
use evcollect.Service.Queue.{next_tick_of, queue_insert}
use evcollect.Service.Process.{process_event}

-- The time that `select` gets: the difference is unsigned, and is cut into seconds and microseconds.
pub sleep_time : ℕ → ℕ → ℕ × ℕ
sleep_time next_tick now = let sleep = sub64 next_tick now in (sleep / 1000000, sleep % 1000000)

-- A round of the loop: the monotonic clock at its start; for each time that `select` may get, whether it comes
-- back for the wakeup pipe, and the monotonic clock after it; the wall clock for the event, and the monotonic
-- clock when it is done. `listen_fd_` is never opened.
pub record Turn : Type 0 where
  pub now : ℕ
  pub select : ℕ × ℕ → Bool × ℕ
  pub wall : ℕ
  pub finished : ℕ

-- When the event is due again: one interval on, or at once when that is over already.
pub rescheduled : ℕ → ℕ → ℕ → ℕ
rescheduled interval next_tick finished =
    let next = wrap64 (next_tick + interval) in if ltb next finished then finished else next

-- `stopped`: `run` returns, always with success.
pub data Step (W : Type 0) : Type 0 where
  stopped : Service W → W → Step W
  went_on : Service W → W → Step W
  out_of_fuel : Step W

module _ {W : Type 0} where
  -- What `select` does in a round whose first event is `job`.
  abbrev pub slept : Turn → EventBinding W → Bool × ℕ
  slept turn job = turn.select (sleep_time job.next_tick turn.now)

  abbrev pub requeue : ℕ → List ℕ → EventBinding W → ℕ → Service W → Service W
  requeue i q job finished s =
      let bindings =
        set_elem i
          (record job { next_tick = rescheduled job.interval_micros job.next_tick finished })
          s.event_bindings in
      record s { event_bindings = bindings; queue = queue_insert (next_tick_of bindings) i q }

  -- The tail of a round, on the first event of the queue; its status is only logged.
  abbrev pub run_job : ℕ → Turn → ℕ → List ℕ → EventBinding W → Service W → W → Step W
  run_job fuel turn i q job s w =
      if ltb (slept turn job).1 job.next_tick
      then went_on s w
      else (elim (process_event fuel s.targets job turn.wall w) [
        | none ↦ out_of_fuel
        | some r ↦ went_on (requeue i q job turn.finished s) r.0
      ])

  unfoldable pub run_step : ℕ → Turn → Service W → W → Step W
  unfolding rescheduled process_event queue_insert sleep_time
  run_step fuel turn s w = elim s.queue [
    | [] ↦ stopped s w
    | i ∷ q ↦ elim (get_elem? s.event_bindings i) [
      | none ↦ stopped s w
      | some job ↦ if (slept turn job).0 then stopped s w else run_job fuel turn i q job s w
    ]
  ]

  -- `run`, for as many rounds as there are turns.
  unfoldable pub run : ℕ → List Turn → Service W → W → Step W
  unfolding run_step
  run fuel [] s w = went_on s w
  run fuel (t ∷ ts) s w = elim (run_step fuel t s w) [
    | stopped s' w' ↦ stopped s' w'
    | out_of_fuel ↦ out_of_fuel
    | went_on s' w' ↦ run fuel ts s' w'
  ]
