-- ===== src/Eventql/Threads.antt =====
-- The queue of plugins/eventql/eventql_plugin.cc between threads: `enqueueEvent` on the service's thread,
-- `awaitEvent` and the loop of `startUploadThread` on the upload thread, and `stopUploadThread`. A step is what
-- a thread does while it holds the mutex, or between two such stretches.
pub mod Fifo
pub mod Stop
pub mod Drain
mod Tests
use evcollect.Prelude.{ℕ, ◌<◌, ◌≤◌, ◌≡◌, Bool, true, false, List, [], ◌∷◌, ◌++◌, length}
use evcollect.Eventql.Target.{EnqueuedEvent}

-- Where the upload thread is: before the test of `thread_shutdown_`, before it looks at the queue, in
-- `cv_.wait`, behind it, in `uploadEvent` with an event, or at its end.
pub data Uploader : Type 0 where
  checking awaiting sleeping woken finished : Uploader
  uploading : EnqueuedEvent → Uploader

-- Where `stopUploadThread` is: not called, with `thread_shutdown_` set, in `join`, or returned.
pub data Stopper : Type 0 where
  idle flagged joining stopped : Stopper

-- `accepted` and `uploaded` record what `enqueueEvent` took and what `uploadEvent` was called with and done.
pub record Shared : Type 0 where
  pub queue : List EnqueuedEvent
  pub queue_max_length : ℕ
  pub thread_shutdown : Bool
  pub uploader : Uploader
  pub stopper : Stopper
  pub accepted : List EnqueuedEvent
  pub uploaded : List EnqueuedEvent

-- `startUploadThread` on a target that has been set up.
pub start_upload_thread : ℕ → Shared
start_upload_thread max = record {
  queue = [];
  queue_max_length = max;
  thread_shutdown = false;
  uploader = checking;
  stopper = idle;
  accepted = [];
  uploaded = [];
}

-- `cv_.notify_all()`.
pub notified : Uploader → Uploader
notified sleeping = woken
notified u = u

-- `stopUploadThread` sets the flag, and then notifies and goes to wait in `join`.
unfoldable pub stop_flagged : Shared → Shared
stop_flagged s = record s { thread_shutdown = true; stopper = flagged }

unfoldable pub stop_notified : Shared → Shared
unfolding notified
stop_notified s = record s { uploader = notified s.uploader; stopper = joining }

pub data Steps : Shared → Shared → Type 0 where
  -- `enqueueEvent`, once the queue has room.
  enqueue :
      (s : Shared) (ev : EnqueuedEvent)
      → length s.queue < s.queue_max_length
      → Steps s (record s {
        queue = s.queue ++ ev ∷ [];
        accepted = s.accepted ++ ev ∷ [];
        uploader = notified s.uploader;
      })
  check_shutdown :
      (s : Shared)
      → s.uploader ≡ checking
      → s.thread_shutdown ≡ true
      → Steps s (record s { uploader = finished })
  check_running :
      (s : Shared)
      → s.uploader ≡ checking
      → s.thread_shutdown ≡ false
      → Steps s (record s { uploader = awaiting })
  wait :
      (s : Shared)
      → s.uploader ≡ awaiting
      → s.queue ≡ []
      → Steps s (record s { uploader = sleeping })
  -- A wakeup that nothing caused, which `wait` allows.
  spurious : (s : Shared) → s.uploader ≡ sleeping → Steps s (record s { uploader = woken })
  woken_empty :
      (s : Shared) → s.uploader ≡ woken → s.queue ≡ [] → Steps s (record s { uploader = checking })
  take_awaiting :
      (s : Shared) (ev : EnqueuedEvent) (others : List EnqueuedEvent)
      → s.uploader ≡ awaiting
      → s.queue ≡ ev ∷ others
      → Steps s (record s { queue = others; uploader = uploading ev })
  take_woken :
      (s : Shared) (ev : EnqueuedEvent) (others : List EnqueuedEvent)
      → s.uploader ≡ woken
      → s.queue ≡ ev ∷ others
      → Steps s (record s { queue = others; uploader = uploading ev })
  -- `uploadEvent` returns; an error is only logged.
  upload_done :
      (s : Shared) (ev : EnqueuedEvent)
      → s.uploader ≡ uploading ev
      → Steps s (record s { uploaded = s.uploaded ++ ev ∷ []; uploader = checking })
  -- `stopUploadThread` does not take the mutex: other steps may come between these.
  stop_flag : (s : Shared) → s.stopper ≡ idle → Steps s (stop_flagged s)
  stop_notify : (s : Shared) → s.stopper ≡ flagged → Steps s (stop_notified s)
  join :
      (s : Shared)
      → s.stopper ≡ joining
      → s.uploader ≡ finished
      → Steps s (record s { stopper = stopped })

pub data Reaches (s : Shared) : Shared → Type 0 where
  start : Reaches s s
  step : {t u : Shared} → Reaches s t → Steps t u → Reaches s u
