-- ===== src/Eventql/Threads/Drain/Tests.antt =====
-- An event arrives while the upload thread sleeps.
use evcollect.Prelude.{refl, false, [], ◌∷◌, codes, arith}
use evcollect.Eventql.Target.{EnqueuedEvent}
use evcollect.Eventql.Threads.{Shared, woken, idle, start_upload_thread, notified, Steps, Reaches}
use evcollect.Eventql.Threads.Drain.{Drained, Reaches-Drained}

abbrev event : EnqueuedEvent
event = record { database = codes "db"; table = codes "t"; payload = codes "{}" }

abbrev waiting : Shared
waiting = record {
  queue = event ∷ [];
  queue_max_length = 2;
  thread_shutdown = false;
  uploader = woken;
  stopper = idle;
  accepted = event ∷ [];
  uploaded = [];
}

reached : Reaches (start_upload_thread 2) waiting
unfolding start_upload_thread notified
reached =
    Reaches.step
      (Reaches.step (Reaches.step Reaches.start (Steps.check_running _ refl refl))
        (Steps.wait _ refl refl))
      (Steps.enqueue _ event (omega arith))

Reaches-Drained_example : Drained waiting (event ∷ [])
Reaches-Drained_example = Reaches-Drained 2 waiting reached refl
