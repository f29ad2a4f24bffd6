-- ===== src/Eventql/Threads/Tests.antt =====
-- One event goes through the queue, and the theorem on it.
use evcollect.Prelude.{refl, false, [], ◌∷◌, codes, arith}
use evcollect.Eventql.Target.{EnqueuedEvent}
use evcollect.Eventql.Threads.{
  Shared, uploading, idle, start_upload_thread, notified, Steps, Reaches,
}
use evcollect.Eventql.Threads.Fifo.{Fifo, Reaches-Fifo}

abbrev ev : EnqueuedEvent
ev = record { database = codes "d"; table = codes "t"; payload = codes "{}" }

abbrev in_upload : Shared
in_upload = record {
  queue = [];
  queue_max_length = 2;
  thread_shutdown = false;
  uploader = uploading ev;
  stopper = idle;
  accepted = ev ∷ [];
  uploaded = [];
}

-- The thread waits, is woken by the event, and takes it.
reached : Reaches (start_upload_thread 2) in_upload
unfolding start_upload_thread notified
reached =
    Reaches.step
      (Reaches.step
        (Reaches.step (Reaches.step Reaches.start (Steps.check_running _ refl refl))
          (Steps.wait _ refl refl))
        (Steps.enqueue _ ev (omega arith)))
      (Steps.take_woken _ ev [] refl refl)

Reaches-Fifo_example : Fifo 2 in_upload
Reaches-Fifo_example = Reaches-Fifo 2 in_upload reached
