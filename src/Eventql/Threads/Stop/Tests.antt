-- ===== src/Eventql/Threads/Stop/Tests.antt =====
-- `stopUploadThread` comes between the test and the wait.
use evcollect.Prelude.{◌↔◌, refl, true, []}
use evcollect.Eventql.Threads.{
  Shared, awaiting, flagged, start_upload_thread, stop_flagged, stop_notified, Steps, Reaches,
}
use evcollect.Eventql.Threads.Stop.{Looks, Ends, stop_notified-Ends}

abbrev looking : Shared
looking = record {
  queue = [];
  queue_max_length = 2;
  thread_shutdown = true;
  uploader = awaiting;
  stopper = flagged;
  accepted = [];
  uploaded = [];
}

reached : Reaches (start_upload_thread 2) looking
unfolding start_upload_thread stop_flagged
reached =
    Reaches.step (Reaches.step Reaches.start (Steps.check_running _ refl refl))
      (Steps.stop_flag _ refl)

stop_notified-Ends_example : Ends (stop_notified looking) ↔ (Looks looking → ⊥)
stop_notified-Ends_example = stop_notified-Ends 2 looking reached refl

never-Ends : Ends (stop_notified looking) → ⊥
never-Ends ends = (stop_notified-Ends 2 looking reached refl).0 ends (refl, refl)
