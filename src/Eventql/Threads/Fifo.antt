-- ===== src/Eventql/Threads/Fifo.antt =====
-- The queue between the threads keeps every event, in order, and its bound; and what stopping loses.
use evcollect.Prelude.{
  ℕ, ◌≤◌, ◌≡◌, refl, sym, ap, ◌∙◌, Bool, true, List, [], ◌∷◌, ◌++◌, append_assoc, length,
  length-append, arith,
}
use evcollect.Eventql.Target.{EnqueuedEvent}
use evcollect.Eventql.Threads.{
  Stopper, flagged, joining, stopped, stop_flagged, stop_notified, Uploader, checking, awaiting,
  sleeping, woken, finished, uploading, Shared, start_upload_thread, notified, Steps, Reaches,
}

-- The event in the hands of the upload thread.
unfoldable pub in_flight : Uploader → List EnqueuedEvent
in_flight (uploading ev) = ev ∷ []
in_flight _ = []

pub record Fifo (max : ℕ) (s : Shared) : Type 0 where
  pub in_order : s.accepted ≡ s.uploaded ++ (in_flight s.uploader ++ s.queue)
  pub bounded : length s.queue ≤ max
  pub max_kept : s.queue_max_length ≡ max

notified-in_flight : (u : Uploader) → in_flight (notified u) ≡ in_flight u
unfolding in_flight notified
notified-in_flight sleeping = refl
notified-in_flight checking = refl
notified-in_flight awaiting = refl
notified-in_flight woken = refl
notified-in_flight finished = refl
notified-in_flight (uploading ev) = refl

-- A step that moves nothing.
moved-Fifo :
    (max : ℕ) (s : Shared) (u : Uploader) (b : Bool) (k : Stopper)
    → in_flight u ≡ in_flight s.uploader
    → Fifo max s
    → Fifo max (record s { uploader = u; thread_shutdown = b; stopper = k })
moved-Fifo max s u b k e f = record {
  in_order = rw e f.in_order;
  bounded = f.bounded;
  max_kept = f.max_kept;
}

-- A step from a place where the thread holds nothing.
empty-Fifo :
    (max : ℕ) (s : Shared) (v u : Uploader)
    → s.uploader ≡ v
    → in_flight v ≡ []
    → in_flight u ≡ []
    → Fifo max s
    → Fifo max (record s { uploader = u })
empty-Fifo max s v u e ev eu f =
    moved-Fifo max s u s.thread_shutdown s.stopper (eu ∙ sym (ap in_flight e ∙ ev)) f

taken-Fifo :
    (max : ℕ) (s : Shared) (v : Uploader) (ev : EnqueuedEvent) (others : List EnqueuedEvent)
    → s.uploader ≡ v
    → in_flight v ≡ []
    → s.queue ≡ ev ∷ others
    → Fifo max s
    → Fifo max (record s { queue = others; uploader = uploading ev })
unfolding in_flight
taken-Fifo max s v ev others e n q f = record {
  in_order =
      f.in_order
      ∙ ap (λ t. s.uploaded ++ (t ++ s.queue)) (ap in_flight e ∙ n)
      ∙ ap (λ t. s.uploaded ++ t) q;
  bounded = omega (arith, f.bounded, ap length q);
  max_kept = f.max_kept;
}

Steps-Fifo : (max : ℕ) (s t : Shared) → Steps s t → Fifo max s → Fifo max t
unfolding in_flight notified stop_flagged stop_notified
Steps-Fifo max s _ (Steps.enqueue _ ev room) f = record {
  in_order =
      ap (λ t. t ++ ev ∷ []) f.in_order
      ∙ append_assoc s.uploaded (in_flight s.uploader ++ s.queue) (ev ∷ [])
      ∙ ap (λ t. s.uploaded ++ t) (append_assoc (in_flight s.uploader) s.queue (ev ∷ []))
      ∙ ap (λ t. s.uploaded ++ (t ++ (s.queue ++ ev ∷ []))) (sym (notified-in_flight s.uploader));
  bounded = omega (arith, length-append s.queue (ev ∷ []), f.max_kept);
  max_kept = f.max_kept;
}
Steps-Fifo max s _ (Steps.check_shutdown _ e b) f = empty-Fifo max s checking finished e refl refl f
Steps-Fifo max s _ (Steps.check_running _ e b) f = empty-Fifo max s checking awaiting e refl refl f
Steps-Fifo max s _ (Steps.wait _ e q) f = empty-Fifo max s awaiting sleeping e refl refl f
Steps-Fifo max s _ (Steps.spurious _ e) f = empty-Fifo max s sleeping woken e refl refl f
Steps-Fifo max s _ (Steps.woken_empty _ e q) f = empty-Fifo max s woken checking e refl refl f
Steps-Fifo max s _ (Steps.take_awaiting _ ev others e q) f =
    taken-Fifo max s awaiting ev others e refl q f
Steps-Fifo max s _ (Steps.take_woken _ ev others e q) f =
    taken-Fifo max s woken ev others e refl q f
Steps-Fifo max s _ (Steps.upload_done _ ev e) f = record {
  in_order =
      f.in_order
      ∙ ap (λ u. s.uploaded ++ (in_flight u ++ s.queue)) e
      ∙ sym (append_assoc s.uploaded (ev ∷ []) s.queue);
  bounded = f.bounded;
  max_kept = f.max_kept;
}
Steps-Fifo max s _ (Steps.stop_flag _ e) f = moved-Fifo max s s.uploader true flagged refl f
Steps-Fifo max s _ (Steps.stop_notify _ e) f =
    moved-Fifo max s (notified s.uploader) s.thread_shutdown joining (notified-in_flight s.uploader)
      f
Steps-Fifo max s _ (Steps.join _ e g) f =
    moved-Fifo max s s.uploader s.thread_shutdown stopped refl f

-- In whatever order the threads take their steps: the events that were accepted are those uploaded, then the one
-- in the hands of the upload thread, then the queue, none lost or swapped; and the queue keeps its bound.
pub Reaches-Fifo : (max : ℕ) (s : Shared) → Reaches (start_upload_thread max) s → Fifo max s
unfolding start_upload_thread in_flight
Reaches-Fifo max _ Reaches.start = record {
  in_order = refl;
  bounded = omega arith;
  max_kept = refl;
}
Reaches-Fifo max s (Reaches.step {t} r st) = Steps-Fifo max t s st (Reaches-Fifo max t r)
