-- ===== src/Eventql/Threads/Drain.antt =====
-- No wakeup of the upload thread is lost while it is not being stopped.
mod Tests
use mathlib.Core.Path.{subst}
use evcollect.Prelude.{
  ℕ, ◌≡◌, refl, sym, ap, ◌∙◌, Bool, true, false, List, [], ◌∷◌, ◌++◌, append_assoc, append-nil,
  arith,
}
use evcollect.Eventql.Target.{EnqueuedEvent}
use evcollect.Eventql.Threads.{
  Uploader, checking, awaiting, sleeping, woken, finished, uploading, Shared, start_upload_thread,
  stop_flagged, stop_notified, notified, Steps, Reaches,
}
use evcollect.Eventql.Threads.Fifo.{in_flight, Reaches-Fifo}
use evcollect.Eventql.Threads.Stop.{RunsTo}

-- The thread sleeps only where there is nothing to do, and ends only where it has been told to.
abbrev Alert : Uploader → List EnqueuedEvent → Bool → Type 0
Alert sleeping q b = q ≡ []
Alert finished q b = b ≡ true
Alert checking q b = Unit
Alert awaiting q b = Unit
Alert woken q b = Unit
Alert (uploading ev) q b = Unit

notified-Alert :
    (u : Uploader) (q q' : List EnqueuedEvent) (b : Bool) → Alert u q b → Alert (notified u) q' b
unfolding notified
notified-Alert sleeping q q' b a = tt
notified-Alert finished q q' b a = a
notified-Alert checking q q' b a = tt
notified-Alert awaiting q q' b a = tt
notified-Alert woken q q' b a = tt
notified-Alert (uploading ev) q q' b a = tt

flagged-Alert : (u : Uploader) (q : List EnqueuedEvent) (b : Bool) → Alert u q b → Alert u q true
flagged-Alert sleeping q b a = a
flagged-Alert finished q b a = refl
flagged-Alert checking q b a = tt
flagged-Alert awaiting q b a = tt
flagged-Alert woken q b a = tt
flagged-Alert (uploading ev) q b a = tt

IsAlert : Shared → Type 0
IsAlert s = Alert s.uploader s.queue s.thread_shutdown

Steps-IsAlert : (s t : Shared) → Steps s t → IsAlert s → IsAlert t
unfolding IsAlert stop_flagged stop_notified
Steps-IsAlert s _ (Steps.enqueue _ ev room) a =
    notified-Alert s.uploader s.queue (s.queue ++ ev ∷ []) s.thread_shutdown a
Steps-IsAlert s _ (Steps.check_shutdown _ e b) a = b
Steps-IsAlert s _ (Steps.check_running _ e b) a = tt
Steps-IsAlert s _ (Steps.wait _ e q) a = q
Steps-IsAlert s _ (Steps.spurious _ e) a = tt
Steps-IsAlert s _ (Steps.woken_empty _ e q) a = tt
Steps-IsAlert s _ (Steps.take_awaiting _ ev others e q) a = tt
Steps-IsAlert s _ (Steps.take_woken _ ev others e q) a = tt
Steps-IsAlert s _ (Steps.upload_done _ ev e) a = tt
Steps-IsAlert s _ (Steps.stop_flag _ e) a = flagged-Alert s.uploader s.queue s.thread_shutdown a
Steps-IsAlert s _ (Steps.stop_notify _ e) a =
    notified-Alert s.uploader s.queue s.queue s.thread_shutdown a
Steps-IsAlert s _ (Steps.join _ e f) a = a

Reaches-IsAlert : (max : ℕ) (s : Shared) → Reaches (start_upload_thread max) s → IsAlert s
unfolding start_upload_thread IsAlert
Reaches-IsAlert max _ Reaches.start = tt
Reaches-IsAlert max s (Reaches.step {t} r st) = Steps-IsAlert t s st (Reaches-IsAlert max t r)

-- By its own steps the thread comes to an empty queue and to these events uploaded.
abbrev pub Drained : Shared → List EnqueuedEvent → Type 0
Drained s all = (t : Shared) × RunsTo s t × (t.queue ≡ []) × (t.uploaded ≡ all)

module _ (s : Shared) where
  from_checking :
      (q : List EnqueuedEvent) (t : Shared)
      → RunsTo s t
      → t.uploader ≡ checking
      → t.thread_shutdown ≡ false
      → t.queue ≡ q
      → Drained s (t.uploaded ++ q)
  from_checking [] t r e b h = (t, r, h, sym (append-nil t.uploaded))
  from_checking (ev ∷ q) t r e b h =
      let looking = record t { uploader = awaiting } in
      let taken = record t { queue = q; uploader = uploading ev } in
      let steps : RunsTo s
          (record taken { uploaded = t.uploaded ++ ev ∷ []; uploader = checking }) =
        RunsTo.go
          (RunsTo.go (RunsTo.go r (Steps.check_running t e b) tt)
            (Steps.take_awaiting looking ev q refl h) tt)
          (Steps.upload_done taken ev refl) tt in
      subst (Drained s) (append_assoc t.uploaded (ev ∷ []) q) (from_checking q _ steps refl b refl)

  from_uploading :
      (t : Shared) (ev : EnqueuedEvent)
      → RunsTo s t
      → t.uploader ≡ uploading ev
      → t.thread_shutdown ≡ false
      → Drained s (t.uploaded ++ ev ∷ t.queue)
  from_uploading t ev r e b = subst (Drained s) (append_assoc t.uploaded (ev ∷ []) t.queue) (
      from_checking t.queue (record t { uploaded = t.uploaded ++ ev ∷ []; uploader = checking })
        (RunsTo.go r (Steps.upload_done t ev e) tt) refl b refl)

  nothing : s.queue ≡ [] → Drained s (s.uploaded ++ s.queue)
  nothing q = (s, RunsTo.stay, q, sym (ap (λ t. s.uploaded ++ t) q ∙ append-nil s.uploaded))

  module _ (running : s.thread_shutdown ≡ false) where
    from_awaiting :
        (queue : List EnqueuedEvent)
        → s.queue ≡ queue
        → s.uploader ≡ awaiting
        → Drained s (s.uploaded ++ queue)
    from_awaiting [] q e = subst (λ queue. Drained s (s.uploaded ++ queue)) q (nothing q)
    from_awaiting (ev ∷ others) q e =
        from_uploading (record s { queue = others; uploader = uploading ev }) ev
          (RunsTo.go RunsTo.stay (Steps.take_awaiting s ev others e q) tt) refl running

    from_woken :
        (queue : List EnqueuedEvent)
        → s.queue ≡ queue
        → s.uploader ≡ woken
        → Drained s (s.uploaded ++ queue)
    from_woken [] q e = subst (λ queue. Drained s (s.uploaded ++ queue)) q (nothing q)
    from_woken (ev ∷ others) q e =
        from_uploading (record s { queue = others; uploader = uploading ev }) ev
          (RunsTo.go RunsTo.stay (Steps.take_woken s ev others e q) tt) refl running

    from_place :
        (u : Uploader)
        → s.uploader ≡ u
        → Alert u s.queue s.thread_shutdown
        → Drained s (s.uploaded ++ (in_flight u ++ s.queue))
    unfolding in_flight
    from_place checking e a = from_checking s.queue s RunsTo.stay e running refl
    from_place awaiting e a = from_awaiting s.queue refl e
    from_place sleeping e a = nothing a
    from_place woken e a = from_woken s.queue refl e
    from_place finished e a = absurd (ground arith)
    from_place (uploading ev) e a = from_uploading s ev RunsTo.stay e running

-- Whatever the threads have done, as long as nobody has stopped it, the upload thread needs no one else to call
-- `uploadEvent` on every event that has been accepted, in order: it never sleeps on an event.
pub Reaches-Drained :
    (max : ℕ) (s : Shared)
    → Reaches (start_upload_thread max) s
    → s.thread_shutdown ≡ false
    → Drained s s.accepted
unfolding IsAlert
Reaches-Drained max s r running =
    subst (Drained s) (sym (Reaches-Fifo max s r).in_order)
      (from_place s running s.uploader refl (Reaches-IsAlert max s r))
