-- ===== src/Eventql/Threads/Stop.antt =====
-- Whether `stopUploadThread` comes back from its `join`.
mod Flag
mod Tests
use mathlib.Core.Path.{subst}
use evcollect.Prelude.{
  ℕ, ◌≡◌, ◌↔◌, ◌⊎◌, inl, inr, refl, sym, ap, ◌∙◌, Bool, true, List, [], ◌∷◌, ◌++◌, arith,
}
use evcollect.Eventql.Target.{EnqueuedEvent}
use evcollect.Eventql.Threads.{
  Uploader, checking, awaiting, sleeping, woken, finished, uploading, Stopper, idle, flagged,
  joining, stopped, Shared, start_upload_thread, notified, stop_flagged, stop_notified, Steps,
  Reaches,
}
use evcollect.Eventql.Threads.Stop.Flag.{Reaches-Flagged, flag_set}

-- What happens by itself while `stopUploadThread` waits: the steps of the upload thread, and the return from
-- `join`, but no event, and no wakeup that nothing caused.
abbrev OfThread : {s t : Shared} → Steps s t → Type 0
OfThread (Steps.enqueue _ ev room) = ⊥
OfThread (Steps.check_shutdown _ e b) = Unit
OfThread (Steps.check_running _ e b) = Unit
OfThread (Steps.wait _ e q) = Unit
OfThread (Steps.spurious _ e) = ⊥
OfThread (Steps.woken_empty _ e q) = Unit
OfThread (Steps.take_awaiting _ ev others e q) = Unit
OfThread (Steps.take_woken _ ev others e q) = Unit
OfThread (Steps.upload_done _ ev e) = Unit
OfThread (Steps.stop_flag _ e) = ⊥
OfThread (Steps.stop_notify _ e) = ⊥
OfThread (Steps.join _ e f) = Unit

pub data RunsTo (s : Shared) : Shared → Type 0 where
  stay : RunsTo s s
  go : {t u : Shared} → RunsTo s t → (st : Steps t u) → OfThread st → RunsTo s u

-- The thread sleeps, or is about to: it has looked at `thread_shutdown_`, and the queue is empty.
abbrev pub Lost : Shared → Type 0
Lost s = (s.uploader ≡ sleeping) ⊎ ((s.uploader ≡ awaiting) × (s.queue ≡ []))

abbrev pub Ends : Shared → Type 0
Ends s = (t : Shared) × RunsTo s t × (t.stopper ≡ stopped)

-- What the upload thread may be.
abbrev Place : Uploader → List EnqueuedEvent → Type 0
Place checking q = ⊥
Place awaiting q = q ≡ []
Place sleeping q = Unit
Place woken q = ⊥
Place finished q = ⊥
Place (uploading ev) q = ⊥

Lost-Place : (s : Shared) (v : Uploader) → s.uploader ≡ v → Lost s → Place v s.queue
Lost-Place s v e (inl f) = subst (λ u. Place u s.queue) (sym f ∙ e) tt
Lost-Place s v e (inr (f, q)) = subst (λ u. Place u s.queue) (sym f ∙ e) q

cons-nil : (ev : EnqueuedEvent) (q queue : List EnqueuedEvent) → queue ≡ ev ∷ q → queue ≡ [] → ⊥
cons-nil ev q queue e f = cc

-- Where `stopUploadThread` waits in `join`, it stays there as long as the wakeup is lost.
Stays : Shared → Type 0
Stays s = Lost s × (s.stopper ≡ joining)

Stays-step : (s t : Shared) (st : Steps s t) → OfThread st → Stays s → Stays t
unfolding Stays
Stays-step s _ (Steps.enqueue _ ev room) own l = absurd own
Stays-step s _ (Steps.check_shutdown _ e b) own l = absurd (Lost-Place s checking e l.0)
Stays-step s _ (Steps.check_running _ e b) own l = absurd (Lost-Place s checking e l.0)
Stays-step s _ (Steps.wait _ e q) own l = (inl refl, l.1)
Stays-step s _ (Steps.spurious _ e) own l = absurd own
Stays-step s _ (Steps.woken_empty _ e q) own l = absurd (Lost-Place s woken e l.0)
Stays-step s _ (Steps.take_awaiting _ ev others e q) own l =
    absurd (cons-nil ev others s.queue q (Lost-Place s awaiting e l.0))
Stays-step s _ (Steps.take_woken _ ev others e q) own l = absurd (Lost-Place s woken e l.0)
Stays-step s _ (Steps.upload_done _ ev e) own l = absurd (Lost-Place s (uploading ev) e l.0)
Stays-step s _ (Steps.stop_flag _ e) own l = absurd own
Stays-step s _ (Steps.stop_notify _ e) own l = absurd own
Stays-step s _ (Steps.join _ e f) own l = absurd (Lost-Place s finished f l.0)

RunsTo-Stays : (s t : Shared) → RunsTo s t → Stays s → Stays t
RunsTo-Stays s _ RunsTo.stay l = l
RunsTo-Stays s u (RunsTo.go {t} r st own) l = Stays-step t u st own (RunsTo-Stays s t r l)

joining-stopped : (k : Stopper) → k ≡ joining → k ≡ stopped → ⊥
joining-stopped k e f = absurd (ground arith)

Lost-Ends : (s : Shared) → s.stopper ≡ joining → Lost s → Ends s → ⊥
unfolding Stays
Lost-Ends s j l (t, r, e) = joining-stopped t.stopper (RunsTo-Stays s t r (l, j)).1 e

-- `stopUploadThread` waits in `join`.
abbrev Joining : Shared → Type 0
Joining s = (s.thread_shutdown ≡ true) × (s.stopper ≡ joining)

module _ (s : Shared) (stopping : Joining s) where
  from_finished : (t : Shared) → RunsTo s t → t.uploader ≡ finished → Joining t → Ends s
  from_finished t r e (b, j) =
      (record t { stopper = stopped }, RunsTo.go r (Steps.join t j e) tt, refl)

  from_checking : (t : Shared) → RunsTo s t → t.uploader ≡ checking → Joining t → Ends s
  from_checking t r e b =
      from_finished (record t { uploader = finished })
        (RunsTo.go r (Steps.check_shutdown t e b.0) tt) refl b

  from_uploading :
      (t : Shared) (ev : EnqueuedEvent)
      → RunsTo s t
      → t.uploader ≡ uploading ev
      → Joining t
      → Ends s
  from_uploading t ev r e b =
      from_checking (record t { uploaded = t.uploaded ++ ev ∷ []; uploader = checking })
        (RunsTo.go r (Steps.upload_done t ev e) tt) refl b

  from_woken : (queue : List EnqueuedEvent) → s.queue ≡ queue → s.uploader ≡ woken → Ends s
  from_woken [] q e =
      from_checking (record s { uploader = checking })
        (RunsTo.go RunsTo.stay (Steps.woken_empty s e q) tt) refl stopping
  from_woken (ev ∷ others) q e =
      from_uploading (record s { queue = others; uploader = uploading ev }) ev
        (RunsTo.go RunsTo.stay (Steps.take_woken s ev others e q) tt) refl stopping

  from_awaiting :
      (queue : List EnqueuedEvent) → s.queue ≡ queue → s.uploader ≡ awaiting → (Lost s → ⊥) → Ends s
  from_awaiting [] q e not_lost = absurd (not_lost (inr (e, q)))
  from_awaiting (ev ∷ others) q e not_lost =
      from_uploading (record s { queue = others; uploader = uploading ev }) ev
        (RunsTo.go RunsTo.stay (Steps.take_awaiting s ev others e q) tt) refl stopping

  from_place : (u : Uploader) → s.uploader ≡ u → (Lost s → ⊥) → Ends s
  from_place checking e not_lost = from_checking s RunsTo.stay e stopping
  from_place awaiting e not_lost = from_awaiting s.queue refl e not_lost
  from_place sleeping e not_lost = absurd (not_lost (inl e))
  from_place woken e not_lost = from_woken s.queue refl e
  from_place finished e not_lost = from_finished s RunsTo.stay e stopping
  from_place (uploading ev) e not_lost = from_uploading s ev RunsTo.stay e stopping

-- The thread has found the flag unset, and the queue is empty, but it does not wait yet.
abbrev pub Looks : Shared → Type 0
Looks s = (s.uploader ≡ awaiting) × (s.queue ≡ [])

notified-awake : (u : Uploader) → notified u ≡ sleeping → ⊥
unfolding notified
notified-awake checking e = absurd (ground arith)
notified-awake awaiting e = absurd (ground arith)
notified-awake sleeping e = absurd (ground arith)
notified-awake woken e = absurd (ground arith)
notified-awake finished e = absurd (ground arith)
notified-awake (uploading ev) e = absurd (ground arith)

notified-awaiting : (u : Uploader) → notified u ≡ awaiting → u ≡ awaiting
unfolding notified
notified-awaiting checking e = e
notified-awaiting awaiting e = e
notified-awaiting sleeping e = absurd (ground arith)
notified-awaiting woken e = e
notified-awaiting finished e = e
notified-awaiting (uploading ev) e = e

notified-Lost : (s : Shared) → Lost (stop_notified s) → Looks s
unfolding stop_notified
notified-Lost s (inl e) = absurd (notified-awake s.uploader e)
notified-Lost s (inr (e, q)) = (notified-awaiting s.uploader e, q)

Looks-Lost : (s : Shared) → Looks s → Lost (stop_notified s)
unfolding stop_notified notified
Looks-Lost s (e, q) = inr (ap notified e, q)

-- Wherever the threads stand when `stopUploadThread`, which has set the flag, notifies: with no event more, the
-- upload thread comes to its end by itself, and `join` returns, if and only if the notification does not come
-- between its test of the flag and its wait on an empty queue. A thread that sleeps then is woken; one that is
-- about to sleep is not, and `join` returns no more.
pub stop_notified-Ends :
    (max : ℕ) (s : Shared)
    → Reaches (start_upload_thread max) s
    → s.stopper ≡ flagged
    → Ends (stop_notified s) ↔ (Looks s → ⊥)
unfolding stop_notified
stop_notified-Ends max s r e =
    let set = flag_set s e (Reaches-Flagged max s r) in
    (
      λ ends l. Lost-Ends (stop_notified s) refl (Looks-Lost s l) ends,
      λ no.
          from_place (stop_notified s) (set, refl) (notified s.uploader) refl
            λ l. no (notified-Lost s l),
    )
