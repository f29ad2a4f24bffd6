-- ===== src/Eventql/Threads/Stop/Flag.antt =====
-- The flag of `stopUploadThread`, in every state of the threads.
use evcollect.Prelude.{ℕ, ◌≡◌, ◌⊎◌, inl, inr, refl, true, arith}
use evcollect.Eventql.Threads.{
  idle, flagged, Shared, start_upload_thread, stop_flagged, stop_notified, Steps, Reaches,
}

-- Once `stopUploadThread` has begun, the flag is set.
pub Flagged : Shared → Type 0
Flagged s = (s.stopper ≡ idle) ⊎ (s.thread_shutdown ≡ true)

Steps-Flagged : (s t : Shared) → Steps s t → Flagged s → Flagged t
unfolding Flagged stop_flagged stop_notified
Steps-Flagged s _ (Steps.enqueue _ ev room) f = f
Steps-Flagged s _ (Steps.check_shutdown _ e b) f = f
Steps-Flagged s _ (Steps.check_running _ e b) f = f
Steps-Flagged s _ (Steps.wait _ e q) f = f
Steps-Flagged s _ (Steps.spurious _ e) f = f
Steps-Flagged s _ (Steps.woken_empty _ e q) f = f
Steps-Flagged s _ (Steps.take_awaiting _ ev others e q) f = f
Steps-Flagged s _ (Steps.take_woken _ ev others e q) f = f
Steps-Flagged s _ (Steps.upload_done _ ev e) f = f
Steps-Flagged s _ (Steps.stop_flag _ e) f = inr refl
Steps-Flagged s _ (Steps.stop_notify _ e) (inl i) = absurd (ground arith)
Steps-Flagged s _ (Steps.stop_notify _ e) (inr b) = inr b
Steps-Flagged s _ (Steps.join _ e g) (inl i) = absurd (ground arith)
Steps-Flagged s _ (Steps.join _ e g) (inr b) = inr b

pub Reaches-Flagged : (max : ℕ) (s : Shared) → Reaches (start_upload_thread max) s → Flagged s
unfolding start_upload_thread Flagged
Reaches-Flagged max _ Reaches.start = inl refl
Reaches-Flagged max s (Reaches.step {t} r st) = Steps-Flagged t s st (Reaches-Flagged max t r)

pub flag_set : (s : Shared) → s.stopper ≡ flagged → Flagged s → s.thread_shutdown ≡ true
unfolding Flagged
flag_set s e (inl i) = absurd (ground arith)
flag_set s e (inr b) = b
