-- ===== src/Service/Process/Deliver.antt =====
-- An event reaches every target.
use evcollect.Prelude.{◌≡◌, refl, ◌∙◌, Bool, true, ◌&&◌, List, [], ◌∷◌, arith, if◌then◌else◌}
use evcollect.Events.{EventData}
use evcollect.Util.ReturnCode.{ReturnCode, success, is_success}
use evcollect.Service.{TargetBinding}
use evcollect.Service.Process.{deliver_loop, deliver_event}

kept :
    (rc rc' : ReturnCode) (b : Bool)
    → (is_success (if is_success rc' then rc else rc') && b)
      ≡ (is_success rc && (is_success rc' && b))
kept rc rc' b = ground arith

module _ {W : Type 0} (ev : EventData) where
  -- The world when the targets got the event one after the other, and whether all of them took it.
  pub after_all : List (TargetBinding W) → W → W
  after_all [] w = w
  after_all (t ∷ ts) w = after_all ts (t.plugin.emit_event t.userdata ev w).0

  pub all_took : List (TargetBinding W) → W → Bool
  all_took [] w = true
  all_took (t ∷ ts) w =
      let r = t.plugin.emit_event t.userdata ev w in
      let rest = all_took ts r.0 in is_success r.1 && rest

  deliver_loop-all :
      (ts : List (TargetBinding W)) (rc : ReturnCode) (w : W)
      → ((deliver_loop ts ev rc w).0 ≡ after_all ts w)
        × (is_success (deliver_loop ts ev rc w).1 ≡ (is_success rc && all_took ts w))
  unfolding deliver_loop after_all all_took
  deliver_loop-all [] rc w = (refl, ground arith)
  deliver_loop-all (t ∷ ts) rc w =
      let r = t.plugin.emit_event t.userdata ev w in
      let (world, ok) = deliver_loop-all ts (if is_success r.1 then rc else r.1) r.0 in
      (world, ok ∙ kept rc r.1 (all_took ts r.0))

  -- A target that fails does not keep the event from those behind it, and the delivery is a success exactly
  -- when every target took the event.
  pub deliver_event-all :
      (ts : List (TargetBinding W)) (w : W)
      → ((deliver_event ts ev w).0 ≡ after_all ts w)
        × (is_success (deliver_event ts ev w).1 ≡ all_took ts w)
  unfolding deliver_event
  deliver_event-all ts w = deliver_loop-all ts success w
