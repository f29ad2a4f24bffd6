-- ===== src/Service/Process.antt =====
-- `processEvent`, `emitEvent` and `deliverEvent` of src/evcollect/service.cc.
pub mod Deliver
pub mod Rounds
use evcollect.Prelude.{
  ℕ, zero, suc, Bool, true, false, ◌||◌, Option, none, some, List, [], ◌∷◌, Bytes, if◌then◌else◌,
}
use evcollect.Events.{EventData}
use evcollect.Util.ReturnCode.{ReturnCode, success, is_success}
use evcollect.Service.{EventSourceBinding, EventBinding, TargetBinding}

abbrev pub is_empty : Bytes → Bool
is_empty [] = true
is_empty (c ∷ cs) = false

pub merge_events : Bytes → Bytes → Bytes
merge_events base overlay = overlay

abbrev pub merged_with : Bytes → Bytes → Bytes
merged_with merged event = if is_empty merged then event else merge_events merged event

-- What a round over the sources gives: the status of a source that failed, or the event merged from all, and
-- whether one of them has more.
pub data Round : Type 0 where
  went_wrong : ReturnCode → Round
  collected : Bytes → Bool → Round

module _ {W : Type 0} where
  abbrev pub get_event : EventSourceBinding W → W → W × (ReturnCode × Bytes)
  get_event src w = src.plugin.get_next_event src.userdata [] w

  unfoldable pub sources_round : List (EventSourceBinding W) → Bytes → Bool → W → W × Round
  unfolding merge_events
  sources_round [] merged cont w = (w, collected merged cont)
  sources_round (src ∷ srcs) merged cont w =
      let r = get_event src w in
      elim (is_success r.1.0) [
        | false ↦ (r.0, went_wrong r.1.0)
        | true ↦
            let p = src.plugin.has_pending_event src.userdata r.0 in
            sources_round srcs (merged_with merged r.1.1) (if p.1 then true else cont) p.0
      ]

  -- Every target gets the event; the status is that of the last one that failed.
  deliver_loop : List (TargetBinding W) → EventData → ReturnCode → W → W × ReturnCode
  deliver_loop [] ev rc_aggr w = (w, rc_aggr)
  deliver_loop (t ∷ ts) ev rc_aggr w =
      let (w', rc) = t.plugin.emit_event t.userdata ev w in
      deliver_loop ts ev (if is_success rc then rc_aggr else rc) w'

  unfoldable pub deliver_event : List (TargetBinding W) → EventData → W → W × ReturnCode
  unfolding deliver_loop
  deliver_event targets ev w = deliver_loop targets ev success w

  unfoldable pub emit_event :
      List (TargetBinding W) → EventBinding W → ℕ → Bytes → W → W × ReturnCode
  unfolding deliver_event
  emit_event targets binding time event_data w =
      deliver_event targets
        (record { time = time; event_name = binding.event_name; event_data = event_data }) w

  abbrev pub emit_merged : List (TargetBinding W) → EventBinding W → ℕ → Bytes → W → W × ReturnCode
  emit_merged targets binding now merged w =
      if is_empty merged then (w, success) else emit_event targets binding now merged w

  -- The rounds of `processEvent`; `none` where the fuel runs out.
  unfoldable pub process_rounds :
      ℕ → List (TargetBinding W) → EventBinding W → ℕ → W → Option (W × ReturnCode)
  unfolding sources_round emit_event
  process_rounds zero targets binding now w = none
  process_rounds (suc fuel) targets binding now w0 =
      let s = sources_round binding.sources [] false w0 in
      elim s.1 [
        | went_wrong rc ↦ some (s.0, rc)
        | collected merged cont ↦
            let e = emit_merged targets binding now merged s.0 in
            elim (is_success e.1) [
              | false ↦ some (e.0, e.1)
              | true ↦ elim cont [
                | true ↦ process_rounds fuel targets binding now e.0
                | false ↦ some (e.0, success)
              ]
            ]
      ]

  unfoldable pub process_event :
      ℕ → List (TargetBinding W) → EventBinding W → ℕ → W → Option (W × ReturnCode)
  unfolding process_rounds
  process_event fuel targets binding now w = elim binding.sources [
    | [] ↦ some (w, success)
    | _ ∷ _ ↦ process_rounds fuel targets binding now w
  ]
