-- ===== src/Tailing/Round.antt =====
-- A round of `processEvent` over one source, when nothing fails.
use evcollect.Prelude.{
  ℕ, suc, ◌≡◌, refl, ap, ◌∙◌, Bool, true, false, Option, some, List, [], ◌∷◌, Bytes, if◌then◌else◌,
}
use evcollect.Util.ReturnCode.{ReturnCode, success, is_success}
use evcollect.Service.{EventSourceBinding, TargetBinding, EventBinding}
use evcollect.Service.Process.{
  merged_with, Round, went_wrong, collected, sources_round, emit_merged, process_rounds,
}

if-same : (b : Bool) → (if b then true else false) ≡ b
if-same true = refl
if-same false = refl

module _ {W : Type 0} where
  pub sources_round-one :
      (src : EventSourceBinding W) (w w1 w2 : W) (event : Bytes) (more : Bool)
      → src.plugin.get_next_event src.userdata [] w ≡ (w1, (success, event))
      → src.plugin.has_pending_event src.userdata w1 ≡ (w2, more)
      → sources_round (src ∷ []) [] false w ≡ (w2, collected event more)
  unfolding sources_round
  sources_round-one src w w1 w2 event more e e' =
      let asked : W × (ReturnCode × Bytes) → W × Round = λ r. (elim (is_success r.1.0) [
        | false ↦ (r.0, went_wrong r.1.0)
        | true ↦
            let p = src.plugin.has_pending_event src.userdata r.0 in
            (p.0, collected (merged_with [] r.1.1) (if p.1 then true else false))
      ]) in
      ap asked e
      ∙ ap (λ (p : W × Bool). (p.0, collected event (if p.1 then true else false))) e'
      ∙ ap (λ b. (w2, collected event b)) (if-same more)

  module _ (fuel : ℕ) (targets : List (TargetBinding W)) (binding : EventBinding W) (now : ℕ) where
    abbrev pub more_or_end : Bool → W → Option (W × ReturnCode)
    more_or_end more w = elim more [
      | true ↦ process_rounds fuel targets binding now w
      | false ↦ some (w, success)
    ]

    pub process_rounds-one :
        (w w2 w3 : W) (event : Bytes) (more : Bool)
        → sources_round binding.sources [] false w ≡ (w2, collected event more)
        → emit_merged targets binding now event w2 ≡ (w3, success)
        → process_rounds (suc fuel) targets binding now w ≡ more_or_end more w3
    unfolding process_rounds
    process_rounds-one w w2 w3 event more e e' =
        let finished : Bool → W × ReturnCode → Option (W × ReturnCode) = λ more r.
          (elim (is_success r.1) [ false ↦ some (r.0, r.1) | true ↦ more_or_end more r.0 ]) in
        ap
          (λ (r : W × Round). elim r.1 [
            | went_wrong rc ↦ some (r.0, rc)
            | collected event more ↦ finished more (emit_merged targets binding now event r.0)
          ])
          e
        ∙ ap (finished more) e'
