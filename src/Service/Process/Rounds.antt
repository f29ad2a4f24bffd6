-- ===== src/Service/Process/Rounds.antt =====
-- The rounds over the sources of an event: which event they give, and that they end.
use evcollect.Prelude.{
  ℕ, zero, suc, ◌<◌, ◌≡◌, refl, ◌⊎◌, inl, inr, Bool, true, false, Bool-cases, Option, some, List,
  [], ◌∷◌, ◌++◌, Bytes, arith, if◌then◌else◌,
}
use evcollect.Util.ReturnCode.{ReturnCode, success, is_success}
use evcollect.Service.{EventSourceBinding, EventBinding, TargetBinding}
use evcollect.Service.Process.{
  merge_events, Round, went_wrong, collected, get_event, merged_with, sources_round, emit_merged,
  process_rounds, process_event,
}

merged_with-last : (merged event : Bytes) → merged_with merged event ≡ event
unfolding merge_events
merged_with-last [] event = refl
merged_with-last (c ∷ cs) event = refl

-- The outcome is an error, or this event.
abbrev Gives : Bytes → Round → Type 0
Gives event r =
    ((rc : ReturnCode) × (r ≡ went_wrong rc)) ⊎ ((cont : Bool) × (r ≡ collected event cont))

module _ {W : Type 0} where
  abbrev has_more : EventSourceBinding W → W → Bool → W × Bool
  has_more src w cont =
      let p = src.plugin.has_pending_event src.userdata w in (p.0, if p.1 then true else cont)

  sources_round-ok :
      (src : EventSourceBinding W) (srcs : List (EventSourceBinding W)) (merged : Bytes)
      (cont : Bool) (w : W)
      → is_success (get_event src w).1.0 ≡ true
      → sources_round (src ∷ srcs) merged cont w
        ≡ sources_round srcs
            (get_event src w).1.1
            (has_more src (get_event src w).0 cont).1
            (has_more src (get_event src w).0 cont).0
  unfolding sources_round
  sources_round-ok src srcs merged cont w ok =
      rw (ok, sources_round) (rw (merged_with-last merged (get_event src w).1.1) refl)

  sources_round-wrong :
      (src : EventSourceBinding W) (srcs : List (EventSourceBinding W)) (merged : Bytes)
      (cont : Bool) (w : W)
      → is_success (get_event src w).1.0 ≡ false
      → sources_round (src ∷ srcs) merged cont w
        ≡ ((get_event src w).0, went_wrong (get_event src w).1.0)
  unfolding sources_round
  sources_round-wrong src srcs merged cont w e = rw (e, sources_round) refl

  last-Gives :
      (srcs : List (EventSourceBinding W)) (src : EventSourceBinding W) (merged : Bytes)
      (cont : Bool) (w : W)
      → Gives
          (get_event src (sources_round srcs merged cont w).0).1.1
          (sources_round (srcs ++ src ∷ []) merged cont w).1
  unfolding sources_round
  last-Gives [] src merged cont w = elim (Bool-cases (is_success (get_event src w).1.0)) [
    | inl ok ↦ rw (sources_round-ok src [] merged cont w ok) (inr (_, refl))
    | inr e ↦ rw (sources_round-wrong src [] merged cont w e) (inl (_, refl))
  ]
  last-Gives (s ∷ srcs) src merged cont w = elim (Bool-cases (is_success (get_event s w).1.0)) [
    | inl ok ↦
        rw
          (
            sources_round-ok s (srcs ++ src ∷ []) merged cont w ok,
            sources_round-ok s srcs merged cont w ok,
          )
          (last-Gives srcs src (get_event s w).1.1 _ _)
    | inr e ↦ rw (sources_round-wrong s (srcs ++ src ∷ []) merged cont w e) (inl (_, refl))
  ]

  -- A round over several sources fails, or gives the event of the last one alone: the events of the others are
  -- overwritten, even where the last one has none.
  sources_round-last :
      (srcs : List (EventSourceBinding W)) (src : EventSourceBinding W) (w : W)
      → Gives
          (get_event src (sources_round srcs [] false w).0).1.1
          (sources_round (srcs ++ src ∷ []) [] false w).1
  sources_round-last srcs src w = last-Gives srcs src [] false w

  module _ (targets : List (TargetBinding W)) (binding : EventBinding W) (now : ℕ) where
    -- Each round after which there is more comes nearer to an end.
    abbrev pub RunsDry : (W → ℕ) → Type 0
    RunsDry left =
        (w : W) (merged : Bytes)
        → (sources_round binding.sources [] false w).1 ≡ collected merged true
        → left
            (emit_merged targets binding now merged (sources_round binding.sources [] false w).0).0
          < left w

    abbrev after_round : ℕ → W × Round → Option (W × ReturnCode)
    after_round fuel s = elim s.1 [
      | went_wrong rc ↦ some (s.0, rc)
      | collected merged cont ↦
          let e = emit_merged targets binding now merged s.0 in
          elim (is_success e.1) [
            | false ↦ some (e.0, e.1)
            | true ↦ elim cont [
              | true ↦ process_rounds fuel targets binding now e.0
              | false ↦ some (e.0, success)
            ]
          ]
    ]

    abbrev Answers : ℕ → W → Type 0
    Answers fuel w = (r : W × ReturnCode) × (process_rounds fuel targets binding now w ≡ some r)

    after_round-ends :
        (fuel : ℕ) (s : W × Round)
        → ((merged : Bytes)
            → s.1 ≡ collected merged true
            → Answers fuel (emit_merged targets binding now merged s.0).0)
        → (r : W × ReturnCode) × (after_round fuel s ≡ some r)
    after_round-ends fuel (w, went_wrong rc) ih = (_, refl)
    after_round-ends fuel (w, collected merged cont) ih =
        elim (Bool-cases (is_success (emit_merged targets binding now merged w).1)) [
          | inr e ↦ rw (e, after_round) (_, refl)
          | inl ok ↦ rw (ok, after_round) (go cont ih)
        ]
      where
        go :
            (cont : Bool)
            → ((m : Bytes)
                → collected merged cont ≡ collected m true
                → Answers fuel (emit_merged targets binding now m w).0)
            → (r : W × ReturnCode) × ((elim cont [
              | true ↦
                  process_rounds fuel targets binding now
                    (emit_merged targets binding now merged w).0
              | false ↦ some ((emit_merged targets binding now merged w).0, success)
            ])
                ≡ some r)
        go true ih = ih merged refl
        go false ih = (_, refl)

    process_rounds-ends :
        (left : W → ℕ) → RunsDry left → (fuel : ℕ) (w : W) → left w < fuel → Answers fuel w
    unfolding process_rounds
    process_rounds-ends left dry zero w h = absurd (omega arith)
    process_rounds-ends left dry (suc fuel) w h =
        after_round-ends fuel (sources_round binding.sources [] false w)
          λ merged e. process_rounds-ends left dry fuel _ (omega (arith, dry w merged e))

    -- If every round after which a source has more comes nearer to an end of the sources, `processEvent` returns.
    pub process_event-ends :
        (left : W → ℕ)
        → RunsDry left
        → (fuel : ℕ) (w : W) → left w < fuel
        → (r : W × ReturnCode) × (process_event fuel targets binding now w ≡ some r)
    unfolding process_event
    process_event-ends left dry fuel w h = go binding.sources
      where
        go :
            (srcs : List (EventSourceBinding W))
            → (r : W × ReturnCode) × ((elim srcs [
              | [] ↦ some (w, success)
              | _ ∷ _ ↦ process_rounds fuel targets binding now w
            ])
                ≡ some r)
        go [] = (_, refl)
        go (s ∷ srcs) = process_rounds-ends left dry fuel w h
