-- ===== src/Eventql/Target/Routes.antt =====
-- Where the events of a name go.
use evcollect.Prelude.{
  ◌≡◌, ◌≢◌, refl, sym, ap, ◌∙◌, inl, inr, true, false, Bool-cases, Option, none, some, List, [],
  ◌∷◌, ◌++◌, Bytes, codes, arith, append-nil, str_eq, str_eq_iff,
}
use evcollect.Util.ReturnCode.{ReturnCode, is_success}
use evcollect.Util.StringUtil.{split, join, join_more}
use evcollect.Util.StringUtil.Split.{split-IsSplit}
use evcollect.Eventql.Target.{EnqueuedEvent, EventRouting, two_parts, emit_event, invalid_target}

-- The events that go down these routes, one for each route of the name, to where its target says.
pub data Routed (event_name event_data : Bytes)
    : List EventRouting → List EnqueuedEvent → Type 0 where
  end_of_routes : Routed event_name event_data [] []
  another :
      {routes : List EventRouting} {events : List EnqueuedEvent} (name target : Bytes)
      → name ≢ event_name
      → Routed event_name event_data routes events
      → Routed event_name event_data
          (record { event_name_match = name; target = target } ∷ routes)
          events
  matching :
      {routes : List EventRouting} {events : List EnqueuedEvent} (database table : Bytes)
      → Routed event_name event_data routes events
      → Routed event_name event_data
          (record { event_name_match = event_name; target = database ++ (codes "/" ++ table) }
            ∷ routes)
          (record { database = database; table = table; payload = event_data } ∷ events)

joined_parts :
    (parts : List Bytes) (target d t : Bytes)
    → join parts (codes "/") ≡ target
    → two_parts (some parts) ≡ some (d, t)
    → target ≡ d ++ (codes "/" ++ t)
unfolding join join_more
joined_parts [] target d t j p = absurd (ground arith)
joined_parts (a ∷ []) target d t j p = absurd (ground arith)
joined_parts (a ∷ b ∷ []) target d t j p =
    let q : (a, b) ≡ (d, t) =
      ap (λ (o : Option (Bytes × Bytes)). elim o [ none ↦ (a, b) | some x ↦ x ]) p in
    sym j ∙ rw (append-nil b) (ap (λ (x : Bytes × Bytes). x.0 ++ (codes "/" ++ x.1)) q)
joined_parts (a ∷ b ∷ c ∷ more) target d t j p = absurd (ground arith)

two_parts-join :
    (target d t : Bytes)
    → two_parts (split target (codes "/")) ≡ some (d, t)
    → target ≡ d ++ (codes "/" ++ t)
two_parts-join target d t e =
    let (parts, s, j, _) = split-IsSplit target (codes "/") (ground arith) in
    joined_parts parts target d t j (ap two_parts (sym s) ∙ e)

module _ (event_name event_data : Bytes) where
  matching-at :
      (routes : List EventRouting) (events : List EnqueuedEvent) (name target d t : Bytes)
      → name ≡ event_name
      → target ≡ d ++ (codes "/" ++ t)
      → Routed event_name event_data routes events
      → Routed event_name event_data
          (record { event_name_match = name; target = target } ∷ routes)
          (record { database = d; table = t; payload = event_data } ∷ events)
  matching-at routes events name target d t en et r = rw (en, et) (Routed.matching d t r)

  module _ (route : EventRouting) (routes : List EventRouting) where
    emit_event-other :
        str_eq route.event_name_match event_name ≡ false
        → emit_event (route ∷ routes) event_name event_data
          ≡ emit_event routes event_name event_data
    unfolding emit_event
    emit_event-other e = rw e refl

    abbrev routed_to : Option (Bytes × Bytes) → List EnqueuedEvent × ReturnCode
    routed_to o = elim o [
      | none ↦ ([], invalid_target)
      | some dt ↦ (
        record { database = dt.0; table = dt.1; payload = event_data }
            ∷ (emit_event routes event_name event_data).0,
        (emit_event routes event_name event_data).1,
      )
    ]

    emit_event-match :
        (o : Option (Bytes × Bytes))
        → str_eq route.event_name_match event_name ≡ true
        → two_parts (split route.target (codes "/")) ≡ o
        → emit_event (route ∷ routes) event_name event_data ≡ routed_to o
    unfolding emit_event
    emit_event-match o e p = rw e (ap routed_to p)

    abbrev Carries : List EnqueuedEvent × ReturnCode → Type 0
    Carries r = is_success r.1 ≡ true → Routed event_name event_data (route ∷ routes) r.0

    match-Carries :
        (o : Option (Bytes × Bytes))
        → route.event_name_match ≡ event_name
        → two_parts (split route.target (codes "/")) ≡ o
        → (is_success (emit_event routes event_name event_data).1 ≡ true
            → Routed event_name event_data routes (emit_event routes event_name event_data).0)
        → Carries (routed_to o)
    match-Carries none en p ih ok = absurd (ground arith)
    match-Carries (some (d, t)) en p ih ok =
        matching-at routes (emit_event routes event_name event_data).0 route.event_name_match
          route.target d t en (two_parts-join route.target d t p) (ih ok)

-- If `emitEvent` succeeds, it enqueued the event once for each route of its name, in the order of the routes,
-- for the database and the table that are written in the target of the route.
pub emit_event-Routed :
    (routes : List EventRouting) (event_name event_data : Bytes)
    → is_success (emit_event routes event_name event_data).1 ≡ true
    → Routed event_name event_data routes (emit_event routes event_name event_data).0
unfolding emit_event
emit_event-Routed [] event_name event_data = λ ok. Routed.end_of_routes
emit_event-Routed (route ∷ routes) event_name event_data =
    elim (Bool-cases (str_eq route.event_name_match event_name)) [
      | inr e ↦
          let differs : route.event_name_match ≢ event_name =
            λ same. (let both : true ≡ false = sym ((str_eq_iff _ _).1 same) ∙ e in ground arith) in
          rw (emit_event-other event_name event_data route routes e) λ ok.
            Routed.another route.event_name_match route.target differs
              (emit_event-Routed routes event_name event_data ok)
      | inl e ↦ rw (emit_event-match event_name event_data route routes _ e refl) (
          match-Carries event_name event_data route routes _ ((str_eq_iff _ _).0 e) refl
            (emit_event-Routed routes event_name event_data))
    ]
