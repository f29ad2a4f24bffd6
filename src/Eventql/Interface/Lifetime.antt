-- ===== src/Eventql/Interface/Lifetime.antt =====
-- A target of the plugin is what it was attached as until it is detached.
use evcollect.Prelude.{
  ℕ, zero, suc, ◌≡◌, ◌≢◌, ◌⊎◌, inl, inr, refl, ap, ◌∙◌, Bool-cases, true, Option, none, some, List,
  [], ◌∷◌, ◌++◌, arith, Bytes, length, get_elem?, set_elem, All,
}
use evcollect.Events.{PropertyList, EventData}
use evcollect.Util.ReturnCode.{is_success}
use evcollect.Eventql.Target.{
  EventQlTarget, Attached, attach_error, attached, plugin_attach, emit_event,
}
use evcollect.Eventql.Interface.{
  UploadThreads, Targets, enqueue_all, emitted, eventql_attach, eventql_detach, eventql_emit_event,
}

get_elem?-append :
    {A : Type 0} (xs ys : List A) (i : ℕ) (x : A)
    → get_elem? xs i ≡ some x
    → get_elem? (xs ++ ys) i ≡ some x
get_elem?-append [] ys i x e = ground arith
get_elem?-append (y ∷ xs) ys zero x e = e
get_elem?-append (y ∷ xs) ys (suc i) x e = get_elem?-append xs ys i x e

get_elem?-last : {A : Type 0} (xs : List A) (x : A) → get_elem? (xs ++ x ∷ []) (length xs) ≡ some x
get_elem?-last [] x = refl
get_elem?-last (y ∷ xs) x = get_elem?-last xs x

get_elem?-set_elem :
    {A : Type 0} (xs : List A) (i j : ℕ) (x : A)
    → i ≢ j
    → get_elem? (set_elem j x xs) i ≡ get_elem? xs i
get_elem?-set_elem [] i j x n = refl
get_elem?-set_elem (y ∷ xs) zero zero x n = absurd (n refl)
get_elem?-set_elem (y ∷ xs) zero (suc j) x n = refl
get_elem?-set_elem (y ∷ xs) (suc i) zero x n = refl
get_elem?-set_elem (y ∷ xs) (suc i) (suc j) x n = get_elem?-set_elem xs i j x (λ e. n (ap suc e))

Attached-cases :
    (a : Attached) → ((m : Bytes) × (a ≡ attach_error m)) ⊎ ((t : EventQlTarget) × (a ≡ attached t))
Attached-cases (attach_error m) = inl (m, refl)
Attached-cases (attached t) = inr (t, refl)

-- A call of the plugin.
pub data Call : Type 0 where
  attaches : PropertyList → Call
  detaches : ℕ → Call
  emits : ℕ → EventData → Call

-- The call is no detaching of the target.
abbrev Spares : ℕ → Call → Type 0
Spares userdata (attaches config) = Unit
Spares userdata (detaches other) = userdata ≢ other
Spares userdata (emits other event) = Unit

module _ {T : Type 0} (ops : UploadThreads T) (stoull : Bytes → Option ℕ) (indeterminate : ℕ) where
  pub call : Call → Targets T → Targets T
  call (attaches config) p = (eventql_attach ops stoull indeterminate config p).0
  call (detaches userdata) p = eventql_detach ops userdata p
  call (emits userdata event) p = (eventql_emit_event ops userdata event p).0

  pub calls : List Call → Targets T → Targets T
  calls [] p = p
  calls (c ∷ cs) p = calls cs (call c p)

  abbrev Holds : ℕ → EventQlTarget → Targets T → Type 0
  Holds userdata target p = get_elem? p.targets userdata ≡ some (some target)

  emit-targets :
      (userdata : ℕ) (event : EventData) (p : Targets T)
      → (eventql_emit_event ops userdata event p).0.targets ≡ p.targets
  unfolding eventql_emit_event
  emit-targets userdata event p = ground arith

  attach-Holds :
      (config : PropertyList) (p : Targets T) (userdata : ℕ) (target : EventQlTarget)
      → Holds userdata target p
      → Holds userdata target (eventql_attach ops stoull indeterminate config p).0
  unfolding eventql_attach
  attach-Holds config p userdata target h =
      elim (Attached-cases (plugin_attach stoull config.properties)) [
        | inl (message, e) ↦ rw (e, eventql_attach) h
        | inr (t, e) ↦
            rw (e, eventql_attach)
              (get_elem?-append p.targets (some t ∷ []) userdata (some target) h)
      ]

  call-Holds :
      (c : Call) (p : Targets T) (userdata : ℕ) (target : EventQlTarget)
      → Spares userdata c
      → Holds userdata target p
      → Holds userdata target (call c p)
  unfolding call eventql_detach
  call-Holds (attaches config) p userdata target n h = attach-Holds config p userdata target h
  call-Holds (detaches other) p userdata target n h =
      get_elem?-set_elem p.targets userdata other none n ∙ h
  call-Holds (emits other event) p userdata target n h =
      ap (λ targets. get_elem? targets userdata) (emit-targets other event p) ∙ h

  calls-Holds :
      (cs : List Call) (p : Targets T) (userdata : ℕ) (target : EventQlTarget)
      → All (Spares userdata) cs
      → Holds userdata target p
      → Holds userdata target (calls cs p)
  unfolding calls
  calls-Holds [] p userdata target n h = h
  calls-Holds (c ∷ cs) p userdata target n h =
      calls-Holds cs (call c p) userdata target n.1 (call-Holds c p userdata target n.0 h)

  attach-attached :
      (config : PropertyList) (target : EventQlTarget) (p : Targets T)
      → plugin_attach stoull config.properties ≡ attached target
      → eventql_attach ops stoull indeterminate config p ≡ (
        record p {
          targets = p.targets ++ some target ∷ [];
          threads = ops.start (length p.targets) target p.threads;
        },
        (true, length p.targets),
      )
  unfolding eventql_attach
  attach-attached config target p e = rw (e, eventql_attach) refl

  emit-Holds :
      (userdata : ℕ) (target : EventQlTarget) (event : EventData) (p : Targets T)
      → Holds userdata target p
      → eventql_emit_event ops userdata event p ≡ emitted ops userdata target event p
  unfolding eventql_emit_event
  emit-Holds userdata target event p h = rw (h, eventql_emit_event) refl

  emitted-parts :
      (userdata : ℕ) (target : EventQlTarget) (event : EventData) (p : Targets T)
      → let (p', done) = emitted ops userdata target event p in
        let (evs, rc) = emit_event target.routes event.event_name event.event_data in
        (done ≡ is_success rc)
        × (p'.threads ≡ enqueue_all ops userdata evs p.threads)
        × (p'.targets ≡ p.targets)
  emitted-parts userdata target event p =
      elim (Bool-cases
        (is_success (emit_event target.routes event.event_name event.event_data).1)) [
          | inl e ↦ rw e (refl, refl, refl)
          | inr e ↦ rw e (refl, refl, refl)
        ]

  -- A configuration that `pluginAttach` accepts gives a pointer. Whatever the plugin is called for in between, as long
  -- as this target is not detached, an event that is emitted at the pointer enqueues what `emitEvent` enqueues
  -- by the routes of the configuration, for this target, and succeeds exactly where that does.
  pub emit-attached :
      (config : PropertyList) (target : EventQlTarget) (p : Targets T) (cs : List Call)
      (event : EventData)
      → plugin_attach stoull config.properties ≡ attached target
      → All (Spares (length p.targets)) cs
      → let (p1, (ok, userdata)) = eventql_attach ops stoull indeterminate config p in
        let p2 = calls cs p1 in
        let (p3, emitted) = eventql_emit_event ops userdata event p2 in
        let (evs, rc) = emit_event target.routes event.event_name event.event_data in
        (ok ≡ true)
        × (emitted ≡ is_success rc)
        × (p3.threads ≡ enqueue_all ops userdata evs p2.threads)
        × (p3.targets ≡ p2.targets)
  emit-attached config target p cs event e n =
      let p1 = (record p {
        targets = p.targets ++ some target ∷ [];
        threads = ops.start (length p.targets) target p.threads;
      }) in
      let held =
        calls-Holds cs p1 (length p.targets) target n (get_elem?-last p.targets (some target)) in
      let (done, enqueued, kept) = emitted-parts (length p.targets) target event (calls cs p1) in
      rw
        (
          attach-attached config target p e,
          emit-Holds (length p.targets) target event (calls cs p1) held,
        )
        (refl, done, enqueued, kept)
