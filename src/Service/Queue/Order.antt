-- ===== src/Service/Queue/Order.antt =====
-- The queue stays in order, and holds every event once.
use evcollect.Prelude.{
  ℕ, zero, suc, ◌+◌, ◌≤◌, ◌<◌, ◌≡◌, ◌≢◌, refl, ap, ◌∙◌, Bool-cases, inl, inr, none, some, Option,
  List, [], ◌∷◌, ◌++◌, arith, All, count, get_elem?, set_elem, length, length-append, ltb, ◌==◌,
  if◌then◌else◌,
}
use evcollect.Service.{EventBinding}
use evcollect.Service.Queue.{next_tick_of, queue_insert}

abbrev pub Sorted : (ℕ → ℕ) → List ℕ → Type 0
Sorted tick [] = Unit
Sorted tick (i ∷ q) = All (λ j. tick i ≤ tick j) q × Sorted tick q

-- The queue of a service: in order, and each event of the table once.
pub record Queued {W : Type 0} (bindings : List (EventBinding W)) (queue : List ℕ) : Type 0 where
  pub sorted : Sorted (next_tick_of bindings) queue
  pub once : (i : ℕ) → count i queue ≡ (if ltb i (length bindings) then 1 else 0)

module _ (tick : ℕ → ℕ) (i : ℕ) where
  queue_insert-All : (P : ℕ → Type 0) (q : List ℕ) → P i → All P q → All P (queue_insert tick i q)
  unfolding queue_insert
  queue_insert-All P [] p h = (p, tt)
  queue_insert-All P (j ∷ q) p h = elim (Bool-cases (ltb (tick i) (tick j))) [
    | inl e ↦ rw e (p, h)
    | inr e ↦ rw e (h.0, queue_insert-All P q p h.1)
  ]

  All-below :
      (j : ℕ) (q : List ℕ)
      → tick i ≤ tick j
      → All (λ k. tick j ≤ tick k) q
      → All (λ k. tick i ≤ tick k) q
  All-below j [] l h = tt
  All-below j (k ∷ q) l h = (omega (arith, h.0), All-below j q l h.1)

  queue_insert-Sorted : (q : List ℕ) → Sorted tick q → Sorted tick (queue_insert tick i q)
  unfolding queue_insert
  queue_insert-Sorted [] h = (tt, tt)
  queue_insert-Sorted (j ∷ q) h = elim (Bool-cases (ltb (tick i) (tick j))) [
    | inl e ↦ let le : tick i ≤ tick j = ground arith in rw e ((le, All-below j q le h.0), h)
    | inr e ↦
        rw e
          (queue_insert-All (λ k. tick j ≤ tick k) q (ground arith) h.0, queue_insert-Sorted q h.1)
  ]

  count-queue_insert :
      (k : ℕ) (q : List ℕ) → count k (queue_insert tick i q) ≡ (if i == k then 1 else 0) + count k q
  unfolding queue_insert
  count-queue_insert k [] = refl
  count-queue_insert k (j ∷ q) = elim (Bool-cases (ltb (tick i) (tick j))) [
    | inl e ↦ rw e refl
    | inr e ↦ rw e (omega (arith, count-queue_insert k q))
  ]

-- Ticks that agree on the queue keep its order.
pub Sorted-cong :
    (tick tick' : ℕ → ℕ) (q : List ℕ)
    → All (λ j. tick' j ≡ tick j) q
    → Sorted tick q
    → Sorted tick' q
Sorted-cong tick tick' [] e h = tt
Sorted-cong tick tick' (i ∷ q) e h = (go q e.1 h.0, Sorted-cong tick tick' q e.1 h.1)
  where
    go :
        (q : List ℕ)
        → All (λ j. tick' j ≡ tick j) q
        → All (λ j. tick i ≤ tick j) q
        → All (λ j. tick' i ≤ tick' j) q
    go [] e' h' = tt
    go (j ∷ q) e' h' = (omega (arith, e.0, e'.0, h'.0), go q e'.1 h'.1)

module _ {ℓ} {A : Type ℓ} where
  length-set_elem : (i : ℕ) (x : A) (xs : List A) → length (set_elem i x xs) ≡ length xs
  length-set_elem i x [] = refl
  length-set_elem zero x (y ∷ ys) = refl
  length-set_elem (suc i) x (y ∷ ys) = ap suc (length-set_elem i x ys)

  pub get_elem?-set_elem :
      (i : ℕ) (x : A) (xs : List A) → i < length xs → get_elem? (set_elem i x xs) i ≡ some x
  get_elem?-set_elem i x [] h = absurd (omega arith)
  get_elem?-set_elem zero x (y ∷ ys) h = refl
  get_elem?-set_elem (suc i) x (y ∷ ys) h = get_elem?-set_elem i x ys (omega arith)

  pub get_elem?-other :
      (i j : ℕ) (x : A) (xs : List A) → i ≢ j → get_elem? (set_elem i x xs) j ≡ get_elem? xs j
  get_elem?-other i j x [] n = refl
  get_elem?-other zero zero x (y ∷ ys) n = absurd (n refl)
  get_elem?-other zero (suc j) x (y ∷ ys) n = refl
  get_elem?-other (suc i) zero x (y ∷ ys) n = refl
  get_elem?-other (suc i) (suc j) x (y ∷ ys) n = get_elem?-other i j x ys (λ e. n (ap suc e))

  pub get_elem?-inside : (i : ℕ) (xs : List A) (x : A) → get_elem? xs i ≡ some x → i < length xs
  get_elem?-inside i [] x e = absurd (ground arith)
  get_elem?-inside zero (y ∷ ys) x e = omega arith
  get_elem?-inside (suc i) (y ∷ ys) x e = omega (arith, get_elem?-inside i ys x e)

  get_elem?-front :
      (i : ℕ) (xs ys : List A) → i < length xs → get_elem? (xs ++ ys) i ≡ get_elem? xs i
  get_elem?-front i [] ys h = absurd (omega arith)
  get_elem?-front zero (x ∷ xs) ys h = refl
  get_elem?-front (suc i) (x ∷ xs) ys h = get_elem?-front i xs ys (omega arith)

-- What holds of every number that occurs.
All-count : (P : ℕ → Type 0) (q : List ℕ) → ((j : ℕ) → 0 < count j q → P j) → All P q
All-count P [] h = tt
All-count P (i ∷ q) h = (h i (ground arith), All-count P q λ j l. h j (omega arith))

module _ {W : Type 0} where
  -- A new binding for the first event leaves the ticks of the others.
  pub others-tick :
      (bindings : List (EventBinding W)) (i : ℕ) (q : List ℕ) (job : EventBinding W)
      → Queued bindings (i ∷ q)
      → All (λ j. next_tick_of (set_elem i job bindings) j ≡ next_tick_of bindings j) q
  others-tick bindings i q job h = All-count _ q λ j l.
      ap (λ (o : Option (EventBinding W)). elim o [ none ↦ 0 | some b ↦ b.next_tick ])
        (get_elem?-other i j job bindings (λ e. ground (arith, gone)))
    where
      gone : count i q ≡ 0
      gone = ground (arith, h.once i)

  -- The first event of the queue is rescheduled.
  pub requeue-Queued :
      (bindings : List (EventBinding W)) (i : ℕ) (q : List ℕ) (job : EventBinding W)
      → Queued bindings (i ∷ q)
      → Queued (set_elem i job bindings) (queue_insert (next_tick_of (set_elem i job bindings)) i q)
  requeue-Queued bindings i q job h = record {
    sorted =
        queue_insert-Sorted _ i q (Sorted-cong _ _ q (others-tick bindings i q job h) h.sorted.1);
    once = λ k. rw (length-set_elem i job bindings) (count-queue_insert _ i k q ∙ h.once k);
  }

  -- A new event is queued.
  pub insert-Queued :
      (bindings : List (EventBinding W)) (q : List ℕ) (ev : EventBinding W)
      → Queued bindings q
      → Queued
          (bindings ++ ev ∷ [])
          (queue_insert (next_tick_of (bindings ++ ev ∷ [])) (length bindings) q)
  insert-Queued bindings q ev h = record {
    sorted = queue_insert-Sorted _ (length bindings) q (Sorted-cong _ _ q same h.sorted);
    once = λ k.
        count-queue_insert _ (length bindings) k q
        ∙ ground (arith, h.once k, length-append bindings (ev ∷ []));
  }
    where
      same : All (λ j. next_tick_of (bindings ++ ev ∷ []) j ≡ next_tick_of bindings j) q
      same = All-count _ q λ j l.
          ap (λ (o : Option (EventBinding W)). elim o [ none ↦ 0 | some b ↦ b.next_tick ])
            (get_elem?-front j bindings (ev ∷ []) (ground (arith, h.once j)))
