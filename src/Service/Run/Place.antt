-- ===== src/Service/Run/Place.antt =====
-- Where an event stands in the queue, and what a list keeps when one of its entries is replaced.
use mathlib.Core.Path.{subst}
use evcollect.Prelude.{
  ℕ, zero, suc, ◌≤◌, ◌<◌, ◌≡◌, refl, ap, inl, inr, false, Bool-cases, Option, none, some, List, [],
  ◌∷◌, arith, All, count, get_elem?, set_elem, ltb, ◌==◌, if◌then◌else◌,
}
use evcollect.Service.{EventBinding}
use evcollect.Service.Queue.{next_tick_of, queue_insert}
use evcollect.Service.Queue.Order.{Sorted}
use evcollect.Service.Run.{rescheduled}

-- How many events stand before one in the queue.
unfoldable pub position : ℕ → List ℕ → ℕ
position i [] = 0
position i (j ∷ q) = if j == i then 0 else suc (position i q)

pub All-at : (P : ℕ → Type 0) (i : ℕ) (q : List ℕ) → All P q → 0 < count i q → P i
All-at P i [] h l = absurd (omega arith)
All-at P i (j ∷ q) h l = elim (Bool-cases (j == i)) [
  | inl e ↦ let same : j ≡ i = ground arith in subst P same h.0
  | inr e ↦ All-at P i q h.1 (ground arith)
]

-- An event that is due no earlier goes behind it.
pub position-queue_insert :
    (tick : ℕ → ℕ) (i j : ℕ) (q : List ℕ)
    → tick i ≤ tick j
    → 0 < count i q
    → Sorted tick q
    → position i (queue_insert tick j q) ≡ position i q
unfolding queue_insert position
position-queue_insert tick i j [] le l h = absurd (omega arith)
position-queue_insert tick i j (k ∷ q) le l h =
    let before : tick k ≤ tick i = elim (Bool-cases (k == i)) [
      | inl e ↦ let same : k ≡ i = ground arith in rw same (omega arith)
      | inr e ↦ All-at (λ m. tick k ≤ tick m) i q h.0 (ground arith)
    ] in
    let later : ltb (tick j) (tick k) ≡ false = ground arith in
    rw later (elim (Bool-cases (k == i)) [
      | inl e ↦ rw e refl
      | inr e ↦ rw e (ap suc (position-queue_insert tick i j q le (ground arith) h.1))
    ])

pub All-get {ℓ κ} :
    {A : Type ℓ} (P : A → Type κ) (i : ℕ) (xs : List A) (x : A)
    → All P xs
    → get_elem? xs i ≡ some x
    → P x
All-get P i [] x h e = absurd (ground arith)
All-get P zero (y ∷ ys) x h e =
    subst P (ap (λ (o : Option _). elim o [ none ↦ y | some z ↦ z ]) e) h.0
All-get P (suc i) (y ∷ ys) x h e = All-get P i ys x h.1 e

pub All-set_elem {ℓ κ} :
    {A : Type ℓ} (P : A → Type κ) (i : ℕ) (x : A) (xs : List A)
    → All P xs
    → P x
    → All P (set_elem i x xs)
All-set_elem P i x [] h p = tt
All-set_elem P zero x (y ∷ ys) h p = (p, h.1)
All-set_elem P (suc i) x (y ∷ ys) h p = (h.0, All-set_elem P i x ys h.1 p)

pub next_tick_of-some :
    {W : Type 0} (bindings : List (EventBinding W)) (i : ℕ) (b : EventBinding W)
    → get_elem? bindings i ≡ some b
    → next_tick_of bindings i ≡ b.next_tick
next_tick_of-some {W} bindings i b e =
    ap (λ (o : Option (EventBinding W)). elim o [ none ↦ 0 | some b ↦ b.next_tick ]) e

pub finished-rescheduled :
    (interval next_tick finished : ℕ) → finished ≤ rescheduled interval next_tick finished
unfolding rescheduled
finished-rescheduled interval next_tick finished = ground arith
