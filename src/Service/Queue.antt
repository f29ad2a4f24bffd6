-- ===== src/Service/Queue.antt =====
-- `queue_` of src/evcollect/service.cc: a `multiset` of events, in the order of their next ticks.
pub mod Order
use evcollect.Prelude.{ℕ, List, [], ◌∷◌, none, some, get_elem?, ltb, if◌then◌else◌}
use evcollect.Service.{EventBinding}

abbrev pub next_tick_of : {W : Type 0} → List (EventBinding W) → ℕ → ℕ
next_tick_of bindings i = elim (get_elem? bindings i) [ none ↦ 0 | some b ↦ b.next_tick ]

-- `insert`: behind the entries of the same tick.
unfoldable pub queue_insert : (ℕ → ℕ) → ℕ → List ℕ → List ℕ
queue_insert tick i [] = i ∷ []
queue_insert tick i (j ∷ q) =
    let later = queue_insert tick i q in if ltb (tick i) (tick j) then i ∷ j ∷ q else j ∷ later
