-- ===== src/Prelude/Loop.antt =====
-- Loops of the source by their test and their body, on fuel.
use Prim.Native.Nat.{ℕ, zero, suc, ◌<◌}
use mathlib.Core.Path.{◌≡◌}
use mathlib.Core.Bool.{Bool, true, false}
use native.Mathlib.Omega.{arith}

-- Each round takes one unit of fuel; a state that fails the test is the result.
unfoldable pub while {ℓ} : {A : Type ℓ} → ℕ → (A → Bool) → (A → A) → A → A
while zero going next a = a
while (suc rounds) going next a = elim (going a) [
  | false ↦ a
  | true ↦ while rounds going next (next a)
]

-- An invariant of the rounds holds at the end, and the test fails there, if a size that every round
-- makes smaller was below the fuel.
pub while_inv {ℓ κ} :
    {A : Type ℓ} (Inv : A → Type κ) (size : A → ℕ) (going : A → Bool) (next : A → A)
    → ((a : A) → Inv a → going a ≡ true → Inv (next a) × (size (next a) < size a))
    → (rounds : ℕ) (a : A) → size a < rounds
    → Inv a
    → Inv (while rounds going next a) × (going (while rounds going next a) ≡ false)
unfolding while
while_inv Inv size going next step zero a lt i = absurd (omega arith)
while_inv Inv size going next step (suc rounds) a lt i =
    ground (arith, step a i, while_inv Inv size going next step rounds (next a))
