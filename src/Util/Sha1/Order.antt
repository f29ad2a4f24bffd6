-- ===== src/Util/Sha1/Order.antt =====
-- The order of hashes.
mod Tests
use mathlib.Core.Path.{subst}
use evcollect.Prelude.{
  ℕ, zero, suc, ◌+◌, ◌*◌, ◌<◌, ◌≡◌, ◌↔◌, refl, sym, ap, ◌∙◌, Bool, true, false, [], ◌∷◌, Bytes,
  length, ltb→lt, ltb→ge, Bool-cases, inl, inr, take, take-all, get_or, ltb, str_eq, str_eq_iff,
  le_value, All, arith, if◌then◌else◌,
}
use evcollect.Util.Chars.{Comparison, less, equal, greater}
use evcollect.Util.Sha1.{hash_size, compare_from, hash_compare, hash_eq, hash_lt, hash_gt}

abbrev compare_byte : ℕ → ℕ → Comparison
compare_byte x y = if ltb x y then less else if ltb y x then greater else equal

abbrev then_by : Comparison → Comparison → Comparison
then_by less c = less
then_by equal c = c
then_by greater c = greater

compare_from-cons :
    (n x y : ℕ) (a b : Bytes)
    → compare_from (suc n) (x ∷ a) (y ∷ b) ≡ then_by (compare_from n a b) (compare_byte x y)
unfolding compare_from
compare_from-cons zero x y a b = ground arith
compare_from-cons (suc n) x y a b = ground (arith, compare_from-cons n x y a b)

-- What a comparison says of two numbers.
abbrev Ordered : Comparison → ℕ → ℕ → Type 0
Ordered less m n = m < n
Ordered equal m n = m ≡ n
Ordered greater m n = n < m

cons-Ordered :
    (c : Comparison) (x y m n : ℕ)
    → x < 256
    → y < 256
    → Ordered c m n
    → Ordered (then_by c (compare_byte x y)) (x + 256 * m) (y + 256 * n)
cons-Ordered less x y m n hx hy h = omega arith
cons-Ordered greater x y m n hx hy h = omega arith
cons-Ordered equal x y m n hx hy h = elim (Bool-cases (ltb x y)) [
  | inl l ↦ rw l (omega (arith, ltb→lt x y l))
  | inr l ↦ elim (Bool-cases (ltb y x)) [
    | inl g ↦ rw (l, g) (omega (arith, ltb→lt y x g))
    | inr g ↦ rw (l, g) (omega (arith, ltb→ge x y l, ltb→ge y x g))
  ]
]

compare_from-Ordered :
    (a b : Bytes)
    → length a ≡ length b
    → All (λ byte. byte < 256) a
    → All (λ byte. byte < 256) b
    → Ordered (compare_from (length a) a b) (le_value a) (le_value b)
unfolding le_value compare_from
compare_from-Ordered [] [] l ha hb = refl
compare_from-Ordered [] (y ∷ b) l ha hb = absurd (omega arith)
compare_from-Ordered (x ∷ a) [] l ha hb = absurd (omega arith)
compare_from-Ordered (x ∷ a) (y ∷ b) l ha hb = rw (compare_from-cons (length a) x y a b) (
    cons-Ordered (compare_from (length a) a b) x y (le_value a) (le_value b) ha.0 hb.0
      (compare_from-Ordered a b (omega arith) ha.1 hb.1))

le_value-injective :
    (a b : Bytes)
    → length a ≡ length b
    → All (λ byte. byte < 256) a
    → All (λ byte. byte < 256) b
    → le_value a ≡ le_value b
    → a ≡ b
unfolding le_value
le_value-injective [] [] l ha hb e = refl
le_value-injective [] (y ∷ b) l ha hb e = absurd (omega arith)
le_value-injective (x ∷ a) [] l ha hb e = absurd (omega arith)
le_value-injective (x ∷ a) (y ∷ b) l ha hb e =
    let same : x ≡ y = omega (arith, ha.0, hb.0) in
    let rest = le_value-injective a b (omega arith) ha.1 hb.1 (omega (arith, ha.0, hb.0)) in
    ap (λ byte. byte ∷ a) same ∙ ap (λ bytes. y ∷ bytes) rest

-- What the operators make of a comparison.
abbrev is_less : Comparison → Bool
is_less c = elim c [ less ↦ true | equal ↦ false | greater ↦ false ]

abbrev is_greater : Comparison → Bool
is_greater c = elim c [ less ↦ false | equal ↦ false | greater ↦ true ]

Ordered-tests :
    (c : Comparison) (m n : ℕ)
    → Ordered c m n
    → ((is_less c ≡ true) ↔ (m < n)) × ((is_greater c ≡ true) ↔ (n < m))
Ordered-tests less m n h = ((λ e. h, λ l. refl), (λ e. ground arith, λ l. absurd (omega arith)))
Ordered-tests equal m n h =
    ((λ e. ground arith, λ l. absurd (omega arith)), (λ e. ground arith, λ l. absurd (omega arith)))
Ordered-tests greater m n h = ((λ e. ground arith, λ l. absurd (omega arith)), (λ e. h, λ l. refl))

-- Hashes of 20 bytes are ordered as the numbers whose bytes they are, with the lowest first: by the last byte before
-- all others, unlike their texts.
pub hash_lt-le_value :
    (a b : Bytes)
    → length a ≡ 20
    → length b ≡ 20
    → All (λ byte. byte < 256) a
    → All (λ byte. byte < 256) b
    → ((hash_lt a b ≡ true) ↔ (le_value a < le_value b))
      × ((hash_gt a b ≡ true) ↔ (le_value b < le_value a))
      × ((hash_eq a b ≡ true) ↔ (le_value a ≡ le_value b))
unfolding hash_lt hash_gt hash_eq hash_compare
hash_lt-le_value a b la lb ha hb =
    let ordered : Ordered (compare_from 20 a b) (le_value a) (le_value b) =
      subst (λ n. Ordered (compare_from n a b) (le_value a) (le_value b)) la
        (compare_from-Ordered a b (la ∙ sym lb) ha hb) in
    let (is_lt, is_gt) = Ordered-tests (compare_from 20 a b) (le_value a) (le_value b) ordered in
    let whole_a : take 20 a ≡ a = take-all 20 a (omega arith) in
    let whole_b : take 20 b ≡ b = take-all 20 b (omega arith) in
    let same = str_eq_iff a b in
    (
      is_lt,
      is_gt,
      rw (whole_a, whole_b)
          (λ e. ap le_value (same.0 e), λ e. same.1 (le_value-injective a b (la ∙ sym lb) ha hb e)),
    )
