-- ===== src/Util/StringUtil/Search.antt =====
-- Where `find` looks: at the first place of the pattern, and at no other.
use mathlib.Core.Option
use evcollect.Prelude.{
  ℕ, zero, suc, ◌+◌, ◌-◌, ◌<◌, ◌≡◌, ◌≢◌, refl, sym, ap, ◌∙◌, ◌⊎◌, true, false, none, some, [], ◌∷◌,
  ◌++◌, append-nil, append_assoc, arith, Bytes, length, take, drop, length-append, take-append,
  drop-append, Bool-cases, Option-cases, inl, inr,
}
use evcollect.Util.StringUtil.{starts_with, find, find_from, includes}

-- A match: the text begins with the pattern.
starts_with-split : (p s : Bytes) → starts_with p s ≡ true → s ≡ p ++ drop (length p) s
unfolding starts_with
starts_with-split [] s h = refl
starts_with-split (p ∷ ps) [] h = cc
starts_with-split (p ∷ ps) (c ∷ cs) h = ground (arith, starts_with-split ps cs)

nil-starts_with : (p : Bytes) → starts_with p [] ≡ true → p ≡ []
unfolding starts_with
nil-starts_with [] h = refl
nil-starts_with (x ∷ xs) h = cc

-- The text around the place that `find` returns.
abbrev Around : Bytes → Bytes → ℕ → Type 0
Around p s k = (a : Bytes) × (b : Bytes) × (s ≡ a ++ (p ++ b)) × (length a ≡ k)

find-Around : (p s : Bytes) (k : ℕ) → find p s ≡ some k → Around p s k
unfolding find
find-Around p [] k h = elim (Bool-cases (starts_with p [])) [
  | inl e ↦ ([], [], ground (arith, nil-starts_with p e, append-nil p), ground arith)
  | inr e ↦ absurd (ground arith)
]
find-Around p (c ∷ cs) k h = elim (Bool-cases (starts_with p (c ∷ cs))) [
  | inl e ↦ ([], drop (length p) (c ∷ cs), starts_with-split p (c ∷ cs) e, ground arith)
  | inr e ↦ elim (Option-cases (find p cs)) [
    | inl f ↦ absurd (ground arith)
    | inr (j, f) ↦ let (a, b, g, l) = find-Around p cs j f in (c ∷ a, b, ap (◌∷◌ c) g, ground arith)
  ]
]

starts_with-take : (p s : Bytes) (k : ℕ) → starts_with p (take k s) ≡ true → starts_with p s ≡ true
unfolding starts_with
starts_with-take [] s k h = refl
starts_with-take (p ∷ ps) [] zero h = cc
starts_with-take (p ∷ ps) [] (suc k) h = cc
starts_with-take (p ∷ ps) (c ∷ cs) zero h = cc
starts_with-take (p ∷ ps) (c ∷ cs) (suc k) h = ground (arith, starts_with-take ps cs k)

-- The pattern stands nowhere before the place that `find` returns.
find-take : (p s : Bytes) (k : ℕ) → p ≢ [] → find p s ≡ some k → find p (take k s) ≡ none
unfolding find
find-take p [] zero ne h = ground (arith, nil-starts_with p)
find-take p [] (suc k) ne h = ground (arith, nil-starts_with p)
find-take p (c ∷ cs) zero ne h = ground (arith, nil-starts_with p)
find-take p (c ∷ cs) (suc k) ne h =
    ground (arith, starts_with-take p (c ∷ cs) (suc k), find-take p cs k ne)

pub find_from-append :
    (p pre s : Bytes)
    → find_from p (pre ++ s) (length pre) ≡ Option.map (◌+◌ (length pre)) (find p s)
unfolding find_from
find_from-append p pre s = rw drop-append (ground (arith, length-append pre s))

pub find-cases :
    (p s : Bytes)
    → (find p s ≡ none)
      ⊎ ((a : Bytes) × (b : Bytes) × (s ≡ a ++ (p ++ b))
          × (find p (a ++ (p ++ b)) ≡ some (length a)))
find-cases p s = elim (Option-cases (find p s)) [
  | inl e ↦ inl e
  | inr (k, e) ↦
      let (a, b, f, l) = find-Around p s k e in
      inr (a, b, f, ap (find p) (sym f) ∙ e ∙ ap some (sym l))
]

pub separate_head :
    (p s a b : Bytes) → p ≢ [] → find p (a ++ (p ++ b)) ≡ some (length a) → find p a ≡ none
separate_head p s a b ne e = rw take-append at (find-take p (a ++ (p ++ b)) (length a) ne e)

pub pos-length : (p : Bytes) → p ≢ [] → 0 < length p
pos-length [] ne = absurd (ne refl)
pos-length (x ∷ xs) ne = omega arith

pub length-Around : (p a b : Bytes) → length (a ++ (p ++ b)) ≡ length a + (length p + length b)
length-Around p a b = omega (arith, length-append a (p ++ b), length-append p b)

pub length-append-sub : (a b : Bytes) → length (a ++ b) - length a ≡ length b
length-append-sub a b = omega (arith, length-append a b)

pub regroup : (a b c d : Bytes) → a ++ (b ++ (c ++ d)) ≡ ((a ++ b) ++ c) ++ d
regroup a b c d = simp append_assoc

pub take-regroup : (a b c : Bytes) → take (length (a ++ b)) (a ++ (b ++ c)) ≡ a ++ b
take-regroup a b c = rw (← append_assoc a b c, take-append (a ++ b) c)

pub drop-regroup : (a b c d : Bytes) → drop (length (a ++ b) + length c) (a ++ (b ++ (c ++ d))) ≡ d
drop-regroup a b c d =
    rw (← length-append (a ++ b) c, regroup a b c d, drop-append ((a ++ b) ++ c) d)

pub find-includes : (p t : Bytes) → find p t ≡ none → includes t p ≡ false
unfolding includes
find-includes p t h = rw (h, includes)

pub shorter :
    (fuel : ℕ) (p s a b : Bytes)
    → p ≢ []
    → s ≡ a ++ (p ++ b)
    → length s < suc fuel
    → length b < fuel
shorter fuel p s a b ne f h = omega (arith, ap length f, length-Around p a b, pos-length p ne)

pub find-nil : (p : Bytes) → p ≢ [] → find p [] ≡ none
unfolding find
find-nil p ne = ground (arith, nil-starts_with p)
