-- ===== src/Logfile/Lines.antt =====
-- The first line of a text, and texts without their first bytes.
use mathlib.Core.Path.{subst}
use evcollect.Prelude.{
  ℕ, zero, suc, ◌+◌, ◌<◌, ◌≡◌, refl, sym, ap, ◌∙◌, ◌⊎◌, inl, inr, Bool-cases, Option, none, some,
  List, [], ◌∷◌, ◌++◌, append-nil, arith, Bytes, length, drop, drop-append, ◌==◌,
}
use evcollect.Logfile.Input.Blocks.{first_line, first_line-feed, first_line-none, first_line-some}

drop-nil {ℓ} : {A : Type ℓ} (n : ℕ) → drop {A = A} n [] ≡ []
drop-nil zero = refl
drop-nil (suc n) = refl

drop_add {ℓ} : {A : Type ℓ} (a b : ℕ) (xs : List A) → drop (a + b) xs ≡ drop b (drop a xs)
drop_add zero b xs = ap (λ n. drop n xs) (omega arith)
drop_add {A} (suc a) b [] = drop-nil (suc a + b) ∙ sym (drop-nil {A = A} b)
drop_add (suc a) b (x ∷ xs) =
    let e : suc a + b ≡ suc (a + b) = omega arith in rw e (drop_add a b xs)

pub drop-more : (o : ℕ) (l t s : Bytes) → drop o s ≡ l ++ t → drop (o + length l) s ≡ t
drop-more o l t s e = drop_add o (length l) s ∙ ap (drop (length l)) e ∙ drop-append l t

-- A line ends in the only line feed it has.
abbrev pub IsLine : Bytes → Type 0
IsLine line = first_line line ≡ some (line, [])

pub record FirstLine (s l r : Bytes) : Type 0 where
  pub whole : s ≡ l ++ r
  pub line : IsLine l
  pub long : 0 < length l
  pub stays : (t : Bytes) → first_line (s ++ t) ≡ some (l, r ++ t)

pub first_line-nil : first_line [] ≡ none
unfolding first_line
first_line-nil = refl

first_line-cases :
    (s : Bytes)
    → (first_line s ≡ none)
      ⊎ ((l : Bytes) × (r : Bytes) × (first_line s ≡ some (l, r)) × FirstLine s l r)
unfolding first_line
first_line-cases [] = inl refl
first_line-cases (c ∷ cs) = elim (Bool-cases (c == b'\n')) [
  | inl f ↦ inr (
    c ∷ [],
    cs,
    first_line-feed c cs f,
    record {
      whole = refl;
      line = first_line-feed c [] f;
      long = omega arith;
      stays = λ t. first_line-feed c (cs ++ t) f;
    },
  )
  | inr f ↦ elim (first_line-cases cs) [
    | inl n ↦ inl (first_line-none c cs f n)
    | inr (l, r, e, q) ↦ inr (
      c ∷ l,
      r,
      first_line-some c cs l r f e,
      record {
        whole = ap (◌∷◌ c) q.whole;
        line = first_line-some c l l [] f q.line;
        long = omega arith;
        stays = λ t. first_line-some c (cs ++ t) l (r ++ t) f (q.stays t);
      },
    )
  ]
]

pub first_line-FirstLine : (s l r : Bytes) → first_line s ≡ some (l, r) → FirstLine s l r
first_line-FirstLine s l r e = elim (first_line-cases s) [
  | inl n ↦ absurd (ground arith)
  | inr (l', r', e', q) ↦
      subst (λ (p : Bytes × Bytes). FirstLine s p.0 p.1)
        (ap (λ (o : Option (Bytes × Bytes)). elim o [ none ↦ (l, r) | some p ↦ p ]) (sym e' ∙ e)) q
]

pub nothing_left {ℓ} : {A : Type ℓ} (xs : List A) (n : ℕ) → length xs ≡ n → drop n xs ≡ []
nothing_left xs n e = rw (← e) (ap (drop (length xs)) (sym (append-nil xs)) ∙ drop-append xs [])
