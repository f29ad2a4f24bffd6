-- ===== src/Util/StringUtil/Join.antt =====
-- `split` after `join`, where the separator is one byte.
use mathlib.Core.Option
use evcollect.Prelude.{
  ℕ, zero, suc, ◌+◌, ◌<◌, ◌≡◌, ◌≢◌, refl, ap, ◌∙◌, true, false, Option-cases, inl, inr, none, some,
  List, [], ◌∷◌, ◌++◌, append-nil, arith, Bytes, length, length-append, All,
}
use evcollect.Util.StringUtil.{starts_with, find, includes, split, join, join_more, replace_all}
use evcollect.Util.StringUtil.Split.{
  split_rest-none, split_rest-Around, split-rest, split_rest, replace_all-split,
}

-- The text does not hold the byte.
abbrev pub Lacks : ℕ → Bytes → Type 0
Lacks c s = includes s (c ∷ []) ≡ false

Lacks-find : (c : ℕ) (s : Bytes) → Lacks c s → find (c ∷ []) s ≡ none
unfolding includes
Lacks-find c s h = elim (Option-cases (find (c ∷ []) s)) [
  | inl e ↦ e
  | inr (k, e) ↦ absurd (ground arith)
]

find-Lacks : (c : ℕ) (s : Bytes) → find (c ∷ []) s ≡ none → Lacks c s
unfolding includes
find-Lacks c s e = rw (e, includes)

pub Lacks-cons : (c x : ℕ) (s : Bytes) → Lacks c (x ∷ s) → (x ≢ c) × Lacks c s
unfolding includes find starts_with
Lacks-cons c x s h = ground arith

find-append :
    (c : ℕ) (a b : Bytes)
    → find (c ∷ []) a ≡ none
    → find (c ∷ []) b ≡ none
    → find (c ∷ []) (a ++ b) ≡ none
unfolding find starts_with
find-append c [] b ea eb = eb
find-append c (x ∷ a) b ea eb = ground (arith, find-append c a b)

pub Lacks-append : (c : ℕ) (a b : Bytes) → Lacks c a → Lacks c b → Lacks c (a ++ b)
Lacks-append c a b ha hb =
    find-Lacks c (a ++ b) (find-append c a b (Lacks-find c a ha) (Lacks-find c b hb))

starts_with-append : (p s : Bytes) → starts_with p (p ++ s) ≡ true
unfolding starts_with
starts_with-append [] s = refl
starts_with-append (c ∷ p) s = ground (arith, starts_with-append p s)

-- A pattern is found where it stands first if what is before it lacks its first byte.
find-first :
    (c : ℕ) (p a b : Bytes) → Lacks c a → find (c ∷ p) (a ++ (c ∷ (p ++ b))) ≡ some (length a)
unfolding find starts_with
find-first c p [] b h = ground (arith, starts_with-append p b)
find-first c p (x ∷ a) b h =
    let (n, h') = Lacks-cons c x a h in ground (arith, find-first c p a b h')

pub join-cons :
    (sep x y : Bytes) (ys : List Bytes) → join (x ∷ y ∷ ys) sep ≡ x ++ (sep ++ join (y ∷ ys) sep)
unfolding join join_more
join-cons sep x y ys = refl

pub join-one : (x sep : Bytes) → join (x ∷ []) sep ≡ x
unfolding join join_more
join-one x sep = append-nil x

split_rest-join :
    (fuel c : ℕ) (x : Bytes) (xs : List Bytes)
    → All (Lacks c) (x ∷ xs)
    → length (join (x ∷ xs) (c ∷ [])) < fuel
    → split_rest fuel (c ∷ []) (join (x ∷ xs) (c ∷ [])) ≡ some (x ∷ xs)
split_rest-join zero c x xs h l = absurd (omega arith)
split_rest-join (suc fuel) c x [] h l =
    rw (join-one x (c ∷ [])) (split_rest-none fuel (c ∷ []) x (Lacks-find c x h.0))
split_rest-join (suc fuel) c x (y ∷ ys) h l =
    let rest = join (y ∷ ys) (c ∷ []) in
    rw (join-cons (c ∷ []) x y ys) (
      split_rest-Around fuel (c ∷ []) x rest (find-first c [] x rest h.0)
      ∙ ap (Option.map (λ parts. x ∷ parts)) (
          split_rest-join fuel c y ys h.1
            (omega (arith, ap length (join-cons (c ∷ []) x y ys), length-append x (c ∷ rest)))))

-- What is joined by a byte is split by it into what it was, where no part holds the byte.
pub split-join :
    (c : ℕ) (x : Bytes) (xs : List Bytes)
    → All (Lacks c) (x ∷ xs)
    → split (join (x ∷ xs) (c ∷ [])) (c ∷ []) ≡ some (x ∷ xs)
split-join c x xs h =
    split-rest (join (x ∷ xs) (c ∷ [])) (c ∷ [])
    ∙ split_rest-join (suc (length (join (x ∷ xs) (c ∷ [])))) c x xs h (omega arith)

-- A pattern that stands once in a text is replaced there.
pub replace_all-once :
    (c : ℕ) (p a b r : Bytes)
    → Lacks c a
    → find (c ∷ p) b ≡ none
    → replace_all (a ++ (c ∷ (p ++ b))) (c ∷ p) r ≡ some (a ++ (r ++ b))
unfolding join join_more
replace_all-once c p a b r h e =
    let str = a ++ (c ∷ (p ++ b)) in
    let parts : split str (c ∷ p) ≡ some (a ∷ b ∷ []) =
      split-rest str (c ∷ p)
      ∙ split_rest-Around (length str) (c ∷ p) a b (find-first c p a b h)
      ∙ ap (Option.map (λ parts. a ∷ parts)) (
          ap (λ n. split_rest n (c ∷ p) b) (length-append a (c ∷ (p ++ b)) ∙ omega arith)
          ∙ split_rest-none (length a + length (p ++ b)) (c ∷ p) b e) in
    replace_all-split str (c ∷ p) r (λ e. ground arith)
    ∙ ap (Option.map (λ parts. join parts r)) parts
    ∙ ap (λ t. some (a ++ (r ++ t))) (append-nil b)
