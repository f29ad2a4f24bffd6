-- ===== src/Util/StringUtil/Split.antt =====
-- `split`, `join` and `replaceAll`: three loops that agree.
use mathlib.Core.Option
use mathlib.Core.Option.{get_or}
use evcollect.Prelude.{
  codes, All, ℕ, zero, suc, ◌+◌, ◌<◌, ◌≡◌, ◌≢◌, refl, sym, ap, ◌∙◌, false, Option, none, some, List,
  [], ◌∷◌, ◌++◌, append-nil, append_assoc, arith, Bytes, length, take, drop, length-append,
  take-append, drop-append, inl, inr,
}
use evcollect.Util.StringUtil.{
  find, find_from, replace_loop, replace_all, split_loop, split, join_more, join, includes, format,
  format_args, to_string,
}
use evcollect.Util.StringUtil.Search.{
  find_from-append, find-cases, separate_head, pos-length, length-Around, length-append-sub,
  regroup, take-regroup, drop-regroup, find-includes, shorter, find-nil,
}

-- The loop of `split` by itself, on what is left of the text.
pub split_rest : ℕ → Bytes → Bytes → Option (List Bytes)
split_rest zero p s = none
split_rest (suc fuel) p s = elim (find p s) [
  | none ↦ some (s ∷ [])
  | some k ↦ Option.map (λ parts. take k s ∷ parts) (split_rest fuel p (drop (k + length p) s))
]

-- A round of it on a text whose first match is known.
pub split_rest-Around :
    (fuel : ℕ) (p a b : Bytes)
    → find p (a ++ (p ++ b)) ≡ some (length a)
    → split_rest (suc fuel) p (a ++ (p ++ b))
      ≡ Option.map (λ parts. a ∷ parts) (split_rest fuel p b)
unfolding split_rest
split_rest-Around fuel p a b e = rw (
  e,
  split_rest,
  take-append a (p ++ b),
  ← length-append a p,
  ← append_assoc a p b,
  drop-append (a ++ p) b,
)

-- A result of the loop: the parts hold no pattern, and give the text back when they are joined.
record IsSplit (p s : Bytes) (parts : List Bytes) : Type 0 where
  joined : join parts p ≡ s
  separate : All (λ part. find p part ≡ none) parts

pub split_rest-none :
    (fuel : ℕ) (p s : Bytes) → find p s ≡ none → split_rest (suc fuel) p s ≡ some (s ∷ [])
unfolding split_rest
split_rest-none fuel p s e = rw (e, split_rest)

split_rest-IsSplit :
    (fuel : ℕ) (p s : Bytes)
    → p ≢ []
    → length s < fuel
    → (x : Bytes) × (xs : List Bytes) × (split_rest fuel p s ≡ some (x ∷ xs)) × IsSplit p s (x ∷ xs)
unfolding join join_more
split_rest-IsSplit zero p s ne h = absurd (omega arith)
split_rest-IsSplit (suc fuel) p s ne h = elim (find-cases p s) [
  | inl e ↦
      (s, [], split_rest-none fuel p s e, record { joined = append-nil s; separate = (e, tt) })
  | inr (a, b, f, e) ↦
      let (x, xs, r, q) =
        split_rest-IsSplit fuel p b ne
          (omega (arith, ap length f, length-Around p a b, pos-length p ne)) in
      (
        a,
        x ∷ xs,
        rw f (split_rest-Around fuel p a b e ∙ rw r),
        record {
          joined = ap (λ t. a ++ (p ++ t)) q.joined ∙ sym f;
          separate = (separate_head p s a b ne e, q.separate);
        },
      )
]

-- Rounds of `split_loop` and `replace_loop` behind a prefix that has been dealt with.
module _ (fuel : ℕ) (p pre : Bytes) where
  found_at :
      (a b : Bytes)
      → find p (a ++ (p ++ b)) ≡ some (length a)
      → find_from p (pre ++ (a ++ (p ++ b))) (length pre) ≡ some (length (pre ++ a))
  found_at a b e = rw (find_from-append, e, length-append)

  split_loop-none :
      (s : Bytes)
      → find p s ≡ none
      → split_loop (suc fuel) (pre ++ s) p (length pre) ≡ some (s ∷ [])
  unfolding split_loop
  split_loop-none s e = rw (find_from-append p pre s, split_loop) (rw (e, drop-append pre s))

  split_loop-some :
      (a b : Bytes)
      → find p (a ++ (p ++ b)) ≡ some (length a)
      → let done = (pre ++ a) ++ p in
        split_loop (suc fuel) (pre ++ (a ++ (p ++ b))) p (length pre)
        ≡ Option.map (λ parts. a ∷ parts) (split_loop fuel (done ++ b) p (length done))
  unfolding split_loop
  split_loop-some a b e =
      rw (found_at a b e, split_loop)
        (rw (
          drop-append,
          length-append-sub,
          take-append,
          ← length-append (pre ++ a) p,
          regroup pre a p b,
        ))

  replace_loop-none :
      (r s : Bytes)
      → find p s ≡ none
      → replace_loop (suc fuel) p r (pre ++ s) (length pre) ≡ some (pre ++ s)
  unfolding replace_loop
  replace_loop-none r s e = rw (find_from-append p pre s, replace_loop) (rw e)

  replace_loop-some :
      (r a b : Bytes)
      → find p (a ++ (p ++ b)) ≡ some (length a)
      → let done = (pre ++ a) ++ r in
        replace_loop (suc fuel) p r (pre ++ (a ++ (p ++ b))) (length pre)
        ≡ replace_loop fuel p r (done ++ b) (length done)
  unfolding replace_loop
  replace_loop-some r a b e =
      rw (found_at a b e, replace_loop)
        (rw
          (take-regroup, drop-regroup, ← length-append (pre ++ a) r, ← append_assoc (pre ++ a) r b))

split_loop-rest :
    (fuel : ℕ) (p pre s : Bytes) → split_loop fuel (pre ++ s) p (length pre) ≡ split_rest fuel p s
split_loop-rest zero p pre s = unfold split_loop split_rest in refl
split_loop-rest (suc fuel) p pre s = elim (find-cases p s) [
  | inl e ↦ split_loop-none fuel p pre s e ∙ sym (split_rest-none fuel p s e)
  | inr (a, b, f, e) ↦ rw f (
      split_loop-some fuel p pre a b e
      ∙ ap (Option.map (λ parts. a ∷ parts)) (split_loop-rest fuel p ((pre ++ a) ++ p) b)
      ∙ sym (split_rest-Around fuel p a b e))
]

All-map {ℓ κ μ} :
    {A : Type ℓ} {P : A → Type κ} {Q : A → Type μ}
    → ((a : A) → P a → Q a)
    → (xs : List A) → All P xs
    → All Q xs
All-map f [] h = tt
All-map f (x ∷ xs) h = (f x h.0, All-map f xs h.1)

join-cons :
    (pre a r x : Bytes) (xs : List Bytes)
    → ((pre ++ a) ++ r) ++ join (x ∷ xs) r ≡ pre ++ join (a ∷ x ∷ xs) r
unfolding join join_more
join-cons pre a r x xs = simp append_assoc

join-one : (s r : Bytes) → join (s ∷ []) r ≡ s
unfolding join join_more
join-one s r = append-nil s

-- `replaceAll` by the parts that `split` would find.
replace_loop-rest :
    (fuel : ℕ) (p r pre s : Bytes)
    → p ≢ []
    → length s < fuel
    → replace_loop fuel p r (pre ++ s) (length pre)
      ≡ Option.map (λ parts. pre ++ join parts r) (split_rest fuel p s)
replace_loop-rest zero p r pre s ne h = absurd (omega arith)
replace_loop-rest (suc fuel) p r pre s ne h = elim (find-cases p s) [
  | inl e ↦
      replace_loop-none fuel p pre r s e
      ∙ rw (split_rest-none fuel p s e) (ap (λ t. some (pre ++ t)) (sym (join-one s r)))
  | inr (a, b, f, e) ↦
      let lt = shorter fuel p s a b ne f h in
      let (x, xs, parts, _) = split_rest-IsSplit fuel p b ne lt in
      rw f (
        replace_loop-some fuel p pre r a b e
        ∙ replace_loop-rest fuel p r ((pre ++ a) ++ r) b ne lt
        ∙ rw (split_rest-Around fuel p a b e, parts) (ap some (join-cons pre a r x xs)))
]

pub split-rest : (str p : Bytes) → split str p ≡ split_rest (suc (length str)) p str
unfolding split
split-rest str p = split_loop-rest (suc (length str)) p [] str

-- `split` by a pattern that is not empty always returns: the parts, joined by the pattern, are the text,
-- and none of them holds the pattern.
pub split-IsSplit :
    (str p : Bytes)
    → p ≢ []
    → (parts : List Bytes) × (split str p ≡ some parts)
      × (join parts p ≡ str)
      × All (λ part. includes part p ≡ false) parts
split-IsSplit str p ne =
    let (x, xs, e, q) = split_rest-IsSplit (suc (length str)) p str ne (omega arith) in
    (
      x ∷ xs,
      split-rest str p ∙ e,
      q.joined,
      All-map (λ t h. find-includes p t h) (x ∷ xs) q.separate,
    )

replace_all-loop :
    (str p r : Bytes) → p ≢ [] → replace_all str p r ≡ replace_loop (suc (length str)) p r str 0
unfolding replace_all
replace_all-loop [] p r ne = sym (replace_loop-none 0 p [] r [] (find-nil p ne))
replace_all-loop (c ∷ cs) p r ne = ground arith

-- `replaceAll` is `split` by the pattern and `join` by the replacement.
pub replace_all-split :
    (str p r : Bytes)
    → p ≢ []
    → replace_all str p r ≡ Option.map (λ parts. join parts r) (split str p)
replace_all-split str p r ne =
    replace_all-loop str p r ne
    ∙ replace_loop-rest (suc (length str)) p r [] str ne (omega arith)
    ∙ ap (Option.map (λ parts. join parts r)) (sym (split-rest str p))

-- `format` with one argument.
pub format-join :
    (fmt r : Bytes) (parts : List Bytes)
    → split fmt (codes "$0") ≡ some parts
    → format fmt (r ∷ []) ≡ join parts r
unfolding format format_args to_string
format-join fmt r parts e =
    let replaced : replace_all fmt (codes "$0") r ≡ some (join parts r) =
      replace_all-split fmt (codes "$0") r (ground arith)
      ∙ ap (Option.map (λ parts. join parts r)) e in
    ap (λ o. get_or (elim o [ none ↦ none | some str ↦ format_args str 1 [] ]) []) replaced

-- `format` with two arguments, replaced one after the other.
pub format-twice :
    (fmt x y s t : Bytes)
    → replace_all fmt (codes "$0") x ≡ some s
    → replace_all s (codes "$1") y ≡ some t
    → format fmt (x ∷ y ∷ []) ≡ t
unfolding format format_args to_string
format-twice fmt x y s t e e' =
    let next : Option Bytes → Option Bytes =
      λ o. (elim o [ none ↦ none | some str ↦ format_args str 2 [] ]) in
    ap (λ o. get_or (elim o [ none ↦ none | some str ↦ next (replace_all str (codes "$1") y) ]) [])
      e
    ∙ ap (λ o. get_or (next o) []) e'
