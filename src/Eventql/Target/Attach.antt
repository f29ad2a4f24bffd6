-- ===== src/Eventql/Target/Attach.antt =====
-- The routes of a target are the entries of the configuration.
use mathlib.Core.List.{map}
use mathlib.Core.Path.{subst}
use evcollect.Prelude.{
  ℕ, zero, suc, ◌+◌, ◌-◌, ◌^◌, ◌≤◌, ◌<◌, ◌≡◌, refl, sym, ap, ◌∙◌, true, false, Bool-cases, inl, inr,
  Option, Option-cases, none, some, List, [], ◌∷◌, Bytes, codes, c_str, str_eq, length, get_elem?,
  get_elem?-ge, drop, wrap64-small, ◌==◌, All, arith, if◌then◌else◌,
}
use evcollect.Config.PropertyList.{getv, get_all, Access, missing, found, out_of_bounds}
use evcollect.Config.PropertyList.Lookup.{at_entry, getv-get_all}
use evcollect.Eventql.Target.{
  int_suc, EventQlTarget, Attached, attach_error, attached, add_route, route_args, attach_routes,
  attach_all_routes, value_count,
}

-- The entries of the key `route`.
abbrev pub entries : List (Bytes × List Bytes) → List (List Bytes)
entries config = (get_all (codes "route") config).0

-- What the entries do, one after the other: each adds its route, one with no value ends the list, and one with
-- another number of values is an error.
pub routed_by : List (List Bytes) → EventQlTarget → Attached
routed_by [] t = attached t
routed_by ([] ∷ es) t = attached t
routed_by ((name ∷ []) ∷ es) t =
    attach_error (codes "invalid number of arguments to route. format is: route <event> <target>")
routed_by ((name ∷ target ∷ []) ∷ es) t = routed_by es (add_route (c_str name) (c_str target) t)
routed_by ((name ∷ target ∷ _ ∷ _) ∷ es) t =
    attach_error (codes "invalid number of arguments to route. format is: route <event> <target>")

drop-get {ℓ} :
    {A : Type ℓ} (i : ℕ) (xs : List A) (x : A)
    → get_elem? xs i ≡ some x
    → drop i xs ≡ x ∷ drop (suc i) xs
drop-get i [] x e = absurd (ground arith)
drop-get zero (y ∷ ys) x e = ap (λ (o : Option _). elim o [ none ↦ y ∷ ys | some z ↦ z ∷ ys ]) e
drop-get (suc i) (y ∷ ys) x e = drop-get i ys x e

drop-none {ℓ} : {A : Type ℓ} (i : ℕ) (xs : List A) → get_elem? xs i ≡ none → drop i xs ≡ []
drop-none zero [] e = refl
drop-none (suc i) [] e = refl
drop-none zero (y ∷ ys) e = absurd (ground arith)
drop-none (suc i) (y ∷ ys) e = drop-none i ys e

inside {ℓ} : {A : Type ℓ} (i : ℕ) (xs : List A) (x : A) → get_elem? xs i ≡ some x → i < length xs
inside i [] x e = absurd (ground arith)
inside zero (y ∷ ys) x e = omega arith
inside (suc i) (y ∷ ys) x e = omega (arith, inside i ys x e)

int_suc-small : (i : ℕ) → i < 2 ^ 31 - 1 → int_suc i ≡ suc i
unfolding int_suc
int_suc-small i h =
    let small : (i == 2 ^ 31 - 1) ≡ false = ground arith in
    rw small (wrap64-small (suc i) (omega arith))

abbrev at_value : Option Bytes → Access
at_value o = elim o [ none ↦ missing | some v ↦ found v ]

module _ (config : List (Bytes × List Bytes)) (i : ℕ) where
  abbrev access_at : ℕ → Access
  access_at j = getv (codes "route") i j config

  abbrev args_from : ℕ → ℕ → Access → List Bytes
  args_from fuel j a = elim a [
    | found arg ↦ c_str arg ∷ route_args fuel i (int_suc j) config
    | missing ↦ []
    | out_of_bounds ↦ []
  ]

  route_args-access :
      (fuel j : ℕ) (a : Access)
      → access_at j ≡ a
      → route_args (suc fuel) i j config ≡ args_from fuel j a
  unfolding route_args
  route_args-access fuel j a e = ap (args_from fuel j) e

  entry-access :
      (vs : Option (List Bytes)) (j : ℕ)
      → get_elem? (entries config) i ≡ vs
      → j < 2 ^ 64 - 1
      → access_at j ≡ at_entry vs j
  entry-access vs j e h = getv-get_all (codes "route") i j config h ∙ ap (λ o. at_entry o j) e

  route_args-none :
      (fuel : ℕ) → get_elem? (entries config) i ≡ none → route_args (suc fuel) i 0 config ≡ []
  route_args-none fuel e = route_args-access fuel 0 missing (entry-access none 0 e (omega arith))

  route_args-entry :
      (fuel j : ℕ) (vs : List Bytes)
      → get_elem? (entries config) i ≡ some vs
      → length vs < 2 ^ 31
      → j ≤ length vs
      → length vs - j < fuel
      → route_args fuel i j config ≡ map c_str (drop j vs)
  route_args-entry zero j vs e small le lt = absurd (omega arith)
  route_args-entry (suc fuel) j vs e small le lt = elim (Option-cases (get_elem? vs j)) [
    | inl n ↦
        route_args-access fuel j missing (entry-access (some vs) j e (omega arith) ∙ ap at_value n)
        ∙ ap (map c_str) (sym (drop-none j vs n))
    | inr (v, g) ↦
        route_args-access fuel j (found v)
          (entry-access (some vs) j e (omega (arith, inside j vs v g)) ∙ ap at_value g)
        ∙ ap (λ k. c_str v ∷ route_args fuel i k config)
            (int_suc-small j (omega (arith, inside j vs v g)))
        ∙ ap (λ rest. c_str v ∷ rest)
            (route_args-entry fuel (suc j) vs e small (omega (arith, inside j vs v g))
              (omega (arith, inside j vs v g)))
        ∙ ap (map c_str) (sym (drop-get j vs v g))
  ]

module _ (k : Bytes) (ws : List Bytes) (config : List (Bytes × List Bytes)) where
  entries-match : str_eq k (codes "route") ≡ true → entries ((k, ws) ∷ config) ≡ ws ∷ entries config
  unfolding get_all
  entries-match e =
      ap
        (λ b.
          (if b
            then (ws ∷ entries config, (get_all (codes "route") config).1 + 1)
            else get_all (codes "route") config).0)
        e

  entries-other : str_eq k (codes "route") ≡ false → entries ((k, ws) ∷ config) ≡ entries config
  unfolding get_all
  entries-other e =
      ap
        (λ b.
          (if b
            then (ws ∷ entries config, (get_all (codes "route") config).1 + 1)
            else get_all (codes "route") config).0)
        e

entries_bound :
    (config : List (Bytes × List Bytes)) (n : ℕ)
    → value_count config ≤ n
    → All (λ vs. length vs ≤ n) (entries config)
unfolding get_all
entries_bound [] n h = tt
entries_bound ((k, ws) ∷ config) n h = elim (Bool-cases (str_eq k (codes "route"))) [
  | inl f ↦ rw (entries-match k ws config f) (omega arith, entries_bound config n (omega arith))
  | inr f ↦ rw (entries-other k ws config f) (entries_bound config n (omega arith))
]

bound_at :
    (n i : ℕ) (es : List (List Bytes)) (vs : List Bytes)
    → All (λ vs. length vs ≤ n) es
    → get_elem? es i ≡ some vs
    → length vs ≤ n
bound_at n i [] vs h e = absurd (ground arith)
bound_at n zero (ws ∷ es) vs h e =
    subst (λ us. length us ≤ n)
      (ap (λ (o : Option (List Bytes)). elim o [ none ↦ ws | some us ↦ us ]) e) h.0
bound_at n (suc i) (ws ∷ es) vs h e = bound_at n i es vs h.1 e

entry_length :
    (config : List (Bytes × List Bytes)) (i : ℕ) (vs : List Bytes)
    → get_elem? (entries config) i ≡ some vs
    → length vs ≤ value_count config
entry_length config i vs e =
    bound_at (value_count config) i (entries config) vs
      (entries_bound config (value_count config) (omega arith)) e

length-entries : (config : List (Bytes × List Bytes)) → length (entries config) ≤ length config
unfolding get_all
length-entries [] = omega arith
length-entries ((k, ws) ∷ config) = ground (arith, length-entries config)

module _ (config : List (Bytes × List Bytes)) (small : value_count config < 2 ^ 31)
    (few : length config < 2 ^ 31) where
  abbrev by_args : ℕ → ℕ → EventQlTarget → List Bytes → Attached
  by_args fuel i t args = elim args [
    | [] ↦ attached t
    | name ∷ others ↦ elim others [
      | [] ↦
          attach_error
            (codes "invalid number of arguments to route. format is: route <event> <target>")
      | target ∷ more ↦ elim more [
        | [] ↦
            attach_routes fuel (suc (value_count config)) (int_suc i) config
              (add_route name target t)
        | _ ∷ _ ↦
            attach_error
              (codes "invalid number of arguments to route. format is: route <event> <target>")
      ]
    ]
  ]

  attach_routes-args :
      (fuel i : ℕ) (t : EventQlTarget) (args : List Bytes)
      → route_args (suc (value_count config)) i 0 config ≡ args
      → attach_routes (suc fuel) (suc (value_count config)) i config t ≡ by_args fuel i t args
  unfolding attach_routes
  attach_routes-args fuel i t args e = ap (by_args fuel i t) e

  by_args-entry :
      (fuel i : ℕ) (t : EventQlTarget) (vs : List Bytes) (es : List (List Bytes))
      → ((t' : EventQlTarget)
          → attach_routes fuel (suc (value_count config)) (int_suc i) config t' ≡ routed_by es t')
      → by_args fuel i t (map c_str vs) ≡ routed_by (vs ∷ es) t
  unfolding routed_by
  by_args-entry fuel i t [] es ih = refl
  by_args-entry fuel i t (name ∷ []) es ih = refl
  by_args-entry fuel i t (name ∷ target ∷ []) es ih = ih (add_route (c_str name) (c_str target) t)
  by_args-entry fuel i t (name ∷ target ∷ more ∷ _) es ih = refl

  attach_routes-entries :
      (fuel i : ℕ) (t : EventQlTarget)
      → length (entries config) < i + fuel
      → attach_routes fuel (suc (value_count config)) i config t
        ≡ routed_by (drop i (entries config)) t
  unfolding routed_by attach_routes
  attach_routes-entries zero i t h =
      ap (λ es. routed_by es t)
        (sym (drop-none i (entries config) (get_elem?-ge (entries config) i (omega arith))))
  attach_routes-entries (suc fuel) i t h = elim (Option-cases (get_elem? (entries config) i)) [
    | inl n ↦
        attach_routes-args fuel i t [] (route_args-none config i (value_count config) n)
        ∙ ap (λ es. routed_by es t) (sym (drop-none i (entries config) n))
    | inr (vs, g) ↦
        let le = entry_length config i vs g in
        attach_routes-args fuel i t (map c_str vs) (
          route_args-entry config i (suc (value_count config)) 0 vs g (omega (arith, le))
            (omega arith) (omega (arith, le)))
        ∙ by_args-entry fuel i t vs (drop (suc i) (entries config)) (λ t'.
          ap (λ k. attach_routes fuel (suc (value_count config)) k config t')
            (int_suc-small i (omega (arith, inside i (entries config) vs g, length-entries config)))
          ∙ attach_routes-entries fuel (suc i) t' (omega arith))
        ∙ ap (λ es. routed_by es t) (sym (drop-get i (entries config) vs g))
  ]

  -- `pluginAttach` does with the entries of the key `route`, where the configuration holds less than 2^31
  -- keys, and less than 2^31 values in all: its two loops end by their tests, and each entry, in their order, adds its route, up to one
  -- without values, which ends the loop, or one with another number of values than two, which is an error.
  pub attach_all_routes-entries :
      (t : EventQlTarget) → attach_all_routes config t ≡ routed_by (entries config) t
  unfolding attach_all_routes
  attach_all_routes-entries t =
      attach_routes-entries (suc (length config)) 0 t (omega (arith, length-entries config))
