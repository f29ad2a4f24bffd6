-- ===== src/Util/FlagParser/Values.antt =====
-- What the flags hold after `parseArgv`.
mod Tests
use mathlib.Core.Path.{subst}
use evcollect.Prelude.{
  ℕ, ◌≡◌, ◌≢◌, refl, ap, ◌∙◌, sym, Bool, true, false, Bool-cases, ◌&&◌, inl, inr, Option, none,
  some, List, [], ◌∷◌, ◌++◌, Bytes, codes, c_str, length, take, drop, ◌==◌, str_eq, All, arith,
  if◌then◌else◌,
}
use evcollect.Util.ReturnCode.{ReturnCode, is_success, error_fmt}
use evcollect.Util.FlagParser.{FlagState, FlagParser}
use evcollect.Util.FlagParser.EqualsSign.{match_flag-eq}
use evcollect.Util.FlagParser.Argv.{
  Match, no_match, plain_match, eq_match, compares, match_short, match_flag, Taken, refused, taken,
  take_value, Step, unknown, stops, goes_on, push_value, keep, at_flag, take_arg, require,
  parse_argv, is_switch,
}

==_same : (m n : ℕ) → m ≡ n → (m == n) ≡ true
==_same m n e = ground arith

-- Every flag that is required has a value.
abbrev Required : List FlagState → Type 0
Required flags = All (λ flag. flag.required ≡ true → flag.values ≢ []) flags

require-flag :
    (required : Bool) (values : List Bytes) (message : Bytes) (rest : ReturnCode)
    → let rc : ReturnCode = elim values [
      | [] ↦ if required then error_fmt (codes "FLAG_ERROR") message else rest
      | _ ∷ _ ↦ rest
    ] in
      is_success rc ≡ true → (required ≡ true → values ≢ []) × (is_success rest ≡ true)
require-flag true [] message rest e = absurd (ground arith)
require-flag false [] message rest e = (λ r. absurd (ground arith), e)
require-flag required (value ∷ values) message rest e = (λ r n. ground arith, e)

require-Required : (flags : List FlagState) → is_success (require flags) ≡ true → Required flags
unfolding require
require-Required [] e = tt
require-Required (flag ∷ flags) e =
    let (here, rest) =
      require-flag flag.required flag.values
        (codes "flag --" ++ (c_str flag.longopt.text ++ codes " is required")) (require flags) e in
    (here, require-Required flags rest)

module _ (P : Bytes → Type 0) (switch_value : P (codes "true")) where
  abbrev pub Holds : List FlagState → Type 0
  Holds flags = All (λ flag. All P flag.values) flags

  abbrev AllSome : Option Bytes → Type 0
  AllSome o = elim o [ none ↦ Unit | some value ↦ P value ]

  abbrev IsTaken : Taken → Type 0
  IsTaken t = elim t [ refused rc ↦ is_success rc ≡ false | taken next value ↦ P value ]

  abbrev IsStep : Step → Type 0
  IsStep s = elim s [
    | unknown ↦ Unit
    | stops rc ↦ is_success rc ≡ false
    | goes_on next flags ↦ Holds flags
  ]

  All-snoc :
      (values : List Bytes) (value : Bytes)
      → All P values
      → P value
      → All P (values ++ (value ∷ []))
  All-snoc [] value h p = (p, tt)
  All-snoc (v ∷ values) value h p = (h.0, All-snoc values value h.1 p)

  take_value-IsTaken :
      (arg : Bytes) (next : Option Bytes) (eq_len : Option ℕ) (flag : FlagState)
      → ((n : ℕ) → eq_len ≡ some n → length arg ≡ n)
      → AllSome next
      → IsTaken (take_value arg next eq_len flag)
  unfolding take_value
  take_value-IsTaken arg next eq_len flag whole h = elim (Bool-cases (is_switch flag.flag_type)) [
    | inl s ↦ rw s switch_value
    | inr f ↦ rw f (without_switch eq_len next whole h)
  ]
    where
      without_switch :
          (eq_len : Option ℕ) (next : Option Bytes)
          → ((n : ℕ) → eq_len ≡ some n → length arg ≡ n)
          → AllSome next
          → IsTaken (elim eq_len [
            | some n ↦
                if length arg == n
                then refused (
                    error_fmt
                      (codes "FLAG_ERROR")
                      (codes "flag --" ++ (c_str flag.longopt.text ++ codes "=... has no value")))
                else taken false (drop n arg)
            | none ↦ elim next [
              | none ↦ refused (
                  error_fmt
                    (codes "FLAG_ERROR")
                    (codes "flag --" ++ (c_str flag.longopt.text ++ codes " has no value")))
              | some value ↦ taken true value
            ]
          ])
      without_switch (some n) next whole h = rw (==_same (length arg) n (whole n refl)) refl
      without_switch none none whole h = refl
      without_switch none (some value) whole h = h

  push_value-IsStep :
      (flag : FlagState) (flags : List FlagState) (t : Taken)
      → IsTaken t
      → All P flag.values
      → Holds flags
      → IsStep (push_value flag flags t)
  unfolding push_value
  push_value-IsStep flag flags (refused rc) t h hs = t
  push_value-IsStep flag flags (taken next value) t h hs = (All-snoc flag.values value h t, hs)

  at_flag-IsStep :
      (arg : Bytes) (next : Option Bytes) (how : Match) (flag : FlagState) (flags : List FlagState)
      (others : Step)
      → ((n : ℕ) → how ≡ eq_match n → length arg ≡ n)
      → AllSome next
      → Holds (flag ∷ flags)
      → IsStep others
      → IsStep (at_flag arg next how flag flags others)
  at_flag-IsStep arg next no_match flag flags unknown whole p h o = tt
  at_flag-IsStep arg next no_match flag flags (stops rc) whole p h o = o
  at_flag-IsStep arg next no_match flag flags (goes_on used flags') whole p h o = (h.0, o)
  at_flag-IsStep arg next plain_match flag flags others whole p h o =
      push_value-IsStep flag flags _
        (take_value-IsTaken arg next none flag (λ n e. absurd (ground arith)) p) h.0 h.1
  at_flag-IsStep arg next (eq_match eq_len) flag flags others whole p h o =
      push_value-IsStep flag flags _
        (take_value-IsTaken arg next (some eq_len) flag (λ n e. whole n (ground arith)) p) h.0 h.1

  take_arg-IsStep :
      (arg : Bytes) (next : Option Bytes) (flags : List FlagState)
      → AllSome next
      → Holds flags
      → IsStep (take_arg arg next flags)
  unfolding take_arg
  take_arg-IsStep arg next [] p h = tt
  take_arg-IsStep arg next (flag ∷ flags) p h =
      at_flag-IsStep arg next (match_flag arg flag) flag flags (take_arg arg next flags)
        (match_flag-eq arg flag) p h (take_arg-IsStep arg next flags p h.1)

  -- The values of the flags are good, and those that are required are there if the run succeeds.
  abbrev pub IsParsed : FlagParser × ReturnCode → Type 0
  IsParsed r = Holds r.0.flags × (is_success r.1 ≡ true → Required r.0.flags)

  abbrev Parses : List Bytes → Type 0
  Parses argv = (p : FlagParser) → Holds p.flags → IsParsed (parse_argv argv p)

  finish-IsParsed : (p : FlagParser) → Holds p.flags → IsParsed (parse_argv [] p)
  unfolding parse_argv
  finish-IsParsed p h = (h, require-Required p.flags)

  last_step-IsParsed :
      (arg : Bytes) (p : FlagParser) (s : Step)
      → IsStep s
      → Holds p.flags
      → let r : FlagParser × ReturnCode = elim s [
        | unknown ↦ parse_argv [] (record p { argv = p.argv ++ (arg ∷ []) })
        | stops rc ↦ (p, rc)
        | goes_on _ flags ↦ parse_argv [] (record p { flags = flags })
      ] in
        IsParsed r
  unfolding parse_argv
  last_step-IsParsed arg p unknown i h =
      finish-IsParsed (record p { argv = p.argv ++ (arg ∷ []) }) h
  last_step-IsParsed arg p (stops rc) i h = (h, λ e. absurd (ground arith))
  last_step-IsParsed arg p (goes_on used flags) i h = finish-IsParsed (record p { flags = flags }) i

  step-IsParsed :
      (arg next : Bytes) (args : List Bytes) (p : FlagParser) (s : Step)
      → Parses args
      → Parses (next ∷ args)
      → IsStep s
      → Holds p.flags
      → let r : FlagParser × ReturnCode = elim s [
        | unknown ↦ parse_argv (next ∷ args) (record p { argv = p.argv ++ (arg ∷ []) })
        | stops rc ↦ (p, rc)
        | goes_on used flags ↦ elim used [
          | true ↦ parse_argv args (record p { flags = flags })
          | false ↦ parse_argv (next ∷ args) (record p { flags = flags })
        ]
      ] in
        IsParsed r
  step-IsParsed arg next args p unknown behind here i h = here _ h
  step-IsParsed arg next args p (stops rc) behind here i h = (h, λ e. absurd (ground arith))
  step-IsParsed arg next args p (goes_on true flags) behind here i h = behind _ i
  step-IsParsed arg next args p (goes_on false flags) behind here i h = here _ i

  -- `parseArgv` gives a flag whole arguments for values, or the text `true`, never a part of an argument, whether it
  -- succeeds or not: what holds of that text, of the arguments, and of the values before, holds of the values
  -- after. If it succeeds, every flag that is required has a value.
  pub parse_argv-IsParsed :
      (argv : List Bytes) (p : FlagParser)
      → All P argv
      → Holds p.flags
      → IsParsed (parse_argv argv p)
  unfolding parse_argv
  parse_argv-IsParsed [] p a h = finish-IsParsed p h
  parse_argv-IsParsed ([] ∷ args) p a h = parse_argv-IsParsed args p a.1 h
  parse_argv-IsParsed ((c ∷ cs) ∷ []) p a h =
      last_step-IsParsed (c ∷ cs) p (take_arg (c ∷ cs) none p.flags)
        (take_arg-IsStep (c ∷ cs) none p.flags tt h) h
  parse_argv-IsParsed ((c ∷ cs) ∷ next ∷ args) p a h =
      step-IsParsed (c ∷ cs) next args p (take_arg (c ∷ cs) (some next) p.flags)
        (λ p' h'. parse_argv-IsParsed args p' a.1.1 h')
        (λ p' h'. parse_argv-IsParsed (next ∷ args) p' a.1 h')
        (take_arg-IsStep (c ∷ cs) (some next) p.flags a.1.0 h) h
