-- ===== src/Util/FlagParser/EqualsSign.antt =====
-- Which arguments with `=` the flags of src/evcollect/util/flagparser.cc match.
use evcollect.Prelude.{
  ℕ, ◌≡◌, ◌≢◌, refl, Bool, true, ◌&&◌, Option, none, some, [], ◌∷◌, ◌++◌, Bytes, codes, c_str,
  length, ◌==◌, str_eq, arith, if◌then◌else◌,
}
use evcollect.Util.FlagParser.{FlagState}
use evcollect.Util.FlagParser.Argv.{
  Match, no_match, plain_match, eq_match, compares, match_short, match_flag,
}

compares-prefix : (arg s t : Bytes) → compares arg (s ++ t) ≡ true → compares arg s ≡ true
unfolding str_eq
compares-prefix arg [] t e = refl
compares-prefix [] (c ∷ s) t e = absurd (ground arith)
compares-prefix (b ∷ arg) (c ∷ s) t e = ground (arith, compares-prefix arg s t)

-- A short name with `=` is never looked at: the name without it matches first.
short_match : Bool → Bool → ℕ → Match
short_match plain eq eq_len =
    if plain then plain_match else if eq then eq_match eq_len else no_match

short_match-plain :
    (plain eq : Bool) (eq_len n : ℕ)
    → (eq ≡ true → plain ≡ true)
    → short_match plain eq eq_len ≢ eq_match n
unfolding short_match
short_match-plain plain eq eq_len n h = ground arith

match_short-eq : (arg : Bytes) (name : Option Bytes) (n : ℕ) → match_short arg name ≢ eq_match n
unfolding match_short short_match
match_short-eq arg none n e = absurd (ground arith)
match_short-eq arg (some name) n e =
    let shortopt = codes "-" ++ c_str name in
    short_match-plain (compares arg shortopt) (compares arg (shortopt ++ codes "="))
      (length (shortopt ++ codes "=")) n (compares-prefix arg shortopt (codes "=")) e

long_match : ℕ → Bool → Bool → ℕ → Match → Match
long_match size plain eq eq_len other =
    if plain then plain_match else if size == eq_len && eq then eq_match eq_len else other

long_match-eq :
    (size : ℕ) (plain eq : Bool) (eq_len n : ℕ) (other : Match)
    → other ≢ eq_match n
    → long_match size plain eq eq_len other ≡ eq_match n
    → size ≡ n
unfolding long_match
long_match-eq size plain eq eq_len n other h e = ground arith

pub match_flag-eq :
    (arg : Bytes) (flag : FlagState) (n : ℕ) → match_flag arg flag ≡ eq_match n → length arg ≡ n
unfolding match_flag long_match
match_flag-eq arg flag n e =
    let longopt = codes "--" ++ c_str flag.longopt.text in
    long_match-eq (length arg) (length arg == length longopt && compares arg longopt)
      (compares arg (longopt ++ codes "=")) (length (longopt ++ codes "=")) n
      (match_short arg flag.shortopt) (match_short-eq arg flag.shortopt n) e
