-- ===== src/Config/Parser/Grammar.antt =====
-- Which declarations the parser takes, and that its loops end by their tests.
use evcollect.Prelude.{
  ℕ, zero, suc, ◌<◌, ◌≡◌, ◌≢◌, refl, true, false, Bool-cases, inl, inr, List, [], ◌∷◌, Bytes, All,
  arith,
}
use evcollect.Config.Lexer.{
  ConfigToken, name, plugin, eof, unknown, next_token, pending, ConfigLexer,
}
use evcollect.Config.Lexer.Progress.{next_token-NextToken}
use evcollect.Config.Parser.{
  ConfigParser, Outcome, done, failed, ◌>>◌, current_token, current_value, advance, expected_path,
  is_token, consume_token, consume_name, consume_path, consume_value, consume_end_of_line,
  plugin_decl, property_list, output_decl, plugin_decls,
}

-- What holds if the run succeeds.
abbrev pub After : {A : Type 0} → (A → ConfigParser → Type 0) → Outcome A → Type 0
After R (done a q) = R a q
After R (failed rc q) = Unit

-- The tests of the loops, read as equations.
is_token-name : (t : ConfigToken) → is_token name t ≡ true → t ≡ name
unfolding is_token
is_token-name t h = ground arith

not-name : (t : ConfigToken) → is_token name t ≡ false → t ≢ name
unfolding is_token
not-name t h = ground arith

not-plugin : (t : ConfigToken) → is_token plugin t ≡ false → t ≢ plugin
unfolding is_token
not-plugin t h = ground arith

-- Fewer characters are left behind a token than before it.
shrinks :
    (lx : ConfigLexer) (t : ConfigToken)
    → (next_token lx).current_token ≡ t
    → t ≢ eof
    → t ≢ unknown
    → pending (next_token lx) < pending lx
shrinks lx t e ne nu = ground (arith, next_token-NextToken lx)

pub plugin_decl-shrinks :
    (p : ConfigParser) → After (λ _ q. pending q.lexer < pending p.lexer) (plugin_decl p)
unfolding plugin_decl consume_path consume_end_of_line
plugin_decl-shrinks p = ground (
  arith,
  next_token-NextToken p.lexer,
  next_token-NextToken (next_token p.lexer),
  next_token-NextToken (next_token (next_token p.lexer)),
)

pub plugin_decls-stop :
    (fuel : ℕ) (p : ConfigParser)
    → is_token plugin (current_token p) ≡ false
    → plugin_decls (suc fuel) p ≡ done tt p
unfolding plugin_decls
plugin_decls-stop fuel p f = rw (f, plugin_decls)

pub plugin_decls-round :
    (fuel : ℕ) (p : ConfigParser)
    → is_token plugin (current_token p) ≡ true
    → plugin_decls (suc fuel) p ≡ (plugin_decl >> plugin_decls fuel) p
unfolding plugin_decls
plugin_decls-round fuel p t = rw (t, plugin_decls)

-- The loop over plugin declarations ends by its test: if it succeeds, no plugin declaration follows.
plugin_decls-ended :
    (fuel : ℕ) (p : ConfigParser)
    → pending p.lexer < fuel
    → After (λ _ q. current_token q ≢ plugin) (plugin_decls fuel p)
plugin_decls-ended zero p h = absurd (omega arith)
plugin_decls-ended (suc fuel) p h = elim (Bool-cases (is_token plugin (current_token p))) [
  | inl t ↦ rw (plugin_decls-round fuel p t) (
      round (plugin_decl p) (plugin_decl-shrinks p) λ q lt. plugin_decls-ended fuel q (omega arith))
  | inr f ↦ rw (plugin_decls-stop fuel p f) (not-plugin (current_token p) f)
]
  where
    round :
        (r : Outcome (Unit {0}))
        → After (λ _ q. pending q.lexer < pending p.lexer) r
        → ((q : ConfigParser)
            → pending q.lexer < pending p.lexer
            → After (λ _ q. current_token q ≢ plugin) (plugin_decls fuel q))
        → After
            (λ _ q. current_token q ≢ plugin)
            (elim r [ done _ q ↦ plugin_decls fuel q | failed rc q ↦ failed rc q ])
    round (done _ q) lt next = next q lt
    round (failed rc q) lt next = tt

-- An entry as the parser makes it.
abbrev pub Echo : Bytes × List Bytes → Type 0
Echo (k, vs) = vs ≡ k ∷ []

property_list-stop :
    (fuel : ℕ) (p : ConfigParser) → current_token p ≢ name → property_list fuel p ≡ done [] p
unfolding property_list is_token
property_list-stop zero p h = refl
property_list-stop (suc fuel) p h = ground arith

property_list-round :
    (fuel : ℕ) (p q : ConfigParser) (ps : List (Bytes × List Bytes))
    → current_token p ≡ name
    → property_list fuel (advance p) ≡ done ps q
    → property_list (suc fuel) p ≡ done ((current_value p, current_value p ∷ []) ∷ ps) q
unfolding property_list is_token consume_value
property_list-round fuel p q ps t h = ground arith

-- The loop over properties ends by its test and never fails. Each property gets its own name as its
-- value: the name is still the current token when the value is consumed.
pub property_list-Echo :
    (fuel : ℕ) (p : ConfigParser)
    → pending p.lexer < fuel
    → (ps : List (Bytes × List Bytes)) × (q : ConfigParser) × (property_list fuel p ≡ done ps q)
      × All Echo ps
      × (current_token q ≢ name)
property_list-Echo zero p h = absurd (omega arith)
property_list-Echo (suc fuel) p h = elim (Bool-cases (is_token name (current_token p))) [
  | inr f ↦
      let n = not-name (current_token p) f in ([], p, property_list-stop (suc fuel) p n, tt, n)
  | inl t ↦ elim (next_token-NextToken p.lexer).advances [
    | inl u ↦ last (λ e. cc) (is_token-name (current_token p) t)
    | inr (inl u) ↦ last (λ e. cc) (is_token-name (current_token p) t)
    | inr (inr lt) ↦
        let (ps, q, e, echo, n) = property_list-Echo fuel (advance p) (omega arith) in
        (
          _,
          q,
          property_list-round fuel p q ps (is_token-name (current_token p) t) e,
          (refl, echo),
          n,
        )
  ]
]
  where
    last :
        current_token (advance p) ≢ name
        → current_token p ≡ name
        → (ps : List (Bytes × List Bytes)) × (q : ConfigParser) × (property_list (suc fuel) p
            ≡ done ps q)
          × All Echo ps
          × (current_token q ≢ name)
    last n t = (
      (current_value p, current_value p ∷ []) ∷ [],
      advance p,
      property_list-round fuel p _ [] t (property_list-stop fuel (advance p) n),
      (refl, tt),
      n,
    )

-- The declaration that config-syntax.md gives, `"output" NAME "plugin" PATH NL`, is refused: `plugin` is
-- not skipped, and is no path.
output_decl-plugin :
    (p : ConfigParser)
    → current_token (advance p) ≡ name
    → current_token (advance (advance p)) ≡ plugin
    → output_decl p ≡ failed expected_path (advance (advance p))
unfolding output_decl consume_name consume_token consume_path
output_decl-plugin p n t = ground arith
