-- ===== src/Config/Parser/Outcomes.antt =====
-- What a run of the parser can end in.
use evcollect.Prelude.{◌≡◌, refl, ℕ}
use evcollect.Util.ReturnCode.{ReturnCode}
use evcollect.Config.Lexer.{event, output}
use evcollect.Config.Parser.{
  ConfigParser, Outcome, done, failed, M, ◌>>=◌, current_token, event_decl, output_decl,
  plugin_decls, default_case, output_case, event_case, declaration, parse, token_fuel,
}

-- The run ends in an error.
abbrev pub Fails : {A : Type 0} → Outcome A → Type 0
Fails r = (rc : ReturnCode) × (q : ConfigParser) × (r ≡ failed rc q)

bind-Fails :
    {A B : Type 0} (m : M A) (f : A → M B)
    → ((a : A) (q : ConfigParser) → Fails (f a q))
    → (p : ConfigParser) → Fails ((m >>= f) p)
bind-Fails {A} {B} m f fails p = go (m p)
  where
    go : (r : Outcome A) → Fails {A = B} (elim r [ done a q ↦ f a q | failed rc q ↦ failed rc q ])
    go (done a q) = fails a q
    go (failed rc q) = (rc, q, refl)

default-Fails : (p : ConfigParser) → Fails (default_case p)
unfolding default_case
default-Fails p = (_, p, refl)

output-Fails : (p : ConfigParser) → Fails (output_case p)
unfolding output_case
output-Fails = bind-Fails output_decl _ (λ t q. default-Fails _)

event-Fails : (n : ℕ) (p : ConfigParser) → Fails (event_case n p)
unfolding event_case
event-Fails n = bind-Fails (event_decl n) _ (λ ev q. output-Fails _)

declaration-Fails : (n : ℕ) (p : ConfigParser) → Fails (declaration n p)
unfolding declaration
declaration-Fails n p =
    elim (current_token p)
      as (λ t.
        Fails {A = Unit {0}}
          (elim t [ event ↦ event_case n p | output ↦ output_case p | _ ↦ default_case p ])) [
            | event ↦ event-Fails n p
            | output ↦ output-Fails p
            | _ ↦ default-Fails p
          ]

-- No input is accepted: the cases of `goal` fall through to the one that returns an error.
pub parse-Fails : (indeterminate : ℕ) (p : ConfigParser) → Fails (parse indeterminate p)
unfolding parse
parse-Fails n p = bind-Fails (plugin_decls (token_fuel p)) _ (λ _ q. declaration-Fails n q) p
