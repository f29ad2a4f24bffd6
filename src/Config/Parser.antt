-- ===== src/Config/Parser.antt =====
-- `ConfigParser` of src/evcollect/config.cc. A method runs on the lexer and on the configuration
-- that it fills, which keeps what it got before an error. `indeterminate` stands for the value of
-- `interval_micros` in an `EventConfig` that nothing has set.
pub mod Outcomes
pub mod Grammar
pub mod Plugins
mod Tests
use evcollect.Prelude.{
  ℕ, zero, suc, Bool, true, false, List, [], ◌∷◌, ◌++◌, Bytes, codes, c_str, str_eq, if◌then◌else◌,
}
use evcollect.Events.{PropertyList, EventSourceConfig, EventConfig, TargetConfig, ProcessConfig}
use evcollect.Util.ReturnCode.{ReturnCode, error, error_fmt}
use evcollect.Util.StringUtil.{to_string, format}
use evcollect.Config.Lexer.{
  ConfigToken, unknown, eof, end, name, value, event, source, output, plugin, token_to_string,
  ConfigLexer, next_token, pending,
}

pub record ConfigParser : Type 0 where
  pub lexer : ConfigLexer
  pub config : ProcessConfig

-- A method returns its out parameter, or the `ReturnCode` of an error; the parser is left in either case.
pub data Outcome (A : Type 0) : Type 0 where
  done : A → ConfigParser → Outcome A
  failed : ReturnCode → ConfigParser → Outcome A

abbrev pub M : Type 0 → Type 0
M A = ConfigParser → Outcome A

infixl 5 ◌>>=◌ ◌>>◌
abbrev pub ◌>>=◌ : {A B : Type 0} → M A → (A → M B) → M B
◌>>=◌ m f p = elim (m p) [ done a q ↦ f a q | failed rc q ↦ failed rc q ]

abbrev pub ◌>>◌ : {B : Type 0} → M (Unit {0}) → M B → M B
m >> k = m >>= λ _. k

abbrev pub pure : {A : Type 0} → A → M A
pure a p = done a p

abbrev fail : {A : Type 0} → ReturnCode → M A
fail rc p = failed rc p

abbrev pub current_token : ConfigParser → ConfigToken
current_token p = p.lexer.current_token

abbrev pub current_value : ConfigParser → Bytes
current_value p = p.lexer.string_value

-- Each method reads the next token by moving the lexer.
abbrev pub advance : ConfigParser → ConfigParser
advance p = record p { lexer = next_token p.lexer }

abbrev pub skip_token : M (Unit {0})
skip_token p = done tt (advance p)

abbrev pub expected_path : ReturnCode
expected_path = error (codes "Unexpected Token") (codes "Expected PATH")

-- Consumes nothing, whatever token is expected.
pub consume_token : ConfigToken → M (Unit {0})
consume_token expected = pure tt

pub consume_name : M Bytes
consume_name p = elim (current_token p) [
  | name ↦ done (current_value p) (advance p)
  | _ ↦ failed expected_path p
]

pub consume_path : M Bytes
consume_path p = elim (current_token p) [
  | name ↦ done (current_value p) (advance p)
  | value ↦ done (current_value p) (advance p)
  | _ ↦ failed expected_path p
]

pub consume_value : M Bytes
consume_value p = elim (current_token p) [
  | name ↦ done (current_value p) (advance p)
  | value ↦ done (current_value p) (advance p)
  | _ ↦ failed expected_path p
]

pub consume_end_of_line : M (Unit {0})
consume_end_of_line p = elim (current_token p) [
  | end ↦ done tt (advance p)
  | _ ↦ failed (error (codes "Unexpected Token") (codes "Expected end of line.")) p
]

abbrev add_plugin : Bytes → M (Unit {0})
add_plugin path p =
    done tt (record p {
      config = record (p.config) { load_plugins = p.config.load_plugins ++ path ∷ [] };
    })

pub plugin_decl : M (Unit {0})
unfolding consume_path consume_end_of_line
plugin_decl = do skip_token; path ← consume_path; consume_end_of_line; add_plugin path

pub is_token : ConfigToken → ConfigToken → Bool
is_token name name = true
is_token source source = true
is_token plugin plugin = true
is_token _ _ = false

-- `propertyList`: what it appends. The name is still the current token when the value is consumed.
pub property_list : ℕ → M (List (Bytes × List Bytes))
unfolding consume_value
property_list zero p = done [] p
property_list (suc fuel) p =
    let round = (do
      v ← consume_value
      rest ← property_list fuel
      pure ((current_value p, v ∷ []) ∷ rest)) in
    elim (is_token name (current_token p)) [ true ↦ round p | false ↦ done [] p ]

-- The fuel of a loop over tokens.
abbrev pub token_fuel : ConfigParser → ℕ
token_fuel p = suc (pending p.lexer)

abbrev properties : M (List (Bytes × List Bytes))
properties p = property_list (token_fuel p) p

-- `applyEventProperties`: only "interval" is known, and its value is not read.
pub apply_event_properties : List (Bytes × List Bytes) → EventConfig → EventConfig
apply_event_properties [] ev = ev
apply_event_properties ((k, vs) ∷ ps) ev =
    apply_event_properties ps
      (if str_eq k (codes "interval") then record ev { interval_micros = 1000000 } else ev)

pub source_decl : M EventSourceConfig
unfolding consume_name consume_value property_list
source_decl = do
  skip_token
  plugin_name ← consume_name
  plugin_value ← consume_value
  ps ← properties
  pure (record {
    plugin_name = plugin_name;
    plugin_value = plugin_value;
    properties = record { properties = ps };
  })

-- The loop over the sources of an event.
pub source_decls : ℕ → M (List EventSourceConfig)
unfolding source_decl
source_decls zero p = done [] p
source_decls (suc fuel) p =
    let round = (do s ← source_decl; rest ← source_decls fuel; pure (s ∷ rest)) in
    elim (is_token source (current_token p)) [ true ↦ round p | false ↦ done [] p ]

abbrev sources : M (List EventSourceConfig)
sources p = source_decls (token_fuel p) p

pub event_decl : ℕ → M EventConfig
unfolding consume_name property_list apply_event_properties consume_end_of_line source_decls
event_decl indeterminate = do
  skip_token
  event_name ← consume_name
  ps ← properties
  let ev =
      apply_event_properties ps
        (record { event_name = event_name; interval_micros = indeterminate; sources = [] })
  consume_end_of_line
  srcs ← sources
  pure (record ev { sources = srcs })

pub output_decl : M TargetConfig
unfolding consume_name consume_token consume_path consume_end_of_line
output_decl = do
  skip_token
  plugin_value ← consume_name
  consume_token plugin
  plugin_name ← consume_path
  consume_end_of_line
  pure (record {
    plugin_name = plugin_name;
    plugin_value = plugin_value;
    properties = record { properties = [] };
  })

-- `currentContext()`.
current_context : ConfigLexer → Bytes
current_context lx =
    format (codes "$0:$1:$2")
      (lx.label ∷ to_string lx.current_line_nr ∷ to_string lx.current_column ∷ [])

-- `unexpectedToken`; `%s` reads its argument as a C string.
unexpected_token : ConfigParser → ReturnCode
unfolding current_context
unexpected_token p = error_fmt (codes "Unepxected Token") (
    codes "<"
    ++ (c_str (current_context p.lexer)
        ++ (codes ">: Expected \"event\" or \"output\", but got "
            ++ (c_str (token_to_string (current_token p)) ++ codes "."))))

-- The loop over the plugin declarations at the head of the file.
pub plugin_decls : ℕ → M (Unit {0})
unfolding plugin_decl
plugin_decls zero p = done tt p
plugin_decls (suc fuel) p =
    let round = (do plugin_decl; plugin_decls fuel) in
    elim (is_token plugin (current_token p)) [ true ↦ round p | false ↦ done tt p ]

abbrev add_event : EventConfig → M (Unit {0})
add_event ev p = done tt (record p {
  config = record (p.config) { event_bindings = p.config.event_bindings ++ ev ∷ [] };
})

abbrev add_target : TargetConfig → M (Unit {0})
add_target target p = done tt (record p {
  config = record (p.config) { target_bindings = p.config.target_bindings ++ target ∷ [] };
})

-- The cases of the `switch` in `goal`. None ends in a `break`: each goes on into the next.
pub default_case : M (Unit {0})
unfolding unexpected_token
default_case p = failed (unexpected_token p) p

pub output_case : M (Unit {0})
unfolding output_decl default_case
output_case = do target ← output_decl; add_target target; default_case

pub event_case : ℕ → M (Unit {0})
unfolding event_decl output_case
event_case indeterminate = do ev ← event_decl indeterminate; add_event ev; output_case

-- One round of `for (;;)`. It never comes to a second one: `default` returns.
pub declaration : ℕ → M (Unit {0})
unfolding event_case output_case default_case
declaration indeterminate p = elim (current_token p) [
  | event ↦ event_case indeterminate p
  | output ↦ output_case p
  | _ ↦ default_case p
]

-- `parse` is `goal`.
pub parse : ℕ → M (Unit {0})
unfolding plugin_decls declaration
parse indeterminate p = (plugin_decls (token_fuel p) >> declaration indeterminate) p
