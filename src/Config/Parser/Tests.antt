-- ===== src/Config/Parser/Tests.antt =====
-- The parser on configurations like those of README.md.
use evcollect.Prelude.{List, All, ◌≢◌, arith, ◌≡◌, refl, inl, inr, [], ◌∷◌, Bytes, codes}
use evcollect.Events.{ProcessConfig}
use evcollect.Config.Lexer.{new_lexer}
use evcollect.Config.Lexer.{name, ConfigLexer, next_token}
use evcollect.Config.Parser.Outcomes.{Fails, parse-Fails}
use evcollect.Config.Parser.Plugins.{PluginLines, loading, parse-plugins}
use evcollect.Config.Parser.Grammar.{Echo, property_list-Echo}
use evcollect.Config.Parser.{
  current_token, property_list, ConfigParser, Outcome, done, failed, parse, declaration, is_token,
}

abbrev empty_config : ProcessConfig
empty_config = record {
  event_bindings = [];
  target_bindings = [];
  spool_dir = [];
  plugin_dir = [];
  load_plugins = [];
}

start : Bytes → ConfigParser
unfolding new_lexer
start text = record { lexer = new_lexer (codes "f") text; config = empty_config }

abbrev left : {A : Type 0} → Outcome A → ConfigParser
left (done _ q) = q
left (failed _ q) = q

two_plugins :
    (left (parse 7 (start (codes "plugin a\nplugin 'b.so'\n")))).config.load_plugins
    ≡ codes "a" ∷ codes "b.so" ∷ []
unfolding start parse is_token
two_plugins = refl

parse-Fails_example : Fails (parse 7 (start (codes "event a\n")))
parse-Fails_example = parse-Fails 7 (start (codes "event a\n"))

property_list-Echo_example :
    (ps : List (Bytes × List Bytes)) × (q : ConfigParser) × (property_list 40
        (start (codes "interval 1s\n"))
      ≡ done ps q)
    × All Echo ps
    × (current_token q ≢ name)
unfolding start new_lexer
property_list-Echo_example = property_list-Echo 40 (start (codes "interval 1s\n")) (omega arith)

abbrev output_start : ConfigParser
unfolding start new_lexer
output_start = start (codes "output e plugin eventql\n")

-- The lexer behind two declarations.
line_behind : ConfigLexer → ConfigLexer
line_behind lx = next_token (next_token (next_token lx))

abbrev two : ConfigParser
two = start (codes "plugin a\nplugin 'b.so'\nevent e\n")

two-PluginLines :
    PluginLines two.lexer (codes "a" ∷ codes "b.so" ∷ []) (line_behind (line_behind two.lexer))
unfolding start new_lexer next_token line_behind
two-PluginLines = PluginLines.a_line _ _ _ refl (inl refl) refl (
    PluginLines.a_line _ _ _ refl (inr refl) refl
      (PluginLines.no_line _ (λ e. absurd (ground arith))))

parse-plugins_example :
    parse 7 two
    ≡ declaration 7
        (loading (codes "a" ∷ codes "b.so" ∷ []) (line_behind (line_behind two.lexer)) two)
parse-plugins_example =
    parse-plugins 7 two (codes "a" ∷ codes "b.so" ∷ []) (line_behind (line_behind two.lexer))
      two-PluginLines
