-- ===== src/Config/Parser/Plugins.antt =====
-- The plugin declarations at the head of a configuration.
use mathlib.Core.Path.{subst}
use evcollect.Prelude.{
  ℕ, zero, suc, ◌<◌, ◌≡◌, ◌≢◌, ◌⊎◌, sym, ap, ◌∙◌, true, false, inl, inr, List, [], ◌∷◌, ◌++◌,
  append-nil, append_assoc, Bytes, arith,
}
use evcollect.Config.Lexer.{ConfigToken, name, value, end, plugin, next_token, pending, ConfigLexer}
use evcollect.Config.Parser.{
  ConfigParser, Outcome, done, failed, current_token, advance, is_token, consume_path,
  consume_end_of_line, plugin_decl, plugin_decls, declaration, parse, token_fuel,
}
use evcollect.Config.Parser.Grammar.{
  After, plugin_decl-shrinks, plugin_decls-stop, plugin_decls-round,
}

-- A lexer stands before lines `plugin PATH`, with these paths, and behind them it stands at another token.
pub data PluginLines : ConfigLexer → List Bytes → ConfigLexer → Type 0 where
  no_line : (lx : ConfigLexer) → lx.current_token ≢ plugin → PluginLines lx [] lx
  a_line :
      (lx lx' : ConfigLexer) (paths : List Bytes)
      → lx.current_token ≡ plugin
      → ((next_token lx).current_token ≡ name) ⊎ ((next_token lx).current_token ≡ value)
      → (next_token (next_token lx)).current_token ≡ end
      → PluginLines (next_token (next_token (next_token lx))) paths lx'
      → PluginLines lx ((next_token lx).string_value ∷ paths) lx'

-- The parser behind them, with the paths added to the configuration.
abbrev pub loading : List Bytes → ConfigLexer → ConfigParser → ConfigParser
loading paths lx p = record p {
  lexer = lx;
  config = record (p.config) { load_plugins = p.config.load_plugins ++ paths };
}

plugin_decl-line :
    (p : ConfigParser)
    → (current_token (advance p) ≡ name) ⊎ (current_token (advance p) ≡ value)
    → current_token (advance (advance p)) ≡ end
    → plugin_decl p
      ≡ done tt (
          loading
            ((next_token p.lexer).string_value ∷ [])
            (next_token (next_token (next_token p.lexer)))
            p)
unfolding plugin_decl consume_path consume_end_of_line
plugin_decl-line p (inl e) f = ground arith
plugin_decl-line p (inr e) f = ground arith

is_token-plugin : (t : ConfigToken) → t ≡ plugin → is_token plugin t ≡ true
unfolding is_token
is_token-plugin t e = ground arith

is_token-other : (t : ConfigToken) → t ≢ plugin → is_token plugin t ≡ false
unfolding is_token
is_token-other t e = ground arith

plugin_decls-lines :
    (fuel : ℕ) (p : ConfigParser) (paths : List Bytes) (lx : ConfigLexer)
    → pending p.lexer < fuel
    → PluginLines p.lexer paths lx
    → plugin_decls fuel p ≡ done tt (loading paths lx p)
plugin_decls-lines zero p paths lx h l = absurd (omega arith)
plugin_decls-lines (suc fuel) p _ _ h (PluginLines.no_line _ n) =
    plugin_decls-stop fuel p (is_token-other (current_token p) n)
    ∙ ap (λ ps. done tt (record p { config = record (p.config) { load_plugins = ps } }))
        (sym (append-nil p.config.load_plugins))
plugin_decls-lines (suc fuel) p _ lx' h (PluginLines.a_line _ _ paths e path line rest) =
    let line_done = plugin_decl-line p path line in
    let lt =
      subst (After (λ _ q. pending q.lexer < pending p.lexer)) line_done (plugin_decl-shrinks p) in
    let path_of = (next_token p.lexer).string_value in
    let q = loading (path_of ∷ []) (next_token (next_token (next_token p.lexer))) p in
    plugin_decls-round fuel p (is_token-plugin (current_token p) e)
    ∙ ap
        (λ (r : Outcome (Unit {0})). elim r [
          | done _ q ↦ plugin_decls fuel q
          | failed rc q ↦ failed rc q
        ])
        line_done
    ∙ plugin_decls-lines fuel q paths lx' (omega (arith, lt)) rest
    ∙ ap
        (λ ps. done tt (record p { lexer = lx'; config = record (p.config) { load_plugins = ps } }))
        (append_assoc p.config.load_plugins (path_of ∷ []) paths)

-- Where the input begins with lines `plugin PATH`, `parse` adds their paths, in order, to the plugins that are to be
-- loaded, and nothing else to the configuration, and then reads a declaration at the first other token, with
-- the status that this one has.
pub parse-plugins :
    (indeterminate : ℕ) (p : ConfigParser) (paths : List Bytes) (lx : ConfigLexer)
    → PluginLines p.lexer paths lx
    → parse indeterminate p ≡ declaration indeterminate (loading paths lx p)
unfolding parse
parse-plugins indeterminate p paths lx l =
    ap
      (λ (r : Outcome (Unit {0})). elim r [
        | done _ q ↦ declaration indeterminate q
        | failed rc q ↦ failed rc q
      ])
      (plugin_decls-lines (token_fuel p) p paths lx (omega arith) l)
