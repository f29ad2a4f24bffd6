-- ===== src/Util/Logging/Lines.antt =====
-- The lines that a message becomes on stderr.
use mathlib.Core.Option
use mathlib.Core.List.{flatten}
use evcollect.Prelude.{
  ◌≡◌, Option, sym, ap, ◌∙◌, none, some, List, [], ◌∷◌, ◌++◌, map, append_assoc, append-nil, Bytes,
  codes, All, arith,
}
use evcollect.Util.StringUtil.{join, join_more, replace_all}
use evcollect.Util.StringUtil.Split.{replace_all-split}
use evcollect.Util.StringUtil.Join.{Lacks, Lacks-append, join-cons, join-one, split-join}
use evcollect.Util.Logging.{stderr_lines}

abbrev pub newline : Bytes
newline = codes "\n"

abbrev pub prefixed : Bytes → List Bytes → List Bytes
prefixed prefix = map (λ line. prefix ++ (line ++ newline))

prefix-join :
    (prefix sep x : Bytes) (xs : List Bytes)
    → prefix ++ join (x ∷ xs) sep ≡ join ((prefix ++ x) ∷ xs) sep
unfolding join
prefix-join prefix sep x xs = sym (append_assoc prefix x (join_more xs sep))

join-prefixed :
    (prefix x : Bytes) (xs : List Bytes)
    → join ((prefix ++ x) ∷ xs) (newline ++ prefix) ++ newline ≡ flatten (prefixed prefix (x ∷ xs))
unfolding flatten
join-prefixed prefix x [] =
    rw (join-one (prefix ++ x) (newline ++ prefix)) (simp (append_assoc, append-nil))
join-prefixed prefix x (y ∷ ys) =
    let later : prefix ++ (join (y ∷ ys) (newline ++ prefix) ++ newline)
        ≡ flatten (prefixed prefix (y ∷ ys)) =
      sym (append_assoc prefix _ newline)
      ∙ ap (λ t. t ++ newline) (prefix-join prefix (newline ++ prefix) y ys)
      ∙ join-prefixed prefix y ys in
    rw (join-cons (newline ++ prefix) (prefix ++ x) y ys, ← later) (simp append_assoc)

stderr_lines-some :
    (prefix message lines : Bytes)
    → replace_all (prefix ++ message) newline (newline ++ prefix) ≡ some lines
    → stderr_lines prefix message ≡ lines ++ newline
unfolding stderr_lines
stderr_lines-some prefix message lines e =
    ap (λ (o : Option Bytes). elim o [ none ↦ [] | some lines ↦ lines ++ newline ]) e

-- A message goes to stderr line by line, each with the prefix, where the prefix holds no line feed.
pub stderr_lines-flatten :
    (prefix x : Bytes) (xs : List Bytes)
    → Lacks b'\n' prefix
    → All (Lacks b'\n') (x ∷ xs)
    → stderr_lines prefix (join (x ∷ xs) newline) ≡ flatten (prefixed prefix (x ∷ xs))
stderr_lines-flatten prefix x xs hp hs =
    stderr_lines-some prefix (join (x ∷ xs) newline) (join ((prefix ++ x) ∷ xs) (newline ++ prefix))
      (ap (λ t. replace_all t newline (newline ++ prefix)) (prefix-join prefix newline x xs)
        ∙ replace_all-split (join ((prefix ++ x) ∷ xs) newline) newline (newline ++ prefix)
            (λ e. ground arith)
        ∙ ap (Option.map (λ parts. join parts (newline ++ prefix)))
            (split-join b'\n' (prefix ++ x) xs (Lacks-append b'\n' prefix x hp hs.0, hs.1)))
    ∙ join-prefixed prefix x xs
