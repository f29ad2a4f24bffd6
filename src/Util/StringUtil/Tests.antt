-- ===== src/Util/StringUtil/Tests.antt =====
-- The text helpers on small texts.
use mathlib.Core.Option
use evcollect.Prelude.{none, ◌≡◌, ◌≢◌, refl, true, some, [], ◌∷◌, Bytes, codes, str_eq, arith}
use evcollect.Util.StringUtil.{
  starts_with, begins_with, ends_with, find, find_from, replace_loop, replace_all, split_loop,
  split, join, strip_slashes, strip_trailing_slashes, format_args, format, digits_onto, to_string,
}
use evcollect.Util.StringUtil.Split.{replace_all-split}

abbrev comma : Bytes
comma = codes ", "

abbrev list_text : Bytes
list_text = codes "one, two,, three"

begins-list : begins_with list_text (codes "one") ≡ true
unfolding begins_with str_eq
begins-list = refl

ends-list : ends_with list_text (codes "three") ≡ true
unfolding ends_with str_eq
ends-list = refl

split-list : split list_text comma ≡ some (codes "one" ∷ codes "two," ∷ codes "three" ∷ [])
unfolding split split_loop find_from find starts_with
split-list = refl

replace-list : replace_all list_text comma (codes "/") ≡ some (codes "one/two,/three")
unfolding replace_all replace_loop find_from find starts_with
replace-list = refl

to_string-120 : to_string 120 ≡ codes "120"
unfolding to_string digits_onto
to_string-120 = refl

format-two : format (codes "$0 of $1") (codes "3" ∷ codes "x" ∷ []) ≡ codes "3 of x"
unfolding format format_args replace_all replace_loop find_from find starts_with to_string
format-two = refl

comma-filled : comma ≢ []
comma-filled = ground arith

replace_all-split_example :
    replace_all list_text comma (codes "/")
    ≡ Option.map (λ parts. join parts (codes "/")) (split list_text comma)
replace_all-split_example = replace_all-split list_text comma (codes "/") comma-filled

slashes :
    (strip_trailing_slashes (codes "/a/b//") ≡ some (codes "/a/b"))
    × (strip_trailing_slashes (codes "//") ≡ none)
unfolding strip_trailing_slashes strip_slashes
slashes = (refl, refl)
