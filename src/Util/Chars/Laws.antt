-- ===== src/Util/Chars/Laws.antt =====
-- The order of texts.
use evcollect.Prelude.{◌≡◌, ◌↔◌, refl, [], ◌∷◌, Bytes, arith}
use evcollect.Util.Chars.{compare, Comparison, less, equal, greater}

flip : Comparison → Comparison
flip less = greater
flip equal = equal
flip greater = less

-- `compare` is the order of texts: it says `equal` of equal texts only, and the other way round it says the
-- opposite.
compare-flip :
    (a b : Bytes) → ((compare a b ≡ equal) ↔ (a ≡ b)) × (compare b a ≡ flip (compare a b))
unfolding compare flip
compare-flip [] [] = ((λ e. refl, λ e. refl), refl)
compare-flip [] (d ∷ ds) = ground arith
compare-flip (c ∷ cs) [] = ground arith
compare-flip (c ∷ cs) (d ∷ ds) = ground (arith, compare-flip cs ds)
