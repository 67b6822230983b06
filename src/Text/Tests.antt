-- ===== src/Text/Tests.antt =====
-- The order of texts.
use korail_ktx_macro_telegra.Common.{true, false, [], ◌∷◌, ◌≡◌, refl}
use korail_ktx_macro_telegra.Text.{before}

prefix_first : before (49 ∷ []) (49 ∷ 48 ∷ []) ≡ true
unfolding before
prefix_first = refl

longer_not_first : before (50 ∷ []) (49 ∷ 57 ∷ []) ≡ false
unfolding before
longer_not_first = refl
