-- ===== src/StringView/Same.antt =====
-- The equality of views.
use sfizz.Base.{ℕ, ◌≡◌, refl, true, List, [], ◌∷◌, arith}
use sfizz.StringView.{is_same}

pub is_same_refl : (s : List ℕ) → is_same s s ≡ true
unfolding is_same
is_same_refl [] = refl
is_same_refl (c ∷ s) = ground (arith, is_same_refl s)

pub eq_of_is_same : (s t : List ℕ) → is_same s t ≡ true → s ≡ t
unfolding is_same
eq_of_is_same [] [] e = refl
eq_of_is_same [] (d ∷ t) e = ground (arith, e)
eq_of_is_same (c ∷ s) [] e = ground (arith, e)
eq_of_is_same (c ∷ s) (d ∷ t) e = ground (arith, e, eq_of_is_same s t)
