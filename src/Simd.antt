-- ===== src/Simd.antt =====
-- sfizz/SIMDHelpers.h, the scalar versions (which sfizz/SIMDDummy.cpp selects for each operation).
-- A span is the list of its values. An operation that writes a span takes its old values and
-- returns the new ones: what the loop does not reach stays.
pub mod Shape
use sfizz.Base.{ℕ, suc, Bool, List, [], ◌∷◌, map, if◌then◌else◌, length, ◌||◌}
use sfizz.Base.Int.{ℤ, pos, ◌-ℤ◌}
use sfizz.Float.{FloatOps, of_nat}

-- The span of indices, and those of the left and right coefficients.
abbrev pub Interpolation : Type 0 → Type 0
Interpolation F = List ℤ × List F × List F

module _ {A : Type 0} where
  -- The loop ends when one input does, or when the output has less than two places.
  unfoldable pub write_interleaved : List A → List A → List A → List A
  write_interleaved (l ∷ ls) (r ∷ rs) (a ∷ b ∷ out) = l ∷ r ∷ write_interleaved ls rs out
  write_interleaved ls rs out = out

  unfoldable pub read_interleaved : List A → List A → List A → List A × List A
  read_interleaved (l ∷ r ∷ input) (a ∷ left) (b ∷ right) =
      let (left', right') = read_interleaved input left right in (l ∷ left', r ∷ right')
  read_interleaved input left right = (left, right)

  unfoldable pub fill : List A → A → List A
  fill [] v = []
  fill (x ∷ out) v = v ∷ fill out v

  unfoldable pub copy : List A → List A → List A
  copy (x ∷ input) (y ∷ out) = x ∷ copy input out
  copy input out = out

  -- One pass that writes f(input, output) while both spans last.
  unfoldable pub apply : (A → A → A) → List A → List A → List A
  apply f (x ∷ input) (y ∷ out) = f x y ∷ apply f input out
  apply f input out = out

module _ {F : Type 0} ⦃o : FloatOps F⦄ where
  open o use {add, sub, mul, div, lt, eq, of_int, to_int, lit}

  abbrev one : F
  one = of_nat 1

  abbrev nought : F
  nought = of_nat 0

  unfoldable pub exp : List F → List F → List F
  exp = apply (λ x y. o.exp x)

  unfoldable pub log : List F → List F → List F
  log = apply (λ x y. o.log x)

  unfoldable pub sin : List F → List F → List F
  sin = apply (λ x y. o.sin x)

  unfoldable pub cos : List F → List F → List F
  cos = apply (λ x y. o.cos x)

  -- `applyGain(gain, input, output)` with one gain.
  unfoldable pub apply_gain : F → List F → List F → List F
  apply_gain g = apply (λ x y. mul g x)

  -- The same with a span of gains.
  unfoldable pub apply_gain_span : List F → List F → List F → List F
  apply_gain_span (g ∷ gain) (x ∷ input) (y ∷ out) = mul g x ∷ apply_gain_span gain input out
  apply_gain_span gain input out = out

  unfoldable pub multiply_add : List F → List F → List F → List F
  multiply_add (g ∷ gain) (x ∷ input) (y ∷ out) = add y (mul g x) ∷ multiply_add gain input out
  multiply_add gain input out = out

  -- The ramps return the span and the last value.
  unfoldable pub linear_ramp : List F → F → F → List F × F
  linear_ramp [] value step = ([], value)
  linear_ramp (x ∷ out) value step =
      let (out', last) = linear_ramp out (add value step) step in (add value step ∷ out', last)

  unfoldable pub multiplicative_ramp : List F → F → F → List F × F
  multiplicative_ramp [] value step = ([], value)
  multiplicative_ramp (x ∷ out) value step =
      let (out', last) = multiplicative_ramp out (mul value step) step in
      (mul value step ∷ out', last)

  unfoldable pub add_span : List F → List F → List F
  add_span = apply (λ x y. add y x)

  unfoldable pub add_value : F → List F → List F
  add_value v = map (λ y. add y v)

  unfoldable pub subtract_value : F → List F → List F
  subtract_value v = map (λ y. sub y v)

  unfoldable pub subtract_span : List F → List F → List F
  subtract_span = apply (λ x y. sub y x)

  unfoldable pub pan : F → List F → List F → List F → List F × List F
  pan pi_four (p ∷ envelope) (l ∷ left) (r ∷ right) =
      let circle = mul pi_four (add one p) in
      let (left', right') = pan pi_four envelope left right in
      (mul l (o.cos circle) ∷ left', mul r (o.sin circle) ∷ right')
  pan pi_four envelope left right = (left, right)

  sum_from : F → List F → F
  sum_from acc [] = acc
  sum_from acc (x ∷ xs) = sum_from (add acc x) xs

  unfoldable pub mean : List F → F
  unfolding sum_from
  mean [] = nought
  mean (x ∷ xs) = div (sum_from nought (x ∷ xs)) (of_nat (length (x ∷ xs)))

  unfoldable pub mean_squared : List F → F
  unfolding sum_from
  mean_squared [] = nought
  mean_squared (x ∷ xs) =
      div (sum_from nought (map (λ y. mul y y) (x ∷ xs))) (of_nat (length (x ∷ xs)))

  -- `previous` is the value just written.
  unfoldable pub cumsum_from : F → List F → List F → List F
  cumsum_from previous (x ∷ input) (y ∷ out) =
      add previous x ∷ cumsum_from (add previous x) input out
  cumsum_from previous input out = out

  unfoldable pub cumsum : List F → List F → List F
  unfolding cumsum_from
  cumsum (x ∷ input) (y ∷ out) = x ∷ cumsum_from x input out
  cumsum input out = out

  -- `previous` is the input value before.
  diff_from : F → List F → List F → List F
  diff_from previous (x ∷ input) (y ∷ out) = sub x previous ∷ diff_from x input out
  diff_from previous input out = out

  unfoldable pub diff : List F → List F → List F
  unfolding diff_from
  diff (x ∷ input) (y ∷ out) = x ∷ diff_from x input out
  diff input out = out

  -- `rightCoeff` is the fraction, and `leftCoeff` what is missing to one.
  unfoldable pub sfz_interpolation_cast : List F → Interpolation F → Interpolation F
  sfz_interpolation_cast (x ∷ jumps) (i ∷ indices, l ∷ left, r ∷ right) =
      let fraction = sub x (of_int (to_int x)) in
      let (indices', left', right') = sfz_interpolation_cast jumps (indices, left, right) in
      (to_int x ∷ indices', sub one fraction ∷ left', fraction ∷ right')
  sfz_interpolation_cast jumps spans = spans

  abbrev ge : F → F → Bool
  ge a b = lt b a || eq a b

  unfoldable pub saturating_sfz_index : List F → Interpolation F → F → F → Interpolation F × F
  saturating_sfz_index (x ∷ jumps) (i ∷ indices, l ∷ left, r ∷ right) at loop_end =
      let next = add at x in
      let past = ge next loop_end in
      let position = if past then loop_end else next in
      let index = if past then to_int position -ℤ pos 1 else to_int position in
      let fraction = if past then one else sub position (of_int index) in
      let rest = if past then nought else sub one fraction in
      let ((indices', left', right'), last) =
        saturating_sfz_index jumps (indices, left, right) position loop_end in
      ((index ∷ indices', rest ∷ left', fraction ∷ right'), last)
  saturating_sfz_index jumps spans at loop_end = (spans, at)

  unfoldable pub looping_sfz_index : List F → Interpolation F → F → F → F → Interpolation F × F
  looping_sfz_index (x ∷ jumps) (i ∷ indices, l ∷ left, r ∷ right) at loop_end loop_start =
      let next = add at x in
      let position = if ge next loop_end then sub next (sub loop_end loop_start) else next in
      let index = to_int position in
      let fraction = sub position (of_int index) in
      let ((indices', left', right'), last) =
        looping_sfz_index jumps (indices, left, right) position loop_end loop_start in
      ((index ∷ indices', sub one fraction ∷ left', fraction ∷ right'), last)
  looping_sfz_index jumps spans at loop_end loop_start = (spans, at)
