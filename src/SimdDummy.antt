-- ===== src/SimdDummy.antt =====
-- sfizz/SIMDDummy.cpp: what a processor without vector instructions runs. Each operation is the scalar
-- one. The order of the arguments is that of Simd.
use sfizz.Base.{List}
use sfizz.Float.{FloatOps}
use sfizz.Simd
use sfizz.Simd.{Interpolation}

module _ {A : Type 0} where
  unfoldable pub read_interleaved : List A → List A → List A → List A × List A
  unfolding Simd.read_interleaved
  read_interleaved input left right = Simd.read_interleaved input left right

  unfoldable pub write_interleaved : List A → List A → List A → List A
  unfolding Simd.write_interleaved
  write_interleaved left right output = Simd.write_interleaved left right output

  unfoldable pub fill : List A → A → List A
  unfolding Simd.fill
  fill output value = Simd.fill output value

  unfoldable pub copy : List A → List A → List A
  unfolding Simd.copy
  copy input output = Simd.copy input output

module _ {F : Type 0} ⦃o : FloatOps F⦄ where
  unfoldable pub exp : List F → List F → List F
  unfolding Simd.exp
  exp input output = Simd.exp input output

  unfoldable pub log : List F → List F → List F
  unfolding Simd.log
  log input output = Simd.log input output

  unfoldable pub sin : List F → List F → List F
  unfolding Simd.sin
  sin input output = Simd.sin input output

  unfoldable pub cos : List F → List F → List F
  unfolding Simd.cos
  cos input output = Simd.cos input output

  unfoldable pub apply_gain : F → List F → List F → List F
  unfolding Simd.apply_gain
  apply_gain gain input output = Simd.apply_gain gain input output

  unfoldable pub apply_gain_span : List F → List F → List F → List F
  unfolding Simd.apply_gain_span
  apply_gain_span gain input output = Simd.apply_gain_span gain input output

  unfoldable pub multiply_add : List F → List F → List F → List F
  unfolding Simd.multiply_add
  multiply_add gain input output = Simd.multiply_add gain input output

  unfoldable pub looping_sfz_index : List F → Interpolation F → F → F → F → Interpolation F × F
  unfolding Simd.looping_sfz_index
  looping_sfz_index jumps spans index loop_end loop_start =
      Simd.looping_sfz_index jumps spans index loop_end loop_start

  unfoldable pub saturating_sfz_index : List F → Interpolation F → F → F → Interpolation F × F
  unfolding Simd.saturating_sfz_index
  saturating_sfz_index jumps spans index loop_end =
      Simd.saturating_sfz_index jumps spans index loop_end

  unfoldable pub linear_ramp : List F → F → F → List F × F
  unfolding Simd.linear_ramp
  linear_ramp output start step = Simd.linear_ramp output start step

  unfoldable pub multiplicative_ramp : List F → F → F → List F × F
  unfolding Simd.multiplicative_ramp
  multiplicative_ramp output start step = Simd.multiplicative_ramp output start step

  unfoldable pub add_span : List F → List F → List F
  unfolding Simd.add_span
  add_span input output = Simd.add_span input output

  unfoldable pub add_value : F → List F → List F
  unfolding Simd.add_value
  add_value value output = Simd.add_value value output

  unfoldable pub subtract_span : List F → List F → List F
  unfolding Simd.subtract_span
  subtract_span input output = Simd.subtract_span input output

  unfoldable pub subtract_value : F → List F → List F
  unfolding Simd.subtract_value
  subtract_value value output = Simd.subtract_value value output

  unfoldable pub pan : F → List F → List F → List F → List F × List F
  unfolding Simd.pan
  pan pi_four envelope left right = Simd.pan pi_four envelope left right

  unfoldable pub mean : List F → F
  unfolding Simd.mean
  mean vector = Simd.mean vector

  unfoldable pub mean_squared : List F → F
  unfolding Simd.mean_squared
  mean_squared vector = Simd.mean_squared vector

  unfoldable pub cumsum : List F → List F → List F
  unfolding Simd.cumsum
  cumsum input output = Simd.cumsum input output

  unfoldable pub sfz_interpolation_cast : List F → Interpolation F → Interpolation F
  unfolding Simd.sfz_interpolation_cast
  sfz_interpolation_cast jumps spans = Simd.sfz_interpolation_cast jumps spans

  unfoldable pub diff : List F → List F → List F
  unfolding Simd.diff
  diff input output = Simd.diff input output
