-- ===== src/OnePoleFilter.antt =====
-- sfizz/OnePoleFilter.h. `std::tan` is a parameter; the pi of its cutoff is that of MathHelpers.h.
pub mod Blocks
use Prim.Native.Nat.{min}
use sfizz.Base.{ℕ, List, [], ◌∷◌, length}
use sfizz.Float.{FloatOps, of_nat}
use sfizz.Voice.Filling.{pi}

-- `g_factor` is the member `G`.
pub record OnePoleFilter (F : Type 0) : Type 0 where
  pub state : F
  pub gain : F
  pub intermediate : F
  pub g_factor : F

module _ {F : Type 0} ⦃o : FloatOps F⦄ where
  open o use {add, sub, mul, div}

  unfoldable pub normalized_gain : (F → F) → F → F → F
  normalized_gain tan cutoff sample_rate = tan (mul (div cutoff sample_rate) pi)

  unfoldable pub set_gain : OnePoleFilter F → F → OnePoleFilter F
  set_gain f g = record f { gain = g; g_factor = div g (add (of_nat 1) g) }

  unfoldable pub reset : OnePoleFilter F → OnePoleFilter F
  reset f = record f { state = of_nat 0 }

  -- One value, and the filter behind it.
  unfoldable pub one_lowpass : OnePoleFilter F → F → OnePoleFilter F × F
  one_lowpass f x =
      let i = mul f.g_factor (sub x f.state) in
      let y = add i f.state in (record f { intermediate = i; state = add y i }, y)

  unfoldable pub one_highpass : OnePoleFilter F → F → OnePoleFilter F × F
  one_highpass f x =
      let i = mul f.g_factor (sub x f.state) in
      let y = sub (sub x i) f.state in
      (record f { intermediate = i; state = add f.state (mul (of_nat 2) i) }, y)

  -- The loop that both ways of filtering share, over the shorter of its spans. What lies behind in
  -- the output stays.
  unfoldable pub run :
      (OnePoleFilter F → F → OnePoleFilter F × F)
      → OnePoleFilter F
      → List F
      → List F
      → OnePoleFilter F × List F
  run one f (x ∷ input) (y ∷ out) =
      let (f', y') = one f x in let (f'', out') = run one f' input out in (f'', y' ∷ out')
  run one f input out = (f, out)

  -- The same, with a gain for each value.
  unfoldable pub run_variable :
      (OnePoleFilter F → F → OnePoleFilter F × F)
      → OnePoleFilter F
      → List F
      → List F
      → List F
      → OnePoleFilter F × List F
  unfolding set_gain
  run_variable one f (x ∷ input) (y ∷ out) (g ∷ gain) =
      let (f', y') = one (set_gain f g) x in
      let (f'', out') = run_variable one f' input out gain in (f'', y' ∷ out')
  run_variable one f input out gain = (f, out)

  -- The calls return the count of the values, too.
  unfoldable pub process_lowpass : OnePoleFilter F → List F → List F → OnePoleFilter F × List F × ℕ
  unfolding run one_lowpass
  process_lowpass f input out =
      let (f', out') = run one_lowpass f input out in (f', out', min (length input) (length out))

  unfoldable pub process_highpass : OnePoleFilter F → List F → List F → OnePoleFilter F × List F × ℕ
  unfolding run one_highpass
  process_highpass f input out =
      let (f', out') = run one_highpass f input out in (f', out', min (length input) (length out))

  abbrev shortest : List F → List F → List F → ℕ
  shortest input out gain = min (length input) (min (length out) (length gain))

  unfoldable pub process_lowpass_variable_gain :
      OnePoleFilter F → List F → List F → List F → OnePoleFilter F × List F × ℕ
  unfolding run_variable one_lowpass
  process_lowpass_variable_gain f input out gain =
      let (f', out') = run_variable one_lowpass f input out gain in
      (f', out', shortest input out gain)

  unfoldable pub process_highpass_variable_gain :
      OnePoleFilter F → List F → List F → List F → OnePoleFilter F × List F × ℕ
  unfolding run_variable one_highpass
  process_highpass_variable_gain f input out gain =
      let (f', out') = run_variable one_highpass f input out gain in
      (f', out', shortest input out gain)
