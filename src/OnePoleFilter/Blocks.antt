-- ===== src/OnePoleFilter/Blocks.antt =====
-- OnePoleFilter.h: what the filter gives with a gain that does not move.
use sfizz.Base.{
  ℕ, zero, suc, ◌≤◌, ◌≡◌, refl, ap, subst, ◌∙◌, List, [], ◌∷◌, arith, length, replicate,
}
use sfizz.Float.{FloatOps}
use sfizz.OnePoleFilter.{
  OnePoleFilter, set_gain, one_lowpass, one_highpass, run, run_variable, process_lowpass,
  process_highpass, process_lowpass_variable_gain, process_highpass_variable_gain,
}

module _ {F : Type 0} ⦃o : FloatOps F⦄ where
  run_variable-replicate :
      (one : OnePoleFilter F → F → OnePoleFilter F × F)
      → ((f : OnePoleFilter F) (g x : F)
          → set_gain (one (set_gain f g) x).0 g ≡ (one (set_gain f g) x).0)
      → (f : OnePoleFilter F) (g : F) (xs ys : List F) (n : ℕ) → set_gain f g ≡ f
      → length xs ≤ n
      → run_variable one f xs ys (replicate n g) ≡ run one f xs ys
  unfolding run run_variable
  run_variable-replicate one stays f g [] ys n e enough = refl
  run_variable-replicate one stays f g (x ∷ xs) [] n e enough = refl
  run_variable-replicate one stays f g (x ∷ xs) (y ∷ ys) zero e enough =
      absurd (omega (arith, enough))
  run_variable-replicate one stays f g (x ∷ xs) (y ∷ ys) (suc n) e enough =
      let e' : set_gain (one f x).0 g ≡ (one f x).0 =
        subst (λ h. set_gain (one h x).0 g ≡ (one h x).0) e (stays f g x) in
      ap
        (λ (h : OnePoleFilter F). (
          (run_variable one (one h x).0 xs ys (replicate n g)).0,
          (one h x).1 ∷ (run_variable one (one h x).0 xs ys (replicate n g)).1,
        ))
        e
      ∙ ap (λ (p : OnePoleFilter F × List F). (p.0, (one f x).1 ∷ p.1))
          (run_variable-replicate one stays (one f x).0 g xs ys n e' (omega (arith, enough)))

  -- A gain that does not move gives what the filter gives once its gain is set, for both filters,
  -- on spans that are not empty.
  pub process_variable_gain-replicate :
      (f : OnePoleFilter F) (g x y : F) (xs ys : List F) (n : ℕ)
      → length xs ≤ n
      → ((process_lowpass_variable_gain f (x ∷ xs) (y ∷ ys) (replicate (suc n) g)).0
          ≡ (process_lowpass (set_gain f g) (x ∷ xs) (y ∷ ys)).0)
        × ((process_lowpass_variable_gain f (x ∷ xs) (y ∷ ys) (replicate (suc n) g)).1
            ≡ (process_lowpass (set_gain f g) (x ∷ xs) (y ∷ ys)).1)
        × ((process_highpass_variable_gain f (x ∷ xs) (y ∷ ys) (replicate (suc n) g)).0
            ≡ (process_highpass (set_gain f g) (x ∷ xs) (y ∷ ys)).0)
        × ((process_highpass_variable_gain f (x ∷ xs) (y ∷ ys) (replicate (suc n) g)).1
            ≡ (process_highpass (set_gain f g) (x ∷ xs) (y ∷ ys)).1)
  unfolding process_lowpass process_highpass process_lowpass_variable_gain
      process_highpass_variable_gain set_gain one_lowpass one_highpass run_variable
  process_variable_gain-replicate f g x y xs ys n enough =
      let low =
        run_variable-replicate one_lowpass (λ h k z. refl) (set_gain f g) g (x ∷ xs) (y ∷ ys)
          (suc n) refl (omega (arith, enough)) in
      let high =
        run_variable-replicate one_highpass (λ h k z. refl) (set_gain f g) g (x ∷ xs) (y ∷ ys)
          (suc n) refl (omega (arith, enough)) in
      (ap (λ p. p.0) low, ap (λ p. p.1) low, ap (λ p. p.0) high, ap (λ p. p.1) high)
