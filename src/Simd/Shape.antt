-- ===== src/Simd/Shape.antt =====
-- SIMDHelpers.h: what the loops promise for spans of any contents.
use sfizz.Base.{
  ℕ, zero, suc, ◌+◌, ◌≤◌, ◌≡◌, refl, ap, List, [], ◌∷◌, ◌++◌, arith, length, replicate, drop,
}
use sfizz.Float.{FloatOps}
use sfizz.Simd.{
  write_interleaved, read_interleaved, fill, copy, apply, linear_ramp, multiplicative_ramp,
  cumsum_from,
}

module _ {A : Type 0} where
  -- Two channels of one length, written interleaved into a span of twice that length and read
  -- back, come out as they were, whatever the spans held before.
  pub read_interleaved-write_interleaved :
      (left right out left' right' : List A)
      → length right ≡ length left
      → length left' ≡ length left
      → length right' ≡ length left
      → length out ≡ length left + length left
      → read_interleaved (write_interleaved left right out) left' right' ≡ (left, right)
  unfolding read_interleaved write_interleaved
  read_interleaved-write_interleaved [] [] [] [] [] h k m n = refl
  read_interleaved-write_interleaved (l ∷ ls) (r ∷ rs) (a ∷ b ∷ out) (x ∷ xs) (y ∷ ys) h k m n =
      ground (
        arith,
        read_interleaved-write_interleaved ls rs out xs ys (omega arith) (omega arith) (omega arith)
            (omega arith),
      )
  read_interleaved-write_interleaved _ _ _ _ _ h k m n = absurd (omega arith)

  pub fill-eq-replicate : (out : List A) (v : A) → fill out v ≡ replicate (length out) v
  unfolding fill
  fill-eq-replicate [] v = refl
  fill-eq-replicate (x ∷ out) v = ap (◌∷◌ v) (fill-eq-replicate out v)

  pub length-fill : (out : List A) (v : A) → length (fill out v) ≡ length out
  unfolding fill
  length-fill [] v = refl
  length-fill (x ∷ out) v = ap suc (length-fill out v)

  pub length-apply : (f : A → A → A) (input out : List A) → length (apply f input out) ≡ length out
  unfolding apply
  length-apply f [] out = refl
  length-apply f (x ∷ input) [] = refl
  length-apply f (x ∷ input) (y ∷ out) = ap suc (length-apply f input out)

  -- `copy` overwrites the front of the output by the input, and keeps the rest.
  pub copy-eq-append :
      (input out : List A)
      → length input ≤ length out
      → copy input out ≡ input ++ drop (length input) out
  unfolding copy
  copy-eq-append [] out h = refl
  copy-eq-append (x ∷ input) [] h = absurd (omega arith)
  copy-eq-append (x ∷ input) (y ∷ out) h = ap (◌∷◌ x) (copy-eq-append input out (omega arith))

module _ {F : Type 0} ⦃o : FloatOps F⦄ where
  open o use {add, mul}

  -- n steps of a ramp.
  abbrev pub iterate : (F → F) → ℕ → F → F
  iterate f zero x = x
  iterate f (suc n) x = iterate f n (f x)

  abbrev pub steps : (F → F) → ℕ → F → List F
  steps f zero x = []
  steps f (suc n) x = f x ∷ steps f n (f x)

  -- A ramp fills its span with the successive steps from its start and returns the last of them,
  -- or the start for the empty span. The old values of the span do not matter.
  pub linear_ramp_lem :
      (out : List F) (v step : F)
      → linear_ramp out v step
        ≡ (steps (λ x. add x step) (length out) v, iterate (λ x. add x step) (length out) v)
  unfolding linear_ramp
  linear_ramp_lem [] v step = refl
  linear_ramp_lem (x ∷ out) v step = ground (arith, linear_ramp_lem out (add v step) step)

  pub multiplicative_ramp_lem :
      (out : List F) (v step : F)
      → multiplicative_ramp out v step
        ≡ (steps (λ x. mul x step) (length out) v, iterate (λ x. mul x step) (length out) v)
  unfolding multiplicative_ramp
  multiplicative_ramp_lem [] v step = refl
  multiplicative_ramp_lem (x ∷ out) v step =
      ground (arith, multiplicative_ramp_lem out (mul v step) step)

  -- `cumsum` may write over its own input: it then holds the running sums of what stood there.
  abbrev running : F → List F → List F
  running acc [] = []
  running acc (x ∷ xs) = add acc x ∷ running (add acc x) xs

  cumsum_from-running :
      (previous : F) (xs : List F) → cumsum_from previous xs xs ≡ running previous xs
  unfolding cumsum_from
  cumsum_from-running previous [] = refl
  cumsum_from-running previous (x ∷ xs) =
      ap (◌∷◌ (add previous x)) (cumsum_from-running (add previous x) xs)
