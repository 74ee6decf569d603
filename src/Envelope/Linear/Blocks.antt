-- ===== src/Envelope/Linear/Blocks.antt =====
-- LinearEnvelope.cpp: what `getBlock` writes.
use Prim.Native.Nat.{min}
use sfizz.Base.{
  ℕ, zero, suc, ◌+◌, ◌-◌, ◌≡◌, refl, ap, List, [], ◌∷◌, arith, length, take, length-append,
  length-take, length-drop, ◌∙◌, sym, replicate,
}
use sfizz.Float.{FloatOps, of_nat}
use sfizz.Simd.{fill, linear_ramp}
use sfizz.Simd.Shape.{length-fill, fill-eq-replicate, linear_ramp_lem, steps}
use sfizz.Envelope.Linear.{LinearEnvelope, Sort, ramp_to, ramp_all, get_block}

module _ {F : Type 0} ⦃o : FloatOps F⦄ where
  open o use {add, sub, div}

  ramp-length :
      (xs ys : List F) (v s : F) → length xs ≡ length ys → linear_ramp xs v s ≡ linear_ramp ys v s
  ramp-length xs ys v s e = rw (linear_ramp_lem xs v s, linear_ramp_lem ys v s, e)

  length-steps : (f : F → F) (n : ℕ) (x : F) → length (steps f n x) ≡ n
  length-steps f zero x = refl
  length-steps f (suc n) x = ap suc (length-steps f n (f x))

  length-ramp : (xs : List F) (v s : F) → length (linear_ramp xs v s).0 ≡ length xs
  length-ramp xs v s = rw (linear_ramp_lem xs v s) (length-steps (λ x. add x s) (length xs) v)

  ramp_to-same :
      (done rest rest' : List F) (value : F) (t : ℕ) (target : F)
      → length rest ≡ length rest'
      → let (d, r, v) = ramp_to done rest value (t, target) in
        let (d', r', v') = ramp_to done rest' value (t, target) in
        (d ≡ d') × (length r ≡ length r') × (v ≡ v')
  unfolding ramp_to
  ramp_to-same done rest rest' value t target e =
      let n = min t (length done + length rest) - length done in
      let step = div (sub target value) (of_nat n) in
      ground (
        arith,
        e,
        ramp-length (take n rest) (take n rest') value step
            (length-take n rest ∙ ap (min n) e ∙ sym (length-take n rest')),
        length-drop n rest,
        length-drop n rest',
      )

  ramp_all-same :
      (done rest rest' : List F) (value : F) (events : List (ℕ × F))
      → length rest ≡ length rest'
      → ramp_all done rest value events ≡ ramp_all done rest' value events
  unfolding ramp_all
  ramp_all-same done rest rest' value [] e =
      rw (fill-eq-replicate rest value, fill-eq-replicate rest' value, e)
  ramp_all-same done rest rest' value ((t, target) ∷ events) e =
      let (d', r', v') = ramp_to done rest' value (t, target) in
      let (same_done, same_rest, same_value) = ramp_to-same done rest rest' value t target e in
      rw (same_done, same_value) (ramp_all-same d' _ r' v' events same_rest)

  length-ramp_to :
      (done rest : List F) (value : F) (t : ℕ) (target : F)
      → let (d, r, v) = ramp_to done rest value (t, target) in
        length d + length r ≡ length done + length rest
  unfolding ramp_to
  length-ramp_to done rest value t target =
      let n = min t (length done + length rest) - length done in
      let step = div (sub target value) (of_nat n) in
      ground (
        arith,
        length-append done (linear_ramp (take n rest) value step).0,
        length-ramp (take n rest) value step,
        length-take n rest,
        length-drop n rest,
      )

  length-ramp_all :
      (done rest : List F) (value : F) (events : List (ℕ × F))
      → length (ramp_all done rest value events).0 ≡ length done + length rest
  unfolding ramp_all
  length-ramp_all done rest value [] =
      length-append done (fill rest value) ∙ omega (arith, length-fill rest value)
  length-ramp_all done rest value ((t, target) ∷ events) =
      let (d, r, v) = ramp_to done rest value (t, target) in
      length-ramp_all d r v events ∙ length-ramp_to done rest value t target

  -- With a sort that leaves the empty list empty, a block has the length that is asked for, does not depend on what its span held before, and
  -- uses up the events: without a new one the next block is constant, at the value reached.
  pub get_block_lem :
      (sort : Sort F) (e : LinearEnvelope F) (output output' next : List F)
      → length output ≡ length output'
      → sort [] ≡ []
      → let (block, e') = get_block sort e output in
        (length block ≡ length output)
        × (block ≡ (get_block sort e output').0)
        × (e'.events ≡ [])
        × (get_block sort e' next ≡ (replicate (length next) e'.current_value, e'))
  unfolding get_block
  get_block_lem sort e output output' next h s = (
    length-ramp_all [] output e.current_value (sort e.events) ∙ omega arith,
    ap (λ q. q.0) (ramp_all-same [] output output' e.current_value (sort e.events) h),
    refl,
    rw s (rw fill-eq-replicate),
  )
