-- ===== src/Sse/Sums/Within.antt =====
-- SIMDSSE.cpp: the accesses of the operations that carry a value from one place to the next.
use Prim.Native.Nat.{min}
use sfizz.Base.{
  ℕ, suc, ◌+◌, ◌*◌, ◌%◌, ◌≤◌, ◌≡◌, refl, sym, ap, subst, true, false, List, [], ◌∷◌, ◌++◌, Option,
  none, some, arith, length, length-append, length-drop, drop, length-map,
}
use mathlib.Core.Option
use sfizz.Base.Int.{ℤ}
use sfizz.Float.{FloatOps}
use sfizz.Simd.{Interpolation}
use sfizz.Sse.{Four, Intrinsics, prev_aligned, Stride, run}
use sfizz.Sse.Rows.{Rows, Gives, run-Gives}
use sfizz.Sse.Spans.{firsts, rows2, written}
use sfizz.Sse.Spans.Exact.{prev_aligned-mod, length-rows2}
use sfizz.Sse.Sums
use sfizz.Sse.Sums.{interpolation, within_spans}

-- No access was behind a span, and the result is as it should be.
abbrev pub Returns : {A : Type 0} → (A → Type 0) → Option A → Type 0
Returns P none = true ≡ false
Returns P (some a) = P a

length-Rows :
    {R S : Type 0} (rows : List R) (out : List S)
    → Rows (λ r s. Unit {0}) rows out
    → length out ≡ length rows
length-Rows [] [] g = refl
length-Rows [] (s ∷ out) g = cc
length-Rows (r ∷ rows) [] g = cc
length-Rows (r ∷ rows) (s ∷ out) (here, g) = omega (arith, length-Rows rows out g)

Gives-total :
    {C R S : Type 0} (rows : List R) (result : Option (C × List S))
    → Gives (λ r s. Unit {0}) rows result
    → (c : C) × (done : List S) × (result ≡ some (c, done)) × (length done ≡ length rows)
Gives-total rows none g = cc
Gives-total rows (some (c, done)) g = (c, done, refl, length-Rows rows done g)

run-total :
    {C V R S : Type 0} (one : C → R → C × S) (lift : C → V) (four : V → Four R → V × Four S)
    (lower : V → C) (at : ℕ) (others : List ℕ) (last : ℕ) (c : C) (rows : List R)
    → last % 16 ≡ 0
    → last ≤ at + 4 * length rows
    → (c' : C) × (done : List S) × (run one lift four lower Stride.single at others last c rows
        ≡ some (c', done))
      × (length done ≡ length rows)
run-total one lift four lower at others last c rows l fits = Gives-total rows _ (
    run-Gives (λ r s. Unit {0}) one lift four lower (λ c r. tt) (λ v rs. (tt, tt, tt, tt))
      Stride.single at others last c rows l (omega (arith, fits)))

length-over :
    {A : Type 0} (done out : List A)
    → length done ≤ length out
    → length (done ++ drop (length done) out) ≡ length out
length-over done out le =
    omega (arith, le, length-append done (drop (length done) out), length-drop (length done) out)

module _ {F : Type 0} where
  -- Three spans, each as long as before.
  abbrev pub IsAsLong : Interpolation F → Interpolation F → Type 0
  IsAsLong (indices, left, right) (indices', left', right') =
      (length indices' ≡ length indices)
      × (length left' ≡ length left)
      × (length right' ≡ length right)

  within_spans-le :
      (jumps : List F) (indices : List ℤ) (left right : List F)
      → let n = length (within_spans jumps (indices, left, right)) in
        (n ≤ length indices) × (n ≤ length left) × (n ≤ length right)
  unfolding within_spans
  within_spans-le [] indices left right = omega arith
  within_spans-le (x ∷ jumps) [] left right = omega arith
  within_spans-le (x ∷ jumps) (n ∷ indices) [] right = omega arith
  within_spans-le (x ∷ jumps) (n ∷ indices) (l ∷ left) [] = omega arith
  within_spans-le (x ∷ jumps) (n ∷ indices) (l ∷ left) (r ∷ right) =
      let k = within_spans-le jumps indices left right in omega (arith, k)

  interpolation-IsAsLong :
      (done : List (ℤ × F × F)) (jumps : List F) (spans : Interpolation F)
      → length done ≡ length (within_spans jumps spans)
      → IsAsLong spans (interpolation done spans)
  interpolation-IsAsLong done jumps (indices, left, right) e =
      let k = within_spans-le jumps indices left right in
      let a = length-map done (λ (r : ℤ × F × F). r.0) in
      let b = length-map done (λ (r : ℤ × F × F). r.1) in
      let c = length-map done (λ (r : ℤ × F × F). r.2) in
      (
        rw (sym a) (length-over _ indices (omega (arith, a, e, k.0))),
        rw (sym b) (length-over _ left (omega (arith, b, e, k.1))),
        rw (sym c) (length-over _ right (omega (arith, c, e, k.2))),
      )

module _ {F : Type 0} ⦃o : FloatOps F⦄ ⦃i : Intrinsics F⦄ where
  ramp-within :
      (one : F → F → F) (four : Four F → Four F → Four F) (steps : Four F) (at : ℕ) (out : List F)
      (value step : F)
      → Returns (λ p. length p.0 ≡ length out) (Sums.ramp one four steps at out value step)
  ramp-within one four steps at out value step =
      let (c, done, e, l) =
        run-total (λ v (x : F). (one v step, one v step)) i.set1
          (λ v (rs : Four F). let v' = four v steps in (i.shuffle v' v' 255, v')) (λ v. v.0) at []
          (prev_aligned (at + 4 * length out)) value out (prev_aligned-mod _) (omega arith) in
      subst (λ r. Returns (λ p. length p.0 ≡ length out) (Sums.ramped r)) (sym e) l

  total-within :
      (one : F → F) (four : Four F → Four F) (at : ℕ) (values : List F)
      → Returns (λ m. Unit {0}) (Sums.total one four at values)
  total-within one four at values =
      let (c, done, e, l) =
        run-total {S = Unit {0}} (λ result x. (o.add result (one x), tt))
          (λ result. (result, Sums.zeros))
          (λ (v : F × Four F) rs. ((v.0, i.add v.1 (four rs)), (tt, tt, tt, tt)))
          (λ v. o.add (o.add (o.add (o.add v.0 v.1.0) v.1.1) v.1.2) v.1.3) at []
          (prev_aligned (at + 4 * length values)) Sums.nought values (prev_aligned-mod _)
          (omega arith) in
      rw (e, Returns) tt

  -- One value in front of what a loop over two spans gives.
  rows-within :
      (one : F → F × F → F × F) (four : Four F → Four (F × F) → Four F × Four F)
      (lower : Four F → F) (in_at out_at : ℕ) (x : F) (input out : List F)
      → Returns
          (λ done. length done ≡ suc (length out))
          (Option.map
            (λ done. x ∷ done)
            (written out (
              run one i.set1 four lower Stride.single
                (in_at + 4)
                ((out_at + 4) ∷ [])
                (prev_aligned (in_at + 4 * min (suc (length input)) (suc (length out))))
                x
                (rows2 input out))))
  unfolding written
  rows-within one four lower in_at out_at x input out =
      let (c, done, e, l) =
        run-total one i.set1 four lower (in_at + 4) ((out_at + 4) ∷ [])
          (prev_aligned (in_at + 4 * min (suc (length input)) (suc (length out)))) x
          (rows2 input out) (prev_aligned-mod _) (omega (arith, length-rows2 input out)) in
      subst
        (λ r.
          Returns (λ done. length done ≡ suc (length out))
            (Option.map (λ done. x ∷ done) (written out r)))
        (sym e) (ap suc (length-over done out (omega (arith, l, length-rows2 input out))))

  cumsum-within :
      (in_at out_at : ℕ) (input out : List F)
      → length input ≤ length out
      → Returns (λ done. length done ≡ length out) (Sums.cumsum in_at input out_at out)
  unfolding Sums.cumsum
  cumsum-within in_at out_at [] out le = refl
  cumsum-within in_at out_at (x ∷ input) [] le = absurd (omega (arith, le))
  cumsum-within in_at out_at (x ∷ input) (y ∷ out) le =
      rows-within _ (λ v rs. let v' = i.add v (Sums.sums (firsts rs)) in (i.shuffle v' v' 255, v'))
        (λ v. v.0) in_at out_at x input out

  diff-within :
      (in_at out_at : ℕ) (input out : List F)
      → length input ≤ length out
      → Returns (λ done. length done ≡ length out) (Sums.diff in_at input out_at out)
  unfolding Sums.diff
  diff-within in_at out_at [] out le = refl
  diff-within in_at out_at (x ∷ input) [] le = absurd (omega (arith, le))
  diff-within in_at out_at (x ∷ input) (y ∷ out) le =
      rows-within _
        (λ base rs.
          let values = firsts rs in
          let moved = i.sub values base in
          (i.shuffle values values 255, i.sub moved (i.shift_left moved)))
        (λ v. v.0) in_at out_at x input out

  mean-within : (at : ℕ) (values : List F) → Returns (λ m. Unit {0}) (Sums.mean at values)
  unfolding Sums.mean
  mean-within at [] = tt
  mean-within at (x ∷ values) = total-within (λ y. y) (λ rs. rs) at (x ∷ values)

  mean_squared-within :
      (at : ℕ) (values : List F) → Returns (λ m. Unit {0}) (Sums.mean_squared at values)
  unfolding Sums.mean_squared
  mean_squared-within at [] = tt
  mean_squared-within at (x ∷ values) =
      total-within (λ y. o.mul y y) (λ rs. i.mul rs rs) at (x ∷ values)

  looping-within :
      (jump_at left_at right_at index_at : ℕ) (jumps : List F) (spans : Interpolation F)
      (at loop_end loop_start : F)
      → Returns
          (λ p. IsAsLong spans p.0)
          (Sums.looping_sfz_index jump_at jumps left_at right_at index_at spans at loop_end
            loop_start)
  unfolding Sums.looping_sfz_index Sums.almost_half
  looping-within jump_at left_at right_at index_at jumps spans at loop_end loop_start =
      let rows = within_spans jumps spans in
      let (c, done, e, l) =
        run-total {S = ℤ × F × F} (Sums.looping_one loop_end loop_start) i.set1
          (λ v rs.
            let moved = i.add v (Sums.sums rs) in
            let past = i.compare_ge moved (i.set1 loop_end) in
            let back = i.sub moved (i.set1 (o.sub loop_end loop_start)) in
            let position = i.add (i.and_not past moved) (i.and past back) in
            (i.shuffle position position 255, Sums.split position))
          (λ v. v.0) jump_at (index_at ∷ left_at ∷ right_at ∷ [])
          (prev_aligned (jump_at + 4 * length rows)) at rows (prev_aligned-mod _) (omega arith) in
      rw (e, Returns) (interpolation-IsAsLong done jumps spans l)

  saturating-within :
      (jump_at left_at right_at index_at : ℕ) (jumps : List F) (spans : Interpolation F)
      (at loop_end : F)
      → Returns
          (λ p. IsAsLong spans p.0)
          (Sums.saturating_sfz_index jump_at jumps left_at right_at index_at spans at loop_end)
  unfolding Sums.saturating_sfz_index Sums.almost_half Sums.tiny
  saturating-within jump_at left_at right_at index_at jumps spans at loop_end =
      let rows = within_spans jumps spans in
      let (c, done, e, l) =
        run-total {S = ℤ × F × F} (Sums.saturating_one loop_end) i.set1
          (λ v rs.
            let moved = i.add v (Sums.sums rs) in
            let before = i.compare_lt moved (i.set1 loop_end) in
            let saturated = i.sub (i.set1 loop_end) (i.set1 Sums.tiny) in
            let position = i.add (i.and before moved) (i.and_not before saturated) in
            (i.shuffle position position 255, Sums.split position))
          (λ v. v.0) jump_at (index_at ∷ left_at ∷ right_at ∷ [])
          (prev_aligned (jump_at + 4 * length rows)) at rows (prev_aligned-mod _) (omega arith) in
      rw (e, Returns) (interpolation-IsAsLong done jumps spans l)

  -- On every alignment the ramps, the means, the running sums, the differences and both ways of
  -- indexing a sample stay within their spans, and the spans that they write keep their length: those
  -- of the sums and the differences where the input is not longer than the output, and those of the
  -- indices as far as all of them have places, whatever the masks and the rounding are.
  pub operations-Returns :
      (at left_at right_at out_at : ℕ) (input out : List F) (spans : Interpolation F)
      (value step loop_end loop_start : F)
      → length input ≤ length out
      → Returns (λ p. length p.0 ≡ length out) (Sums.linear_ramp at out value step)
        × Returns (λ p. length p.0 ≡ length out) (Sums.multiplicative_ramp at out value step)
        × Returns (λ m. Unit {0}) (Sums.mean at input)
        × Returns (λ m. Unit {0}) (Sums.mean_squared at input)
        × Returns (λ done. length done ≡ length out) (Sums.cumsum at input out_at out)
        × Returns (λ done. length done ≡ length out) (Sums.diff at input out_at out)
        × Returns
            (λ p. IsAsLong spans p.0)
            (Sums.looping_sfz_index at input left_at right_at out_at spans value loop_end
              loop_start)
        × Returns
            (λ p. IsAsLong spans p.0)
            (Sums.saturating_sfz_index at input left_at right_at out_at spans value loop_end)
  unfolding Sums.linear_ramp Sums.multiplicative_ramp
  operations-Returns at left_at right_at out_at input out spans value step loop_end loop_start le =
      (
        ramp-within o.add i.add _ at out value step,
        ramp-within o.mul i.mul _ at out value step,
        mean-within at input,
        mean_squared-within at input,
        cumsum-within at out_at input out le,
        diff-within at out_at input out le,
        looping-within at left_at right_at out_at input spans value loop_end loop_start,
        saturating-within at left_at right_at out_at input spans value loop_end,
      )
