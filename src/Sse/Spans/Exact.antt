-- ===== src/Sse/Spans/Exact.antt =====
-- SIMDSSE.cpp: what its operations give, against the scalar versions of SIMDHelpers.h.
use sfizz.Base.{
  ℕ, ◌+◌, ◌*◌, ◌%◌, ◌≤◌, ◌≡◌, refl, ap, ◌∙◌, List, [], ◌∷◌, ◌++◌, some, arith, length, drop, map,
  ltb, false,
}
use Prim.Native.Nat.{min}
use sfizz.Float.{FloatOps}
use sfizz.Simd
use sfizz.Sse.{Four, Intrinsics, prev_aligned, Stride, bytes, scalar}
use sfizz.Sse.Loop.{slack, run_lem}
use sfizz.Sse.Spans
use sfizz.Sse.Spans.{each, firsts, rows2, rows3, written}

abbrev quad : {R S : Type 0} → (R → S) → Four R → Four S
quad one (p, q, r, s) = (one p, one q, one r, one s)

pub scalar-eq-map :
    {R S : Type 0} (one : R → S) (rows : List R)
    → scalar (λ (c : Unit {0}) r. (tt, one r)) tt rows ≡ (tt, map one rows)
unfolding scalar
scalar-eq-map one [] = refl
scalar-eq-map one (r ∷ rows) =
    ap (λ (p : Unit {0} × List _). (p.0, one r ∷ p.1)) (scalar-eq-map one rows)

pub each_lem :
    {R S : Type 0} (one : R → S) (four : Four R → Four S)
    → ((rs : Four R) → four rs ≡ quad one rs)
    → (stride : Stride) (at : ℕ) (others : List ℕ) (last : ℕ) (rows : List R) → last % 16 ≡ 0
    → last + slack stride ≤ at + bytes stride (length rows)
    → each one four stride at others last rows ≡ some (tt, map one rows)
each_lem one four agrees stride at others last rows l fits =
    run_lem (λ c r. (tt, one r)) (λ c. c) (λ v rs. (v, four rs)) (λ v. v) (λ c. refl)
      (λ c rs. ap (λ q. (tt, q)) (agrees rs)) stride at others last tt rows l fits
    ∙ ap some (scalar-eq-map one rows)

pub prev_aligned-mod : (at : ℕ) → prev_aligned at % 16 ≡ 0
prev_aligned-mod at = omega arith

prev_aligned-le : (at : ℕ) → prev_aligned at ≤ at
prev_aligned-le at = omega arith

pub length-rows2 :
    {A B : Type 0} (xs : List A) (ys : List B) → length (rows2 xs ys) ≡ min (length xs) (length ys)
unfolding rows2
length-rows2 [] ys = ground arith
length-rows2 (x ∷ xs) [] = ground arith
length-rows2 (x ∷ xs) (y ∷ ys) = ground (arith, length-rows2 xs ys)

-- One pass over two spans, by its rows.
pub apply-rows2 :
    {A : Type 0} (f : A → A → A) (xs ys : List A)
    → let rows = map (λ (r : A × A). f r.0 r.1) (rows2 xs ys) in
      rows ++ drop (length rows) ys ≡ Simd.apply f xs ys
unfolding rows2 Simd.apply
apply-rows2 f [] ys = refl
apply-rows2 f (x ∷ xs) [] = refl
apply-rows2 f (x ∷ xs) (y ∷ ys) = ap (◌∷◌ (f x y)) (apply-rows2 f xs ys)

pub length-rows3 :
    {A B C : Type 0} (xs : List A) (ys : List B) (zs : List C)
    → length (rows3 xs ys zs) ≡ min (length xs) (min (length ys) (length zs))
unfolding rows3
length-rows3 [] ys zs = ground arith
length-rows3 (x ∷ xs) [] zs = ground arith
length-rows3 (x ∷ xs) (y ∷ ys) [] = ground arith
length-rows3 (x ∷ xs) (y ∷ ys) (z ∷ zs) = ground (arith, length-rows3 xs ys zs)

-- An operation on two spans, by either pointer.
two_spans_lem :
    {A : Type 0} (f : A → A → A) (four : Four (A × A) → Four A)
    → ((rs : Four (A × A)) → four rs ≡ quad (λ (r : A × A). f r.0 r.1) rs)
    → (at other : ℕ) (xs ys : List A) (size : ℕ) → size ≡ min (length xs) (length ys)
    → written ys (
        each
          (λ (r : A × A). f r.0 r.1)
          four
          Stride.single
          at
          (other ∷ [])
          (prev_aligned (at + 4 * size))
          (rows2 xs ys))
      ≡ some (Simd.apply f xs ys)
unfolding written
two_spans_lem f four agrees at other xs ys size e =
    ap (written ys) (
      each_lem (λ (r : _ × _). f r.0 r.1) four agrees Stride.single at (other ∷ [])
        (prev_aligned (at + 4 * size)) (rows2 xs ys) (prev_aligned-mod _)
        (omega (arith, e, length-rows2 xs ys)))
    ∙ ap some (apply-rows2 f xs ys)

-- One on a single span.
one_span_lem :
    {A : Type 0} (f : A → A) (four : Four A → Four A)
    → ((rs : Four A) → four rs ≡ quad f rs)
    → (at : ℕ) (out : List A)
    → written out (each f four Stride.single at [] (prev_aligned (at + 4 * length out)) out)
      ≡ some (map f out)
unfolding written
one_span_lem f four agrees at out =
    ap (written out) (
      each_lem f four agrees Stride.single at [] (prev_aligned (at + 4 * length out)) out
        (prev_aligned-mod _) (omega arith))
    ∙ ap some (all_written f out)
  where
    all_written :
        {A : Type 0} (f : A → A) (out : List A)
        → map f out ++ drop (length (map f out)) out ≡ map f out
    all_written f [] = refl
    all_written f (x ∷ xs) = ap (◌∷◌ (f x)) (all_written f xs)

-- One on three spans, the last of them written whole.
three_spans_lem :
    {A : Type 0} (f : A × A × A → A) (four : Four (A × A × A) → Four A)
    → ((rs : Four (A × A × A)) → four rs ≡ quad f rs)
    → (at : ℕ) (others : List ℕ) (xs ys zs : List A) (size : ℕ)
    → size ≡ min (length zs) (min (length ys) (length xs))
    → written zs
        (each f four Stride.single at others (prev_aligned (at + 4 * size)) (rows3 xs ys zs))
      ≡ written zs (some (tt, map f (rows3 xs ys zs)))
three_spans_lem f four agrees at others xs ys zs size e = ap (written zs) (
    each_lem f four agrees Stride.single at others (prev_aligned (at + 4 * size)) (rows3 xs ys zs)
      (prev_aligned-mod _) (omega (arith, e, length-rows3 xs ys zs)))

copy-apply : {A : Type 0} (xs ys : List A) → Simd.apply (λ x y. x) xs ys ≡ Simd.copy xs ys
unfolding Simd.apply Simd.copy
copy-apply [] ys = refl
copy-apply (x ∷ xs) [] = refl
copy-apply (x ∷ xs) (y ∷ ys) = ap (◌∷◌ x) (copy-apply xs ys)

fill-map : {A : Type 0} (ys : List A) (a : A) → map (λ y. a) ys ≡ Simd.fill ys a
unfolding Simd.fill
fill-map [] a = refl
fill-map (y ∷ ys) a = ap (◌∷◌ a) (fill-map ys a)

module _ {F : Type 0} ⦃o : FloatOps F⦄ ⦃i : Intrinsics F⦄ where
  subtract_span-exact :
      (in_at out_at : ℕ) (input out : List F)
      → Spans.subtract_span in_at input out_at out ≡ some (Simd.subtract_span input out)
  unfolding Spans.subtract_span Simd.subtract_span
  subtract_span-exact in_at out_at input out =
      two_spans_lem (λ x y. o.sub y x) _ (λ rs. i.sub_lem _ _) out_at in_at input out _ refl

  copy-exact :
      (in_at out_at : ℕ) (input out : List F)
      → Spans.copy in_at input out_at out ≡ some (Simd.apply (λ x y. x) input out)
  unfolding Spans.copy
  copy-exact in_at out_at input out =
      two_spans_lem (λ x y. x) _ (λ rs. refl) out_at in_at input out _ refl

  add_span-exact :
      ((x y : F) → o.add x y ≡ o.add y x)
      → (in_at out_at : ℕ) (input out : List F)
      → Spans.add_span in_at input out_at out ≡ some (Simd.add_span input out)
  unfolding Spans.add_span Simd.add_span
  add_span-exact comm in_at out_at input out =
      two_spans_lem (λ x y. o.add y x) _
        (λ rs. i.add_lem _ _ ∙ (λ k.
          (comm rs.0.0 rs.0.1 k, comm rs.1.0 rs.1.1 k, comm rs.2.0 rs.2.1 k, comm rs.3.0 rs.3.1 k)))
        out_at in_at input out _ refl

  apply_gain-exact :
      (gain : F) (in_at out_at : ℕ) (input out : List F)
      → length out ≤ length input
      → Spans.apply_gain gain in_at input out_at out ≡ some (Simd.apply_gain gain input out)
  unfolding Spans.apply_gain Simd.apply_gain
  apply_gain-exact gain in_at out_at input out le =
      let enough : ltb (length input) (length out) ≡ false = ground (arith, le) in
      rw enough (
        two_spans_lem (λ x y. o.mul gain x) (λ rs. i.mul (i.set1 gain) (firsts rs))
          (λ rs. rw (i.set1_lem gain) (i.mul_lem _ _)) out_at in_at input out
          (min (length out) (length input)) (omega arith))

  apply_gain_span-rows :
      (gain input out : List F)
      → let rows = map (λ (r : F × F × F). o.mul r.0 r.1) (rows3 gain input out) in
        rows ++ drop (length rows) out ≡ Simd.apply_gain_span gain input out
  unfolding rows3 Simd.apply_gain_span
  apply_gain_span-rows [] input out = refl
  apply_gain_span-rows (g ∷ gain) [] out = refl
  apply_gain_span-rows (g ∷ gain) (x ∷ input) [] = refl
  apply_gain_span-rows (g ∷ gain) (x ∷ input) (y ∷ out) =
      ap (◌∷◌ (o.mul g x)) (apply_gain_span-rows gain input out)

  multiply_add-rows :
      (gain input out : List F)
      → let rows = map (λ (r : F × F × F). o.add r.2 (o.mul r.0 r.1)) (rows3 gain input out) in
        rows ++ drop (length rows) out ≡ Simd.multiply_add gain input out
  unfolding rows3 Simd.multiply_add
  multiply_add-rows [] input out = refl
  multiply_add-rows (g ∷ gain) [] out = refl
  multiply_add-rows (g ∷ gain) (x ∷ input) [] = refl
  multiply_add-rows (g ∷ gain) (x ∷ input) (y ∷ out) =
      ap (◌∷◌ (o.add y (o.mul g x))) (multiply_add-rows gain input out)

  apply_gain_span-exact :
      (gain_at in_at out_at : ℕ) (gain input out : List F)
      → length out ≤ min (length input) (length gain)
      → Spans.apply_gain_span gain_at gain in_at input out_at out
        ≡ some (Simd.apply_gain_span gain input out)
  unfolding Spans.apply_gain_span written
  apply_gain_span-exact gain_at in_at out_at gain input out le =
      let enough : ltb (min (length input) (length gain)) (length out) ≡ false =
        ground (arith, le) in
      rw enough (
        three_spans_lem (λ (r : F × F × F). o.mul r.0 r.1) _ (λ rs. i.mul_lem _ _) out_at
          (in_at ∷ gain_at ∷ []) gain input out _ refl
        ∙ ap some (apply_gain_span-rows gain input out))

  multiply_add-exact :
      ((x y : F) → o.add x y ≡ o.add y x)
      → (gain_at in_at out_at : ℕ) (gain input out : List F)
      → length out ≤ min (length input) (length gain)
      → Spans.multiply_add gain_at gain in_at input out_at out
        ≡ some (Simd.multiply_add gain input out)
  unfolding Spans.multiply_add written
  multiply_add-exact comm gain_at in_at out_at gain input out le =
      let enough : ltb (min (length input) (length gain)) (length out) ≡ false =
        ground (arith, le) in
      rw enough (
        three_spans_lem (λ (r : F × F × F). o.add r.2 (o.mul r.0 r.1))
          (λ rs.
            i.add (i.mul (rs.0.0, rs.1.0, rs.2.0, rs.3.0) (rs.0.1, rs.1.1, rs.2.1, rs.3.1))
              (rs.0.2, rs.1.2, rs.2.2, rs.3.2))
          (λ rs.
            ap (λ m. i.add m (rs.0.2, rs.1.2, rs.2.2, rs.3.2)) (i.mul_lem _ _)
            ∙ i.add_lem _ _
            ∙ (λ k. (
              comm (o.mul rs.0.0 rs.0.1) rs.0.2 k,
              comm (o.mul rs.1.0 rs.1.1) rs.1.2 k,
              comm (o.mul rs.2.0 rs.2.1) rs.2.2 k,
              comm (o.mul rs.3.0 rs.3.1) rs.3.2 k,
            )))
          out_at (in_at ∷ gain_at ∷ []) gain input out _ refl
        ∙ ap some (multiply_add-rows gain input out))

  fill-exact :
      (at : ℕ) (out : List F) (value : F) → Spans.fill at out value ≡ some (map (λ x. value) out)
  unfolding Spans.fill
  fill-exact at out value = one_span_lem (λ x. value) _ (λ rs. i.set1_lem value) at out

  add_value-exact :
      ((x y : F) → o.add x y ≡ o.add y x)
      → (value : F) (at : ℕ) (out : List F)
      → Spans.add_value value at out ≡ some (Simd.add_value value out)
  unfolding Spans.add_value Simd.add_value
  add_value-exact comm value at out =
      one_span_lem (λ y. o.add y value) (λ rs. i.add (i.set1 value) rs)
        (λ rs.
          rw (i.set1_lem value) (i.add_lem _ _)
          ∙ (λ k. (comm value rs.0 k, comm value rs.1 k, comm value rs.2 k, comm value rs.3 k)))
        at out

  subtract_value-exact :
      (value : F) (at : ℕ) (out : List F)
      → Spans.subtract_value value at out ≡ some (Simd.subtract_value value out)
  unfolding Spans.subtract_value Simd.subtract_value
  subtract_value-exact value at out =
      one_span_lem (λ y. o.sub y value) (λ rs. i.sub rs (i.set1 value))
        (λ rs. rw (i.set1_lem value) (i.sub_lem _ _)) at out

  -- For every alignment of their spans the operations on registers stay within them and give what
  -- the scalar versions give: gains and products where the output is not longer than the inputs, and
  -- sums where addition of floats commutes.
  pub vector-scalar :
      ((x y : F) → o.add x y ≡ o.add y x)
      → (value : F) (gain_at in_at out_at : ℕ) (gain input out : List F)
      → length out ≤ min (length input) (length gain)
      → (Spans.add_span in_at input out_at out ≡ some (Simd.add_span input out))
        × (Spans.subtract_span in_at input out_at out ≡ some (Simd.subtract_span input out))
        × (Spans.add_value value out_at out ≡ some (Simd.add_value value out))
        × (Spans.subtract_value value out_at out ≡ some (Simd.subtract_value value out))
        × (Spans.copy in_at input out_at out ≡ some (Simd.copy input out))
        × (Spans.fill out_at out value ≡ some (Simd.fill out value))
        × (Spans.apply_gain value in_at input out_at out ≡ some (Simd.apply_gain value input out))
        × (Spans.apply_gain_span gain_at gain in_at input out_at out
            ≡ some (Simd.apply_gain_span gain input out))
        × (Spans.multiply_add gain_at gain in_at input out_at out
            ≡ some (Simd.multiply_add gain input out))
  vector-scalar comm value gain_at in_at out_at gain input out le = (
    add_span-exact comm in_at out_at input out,
    subtract_span-exact in_at out_at input out,
    add_value-exact comm value out_at out,
    subtract_value-exact value out_at out,
    copy-exact in_at out_at input out ∙ ap some (copy-apply input out),
    fill-exact out_at out value ∙ ap some (fill-map out value),
    apply_gain-exact value in_at out_at input out (omega (arith, le)),
    apply_gain_span-exact gain_at in_at out_at gain input out le,
    multiply_add-exact comm gain_at in_at out_at gain input out le,
  )
