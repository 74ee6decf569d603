-- ===== src/Sse/Spans.antt =====
-- SIMDSSE.cpp: the operations that treat the values of their spans one by one. `none` is an access
-- behind the end of a span. Spans do not overlap but where one is given twice.
pub mod Exact
pub mod Interleaved
pub mod Faults
use sfizz.Base.{
  ℕ, ◌+◌, ◌-◌, ◌*◌, ◌/◌, List, [], ◌∷◌, ◌++◌, Option, none, some, ltb, if◌then◌else◌, length, drop,
  map,
}
use Prim.Native.Nat.{min}
use sfizz.Float.{FloatOps, of_nat}
use sfizz.Voice.Filling.{pi_four}
use sfizz.Sse.{Four, Intrinsics, prev_aligned, Stride, run}

module _ {A B : Type 0} where
  unfoldable pub rows2 : List A → List B → List (A × B)
  rows2 (a ∷ as_) (b ∷ bs) = (a, b) ∷ rows2 as_ bs
  rows2 as_ bs = []

  -- What was written, over what the span held.
  unfoldable pub written : List A → Option (B × List A) → Option (List A)
  written out none = none
  written out (some (b, done)) = some (done ++ drop (length done) out)

unfoldable pub rows3 : {A B C : Type 0} → List A → List B → List C → List (A × B × C)
rows3 (a ∷ as_) (b ∷ bs) (c ∷ cs) = (a, b, c) ∷ rows3 as_ bs cs
rows3 as_ bs cs = []

-- The values two by two; an odd one is left over.
unfoldable pub pairs : {A : Type 0} → List A → List (A × A)
pairs (a ∷ b ∷ rest) = (a, b) ∷ pairs rest
pairs rest = []

unfoldable pub unpaired : {A : Type 0} → List (A × A) → List A
unpaired [] = []
unpaired ((a, b) ∷ rest) = a ∷ b ∷ unpaired rest

-- The loop without a value that is carried.
abbrev pub each :
    {R S : Type 0}
    → (R → S)
    → (Four R → Four S)
    → Stride
    → ℕ
    → List ℕ
    → ℕ
    → List R
    → Option (Unit {0} × List S)
each one four stride at others last rows =
    run (λ c r. (tt, one r)) (λ c. c) (λ v rs. (v, four rs)) (λ v. v) stride at others last tt rows

-- The loads of a register from one of the spans.
abbrev pub firsts : {A B : Type 0} → Four (A × B) → Four A
firsts (p, q, r, s) = (p.0, q.0, r.0, s.0)

abbrev pub seconds : {A B : Type 0} → Four (A × B) → Four B
seconds (p, q, r, s) = (p.1, q.1, r.1, s.1)

module _ {F : Type 0} ⦃o : FloatOps F⦄ ⦃i : Intrinsics F⦄ where
  unfoldable pub fill : ℕ → List F → F → Option (List F)
  unfolding run written
  fill at out value =
      let last = prev_aligned (at + 4 * length out) in
      written out (each (λ x. value) (λ rs. i.set1 value) Stride.single at [] last out)

  -- `exp`, `cos`, `log` and `sin`, over the function of registers of sse_mathfun.h.
  unfoldable pub math : (Four F → Four F) → (F → F) → ℕ → List F → ℕ → List F → Option (List F)
  unfolding run written rows2
  math function_ps one in_at input out_at out =
      let last = prev_aligned (in_at + 4 * min (length input) (length out)) in
      written out (
        each (λ (r : F × F). one r.0) (λ rs. function_ps (firsts rs)) Stride.single in_at
          (out_at ∷ []) last (rows2 input out))

  unfoldable pub exp : (Four F → Four F) → ℕ → List F → ℕ → List F → Option (List F)
  unfolding math
  exp exp_ps = math exp_ps o.exp

  -- The scalar loops of the other three call `std::exp`, too.
  unfoldable pub cos : (Four F → Four F) → ℕ → List F → ℕ → List F → Option (List F)
  unfolding math
  cos cos_ps = math cos_ps o.exp

  unfoldable pub log : (Four F → Four F) → ℕ → List F → ℕ → List F → Option (List F)
  unfolding math
  log log_ps = math log_ps o.exp

  unfoldable pub sin : (Four F → Four F) → ℕ → List F → ℕ → List F → Option (List F)
  unfolding math
  sin sin_ps = math sin_ps o.exp

  -- The last loop of the gains runs to the end of the output, whatever the length of the input.
  unfoldable pub apply_gain : F → ℕ → List F → ℕ → List F → Option (List F)
  unfolding run written rows2
  apply_gain gain in_at input out_at out =
      let last = prev_aligned (out_at + 4 * min (length out) (length input)) in
      let done =
        each (λ (r : F × F). o.mul gain r.0) (λ rs. i.mul (i.set1 gain) (firsts rs)) Stride.single
          out_at (in_at ∷ []) last (rows2 input out) in
      if ltb (length input) (length out) then none else written out done

  unfoldable pub apply_gain_span : ℕ → List F → ℕ → List F → ℕ → List F → Option (List F)
  unfolding run written rows3
  apply_gain_span gain_at gain in_at input out_at out =
      let size = min (length out) (min (length input) (length gain)) in
      let last = prev_aligned (out_at + 4 * size) in
      let done =
        each (λ (r : F × F × F). o.mul r.0 r.1)
          (λ rs. i.mul (rs.0.0, rs.1.0, rs.2.0, rs.3.0) (rs.0.1, rs.1.1, rs.2.1, rs.3.1))
          Stride.single out_at (in_at ∷ gain_at ∷ []) last (rows3 gain input out) in
      if ltb (min (length input) (length gain)) (length out) then none else written out done

  unfoldable pub multiply_add : ℕ → List F → ℕ → List F → ℕ → List F → Option (List F)
  unfolding run written rows3
  multiply_add gain_at gain in_at input out_at out =
      let size = min (length out) (min (length input) (length gain)) in
      let last = prev_aligned (out_at + 4 * size) in
      let done =
        each (λ (r : F × F × F). o.add r.2 (o.mul r.0 r.1))
          (λ rs.
            i.add (i.mul (rs.0.0, rs.1.0, rs.2.0, rs.3.0) (rs.0.1, rs.1.1, rs.2.1, rs.3.1))
              (rs.0.2, rs.1.2, rs.2.2, rs.3.2))
          Stride.single out_at (in_at ∷ gain_at ∷ []) last (rows3 gain input out) in
      if ltb (min (length input) (length gain)) (length out) then none else written out done

  -- `add`, `subtract` and `copy` run to a sentinel that both spans have.
  abbrev onto : (F → F → F) → (Four F → Four F → Four F) → ℕ → List F → ℕ → List F → Option (List F)
  onto one four in_at input out_at out =
      let last = prev_aligned (out_at + 4 * min (length input) (length out)) in
      written out (
        each (λ (r : F × F). one r.0 r.1) (λ rs. four (firsts rs) (seconds rs)) Stride.single out_at
          (in_at ∷ []) last (rows2 input out))

  unfoldable pub add_span : ℕ → List F → ℕ → List F → Option (List F)
  unfolding run written rows2
  add_span = onto (λ x y. o.add y x) (λ x y. i.add x y)

  unfoldable pub subtract_span : ℕ → List F → ℕ → List F → Option (List F)
  unfolding run written rows2
  subtract_span = onto (λ x y. o.sub y x) (λ x y. i.sub y x)

  unfoldable pub copy : ℕ → List F → ℕ → List F → Option (List F)
  unfolding run written rows2
  copy = onto (λ x y. x) (λ x y. x)

  unfoldable pub add_value : F → ℕ → List F → Option (List F)
  unfolding run written
  add_value value at out =
      let last = prev_aligned (at + 4 * length out) in
      written out
        (each (λ y. o.add y value) (λ rs. i.add (i.set1 value) rs) Stride.single at [] last out)

  unfoldable pub subtract_value : F → ℕ → List F → Option (List F)
  unfolding run written
  subtract_value value at out =
      let last = prev_aligned (at + 4 * length out) in
      written out
        (each (λ y. o.sub y value) (λ rs. i.sub rs (i.set1 value)) Stride.single at [] last out)

  abbrev pub both_channels :
      List F → List F → Option (Unit {0} × List (F × F)) → Option (List F × List F)
  both_channels left right none = none
  both_channels left right (some (c, out)) = some (
    map (λ (p : F × F). p.0) out ++ drop (length out) left,
    map (λ (p : F × F). p.1) out ++ drop (length out) right,
  )

  -- The last loop runs over the whole input, whatever the lengths of the outputs. The pointer that
  -- is tested moves by the two floats of a row.
  unfoldable pub read_interleaved : ℕ → List F → ℕ → List F → ℕ → List F → Option (List F × List F)
  unfolding run rows3 pairs
  read_interleaved in_at input left_at left right_at right =
      let size = min (length input) (min (2 * length left) (2 * length right)) in
      let last = prev_aligned (in_at + 4 * size - 16) in
      let done =
        each (λ (r : (F × F) × F × F). r.0)
          (λ rs.
            let register0 : Four F = (rs.0.0.0, rs.0.0.1, rs.1.0.0, rs.1.0.1) in
            let register1 : Four F = (rs.2.0.0, rs.2.0.1, rs.3.0.0, rs.3.0.1) in
            let l = i.shuffle register0 register1 136 in
            let r = i.shuffle register0 register1 221 in
            ((l.0, r.0), (l.1, r.1), (l.2, r.2), (l.3, r.3)))
          Stride.double in_at (left_at ∷ right_at ∷ []) last (rows3 (pairs input) left right) in
      if ltb (min (length left) (length right)) (length input / 2)
      then none
      else both_channels left right done

  -- The last loop runs over the whole output, whatever the lengths of the inputs.
  unfoldable pub write_interleaved : ℕ → List F → ℕ → List F → ℕ → List F → Option (List F)
  unfolding run rows3 pairs unpaired written
  write_interleaved left_at left right_at right out_at out =
      let size = min (length out) (min (length left) (length right) * 2) in
      let last = prev_aligned (out_at + 4 * size - 16) in
      let done =
        each {S = F × F} (λ (r : F × F × (F × F)). (r.0, r.1))
          (λ rs.
            let l : Four F = (rs.0.0, rs.1.0, rs.2.0, rs.3.0) in
            let r : Four F = (rs.0.1, rs.1.1, rs.2.1, rs.3.1) in
            let low = i.unpack_low l r in
            let high = i.unpack_high l r in
            ((low.0, low.1), (low.2, low.3), (high.0, high.1), (high.2, high.3)))
          Stride.double out_at (right_at ∷ left_at ∷ []) last (rows3 left right (pairs out)) in
      if ltb (min (length left) (length right)) (length out / 2)
      then none
      else elim done [ none ↦ none | some (c, rs) ↦ written out (some (c, unpaired rs)) ]

  -- The loop on registers multiplies one by a quarter of pi, and both channels by the cosine of that
  -- and the left channel: what it adds to the envelope before is not used.
  abbrev pub pan_registers : (Four F → Four F × Four F) → Four (F × F) → Four (F × F)
  pan_registers sincos_ps rs =
      let (sines, cosines) = sincos_ps (i.mul (i.set1 (of_nat 1)) (i.set1 pi_four)) in
      let l = i.mul cosines (firsts rs) in
      let r = i.mul cosines (firsts rs) in ((l.0, r.0), (l.1, r.1), (l.2, r.2), (l.3, r.3))

  unfoldable pub pan :
      (Four F → Four F × Four F) → ℕ → List F → ℕ → List F → ℕ → List F → Option (List F × List F)
  unfolding run rows3
  pan sincos_ps pan_at envelope left_at left right_at right =
      let size = min (length envelope) (min (length left) (length right)) in
      let last = prev_aligned (pan_at + 4 * size) in
      both_channels left right (
        each {S = F × F}
          (λ (r : F × F × F).
            let circle = o.mul pi_four (o.add (of_nat 1) r.0) in
            (o.mul r.1 (o.cos circle), o.mul r.2 (o.sin circle)))
          (λ rs.
            pan_registers sincos_ps
              ((rs.0.1, rs.0.2), (rs.1.1, rs.1.2), (rs.2.1, rs.2.2), (rs.3.1, rs.3.2)))
          Stride.single pan_at (left_at ∷ right_at ∷ []) last (rows3 envelope left right))
