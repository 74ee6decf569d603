-- ===== src/Sse/Spans/Faults.antt =====
-- SIMDSSE.cpp: where its operations do something else than the scalar versions.
use sfizz.Base.{
  ℕ, ◌+◌, ◌*◌, ◌%◌, ◌≤◌, ◌≡◌, ◌≢◌, refl, sym, ap, Option, ◌∙◌, List, [], ◌∷◌, some, arith, length,
  map, ltb, true, false,
}
use Prim.Native.Nat.{min}
use sfizz.Float.{FloatOps}
use sfizz.Simd
use sfizz.Sse.{Four, Intrinsics, prev_aligned, Stride, unaligned, scalar, vectors, run}
use sfizz.Sse.Loop.{run-unaligned, aligned_first}
use sfizz.Sse.Spans
use sfizz.Sse.Spans.{firsts, pan_registers, both_channels, rows2, rows3, written}
use sfizz.Sse.Spans.Exact.{length-rows3, length-rows2, scalar-eq-map, apply-rows2}

module _ {C V R T S : Type 0} (one : C → R → C × S) (one' : C → T → C × S) (lift : C → V)
    (part : R → T) (four : V → Four T → V × Four S) (lower : V → C) where
  abbrev by_part : V → Four R → V × Four S
  by_part v (p, q, r, s) = four v (part p, part q, part r, part s)

  -- A loop that is all on registers depends on the rows as far as the registers do.
  vectors-part :
      (at last : ℕ) (v : V) (rows : List R)
      → last ≡ at + 4 * length rows
      → vectors one lift by_part lower Stride.single at last v rows
        ≡ vectors one' lift four lower Stride.single at last v (map part rows)
  unfolding vectors scalar
  vectors-part at last v [] e = ground (arith, e)
  vectors-part at last v (p ∷ []) e = ground (arith, e)
  vectors-part at last v (p ∷ q ∷ []) e = ground (arith, e)
  vectors-part at last v (p ∷ q ∷ r ∷ []) e = ground (arith, e)
  vectors-part at last v (p ∷ q ∷ r ∷ s ∷ rows) e =
      let here : ltb at last ≡ true = ground (arith, e) in
      rw (vectors, here, vectors-part (at + 16) last _ rows (omega (arith, e))) refl

  run-part :
      (at : ℕ) (others : List ℕ) (last : ℕ) (c : C) (rows : List R)
      → unaligned (at ∷ others) ≡ false
      → last ≡ at + 4 * length rows
      → run one lift by_part lower Stride.single at others last c rows
        ≡ vectors one' lift four lower Stride.single at last (lift c) (map part rows)
  unfolding run
  run-part at others last c [] aligned e = vectors-part at last (lift c) [] e
  run-part at others last c (r ∷ rows) aligned e =
      rw (run, aligned) (vectors-part at last (lift c) (r ∷ rows) e)

rows3-channels :
    {A : Type 0} (envelope left right : List A)
    → length left ≤ length envelope
    → map (λ (r : A × A × A). (r.1, r.2)) (rows3 envelope left right) ≡ rows2 left right
unfolding rows3 rows2
rows3-channels [] [] right le = refl
rows3-channels [] (l ∷ left) right le = absurd (omega (arith, le))
rows3-channels (e ∷ envelope) [] right le = refl
rows3-channels (e ∷ envelope) (l ∷ left) [] le = refl
rows3-channels (e ∷ envelope) (l ∷ left) (r ∷ right) le =
    ap (◌∷◌ (l, r)) (rows3-channels envelope left right (omega (arith, le)))

module _ {F : Type 0} ⦃o : FloatOps F⦄ ⦃i : Intrinsics F⦄ where
  math-unaligned :
      (function_ps : Four F → Four F) (one : F → F) (in_at out_at : ℕ) (input out : List F)
      → in_at % 16 ≢ out_at % 16
      → Spans.math function_ps one in_at input out_at out
        ≡ some (Simd.apply (λ x y. one x) input out)
  unfolding Spans.math written
  math-unaligned function_ps one in_at out_at input out apart =
      ap (written out) (
        run-unaligned _ _ (λ v rs. (v, function_ps (firsts rs))) _ (λ c. refl) in_at out_at
          (prev_aligned (in_at + 4 * min (length input) (length out))) tt (rows2 input out) apart
          (omega (arith, length-rows2 input out))
        ∙ ap some (scalar-eq-map _ (rows2 input out)))
      ∙ ap some (apply-rows2 (λ x y. one x) input out)

  -- Where the addresses of the spans differ modulo 16, `cos`, `sin` and `log` give exponentials, for
  -- whatever functions of registers.
  pub cos-exp :
      (cos_ps sin_ps log_ps : Four F → Four F) (in_at out_at : ℕ) (input out : List F)
      → in_at % 16 ≢ out_at % 16
      → (Spans.cos cos_ps in_at input out_at out ≡ some (Simd.exp input out))
        × (Spans.sin sin_ps in_at input out_at out ≡ some (Simd.exp input out))
        × (Spans.log log_ps in_at input out_at out ≡ some (Simd.exp input out))
  unfolding Spans.cos Spans.sin Spans.log Simd.exp
  cos-exp cos_ps sin_ps log_ps in_at out_at input out apart = (
    math-unaligned cos_ps o.exp in_at out_at input out apart,
    math-unaligned sin_ps o.exp in_at out_at input out apart,
    math-unaligned log_ps o.exp in_at out_at input out apart,
  )

  by_registers : (Four F → Four F × Four F) → ℕ → List F → List F → Option (List F × List F)
  by_registers sincos_ps at left right = both_channels left right (
      vectors (λ (c : Unit {0}) (r : F × F). (c, r)) (λ c. c)
        (λ v rs. (v, pan_registers sincos_ps rs)) (λ v. v) Stride.single at (at + 4 * length left)
        tt (rows2 left right))

  pan-registers :
      (sincos_ps : Four F → Four F × Four F) (pan_at left_at right_at : ℕ)
      (envelope left right : List F)
      → unaligned (pan_at ∷ left_at ∷ right_at ∷ []) ≡ false
      → length envelope ≡ length left
      → length right ≡ length left
      → length left % 4 ≡ 0
      → Spans.pan sincos_ps pan_at envelope left_at left right_at right
        ≡ by_registers sincos_ps pan_at left right
  unfolding Spans.pan by_registers
  pan-registers sincos_ps pan_at left_at right_at envelope left right aligned e r four =
      let size : min (length envelope) (min (length left) (length right)) ≡ length left =
        omega (arith, e, r) in
      let at : pan_at % 16 ≡ 0 = aligned_first pan_at _ aligned in
      let last : prev_aligned (pan_at + 4 * length left) ≡ pan_at + 4 * length left =
        omega (arith, at, four) in
      let rows : length (rows3 envelope left right) ≡ length left =
        omega (arith, e, r, length-rows3 envelope left right) in
      rw (size, last)
        (ap (both_channels left right) (
          run-part _ (λ (c : Unit {0}) (r : F × F). (c, r)) (λ c. c) (λ (r : F × F × F). (r.1, r.2))
            (λ v rs. (v, pan_registers sincos_ps rs)) (λ v. v) pan_at (left_at ∷ right_at ∷ [])
            (pan_at + 4 * length left) tt (rows3 envelope left right) aligned (omega (arith, rows))
          ∙ ap
              (vectors (λ (c : Unit {0}) (r : F × F). (c, r)) (λ c. c)
                (λ v rs. (v, pan_registers sincos_ps rs)) (λ v. v) Stride.single pan_at
                (pan_at + 4 * length left) tt)
              (rows3-channels envelope left right (omega (arith, e)))))

  -- On aligned spans of whole registers `pan` does not depend on the envelope.
  pub pan-channels :
      (sincos_ps : Four F → Four F × Four F) (pan_at left_at right_at : ℕ)
      (envelope envelope' left right : List F)
      → unaligned (pan_at ∷ left_at ∷ right_at ∷ []) ≡ false
      → length envelope ≡ length left
      → length envelope' ≡ length left
      → length right ≡ length left
      → length left % 4 ≡ 0
      → Spans.pan sincos_ps pan_at envelope left_at left right_at right
        ≡ Spans.pan sincos_ps pan_at envelope' left_at left right_at right
  pan-channels sincos_ps pan_at left_at right_at envelope envelope' left right aligned e e' r four =
      pan-registers sincos_ps pan_at left_at right_at envelope left right aligned e r four
      ∙ sym (pan-registers sincos_ps pan_at left_at right_at envelope' left right aligned e' r four)
