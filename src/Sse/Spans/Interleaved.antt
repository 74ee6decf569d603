-- ===== src/Sse/Spans/Interleaved.antt =====
-- SIMDSSE.cpp, `readInterleaved` and `writeInterleaved`, against the scalar versions.
use sfizz.Base.{
  ℕ, zero, suc, ◌+◌, ◌-◌, ◌*◌, ◌/◌, ◌≤◌, ◌≡◌, refl, ap, ◌∙◌, List, [], ◌∷◌, ◌++◌, some, none, arith,
  length, drop, map, ltb, false,
}
use Prim.Native.Nat.{min}
use sfizz.Float.{FloatOps}
use sfizz.Simd
use sfizz.Simd.Shape.{read_interleaved-write_interleaved}
use sfizz.Sse.{Four, Intrinsics, prev_aligned, Stride}
use sfizz.Sse.Spans
use sfizz.Sse.Spans.{each, pairs, unpaired, rows3, written}
use sfizz.Sse.Spans.Exact.{each_lem, prev_aligned-mod, length-rows3}

length-pairs : {A : Type 0} (n : ℕ) (xs : List A) → length xs ≡ n + n → length (pairs xs) ≡ n
unfolding pairs
length-pairs zero [] e = refl
length-pairs zero (x ∷ xs) e = absurd (omega (arith, e))
length-pairs (suc n) [] e = absurd (omega (arith, e))
length-pairs (suc n) (x ∷ []) e = absurd (omega (arith, e))
length-pairs (suc n) (x ∷ y ∷ xs) e = ap suc (length-pairs n xs (omega (arith, e)))

read_rows :
    {A : Type 0} (input left right : List A)
    → let rows = map (λ (r : (A × A) × A × A). r.0) (rows3 (pairs input) left right) in
      ◌≡◌ {A = List A × List A}
        (
          map (λ (p : A × A). p.0) rows ++ drop (length rows) left,
          map (λ (p : A × A). p.1) rows ++ drop (length rows) right,
        )
        (Simd.read_interleaved input left right)
unfolding rows3 pairs Simd.read_interleaved
read_rows [] left right = refl
read_rows (a ∷ []) left right = refl
read_rows (a ∷ b ∷ input) [] right = refl
read_rows (a ∷ b ∷ input) (x ∷ left) [] = refl
read_rows {A} (a ∷ b ∷ input) (x ∷ left) (y ∷ right) =
    ap (λ (p : List A × List A). (a ∷ p.0, b ∷ p.1)) (read_rows input left right)

write_rows :
    {A : Type 0} (left right out : List A)
    → let rows =
        unpaired (map (λ (r : A × A × (A × A)). (r.0, r.1)) (rows3 left right (pairs out))) in
      rows ++ drop (length rows) out ≡ Simd.write_interleaved left right out
unfolding rows3 pairs unpaired Simd.write_interleaved
write_rows [] right out = refl
write_rows (l ∷ left) [] out = refl
write_rows (l ∷ left) (r ∷ right) [] = refl
write_rows (l ∷ left) (r ∷ right) (x ∷ []) = refl
write_rows (l ∷ left) (r ∷ right) (x ∷ y ∷ out) = ap (λ xs. l ∷ r ∷ xs) (write_rows left right out)

length-write_interleaved :
    {A : Type 0} (left right out : List A)
    → length (Simd.write_interleaved left right out) ≡ length out
unfolding Simd.write_interleaved
length-write_interleaved [] right out = refl
length-write_interleaved (l ∷ left) [] out = refl
length-write_interleaved (l ∷ left) (r ∷ right) [] = refl
length-write_interleaved (l ∷ left) (r ∷ right) (x ∷ []) = refl
length-write_interleaved (l ∷ left) (r ∷ right) (x ∷ y ∷ out) =
    ap (λ n. suc (suc n)) (length-write_interleaved left right out)

module _ {F : Type 0} ⦃o : FloatOps F⦄ ⦃i : Intrinsics F⦄ where
  read_interleaved-exact :
      (in_at left_at right_at n : ℕ) (input left right : List F)
      → 16 ≤ in_at
      → length input ≡ n + n
      → length left ≡ n
      → length right ≡ n
      → Spans.read_interleaved in_at input left_at left right_at right
        ≡ some (Simd.read_interleaved input left right)
  unfolding Spans.read_interleaved
  read_interleaved-exact in_at left_at right_at n input left right far e l r =
      let rows = rows3 (pairs input) left right in
      let enough : ltb (min (length left) (length right)) (length input / 2) ≡ false =
        ground (arith, e, l, r) in
      let size = min (length input) (min (2 * length left) (2 * length right)) in
      let done =
        each_lem (λ (r : (F × F) × F × F). r.0)
          (λ rs.
            let register0 : Four F = (rs.0.0.0, rs.0.0.1, rs.1.0.0, rs.1.0.1) in
            let register1 : Four F = (rs.2.0.0, rs.2.0.1, rs.3.0.0, rs.3.0.1) in
            let l = i.shuffle register0 register1 136 in
            let r = i.shuffle register0 register1 221 in
            ((l.0, r.0), (l.1, r.1), (l.2, r.2), (l.3, r.3)))
          (λ rs.
            ap
              (λ (q : Four F × Four F).
                ((q.0.0, q.1.0), (q.0.1, q.1.1), (q.0.2, q.1.2), (q.0.3, q.1.3)))
              (λ k. (
                i.shuffle_lem (rs.0.0.0, rs.0.0.1, rs.1.0.0, rs.1.0.1)
                    (rs.2.0.0, rs.2.0.1, rs.3.0.0, rs.3.0.1) 136 k,
                i.shuffle_lem (rs.0.0.0, rs.0.0.1, rs.1.0.0, rs.1.0.1)
                    (rs.2.0.0, rs.2.0.1, rs.3.0.0, rs.3.0.1) 221 k,
              )))
          Stride.double in_at (left_at ∷ right_at ∷ []) (prev_aligned (in_at + 4 * size - 16)) rows
          (prev_aligned-mod _)
          (omega
            (arith, e, l, r, far, length-rows3 (pairs input) left right, length-pairs n input e)) in
      rw (enough, done) (ap some (read_rows input left right))

  write_interleaved-exact :
      (left_at right_at out_at n : ℕ) (left right out : List F)
      → 16 ≤ out_at
      → length left ≡ n
      → length right ≡ n
      → length out ≡ n + n
      → Spans.write_interleaved left_at left right_at right out_at out
        ≡ some (Simd.write_interleaved left right out)
  unfolding Spans.write_interleaved written
  write_interleaved-exact left_at right_at out_at n left right out far l r e =
      let rows = rows3 left right (pairs out) in
      let enough : ltb (min (length left) (length right)) (length out / 2) ≡ false =
        ground (arith, e, l, r) in
      let size = min (length out) (min (length left) (length right) * 2) in
      let done =
        each_lem {S = F × F} (λ (r : F × F × (F × F)). (r.0, r.1))
          (λ rs.
            let l : Four F = (rs.0.0, rs.1.0, rs.2.0, rs.3.0) in
            let r : Four F = (rs.0.1, rs.1.1, rs.2.1, rs.3.1) in
            let low = i.unpack_low l r in
            let high = i.unpack_high l r in
            ((low.0, low.1), (low.2, low.3), (high.0, high.1), (high.2, high.3)))
          (λ rs.
            ap
              (λ (q : Four F × Four F).
                ((q.0.0, q.0.1), (q.0.2, q.0.3), (q.1.0, q.1.1), (q.1.2, q.1.3)))
              (λ k. (
                i.unpack_low_lem (rs.0.0, rs.1.0, rs.2.0, rs.3.0) (rs.0.1, rs.1.1, rs.2.1, rs.3.1)
                    k,
                i.unpack_high_lem (rs.0.0, rs.1.0, rs.2.0, rs.3.0) (rs.0.1, rs.1.1, rs.2.1, rs.3.1)
                    k,
              )))
          Stride.double out_at (right_at ∷ left_at ∷ []) (prev_aligned (out_at + 4 * size - 16))
          rows (prev_aligned-mod _)
          (omega
            (arith, e, l, r, far, length-rows3 left right (pairs out), length-pairs n out e)) in
      rw (enough, done) (ap some (write_rows left right out))

  -- Two channels of one length, written interleaved and read back by the operations on registers,
  -- come out as they were, on every alignment and whatever the spans held.
  pub read-write :
      (left_at right_at mid_at left_at' right_at' : ℕ) (left right mid left' right' : List F)
      → 16 ≤ mid_at
      → length right ≡ length left
      → length mid ≡ length left + length left
      → length left' ≡ length left
      → length right' ≡ length left
      → elim (Spans.write_interleaved left_at left right_at right mid_at mid) [
        | none ↦ none
        | some written_ ↦ Spans.read_interleaved mid_at written_ left_at' left' right_at' right'
      ]
        ≡ some (left, right)
  read-write left_at right_at mid_at left_at' right_at' left right mid left' right' far r m l' r' =
      let n = length left in
      let out = Simd.write_interleaved left right mid in
      rw
        (
          write_interleaved-exact left_at right_at mid_at n left right mid far refl r m,
          read_interleaved-exact mid_at left_at' right_at' n out left' right' far
              (length-write_interleaved left right mid ∙ m) l' r',
          read_interleaved-write_interleaved left right mid left' right' r l' r' m,
        )
        refl
