-- ===== src/Sse/Sums/Split.antt =====
-- SIMDSSE.cpp, `sfzInterpolationCast`: the coefficients of a position.
use sfizz.Base.{
  ℕ, ◌+◌, ◌*◌, ◌≤◌, ◌≡◌, refl, sym, ap, subst, true, false, List, [], ◌∷◌, ◌++◌, Option, none, some,
  arith, length, map,
}
use sfizz.Base.Int.{ℤ}
use sfizz.Float.{FloatOps, of_nat}
use sfizz.Simd.{Interpolation}
use sfizz.Sse.{Four, lanewise, Intrinsics, prev_aligned, Stride}
use sfizz.Sse.Rows.{Rows, Gives, run-Gives}
use sfizz.Sse.Spans.Exact.{prev_aligned-mod}
use sfizz.Sse.Sums
use sfizz.Sse.Sums.{split, split_one, interpolation, within_spans}

within_spans-all :
    {F : Type 0} (jumps : List F) (indices : List ℤ) (left right : List F)
    → length jumps ≤ length indices
    → length jumps ≤ length left
    → length jumps ≤ length right
    → within_spans jumps (indices, left, right) ≡ jumps
unfolding within_spans
within_spans-all [] indices left right a b c = refl
within_spans-all (x ∷ jumps) [] left right a b c = absurd (omega (arith, a))
within_spans-all (x ∷ jumps) (n ∷ indices) [] right a b c = absurd (omega (arith, b))
within_spans-all (x ∷ jumps) (n ∷ indices) (l ∷ left) [] a b c = absurd (omega (arith, c))
within_spans-all (x ∷ jumps) (n ∷ indices) (l ∷ left) (r ∷ right) a b c = ap (◌∷◌ x) (
    within_spans-all jumps indices left right (omega (arith, a)) (omega (arith, b))
      (omega (arith, c)))

module _ {F : Type 0} ⦃o : FloatOps F⦄ where
  -- The right coefficient of a position is what it is past its index, and the left one the rest.
  abbrev pub IsSplitAt : F → ℤ × F × F → Type 0
  IsSplitAt x (n, l, r) = (r ≡ o.sub x (o.of_int n)) × (l ≡ o.sub (of_nat 1) r)

  abbrev pub AreSplit : List F → Interpolation F → Type 0
  AreSplit [] spans = Unit {0}
  AreSplit (x ∷ jumps) (n ∷ indices, l ∷ left, r ∷ right) =
      IsSplitAt x (n, l, r) × AreSplit jumps (indices, left, right)
  AreSplit (x ∷ jumps) spans = true ≡ false

  -- The spans that a cast of positions writes, which it is to do within their bounds.
  abbrev pub CastIsSplit : List F → Option (Interpolation F) → Type 0
  CastIsSplit jumps none = true ≡ false
  CastIsSplit jumps (some spans) = AreSplit jumps spans

  AreSplit-Rows :
      (jumps : List F) (done : List (ℤ × F × F)) (indices : List ℤ) (left right : List F)
      → Rows IsSplitAt jumps done
      → AreSplit jumps (
        map (λ (r : ℤ × F × F). r.0) done ++ indices,
        map (λ (r : ℤ × F × F). r.1) done ++ left,
        map (λ (r : ℤ × F × F). r.2) done ++ right,
      )
  AreSplit-Rows [] done indices left right rows = tt
  AreSplit-Rows (x ∷ jumps) [] indices left right rows = cc
  AreSplit-Rows (x ∷ jumps) (s ∷ done) indices left right (here, rows) =
      (here, AreSplit-Rows jumps done indices left right rows)

  CastIsSplit-Gives :
      (jumps : List F) (spans : Interpolation F) (result : Option (Unit {0} × List (ℤ × F × F)))
      → Gives IsSplitAt jumps result
      → CastIsSplit jumps
          (elim result [ none ↦ none | some (c, done) ↦ some (interpolation done spans) ])
  CastIsSplit-Gives jumps spans none bad = bad
  CastIsSplit-Gives jumps (indices, left, right) (some (c, done)) rows =
      AreSplit-Rows jumps done _ _ _ rows

  module _ ⦃i : Intrinsics F⦄ where
    split-IsSplitAt :
        (at : Four F)
        → let out = split at in
          IsSplitAt at.0 out.0 × IsSplitAt at.1 out.1 × IsSplitAt at.2 out.2 × IsSplitAt at.3 out.3
    split-IsSplitAt at =
        let indices = i.to_ints (i.sub at (i.set1 Sums.almost_half)) in
        let right = i.sub at (i.of_ints indices) in
        let r : right
            ≡ lanewise o.sub at
                (o.of_int indices.0, o.of_int indices.1, o.of_int indices.2, o.of_int indices.3) =
          rw (i.of_ints_lem indices) (i.sub_lem _ _) in
        let l : i.sub (i.set1 (of_nat 1)) right
            ≡ lanewise o.sub (of_nat 1, of_nat 1, of_nat 1, of_nat 1) right =
          rw (i.set1_lem (of_nat 1)) (i.sub_lem _ _) in
        (
          (ap (λ (v : Four F). v.0) r, ap (λ (v : Four F). v.0) l),
          (ap (λ (v : Four F). v.1) r, ap (λ (v : Four F). v.1) l),
          (ap (λ (v : Four F). v.2) r, ap (λ (v : Four F). v.2) l),
          (ap (λ (v : Four F). v.3) r, ap (λ (v : Four F). v.3) l),
        )

    -- On every alignment the cast stays within its spans, which are to be as long as the positions,
    -- and for each position the right coefficient is the position minus the index that is written,
    -- and the left one is one minus that, however the index is rounded.
    pub sfz_interpolation_cast-CastIsSplit :
        (jump_at index_at left_at right_at : ℕ) (jumps : List F) (indices : List ℤ)
        (left right : List F)
        → length jumps ≤ length indices
        → length jumps ≤ length left
        → length jumps ≤ length right
        → CastIsSplit jumps (
            Sums.sfz_interpolation_cast jump_at jumps index_at left_at right_at
              (indices, left, right))
    unfolding Sums.sfz_interpolation_cast Sums.cast_rows
    sfz_interpolation_cast-CastIsSplit jump_at index_at left_at right_at jumps indices left right a
          b c =
        let others = index_at ∷ left_at ∷ right_at ∷ [] in
        subst
          (λ rows. CastIsSplit jumps (Sums.cast_rows jump_at others rows (indices, left, right)))
          (sym (within_spans-all jumps indices left right a b c))
          (CastIsSplit-Gives jumps (indices, left, right) _
            (run-Gives IsSplitAt (λ (u : Unit {0}) x. (tt, split_one x)) (λ c. c)
              (λ v rs. (v, split rs)) (λ v. v) (λ u x. (refl, refl)) (λ v rs. split-IsSplitAt rs)
              Stride.single jump_at others (prev_aligned (jump_at + 4 * length jumps)) tt jumps
              (prev_aligned-mod _) (omega arith)))
