-- ===== src/Sse/Sums.antt =====
-- SIMDSSE.cpp: the operations that carry a value from one place to the next.
pub mod Split
pub mod Within
use sfizz.Base.{
  ℕ, ◌+◌, ◌*◌, ◌^◌, Bool, true, false, not, ◌||◌, List, [], ◌∷◌, ◌++◌, Option, none, some, ltb,
  if◌then◌else◌, length, drop, map,
}
use Prim.Native.Nat.{min}
use mathlib.Core.Option
use sfizz.Base.Int.{ℤ, pos, ◌-ℤ◌}
use sfizz.Float.{FloatOps, of_nat}
use sfizz.Simd.{Interpolation}
use sfizz.Sse.{Four, Intrinsics, prev_aligned, Stride, run}
use sfizz.Sse.Spans.{each, rows2, written, firsts}

module _ {F : Type 0} where
  -- The three spans of a cast, with the rows that were written.
  abbrev pub interpolation : List (ℤ × F × F) → Interpolation F → Interpolation F
  interpolation rows (indices, left, right) = (
    map (λ (r : ℤ × F × F). r.0) rows ++ drop (length rows) indices,
    map (λ (r : ℤ × F × F). r.1) rows ++ drop (length rows) left,
    map (λ (r : ℤ × F × F). r.2) rows ++ drop (length rows) right,
  )

  -- As many of the jumps as all spans have places.
  unfoldable pub within_spans : List F → Interpolation F → List F
  within_spans (x ∷ jumps) (n ∷ indices, l ∷ left, r ∷ right) =
      x ∷ within_spans jumps (indices, left, right)
  within_spans jumps spans = []

module _ {F : Type 0} ⦃o : FloatOps F⦄ ⦃i : Intrinsics F⦄ where
  abbrev nought : F
  nought = of_nat 0

  abbrev zeros : Four F
  zeros = (nought, nought, nought, nought)

  abbrev pub ramped : Option (F × List F) → Option (List F × F)
  ramped none = none
  ramped (some (value, out)) = some (out, value)

  -- A ramp returns its span and its last value. `_MM_SHUFFLE(3, 3, 3, 3)` is 255.
  abbrev ramp :
      (F → F → F) → (Four F → Four F → Four F) → Four F → ℕ → List F → F → F → Option (List F × F)
  ramp one four steps at out value step =
      let last = prev_aligned (at + 4 * length out) in
      ramped (
        run (λ v (x : F). (one v step, one v step)) i.set1
          (λ v (rs : Four F). let v' = four v steps in (i.shuffle v' v' 255, v')) (λ v. v.0)
          Stride.single at [] last value out)

  unfoldable pub linear_ramp : ℕ → List F → F → F → Option (List F × F)
  unfolding run
  linear_ramp at out value step =
      let twice = o.add step step in
      let thrice = o.add twice step in
      ramp o.add i.add (step, twice, thrice, o.add thrice step) at out value step

  unfoldable pub multiplicative_ramp : ℕ → List F → F → F → Option (List F × F)
  unfolding run
  multiplicative_ramp at out value step =
      let square = o.mul step step in
      let cube = o.mul square step in
      ramp o.mul i.mul (step, square, cube, o.mul cube step) at out value step

  -- The scalar loops add to the result, and the loop on registers to four sums.
  abbrev total : (F → F) → (Four F → Four F) → ℕ → List F → Option F
  total one four at values =
      let last = prev_aligned (at + 4 * length values) in
      elim (run (λ result x. (o.add result (one x), tt {0})) (λ result. (result, zeros))
        (λ (v : F × Four F) rs. ((v.0, i.add v.1 (four rs)), (tt {0}, tt {0}, tt {0}, tt {0})))
        (λ v. o.add (o.add (o.add (o.add v.0 v.1.0) v.1.1) v.1.2) v.1.3) Stride.single at [] last
        nought values) [
          | none ↦ none
          | some (result, out) ↦ some (o.div result (of_nat (length values)))
        ]

  unfoldable pub mean : ℕ → List F → Option F
  unfolding run
  mean at [] = some nought
  mean at (x ∷ values) = total (λ y. y) (λ rs. rs) at (x ∷ values)

  unfoldable pub mean_squared : ℕ → List F → Option F
  unfolding run
  mean_squared at [] = some nought
  mean_squared at (x ∷ values) = total (λ y. o.mul y y) (λ rs. i.mul rs rs) at (x ∷ values)

  -- The running sums of a register: each lane gets those before it.
  abbrev pub sums : Four F → Four F
  sums rs = let offset = i.add rs (i.shift_left rs) in i.add offset (i.shuffle zeros offset 64)

  unfoldable pub cumsum : ℕ → List F → ℕ → List F → Option (List F)
  unfolding run written rows2
  cumsum in_at [] out_at out = some out
  cumsum in_at (x ∷ input) out_at [] = none
  cumsum in_at (x ∷ input) out_at (y ∷ out) =
      let last = prev_aligned (in_at + 4 * min (length (x ∷ input)) (length (y ∷ out))) in
      Option.map (λ done. x ∷ done)
        (written out (
          run (λ previous (r : F × F). (o.add previous r.0, o.add previous r.0)) i.set1
            (λ v rs. let v' = i.add v (sums (firsts rs)) in (i.shuffle v' v' 255, v')) (λ v. v.0)
            Stride.single (in_at + 4) ((out_at + 4) ∷ []) last x (rows2 input out)))

  unfoldable pub diff : ℕ → List F → ℕ → List F → Option (List F)
  unfolding run written rows2
  diff in_at [] out_at out = some out
  diff in_at (x ∷ input) out_at [] = none
  diff in_at (x ∷ input) out_at (y ∷ out) =
      let last = prev_aligned (in_at + 4 * min (length (x ∷ input)) (length (y ∷ out))) in
      Option.map (λ done. x ∷ done)
        (written out (
          run (λ previous (r : F × F). (r.0, o.sub r.0 previous)) i.set1
            (λ base rs.
              let values = firsts rs in
              let moved = i.sub values base in
              (i.shuffle values values 255, i.sub moved (i.shift_left moved)))
            (λ v. v.0) Stride.single (in_at + 4) ((out_at + 4) ∷ []) last x (rows2 input out)))

  -- `0.4999999552965164184570312f`.
  pub almost_half : F
  almost_half = o.lit (pos 4999999552965164184570312) (10 ^ 25)

  -- What the loops on registers write for four positions.
  abbrev pub split : Four F → Four (ℤ × F × F)
  split at =
      let indices = i.to_ints (i.sub at (i.set1 almost_half)) in
      let right = i.sub at (i.of_ints indices) in
      let left = i.sub (i.set1 (of_nat 1)) right in
      (
        (indices.0, left.0, right.0),
        (indices.1, left.1, right.1),
        (indices.2, left.2, right.2),
        (indices.3, left.3, right.3),
      )

  abbrev pub split_one : F → ℤ × F × F
  split_one x =
      let fraction = o.sub x (o.of_int (o.to_int x)) in
      (o.to_int x, o.sub (of_nat 1) fraction, fraction)

  unfoldable pub cast_rows : ℕ → List ℕ → List F → Interpolation F → Option (Interpolation F)
  unfolding run almost_half
  cast_rows jump_at others rows spans =
      elim (each {S = ℤ × F × F} split_one split Stride.single jump_at others
        (prev_aligned (jump_at + 4 * length rows)) rows) [
          | none ↦ none
          | some (c, done) ↦ some (interpolation done spans)
        ]

  unfoldable pub sfz_interpolation_cast :
      ℕ → List F → ℕ → ℕ → ℕ → Interpolation F → Option (Interpolation F)
  unfolding cast_rows within_spans
  sfz_interpolation_cast jump_at jumps index_at left_at right_at spans =
      cast_rows jump_at (index_at ∷ left_at ∷ right_at ∷ []) (within_spans jumps spans) spans

  abbrev ge : F → F → Bool
  ge a b = o.lt b a || o.eq a b

  abbrev looping_one : F → F → F → F → F × (ℤ × F × F)
  looping_one loop_end loop_start at x =
      let next = o.add at x in
      let position = if ge next loop_end then o.sub next (o.sub loop_end loop_start) else next in
      (position, split_one position)

  -- A position past the end is moved back by the length of the loop.
  unfoldable pub looping_sfz_index :
      ℕ → List F → ℕ → ℕ → ℕ → Interpolation F → F → F → F → Option (Interpolation F × F)
  unfolding run within_spans almost_half
  looping_sfz_index jump_at jumps left_at right_at index_at spans at loop_end loop_start =
      let rows = within_spans jumps spans in
      let last = prev_aligned (jump_at + 4 * length rows) in
      elim (run {S = ℤ × F × F} (looping_one loop_end loop_start) i.set1
        (λ v rs.
          let moved = i.add v (sums rs) in
          let past = i.compare_ge moved (i.set1 loop_end) in
          let back = i.sub moved (i.set1 (o.sub loop_end loop_start)) in
          let position = i.add (i.and_not past moved) (i.and past back) in
          (i.shuffle position position 255, split position))
        (λ v. v.0) Stride.single jump_at (index_at ∷ left_at ∷ right_at ∷ []) last at rows) [
          | none ↦ none
          | some (at', done) ↦ some (interpolation done spans, at')
        ]

  abbrev saturating_one : F → F → F → F × (ℤ × F × F)
  saturating_one loop_end at x =
      let next = o.add at x in
      if ge next loop_end
      then (loop_end, (o.to_int loop_end -ℤ pos 1, nought, of_nat 1))
      else (next, split_one next)

  -- `0.000001f`.
  pub tiny : F
  tiny = o.lit (pos 1) (10 ^ 6)

  -- A position past the end is put shortly before it.
  unfoldable pub saturating_sfz_index :
      ℕ → List F → ℕ → ℕ → ℕ → Interpolation F → F → F → Option (Interpolation F × F)
  unfolding run within_spans almost_half tiny
  saturating_sfz_index jump_at jumps left_at right_at index_at spans at loop_end =
      let rows = within_spans jumps spans in
      let last = prev_aligned (jump_at + 4 * length rows) in
      elim (run {S = ℤ × F × F} (saturating_one loop_end) i.set1
        (λ v rs.
          let moved = i.add v (sums rs) in
          let before = i.compare_lt moved (i.set1 loop_end) in
          let saturated = i.sub (i.set1 loop_end) (i.set1 tiny) in
          let position = i.add (i.and before moved) (i.and_not before saturated) in
          (i.shuffle position position 255, split position))
        (λ v. v.0) Stride.single jump_at (index_at ∷ left_at ∷ right_at ∷ []) last at rows) [
          | none ↦ none
          | some (at', done) ↦ some (interpolation done spans, at')
        ]
