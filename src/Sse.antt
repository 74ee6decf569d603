-- ===== src/Sse.antt =====
-- sfizz/SIMDSSE.cpp: the intrinsics that it calls, and the loop that its operations share.
pub mod Loop
pub mod Rows
pub mod Spans
pub mod Sums
use sfizz.Base.{
  ℕ, zero, suc, ◌+◌, ◌-◌, ◌*◌, ◌/◌, ◌%◌, ◌≡◌, Bool, true, false, not, ◌&&◌, ◌||◌, List, [], ◌∷◌,
  Option, none, some, ltb, ◌==◌, if◌then◌else◌,
}
use sfizz.Base.Int.{ℤ}
use sfizz.Float.{FloatOps, of_nat}

-- The lanes of a register.
abbrev pub Four : Type 0 → Type 0
Four A = A × A × A × A

abbrev pub lane : {A : Type 0} → Four A → ℕ → A
lane (a, b, c, d) i = if i == 0 then a else if i == 1 then b else if i == 2 then c else d

abbrev pub lanewise : {A B C : Type 0} → (A → B → C) → Four A → Four B → Four C
lanewise f (a, b, c, d) (x, y, z, w) = (f a x, f b y, f c z, f d w)

-- The intrinsics of <xmmintrin.h> in use, with what their documentation says of them. A comparison
-- gives a mask for each lane, and `nearest` is the rounding of `_mm_cvtps_epi32`.
pub record Intrinsics (F : Type 0) ⦃o : FloatOps F⦄ : Type 0 where
  pub set1 : F → Four F
  pub add : Four F → Four F → Four F
  pub sub : Four F → Four F → Four F
  pub mul : Four F → Four F → Four F
  pub shuffle : Four F → Four F → ℕ → Four F
  pub unpack_low : Four F → Four F → Four F
  pub unpack_high : Four F → Four F → Four F
  pub shift_left : Four F → Four F
  pub compare_ge : Four F → Four F → Four Bool
  pub compare_lt : Four F → Four F → Four Bool
  pub and : Four Bool → Four F → Four F
  pub and_not : Four Bool → Four F → Four F
  pub nearest : F → ℤ
  pub to_ints : Four F → Four ℤ
  pub of_ints : Four ℤ → Four F
  pub set1_lem : (a : F) → set1 a ≡ (a, a, a, a)
  pub add_lem : (v w : Four F) → add v w ≡ lanewise o.add v w
  pub sub_lem : (v w : Four F) → sub v w ≡ lanewise o.sub v w
  pub mul_lem : (v w : Four F) → mul v w ≡ lanewise o.mul v w
  pub shuffle_lem :
      (v w : Four F) (mask : ℕ)
      → shuffle v w mask
        ≡ (lane v (mask % 4), lane v (mask / 4 % 4), lane w (mask / 16 % 4), lane w (mask / 64 % 4))
  pub unpack_low_lem : (v w : Four F) → unpack_low v w ≡ (v.0, w.0, v.1, w.1)
  pub unpack_high_lem : (v w : Four F) → unpack_high v w ≡ (v.2, w.2, v.3, w.3)
  pub shift_left_lem : (v : Four F) → shift_left v ≡ (of_nat 0, v.0, v.1, v.2)
  pub to_ints_lem : (v : Four F) → to_ints v ≡ (nearest v.0, nearest v.1, nearest v.2, nearest v.3)
  pub of_ints_lem :
      (n : Four ℤ) → of_ints n ≡ (o.of_int n.0, o.of_int n.1, o.of_int n.2, o.of_int n.3)

-- `ByteAlignment` is 16: four floats of four bytes.
abbrev pub prev_aligned : ℕ → ℕ
prev_aligned at = at - at % 16

-- Some pointer of a list is not aligned.
unfoldable pub unaligned : List ℕ → Bool
unaligned [] = false
unaligned (at ∷ pointers) = not (at % 16 == 0) || unaligned pointers

abbrev pub advance : ℕ → List ℕ → List ℕ
advance n [] = []
advance n (at ∷ pointers) = (at + n) ∷ advance n pointers

-- What the pointer that is tested moves for each row: one float, or the two of an interleaved pair.
pub data Stride : Type 0 where
  single double : Stride

abbrev pub bytes : Stride → ℕ → ℕ
bytes Stride.single n = 4 * n
bytes Stride.double n = 8 * n

-- The scalar loops, row by row, with a value that is carried along.
module _ {C R S : Type 0} (one : C → R → C × S) where
  unfoldable pub scalar : C → List R → C × List S
  scalar c [] = (c, [])
  scalar c (r ∷ rows) = let (c', s) = one c r in let (c'', out) = scalar c' rows in (c'', s ∷ out)

-- The loop of an operation over the rows of its spans. What is carried is a `C` in the scalar loops
-- and a `V` in the one on registers.
module _ {C V R S : Type 0} (one : C → R → C × S) (lift : C → V) (four : V → Four R → V × Four S)
    (lower : V → C) where
  -- `none` is an access behind the end of a span.
  unfoldable pub vectors : Stride → ℕ → ℕ → V → List R → Option (C × List S)
  unfolding scalar
  vectors stride at last v (p ∷ q ∷ r ∷ s ∷ rows) =
      let (v', (p', q', r', s')) = four v (p, q, r, s) in
      let rest = vectors stride (at + bytes stride 4) last v' rows in
      if ltb at last
      then elim rest [ none ↦ none | some (c, out) ↦ some (c, p' ∷ q' ∷ r' ∷ s' ∷ out) ]
      else some (scalar one (lower v) (p ∷ q ∷ r ∷ s ∷ rows))
  vectors stride at last v rows = if ltb at last then none else some (scalar one (lower v) rows)

  -- `at` is the pointer that is tested against `last`; the others move by one float for each row.
  unfoldable pub run : Stride → ℕ → List ℕ → ℕ → C → List R → Option (C × List S)
  unfolding vectors
  run stride at others last c [] = vectors stride at last (lift c) []
  run stride at others last c (r ∷ rows) =
      let (c', s) = one c r in
      let rest = run stride (at + bytes stride 1) (advance 4 others) last c' rows in
      if unaligned (at ∷ others) && ltb at last
      then elim rest [ none ↦ none | some (c'', out) ↦ some (c'', s ∷ out) ]
      else vectors stride at last (lift c) (r ∷ rows)
