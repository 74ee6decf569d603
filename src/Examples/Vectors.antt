-- ===== src/Examples/Vectors.antt =====
-- Registers of whole numbers, spans at several addresses, and a heap.
use sfizz.Base.{
  length, ℕ, ◌*◌, ◌%◌, ◌/◌, ◌≡◌, refl, true, false, Bool, not, if◌then◌else◌, List, [], ◌∷◌, none,
  some, arith, replicate,
}
use sfizz.Base.Int.{ℤ, pos, ◌+ℤ◌, ◌-ℤ◌, ◌*ℤ◌, int_laws, ltb_ℤ}
use sfizz.Float.{whole}
use sfizz.Simd
use sfizz.Sse.{Intrinsics, lane, lanewise, unaligned}
use sfizz.Sse.Spans
use sfizz.Sse.Spans.Exact.{vector-scalar}
use sfizz.Sse.Spans.Interleaved.{read-write}
use sfizz.Sse.Spans.Faults.{cos-exp, pan-channels}
use sfizz.Sse.Sums
use sfizz.Sse.Sums.Within.{Returns, IsAsLong, operations-Returns}
use sfizz.Sse.Sums.Split.{CastIsSplit, sfz_interpolation_cast-CastIsSplit}
use sfizz.Buffer.{Heap, Allocator, Buffer, empty, destroy, resize, placed, padded_bytes, set_live}
use sfizz.Buffer.Life.{resize-zero, IsPlaced, resize-IsPlaced}

instance abbrev by_lanes : Intrinsics ℤ
by_lanes = record {
  set1 = λ a. (a, a, a, a);
  add = lanewise ◌+ℤ◌;
  sub = lanewise ◌-ℤ◌;
  mul = lanewise ◌*ℤ◌;
  shuffle = λ v w mask.
      (lane v (mask % 4), lane v (mask / 4 % 4), lane w (mask / 16 % 4), lane w (mask / 64 % 4));
  unpack_low = λ v w. (v.0, w.0, v.1, w.1);
  unpack_high = λ v w. (v.2, w.2, v.3, w.3);
  shift_left = λ v. (pos 0, v.0, v.1, v.2);
  compare_ge = lanewise (λ x y. not (ltb_ℤ x y));
  compare_lt = lanewise ltb_ℤ;
  and = λ mask v. lanewise (λ (b : Bool) (x : ℤ). if b then x else pos 0) mask v;
  and_not = λ mask v. lanewise (λ (b : Bool) (x : ℤ). if b then pos 0 else x) mask v;
  nearest = λ x. x;
  to_ints = λ v. v;
  of_ints = λ v. v;
  set1_lem = λ a. refl;
  add_lem = λ v w. refl;
  sub_lem = λ v w. refl;
  mul_lem = λ v w. refl;
  shuffle_lem = λ v w mask. refl;
  unpack_low_lem = λ v w. refl;
  unpack_high_lem = λ v w. refl;
  shift_left_lem = λ v. refl;
  to_ints_lem = λ v. refl;
  of_ints_lem = λ n. refl;
}

plus_comm : (x y : ℤ) → x +ℤ y ≡ y +ℤ x
plus_comm x y = omega int_laws

plus_assoc : (x y z : ℤ) → (x +ℤ y) +ℤ z ≡ x +ℤ (y +ℤ z)
plus_assoc x y z = omega int_laws

plus_zero : (x : ℤ) → x +ℤ pos 0 ≡ x
plus_zero x = omega int_laws

abbrev six : List ℤ
six = pos 1 ∷ pos 2 ∷ pos 3 ∷ pos 4 ∷ pos 5 ∷ pos 6 ∷ []

abbrev silence : List ℤ
silence = replicate 6 (pos 0)

vector-scalar_example :
    (Spans.add_span 1028 six 2052 silence ≡ some (Simd.add_span six silence))
    × (Spans.subtract_span 1028 six 2052 silence ≡ some (Simd.subtract_span six silence))
    × (Spans.add_value (pos 2) 2052 silence ≡ some (Simd.add_value (pos 2) silence))
    × (Spans.subtract_value (pos 2) 2052 silence ≡ some (Simd.subtract_value (pos 2) silence))
    × (Spans.copy 1028 six 2052 silence ≡ some (Simd.copy six silence))
    × (Spans.fill 2052 silence (pos 2) ≡ some (Simd.fill silence (pos 2)))
    × (Spans.apply_gain (pos 2) 1028 six 2052 silence ≡ some (Simd.apply_gain (pos 2) six silence))
    × (Spans.apply_gain_span 4 six 1028 six 2052 silence
        ≡ some (Simd.apply_gain_span six six silence))
    × (Spans.multiply_add 4 six 1028 six 2052 silence ≡ some (Simd.multiply_add six six silence))
vector-scalar_example = vector-scalar plus_comm (pos 2) 4 1028 2052 six six silence (omega arith)

read-write_example :
    elim (Spans.write_interleaved 64 six 128 silence 256 (replicate 12 (pos 9))) [
      | none ↦ none
      | some written ↦ Spans.read_interleaved 256 written 512 six 1024 six
    ]
    ≡ some (six, silence)
read-write_example =
    read-write 64 128 256 512 1024 six silence (replicate 12 (pos 9)) six six (omega arith) refl
      refl refl refl

operations-Returns_example :
    Returns (λ p. length p.0 ≡ 6) (Sums.linear_ramp 36 silence (pos 1) (pos 2))
    × Returns (λ p. length p.0 ≡ 6) (Sums.multiplicative_ramp 36 silence (pos 1) (pos 2))
    × Returns (λ m. Unit {0}) (Sums.mean 36 six)
    × Returns (λ m. Unit {0}) (Sums.mean_squared 36 six)
    × Returns (λ done. length done ≡ 6) (Sums.cumsum 36 six 68 silence)
    × Returns (λ done. length done ≡ 6) (Sums.diff 36 six 68 silence)
    × Returns
        (λ p. IsAsLong (six, silence, silence) p.0)
        (Sums.looping_sfz_index 36 six 132 260 68 (six, silence, silence) (pos 1) (pos 9) (pos 3))
    × Returns
        (λ p. IsAsLong (six, silence, silence) p.0)
        (Sums.saturating_sfz_index 36 six 132 260 68 (six, silence, silence) (pos 1) (pos 9))
operations-Returns_example =
    operations-Returns 36 132 260 68 six silence (six, silence, silence) (pos 1) (pos 2) (pos 9)
      (pos 3) (omega arith)

sfz_interpolation_cast-CastIsSplit_example :
    CastIsSplit six (Sums.sfz_interpolation_cast 32 six 64 128 256 (six, silence, silence))
sfz_interpolation_cast-CastIsSplit_example =
    sfz_interpolation_cast-CastIsSplit 32 64 128 256 six six silence silence (omega arith)
      (omega arith) (omega arith)

cos-exp_example :
    (Spans.cos (λ v. v) 32 six 68 silence ≡ some (Simd.exp six silence))
    × (Spans.sin (λ v. v) 32 six 68 silence ≡ some (Simd.exp six silence))
    × (Spans.log (λ v. v) 32 six 68 silence ≡ some (Simd.exp six silence))
cos-exp_example =
    cos-exp (λ v. v) (λ v. v) (λ v. v) 32 68 six silence (λ e. absurd (omega (arith, e)))

abbrev quarter : List ℤ
quarter = pos 1 ∷ pos 2 ∷ pos 3 ∷ pos 4 ∷ []

pan-channels_example :
    Spans.pan (λ v. (v, v)) 32 quarter 64 quarter 128 quarter
    ≡ Spans.pan (λ v. (v, v)) 32 (replicate 4 (pos 0)) 64 quarter 128 quarter
unfolding unaligned
pan-channels_example =
    pan-channels (λ v. (v, v)) 32 64 128 quarter (replicate 4 (pos 0)) quarter quarter refl refl
      refl refl refl

-- One block is to be had, at the address 100.
abbrev single_block : Allocator
single_block heap size = if heap 100 then none else some 100

abbrev bare : Heap
bare q = false

resize-IsPlaced_example :
    (block : ℕ) × (start : ℕ) × (end : ℕ) × (aligned : ℕ) × IsPlaced
      (placed 3 100)
      block
      start
      end
      aligned
    × ((placed 3 100).aligned_size ≡ 3)
    × (padded_bytes 3 ≡ 4 * (placed 3 100).larger_size)
unfolding resize empty
resize-IsPlaced_example =
    resize-IsPlaced single_block bare (set_live bare 100 true) empty (placed 3 100) 2 (omega arith)
      refl

abbrev gone : Buffer
gone = record {
  larger_size = 0;
  aligned_size = 0;
  normal_data = none;
  padded_data = some 100;
  normal_end = none;
  aligned_end = none;
}

resize-zero_example :
    (destroy (set_live (set_live bare 100 true) 100 false) gone ≡ none)
    × (resize single_block (set_live (set_live bare 100 true) 100 false) gone 7 ≡ none)
unfolding resize placed
resize-zero_example =
    resize-zero single_block (set_live bare 100 true) (set_live (set_live bare 100 true) 100 false)
      (placed 3 100) gone 100 7 refl refl
