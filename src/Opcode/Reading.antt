-- ===== src/Opcode/Reading.antt =====
-- Opcode.h and Opcode.cpp: how names are split and how values are bounded.
use sfizz.Base.{
  ℕ, suc, ◌-◌, ◌^◌, ◌<◌, ◌≤◌, ◌≡◌, refl, ap, true, false, List, [], ◌∷◌, ◌++◌, none, some, arith,
  length, take, drop, All,
}
use sfizz.Base.Int.{ℤ, pos, pos_part}
use sfizz.Float.{FloatOps}
use sfizz.Range.{Range, nat_order, clamp, contains_with_end}
use sfizz.Range.Bounds.{ℕ-IsWeakOrder, contains_with_end-clamp}
use sfizz.StringView.{is_digit, find_last, trim}
use sfizz.NoteName.{read_note_value}
use sfizz.Opcode.{
  Numbers, Opcode, narrow8, is_letter, split_parameter, make, read_int64, saturate, read_unsigned,
  note_or, value_unsigned,
}

find_last-none :
    (digits : List ℕ) → All (λ c. is_digit c ≡ true) digits → find_last is_letter digits ≡ none
unfolding find_last
find_last-none [] a = refl
find_last-none (d ∷ digits) a = rw (find_last-none digits a.1, a.0)

find_last-append :
    (stem digits : List ℕ) (c : ℕ)
    → is_digit c ≡ false
    → All (λ d. is_digit d ≡ true) digits
    → find_last is_letter (stem ++ (c ∷ digits)) ≡ some (length stem)
unfolding find_last
find_last-append [] digits c h a = rw (find_last-none digits a, h)
find_last-append (s ∷ stem) digits c h a = rw (find_last-append stem digits c h a)

drop-append :
    (stem digits : List ℕ) (c : ℕ) → drop (suc (length stem)) (stem ++ (c ∷ digits)) ≡ digits
drop-append [] digits c = refl
drop-append (s ∷ stem) digits c = drop-append stem digits c

take-append :
    (stem digits : List ℕ) (c : ℕ)
    → take (suc (length stem)) (stem ++ (c ∷ digits)) ≡ stem ++ c ∷ []
take-append [] digits c = refl
take-append (s ∷ stem) digits c = ap (◌∷◌ s) (take-append stem digits c)

module _ {F : Type 0} (numbers : Numbers F) where
  open numbers use {simple_atoi32, simple_atoi64, simple_atof}

  -- A name that ends in digits, which read as the number n, is split into what stands before the
  -- digits and the parameter n modulo 256. The test of the parameter against 127 comes later, so a
  -- controller number from 256 on is taken for another one.
  pub make_parameter :
      (stem digits value : List ℕ) (c : ℕ) (n : ℤ)
      → is_digit c ≡ false
      → All (λ d. is_digit d ≡ true) digits
      → simple_atoi32 digits ≡ some n
      → make numbers (stem ++ (c ∷ digits)) value ≡ record {
        opcode = trim (stem ++ c ∷ []);
        value = trim value;
        parameter = some (narrow8 n);
      }
  unfolding make
  make_parameter stem digits value c n h a e =
      rw (find_last-append stem digits c h a, make, drop-append stem digits c, e, split_parameter)
        (rw (take-append stem digits c))

  module _ ⦃o : FloatOps F⦄ where
    -- An integer that is read is clamped to the range as a whole number, a negative one like 0. The
    -- limits of the type do not show, as long as the range lies within them.
    pub read_unsigned_lem :
        (bits : ℕ) (value : List ℕ) (r : Range ℕ) (z : ℤ)
        → r.start ≤ r.end
        → r.end < 2 ^ bits
        → simple_atoi64 value ≡ some z
        → read_unsigned numbers bits value r ≡ some (clamp r (pos_part z))
    unfolding read_unsigned clamp
    read_unsigned_lem bits value r z h b e = ground arith

    -- A value that is not a number, but names a note, is that note: no range bounds it.
    pub value_unsigned-note :
        (bits : ℕ) (op : Opcode) (r : Range ℕ) (n : ℕ)
        → simple_atoi64 op.value ≡ none
        → simple_atof op.value ≡ none
        → read_note_value op.value ≡ some n
        → value_unsigned numbers bits op r ≡ some n
    unfolding value_unsigned read_unsigned
    value_unsigned-note bits op r n i f e = ground arith

    -- A value that reads as a number is put within the range, if the bounds of this are in order.
    pub value_unsigned-range :
        (bits : ℕ) (op : Opcode) (r : Range ℕ) (z : ℤ)
        → r.start ≤ r.end
        → read_int64 numbers op.value ≡ some z
        → (n : ℕ) × (value_unsigned numbers bits op r ≡ some n) × (contains_with_end r n ≡ true)
    unfolding value_unsigned read_unsigned note_or
    value_unsigned-range bits op r z h e =
        let k = pos_part (saturate (pos 0) (pos (2 ^ bits - 1)) z) in
        (
          clamp r k,
          rw (e, value_unsigned, read_unsigned),
          (contains_with_end-clamp ℕ-IsWeakOrder r k (ground arith)).0,
        )
