-- ===== src/Range.antt =====
-- sfizz/Range.h, and `clamp` of sfizz/MathHelpers.h.
pub mod Bounds
use sfizz.Base.{ℕ, ◌+◌, ◌-◌, ◌%◌, Bool, ◌&&◌, ◌||◌, if◌then◌else◌, ltb, leb, ◌==◌}
use sfizz.Base.Int.{ℤ, ltb_ℤ, eqb_ℤ}
use sfizz.Float.{FloatOps}

-- `<`, `<=` and `==` on an arithmetic type of the source.
pub record Order (T : Type 0) : Type 0 where
  pub lt : T → T → Bool
  pub le : T → T → Bool
  pub eq : T → T → Bool

instance abbrev pub nat_order : Order ℕ
nat_order = record { lt = ltb; le = leb; eq = ◌==◌ }

instance abbrev pub int_order : Order ℤ
int_order = record { lt = ltb_ℤ; le = λ a b. ltb_ℤ a b || eqb_ℤ a b; eq = eqb_ℤ }

abbrev pub float_order : {F : Type 0} → FloatOps F → Order F
float_order o = record { lt = o.lt; le = λ a b. o.lt a b || o.eq a b; eq = o.eq }

pub record Range (T : Type 0) : Type 0 where
  pub start : T
  pub end : T

module _ {T : Type 0} ⦃o : Order T⦄ where
  open o use {lt, le, eq}

  -- The constructor `Range(start, end)`.
  unfoldable pub make : T → T → Range T
  make s e = record { start = s; end = if lt s e then e else s }

  unfoldable pub set_start : Range T → T → Range T
  set_start r s = record { start = s; end = if lt r.end s then s else r.end }

  unfoldable pub set_end : Range T → T → Range T
  set_end r e = record { start = if lt e r.start then e else r.start; end = e }

  -- `clamp(v, lo, hi)`.
  unfoldable pub clamp_to : T → T → T → T
  clamp_to v lo hi = if lt v lo then lo else if lt hi v then hi else v

  unfoldable pub clamp : Range T → T → T
  unfolding clamp_to
  clamp r v = clamp_to v r.start r.end

  unfoldable pub contains_with_end : Range T → T → Bool
  contains_with_end r v = le r.start v && le v r.end

  unfoldable pub contains : Range T → T → Bool
  contains r v = le r.start v && lt v r.end

  -- The two tests after the swap.
  shrink : Range T → T → T → Range T
  shrink r s e = record {
    start = if lt r.start s then s else r.start;
    end = if lt e r.end then e else r.end;
  }

  unfoldable pub shrink_if_smaller : Range T → T → T → Range T
  unfolding shrink
  shrink_if_smaller r s e = if lt e s then shrink r e s else shrink r s e

  unfoldable pub same : Range T → Range T → Bool
  same l r = eq l.start r.start && eq l.end r.end

-- `length` of a `Range<uint8_t>`.
unfoldable pub length8 : Range ℕ → ℕ
length8 r = (r.end + 256 - r.start) % 256
