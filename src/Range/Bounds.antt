-- ===== src/Range/Bounds.antt =====
-- Range.h: what the bounds of a range promise, for any type whose values are ordered (no NaN).
use sfizz.Base.{ℕ, ◌≡◌, true, false, not, ◌&&◌, if◌then◌else◌, arith}
use sfizz.Base.Int.{ℤ}
use sfizz.Range.{
  Order, nat_order, int_order, Range, make, set_start, set_end, clamp, contains_with_end,
  shrink_if_smaller,
}

-- A strict weak order in which `<=` is the negation of `>`. It allows two zeros, and excludes NaN.
pub record IsWeakOrder (T : Type 0) ⦃o : Order T⦄ : Type 0 where
  pub le-eq-not-lt : (x y : T) → o.le x y ≡ not (o.lt y x)
  pub asym : (x y : T) → o.lt x y ≡ true → o.lt y x ≡ false
  pub negative_trans : (x y z : T) → o.lt x y ≡ false → o.lt y z ≡ false → o.lt x z ≡ false

pub ℕ-IsWeakOrder : IsWeakOrder ℕ
ℕ-IsWeakOrder = record {
  le-eq-not-lt = λ x y. ground arith;
  asym = λ x y h. ground arith;
  negative_trans = λ x y z h k. ground arith;
}

pub ℤ-IsWeakOrder : IsWeakOrder ℤ
ℤ-IsWeakOrder = record {
  le-eq-not-lt = λ x y. ground arith;
  asym = λ x y h. ground arith;
  negative_trans = λ x y z h k. ground arith;
}

module _ {T : Type 0} ⦃o : Order T⦄ (laws : IsWeakOrder T) where
  open o use {lt, le}
  open laws use {le-eq-not-lt, asym, negative_trans}

  -- The bounds stand in order.
  abbrev pub IsValid : Range T → Type 0
  IsValid r = lt r.end r.start ≡ false

  lt_irrefl : (x : T) → lt x x ≡ false
  lt_irrefl x = ground (arith, asym x x)

  -- On a strict weak order, the constructor and both setters leave the bounds in order, whatever stood there before, and
  -- store the bound that they are given.
  pub make-set-IsValid :
      (r : Range T) (s e : T)
      → IsValid (make s e)
        × IsValid (set_start r s)
        × IsValid (set_end r e)
        × ((make s e).start ≡ s)
        × ((set_start r s).start ≡ s)
        × ((set_end r e).end ≡ e)
  unfolding make set_start set_end
  make-set-IsValid r s e =
      ground (arith, asym s e, asym r.end s, asym e r.start, lt_irrefl s, lt_irrefl e)

  -- On a strict weak order, `clamp` on a range whose bounds are in order gives a value of the range, leaves a value of the
  -- range alone, and otherwise gives the nearest bound.
  pub contains_with_end-clamp :
      (r : Range T) (v : T)
      → IsValid r
      → (contains_with_end r (clamp r v) ≡ true)
        × (clamp r v
            ≡ (if contains_with_end r v then v else if lt v r.start then r.start else r.end))
  unfolding clamp contains_with_end
  contains_with_end-clamp r v h = ground (
    arith,
    le-eq-not-lt r.start v,
    le-eq-not-lt v r.end,
    le-eq-not-lt r.start r.start,
    le-eq-not-lt r.start r.end,
    le-eq-not-lt r.end r.end,
    lt_irrefl r.start,
    lt_irrefl r.end,
  )

  -- On a strict weak order, `shrinkIfSmaller` intersects: the result holds the values of the range that also lie between
  -- the two given bounds, in whichever order these come.
  pub contains_with_end-shrink_if_smaller :
      (r : Range T) (s e v : T)
      → contains_with_end (shrink_if_smaller r s e) v
        ≡ (contains_with_end r v && contains_with_end (if lt e s then make e s else make s e) v)
  unfolding shrink_if_smaller contains_with_end make
  contains_with_end-shrink_if_smaller r s e v = ground (
    arith,
    le-eq-not-lt r.start v,
    le-eq-not-lt v r.end,
    le-eq-not-lt s v,
    le-eq-not-lt v s,
    le-eq-not-lt e v,
    le-eq-not-lt v e,
    asym s e,
    asym r.start s,
    asym r.start e,
    asym e r.end,
    asym s r.end,
    negative_trans v s r.start,
    negative_trans v r.start s,
    negative_trans v e r.start,
    negative_trans v r.start e,
    negative_trans r.end e v,
    negative_trans e r.end v,
    negative_trans r.end s v,
    negative_trans s r.end v,
    negative_trans s e v,
    negative_trans v e s,
    negative_trans e s v,
    negative_trans v s e,
  )
