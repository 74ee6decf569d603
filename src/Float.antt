-- ===== src/Float.antt =====
-- The operations that the code applies to `float` and `double`, as an interface. The two widths
-- share one carrier. No law of rounded arithmetic is assumed here: a result that needs one takes
-- it as a hypothesis.
use sfizz.Base.{ℕ, Bool, if◌then◌else◌}
use sfizz.Base.Int.{ℤ, pos, ◌+ℤ◌, ◌-ℤ◌, ◌*ℤ◌, ◌/ℤ◌, ltb_ℤ, eqb_ℤ}

pub record FloatOps (F : Type 0) : Type 0 where
  pub add : F → F → F
  pub sub : F → F → F
  pub mul : F → F → F
  pub div : F → F → F
  -- `<` and `==`: both are false if an operand is NaN.
  pub lt : F → F → Bool
  pub eq : F → F → Bool
  -- `static_cast<float>` of an integer, and `static_cast<int>` of a float.
  pub of_int : ℤ → F
  pub to_int : F → ℤ
  -- The decimal literal n / d.
  pub lit : ℤ → ℕ → F
  -- The functions of <cmath> in use.
  pub exp : F → F
  pub log : F → F
  pub pow : F → F → F
  pub sqrt : F → F
  pub sin : F → F
  pub cos : F → F
  pub abs : F → F

module _ {F : Type 0} ⦃o : FloatOps F⦄ where
  open o use {lt, of_int}

  abbrev pub of_nat : ℕ → F
  of_nat n = of_int (pos n)

  -- `std::max` and `std::min`, which return the first of two equal operands.
  abbrev pub fmax : F → F → F
  fmax a b = if lt a b then b else a

  abbrev pub fmin : F → F → F
  fmin a b = if lt b a then b else a

-- Whole numbers under the same interface, with which the model runs.
instance abbrev pub whole : FloatOps ℤ
whole = record {
  add = ◌+ℤ◌;
  sub = ◌-ℤ◌;
  mul = ◌*ℤ◌;
  div = ◌/ℤ◌;
  lt = ltb_ℤ;
  eq = eqb_ℤ;
  of_int = λ n. n;
  to_int = λ x. x;
  lit = λ n d. n /ℤ pos d;
  exp = λ x. x;
  log = λ x. x;
  pow = λ x y. x;
  sqrt = λ x. x;
  sin = λ x. x;
  cos = λ x. x;
  abs = λ x. if ltb_ℤ x (pos 0) then pos 0 -ℤ x else x;
}
