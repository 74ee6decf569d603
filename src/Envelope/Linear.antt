-- ===== src/Envelope/Linear.antt =====
-- sfizz/LinearEnvelope.h and sfizz/LinearEnvelope.cpp: values that are reached in straight lines.
-- `absl::c_sort` orders events of one time stamp in a way of its own, so the sort is a parameter.
-- Time stamps are positions in a block, and not negative.
pub mod Blocks
use sfizz.Base.{ℕ, ◌+◌, ◌-◌, List, [], ◌∷◌, ◌++◌, ltb, ◌==◌, if◌then◌else◌, length, take, drop}
use Prim.Native.Nat.{min}
use sfizz.Float.{FloatOps, of_nat}
use sfizz.Simd.{fill, linear_ramp}

pub record LinearEnvelope (F : Type 0) : Type 0 where
  pub function : F → F
  pub events : List (ℕ × F)
  pub max_capacity : ℕ
  pub current_value : F

-- What the sort is called with, and what it returns.
abbrev pub Sort : Type 0 → Type 0
Sort F = List (ℕ × F) → List (ℕ × F)

module _ {F : Type 0} where
  unfoldable pub register_event : LinearEnvelope F → ℕ → F → LinearEnvelope F
  register_event e timestamp value =
      if ltb (length e.events) e.max_capacity
      then record e { events = e.events ++ ((timestamp, e.function value) ∷ []) }
      else e

  unfoldable pub clear : LinearEnvelope F → LinearEnvelope F
  clear e = record e { events = [] }

  unfoldable pub reset : LinearEnvelope F → F → LinearEnvelope F
  unfolding clear
  reset e value = record (clear e) { current_value = e.function value }

  -- `setFunction` and `setMaxCapacity`.
  unfoldable pub set_function : LinearEnvelope F → (F → F) → LinearEnvelope F
  set_function e function = record e { function = function }

  unfoldable pub set_max_capacity : LinearEnvelope F → ℕ → LinearEnvelope F
  set_max_capacity e n = record e { max_capacity = n }

module _ {F : Type 0} ⦃o : FloatOps F⦄ where
  open o use {sub, div}

  -- One event: `done` is what is written, of length `index`, and `rest` what is to be written.
  unfoldable pub ramp_to : List F → List F → F → ℕ × F → List F × List F × F
  ramp_to done rest value (timestamp, target) =
      let n = min timestamp (length done + length rest) - length done in
      let (ramp, last) = linear_ramp (take n rest) value (div (sub target value) (of_nat n)) in
      if n == 0 then (done, rest, target) else (done ++ ramp, drop n rest, last)

  pub ramp_all : List F → List F → F → List (ℕ × F) → List F × F
  unfolding ramp_to
  ramp_all done rest value [] = (done ++ fill rest value, value)
  ramp_all done rest value (event ∷ events) =
      let (done', rest', value') = ramp_to done rest value event in
      ramp_all done' rest' value' events

  unfoldable pub get_block : Sort F → LinearEnvelope F → List F → List F × LinearEnvelope F
  unfolding ramp_all clear
  get_block sort e output =
      let (output', value) = ramp_all [] output e.current_value (sort e.events) in
      (output', record (clear e) { current_value = value })
