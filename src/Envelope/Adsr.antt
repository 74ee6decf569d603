-- ===== src/Envelope/Adsr.antt =====
-- sfizz/ADSREnvelope.h and sfizz/ADSREnvelope.cpp: delay, attack, hold, decay, sustain, release.
-- The durations are `int` counts of samples, the `config` constant and the clamp bounds literals.
pub mod Block
pub mod Timeline
pub mod Ending
use sfizz.Base.{
  ℕ, ◌==◌, ◌+◌, Bool, true, false, ◌&&◌, not, List, [], ◌∷◌, ◌++◌, if◌then◌else◌, length, take,
  drop,
}
use sfizz.Base.Int.{ℤ, pos, ◌-ℤ◌, ltb_ℤ, eqb_ℤ, pos_part}
use sfizz.Float.{FloatOps, of_nat}
use sfizz.Range.{float_order, clamp_to}
use sfizz.Simd.{fill, linear_ramp, multiplicative_ramp}

pub data State : Type 0 where
  delay attack hold decay sustain release done : State

pub record Adsr (F : Type 0) : Type 0 where
  pub state : State
  pub current_value : F
  pub step : F
  pub delay : ℤ
  pub attack : ℤ
  pub decay : ℤ
  pub release : ℤ
  pub hold : ℤ
  pub start : F
  pub peak : F
  pub sustain : F
  pub release_delay : ℤ
  pub should_release : Bool

abbrev positive : ℤ → Bool
positive n = ltb_ℤ (pos 0) n

-- n > 0 ? n : 1
abbrev at_least_one : ℤ → ℤ
at_least_one n = if positive n then n else pos 1

abbrev less_one : ℤ → ℤ
less_one n = n -ℤ pos 1

-- `start_release` and the arguments of `reset`, in its order.
pub record Timing (F : Type 0) : Type 0 where
  pub attack : ℤ
  pub release : ℤ
  pub sustain : F
  pub delay : ℤ
  pub decay : ℤ
  pub hold : ℤ
  pub start : F
  pub depth : F

module _ {F : Type 0} where
  unfoldable pub start_release : Adsr F → ℕ → Adsr F
  start_release e release_delay = record e {
    should_release = true;
    release_delay = pos release_delay;
  }

  unfoldable pub is_smoothing : Adsr F → Bool
  is_smoothing e = elim e.state [ State.done ↦ false | _ ↦ true ]

module _ {F : Type 0} ⦃o : FloatOps F⦄ where
  open o use {add, sub, mul, div, of_int, lit, exp, log}

  abbrev nought : F
  nought = of_nat 0

  abbrev one : F
  one = of_nat 1

  -- 0.00005
  abbrev virtually_zero : F
  virtually_zero = lit (pos 5) 100000

  unfoldable pub reset : Timing F → Adsr F
  reset t = record {
    state = State.delay;
    current_value = mul t.depth (clamp_to ⦃o = float_order o⦄ t.start nought one);
    step = nought;
    delay = t.delay;
    attack = t.attack;
    decay = t.decay;
    release = t.release;
    hold = t.hold;
    start = mul t.depth (clamp_to ⦃o = float_order o⦄ t.start nought one);
    peak = t.depth;
    sustain = mul t.depth (clamp_to ⦃o = float_order o⦄ t.sustain nought one);
    release_delay = pos 0;
    should_release = false;
  }

  -- The factor that takes a value to nearly nothing in the time of the release.
  release_step : Adsr F → F → F
  release_step e value =
      exp (div (sub (log virtually_zero) (log value)) (of_int (at_least_one e.release)))

  decay_step : Adsr F → F
  decay_step e = exp (div (log e.sustain) (of_int (at_least_one e.decay)))

  -- `getNextValue`: the cases of the switch, each of which may fall through to the one above it
  -- here. The counters fall also when the test fails.
  next_sustain : Adsr F → F × Adsr F
  next_sustain e = (e.current_value, e)

  next_decay : Adsr F → F × Adsr F
  next_decay e =
      let value = mul e.current_value e.step in
      let e' = record e { decay = less_one e.decay } in
      if positive e.decay
      then (value, record e' { current_value = value })
      else next_sustain (record e' { state = State.sustain; current_value = e.sustain })

  next_hold : Adsr F → F × Adsr F
  next_hold e =
      let e' = record e { hold = less_one e.hold } in
      if positive e.hold
      then (e.current_value, e')
      else next_decay (record e' { step = decay_step e; state = State.decay })

  next_attack : Adsr F → F × Adsr F
  next_attack e =
      let value = add e.current_value e.step in
      let e' = record e { attack = less_one e.attack } in
      if positive e.attack
      then (value, record e' { current_value = value })
      else next_hold (record e' { state = State.hold; current_value = one })

  next_delay : Adsr F → F × Adsr F
  next_delay e =
      let e' = record e { delay = less_one e.delay } in
      if positive e.delay
      then (e.start, e')
      else next_attack (record e' {
        state = State.attack;
        step = div (sub one e.current_value) (of_int (at_least_one e.attack));
      })

  next_release : Adsr F → F × Adsr F
  next_release e =
      let value = mul e.current_value e.step in
      let e' = record e { release = less_one e.release } in
      if positive e.release
      then (value, record e' { current_value = value })
      else (nought, record e' { state = State.done; current_value = nought })

  next_by : State → Adsr F → F × Adsr F
  unfolding next_delay next_attack next_hold next_decay next_sustain next_release decay_step
  next_by State.delay e = next_delay e
  next_by State.attack e = next_attack e
  next_by State.hold e = next_hold e
  next_by State.decay e = next_decay e
  next_by State.sustain e = next_sustain e
  next_by State.release e = next_release e
  next_by State.done e = (nought, e)

  -- `shouldRelease && releaseDelay-- == 0`.
  begin_release : Adsr F → Adsr F
  unfolding release_step
  begin_release e =
      let e' = record e { release_delay = less_one e.release_delay } in
      if e.should_release
      then if eqb_ℤ e.release_delay (pos 0)
        then record e' { state = State.release; step = release_step e e.current_value }
        else e'
      else e

  unfoldable pub get_next_value : Adsr F → F × Adsr F
  unfolding begin_release next_by
  get_next_value e = let e' = begin_release e in next_by e'.state e'
