-- ===== src/Envelope/Adsr/Block.antt =====
-- ADSREnvelope.cpp: `getBlock`. The rest of a span is overwritten by each stage and cut by what the
-- stage is given of it; the durations are not negative.
pub mod Stages
pub mod Fitting
use Prim.Native.Nat.{min}
use sfizz.Base.{ℕ, ◌==◌, List, [], ◌∷◌, ◌++◌, if◌then◌else◌, length, take, drop}
use sfizz.Base.Int.{ℤ, pos, ◌-ℤ◌, ltb_ℤ, eqb_ℤ, pos_part}
use sfizz.Float.{FloatOps}
use sfizz.Simd.{fill, linear_ramp, multiplicative_ramp}
use sfizz.Envelope.Adsr.{State, Adsr, at_least_one, nought, decay_step, release_step}

-- In `getBlock`: the values written so far, the rest of the span, and the envelope.
abbrev pub Block : Type 0 → Type 0
Block F = List F × List F × Adsr F

module _ {F : Type 0} ⦃o : FloatOps F⦄ where
  open o use {sub, div, of_int}

  -- `min(remainingSamples, n)`, for a count that is not negative: at another the source cuts a span by
  -- a negative size, which is undefined.
  abbrev share : List F → ℤ → ℕ
  share output n = min (length output) (pos_part n)

  -- `output.remove_prefix(length)` behind a stage that has written the span.
  abbrev advance : List F → List F → ℕ → List F × List F
  advance written output n = (written ++ take n output, drop n output)

  -- The stages, each falling through to the one above it here unless the span is used up.
  block_sustain : Block F → Block F
  block_sustain b = b

  block_decay : Block F → Block F
  unfolding block_sustain
  block_decay (written, output, e) =
      let n = share output e.decay in
      let (ramp, last) = multiplicative_ramp output e.current_value e.step in
      let (written', output') = advance written ramp n in
      let e' = record e { current_value = last; decay = e.decay -ℤ pos n } in
      if length output' == 0
      then (written', output', e')
      else block_sustain
          (written', output', record e' { current_value = e.sustain; state = State.sustain })

  block_hold : Block F → Block F
  unfolding block_decay decay_step
  block_hold (written, output, e) =
      let n = share output e.hold in
      let (written', output') = advance written (fill output e.current_value) n in
      let e' = record e { hold = e.hold -ℤ pos n } in
      if length output' == 0
      then (written', output', e')
      else block_decay (written', output', record e' { step = decay_step e; state = State.decay })

  block_attack : Block F → Block F
  unfolding block_hold
  block_attack (written, output, e) =
      let n = share output e.attack in
      let (ramp, last) = linear_ramp output e.current_value e.step in
      let (written', output') = advance written ramp n in
      let e' = record e { current_value = last; attack = e.attack -ℤ pos n } in
      if length output' == 0
      then (written', output', e')
      else block_hold (written', output', record e' { current_value = e.peak; state = State.hold })

  block_delay : Block F → Block F
  unfolding block_attack
  block_delay (written, output, e) =
      let n = share output e.delay in
      let (written', output') = advance written (fill output e.current_value) n in
      let e' = record e { delay = e.delay -ℤ pos n } in
      if length output' == 0
      then (written', output', e')
      else block_attack (
        written',
        output',
        record e' {
          state = State.attack;
          step = div (sub e.peak e.start) (of_int (at_least_one e.attack));
        },
      )

  block_release : Block F → Block F
  block_release (written, output, e) =
      let n = share output e.release in
      let (ramp, last) = multiplicative_ramp output e.current_value e.step in
      let (written', output') = advance written ramp n in
      let e' = record e { current_value = last; release = e.release -ℤ pos n } in
      if length output' == 0
      then (written', output', e')
      else (written', output', record e' { current_value = nought; state = State.done })

  pub block_by : State → Block F → Block F
  unfolding block_delay block_attack block_hold block_decay block_sustain block_release
  block_by State.delay b = block_delay b
  block_by State.attack b = block_attack b
  block_by State.hold b = block_hold b
  block_by State.decay b = block_decay b
  block_by State.sustain b = block_sustain b
  block_by State.release b = block_release b
  block_by State.done b = b

  -- The switch, and the `fill` behind it.
  stages : Adsr F → List F → List F × Adsr F
  unfolding block_by
  stages e output =
      let (written, rest, e') = block_by e.state ([], output, e) in
      (written ++ fill rest e'.current_value, e')

  front_or : List F → F → F
  front_or [] v = v
  front_or (x ∷ xs) v = x

  -- What stands under `if (shouldRelease)` once the release falls into the block: `written` is the
  -- part of the block before it.
  release_block : List F → List F → Adsr F → List F × Adsr F
  unfolding front_or release_step
  release_block written span e =
      let value = front_or span e.current_value in
      let n = share span e.release in
      let step = release_step e value in
      let (ramp, last) = multiplicative_ramp span value step in
      let left = e.release -ℤ pos n in
      let e' = record e {
        step = step;
        state = State.release;
        current_value = last;
        release = left;
      } in
      if eqb_ℤ left (pos 0)
      then (
        written ++ (take n ramp ++ fill (drop n ramp) nought),
        record e' { current_value = nought; state = State.done },
      )
      else (written ++ ramp, e')

  unfoldable pub get_block : Adsr F → List F → List F × Adsr F
  unfolding stages release_block
  get_block e output =
      let (block, e') = stages e output in
      let size = length block in
      let n = pos_part e'.release_delay in
      if e'.should_release
      then if ltb_ℤ (pos size) e'.release_delay
        then (block, record e' { release_delay = e'.release_delay -ℤ pos size })
        else release_block (take n block) (drop n block) e'
      else (block, e')
