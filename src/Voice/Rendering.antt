-- ===== src/Voice/Rendering.antt =====
-- Voice.cpp: `processMono`, `processStereo` and `renderBlock`.
pub mod Ending
use Prim.Native.Nat.{min}
use sfizz.Base.{
  ℕ, zero, suc, ◌+◌, ◌-◌, ◌^◌, Bool, true, false, not, ◌&&◌, List, [], ◌∷◌, ◌++◌, Option, none,
  some, ltb, leb, ◌==◌, if◌then◌else◌, map, length, get_or, take, drop, replicate,
}
use sfizz.Base.Int.{ℤ, pos, negsuc, ◌+ℤ◌, ◌-ℤ◌, ltb_ℤ, eqb_ℤ, pos_part, sub_ℕ}
use sfizz.Float.{FloatOps, of_nat}
use sfizz.StringView.{codes, is_same}
use sfizz.HistoricalBuffer.{push}
use sfizz.Simd.{
  copy, apply_gain, apply_gain_span, multiply_add, linear_ramp, add_span, subtract_span,
  mean_squared, cumsum, sfz_interpolation_cast, sin, cos,
}
use sfizz.Envelope.Adsr.{is_smoothing}
use sfizz.Envelope.Adsr.Block
use sfizz.Envelope.Linear
use sfizz.Envelope.Linear.{Sort}
use sfizz.Region.{Region, AudioBuffer}
use sfizz.Region.Gain.{true_sample_end}
use sfizz.Region.Triggers.{is_generator, should_loop}
use sfizz.Voice.Parts.{Voice, State}
use sfizz.Voice.Events.{source, release_voice, reset}
use sfizz.Voice.Filling.{
  StereoBlock, nought, one, pi_four, sqrt_two_inv, fill_with_data, fill_with_generator,
}

module _ {F : Type 0} ⦃o : FloatOps F⦄ where
  open o use {add, div}

  -- The cosines and sines of a span of pans, from -1 to 1.
  unfoldable pub circle : List F → StereoBlock F
  unfolding add_span apply_gain sin cos
  circle span =
      let angles = apply_gain pi_four (add_span span (map (λ x. one) span)) (map (λ x. one) span) in
      (cos angles span, sin angles angles)

  -- Mid and side: the left channel is left - right, and the right one their sum.
  unfoldable pub mid_side : StereoBlock F → StereoBlock F
  unfolding add_span subtract_span apply_gain
  mid_side (left, right) =
      let sum = add_span left right in
      let difference = subtract_span right left in
      (apply_gain sqrt_two_inv difference difference, apply_gain sqrt_two_inv sum sum)

  -- A region with a file has its samples, once it is loaded.
  unfoldable pub is_stereo : Region F → Bool
  unfolding is_generator
  is_stereo r = elim r.preloaded_data [
    | none ↦ is_generator r.sound
    | some file ↦ if is_generator r.sound then true else length file.channels == 2
  ]

  abbrev mean_power : StereoBlock F → F
  mean_power (left, right) =
      div (add (add nought (mean_squared left)) (mean_squared right)) (of_nat 2)

  -- The part of the block behind the delay is filled.
  unfoldable pub fill_delayed : Voice F → Region F → ℕ → Voice F × StereoBlock F
  unfolding fill_with_data fill_with_generator is_generator
  fill_delayed v r n =
      let delay = min v.initial_delay n in
      let quiet = replicate delay nought in
      let rest = replicate (n - delay) nought in
      let v' = record v { initial_delay = v.initial_delay - delay } in
      let (filled, (left, right)) : Voice F × StereoBlock F =
        if is_generator r.sound
        then fill_with_generator v' r (rest, rest)
        else fill_with_data v' r (rest, rest) in
      (filled, (quiet ++ left, quiet ++ right))

  -- The voice is reset once its envelope is done; the power of the block is remembered.
  unfoldable pub finish_block : Voice F → StereoBlock F → Voice F
  unfolding is_smoothing reset push mean_squared
  finish_block v block =
      let v' = if is_smoothing v.eg_envelope then v else reset v in
      record v' { power_history = push v'.power_history (mean_power block) }

  module _ (sort : Sort F) where
    -- The amplitude, the ADSR and the volume, which both ways of processing apply first.
    unfoldable pub gains : Voice F → ℕ → Voice F × List F × List F × List F
    unfolding Linear.get_block Block.get_block
    gains v n =
        let scratch = replicate n nought in
        let (amplitude, amplitude_envelope) = Linear.get_block sort v.amplitude_envelope scratch in
        let (eg, eg_envelope) = Block.get_block v.eg_envelope amplitude in
        let (volume, volume_envelope) = Linear.get_block sort v.volume_envelope eg in
        (
          record v {
            amplitude_envelope = amplitude_envelope;
            eg_envelope = eg_envelope;
            volume_envelope = volume_envelope;
          },
          amplitude,
          eg,
          volume,
        )

    unfoldable pub process_mono : Voice F → StereoBlock F → Voice F × StereoBlock F
    unfolding gains apply_gain_span copy Linear.get_block circle
    process_mono v (left, right) =
        let (v', amplitude, eg, volume) = gains v (length left) in
        let loud = apply_gain_span amplitude left left in
        let shaped = apply_gain_span eg loud loud in
        let mono = apply_gain_span volume shaped shaped in
        let both = copy mono right in
        let (pan, pan_envelope) = Linear.get_block sort v'.pan_envelope volume in
        let (cosines, sines) = circle pan in
        (
          record v' { pan_envelope = pan_envelope },
          (apply_gain_span cosines mono mono, apply_gain_span sines both both),
        )

    unfoldable pub process_stereo : Voice F → StereoBlock F → Voice F × StereoBlock F
    unfolding gains apply_gain_span mid_side circle multiply_add apply_gain Linear.get_block
    process_stereo v (left, right) =
        let (v', amplitude, eg, volume) = gains v (length left) in
        let gained = λ (span : List F).
          let loud = apply_gain_span amplitude span span in
          let shaped = apply_gain_span eg loud loud in apply_gain_span volume shaped shaped in
        let (middle, side) = mid_side (gained left, gained right) in
        let (width, width_envelope) = Linear.get_block sort v'.width_envelope volume in
        let (cosines, sines) = circle width in
        let middle' = apply_gain_span cosines middle middle in
        let side' = apply_gain_span sines side side in
        let (position, position_envelope) = Linear.get_block sort v'.position_envelope width in
        let (cosines', sines') = circle position in
        let left' = multiply_add cosines' middle' side' in
        let right' = multiply_add sines' middle' side' in
        (
          record v' { width_envelope = width_envelope; position_envelope = position_envelope },
          (apply_gain sqrt_two_inv left' left', apply_gain sqrt_two_inv right' right'),
        )

    unfoldable pub render_region : Voice F → Region F → ℕ → Voice F × StereoBlock F
    unfolding fill_delayed is_stereo process_stereo process_mono finish_block
    render_region v r n =
        let (filled, block) = fill_delayed v r n in
        let (processed, block') : Voice F × StereoBlock F =
          if is_stereo r then process_stereo filled block else process_mono filled block in
        (finish_block processed block', block')

    -- A block of `n` frames, at most `samplesPerBlock`, which the caller's buffer takes.
    unfoldable pub render_block : Voice F → ℕ → Voice F × StereoBlock F
    unfolding render_region push
    render_block v n =
        let silence = replicate n nought in
        let quiet = record v { power_history = push v.power_history nought } in
        elim v.region [
          | none ↦ (quiet, (silence, silence))
          | some r ↦ elim v.state [
            | State.idle ↦ (quiet, (silence, silence))
            | _ ↦ render_region v r n
          ]
        ]
