-- ===== src/Synth/Rendering.antt =====
-- Synth.cpp: `renderBlock`, the sum of the blocks of the voices.
use sfizz.Base.{ℕ, List, [], ◌∷◌, replicate, if◌then◌else◌}
use sfizz.Float.{FloatOps, of_nat}
use sfizz.Simd.{add_span}
use sfizz.Envelope.Linear.{Sort}
use sfizz.Voice.Parts.{Voice}
use sfizz.Voice.Filling.{StereoBlock}
use sfizz.Voice.Rendering.{render_block}
use sfizz.Synth.{Synth}
use sfizz.Synth.Events.{guarded}

module _ {F : Type 0} ⦃o : FloatOps F⦄ (sort : Sort F) where
  -- The voices render in turn, and each block is added to the sum so far.
  unfoldable pub render_voices : ℕ → List (Voice F) → StereoBlock F → List (Voice F) × StereoBlock F
  unfolding render_block add_span
  render_voices n [] sum = ([], sum)
  render_voices n (v ∷ voices) (left, right) =
      let (v', (l, r)) = render_block sort v n in
      let (voices', sum) = render_voices n voices (add_span l left, add_span r right) in
      (v' ∷ voices', sum)

  -- While callbacks may not enter, the block is silent.
  unfoldable pub render : Synth F → ℕ → Synth F × StereoBlock F
  unfolding render_voices
  render s n =
      let silence = replicate n (of_nat 0) in
      let (voices, sum) = render_voices n s.voices (silence, silence) in
      if s.can_enter_callback
      then (guarded (λ t. record t { voices = voices }) s, sum)
      else (s, (silence, silence))
