-- ===== src/Voice/Filling/Phase.antt =====
-- Voice.cpp, `fillWithGenerator`: the phase of the oscillator.
use sfizz.Base.{ℕ, ◌≡◌, ◌≢◌, refl, false, arith, ◌==◌, length, Bool-cases, inl, inr}
use sfizz.Float.{FloatOps}
use sfizz.StringView.{codes, is_same}
use sfizz.Region.{Region}
use sfizz.Voice.Parts.{Voice}
use sfizz.Voice.Filling.{StereoBlock, fill_with_generator}

not_zero : (n : ℕ) → n ≢ 0 → (n == 0) ≡ false
not_zero n h = ground (arith, h)

module _ {F : Type 0} ⦃o : FloatOps F⦄ where
  -- The phase behind a block does not depend on the count of its frames: a short or delayed block
  -- advances the oscillator by `samplesPerBlock` frames, like a full one.
  pub fill_with_generator-phase :
      (v : Voice F) (r : Region F) (short full : StereoBlock F)
      → length short.0 ≢ 0
      → length full.0 ≢ 0
      → (fill_with_generator v r short).0.phase ≡ (fill_with_generator v r full).0.phase
  unfolding fill_with_generator
  fill_with_generator-phase v r short full some_ more =
      elim (Bool-cases (is_same r.sound.sample (codes "*sine"))) [
        | inl sine ↦
            rw
              (
                sine,
                not_zero (length short.0) some_,
                not_zero (length full.0) more,
                fill_with_generator,
              )
              refl
        | inr other ↦ rw (other, fill_with_generator) refl
      ]
