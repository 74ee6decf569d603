-- ===== src/Synth/Voices.antt =====
-- Synth.cpp: `findFreeVoice`. A voice is named by its number.
pub mod Searching
pub mod Stealing
use sfizz.Base.{ℕ, List, [], ◌∷◌, Option, none, some, ◌==◌, if◌then◌else◌}
use sfizz.Base.Int.{pos}
use sfizz.Float.{FloatOps}
use sfizz.Voice.Parts.{Voice}
use sfizz.Voice.Events.{is_free, can_be_stolen, get_mean_squared_average, reset}

module _ {F : Type 0} where
  -- What is done through a pointer to a voice.
  unfoldable pub update : ℕ → (Voice F → Voice F) → List (Voice F) → List (Voice F)
  update id f [] = []
  update id f (v ∷ voices) = if v.id == id then f v ∷ voices else v ∷ update id f voices

  unfoldable pub first_free : List (Voice F) → Option ℕ
  unfolding is_free
  first_free [] = none
  first_free (v ∷ voices) = if is_free v then some v.id else first_free voices

  -- `voiceViewArray`.
  unfoldable pub stealable : List (Voice F) → List (Voice F)
  unfolding can_be_stolen
  stealable [] = []
  stealable (v ∷ voices) = if can_be_stolen v then v ∷ stealable voices else stealable voices

  module _ ⦃o : FloatOps F⦄ where
    -- `config::voiceStealingThreshold`.
    abbrev pub voice_stealing_threshold : F
    voice_stealing_threshold = o.lit (pos 1) 100000

    unfoldable pub first_quiet : List (Voice F) → Option ℕ
    unfolding get_mean_squared_average
    first_quiet [] = none
    first_quiet (v ∷ voices) =
        if o.lt (get_mean_squared_average v) voice_stealing_threshold
        then some v.id
        else first_quiet voices

    -- The sort is that of the voices; the array of the voices to steal keeps its order.
    unfoldable pub find_free_voice :
        (List (Voice F) → List (Voice F)) → List (Voice F) → List (Voice F) × Option ℕ
    unfolding first_free stealable first_quiet update reset
    find_free_voice sort voices = elim (first_free voices) [
      | some id ↦ (voices, some id)
      | none ↦ elim (first_quiet (stealable voices)) [
        | some id ↦ (update id (λ v. reset v) (sort voices), some id)
        | none ↦ (sort voices, none)
      ]
    ]
