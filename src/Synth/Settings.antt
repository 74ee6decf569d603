-- ===== src/Synth/Settings.antt =====
-- Synth.cpp: the calls that set the audio up, the collection of files, and what a client reads.
use sfizz.Base.{ℕ, ◌+◌, true, List, [], ◌∷◌, Option, map, if◌then◌else◌, length, get_elem?}
use sfizz.Region.{Region}
use sfizz.Voice.Parts.{Voice}
use sfizz.Voice.Events.{is_free}
use sfizz.Voice.Events
use sfizz.Float.{FloatOps}
use sfizz.Synth.{Synth}

module _ {F : Type 0} where
  -- The `AtomicDisabler` lets callbacks in again at the end of both calls.
  unfoldable pub set_samples_per_block : Synth F → ℕ → Synth F
  unfolding Events.set_samples_per_block
  set_samples_per_block s n = record s {
    samples_per_block = n;
    voices = map (λ v. Events.set_samples_per_block v n) s.voices;
    can_enter_callback = true;
  }

  unfoldable pub garbage_collect : Synth F → Synth F
  unfolding Events.garbage_collect
  garbage_collect s = record s { voices = map (λ v. Events.garbage_collect v) s.voices }

  -- The count of `getNumActiveVoices`, which the source computes and does not return.
  unfoldable pub active_voices : List (Voice F) → ℕ
  unfolding is_free
  active_voices [] = 0
  active_voices (v ∷ voices) = if is_free v then active_voices voices else active_voices voices + 1

  unfoldable pub get_num_regions : Synth F → ℕ
  get_num_regions s = length s.regions

  unfoldable pub get_num_preloaded_samples : Synth F → ℕ
  get_num_preloaded_samples s = length s.file_pool.preloaded_data

  unfoldable pub get_region_view : Synth F → ℕ → Option (Region F)
  get_region_view s i = get_elem? s.regions i

  module _ ⦃o : FloatOps F⦄ where
    unfoldable pub set_sample_rate : Synth F → F → Synth F
    unfolding Events.set_sample_rate
    set_sample_rate s rate = record s {
      sample_rate = rate;
      voices = map (λ v. Events.set_sample_rate v rate) s.voices;
      can_enter_callback = true;
    }
