-- ===== src/Synth/Lifecycle.antt =====
-- Synth.cpp: sequences of calls of all kinds.
pub mod Marked
pub mod Loads
pub mod Sound
use sfizz.Base.{
  ℕ, zero, suc, Bool, true, ◌&&◌, ◌||◌, List, [], ◌∷◌, Option, none, some, leb, if◌then◌else◌,
}
use sfizz.Voice.Parts.{Voice}
use sfizz.Voice.Events.{is_free}
use sfizz.Float.{FloatOps}
use sfizz.Opcode.{Numbers, Opcode}
use sfizz.FilePool.{FileSystem}
use sfizz.Envelope.Linear.{Sort}
use sfizz.Synth.{Synth, World}
use sfizz.Synth.Events.Runs.{Event, handle}
use sfizz.Synth.Loading.{load_sfz_file}
use sfizz.Synth.Settings.{set_samples_per_block, set_sample_rate, garbage_collect}
use sfizz.Synth.Rendering.{render}

-- A call of a client, with what the parser or the clock gives it.
pub data Call (F : Type 0) : Type 0 where
  load : Option (List ℕ × List (List ℕ × List Opcode)) → Call F
  event : Event → Call F
  block : ℕ → Call F
  block_size : ℕ → Call F
  rate : F → Call F
  collect : Call F

-- What the calls take from outside.
pub record Setup (F : Type 0) : Type 0 where
  pub world : World F
  pub sort : Sort F
  pub sort_points : List (ℕ × F) → List (ℕ × F)
  pub files : FileSystem F
  pub numbers : Numbers F
  pub exists : List ℕ → Bool

module _ {F : Type 0} where
  -- No voice that is in use writes a block behind its temporary spans.
  unfoldable pub fits : ℕ → List (Voice F) → Bool
  unfolding is_free
  fits n [] = true
  fits n (v ∷ voices) = (is_free v || leb n v.span_size) && fits n voices

module _ {F : Type 0} ⦃o : FloatOps F⦄ (setup : Setup F) where
  open setup use {world, sort, sort_points, files, numbers, exists}

  -- `none` is a fault: a block that is too large for a voice, or a block size of zero, which frees the
  -- buffers of the voices and keeps the pointers to them (see Buffer). There is memory for the buffers.
  unfoldable pub perform : Synth F → Call F → Option (Synth F)
  unfolding load_sfz_file handle fits render set_samples_per_block set_sample_rate garbage_collect
  perform s (load parsed) = some (load_sfz_file numbers exists sort_points files s parsed).0
  perform s (event e) = some (handle world s e)
  perform s (block n) = if fits n s.voices then some (render sort s n).0 else none
  perform s (block_size zero) = none
  perform s (block_size (suc n)) = some (set_samples_per_block s (suc n))
  perform s (rate hertz) = some (set_sample_rate s hertz)
  perform s collect = some (garbage_collect s)

  unfoldable pub perform_all : Synth F → List (Call F) → Option (Synth F)
  unfolding perform
  perform_all s [] = some s
  perform_all s (call ∷ calls) = elim (perform s call) [
    | none ↦ none
    | some t ↦ perform_all t calls
  ]
