-- ===== src/Synth.antt =====
-- sfizz/Synth.h and sfizz/Synth.cpp: the members of a synth, and what it takes from outside. The
-- regions are named by their places in `regions`, which no event changes, and the voices by their
-- numbers. Each event is one call, behind the guards of `AtomicGuard.h`.
pub mod Voices
pub mod Events
pub mod Headers
pub mod Loading
pub mod Settings
pub mod Rendering
pub mod Construction
pub mod Lifecycle
use sfizz.Base.{ℕ, Bool, List, Option}
use sfizz.MidiState.{MidiState}
use sfizz.Opcode.{Opcode}
use sfizz.FilePool.{FilePool, FileLoadingInformation}
use sfizz.Region.{Region}
use sfizz.Region.Gain.{Draws}
use sfizz.Voice.Parts.{Voice}

pub record Synth (F : Type 0) : Type 0 where
  pub has_global : Bool
  pub has_control : Bool
  pub num_groups : ℕ
  pub num_masters : ℕ
  pub num_curves : ℕ
  pub global_opcodes : List Opcode
  pub master_opcodes : List Opcode
  pub group_opcodes : List Opcode
  pub file_pool : FilePool F
  pub midi_state : MidiState
  pub cc_names : List (ℕ × List ℕ)
  pub default_switch : Option ℕ
  pub unknown_opcodes : List (List ℕ)
  pub regions : List (Region F)
  pub voices : List (Voice F)
  pub note_activation_lists : ℕ → List ℕ
  pub cc_activation_lists : ℕ → List ℕ
  pub samples_per_block : ℕ
  pub sample_rate : F
  pub file_ticket : ℕ
  pub can_enter_callback : Bool
  pub in_callback : Bool
  -- `Parser::rootDirectory`.
  pub root_directory : List ℕ
  -- How often the random generator has been asked.
  pub drawn : ℕ

-- What a call takes from outside: `absl::c_sort` of the voices, later positions first, the random
-- numbers, the conversion of the clock, and whether the loading queue has room.
pub record World (F : Type 0) : Type 0 where
  pub sort_voices : List (Voice F) → List (Voice F)
  pub rand_note : ℕ → F
  pub draws : Region F → ℕ → Draws F
  pub seconds : ℕ → F
  pub has_room : List FileLoadingInformation → Bool
