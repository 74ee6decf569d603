-- ===== src/MidiState.antt =====
-- sfizz/MidiState.h. The clock is a count of ticks, an argument of the calls that read it, and
-- `seconds` converts a count to the `float` that `duration_cast` gives.
pub mod Notes
use sfizz.Base.{
  ℕ, ◌-◌, ◌≡◌, ◌<◌, List, ltb, if◌then◌else◌, get_or, set, length, arith, replicate,
  get_or-set_self, length-replicate,
}
use sfizz.Float.{FloatOps, of_nat}

pub record MidiState : Type 0 where
  pub note_on_times : List ℕ
  pub last_note_velocities : List ℕ
  pub cc : List ℕ

-- The state after construction; the source leaves `cc` uninitialised until `Synth::clear`.
unfoldable pub initial : List ℕ → MidiState
initial cc = record {
  note_on_times = replicate 128 0;
  last_note_velocities = replicate 128 0;
  cc = cc;
}

unfoldable pub note_on : MidiState → ℕ → ℕ → ℕ → MidiState
note_on m now note velocity =
    if ltb note 128
    then record m {
      last_note_velocities = set m.last_note_velocities note velocity;
      note_on_times = set m.note_on_times note now;
    }
    else m

unfoldable pub get_note_duration : {F : Type 0} ⦃o : FloatOps F⦄ → (ℕ → F) → MidiState → ℕ → ℕ → F
get_note_duration seconds m now note =
    if ltb note 128 then seconds (now - get_or m.note_on_times note 0) else of_nat 0

unfoldable pub get_note_velocity : MidiState → ℕ → ℕ
get_note_velocity m note = if ltb note 128 then get_or m.last_note_velocities note 0 else 0

-- The three arrays have an entry for each note and controller.
pub record IsSized (m : MidiState) : Type 0 where
  pub times : length m.note_on_times ≡ 128
  pub velocities : length m.last_note_velocities ≡ 128
  pub ccs : length m.cc ≡ 128
