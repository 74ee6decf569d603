-- ===== src/Region/Parse.antt =====
-- Region.cpp: `parseOpcode`, by the categories of its cases.
pub mod Setters
pub mod Sounds
pub mod Keys
pub mod Amplifiers
pub mod Envelopes
pub mod Ordered
use sfizz.Base.{Bool, true, false, List, ◌++◌, Option, none, some, if◌then◌else◌, leb}
use sfizz.Float.{FloatOps}
use sfizz.StringView.{hash}
use sfizz.Opcode.{Numbers, Opcode}
use sfizz.Region.Parts.{Region}
use sfizz.Region.Parse.Setters.{Case, case_of}
use sfizz.Region.Parse.Sounds.{sound_cases, lifecycle_cases, pitch_cases}
use sfizz.Region.Parse.Keys.{key_cases, keyswitch_cases, internal_cases}
use sfizz.Region.Parse.Amplifiers.{amplifier_cases, crossfade_cases}
use sfizz.Region.Parse.Envelopes.{eg_cases}

-- The test of the parameter, if there is one.
unfoldable pub well_formed : Opcode → Bool
well_formed op = elim op.parameter [ none ↦ true | some p ↦ leb p 127 ]

module _ {F : Type 0} ⦃o : FloatOps F⦄ (numbers : Numbers F) where
  unfoldable pub all_cases : Opcode → List (Case F)
  all_cases op =
      sound_cases numbers op
      ++ lifecycle_cases numbers op
      ++ key_cases numbers op
      ++ keyswitch_cases numbers op
      ++ internal_cases numbers op
      ++ amplifier_cases numbers op
      ++ crossfade_cases numbers op
      ++ pitch_cases numbers op
      ++ eg_cases numbers op

  -- The test of the parameter comes first; `false` is the answer to an opcode without a case.
  unfoldable pub parse_opcode : Region F → Opcode → Region F × Bool
  unfolding all_cases case_of hash well_formed
  parse_opcode r op =
      if well_formed op
      then elim (case_of (all_cases op) (hash op.opcode)) [
        | none ↦ (r, false)
        | some f ↦ (f r, true)
      ]
      else (r, false)
