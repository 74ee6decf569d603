-- ===== src/Region/Parse/Setters.antt =====
-- Region.cpp, `parseOpcode`: a case is the label of an opcode and what it does to the region. The
-- functions below are the calls that most cases consist of, each for its part of the region.
use sfizz.Base.{ℕ, List, [], ◌∷◌, Option, none, some, ◌==◌, if◌then◌else◌}
use sfizz.Range.{Range}
use sfizz.CcMap
use sfizz.CcMap.{CcMap}
use sfizz.StringView.{codes, hash}
use sfizz.Opcode.{Opcode}
use sfizz.Region.Parts.{
  Region, Sound, Lifecycle, Conditions, Amplifier, Pitch, EgDescription, Switches, Distributions,
}
use Prim.Native.String.{String}

abbrev pub Case : Type 0 → Type 0
Case F = String × (Region F → Region F)

-- `switch (hash(…))`, with the labels hashed.
unfoldable pub case_of {ℓ} : {T : Type ℓ} → List (String × T) → ℕ → Option T
unfolding hash
case_of [] h = none
case_of ((label, v) ∷ cases) h = if hash (codes label) == h then some v else case_of cases h

-- A switch on the hash of the value, which assigns a constant; other values are only logged.
unfoldable pub choose : {T : Type 0} → List (String × T) → Opcode → T → T
unfolding case_of hash
choose cases op target = elim (case_of cases (hash op.value)) [ none ↦ target | some v ↦ v ]

-- The same change of the range of a controller, if the opcode has a parameter.
unfoldable pub at_parameter : Opcode → (Range ℕ → Range ℕ) → CcMap (Range ℕ) → CcMap (Range ℕ)
at_parameter op f m = elim op.parameter [ none ↦ m | some cc ↦ CcMap.edit m cc f ]

module _ {F : Type 0} where
  -- A change of one part of the region.
  abbrev pub on_sound : (Sound F → Sound F) → Region F → Region F
  on_sound f r = record r { sound = f r.sound }

  abbrev pub on_lifecycle : (Lifecycle → Lifecycle) → Region F → Region F
  on_lifecycle f r = record r { lifecycle = f r.lifecycle }

  abbrev pub on_conditions : (Conditions F → Conditions F) → Region F → Region F
  on_conditions f r = record r { conditions = f r.conditions }

  abbrev pub on_amplifier : (Amplifier F → Amplifier F) → Region F → Region F
  on_amplifier f r = record r { amplifier = f r.amplifier }

  abbrev pub on_pitch : (Pitch → Pitch) → Region F → Region F
  on_pitch f r = record r { pitch = f r.pitch }

  abbrev pub on_eg : (EgDescription F → EgDescription F) → Region F → Region F
  on_eg f r = record r { amplitude_eg = f r.amplitude_eg }

  abbrev pub on_switches : (Switches → Switches) → Region F → Region F
  on_switches f r = record r { switches = f r.switches }

  abbrev pub on_distributions : (Distributions F → Distributions F) → Region F → Region F
  on_distributions f r = record r { distributions = f r.distributions }
