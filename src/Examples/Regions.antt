-- ===== src/Examples/Regions.antt =====
-- Regions, the maps of controllers, and the state of the keyboard, on concrete events.
use sfizz.Base.{ℕ, ◌≡◌, ◌↔◌, refl, true, false, List, [], ◌∷◌, none, some, arith, get_or, replicate}
use sfizz.Base.Int.{ℤ, pos}
use sfizz.Float.{whole}
use sfizz.Range.{Range, nat_order, contains_with_end}
use sfizz.CcMap
use sfizz.MidiState.{MidiState}
use sfizz.Region.{Region, Conditions, Switches}
use sfizz.Region.Defaults.{default_conditions, initial, initial_switches, midi_range}
use sfizz.Region.Triggers.{register_note_on}
use sfizz.Region.Triggers.Traces.{
  NoteEvent, on, off, run, last_switch, is_key, ons, offs, key_switched-run, sequence_switched-run,
}
use sfizz.Region.Triggers.Legato.{Asks, after, attacking, register_note_on-Asks}
use sfizz.Region.Triggers.Answers.{round_robin, run_cc, last_value, meets, cc_switched-run_cc}

abbrev piano : Region ℤ
piano = initial

register_note_on-Asks_example :
    ((register_note_on (after piano (on 60 ∷ off 60 ∷ [])) 1 60 100 (pos 0)).1 ≡ true) ↔ (
      ((register_note_on (attacking (after piano (on 60 ∷ off 60 ∷ []))) 1 60 100 (pos 0)).1 ≡ true)
      × Asks piano.conditions.trigger
          (ons piano.conditions (on 60 ∷ off 60 ∷ []))
          (offs piano.conditions (on 60 ∷ off 60 ∷ [])))
unfolding initial
register_note_on-Asks_example =
    register_note_on-Asks piano (on 60 ∷ off 60 ∷ []) 1 60 100 (pos 0) refl

abbrev after_c : Region ℤ
after_c = record piano { conditions = record piano.conditions { previous_note = some 60 } }

-- Two samples that take turns.
abbrev turn : ℕ → Conditions ℤ
turn position = record default_conditions { sequence_length = 2; sequence_position = position }

abbrev three_notes : List NoteEvent
three_notes = on 60 ∷ off 60 ∷ on 64 ∷ []

-- The same count, with the rest of the state another.
abbrev ahead : Switches
ahead = record initial_switches { key_switched = false; active_notes_in_range = pos 3 }

round_robin_example : (turn 1).sequence_position ≡ (turn 1).sequence_position
unfolding default_conditions initial_switches ons contains_with_end
round_robin_example =
    round_robin (turn 1) (turn 1) initial_switches ahead three_notes refl refl refl (omega arith)
      (sequence_switched-run (turn 1) initial_switches three_notes (omega arith))
      (sequence_switched-run (turn 1) ahead three_notes (omega arith))

-- The key 24 switches to it, out of the octave from 24.
abbrev keyed : Conditions ℤ
keyed = record default_conditions {
  keyswitch = some 24;
  keyswitch_range = record { start = 24; end = 35 };
}

abbrev switch_notes : List NoteEvent
switch_notes = on 25 ∷ on 24 ∷ on 60 ∷ []

key_switched-run_example :
    (run keyed initial_switches switch_notes).key_switched
    ≡ is_key keyed 24 initial_switches.key_switched (last_switch keyed none switch_notes)
unfolding default_conditions
key_switched-run_example = key_switched-run keyed 24 initial_switches switch_notes refl refl refl

-- The region sounds while the modulation wheel is low.
abbrev low_wheel : Conditions ℤ
low_wheel = record default_conditions {
  cc_conditions = record {
    default_value = midi_range;
    container = (1, record { start = 0; end = 63 }) ∷ [];
  };
}

abbrev wheel : List (ℕ × ℕ)
wheel = (1, 20) ∷ (7, 90) ∷ (1, 99) ∷ []

cc_switched-run_cc_example :
    get_or (run_cc low_wheel initial_switches wheel).cc_switched 1 false
    ≡ meets low_wheel 1
        (get_or initial_switches.cc_switched 1 false)
        (last_value low_wheel 1 none wheel)
unfolding initial_switches
cc_switched-run_cc_example = cc_switched-run_cc low_wheel 1 initial_switches wheel (omega arith)

abbrev two_conditions : CcMap.CcMap (Range ℕ)
two_conditions = record {
  default_value = midi_range;
  container = (1, record { start = 0; end = 63 }) ∷ (64, record { start = 64; end = 127 }) ∷ [];
}

abbrev keyboard : MidiState
keyboard = record {
  note_on_times = replicate 128 0;
  last_note_velocities = replicate 128 0;
  cc = replicate 128 0;
}
