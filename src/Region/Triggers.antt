-- ===== src/Region/Triggers.antt =====
-- Region.cpp: the events that a region is told of, and when it answers that a voice is to start.
-- Notes, channels and controllers are the numbers that MIDI gives, and are narrowed to `uint8_t`
-- where a range is asked. Each event returns the region and the answer.
pub mod Traces
pub mod Answers
pub mod Legato
pub mod Quiet
use sfizz.Base.{
  ℕ, suc, ◌+◌, ◌%◌, Bool, true, false, not, ◌&&◌, ◌||◌, List, [], ◌∷◌, Option, none, some, ◌==◌,
  if◌then◌else◌, set, all_true, is_just,
}
use sfizz.Base.Int.{ℤ, pos, ◌+ℤ◌, ◌-ℤ◌, ltb_ℤ, eqb_ℤ}
use sfizz.Float.{FloatOps, of_nat}
use sfizz.Range.{Range, nat_order, int_order, float_order, contains_with_end, contains}
use sfizz.CcMap
use sfizz.Region.Parts.{SfzTrigger, Conditions, Switches, Region, SfzLoopMode, Sound}

-- The conversion of an `int` that is not negative to `uint8_t`.
abbrev pub narrow : ℕ → ℕ
narrow n = n % 256

abbrev pub within8 : Range ℕ → ℕ → Bool
within8 r n = contains_with_end r (narrow n)

pub is_switched_on : Switches → Bool
is_switched_on s =
    s.key_switched
    && s.previous_key_switched
    && s.sequence_switched
    && s.pitch_switched
    && s.bpm_switched
    && s.aftertouch_switched
    && all_true s.cc_switched

abbrev pub same_trigger : SfzTrigger → SfzTrigger → Bool
same_trigger SfzTrigger.attack SfzTrigger.attack = true
same_trigger SfzTrigger.release SfzTrigger.release = true
same_trigger SfzTrigger.release_key SfzTrigger.release_key = true
same_trigger SfzTrigger.first SfzTrigger.first = true
same_trigger SfzTrigger.legato SfzTrigger.legato = true
same_trigger _ _ = false

-- `attackTrigger || firstLegatoNote || notFirstLegatoNote`.
pub starts_note : SfzTrigger → ℤ → Bool
starts_note t active =
    same_trigger t SfzTrigger.attack
    || (same_trigger t SfzTrigger.first && eqb_ℤ active (pos 0))
    || (same_trigger t SfzTrigger.legato && ltb_ℤ (pos 0) active)

pub is_release : SfzTrigger → Bool
is_release t = same_trigger t SfzTrigger.release || same_trigger t SfzTrigger.release_key

module _ {F : Type 0} where
  -- The three tests on a note in the range of the keyswitches.
  key_switch_on : Conditions F → Bool → ℕ → Bool
  key_switch_on c switched note =
      let last : Bool = elim c.keyswitch [ none ↦ switched | some k ↦ k == note ] in
      let down = if is_just c.keyswitch_down note then true else last in
      if is_just c.keyswitch_up note then false else down

  -- `counter % length == position - 1`, computed on `int`: a position 0 is never met.
  abbrev pub in_sequence : Conditions F → ℕ → Bool
  in_sequence c counter = counter % c.sequence_length + 1 == c.sequence_position

  -- The count of notes, the sequence and the previous note.
  count_note_on : Conditions F → Switches → ℕ → Switches
  count_note_on c s note = record s {
    active_notes_in_range = s.active_notes_in_range +ℤ pos 1;
    sequence_counter = s.sequence_counter + 1;
    sequence_switched = in_sequence c (s.sequence_counter + 1);
    previous_key_switched = elim c.previous_note [
      | none ↦ s.previous_key_switched
      | some p ↦ p == note
    ];
  }

  -- What a note-on in the channel changes.
  pub note_on_switches : Conditions F → Switches → ℕ → Switches
  unfolding key_switch_on count_note_on
  note_on_switches c s note =
      let s' =
        if within8 c.keyswitch_range note
        then record s { key_switched = key_switch_on c s.key_switched note }
        else s in
      if within8 c.key_range note then count_note_on c s' note else s'

  key_switch_off : Conditions F → Bool → ℕ → Bool
  key_switch_off c switched note =
      let down = if is_just c.keyswitch_down note then false else switched in
      if is_just c.keyswitch_up note then true else down

  pub note_off_switches : Conditions F → Switches → ℕ → Switches
  unfolding key_switch_off
  note_off_switches c s note =
      let s' =
        if within8 c.keyswitch_range note
        then record s { key_switched = key_switch_off c s.key_switched note }
        else s in
      if within8 c.key_range note
      then record s' { active_notes_in_range = s'.active_notes_in_range -ℤ pos 1 }
      else s'

  -- `previousNote && !(previousKeySwitched && noteNumber != *previousNote)`.
  pub previous_refuses : Conditions F → Switches → ℕ → Bool
  previous_refuses c s note = elim c.previous_note [
    | none ↦ false
    | some p ↦ not (s.previous_key_switched && not (p == note))
  ]

  pub cc_switches : Conditions F → Switches → ℕ → ℕ → Switches
  cc_switches c s cc value = record s {
    cc_switched =
        set s.cc_switched cc (contains_with_end (CcMap.get_with_default c.cc_conditions cc) value);
  }

  -- `ccTriggers.contains(cc) && ccTriggers.at(cc).containsWithEnd(value)`.
  pub cc_starts : Conditions F → ℕ → ℕ → Bool
  cc_starts c cc value = elim (CcMap.at c.cc_triggers cc) [
    | none ↦ false
    | some r ↦ contains_with_end r value
  ]

module _ {F : Type 0} ⦃o : FloatOps F⦄ where
  abbrev one : F
  one = of_nat 1

  pub rand_on : Conditions F → F → Bool
  rand_on c rand =
      contains ⦃o = float_order o⦄ c.rand_range rand || (o.eq rand one && o.eq c.rand_range.end one)

  pub note_on_starts : Conditions F → Switches → ℕ → ℕ → F → Bool
  unfolding starts_note previous_refuses rand_on is_switched_on
  note_on_starts c s note velocity rand =
      is_switched_on s
      && not (previous_refuses c s note)
      && within8 c.key_range note
      && contains_with_end c.velocity_range velocity
      && rand_on c rand
      && starts_note c.trigger s.active_notes_in_range

  unfoldable pub register_note_on : Region F → ℕ → ℕ → ℕ → F → Region F × Bool
  unfolding note_on_switches note_on_starts
  register_note_on r channel note velocity rand =
      let c = r.conditions in
      let s = note_on_switches c r.switches note in
      if within8 c.channel_range channel
      then (record r { switches = s }, note_on_starts c s note velocity rand)
      else (r, false)

  pub note_off_starts : Conditions F → Switches → ℕ → ℕ → F → Bool
  unfolding is_release is_switched_on
  note_off_starts c s note velocity rand =
      is_switched_on s
      && within8 c.key_range note
      && contains_with_end c.velocity_range velocity
      && contains ⦃o = float_order o⦄ c.rand_range rand
      && is_release c.trigger

  unfoldable pub register_note_off : Region F → ℕ → ℕ → ℕ → F → Region F × Bool
  unfolding note_off_switches note_off_starts
  register_note_off r channel note velocity rand =
      let c = r.conditions in
      let s = note_off_switches c r.switches note in
      if within8 c.channel_range channel
      then (record r { switches = s }, note_off_starts c s note velocity rand)
      else (r, false)

  unfoldable pub register_cc : Region F → ℕ → ℕ → ℕ → Region F × Bool
  unfolding cc_switches cc_starts is_switched_on
  register_cc r channel cc value =
      let c = r.conditions in
      let s = cc_switches c r.switches cc value in
      if within8 c.channel_range channel
      then (record r { switches = s }, is_switched_on s && cc_starts c cc value)
      else (r, false)

  unfoldable pub register_pitch_wheel : Region F → ℕ → ℤ → Region F
  register_pitch_wheel r channel pitch =
      let c = r.conditions in
      if within8 c.channel_range channel
      then record r {
        switches = record r.switches { pitch_switched = contains_with_end c.bend_range pitch };
      }
      else r

  unfoldable pub register_aftertouch : Region F → ℕ → ℕ → Region F
  register_aftertouch r channel aftertouch =
      let c = r.conditions in
      if within8 c.channel_range channel
      then record r {
        switches = record r.switches {
          aftertouch_switched = contains_with_end c.aftertouch_range aftertouch;
        };
      }
      else r

  unfoldable pub register_tempo : Region F → F → Region F
  register_tempo r seconds_per_quarter =
      let bpm = o.div (of_nat 60) seconds_per_quarter in
      record r {
        switches = record r.switches {
          bpm_switched = contains_with_end ⦃o = float_order o⦄ r.conditions.bpm_range bpm;
        };
      }

  -- Region.h.
  unfoldable pub is_generator : Sound F → Bool
  is_generator s = elim s.sample [ [] ↦ false | c ∷ rest ↦ c == 42 ]

  unfoldable pub should_loop : Sound F → Bool
  should_loop s = elim s.loop_mode [
    | SfzLoopMode.loop_continuous ↦ true
    | SfzLoopMode.loop_sustain ↦ true
    | _ ↦ false
  ]
