-- ===== src/Region/Triggers/Quiet.antt =====
-- Region.cpp: the notes that a region takes no notice of.
use sfizz.Base.{
  ℕ, ◌%◌, ◌<◌, ◌≡◌, refl, ◌∙◌, Bool, false, ◌&&◌, ◌||◌, not, arith, Bool-cases, inl, inr,
}
use sfizz.Float.{FloatOps}
use sfizz.Range.{Range, nat_order, contains_with_end}
use sfizz.Region.Parts.{Region, Conditions, Switches}
use sfizz.Region.Triggers.{
  within8, is_switched_on, previous_refuses, rand_on, starts_note, note_on_switches, note_on_starts,
  note_off_switches, note_off_starts, register_note_on, register_note_off,
}

within8_small : (r : Range ℕ) (note : ℕ) → note < 128 → within8 r note ≡ contains_with_end r note
within8_small r note low = let same : note % 256 ≡ note = omega (arith, low) in rw same refl

left_false : (a b : Bool) → (a || b) ≡ false → a ≡ false
left_false a b e = ground (arith, e)

right_false : (a b : Bool) → (a || b) ≡ false → b ≡ false
right_false a b e = ground (arith, e)

refused_on : (a b v x t : Bool) → (a && b && false && v && x && t) ≡ false
refused_on a b v x t = ground arith

refused_off : (a v x t : Bool) → (a && false && v && x && t) ≡ false
refused_off a v x t = ground arith

module _ {F : Type 0} where
  quiet_switches_on :
      (c : Conditions F) (s : Switches) (note : ℕ)
      → within8 c.key_range note ≡ false
      → within8 c.keyswitch_range note ≡ false
      → note_on_switches c s note ≡ s
  unfolding note_on_switches
  quiet_switches_on c s note k w = rw (k, w) refl

  quiet_switches_off :
      (c : Conditions F) (s : Switches) (note : ℕ)
      → within8 c.key_range note ≡ false
      → within8 c.keyswitch_range note ≡ false
      → note_off_switches c s note ≡ s
  unfolding note_off_switches
  quiet_switches_off c s note k w = rw (k, w) refl

  module _ ⦃o : FloatOps F⦄ where
    quiet_starts_on :
        (c : Conditions F) (s : Switches) (note velocity : ℕ) (rand : F)
        → within8 c.key_range note ≡ false
        → note_on_starts c s note velocity rand ≡ false
    unfolding note_on_starts
    quiet_starts_on c s note velocity rand k = rw k (
        refused_on (is_switched_on s) (not (previous_refuses c s note))
          (contains_with_end c.velocity_range velocity) (rand_on c rand)
          (starts_note c.trigger s.active_notes_in_range))

    quiet_starts_off :
        (c : Conditions F) (s : Switches) (note velocity : ℕ) (rand : F)
        → within8 c.key_range note ≡ false
        → note_off_starts c s note velocity rand ≡ false
    unfolding note_off_starts
    quiet_starts_off c s note velocity rand k = rw k (refused_off _ _ _ _)

    module _ (r : Region F) (channel note velocity : ℕ) (rand : F) (low : note < 128)
        (outside : (contains_with_end r.conditions.key_range note
            || contains_with_end r.conditions.keyswitch_range note)
          ≡ false) where
      not_key : within8 r.conditions.key_range note ≡ false
      not_key = within8_small r.conditions.key_range note low ∙ left_false _ _ outside

      not_switch : within8 r.conditions.keyswitch_range note ≡ false
      not_switch = within8_small r.conditions.keyswitch_range note low ∙ right_false _ _ outside

      -- A note outside of the key range and of the keyswitches changes nothing and is not answered.
      pub register_note_on-quiet : register_note_on r channel note velocity rand ≡ (r, false)
      unfolding register_note_on
      register_note_on-quiet = elim (Bool-cases (within8 r.conditions.channel_range channel)) [
        | inr e ↦ rw (e, register_note_on) refl
        | inl e ↦
            rw (e, register_note_on)
              (rw
                (
                  quiet_switches_on r.conditions r.switches note not_key not_switch,
                  quiet_starts_on r.conditions r.switches note velocity rand not_key,
                )
                refl)
      ]

      pub register_note_off-quiet : register_note_off r channel note velocity rand ≡ (r, false)
      unfolding register_note_off
      register_note_off-quiet = elim (Bool-cases (within8 r.conditions.channel_range channel)) [
        | inr e ↦ rw (e, register_note_off) refl
        | inl e ↦
            rw (e, register_note_off)
              (rw
                (
                  quiet_switches_off r.conditions r.switches note not_key not_switch,
                  quiet_starts_off r.conditions r.switches note velocity rand not_key,
                )
                refl)
      ]
