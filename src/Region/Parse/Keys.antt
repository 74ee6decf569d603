-- ===== src/Region/Parse/Keys.antt =====
-- Region.cpp, `parseOpcode`: key mapping, MIDI and internal conditions, and triggers.
use sfizz.Base.{ℕ, true, false, List, [], ◌∷◌, Option}
use sfizz.Base.Int.{ℤ, pos}
use sfizz.Float.{FloatOps}
use sfizz.StringView.{codes, is_same}
use sfizz.Opcode.{
  Numbers, Opcode, value_unsigned, value_signed, value_float, read_boolean, set_value, set_optional,
  set_range_start, set_range_end, set_signed_start, set_signed_end, set_float_start, set_float_end,
}
use sfizz.Region.Parts.{SfzTrigger, SfzVelocityOverride}
use sfizz.Region.Defaults.{midi_range, channel_range, bend_range, sequence_range, whole_range}
use sfizz.Region.Parse.Setters.{Case, choose, at_parameter, on_conditions, on_pitch, on_switches}

module _ {F : Type 0} ⦃o : FloatOps F⦄ (numbers : Numbers F) (op : Opcode) where
  abbrev pub as_midi : Option ℕ
  as_midi = value_unsigned numbers 8 op midi_range

  abbrev pub as_channel : Option ℕ
  as_channel = value_unsigned numbers 8 op channel_range

  abbrev pub as_sequence : Option ℕ
  as_sequence = value_unsigned numbers 8 op sequence_range

  abbrev pub as_bend : Option ℤ
  as_bend = value_signed numbers op bend_range

  abbrev pub as_bpm : Option F
  as_bpm = value_float numbers op (whole_range (pos 0) (pos 500))

  abbrev pub as_rand : Option F
  as_rand = value_float numbers op (whole_range (pos 0) (pos 1))

  unfoldable pub key_cases : List (Case F)
  unfolding value_unsigned value_signed value_float read_boolean choose at_parameter
  key_cases =
      ("lokey", on_conditions (λ c. record c { key_range = set_range_start as_midi c.key_range }))
      ∷ ("hikey", on_conditions (λ c. record c { key_range = set_range_end as_midi c.key_range }))
      ∷ (
        "key",
        λ r.
            on_pitch (λ p. record p { pitch_keycenter = set_value as_midi p.pitch_keycenter })
              (on_conditions
                (λ c. record c {
                  key_range = set_range_end as_midi (set_range_start as_midi c.key_range);
                })
                r),
      )
      ∷ (
        "lovel",
        on_conditions (λ c. record c { velocity_range = set_range_start as_midi c.velocity_range }),
      )
      ∷ (
        "hivel",
        on_conditions (λ c. record c { velocity_range = set_range_end as_midi c.velocity_range }),
      )
      ∷ (
        "lochan",
        on_conditions
            (λ c. record c { channel_range = set_range_start as_channel c.channel_range }),
      )
      ∷ (
        "hichan",
        on_conditions (λ c. record c { channel_range = set_range_end as_channel c.channel_range }),
      )
      ∷ (
        "lobend",
        on_conditions (λ c. record c { bend_range = set_signed_start as_bend c.bend_range }),
      )
      ∷ (
        "hibend",
        on_conditions (λ c. record c { bend_range = set_signed_end as_bend c.bend_range }),
      )
      ∷ (
        "locc",
        on_conditions (λ c. record c {
          cc_conditions = at_parameter op (set_range_start as_midi) c.cc_conditions;
        }),
      )
      ∷ (
        "hicc",
        on_conditions (λ c. record c {
          cc_conditions = at_parameter op (set_range_end as_midi) c.cc_conditions;
        }),
      )
      ∷ []

  unfoldable pub keyswitch_cases : List (Case F)
  unfolding value_unsigned value_signed value_float read_boolean choose at_parameter
  keyswitch_cases =
      (
        "sw_lokey",
        on_conditions
            (λ c. record c { keyswitch_range = set_range_start as_midi c.keyswitch_range }),
      )
      ∷ (
        "sw_hikey",
        on_conditions (λ c. record c { keyswitch_range = set_range_end as_midi c.keyswitch_range }),
      )
      ∷ (
        "sw_last",
        λ r.
            on_switches (λ s. record s { key_switched = false })
              (on_conditions (λ c. record c { keyswitch = set_optional as_midi c.keyswitch }) r),
      )
      ∷ (
        "sw_down",
        λ r.
            on_switches (λ s. record s { key_switched = false })
              (on_conditions
                (λ c. record c { keyswitch_down = set_optional as_midi c.keyswitch_down }) r),
      )
      ∷ (
        "sw_up",
        on_conditions (λ c. record c { keyswitch_up = set_optional as_midi c.keyswitch_up }),
      )
      ∷ (
        "sw_previous",
        λ r.
            on_switches (λ s. record s { previous_key_switched = false })
              (on_conditions
                (λ c. record c { previous_note = set_optional as_midi c.previous_note }) r),
      )
      ∷ (
        "sw_vel",
        on_conditions (λ c. record c {
          velocity_override =
              choose
                (("current", SfzVelocityOverride.current)
                  ∷ ("previous", SfzVelocityOverride.previous)
                  ∷ [])
                op c.velocity_override;
        }),
      )
      ∷ (
        "sustain_sw",
        on_conditions (λ c. record c { check_sustain = set_value (read_boolean op) true }),
      )
      ∷ (
        "sostenuto_sw",
        on_conditions (λ c. record c { check_sostenuto = set_value (read_boolean op) true }),
      )
      ∷ []

  unfoldable pub internal_cases : List (Case F)
  unfolding value_unsigned value_signed value_float read_boolean choose at_parameter
  internal_cases =
      (
        "lochanaft",
        on_conditions
            (λ c. record c { aftertouch_range = set_range_start as_midi c.aftertouch_range }),
      )
      ∷ (
        "hichanaft",
        on_conditions
            (λ c. record c { aftertouch_range = set_range_end as_midi c.aftertouch_range }),
      )
      ∷ ("lobpm", on_conditions (λ c. record c { bpm_range = set_float_start as_bpm c.bpm_range }))
      ∷ ("hibpm", on_conditions (λ c. record c { bpm_range = set_float_end as_bpm c.bpm_range }))
      ∷ (
        "lorand",
        on_conditions (λ c. record c { rand_range = set_float_start as_rand c.rand_range }),
      )
      ∷ (
        "hirand",
        on_conditions (λ c. record c { rand_range = set_float_end as_rand c.rand_range }),
      )
      ∷ (
        "seq_length",
        on_conditions (λ c. record c { sequence_length = set_value as_sequence c.sequence_length }),
      )
      ∷ (
        "seq_position",
        λ r.
            on_switches (λ s. record s { sequence_switched = is_same op.value (codes "1") })
              (on_conditions
                (λ c. record c { sequence_position = set_value as_sequence c.sequence_position })
                r),
      )
      ∷ (
        "trigger",
        on_conditions (λ c. record c {
          trigger =
              choose
                (("attack", SfzTrigger.attack)
                  ∷ ("first", SfzTrigger.first)
                  ∷ ("legato", SfzTrigger.legato)
                  ∷ ("release", SfzTrigger.release)
                  ∷ ("release_key", SfzTrigger.release_key)
                  ∷ [])
                op c.trigger;
        }),
      )
      ∷ (
        "on_locc",
        on_conditions (λ c. record c {
          cc_triggers = at_parameter op (set_range_start as_midi) c.cc_triggers;
        }),
      )
      ∷ (
        "on_hicc",
        on_conditions
            (λ c. record c { cc_triggers = at_parameter op (set_range_end as_midi) c.cc_triggers }),
      )
      ∷ []
