-- ===== src/Region/Defaults.antt =====
-- Defaults.h, and the member initialisers and the constructor of Region.h and EGDescription.h.
use sfizz.Base.{ℕ, true, [], none, ◌-◌, ◌^◌, replicate}
use sfizz.Base.Int.{ℤ, pos, negsuc}
use sfizz.Float.{FloatOps, of_nat}
use sfizz.Range.{Range}
use sfizz.CcMap
use sfizz.Region.Parts.{
  SfzTrigger, SfzLoopMode, SfzOffMode, SfzVelocityOverride, SfzCrossfadeCurve, Conditions,
  Amplifier, EgDescription, Switches, Region,
}

abbrev pub max32 : ℕ
max32 = 2 ^ 32 - 1

-- `keyRange`, `velocityRange`, `ccRange` and the other ranges of MIDI values.
abbrev pub midi_range : Range ℕ
midi_range = record { start = 0; end = 127 }

-- `offsetRange`, `sampleEndRange`, `sampleCountRange`, `loopRange` and `groupRange`.
abbrev pub range32 : Range ℕ
range32 = record { start = 0; end = max32 }

abbrev pub channel_range : Range ℕ
channel_range = record { start = 1; end = 16 }

abbrev pub bend_range : Range ℤ
bend_range = record { start = negsuc 8191; end = pos 8192 }

abbrev pub sequence_range : Range ℕ
sequence_range = record { start = 1; end = 100 }

abbrev pub crossfade_in_range : Range ℕ
crossfade_in_range = record { start = 0; end = 0 }

abbrev pub crossfade_out_range : Range ℕ
crossfade_out_range = record { start = 127; end = 127 }

-- As constructed: every switch is on, and no note is active.
unfoldable pub initial_switches : Switches
initial_switches = record {
  key_switched = true;
  previous_key_switched = true;
  sequence_switched = true;
  pitch_switched = true;
  bpm_switched = true;
  aftertouch_switched = true;
  cc_switched = replicate 128 true;
  active_notes_in_range = negsuc 0;
  sequence_counter = 0;
}

module _ {F : Type 0} ⦃o : FloatOps F⦄ where
  abbrev nought : F
  nought = of_nat 0

  abbrev pub whole_range : ℤ → ℤ → Range F
  whole_range s e = record { start = o.of_int s; end = o.of_int e }

  unfoldable pub default_conditions : Conditions F
  default_conditions = record {
    key_range = midi_range;
    velocity_range = midi_range;
    channel_range = channel_range;
    bend_range = bend_range;
    cc_conditions = CcMap.empty midi_range;
    keyswitch_range = midi_range;
    keyswitch = none;
    keyswitch_up = none;
    keyswitch_down = none;
    previous_note = none;
    velocity_override = SfzVelocityOverride.current;
    check_sustain = true;
    check_sostenuto = true;
    aftertouch_range = midi_range;
    bpm_range = whole_range (pos 0) (pos 500);
    rand_range = whole_range (pos 0) (pos 1);
    sequence_length = 1;
    sequence_position = 1;
    trigger = SfzTrigger.attack;
    cc_triggers = CcMap.empty midi_range;
  }

  unfoldable pub default_amplifier : Amplifier F
  default_amplifier = record {
    volume = o.of_int (negsuc 2);
    amplitude = of_nat 100;
    pan = nought;
    width = nought;
    position = nought;
    volume_cc = none;
    amplitude_cc = none;
    pan_cc = none;
    width_cc = none;
    position_cc = none;
    amp_keycenter = 60;
    amp_keytrack = nought;
    amp_veltrack = of_nat 100;
    velocity_points = [];
    amp_random = nought;
    crossfade_key_in_range = crossfade_in_range;
    crossfade_key_out_range = crossfade_out_range;
    crossfade_vel_in_range = crossfade_in_range;
    crossfade_vel_out_range = crossfade_out_range;
    crossfade_key_curve = SfzCrossfadeCurve.power;
    crossfade_vel_curve = SfzCrossfadeCurve.power;
    crossfade_cc_curve = SfzCrossfadeCurve.power;
    crossfade_cc_in_range = CcMap.empty crossfade_in_range;
    crossfade_cc_out_range = CcMap.empty crossfade_out_range;
    rt_decay = nought;
  }

  unfoldable pub default_eg : EgDescription F
  default_eg = record {
    attack = nought;
    decay = nought;
    delay = nought;
    hold = nought;
    release = nought;
    start = nought;
    sustain = of_nat 100;
    depth = pos 0;
    vel2attack = nought;
    vel2decay = nought;
    vel2delay = nought;
    vel2hold = nought;
    vel2release = nought;
    vel2sustain = nought;
    vel2depth = pos 0;
    cc_attack = none;
    cc_decay = none;
    cc_delay = none;
    cc_hold = none;
    cc_release = none;
    cc_start = none;
    cc_sustain = none;
  }

  unfoldable pub initial : Region F
  unfolding default_conditions default_amplifier default_eg initial_switches
  initial = record {
    sound = record {
      sample = [];
      delay = nought;
      delay_random = nought;
      offset = 0;
      offset_random = 0;
      sample_end = max32;
      sample_count = none;
      loop_mode = SfzLoopMode.no_loop;
      loop_range = range32;
    };
    lifecycle = record { group = 0; off_by = none; off_mode = SfzOffMode.fast };
    conditions = default_conditions;
    amplifier = default_amplifier;
    pitch = record {
      pitch_keycenter = 60;
      pitch_keytrack = pos 100;
      pitch_random = pos 0;
      pitch_veltrack = pos 0;
      transpose = pos 0;
      tune = pos 0;
    };
    amplitude_eg = default_eg;
    pitch_eg = default_eg;
    filter_eg = default_eg;
    sample_rate = of_nat 48000;
    preloaded_data = none;
    switches = initial_switches;
    distributions = record {
      volume_distribution = (nought, nought);
      delay_distribution = (nought, nought);
      offset_distribution = (0, 0);
      pitch_distribution = (pos 0, pos 0);
    };
  }
