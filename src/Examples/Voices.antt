-- ===== src/Examples/Voices.antt =====
-- Voices on concrete events.
use sfizz.Base.{
  ℕ, ◌≡◌, refl, true, false, ◌&&◌, List, [], ◌∷◌, none, some, if◌then◌else◌, replicate,
}
use sfizz.Base.Int.{ℤ, pos}
use sfizz.Float.{whole}
use sfizz.HistoricalBuffer
use sfizz.Envelope.Adsr.{Adsr}
use sfizz.Envelope.Adsr
use sfizz.Envelope.Linear.{LinearEnvelope}
use sfizz.Region.{Region, SfzLoopMode, AudioBuffer}
use sfizz.Region.Defaults.{default_conditions, initial}
use sfizz.Region.Gain.{Draws, can_use_preloaded_data}
use sfizz.Voice.Parts.{Voice, State, TriggerType, Trigger}
use sfizz.Voice.Events.{is_free, can_be_stolen, expect_file_data, set_file_data, reset, source}
use sfizz.Voice.Start.{start_voice}
use sfizz.Voice.Lifecycle.{
  Operation, starts, note_offs, controls, resets, operate_all, IsConsistent,
  operate_all-IsConsistent,
}
use sfizz.Voice.Sustain.{control_all, lifts, control_all-playing}
use sfizz.Voice.Loading.{stale_source}

abbrev flat : LinearEnvelope ℤ
flat = record { function = λ x. x; events = []; max_capacity = 8; current_value = pos 0 }

abbrev idle_eg : Adsr ℤ
idle_eg = record {
  state = Adsr.State.done;
  current_value = pos 0;
  step = pos 0;
  delay = pos 0;
  attack = pos 0;
  decay = pos 0;
  release = pos 0;
  hold = pos 0;
  start = pos 0;
  peak = pos 0;
  sustain = pos 0;
  release_delay = pos 0;
  should_release = false;
}

abbrev pub silent : Voice ℤ
silent = record {
  id = 0;
  region = none;
  state = State.idle;
  note_is_off = false;
  trigger_type = TriggerType.note_on;
  trigger_number = 0;
  trigger_channel = 0;
  trigger_value = 0;
  speed_ratio = pos 1;
  pitch_ratio = pos 1;
  base_volume_db = pos 0;
  base_gain = pos 1;
  base_pan = pos 0;
  base_position = pos 0;
  base_width = pos 0;
  base_frequency = pos 440;
  phase = pos 0;
  float_position_offset = pos 0;
  source_position = pos 0;
  initial_delay = 0;
  data_ready = false;
  file_data = none;
  ticket = 0;
  samples_per_block = 1024;
  span_size = 1024;
  sample_rate = pos 48000;
  eg_envelope = idle_eg;
  volume_envelope = flat;
  amplitude_envelope = flat;
  pan_envelope = flat;
  position_envelope = flat;
  width_envelope = flat;
  power_history = HistoricalBuffer.make 4;
}

abbrev pub sounding : Region ℤ → Voice ℤ
sounding r = record silent {
  region = some r;
  state = State.playing;
  trigger_number = 60;
  trigger_channel = 1;
  trigger_value = 100;
}

abbrev pub controllers : List ℕ
controllers = replicate 128 0

abbrev pub strike : Trigger
strike = record { delay = 0; channel = 1; number = 60; value = 100; kind = TriggerType.note_on }

abbrev pub draws : Draws ℤ
draws = record { pitch = pos 0; volume = pos 0; offset = 0; delay = pos 0 }

abbrev pedal : List (ℕ × ℕ × ℕ)
pedal = (0, 7, 90) ∷ (3, 64, 127) ∷ (9, 64, 0) ∷ []

abbrev piano : Region ℤ
piano = initial

abbrev held : Voice ℤ
held = record (sounding piano) { note_is_off = true }

control_all-playing_example :
    (control_all held pedal).state ≡ (if lifts pedal then State.release else State.playing)
unfolding initial default_conditions
control_all-playing_example = control_all-playing held piano pedal refl refl refl refl

abbrev drum : Region ℤ
drum = record piano { sound = record piano.sound { loop_mode = SfzLoopMode.one_shot } }

abbrev fading : Region ℤ
fading = record piano {
  amplifier = record piano.amplifier { volume_cc = some (7, pos 6); amplitude_cc = none };
}

-- A life of a voice.
abbrev life : List (Operation ℤ)
life =
    starts piano controllers draws (pos 0) strike
    ∷ controls 3 7 90
    ∷ note_offs controllers 5 1 60
    ∷ resets
    ∷ []

operate_all-IsConsistent_example :
    IsConsistent (operate_all silent life)
    × (can_be_stolen (operate_all silent life) && is_free (operate_all silent life) ≡ false)
unfolding is_free
operate_all-IsConsistent_example = operate_all-IsConsistent silent life refl

-- A long file, of which the first frame is preloaded.
abbrev preloaded : AudioBuffer ℤ
preloaded = record { channels = (pos 1 ∷ []) ∷ []; num_frames = 1 }

abbrev long : AudioBuffer ℤ
long = record { channels = (pos 1 ∷ pos 2 ∷ pos 3 ∷ []) ∷ []; num_frames = 3 }

abbrev streamed : Region ℤ
streamed = record piano { preloaded_data = some preloaded }

stale_source_example :
    let idle = set_file_data (reset silent) long 0 in
    let started = expect_file_data (start_voice idle streamed controllers draws (pos 0) strike) 1 in
    source started streamed ≡ some long
unfolding can_use_preloaded_data initial
stale_source_example = stale_source silent streamed long controllers draws (pos 0) strike 1 refl
