-- ===== src/Synth/Construction.antt =====
-- The constructors of a synth, of its voices and of their envelopes, as Synth.h, Voice.h,
-- ADSREnvelope.h and LinearEnvelope.h initialise the members. What a constructor leaves as the memory
-- holds it is an argument: the trigger of a voice and the values of the controllers.
use sfizz.Base.{ℕ, zero, suc, true, false, List, [], ◌∷◌, none}
use sfizz.Base.Int.{pos}
use sfizz.Float.{FloatOps, of_nat}
use sfizz.MidiState.{initial}
use sfizz.HistoricalBuffer
use sfizz.Envelope.Adsr
use sfizz.Envelope.Adsr.{Adsr}
use sfizz.Envelope.Linear.{LinearEnvelope}
use sfizz.Voice.Parts.{Voice, State, Trigger}
use sfizz.Synth.{Synth}

-- `config::numVoices`.
abbrev pub num_voices : ℕ
num_voices = 64

module _ {F : Type 0} ⦃o : FloatOps F⦄ where
  abbrev idle_envelope : Adsr F
  idle_envelope = record {
    state = Adsr.State.done;
    current_value = of_nat 0;
    step = of_nat 0;
    delay = pos 0;
    attack = pos 0;
    decay = pos 0;
    release = pos 0;
    hold = pos 0;
    start = of_nat 0;
    peak = of_nat 0;
    sustain = of_nat 0;
    release_delay = pos 0;
    should_release = false;
  }

  abbrev still_envelope : LinearEnvelope F
  still_envelope = record {
    function = λ x. x;
    events = [];
    max_capacity = 1024;
    current_value = of_nat 0;
  }

  -- `powerHistory` has `config::powerHistoryLength` values.
  unfoldable pub new_voice : Trigger → ℕ → Voice F
  unfolding HistoricalBuffer.make
  new_voice unset id = record {
    id = id;
    region = none;
    state = State.idle;
    note_is_off = false;
    trigger_type = unset.kind;
    trigger_number = unset.number;
    trigger_channel = unset.channel;
    trigger_value = unset.value;
    speed_ratio = of_nat 1;
    pitch_ratio = of_nat 1;
    base_volume_db = of_nat 0;
    base_gain = of_nat 1;
    base_pan = of_nat 0;
    base_position = of_nat 0;
    base_width = of_nat 0;
    base_frequency = of_nat 440;
    phase = of_nat 0;
    float_position_offset = of_nat 0;
    source_position = pos 0;
    initial_delay = 0;
    data_ready = false;
    file_data = none;
    ticket = 0;
    samples_per_block = 1024;
    span_size = 0;
    sample_rate = of_nat 48000;
    eg_envelope = idle_envelope;
    volume_envelope = still_envelope;
    amplitude_envelope = still_envelope;
    pan_envelope = still_envelope;
    position_envelope = still_envelope;
    width_envelope = still_envelope;
    power_history = HistoricalBuffer.make 16;
  }

  -- The loop that makes the voices, from the given number on.
  unfoldable pub new_voices : Trigger → ℕ → ℕ → List (Voice F)
  unfolding new_voice
  new_voices unset id zero = []
  new_voices unset id (suc left) = new_voice unset id ∷ new_voices unset (suc id) left

  -- `root` is the current path.
  unfoldable pub create : Trigger → List ℕ → List ℕ → Synth F
  unfolding new_voices initial
  create unset ccs root = record {
    has_global = false;
    has_control = false;
    num_groups = 0;
    num_masters = 0;
    num_curves = 0;
    global_opcodes = [];
    master_opcodes = [];
    group_opcodes = [];
    file_pool = record { root_directory = []; preloaded_data = []; loading_queue = [] };
    midi_state = initial ccs;
    cc_names = [];
    default_switch = none;
    unknown_opcodes = [];
    regions = [];
    voices = new_voices unset 0 num_voices;
    note_activation_lists = λ note. [];
    cc_activation_lists = λ cc. [];
    samples_per_block = 1024;
    sample_rate = of_nat 48000;
    file_ticket = 1;
    can_enter_callback = true;
    in_callback = false;
    root_directory = root;
    drawn = 0;
  }
