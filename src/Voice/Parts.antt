-- ===== src/Voice/Parts.antt =====
-- Voice.h: the members of a voice. A voice keeps the region that it plays as a value, since the
-- settings of a region do not change once it is loaded; `id` stands for the address of the voice.
-- Delays are positions in a block, and not negative.
use sfizz.Base.{ℕ, Bool, true, false, Option}
use sfizz.Base.Int.{ℤ}
use sfizz.HistoricalBuffer.{HistoricalBuffer}
use sfizz.Envelope.Adsr.{Adsr}
use sfizz.Envelope.Linear.{LinearEnvelope}
use sfizz.Region.{Region, SfzLoopMode, AudioBuffer}

pub data State : Type 0 where
  idle playing release : State

pub data TriggerType : Type 0 where
  note_on note_off cc : TriggerType

pub record Voice (F : Type 0) : Type 0 where
  pub id : ℕ
  pub region : Option (Region F)
  pub state : State
  pub note_is_off : Bool
  pub trigger_type : TriggerType
  pub trigger_number : ℕ
  pub trigger_channel : ℕ
  pub trigger_value : ℕ
  pub speed_ratio : F
  pub pitch_ratio : F
  pub base_volume_db : F
  pub base_gain : F
  pub base_pan : F
  pub base_position : F
  pub base_width : F
  pub base_frequency : F
  pub phase : F
  pub float_position_offset : F
  pub source_position : ℤ
  pub initial_delay : ℕ
  pub data_ready : Bool
  pub file_data : Option (AudioBuffer F)
  pub ticket : ℕ
  pub samples_per_block : ℕ
  -- The values of each of the four temporary spans.
  pub span_size : ℕ
  pub sample_rate : F
  pub eg_envelope : Adsr F
  pub volume_envelope : LinearEnvelope F
  pub amplitude_envelope : LinearEnvelope F
  pub pan_envelope : LinearEnvelope F
  pub position_envelope : LinearEnvelope F
  pub width_envelope : LinearEnvelope F
  pub power_history : HistoricalBuffer F

-- What an event brings.
pub record Trigger : Type 0 where
  pub delay : ℕ
  pub channel : ℕ
  pub number : ℕ
  pub value : ℕ
  pub kind : TriggerType

abbrev pub is_playing : State → Bool
is_playing State.playing = true
is_playing _ = false

abbrev pub is_one_shot : SfzLoopMode → Bool
is_one_shot SfzLoopMode.one_shot = true
is_one_shot _ = false

abbrev pub is_cc_trigger : TriggerType → Bool
is_cc_trigger TriggerType.cc = true
is_cc_trigger _ = false

abbrev pub is_note_on_trigger : TriggerType → Bool
is_note_on_trigger TriggerType.note_on = true
is_note_on_trigger _ = false

-- `config::sustainCC` and `config::halfCCThreshold`.
abbrev pub sustain_cc : ℕ
sustain_cc = 64

abbrev pub half_cc_threshold : ℕ
half_cc_threshold = 64
