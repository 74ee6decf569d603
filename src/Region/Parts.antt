-- ===== src/Region/Parts.antt =====
-- Region.h and EGDescription.h: the fields of a region.
use sfizz.Base.{ℕ, Bool, List, Option}
use sfizz.Base.Int.{ℤ}
use sfizz.Range.{Range}
use sfizz.CcMap.{CcMap}

pub data SfzTrigger : Type 0 where
  attack release release_key first legato : SfzTrigger

pub data SfzLoopMode : Type 0 where
  no_loop one_shot loop_continuous loop_sustain : SfzLoopMode

pub data SfzOffMode : Type 0 where
  fast normal : SfzOffMode

pub data SfzVelocityOverride : Type 0 where
  current previous : SfzVelocityOverride

pub data SfzCrossfadeCurve : Type 0 where
  gain power : SfzCrossfadeCurve

-- sfizz/AudioBuffer.h, seen as the samples of its channels.
pub record AudioBuffer (F : Type 0) : Type 0 where
  pub channels : List (List F)
  pub num_frames : ℕ

pub record Sound (F : Type 0) : Type 0 where
  pub sample : List ℕ
  pub delay : F
  pub delay_random : F
  pub offset : ℕ
  pub offset_random : ℕ
  pub sample_end : ℕ
  pub sample_count : Option ℕ
  pub loop_mode : SfzLoopMode
  pub loop_range : Range ℕ

pub record Lifecycle : Type 0 where
  pub group : ℕ
  pub off_by : Option ℕ
  pub off_mode : SfzOffMode

pub record Conditions (F : Type 0) : Type 0 where
  pub key_range : Range ℕ
  pub velocity_range : Range ℕ
  pub channel_range : Range ℕ
  pub bend_range : Range ℤ
  pub cc_conditions : CcMap (Range ℕ)
  pub keyswitch_range : Range ℕ
  pub keyswitch : Option ℕ
  pub keyswitch_up : Option ℕ
  pub keyswitch_down : Option ℕ
  pub previous_note : Option ℕ
  pub velocity_override : SfzVelocityOverride
  pub check_sustain : Bool
  pub check_sostenuto : Bool
  pub aftertouch_range : Range ℕ
  pub bpm_range : Range F
  pub rand_range : Range F
  pub sequence_length : ℕ
  pub sequence_position : ℕ
  pub trigger : SfzTrigger
  pub cc_triggers : CcMap (Range ℕ)

-- `CCValuePair`: a controller and a depth.
abbrev pub CcValuePair : Type 0 → Type 0
CcValuePair F = ℕ × F

pub record Amplifier (F : Type 0) : Type 0 where
  pub volume : F
  pub amplitude : F
  pub pan : F
  pub width : F
  pub position : F
  pub volume_cc : Option (CcValuePair F)
  pub amplitude_cc : Option (CcValuePair F)
  pub pan_cc : Option (CcValuePair F)
  pub width_cc : Option (CcValuePair F)
  pub position_cc : Option (CcValuePair F)
  pub amp_keycenter : ℕ
  pub amp_keytrack : F
  pub amp_veltrack : F
  pub velocity_points : List (ℕ × F)
  pub amp_random : F
  pub crossfade_key_in_range : Range ℕ
  pub crossfade_key_out_range : Range ℕ
  pub crossfade_vel_in_range : Range ℕ
  pub crossfade_vel_out_range : Range ℕ
  pub crossfade_key_curve : SfzCrossfadeCurve
  pub crossfade_vel_curve : SfzCrossfadeCurve
  pub crossfade_cc_curve : SfzCrossfadeCurve
  pub crossfade_cc_in_range : CcMap (Range ℕ)
  pub crossfade_cc_out_range : CcMap (Range ℕ)
  pub rt_decay : F

pub record Pitch : Type 0 where
  pub pitch_keycenter : ℕ
  pub pitch_keytrack : ℤ
  pub pitch_random : ℤ
  pub pitch_veltrack : ℤ
  pub transpose : ℤ
  pub tune : ℤ

pub record EgDescription (F : Type 0) : Type 0 where
  pub attack : F
  pub decay : F
  pub delay : F
  pub hold : F
  pub release : F
  pub start : F
  pub sustain : F
  pub depth : ℤ
  pub vel2attack : F
  pub vel2decay : F
  pub vel2delay : F
  pub vel2hold : F
  pub vel2release : F
  pub vel2sustain : F
  pub vel2depth : ℤ
  pub cc_attack : Option (CcValuePair F)
  pub cc_decay : Option (CcValuePair F)
  pub cc_delay : Option (CcValuePair F)
  pub cc_hold : Option (CcValuePair F)
  pub cc_release : Option (CcValuePair F)
  pub cc_start : Option (CcValuePair F)
  pub cc_sustain : Option (CcValuePair F)

-- The private members: what the events so far have switched.
pub record Switches : Type 0 where
  pub key_switched : Bool
  pub previous_key_switched : Bool
  pub sequence_switched : Bool
  pub pitch_switched : Bool
  pub bpm_switched : Bool
  pub aftertouch_switched : Bool
  pub cc_switched : List Bool
  pub active_notes_in_range : ℤ
  pub sequence_counter : ℕ

pub record Distributions (F : Type 0) : Type 0 where
  pub volume_distribution : F × F
  pub delay_distribution : F × F
  pub offset_distribution : ℕ × ℕ
  pub pitch_distribution : ℤ × ℤ

pub record Region (F : Type 0) : Type 0 where
  pub sound : Sound F
  pub lifecycle : Lifecycle
  pub conditions : Conditions F
  pub amplifier : Amplifier F
  pub pitch : Pitch
  pub amplitude_eg : EgDescription F
  pub pitch_eg : EgDescription F
  pub filter_eg : EgDescription F
  pub sample_rate : F
  pub preloaded_data : Option (AudioBuffer F)
  pub switches : Switches
  pub distributions : Distributions F
