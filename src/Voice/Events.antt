-- ===== src/Voice/Events.antt =====
-- Voice.cpp: the events of a voice, its reset, and the choice of the samples that it plays.
use sfizz.Base.{
  ℕ, Bool, true, false, ◌&&◌, List, Option, none, some, ltb, ◌==◌, if◌then◌else◌, get_or, is_just,
}
use sfizz.Base.Int.{pos}
use sfizz.Float.{FloatOps, of_nat}
use sfizz.HistoricalBuffer.{get_average}
use sfizz.Envelope.Adsr.{start_release}
use sfizz.Envelope.Linear.{LinearEnvelope, register_event}
use sfizz.Region.{Region, CcValuePair, AudioBuffer}
use sfizz.Region.Gain.{
  normalize_cc, normalize_percents, normalize_negative_percents, db2mag, can_use_preloaded_data,
}
use sfizz.Voice.Parts.{
  Voice, State, is_playing, is_one_shot, is_note_on_trigger, sustain_cc, half_cc_threshold,
}

module _ {F : Type 0} where
  unfoldable pub is_free : Voice F → Bool
  is_free v = elim v.region [ none ↦ true | some r ↦ false ]

  unfoldable pub can_be_stolen : Voice F → Bool
  can_be_stolen v = elim v.state [ State.release ↦ true | _ ↦ false ]

  unfoldable pub expect_file_data : Voice F → ℕ → Voice F
  expect_file_data v ticket = record v { ticket = ticket }

  unfoldable pub set_file_data : Voice F → AudioBuffer F → ℕ → Voice F
  set_file_data v file ticket =
      if ticket == v.ticket then record v { file_data = some file; data_ready = true } else v

  -- The temporary spans get the size, too, where there is memory for them; see Buffer for a size of
  -- zero.
  unfoldable pub set_samples_per_block : Voice F → ℕ → Voice F
  set_samples_per_block v n = record v { samples_per_block = n; span_size = n }

  unfoldable pub garbage_collect : Voice F → Voice F
  garbage_collect v = elim v.state [
    | State.idle ↦ elim v.region [ none ↦ record v { file_data = none } | some r ↦ v ]
    | _ ↦ v
  ]

  unfoldable pub release_voice : Voice F → ℕ → Voice F
  release_voice v delay =
      if is_playing v.state
      then record v { state = State.release; eg_envelope = start_release v.eg_envelope delay }
      else v

  -- `!region->checkSustain || midiState.cc[config::sustainCC] < config::halfCCThreshold`.
  abbrev pub pedal_allows : Region F → List ℕ → Bool
  pedal_allows r ccs =
      if r.conditions.check_sustain then ltb (get_or ccs sustain_cc 0) half_cc_threshold else true

  -- The note-off of the note of the voice.
  note_ended : Voice F → Region F → List ℕ → ℕ → Voice F
  unfolding release_voice
  note_ended v r ccs delay =
      let v' = record v { note_is_off = true } in
      if is_one_shot r.sound.loop_mode
      then v'
      else if pedal_allows r ccs
      then release_voice v' delay
      else v'

  unfoldable pub register_note_off : Voice F → List ℕ → ℕ → ℕ → ℕ → Voice F
  unfolding note_ended
  register_note_off v ccs delay channel note = elim v.region [
    | none ↦ v
    | some r ↦
        if is_playing v.state && v.trigger_channel == channel && v.trigger_number == note
        then note_ended v r ccs delay
        else v
  ]

  -- The group is that of the region that starts.
  unfoldable pub check_off_group : Voice F → ℕ → ℕ → Voice F × Bool
  unfolding release_voice
  check_off_group v delay group = elim v.region [
    | none ↦ (v, false)
    | some r ↦
        if is_note_on_trigger v.trigger_type && is_just r.lifecycle.off_by group
        then (release_voice v delay, true)
        else (v, false)
  ]

module _ {F : Type 0} ⦃o : FloatOps F⦄ where
  open o use {add, mul}

  unfoldable pub reset : Voice F → Voice F
  reset v = record v {
    data_ready = false;
    file_data = none;
    state = State.idle;
    region = none;
    source_position = pos 0;
    float_position_offset = of_nat 0;
    note_is_off = false;
  }

  unfoldable pub set_sample_rate : Voice F → F → Voice F
  set_sample_rate v rate = record v { sample_rate = rate }

  unfoldable pub get_mean_squared_average : Voice F → F
  unfolding get_average
  get_mean_squared_average v = get_average v.power_history

  -- `fillWithData` chooses the samples that it plays: those of the file once they are there, if the
  -- preloaded ones do not suffice.
  unfoldable pub source : Voice F → Region F → Option (AudioBuffer F)
  unfolding can_use_preloaded_data
  source v r =
      if can_use_preloaded_data r
      then r.preloaded_data
      else if v.data_ready
      then v.file_data
      else r.preloaded_data

  -- The five events of `registerCC`, each for the controller that its member names.
  abbrev answers : Option (CcValuePair F) → ℕ → Option F
  answers none controller = none
  answers (some (c, depth)) controller = if c == controller then some depth else none

  abbrev register_if : Option F → LinearEnvelope F → ℕ → (F → F) → LinearEnvelope F
  register_if none e delay value = e
  register_if (some depth) e delay value = register_event e delay (value depth)

  -- A controller of the volume registers its event with the amplitude envelope, after that of the
  -- amplitude.
  cc_events : Voice F → Region F → ℕ → ℕ → ℕ → Voice F
  cc_events v r delay controller value =
      let a = r.amplifier in
      let n = normalize_cc value in
      let gain = λ (d : F). mul (mul v.base_gain n) (normalize_percents d) in
      let volume = λ (d : F). db2mag (add v.base_volume_db (mul n d)) in
      let amplitude' =
        register_if (answers a.amplitude_cc controller) v.amplitude_envelope delay gain in
      let moved = λ (base d : F). add base (mul n (normalize_negative_percents d)) in
      record v {
        amplitude_envelope = register_if (answers a.volume_cc controller) amplitude' delay volume;
        pan_envelope =
            register_if (answers a.pan_cc controller) v.pan_envelope delay (moved v.base_pan);
        position_envelope =
            register_if (answers a.position_cc controller) v.position_envelope delay
              (moved v.base_position);
        width_envelope =
            register_if (answers a.width_cc controller) v.width_envelope delay (moved v.base_width);
      }

  unfoldable pub register_cc : Voice F → ℕ → ℕ → ℕ → Voice F
  unfolding cc_events release_voice
  register_cc v delay controller value = elim v.region [
    | none ↦ v
    | some r ↦
        let lifted =
          r.conditions.check_sustain
          && v.note_is_off
          && controller == sustain_cc
          && ltb value half_cc_threshold in
        cc_events (if lifted then release_voice v delay else v) r delay controller value
  ]
