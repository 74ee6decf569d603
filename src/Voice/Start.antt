-- ===== src/Voice/Start.antt =====
-- Voice.cpp: `startVoice` and `prepareEGEnvelope`.
use sfizz.Base.{ℕ, ◌+◌, List, Option, none, some, if◌then◌else◌, get_or}
use sfizz.Base.Int.{ℤ, pos, ◌+ℤ◌, pos_part}
use sfizz.Voice.Filling.{as_int}
use sfizz.Float.{FloatOps, of_nat}
use sfizz.Envelope.Adsr
use sfizz.Envelope.Linear
use sfizz.Region.{Region, CcValuePair}
use sfizz.Region.Triggers.{is_release}
use sfizz.Region.Gain.{
  Draws, normalize_cc, normalize_percents, normalize_negative_percents, db2mag, midi_note_frequency,
  get_attack, get_decay, get_delay_eg, get_hold, get_release, get_start, get_sustain,
  get_base_pitch_variation, get_base_volume_db, get_base_gain, get_offset, get_delay, get_note_gain,
  get_crossfade_gain,
}
use sfizz.Voice.Parts.{Voice, State, Trigger, is_cc_trigger}

module _ {F : Type 0} ⦃o : FloatOps F⦄ where
  open o use {add, mul, div, to_int}

  -- A base value with a controller: `base + normalizeCC(cc) * scale(depth)`.
  with_cc : List ℕ → (F → F) → Option (CcValuePair F) → F → F
  with_cc ccs scale none base = base
  with_cc ccs scale (some (controller, depth)) base =
      add base (mul (normalize_cc (get_or ccs controller 0)) (scale depth))

  -- The same as a factor.
  scaled_by_cc : List ℕ → Option (CcValuePair F) → F → F
  scaled_by_cc ccs none base = base
  scaled_by_cc ccs (some (controller, depth)) base =
      mul base (mul (normalize_cc (get_or ccs controller 0)) (normalize_percents depth))

  -- `prepareEGEnvelope`: the times in seconds become counts of samples.
  unfoldable pub prepare_eg_envelope : Voice F → Region F → List ℕ → ℤ → ℕ → Voice F
  unfolding Adsr.reset
  prepare_eg_envelope v r ccs delay velocity =
      let e = r.amplitude_eg in
      let samples = λ (seconds : F). to_int (mul seconds v.sample_rate) in
      record v {
        eg_envelope = Adsr.reset (record {
          attack = samples (get_attack ccs velocity e);
          release = samples (get_release ccs velocity e);
          sustain = normalize_percents (get_sustain ccs velocity e);
          delay = delay +ℤ samples (get_delay_eg ccs velocity e);
          decay = samples (get_decay ccs velocity e);
          hold = samples (get_hold ccs velocity e);
          start = normalize_percents (get_start ccs velocity e);
          depth = of_nat 1;
        });
      }

  -- The members that the trigger and the gains of the region set. A velocity that the curve of the
  -- region does not cover has no gain in the model, where one stands for it.
  set_levels : Voice F → Region F → List ℕ → Draws F → F → Trigger → Voice F
  unfolding with_cc scaled_by_cc Linear.reset
  set_levels v r ccs draws duration t =
      let a = r.amplifier in
      let volume = get_base_volume_db a (is_release r.conditions.trigger) draws duration in
      let note_gain : F = elim (get_note_gain a t.number t.value) [
        | none ↦ of_nat 1
        | some g ↦ g
      ] in
      let faded = mul (get_base_gain a) (get_crossfade_gain a ccs) in
      let gain = if is_cc_trigger t.kind then faded else mul faded note_gain in
      let pan = normalize_negative_percents a.pan in
      let position = normalize_negative_percents a.position in
      let width = normalize_negative_percents a.width in
      let negative = λ (x : F). normalize_negative_percents x in
      record v {
        speed_ratio = div r.sample_rate v.sample_rate;
        pitch_ratio = get_base_pitch_variation r.pitch draws t.number t.value;
        base_volume_db = volume;
        volume_envelope =
            Linear.reset v.volume_envelope (db2mag (with_cc ccs (λ x. x) a.volume_cc volume));
        base_gain = gain;
        amplitude_envelope =
            Linear.reset v.amplitude_envelope (scaled_by_cc ccs a.amplitude_cc gain);
        base_pan = pan;
        pan_envelope = Linear.reset v.pan_envelope (with_cc ccs negative a.pan_cc pan);
        base_position = position;
        position_envelope =
            Linear.reset v.position_envelope (with_cc ccs negative a.position_cc position);
        base_width = width;
        width_envelope = Linear.reset v.width_envelope (with_cc ccs negative a.width_cc width);
      }

  unfoldable pub start_voice : Voice F → Region F → List ℕ → Draws F → F → Trigger → Voice F
  unfolding set_levels prepare_eg_envelope
  start_voice v r ccs draws duration t =
      let levels = set_levels v r ccs draws duration t in
      let wait = mul (o.of_int (get_delay r.sound draws)) v.sample_rate in
      let delay = t.delay + pos_part (to_int wait) in
      let v' = record levels {
        trigger_type = t.kind;
        trigger_number = t.number;
        trigger_channel = t.channel;
        trigger_value = t.value;
        region = some r;
        state = State.playing;
        source_position = as_int (get_offset r.sound draws);
        initial_delay = delay;
        base_frequency = mul (midi_note_frequency t.number) levels.pitch_ratio;
      } in
      prepare_eg_envelope v' r ccs (pos delay) t.value
