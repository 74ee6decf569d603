-- ===== src/Voice/Sustain.antt =====
-- Voice.cpp: the end of a note under the sustain pedal, and what controllers reach.
use sfizz.Base.{
  ℕ, ◌<◌, ◌≡◌, Bool, not, true, false, ◌&&◌, ◌||◌, List, [], ◌∷◌, none, some, arith, ltb, ◌==◌,
  if◌then◌else◌, length, suc, length-append,
}
use sfizz.Float.{FloatOps}
use sfizz.Envelope.Linear.{LinearEnvelope, register_event}
use sfizz.Region.{Region, SfzLoopMode}
use sfizz.Region.Gain.{db2mag, normalize_cc}
use sfizz.Voice.Parts.{Voice, State, is_playing, is_one_shot, sustain_cc, half_cc_threshold}
use sfizz.Voice.Events.{register_note_off, register_cc, pedal_allows}

-- The pedal is lifted by one of the events.
abbrev pub lifts : List (ℕ × ℕ × ℕ) → Bool
lifts [] = false
lifts ((delay, controller, value) ∷ es) =
    (controller == sustain_cc && ltb value half_cc_threshold) || lifts es

module _ {F : Type 0} ⦃o : FloatOps F⦄ where
  -- A controller event: its delay, controller and value.
  pub control_all : Voice F → List (ℕ × ℕ × ℕ) → Voice F
  control_all v [] = v
  control_all v ((delay, controller, value) ∷ es) =
      control_all (register_cc v delay controller value) es

  -- A controller event leaves the region, the note and all but a playing state alone.
  register_cc_lem :
      (v : Voice F) (r : Region F) (delay controller value : ℕ)
      → v.region ≡ some r
      → r.conditions.check_sustain ≡ true
      → v.note_is_off ≡ true
      → let v' = register_cc v delay controller value in
        (v'.region ≡ some r)
        × (v'.note_is_off ≡ true)
        × (v'.state ≡ (
            if controller == sustain_cc && ltb value half_cc_threshold
            then if is_playing v.state then State.release else v.state
            else v.state))
  unfolding register_cc
  register_cc_lem v r delay controller value e c n = ground arith

  control_all-release :
      (v : Voice F) (r : Region F) (es : List (ℕ × ℕ × ℕ))
      → v.region ≡ some r
      → r.conditions.check_sustain ≡ true
      → v.note_is_off ≡ true
      → v.state ≡ State.release
      → (control_all v es).state ≡ State.release
  unfolding control_all
  control_all-release v r [] e c n s = s
  control_all-release v r ((d, k, x) ∷ es) e c n s =
      let (e', n', s') = register_cc_lem v r d k x e c n in
      control_all-release (register_cc v d k x) r es e' c n' (ground (arith, s'))

  -- Where nothing but controller events reaches it, a playing voice whose note has ended, in a region
  -- that minds the sustain pedal, is playing as long as none of them lifts the pedal, and in release
  -- once one has.
  pub control_all-playing :
      (v : Voice F) (r : Region F) (es : List (ℕ × ℕ × ℕ))
      → v.region ≡ some r
      → r.conditions.check_sustain ≡ true
      → v.note_is_off ≡ true
      → v.state ≡ State.playing
      → (control_all v es).state ≡ (if lifts es then State.release else State.playing)
  unfolding control_all
  control_all-playing v r [] e c n s = s
  control_all-playing v r ((d, k, x) ∷ es) e c n s =
      let (e', n', s') = register_cc_lem v r d k x e c n in
      ground (
        arith,
        s',
        control_all-playing (register_cc v d k x) r es e' c n',
        control_all-release (register_cc v d k x) r es e' c n',
      )

  -- The note-off of a voice that plays: if it is of the note and the channel of the voice, it is
  -- remembered, and releases the voice exactly if the region is not played as a one-shot and the
  -- pedal is up or does not matter. Any other note-off leaves both as they are.
  pub register_note_off_lem :
      (v : Voice F) (r : Region F) (ccs : List ℕ) (delay channel note : ℕ)
      → v.region ≡ some r
      → v.state ≡ State.playing
      → let v' = register_note_off v ccs delay channel note in
        let own = v.trigger_channel == channel && v.trigger_number == note in
        let released = own && not (is_one_shot r.sound.loop_mode) && pedal_allows r ccs in
        (v'.note_is_off ≡ (own || v.note_is_off))
        × (v'.state ≡ (if released then State.release else State.playing))
  unfolding register_note_off
  register_note_off_lem v r ccs delay channel note e s = ground arith

  -- A one-shot is not released by the note-off of its key, but the next time the pedal is lifted
  -- releases it all the same.
  pub one_shot_lifted :
      (v : Voice F) (r : Region F) (ccs : List ℕ) (delay later value : ℕ)
      → v.region ≡ some r
      → v.state ≡ State.playing
      → r.sound.loop_mode ≡ SfzLoopMode.one_shot
      → r.conditions.check_sustain ≡ true
      → value < 64
      → let off = register_note_off v ccs delay v.trigger_channel v.trigger_number in
        (off.state ≡ State.playing) × ((register_cc off later 64 value).state ≡ State.release)
  unfolding register_note_off register_cc
  one_shot_lifted v r ccs delay later value e s m c l = ground arith

  length-register_event :
      (e : LinearEnvelope F) (t : ℕ) (x : F)
      → length e.events < e.max_capacity
      → length (register_event e t x).events ≡ suc (length e.events)
  unfolding register_event
  length-register_event e t x l = ground (arith, length-append e.events ((t, e.function x) ∷ []))

  -- A controller of the volume moves the amplitude: in a region without a controller of the
  -- amplitude, an event of the controller of the volume leaves the envelope of the volume as it is,
  -- and is one more event of the amplitude's envelope, if this has room.
  pub register_cc-volume :
      (v : Voice F) (r : Region F) (delay controller value : ℕ) (depth : F)
      → v.region ≡ some r
      → r.amplifier.volume_cc ≡ some (controller, depth)
      → r.amplifier.amplitude_cc ≡ none
      → length v.amplitude_envelope.events < v.amplitude_envelope.max_capacity
      → let v' = register_cc v delay controller value in
        (v'.volume_envelope ≡ v.volume_envelope)
        × (length v'.amplitude_envelope.events ≡ suc (length v.amplitude_envelope.events))
  unfolding register_cc
  register_cc-volume v r delay controller value depth e c a l = ground (
    arith,
    length-register_event v.amplitude_envelope delay
        (db2mag (o.add v.base_volume_db (o.mul (normalize_cc value) depth))) l,
  )
