-- ===== src/Synth/Events.antt =====
-- Synth.cpp: `noteOn`, `noteOff` and `cc`. `now` is what the clock says when the event comes.
pub mod Keeping
pub mod Runs
pub mod Dispatch
pub mod Guards
use sfizz.Base.{
  ℕ, zero, suc, ◌+◌, ◌%◌, ◌^◌, Bool, true, false, List, [], ◌∷◌, Option, none, some, if◌then◌else◌,
  map, length, set, get_elem?,
}
use sfizz.Float.{FloatOps}
use sfizz.MidiState
use sfizz.MidiState.{get_note_velocity, get_note_duration}
use sfizz.FilePool.{enqueue_loading}
use sfizz.Region.{Region}
use sfizz.Region.Gain.{true_sample_end}
use sfizz.Region.Triggers
use sfizz.Region.Triggers.{is_generator}
use sfizz.Voice.Parts.{Voice, Trigger, TriggerType}
use sfizz.Voice.Events
use sfizz.Voice.Events.{check_off_group, expect_file_data}
use sfizz.Voice.Start.{start_voice}
use sfizz.Synth.{Synth, World}
use sfizz.Synth.Voices.{update, find_free_voice}

module _ {F : Type 0} where
  -- The region of a loop is told of the event; where it answers, `begin` goes on.
  unfoldable pub tell :
      (Region F → Region F × Bool) → (Synth F → Region F → Synth F) → Synth F → ℕ → Synth F
  tell register begin s i = elim (get_elem? s.regions i) [
    | none ↦ s
    | some r ↦
        let (r', starts) = register r in
        let s' = record s { regions = set s.regions i r' } in if starts then begin s' r' else s'
  ]

  unfoldable pub tell_all :
      (Region F → Region F × Bool) → (Synth F → Region F → Synth F) → Synth F → List ℕ → Synth F
  unfolding tell
  tell_all register begin s [] = s
  tell_all register begin s (i ∷ regions) =
      tell_all register begin (tell register begin s i) regions

  -- The constructor and the destructor of the `AtomicGuard`.
  abbrev pub guarded : (Synth F → Synth F) → Synth F → Synth F
  guarded body s = record (body (record s { in_callback = true })) { in_callback = false }

module _ {F : Type 0} ⦃o : FloatOps F⦄ (world : World F) where
  open world use {sort_voices, rand_note, draws, seconds, has_room}

  -- The start of a voice that is found, and the request for its file.
  start : Synth F → List (Voice F) → ℕ → Region F → ℕ → Trigger → Synth F
  unfolding start_voice update expect_file_data enqueue_loading is_generator true_sample_end
  start s voices id r now t =
      let duration = get_note_duration seconds s.midi_state now t.number in
      let begin = λ (v : Voice F). start_voice v r s.midi_state.cc (draws r s.drawn) duration t in
      let started = record s { voices = update id begin voices; drawn = s.drawn + 1 } in
      if is_generator r.sound then started else record started {
        voices = update id (λ v. expect_file_data v s.file_ticket) started.voices;
        file_pool = enqueue_loading has_room s.file_pool (record {
          voice = id;
          sample = r.sound.sample;
          num_frames = true_sample_end r.sound;
          ticket = s.file_ticket;
        });
        file_ticket = (s.file_ticket + 1) % 2 ^ 32;
      }

  -- The part of the three loops behind the answer of a region.
  unfoldable pub launch : Synth F → Region F → ℕ → Trigger → Synth F
  unfolding find_free_voice start
  launch s r now t =
      let (voices, found) = find_free_voice sort_voices s.voices in
      elim found [ none ↦ record s { voices = voices } | some id ↦ start s voices id r now t ]

  note_off_body : ℕ → ℕ → ℕ → ℕ → Synth F → Synth F
  unfolding tell_all launch Triggers.register_note_off Events.register_note_off
  note_off_body now delay channel note s =
      let velocity = get_note_velocity s.midi_state note in
      let ended = λ (v : Voice F). Events.register_note_off v s.midi_state.cc delay channel note in
      let t : Trigger = record {
        delay = delay;
        channel = channel;
        number = note;
        value = velocity;
        kind = TriggerType.note_off;
      } in
      tell_all (λ r. Triggers.register_note_off r channel note velocity (rand_note s.drawn))
        (λ s' r. launch s' r now t) (record s { voices = map ended s.voices; drawn = s.drawn + 1 })
        (s.note_activation_lists note)

  unfoldable pub note_off : Synth F → ℕ → ℕ → ℕ → ℕ → Synth F
  unfolding note_off_body
  note_off s now delay channel note =
      if s.can_enter_callback then guarded (note_off_body now delay channel note) s else s

  -- The voice at a place is checked; the note-off of one that answers reaches every voice.
  unfoldable pub off_one : Synth F → ℕ → ℕ → ℕ → ℕ → Voice F → Synth F
  unfolding note_off check_off_group
  off_one s now delay group place v =
      let (v', off) = check_off_group v delay group in
      let s' = record s { voices = set s.voices place v' } in
      if off then note_off s' now delay v'.trigger_channel v'.trigger_number else s'

  -- The loop over the places of `voices`, which the note-offs in it may sort.
  unfoldable pub off_groups : Synth F → ℕ → ℕ → ℕ → ℕ → ℕ → Synth F
  unfolding off_one
  off_groups s now delay group place zero = s
  off_groups s now delay group place (suc left) = elim (get_elem? s.voices place) [
    | none ↦ s
    | some v ↦ off_groups (off_one s now delay group place v) now delay group (suc place) left
  ]

  note_on_body : ℕ → ℕ → ℕ → ℕ → ℕ → Synth F → Synth F
  unfolding tell_all launch Triggers.register_note_on off_groups
  note_on_body now delay channel note velocity s =
      let t : Trigger = record {
        delay = delay;
        channel = channel;
        number = note;
        value = velocity;
        kind = TriggerType.note_on;
      } in
      let cleared = λ (s' : Synth F) (r : Region F).
        off_groups s' now delay r.lifecycle.group 0 (length s'.voices) in
      tell_all (λ r. Triggers.register_note_on r channel note velocity (rand_note s.drawn))
        (λ s' r. launch (cleared s' r) r now t) (record s { drawn = s.drawn + 1 })
        (s.note_activation_lists note)

  unfoldable pub note_on : Synth F → ℕ → ℕ → ℕ → ℕ → ℕ → Synth F
  unfolding note_on_body MidiState.note_on
  note_on s now delay channel note velocity =
      let s' = record s { midi_state = MidiState.note_on s.midi_state now note velocity } in
      if s.can_enter_callback then guarded (note_on_body now delay channel note velocity) s' else s'

  cc_body : ℕ → ℕ → ℕ → ℕ → ℕ → Synth F → Synth F
  unfolding tell_all launch Triggers.register_cc Events.register_cc
  cc_body now delay channel controller value s =
      let t : Trigger = record {
        delay = delay;
        channel = channel;
        number = controller;
        value = value;
        kind = TriggerType.cc;
      } in
      tell_all (λ r. Triggers.register_cc r channel controller value) (λ s' r. launch s' r now t)
        (record s {
          voices = map (λ v. Events.register_cc v delay controller value) s.voices;
          midi_state = record s.midi_state { cc = set s.midi_state.cc controller value };
        })
        (s.cc_activation_lists controller)

  unfoldable pub cc : Synth F → ℕ → ℕ → ℕ → ℕ → ℕ → Synth F
  unfolding cc_body
  cc s now delay channel controller value =
      if s.can_enter_callback then guarded (cc_body now delay channel controller value) s else s
