-- ===== src/Synth/Events/Runs.antt =====
-- Synth.cpp: what no sequence of notes and controllers changes.
use mathlib.Core.List.Perm
use sfizz.Base.{
  ℕ, zero, suc, ◌+◌, ◌≡◌, refl, List, [], ◌∷◌, map, if◌then◌else◌, Option-cases, inl, inr, length,
  set, get_elem?,
}
use sfizz.Base.Members.{Perm}
use sfizz.Float.{FloatOps}
use sfizz.MidiState
use sfizz.Region.{Region}
use sfizz.Region.Triggers
use sfizz.Region.Triggers.{is_generator}
use sfizz.Voice.Parts.{Voice, Trigger, TriggerType}
use sfizz.Voice.Events
use sfizz.Voice.Events.{check_off_group, expect_file_data, release_voice}
use sfizz.Synth.{Synth, World}
use sfizz.Synth.Voices.Searching.{marks}
use sfizz.Synth.Events.Keeping.{
  IsKept, kept, then-IsKept, voices-IsKept, if-IsKept, marks-map, marks-set, mark-register_note_off,
  mark-check_off_group, mark-register_cc, launch-IsKept, tell_all-IsKept, guarded-IsKept,
  told-IsKept, register_note_on-IsSetting, register_note_off-IsSetting, register_cc-IsSetting,
}
use sfizz.Synth.Events.{
  launch, note_off_body, note_off, off_groups, note_on_body, note_on, cc_body, cc, guarded,
}

-- An event, with what the clock says.
pub data Event : Type 0 where
  key_down : ℕ → ℕ → ℕ → ℕ → ℕ → Event
  key_up : ℕ → ℕ → ℕ → ℕ → Event
  control : ℕ → ℕ → ℕ → ℕ → ℕ → Event

module _ {F : Type 0} ⦃o : FloatOps F⦄ (world : World F) where
  unfoldable pub handle : Synth F → Event → Synth F
  unfolding note_on note_off cc
  handle s (Event.key_down now delay channel note velocity) =
      note_on world s now delay channel note velocity
  handle s (Event.key_up now delay channel note) = note_off world s now delay channel note
  handle s (Event.control now delay channel controller value) =
      cc world s now delay channel controller value

  unfoldable pub handle_all : Synth F → List Event → Synth F
  unfolding handle
  handle_all s [] = s
  handle_all s (e ∷ events) = handle_all (handle s e) events

  module _ (sorted : (voices : List (Voice F)) → Perm (world.sort_voices voices) voices) where
    note_off-IsKept :
        (s : Synth F) (now delay channel note : ℕ)
        → IsKept s (note_off world s now delay channel note)
    unfolding note_off note_off_body
    note_off-IsKept s now delay channel note =
        if-IsKept s s.can_enter_callback
          (guarded-IsKept world sorted s (note_off_body world now delay channel note) (λ u.
            let velocity = MidiState.get_note_velocity u.midi_state note in
            let ended =
              λ (v : Voice F). Events.register_note_off v u.midi_state.cc delay channel note in
            let u' : Synth F = record u { voices = map ended u.voices; drawn = u.drawn + 1 } in
            let same : marks (map ended u.voices) ≡ marks u.voices =
              marks-map ended (λ v. mark-register_note_off v u.midi_state.cc delay channel note)
                u.voices in
            told-IsKept world sorted u u'
              (λ r. Triggers.register_note_off r channel note velocity (world.rand_note u.drawn))
              now
              (record {
                delay = delay;
                channel = channel;
                number = note;
                value = velocity;
                kind = TriggerType.note_off;
              })
              (voices-IsKept u u' (rw same (Perm.refl (marks u.voices))) refl refl refl refl)
              (register_note_off-IsSetting channel note velocity (world.rand_note u.drawn))
              (u.note_activation_lists note)))
          (kept s)

    off_groups-IsKept :
        (s : Synth F) (now delay group place left : ℕ)
        → IsKept s (off_groups world s now delay group place left)
    unfolding off_groups
    off_groups-IsKept s now delay group place zero = kept s
    off_groups-IsKept s now delay group place (suc left) =
        elim (Option-cases (get_elem? s.voices place)) [
          | inl e ↦ rw (e, off_groups) (kept s)
          | inr (v, e) ↦
              let v' = (check_off_group v delay group).0 in
              let s' = record s { voices = set s.voices place v' } in
              let same : marks (set s.voices place v') ≡ marks s.voices =
                marks-set s.voices place v v' e (mark-check_off_group v delay group) in
              let told : IsKept s s' =
                voices-IsKept s s' (rw same (Perm.refl (marks s.voices))) refl refl refl refl in
              let next : Synth F =
                if (check_off_group v delay group).1
                then note_off world s' now delay v'.trigger_channel v'.trigger_number
                else s' in
              let ended : IsKept s next =
                if-IsKept s (check_off_group v delay group).1
                  (then-IsKept s s'
                    (note_off world s' now delay v'.trigger_channel v'.trigger_number) told
                    (note_off-IsKept s' now delay v'.trigger_channel v'.trigger_number))
                  told in
              rw (e, off_groups)
                (then-IsKept s next (off_groups world next now delay group (suc place) left) ended
                  (off_groups-IsKept next now delay group (suc place) left))
        ]

    note_on-IsKept :
        (s : Synth F) (now delay channel note velocity : ℕ)
        → IsKept s (note_on world s now delay channel note velocity)
    unfolding note_on note_on_body
    note_on-IsKept s now delay channel note velocity =
        let s' = record s { midi_state = MidiState.note_on s.midi_state now note velocity } in
        let noted : IsKept s s' =
          voices-IsKept s s' (Perm.refl (marks s.voices)) refl refl refl refl in
        let body = note_on_body world now delay channel note velocity in
        if-IsKept s s.can_enter_callback
          (then-IsKept s s' (guarded body s') noted (
            guarded-IsKept world sorted s' body (λ u.
              let u' : Synth F = record u { drawn = u.drawn + 1 } in
              let t : Trigger = record {
                delay = delay;
                channel = channel;
                number = note;
                value = velocity;
                kind = TriggerType.note_on;
              } in
              let cleared = λ (w : Synth F) (r : Region F).
                off_groups world w now delay r.lifecycle.group 0 (length w.voices) in
              then-IsKept u u' _
                (voices-IsKept u u' (Perm.refl (marks u.voices)) refl refl refl refl)
                (tell_all-IsKept
                  (λ r. Triggers.register_note_on r channel note velocity (world.rand_note u.drawn))
                  (λ w r. launch world (cleared w r) r now t)
                  (register_note_on-IsSetting channel note velocity (world.rand_note u.drawn))
                  (λ w r.
                    then-IsKept w (cleared w r) (launch world (cleared w r) r now t)
                      (off_groups-IsKept w now delay r.lifecycle.group 0 (length w.voices))
                      (launch-IsKept world sorted (cleared w r) r now t))
                  u' (u.note_activation_lists note)))))
          noted

    cc-IsKept :
        (s : Synth F) (now delay channel controller value : ℕ)
        → IsKept s (cc world s now delay channel controller value)
    unfolding cc cc_body
    cc-IsKept s now delay channel controller value =
        if-IsKept s s.can_enter_callback
          (guarded-IsKept world sorted s (cc_body world now delay channel controller value) (λ u.
            let moved = λ (v : Voice F). Events.register_cc v delay controller value in
            let u' : Synth F = record u {
              voices = map moved u.voices;
              midi_state = record u.midi_state { cc = set u.midi_state.cc controller value };
            } in
            let same : marks (map moved u.voices) ≡ marks u.voices =
              marks-map moved (λ v. mark-register_cc v delay controller value) u.voices in
            told-IsKept world sorted u u' (λ r. Triggers.register_cc r channel controller value) now
              (record {
                delay = delay;
                channel = channel;
                number = controller;
                value = value;
                kind = TriggerType.cc;
              })
              (voices-IsKept u u' (rw same (Perm.refl (marks u.voices))) refl refl refl refl)
              (register_cc-IsSetting channel controller value) (u.cc_activation_lists controller)))
          (kept s)

    pub handle-IsKept : (s : Synth F) (e : Event) → IsKept s (handle s e)
    unfolding handle
    handle-IsKept s (Event.key_down now delay channel note velocity) =
        note_on-IsKept s now delay channel note velocity
    handle-IsKept s (Event.key_up now delay channel note) = note_off-IsKept s now delay channel note
    handle-IsKept s (Event.control now delay channel controller value) =
        cc-IsKept s now delay channel controller value

    -- No sequence of notes and controllers gains or loses a voice or a region, changes a region in
    -- more than its switches, an activation list, or whether callbacks may enter, where the sort only reorders the voices.
    pub handle_all-IsKept : (s : Synth F) (events : List Event) → IsKept s (handle_all s events)
    unfolding handle_all
    handle_all-IsKept s [] = kept s
    handle_all-IsKept s (e ∷ events) =
        then-IsKept s (handle s e) (handle_all (handle s e) events) (handle-IsKept s e)
          (handle_all-IsKept (handle s e) events)
