-- ===== src/Synth/Events/Guards.antt =====
-- Synth.cpp: the two flags of `AtomicGuard.h` in the calls of one thread.
use sfizz.Base.{
  ℕ, zero, suc, ◌+◌, ◌<◌, ◌≡◌, refl, sym, ap, ◌∙◌, Bool, true, false, List, [], ◌∷◌, none, some,
  arith, if◌then◌else◌, Bool-cases, Option-cases, inl, inr, set, get_elem?,
}
use sfizz.Float.{FloatOps}
use sfizz.MidiState
use sfizz.MidiState.{MidiState}
use sfizz.Voice.Parts.{Voice}
use sfizz.Voice.Events.{check_off_group}
use sfizz.Synth.{Synth, World}
use sfizz.Synth.Events.{note_off, off_one, off_groups, note_on, cc}
use sfizz.Synth.Events.Runs.{Event, handle, handle_all}
use sfizz.Synth.Events.Dispatch.{set-get_elem?}

if_off : {A : Type 0} (b : Bool) (x y : A) → b ≡ false → (if b then x else y) ≡ y
if_off b x y e = rw e refl

module _ {F : Type 0} ⦃o : FloatOps F⦄ (world : World F) where
  -- The note state behind the note-ons among some events.
  pub noted : MidiState → List Event → MidiState
  noted m [] = m
  noted m (Event.key_down now delay channel note velocity ∷ events) =
      noted (MidiState.note_on m now note velocity) events
  noted m (Event.key_up now delay channel note ∷ events) = noted m events
  noted m (Event.control now delay channel controller value ∷ events) = noted m events

  refused_note_on :
      (s : Synth F) (now delay channel note velocity : ℕ)
      → s.can_enter_callback ≡ false
      → note_on world s now delay channel note velocity
        ≡ record s { midi_state = MidiState.note_on s.midi_state now note velocity }
  unfolding note_on
  refused_note_on s now delay channel note velocity e = if_off s.can_enter_callback _ _ e

  refused_note_off :
      (s : Synth F) (now delay channel note : ℕ)
      → s.can_enter_callback ≡ false
      → note_off world s now delay channel note ≡ s
  unfolding note_off
  refused_note_off s now delay channel note e = if_off s.can_enter_callback _ _ e

  refused_cc :
      (s : Synth F) (now delay channel controller value : ℕ)
      → s.can_enter_callback ≡ false
      → cc world s now delay channel controller value ≡ s
  unfolding cc
  refused_cc s now delay channel controller value e = if_off s.can_enter_callback _ _ e

  -- While callbacks may not enter, notes and controllers change nothing but the note state, which
  -- still takes the note-ons; controllers are lost.
  pub handle_all-refused :
      (s : Synth F) (events : List Event)
      → s.can_enter_callback ≡ false
      → handle_all world s events ≡ record s { midi_state = noted s.midi_state events }
  unfolding handle_all handle noted
  handle_all-refused s [] e = refl
  handle_all-refused s (Event.key_down now delay channel note velocity ∷ events) e =
      ap (λ t. handle_all world t events) (refused_note_on s now delay channel note velocity e)
      ∙ handle_all-refused
          (record s { midi_state = MidiState.note_on s.midi_state now note velocity }) events e
  handle_all-refused s (Event.key_up now delay channel note ∷ events) e =
      ap (λ t. handle_all world t events) (refused_note_off s now delay channel note e)
      ∙ handle_all-refused s events e
  handle_all-refused s (Event.control now delay channel controller value ∷ events) e =
      ap (λ t. handle_all world t events) (refused_cc s now delay channel controller value e)
      ∙ handle_all-refused s events e

  left_guard :
      (s : Synth F) (now delay channel note : ℕ)
      → s.can_enter_callback ≡ true
      → (note_off world s now delay channel note).in_callback ≡ false
  unfolding note_off
  left_guard s now delay channel note e = rw e refl

  stays_out :
      (s : Synth F) (now delay channel note : ℕ)
      → s.in_callback ≡ false
      → (note_off world s now delay channel note).in_callback ≡ false
  unfolding note_off
  stays_out s now delay channel note e = elim (Bool-cases s.can_enter_callback) [
    | inl on ↦ rw on refl
    | inr off ↦ rw off e
  ]

  off_one-out :
      (s : Synth F) (now delay group place : ℕ) (v : Voice F)
      → s.in_callback ≡ false
      → (off_one world s now delay group place v).in_callback ≡ false
  unfolding off_one
  off_one-out s now delay group place v e =
      let v' = (check_off_group v delay group).0 in
      elim (Bool-cases (check_off_group v delay group).1) [
        | inl yes_ ↦
            rw (yes_, off_one)
              (stays_out (record s { voices = set s.voices place v' }) now delay v'.trigger_channel
                v'.trigger_number e)
        | inr no_ ↦ rw (no_, off_one) e
      ]

  off_one-left :
      (s : Synth F) (now delay group place : ℕ) (v : Voice F)
      → s.can_enter_callback ≡ true
      → (check_off_group v delay group).1 ≡ true
      → (off_one world s now delay group place v).in_callback ≡ false
  unfolding off_one
  off_one-left s now delay group place v on e =
      let v' = (check_off_group v delay group).0 in
      rw (e, off_one)
        (left_guard (record s { voices = set s.voices place v' }) now delay v'.trigger_channel
          v'.trigger_number on)

  check_off_group-quiet :
      (v : Voice F) (delay group : ℕ)
      → (check_off_group v delay group).1 ≡ false
      → (check_off_group v delay group).0 ≡ v
  unfolding check_off_group
  check_off_group-quiet v delay group e = ground (arith, e)

  off_groups-out :
      (s : Synth F) (now delay group place left : ℕ)
      → s.in_callback ≡ false
      → (off_groups world s now delay group place left).in_callback ≡ false
  unfolding off_groups
  off_groups-out s now delay group place zero e = e
  off_groups-out s now delay group place (suc left) e =
      elim (Option-cases (get_elem? s.voices place)) [
        | inl none_ ↦ rw (none_, off_groups) e
        | inr (v, at) ↦
            rw (at, off_groups)
              (off_groups-out (off_one world s now delay group place v) now delay group (suc place)
                left (off_one-out s now delay group place v e))
      ]

  off_one-quiet :
      (s : Synth F) (now delay group place : ℕ) (v : Voice F)
      → get_elem? s.voices place ≡ some v
      → (check_off_group v delay group).1 ≡ false
      → off_one world s now delay group place v ≡ s
  unfolding off_one
  off_one-quiet s now delay group place v at e =
      rw (e, off_one)
        (ap (λ l. record s { voices = l })
          (ap (λ w. set s.voices place w) (check_off_group-quiet v delay group e)
            ∙ set-get_elem? s.voices place v at))

  get_elem?-none :
      (voices : List (Voice F)) (place k : ℕ)
      → get_elem? voices place ≡ none
      → get_elem? voices (k + place) ≡ none
  get_elem?-none [] place k e = refl
  get_elem?-none (w ∷ voices) zero k e = absurd (ground (arith, e))
  get_elem?-none (w ∷ voices) (suc place) k e =
      let moved : k + suc place ≡ suc (k + place) = omega arith in
      rw moved (get_elem?-none voices place k e)

  -- Where any voice is turned off by the group of the region that starts, the note-off in the loop
  -- leaves the guard of the note-on: the rest of the note-on runs with `inCallback` false.
  pub off_groups-in_callback :
      (s : Synth F) (now delay group place k left : ℕ) (v : Voice F)
      → s.can_enter_callback ≡ true
      → get_elem? s.voices (k + place) ≡ some v
      → (check_off_group v delay group).1 ≡ true
      → k < left
      → (off_groups world s now delay group place left).in_callback ≡ false
  unfolding off_groups
  off_groups-in_callback s now delay group place k zero v on at off below =
      absurd (omega (arith, below))
  off_groups-in_callback s now delay group place zero (suc left) v on at off below =
      let first : 0 + place ≡ place = omega arith in
      let here : get_elem? s.voices place ≡ some v =
        ap (λ i. get_elem? s.voices i) (sym first) ∙ at in
      rw (here, off_groups)
        (off_groups-out (off_one world s now delay group place v) now delay group (suc place) left
          (off_one-left s now delay group place v on off))
  off_groups-in_callback s now delay group place (suc k) (suc left) v on at off below =
      let moved : suc k + place ≡ k + suc place = omega arith in
      let later : get_elem? s.voices (k + suc place) ≡ some v =
        ap (λ i. get_elem? s.voices i) (sym moved) ∙ at in
      elim (Option-cases (get_elem? s.voices place)) [
        | inl none_ ↦ absurd (ground (arith, at, get_elem?-none s.voices place (suc k) none_))
        | inr (w, here) ↦ elim (Bool-cases (check_off_group w delay group).1) [
          | inl yes_ ↦
              rw (here, off_groups)
                (off_groups-out (off_one world s now delay group place w) now delay group
                  (suc place) left (off_one-left s now delay group place w on yes_))
          | inr no_ ↦
              rw (here, off_groups)
                (ap (λ t. (off_groups world t now delay group (suc place) left).in_callback)
                    (off_one-quiet s now delay group place w here no_)
                  ∙ off_groups-in_callback s now delay group (suc place) k left v on later off
                      (omega (arith, below)))
        ]
      ]
