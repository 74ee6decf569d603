-- ===== src/Region/Triggers/Traces.antt =====
-- Region.cpp: what the switches of a region stand for, over any sequence of events.
use sfizz.Base.{
  ℕ, suc, ◌+◌, ◌<◌, ◌≡◌, inl, inr, refl, ap, Bool, List, [], ◌∷◌, Option, none, some, arith, ◌==◌,
  if◌then◌else◌, Bool-cases, ◌∙◌,
}
use sfizz.Base.Int.{pos, ◌+ℤ◌, ◌-ℤ◌, int_laws}
use sfizz.Range.{nat_order}
use sfizz.Region.Parts.{Conditions, Switches}
use sfizz.Region.Triggers.{within8, in_sequence, note_on_switches, note_off_switches}

-- The notes of the channel of a region.
pub data NoteEvent : Type 0 where
  on off : ℕ → NoteEvent

module _ {F : Type 0} (c : Conditions F) where
  pub step : Switches → NoteEvent → Switches
  unfolding note_on_switches note_off_switches
  step s (on n) = note_on_switches c s n
  step s (off n) = note_off_switches c s n

  pub run : Switches → List NoteEvent → Switches
  run s [] = s
  run s (e ∷ es) = run (step s e) es

  -- The last note that is played in the range of the keyswitches, or `before`.
  pub last_switch : Option ℕ → List NoteEvent → Option ℕ
  last_switch before [] = before
  last_switch before (on n ∷ es) =
      last_switch (if within8 c.keyswitch_range n then some n else before) es
  last_switch before (off n ∷ es) = last_switch before es

  -- What `sw_last` asks for.
  abbrev pub is_key : ℕ → Bool → Option ℕ → Bool
  is_key k initially none = initially
  is_key k initially (some n) = k == n

  key_switched-run_from :
      (k : ℕ) (initially : Bool) (before : Option ℕ) (s : Switches) (es : List NoteEvent)
      → c.keyswitch ≡ some k
      → c.keyswitch_up ≡ none
      → c.keyswitch_down ≡ none
      → s.key_switched ≡ is_key k initially before
      → (run s es).key_switched ≡ is_key k initially (last_switch before es)
  unfolding run last_switch step
  key_switched-run_from k initially before s [] h u d e = e
  key_switched-run_from k initially before s (on n ∷ es) h u d e =
      key_switched-run_from k initially (if within8 c.keyswitch_range n then some n else before)
        (note_on_switches c s n) es h u d (ground arith)
  key_switched-run_from k initially before s (off n ∷ es) h u d e =
      key_switched-run_from k initially before (note_off_switches c s n) es h u d (ground arith)

  -- With a keyswitch `sw_last` and neither `sw_up` nor `sw_down`, the region is switched on by its
  -- key exactly if the last note played in the range of the keyswitches is that key; until one is
  -- played it is as before.
  pub key_switched-run :
      (k : ℕ) (s : Switches) (es : List NoteEvent)
      → c.keyswitch ≡ some k
      → c.keyswitch_up ≡ none
      → c.keyswitch_down ≡ none
      → (run s es).key_switched ≡ is_key k s.key_switched (last_switch none es)
  key_switched-run k s es h u d = key_switched-run_from k s.key_switched none s es h u d refl

  -- How many of the events are a note-on, or a note-off, in the range of keys.
  unfoldable pub ons : List NoteEvent → ℕ
  ons [] = 0
  ons (on n ∷ es) = if within8 c.key_range n then suc (ons es) else ons es
  ons (off n ∷ es) = ons es

  pub offs : List NoteEvent → ℕ
  offs [] = 0
  offs (on n ∷ es) = offs es
  offs (off n ∷ es) = if within8 c.key_range n then suc (offs es) else offs es

  pub active-on :
      (s : Switches) (n : ℕ)
      → (note_on_switches c s n).active_notes_in_range ≡ (
          if within8 c.key_range n
          then s.active_notes_in_range +ℤ pos 1
          else s.active_notes_in_range)
  unfolding note_on_switches
  active-on s n = ground arith

  active-off :
      (s : Switches) (n : ℕ)
      → (note_off_switches c s n).active_notes_in_range ≡ (
          if within8 c.key_range n
          then s.active_notes_in_range -ℤ pos 1
          else s.active_notes_in_range)
  unfolding note_off_switches
  active-off s n = ground arith

  -- The count of active notes rises with each note-on and falls with each note-off in the range of
  -- keys; it may become negative.
  pub active_notes_in_range-run :
      (s : Switches) (es : List NoteEvent)
      → (run s es).active_notes_in_range
        ≡ s.active_notes_in_range +ℤ (pos (ons es) -ℤ pos (offs es))
  unfolding run step ons offs
  active_notes_in_range-run s [] = omega int_laws
  active_notes_in_range-run s (on n ∷ es) =
      rw (active_notes_in_range-run (note_on_switches c s n) es, active-on s n)
        (elim (Bool-cases (within8 c.key_range n)) [ inl e ↦ rw e (omega int_laws) | inr e ↦ rw e ])
  active_notes_in_range-run s (off n ∷ es) =
      rw (active_notes_in_range-run (note_off_switches c s n) es, active-off s n)
        (elim (Bool-cases (within8 c.key_range n)) [ inl e ↦ rw e (omega int_laws) | inr e ↦ rw e ])

  pub sequence_counter-run :
      (s : Switches) (es : List NoteEvent)
      → (run s es).sequence_counter ≡ s.sequence_counter + ons es
  unfolding run step ons note_on_switches note_off_switches
  sequence_counter-run s [] = omega arith
  sequence_counter-run s (on n ∷ es) =
      ground (arith, sequence_counter-run (note_on_switches c s n) es)
  sequence_counter-run s (off n ∷ es) =
      ground (arith, sequence_counter-run (note_off_switches c s n) es)

  -- The sequence switch has kept the test on the counter.
  abbrev pub InStep : Switches → Type 0
  InStep s = s.sequence_switched ≡ in_sequence c s.sequence_counter

  run-InStep : (s : Switches) (es : List NoteEvent) → InStep s → InStep (run s es)
  unfolding run step note_on_switches note_off_switches
  run-InStep s [] h = h
  run-InStep s (on n ∷ es) h = run-InStep (note_on_switches c s n) es (ground arith)
  run-InStep s (off n ∷ es) h = run-InStep (note_off_switches c s n) es (ground arith)

  -- After at least one note-on in the range of keys, the sequence switch is on exactly if the count
  -- of such note-ons has the position of the region in the cycle.
  pub sequence_switched-run :
      (s : Switches) (es : List NoteEvent)
      → 0 < ons es
      → (run s es).sequence_switched ≡ in_sequence c (s.sequence_counter + ons es)
  unfolding run step ons note_on_switches note_off_switches
  sequence_switched-run s [] h = absurd (omega arith)
  sequence_switched-run s (on n ∷ es) h = elim (Bool-cases (within8 c.key_range n)) [
    | inl e ↦
        run-InStep (note_on_switches c s n) es (ground arith)
        ∙ ap (in_sequence c)
            (sequence_counter-run (note_on_switches c s n) es ∙ rw (e, ons) (ground arith))
    | inr e ↦ ground (arith, sequence_switched-run (note_on_switches c s n) es)
  ]
  sequence_switched-run s (off n ∷ es) h =
      ground (arith, sequence_switched-run (note_off_switches c s n) es)
