-- ===== src/Region/Triggers/Legato.antt =====
-- Region.cpp, `registerNoteOn`: the trigger of a region against the notes that came before.
use sfizz.Base.{ℕ, ◌<◌, ◌≡◌, ◌↔◌, refl, sym, ap, ◌+◌, ◌∙◌, true, List, arith, Bool-cases, inl, inr}
use sfizz.Base.Int.{ℤ, pos, negsuc, ◌+ℤ◌, ◌-ℤ◌, pos_part, neg_part, int_laws}
use sfizz.Float.{FloatOps}
use sfizz.Region.Parts.{Region, SfzTrigger}
use sfizz.Region.Triggers.{
  within8, note_on_switches, previous_refuses, rand_on, starts_note, register_note_on,
}
use sfizz.Region.Triggers.Traces.{NoteEvent, run, ons, offs, active-on, active_notes_in_range-run}
use sfizz.Region.Triggers.Answers.{note_on_starts_iff, register_note_on_in, register_note_on_out}

-- What a trigger asks of the notes in the range of keys, by how many began and how many ended.
abbrev pub Asks : SfzTrigger → ℕ → ℕ → Type 0
Asks SfzTrigger.attack begun ended = Unit {0}
Asks SfzTrigger.first begun ended = begun ≡ ended
Asks SfzTrigger.legato begun ended = ended < begun
Asks _ begun ended = ⊥

active_parts :
    (begun ended : ℕ) (active : ℤ)
    → active ≡ negsuc 0 +ℤ (pos begun -ℤ pos ended) +ℤ pos 1
    → pos_part active + ended ≡ neg_part active + begun
active_parts begun ended active e = rw e (omega int_laws)

starts_note_iff :
    (t : SfzTrigger) (begun ended : ℕ) (active : ℤ)
    → active ≡ negsuc 0 +ℤ (pos begun -ℤ pos ended) +ℤ pos 1
    → (starts_note t active ≡ true) ↔ Asks t begun ended
unfolding starts_note
starts_note_iff SfzTrigger.attack begun ended active e = (λ h. tt, λ h. refl)
starts_note_iff SfzTrigger.first begun ended active e =
    let parts = active_parts begun ended active e in
    (λ h. ground (arith, parts, h), λ h. ground (arith, parts, h))
starts_note_iff SfzTrigger.legato begun ended active e =
    let parts = active_parts begun ended active e in
    (λ h. ground (arith, parts, h), λ h. ground (arith, parts, h))
starts_note_iff SfzTrigger.release begun ended active e = (λ h. cc, λ h. absurd h)
starts_note_iff SfzTrigger.release_key begun ended active e = (λ h. cc, λ h. absurd h)

module _ {F : Type 0} ⦃o : FloatOps F⦄ where
  abbrev pub attacking : Region F → Region F
  attacking r = record r { conditions = record r.conditions { trigger = SfzTrigger.attack } }

  -- A region after the notes of its channel.
  abbrev pub after : Region F → List NoteEvent → Region F
  after r es = record r { switches = run r.conditions r.switches es }

  trigger_iff :
      (r : Region F) (es : List NoteEvent) (note : ℕ)
      → r.switches.active_notes_in_range ≡ negsuc 0
      → within8 r.conditions.key_range note ≡ true
      → let c = r.conditions in
        (starts_note c.trigger (note_on_switches c (after r es).switches note).active_notes_in_range
          ≡ true)
        ↔ Asks c.trigger (ons c es) (offs c es)
  trigger_iff r es note quiet in_ =
      let c = r.conditions in
      starts_note_iff c.trigger (ons c es) (offs c es)
        (note_on_switches c (after r es).switches note).active_notes_in_range
        (active-on c (after r es).switches note
          ∙ rw (in_, active_notes_in_range-run c r.switches es, quiet) refl)

  -- After any notes of its channel, a region that began with no active note answers a note-on exactly
  -- if it would with the trigger `attack`, and its own trigger agrees: `first` where in its range of
  -- keys as many notes have ended as have begun, `legato` where more have begun, and those of release
  -- never.
  pub register_note_on-Asks :
      (r : Region F) (es : List NoteEvent) (channel note velocity : ℕ) (rand : F)
      → r.switches.active_notes_in_range ≡ negsuc 0
      → ((register_note_on (after r es) channel note velocity rand).1 ≡ true) ↔ (
          ((register_note_on (attacking (after r es)) channel note velocity rand).1 ≡ true)
          × Asks r.conditions.trigger (ons r.conditions es) (offs r.conditions es))
  unfolding note_on_switches previous_refuses rand_on starts_note
  register_note_on-Asks r es channel note velocity rand quiet =
      let c = r.conditions in
      let q = after r es in
      let s = note_on_switches c q.switches note in
      let here = note_on_starts_iff c s note velocity rand in
      let there = note_on_starts_iff (attacking r).conditions s note velocity rand in
      elim (Bool-cases (within8 c.channel_range channel)) [
        | inl e ↦
            let own = ap (λ p. p.1) (register_note_on_in q channel note velocity rand e) in
            let as_attack =
              ap (λ p. p.1) (register_note_on_in (attacking q) channel note velocity rand e) in
            (
              λ h.
                  let p = here.0 (sym own ∙ h) in
                  (
                    as_attack ∙ there.1 (p.0, p.1, p.2, p.3, p.4, refl),
                    (trigger_iff r es note quiet p.2).0 p.5,
                  ),
              λ h.
                  let p = there.0 (sym as_attack ∙ h.0) in
                  own ∙ here.1 (p.0, p.1, p.2, p.3, p.4, (trigger_iff r es note quiet p.2).1 h.1),
            )
        | inr e ↦
            let own = ap (λ p. p.1) (register_note_on_out q channel note velocity rand e) in
            let as_attack =
              ap (λ p. p.1) (register_note_on_out (attacking q) channel note velocity rand e) in
            (λ h. cc (h, own), λ h. cc (h.0, as_attack))
      ]
