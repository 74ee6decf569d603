-- ===== src/Region/Triggers/Answers.antt =====
-- Region.cpp: when a region answers that a voice is to start, and what controllers switch.
use sfizz.Base.{
  ℕ, ◌<◌, ◌≡◌, ◌↔◌, refl, Bool, true, false, not, ◌&&◌, List, [], ◌∷◌, Option, none, some, arith,
  ◌==◌, if◌then◌else◌, get_or, length, Option-cases, inl, inr, ◌∙◌, sym, get_or-set_self,
  get_or-set_ne, length-set,
}
use sfizz.Float.{FloatOps}
use sfizz.Range.{nat_order, contains_with_end}
use sfizz.CcMap
use sfizz.Region.Parts.{Conditions, Switches, Region}
use sfizz.Region.Triggers.{
  within8, is_switched_on, note_on_switches, starts_note, previous_refuses, cc_switches, rand_on,
  note_on_starts, register_note_on,
}
use sfizz.Region.Triggers.Traces.{NoteEvent, on, off, run, ons, sequence_switched-run}

all_six :
    (a b c d e f : Bool)
    → ((a && not b && c && d && e && f) ≡ true)
      ↔ ((a ≡ true) × (b ≡ false) × (c ≡ true) × (d ≡ true) × (e ≡ true) × (f ≡ true))
all_six a b c d e f = (λ h. ground arith, λ h. ground arith)

module _ {F : Type 0} ⦃o : FloatOps F⦄ where
  -- A region with `sw_previous` answers no note-on: the switch is on only for the note that the
  -- last test then excludes.
  pub register_note_on-previous :
      (r : Region F) (channel note velocity : ℕ) (rand : F) (p : ℕ)
      → r.conditions.previous_note ≡ some p
      → (register_note_on r channel note velocity rand).1 ≡ false
  unfolding register_note_on
  register_note_on-previous r channel note velocity rand p e = ground arith

  pub note_on_starts_iff :
      (c : Conditions F) (s : Switches) (note velocity : ℕ) (rand : F)
      → (note_on_starts c s note velocity rand ≡ true) ↔ (
          (is_switched_on s ≡ true)
          × (previous_refuses c s note ≡ false)
          × (within8 c.key_range note ≡ true)
          × (contains_with_end c.velocity_range velocity ≡ true)
          × (rand_on c rand ≡ true)
          × (starts_note c.trigger s.active_notes_in_range ≡ true))
  unfolding note_on_starts
  note_on_starts_iff c s note velocity rand =
      all_six (is_switched_on s) (previous_refuses c s note) (within8 c.key_range note)
        (contains_with_end c.velocity_range velocity) (rand_on c rand)
        (starts_note c.trigger s.active_notes_in_range)

  -- Without `sw_previous` its test passes.
  previous_refuses-none :
      (c : Conditions F) (s : Switches) (note : ℕ)
      → c.previous_note ≡ none
      → previous_refuses c s note ≡ false
  unfolding previous_refuses
  previous_refuses-none c s note e = ground arith

  -- The channel decides first.
  pub register_note_on_in :
      (r : Region F) (channel note velocity : ℕ) (rand : F)
      → within8 r.conditions.channel_range channel ≡ true
      → let s = note_on_switches r.conditions r.switches note in
        (register_note_on r channel note velocity rand
          ≡ (record r { switches = s }, note_on_starts r.conditions s note velocity rand))
  unfolding register_note_on
  register_note_on_in r channel note velocity rand e = rw e

  pub register_note_on_out :
      (r : Region F) (channel note velocity : ℕ) (rand : F)
      → within8 r.conditions.channel_range channel ≡ false
      → register_note_on r channel note velocity rand ≡ (r, false)
  unfolding register_note_on
  register_note_on_out r channel note velocity rand e = rw e

  no_previous :
      (r : Region F) (channel note velocity : ℕ) (rand : F)
      → (register_note_on r channel note velocity rand).1 ≡ true
      → r.conditions.previous_note ≡ none
  no_previous r channel note velocity rand h = elim (Option-cases r.conditions.previous_note) [
    | inl e ↦ e
    | inr (p, e) ↦ cc (h, register_note_on-previous r channel note velocity rand p e)
  ]

ons-eq :
    {F : Type 0} (c d : Conditions F) (es : List NoteEvent)
    → c.key_range ≡ d.key_range
    → ons c es ≡ ons d es
unfolding ons
ons-eq c d [] k = refl
ons-eq c d (on n ∷ es) k = ground (arith, ons-eq c d es k)
ons-eq c d (off n ∷ es) k = ons-eq c d es k

-- Two regions that share the range of keys and the length of the cycle, and whose counters agree,
-- are never both in turn, unless they have the same position: after the same notes, at least one of
-- them in the range of keys, both sequence switches being on makes the positions equal.
pub round_robin :
    {F : Type 0} (c d : Conditions F) (s t : Switches) (es : List NoteEvent)
    → c.key_range ≡ d.key_range
    → c.sequence_length ≡ d.sequence_length
    → s.sequence_counter ≡ t.sequence_counter
    → 0 < ons c es
    → (run c s es).sequence_switched ≡ true
    → (run d t es).sequence_switched ≡ true
    → c.sequence_position ≡ d.sequence_position
round_robin c d s t es k l e h p q =
    let same = ons-eq c d es k in
    let first = sym (sequence_switched-run c s es h) ∙ p in
    let second = sym (sequence_switched-run d t es (rw (← same) h)) ∙ q in
    ground (arith, same, first, second)

-- A controller event of the channel.
module _ {F : Type 0} (c : Conditions F) where
  pub run_cc : Switches → List (ℕ × ℕ) → Switches
  run_cc s [] = s
  run_cc s ((cc, value) ∷ es) = run_cc (cc_switches c s cc value) es

  -- The last value that a controller is given, or `before`.
  pub last_value : ℕ → Option ℕ → List (ℕ × ℕ) → Option ℕ
  last_value i before [] = before
  last_value i before ((cc, value) ∷ es) = last_value i (if cc == i then some value else before) es

  abbrev pub meets : ℕ → Bool → Option ℕ → Bool
  meets i initially none = initially
  meets i initially (some v) = contains_with_end (CcMap.get_with_default c.cc_conditions i) v

  cc_switches_lem :
      (s : Switches) (cc value i : ℕ)
      → i < length s.cc_switched
      → (i < length (cc_switches c s cc value).cc_switched)
        × (get_or (cc_switches c s cc value).cc_switched i false ≡ (
            if cc == i
            then contains_with_end (CcMap.get_with_default c.cc_conditions i) value
            else get_or s.cc_switched i false))
  unfolding cc_switches
  cc_switches_lem s cc value i l =
      let v = contains_with_end (CcMap.get_with_default c.cc_conditions cc) value in
      (
        rw length-set l,
        ground (
          arith,
          get_or-set_self s.cc_switched cc v false,
          get_or-set_ne s.cc_switched cc i v false,
        ),
      )

  cc_switched-run_from :
      (i : ℕ) (initially : Bool) (before : Option ℕ) (s : Switches) (es : List (ℕ × ℕ))
      → i < length s.cc_switched
      → get_or s.cc_switched i false ≡ meets i initially before
      → get_or (run_cc s es).cc_switched i false ≡ meets i initially (last_value i before es)
  unfolding run_cc last_value
  cc_switched-run_from i initially before s [] l e = e
  cc_switched-run_from i initially before s ((cc, value) ∷ es) l e =
      let (l', e') = cc_switches_lem s cc value i l in
      cc_switched-run_from i initially (if cc == i then some value else before)
        (cc_switches c s cc value) es l' (ground (arith, e'))

  -- After any controller events, the switch of a controller for which there is one is on exactly if the last value that
  -- the controller was given lies in its condition, `loccN` to `hiccN` or the default; it is as
  -- before while the controller has been given none.
  pub cc_switched-run_cc :
      (i : ℕ) (s : Switches) (es : List (ℕ × ℕ))
      → i < length s.cc_switched
      → get_or (run_cc s es).cc_switched i false
        ≡ meets i (get_or s.cc_switched i false) (last_value i none es)
  cc_switched-run_cc i s es l =
      cc_switched-run_from i (get_or s.cc_switched i false) none s es l refl
