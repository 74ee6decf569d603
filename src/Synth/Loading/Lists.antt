-- ===== src/Synth/Loading/Lists.antt =====
-- Synth.cpp, `loadSfzFile`: the activation lists that it leaves.
use sfizz.Base.{
  ℕ, zero, suc, ◌+◌, ◌<◌, ◌≡◌, refl, sym, ap, ◌∙◌, Bool, true, false, ◌&&◌, ◌||◌, List, [], ◌∷◌,
  ◌++◌, Option, none, some, arith, ltb, lt→ltb, if◌then◌else◌, Bool-cases, inl, inr, length,
}
use mathlib.Core.List.{append-nil}
use sfizz.Base.Int.{ℤ, pos}
use sfizz.Float.{FloatOps}
use sfizz.FilePool.{FileSystem, FileInformation}
use sfizz.Region.{Region, Conditions, Sound}
use sfizz.Region.Triggers.{
  is_generator, register_note_on, register_note_off, register_cc, register_pitch_wheel,
  register_aftertouch, register_tempo, within8,
}
use sfizz.Range.{nat_order, contains_with_end}
use sfizz.CcMap
use sfizz.Synth.{Synth}
use sfizz.Synth.Loading.{
  one, note_activates, cc_activates, register_ccs, press_default, set_defaults, with_file, keep,
  keep_found, ask_file, load_step, load_regions,
}

append_place :
    (b : Bool) (list : List ℕ) (place : ℕ)
    → (if b then list ++ (place ∷ []) else list) ≡ list ++ (if b then place ∷ [] else [])
append_place true list place = refl
append_place false list place = sym (append-nil list)

module _ {F : Type 0} where
  -- The places of the regions that pass a test, counted from the given one.
  unfoldable pub places : (Region F → Bool) → ℕ → List (Region F) → List ℕ
  places test place [] = []
  places test place (r ∷ regions) =
      let rest = places test (suc place) regions in if test r then place ∷ rest else rest

  places-append :
      (test : Region F → Bool) (place : ℕ) (regions : List (Region F)) (r : Region F)
      → places test place (regions ++ (r ∷ []))
        ≡ places test place regions ++ (if test r then (place + length regions) ∷ [] else [])
  unfolding places
  places-append test place [] r = elim (Bool-cases (test r)) [
    | inl e ↦ rw e (ap (λ k. k ∷ []) (omega arith))
    | inr e ↦ rw e refl
  ]
  places-append test place (q ∷ regions) r =
      let later = places-append test (suc place) regions r in
      let moved : suc place + length regions ≡ place + suc (length regions) = omega arith in
      elim (Bool-cases (test q)) [
        | inl e ↦ rw (e, later, moved) refl
        | inr e ↦ rw (e, later, moved) refl
      ]

  -- The lists hold the places of exactly the regions that an event of their number may concern.
  pub record IsListed (s : Synth F) : Type 0 where
    pub notes :
        (note : ℕ)
        → note < 128
        → s.note_activation_lists note ≡ places (note_activates note) 0 s.regions
    pub ccs : (cc : ℕ) → cc < 128 → s.cc_activation_lists cc ≡ places (cc_activates cc) 0 s.regions

  -- What the defaults leave of a region.
  abbrev pub fixed : Region F → Conditions F × Sound F
  fixed r = (r.conditions, r.sound)

  module _ ⦃o : FloatOps F⦄ where
    fixed-register_cc :
        (r : Region F) (channel cc value : ℕ) → fixed (register_cc r channel cc value).0 ≡ fixed r
    unfolding register_cc
    fixed-register_cc r channel cc value =
        elim (Bool-cases (within8 r.conditions.channel_range channel)) [
          | inl e ↦ rw (e, register_cc) refl
          | inr e ↦ rw (e, register_cc) refl
        ]

    fixed-register_ccs :
        (ccs : List ℕ) (cc left : ℕ) (r : Region F) → fixed (register_ccs ccs cc left r) ≡ fixed r
    unfolding register_ccs
    fixed-register_ccs ccs cc zero r = refl
    fixed-register_ccs ccs cc (suc left) r =
        fixed-register_ccs ccs (suc cc) left _ ∙ fixed-register_cc r _ cc _

    fixed-register_note_on :
        (r : Region F) (channel note velocity : ℕ) (rand : F)
        → fixed ((register_note_on r channel note velocity rand).0) ≡ fixed r
    unfolding register_note_on
    fixed-register_note_on r channel note velocity rand =
        elim (Bool-cases (within8 r.conditions.channel_range channel)) [
          | inl e ↦ rw (e, register_note_on) refl
          | inr e ↦ rw (e, register_note_on) refl
        ]

    fixed-register_note_off :
        (r : Region F) (channel note velocity : ℕ) (rand : F)
        → fixed ((register_note_off r channel note velocity rand).0) ≡ fixed r
    unfolding register_note_off
    fixed-register_note_off r channel note velocity rand =
        elim (Bool-cases (within8 r.conditions.channel_range channel)) [
          | inl e ↦ rw (e, register_note_off) refl
          | inr e ↦ rw (e, register_note_off) refl
        ]

    fixed-register_pitch_wheel :
        (r : Region F) (channel : ℕ) (pitch : ℤ)
        → fixed (register_pitch_wheel r channel pitch) ≡ fixed r
    unfolding register_pitch_wheel
    fixed-register_pitch_wheel r channel pitch =
        elim (Bool-cases (within8 r.conditions.channel_range channel)) [
          | inl e ↦ rw (e, register_pitch_wheel) refl
          | inr e ↦ rw (e, register_pitch_wheel) refl
        ]

    fixed-register_aftertouch :
        (r : Region F) (channel aftertouch : ℕ)
        → fixed (register_aftertouch r channel aftertouch) ≡ fixed r
    unfolding register_aftertouch
    fixed-register_aftertouch r channel aftertouch =
        elim (Bool-cases (within8 r.conditions.channel_range channel)) [
          | inl e ↦ rw (e, register_aftertouch) refl
          | inr e ↦ rw (e, register_aftertouch) refl
        ]

    fixed-press_default :
        (switch : Option ℕ) (r : Region F) → fixed (press_default switch r) ≡ fixed r
    unfolding press_default
    fixed-press_default none r = refl
    fixed-press_default (some note) r =
        fixed-register_note_off _ _ note 0 one
        ∙ fixed-register_note_on r r.conditions.channel_range.start note 127 one

    pub fixed-set_defaults :
        (sort_points : List (ℕ × F) → List (ℕ × F)) (ccs : List ℕ) (switch : Option ℕ)
        (r : Region F)
        → fixed (set_defaults sort_points ccs switch r) ≡ fixed r
    unfolding set_defaults register_tempo
    fixed-set_defaults sort_points ccs switch r =
        fixed-register_aftertouch _ r.conditions.channel_range.start 0
        ∙ fixed-register_pitch_wheel _ r.conditions.channel_range.start (pos 0)
        ∙ fixed-press_default switch (register_ccs ccs 1 127 r)
        ∙ fixed-register_ccs ccs 1 127 r

    -- One region more at the end of those that are listed.
    listed_more :
        (test : Region F → Bool) (list : List ℕ) (regions : List (Region F)) (r r' : Region F)
        (n : ℕ)
        → n < 128
        → test r' ≡ test r
        → list ≡ places test 0 regions
        → (if ltb n 128 && test r then list ++ (length regions ∷ []) else list)
          ≡ places test 0 (regions ++ (r' ∷ []))
    listed_more test list regions r r' n low same e =
        let first : 0 + length regions ≡ length regions = omega arith in
        rw (lt→ltb n 128 low, places-append test 0 regions r', same, e, first)
          (append_place (test r) (places test 0 regions) (length regions))

    module _ (sort_points : List (ℕ × F) → List (ℕ × F)) where
      pub keep-IsListed :
          (s : Synth F) (r : Region F) → IsListed s → IsListed (keep sort_points s r)
      unfolding keep note_activates cc_activates
      keep-IsListed s r listed =
          let r' = set_defaults sort_points s.midi_state.cc s.default_switch r in
          let same : r'.conditions ≡ r.conditions =
            ap (λ (p : Conditions F × Sound F). p.0)
              (fixed-set_defaults sort_points s.midi_state.cc s.default_switch r) in
          record {
            notes = λ note low.
                listed_more (λ q. note_activates note q) (s.note_activation_lists note) s.regions r
                  r' note low
                  (ap
                    (λ (c : Conditions F).
                      contains_with_end c.key_range note
                      || contains_with_end c.keyswitch_range note)
                    same)
                  (listed.notes note low);
            ccs = λ cc low.
                listed_more (λ q. cc_activates cc q) (s.cc_activation_lists cc) s.regions r r' cc
                  low
                  (ap
                    (λ (c : Conditions F).
                      CcMap.contains c.cc_triggers cc || CcMap.contains c.cc_conditions cc)
                    same)
                  (listed.ccs cc low);
          }

      keep_found-IsListed :
          (s : Synth F) (r : Region F) (rest : List (Region F)) (found : Option (FileInformation F))
          → IsListed s
          → IsListed (keep_found sort_points s r rest found).0
      unfolding keep_found
      keep_found-IsListed s r rest none listed = listed
      keep_found-IsListed s r rest (some info) listed = keep-IsListed s (with_file r info) listed

      module _ (files : FileSystem F) where
        load_step-IsListed :
            (s : Synth F) (r : Region F) (rest : List (Region F))
            → IsListed s
            → IsListed (load_step sort_points files s r rest).0
        unfolding load_step
        load_step-IsListed s r rest listed = elim (Bool-cases (is_generator r.sound)) [
          | inl e ↦ rw (e, load_step) (keep-IsListed s r listed)
          | inr e ↦
              rw (e, load_step)
                (keep_found-IsListed _ r rest (ask_file files s r).1
                  (record { notes = listed.notes; ccs = listed.ccs }))
        ]

        pub load_regions-IsListed :
            (n : ℕ) (s : Synth F) (segment : List (Region F))
            → IsListed s
            → IsListed (load_regions sort_points files n s segment)
        unfolding load_regions
        load_regions-IsListed zero s segment listed = listed
        load_regions-IsListed (suc n) s [] listed = listed
        load_regions-IsListed (suc n) s (r ∷ rest) listed =
            load_regions-IsListed n (load_step sort_points files s r rest).0 _
              (load_step-IsListed s r rest listed)
