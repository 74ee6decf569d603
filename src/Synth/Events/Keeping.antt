-- ===== src/Synth/Events/Keeping.antt =====
-- Synth.cpp: what the steps of an event leave as it is.
use mathlib.Core.List.Perm
use sfizz.Base.{
  ℕ, zero, suc, ◌≡◌, refl, sym, ap, ◌∙◌, Bool, true, false, List, [], ◌∷◌, some, map, arith,
  if◌then◌else◌, Bool-cases, Option-cases, inl, inr, set, get_elem?,
}
use sfizz.Base.Members.{Perm}
use sfizz.Float.{FloatOps}
use sfizz.MidiState
use sfizz.Region.{Region}
use sfizz.Region.Defaults.{initial_switches}
use sfizz.Region.Triggers
use sfizz.Region.Triggers.{is_generator, within8}
use sfizz.Voice.Parts.{Voice, Trigger}
use sfizz.Voice.Events
use sfizz.Voice.Events.{check_off_group, expect_file_data, release_voice}
use sfizz.Voice.Start.{start_voice}
use sfizz.Synth.{Synth, World}
use sfizz.Synth.Voices.{update, find_free_voice}
use sfizz.Synth.Voices.Searching.{mark, marks, map-update, some_inj}
use sfizz.Synth.Voices.Stealing.{map-find_free_voice}
use sfizz.Synth.Events.{start, launch, tell, tell_all, guarded}

-- The regions without their switches, which the events set.
abbrev pub settings : {F : Type 0} → List (Region F) → List (Region F)
settings {F} regions =
    map {B = Region F} (λ (r : Region F). record r { switches = initial_switches }) regions

-- The voices, by number with the sizes of their temporary spans and up to their order, the settings of the regions, the activation lists and
-- the permission to enter are the same.
pub record IsKept {F : Type 0} (s t : Synth F) : Type 0 where
  pub voices : Perm (marks t.voices) (marks s.voices)
  pub regions : settings t.regions ≡ settings s.regions
  pub note_lists : t.note_activation_lists ≡ s.note_activation_lists
  pub cc_lists : t.cc_activation_lists ≡ s.cc_activation_lists
  pub enters : t.can_enter_callback ≡ s.can_enter_callback

module _ {F : Type 0} where
  pub kept : (s : Synth F) → IsKept s s
  kept s = record {
    voices = Perm.refl (marks s.voices);
    regions = refl;
    note_lists = refl;
    cc_lists = refl;
    enters = refl;
  }

  pub then-IsKept : (s t u : Synth F) → IsKept s t → IsKept t u → IsKept s u
  then-IsKept s t u p q = record {
    voices = Perm.trans q.voices p.voices;
    regions = q.regions ∙ p.regions;
    note_lists = q.note_lists ∙ p.note_lists;
    cc_lists = q.cc_lists ∙ p.cc_lists;
    enters = q.enters ∙ p.enters;
  }

  pub voices-IsKept :
      (s t : Synth F)
      → Perm (marks t.voices) (marks s.voices)
      → settings t.regions ≡ settings s.regions
      → t.note_activation_lists ≡ s.note_activation_lists
      → t.cc_activation_lists ≡ s.cc_activation_lists
      → t.can_enter_callback ≡ s.can_enter_callback
      → IsKept s t
  voices-IsKept s t p r n c e = record {
    voices = p;
    regions = r;
    note_lists = n;
    cc_lists = c;
    enters = e;
  }

  pub if-IsKept :
      (s : Synth F) (b : Bool) {t u : Synth F}
      → IsKept s t
      → IsKept s u
      → IsKept s (if b then t else u)
  if-IsKept s true p q = p
  if-IsKept s false p q = q

  pub marks-map :
      (f : Voice F → Voice F)
      → ((v : Voice F) → mark (f v) ≡ mark v)
      → (voices : List (Voice F)) → marks (map f voices) ≡ marks voices
  marks-map f keeps [] = refl
  marks-map f keeps (v ∷ voices) = rw (keeps v, marks-map f keeps voices) refl

  pub marks-set :
      (voices : List (Voice F)) (place : ℕ) (v w : Voice F)
      → get_elem? voices place ≡ some v
      → mark w ≡ mark v
      → marks (set voices place w) ≡ marks voices
  marks-set [] place v w e same = refl
  marks-set (u ∷ voices) zero v w e same =
      ap (λ k. k ∷ marks voices) (same ∙ ap (λ (x : Voice F). mark x) (sym (some_inj e)))
  marks-set (u ∷ voices) (suc place) v w e same =
      ap (λ l. mark u ∷ l) (marks-set voices place v w e same)

  -- A region that an event has set differs in its switches.
  abbrev pub IsSetting : (Region F → Region F × Bool) → Type 0
  IsSetting register =
      (r : Region F)
      → record (register r).0 { switches = initial_switches }
        ≡ record r { switches = initial_switches }

  settings-set :
      (regions : List (Region F)) (i : ℕ) (r : Region F) (register : Region F → Region F × Bool)
      → IsSetting register
      → get_elem? regions i ≡ some r
      → settings (set regions i (register r).0) ≡ settings regions
  settings-set [] i r register setting e = refl
  settings-set (q ∷ regions) zero r register setting e =
      ap (λ (q' : Region F). q' ∷ settings regions)
        (setting r
          ∙ ap (λ (q' : Region F). record q' { switches = initial_switches }) (sym (some_inj e)))
  settings-set (q ∷ regions) (suc i) r register setting e =
      ap (λ l. record q { switches = initial_switches } ∷ l)
        (settings-set regions i r register setting e)

  pub mark-register_note_off :
      (v : Voice F) (ccs : List ℕ) (delay channel note : ℕ)
      → mark (Events.register_note_off v ccs delay channel note) ≡ mark v
  unfolding Events.register_note_off release_voice
  mark-register_note_off v ccs delay channel note = ground arith

  pub mark-check_off_group :
      (v : Voice F) (delay group : ℕ) → mark (check_off_group v delay group).0 ≡ mark v
  unfolding check_off_group release_voice
  mark-check_off_group v delay group = ground arith

  pub tell-IsKept :
      (register : Region F → Region F × Bool) (begin : Synth F → Region F → Synth F)
      → IsSetting register
      → ((s : Synth F) (r : Region F) → IsKept s (begin s r))
      → (s : Synth F) (i : ℕ) → IsKept s (tell register begin s i)
  unfolding tell
  tell-IsKept register begin setting keeps s i = elim (Option-cases (get_elem? s.regions i)) [
    | inl e ↦ rw (e, tell) (kept s)
    | inr (r, e) ↦
        let s' = record s { regions = set s.regions i (register r).0 } in
        let told : IsKept s s' =
          voices-IsKept s s' (Perm.refl (marks s.voices))
            (settings-set s.regions i r register setting e) refl refl refl in
        rw (e, tell)
          (if-IsKept s (register r).1
            (then-IsKept s s' (begin s' (register r).0) told (keeps s' (register r).0)) told)
  ]

  pub tell_all-IsKept :
      (register : Region F → Region F × Bool) (begin : Synth F → Region F → Synth F)
      → IsSetting register
      → ((s : Synth F) (r : Region F) → IsKept s (begin s r))
      → (s : Synth F) (regions : List ℕ) → IsKept s (tell_all register begin s regions)
  unfolding tell_all
  tell_all-IsKept register begin setting keeps s [] = kept s
  tell_all-IsKept register begin setting keeps s (i ∷ regions) =
      let s' = tell register begin s i in
      then-IsKept s s' (tell_all register begin s' regions)
        (tell-IsKept register begin setting keeps s i)
        (tell_all-IsKept register begin setting keeps s' regions)

  module _ ⦃o : FloatOps F⦄ where
    pub mark-register_cc :
        (v : Voice F) (delay controller value : ℕ)
        → mark (Events.register_cc v delay controller value) ≡ mark v
    unfolding Events.register_cc release_voice
    mark-register_cc v delay controller value = ground arith

    module _ (world : World F)
        (sorted : (voices : List (Voice F)) → Perm (world.sort_voices voices) voices) where
      start-IsKept :
          (s : Synth F) (voices : List (Voice F)) (id : ℕ) (r : Region F) (now : ℕ) (t : Trigger)
          → Perm (marks voices) (marks s.voices)
          → IsKept s (start world s voices id r now t)
      unfolding start start_voice expect_file_data
      start-IsKept s voices id r now t p =
          let duration = MidiState.get_note_duration world.seconds s.midi_state now t.number in
          let draws = world.draws r s.drawn in
          let begin = λ (v : Voice F). start_voice v r s.midi_state.cc draws duration t in
          let begun : marks (update id begin voices) ≡ marks voices =
            map-update (λ v. mark v) id begin (λ v. refl) voices in
          let asked : marks
                (update id (λ v. expect_file_data v s.file_ticket) (update id begin voices))
              ≡ marks voices =
            map-update (λ v. mark v) id (λ v. expect_file_data v s.file_ticket) (λ v. refl)
              (update id begin voices)
            ∙ begun in
          if-IsKept s (is_generator r.sound) (voices-IsKept s _ (rw begun p) refl refl refl refl)
            (voices-IsKept s _ (rw asked p) refl refl refl refl)

      pub launch-IsKept :
          (s : Synth F) (r : Region F) (now : ℕ) (t : Trigger) → IsKept s (launch world s r now t)
      unfolding launch Events.reset
      launch-IsKept s r now t = elim (Option-cases (find_free_voice world.sort_voices s.voices).1) [
        | inl e ↦
            rw (e, launch)
              (record {
                voices =
                    map-find_free_voice world.sort_voices sorted (λ v. mark v) (λ v. refl) s.voices;
                regions = refl;
                note_lists = refl;
                cc_lists = refl;
                enters = refl;
              })
        | inr (id, e) ↦
            rw (e, launch)
              (start-IsKept s (find_free_voice world.sort_voices s.voices).0 id r now t
                (map-find_free_voice world.sort_voices sorted (λ v. mark v) (λ v. refl) s.voices))
      ]

      -- The guard changes a flag only.
      pub guarded-IsKept :
          (s : Synth F) (body : Synth F → Synth F)
          → ((s' : Synth F) → IsKept s' (body s'))
          → IsKept s (guarded body s)
      guarded-IsKept s body keeps =
          let k = keeps (record s { in_callback = true }) in
          voices-IsKept s _ k.voices k.regions k.note_lists k.cc_lists k.enters

      -- The loop over the regions, once the voices have been told.
      pub told-IsKept :
          (s s' : Synth F) (register : Region F → Region F × Bool) (now : ℕ) (t : Trigger)
          → IsKept s s'
          → IsSetting register
          → (list : List ℕ) → IsKept s (tell_all register (λ u r. launch world u r now t) s' list)
      told-IsKept s s' register now t k setting list =
          then-IsKept s s' (tell_all register (λ u r. launch world u r now t) s' list) k (
            tell_all-IsKept register (λ u r. launch world u r now t) setting
              (λ u r. launch-IsKept u r now t) s' list)

    -- The three events of a region set its switches.
    pub register_note_on-IsSetting :
        (channel note velocity : ℕ) (rand : F)
        → IsSetting (λ r. Triggers.register_note_on r channel note velocity rand)
    unfolding Triggers.register_note_on
    register_note_on-IsSetting channel note velocity rand r =
        elim (Bool-cases (within8 r.conditions.channel_range channel)) [
          | inl e ↦ rw (e, Triggers.register_note_on) refl
          | inr e ↦ rw (e, Triggers.register_note_on) refl
        ]

    pub register_note_off-IsSetting :
        (channel note velocity : ℕ) (rand : F)
        → IsSetting (λ r. Triggers.register_note_off r channel note velocity rand)
    unfolding Triggers.register_note_off
    register_note_off-IsSetting channel note velocity rand r =
        elim (Bool-cases (within8 r.conditions.channel_range channel)) [
          | inl e ↦ rw (e, Triggers.register_note_off) refl
          | inr e ↦ rw (e, Triggers.register_note_off) refl
        ]

    pub register_cc-IsSetting :
        (channel controller value : ℕ)
        → IsSetting (λ (r : Region F). Triggers.register_cc r channel controller value)
    unfolding Triggers.register_cc
    register_cc-IsSetting channel controller value r =
        elim (Bool-cases (within8 r.conditions.channel_range channel)) [
          | inl e ↦ rw (e, Triggers.register_cc) refl
          | inr e ↦ rw (e, Triggers.register_cc) refl
        ]
