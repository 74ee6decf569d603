-- ===== src/Synth/Events/Dispatch.antt =====
-- Synth.cpp: the activation lists against a loop over all the regions.
use mathlib.Core.List.{head-eq_of_cons-eq, tail-eq_of_cons-eq, cons≢nil}
use sfizz.Synth.Voices.Searching.{some_inj}
use sfizz.Region.Triggers.Quiet.{register_note_on-quiet, register_note_off-quiet}
use sfizz.Base.{
  ℕ, zero, suc, ◌<◌, ◌≡◌, refl, sym, ap, ◌∙◌, Bool, true, false, List, [], ◌∷◌, some, Bool-cases,
  inl, inr, set, get_elem?, drop,
}
use sfizz.Float.{FloatOps}
use sfizz.Range.{nat_order}
use sfizz.Region.{Region}
use sfizz.Region.Defaults.{initial_switches}
use sfizz.Region.Triggers.{register_note_on, register_note_off}
use sfizz.Base.Members.{Perm}
use sfizz.Voice.Parts.{Voice}
use sfizz.Synth.{Synth, World}
use sfizz.Synth.Events.Runs.{Event, handle_all, handle_all-IsKept}
use sfizz.Synth.Events.{tell, tell_all}
use sfizz.Synth.Events.Keeping.{
  IsKept, settings, IsSetting, register_note_on-IsSetting, register_note_off-IsSetting, tell-IsKept,
}
use sfizz.Synth.Loading.{note_activates, cc_activates}
use sfizz.Synth.Loading.Lists.{IsListed, places}

drop-suc :
    {A : Type 0} (k : ℕ) (xs : List A) (y : A) (ys : List A)
    → drop k xs ≡ y ∷ ys
    → drop (suc k) xs ≡ ys
drop-suc zero [] y ys e = absurd (cons≢nil (sym e))
drop-suc zero (x ∷ xs) y ys e = tail-eq_of_cons-eq e
drop-suc (suc k) [] y ys e = absurd (cons≢nil (sym e))
drop-suc (suc k) (x ∷ xs) y ys e = drop-suc k xs y ys e

pub set-get_elem? :
    {A : Type 0} (xs : List A) (k : ℕ) (x : A) → get_elem? xs k ≡ some x → set xs k x ≡ xs
set-get_elem? [] k x e = refl
set-get_elem? (y ∷ xs) zero x e = ap (λ z. z ∷ xs) (sym (some_inj e))
set-get_elem? (y ∷ xs) (suc k) x e = ap (λ l. y ∷ l) (set-get_elem? xs k x e)

module _ {F : Type 0} where
  abbrev still : Region F → Region F
  still r = record r { switches = initial_switches }

  region_at :
      (k : ℕ) (regions : List (Region F)) (y : Region F) (ys : List (Region F))
      → drop k (settings regions) ≡ y ∷ ys
      → (r : Region F) × (get_elem? regions k ≡ some r) × (still r ≡ y)
  region_at zero [] y ys e = absurd (cons≢nil (sym e))
  region_at zero (r ∷ regions) y ys e = (r, refl, head-eq_of_cons-eq e)
  region_at (suc k) [] y ys e = absurd (cons≢nil (sym e))
  region_at (suc k) (r ∷ regions) y ys e = region_at k regions y ys e

  module _ (test : Region F → Bool) (moved : (q r : Region F) → still q ≡ still r → test q ≡ test r)
      (register : Region F → Region F × Bool) (setting : IsSetting register)
      (quiet : (r : Region F) → test r ≡ false → register r ≡ (r, false))
      (begin : Synth F → Region F → Synth F)
      (keeps : (s : Synth F) (r : Region F) → IsKept s (begin s r)) where
    tell-quiet :
        (s : Synth F) (k : ℕ) (r : Region F)
        → get_elem? s.regions k ≡ some r
        → test r ≡ false
        → tell register begin s k ≡ s
    unfolding tell
    tell-quiet s k r e out =
        rw (e, tell)
          (rw (quiet r out) (ap (λ l. record s { regions = l }) (set-get_elem? s.regions k r e)))

    -- The loop over the places that pass the test, against the loop over all.
    pub tell_all-places :
        (s : Synth F) (k : ℕ) (regions : List (Region F))
        → drop k (settings s.regions) ≡ settings regions
        → tell_all register begin s (places test k regions)
          ≡ tell_all register begin s (places (λ r. true) k regions)
    unfolding tell_all places
    tell_all-places s k [] e = refl
    tell_all-places s k (q ∷ regions) e =
        let (r, at, same) = region_at k s.regions (still q) (settings regions) e in
        let later = drop-suc k (settings s.regions) (still q) (settings regions) e in
        elim (Bool-cases (test q)) [
          | inl in_ ↦
              let t = tell register begin s k in
              rw in_ (
                tell_all-places t (suc k) regions (
                  ap (λ l. drop (suc k) l) ((tell-IsKept register begin setting keeps s k).regions)
                  ∙ later))
          | inr out ↦ rw out (
              tell_all-places s (suc k) regions later
              ∙ sym (
                  ap (λ t. tell_all register begin t (places (λ p. true) (suc k) regions))
                    (tell-quiet s k r at (moved r q same ∙ out))))
        ]

  activates_still :
      (note : ℕ) (q r : Region F)
      → still q ≡ still r
      → note_activates note q ≡ note_activates note r
  unfolding note_activates
  activates_still note q r e = ap (λ p. note_activates note p) e

  places-settings :
      (test : Region F → Bool) (k : ℕ) (regions : List (Region F))
      → ((r : Region F) → test (still r) ≡ test r)
      → places test k (settings regions) ≡ places test k regions
  unfolding places
  places-settings test k [] same = refl
  places-settings test k (r ∷ regions) same =
      rw (same r, places-settings test (suc k) regions same) refl

  pub IsListed-after : (s t : Synth F) → IsKept s t → IsListed s → IsListed t
  unfolding note_activates cc_activates
  IsListed-after s t kept listed =
      let same : (test : Region F → Bool)
          → ((r : Region F) → test (still r) ≡ test r)
          → places test 0 s.regions ≡ places test 0 t.regions =
        λ test h.
          sym (places-settings test 0 s.regions h)
          ∙ ap (λ l. places test 0 l) (sym kept.regions)
          ∙ places-settings test 0 t.regions h in
      record {
        notes = λ note low.
            ap (λ (l : ℕ → List ℕ). l note) kept.note_lists
            ∙ listed.notes note low
            ∙ same (λ r. note_activates note r) (λ r. refl);
        ccs = λ cc low.
            ap (λ (l : ℕ → List ℕ). l cc) kept.cc_lists
            ∙ listed.ccs cc low
            ∙ same (λ r. cc_activates cc r) (λ r. refl);
      }

  -- The lists that loading leaves are still right behind any notes and controllers, where the sort
  -- only reorders the voices.
  pub handle_all-IsListed :
      ⦃o : FloatOps F⦄ (world : World F)
      → ((voices : List (Voice F)) → Perm (world.sort_voices voices) voices)
      → (s : Synth F) (events : List Event) → IsListed s
      → IsListed (handle_all world s events)
  handle_all-IsListed world sorted s events listed =
      IsListed-after s (handle_all world s events) (handle_all-IsKept world sorted s events) listed

  module _ ⦃o : FloatOps F⦄ (begin : Synth F → Region F → Synth F)
      (keeps : (s : Synth F) (r : Region F) → IsKept s (begin s r)) where
    -- The loop of a note-on over the list of its note tells the same to the same regions, and so
    -- leaves the same synth, as a loop over all the regions: where the lists are as `loadSfzFile`
    -- leaves them, and whatever a region's answer begins, if it keeps what every event keeps.
    pub tell_all-note_on :
        (s : Synth F) (channel note velocity : ℕ) (rand : F)
        → IsListed s
        → note < 128
        → tell_all
            (λ r. register_note_on r channel note velocity rand)
            begin
            s
            (s.note_activation_lists note)
          ≡ tell_all
              (λ r. register_note_on r channel note velocity rand)
              begin
              s
              (places (λ r. true) 0 s.regions)
    unfolding note_activates
    tell_all-note_on s channel note velocity rand listed low =
        ap (λ l. tell_all (λ r. register_note_on r channel note velocity rand) begin s l)
          (listed.notes note low)
        ∙ tell_all-places (λ r. note_activates note r) (λ q r e. activates_still note q r e)
            (λ r. register_note_on r channel note velocity rand)
            (register_note_on-IsSetting channel note velocity rand)
            (λ r out. register_note_on-quiet r channel note velocity rand low out) begin keeps s 0
            s.regions refl

    -- The same for the loop of a note-off.
    pub tell_all-note_off :
        (s : Synth F) (channel note velocity : ℕ) (rand : F)
        → IsListed s
        → note < 128
        → tell_all
            (λ r. register_note_off r channel note velocity rand)
            begin
            s
            (s.note_activation_lists note)
          ≡ tell_all
              (λ r. register_note_off r channel note velocity rand)
              begin
              s
              (places (λ r. true) 0 s.regions)
    unfolding note_activates
    tell_all-note_off s channel note velocity rand listed low =
        ap (λ l. tell_all (λ r. register_note_off r channel note velocity rand) begin s l)
          (listed.notes note low)
        ∙ tell_all-places (λ r. note_activates note r) (λ q r e. activates_still note q r e)
            (λ r. register_note_off r channel note velocity rand)
            (register_note_off-IsSetting channel note velocity rand)
            (λ r out. register_note_off-quiet r channel note velocity rand low out) begin keeps s 0
            s.regions refl
