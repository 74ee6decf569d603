-- ===== src/Synth/Lifecycle/Sound.antt =====
-- Synth.cpp: what every sequence of calls keeps.
use mathlib.Core.List.Perm
use sfizz.Base.{
  ℕ, zero, suc, ◌≤◌, ◌<◌, ◌≡◌, refl, sym, ap, subst, ◌∙◌, true, List, [], ◌∷◌, some, map, arith,
}
use sfizz.Base.Members.{Perm, Mem}
use sfizz.Float.{FloatOps}
use sfizz.Voice.Parts.{Voice, Trigger}
use sfizz.Synth.Construction.{create}
use sfizz.Voice.Events
use sfizz.Synth.{Synth}
use sfizz.Synth.Voices.Searching.{ids, marks}
use sfizz.Synth.Events.Keeping.{marks-map}
use sfizz.Synth.Loading.{load_sfz_file}
use sfizz.Synth.Loading.Lists.{IsListed, places}
use sfizz.Synth.Loading.Whole.{load_sfz_file-IsListed}
use sfizz.Synth.Events.Runs.{handle, handle-IsKept}
use sfizz.Synth.Events.Dispatch.{IsListed-after}
use sfizz.Synth.Settings.{set_samples_per_block, set_sample_rate, garbage_collect}
use sfizz.Synth.Rendering.{render}
use sfizz.Synth.Lifecycle.{
  Call, load, event, block, block_size, rate, collect, Setup, fits, perform, perform_all,
}
use sfizz.Synth.Lifecycle.Marked.{
  numbers_from, marked, marked-resized, numbers-marked, le-marked, ids-marks, sizes-marks,
  marks-resized, marks-render_voices, mark-garbage_collect, fits-true, marks-new_voices,
}
use sfizz.Synth.Lifecycle.Loads.{load_sfz_file-voices}

-- The block size behind a call, and what a client minds.
abbrev pub next_size : {F : Type 0} → ℕ → Call F → ℕ
next_size size (block_size n) = n
next_size size _ = size

abbrev pub IsProper : {F : Type 0} → ℕ → Call F → Type 0
IsProper size (block n) = n ≤ size
IsProper size (block_size n) = 0 < n
IsProper size _ = Unit {0}

abbrev pub AreProper : {F : Type 0} → ℕ → List (Call F) → Type 0
AreProper size [] = Unit {0}
AreProper size (call ∷ calls) = IsProper size call × AreProper (next_size size call) calls

module _ {F : Type 0} ⦃o : FloatOps F⦄ where
  -- The same lists and regions.
  same_lists-IsListed :
      (s t : Synth F)
      → IsListed s
      → t.note_activation_lists ≡ s.note_activation_lists
      → t.cc_activation_lists ≡ s.cc_activation_lists
      → t.regions ≡ s.regions
      → IsListed t
  same_lists-IsListed s t listed n c e = record {
    notes = λ note low. rw (n, e) (listed.notes note low);
    ccs = λ cc low. rw (c, e) (listed.ccs cc low);
  }

  -- The 64 voices with temporary spans of one size, the lists, and the permission.
  record IsSound (size : ℕ) (s : Synth F) : Type 0 where
    voices : Perm (marks s.voices) (marked size 0 64)
    listed : IsListed s
    enters : s.can_enter_callback ≡ true

  sound-fits : (size n : ℕ) (s : Synth F) → n ≤ size → IsSound size s → fits n s.voices ≡ true
  sound-fits size n s le sound = fits-true n s.voices (λ k m. le-marked n size le k 0 64 (
      (Perm.mem_iff (Perm.map (λ (m : ℕ × ℕ). m.1) sound.voices)).0
        (subst (λ l. Mem k l) (sizes-marks s.voices) m)))

  same_marks :
      (size : ℕ) (s t : Synth F)
      → IsSound size s
      → marks t.voices ≡ marks s.voices
      → IsListed t
      → t.can_enter_callback ≡ true
      → IsSound size t
  same_marks size s t sound same listed in_ = record {
    voices = rw same sound.voices;
    listed = listed;
    enters = in_;
  }

  rendered_voices :
      (setup : Setup F) (size n : ℕ) (s : Synth F)
      → IsSound size s
      → IsSound size (render setup.sort s n).0
  unfolding render
  rendered_voices setup size n s sound =
      rw (sound.enters, render)
        (record {
          voices = rw (marks-render_voices setup.sort n s.voices _) sound.voices;
          listed = same_lists-IsListed s _ sound.listed refl refl refl;
          enters = refl;
        })

  module _ (setup : Setup F)
      (sorted : (voices : List (Voice F)) → Perm (setup.world.sort_voices voices) voices) where
    perform-IsSound :
        (size : ℕ) (s : Synth F) (call : Call F)
        → IsProper size call
        → IsSound size s
        → (t : Synth F) × (perform setup s call ≡ some t) × IsSound (next_size size call) t
    unfolding perform set_samples_per_block set_sample_rate garbage_collect render Events.reset
        Events.set_samples_per_block Events.set_sample_rate
    perform-IsSound size s (load parsed) proper sound =
        let (same, enters) =
          load_sfz_file-voices setup.sort_points setup.files setup.numbers setup.exists s parsed in
        let t =
          (load_sfz_file setup.numbers setup.exists setup.sort_points setup.files s parsed).0 in
        (
          t,
          refl,
          same_marks size s t sound
              (ap (λ l. marks l) same ∙ marks-map (λ v. Events.reset v) (λ v. refl) s.voices)
              (load_sfz_file-IsListed setup.numbers setup.exists setup.sort_points setup.files s
                parsed)
              enters,
        )
    perform-IsSound size s (event e) proper sound =
        let k = handle-IsKept setup.world sorted s e in
        let t = handle setup.world s e in
        (
          t,
          refl,
          record {
            voices = Perm.trans k.voices sound.voices;
            listed = IsListed-after s t k sound.listed;
            enters = k.enters ∙ sound.enters;
          },
        )
    perform-IsSound size s (block n) proper sound =
        let t : Synth F = (render setup.sort s n).0 in
        (
          t,
          rw (sound-fits size n s proper sound, perform) refl,
          rendered_voices setup size n s sound,
        )
    perform-IsSound size s (block_size zero) proper sound = absurd (omega (arith, proper))
    perform-IsSound size s (block_size (suc n)) proper sound =
        let t = set_samples_per_block s (suc n) in
        (
          t,
          refl,
          record {
            voices =
                rw (marks-resized (suc n) s.voices, sym (marked-resized size (suc n) 0 64))
                  (Perm.map (λ (m : ℕ × ℕ). (m.0, suc n)) sound.voices);
            listed = same_lists-IsListed s _ sound.listed refl refl refl;
            enters = refl;
          },
        )
    perform-IsSound size s (rate hertz) proper sound = (
      set_sample_rate s hertz,
      refl,
      same_marks size s (set_sample_rate s hertz) sound
          (marks-map (λ v. Events.set_sample_rate v hertz) (λ v. refl) s.voices)
          (same_lists-IsListed s _ sound.listed refl refl refl) refl,
    )
    perform-IsSound size s collect proper sound = (
      garbage_collect s,
      refl,
      same_marks size s (garbage_collect s) sound
          (marks-map (λ v. Events.garbage_collect v) mark-garbage_collect s.voices)
          (same_lists-IsListed s _ sound.listed refl refl refl) sound.enters,
    )

    perform_all-IsSound :
        (size : ℕ) (s : Synth F) (calls : List (Call F))
        → AreProper size calls
        → IsSound size s
        → (t : Synth F) × (last : ℕ) × (perform_all setup s calls ≡ some t) × IsSound last t
    unfolding perform_all
    perform_all-IsSound size s [] proper sound = (s, size, refl, sound)
    perform_all-IsSound size s (call ∷ calls) (proper, more) sound =
        let (t, done, sound') = perform-IsSound size s call proper sound in
        let (u, last, all, end) = perform_all-IsSound (next_size size call) t calls more sound' in
        (u, last, rw (done, perform_all) all, end)

    -- A client calls on a new synth, in whatever order, loading, notes, controllers, blocks, block
    -- sizes that are positive, sample rates and the collection of files, and no block is larger than
    -- the last block size, where a new synth takes no frames before it is given one. Where the sort
    -- only reorders the voices, no call writes behind the temporary spans of a voice in use, and
    -- afterwards the synth has its 64 voices, each once; its activation lists hold the places of
    -- exactly the regions that an event of their number may concern; and callbacks may enter.
    pub perform_all-create :
        (unset : Trigger) (ccs root : List ℕ) (calls : List (Call F))
        → AreProper 0 calls
        → (t : Synth F) × (perform_all setup (create unset ccs root) calls ≡ some t)
          × Perm (ids t.voices) (numbers_from 0 64)
          × IsListed t
          × (t.can_enter_callback ≡ true)
    unfolding create places
    perform_all-create unset ccs root calls proper =
        let s = create unset ccs root in
        let sound : IsSound 0 s = record {
          voices = rw (marks-new_voices F unset 0 64) (Perm.refl _);
          listed = record { notes = λ note low. refl; ccs = λ cc low. refl };
          enters = refl;
        } in
        let (t, size, done, end) = perform_all-IsSound 0 s calls proper sound in
        (
          t,
          done,
          subst (λ l. Perm l (numbers_from 0 64)) (ids-marks t.voices)
              (subst (λ l. Perm (map (λ (m : ℕ × ℕ). m.0) (marks t.voices)) l)
                (numbers-marked size 0 64) (Perm.map (λ (m : ℕ × ℕ). m.0) end.voices)),
          end.listed,
          end.enters,
        )
