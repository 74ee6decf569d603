-- ===== src/Synth/Loading/Whole.antt =====
-- Synth.cpp: `loadSfzFile` as a whole, with the calls of the parser.
use sfizz.Base.{ℕ, suc, ◌≡◌, refl, ap, ◌∙◌, Bool, List, [], ◌∷◌, Option, none, some, length}
use sfizz.Float.{FloatOps}
use sfizz.Opcode.{Numbers, Opcode}
use sfizz.FilePool.{FileSystem}
use sfizz.Region.{Region}
use sfizz.Synth.{Synth}
use sfizz.Synth.Headers.{callback}
use sfizz.Synth.Headers.Lists.{IsSameLists, same_lists, then_same, callback-lists}
use sfizz.Synth.Loading.{clear, call_back, load_parsed, load_sfz_file}
use sfizz.Synth.Loading.Lists.{IsListed, places, load_regions-IsListed}

module _ {F : Type 0} ⦃o : FloatOps F⦄ (numbers : Numbers F) (exists : List ℕ → Bool) where
  pub call_back-lists :
      (s : Synth F) (headers : List (List ℕ × List Opcode))
      → IsSameLists s (call_back numbers exists s headers)
  unfolding call_back
  call_back-lists s [] = same_lists s
  call_back-lists s ((header, members) ∷ headers) =
      let one = callback-lists numbers exists s header members in
      let rest = call_back-lists (callback numbers exists s header members) headers in
      then_same s (callback numbers exists s header members)
        (call_back numbers exists (callback numbers exists s header members) headers) one rest

  load_parsed-IsListed :
      (sort_points : List (ℕ × F) → List (ℕ × F)) (files : FileSystem F) (s t : Synth F)
      (regions : List (Region F))
      → IsSameLists s t
      → s.note_activation_lists ≡ (λ note. [])
      → s.cc_activation_lists ≡ (λ cc. [])
      → t.regions ≡ regions
      → IsListed (load_parsed sort_points files t regions).0
  unfolding load_parsed places
  load_parsed-IsListed sort_points files s t [] same n c e = record {
    notes = λ note low. rw e (ap (λ (l : ℕ → List ℕ). l note) (same.notes ∙ n));
    ccs = λ cc low. rw e (ap (λ (l : ℕ → List ℕ). l cc) (same.ccs ∙ c));
  }
  load_parsed-IsListed sort_points files s t (r ∷ regions) same n c e =
      load_regions-IsListed sort_points files (suc (length regions)) _ (r ∷ regions) (record {
        notes = λ note low. ap (λ (l : ℕ → List ℕ). l note) (same.notes ∙ n);
        ccs = λ cc low. ap (λ (l : ℕ → List ℕ). l cc) (same.ccs ∙ c);
      })

  -- Behind `loadSfzFile`, whether or not it succeeds, the activation lists hold the places of exactly
  -- the regions whose key range or keyswitch range has the note, or whose triggers or conditions
  -- name the controller, in the order of the regions.
  pub load_sfz_file-IsListed :
      (sort_points : List (ℕ × F) → List (ℕ × F)) (files : FileSystem F) (s : Synth F)
      (parsed : Option (List ℕ × List (List ℕ × List Opcode)))
      → IsListed (load_sfz_file numbers exists sort_points files s parsed).0
  unfolding load_sfz_file clear places
  load_sfz_file-IsListed sort_points files s none = record {
    notes = λ note low. refl;
    ccs = λ cc low. refl;
  }
  load_sfz_file-IsListed sort_points files s (some (root, headers)) =
      let start = record (clear s) { root_directory = root } in
      let t = call_back numbers exists start headers in
      load_parsed-IsListed sort_points files start t t.regions (call_back-lists start headers) refl
        refl refl
