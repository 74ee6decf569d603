-- ===== src/Synth/Lifecycle/Loads.antt =====
-- Synth.cpp: what `loadSfzFile` leaves of the voices and of the permission to enter.
use sfizz.Base.{
  ℕ, zero, suc, ◌≡◌, refl, ◌∙◌, Bool, true, List, [], ◌∷◌, Option, none, some, map, length,
}
use sfizz.Float.{FloatOps}
use sfizz.Opcode.{Numbers, Opcode}
use sfizz.FilePool.{FileSystem}
use sfizz.Region.{Region}
use sfizz.Voice.Events
use sfizz.Synth.{Synth}
use sfizz.Synth.Loading.{
  clear, load_step, load_regions, load_parsed, load_sfz_file, call_back, keep,
}
use sfizz.Synth.Loading.Kept.{Outcome, outcome}
use sfizz.Synth.Loading.Whole.{call_back-lists}

module _ {F : Type 0} ⦃o : FloatOps F⦄ where
  -- The same voices, and the same permission to enter.
  record IsAlike (s t : Synth F) : Type 0 where
    voices : t.voices ≡ s.voices
    enters : t.can_enter_callback ≡ s.can_enter_callback

  then-IsAlike : (s t u : Synth F) → IsAlike s t → IsAlike t u → IsAlike s u
  then-IsAlike s t u p q = record { voices = q.voices ∙ p.voices; enters = q.enters ∙ p.enters }

  module _ (sort_points : List (ℕ × F) → List (ℕ × F)) (files : FileSystem F) where
    step-IsAlike :
        (s : Synth F) (r : Region F) (rest : List (Region F)) (p : Synth F × List (Region F))
        → Outcome sort_points files s r rest p
        → IsAlike s p.0
    unfolding keep
    step-IsAlike s r rest (_, _) (Outcome.generator e) = record { voices = refl; enters = refl }
    step-IsAlike s r rest (_, _) (Outcome.found info e h) = record { voices = refl; enters = refl }
    step-IsAlike s r rest (_, _) (Outcome.lost e h) = record { voices = refl; enters = refl }

    load_regions-IsAlike :
        (n : ℕ) (s : Synth F) (segment : List (Region F))
        → IsAlike s (load_regions sort_points files n s segment)
    unfolding load_regions
    load_regions-IsAlike zero s segment = record { voices = refl; enters = refl }
    load_regions-IsAlike (suc n) s [] = record { voices = refl; enters = refl }
    load_regions-IsAlike (suc n) s (r ∷ rest) =
        let p = load_step sort_points files s r rest in
        then-IsAlike s p.0 (load_regions sort_points files n p.0 p.1)
          (step-IsAlike s r rest p (outcome sort_points files s r rest))
          (load_regions-IsAlike n p.0 p.1)

    load_parsed-IsAlike :
        (s : Synth F) (regions : List (Region F))
        → IsAlike s (load_parsed sort_points files s regions).0
    unfolding load_parsed
    load_parsed-IsAlike s [] = record { voices = refl; enters = refl }
    load_parsed-IsAlike s (r ∷ regions) =
        let k = load_regions-IsAlike (suc (length regions)) _ (r ∷ regions) in
        record { voices = k.voices; enters = k.enters }

    module _ (numbers : Numbers F) (exists : List ℕ → Bool) where
      -- Loading resets the voices, and lets callbacks in.
      pub load_sfz_file-voices :
          (s : Synth F) (parsed : Option (List ℕ × List (List ℕ × List Opcode)))
          → let t = (load_sfz_file numbers exists sort_points files s parsed).0 in
            (t.voices ≡ map (λ v. Events.reset v) s.voices) × (t.can_enter_callback ≡ true)
      unfolding load_sfz_file clear
      load_sfz_file-voices s none = (refl, refl)
      load_sfz_file-voices s (some (root, headers)) =
          let start = record (clear s) { root_directory = root } in
          let t = call_back numbers exists start headers in
          let called = call_back-lists numbers exists start headers in
          let k = load_parsed-IsAlike t t.regions in
          (k.voices ∙ called.voices, k.enters ∙ called.enters)
