-- ===== src/Synth/Loading/Kept.antt =====
-- Synth.cpp, `loadSfzFile`: the regions that its loop keeps.
use mathlib.Core.List.Perm
use mathlib.Core.List.{filter_map, map-append, append_assoc, append-nil}
use sfizz.Base.{
  ℕ, zero, suc, ◌≤◌, ◌≡◌, refl, sym, ap, ◌∙◌, true, false, ◌||◌, List, [], ◌∷◌, ◌++◌, Option, none,
  some, arith, if◌then◌else◌, Bool-cases, Option-cases, inl, inr, length, map, is_some,
}
use sfizz.Base.Members.{Perm}
use sfizz.Float.{FloatOps}
use sfizz.FilePool.{FileSystem, FileInformation}
use sfizz.Region.{Region, Conditions, Sound}
use sfizz.Region.Triggers.{is_generator}
use sfizz.FilePool.Preload.{
  has_file, is_some-get_file_information, root_directory-get_file_information,
}
use sfizz.Synth.{Synth}
use sfizz.Synth.Loading.Lists.{fixed-set_defaults}
use sfizz.Synth.Loading.{
  last_or, init, swap_last, set_defaults, with_file, ask_file, keep, keep_found, load_step,
  load_regions,
}

Perm-last_or : {A : Type 0} (a : A) (rest : List A) → Perm (last_or a rest ∷ init a rest) (a ∷ rest)
unfolding last_or init
Perm-last_or a [] = Perm.refl (a ∷ [])
Perm-last_or a (b ∷ rest) =
    Perm.trans (Perm.swap a (last_or b rest) (init b rest)) (Perm.cons a (Perm-last_or b rest))

pub Perm-swap_last : {A : Type 0} (a : A) (rest : List A) → Perm (swap_last (a ∷ rest)) rest
unfolding swap_last
Perm-swap_last a [] = Perm.nil
Perm-swap_last a (b ∷ rest) = Perm-last_or b rest

length-init : {A : Type 0} (a : A) (rest : List A) → length (init a rest) ≡ length rest
unfolding init
length-init a [] = refl
length-init a (b ∷ rest) = ap suc (length-init b rest)

pub length-swap_last :
    {A : Type 0} (a : A) (rest : List A) → length (swap_last (a ∷ rest)) ≡ length rest
unfolding swap_last
length-swap_last a [] = refl
length-swap_last a (b ∷ rest) = ap suc (length-init b rest)

module _ {F : Type 0} ⦃o : FloatOps F⦄ where
  -- The names of the samples stand for the regions.
  abbrev pub samples : List (Region F) → List (List ℕ)
  samples regions = map (λ (r : Region F). r.sound.sample) regions

  -- The three outcomes of a round.
  pub data Outcome (sort_points : List (ℕ × F) → List (ℕ × F)) (files : FileSystem F) (s : Synth F)
      (r : Region F) (rest : List (Region F)) : Synth F × List (Region F) → Type 0 where
    generator :
        is_generator r.sound ≡ true
        → Outcome sort_points files s r rest (keep sort_points s r, rest)
    found :
        (info : FileInformation F)
        → is_generator r.sound ≡ false
        → has_file files s.file_pool.root_directory r.sound.sample ≡ true
        → Outcome sort_points files s r rest (
          keep sort_points (record s { file_pool = (ask_file files s r).0 }) (with_file r info),
          rest,
        )
    lost :
        is_generator r.sound ≡ false
        → has_file files s.file_pool.root_directory r.sound.sample ≡ false
        → Outcome sort_points files s r rest
            (record s { file_pool = (ask_file files s r).0 }, swap_last (r ∷ rest))

  -- The name of a region that the loop keeps.
  module _ (files : FileSystem F) where
    abbrev pub pick : List ℕ → Region F → Option (List ℕ)
    pick root r =
        if is_generator r.sound || has_file files root r.sound.sample
        then some r.sound.sample
        else none

  module _ (sort_points : List (ℕ × F) → List (ℕ × F)) (files : FileSystem F) where
    known :
        (s : Synth F) (r : Region F)
        → is_some (ask_file files s r).1 ≡ has_file files s.file_pool.root_directory r.sound.sample
    unfolding ask_file
    known s r = is_some-get_file_information files s.file_pool r.sound.sample _

    same_root :
        (s : Synth F) (r : Region F)
        → (ask_file files s r).0.root_directory ≡ s.file_pool.root_directory
    unfolding ask_file
    same_root s r = root_directory-get_file_information files s.file_pool r.sound.sample _

    pub outcome :
        (s : Synth F) (r : Region F) (rest : List (Region F))
        → Outcome sort_points files s r rest (load_step sort_points files s r rest)
    unfolding load_step
    outcome s r rest = elim (Bool-cases (is_generator r.sound)) [
      | inl e ↦ rw (e, load_step) (Outcome.generator e)
      | inr e ↦ elim (Option-cases (ask_file files s r).1) [
        | inl n ↦
            rw (e, load_step)
              (rw (n, keep_found) (Outcome.lost e (sym (known s r) ∙ ap (λ f. is_some f) n)))
        | inr (info, m) ↦
            rw (e, load_step)
              (rw (m, keep_found) (Outcome.found info e (sym (known s r) ∙ ap (λ f. is_some f) m)))
      ]
    ]

    samples-keep :
        (s : Synth F) (r : Region F) (more : List (List ℕ))
        → samples (keep sort_points s r).regions ++ more
          ≡ samples s.regions ++ (r.sound.sample ∷ more)
    unfolding keep
    samples-keep s r more =
        let r' = set_defaults sort_points s.midi_state.cc s.default_switch r in
        let same : r'.sound.sample ≡ r.sound.sample =
          ap (λ (p : Conditions F × Sound F). p.1.sample)
            (fixed-set_defaults sort_points s.midi_state.cc s.default_switch r) in
        rw (map-append (λ (q : Region F). q.sound.sample) s.regions (r' ∷ []), same)
          (append_assoc (samples s.regions) (r.sound.sample ∷ []) more)

    abbrev left : Synth F → List (Region F) → List (List ℕ)
    left s segment = samples s.regions ++ filter_map (pick files s.file_pool.root_directory) segment

    left-step :
        (s : Synth F) (r : Region F) (rest : List (Region F)) (p : Synth F × List (Region F))
        → Outcome sort_points files s r rest p
        → Perm (left p.0 p.1) (left s (r ∷ rest))
    unfolding filter_map keep with_file
    left-step s r rest (_, _) (Outcome.generator e) =
        let more = filter_map (pick files s.file_pool.root_directory) rest in
        rw (e, samples-keep s r more) (Perm.refl (samples s.regions ++ (r.sound.sample ∷ more)))
    left-step s r rest (_, _) (Outcome.found info e h) =
        let more = filter_map (pick files s.file_pool.root_directory) rest in
        let t = record s { file_pool = (ask_file files s r).0 } in
        rw (e, h, same_root s r, samples-keep t (with_file r info) more)
          (Perm.refl (samples s.regions ++ (r.sound.sample ∷ more)))
    left-step s r rest (_, _) (Outcome.lost e h) =
        rw (e, h, same_root s r)
          (Perm.append_left (samples s.regions)
            (Perm.filter_map (pick files s.file_pool.root_directory) (Perm-swap_last r rest)))

    length-step :
        (s : Synth F) (r : Region F) (rest : List (Region F)) (p : Synth F × List (Region F))
        → Outcome sort_points files s r rest p
        → length p.1 ≡ length rest
    length-step s r rest (_, _) (Outcome.generator e) = refl
    length-step s r rest (_, _) (Outcome.found info e h) = refl
    length-step s r rest (_, _) (Outcome.lost e h) = length-swap_last r rest

    -- Once there are as many rounds as regions, the loop has kept exactly the generators and the
    -- regions whose file is there and has one or two channels, up to their order.
    pub samples-load_regions :
        (n : ℕ) (s : Synth F) (segment : List (Region F))
        → length segment ≤ n
        → Perm
            (samples (load_regions sort_points files n s segment).regions)
            (samples s.regions ++ filter_map (pick files s.file_pool.root_directory) segment)
    unfolding load_regions filter_map
    samples-load_regions zero s [] enough = rw (append-nil (samples s.regions)) (Perm.refl _)
    samples-load_regions zero s (r ∷ rest) enough = absurd (omega (arith, enough))
    samples-load_regions (suc n) s [] enough = rw (append-nil (samples s.regions)) (Perm.refl _)
    samples-load_regions (suc n) s (r ∷ rest) enough =
        let p = load_step sort_points files s r rest in
        let o = outcome s r rest in
        Perm.trans
          (samples-load_regions n p.0 p.1 (omega (arith, enough, length-step s r rest p o)))
          (left-step s r rest p o)
