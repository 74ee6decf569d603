-- ===== src/Synth/Voices/Stealing.antt =====
-- Synth.cpp, `findFreeVoice`: which voice it gives, and what becomes of the others.
use mathlib.Core.List.Perm
use sfizz.Base.{
  map, ℕ, ◌≡◌, ◌↔◌, refl, sym, ◌∙◌, Bool, true, false, ◌&&◌, not, arith, List, [], ◌∷◌, Option,
  none, some, Bool-cases, Option-cases, inl, inr,
}
use sfizz.Base.Members.{Mem, Perm, Nodup}
use sfizz.Float.{FloatOps}
use sfizz.Voice.Parts.{Voice, State, is_playing}
use sfizz.Voice.Events.{is_free, can_be_stolen, get_mean_squared_average, reset}
use sfizz.Synth.Voices.{
  update, first_free, stealable, first_quiet, find_free_voice, voice_stealing_threshold,
}
use sfizz.Synth.Voices.Searching.{
  ids, map-update, Mem-update, Mem_of_update, update-changed, first_with, first_with-passes,
  none_of_first_with, first_with-none, some_inj, first_free_lem,
}

module _ {F : Type 0} ⦃o : FloatOps F⦄ where
  abbrev is_quiet : Voice F → Bool
  is_quiet v = o.lt (get_mean_squared_average v) voice_stealing_threshold

  -- A voice that may be stolen.
  pub gives_way : Voice F → Bool
  gives_way v = can_be_stolen v && is_quiet v

  first_quiet_lem :
      (voices : List (Voice F)) → first_quiet (stealable voices) ≡ first_with gives_way voices
  unfolding first_quiet stealable first_with gives_way
  first_quiet_lem [] = refl
  first_quiet_lem (v ∷ voices) = elim (Bool-cases (can_be_stolen v)) [
    | inl may ↦ rw (may, first_quiet_lem voices) refl
    | inr may_not ↦ rw (may_not, first_quiet_lem voices) refl
  ]

  module _ (sort : List (Voice F) → List (Voice F))
      (sorted : (voices : List (Voice F)) → Perm (sort voices) voices) where
    ids-sort : (voices : List (Voice F)) → Perm (ids (sort voices)) (ids voices)
    ids-sort voices = Perm.map (λ v. v.id) (sorted voices)

    -- The three outcomes of the search.
    data Outcome (voices : List (Voice F)) : List (Voice F) × Option ℕ → Type 0 where
      free : (i : ℕ) → first_with (λ v. is_free v) voices ≡ some i → Outcome voices (voices, some i)
      stolen :
          (i : ℕ)
          → first_with (λ v. is_free v) voices ≡ none
          → first_with gives_way voices ≡ some i
          → Outcome voices (update i (λ v. reset v) (sort voices), some i)
      overloaded :
          first_with (λ v. is_free v) voices ≡ none
          → first_with gives_way voices ≡ none
          → Outcome voices (sort voices, none)

    outcome : (voices : List (Voice F)) → Outcome voices (find_free_voice sort voices)
    unfolding find_free_voice
    outcome voices = elim (Option-cases (first_free voices)) [
      | inr (i, e) ↦ rw (e, find_free_voice) (Outcome.free i (sym (first_free_lem voices) ∙ e))
      | inl e ↦ elim (Option-cases (first_quiet (stealable voices))) [
        | inr (i, q) ↦
            rw (e, q, find_free_voice)
              (Outcome.stolen i (sym (first_free_lem voices) ∙ e)
                (sym (first_quiet_lem voices) ∙ q))
        | inl q ↦
            rw (e, q, find_free_voice)
              (Outcome.overloaded (sym (first_free_lem voices) ∙ e)
                (sym (first_quiet_lem voices) ∙ q))
      ]
    ]

    ids-Nodup : (voices : List (Voice F)) → Nodup (ids voices) → Nodup (ids (sort voices))
    ids-Nodup voices n = Perm.nodup (Perm.symm (ids-sort voices)) n

    Outcome-is_free :
        (voices : List (Voice F)) (r : List (Voice F) × Option ℕ) (i : ℕ) (v : Voice F)
        → Outcome voices r
        → Nodup (ids voices)
        → r.1 ≡ some i
        → Mem v r.0
        → v.id ≡ i
        → is_free v ≡ true
    unfolding is_free reset
    Outcome-is_free voices (_, _) i v (Outcome.free j e) n found m same =
        first_with-passes (λ w. is_free w) i v voices n (e ∙ found) same m
    Outcome-is_free voices (_, _) i v (Outcome.stolen j e q) n found m same =
        update-changed j (λ w. reset w) (λ w. is_free w) v (sort voices) (λ w. refl) (λ w. refl)
          (ids-Nodup voices n) (same ∙ sym (some_inj found)) m
    Outcome-is_free voices (_, _) i v (Outcome.overloaded e q) n found m same =
        absurd (ground (arith, found))

    -- The voice that `findFreeVoice` gives is free, where the numbers of the voices differ and the
    -- sort only reorders.
    pub find_free_voice-is_free :
        (voices : List (Voice F)) (i : ℕ) (v : Voice F)
        → Nodup (ids voices)
        → (find_free_voice sort voices).1 ≡ some i
        → Mem v (find_free_voice sort voices).0
        → v.id ≡ i
        → is_free v ≡ true
    find_free_voice-is_free voices i v n found m same =
        Outcome-is_free voices (find_free_voice sort voices) i v (outcome voices) n found m same

    Outcome-playing :
        (voices : List (Voice F)) (r : List (Voice F) × Option ℕ) (v : Voice F)
        → Outcome voices r
        → Nodup (ids voices)
        → v.state ≡ State.playing
        → Mem v r.0 ↔ Mem v voices
    unfolding gives_way can_be_stolen reset
    Outcome-playing voices (_, _) v (Outcome.free j e) n playing = (λ m. m, λ m. m)
    Outcome-playing voices (_, _) v (Outcome.overloaded e q) n playing =
        Perm.mem_iff (sorted voices)
    Outcome-playing voices (_, _) v (Outcome.stolen j e q) n playing = (
      λ m. (Perm.mem_iff (sorted voices)).0 (
          Mem_of_update j (λ w. reset w) v (sort voices) (λ w. refl)
            (λ same. absurd (
              ground (
                arith,
                playing,
                update-changed j (λ w. reset w) (λ w. not (is_playing w.state)) v (sort voices)
                    (λ w. refl) (λ w. refl) (ids-Nodup voices n) same m,
              )))
            m),
      λ m.
          Mem-update j (λ w. reset w) v (sort voices)
            (λ same.
              absurd (ground (arith, playing, first_with-passes gives_way j v voices n q same m)))
            ((Perm.mem_iff (sorted voices)).1 m),
    )

    -- No voice that plays is touched by `findFreeVoice`, and none begins to play, where the numbers
    -- of the voices differ and the sort only reorders.
    pub find_free_voice-playing :
        (voices : List (Voice F)) (v : Voice F)
        → Nodup (ids voices)
        → v.state ≡ State.playing
        → Mem v (find_free_voice sort voices).0 ↔ Mem v voices
    find_free_voice-playing voices v n playing =
        Outcome-playing voices (find_free_voice sort voices) v (outcome voices) n playing

    -- `findFreeVoice` keeps of the voices what a reset keeps, up to their order.
    pub map-find_free_voice :
        {A : Type 0} (g : Voice F → A)
        → ((v : Voice F) → g (reset v) ≡ g v)
        → (voices : List (Voice F)) → Perm (map g (find_free_voice sort voices).0) (map g voices)
    map-find_free_voice g keeps voices =
        Outcome-map voices (find_free_voice sort voices) (outcome voices)
      where
        Outcome-map :
            (voices : List (Voice F)) (r : List (Voice F) × Option ℕ)
            → Outcome voices r
            → Perm (map g r.0) (map g voices)
        Outcome-map voices (_, _) (Outcome.free j e) = Perm.refl (map g voices)
        Outcome-map voices (_, _) (Outcome.overloaded e q) = Perm.map g (sorted voices)
        Outcome-map voices (_, _) (Outcome.stolen j e q) =
            rw (map-update g j (λ w. reset w) keeps (sort voices)) (Perm.map g (sorted voices))

    Outcome-none_iff :
        (voices : List (Voice F)) (r : List (Voice F) × Option ℕ)
        → Outcome voices r
        → (r.1 ≡ none) ↔ (
            ((v : Voice F) → Mem v voices → is_free v ≡ false)
            × ((v : Voice F) → Mem v voices → gives_way v ≡ false))
    Outcome-none_iff voices (_, _) (Outcome.free j e) = (
      λ found. absurd (ground (arith, found)),
      λ (p, q). absurd (ground (arith, e, first_with-none (λ w. is_free w) voices p)),
    )
    Outcome-none_iff voices (_, _) (Outcome.stolen j e q) = (
      λ found. absurd (ground (arith, found)),
      λ (p, r). absurd (ground (arith, q, first_with-none gives_way voices r)),
    )
    Outcome-none_iff voices (_, _) (Outcome.overloaded e q) = (
      λ found. (
        λ v m. none_of_first_with (λ w. is_free w) v voices e m,
        λ v m. none_of_first_with gives_way v voices q m,
      ),
      λ all. refl,
    )

    -- `findFreeVoice` gives no voice exactly if no voice is free, and none that is released is quiet.
    pub find_free_voice-none_iff :
        (voices : List (Voice F))
        → ((find_free_voice sort voices).1 ≡ none) ↔ (
            ((v : Voice F) → Mem v voices → is_free v ≡ false)
            × ((v : Voice F) → Mem v voices → gives_way v ≡ false))
    find_free_voice-none_iff voices =
        Outcome-none_iff voices (find_free_voice sort voices) (outcome voices)
