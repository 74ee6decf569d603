-- ===== src/Synth/Voices/Searching.antt =====
-- Synth.cpp: the voices by their numbers, an update of one, and the search for the first that passes
-- a test.
use sfizz.Base.{
  ℕ, ◌≡◌, ◌≢◌, refl, sym, ap, subst, ◌∙◌, Bool, true, false, List, [], ◌∷◌, Option, none, some, map,
  arith, ◌==◌, if◌then◌else◌, ==_iff, Bool-cases, inl, inr,
}
use sfizz.Base.Members.{
  Mem, Mem-prop, Nodup, mem_cases, head-not_mem, tail-Nodup, mem-cons_self, mem-cons_of_mem,
  not-mem-nil, mem-map_of_mem, Bool-set,
}
use sfizz.Voice.Parts.{Voice}
use sfizz.Voice.Events.{is_free}
use sfizz.Synth.Voices.{update, first_free}

ne_of_miss : (a b : ℕ) → (a == b) ≡ false → a ≢ b
ne_of_miss a b miss = λ e. ground (arith, e, miss)

pub some_inj {ℓ} : {A : Type ℓ} {a b : A} → some a ≡ some b → a ≡ b
some_inj {a} e = ap (λ o. elim o [ none ↦ a | some c ↦ c ]) e

module _ {F : Type 0} where
  abbrev pub ids : List (Voice F) → List ℕ
  ids voices = map (λ v. v.id) voices

  -- The number of a voice and the size of its temporary spans.
  abbrev pub mark : Voice F → ℕ × ℕ
  mark v = (v.id, v.span_size)

  abbrev pub marks : List (Voice F) → List (ℕ × ℕ)
  marks voices = map (λ v. mark v) voices

  pub map-update :
      {A : Type 0} (g : Voice F → A) (i : ℕ) (f : Voice F → Voice F)
      → ((v : Voice F) → g (f v) ≡ g v)
      → (voices : List (Voice F)) → map g (update i f voices) ≡ map g voices
  unfolding update
  map-update g i f keeps [] = refl
  map-update g i f keeps (v ∷ voices) = elim (Bool-cases (v.id == i)) [
    | inl hit ↦ rw (hit, update) (ap (λ a. a ∷ map g voices) (keeps v))
    | inr miss ↦ rw (miss, update) (ap (λ l. g v ∷ l) (map-update g i f keeps voices))
  ]

  -- An update leaves the voices with other numbers.
  pub Mem-update :
      (i : ℕ) (f : Voice F → Voice F) (v : Voice F) (voices : List (Voice F))
      → v.id ≢ i
      → Mem v voices
      → Mem v (update i f voices)
  unfolding update
  Mem-update i f v [] other m = absurd (not-mem-nil m)
  Mem-update i f v (w ∷ voices) other m = elim (Bool-cases (w.id == i)) [
    | inl hit ↦ rw hit (
        mem_cases Mem-prop m
          (λ e. absurd (other (ap (λ (x : Voice F). x.id) e ∙ (==_iff w.id i).0 hit)))
          (λ there. mem-cons_of_mem (f w) there))
    | inr miss ↦ rw miss (
        mem_cases Mem-prop m (λ e. rw e mem-cons_self)
          (λ there. mem-cons_of_mem w (Mem-update i f v voices other there)))
  ]

  -- The converse.
  pub Mem_of_update :
      (i : ℕ) (f : Voice F → Voice F) (v : Voice F) (voices : List (Voice F))
      → ((w : Voice F) → (f w).id ≡ w.id)
      → v.id ≢ i
      → Mem v (update i f voices)
      → Mem v voices
  unfolding update
  Mem_of_update i f v [] keeps other m = absurd (not-mem-nil m)
  Mem_of_update i f v (w ∷ voices) keeps other m = elim (Bool-cases (w.id == i)) [
    | inl hit ↦
        mem_cases Mem-prop
          (subst (λ b. Mem v (if b then f w ∷ voices else w ∷ update i f voices)) hit m)
          (λ e. absurd (other (ap (λ (x : Voice F). x.id) e ∙ keeps w ∙ (==_iff w.id i).0 hit)))
          (λ there. mem-cons_of_mem w there)
    | inr miss ↦
        mem_cases Mem-prop
          (subst (λ b. Mem v (if b then f w ∷ voices else w ∷ update i f voices)) miss m)
          (λ e. rw e mem-cons_self)
          (λ there. mem-cons_of_mem w (Mem_of_update i f v voices keeps other there))
  ]

  -- The voice that an update changes has what the change gives.
  pub update-changed :
      (i : ℕ) (f : Voice F → Voice F) (test : Voice F → Bool) (v : Voice F)
      (voices : List (Voice F))
      → ((w : Voice F) → (f w).id ≡ w.id)
      → ((w : Voice F) → test (f w) ≡ true)
      → Nodup (ids voices)
      → v.id ≡ i
      → Mem v (update i f voices)
      → test v ≡ true
  unfolding update
  update-changed i f test v [] keeps gives n e m = absurd (not-mem-nil m)
  update-changed i f test v (w ∷ voices) keeps gives n e m = elim (Bool-cases (w.id == i)) [
    | inl hit ↦
        mem_cases (Bool-set _ _)
          (subst (λ b. Mem v (if b then f w ∷ voices else w ∷ update i f voices)) hit m)
          (λ same. rw same (gives w))
          (λ there. absurd (
            head-not_mem n (
              subst (λ k. Mem k (ids voices)) (e ∙ sym ((==_iff w.id i).0 hit))
                (mem-map_of_mem (λ (x : Voice F). x.id) there))))
    | inr miss ↦
        mem_cases (Bool-set _ _)
          (subst (λ b. Mem v (if b then f w ∷ voices else w ∷ update i f voices)) miss m)
          (λ same. absurd (ne_of_miss w.id i miss (sym (ap (λ (x : Voice F). x.id) same) ∙ e)))
          (λ there. update-changed i f test v voices keeps gives (tail-Nodup n) e there)
  ]

  -- The first voice that passes a test: what both searches of the source come to.
  unfoldable pub first_with : (Voice F → Bool) → List (Voice F) → Option ℕ
  first_with test [] = none
  first_with test (v ∷ voices) = if test v then some v.id else first_with test voices

  pub first_with-Mem :
      (test : Voice F → Bool) (i : ℕ) (voices : List (Voice F))
      → first_with test voices ≡ some i
      → Mem i (ids voices)
  unfolding first_with
  first_with-Mem test i [] found = absurd (ground (arith, found))
  first_with-Mem test i (w ∷ voices) found = elim (Bool-cases (test w)) [
    | inl hit ↦
        rw
          (sym (
            some_inj
              (subst (λ b. (if b then some w.id else first_with test voices) ≡ some i) hit found)))
          mem-cons_self
    | inr miss ↦ mem-cons_of_mem w.id (
        first_with-Mem test i voices
          (subst (λ b. (if b then some w.id else first_with test voices) ≡ some i) miss found))
  ]

  pub first_with-passes :
      (test : Voice F → Bool) (i : ℕ) (v : Voice F) (voices : List (Voice F))
      → Nodup (ids voices)
      → first_with test voices ≡ some i
      → v.id ≡ i
      → Mem v voices
      → test v ≡ true
  unfolding first_with
  first_with-passes test i v [] n found e m = absurd (not-mem-nil m)
  first_with-passes test i v (w ∷ voices) n found e m = elim (Bool-cases (test w)) [
    | inl hit ↦
        mem_cases (Bool-set _ _) m (λ same. rw same hit)
          (λ there. absurd (
            head-not_mem n (
              subst (λ k. Mem k (ids voices))
                (e
                  ∙ sym (
                      some_inj (
                        subst (λ b. (if b then some w.id else first_with test voices) ≡ some i) hit
                          found)))
                (mem-map_of_mem (λ (x : Voice F). x.id) there))))
    | inr miss ↦
        let later : first_with test voices ≡ some i =
          subst (λ b. (if b then some w.id else first_with test voices) ≡ some i) miss found in
        mem_cases (Bool-set _ _) m
          (λ same. absurd (
            head-not_mem n (
              subst (λ k. Mem k (ids voices)) (sym e ∙ ap (λ (x : Voice F). x.id) same)
                (first_with-Mem test i voices later))))
          (λ there. first_with-passes test i v voices (tail-Nodup n) later e there)
  ]

  pub none_of_first_with :
      (test : Voice F → Bool) (v : Voice F) (voices : List (Voice F))
      → first_with test voices ≡ none
      → Mem v voices
      → test v ≡ false
  unfolding first_with
  none_of_first_with test v [] e m = absurd (not-mem-nil m)
  none_of_first_with test v (w ∷ voices) e m = elim (Bool-cases (test w)) [
    | inl hit ↦ absurd (ground (arith, hit, e))
    | inr miss ↦
        mem_cases (Bool-set _ _) m (λ same. rw same miss)
          (λ there.
            none_of_first_with test v voices
              (subst (λ b. (if b then some w.id else first_with test voices) ≡ none) miss e) there)
  ]

  pub first_with-none :
      (test : Voice F → Bool) (voices : List (Voice F))
      → ((v : Voice F) → Mem v voices → test v ≡ false)
      → first_with test voices ≡ none
  unfolding first_with
  first_with-none test [] all = refl
  first_with-none test (w ∷ voices) all =
      rw (all w mem-cons_self) (first_with-none test voices (λ v m. all v (mem-cons_of_mem w m)))

  pub first_free_lem :
      (voices : List (Voice F)) → first_free voices ≡ first_with (λ v. is_free v) voices
  unfolding first_free first_with
  first_free_lem [] = refl
  first_free_lem (v ∷ voices) = rw (first_free_lem voices) refl
