-- ===== src/Synth/Lifecycle/Marked.antt =====
-- Synth.cpp: the numbers and the temporary spans of the voices, through the calls.
use sfizz.Base.{ℕ, zero, suc, ◌≤◌, ◌≡◌, refl, ap, true, List, [], ◌∷◌, map, arith}
use sfizz.Base.Members.{Mem, mem_cases, mem-cons_self, mem-cons_of_mem, not-mem-nil}
use native.Mathlib.Bridge.{le_prop}
use sfizz.Float.{FloatOps}
use sfizz.Envelope.Linear.{Sort}
use sfizz.Voice.Parts.{Voice, Trigger}
use sfizz.Synth.Construction.{new_voices}
use sfizz.Voice.Events
use sfizz.Synth.Voices.Searching.{ids, mark, marks}
use sfizz.Synth.Rendering.{render_voices}
use sfizz.Voice.Rendering.{render_block}
use sfizz.Voice.Rendering.Ending.{name-render_block}
use sfizz.Synth.Lifecycle.{fits}
use sfizz.Voice.Filling.{StereoBlock}
use sfizz.Simd

-- So many numbers, from the given one on.
abbrev pub numbers_from : ℕ → ℕ → List ℕ
numbers_from id zero = []
numbers_from id (suc left) = id ∷ numbers_from (suc id) left

-- So many voices of one size of spans, by number from the given one on.
abbrev pub marked : ℕ → ℕ → ℕ → List (ℕ × ℕ)
marked size id zero = []
marked size id (suc left) = (id, size) ∷ marked size (suc id) left

pub marked-resized :
    (size n id left : ℕ) → map (λ (m : ℕ × ℕ). (m.0, n)) (marked size id left) ≡ marked n id left
marked-resized size n id zero = refl
marked-resized size n id (suc left) = ap (λ l. (id, n) ∷ l) (marked-resized size n (suc id) left)

pub numbers-marked :
    (size id left : ℕ) → map (λ (m : ℕ × ℕ). m.0) (marked size id left) ≡ numbers_from id left
numbers-marked size id zero = refl
numbers-marked size id (suc left) = ap (λ l. id ∷ l) (numbers-marked size (suc id) left)

pub le-marked :
    (n size : ℕ)
    → n ≤ size
    → (k id left : ℕ) → Mem k (map (λ (m : ℕ × ℕ). m.1) (marked size id left))
    → n ≤ k
le-marked n size le k id zero m = absurd (not-mem-nil m)
le-marked n size le k id (suc left) m =
    mem_cases le_prop m (λ e. rw e le) (λ there. le-marked n size le k (suc id) left there)

module _ {F : Type 0} where
  pub ids-marks : (voices : List (Voice F)) → map (λ (m : ℕ × ℕ). m.0) (marks voices) ≡ ids voices
  ids-marks [] = refl
  ids-marks (v ∷ voices) = ap (λ l. v.id ∷ l) (ids-marks voices)

  pub sizes-marks :
      (voices : List (Voice F))
      → map (λ (v : Voice F). v.span_size) voices ≡ map (λ (m : ℕ × ℕ). m.1) (marks voices)
  sizes-marks [] = refl
  sizes-marks (v ∷ voices) = ap (λ l. v.span_size ∷ l) (sizes-marks voices)

  pub marks-resized :
      (n : ℕ) (voices : List (Voice F))
      → marks (map (λ (v : Voice F). Events.set_samples_per_block v n) voices)
        ≡ map (λ (m : ℕ × ℕ). (m.0, n)) (marks voices)
  unfolding Events.set_samples_per_block
  marks-resized n [] = refl
  marks-resized n (v ∷ voices) = ap (λ l. (v.id, n) ∷ l) (marks-resized n voices)

module _ {F : Type 0} ⦃o : FloatOps F⦄ where
  pub marks-render_voices :
      (sort : Sort F) (n : ℕ) (voices : List (Voice F)) (sum : StereoBlock F)
      → marks (render_voices sort n voices sum).0 ≡ marks voices
  unfolding render_voices
  marks-render_voices sort n [] sum = refl
  marks-render_voices sort n (v ∷ voices) (left, right) =
      let (l, r) = (render_block sort v n).1 in
      rw
        (
          name-render_block sort v n,
          marks-render_voices sort n voices (Simd.add_span l left, Simd.add_span r right),
        )
        refl

  pub mark-garbage_collect : (v : Voice F) → mark (Events.garbage_collect v) ≡ mark v
  unfolding Events.garbage_collect
  mark-garbage_collect v = ground arith

  pub fits-true :
      (n : ℕ) (voices : List (Voice F))
      → ((k : ℕ) → Mem k (map (λ (v : Voice F). v.span_size) voices) → n ≤ k)
      → fits n voices ≡ true
  unfolding fits
  fits-true n [] h = refl
  fits-true n (v ∷ voices) h = ground (
    arith,
    h v.span_size (mem-cons_self),
    fits-true n voices (λ k m. h k (mem-cons_of_mem v.span_size m)),
  )

pub marks-new_voices :
    (F : Type 0) ⦃o : FloatOps F⦄ (unset : Trigger) (id left : ℕ)
    → marks {F = F} (new_voices unset id left) ≡ marked 0 id left
unfolding new_voices
marks-new_voices F unset id zero = refl
marks-new_voices F unset id (suc left) =
    ap (λ l. (id, 0) ∷ l) (marks-new_voices F unset (suc id) left)
