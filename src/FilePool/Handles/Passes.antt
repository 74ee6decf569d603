-- ===== src/FilePool/Handles/Passes.antt =====
-- FilePool.cpp, `garbageThread`: what one pass over the pool leaves.
use sfizz.Base.{
  ℕ, zero, suc, ◌+◌, ◌≡◌, ◌≤◌, refl, ap, ◌∙◌, List, [], ◌∷◌, ◌==◌, ltb, if◌then◌else◌, length,
  arith, Bool-cases, inl, inr,
}
use sfizz.Synth.Loading.Kept.{length-swap_last}
use sfizz.FilePool.Handles.{Handles, occurrences, holders, use_count, collect_next, round, pass}
use sfizz.FilePool.Handles.Owned.{occurrences-append, occurrences-swap_last}

-- No file is in the pool twice: each was read into memory of its own.
abbrev pub IsDistinct : Handles → Type 0
IsDistinct s = (file : ℕ) → occurrences file s.kept + occurrences file s.left ≤ 1

-- How often a file is in the pool behind the pass: one that no voice points to goes, where the pass
-- comes by.
abbrev pub remaining : ℕ → Handles → ℕ
remaining file s =
    if ltb 0 (holders file s.voices)
    then occurrences file s.kept + occurrences file s.left
    else occurrences file s.kept

record IsRound (s t : Handles) : Type 0 where
  distinct : IsDistinct t
  remains : (file : ℕ) → remaining file t ≡ remaining file s
  voices : t.voices ≡ s.voices

collect_next-IsRound :
    (s : Handles) (x : ℕ) (rest : List ℕ)
    → s.left ≡ x ∷ rest
    → IsDistinct s
    → IsRound s (collect_next x rest s)
unfolding collect_next use_count occurrences
collect_next-IsRound s x rest e once = elim (Bool-cases (use_count x s == 1)) [
  | inl alone ↦
      rw (alone, collect_next)
        (record {
          distinct = λ file. ground (arith, once file, e, occurrences-swap_last file x rest);
          remains = λ file. ground (arith, once file, alone, e, occurrences-swap_last file x rest);
          voices = refl;
        })
  | inr shared ↦
      rw (shared, collect_next)
        (record {
          distinct = λ file. ground (arith, once file, e, occurrences-append file s.kept (x ∷ []));
          remains = λ file.
              ground (arith, once file, once x, shared, e, occurrences-append file s.kept (x ∷ []));
          voices = refl;
        })
]

length-collect_next :
    (s : Handles) (x : ℕ) (rest : List ℕ) → length (collect_next x rest s).left ≡ length rest
unfolding collect_next
length-collect_next s x rest = elim (Bool-cases (use_count x s == 1)) [
  | inl alone ↦ rw (alone, collect_next) (length-swap_last x rest)
  | inr shared ↦ rw (shared, collect_next) refl
]

abbrev Ends : ℕ → Handles → Handles → Type 0
Ends n s t = IsRound s t × (length t.left ≤ n)

round-Ends :
    (n : ℕ) (s : Handles) (left : List ℕ)
    → s.left ≡ left
    → length s.left ≤ suc n
    → IsDistinct s
    → Ends n s (round left s)
round-Ends n s [] e few once =
    (record { distinct = once; remains = λ file. refl; voices = refl }, rw e (omega arith))
round-Ends n s (x ∷ rest) e few once = (
  collect_next-IsRound s x rest e once,
  omega (arith, few, ap length e, length-collect_next s x rest),
)

-- One pass ends in at most as many rounds as there are pointers, if no voice changes its pointer
-- meanwhile. What is left of the pool are the files that a voice points to, each as often as before,
-- and those that the pass does not come by, where no file is in the pool twice.
pub left-pass :
    (n : ℕ) (s : Handles)
    → length s.left ≤ n
    → IsDistinct s
    → ((pass n s).left ≡ []) × ((file : ℕ) → occurrences file (pass n s).kept ≡ remaining file s)
unfolding pass occurrences
left-pass zero s few once = go s.left refl
  where
    go :
        (left : List ℕ)
        → s.left ≡ left
        → (s.left ≡ []) × ((file : ℕ) → occurrences file s.kept ≡ remaining file s)
    go [] e = (e, λ file. ground (arith, e))
    go (x ∷ rest) e = absurd (omega (arith, few, ap length e))
left-pass (suc n) s few once =
    let (r, shorter) = round-Ends n s s.left refl few once in
    let (done, same) = left-pass n (round s.left s) shorter r.distinct in
    (done, λ file. same file ∙ r.remains file)
