-- ===== src/FilePool/Handles/Owned.antt =====
-- FilePool.cpp: which thread frees a file.
use sfizz.Base.{
  ℕ, zero, suc, ◌+◌, ◌≡◌, ◌↔◌, ◌<◌, ◌≤◌, refl, true, false, List, [], ◌∷◌, ◌++◌, Option, none, some,
  ◌==◌, arith, Bool-cases, inl, inr,
}
use sfizz.Synth.Loading.{last_or, init, swap_last}
use sfizz.FilePool.Handles.{
  Handles, occurrences, holders, use_count, collect_next, set_pointer, load, drop, Step, lock,
  collect, unlock, read_file, drop_file, clear_pool, clear_files, Reach, here, next,
}

pub occurrences-append :
    (file : ℕ) (xs ys : List ℕ)
    → occurrences file (xs ++ ys) ≡ occurrences file xs + occurrences file ys
unfolding occurrences
occurrences-append file [] ys = omega arith
occurrences-append file (x ∷ xs) ys = ground (arith, occurrences-append file xs ys)

occurrences-last_or :
    (file x : ℕ) (rest : List ℕ)
    → occurrences file (last_or x rest ∷ init x rest) ≡ occurrences file (x ∷ rest)
unfolding occurrences last_or init
occurrences-last_or file x [] = refl
occurrences-last_or file x (y ∷ rest) = ground (arith, occurrences-last_or file y rest)

pub occurrences-swap_last :
    (file x : ℕ) (rest : List ℕ) → occurrences file (swap_last (x ∷ rest)) ≡ occurrences file rest
unfolding swap_last
occurrences-swap_last file x [] = refl
occurrences-swap_last file x (y ∷ rest) = occurrences-last_or file y rest

holders-set_pointer :
    (file new voice : ℕ) (voices : List (Option ℕ))
    → (holders file (set_pointer voice none voices) ≤ holders file voices)
      × (holders file (set_pointer voice (some new) voices)
          ≤ holders file voices + occurrences file (new ∷ []))
unfolding holders set_pointer occurrences
holders-set_pointer file new voice [] = ground arith
holders-set_pointer file new zero (none ∷ voices) = ground arith
holders-set_pointer file new zero (some x ∷ voices) = ground arith
holders-set_pointer file new (suc voice) (none ∷ voices) = holders-set_pointer file new voice voices
holders-set_pointer file new (suc voice) (some x ∷ voices) =
    let (lo, hi) = holders-set_pointer file new voice voices in
    (ground (arith, lo), ground (arith, hi))

-- The pool has a pointer to every file that a voice points to.
abbrev pub IsOwned : Handles → Type 0
IsOwned s =
    (file : ℕ) → 0 < holders file s.voices → 0 < occurrences file s.kept + occurrences file s.left

collect_next-IsOwned :
    (s : Handles) (x : ℕ) (rest : List ℕ)
    → s.left ≡ x ∷ rest
    → IsOwned s
    → IsOwned (collect_next x rest s)
unfolding collect_next use_count occurrences
collect_next-IsOwned s x rest e owned file = elim (Bool-cases (use_count x s == 1)) [
  | inl alone ↦
      rw (alone, collect_next)
        (λ held. ground (arith, held, owned file held, alone, e, occurrences-swap_last file x rest))
  | inr shared ↦
      rw (shared, collect_next, occurrences-append file s.kept (x ∷ []))
        (λ held. ground (arith, held, owned file held, e))
]

-- No voice has a file.
abbrev pub IsIdle : Handles → Type 0
IsIdle s = (file : ℕ) → holders file s.voices ≡ 0

-- A step that clears the pool finds no voice with a file.
abbrev pub IsTimelyStep : {s t : Handles} → Step s t → Type 0
IsTimelyStep (lock _) = Unit {0}
IsTimelyStep (collect _ _ _ _) = Unit {0}
IsTimelyStep (unlock _ _) = Unit {0}
IsTimelyStep (read_file _ _ _ _) = Unit {0}
IsTimelyStep (drop_file _) = Unit {0}
IsTimelyStep {s = s} clear_pool = IsIdle s

-- Every time that the pool is cleared no voice has a file.
abbrev pub IsTimely : {s t : Handles} → Reach s t → Type 0
IsTimely here = Unit {0}
IsTimely (next r step) = IsTimely r × IsTimelyStep step

clear_files-IsOwned : (s : Handles) → IsOwned (clear_files s) ↔ IsIdle s
unfolding clear_files occurrences
clear_files-IsOwned s = (
  λ owned file. ground (arith, owned file),
  λ idle file held. absurd (omega (arith, held, idle file)),
)

Step-IsOwned : {s t : Handles} (step : Step s t) → IsTimelyStep step → IsOwned s → IsOwned t
unfolding load drop occurrences
Step-IsOwned {s = s} (lock e) timely owned =
    λ file held. ground (arith, owned file held, occurrences-append file s.kept s.left)
Step-IsOwned {s = s} (collect x rest l e) timely owned = collect_next-IsOwned s x rest e owned
Step-IsOwned (unlock l e) timely owned = owned
Step-IsOwned {s = s} (read_file new voice true l) timely owned = λ file held. ground (
  arith,
  held,
  owned file,
  occurrences-append file s.kept (new ∷ []),
  (holders-set_pointer file new voice s.voices).1,
)
Step-IsOwned {s = s} (read_file new voice false l) timely owned =
    λ file held. ground (arith, owned file held, occurrences-append file s.kept (new ∷ []))
Step-IsOwned {s = s} (drop_file voice) timely owned =
    λ file held. owned file (omega (arith, held, (holders-set_pointer file 0 voice s.voices).0))
Step-IsOwned {s = s} clear_pool timely owned = (clear_files-IsOwned s).1 timely

-- From a state where the pool has a pointer to every file of a voice, the threads keep this, in
-- whatever order they run, as long as the pool is cleared only when no voice has a file. So a voice
-- that drops its pointer does not free a file: one that was in use still is. Where the pool is
-- cleared, it has such pointers afterwards exactly if no voice has a file.
pub Reach-IsOwned :
    {s t : Handles}
    → IsOwned s
    → (r : Reach s t) → IsTimely r
    → IsOwned t
      × ((voice file : ℕ) → 0 < use_count file t → 0 < use_count file (drop voice t))
      × (IsOwned (clear_files t) ↔ IsIdle t)
unfolding use_count drop
Reach-IsOwned {s = s} {t = t} owned r timely = (
  reached r timely,
  λ voice file used. ground (arith, used, reached r timely file),
  clear_files-IsOwned t,
)
  where
    reached : {u : Handles} (q : Reach s u) → IsTimely q → IsOwned u
    reached here timely = owned
    reached (next q step) (timely, at) = Step-IsOwned step at (reached q timely)
