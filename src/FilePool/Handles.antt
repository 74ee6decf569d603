-- ===== src/FilePool/Handles.antt =====
-- FilePool.cpp, `loadingThread` and `garbageThread`: the shared pointers to the files that were read,
-- in the pool and in the voices, as steps of three threads. A file is named by its number.
pub mod Owned
pub mod Passes
use sfizz.Base.{
  ℕ, zero, suc, ◌+◌, ◌≡◌, Bool, true, false, List, [], ◌∷◌, ◌++◌, Option, none, some, ◌==◌,
  if◌then◌else◌,
}
use sfizz.Synth.Loading.{swap_last}

-- The pool's pointers before the place of the garbage thread and from it, whether that thread holds
-- the mutex, and the pointer of each voice.
pub record Handles : Type 0 where
  pub kept : List ℕ
  pub left : List ℕ
  pub is_locked : Bool
  pub voices : List (Option ℕ)

unfoldable pub occurrences : ℕ → List ℕ → ℕ
occurrences file [] = 0
occurrences file (x ∷ files) =
    let rest = occurrences file files in if x == file then suc rest else rest

unfoldable pub holders : ℕ → List (Option ℕ) → ℕ
holders file [] = 0
holders file (none ∷ voices) = holders file voices
holders file (some x ∷ voices) =
    let rest = holders file voices in if x == file then suc rest else rest

-- `use_count` of a file.
unfoldable pub use_count : ℕ → Handles → ℕ
unfolding occurrences holders
use_count file s = occurrences file s.kept + occurrences file s.left + holders file s.voices

-- One round of the loop of the garbage thread, which is at a pointer before others. One that is alone
-- is reset, and the last takes its place.
unfoldable pub collect_next : ℕ → List ℕ → Handles → Handles
unfolding use_count swap_last
collect_next file rest s =
    if use_count file s == 1
    then record s { left = swap_last (file ∷ rest) }
    else record s { kept = s.kept ++ (file ∷ []); left = rest }

-- The loop, by the count of the rounds. Each round shortens what is left by one.
abbrev pub round : List ℕ → Handles → Handles
round [] s = s
round (file ∷ rest) s = collect_next file rest s

unfoldable pub pass : ℕ → Handles → Handles
unfolding collect_next
pass zero s = s
pass (suc n) s = pass n (round s.left s)

unfoldable pub set_pointer : ℕ → Option ℕ → List (Option ℕ) → List (Option ℕ)
set_pointer voice file [] = []
set_pointer zero file (old ∷ voices) = file ∷ voices
set_pointer (suc voice) file (old ∷ voices) = old ∷ set_pointer voice file voices

-- A file goes into the pool, and to its voice, which takes it if it still has the ticket.
unfoldable pub load : ℕ → ℕ → Bool → Handles → Handles
unfolding set_pointer
load file voice takes s = record s {
  kept = s.kept ++ (file ∷ []);
  voices = if takes then set_pointer voice (some file) s.voices else s.voices;
}

-- `fileData.reset()` of a voice, in its `reset` or `garbageCollect`.
unfoldable pub drop : ℕ → Handles → Handles
unfolding set_pointer
drop voice s = record s { voices = set_pointer voice none s.voices }

-- `fileHandles.clear()`, in the pool's `clear`.
unfoldable pub clear_files : Handles → Handles
clear_files s = record s { kept = []; left = [] }

-- The mutex keeps the loading thread out of a pass of the garbage thread, and not the voices.
pub data Step (s : Handles) : Handles → Type 0 where
  lock :
      s.is_locked ≡ false
      → Step s (record s { is_locked = true; kept = []; left = s.kept ++ s.left })
  collect :
      (file : ℕ)
      → (rest : List ℕ) → s.is_locked ≡ true
      → s.left ≡ file ∷ rest
      → Step s (collect_next file rest s)
  unlock : s.is_locked ≡ true → s.left ≡ [] → Step s (record s { is_locked = false })
  read_file :
      (file voice : ℕ) → (takes : Bool) → s.is_locked ≡ false → Step s (load file voice takes s)
  drop_file : (voice : ℕ) → Step s (drop voice s)
  -- The pool is cleared without the mutex. In the middle of a pass this is undefined in the source;
  -- here the pass then finds nothing more.
  clear_pool : Step s (clear_files s)

pub data Reach (s : Handles) : Handles → Type 0 where
  here : Reach s s
  next : {t u : Handles} → Reach s t → Step t u → Reach s u
