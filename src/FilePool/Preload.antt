-- ===== src/FilePool/Preload.antt =====
-- FilePool.cpp: what the pool keeps of the files that it is asked for.
use sfizz.Base.{
  ℕ, ◌≤◌, ◌≡◌, ◌≢◌, List, none, some, arith, Bool, is_some, Bool-cases, inl, inr, ◌&&◌, ◌||◌, ◌==◌,
}
use sfizz.Float.{FloatOps}
use sfizz.Region.Parts.{AudioBuffer}
use sfizz.FilePool.{
  FilePool, FileSystem, FileInformation, find_preloaded, preloaded_size, get_file_information,
  read_from_file,
}
use sfizz.StringView.Same.{is_same_refl, eq_of_is_same}
use sfizz.StringView.{is_same}

module _ {F : Type 0} ⦃o : FloatOps F⦄ (files : FileSystem F) where
  open files use {exists, join, open_sound}

  -- The buffer that a request gets has all the frames that it needs: the file's, or the preloaded
  -- ones from its offset on.
  pub preloaded_size-get_file_information :
      (pool : FilePool F) (name : List ℕ) (offset : ℕ) (found : FileInformation F)
      → (get_file_information files pool name offset).1 ≡ some found
      → preloaded_size (open_sound (join pool.root_directory name)) offset
        ≤ found.preloaded_data.num_frames
  unfolding get_file_information preloaded_size read_from_file
  preloaded_size-get_file_information pool name offset found e = ground (arith, e)

  -- A buffer that is in the pool stays in it, whatever is asked for: a longer one that a later
  -- request needs is read, and not kept.
  pub find_preloaded-get_file_information :
      (pool : FilePool F) (name other : List ℕ) (offset : ℕ) (buffer : AudioBuffer F)
      → find_preloaded other pool.preloaded_data ≡ some buffer
      → find_preloaded other (get_file_information files pool name offset).0.preloaded_data
        ≡ some buffer
  unfolding get_file_information find_preloaded
  find_preloaded-get_file_information pool name other offset buffer e =
      elim (Bool-cases (is_same name other)) [
        | inl same ↦ ground (arith, e, eq_of_is_same name other same)
        | inr differ ↦ ground (arith, e, differ)
      ]

  -- A file that a request found is in the pool behind it.
  pub get_file_information-keeps :
      (pool : FilePool F) (name : List ℕ) (offset : ℕ) (found : FileInformation F)
      → (get_file_information files pool name offset).1 ≡ some found
      → find_preloaded name (get_file_information files pool name offset).0.preloaded_data ≢ none
  unfolding get_file_information find_preloaded
  get_file_information-keeps pool name offset found e = ground (arith, e, is_same_refl name)

  -- Whether a request finds a file that the pool can read.
  abbrev pub has_file : List ℕ → List ℕ → Bool
  has_file root name =
      let file = open_sound (join root name) in
      exists (join root name) && (file.channels == 1 || file.channels == 2)

  pub is_some-get_file_information :
      (pool : FilePool F) (name : List ℕ) (offset : ℕ)
      → is_some (get_file_information files pool name offset).1 ≡ has_file pool.root_directory name
  unfolding get_file_information
  is_some-get_file_information pool name offset = ground arith

  pub root_directory-get_file_information :
      (pool : FilePool F) (name : List ℕ) (offset : ℕ)
      → (get_file_information files pool name offset).0.root_directory ≡ pool.root_directory
  unfolding get_file_information
  root_directory-get_file_information pool name offset = ground arith
