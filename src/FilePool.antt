-- ===== src/FilePool.antt =====
-- sfizz/FilePool.h and sfizz/FilePool.cpp: the preloaded files, and the requests that the loading
-- thread serves. The file system and libsndfile are parameters. A voice is named by its number.
pub mod Handles
pub mod Preload
use Prim.Native.Nat.{min}
use sfizz.Base.{
  ℕ, ◌+◌, ◌*◌, ◌%◌, ◌^◌, Bool, true, false, ◌&&◌, ◌||◌, not, ◌-◌, replicate, List, [], ◌∷◌, ◌++◌,
  Option, none, some, ltb, ◌==◌, if◌then◌else◌, get_or, length,
}
use sfizz.Float.{FloatOps, of_nat}
use sfizz.Simd.{read_interleaved}
use sfizz.StringView.{is_same}
use sfizz.Region.Parts.{AudioBuffer}

-- What a `SndfileHandle` tells: its channels, frames and rate, the loops of its instrument chunk,
-- and the samples, those of the channels in turn, that a read of so many frames gives.
pub record SoundFile (F : Type 0) : Type 0 where
  pub channels : ℕ
  pub frames : ℕ
  pub sample_rate : F
  pub loops : List (ℕ × ℕ)
  pub readf : ℕ → List F

-- `fs::exists` and `SndfileHandle` on the path of a root and a name.
pub record FileSystem (F : Type 0) : Type 0 where
  pub exists : List ℕ → Bool
  pub join : List ℕ → List ℕ → List ℕ
  pub open_sound : List ℕ → SoundFile F

pub record FileInformation (F : Type 0) : Type 0 where
  pub end : ℕ
  pub loop_begin : ℕ
  pub loop_end : ℕ
  pub sample_rate : F
  pub preloaded_data : AudioBuffer F

pub record FileLoadingInformation : Type 0 where
  pub voice : ℕ
  pub sample : List ℕ
  pub num_frames : ℕ
  pub ticket : ℕ

pub record FilePool (F : Type 0) : Type 0 where
  pub root_directory : List ℕ
  pub preloaded_data : List (List ℕ × AudioBuffer F)
  pub loading_queue : List FileLoadingInformation

-- `config::preloadSize`.
abbrev pub preload_size : ℕ
preload_size = 32768

-- A file without loops, or with several, keeps the default range.
abbrev loop_of : List (ℕ × ℕ) → ℕ × ℕ
loop_of (loop ∷ []) = loop
loop_of _ = (0, 2 ^ 32 - 1)

module _ {F : Type 0} where
  -- `preloadedData[filename]`, where the map has it.
  unfoldable pub find_preloaded : List ℕ → List (List ℕ × AudioBuffer F) → Option (AudioBuffer F)
  unfolding is_same
  find_preloaded name [] = none
  find_preloaded name ((other, buffer) ∷ rest) =
      if is_same other name then some buffer else find_preloaded name rest

  -- The sum wraps around in `uint32_t`.
  unfoldable pub preloaded_size : SoundFile F → ℕ → ℕ
  preloaded_size file offset = min (file.frames % 2 ^ 32) ((offset + preload_size) % 2 ^ 32)

  information : SoundFile F → AudioBuffer F → FileInformation F
  information file buffer = record {
    end = file.frames % 2 ^ 32;
    loop_begin = (loop_of file.loops).0;
    loop_end = (loop_of file.loops).1;
    sample_rate = file.sample_rate;
    preloaded_data = buffer;
  }

  unfoldable pub set_root_directory : FilePool F → List ℕ → FilePool F
  set_root_directory pool path = record pool { root_directory = path }

  -- `try_enqueue` of the queue of another library, which tells whether there is room.
  unfoldable pub enqueue_loading :
      (List FileLoadingInformation → Bool) → FilePool F → FileLoadingInformation → FilePool F
  enqueue_loading has_room pool request =
      if has_room pool.loading_queue
      then record pool { loading_queue = pool.loading_queue ++ (request ∷ []) }
      else pool

  unfoldable pub clear : FilePool F → FilePool F
  clear pool = record pool { preloaded_data = []; loading_queue = [] }

module _ {F : Type 0} ⦃o : FloatOps F⦄ where
  -- `readFromFile`: a new buffer of so many frames.
  unfoldable pub read_from_file : SoundFile F → ℕ → AudioBuffer F
  unfolding read_interleaved
  read_from_file file n =
      let silence = replicate n (of_nat 0) in
      let (left, right) = read_interleaved (file.readf n) silence silence in
      record {
        channels =
            if file.channels == 1
            then file.readf n ∷ []
            else if file.channels == 2
            then left ∷ right ∷ []
            else replicate file.channels silence;
        num_frames = n;
      }

  -- The pointer that is reset to the longer buffer is a copy: the map keeps the shorter one.
  preload : FilePool F → List ℕ → SoundFile F → ℕ → FilePool F × FileInformation F
  unfolding find_preloaded preloaded_size information read_from_file
  preload pool name file offset =
      let size = preloaded_size file offset in
      elim (find_preloaded name pool.preloaded_data) [
        | some buffer ↦ (
          pool,
          information file
              (if ltb buffer.num_frames size then read_from_file file size else buffer),
        )
        | none ↦ (
          record pool { preloaded_data = (name, read_from_file file size) ∷ pool.preloaded_data },
          information file (read_from_file file size),
        )
      ]

  module _ (files : FileSystem F) where
    open files use {exists, join, open_sound}

    unfoldable pub get_file_information :
        FilePool F → List ℕ → ℕ → FilePool F × Option (FileInformation F)
    unfolding preload
    get_file_information pool name offset =
        let path = join pool.root_directory name in
        let file = open_sound path in
        let (pool', found) = preload pool name file offset in
        if exists path && (file.channels == 1 || file.channels == 2)
        then (pool', some found)
        else (pool, none)

    -- One round of `loadingThread` with a request: the file for the voice and its ticket, if the
    -- file is there. The pointers of a request are not null.
    unfoldable pub load_next : FilePool F → FilePool F × Option (ℕ × AudioBuffer F × ℕ)
    unfolding read_from_file
    load_next pool = elim pool.loading_queue [
      | [] ↦ (pool, none)
      | request ∷ rest ↦
          let path = join pool.root_directory request.sample in
          let file = read_from_file (open_sound path) request.num_frames in
          (
            record pool { loading_queue = rest },
            if exists path then some (request.voice, file, request.ticket) else none,
          )
    ]
