-- ===== src/Examples/Synths.antt =====
-- A synth with two voices, and a pool of files.
use mathlib.Core.List.Perm
use mathlib.Core.List.{Nodup-cons, Pairwise}
use mathlib.Core.HLevel.{⊥_prop}
use sfizz.Base.{
  ℕ, ◌-◌, ◌^◌, ◌≡◌, ◌↔◌, refl, true, false, List, [], ◌∷◌, ◌++◌, Option, none, some, arith,
  replicate,
}
use sfizz.Base.Int.{ℤ, pos}
use sfizz.Base.Members.{Mem, Perm, Nodup, mem_cases, mem-cons_self, not-mem-nil}
use sfizz.Float.{whole}
use sfizz.MidiState
use sfizz.StringView.{codes}
use sfizz.Opcode.{Opcode}
use sfizz.FilePool.{FilePool, FileSystem, SoundFile, FileInformation}
use sfizz.Region.{Region, AudioBuffer}
use sfizz.Region.Defaults.{initial}
use sfizz.Region.Triggers.{register_note_on}
use sfizz.Voice.Parts.{Voice}
use sfizz.Voice.Events.{is_free}
use sfizz.Synth.{Synth, World}
use sfizz.Synth.Voices.{find_free_voice, first_free}
use sfizz.Synth.Voices.Searching.{ids}
use sfizz.Synth.Voices.Stealing.{find_free_voice-is_free, find_free_voice-playing}
use sfizz.Synth.Events.{launch, tell_all}
use sfizz.Synth.Events.Keeping.{IsKept, launch-IsKept}
use sfizz.Synth.Events.Runs.{Event, handle_all, handle_all-IsKept}
use sfizz.Synth.Events.Dispatch.{tell_all-note_on}
use sfizz.Synth.Loading.{keep, load_regions, load_sfz_file}
use sfizz.Synth.Loading.Lists.{IsListed, places, keep-IsListed}
use sfizz.Synth.Loading.Whole.{load_sfz_file-IsListed}
use sfizz.Synth.Loading.Kept.{samples, pick, samples-load_regions}
use mathlib.Core.List.{filter_map}
use sfizz.Synth.Construction.{create}
use sfizz.Synth.Lifecycle.{Setup, Call, load, event, block, block_size, rate, collect, perform_all}
use sfizz.Synth.Lifecycle.Marked.{numbers_from}
use sfizz.Synth.Lifecycle.Sound.{AreProper, perform_all-create}
use sfizz.Examples.Voices.{controllers, silent, sounding, draws, strike}
use sfizz.Examples.Files.{decimals}

abbrev piano : Region ℤ
piano = initial

-- A region that the third group turns off.
abbrev choked : Region ℤ
choked = record piano { lifecycle = record piano.lifecycle { off_by = some 3 } }

abbrev busy : Voice ℤ
busy = record (sounding choked) { id = 1 }

abbrev pair : List (Voice ℤ)
pair = silent ∷ busy ∷ []

same_order : (voices : List (Voice ℤ)) → Perm voices voices
same_order voices = Perm.refl voices

pair-Nodup : Nodup (ids pair)
pair-Nodup = Nodup-cons.1 (
  λ m. mem_cases ⊥_prop m (λ e. omega (arith, e)) (λ n. not-mem-nil n),
  Nodup-cons.1 (λ m. not-mem-nil m, Pairwise.nil),
)

find_free_voice-is_free_example : is_free silent ≡ true
unfolding find_free_voice first_free is_free
find_free_voice-is_free_example =
    find_free_voice-is_free (λ voices. voices) same_order pair 0 silent pair-Nodup refl
      mem-cons_self refl

find_free_voice-playing_example :
    Mem busy (find_free_voice (λ voices. voices) pair).0 ↔ Mem busy pair
find_free_voice-playing_example =
    find_free_voice-playing (λ voices. voices) same_order pair busy pair-Nodup refl

abbrev studio : Synth ℤ
studio = record {
  has_global = false;
  has_control = false;
  num_groups = 0;
  num_masters = 0;
  num_curves = 0;
  global_opcodes = [];
  master_opcodes = [];
  group_opcodes = [];
  file_pool = record { root_directory = []; preloaded_data = []; loading_queue = [] };
  midi_state = MidiState.initial (replicate 128 0);
  cc_names = [];
  default_switch = none;
  unknown_opcodes = [];
  regions = [];
  voices = pair;
  note_activation_lists = λ note. [];
  cc_activation_lists = λ cc. [];
  samples_per_block = 1024;
  sample_rate = pos 48000;
  file_ticket = 1;
  can_enter_callback = true;
  in_callback = true;
  root_directory = [];
  drawn = 0;
}

abbrev world : World ℤ
world = record {
  sort_voices = λ voices. voices;
  rand_note = λ n. pos 0;
  draws = λ r n. draws;
  seconds = λ ticks. pos 0;
  has_room = λ queue. true;
}

abbrev played : List Event
played = Event.key_down 10 0 1 60 100 ∷ Event.control 12 3 1 64 127 ∷ Event.key_up 20 0 1 60 ∷ []

-- A synth that has loaded the piano.
abbrev loaded : Synth ℤ
loaded = keep (λ points. points) studio piano

loaded-IsListed : IsListed loaded
unfolding places
loaded-IsListed =
    keep-IsListed (λ points. points) studio piano
      (record { notes = λ note low. refl; ccs = λ cc low. refl })

handle_all-IsKept_example : IsKept loaded (handle_all world loaded played)
handle_all-IsKept_example = handle_all-IsKept world same_order loaded played

abbrev closed : Synth ℤ
closed = record studio { can_enter_callback = false }

tell_all-note_on_example :
    tell_all
      (λ r. register_note_on r 1 60 100 (pos 0))
      (λ s r. launch world s r 10 strike)
      loaded
      (loaded.note_activation_lists 60)
    ≡ tell_all
        (λ r. register_note_on r 1 60 100 (pos 0))
        (λ s r. launch world s r 10 strike)
        loaded
        (places (λ r. true) 0 loaded.regions)
tell_all-note_on_example =
    tell_all-note_on (λ s r. launch world s r 10 strike)
      (λ s r. launch-IsKept world same_order s r 10 strike) loaded 1 60 100 (pos 0) loaded-IsListed
      (omega arith)

-- A mono file of three frames under every name.
abbrev tone : SoundFile ℤ
tone = record {
  channels = 1;
  frames = 3;
  sample_rate = pos 44100;
  loops = [];
  readf = λ n. replicate n (pos 5);
}

abbrev disk : FileSystem ℤ
disk = record { exists = λ path. true; join = λ root name. name; open_sound = λ path. tone }

abbrev parsed : Option (List ℕ × List (List ℕ × List Opcode))
parsed = some (
  codes "/instruments",
  (
    codes "region",
    record { opcode = codes "sample"; value = codes "tone.wav"; parameter = none } ∷ [],
  )
      ∷ [],
)

load_sfz_file-IsListed_example :
    IsListed (load_sfz_file decimals (λ path. true) (λ points. points) disk studio parsed).0
load_sfz_file-IsListed_example =
    load_sfz_file-IsListed decimals (λ path. true) (λ points. points) disk studio parsed

abbrev harp : Region ℤ
harp = record piano { sound = record piano.sound { sample = codes "harp.wav" } }

abbrev setup : Setup ℤ
setup = record {
  world = world;
  sort = λ events. events;
  sort_points = λ points. points;
  files = disk;
  numbers = decimals;
  exists = λ path. true;
}

abbrev session : List (Call ℤ)
session =
    load parsed
    ∷ block_size 64
    ∷ event (Event.key_down 10 0 1 60 100)
    ∷ block 16
    ∷ rate (pos 44100)
    ∷ event (Event.key_up 20 3 1 60)
    ∷ collect
    ∷ []

session-AreProper : AreProper 0 session
session-AreProper = ground arith

perform_all-create_example :
    (t : Synth ℤ) × (perform_all setup (create strike controllers []) session ≡ some t)
    × Perm (ids t.voices) (numbers_from 0 64)
    × IsListed t
    × (t.can_enter_callback ≡ true)
perform_all-create_example =
    perform_all-create setup same_order strike controllers [] session session-AreProper

samples-load_regions_example :
    Perm (samples (load_regions (λ points. points) disk 2 studio (harp ∷ piano ∷ [])).regions) (
      samples studio.regions
      ++ filter_map (pick disk studio.file_pool.root_directory) (harp ∷ piano ∷ []))
samples-load_regions_example =
    samples-load_regions (λ points. points) disk 2 studio (harp ∷ piano ∷ []) (omega arith)

abbrev empty_pool : FilePool ℤ
empty_pool = studio.file_pool

abbrev short : AudioBuffer ℤ
short = record { channels = (pos 5 ∷ []) ∷ []; num_frames = 1 }

abbrev stocked : FilePool ℤ
stocked = record empty_pool { preloaded_data = (codes "tone.wav", short) ∷ [] }

abbrev tone_information : FileInformation ℤ
tone_information = record {
  end = 3;
  loop_begin = 0;
  loop_end = 2 ^ 32 - 1;
  sample_rate = pos 44100;
  preloaded_data = record { channels = (pos 5 ∷ pos 5 ∷ pos 5 ∷ []) ∷ []; num_frames = 3 };
}
