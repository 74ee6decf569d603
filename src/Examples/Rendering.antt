-- ===== src/Examples/Rendering.antt =====
-- Voices that render, and files that include files.
use sfizz.Base.{◌≡◌, refl, true, false, not, [], ◌∷◌, All, none, some, arith}
use sfizz.Base.Int.{ℤ, pos, ◌≤ℤ◌, ◌<ℤ◌, ◌+ℤ◌, ◌*ℤ◌}
use sfizz.Float.{whole}
use sfizz.StringView.{codes, trim, remove_comment_on_line}
use sfizz.Envelope.Adsr.{is_smoothing}
use sfizz.Region.{Region, AudioBuffer}
use sfizz.Region.Defaults.{initial}
use sfizz.Region.Gain.{true_sample_end}
use sfizz.Voice.Events.{is_free}
use sfizz.Voice.Filling.{loops, positions, bounded}
use sfizz.Voice.Filling.Bounds.{bounded-num_frames}
use sfizz.Voice.Rendering.{render_block}
use sfizz.Voice.Rendering.Ending.{render_block-is_free}
use sfizz.Parser.{Regexes, Files, Parser, read_sfz_file, seen}
use sfizz.Parser.Includes.{read_sfz_file-loop}
use sfizz.Parser.Guarded.{unseen, IsRead, read_sfz_file-IsRead}
use sfizz.Examples.Voices.{sounding}

abbrev piano : Region ℤ
piano = initial

abbrev sine : Region ℤ
sine = record piano { sound = record piano.sound { sample = codes "*sine" } }

abbrev short : AudioBuffer ℤ
short = record { channels = (pos 5 ∷ pos 6 ∷ pos 7 ∷ []) ∷ []; num_frames = 3 }

-- A region that ends with its sample.
abbrev cut : Region ℤ
cut = record piano {
  sound = record piano.sound { sample_end = 3; loop_range = record { start = 0; end = 9 } };
}

bounded-num_frames_example :
    All (λ i. (pos 0 ≤ℤ i) × (i <ℤ pos 3)) (bounded (sounding cut) cut short 5).0
unfolding loops initial positions true_sample_end ◌+ℤ◌ ◌*ℤ◌
bounded-num_frames_example =
    bounded-num_frames (sounding cut) cut short 5 refl (omega arith) (omega arith) (omega arith)
      (omega arith) (ground arith)

render_block-is_free_example :
    is_free (render_block (λ events. events) (sounding sine) 4).0
    ≡ not (is_smoothing (render_block (λ events. events) (sounding sine) 4).0.eg_envelope)
render_block-is_free_example =
    render_block-is_free (λ events. events) (sounding sine) sine 4 refl
      (λ e. absurd (ground (arith, e)))

-- Every line is an include, and there is one file.
abbrev includes_all : Regexes
includes_all = record {
  includes = λ line. some line;
  defines = λ line. none;
  headers = λ text. [];
  members = λ text. [];
}

abbrev mirror : Files
mirror = record {
  lines = λ path. some (codes "a.sfz" ∷ []);
  exists = λ path. true;
  join = λ root path. path;
  parent_path = λ path. [];
  is_absolute = λ path. true;
}

abbrev fresh : Parser
fresh = record {
  root_directory = [];
  recursive_include_guard = false;
  defines = [];
  included_files = [];
}

read_sfz_file-loop_example : read_sfz_file includes_all mirror 100 fresh (codes "a.sfz") ≡ none
unfolding trim remove_comment_on_line
read_sfz_file-loop_example =
    read_sfz_file-loop includes_all mirror 100 fresh (codes "a.sfz") (codes "a.sfz") [] 97
      (codes ".sfz") (codes "a.sfz") refl refl refl refl refl refl

abbrev alone : Files
alone = record mirror { exists = λ path. seen path (codes "a.sfz" ∷ []) }

abbrev guarded : Parser
guarded = record fresh { recursive_include_guard = true }

read_sfz_file-IsRead_example :
    IsRead (codes "a.sfz" ∷ []) 1 (read_sfz_file includes_all alone 2 guarded (codes "a.sfz"))
unfolding seen unseen
read_sfz_file-IsRead_example =
    read_sfz_file-IsRead includes_all alone (codes "a.sfz" ∷ []) 2 guarded (codes "a.sfz")
      (λ f e. e) refl (omega arith)
