-- ===== src/Examples/Memory.antt =====
-- Buffers of two channels, views of a memory, and files that voices share with the pool.
use sfizz.Base.{
  ℕ, zero, suc, ◌≡◌, ◌<◌, ◌↔◌, refl, ap, length, true, false, List, [], ◌∷◌, Option, none, some,
  arith, replicate,
}
use sfizz.Base.Int.{ℤ, pos}
use sfizz.Float.{whole}
use sfizz.Region.Parts.{AudioBuffer}
use sfizz.AudioBuffer.{make, resize, add_channel, get_num_frames}
use sfizz.AudioBuffer.Frames.{IsConsistent, HasBlock, make-resize}
use sfizz.AudioSpan.{AudioSpan, fill, apply_gain, apply_gain_span, add, copy, subspan}
use sfizz.AudioSpan.Frame.{covers, subspan-outside}
use sfizz.FilePool.Handles.{
  Handles, occurrences, use_count, holders, pass, drop, here, next, drop_file, clear_files,
}
use sfizz.FilePool.Handles.Owned.{IsOwned, IsIdle, Reach-IsOwned}
use sfizz.FilePool.Handles.Passes.{IsDistinct, remaining, left-pass}

abbrev zeroed : List ℤ → ℕ → Option (List ℤ)
zeroed old n = some (replicate n (pos 0))

zeroed-HasBlock : (n : ℕ) → HasBlock zeroed n
zeroed-HasBlock n old = (replicate n (pos 0), refl, length_zeroes n)
  where
    length_zeroes : (n : ℕ) → length (replicate n (pos 0)) ≡ n
    length_zeroes zero = refl
    length_zeroes (suc n) = ap suc (length_zeroes n)

abbrev mono : AudioBuffer ℤ
mono = record { channels = (pos 1 ∷ pos 2 ∷ []) ∷ []; num_frames = 2 }

make-resize_example :
    ((made : AudioBuffer ℤ) × (make zeroed 2 4 ≡ some made) × IsConsistent made)
    × (IsConsistent mono → IsConsistent (add_channel zeroed mono))
    × (mono.channels ≡ (pos 1 ∷ pos 2 ∷ []) ∷ []
        → IsConsistent (resize zeroed mono 4).1 ↔ (4 ≡ get_num_frames mono))
make-resize_example =
    make-resize zeroed mono 4 2 (pos 1 ∷ pos 2 ∷ []) [] (zeroed-HasBlock 4) (zeroed-HasBlock 2)
      (omega arith)

abbrev stereo : AudioSpan
stereo = record { spans = 0 ∷ 16 ∷ []; num_frames = 8 }

subspan-outside_example :
    (covers (subspan stereo 2 4).spans 4 3 ≡ true → covers stereo.spans 8 3 ≡ true)
    × (covers (subspan stereo 2 4).spans 4 3 ≡ false
        → (fill (subspan stereo 2 4) (pos 7) (λ at. pos at) 3 ≡ pos 3)
          × (apply_gain (subspan stereo 2 4) (pos 7) (λ at. pos at) 3 ≡ pos 3)
          × (apply_gain_span (subspan stereo 2 4) (pos 1 ∷ []) (λ at. pos at) 3 ≡ pos 3)
          × (add (subspan stereo 2 4) stereo (λ at. pos at) 3 ≡ pos 3)
          × (copy (subspan stereo 2 4) stereo (λ at. pos at) 3 ≡ pos 3))
subspan-outside_example =
    subspan-outside stereo stereo 2 4 (pos 7) (pos 1 ∷ []) (λ at. pos at) 3 (omega arith)

-- Voice 0 shares file 1; no voice has file 2.
abbrev shared_files : Handles
shared_files = record {
  kept = [];
  left = 1 ∷ 2 ∷ [];
  is_locked = true;
  voices = some 1 ∷ none ∷ [];
}

shared_files-IsOwned : IsOwned shared_files
unfolding holders occurrences
shared_files-IsOwned file held = ground (arith, held)

Reach-IsOwned_example :
    IsOwned (drop 0 shared_files)
    × ((voice file : ℕ)
        → 0 < use_count file (drop 0 shared_files)
        → 0 < use_count file (drop voice (drop 0 shared_files)))
    × (IsOwned (clear_files (drop 0 shared_files)) ↔ IsIdle (drop 0 shared_files))
Reach-IsOwned_example = Reach-IsOwned shared_files-IsOwned (next here (drop_file 0)) (tt, tt)

shared_files-IsDistinct : IsDistinct shared_files
unfolding occurrences
shared_files-IsDistinct file = ground arith

left-pass_example :
    ((pass 2 shared_files).left ≡ [])
    × ((file : ℕ) → occurrences file (pass 2 shared_files).kept ≡ remaining file shared_files)
left-pass_example = left-pass 2 shared_files (omega arith) shared_files-IsDistinct
