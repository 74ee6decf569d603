-- ===== src/Voice/Filling/Bounds.antt =====
-- Voice.cpp, `fillWithData`: the places of a sample that a block reads.
use sfizz.Base.{
  ℕ, ◌^◌, ◌<◌, ◌≡◌, false, List, [], ◌∷◌, All, arith, map, if◌then◌else◌, Bool-cases, inl, inr,
}
use sfizz.Base.Int.{ℤ, pos, ◌≤ℤ◌, ◌<ℤ◌, ltb_ℤ, ◌-ℤ◌}
use sfizz.Float.{FloatOps}
use sfizz.Region.{Region, AudioBuffer}
use sfizz.Region.Gain.{true_sample_end}
use sfizz.Voice.Parts.{Voice}
use sfizz.Voice.Filling.{as_int, cut_indices, sample_end, loops, positions, bounded}

All-map_const : (end : ℤ) (indices : List ℤ) → All (λ i. i ≤ℤ end) (map (λ j. end) indices)
All-map_const end [] = tt
All-map_const end (i ∷ indices) = (omega arith, All-map_const end indices)

All-cut_indices : (end : ℤ) (indices : List ℤ) → All (λ i. i ≤ℤ end) (cut_indices end indices)
unfolding cut_indices
All-cut_indices end [] = tt
All-cut_indices end (i ∷ indices) = elim (Bool-cases (ltb_ℤ end i)) [
  | inl e ↦ rw e (All-map_const end (i ∷ indices))
  | inr e ↦ rw e (ground (arith, e), All-cut_indices end indices)
]

All-map : (P : ℤ → Type 0) (end : ℤ) (indices : List ℤ) → P end → All P (map (λ j. end) indices)
All-map P end [] at = tt
All-map P end (i ∷ indices) at = (at, All-map P end indices at)

-- Every index that is left is one that was there, or the end.
All-kept :
    (P : ℤ → Type 0) (end : ℤ) (indices : List ℤ)
    → P end
    → All P indices
    → All P (cut_indices end indices)
unfolding cut_indices
All-kept P end [] at all = tt
All-kept P end (i ∷ indices) at (p, all) = elim (Bool-cases (ltb_ℤ end i)) [
  | inl e ↦ rw e (All-map P end (i ∷ indices) at)
  | inr e ↦ rw e (p, All-kept P end indices at all)
]

abbrev IsWithin : ℕ → ℤ → Type 0
IsWithin frames i = (pos 0 ≤ℤ i) × (i <ℤ pos frames)

All-IsWithin :
    (end : ℤ) (frames : ℕ) (indices : List ℤ)
    → end <ℤ pos frames
    → All (λ i. pos 0 ≤ℤ i) indices
    → All (λ i. i ≤ℤ end) indices
    → All (λ i. IsWithin frames i) indices
All-IsWithin end frames [] h low high = tt
All-IsWithin end frames (i ∷ indices) h (p, low) (q, high) =
    ((p, omega (arith, h, q)), All-IsWithin end frames indices h low high)

-- `min(trueSampleEnd, numFrames) - 1` by its two numbers.
end_of : ℕ → ℕ → ℤ
end_of last frames =
    (if ltb_ℤ (as_int frames) (as_int last) then as_int frames else as_int last) -ℤ pos 1

end_of-IsWithin :
    (last frames : ℕ)
    → 0 < last
    → last < 2 ^ 31
    → 0 < frames
    → frames < 2 ^ 31
    → IsWithin frames (end_of last frames)
unfolding end_of as_int ◌-ℤ◌
end_of-IsWithin last frames l l' f f' = ground arith

module _ {F : Type 0} ⦃o : FloatOps F⦄ where
  sample_end-IsWithin :
      (r : Region F) (file : AudioBuffer F)
      → 0 < true_sample_end r.sound
      → true_sample_end r.sound < 2 ^ 31
      → 0 < file.num_frames
      → file.num_frames < 2 ^ 31
      → IsWithin file.num_frames (sample_end r file)
  unfolding sample_end end_of
  sample_end-IsWithin r file l l' f f' =
      end_of-IsWithin (true_sample_end r.sound) file.num_frames l l' f f'

  -- A sample that does not loop is read within its source: each index of the block is that of a
  -- frame, so the one behind it is at most one past the end. This holds where the end of the sample
  -- and the count of frames are positive and below 2 ^ 31, and no position is negative before the cut.
  pub bounded-num_frames :
      (v : Voice F) (r : Region F) (file : AudioBuffer F) (n : ℕ)
      → loops r file ≡ false
      → 0 < true_sample_end r.sound
      → true_sample_end r.sound < 2 ^ 31
      → 0 < file.num_frames
      → file.num_frames < 2 ^ 31
      → All (λ i. pos 0 ≤ℤ i) (positions v n).0
      → All (λ i. (pos 0 ≤ℤ i) × (i <ℤ pos file.num_frames)) (bounded v r file n).0
  unfolding bounded
  bounded-num_frames v r file n straight l l' f f' low =
      let (some_, end) = sample_end-IsWithin r file l l' f f' in
      rw (straight, bounded)
        (All-IsWithin (sample_end r file) file.num_frames _ end
          (All-kept (λ i. pos 0 ≤ℤ i) (sample_end r file) _ some_ low)
          (All-cut_indices (sample_end r file) _))
