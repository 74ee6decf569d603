-- ===== src/Voice/Filling.antt =====
-- Voice.cpp: `fillWithData` and `fillWithGenerator`. A block is its left and its right channel, of
-- no more frames than the temporary spans of the voice have values. What those spans hold before is
-- written over, so they are made anew.
pub mod Bounds
pub mod Phase
use Prim.Native.Nat.{min}
use sfizz.Base.{
  ℕ, zero, suc, ◌+◌, ◌-◌, ◌^◌, Bool, true, false, not, ◌&&◌, List, [], ◌∷◌, ◌++◌, Option, none,
  some, ltb, leb, ◌==◌, if◌then◌else◌, map, length, get_or, take, drop, replicate,
}
use sfizz.Base.Int.{ℤ, pos, negsuc, ◌+ℤ◌, ◌-ℤ◌, ltb_ℤ, eqb_ℤ, pos_part, sub_ℕ}
use sfizz.Float.{FloatOps, of_nat}
use sfizz.StringView.{codes, is_same}
use sfizz.HistoricalBuffer.{push}
use sfizz.Simd.{
  copy, apply_gain, apply_gain_span, multiply_add, linear_ramp, add_span, subtract_span,
  mean_squared, cumsum, sfz_interpolation_cast, sin, cos,
}
use sfizz.Envelope.Adsr.{is_smoothing}
use sfizz.Envelope.Adsr.Block
use sfizz.Envelope.Linear
use sfizz.Envelope.Linear.{Sort}
use sfizz.Region.{Region, AudioBuffer}
use sfizz.Region.Gain.{true_sample_end}
use sfizz.Region.Triggers.{is_generator, should_loop}
use sfizz.Voice.Parts.{Voice, State}
use sfizz.Voice.Events.{source, release_voice, reset}

abbrev pub StereoBlock : Type 0 → Type 0
StereoBlock F = List F × List F

-- `static_cast<int>` of a `uint32_t`.
unfoldable pub as_int : ℕ → ℤ
as_int n = if ltb n (2 ^ 31) then pos n else pos n -ℤ pos (2 ^ 32)

-- The loop over the indices of a sample that loops: past the end, the offset is subtracted from the
-- index and all that follow.
unfoldable pub wrap_indices : ℤ → ℤ → ℤ → List ℤ → List ℤ
wrap_indices sample_end offset shift [] = []
wrap_indices sample_end offset shift (i ∷ indices) =
    let j = i -ℤ shift in
    let past = ltb_ℤ sample_end j in
    let shift' = if past then shift +ℤ offset else shift in
    (if past then j -ℤ offset else j) ∷ wrap_indices sample_end offset shift' indices

-- The loop over the indices of one that does not: from the first past the end on, they are the end.
unfoldable pub cut_indices : ℤ → List ℤ → List ℤ
cut_indices sample_end [] = []
cut_indices sample_end (i ∷ indices) =
    if ltb_ℤ sample_end i
    then map (λ j. sample_end) (i ∷ indices)
    else i ∷ cut_indices sample_end indices

-- The coefficients from the same place on.
unfoldable pub cut_coefficients {ℓ} : {A : Type ℓ} → A → ℤ → List ℤ → List A → List A
cut_coefficients value sample_end (i ∷ indices) (c ∷ coefficients) =
    if ltb_ℤ sample_end i
    then map (λ d. value) (c ∷ coefficients)
    else c ∷ cut_coefficients value sample_end indices coefficients
cut_coefficients value sample_end indices coefficients = coefficients

unfoldable pub last_or {ℓ} : {A : Type ℓ} → A → List A → A
last_or a [] = a
last_or a (b ∷ rest) = last_or b rest

-- `absl::c_find` and `std::distance`.
unfoldable pub place_of : ℤ → List ℤ → ℕ
place_of k [] = 0
place_of k (i ∷ indices) = if eqb_ℤ i k then 0 else suc (place_of k indices)

module _ {F : Type 0} ⦃o : FloatOps F⦄ where
  open o use {add, sub, mul, div, of_int, to_int}

  abbrev pub nought : F
  nought = of_nat 0

  abbrev pub one : F
  one = of_nat 1

  pub pi : F
  pi = o.lit (pos 3141592653589793238462643383279502884) (10 ^ 36)

  pub two_pi : F
  two_pi = mul (of_nat 2) pi

  pub pi_four : F
  pi_four = div pi (of_nat 4)

  pub sqrt_two_inv : F
  sqrt_two_inv = o.lit (pos 707106781186547524400844362104849039284835937688474036588) (10 ^ 57)

  -- A read outside the source, which is undefined there, gives zero here.
  abbrev read_at : List F → ℤ → F
  read_at channel (pos i) = get_or channel i nought
  read_at channel (negsuc i) = nought

  -- One value of a channel between two samples.
  unfoldable pub interpolate : List F → List ℤ → List F → List F → List F
  interpolate channel (i ∷ indices) (l ∷ left) (r ∷ right) =
      add (mul (read_at channel i) l) (mul (read_at channel (i +ℤ pos 1)) r)
      ∷ interpolate channel indices left right
  interpolate channel indices left right = []

  -- The positions of a block and their coefficients, before they are kept within the sample.
  unfoldable pub positions : Voice F → ℕ → List ℤ × List F × List F
  unfolding cumsum sfz_interpolation_cast
  positions v n =
      let jump = mul v.pitch_ratio v.speed_ratio in
      let scratch = replicate n nought in
      let jumps : List F = elim (replicate n jump) [
        | [] ↦ []
        | first ∷ rest ↦ add first v.float_position_offset ∷ rest
      ] in
      let (indices, left, right) =
        sfz_interpolation_cast (cumsum jumps scratch) (replicate n (pos 0), scratch, scratch) in
      (map (λ i. i +ℤ v.source_position) indices, left, right)

  abbrev channel_or : List (List F) → ℕ → List F
  channel_or channels i = get_or channels i []

  -- What is played of the source, for the indices and coefficients of the block.
  unfoldable pub play : AudioBuffer F → List ℤ → List F → List F → StereoBlock F → StereoBlock F
  unfolding interpolate
  play file indices left_coeffs right_coeffs (left, right) =
      let first = interpolate (channel_or file.channels 0) indices left_coeffs right_coeffs in
      if length file.channels == 1
      then (first, right)
      else (first, interpolate (channel_or file.channels 1) indices left_coeffs right_coeffs)

  -- `min(trueSampleEnd, numFrames) - 1` on `int`.
  unfoldable pub sample_end : Region F → AudioBuffer F → ℤ
  unfolding true_sample_end as_int
  sample_end r file =
      let last = as_int (true_sample_end r.sound) in
      let frames = as_int file.num_frames in (if ltb_ℤ frames last then frames else last) -ℤ pos 1

  unfoldable pub loops : Region F → AudioBuffer F → Bool
  unfolding should_loop
  loops r file = should_loop r.sound && leb r.sound.loop_range.end file.num_frames

  -- The indices and coefficients, kept within the sample.
  unfoldable pub bounded : Voice F → Region F → AudioBuffer F → ℕ → List ℤ × List F × List F
  unfolding positions sample_end loops wrap_indices cut_indices cut_coefficients
  bounded v r file n =
      let (indices, left, right) = positions v n in
      let end = sample_end r file in
      let offset = end -ℤ as_int r.sound.loop_range.start in
      if loops r file then (wrap_indices end offset (pos 0) indices, left, right) else (
        cut_indices end indices,
        cut_coefficients nought end indices left,
        cut_coefficients one end indices right,
      )

  abbrev silence_from : ℕ → List F → List F
  silence_from place span = take place span ++ map (λ x. nought) (drop place span)

  -- At the end of a sample that does not loop, the voice is released, and the rest is silent.
  unfoldable pub end_sample :
      Voice F → Region F → ℤ → List ℤ → StereoBlock F → Voice F × StereoBlock F
  unfolding place_of release_voice should_loop
  end_sample v r end indices (left, right) =
      let releasing : Bool = elim v.state [ State.release ↦ true | _ ↦ false ] in
      let place = place_of end indices in
      if not releasing && not (should_loop r.sound) && eqb_ℤ v.source_position end
      then (release_voice v place, (silence_from place left, silence_from place right))
      else (v, (left, right))

  unfoldable pub fill_with_data : Voice F → Region F → StereoBlock F → Voice F × StereoBlock F
  unfolding source bounded play last_or end_sample
  fill_with_data v r (left, right) = elim (source v r) [
    | none ↦ (v, (left, right))
    | some file ↦
        let n = length left in
        let (indices, left_coeffs, right_coeffs) = bounded v r file n in
        let v' = record v {
          source_position = last_or (pos 0) indices;
          float_position_offset = last_or nought right_coeffs;
        } in
        let played = play file indices left_coeffs right_coeffs (left, right) in
        if n == 0 then (v, (left, right)) else end_sample v' r (sample_end r file) indices played
  ]

  -- The ramp runs over the whole temporary span, and the block takes its beginning.
  unfoldable pub fill_with_generator : Voice F → Region F → StereoBlock F → Voice F × StereoBlock F
  unfolding is_same linear_ramp sin copy
  fill_with_generator v r (left, right) =
      let step = div (mul v.base_frequency two_pi) v.sample_rate in
      let (span, phase) = linear_ramp (replicate v.span_size nought) v.phase step in
      let wraps = to_int (div phase two_pi) in
      let left' = sin (take (length left) span) left in
      if is_same r.sound.sample (codes "*sine") && not (length left == 0)
      then (record v { phase = sub phase (mul two_pi (of_int wraps)) }, (left', copy left' right))
      else (v, (left, right))
