-- ===== src/Voice/Rendering/Ending.antt =====
-- Voice.cpp, `renderBlock`: the end of a voice.
use sfizz.Base.{
  ℕ, ◌-◌, ◌≡◌, ◌≢◌, refl, ap, Option, ◌∙◌, not, List, some, arith, length, Bool-cases, Option-cases,
  inl, inr, ◌==◌, ◌&&◌, replicate,
}
use Prim.Native.Nat.{min}
use sfizz.Float.{FloatOps}
use sfizz.StringView.{codes, is_same}
use sfizz.Base.Int.{ℤ, pos}
use sfizz.Envelope.Adsr.{is_smoothing}
use sfizz.Envelope.Linear.{Sort}
use sfizz.Region.{Region}
use sfizz.Region.Triggers.{is_generator}
use sfizz.Voice.Parts.{Voice, State}
use sfizz.Voice.Events.{is_free, source, release_voice, reset}
use sfizz.Voice.Filling.{
  StereoBlock, nought, fill_with_data, fill_with_generator, end_sample, bounded, last_or,
  sample_end, play,
}
use sfizz.Voice.Rendering.{
  process_mono, process_stereo, gains, fill_delayed, is_stereo, finish_block, render_region,
  render_block,
}

module _ {F : Type 0} ⦃o : FloatOps F⦄ where
  -- What a block leaves of a voice.
  abbrev mark : Voice F → Option (Region F) × ℕ × ℕ
  mark v = (v.region, v.id, v.span_size)

  mark-release_voice : (v : Voice F) (delay : ℕ) → mark (release_voice v delay) ≡ mark v
  unfolding release_voice
  mark-release_voice v delay = ground arith

  mark-end_sample :
      (v : Voice F) (r : Region F) (end : ℤ) (indices : List ℤ) (block : StereoBlock F)
      → mark (end_sample v r end indices block).0 ≡ mark v
  unfolding end_sample release_voice
  mark-end_sample v r end indices block = ground arith

  mark-fill_with_data :
      (v : Voice F) (r : Region F) (block : StereoBlock F)
      → mark (fill_with_data v r block).0 ≡ mark v
  unfolding fill_with_data
  mark-fill_with_data v r (left, right) = elim (Option-cases (source v r)) [
    | inl e ↦ rw (e, fill_with_data) refl
    | inr (file, e) ↦ elim (Bool-cases (length left == 0)) [
      | inl empty ↦ rw (e, empty, fill_with_data) refl
      | inr some_ ↦
          let (indices, left_coeffs, right_coeffs) = bounded v r file (length left) in
          let v' = record v {
            source_position = last_or (pos 0) indices;
            float_position_offset = last_or nought right_coeffs;
          } in
          rw (e, some_, fill_with_data)
            (mark-end_sample v' r (sample_end r file) indices
              (play file indices left_coeffs right_coeffs (left, right)))
    ]
  ]

  mark-fill_with_generator :
      (v : Voice F) (r : Region F) (block : StereoBlock F)
      → mark (fill_with_generator v r block).0 ≡ mark v
  unfolding fill_with_generator
  mark-fill_with_generator v r (left, right) =
      elim (Bool-cases (is_same r.sound.sample (codes "*sine") && not (length left == 0))) [
        | inl e ↦ rw (e, fill_with_generator) refl
        | inr e ↦ rw (e, fill_with_generator) refl
      ]

  mark-fill_delayed : (v : Voice F) (r : Region F) (n : ℕ) → mark (fill_delayed v r n).0 ≡ mark v
  unfolding fill_delayed
  mark-fill_delayed v r n =
      let rest = replicate (n - min v.initial_delay n) nought in
      let v' = record v { initial_delay = v.initial_delay - min v.initial_delay n } in
      elim (Bool-cases (is_generator r.sound)) [
        | inl e ↦ rw (e, fill_delayed) (mark-fill_with_generator v' r (rest, rest))
        | inr e ↦ rw (e, fill_delayed) (mark-fill_with_data v' r (rest, rest))
      ]

  module _ (sort : Sort F) where
    mark-process_mono :
        (v : Voice F) (block : StereoBlock F) → mark (process_mono sort v block).0 ≡ mark v
    unfolding process_mono gains
    mark-process_mono v block = refl

    mark-process_stereo :
        (v : Voice F) (block : StereoBlock F) → mark (process_stereo sort v block).0 ≡ mark v
    unfolding process_stereo gains
    mark-process_stereo v block = refl

    free_at_end :
        (v : Voice F) (r : Region F) (block : StereoBlock F)
        → v.region ≡ some r
        → is_free (finish_block v block) ≡ not (is_smoothing (finish_block v block).eg_envelope)
    unfolding finish_block is_free reset
    free_at_end v r block e = elim (Bool-cases (is_smoothing v.eg_envelope)) [
      | inl on ↦ rw (on, finish_block) (rw (on, e) refl)
      | inr off ↦ rw (off, finish_block) (rw off refl)
    ]

    render_region-is_free :
        (v : Voice F) (r : Region F) (n : ℕ)
        → v.region ≡ some r
        → is_free (render_region sort v r n).0
          ≡ not (is_smoothing (render_region sort v r n).0.eg_envelope)
    unfolding render_region
    render_region-is_free v r n e =
        let filled = (fill_delayed v r n).0 in
        let block = (fill_delayed v r n).1 in
        let here : filled.region ≡ some r = ap (λ m. m.0) (mark-fill_delayed v r n) ∙ e in
        elim (Bool-cases (is_stereo r)) [
          | inl two ↦
              rw (two, render_region)
                (free_at_end (process_stereo sort filled block).0 r
                  (process_stereo sort filled block).1
                  (ap (λ m. m.0) (mark-process_stereo filled block) ∙ here))
          | inr one_ ↦
              rw (one_, render_region)
                (free_at_end (process_mono sort filled block).0 r (process_mono sort filled block).1
                  (ap (λ m. m.0) (mark-process_mono filled block) ∙ here))
        ]

    -- A voice that sounds is free behind a block exactly if its envelope is done by then: a block
    -- neither loses a voice that sounds nor keeps one that has ended.
    pub render_block-is_free :
        (v : Voice F) (r : Region F) (n : ℕ)
        → v.region ≡ some r
        → v.state ≢ State.idle
        → is_free (render_block sort v n).0
          ≡ not (is_smoothing (render_block sort v n).0.eg_envelope)
    unfolding render_block
    render_block-is_free v r n e sounds = go v.state refl
      where
        go :
            (state : State)
            → v.state ≡ state
            → is_free (render_block sort v n).0
              ≡ not (is_smoothing (render_block sort v n).0.eg_envelope)
        go State.idle is = absurd (sounds is)
        go State.playing is = rw (e, is, render_block) (render_region-is_free v r n e)
        go State.release is = rw (e, is, render_block) (render_region-is_free v r n e)

    -- The number of a voice and the size of its temporary spans.
    abbrev name : Voice F → ℕ × ℕ
    name v = (v.id, v.span_size)

    name-finish_block : (v : Voice F) (block : StereoBlock F) → name (finish_block v block) ≡ name v
    unfolding finish_block reset
    name-finish_block v block = elim (Bool-cases (is_smoothing v.eg_envelope)) [
      | inl on ↦ rw (on, finish_block) refl
      | inr off ↦ rw (off, finish_block) refl
    ]

    name-render_region :
        (v : Voice F) (r : Region F) (n : ℕ) → name (render_region sort v r n).0 ≡ name v
    unfolding render_region
    name-render_region v r n =
        let filled = (fill_delayed v r n).0 in
        let block = (fill_delayed v r n).1 in
        let same = ap (λ m. (m.1, m.2)) (mark-fill_delayed v r n) in
        elim (Bool-cases (is_stereo r)) [
          | inl two ↦
              rw (two, render_region)
                (name-finish_block (process_stereo sort filled block).0
                    (process_stereo sort filled block).1
                  ∙ ap (λ m. (m.1, m.2)) (mark-process_stereo filled block)
                  ∙ same)
          | inr one_ ↦
              rw (one_, render_region)
                (name-finish_block (process_mono sort filled block).0
                    (process_mono sort filled block).1
                  ∙ ap (λ m. (m.1, m.2)) (mark-process_mono filled block)
                  ∙ same)
        ]

    pub name-render_block : (v : Voice F) (n : ℕ) → name (render_block sort v n).0 ≡ name v
    unfolding render_block
    name-render_block v n = elim (Option-cases v.region) [
      | inl e ↦ rw (e, render_block) refl
      | inr (r, e) ↦ go r e v.state refl
    ]
      where
        go :
            (r : Region F)
            → v.region ≡ some r
            → (state : State) → v.state ≡ state
            → name (render_block sort v n).0 ≡ name v
        go r e State.idle is = rw (e, is, render_block) refl
        go r e State.playing is = rw (e, is, render_block) (name-render_region v r n)
        go r e State.release is = rw (e, is, render_block) (name-render_region v r n)
