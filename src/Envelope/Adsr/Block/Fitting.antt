-- ===== src/Envelope/Adsr/Block/Fitting.antt =====
-- ADSREnvelope.cpp, `getBlock`: a block keeps its size, and a release that fits into it ends in it.
use sfizz.Base.{
  ℕ, ◌+◌, ◌≤◌, ◌≡◌, refl, ap, ◌∙◌, Bool, true, false, List, [], ◌++◌, arith, length, take, drop,
  length-append, length-take, length-drop, if◌then◌else◌, Bool-cases, inl, inr,
}
use sfizz.Base.Int.{ℤ, pos, negsuc, eqb_ℤ, ltb_ℤ, pos_part, neg_part, ◌-ℤ◌}
use sfizz.Float.{FloatOps}
use sfizz.Simd.{fill, multiplicative_ramp}
use sfizz.Simd.Shape.{length-fill}
use sfizz.Envelope.Adsr.{Adsr, is_smoothing, release_step, nought}
use sfizz.Envelope.Adsr.Block.{share, block_by, stages, release_block, front_or, get_block}
use sfizz.Envelope.Adsr.Block.Stages.{length-multiplicative_ramp, block_by-IsStage}

if_true : {A : Type 0} {b : Bool} (x y : A) → b ≡ true → (if b then x else y) ≡ x
if_true x y e = rw e refl

if_false : {A : Type 0} {b : Bool} (x y : A) → b ≡ false → (if b then x else y) ≡ y
if_false x y e = rw e refl

module _ {F : Type 0} ⦃o : FloatOps F⦄ where
  length-stages : (e : Adsr F) (output : List F) → length (stages e output).0 ≡ length output
  unfolding stages
  length-stages e output =
      let (written, rest, e') = block_by e.state ([], output, e) in
      let s = block_by-IsStage e.state ([], output, e) in
      omega (
        arith,
        length-append written (fill rest e'.current_value),
        length-fill rest e'.current_value,
        s.total,
      )

  length-release_block :
      (written span : List F) (e : Adsr F)
      → length (release_block written span e).0 ≡ length written + length span
  unfolding release_block
  length-release_block written span e =
      let value = front_or span e.current_value in
      let n = share span e.release in
      let ramp = (multiplicative_ramp span value (release_step e value)).0 in
      let size = length-multiplicative_ramp span value (release_step e value) in
      elim (Bool-cases (eqb_ℤ (e.release -ℤ pos n) (pos 0))) [
        | inl end ↦
            rw (end, release_block)
              (omega (
                arith,
                length-append written (take n ramp ++ fill (drop n ramp) nought),
                length-append (take n ramp) (fill (drop n ramp) nought),
                length-fill (drop n ramp) nought,
                length-take n ramp,
                length-drop n ramp,
                size,
              ))
        | inr on ↦ rw (on, release_block) (omega (arith, length-append written ramp, size))
      ]

  -- What `getBlock` gives once the release falls into the block.
  released :
      (e : Adsr F) (output : List F)
      → let (block, e') = stages e output in
        e'.should_release ≡ true
        → ltb_ℤ (pos (length block)) e'.release_delay ≡ false
        → get_block e output
          ≡ release_block
              (take (pos_part e'.release_delay) block)
              (drop (pos_part e'.release_delay) block)
              e'
  unfolding get_block
  released e output on now = if_true _ _ on ∙ if_false _ _ now

  length-released :
      (e : Adsr F) (output : List F)
      → let (block, e') = stages e output in
        length
          (release_block
            (take (pos_part e'.release_delay) block)
            (drop (pos_part e'.release_delay) block)
            e').0
        ≡ length output
  length-released e output =
      let (block, e') = stages e output in
      let n = pos_part e'.release_delay in
      length-release_block (take n block) (drop n block) e'
      ∙ omega (arith, length-take n block, length-drop n block, length-stages e output)

  -- A block has as many values as there is room for, in every stage and behind every release.
  length-get_block : (e : Adsr F) (output : List F) → length (get_block e output).0 ≡ length output
  unfolding get_block
  length-get_block e output =
      let (block, e') = stages e output in
      let size = length-stages e output in
      elim (Bool-cases e'.should_release) [
        | inl on ↦ elim (Bool-cases (ltb_ℤ (pos (length block)) e'.release_delay)) [
          | inl later ↦
              ap (λ (p : List F × Adsr F). length p.0) (if_true _ _ on ∙ if_true _ _ later) ∙ size
          | inr now ↦
              ap (λ (p : List F × Adsr F). length p.0) (released e output on now)
              ∙ length-released e output
        ]
        | inr off ↦ ap (λ (p : List F × Adsr F). length p.0) (if_false _ _ off) ∙ size
      ]

  exact_share :
      (span : List F) (r : ℤ)
      → pos_part r ≤ length span
      → neg_part r ≡ 0
      → eqb_ℤ (r -ℤ pos (share span r)) (pos 0) ≡ true
  unfolding ◌-ℤ◌
  exact_share span (pos r) fits sign = ground (arith, fits)
  exact_share span (negsuc r) fits sign = absurd (omega (arith, sign))

  release_block-Fits :
      (written span : List F) (e : Adsr F)
      → pos_part e.release ≤ length span
      → neg_part e.release ≡ 0
      → is_smoothing (release_block written span e).1 ≡ false
  unfolding release_block is_smoothing
  release_block-Fits written span e fits sign =
      let n = share span e.release in
      let done : eqb_ℤ (e.release -ℤ pos n) (pos 0) ≡ true = exact_share span e.release fits sign in
      rw (done, release_block) refl

  -- No stage before the release has a negative duration, at which the source's spans are undefined.
  abbrev pub AreTimes : Adsr F → Type 0
  AreTimes e =
      (neg_part e.delay ≡ 0)
      × (neg_part e.attack ≡ 0)
      × (neg_part e.hold ≡ 0)
      × (neg_part e.decay ≡ 0)

  -- A release that begins in the block and fits into it is over at its end, whatever the stage before
  -- it, and the block keeps its size. This holds where no stage has a negative duration, and neither
  -- the place of the release in the block nor its length is negative.
  pub is_smoothing-get_block :
      (e : Adsr F) (output : List F) (d r : ℕ)
      → e.should_release ≡ true
      → e.release_delay ≡ pos d
      → e.release ≡ pos r
      → d + r ≤ length output
      → AreTimes e
      → (is_smoothing (get_block e output).1 ≡ false)
        × (length (get_block e output).0 ≡ length output)
  unfolding stages block_by
  is_smoothing-get_block e output d r on at left fits times =
      let (block, e') = stages e output in
      let s = block_by-IsStage e.state ([], output, e) in
      let n = pos_part e'.release_delay in
      let size = length-stages e output in
      let where_ : e'.release_delay ≡ pos d = s.delay ∙ at in
      let shorter : pos_part e'.release ≤ r = omega (arith, s.less, ap pos_part left) in
      let place : pos_part e'.release_delay ≡ d = ap pos_part where_ in
      let should : e'.should_release ≡ true = s.should ∙ on in
      let here : ltb_ℤ (pos (length block)) e'.release_delay ≡ false =
        rw where_ (ground (arith, size, fits)) in
      (
        ap (λ (p : List F × Adsr F). is_smoothing p.1) (released e output should here)
            ∙ release_block-Fits (take n block) (drop n block) e'
                (omega (arith, length-drop n block, size, shorter, place, fits))
                (omega (arith, s.sign, ap neg_part left)),
        length-get_block e output,
      )
