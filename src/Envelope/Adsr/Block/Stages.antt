-- ===== src/Envelope/Adsr/Block/Stages.antt =====
-- ADSREnvelope.cpp, `getBlock`: what its stages keep.
use sfizz.Base.{
  ℕ, suc, ◌+◌, ◌≤◌, ◌≡◌, refl, ap, ◌∙◌, List, [], ◌∷◌, ◌++◌, arith, length, take, drop,
  length-append, length-take, length-drop, ◌==◌, Bool-cases, inl, inr,
}
use sfizz.Base.Int.{ℤ, pos, negsuc, pos_part, neg_part, ◌-ℤ◌}
use sfizz.Float.{FloatOps}
use sfizz.Simd.{fill, linear_ramp, multiplicative_ramp}
use sfizz.Simd.Shape.{length-fill}
use sfizz.Envelope.Adsr.{State, decay_step, at_least_one}
use sfizz.Envelope.Adsr.Block.{
  Block, share, advance, block_sustain, block_decay, block_hold, block_attack, block_delay,
  block_release, block_by,
}

module _ {F : Type 0} ⦃o : FloatOps F⦄ where
  length-linear_ramp :
      (span : List F) (v step : F) → length (linear_ramp span v step).0 ≡ length span
  unfolding linear_ramp
  length-linear_ramp [] v step = refl
  length-linear_ramp (x ∷ span) v step = ap suc (length-linear_ramp span _ step)

  pub length-multiplicative_ramp :
      (span : List F) (v step : F) → length (multiplicative_ramp span v step).0 ≡ length span
  unfolding multiplicative_ramp
  length-multiplicative_ramp [] v step = refl
  length-multiplicative_ramp (x ∷ span) v step = ap suc (length-multiplicative_ramp span _ step)

  length-advance :
      (written span output : List F) (n : ℕ)
      → length span ≡ length output
      → length (advance written span n).0 + length (advance written span n).1
        ≡ length written + length output
  length-advance written span output n same =
      omega
        (arith, length-append written (take n span), length-take n span, length-drop n span, same)

  -- What every stage keeps of the block and of the envelope.
  pub record IsStage (b b' : Block F) : Type 0 where
    pub total : length b'.0 + length b'.1 ≡ length b.0 + length b.1
    pub should : b'.2.should_release ≡ b.2.should_release
    pub delay : b'.2.release_delay ≡ b.2.release_delay
    pub less : pos_part b'.2.release ≤ pos_part b.2.release
    pub sign : neg_part b'.2.release ≤ neg_part b.2.release

  untouched :
      (b b' : Block F)
      → length b'.0 + length b'.1 ≡ length b.0 + length b.1
      → b'.2.should_release ≡ b.2.should_release
      → b'.2.release_delay ≡ b.2.release_delay
      → b'.2.release ≡ b.2.release
      → IsStage b b'
  untouched b b' t s d r = record {
    total = t;
    should = s;
    delay = d;
    less = rw r (omega arith);
    sign = rw r (omega arith);
  }

  then-IsStage : (b c d : Block F) → IsStage b c → IsStage c d → IsStage b d
  then-IsStage b c d p q = record {
    total = q.total ∙ p.total;
    should = q.should ∙ p.should;
    delay = q.delay ∙ p.delay;
    less = omega (arith, p.less, q.less);
    sign = omega (arith, p.sign, q.sign);
  }

  block_decay-IsStage : (b : Block F) → IsStage b (block_decay b)
  unfolding block_decay block_sustain
  block_decay-IsStage (written, output, e) =
      let n = share output e.decay in
      let ramp = (multiplicative_ramp output e.current_value e.step).0 in
      let size = length-advance written ramp output n (length-multiplicative_ramp output _ _) in
      elim (Bool-cases (length (drop n ramp) == 0)) [
        | inl end ↦ rw (end, block_decay) (untouched _ _ size refl refl refl)
        | inr on ↦ rw (on, block_decay) (untouched _ _ size refl refl refl)
      ]

  block_hold-IsStage : (b : Block F) → IsStage b (block_hold b)
  unfolding block_hold
  block_hold-IsStage (written, output, e) =
      let n = share output e.hold in
      let held = fill output e.current_value in
      let size = length-advance written held output n (length-fill output _) in
      let next : Block F = (
        written ++ take n held,
        drop n held,
        record e { hold = e.hold -ℤ pos n; step = decay_step e; state = State.decay },
      ) in
      elim (Bool-cases (length (drop n held) == 0)) [
        | inl end ↦ rw (end, block_hold) (untouched _ _ size refl refl refl)
        | inr on ↦
            rw (on, block_hold)
              (then-IsStage (written, output, e) next _ (untouched _ _ size refl refl refl)
                (block_decay-IsStage next))
      ]

  block_attack-IsStage : (b : Block F) → IsStage b (block_attack b)
  unfolding block_attack
  block_attack-IsStage (written, output, e) =
      let n = share output e.attack in
      let ramp = (linear_ramp output e.current_value e.step).0 in
      let size = length-advance written ramp output n (length-linear_ramp output _ _) in
      let next : Block F = (
        written ++ take n ramp,
        drop n ramp,
        record e { attack = e.attack -ℤ pos n; current_value = e.peak; state = State.hold },
      ) in
      elim (Bool-cases (length (drop n ramp) == 0)) [
        | inl end ↦ rw (end, block_attack) (untouched _ _ size refl refl refl)
        | inr on ↦
            rw (on, block_attack)
              (then-IsStage (written, output, e) next _ (untouched _ _ size refl refl refl)
                (block_hold-IsStage next))
      ]

  block_delay-IsStage : (b : Block F) → IsStage b (block_delay b)
  unfolding block_delay
  block_delay-IsStage (written, output, e) =
      let n = share output e.delay in
      let held = fill output e.current_value in
      let size = length-advance written held output n (length-fill output _) in
      let next : Block F = (
        written ++ take n held,
        drop n held,
        record e {
          delay = e.delay -ℤ pos n;
          step = o.div (o.sub e.peak e.start) (o.of_int (at_least_one e.attack));
          state = State.attack;
        },
      ) in
      elim (Bool-cases (length (drop n held) == 0)) [
        | inl end ↦ rw (end, block_delay) (untouched _ _ size refl refl refl)
        | inr on ↦
            rw (on, block_delay)
              (then-IsStage (written, output, e) next _ (untouched _ _ size refl refl refl)
                (block_attack-IsStage next))
      ]

  less_share :
      (output : List F) (r : ℤ)
      → let left = r -ℤ pos (share output r) in
        (pos_part left ≤ pos_part r) × (neg_part left ≤ neg_part r)
  unfolding ◌-ℤ◌
  less_share output (pos r) = ground arith
  less_share output (negsuc r) = ground arith

  block_release-IsStage : (b : Block F) → IsStage b (block_release b)
  unfolding block_release
  block_release-IsStage (written, output, e) =
      let n = share output e.release in
      let ramp = (multiplicative_ramp output e.current_value e.step).0 in
      let size = length-advance written ramp output n (length-multiplicative_ramp output _ _) in
      let (less, sign) = less_share output e.release in
      elim (Bool-cases (length (drop n ramp) == 0)) [
        | inl end ↦
            rw (end, block_release)
              (record { total = size; should = refl; delay = refl; less = less; sign = sign })
        | inr on ↦
            rw (on, block_release)
              (record { total = size; should = refl; delay = refl; less = less; sign = sign })
      ]

  pub block_by-IsStage : (state : State) (b : Block F) → IsStage b (block_by state b)
  unfolding block_by block_sustain
  block_by-IsStage State.delay b = block_delay-IsStage b
  block_by-IsStage State.attack b = block_attack-IsStage b
  block_by-IsStage State.hold b = block_hold-IsStage b
  block_by-IsStage State.decay b = block_decay-IsStage b
  block_by-IsStage State.sustain b = untouched b b refl refl refl refl
  block_by-IsStage State.release b = block_release-IsStage b
  block_by-IsStage State.done b = untouched b b refl refl refl refl
