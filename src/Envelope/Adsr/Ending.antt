-- ===== src/Envelope/Adsr/Ending.antt =====
-- ADSREnvelope.cpp: a release comes to its end.
use sfizz.Base.{ℕ, zero, suc, ◌+◌, ◌-◌, ◌≤◌, ◌<◌, ◌≡◌, true, false, arith, ◌⊎◌, inl, inr}
use native.Mathlib.Decide.{dec_lt}
use sfizz.Base.Int.{pos, pos_part, neg_part, ◌-ℤ◌}
use sfizz.Float.{FloatOps}
use sfizz.Envelope.Adsr.{
  State, Adsr, is_smoothing, begin_release, next_by, next_release, next_delay, next_attack,
  next_hold, next_decay, next_sustain, get_next_value, less_one, at_least_one, decay_step, one,
}
use sfizz.Envelope.Adsr.Timeline.{after_calls}

module _ {F : Type 0} ⦃o : FloatOps F⦄ where
  open o use {sub, div, of_int}

  -- What no stage before the release touches.
  abbrev Keeps : Adsr F → Adsr F → Type 0
  Keeps e e' =
      (e'.should_release ≡ e.should_release)
      × (e'.release_delay ≡ e.release_delay)
      × (pos_part e'.release ≤ pos_part e.release)

  next_decay-Keeps : (e : Adsr F) → Keeps e (next_decay e).1
  unfolding next_decay next_sustain
  next_decay-Keeps e = ground arith

  next_hold-Keeps : (e : Adsr F) → Keeps e (next_hold e).1
  unfolding next_hold
  next_hold-Keeps e = ground (
    arith,
    next_decay-Keeps
        (record e { hold = less_one e.hold; step = decay_step e; state = State.decay }),
  )

  next_attack-Keeps : (e : Adsr F) → Keeps e (next_attack e).1
  unfolding next_attack
  next_attack-Keeps e = ground (
    arith,
    next_hold-Keeps
        (record e { attack = less_one e.attack; state = State.hold; current_value = one }),
  )

  next_delay-Keeps : (e : Adsr F) → Keeps e (next_delay e).1
  unfolding next_delay
  next_delay-Keeps e = ground (
    arith,
    next_attack-Keeps (record e {
      delay = less_one e.delay;
      state = State.attack;
      step = div (sub one e.current_value) (of_int (at_least_one e.attack));
    }),
  )

  next_release-Keeps : (e : Adsr F) → Keeps e (next_release e).1
  unfolding next_release ◌-ℤ◌
  next_release-Keeps e = ground arith

  next_by-Keeps : (st : State) (e : Adsr F) → Keeps e (next_by st e).1
  unfolding next_by
  next_by-Keeps State.delay e = next_delay-Keeps e
  next_by-Keeps State.attack e = next_attack-Keeps e
  next_by-Keeps State.hold e = next_hold-Keeps e
  next_by-Keeps State.decay e = next_decay-Keeps e
  next_by-Keeps State.sustain e = ground arith
  next_by-Keeps State.release e = next_release-Keeps e
  next_by-Keeps State.done e = ground arith

  -- The delay of the release counts down.
  count_down :
      (d : ℕ) (e : Adsr F)
      → e.should_release ≡ true
      → e.release_delay ≡ pos (suc d)
      → let e' = (get_next_value e).1 in
        (e'.should_release ≡ true)
        × (e'.release_delay ≡ pos d)
        × (pos_part e'.release ≤ pos_part e.release)
  unfolding get_next_value begin_release ◌-ℤ◌
  count_down d e h r =
      ground (arith, next_by-Keeps e.state (record e { release_delay = less_one e.release_delay }))

  -- The delay of the release has passed.
  abbrev Fading : Adsr F → Type 0
  Fading e = (e.should_release ≡ true) × (0 < neg_part e.release_delay)

  -- One call in the release, from its first.
  abbrev Fades : ℕ → Adsr F → Type 0
  Fades left e' =
      Fading e'
      × (left ≡ 0 → e'.state ≡ State.done)
      × (0 < left → (e'.state ≡ State.release) × (pos_part e'.release ≡ left - 1))

  get_next_value-Fades :
      (e : Adsr F)
      → e.should_release ≡ true
      → (e.release_delay ≡ pos 0) ⊎ ((0 < neg_part e.release_delay) × (e.state ≡ State.release))
      → Fades (pos_part e.release) (get_next_value e).1
  unfolding get_next_value begin_release next_by next_release ◌-ℤ◌
  get_next_value-Fades e h (inl z) = ground arith
  get_next_value-Fades e h (inr (z, s)) = ground arith

  one_more :
      (e : Adsr F)
      → Fading e
      → e.state ≡ State.done
      → Fading (get_next_value e).1 × ((get_next_value e).1.state ≡ State.done)
  unfolding get_next_value begin_release next_by ◌-ℤ◌
  one_more e f s = ground arith

  stay_done :
      (n : ℕ) (e : Adsr F) → Fading e → e.state ≡ State.done → (after_calls n e).state ≡ State.done
  unfolding after_calls
  stay_done zero e f s = s
  stay_done (suc n) e f s = let (f', s') = one_more e f s in stay_done n (get_next_value e).1 f' s'

  fade :
      (n : ℕ) (e : Adsr F)
      → Fading e
      → e.state ≡ State.release
      → pos_part e.release < n
      → (after_calls n e).state ≡ State.done
  unfolding after_calls
  fade zero e f s l = absurd (omega arith)
  fade (suc n) e f s l =
      let (f', ended, going) = get_next_value-Fades e f.0 (inr (f.1, s)) in
      elim (dec_lt 0 (pos_part e.release)) [
        | yes p ↦ let (s', r') = going p in fade n (get_next_value e).1 f' s' (omega arith)
        | no p ↦ stay_done n (get_next_value e).1 f' (ended (omega arith))
      ]

  -- Once a release is asked for, with a delay that is not negative, the envelope is over after as
  -- many calls as this delay and the length of the release say, and one more, whatever the stage it
  -- started in, and it stays so.
  pub is_smoothing-after_calls :
      (d n : ℕ) (e : Adsr F)
      → e.should_release ≡ true
      → e.release_delay ≡ pos d
      → d + pos_part e.release < n
      → is_smoothing (after_calls n e) ≡ false
  unfolding after_calls is_smoothing
  is_smoothing-after_calls d zero e h r l = absurd (omega arith)
  is_smoothing-after_calls zero (suc n) e h r l =
      let (f', ended, going) = get_next_value-Fades e h (inl r) in
      elim (dec_lt 0 (pos_part e.release)) [
        | yes p ↦ let (s', r') = going p in rw (fade n (get_next_value e).1 f' s' (omega arith))
        | no p ↦ rw (stay_done n (get_next_value e).1 f' (ended (omega arith)))
      ]
  is_smoothing-after_calls (suc d) (suc n) e h r l =
      let (h', r', le) = count_down d e h r in
      is_smoothing-after_calls d n (get_next_value e).1 h' r' (omega arith)
