-- ===== src/Envelope/Adsr/Timeline.antt =====
-- ADSREnvelope.cpp: how long the stages of `getNextValue` take.
use sfizz.Base.{ℕ, zero, suc, ◌+◌, ◌-◌, ◌<◌, ◌≡◌, ◌≢◌, ◌↔◌, refl, Bool, true, false, arith}
use sfizz.Base.Int.{pos_part, ◌-ℤ◌}
use sfizz.Float.{FloatOps}
use sfizz.Envelope.Adsr.{
  less_one, at_least_one, decay_step, one, next_sustain, State, Adsr, get_next_value, begin_release,
  next_by, next_delay, next_attack, next_hold, next_decay,
}

-- The stages on the way to the sustain, and the sustain.
abbrev pub rising : State → Bool
rising State.release = false
rising State.done = false
rising _ = true

module _ {F : Type 0} ⦃o : FloatOps F⦄ where
  open o use {sub, div, of_int}

  -- n calls of `getNextValue`.
  unfoldable pub after_calls : ℕ → Adsr F → Adsr F
  after_calls zero e = e
  after_calls (suc n) e = after_calls n (get_next_value e).1

  -- The calls before the sustain, from a stage on.
  abbrev pub countdown_by : State → Adsr F → ℕ
  countdown_by State.delay e =
      pos_part e.delay + pos_part e.attack + pos_part e.hold + pos_part e.decay
  countdown_by State.attack e = pos_part e.attack + pos_part e.hold + pos_part e.decay
  countdown_by State.hold e = pos_part e.hold + pos_part e.decay
  countdown_by State.decay e = pos_part e.decay
  countdown_by _ e = 0

  abbrev pub countdown : Adsr F → ℕ
  countdown e = countdown_by e.state e

  -- What one call does while no release is asked for.
  abbrev Counts : ℕ → Adsr F → Type 0
  Counts n e =
      (e.should_release ≡ false)
      × (rising e.state ≡ true)
      × (countdown e ≡ n - 1)
      × (n ≡ 0 → e.state ≡ State.sustain)
      × (0 < n → e.state ≢ State.sustain)

  abbrev StartsAt : State → Adsr F → Type 0
  StartsAt st e = (e.should_release ≡ false) × (e.state ≡ st)

  next_decay-Counts :
      (e : Adsr F) → StartsAt State.decay e → Counts (countdown_by State.decay e) (next_decay e).1
  unfolding next_decay next_sustain ◌-ℤ◌
  next_decay-Counts e s = ground arith

  next_hold-Counts :
      (e : Adsr F) → StartsAt State.hold e → Counts (countdown_by State.hold e) (next_hold e).1
  unfolding next_hold ◌-ℤ◌
  next_hold-Counts e s = ground (
    arith,
    next_decay-Counts
        (record e { hold = less_one e.hold; step = decay_step e; state = State.decay }),
  )

  next_attack-Counts :
      (e : Adsr F)
      → StartsAt State.attack e
      → Counts (countdown_by State.attack e) (next_attack e).1
  unfolding next_attack ◌-ℤ◌
  next_attack-Counts e s = ground (
    arith,
    next_hold-Counts
        (record e { attack = less_one e.attack; state = State.hold; current_value = one }),
  )

  next_delay-Counts :
      (e : Adsr F) → StartsAt State.delay e → Counts (countdown_by State.delay e) (next_delay e).1
  unfolding next_delay ◌-ℤ◌
  next_delay-Counts e s = ground (
    arith,
    next_attack-Counts (record e {
      delay = less_one e.delay;
      state = State.attack;
      step = div (sub one e.current_value) (of_int (at_least_one e.attack));
    }),
  )

  next_by-Counts :
      (st : State) (e : Adsr F)
      → StartsAt st e
      → rising st ≡ true
      → Counts (countdown_by st e) (next_by st e).1
  unfolding next_by
  next_by-Counts State.delay e s r = next_delay-Counts e s
  next_by-Counts State.attack e s r = next_attack-Counts e s
  next_by-Counts State.hold e s r = next_hold-Counts e s
  next_by-Counts State.decay e s r = next_decay-Counts e s
  next_by-Counts State.sustain e s r = ground arith
  next_by-Counts State.release e s r = cc
  next_by-Counts State.done e s r = cc

  begin_release-off : (e : Adsr F) → e.should_release ≡ false → begin_release e ≡ e
  unfolding begin_release
  begin_release-off e h = ground arith

  get_next_value-Counts :
      (e : Adsr F)
      → e.should_release ≡ false
      → rising e.state ≡ true
      → Counts (countdown e) (get_next_value e).1
  unfolding get_next_value
  get_next_value-Counts e h r = rw (begin_release-off e h) (next_by-Counts e.state e (h, refl) r)

  -- While no release is asked for, the envelope is in its sustain after n calls exactly if n is
  -- more than the samples that the delay, the attack, the hold and the decay have left (a count
  -- that is not positive counts for none); an envelope that starts in a stage before the sustain,
  -- with n at least 1.
  pub after_calls-sustain_iff :
      (n : ℕ) (e : Adsr F)
      → e.should_release ≡ false
      → rising e.state ≡ true
      → 0 < n
      → ((after_calls n e).state ≡ State.sustain) ↔ (countdown e < n)
  unfolding after_calls
  after_calls-sustain_iff zero e h r p = absurd (omega arith)
  after_calls-sustain_iff (suc zero) e h r p =
      let k = get_next_value-Counts e h r in (λ s. ground (arith, k), λ l. k.3 (omega arith))
  after_calls-sustain_iff (suc (suc n)) e h r p =
      let k = get_next_value-Counts e h r in
      let rest = after_calls-sustain_iff (suc n) (get_next_value e).1 k.0 k.1 (omega arith) in
      (λ s. omega (arith, rest.0 s, k.2), λ l. rest.1 (omega (arith, k.2)))
