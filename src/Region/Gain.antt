-- ===== src/Region/Gain.antt =====
-- Region.cpp, EGDescription.h, SfzHelpers.h and MathHelpers.h: the quantities that a voice reads
-- when it starts. What a random distribution gives is an argument, and so is the duration of a note.
use sfizz.Base.{
  ℕ, ◌||◌, ◌+◌, ◌-◌, ◌%◌, ◌^◌, ◌/◌, Bool, false, List, [], ◌∷◌, Option, none, some, ltb, leb,
  if◌then◌else◌, get_or,
}
use Prim.Native.Nat.{min, max}
use sfizz.Base.Int.{ℤ, pos, ◌+ℤ◌, ◌-ℤ◌, ◌*ℤ◌}
use sfizz.Float.{FloatOps, of_nat, fmin, fmax}
use sfizz.Range.{Range, length8}
use sfizz.Region.Parts.{
  SfzCrossfadeCurve, CcValuePair, Amplifier, Pitch, EgDescription, Region, Sound,
}

-- What the distributions of a region give at the start of a voice.
pub record Draws (F : Type 0) : Type 0 where
  pub pitch : ℤ
  pub volume : F
  pub offset : ℕ
  pub delay : F

module _ {F : Type 0} ⦃o : FloatOps F⦄ where
  open o use {add, sub, mul, div, lt, eq, of_int, to_int, lit, pow, sqrt, log, abs}

  abbrev nought : F
  nought = of_nat 0

  abbrev one : F
  one = of_nat 1

  unfoldable pub normalize_cc : ℕ → F
  normalize_cc value = div (of_nat (min (max value 0) 127)) (of_nat 127)

  unfoldable pub normalize_percents : F → F
  normalize_percents v = div (fmin (fmax v nought) (of_nat 100)) (of_nat 100)

  unfoldable pub normalize_negative_percents : F → F
  normalize_negative_percents v =
      div (fmin (fmax v (of_int (pos 0 -ℤ pos 100))) (of_nat 100)) (of_nat 100)

  unfoldable pub cents_factor : ℤ → F
  cents_factor cents = pow (of_nat 2) (div (of_int cents) (of_nat 1200))

  -- `db2mag`: 10 to the power of 0.05 dB.
  unfoldable pub db2mag : F → F
  db2mag db = pow (of_nat 10) (mul db (lit (pos 5) 100))

  unfoldable pub midi_note_frequency : ℕ → F
  midi_note_frequency note =
      mul (of_nat 440) (pow (of_nat 2) (div (of_int (pos note -ℤ pos 69)) (of_nat 12)))

  -- `ccSwitchedValue`.
  unfoldable pub cc_switched_value : List ℕ → Option (CcValuePair F) → F → F
  unfolding normalize_cc
  cc_switched_value ccs none value = value
  cc_switched_value ccs (some (cc, depth)) value =
      add value (mul depth (normalize_cc (get_or ccs cc 0)))

  -- `getAttack` and the other six: a value with a controller, and a share of the velocity.
  unfoldable pub eg_value : List ℕ → ℕ → Option (CcValuePair F) → F → F → F
  unfolding cc_switched_value normalize_cc
  eg_value ccs velocity cc value by_velocity =
      add (cc_switched_value ccs cc value) (mul (normalize_cc velocity) by_velocity)

  module _ (ccs : List ℕ) (velocity : ℕ) (e : EgDescription F) where
    pub get_attack : F
    get_attack = eg_value ccs velocity e.cc_attack e.attack e.vel2attack

    pub get_decay : F
    get_decay = eg_value ccs velocity e.cc_decay e.decay e.vel2decay

    pub get_delay_eg : F
    get_delay_eg = eg_value ccs velocity e.cc_delay e.delay e.vel2delay

    pub get_hold : F
    get_hold = eg_value ccs velocity e.cc_hold e.hold e.vel2hold

    pub get_release : F
    get_release = eg_value ccs velocity e.cc_release e.release e.vel2release

    pub get_start : F
    get_start = cc_switched_value ccs e.cc_start e.start

    pub get_sustain : F
    get_sustain = eg_value ccs velocity e.cc_sustain e.sustain e.vel2sustain

  -- `velocity / 127` is a division of integers.
  unfoldable pub get_base_pitch_variation : Pitch → Draws F → ℕ → ℕ → F
  unfolding cents_factor
  get_base_pitch_variation p draws note velocity =
      let tracked = p.pitch_keytrack *ℤ (pos note -ℤ pos p.pitch_keycenter) in
      let tuned = tracked +ℤ p.tune +ℤ pos 100 *ℤ p.transpose in
      cents_factor (tuned +ℤ pos (velocity / 127) *ℤ p.pitch_veltrack +ℤ draws.pitch)

  unfoldable pub get_base_volume_db : Amplifier F → Bool → Draws F → F → F
  get_base_volume_db a release draws duration =
      let base = add a.volume draws.volume in
      if release then sub base (mul a.rt_decay duration) else base

  unfoldable pub get_base_gain : Amplifier F → F
  unfolding normalize_percents
  get_base_gain a = normalize_percents a.amplitude

  -- The sum wraps around in `uint32_t`.
  unfoldable pub get_offset : Sound F → Draws F → ℕ
  get_offset s draws = (s.offset + draws.offset) % 2 ^ 32

  -- The sum of two floats is cut to `uint32_t`.
  unfoldable pub get_delay : Sound F → Draws F → ℤ
  get_delay s draws = to_int (add s.delay draws.delay)

  unfoldable pub true_sample_end : Sound F → ℕ
  true_sample_end s = min s.sample_end s.loop_range.end

  unfoldable pub can_use_preloaded_data : Region F → Bool
  unfolding true_sample_end
  can_use_preloaded_data r = elim r.preloaded_data [
    | none ↦ false
    | some b ↦ ltb (true_sample_end r.sound) b.num_frames
  ]

  abbrev on_curve : SfzCrossfadeCurve → F → F
  on_curve SfzCrossfadeCurve.power x = sqrt x
  on_curve SfzCrossfadeCurve.gain x = x

  crossfade_position : Range ℕ → ℕ → F
  crossfade_position r value = div (of_nat (value - r.start)) (fmax (of_nat (length8 r)) one)

  unfoldable pub crossfade_in : Range ℕ → ℕ → SfzCrossfadeCurve → F
  unfolding crossfade_position
  crossfade_in r value curve =
      if ltb value r.start
      then nought
      else if ltb value r.end
      then on_curve curve (crossfade_position r value)
      else one

  unfoldable pub crossfade_out : Range ℕ → ℕ → SfzCrossfadeCurve → F
  unfolding crossfade_position
  crossfade_out r value curve =
      if ltb r.end value
      then nought
      else if ltb r.start value
      then on_curve curve (sub one (crossfade_position r value))
      else one

  -- The first point at or above the velocity, and the one before it: the same, if it is the first.
  unfoldable pub segment : ℕ → ℕ × F → List (ℕ × F) → Option ((ℕ × F) × (ℕ × F))
  segment velocity before [] = none
  segment velocity before (p ∷ points) =
      if leb velocity p.0 then some (before, p) else segment velocity p points

  -- A velocity above every point reads past the end of the vector: `none`.
  unfoldable pub velocity_curve : Amplifier F → ℕ → Option F
  unfolding segment db2mag
  velocity_curve a velocity = elim a.velocity_points [
    | p ∷ points ↦ elim (segment velocity p (p ∷ points)) [
      | none ↦ none
      | some (before, after) ↦
          let position =
            div (of_int (pos velocity -ℤ pos before.0)) (of_int (pos after.0 -ℤ pos before.0)) in
          some (mul one (mul position (sub after.1 before.1)))
    ]
    | [] ↦
        let v = div (of_nat velocity) (of_nat 127) in
        let floor = of_int (pos 0 -ℤ pos 90) in
        let decibels = λ (x : F). div (mul (of_nat 40) (log x)) (log (of_nat 10)) in
        let tracked =
          if lt nought a.amp_veltrack || eq nought a.amp_veltrack
          then if eq v nought then floor else decibels v
          else if eq v one
          then floor
          else decibels (sub one v) in
        some (mul one (db2mag (div (mul tracked (abs a.amp_veltrack)) (of_nat 100))))
  ]

  unfoldable pub get_note_gain : Amplifier F → ℕ → ℕ → Option F
  unfolding velocity_curve crossfade_in crossfade_out db2mag
  get_note_gain a note velocity = elim (velocity_curve a velocity) [
    | none ↦ none
    | some curve ↦
        let keytrack = db2mag (mul a.amp_keytrack (of_int (pos note -ℤ pos a.amp_keycenter))) in
        let key_in = crossfade_in a.crossfade_key_in_range note a.crossfade_key_curve in
        let key_out = crossfade_out a.crossfade_key_out_range note a.crossfade_key_curve in
        let vel_in = crossfade_in a.crossfade_vel_in_range velocity a.crossfade_vel_curve in
        let vel_out = crossfade_out a.crossfade_vel_out_range velocity a.crossfade_vel_curve in
        some (mul (mul (mul (mul (mul (mul one keytrack) key_in) key_out) curve) vel_in) vel_out)
  ]

  -- The loops over the pairs of the two maps.
  fade_all :
      (Range ℕ → ℕ → SfzCrossfadeCurve → F)
      → SfzCrossfadeCurve
      → List ℕ
      → F
      → List (ℕ × Range ℕ)
      → F
  fade_all fade curve ccs gain [] = gain
  fade_all fade curve ccs gain ((cc, r) ∷ pairs) =
      fade_all fade curve ccs (mul gain (fade r (get_or ccs cc 0) curve)) pairs

  unfoldable pub get_crossfade_gain : Amplifier F → List ℕ → F
  unfolding fade_all crossfade_in crossfade_out
  get_crossfade_gain a ccs =
      let curve = a.crossfade_cc_curve in
      let faded_in = fade_all crossfade_in curve ccs one a.crossfade_cc_in_range.container in
      fade_all crossfade_out curve ccs faded_in a.crossfade_cc_out_range.container
