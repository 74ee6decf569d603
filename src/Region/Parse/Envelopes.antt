-- ===== src/Region/Parse/Envelopes.antt =====
-- Region.cpp, `parseOpcode`: the envelope of the amplifier.
use sfizz.Base.{List, [], ◌∷◌, Option}
use sfizz.Base.Int.{ℤ, pos, negsuc}
use sfizz.Float.{FloatOps}
use sfizz.Opcode.{Numbers, Opcode, value_float, cc_pair, set_value}
use sfizz.Region.Parts.{CcValuePair}
use sfizz.Region.Defaults.{whole_range}
use sfizz.Region.Parse.Setters.{Case, on_eg}

module _ {F : Type 0} ⦃o : FloatOps F⦄ (numbers : Numbers F) (op : Opcode) where
  abbrev float_within : ℤ → ℤ → Option F
  float_within low high = value_float numbers op (whole_range low high)

  abbrev either : Option F
  either = float_within (negsuc 99) (pos 100)

  -- `setCCPairFromOpcode` clears a target for which no pair is read.
  abbrev paired : Option (CcValuePair F)
  paired = cc_pair numbers op (whole_range (negsuc 99) (pos 100))

  unfoldable pub eg_cases : List (Case F)
  unfolding value_float cc_pair
  eg_cases =
      (
        "ampeg_attack",
        on_eg (λ e. record e { attack = set_value (float_within (pos 0) (pos 100)) e.attack }),
      )
      ∷ (
        "ampeg_decay",
        on_eg (λ e. record e { decay = set_value (float_within (pos 0) (pos 100)) e.decay }),
      )
      ∷ (
        "ampeg_delay",
        on_eg (λ e. record e { delay = set_value (float_within (pos 0) (pos 100)) e.delay }),
      )
      ∷ (
        "ampeg_hold",
        on_eg (λ e. record e { hold = set_value (float_within (pos 0) (pos 100)) e.hold }),
      )
      ∷ (
        "ampeg_release",
        on_eg (λ e. record e { release = set_value (float_within (pos 0) (pos 100)) e.release }),
      )
      ∷ (
        "ampeg_start",
        on_eg (λ e. record e { start = set_value (float_within (pos 0) (pos 100)) e.start }),
      )
      ∷ (
        "ampeg_sustain",
        on_eg (λ e. record e { sustain = set_value (float_within (pos 0) (pos 100)) e.sustain }),
      )
      ∷ ("ampeg_vel2attack", on_eg (λ e. record e { vel2attack = set_value either e.vel2attack }))
      ∷ ("ampeg_vel2decay", on_eg (λ e. record e { vel2decay = set_value either e.vel2decay }))
      ∷ ("ampeg_vel2delay", on_eg (λ e. record e { vel2delay = set_value either e.vel2delay }))
      ∷ ("ampeg_vel2hold", on_eg (λ e. record e { vel2hold = set_value either e.vel2hold }))
      ∷ (
        "ampeg_vel2release",
        on_eg (λ e. record e { vel2release = set_value either e.vel2release }),
      )
      ∷ (
        "ampeg_vel2sustain",
        on_eg (λ e. record e { vel2sustain = set_value either e.vel2sustain }),
      )
      ∷ ("ampeg_attack_oncc", on_eg (λ e. record e { cc_attack = paired }))
      ∷ ("ampeg_decay_oncc", on_eg (λ e. record e { cc_decay = paired }))
      ∷ ("ampeg_delay_oncc", on_eg (λ e. record e { cc_delay = paired }))
      ∷ ("ampeg_hold_oncc", on_eg (λ e. record e { cc_hold = paired }))
      ∷ ("ampeg_release_oncc", on_eg (λ e. record e { cc_release = paired }))
      ∷ ("ampeg_start_oncc", on_eg (λ e. record e { cc_start = paired }))
      ∷ ("ampeg_sustain_oncc", on_eg (λ e. record e { cc_sustain = paired }))
      ∷ ("ampeg_depth", λ r. r)
      ∷ ("ampeg_vel2depth", λ r. r)
      ∷ []
