-- ===== src/Region/Parse/Amplifiers.antt =====
-- Region.cpp, `parseOpcode`: the amplifier and its crossfades.
use sfizz.Base.{ℕ, List, [], ◌∷◌, ◌++◌, Option, none, some, if◌then◌else◌, leb}
use sfizz.Base.Int.{ℤ, pos, negsuc}
use sfizz.Float.{FloatOps, of_nat}
use sfizz.Opcode.{
  Numbers, Opcode, value_unsigned, value_float, cc_pair, read_float, set_value, set_range_start,
  set_range_end,
}
use Prim.Native.String.{String}
use sfizz.Region.Parts.{Amplifier, CcValuePair, SfzCrossfadeCurve}
use sfizz.Region.Defaults.{midi_range, whole_range}
use sfizz.Region.Parse.Setters.{Case, choose, at_parameter, on_amplifier, on_distributions}

module _ {F : Type 0} ⦃o : FloatOps F⦄ (numbers : Numbers F) (op : Opcode) where
  abbrev pub as_midi : Option ℕ
  as_midi = value_unsigned numbers 8 op midi_range

  abbrev float_within : ℤ → ℤ → Option F
  float_within low high = value_float numbers op (whole_range low high)

  -- `setCCPairFromOpcode` clears a target for which no pair is read.
  abbrev pair_within : ℤ → ℤ → Option (CcValuePair F)
  pair_within low high = cc_pair numbers op (whole_range low high)

  abbrev curves : List (String × SfzCrossfadeCurve)
  curves = ("power", SfzCrossfadeCurve.power) ∷ ("gain", SfzCrossfadeCurve.gain) ∷ []

  -- `velocityPoints.emplace_back`, for a parameter of at most 127 and a value that is read.
  add_point : Amplifier F → Amplifier F
  unfolding read_float
  add_point a = elim op.parameter [
    | none ↦ a
    | some p ↦ elim (read_float numbers op.value (whole_range (pos 0) (pos 1))) [
      | none ↦ a
      | some x ↦
          if leb p 127 then record a { velocity_points = a.velocity_points ++ ((p, x) ∷ []) } else a
    ]
  ]

  unfoldable pub amplifier_cases : List (Case F)
  unfolding value_unsigned value_float cc_pair choose at_parameter add_point
  amplifier_cases =
      (
        "volume",
        on_amplifier
            (λ a. record a { volume = set_value (float_within (negsuc 143) (pos 6)) a.volume }),
      )
      ∷ (
        "amplitude",
        on_amplifier
            (λ a. record a { amplitude = set_value (float_within (pos 0) (pos 100)) a.amplitude }),
      )
      ∷ (
        "amplitude_cc",
        on_amplifier (λ a. record a { amplitude_cc = pair_within (pos 0) (pos 100) }),
      )
      ∷ (
        "amplitude_oncc",
        on_amplifier (λ a. record a { amplitude_cc = pair_within (pos 0) (pos 100) }),
      )
      ∷ (
        "pan",
        on_amplifier (λ a. record a { pan = set_value (float_within (negsuc 99) (pos 100)) a.pan }),
      )
      ∷ ("pan_oncc", on_amplifier (λ a. record a { pan_cc = pair_within (negsuc 199) (pos 200) }))
      ∷ (
        "position",
        on_amplifier (λ a. record a {
          position = set_value (float_within (negsuc 99) (pos 100)) a.position;
        }),
      )
      ∷ (
        "position_oncc",
        on_amplifier (λ a. record a { position_cc = pair_within (negsuc 199) (pos 200) }),
      )
      ∷ (
        "width",
        on_amplifier
            (λ a. record a { width = set_value (float_within (negsuc 99) (pos 100)) a.width }),
      )
      ∷ (
        "width_oncc",
        on_amplifier (λ a. record a { width_cc = pair_within (negsuc 199) (pos 200) }),
      )
      ∷ (
        "amp_keycenter",
        on_amplifier (λ a. record a { amp_keycenter = set_value as_midi a.amp_keycenter }),
      )
      ∷ (
        "amp_keytrack",
        on_amplifier (λ a. record a {
          amp_keytrack = set_value (float_within (negsuc 95) (pos 12)) a.amp_keytrack;
        }),
      )
      ∷ (
        "amp_veltrack",
        on_amplifier (λ a. record a {
          amp_veltrack = set_value (float_within (negsuc 99) (pos 100)) a.amp_veltrack;
        }),
      )
      ∷ (
        "amp_random",
        λ r.
            let x = set_value (float_within (pos 0) (pos 24)) r.amplifier.amp_random in
            on_distributions (λ ds. record ds { volume_distribution = (o.sub (of_nat 0) x, x) })
              (on_amplifier (λ a. record a { amp_random = x }) r),
      )
      ∷ ("amp_velcurve_", on_amplifier add_point)
      ∷ (
        "rt_decay",
        on_amplifier
            (λ a. record a { rt_decay = set_value (float_within (pos 0) (pos 200)) a.rt_decay }),
      )
      ∷ []

  unfoldable pub crossfade_cases : List (Case F)
  unfolding value_unsigned value_float cc_pair choose at_parameter add_point
  crossfade_cases =
      (
        "xfin_lokey",
        on_amplifier (λ a. record a {
          crossfade_key_in_range = set_range_start as_midi a.crossfade_key_in_range;
        }),
      )
      ∷ (
        "xfin_hikey",
        on_amplifier (λ a. record a {
          crossfade_key_in_range = set_range_end as_midi a.crossfade_key_in_range;
        }),
      )
      ∷ (
        "xfout_lokey",
        on_amplifier (λ a. record a {
          crossfade_key_out_range = set_range_start as_midi a.crossfade_key_out_range;
        }),
      )
      ∷ (
        "xfout_hikey",
        on_amplifier (λ a. record a {
          crossfade_key_out_range = set_range_end as_midi a.crossfade_key_out_range;
        }),
      )
      ∷ (
        "xfin_lovel",
        on_amplifier (λ a. record a {
          crossfade_vel_in_range = set_range_start as_midi a.crossfade_vel_in_range;
        }),
      )
      ∷ (
        "xfin_hivel",
        on_amplifier (λ a. record a {
          crossfade_vel_in_range = set_range_end as_midi a.crossfade_vel_in_range;
        }),
      )
      ∷ (
        "xfout_lovel",
        on_amplifier (λ a. record a {
          crossfade_vel_out_range = set_range_start as_midi a.crossfade_vel_out_range;
        }),
      )
      ∷ (
        "xfout_hivel",
        on_amplifier (λ a. record a {
          crossfade_vel_out_range = set_range_end as_midi a.crossfade_vel_out_range;
        }),
      )
      ∷ (
        "xf_keycurve",
        on_amplifier
            (λ a. record a { crossfade_key_curve = choose curves op a.crossfade_key_curve }),
      )
      ∷ (
        "xf_velcurve",
        on_amplifier
            (λ a. record a { crossfade_vel_curve = choose curves op a.crossfade_vel_curve }),
      )
      ∷ (
        "xfin_locc",
        on_amplifier (λ a. record a {
          crossfade_cc_in_range = at_parameter op (set_range_start as_midi) a.crossfade_cc_in_range;
        }),
      )
      ∷ (
        "xfin_hicc",
        on_amplifier (λ a. record a {
          crossfade_cc_in_range = at_parameter op (set_range_end as_midi) a.crossfade_cc_in_range;
        }),
      )
      ∷ (
        "xfout_locc",
        on_amplifier (λ a. record a {
          crossfade_cc_out_range =
              at_parameter op (set_range_start as_midi) a.crossfade_cc_out_range;
        }),
      )
      ∷ (
        "xfout_hicc",
        on_amplifier (λ a. record a {
          crossfade_cc_out_range = at_parameter op (set_range_end as_midi) a.crossfade_cc_out_range;
        }),
      )
      ∷ (
        "xf_cccurve",
        on_amplifier (λ a. record a { crossfade_cc_curve = choose curves op a.crossfade_cc_curve }),
      )
      ∷ []
