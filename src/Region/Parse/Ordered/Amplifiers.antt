-- ===== src/Region/Parse/Ordered/Amplifiers.antt =====
-- Region.cpp, `parseOpcode`: the cases of the amplifier keep the integral ranges in order.
use sfizz.Base.{ℕ, Option, arith}
use sfizz.Float.{FloatOps}
use sfizz.Opcode.{Numbers, Opcode}
use sfizz.Region.Parse.Amplifiers.{amplifier_cases, crossfade_cases, as_midi}
use sfizz.Region.Parse.Envelopes.{eg_cases}
use sfizz.Region.Parse.Ordered.{
  AllKeep, done, ◌▸◌, set_range_start-Sorted, set_range_end-Sorted, at_parameter-Sorted,
}
use sfizz.Region.Parse.Ordered.Fields.{
  crossfade_key_in_range-Keeps, crossfade_key_out_range-Keeps, crossfade_vel_in_range-Keeps,
  crossfade_vel_out_range-Keeps, crossfade_cc_in_range-Keeps, crossfade_cc_out_range-Keeps,
}

module _ {F : Type 0} ⦃o : FloatOps F⦄ (numbers : Numbers F) (op : Opcode) where
  abbrev midi : Option ℕ
  midi = as_midi numbers op

  pub amplifier_cases-Keeps : AllKeep {F = F} (amplifier_cases numbers op)
  unfolding amplifier_cases
  amplifier_cases-Keeps =
      (λ r h. h)
      ▸ (λ r h. h)
      ▸ (λ r h. h)
      ▸ (λ r h. h)
      ▸ (λ r h. h)
      ▸ (λ r h. h)
      ▸ (λ r h. h)
      ▸ (λ r h. h)
      ▸ (λ r h. h)
      ▸ (λ r h. h)
      ▸ (λ r h. h)
      ▸ (λ r h. h)
      ▸ (λ r h. h)
      ▸ (λ r h. h)
      ▸ (λ r h. ground arith)
      ▸ (λ r h. h)
      ▸ done

  pub crossfade_cases-Keeps : AllKeep {F = F} (crossfade_cases numbers op)
  unfolding crossfade_cases
  crossfade_cases-Keeps =
      crossfade_key_in_range-Keeps _ (set_range_start-Sorted midi)
      ▸ crossfade_key_in_range-Keeps _ (set_range_end-Sorted midi)
      ▸ crossfade_key_out_range-Keeps _ (set_range_start-Sorted midi)
      ▸ crossfade_key_out_range-Keeps _ (set_range_end-Sorted midi)
      ▸ crossfade_vel_in_range-Keeps _ (set_range_start-Sorted midi)
      ▸ crossfade_vel_in_range-Keeps _ (set_range_end-Sorted midi)
      ▸ crossfade_vel_out_range-Keeps _ (set_range_start-Sorted midi)
      ▸ crossfade_vel_out_range-Keeps _ (set_range_end-Sorted midi)
      ▸ (λ r h. h)
      ▸ (λ r h. h)
      ▸ crossfade_cc_in_range-Keeps _
          (λ m. at_parameter-Sorted op _ m (set_range_start-Sorted midi))
      ▸ crossfade_cc_in_range-Keeps _ (λ m. at_parameter-Sorted op _ m (set_range_end-Sorted midi))
      ▸ crossfade_cc_out_range-Keeps _
          (λ m. at_parameter-Sorted op _ m (set_range_start-Sorted midi))
      ▸ crossfade_cc_out_range-Keeps _ (λ m. at_parameter-Sorted op _ m (set_range_end-Sorted midi))
      ▸ (λ r h. h)
      ▸ done

  pub eg_cases-Keeps : AllKeep {F = F} (eg_cases numbers op)
  unfolding eg_cases
  eg_cases-Keeps =
      (λ r h. h)
      ▸ (λ r h. h)
      ▸ (λ r h. h)
      ▸ (λ r h. h)
      ▸ (λ r h. h)
      ▸ (λ r h. h)
      ▸ (λ r h. h)
      ▸ (λ r h. h)
      ▸ (λ r h. h)
      ▸ (λ r h. h)
      ▸ (λ r h. h)
      ▸ (λ r h. h)
      ▸ (λ r h. h)
      ▸ (λ r h. h)
      ▸ (λ r h. h)
      ▸ (λ r h. h)
      ▸ (λ r h. h)
      ▸ (λ r h. h)
      ▸ (λ r h. h)
      ▸ (λ r h. h)
      ▸ (λ r h. h)
      ▸ (λ r h. h)
      ▸ done
