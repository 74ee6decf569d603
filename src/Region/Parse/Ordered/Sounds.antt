-- ===== src/Region/Parse/Ordered/Sounds.antt =====
-- Region.cpp, `parseOpcode`: the cases of sounds, lifecycle and pitch keep the integral ranges in order.
use sfizz.Base.{ℕ, Option}
use sfizz.Float.{FloatOps}
use sfizz.Opcode.{Numbers, Opcode, set_range_start, set_range_end}
use sfizz.Region.Parse.Sounds.{sound_cases, lifecycle_cases, pitch_cases, as32}
use sfizz.Region.Parse.Ordered.{AllKeep, done, ◌▸◌, set_range_start-Sorted, set_range_end-Sorted}
use sfizz.Region.Parse.Ordered.Fields.{loop_range-Keeps}

module _ {F : Type 0} ⦃o : FloatOps F⦄ (numbers : Numbers F) (op : Opcode) where
  abbrev whole32 : Option ℕ
  whole32 = as32 numbers op

  pub sound_cases-Keeps : AllKeep {F = F} (sound_cases numbers op)
  unfolding sound_cases
  sound_cases-Keeps =
      (λ r h. h)
      ▸ (λ r h. h)
      ▸ (λ r h. h)
      ▸ (λ r h. h)
      ▸ (λ r h. h)
      ▸ (λ r h. h)
      ▸ (λ r h. h)
      ▸ (λ r h. h)
      ▸ (λ r h. h)
      ▸ loop_range-Keeps (set_range_end whole32) (set_range_end-Sorted whole32)
      ▸ loop_range-Keeps (set_range_end whole32) (set_range_end-Sorted whole32)
      ▸ loop_range-Keeps (set_range_start whole32) (set_range_start-Sorted whole32)
      ▸ loop_range-Keeps (set_range_start whole32) (set_range_start-Sorted whole32)
      ▸ done

  pub lifecycle_cases-Keeps : AllKeep {F = F} (lifecycle_cases numbers op)
  unfolding lifecycle_cases
  lifecycle_cases-Keeps = (λ r h. h) ▸ (λ r h. h) ▸ (λ r h. h) ▸ (λ r h. h) ▸ done

  pub pitch_cases-Keeps : AllKeep {F = F} (pitch_cases numbers op)
  unfolding pitch_cases
  pitch_cases-Keeps =
      (λ r h. h) ▸ (λ r h. h) ▸ (λ r h. h) ▸ (λ r h. h) ▸ (λ r h. h) ▸ (λ r h. h) ▸ done
