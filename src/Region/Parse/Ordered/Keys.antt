-- ===== src/Region/Parse/Ordered/Keys.antt =====
-- Region.cpp, `parseOpcode`: the cases of keys, conditions and triggers keep the integral ranges in order.
use sfizz.Base.{ℕ, Option}
use sfizz.Base.Int.{ℤ}
use sfizz.Float.{FloatOps}
use sfizz.Opcode.{Numbers, Opcode, set_signed_start, set_signed_end}
use sfizz.Region.Parse.Keys.{
  key_cases, keyswitch_cases, internal_cases, as_midi, as_channel, as_bend,
}
use sfizz.Region.Parse.Ordered.{
  AllKeep, done, ◌▸◌, set_range_start-Sorted, set_range_end-Sorted, set_signed_start-Sorted,
  set_signed_end-Sorted, at_parameter-Sorted,
}
use sfizz.Region.Parse.Ordered.Fields.{
  key_range-Keeps, velocity_range-Keeps, channel_range-Keeps, bend_range-Keeps, cc_conditions-Keeps,
  keyswitch_range-Keeps, aftertouch_range-Keeps, cc_triggers-Keeps,
}

module _ {F : Type 0} ⦃o : FloatOps F⦄ (numbers : Numbers F) (op : Opcode) where
  abbrev midi : Option ℕ
  midi = as_midi numbers op

  abbrev channel : Option ℕ
  channel = as_channel numbers op

  abbrev bend : Option ℤ
  bend = as_bend numbers op

  pub key_cases-Keeps : AllKeep {F = F} (key_cases numbers op)
  unfolding key_cases
  key_cases-Keeps =
      key_range-Keeps _ (set_range_start-Sorted midi)
      ▸ key_range-Keeps _ (set_range_end-Sorted midi)
      ▸ key_range-Keeps _ (λ x h. set_range_end-Sorted midi _ (set_range_start-Sorted midi x h))
      ▸ velocity_range-Keeps _ (set_range_start-Sorted midi)
      ▸ velocity_range-Keeps _ (set_range_end-Sorted midi)
      ▸ channel_range-Keeps _ (set_range_start-Sorted channel)
      ▸ channel_range-Keeps _ (set_range_end-Sorted channel)
      ▸ bend_range-Keeps (set_signed_start bend) (set_signed_start-Sorted bend)
      ▸ bend_range-Keeps (set_signed_end bend) (set_signed_end-Sorted bend)
      ▸ cc_conditions-Keeps _ (λ m. at_parameter-Sorted op _ m (set_range_start-Sorted midi))
      ▸ cc_conditions-Keeps _ (λ m. at_parameter-Sorted op _ m (set_range_end-Sorted midi))
      ▸ done

  pub keyswitch_cases-Keeps : AllKeep {F = F} (keyswitch_cases numbers op)
  unfolding keyswitch_cases
  keyswitch_cases-Keeps =
      keyswitch_range-Keeps _ (set_range_start-Sorted midi)
      ▸ keyswitch_range-Keeps _ (set_range_end-Sorted midi)
      ▸ (λ r h. h)
      ▸ (λ r h. h)
      ▸ (λ r h. h)
      ▸ (λ r h. h)
      ▸ (λ r h. h)
      ▸ (λ r h. h)
      ▸ (λ r h. h)
      ▸ done

  pub internal_cases-Keeps : AllKeep {F = F} (internal_cases numbers op)
  unfolding internal_cases
  internal_cases-Keeps =
      aftertouch_range-Keeps _ (set_range_start-Sorted midi)
      ▸ aftertouch_range-Keeps _ (set_range_end-Sorted midi)
      ▸ (λ r h. h)
      ▸ (λ r h. h)
      ▸ (λ r h. h)
      ▸ (λ r h. h)
      ▸ (λ r h. h)
      ▸ (λ r h. h)
      ▸ (λ r h. h)
      ▸ cc_triggers-Keeps _ (λ m. at_parameter-Sorted op _ m (set_range_start-Sorted midi))
      ▸ cc_triggers-Keeps _ (λ m. at_parameter-Sorted op _ m (set_range_end-Sorted midi))
      ▸ done
