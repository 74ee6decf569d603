-- ===== src/Region/Parse/Ordered/Fields.antt =====
-- Region.cpp, `parseOpcode`: a case that changes one range, and keeps its bounds in order, keeps all.
use sfizz.Base.{ℕ}
use sfizz.Base.Int.{ℤ}
use sfizz.Range.{Range}
use sfizz.CcMap.{CcMap}
use sfizz.Region.Parse.Setters.{on_sound, on_conditions, on_amplifier}
use sfizz.Region.Parse.Ordered.{Keeps, Sorted, SortedSigned, SortedMap}

abbrev pub Keeping : {T : Type 0} → (T → Type 0) → (T → T) → Type 0
Keeping {T = T} P f = (x : T) → P x → P (f x)

module _ {F : Type 0} where
  pub loop_range-Keeps :
      (f : Range ℕ → Range ℕ)
      → Keeping Sorted f
      → Keeps {F = F} (on_sound (λ s. record s { loop_range = f s.loop_range }))
  loop_range-Keeps f k r h = (k _ h.0, h.1, h.2)

  pub key_range-Keeps :
      (f : Range ℕ → Range ℕ)
      → Keeping Sorted f
      → Keeps {F = F} (on_conditions (λ c. record c { key_range = f c.key_range }))
  key_range-Keeps f k r h = (h.0, (k _ h.1.0, h.1.1, h.1.2, h.1.3, h.1.4, h.1.5, h.1.6, h.1.7), h.2)

  pub velocity_range-Keeps :
      (f : Range ℕ → Range ℕ)
      → Keeping Sorted f
      → Keeps {F = F} (on_conditions (λ c. record c { velocity_range = f c.velocity_range }))
  velocity_range-Keeps f k r h =
      (h.0, (h.1.0, k _ h.1.1, h.1.2, h.1.3, h.1.4, h.1.5, h.1.6, h.1.7), h.2)

  pub channel_range-Keeps :
      (f : Range ℕ → Range ℕ)
      → Keeping Sorted f
      → Keeps {F = F} (on_conditions (λ c. record c { channel_range = f c.channel_range }))
  channel_range-Keeps f k r h =
      (h.0, (h.1.0, h.1.1, k _ h.1.2, h.1.3, h.1.4, h.1.5, h.1.6, h.1.7), h.2)

  pub bend_range-Keeps :
      (f : Range ℤ → Range ℤ)
      → Keeping SortedSigned f
      → Keeps {F = F} (on_conditions (λ c. record c { bend_range = f c.bend_range }))
  bend_range-Keeps f k r h =
      (h.0, (h.1.0, h.1.1, h.1.2, k _ h.1.3, h.1.4, h.1.5, h.1.6, h.1.7), h.2)

  pub cc_conditions-Keeps :
      (f : CcMap (Range ℕ) → CcMap (Range ℕ))
      → Keeping SortedMap f
      → Keeps {F = F} (on_conditions (λ c. record c { cc_conditions = f c.cc_conditions }))
  cc_conditions-Keeps f k r h =
      (h.0, (h.1.0, h.1.1, h.1.2, h.1.3, k _ h.1.4, h.1.5, h.1.6, h.1.7), h.2)

  pub keyswitch_range-Keeps :
      (f : Range ℕ → Range ℕ)
      → Keeping Sorted f
      → Keeps {F = F} (on_conditions (λ c. record c { keyswitch_range = f c.keyswitch_range }))
  keyswitch_range-Keeps f k r h =
      (h.0, (h.1.0, h.1.1, h.1.2, h.1.3, h.1.4, k _ h.1.5, h.1.6, h.1.7), h.2)

  pub aftertouch_range-Keeps :
      (f : Range ℕ → Range ℕ)
      → Keeping Sorted f
      → Keeps {F = F} (on_conditions (λ c. record c { aftertouch_range = f c.aftertouch_range }))
  aftertouch_range-Keeps f k r h =
      (h.0, (h.1.0, h.1.1, h.1.2, h.1.3, h.1.4, h.1.5, k _ h.1.6, h.1.7), h.2)

  pub cc_triggers-Keeps :
      (f : CcMap (Range ℕ) → CcMap (Range ℕ))
      → Keeping SortedMap f
      → Keeps {F = F} (on_conditions (λ c. record c { cc_triggers = f c.cc_triggers }))
  cc_triggers-Keeps f k r h =
      (h.0, (h.1.0, h.1.1, h.1.2, h.1.3, h.1.4, h.1.5, h.1.6, k _ h.1.7), h.2)

  pub crossfade_key_in_range-Keeps :
      (f : Range ℕ → Range ℕ)
      → Keeping Sorted f
      → Keeps {F = F}
          (on_amplifier (λ c. record c { crossfade_key_in_range = f c.crossfade_key_in_range }))
  crossfade_key_in_range-Keeps f k r h = (h.0, h.1, (k _ h.2.0, h.2.1, h.2.2, h.2.3, h.2.4, h.2.5))

  pub crossfade_key_out_range-Keeps :
      (f : Range ℕ → Range ℕ)
      → Keeping Sorted f
      → Keeps {F = F}
          (on_amplifier (λ c. record c { crossfade_key_out_range = f c.crossfade_key_out_range }))
  crossfade_key_out_range-Keeps f k r h = (h.0, h.1, (h.2.0, k _ h.2.1, h.2.2, h.2.3, h.2.4, h.2.5))

  pub crossfade_vel_in_range-Keeps :
      (f : Range ℕ → Range ℕ)
      → Keeping Sorted f
      → Keeps {F = F}
          (on_amplifier (λ c. record c { crossfade_vel_in_range = f c.crossfade_vel_in_range }))
  crossfade_vel_in_range-Keeps f k r h = (h.0, h.1, (h.2.0, h.2.1, k _ h.2.2, h.2.3, h.2.4, h.2.5))

  pub crossfade_vel_out_range-Keeps :
      (f : Range ℕ → Range ℕ)
      → Keeping Sorted f
      → Keeps {F = F}
          (on_amplifier (λ c. record c { crossfade_vel_out_range = f c.crossfade_vel_out_range }))
  crossfade_vel_out_range-Keeps f k r h = (h.0, h.1, (h.2.0, h.2.1, h.2.2, k _ h.2.3, h.2.4, h.2.5))

  pub crossfade_cc_in_range-Keeps :
      (f : CcMap (Range ℕ) → CcMap (Range ℕ))
      → Keeping SortedMap f
      → Keeps {F = F}
          (on_amplifier (λ c. record c { crossfade_cc_in_range = f c.crossfade_cc_in_range }))
  crossfade_cc_in_range-Keeps f k r h = (h.0, h.1, (h.2.0, h.2.1, h.2.2, h.2.3, k _ h.2.4, h.2.5))

  pub crossfade_cc_out_range-Keeps :
      (f : CcMap (Range ℕ) → CcMap (Range ℕ))
      → Keeping SortedMap f
      → Keeps {F = F}
          (on_amplifier (λ c. record c { crossfade_cc_out_range = f c.crossfade_cc_out_range }))
  crossfade_cc_out_range-Keeps f k r h = (h.0, h.1, (h.2.0, h.2.1, h.2.2, h.2.3, h.2.4, k _ h.2.5))
