-- ===== src/Region/Parse/Sounds.antt =====
-- Region.cpp, `parseOpcode`: sound source and voice lifecycle, and pitch.
use sfizz.Base.{ℕ, List, [], ◌∷◌, Option, ◌==◌, if◌then◌else◌, map}
use sfizz.Base.Int.{ℤ, pos, ◌-ℤ◌}
use sfizz.Float.{FloatOps, of_nat}
use sfizz.StringView.{trim}
use sfizz.Opcode.{
  Numbers, Opcode, value_unsigned, value_signed, value_float, set_value, set_optional,
  set_range_start, set_range_end,
}
use sfizz.Region.Parts.{SfzLoopMode, SfzOffMode}
use sfizz.Region.Defaults.{midi_range, range32, whole_range}
use sfizz.Region.Parse.Setters.{Case, choose, on_sound, on_lifecycle, on_pitch, on_distributions}

-- `absl::StrReplaceAll` of backslashes by slashes.
abbrev slashes : List ℕ → List ℕ
slashes = map (λ c. if c == 92 then 47 else c)

module _ {F : Type 0} ⦃o : FloatOps F⦄ (numbers : Numbers F) (op : Opcode) where
  pub as32 : Option ℕ
  unfolding value_unsigned
  as32 = value_unsigned numbers 32 op range32

  seconds : Option F
  unfolding value_float
  seconds = value_float numbers op (whole_range (pos 0) (pos 100))

  new_loop_mode : SfzLoopMode → SfzLoopMode
  unfolding choose
  new_loop_mode =
      choose
        (("no_loop", SfzLoopMode.no_loop)
          ∷ ("one_shot", SfzLoopMode.one_shot)
          ∷ ("loop_continuous", SfzLoopMode.loop_continuous)
          ∷ ("loop_sustain", SfzLoopMode.loop_sustain)
          ∷ [])
        op

  unfoldable pub sound_cases : List (Case F)
  unfolding trim new_loop_mode as32 seconds
  sound_cases =
      ("sample", on_sound (λ s. record s { sample = slashes (trim op.value) }))
      ∷ ("delay", on_sound (λ s. record s { delay = set_value seconds s.delay }))
      ∷ (
        "delay_random",
        λ r.
            let d = set_value seconds r.sound.delay_random in
            on_distributions (λ ds. record ds { delay_distribution = (of_nat 0, d) })
              (on_sound (λ s. record s { delay_random = d }) r),
      )
      ∷ ("offset", on_sound (λ s. record s { offset = set_value as32 s.offset }))
      ∷ (
        "offset_random",
        λ r.
            let n = set_value as32 r.sound.offset_random in
            on_distributions (λ ds. record ds { offset_distribution = (0, n) })
              (on_sound (λ s. record s { offset_random = n }) r),
      )
      ∷ ("end", on_sound (λ s. record s { sample_end = set_value as32 s.sample_end }))
      ∷ ("count", on_sound (λ s. record s { sample_count = set_optional as32 s.sample_count }))
      ∷ ("loopmode", on_sound (λ s. record s { loop_mode = new_loop_mode s.loop_mode }))
      ∷ ("loop_mode", on_sound (λ s. record s { loop_mode = new_loop_mode s.loop_mode }))
      ∷ ("loopend", on_sound (λ s. record s { loop_range = set_range_end as32 s.loop_range }))
      ∷ ("loop_end", on_sound (λ s. record s { loop_range = set_range_end as32 s.loop_range }))
      ∷ ("loopstart", on_sound (λ s. record s { loop_range = set_range_start as32 s.loop_range }))
      ∷ ("loop_start", on_sound (λ s. record s { loop_range = set_range_start as32 s.loop_range }))
      ∷ []

  unfoldable pub lifecycle_cases : List (Case F)
  unfolding choose as32
  lifecycle_cases =
      ("group", on_lifecycle (λ l. record l { group = set_value as32 l.group }))
      ∷ ("offby", on_lifecycle (λ l. record l { off_by = set_optional as32 l.off_by }))
      ∷ ("off_by", on_lifecycle (λ l. record l { off_by = set_optional as32 l.off_by }))
      ∷ (
        "off_mode",
        on_lifecycle (λ l. record l {
          off_mode =
              choose (("fast", SfzOffMode.fast) ∷ ("normal", SfzOffMode.normal) ∷ []) op l.off_mode;
        }),
      )
      ∷ []

  abbrev int_within : ℤ → ℤ → Option ℤ
  int_within low high = value_signed numbers op (record { start = low; end = high })

  -- Several ranges of `int` are symmetric.
  abbrev int_up_to : ℕ → Option ℤ
  int_up_to n = int_within (pos 0 -ℤ pos n) (pos n)

  abbrev keycenter : Option ℕ
  keycenter = value_unsigned numbers 8 op midi_range

  unfoldable pub pitch_cases : List (Case F)
  unfolding value_unsigned value_signed
  pitch_cases =
      (
        "pitch_keycenter",
        on_pitch (λ p. record p { pitch_keycenter = set_value keycenter p.pitch_keycenter }),
      )
      ∷ (
        "pitch_keytrack",
        on_pitch (λ p. record p { pitch_keytrack = set_value (int_up_to 1200) p.pitch_keytrack }),
      )
      ∷ (
        "pitch_veltrack",
        on_pitch (λ p. record p { pitch_veltrack = set_value (int_up_to 9600) p.pitch_veltrack }),
      )
      ∷ (
        "pitch_random",
        λ r.
            let n = set_value (int_within (pos 0) (pos 9600)) r.pitch.pitch_random in
            on_distributions (λ ds. record ds { pitch_distribution = (pos 0 -ℤ n, n) })
              (on_pitch (λ p. record p { pitch_random = n }) r),
      )
      ∷ (
        "transpose",
        on_pitch (λ p. record p { transpose = set_value (int_up_to 127) p.transpose }),
      )
      ∷ ("tune", on_pitch (λ p. record p { tune = set_value (int_up_to 100) p.tune }))
      ∷ []
