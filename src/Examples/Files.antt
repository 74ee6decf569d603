-- ===== src/Examples/Files.antt =====
-- The text of instruments: names of opcodes, their values, and notes.
use sfizz.Base.{ℕ, ◌+◌, ◌*◌, ◌-◌, refl, List, [], ◌∷◌, Option, none, some, if◌then◌else◌}
use sfizz.Base.Int.{ℤ, pos}
use sfizz.Float.{whole}
use sfizz.Range.{Range, nat_order}
use sfizz.StringView.{codes, is_digit}
use sfizz.CcMap
use sfizz.Region.Defaults.{initial, default_conditions, default_amplifier}
use sfizz.Region.{Region}
use sfizz.Region.Parse.Ordered.{IsOrdered}
use sfizz.Region.Parse.Ordered.Opcodes.{parse_all, parse_all-IsOrdered}
use sfizz.Opcode.{Numbers, Opcode}

-- Decimal digits, and nothing else.
abbrev decimal_from : ℕ → List ℕ → Option ℤ
decimal_from n [] = some (pos n)
decimal_from n (d ∷ ds) =
    let rest = decimal_from (10 * n + (d - 48)) ds in if is_digit d then rest else none

abbrev decimal : List ℕ → Option ℤ
decimal [] = none
decimal (d ∷ ds) = decimal_from 0 (d ∷ ds)

abbrev pub decimals : Numbers ℤ
decimals = record { simple_atoi32 = decimal; simple_atoi64 = decimal; simple_atof = decimal }

abbrev keys : Range ℕ
keys = record { start = 0; end = 127 }

abbrev seq_length : Opcode
seq_length = record { opcode = codes "seq_length"; value = codes "c-1"; parameter = none }

abbrev sequence : Range ℕ
sequence = record { start = 1; end = 100 }

abbrev long_sequence : Opcode
long_sequence = record seq_length { value = codes "300" }

-- Both bounds of the keys are moved past each other.
abbrev crossed : List Opcode
crossed =
    record { opcode = codes "hikey"; value = codes "40"; parameter = none }
    ∷ record { opcode = codes "lokey"; value = codes "60"; parameter = none }
    ∷ record { opcode = codes "locc"; value = codes "90"; parameter = some 7 }
    ∷ []

parse_all-IsOrdered_example : IsOrdered (parse_all decimals initial crossed)
unfolding initial default_conditions default_amplifier CcMap.empty
parse_all-IsOrdered_example = parse_all-IsOrdered decimals initial crossed (
  refl,
  (refl, refl, refl, refl, (refl, tt), refl, refl, (refl, tt)),
  (refl, refl, refl, refl, (refl, tt), (refl, tt)),
)

abbrev piano : Region ℤ
piano = initial
