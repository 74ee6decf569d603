-- ===== src/Opcode.antt =====
-- sfizz/Opcode.h and sfizz/Opcode.cpp: an opcode of an SFZ file and the reading of its value.
-- `absl::SimpleAtoi` and `absl::SimpleAtof` are parameters.
pub mod Reading
use sfizz.Base.{
  ℕ, suc, ◌+◌, ◌-◌, ◌%◌, ◌^◌, Bool, true, false, not, ◌&&◌, List, Option, none, some, leb,
  if◌then◌else◌, length, take, drop,
}
use sfizz.Base.Int.{ℤ, pos, negsuc, ltb_ℤ, pos_part, neg_part}
use sfizz.Float.{FloatOps}
use sfizz.Range.{
  Range, nat_order, int_order, float_order, clamp, set_start, set_end, contains_with_end,
}
use sfizz.StringView.{is_digit, find_last, trim, is_case}
use sfizz.NoteName.{read_note_value}

-- `SimpleAtoi` into `int` and `int64_t`, and `SimpleAtof` into `float`.
pub record Numbers (F : Type 0) : Type 0 where
  pub simple_atoi32 : List ℕ → Option ℤ
  pub simple_atoi64 : List ℕ → Option ℤ
  pub simple_atof : List ℕ → Option F

pub record Opcode : Type 0 where
  pub opcode : List ℕ
  pub value : List ℕ
  pub parameter : Option ℕ

-- `static_cast<uint8_t>` of an `int`.
unfoldable pub narrow8 : ℤ → ℕ
narrow8 (pos n) = n % 256
narrow8 (negsuc n) = 255 - n % 256

abbrev is_letter : ℕ → Bool
is_letter c = not (is_digit c)

-- Both tests against the limits of the type.
unfoldable pub saturate : ℤ → ℤ → ℤ → ℤ
saturate lowest highest n =
    let m = if ltb_ℤ highest n then highest else n in if ltb_ℤ m lowest then lowest else m

module _ {F : Type 0} (numbers : Numbers F) where
  open numbers use {simple_atoi32, simple_atoi64, simple_atof}

  -- The digits behind the last other character of the name become the parameter, if they are read
  -- as a number. The name and the value are trimmed.
  split_parameter : List ℕ → List ℕ → ℕ → Opcode
  split_parameter name value last = elim (simple_atoi32 (drop (suc last) name)) [
    | none ↦ record { opcode = trim name; value = trim value; parameter = none }
    | some n ↦ record {
      opcode = trim (take (suc last) name);
      value = trim value;
      parameter = some (narrow8 n);
    }
  ]

  -- The constructor.
  unfoldable pub make : List ℕ → List ℕ → Opcode
  unfolding split_parameter find_last
  make name value = elim (find_last is_letter name) [
    | none ↦ record { opcode = trim name; value = trim value; parameter = none }
    | some last ↦ split_parameter name value last
  ]

  module _ ⦃o : FloatOps F⦄ where
    open o use {to_int}

    -- An integer, or else a float that is cut to an integer.
    unfoldable pub read_int64 : List ℕ → Option ℤ
    read_int64 value = elim (simple_atoi64 value) [
      | some n ↦ some n
      | none ↦ elim (simple_atof value) [ none ↦ none | some x ↦ some (to_int x) ]
    ]

    -- `readOpcode` into `uint8_t` and `uint32_t`, by the bits of the type.
    unfoldable pub read_unsigned : ℕ → List ℕ → Range ℕ → Option ℕ
    unfolding read_int64 saturate
    read_unsigned bits value range = elim (read_int64 value) [
      | none ↦ none
      | some n ↦ some (clamp range (pos_part (saturate (pos 0) (pos (2 ^ bits - 1)) n)))
    ]

    -- `readOpcode` into `int`.
    unfoldable pub read_signed : List ℕ → Range ℤ → Option ℤ
    unfolding read_int64 saturate
    read_signed value range = elim (read_int64 value) [
      | none ↦ none
      | some n ↦ some (clamp range (saturate (negsuc (2 ^ 31 - 1)) (pos (2 ^ 31 - 1)) n))
    ]

    -- `readOpcode` into `float`.
    unfoldable pub read_float : List ℕ → Range F → Option F
    read_float value range = elim (simple_atof value) [
      | none ↦ none
      | some x ↦ some (clamp ⦃o = float_order o⦄ range x)
    ]

    -- `readOpcode`, or else `readNoteValue`, which no range bounds. The note is converted to the
    -- type of the target.
    note_or : {T : Type 0} → (ℕ → T) → Opcode → Option T → Option T
    note_or convert op (some v) = some v
    note_or convert op none = elim (read_note_value op.value) [
      | none ↦ none
      | some n ↦ some (convert n)
    ]

    -- The value that the `set…FromOpcode` functions assign.
    unfoldable pub value_unsigned : ℕ → Opcode → Range ℕ → Option ℕ
    unfolding note_or
    value_unsigned bits op range = note_or (λ n. n) op (read_unsigned bits op.value range)

    unfoldable pub value_signed : Opcode → Range ℤ → Option ℤ
    unfolding note_or
    value_signed op range = note_or pos op (read_signed op.value range)

    unfoldable pub value_float : Opcode → Range F → Option F
    unfolding note_or
    value_float op range = note_or (λ n. o.of_int (pos n)) op (read_float op.value range)

    -- `setCCPairFromOpcode`.
    unfoldable pub cc_pair : Opcode → Range F → Option (ℕ × F)
    unfolding read_float
    cc_pair op range = elim (read_float op.value range) [
      | none ↦ none
      | some v ↦ elim op.parameter [
        | none ↦ none
        | some p ↦ if leb p 127 then some (p, v) else none
      ]
    ]

unfoldable pub read_boolean : Opcode → Option Bool
read_boolean op =
    if is_case op.value "off" then some false else if is_case op.value "on" then some true else none

-- `setValueFromOpcode`, once the value is read: a value that is not read leaves the target.
abbrev pub set_value {ℓ} : {T : Type ℓ} → Option T → T → T
set_value none target = target
set_value (some v) target = v

-- `setValueFromOpcode` into an `absl::optional`.
abbrev pub set_optional {ℓ} : {T : Type ℓ} → Option T → Option T → Option T
set_optional none target = target
set_optional (some v) target = some v

abbrev pub set_range_start : Option ℕ → Range ℕ → Range ℕ
set_range_start none target = target
set_range_start (some v) target = set_start target v

abbrev pub set_range_end : Option ℕ → Range ℕ → Range ℕ
set_range_end none target = target
set_range_end (some v) target = set_end target v

abbrev pub set_signed_start : Option ℤ → Range ℤ → Range ℤ
set_signed_start none target = target
set_signed_start (some v) target = set_start target v

abbrev pub set_signed_end : Option ℤ → Range ℤ → Range ℤ
set_signed_end none target = target
set_signed_end (some v) target = set_end target v

module _ {F : Type 0} ⦃o : FloatOps F⦄ where
  abbrev pub set_float_start : Option F → Range F → Range F
  set_float_start none target = target
  set_float_start (some v) target = set_start ⦃o = float_order o⦄ target v

  abbrev pub set_float_end : Option F → Range F → Range F
  set_float_end none target = target
  set_float_end (some v) target = set_end ⦃o = float_order o⦄ target v
