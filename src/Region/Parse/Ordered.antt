-- ===== src/Region/Parse/Ordered.antt =====
-- Region.cpp, `parseOpcode`: the integral ranges of a region, and the setters that keep their bounds
-- in order.
pub mod Fields
pub mod Sounds
pub mod Keys
pub mod Amplifiers
pub mod Opcodes
use sfizz.Base.{
  ℕ, ◌≡◌, refl, true, false, List, [], ◌∷◌, Option, none, some, arith, All, ◌==◌, ltb,
  if◌then◌else◌, Bool-cases, Option-cases, inl, inr,
}
use sfizz.Base.Int.{ℤ}
use sfizz.Float.{FloatOps}
use sfizz.Range.{Range, nat_order, int_order, set_start, set_end}
use sfizz.Range.Bounds.{IsValid, ℕ-IsWeakOrder, ℤ-IsWeakOrder, make-set-IsValid}
use sfizz.CcMap
use sfizz.CcMap.{CcMap}
use sfizz.Opcode.{Opcode, set_range_start, set_range_end, set_signed_start, set_signed_end}
use sfizz.Region.Parts.{Region, Conditions, Amplifier}
use sfizz.Region.Parse.Setters.{Case, at_parameter}

-- The bounds of a range stand in order.
abbrev pub Sorted : Range ℕ → Type 0
Sorted = IsValid ℕ-IsWeakOrder

abbrev pub SortedSigned : Range ℤ → Type 0
SortedSigned = IsValid ℤ-IsWeakOrder

-- Every range of a map, and its default.
abbrev SortedPair : ℕ × Range ℕ → Type 0
SortedPair p = Sorted p.1

abbrev pub SortedMap : CcMap (Range ℕ) → Type 0
SortedMap m = Sorted m.default_value × All SortedPair m.container

-- The ranges of the conditions, in the order of the fields.
abbrev pub SortedConditions : {F : Type 0} → Conditions F → Type 0
SortedConditions c =
    Sorted c.key_range
    × Sorted c.velocity_range
    × Sorted c.channel_range
    × SortedSigned c.bend_range
    × SortedMap c.cc_conditions
    × Sorted c.keyswitch_range
    × Sorted c.aftertouch_range
    × SortedMap c.cc_triggers

abbrev pub SortedAmplifier : {F : Type 0} → Amplifier F → Type 0
SortedAmplifier a =
    Sorted a.crossfade_key_in_range
    × Sorted a.crossfade_key_out_range
    × Sorted a.crossfade_vel_in_range
    × Sorted a.crossfade_vel_out_range
    × SortedMap a.crossfade_cc_in_range
    × SortedMap a.crossfade_cc_out_range

-- All integral ranges of a region.
abbrev pub IsOrdered : {F : Type 0} → Region F → Type 0
IsOrdered r =
    Sorted r.sound.loop_range × SortedConditions r.conditions × SortedAmplifier r.amplifier

abbrev pub Keeps : {F : Type 0} → (Region F → Region F) → Type 0
Keeps {F = F} f = (r : Region F) → IsOrdered r → IsOrdered (f r)

infixr 5 ◌▸◌
pub data AllKeep {F : Type 0} : List (Case F) → Type 0 where
  done : AllKeep []
  ◌▸◌ : {c : Case F} {cs : List (Case F)} → Keeps c.1 → AllKeep cs → AllKeep (c ∷ cs)

pub set_range_start-Sorted : (v : Option ℕ) (r : Range ℕ) → Sorted r → Sorted (set_range_start v r)
set_range_start-Sorted none r h = h
set_range_start-Sorted (some v) r h = (make-set-IsValid ℕ-IsWeakOrder r v v).1

pub set_range_end-Sorted : (v : Option ℕ) (r : Range ℕ) → Sorted r → Sorted (set_range_end v r)
set_range_end-Sorted none r h = h
set_range_end-Sorted (some v) r h = (make-set-IsValid ℕ-IsWeakOrder r v v).2

pub set_signed_start-Sorted :
    (v : Option ℤ) (r : Range ℤ) → SortedSigned r → SortedSigned (set_signed_start v r)
set_signed_start-Sorted none r h = h
set_signed_start-Sorted (some v) r h = (make-set-IsValid ℤ-IsWeakOrder r v v).1

pub set_signed_end-Sorted :
    (v : Option ℤ) (r : Range ℤ) → SortedSigned r → SortedSigned (set_signed_end v r)
set_signed_end-Sorted none r h = h
set_signed_end-Sorted (some v) r h = (make-set-IsValid ℤ-IsWeakOrder r v v).2

-- A change that keeps ranges in order.
abbrev Keeping : (Range ℕ → Range ℕ) → Type 0
Keeping f = (r : Range ℕ) → Sorted r → Sorted (f r)

write-Sorted :
    (cc : ℕ) (f : Range ℕ → Range ℕ) (m : List (ℕ × Range ℕ))
    → Keeping f
    → All SortedPair m
    → All SortedPair (CcMap.write cc f m)
unfolding CcMap.write
write-Sorted cc f [] k a = tt
write-Sorted cc f ((j, r) ∷ m) k a = ground (arith, k r a.0, write-Sorted cc f m k a.1)

emplace-Sorted :
    (cc : ℕ) (r : Range ℕ) (m : List (ℕ × Range ℕ))
    → Sorted r
    → All SortedPair m
    → All SortedPair (CcMap.emplace cc r m)
unfolding CcMap.emplace
emplace-Sorted cc r [] h a = (h, tt)
emplace-Sorted cc r ((j, s) ∷ m) h a = ground (arith, emplace-Sorted cc r m h a.1)

edit-Sorted :
    (m : CcMap (Range ℕ)) (cc : ℕ) (f : Range ℕ → Range ℕ)
    → Keeping f
    → SortedMap m
    → SortedMap (CcMap.edit m cc f)
unfolding CcMap.edit
edit-Sorted m cc f k (d, a) = elim (Bool-cases (CcMap.contains m cc)) [
  | inl e ↦ rw (e, CcMap.edit) (d, write-Sorted cc f m.container k a)
  | inr e ↦
      rw (e, CcMap.edit)
        (d, write-Sorted cc f _ k (emplace-Sorted cc m.default_value m.container d a))
]

pub at_parameter-Sorted :
    (op : Opcode) (f : Range ℕ → Range ℕ) (m : CcMap (Range ℕ))
    → ((r : Range ℕ) → Sorted r → Sorted (f r))
    → SortedMap m
    → SortedMap (at_parameter op f m)
unfolding at_parameter
at_parameter-Sorted op f m k h = elim (Option-cases op.parameter) [
  | inl e ↦ rw (e, at_parameter) h
  | inr (i, e) ↦ rw (e, at_parameter) (edit-Sorted m i f k h)
]
