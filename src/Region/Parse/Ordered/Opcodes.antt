-- ===== src/Region/Parse/Ordered/Opcodes.antt =====
-- Region.cpp: `parseOpcode` keeps the integral ranges of a region in order.
use sfizz.Base.{
  ℕ, ◌≡◌, ◌⊎◌, arith, List, [], ◌∷◌, ◌++◌, Option, none, some, ◌==◌, Bool-cases, inl, inr,
}
use sfizz.Float.{FloatOps}
use sfizz.StringView.{hash, codes}
use sfizz.Opcode.{Numbers, Opcode}
use sfizz.Region.Parts.{Region}
use sfizz.Region.Parse.{all_cases, parse_opcode}
use sfizz.Region.Parse.Setters.{Case, case_of}
use sfizz.Region.Parse.Ordered.{Keeps, AllKeep, done, ◌▸◌, IsOrdered}
use sfizz.Region.Parse.Ordered.Sounds.{sound_cases-Keeps, lifecycle_cases-Keeps, pitch_cases-Keeps}
use sfizz.Region.Parse.Ordered.Keys.{key_cases-Keeps, keyswitch_cases-Keeps, internal_cases-Keeps}
use sfizz.Region.Parse.Ordered.Amplifiers.{
  amplifier_cases-Keeps, crossfade_cases-Keeps, eg_cases-Keeps,
}

append-AllKeep : {F : Type 0} {cs ds : List (Case F)} → AllKeep cs → AllKeep ds → AllKeep (cs ++ ds)
append-AllKeep done ls = ls
append-AllKeep (k ▸ ks) ls = k ▸ append-AllKeep ks ls

-- The case that a hash selects, if there is one.
abbrev applied : {F : Type 0} → Option (Region F → Region F) → Region F → Region F
applied none r = r
applied (some f) r = f r

case_of-Keeps :
    {F : Type 0} (cs : List (Case F)) (h : ℕ) → AllKeep cs → Keeps (applied (case_of cs h))
unfolding case_of
case_of-Keeps [] h ks r o = o
case_of-Keeps ((label, f) ∷ cs) h (k ▸ ks) r o = elim (Bool-cases (hash (codes label) == h)) [
  | inl e ↦ rw (e, case_of) (k r o)
  | inr e ↦ rw (e, case_of) (case_of-Keeps cs h ks r o)
]

module _ {F : Type 0} ⦃o : FloatOps F⦄ (numbers : Numbers F) where
  all_cases-Keeps : (op : Opcode) → AllKeep {F = F} (all_cases numbers op)
  unfolding all_cases
  all_cases-Keeps op =
      append-AllKeep
        (append-AllKeep
          (append-AllKeep
            (append-AllKeep
              (append-AllKeep
                (append-AllKeep
                  (append-AllKeep
                    (append-AllKeep (sound_cases-Keeps numbers op)
                      (lifecycle_cases-Keeps numbers op))
                    (key_cases-Keeps numbers op))
                  (keyswitch_cases-Keeps numbers op))
                (internal_cases-Keeps numbers op))
              (amplifier_cases-Keeps numbers op))
            (crossfade_cases-Keeps numbers op))
          (pitch_cases-Keeps numbers op))
        (eg_cases-Keeps numbers op)

  parse_opcode-applied :
      (r : Region F) (op : Opcode)
      → ((parse_opcode numbers r op).0 ≡ r)
        ⊎ ((parse_opcode numbers r op).0
            ≡ applied (case_of (all_cases numbers op) (hash op.opcode)) r)
  unfolding parse_opcode
  parse_opcode-applied r op = ground arith

  -- The region that opcodes are read into, one after the other.
  pub parse_all : Region F → List Opcode → Region F
  unfolding parse_opcode
  parse_all r [] = r
  parse_all r (op ∷ ops) = parse_all (parse_opcode numbers r op).0 ops

  parse_opcode-IsOrdered :
      (r : Region F) (op : Opcode) → IsOrdered r → IsOrdered (parse_opcode numbers r op).0
  parse_opcode-IsOrdered r op h = elim (parse_opcode-applied r op) [
    | inl e ↦ rw e h
    | inr e ↦ rw e (case_of-Keeps _ (hash op.opcode) (all_cases-Keeps op) r h)
  ]

  -- Whatever opcodes are read, and whatever their values, every range of MIDI values, of bends and
  -- of the loop has its bounds in order, as have those of each controller, if this is so at first.
  pub parse_all-IsOrdered :
      (r : Region F) (ops : List Opcode) → IsOrdered r → IsOrdered (parse_all r ops)
  unfolding parse_all
  parse_all-IsOrdered r [] h = h
  parse_all-IsOrdered r (op ∷ ops) h =
      parse_all-IsOrdered (parse_opcode numbers r op).0 ops (parse_opcode-IsOrdered r op h)
