-- ===== src/Synth/Headers.antt =====
-- Synth.cpp: `callback`, `buildRegion`, `handleGlobalOpcodes` and `handleControlOpcodes`, which the
-- parser calls with each header and its opcodes.
pub mod Lists
use sfizz.Base.{
  ℕ, ◌+◌, Bool, true, false, ◌&&◌, ◌||◌, List, [], ◌∷◌, ◌++◌, Option, none, some, leb,
  if◌then◌else◌, set,
}
use sfizz.Float.{FloatOps}
use sfizz.StringView.{hash, is_same}
use sfizz.Opcode.{Numbers, Opcode, value_unsigned, set_value, set_optional}
use sfizz.Region.{Region}
use sfizz.Region.Defaults.{initial, midi_range}
use sfizz.Region.Parse.{parse_opcode}
use sfizz.Region.Parse.Setters.{case_of}
use sfizz.Synth.{Synth}

-- `absl::c_find_if` over `unknownOpcodes`.
unfoldable pub is_unknown : List ℕ → List (List ℕ) → Bool
unfolding is_same
is_unknown name [] = false
is_unknown name (other ∷ names) = is_same other name || is_unknown name names

module _ {F : Type 0} where
  -- What a controller opcode changes, if its parameter is a controller.
  control_parameter : Opcode → Synth F → (ℕ → Synth F) → Synth F
  control_parameter member s change = elim member.parameter [
    | none ↦ s
    | some p ↦ if leb p 127 then change p else s
  ]

  label_cc : Opcode → Synth F → Synth F
  unfolding control_parameter
  label_cc member s =
      control_parameter member s λ p. record s { cc_names = s.cc_names ++ ((p, member.value) ∷ []) }

  -- `fs::exists` of the path of the value, a parameter.
  default_path : (List ℕ → Bool) → Opcode → Synth F → Synth F
  default_path exists member s =
      if exists member.value then record s { root_directory = member.value } else s

module _ {F : Type 0} ⦃o : FloatOps F⦄ (numbers : Numbers F) where
  -- `parseOpcodes`, with the region and the names so far.
  unfoldable pub parse_opcodes : Region F → List (List ℕ) → List Opcode → Region F × List (List ℕ)
  unfolding is_unknown parse_opcode
  parse_opcodes r unknown [] = (r, unknown)
  parse_opcodes r unknown (op ∷ opcodes) =
      let (r', known) = parse_opcode numbers r op in
      if is_unknown op.opcode unknown
      then parse_opcodes r unknown opcodes
      else parse_opcodes r' (if known then unknown else op.opcode ∷ unknown) opcodes

  unfoldable pub build_region : Synth F → List Opcode → Synth F
  unfolding parse_opcodes initial
  build_region s region_opcodes =
      let (r₁, u₁) = parse_opcodes initial s.unknown_opcodes s.global_opcodes in
      let (r₂, u₂) = parse_opcodes r₁ u₁ s.master_opcodes in
      let (r₃, u₃) = parse_opcodes r₂ u₂ s.group_opcodes in
      let (r₄, u₄) = parse_opcodes r₃ u₃ region_opcodes in
      record s { regions = s.regions ++ (r₄ ∷ []); unknown_opcodes = u₄ }

  -- What one opcode of the header does.
  global_opcode : Synth F → Opcode → Synth F
  unfolding case_of hash value_unsigned
  global_opcode s member =
      let switch = set_optional (value_unsigned numbers 8 member midi_range) s.default_switch in
      elim (case_of (("sw_default", record s { default_switch = switch }) ∷ [])
        (hash member.opcode)) [ none ↦ s | some t ↦ t ]

  unfoldable pub handle_global_opcodes : Synth F → List Opcode → Synth F
  unfolding global_opcode
  handle_global_opcodes s [] = s
  handle_global_opcodes s (member ∷ members) =
      handle_global_opcodes (global_opcode s member) members

  set_cc : Opcode → Synth F → Synth F
  unfolding control_parameter value_unsigned
  set_cc member s = control_parameter member s λ p.
      elim (value_unsigned numbers 8 member midi_range) [
        | none ↦ s
        | some v ↦ record s { midi_state = record s.midi_state { cc = set s.midi_state.cc p v } }
      ]

  -- The labels `Set_cc`, `Label_cc` and `Default_path` are cases of their own.
  control_opcode : (List ℕ → Bool) → Synth F → Opcode → Synth F
  unfolding case_of hash set_cc label_cc default_path
  control_opcode exists s member =
      let cases =
        ("Set_cc", set_cc member s)
        ∷ ("set_cc", set_cc member s)
        ∷ ("Label_cc", label_cc member s)
        ∷ ("label_cc", label_cc member s)
        ∷ ("Default_path", default_path exists member s)
        ∷ ("default_path", default_path exists member s)
        ∷ [] in
      elim (case_of cases (hash member.opcode)) [ none ↦ s | some t ↦ t ]

  unfoldable pub handle_control_opcodes : (List ℕ → Bool) → Synth F → List Opcode → Synth F
  unfolding control_opcode
  handle_control_opcodes exists s [] = s
  handle_control_opcodes exists s (member ∷ members) =
      handle_control_opcodes exists (control_opcode exists s member) members

  unfoldable pub callback : (List ℕ → Bool) → Synth F → List ℕ → List Opcode → Synth F
  unfolding case_of hash build_region handle_global_opcodes handle_control_opcodes
  callback exists s header members =
      let global = record (handle_global_opcodes (record s { global_opcodes = members }) members) {
        has_global = true;
      } in
      let cases =
        ("global", global)
        ∷ ("control", handle_control_opcodes exists (record s { has_control = true }) members)
        ∷ ("master", record s { master_opcodes = members; num_masters = s.num_masters + 1 })
        ∷ ("group", record s { group_opcodes = members; num_groups = s.num_groups + 1 })
        ∷ ("region", build_region s members)
        ∷ ("curve", record s { num_curves = s.num_curves + 1 })
        ∷ ("effect", s)
        ∷ [] in
      elim (case_of cases (hash header)) [ none ↦ s | some t ↦ t ]
