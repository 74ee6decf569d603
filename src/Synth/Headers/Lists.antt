-- ===== src/Synth/Headers/Lists.antt =====
-- Synth.cpp, `callback`: the headers of a file leave the activation lists and the voices.
use sfizz.Base.{
  ℕ, ◌+◌, ◌≡◌, refl, ◌∙◌, Bool, true, false, List, [], ◌∷◌, Option, none, some, All, ◌==◌,
  if◌then◌else◌, leb, Bool-cases, Option-cases, inl, inr,
}
use Prim.Native.String.{String}
use sfizz.Float.{FloatOps}
use sfizz.Opcode.{Numbers, Opcode, value_unsigned, set_optional}
use sfizz.Region.Defaults.{midi_range}
use sfizz.Region.Parse.Setters.{case_of}
use sfizz.StringView.{hash, codes}
use sfizz.Synth.{Synth}
use sfizz.Synth.Headers.{
  callback, handle_global_opcodes, handle_control_opcodes, build_region, control_parameter, set_cc,
  label_cc, default_path, global_opcode, control_opcode,
}

if-All :
    {T : Type 0} (P : T → Type 0) (t u : T) (b : Bool) (o : Option T)
    → P u
    → P (elim o [ none ↦ t | some v ↦ v ])
    → P (elim (if b then some u else o) [ none ↦ t | some v ↦ v ])
if-All P t u true o p q = p
if-All P t u false o p q = q

-- What a switch gives has a property that all its cases have.
pub case_of-All :
    {T : Type 0} (P : T → Type 0) (t : T) (cases : List (String × T)) (h : ℕ)
    → P t
    → All (λ c. P c.1) cases
    → P (elim (case_of cases h) [ none ↦ t | some u ↦ u ])
unfolding case_of
case_of-All P t [] h p all = p
case_of-All P t ((label, u) ∷ cases) h p (q, all) =
    if-All P t u (hash (codes label) == h) (case_of cases h) q (case_of-All P t cases h p all)

module _ {F : Type 0} where
  -- The same lists and voices, and the same permission to enter.
  pub record IsSameLists (s t : Synth F) : Type 0 where
    pub notes : t.note_activation_lists ≡ s.note_activation_lists
    pub ccs : t.cc_activation_lists ≡ s.cc_activation_lists
    pub voices : t.voices ≡ s.voices
    pub enters : t.can_enter_callback ≡ s.can_enter_callback

  pub same_lists : (s : Synth F) → IsSameLists s s
  same_lists s = record { notes = refl; ccs = refl; voices = refl; enters = refl }

  changes_lists :
      (member : Opcode) (s : Synth F) (change : ℕ → Synth F)
      → ((p : ℕ) → IsSameLists s (change p))
      → IsSameLists s (control_parameter member s change)
  unfolding control_parameter
  changes_lists member s change h = elim (Option-cases member.parameter) [
    | inl e ↦ rw (e, control_parameter) (same_lists s)
    | inr (p, e) ↦ elim (Bool-cases (leb p 127)) [
      | inl small ↦ rw (e, small, control_parameter) (h p)
      | inr large ↦ rw (e, large, control_parameter) (same_lists s)
    ]
  ]

  label_cc-lists : (member : Opcode) (s : Synth F) → IsSameLists s (label_cc member s)
  unfolding label_cc
  label_cc-lists member s =
      changes_lists member s _
        λ p. record { notes = refl; ccs = refl; voices = refl; enters = refl }

  default_path-lists :
      (exists : List ℕ → Bool) (member : Opcode) (s : Synth F)
      → IsSameLists s (default_path exists member s)
  unfolding default_path
  default_path-lists exists member s = elim (Bool-cases (exists member.value)) [
    | inl e ↦
        rw (e, default_path) (record { notes = refl; ccs = refl; voices = refl; enters = refl })
    | inr e ↦ rw (e, default_path) (same_lists s)
  ]

  pub then_same : (s t u : Synth F) → IsSameLists s t → IsSameLists t u → IsSameLists s u
  then_same s t u p q = record {
    notes = q.notes ∙ p.notes;
    ccs = q.ccs ∙ p.ccs;
    voices = q.voices ∙ p.voices;
    enters = q.enters ∙ p.enters;
  }

  module _ ⦃o : FloatOps F⦄ (numbers : Numbers F) where
    set_cc-lists : (member : Opcode) (s : Synth F) → IsSameLists s (set_cc numbers member s)
    unfolding set_cc
    set_cc-lists member s = changes_lists member s _ λ p.
        elim (Option-cases (value_unsigned numbers 8 member midi_range)) [
          | inl e ↦ rw e (same_lists s)
          | inr (v, e) ↦ rw e (record { notes = refl; ccs = refl; voices = refl; enters = refl })
        ]

    control_opcode-lists :
        (exists : List ℕ → Bool) (s : Synth F) (member : Opcode)
        → IsSameLists s (control_opcode numbers exists s member)
    unfolding control_opcode
    control_opcode-lists exists s member =
        let set_ = set_cc-lists member s in
        let label = label_cc-lists member s in
        let path = default_path-lists exists member s in
        case_of-All (λ t. IsSameLists s t) s
          (("Set_cc", set_cc numbers member s)
            ∷ ("set_cc", set_cc numbers member s)
            ∷ ("Label_cc", label_cc member s)
            ∷ ("label_cc", label_cc member s)
            ∷ ("Default_path", default_path exists member s)
            ∷ ("default_path", default_path exists member s)
            ∷ [])
          (hash member.opcode) (same_lists s) (set_, (set_, (label, (label, (path, (path, tt))))))

    control-lists :
        (exists : List ℕ → Bool) (s : Synth F) (members : List Opcode)
        → IsSameLists s (handle_control_opcodes numbers exists s members)
    unfolding handle_control_opcodes
    control-lists exists s [] = same_lists s
    control-lists exists s (member ∷ members) =
        let s' = control_opcode numbers exists s member in
        then_same s s' (handle_control_opcodes numbers exists s' members)
          (control_opcode-lists exists s member) (control-lists exists s' members)

    global_opcode-lists :
        (s : Synth F) (member : Opcode) → IsSameLists s (global_opcode numbers s member)
    unfolding global_opcode
    global_opcode-lists s member =
        let switch = set_optional (value_unsigned numbers 8 member midi_range) s.default_switch in
        case_of-All (λ t. IsSameLists s t) s
          (("sw_default", record s { default_switch = switch }) ∷ []) (hash member.opcode)
          (same_lists s) (record { notes = refl; ccs = refl; voices = refl; enters = refl }, tt)

    global-lists :
        (s : Synth F) (members : List Opcode)
        → IsSameLists s (handle_global_opcodes numbers s members)
    unfolding handle_global_opcodes
    global-lists s [] = same_lists s
    global-lists s (member ∷ members) =
        let s' = global_opcode numbers s member in
        then_same s s' (handle_global_opcodes numbers s' members) (global_opcode-lists s member)
          (global-lists s' members)

    pub callback-lists :
        (exists : List ℕ → Bool) (s : Synth F) (header : List ℕ) (members : List Opcode)
        → IsSameLists s (callback numbers exists s header members)
    unfolding callback build_region
    callback-lists exists s header members =
        let given = record s { global_opcodes = members } in
        let g = global-lists given members in
        let c = control-lists exists (record s { has_control = true }) members in
        let same : (t : Synth F)
            → t.note_activation_lists ≡ s.note_activation_lists
            → t.cc_activation_lists ≡ s.cc_activation_lists
            → t.voices ≡ s.voices
            → t.can_enter_callback ≡ s.can_enter_callback
            → IsSameLists s t =
          λ t n k v e. record { notes = n; ccs = k; voices = v; enters = e } in
        case_of-All (λ t. IsSameLists s t) s
          (("global", record (handle_global_opcodes numbers given members) { has_global = true })
            ∷ (
              "control",
              handle_control_opcodes numbers exists (record s { has_control = true }) members,
            )
            ∷ ("master", record s { master_opcodes = members; num_masters = s.num_masters + 1 })
            ∷ ("group", record s { group_opcodes = members; num_groups = s.num_groups + 1 })
            ∷ ("region", build_region numbers s members)
            ∷ ("curve", record s { num_curves = s.num_curves + 1 })
            ∷ ("effect", s)
            ∷ [])
          (hash header) (same_lists s)
          (
            same _ g.notes g.ccs g.voices g.enters,
            (
              same _ c.notes c.ccs c.voices c.enters,
              (
                same _ refl refl refl refl,
                (
                  same _ refl refl refl refl,
                  (same _ refl refl refl refl, (same _ refl refl refl refl, (same_lists s, tt))),
                ),
              ),
            ),
          )
