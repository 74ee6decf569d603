-- ===== src/Voice/Lifecycle.antt =====
-- Voice.cpp: the states of a voice, over any sequence of its operations.
use sfizz.Base.{ℕ, ◌≡◌, refl, Bool, ◌&&◌, true, false, List, [], ◌∷◌, arith}
use sfizz.Float.{FloatOps}
use sfizz.Region.{Region, AudioBuffer}
use sfizz.Region.Gain.{Draws}
use sfizz.Voice.Parts.{Voice, State, Trigger}
use sfizz.Voice.Events.{
  is_free, can_be_stolen, expect_file_data, set_file_data, garbage_collect, register_note_off,
  check_off_group, register_cc, reset,
}
use sfizz.Voice.Start.{start_voice}

pub data Operation (F : Type 0) : Type 0 where
  starts : Region F → List ℕ → Draws F → F → Trigger → Operation F
  note_offs : List ℕ → ℕ → ℕ → ℕ → Operation F
  controls : ℕ → ℕ → ℕ → Operation F
  group_offs : ℕ → ℕ → Operation F
  expects : ℕ → Operation F
  receives : AudioBuffer F → ℕ → Operation F
  resets : Operation F
  collects : Operation F

abbrev is_idle : State → Bool
is_idle State.idle = true
is_idle _ = false

module _ {F : Type 0} ⦃o : FloatOps F⦄ where
  pub operate : Voice F → Operation F → Voice F
  operate v (starts r ccs draws duration t) = start_voice v r ccs draws duration t
  operate v (note_offs ccs delay channel note) = register_note_off v ccs delay channel note
  operate v (controls delay controller value) = register_cc v delay controller value
  operate v (group_offs delay group) = (check_off_group v delay group).0
  operate v (expects ticket) = expect_file_data v ticket
  operate v (receives file ticket) = set_file_data v file ticket
  operate v resets = reset v
  operate v collects = garbage_collect v

  pub operate_all : Voice F → List (Operation F) → Voice F
  operate_all v [] = v
  operate_all v (op ∷ ops) = operate_all (operate v op) ops

  -- A voice is idle exactly if it has no region.
  abbrev pub IsConsistent : Voice F → Type 0
  IsConsistent v = is_idle v.state ≡ is_free v

  operate-IsConsistent :
      (v : Voice F) (op : Operation F) → IsConsistent v → IsConsistent (operate v op)
  unfolding operate is_free
  operate-IsConsistent v (starts r ccs draws duration t) h = unfold start_voice in refl
  operate-IsConsistent v (note_offs ccs delay channel note) h =
      unfold register_note_off in ground arith
  operate-IsConsistent v (controls delay controller value) h = unfold register_cc in ground arith
  operate-IsConsistent v (group_offs delay group) h = unfold check_off_group in ground arith
  operate-IsConsistent v (expects ticket) h = unfold expect_file_data in h
  operate-IsConsistent v (receives file ticket) h = unfold set_file_data in ground arith
  operate-IsConsistent v resets h = unfold reset in refl
  operate-IsConsistent v collects h = unfold garbage_collect in ground arith

  -- A voice that is idle exactly if it has no region stays so whatever it goes through: starts, note
  -- and controller events, off groups, files, resets and collections. So one that can be stolen is
  -- never a free one.
  pub operate_all-IsConsistent :
      (v : Voice F) (ops : List (Operation F))
      → IsConsistent v
      → IsConsistent (operate_all v ops)
        × (can_be_stolen (operate_all v ops) && is_free (operate_all v ops) ≡ false)
  unfolding operate_all
  operate_all-IsConsistent v [] h = (h, unfold can_be_stolen in ground arith)
  operate_all-IsConsistent v (op ∷ ops) h =
      operate_all-IsConsistent (operate v op) ops (operate-IsConsistent v op h)
