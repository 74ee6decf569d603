-- ===== src/Base/Members.antt =====
-- The elements of a list, by the library's Mem, Perm and Nodup.
use mathlib.Core.Path.{◌≡◌}
use mathlib.Core.Logic.Or
use mathlib.Core.List.{List, ◌∷◌, Mem, eq-or-mem_of_mem-cons, Nodup, Nodup-cons}
pub use mathlib.Core.List.{
  Mem, Mem-prop, Nodup, mem-cons_self, mem-cons_of_mem, not-mem-nil, mem-map_of_mem,
}
unfoldable pub use mathlib.Core.List.{Perm}
pub use mathlib.Core.Bool.{Bool-set}

module _ {ℓ} {A : Type ℓ} where
  pub mem_cases {κ} :
      {C : Type κ} {a b : A} {l : List A}
      → IsProp C
      → Mem a (b ∷ l)
      → (a ≡ b → C)
      → (Mem a l → C)
      → C
  mem_cases p m here there = Or.elim p (eq-or-mem_of_mem-cons m) here there

  pub head-not_mem : {a : A} {l : List A} → Nodup (a ∷ l) → ¬ Mem a l
  head-not_mem n = (Nodup-cons.0 n).0

  pub tail-Nodup : {a : A} {l : List A} → Nodup (a ∷ l) → Nodup l
  tail-Nodup n = (Nodup-cons.0 n).1
