-- ===== src/CcMap.antt =====
-- sfizz/CCMap.h: a `std::map<int, ValueType>` with a default. The map is the list of its pairs in
-- the order of iteration, by rising key.
pub mod Lookup
use sfizz.Base.{ℕ, Bool, List, [], ◌∷◌, Option, none, some, ltb, ◌==◌, if◌then◌else◌, is_some}

pub record CcMap (V : Type 0) : Type 0 where
  pub default_value : V
  pub container : List (ℕ × V)

module _ {V : Type 0} where
  unfoldable pub empty : V → CcMap V
  empty d = record { default_value = d; container = [] }

  -- `std::map::find`.
  pub find : ℕ → List (ℕ × V) → Option V
  find k [] = none
  find k ((j, v) ∷ m) = if j == k then some v else find k m

  -- `std::map::emplace`, which leaves an entry that is there.
  unfoldable pub emplace : ℕ → V → List (ℕ × V) → List (ℕ × V)
  emplace k v [] = (k, v) ∷ []
  emplace k v ((j, w) ∷ m) =
      if ltb k j
      then (k, v) ∷ (j, w) ∷ m
      else if ltb j k
      then (j, w) ∷ emplace k v m
      else (j, w) ∷ m

  -- An assignment through the reference that `operator[]` returns.
  unfoldable pub write : ℕ → (V → V) → List (ℕ × V) → List (ℕ × V)
  write k f [] = []
  write k f ((j, w) ∷ m) = if j == k then (j, f w) ∷ m else (j, w) ∷ write k f m

  unfoldable pub get_with_default : CcMap V → ℕ → V
  unfolding find
  get_with_default m k = elim (find k m.container) [ none ↦ m.default_value | some v ↦ v ]

  unfoldable pub contains : CcMap V → ℕ → Bool
  unfolding find
  contains m k = is_some (find k m.container)

  -- `none` is the exception of `std::map::at`.
  unfoldable pub at : CcMap V → ℕ → Option V
  unfolding find
  at m k = find k m.container

  -- `operator[]` makes the missing entry from the default; `f` is what the caller does to it.
  unfoldable pub edit : CcMap V → ℕ → (V → V) → CcMap V
  unfolding write emplace contains
  edit m k f = record m {
    container =
        write k f (if contains m k then m.container else emplace k m.default_value m.container);
  }
