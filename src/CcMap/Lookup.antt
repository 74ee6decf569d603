-- ===== src/CcMap/Lookup.antt =====
-- CCMap.h: what a lookup finds after an edit, and the order of the keys.
use sfizz.Base.{
  ℕ, suc, ◌<◌, ◌≡◌, refl, ◌||◌, List, [], ◌∷◌, Option, none, some, arith, ◌==◌, if◌then◌else◌,
  Bool-cases, Option-cases, inl, inr,
}
use sfizz.CcMap.{CcMap, find, emplace, write, get_with_default, contains, edit}

abbrev on_some : {V : Type 0} → (V → V) → Option V → Option V
on_some f none = none
on_some f (some v) = some (f v)

module _ {V : Type 0} where
  find-emplace :
      (k j : ℕ) (v : V) (m : List (ℕ × V))
      → find k m ≡ none
      → find j (emplace k v m) ≡ (if k == j then some v else find j m)
  unfolding find emplace
  find-emplace k j v [] h = refl
  find-emplace k j v ((i, w) ∷ m) h = ground (arith, find-emplace k j v m)

  find-write :
      (k j : ℕ) (f : V → V) (m : List (ℕ × V))
      → find j (write k f m) ≡ (if k == j then on_some f (find j m) else find j m)
  unfolding find write
  find-write k j f [] = ground arith
  find-write k j f ((i, w) ∷ m) = ground (arith, find-write k j f m)

  find-edit :
      (m : CcMap V) (k j : ℕ) (f : V → V)
      → find j (edit m k f).container
        ≡ (if k == j then some (f (get_with_default m k)) else find j m.container)
  unfolding edit get_with_default
  find-edit m k j f = elim (Option-cases (find k m.container)) [
    | inl e ↦
        rw (e, edit, get_with_default)
          (rw find-write (ground (arith, find-emplace k j m.default_value m.container e)))
    | inr (v, e) ↦ rw (e, edit, get_with_default) (rw find-write (ground (arith, e)))
  ]

  default_value-edit :
      (m : CcMap V) (k : ℕ) (f : V → V) → (edit m k f).default_value ≡ m.default_value
  unfolding edit
  default_value-edit m k f = refl

  -- An edit at a key changes what the map gives there, from the default if the key is new, and
  -- nothing at the other keys. The key is then present, and no other key appears or vanishes.
  pub get_with_default-edit :
      (m : CcMap V) (k j : ℕ) (f : V → V)
      → (get_with_default (edit m k f) j
          ≡ (if k == j then f (get_with_default m k) else get_with_default m j))
        × (contains (edit m k f) j ≡ (k == j || contains m j))
  unfolding get_with_default contains
  get_with_default-edit m k j f = (
    ground (arith, find-edit m k j f, default_value-edit m k f),
    ground (arith, find-edit m k j f),
  )

  -- The keys rise along the list, from above `low`.
  abbrev pub Rising : ℕ → List (ℕ × V) → Type 0
  Rising low [] = Unit {0}
  Rising low ((j, v) ∷ m) = (low < suc j) × Rising (suc j) m

  Rising-emplace :
      (low k : ℕ) (v : V) (m : List (ℕ × V))
      → low < suc k
      → Rising low m
      → Rising low (emplace k v m)
  unfolding emplace
  Rising-emplace low k v [] h r = (h, tt)
  Rising-emplace low k v ((j, w) ∷ m) h r = ground (arith, Rising-emplace (suc j) k v m)

  Rising-write :
      (low k : ℕ) (f : V → V) (m : List (ℕ × V)) → Rising low m → Rising low (write k f m)
  unfolding write
  Rising-write low k f [] r = tt
  Rising-write low k f ((j, w) ∷ m) r = ground (arith, Rising-write (suc j) k f m r.1)

  -- Edits keep the keys of the map distinct and in rising order, in which the source iterates.
  pub Rising-edit :
      (m : CcMap V) (k : ℕ) (f : V → V) → Rising 0 m.container → Rising 0 (edit m k f).container
  unfolding edit
  Rising-edit m k f r = elim (Bool-cases (contains m k)) [
    | inl e ↦ rw (e, edit) (Rising-write 0 k f m.container r)
    | inr e ↦
        rw (e, edit)
          (Rising-write 0 k f _ (Rising-emplace 0 k m.default_value m.container (omega arith) r))
  ]
