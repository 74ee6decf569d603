-- ===== src/Buffer/Owning.antt =====
-- Buffer.h: the block of a buffer in the heap, through any sizes.
use sfizz.Base.{
  ℕ, zero, suc, ◌<◌, ◌≡◌, refl, sym, ◌∙◌, ◌||◌, Bool, true, false, List, [], ◌∷◌, Option, none,
  some, All, arith, ◌==◌,
}
use sfizz.Buffer.{
  Heap, Allocator, Buffer, set_live, free, reallocate, padded_bytes, placed, resize, destroy, empty,
}

abbrev holds : Option ℕ → ℕ → Bool
holds none q = false
holds (some p) q = p == q

abbrev IsNew : Heap → Option ℕ → Type 0
IsNew before none = Unit {0}
IsNew before (some p) = before p ≡ false

-- The heap is the one before the buffer, with the buffer's block.
abbrev pub Owns : Heap → Heap → Option ℕ → Type 0
Owns before heap block = IsNew before block × ((q : ℕ) → heap q ≡ (holds block q || before q))

-- The C library gives blocks that are not in use.
abbrev pub GivesNew : Allocator → Type 0
GivesNew allocator = (heap : Heap) (size p : ℕ) → allocator heap size ≡ some p → heap p ≡ false

abbrev Reallocated : Heap → Option (Heap × Option ℕ) → Option ℕ → Type 0
Reallocated before none old = true ≡ false
Reallocated before (some (heap, none)) old = Owns before heap old
Reallocated before (some (heap, some p)) old = Owns before heap (some p)

reallocate-Owns :
    (allocator : Allocator) (before heap : Heap) (old : Option ℕ) (size : ℕ)
    → GivesNew allocator
    → Owns before heap old
    → Reallocated before (reallocate allocator heap old size) old
unfolding reallocate
reallocate-Owns allocator before heap none size new (n, same) = go (allocator heap size) refl
  where
    go :
        (r : Option ℕ)
        → allocator heap size ≡ r
        → Reallocated before (reallocate allocator heap none size) none
    go none e = rw (e, reallocate) (n, same)
    go (some p) e =
        rw (e, reallocate) (sym (same p) ∙ new heap size p e, λ q. ground (arith, same q))
reallocate-Owns allocator before heap (some old) size new (n, same) =
    go (allocator (set_live heap old false) size) refl
  where
    live : heap old ≡ true
    live = ground (arith, same old)

    go :
        (r : Option ℕ)
        → allocator (set_live heap old false) size ≡ r
        → Reallocated before (reallocate allocator heap (some old) size) (some old)
    go none e = rw (live, e, reallocate) (n, same)
    go (some p) e =
        rw (live, e, reallocate)
          (
            ground (arith, same p, new (set_live heap old false) size p e, n),
            λ q. ground (arith, same q, n, new (set_live heap old false) size p e),
          )

pub resize_all : Allocator → Heap → Buffer → List ℕ → Option (Heap × Buffer)
resize_all allocator heap b [] = some (heap, b)
resize_all allocator heap b (n ∷ sizes) = elim (resize allocator heap b n) [
  | none ↦ none
  | some (ok, heap', b') ↦ resize_all allocator heap' b' sizes
]

-- A buffer is made, takes sizes one after the other, and is destroyed.
unfoldable pub live_through : Allocator → Heap → List ℕ → Option Heap
unfolding resize_all
live_through allocator heap sizes = elim (resize_all allocator heap empty sizes) [
  | none ↦ none
  | some (heap', b) ↦ destroy heap' b
]

abbrev pub Kept : Heap → Option (Heap × Buffer) → Type 0
Kept before none = true ≡ false
Kept before (some (heap, b)) = Owns before heap b.padded_data

abbrev Resized : Heap → Option (Bool × Heap × Buffer) → Type 0
Resized before none = true ≡ false
Resized before (some (ok, heap, b)) = Owns before heap b.padded_data

resize-Resized :
    (allocator : Allocator) (before heap : Heap) (b : Buffer) (n : ℕ)
    → GivesNew allocator
    → Owns before heap b.padded_data
    → Resized before (resize allocator heap b (suc n))
unfolding resize placed
resize-Resized allocator before heap b n new owns =
    go (reallocate allocator heap b.padded_data (padded_bytes (suc n))) refl
      (reallocate-Owns allocator before heap b.padded_data (padded_bytes (suc n)) new owns)
  where
    go :
        (r : Option (Heap × Option ℕ))
        → reallocate allocator heap b.padded_data (padded_bytes (suc n)) ≡ r
        → Reallocated before r b.padded_data
        → Resized before (resize allocator heap b (suc n))
    go none e h = absurd (cc)
    go (some (heap', none)) e h = rw (resize, e) h
    go (some (heap', some p)) e h = rw (resize, e) h

pub resize_all-Kept :
    (allocator : Allocator) (before heap : Heap) (b : Buffer) (sizes : List ℕ)
    → GivesNew allocator
    → All (λ n. 0 < n) sizes
    → Owns before heap b.padded_data
    → Kept before (resize_all allocator heap b sizes)
unfolding resize_all
resize_all-Kept allocator before heap b [] new pos owns = owns
resize_all-Kept allocator before heap b (zero ∷ sizes) new (p, pos) owns = absurd (omega (arith, p))
resize_all-Kept allocator before heap b (suc n ∷ sizes) new (p, pos) owns =
    go (resize allocator heap b (suc n)) refl (resize-Resized allocator before heap b n new owns)
      (λ heap' b' owns'. resize_all-Kept allocator before heap' b' sizes new pos owns')
  where
    go :
        (r : Option (Bool × Heap × Buffer))
        → resize allocator heap b (suc n) ≡ r
        → Resized before r
        → ((heap' : Heap) (b' : Buffer)
            → Owns before heap' b'.padded_data
            → Kept before (resize_all allocator heap' b' sizes))
        → Kept before (resize_all allocator heap b (suc n ∷ sizes))
    go none e h rest = absurd (cc)
    go (some (ok, heap', b')) e h rest = rw (resize_all, e) (rest heap' b' h)

pub free-Owns :
    (before heap : Heap) (block : Option ℕ)
    → Owns before heap block
    → (end : Heap) × (free heap block ≡ some end) × ((q : ℕ) → end q ≡ before q)
unfolding free
free-Owns before heap none (n, same) = (heap, refl, same)
free-Owns before heap (some p) (n, same) =
    let live : heap p ≡ true = ground (arith, same p) in
    (set_live heap p false, rw live refl, λ q. ground (arith, same q, n))
