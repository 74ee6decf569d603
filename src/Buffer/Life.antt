-- ===== src/Buffer/Life.antt =====
-- Buffer.h: what a buffer points to, from one size to the next.
use sfizz.Base.{
  ℕ, zero, suc, ◌+◌, ◌-◌, ◌*◌, ◌%◌, ◌^◌, ◌≤◌, ◌<◌, ◌≡◌, refl, sym, ap, subst, ◌∙◌, Bool, true,
  false, Option, none, some, arith, ◌==◌, if◌then◌else◌, Bool-cases, inl, inr,
}
use sfizz.Buffer.{
  Heap, Allocator, Buffer, set_live, free, reallocate, align, padded_size, padded_bytes, clear,
  placed, resize, destroy,
}

-- The addresses of a buffer that has a block, in order.
pub record IsPlaced (b : Buffer) (block start end aligned : ℕ) : Type 0 where
  pub padded : b.padded_data ≡ some block
  pub data_ : b.normal_data ≡ some start
  pub end_ : b.normal_end ≡ some end
  pub aligned_ : b.aligned_end ≡ some aligned
  pub starts_aligned : start % 16 ≡ 0
  pub within : block ≤ start
  pub size : end ≡ start + 4 * b.aligned_size
  pub past : end ≤ aligned
  pub ends_aligned : aligned % 16 ≡ 0
  pub room : aligned ≤ block + 4 * b.larger_size

padded_size_lem : (n : ℕ) → n + 31 < 2 ^ 62 → padded_size (suc n) ≡ suc n + 30
padded_size_lem n small = omega (arith, small)

padded_bytes_lem : (n : ℕ) → n + 31 < 2 ^ 62 → padded_bytes (suc n) ≡ 4 * padded_size (suc n)
padded_bytes_lem n small = omega (arith, small)

-- What `resize` to a size that is not null makes of the block that it gets: the data are aligned
-- to 16 bytes, and they and the aligned end behind them lie within the block,
-- where the size in bytes is below 2 ^ 64.
pub placed-IsPlaced :
    (n block : ℕ)
    → n + 31 < 2 ^ 62
    → let start = block + (16 - block % 16) % 16 in
      let end = start + 4 * suc n in
      IsPlaced
        (placed (suc n) block)
        block
        start
        end
        (if suc n % 4 == 0 then end else end + 4 * (16 - suc n % 4))
unfolding placed align
placed-IsPlaced n block small =
    let fits : padded_size (suc n) ≡ suc n + 30 = padded_size_lem n small in rw fits (ground arith)

-- A resize to a size that is not null, and whose padded size in bytes is below 2 ^ 64, leaves, where it
-- succeeds, a block with as many bytes as it asked for and, within it and in this order, the data, of
-- that size and aligned to 16 bytes, their end, and an aligned end.
pub resize-IsPlaced :
    (allocator : Allocator) (heap heap' : Heap) (b b' : Buffer) (n : ℕ)
    → n + 31 < 2 ^ 62
    → resize allocator heap b (suc n) ≡ some (true, heap', b')
    → (block : ℕ) × (start : ℕ) × (end : ℕ) × (aligned : ℕ) × IsPlaced b' block start end aligned
      × (b'.aligned_size ≡ suc n)
      × (padded_bytes (suc n) ≡ 4 * b'.larger_size)
unfolding resize placed
resize-IsPlaced allocator heap heap' b b' n small e =
    go (reallocate allocator heap b.padded_data (padded_bytes (suc n))) refl
  where
    go :
        (r : Option (Heap × Option ℕ))
        → reallocate allocator heap b.padded_data (padded_bytes (suc n)) ≡ r
        → (block : ℕ) × (start : ℕ) × (end : ℕ) × (aligned : ℕ) × IsPlaced b' block start end
            aligned
          × (b'.aligned_size ≡ suc n)
          × (padded_bytes (suc n) ≡ 4 * b'.larger_size)
    go none f = absurd (ground (arith, e, f))
    go (some (heap'', none)) f = absurd (ground (arith, e, f))
    go (some (heap'', some block)) f =
        let same : placed (suc n) block ≡ b' = ground (arith, e, f) in
        let start = block + (16 - block % 16) % 16 in
        let end = start + 4 * suc n in
        let aligned = if suc n % 4 == 0 then end else end + 4 * (16 - suc n % 4) in
        (
          block,
          start,
          end,
          aligned,
          subst (λ c. IsPlaced c block start end aligned) same (placed-IsPlaced n block small),
          ap (λ (c : Buffer). c.aligned_size) (sym same),
          padded_bytes_lem n small ∙ ap (λ (c : Buffer). 4 * c.larger_size) same,
        )

-- A size of zero, with and without the block.
resize_zero_lem :
    (allocator : Allocator) (heap : Heap) (b : Buffer) (block : ℕ)
    → b.padded_data ≡ some block
    → (heap block ≡ true
        → resize allocator heap b 0
          ≡ some (
            true,
            set_live heap block false,
            record b {
              larger_size = 0;
              aligned_size = 0;
              normal_data = none;
              normal_end = none;
              aligned_end = none;
            },
          ))
      × (heap block ≡ false → resize allocator heap b 0 ≡ none)
unfolding resize clear free
resize_zero_lem allocator heap b block e = (
  λ live.
      rw (resize, clear, e, free, live)
        (ap
          (λ (p : Option ℕ). some (
            true,
            set_live heap block false,
            record b {
              larger_size = 0;
              aligned_size = 0;
              normal_data = none;
              padded_data = p;
              normal_end = none;
              aligned_end = none;
            },
          ))
          e),
  λ dead. rw (resize, clear, e, free, dead) refl,
)

-- What is freed once is not freed again.
freed_again :
    (allocator : Allocator) (heap : Heap) (b : Buffer) (block n : ℕ)
    → b.padded_data ≡ some block
    → heap block ≡ false
    → (destroy heap b ≡ none) × (resize allocator heap b n ≡ none)
unfolding destroy resize clear reallocate free
freed_again allocator heap b block zero e dead =
    (rw (e, free, dead) refl, rw (resize, clear, e, free, dead) refl)
freed_again allocator heap b block (suc n) e dead =
    (rw (e, free, dead) refl, rw (resize, e, reallocate, dead) refl)

heap_of : Heap → Option (Bool × Heap × Buffer) → Heap
heap_of heap none = heap
heap_of heap (some (ok, heap', b)) = heap'

buffer_of : Buffer → Option (Bool × Heap × Buffer) → Buffer
buffer_of b none = b
buffer_of b (some (ok, heap, b')) = b'

-- Once a buffer with a block has taken the size zero, its destructor and every size that follows
-- free or reallocate the block again.
pub resize-zero :
    (allocator : Allocator) (heap heap' : Heap) (b b' : Buffer) (block n : ℕ)
    → b.padded_data ≡ some block
    → resize allocator heap b 0 ≡ some (true, heap', b')
    → (destroy heap' b' ≡ none) × (resize allocator heap' b' n ≡ none)
unfolding heap_of buffer_of
resize-zero allocator heap heap' b b' block n e r =
    let run = resize_zero_lem allocator heap b block e in
    elim (Bool-cases (heap block)) [
      | inr dead ↦ absurd (failed (sym (run.1 dead) ∙ r))
      | inl live ↦
          let same = sym (run.0 live) ∙ r in
          freed_again allocator heap' b' block n
            (ap (λ (c : Buffer). c.padded_data) (sym (ap (buffer_of b) same)) ∙ e)
            (ap (λ (h : Heap). h block) (sym (ap (heap_of heap) same)) ∙ at_self block)
    ]
  where
    failed : {A : Type 0} {a : A} → none ≡ some a → ⊥
    failed e = cc

    at_self : (p : ℕ) → (if p == p then false else heap p) ≡ false
    at_self p = ground arith
