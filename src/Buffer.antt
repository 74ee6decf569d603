-- ===== src/Buffer.antt =====
-- sfizz/Buffer.h: aligned memory, with the C library's `malloc`, `realloc` and `free`. Addresses are
-- in bytes and an element has four of them, as the floats and integers of the program do.
pub mod Owning
pub mod Life
use sfizz.Base.{
  ℕ, zero, suc, ◌+◌, ◌-◌, ◌*◌, ◌%◌, ◌^◌, Bool, true, false, List, [], ◌∷◌, Option, none, some, ◌==◌,
  leb, if◌then◌else◌,
}

-- The blocks that are allocated, by their addresses.
abbrev pub Heap : Type 0
Heap = ℕ → Bool

-- An address for a block of a size, where there is room.
abbrev pub Allocator : Type 0
Allocator = Heap → ℕ → Option ℕ

-- Pointers are `none` for null.
pub record Buffer : Type 0 where
  pub larger_size : ℕ
  pub aligned_size : ℕ
  pub normal_data : Option ℕ
  pub padded_data : Option ℕ
  pub normal_end : Option ℕ
  pub aligned_end : Option ℕ

unfoldable pub empty : Buffer
empty = record {
  larger_size = 0;
  aligned_size = 0;
  normal_data = none;
  padded_data = none;
  normal_end = none;
  aligned_end = none;
}

abbrev pub set_live : Heap → ℕ → Bool → Heap
set_live heap p live q = if p == q then live else heap q

-- `none` is undefined behaviour: to free a block that is not allocated.
unfoldable pub free : Heap → Option ℕ → Option Heap
free heap none = some heap
free heap (some p) = if heap p then some (set_live heap p false) else none

-- `malloc` for null, and `realloc` for a block, which may stay where it is: the new block, or null
-- and nothing changed.
unfoldable pub reallocate : Allocator → Heap → Option ℕ → ℕ → Option (Heap × Option ℕ)
reallocate allocator heap none size = elim (allocator heap size) [
  | none ↦ some (heap, none)
  | some p ↦ some (set_live heap p true, some p)
]
reallocate allocator heap (some old) size =
    if heap old
    then elim (allocator (set_live heap old false) size) [
      | none ↦ some (heap, none)
      | some p ↦ some (set_live (set_live heap old false) p true, some p)
    ]
    else none

-- `std::align(Alignment, size, pointer, space)`.
unfoldable pub align : ℕ → ℕ → ℕ → Option ℕ
align size pointer space =
    let padding = (16 - pointer % 16) % 16 in
    if leb (size + padding) space then some (pointer + padding) else none

abbrev pub offset : Option ℕ → ℕ → Option ℕ
offset none n = none
offset (some p) n = some (p + n)

-- The pointer to the padded block is kept.
unfoldable pub clear : Heap → Buffer → Option (Heap × Buffer)
unfolding free
clear heap b =
    let cleared = record b {
      larger_size = 0;
      aligned_size = 0;
      normal_data = none;
      normal_end = none;
      aligned_end = none;
    } in
    elim (free heap b.padded_data) [ none ↦ none | some heap' ↦ some (heap', cleared) ]

-- `newSize + 2 * AlignmentMask` and the bytes of so many elements, in `size_t`.
abbrev pub padded_size : ℕ → ℕ
padded_size size = (size + 2 * 15) % 2 ^ 64

abbrev pub padded_bytes : ℕ → ℕ
padded_bytes size = padded_size size * 4 % 2 ^ 64

-- The members once a block is there. Sizes are given to `std::align` in elements.
unfoldable pub placed : ℕ → ℕ → Buffer
unfolding align
placed size block =
    let space = padded_size size in
    let start = align size block space in
    let end = offset start (4 * size) in
    record {
      larger_size = space;
      aligned_size = size;
      padded_data = some block;
      normal_data = start;
      normal_end = end;
      aligned_end = if size % 4 == 0 then end else offset end (4 * (16 - size % 4));
    }

unfoldable pub resize : Allocator → Heap → Buffer → ℕ → Option (Bool × Heap × Buffer)
unfolding clear reallocate placed
resize allocator heap b zero = elim (clear heap b) [
  | none ↦ none
  | some (heap', b') ↦ some (true, heap', b')
]
resize allocator heap b (suc n) =
    elim (reallocate allocator heap b.padded_data (padded_bytes (suc n))) [
      | none ↦ none
      | some (heap', none) ↦ some (false, heap', b)
      | some (heap', some block) ↦ some (true, heap', placed (suc n) block)
    ]

unfoldable pub destroy : Heap → Buffer → Option Heap
unfolding free
destroy heap b = free heap b.padded_data

-- `Buffer(const Buffer&)`; what `memcpy` copies is not part of this state.
unfoldable pub copy_of : Allocator → Heap → Buffer → Option (Heap × Buffer)
unfolding resize
copy_of allocator heap other = elim (resize allocator heap empty other.aligned_size) [
  | none ↦ none
  | some (ok, heap', b) ↦ some (heap', b)
]

-- `operator=(const Buffer&)` of another buffer.
unfoldable pub assign_copy : Allocator → Heap → Buffer → Buffer → Option (Heap × Buffer)
unfolding resize
assign_copy allocator heap b other = elim (resize allocator heap b other.aligned_size) [
  | none ↦ none
  | some (ok, heap', b') ↦ some (heap', b')
]

-- `operator=(Buffer&&)` of another buffer, which it leaves empty.
unfoldable pub assign_move : Heap → Buffer → Buffer → Option (Heap × Buffer × Buffer)
unfolding free
assign_move heap b other = elim (free heap b.padded_data) [
  | none ↦ none
  | some heap' ↦ some (heap', other, empty)
]
