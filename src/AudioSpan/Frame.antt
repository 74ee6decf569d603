-- ===== src/AudioSpan/Frame.antt =====
-- AudioSpan.h: which places of the memory the operations on a view change.
use sfizz.Base.{
  ℕ, zero, suc, ◌+◌, ◌≡◌, ◌≤◌, refl, ap, ◌∙◌, Bool, true, false, ◌&&◌, ◌||◌, List, [], ◌∷◌, ltb,
  leb, ◌==◌, if◌then◌else◌, length, map, arith, Bool-cases, inl, inr,
}
use sfizz.Float.{FloatOps}
use sfizz.Simd
use sfizz.Simd.Shape.{length-fill, length-apply}
use sfizz.AudioSpan.{
  AudioSpan, Memory, read, write, on_channels, from_channels, fill, copy, apply_gain,
  apply_gain_span, add, subspan,
}

-- A place in one of the channels.
pub covers : List ℕ → ℕ → ℕ → Bool
covers [] n at = false
covers (start ∷ starts) n at = (leb start at && ltb at (start + n)) || covers starts n at

module _ {F : Type 0} where
  length-read : (memory : Memory F) (start n : ℕ) → length (read memory start n) ≡ n
  length-read memory start zero = refl
  length-read memory start (suc n) = ap suc (length-read memory (suc start) n)

  write-outside :
      (memory : Memory F) (start at : ℕ) (values : List F)
      → (leb start at && ltb at (start + length values)) ≡ false
      → write memory start values at ≡ memory at
  write-outside memory start at [] out = refl
  write-outside memory start at (x ∷ values) out =
      write-outside (λ p. if start == p then x else memory p) (suc start) at values
        (ground (arith, out))
      ∙ ground (arith, out)

  on_channels-outside :
      (f : List F → List F) (starts : List ℕ) (n at : ℕ) (memory : Memory F)
      → ((span : List F) → length (f span) ≡ length span)
      → covers starts n at ≡ false
      → on_channels f starts n memory at ≡ memory at
  unfolding covers
  on_channels-outside f [] n at memory keeps out = refl
  on_channels-outside f (start ∷ starts) n at memory keeps out =
      let values = f (read memory start n) in
      let size : length values ≡ n = keeps (read memory start n) ∙ length-read memory start n in
      on_channels-outside f starts n at (write memory start values) keeps (ground (arith, out))
      ∙ write-outside memory start at values (rw size (ground (arith, out)))

  from_channels-outside :
      (f : List F → List F → List F) (others : List ℕ) (k : ℕ) (starts : List ℕ) (n at : ℕ)
      (memory : Memory F)
      → ((input span : List F) → length (f input span) ≡ length span)
      → covers starts n at ≡ false
      → from_channels f others k starts n memory at ≡ memory at
  unfolding covers
  from_channels-outside f [] k starts n at memory keeps out = refl
  from_channels-outside f (other ∷ others) k [] n at memory keeps out = refl
  from_channels-outside f (other ∷ others) k (start ∷ starts) n at memory keeps out =
      let values = f (read memory other k) (read memory start n) in
      let size : length values ≡ n =
        keeps (read memory other k) (read memory start n) ∙ length-read memory start n in
      from_channels-outside f others k starts n at (write memory start values) keeps
        (ground (arith, out))
      ∙ write-outside memory start at values (rw size (ground (arith, out)))

length-copy : {F : Type 0} (input out : List F) → length (Simd.copy input out) ≡ length out
unfolding Simd.copy
length-copy [] out = refl
length-copy (x ∷ input) [] = refl
length-copy (x ∷ input) (y ∷ out) = ap suc (length-copy input out)

length-gains :
    {F : Type 0} ⦃o : FloatOps F⦄ (gain input out : List F)
    → length (Simd.apply_gain_span gain input out) ≡ length out
unfolding Simd.apply_gain_span
length-gains [] input out = refl
length-gains (g ∷ gain) [] out = refl
length-gains (g ∷ gain) (x ∷ input) [] = refl
length-gains (g ∷ gain) (x ∷ input) (y ∷ out) = ap suc (length-gains gain input out)

covers-shift :
    (spans : List ℕ) (offset n frames at : ℕ)
    → offset + n ≤ frames
    → covers spans frames at ≡ false
    → covers (map (λ start. start + offset) spans) n at ≡ false
unfolding covers
covers-shift [] offset n frames at le out = refl
covers-shift (start ∷ spans) offset n frames at le out =
    ground (arith, le, out, covers-shift spans offset n frames at le)

module _ {F : Type 0} ⦃o : FloatOps F⦄ where
  -- No operation on a view changes a place outside its channels.
  outside :
      (a other : AudioSpan) (value : F) (gain : List F) (memory : Memory F) (at : ℕ)
      → covers a.spans a.num_frames at ≡ false
      → (fill a value memory at ≡ memory at)
        × (apply_gain a value memory at ≡ memory at)
        × (apply_gain_span a gain memory at ≡ memory at)
        × (add a other memory at ≡ memory at)
        × (copy a other memory at ≡ memory at)
  unfolding fill apply_gain apply_gain_span add copy Simd.add_span Simd.apply_gain
  outside a other value gain memory at out = (
    on_channels-outside _ a.spans a.num_frames at memory (λ span. length-fill span value) out,
    on_channels-outside _ a.spans a.num_frames at memory
        (λ span. length-apply (λ x y. o.mul value x) span span) out,
    on_channels-outside _ a.spans a.num_frames at memory (λ span. length-gains gain span span) out,
    elim (Bool-cases (length other.spans == length a.spans)) [
      | inl e ↦
          rw (e, add)
            (from_channels-outside Simd.add_span other.spans other.num_frames a.spans a.num_frames
              at memory (λ x y. length-apply _ x y) out)
      | inr e ↦ rw (e, add) refl
    ],
    elim (Bool-cases (length other.spans == length a.spans)) [
      | inl e ↦
          rw (e, copy)
            (from_channels-outside Simd.copy other.spans other.num_frames a.spans a.num_frames at
              memory (λ x y. length-copy x y) out)
      | inr e ↦ rw (e, copy) refl
    ],
  )

  -- A part of a view, within its frames, lies in its channels. What is done to the part, filling,
  -- gains, sums and copies, leaves every place outside the part as it was, those of the view too.
  pub subspan-outside :
      (a other : AudioSpan) (offset n : ℕ) (value : F) (gain : List F) (memory : Memory F) (at : ℕ)
      → offset + n ≤ a.num_frames
      → let part = subspan a offset n in
        (covers part.spans n at ≡ true → covers a.spans a.num_frames at ≡ true)
        × (covers part.spans n at ≡ false
            → (fill part value memory at ≡ memory at)
              × (apply_gain part value memory at ≡ memory at)
              × (apply_gain_span part gain memory at ≡ memory at)
              × (add part other memory at ≡ memory at)
              × (copy part other memory at ≡ memory at))
  unfolding subspan
  subspan-outside a other offset n value gain memory at le = (
    λ inside. elim (Bool-cases (covers a.spans a.num_frames at)) [
      | inl yes_ ↦ yes_
      | inr no_ ↦ absurd (differ inside (covers-shift a.spans offset n a.num_frames at le no_))
    ],
    λ out. outside (subspan a offset n) other value gain memory at out,
  )
    where
      differ : {b : Bool} → b ≡ true → b ≡ false → ⊥
      differ e f = cc
