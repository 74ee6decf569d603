-- ===== src/AudioBuffer/Frames.antt =====
-- AudioBuffer.h: the count of frames and the channels.
use sfizz.Base.{
  ℕ, zero, suc, ◌≡◌, ◌≤◌, ◌↔◌, refl, sym, subst, ◌∙◌, List, [], ◌∷◌, Option, some, ltb, length,
  replicate, All, All-append, arith, Bool-cases, inl, inr,
}
use sfizz.Region.Parts.{AudioBuffer}
use sfizz.AudioBuffer.{
  make, resize, resize_channels, resize_channel, add_channel, get_num_frames, block,
}

module _ {F : Type 0} where
  -- Every channel has as many values as the buffer has frames.
  abbrev pub IsConsistent : AudioBuffer F → Type 0
  IsConsistent b = All (λ c. length c ≡ b.num_frames) b.channels

  -- There is memory for a block, whatever it takes the place of, and it has its size.
  abbrev pub HasBlock : (List F → ℕ → Option (List F)) → ℕ → Type 0
  HasBlock blocks n =
      (old : List F) → (values : List F) × (blocks old n ≡ some values) × (length values ≡ n)

  module _ (blocks : List F → ℕ → Option (List F)) where
    length-block : (n : ℕ) → HasBlock blocks n → length (block blocks n) ≡ n
    length-block zero has = refl
    length-block (suc n) has = let (values, here, size) = has [] in rw (here, block) size

    All-replicate :
        (n m : ℕ) → HasBlock blocks m → All (λ c. length c ≡ m) (replicate n (block blocks m))
    All-replicate zero m has = tt
    All-replicate (suc n) m has = (length-block m has, All-replicate n m has)

    resized : (n : ℕ) (c : List F) → HasBlock blocks n → length (resize_channel blocks n c).1 ≡ n
    resized zero c has = refl
    resized (suc n) c has = let (values, here, size) = has c in rw (here, resize_channel) size

    All-resize_channels :
        (n : ℕ) (channels : List (List F))
        → HasBlock blocks n
        → All (λ c. length c ≡ n) (resize_channels blocks n channels).1
    All-resize_channels n [] has = tt
    All-resize_channels n (c ∷ channels) has = (resized n c has, All-resize_channels n channels has)

    consistent_iff :
        (n k : ℕ) (c : List F) (rest : List (List F))
        → HasBlock blocks n
        → All (λ d. length d ≡ k) (resize_channels blocks n (c ∷ rest)).1 ↔ (n ≡ k)
    consistent_iff n k c rest has = (
      λ all. sym (resized n c has) ∙ all.0,
      λ e.
          subst (λ m. All (λ d. length d ≡ m) (resize_channels blocks n (c ∷ rest)).1) e
            (All-resize_channels n (c ∷ rest) has),
    )

    -- A buffer is made with all channels of its count of frames, and a channel that is added has it,
    -- too. One that is resized and has a channel keeps the old count: the two agree only if the size
    -- is the old one. All this where there is memory.
    pub make-resize :
        (b : AudioBuffer F) (n channels : ℕ) (c : List F) (rest : List (List F))
        → HasBlock blocks n
        → HasBlock blocks b.num_frames
        → channels ≤ 2
        → ((made : AudioBuffer F) × (make blocks channels n ≡ some made) × IsConsistent made)
          × (IsConsistent b → IsConsistent (add_channel blocks b))
          × (b.channels ≡ c ∷ rest → IsConsistent (resize blocks b n).1 ↔ (n ≡ get_num_frames b))
    unfolding make resize add_channel get_num_frames
    make-resize b n channels c rest has has_old few = (
      (
        record { channels = replicate channels (block blocks n); num_frames = n },
        ground (arith, few),
        All-replicate channels n has,
      ),
      λ all. elim (Bool-cases (ltb (length b.channels) 2)) [
        | inl room ↦
            rw (room, add_channel)
              (All-append (λ d. length d ≡ b.num_frames) b.channels (block blocks b.num_frames ∷ [])
                all (length-block b.num_frames has_old, tt))
        | inr full ↦ rw (full, add_channel) all
      ],
      λ e.
          subst
            (λ cs.
              All (λ d. length d ≡ b.num_frames) (resize_channels blocks n cs).1
              ↔ (n ≡ b.num_frames))
            (sym e) (consistent_iff n b.num_frames c rest has),
    )
