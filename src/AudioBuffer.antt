-- ===== src/AudioBuffer.antt =====
-- sfizz/AudioBuffer.h: channels of one length. What the memory of a channel holds is a parameter, `blocks`:
-- the values of a block of so many that takes the place of one with the old values (no values, for a
-- new channel), or none where there is no memory. The block and its alignment are those of Buffer.
pub mod Frames
use sfizz.Base.{
  ℕ, zero, suc, ◌+◌, Bool, true, false, ◌&&◌, List, [], ◌∷◌, ◌++◌, Option, none, some, ltb, ◌==◌,
  if◌then◌else◌, length, get_or, get_elem?, replicate,
}
use sfizz.Region.Parts.{AudioBuffer}

-- `config::numChannels`, the places that a buffer has for channels.
abbrev pub max_channels : ℕ
max_channels = 2

module _ {F : Type 0} (blocks : List F → ℕ → Option (List F)) where
  -- A `Buffer` of a size; a buffer without memory stays empty.
  abbrev pub block : ℕ → List F
  block zero = []
  block (suc n) = elim (blocks [] (suc n)) [ none ↦ [] | some values ↦ values ]

  -- More channels than there are places for are written behind them.
  unfoldable pub make : ℕ → ℕ → Option (AudioBuffer F)
  make channels frames =
      if ltb max_channels channels
      then none
      else some (record { channels = replicate channels (block frames); num_frames = frames })

  -- One channel: whether it could be resized, and its values.
  abbrev pub resize_channel : ℕ → List F → Bool × List F
  resize_channel zero old = (true, [])
  resize_channel (suc n) old = elim (blocks old (suc n)) [
    | none ↦ (false, old)
    | some new ↦ (true, new)
  ]

  abbrev pub resize_channels : ℕ → List (List F) → Bool × List (List F)
  resize_channels n [] = (true, [])
  resize_channels n (c ∷ channels) =
      let (here, c') = resize_channel n c in
      let (rest, channels') = resize_channels n channels in (here && rest, c' ∷ channels')

  -- `numFrames` is not written.
  unfoldable pub resize : AudioBuffer F → ℕ → Bool × AudioBuffer F
  resize b n =
      let (done, channels) = resize_channels n b.channels in
      (done, record b { channels = channels })

  unfoldable pub add_channel : AudioBuffer F → AudioBuffer F
  add_channel b =
      if ltb (length b.channels) max_channels
      then record b { channels = b.channels ++ (block b.num_frames ∷ []) }
      else b

module _ {F : Type 0} where
  -- A channel that is not there gives an empty span.
  unfoldable pub get_span : AudioBuffer F → ℕ → List F
  get_span b i = if ltb i (length b.channels) then get_or b.channels i [] else []

  -- The values that the pointer of a channel leads to; `none` is the null pointer.
  unfoldable pub channel_writer : AudioBuffer F → ℕ → Option (List F)
  channel_writer b i = if ltb i (length b.channels) then get_elem? b.channels i else none

  unfoldable pub channel_reader : AudioBuffer F → ℕ → Option (List F)
  channel_reader b i = if ltb i (length b.channels) then get_elem? b.channels i else none

  unfoldable pub get_num_frames : AudioBuffer F → ℕ
  get_num_frames b = b.num_frames

  unfoldable pub get_num_channels : AudioBuffer F → ℕ
  get_num_channels b = length b.channels

  unfoldable pub is_empty : AudioBuffer F → Bool
  is_empty b = b.num_frames == 0

  -- `none` is an access outside the channels.
  unfoldable pub get_sample : AudioBuffer F → ℕ → ℕ → Option F
  get_sample b channel frame = elim (get_elem? b.channels channel) [
    | none ↦ none
    | some values ↦ get_elem? values frame
  ]
