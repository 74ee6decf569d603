-- ===== src/AudioSpan.antt =====
-- sfizz/AudioSpan.h: views of channels in one memory. Addresses count values.
pub mod Frame
use sfizz.Base.{
  ℕ, zero, suc, ◌+◌, ◌-◌, Bool, true, false, ◌&&◌, ◌||◌, List, [], ◌∷◌, Option, ltb, leb, ◌==◌,
  if◌then◌else◌, length, map, get_or, take, none, get_elem?,
}
use sfizz.Float.{FloatOps, of_nat}
use sfizz.Simd
use sfizz.Region.Parts.{AudioBuffer}

-- Where the channels start, and their common length.
pub record AudioSpan : Type 0 where
  pub spans : List ℕ
  pub num_frames : ℕ

abbrev pub Memory : Type 0 → Type 0
Memory F = ℕ → F

module _ {F : Type 0} where
  abbrev pub read : Memory F → ℕ → ℕ → List F
  read memory start zero = []
  read memory start (suc n) = memory start ∷ read memory (suc start) n

  abbrev pub write : Memory F → ℕ → List F → Memory F
  write memory start [] = memory
  write memory start (x ∷ values) =
      write (λ at. if start == at then x else memory at) (suc start) values

  unfoldable pub get_span : AudioSpan → ℕ → Memory F → List F
  get_span a i memory =
      if ltb i (length a.spans) then read memory (get_or a.spans i 0) a.num_frames else []

  -- One operation on each channel in turn.
  abbrev pub on_channels : (List F → List F) → List ℕ → ℕ → Memory F → Memory F
  on_channels f [] n memory = memory
  on_channels f (start ∷ starts) n memory =
      on_channels f starts n (write memory start (f (read memory start n)))

  unfoldable pub fill : AudioSpan → F → Memory F → Memory F
  unfolding Simd.fill
  fill a value = on_channels (λ span. Simd.fill span value) a.spans a.num_frames

  -- One operation on each channel, with that of another view. A channel is read before it is written:
  -- two channels that share memory start at one place.
  abbrev pub from_channels :
      (List F → List F → List F) → List ℕ → ℕ → List ℕ → ℕ → Memory F → Memory F
  from_channels f (other ∷ others) k (start ∷ starts) n memory =
      from_channels f others k starts n
        (write memory start (f (read memory other k) (read memory start n)))
  from_channels f others k starts n memory = memory

  unfoldable pub copy : AudioSpan → AudioSpan → Memory F → Memory F
  unfolding Simd.copy
  copy a other memory =
      if length other.spans == length a.spans
      then from_channels Simd.copy other.spans other.num_frames a.spans a.num_frames memory
      else memory

module _ {F : Type 0} ⦃o : FloatOps F⦄ where
  unfoldable pub apply_gain_span : AudioSpan → List F → Memory F → Memory F
  unfolding Simd.apply_gain_span
  apply_gain_span a gain =
      on_channels (λ span. Simd.apply_gain_span gain span span) a.spans a.num_frames

  unfoldable pub apply_gain : AudioSpan → F → Memory F → Memory F
  unfolding Simd.apply_gain
  apply_gain a gain = on_channels (λ span. Simd.apply_gain gain span span) a.spans a.num_frames

  unfoldable pub add : AudioSpan → AudioSpan → Memory F → Memory F
  unfolding Simd.add_span
  add a other memory =
      if length other.spans == length a.spans
      then from_channels Simd.add_span other.spans other.num_frames a.spans a.num_frames memory
      else memory

  abbrev sum_of_means : F → List ℕ → ℕ → Memory F → F
  sum_of_means sum [] n memory = sum
  sum_of_means sum (start ∷ starts) n memory =
      sum_of_means (o.add sum (Simd.mean_squared (read memory start n))) starts n memory

  unfoldable pub mean_squared : AudioSpan → Memory F → F
  unfolding Simd.mean_squared
  mean_squared a memory =
      if length a.spans == 0
      then of_nat 0
      else o.div (sum_of_means (of_nat 0) a.spans a.num_frames memory) (of_nat (length a.spans))

-- The constructor from a list of pointers, which keeps as many as there are places.
unfoldable pub of_pointers : List ℕ → ℕ → AudioSpan
of_pointers pointers n = record { spans = take 2 pointers; num_frames = n }

-- The constructor from a list of spans, each with its size. The least of the sizes is not kept.
unfoldable pub of_spans : List (ℕ × ℕ) → AudioSpan
of_spans spans = record { spans = map (λ (s : ℕ × ℕ). s.0) (take 2 spans); num_frames = 0 }

-- The constructors from a buffer, whose channels start at `starts`.
unfoldable pub of_buffer : {F : Type 0} → AudioBuffer F → List ℕ → AudioSpan
of_buffer b starts = record { spans = take (length b.channels) starts; num_frames = b.num_frames }

-- The constructor from a view of values that may be written.
unfoldable pub of_view : AudioSpan → AudioSpan
of_view a = record { spans = a.spans; num_frames = a.num_frames }

-- `none` is the null pointer.
unfoldable pub get_channel : AudioSpan → ℕ → Option ℕ
get_channel a i = if ltb i (length a.spans) then get_elem? a.spans i else none

unfoldable pub get_num_channels : AudioSpan → ℕ
get_num_channels a = length a.spans

-- The constructor from the starts of another view, an offset and a size.
abbrev pub at_offset : List ℕ → ℕ → ℕ → AudioSpan
at_offset spans offset size = record {
  spans = map (λ start. start + offset) spans;
  num_frames = size;
}

unfoldable pub first : AudioSpan → ℕ → AudioSpan
first a n = at_offset a.spans 0 n

unfoldable pub last : AudioSpan → ℕ → AudioSpan
last a n = at_offset a.spans (a.num_frames - n) n

unfoldable pub subspan : AudioSpan → ℕ → ℕ → AudioSpan
subspan a offset n = at_offset a.spans offset n

-- `subspan(offset)`, to the end.
unfoldable pub subspan_from : AudioSpan → ℕ → AudioSpan
subspan_from a offset = at_offset a.spans offset (a.num_frames - offset)
