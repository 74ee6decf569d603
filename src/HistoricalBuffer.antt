-- ===== src/HistoricalBuffer.antt =====
-- sfizz/HistoricalBuffer.h: the last values of a quantity, in a ring.
pub mod Window
use sfizz.Base.{ℕ, suc, List, ltb, ◌==◌, if◌then◌else◌, set, replicate}
use sfizz.Float.{FloatOps, of_nat}
use sfizz.Simd.{mean, fill}

pub record HistoricalBuffer (F : Type 0) : Type 0 where
  pub buffer : List F
  pub size : ℕ
  pub index : ℕ

module _ {F : Type 0} where
  unfoldable pub push : HistoricalBuffer F → F → HistoricalBuffer F
  push b v =
      if ltb 0 b.size
      then record b {
        buffer = set b.buffer b.index v;
        index = if suc b.index == b.size then 0 else suc b.index;
      }
      else b

module _ {F : Type 0} ⦃o : FloatOps F⦄ where
  -- The constructor, with the call of `resize` that fills the buffer with zeros.
  unfoldable pub make : ℕ → HistoricalBuffer F
  make n = record { buffer = replicate n (of_nat 0); size = n; index = 0 }

  unfoldable pub get_average : HistoricalBuffer F → F
  unfolding mean
  get_average b = mean b.buffer
