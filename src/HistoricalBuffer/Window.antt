-- ===== src/HistoricalBuffer/Window.antt =====
-- HistoricalBuffer.h: the ring holds a sliding window over the values pushed.
use sfizz.Base.{
  ℕ, zero, suc, ◌<◌, ◌≡◌, refl, ap, List, [], ◌∷◌, ◌++◌, arith, length, set, take, drop, length-set,
  sym,
}
use mathlib.Core.List.{append-nil, append_assoc}
use sfizz.HistoricalBuffer.{HistoricalBuffer, push}

pub record IsRing {F : Type 0} (b : HistoricalBuffer F) : Type 0 where
  pub full : length b.buffer ≡ b.size
  pub within : b.index < b.size

module _ {F : Type 0} where
  -- Oldest first.
  abbrev pub window : HistoricalBuffer F → List F
  window b = drop b.index b.buffer ++ take b.index b.buffer

  drop-set-suc : (xs : List F) (i : ℕ) (v : F) → drop (suc i) (set xs i v) ≡ drop (suc i) xs
  drop-set-suc [] i v = refl
  drop-set-suc (x ∷ xs) zero v = refl
  drop-set-suc (x ∷ xs) (suc i) v = drop-set-suc xs i v

  take-set-suc :
      (xs : List F) (i : ℕ) (v : F)
      → i < length xs
      → take (suc i) (set xs i v) ≡ take i xs ++ v ∷ []
  take-set-suc [] i v h = elim h [ ]
  take-set-suc (x ∷ xs) zero v h = refl
  take-set-suc (x ∷ xs) (suc i) v h = ap (◌∷◌ x) (take-set-suc xs i v (omega arith))

  drop-cons : (xs : List F) (i : ℕ) → i < length xs → (x : F) × (drop i xs ≡ x ∷ drop (suc i) xs)
  drop-cons [] i h = elim h [ ]
  drop-cons (x ∷ xs) zero h = (x, refl)
  drop-cons (x ∷ xs) (suc i) h = drop-cons xs i (omega arith)

  -- A push keeps the ring full and its index within it.
  pub push-IsRing : (b : HistoricalBuffer F) (v : F) → IsRing b → IsRing (push b v)
  unfolding push
  push-IsRing b v r = ground (arith, length-set b.buffer b.index v)

  -- The list without its head.
  abbrev pub tail : List F → List F
  tail = drop 1

  set-last : (xs : List F) (i : ℕ) (v : F) → suc i ≡ length xs → set xs i v ≡ take i xs ++ v ∷ []
  set-last [] i v e = absurd (omega arith)
  set-last (x ∷ []) zero v e = refl
  set-last (x ∷ y ∷ ys) zero v e = absurd (omega arith)
  set-last (x ∷ xs) (suc i) v e = ap (◌∷◌ x) (set-last xs i v (omega arith))

  drop_last : (xs : List F) (i : ℕ) → suc i ≡ length xs → (x : F) × (drop i xs ≡ x ∷ [])
  drop_last [] i e = absurd (omega arith)
  drop_last (x ∷ []) zero e = (x, refl)
  drop_last (x ∷ y ∷ ys) zero e = absurd (omega arith)
  drop_last (x ∷ xs) (suc i) e = drop_last xs i (omega arith)

  set_last :
      (xs : List F) (i : ℕ) (v : F)
      → suc i ≡ length xs
      → set xs i v ++ [] ≡ tail (drop i xs ++ take i xs) ++ v ∷ []
  set_last xs i v e = let (x, d) = drop_last xs i e in rw (append-nil, set-last xs i v e, d)

  set_middle :
      (xs : List F) (i : ℕ) (v : F)
      → i < length xs
      → drop (suc i) (set xs i v) ++ take (suc i) (set xs i v)
        ≡ tail (drop i xs ++ take i xs) ++ v ∷ []
  set_middle xs i v h =
      let (x, e) = drop-cons xs i h in
      rw (drop-set-suc xs i v, take-set-suc xs i v h, e)
        (sym (append_assoc (drop (suc i) xs) (take i xs) (v ∷ [])))

  -- A push into a full ring with its index within drops the oldest value of the window and puts the
  -- new one at its end.
  pub window-push :
      (b : HistoricalBuffer F) (v : F) → IsRing b → window (push b v) ≡ tail (window b) ++ v ∷ []
  unfolding push
  window-push b v r = ground (arith, set_last b.buffer b.index v, set_middle b.buffer b.index v)
