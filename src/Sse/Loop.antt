-- ===== src/Sse/Loop.antt =====
-- SIMDSSE.cpp: what its loop promises for every alignment of the spans.
use sfizz.Base.{
  ℕ, suc, ◌+◌, ◌*◌, ◌%◌, ◌≤◌, ◌≡◌, ◌≢◌, refl, ap, true, false, List, [], ◌∷◌, some, arith, ltb,
  length, Bool-cases, inl, inr,
}
use sfizz.Sse.{Four, Stride, bytes, unaligned, advance, scalar, vectors, run}

-- Bytes from `last` to the end of the rows, at least.
abbrev pub slack : Stride → ℕ
slack Stride.single = 0
slack Stride.double = 16

-- With less than four rows left, the loop on registers has ended.
pub ended :
    (stride : Stride) (at last n : ℕ)
    → at % 16 ≡ 0
    → last % 16 ≡ 0
    → last + slack stride ≤ at + bytes stride n
    → n ≤ 3
    → ltb at last ≡ false
ended Stride.single at last n a l fits few = ground arith
ended Stride.double at last n a l fits few = ground arith

pub further :
    (stride : Stride) (at last n : ℕ)
    → last + slack stride ≤ at + bytes stride (suc n)
    → last + slack stride ≤ at + bytes stride 1 + bytes stride n
further Stride.single at last n fits = omega arith
further Stride.double at last n fits = omega arith

pub further_four :
    (stride : Stride) (at last n : ℕ)
    → at % 16 ≡ 0
    → last + slack stride ≤ at + bytes stride (suc (suc (suc (suc n))))
    → ((at + bytes stride 4) % 16 ≡ 0)
      × (last + slack stride ≤ at + bytes stride 4 + bytes stride n)
further_four Stride.single at last n a fits = omega arith
further_four Stride.double at last n a fits = omega arith

pub aligned_first : (at : ℕ) (others : List ℕ) → unaligned (at ∷ others) ≡ false → at % 16 ≡ 0
unfolding unaligned
aligned_first at others e = ground arith

apart_unaligned : (at other : ℕ) → at % 16 ≢ other % 16 → unaligned (at ∷ other ∷ []) ≡ true
unfolding unaligned
apart_unaligned at other apart = ground arith

module _ {C V R S : Type 0} (one : C → R → C × S) (lift : C → V) (four : V → Four R → V × Four S)
    (lower : V → C) where
  -- Four rows one by one.
  abbrev pub by_ones : C → Four R → C × Four S
  by_ones c (p, q, r, s) =
      let (c1, p') = one c p in
      let (c2, q') = one c1 q in
      let (c3, r') = one c2 r in let (c4, s') = one c3 s in (c4, (p', q', r', s'))

  finish :
      ((c : C) → lower (lift c) ≡ c)
      → (stride : Stride) (at last : ℕ) (c : C) (rows : List R) → ltb at last ≡ false
      → vectors one lift four lower stride at last (lift c) rows ≡ some (scalar one c rows)
  unfolding vectors
  finish keeps stride at last c [] e = rw (e, keeps c) refl
  finish keeps stride at last c (p ∷ []) e = rw (e, keeps c) refl
  finish keeps stride at last c (p ∷ q ∷ []) e = rw (e, keeps c) refl
  finish keeps stride at last c (p ∷ q ∷ r ∷ []) e = rw (e, keeps c) refl
  finish keeps stride at last c (p ∷ q ∷ r ∷ s ∷ rows) e = rw (vectors, e, keeps c) refl

  -- Without a place where all pointers are aligned the rows are done one by one.
  pub run-unaligned :
      ((c : C) → lower (lift c) ≡ c)
      → (at other last : ℕ) (c : C) (rows : List R) → at % 16 ≢ other % 16
      → last ≤ at + 4 * length rows
      → run one lift four lower Stride.single at (other ∷ []) last c rows ≡ some (scalar one c rows)
  unfolding run scalar
  run-unaligned keeps at other last c [] apart fits =
      finish keeps Stride.single at last c [] (ground (arith, fits))
  run-unaligned keeps at other last c (r ∷ rows) apart fits =
      let rest =
        run-unaligned keeps (at + 4) (other + 4) last (one c r).0 rows
          (λ e. apart (omega (arith, e))) (omega (arith, fits)) in
      elim (Bool-cases (ltb at last)) [
        | inl e ↦ rw (run, apart_unaligned at other apart, e, rest) refl
        | inr e ↦
            rw (run, apart_unaligned at other apart, e)
              (finish keeps Stride.single at last c (r ∷ rows) e)
      ]

  module _ (lower_lift : (c : C) → lower (lift c) ≡ c)
      (agrees : (c : C) (rows : Four R)
        → four (lift c) rows ≡ (lift (by_ones c rows).0, (by_ones c rows).1)) where
    vectors_lem :
        (stride : Stride) (at last : ℕ) (c : C) (rows : List R)
        → at % 16 ≡ 0
        → last % 16 ≡ 0
        → last + slack stride ≤ at + bytes stride (length rows)
        → vectors one lift four lower stride at last (lift c) rows ≡ some (scalar one c rows)
    unfolding vectors scalar
    vectors_lem stride at last c [] a l fits =
        finish lower_lift stride at last c [] (ended stride at last 0 a l fits (omega arith))
    vectors_lem stride at last c (p ∷ []) a l fits =
        finish lower_lift stride at last c (p ∷ []) (ended stride at last 1 a l fits (omega arith))
    vectors_lem stride at last c (p ∷ q ∷ []) a l fits =
        finish lower_lift stride at last c (p ∷ q ∷ [])
          (ended stride at last 2 a l fits (omega arith))
    vectors_lem stride at last c (p ∷ q ∷ r ∷ []) a l fits =
        finish lower_lift stride at last c (p ∷ q ∷ r ∷ [])
          (ended stride at last 3 a l fits (omega arith))
    vectors_lem stride at last c (p ∷ q ∷ r ∷ s ∷ rows) a l fits =
        let next = further_four stride at last (length rows) a fits in
        elim (Bool-cases (ltb at last)) [
          | inr e ↦ finish lower_lift stride at last c (p ∷ q ∷ r ∷ s ∷ rows) e
          | inl e ↦
              rw
                (
                  vectors,
                  e,
                  ap (λ x. x.0) (agrees c (p, q, r, s)),
                  vectors_lem stride (at + bytes stride 4) last (by_ones c (p, q, r, s)).0 rows
                      next.0 l next.1,
                )
                (ap
                  (λ (x : V × Four S). some (
                    (scalar one (by_ones c (p, q, r, s)).0 rows).0,
                    x.1.0 ∷ x.1.1 ∷ x.1.2 ∷ x.1.3 ∷ (scalar one (by_ones c (p, q, r, s)).0 rows).1,
                  ))
                  (agrees c (p, q, r, s)))
        ]

    -- For every alignment of its spans an operation stays within them, and gives what the scalar
    -- loop gives.
    pub run_lem :
        (stride : Stride) (at : ℕ) (others : List ℕ) (last : ℕ) (c : C) (rows : List R)
        → last % 16 ≡ 0
        → last + slack stride ≤ at + bytes stride (length rows)
        → run one lift four lower stride at others last c rows ≡ some (scalar one c rows)
    unfolding run scalar
    run_lem Stride.single at others last c [] l fits =
        finish lower_lift Stride.single at last c [] (ground arith)
    run_lem Stride.double at others last c [] l fits =
        finish lower_lift Stride.double at last c [] (ground arith)
    run_lem stride at others last c (r ∷ rows) l fits =
        let more = further stride at last (length rows) fits in
        let rest =
          run_lem stride (at + bytes stride 1) (advance 4 others) last (one c r).0 rows l more in
        elim (Bool-cases (ltb at last)) [
          | inr e ↦ elim (Bool-cases (unaligned (at ∷ others))) [
            | inl u ↦ rw (run, u, e) (finish lower_lift stride at last c (r ∷ rows) e)
            | inr u ↦ rw (run, u) (finish lower_lift stride at last c (r ∷ rows) e)
          ]
          | inl e ↦ elim (Bool-cases (unaligned (at ∷ others))) [
            | inl u ↦ rw (run, u, e, rest) refl
            | inr u ↦
                rw (run, u)
                  (vectors_lem stride at last c (r ∷ rows) (aligned_first at others u) l fits)
          ]
        ]
