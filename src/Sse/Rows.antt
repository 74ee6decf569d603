-- ===== src/Sse/Rows.antt =====
-- SIMDSSE.cpp: a relation between rows and results that both ways of its loop give.
use sfizz.Base.{
  ℕ, ◌+◌, ◌%◌, ◌≤◌, ◌≡◌, true, false, List, [], ◌∷◌, Option, none, some, arith, ltb, length,
  Bool-cases, inl, inr,
}
use sfizz.Sse.{Four, Stride, bytes, unaligned, advance, scalar, vectors, run}
use sfizz.Sse.Loop.{slack, aligned_first, ended, further, further_four}

module _ {R S : Type 0} (P : R → S → Type 0) where
  abbrev pub Rows : List R → List S → Type 0
  Rows [] [] = Unit {0}
  Rows (r ∷ rows) (s ∷ out) = P r s × Rows rows out
  Rows rows out = true ≡ false

  -- The loop stays within its spans, and relates each row to its result.
  abbrev pub Gives : {C : Type 0} → List R → Option (C × List S) → Type 0
  Gives rows none = true ≡ false
  Gives rows (some (c, out)) = Rows rows out

module _ {C V R S : Type 0} (P : R → S → Type 0) (one : C → R → C × S) (lift : C → V)
    (four : V → Four R → V × Four S) (lower : V → C) (one_gives : (c : C) (r : R) → P r (one c r).1)
    (four_gives : (v : V) (rs : Four R)
      → let out = (four v rs).1 in P rs.0 out.0 × P rs.1 out.1 × P rs.2 out.2 × P rs.3 out.3) where
  scalar-Rows : (c : C) (rows : List R) → Rows P rows (scalar one c rows).1
  unfolding scalar
  scalar-Rows c [] = tt
  scalar-Rows c (r ∷ rows) = (one_gives c r, scalar-Rows (one c r).0 rows)

  finish :
      (stride : Stride) (at last : ℕ) (v : V) (rows : List R)
      → ltb at last ≡ false
      → Gives P rows (vectors one lift four lower stride at last v rows)
  unfolding vectors
  finish stride at last v [] e = rw e (scalar-Rows (lower v) [])
  finish stride at last v (p ∷ []) e = rw e (scalar-Rows (lower v) (p ∷ []))
  finish stride at last v (p ∷ q ∷ []) e = rw e (scalar-Rows (lower v) (p ∷ q ∷ []))
  finish stride at last v (p ∷ q ∷ r ∷ []) e = rw e (scalar-Rows (lower v) (p ∷ q ∷ r ∷ []))
  finish stride at last v (p ∷ q ∷ r ∷ s ∷ rows) e =
      rw (vectors, e) (scalar-Rows (lower v) (p ∷ q ∷ r ∷ s ∷ rows))

  -- Four more rows in front of what the rest of the loop gives.
  Gives-quad :
      (p q r s : R) (out : Four S) (rows : List R) (rest : Option (C × List S))
      → P p out.0 × P q out.1 × P r out.2 × P s out.3
      → Gives P rows rest
      → Gives P (p ∷ q ∷ r ∷ s ∷ rows) (elim rest [
        | none ↦ none
        | some (c, more) ↦ some (c, out.0 ∷ out.1 ∷ out.2 ∷ out.3 ∷ more)
      ])
  Gives-quad p q r s out rows none h g = g
  Gives-quad p q r s out rows (some (c, more)) (a, b, d, e) g = (a, (b, (d, (e, g))))

  Gives-one :
      (r : R) (s : S) (rows : List R) (rest : Option (C × List S))
      → P r s
      → Gives P rows rest
      → Gives P (r ∷ rows) (elim rest [ none ↦ none | some (c, more) ↦ some (c, s ∷ more) ])
  Gives-one r s rows none h g = g
  Gives-one r s rows (some (c, more)) h g = (h, g)

  vectors-Gives :
      (stride : Stride) (at last : ℕ) (v : V) (rows : List R)
      → at % 16 ≡ 0
      → last % 16 ≡ 0
      → last + slack stride ≤ at + bytes stride (length rows)
      → Gives P rows (vectors one lift four lower stride at last v rows)
  unfolding vectors
  vectors-Gives stride at last v [] a l fits =
      finish stride at last v [] (ended stride at last 0 a l fits (omega arith))
  vectors-Gives stride at last v (p ∷ []) a l fits =
      finish stride at last v (p ∷ []) (ended stride at last 1 a l fits (omega arith))
  vectors-Gives stride at last v (p ∷ q ∷ []) a l fits =
      finish stride at last v (p ∷ q ∷ []) (ended stride at last 2 a l fits (omega arith))
  vectors-Gives stride at last v (p ∷ q ∷ r ∷ []) a l fits =
      finish stride at last v (p ∷ q ∷ r ∷ []) (ended stride at last 3 a l fits (omega arith))
  vectors-Gives stride at last v (p ∷ q ∷ r ∷ s ∷ rows) a l fits =
      let next = further_four stride at last (length rows) a fits in
      elim (Bool-cases (ltb at last)) [
        | inr e ↦ finish stride at last v (p ∷ q ∷ r ∷ s ∷ rows) e
        | inl e ↦
            rw (vectors, e)
              (Gives-quad p q r s (four v (p, q, r, s)).1 rows
                (vectors one lift four lower stride (at + bytes stride 4) last
                  (four v (p, q, r, s)).0 rows)
                (four_gives v (p, q, r, s))
                (vectors-Gives stride (at + bytes stride 4) last (four v (p, q, r, s)).0 rows next.0
                  l next.1))
      ]

  pub run-Gives :
      (stride : Stride) (at : ℕ) (others : List ℕ) (last : ℕ) (c : C) (rows : List R)
      → last % 16 ≡ 0
      → last + slack stride ≤ at + bytes stride (length rows)
      → Gives P rows (run one lift four lower stride at others last c rows)
  unfolding run
  run-Gives Stride.single at others last c [] l fits =
      finish Stride.single at last (lift c) [] (ground arith)
  run-Gives Stride.double at others last c [] l fits =
      finish Stride.double at last (lift c) [] (ground arith)
  run-Gives stride at others last c (r ∷ rows) l fits =
      let rest =
        run-Gives stride (at + bytes stride 1) (advance 4 others) last (one c r).0 rows l
          (further stride at last (length rows) fits) in
      elim (Bool-cases (ltb at last)) [
        | inr e ↦ elim (Bool-cases (unaligned (at ∷ others))) [
          | inl u ↦ rw (run, u, e) (finish stride at last (lift c) (r ∷ rows) e)
          | inr u ↦ rw (run, u) (finish stride at last (lift c) (r ∷ rows) e)
        ]
        | inl e ↦ elim (Bool-cases (unaligned (at ∷ others))) [
          | inl u ↦
              rw (run, u, e)
                (Gives-one r (one c r).1 rows
                  (run one lift four lower stride (at + bytes stride 1) (advance 4 others) last
                    (one c r).0 rows)
                  (one_gives c r) rest)
          | inr u ↦
              rw (run, u)
                (vectors-Gives stride at last (lift c) (r ∷ rows) (aligned_first at others u) l
                  fits)
        ]
      ]
