-- ===== src/Synth/Loading/Curve.antt =====
-- Synth.cpp, `addEndpointsToVelocityCurve`, and `velocityCurve` of Region.cpp on its result.
use sfizz.Base.{
  ℕ, ◌≤◌, ◌≡◌, ◌≢◌, refl, sym, Bool, true, false, List, [], ◌∷◌, ◌++◌, none, arith, leb, ◌==◌,
  ==_iff, le→leb, if◌then◌else◌, Bool-cases, Option-cases, inl, inr, length,
}
use sfizz.Float.{FloatOps, of_nat}
use sfizz.Region.{Amplifier}
use sfizz.Region.Gain.{velocity_curve, segment}
use sfizz.Synth.Loading.{last_or, endpoints, add_endpoints}

module _ {F : Type 0} ⦃o : FloatOps F⦄ where
  -- A point at or above every velocity.
  data HasTop : List (ℕ × F) → Type 0 where
    top : (p : ℕ × F) (rest : List (ℕ × F)) → 127 ≤ p.0 → HasTop (p ∷ rest)
    below : (p : ℕ × F) (rest : List (ℕ × F)) → HasTop rest → HasTop (p ∷ rest)

  HasTop-last_or :
      (first : ℕ × F) (rest : List (ℕ × F)) → (last_or first rest).0 ≡ 127 → HasTop (first ∷ rest)
  unfolding last_or
  HasTop-last_or first [] e = HasTop.top first [] (omega arith)
  HasTop-last_or first (p ∷ rest) e = HasTop.below first (p ∷ rest) (HasTop-last_or p rest e)

  HasTop-append_left : (points more : List (ℕ × F)) → HasTop points → HasTop (points ++ more)
  HasTop-append_left [] more h = elim h [ ]
  HasTop-append_left (_ ∷ _) more (HasTop.top p rest h) = HasTop.top p (rest ++ more) h
  HasTop-append_left (_ ∷ _) more (HasTop.below p rest h) =
      HasTop.below p (rest ++ more) (HasTop-append_left rest more h)

  HasTop-append_right : (points : List (ℕ × F)) (x : F) → HasTop (points ++ ((127, x) ∷ []))
  HasTop-append_right [] x = HasTop.top (127, x) [] (omega arith)
  HasTop-append_right (p ∷ points) x =
      HasTop.below p (points ++ ((127, x) ∷ [])) (HasTop-append_right points x)

  HasTop-if :
      (b : Bool) (xs ys : List (ℕ × F))
      → (b ≡ true → HasTop xs)
      → (b ≡ false → HasTop ys)
      → HasTop (if b then xs else ys)
  HasTop-if true xs ys p q = p refl
  HasTop-if false xs ys p q = q refl

  HasTop-endpoints :
      (rising : Bool) (first : ℕ × F) (rest : List (ℕ × F)) → HasTop (endpoints rising first rest)
  unfolding endpoints
  HasTop-endpoints true first rest =
      let back = (last_or first rest).0 in
      let points = first ∷ rest in
      let ended : List (ℕ × F) = if back == 127 then points else points ++ ((127, of_nat 1) ∷ []) in
      let h : HasTop ended =
        HasTop-if (back == 127) points (points ++ ((127, of_nat 1) ∷ []))
          (λ e. HasTop-last_or first rest ((==_iff back 127).0 e))
          (λ e. HasTop-append_right points (of_nat 1)) in
      HasTop-if (first.0 == 0) ended ((0, of_nat 0) ∷ ended) (λ e. h)
        (λ e. HasTop.below (0, of_nat 0) ended h)
  HasTop-endpoints false first rest =
      let back = (last_or first rest).0 in
      let points = first ∷ rest in
      let begun : List (ℕ × F) = if first.0 == 127 then points else (127, of_nat 0) ∷ points in
      let h : HasTop begun =
        HasTop-if (first.0 == 127) points ((127, of_nat 0) ∷ points)
          (λ e. HasTop.top first rest (ground (arith, e)))
          (λ e. HasTop.top (127, of_nat 0) points (omega arith)) in
      HasTop-if (back == 0) begun (begun ++ ((0, of_nat 1) ∷ [])) (λ e. h)
        (λ e. HasTop-append_left begun ((0, of_nat 1) ∷ []) h)

  segment-HasTop :
      (velocity : ℕ) (before : ℕ × F) (points : List (ℕ × F))
      → velocity ≤ 127
      → HasTop points
      → segment velocity before points ≢ none
  unfolding segment
  segment-HasTop velocity before [] low h = elim h [ ]
  segment-HasTop velocity before (_ ∷ _) low (HasTop.top p rest h) =
      rw (le→leb velocity p.0 (omega (arith, low, h))) (λ e. ground (arith, e))
  segment-HasTop velocity before (_ ∷ _) low (HasTop.below p rest h) =
      elim (Bool-cases (leb velocity p.0)) [
        | inl e ↦ rw e (λ e. ground (arith, e))
        | inr e ↦ rw e (segment-HasTop velocity p rest low h)
      ]

  curve_of_top :
      (a : Amplifier F) (points : List (ℕ × F)) (velocity : ℕ)
      → velocity ≤ 127
      → HasTop points
      → velocity_curve (record a { velocity_points = points }) velocity ≢ none
  unfolding velocity_curve
  curve_of_top a [] velocity low h = elim h [ ]
  curve_of_top a (p ∷ points) velocity low h =
      elim (Option-cases (segment velocity p (p ∷ points))) [
        | inl e ↦ absurd (segment-HasTop velocity p (p ∷ points) low h e)
        | inr (pair, e) ↦ rw (e, velocity_curve) (λ q. ground (arith, q))
      ]

  curve_without_points :
      (a : Amplifier F) (points : List (ℕ × F)) (velocity : ℕ)
      → length points ≡ 0
      → velocity_curve (record a { velocity_points = points }) velocity ≢ none
  unfolding velocity_curve
  curve_without_points a [] velocity e = λ q. ground (arith, q)
  curve_without_points a (p ∷ points) velocity e = absurd (omega (arith, e))

  -- The same with what the sort gives at hand.
  sorted_curve :
      (sort : List (ℕ × F) → List (ℕ × F)) (a : Amplifier F) (velocity : ℕ) (sorted : List (ℕ × F))
      → velocity ≤ 127
      → sort a.velocity_points ≡ sorted
      → length sorted ≡ length a.velocity_points
      → velocity_curve (add_endpoints sort a) velocity ≢ none
  unfolding add_endpoints
  sorted_curve sort a velocity [] low e same =
      rw (e, add_endpoints) (curve_without_points a a.velocity_points velocity (sym same))
  sorted_curve sort a velocity (first ∷ rest) low e same =
      let rising = o.lt (of_nat 0) a.amp_veltrack in
      rw (e, add_endpoints)
        (curve_of_top a (endpoints rising first rest) velocity low
          (HasTop-endpoints rising first rest))

  -- With its end points, the curve of a region covers every velocity: `velocityCurve` does not read
  -- past its points, in whatever order the sort leaves them.
  pub velocity_curve-add_endpoints :
      (sort : List (ℕ × F) → List (ℕ × F)) (a : Amplifier F) (velocity : ℕ)
      → ((points : List (ℕ × F)) → length (sort points) ≡ length points)
      → velocity ≤ 127
      → velocity_curve (add_endpoints sort a) velocity ≢ none
  velocity_curve-add_endpoints sort a velocity same low =
      sorted_curve sort a velocity (sort a.velocity_points) low refl (same a.velocity_points)
