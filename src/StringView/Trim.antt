-- ===== src/StringView/Trim.antt =====
-- StringViewHelpers.h: what `trim` cuts off.
use sfizz.Base.{
  ℕ, zero, suc, ◌≡◌, refl, ap, true, false, List, [], ◌∷◌, ◌++◌, none, some, All, take, drop,
  Bool-cases, inl, inr, ◌⊎◌, subst, sym,
}
use mathlib.Core.List.{append-nil}
use sfizz.StringView.{is_space, is_other, find_first, find_last, trim_right, trim}

abbrev pub AllSpace : List ℕ → Type 0
AllSpace = All (λ c. is_space c ≡ true)

-- No space at the front.
abbrev pub StartsDark : List ℕ → Type 0
StartsDark [] = Unit {0}
StartsDark (c ∷ s) = is_space c ≡ false

-- No space at the back.
abbrev pub EndsDark : List ℕ → Type 0
EndsDark [] = Unit {0}
EndsDark (c ∷ []) = is_space c ≡ false
EndsDark (c ∷ d ∷ s) = EndsDark (d ∷ s)

take-append-drop : (n : ℕ) (s : List ℕ) → s ≡ take n s ++ drop n s
take-append-drop zero s = refl
take-append-drop (suc n) [] = refl
take-append-drop (suc n) (c ∷ s) = ap (◌∷◌ c) (take-append-drop n s)

abbrev LeftSplit : List ℕ → Type 0
LeftSplit s =
    ((find_first is_other s ≡ none) × AllSpace s)
    ⊎ ((i : ℕ) × (find_first is_other s ≡ some i) × AllSpace (take i s) × StartsDark (drop i s))

find_first_lem : (s : List ℕ) → LeftSplit s
unfolding find_first
find_first_lem [] = inl (refl, tt)
find_first_lem (c ∷ s) = elim (Bool-cases (is_space c)) [
  | inl e ↦ elim (find_first_lem s) [
    | inl (f, a) ↦ inl (rw (e, f), (e, a))
    | inr (i, f, a, d) ↦ inr (suc i, rw (e, f), (e, a), d)
  ]
  | inr e ↦ inr (0, rw e, tt, e)
]

abbrev RightSplit : List ℕ → Type 0
RightSplit s =
    ((find_last is_other s ≡ none) × AllSpace s)
    ⊎ ((i : ℕ) × (find_last is_other s ≡ some i)
        × AllSpace (drop (suc i) s)
        × EndsDark (take (suc i) s))

find_last_lem : (s : List ℕ) → RightSplit s
unfolding find_last
find_last_lem [] = inl (refl, tt)
find_last_lem (c ∷ []) = elim (Bool-cases (is_space c)) [
  | inl e ↦ inl (rw e, (e, tt))
  | inr e ↦ inr (0, rw e, tt, e)
]
find_last_lem (c ∷ d ∷ s) = elim (find_last_lem (d ∷ s)) [
  | inl (f, a) ↦ elim (Bool-cases (is_space c)) [
    | inl e ↦ inl (rw (f, e), (e, a))
    | inr e ↦ inr (0, rw (f, e), a, e)
  ]
  | inr (i, f, a, k) ↦ inr (suc i, rw f, a, k)
]

-- What is left of a view after both ends are cut.
pub record IsTrimmed (s t : List ℕ) : Type 0 where
  pub before : List ℕ
  pub after : List ℕ
  pub parts : s ≡ before ++ (t ++ after)
  pub before_space : AllSpace before
  pub after_space : AllSpace after
  pub starts : StartsDark t
  pub ends : EndsDark t

trim_right-IsTrimmed :
    (before s : List ℕ) → AllSpace before → StartsDark s → IsTrimmed (before ++ s) (trim_right s)
unfolding trim_right find_last
trim_right-IsTrimmed before [] a d = record {
  before = before;
  after = [];
  parts = refl;
  before_space = a;
  after_space = tt;
  starts = tt;
  ends = tt;
}
trim_right-IsTrimmed before (c ∷ s) a d = elim (find_last_lem (c ∷ s)) [
  | inl (f, k) ↦ cc (d, k.0)
  | inr (i, f, k, e) ↦
      rw (f, trim_right)
        (record {
          before = before;
          after = drop i s;
          parts = ap (λ l. before ++ c ∷ l) (take-append-drop i s);
          before_space = a;
          after_space = k;
          starts = d;
          ends = e;
        })
]

-- `trim` cuts a view into spaces, the result and spaces, and the result neither starts nor ends
-- with a space; so nothing else is cut off, and a view of spaces alone becomes empty.
pub trim-IsTrimmed : (s : List ℕ) → IsTrimmed s (trim s)
unfolding trim
trim-IsTrimmed s = elim (find_first_lem s) [
  | inl (f, a) ↦
      rw (f, trim)
        (record {
          before = s;
          after = [];
          parts = rw append-nil;
          before_space = a;
          after_space = tt;
          starts = tt;
          ends = tt;
        })
  | inr (i, f, a, d) ↦
      rw (f, trim)
        (subst (λ l. IsTrimmed l (trim_right (drop i s))) (sym (take-append-drop i s))
          (trim_right-IsTrimmed (take i s) (drop i s) a d))
]
