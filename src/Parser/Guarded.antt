-- ===== src/Parser/Guarded.antt =====
-- Parser.cpp, `readSfzFile`, with the guard against recursive includes.
use sfizz.Base.{
  ℕ, zero, suc, ◌+◌, ◌≤◌, ◌<◌, ◌≡◌, refl, sym, ap, ◌∙◌, Bool, true, false, List, [], ◌∷◌, ◌++◌,
  Option, none, some, arith, if◌then◌else◌, Bool-cases, Option-cases, inl, inr,
}
use sfizz.StringView.{is_same}
use sfizz.StringView.Same.{is_same_refl, eq_of_is_same}
use sfizz.Parser.{
  Regexes, Files, Parser, seen, cleaned, slashes, include_file, read_line, read_lines,
  read_sfz_file,
}

-- The files of a list that have not been included.
unfoldable pub unseen : List (List ℕ) → List (List ℕ) → ℕ
unseen included [] = 0
unseen included (u ∷ files) = (if seen u included then 0 else 1) + unseen included files

seen-append :
    (u f : List ℕ) (included : List (List ℕ))
    → seen u included ≡ true
    → seen u (included ++ (f ∷ [])) ≡ true
unfolding seen
seen-append u f [] e = absurd (ground (arith, e))
seen-append u f (g ∷ included) e = ground (arith, e, seen-append u f included)

seen-added : (f : List ℕ) (included : List (List ℕ)) → seen f (included ++ (f ∷ [])) ≡ true
unfolding seen
seen-added f [] = ground (arith, is_same_refl f)
seen-added f (g ∷ included) = ground (arith, seen-added f included)

unseen-append :
    (f : List ℕ) (included files : List (List ℕ))
    → unseen (included ++ (f ∷ [])) files ≤ unseen included files
unfolding unseen
unseen-append f included [] = omega arith
unseen-append f included (u ∷ files) =
    ground (arith, seen-append u f included, unseen-append f included files)

unseen-added :
    (f : List ℕ) (included files : List (List ℕ))
    → seen f files ≡ true
    → seen f included ≡ false
    → unseen (included ++ (f ∷ [])) files < unseen included files
unfolding unseen seen
unseen-added f included [] e fresh = absurd (ground (arith, e))
unseen-added f included (u ∷ files) e fresh = elim (Bool-cases (is_same u f)) [
  | inl same ↦
      let here = sym (eq_of_is_same u f same) in
      let old : seen u included ≡ false = ap (λ x. seen x included) (sym here) ∙ fresh in
      let new : seen u (included ++ (f ∷ [])) ≡ true =
        ap (λ x. seen x (included ++ (f ∷ []))) (sym here) ∙ seen-added f included in
      rw (old, new) (ground (arith, unseen-append f included files))
  | inr other ↦
      let later : seen f files ≡ true = ground (arith, e, other) in
      ground (arith, seen-append u f included, unseen-added f included files later fresh)
]

-- A reading that gives a result leaves the guard on, and at most so many files to be included.
pub IsRead : List (List ℕ) → ℕ → Option (Parser × List (List ℕ)) → Type 0
IsRead known bound none = true ≡ false
IsRead known bound (some (p, out)) =
    (p.recursive_include_guard ≡ true) × (unseen p.included_files known ≤ bound)

-- What is read of a parser that has at most `n` files to include.
Reads : List (List ℕ) → ℕ → (Parser → List ℕ → Option (Parser × List (List ℕ))) → Type 0
Reads known n include =
    (p : Parser) (path : List ℕ)
    → p.recursive_include_guard ≡ true
    → unseen p.included_files known < n
    → IsRead known (unseen p.included_files known) (include p path)

IsRead-weaken :
    (known : List (List ℕ)) (a b : ℕ) (r : Option (Parser × List (List ℕ)))
    → a ≤ b
    → IsRead known a r
    → IsRead known b r
unfolding IsRead
IsRead-weaken known a b none le bad = bad
IsRead-weaken known a b (some (p, out)) le (on, fewer) = (on, omega (arith, le, fewer))

module _ (regexes : Regexes) (files : Files) (known : List (List ℕ)) where
  include_file-IsRead :
      (n : ℕ) (include : Parser → List ℕ → Option (Parser × List (List ℕ)))
      → ((f : List ℕ) → files.exists f ≡ true → seen f known ≡ true)
      → Reads known n include
      → (p : Parser) (path : List ℕ) → p.recursive_include_guard ≡ true
      → unseen p.included_files known < suc n
      → IsRead known (unseen p.included_files known) (include_file regexes files include p path)
  unfolding include_file IsRead Reads
  include_file-IsRead n include listed reads p path on enough =
      let file = files.join p.root_directory (slashes path) in
      let added = record p { included_files = p.included_files ++ (file ∷ []) } in
      elim (Bool-cases (files.exists file)) [
        | inr e ↦ rw (e, include_file) (on, omega arith)
        | inl there ↦ elim (Bool-cases (seen file p.included_files)) [
          | inl old ↦
              rw (there, old, include_file)
                (guarded_here p.recursive_include_guard (include p file) p on on)
          | inr fresh ↦
              let fewer = unseen-added file p.included_files known (listed file there) fresh in
              rw (there, fresh, include_file)
                (IsRead-weaken known _ _ (include added file) (omega (arith, fewer))
                  (reads added file on (omega (arith, fewer, enough))))
        ]
      ]
    where
      guarded_here :
          (guard : Bool) (r : Option (Parser × List (List ℕ))) (q : Parser)
          → guard ≡ true
          → q.recursive_include_guard ≡ true
          → IsRead known (unseen q.included_files known) (if guard then some (q, []) else r)
      guarded_here true r q e on' = (on', omega arith)
      guarded_here false r q e on' = absurd (ground (arith, e))

  read_line-IsRead :
      (n : ℕ) (include : Parser → List ℕ → Option (Parser × List (List ℕ)))
      → ((f : List ℕ) → files.exists f ≡ true → seen f known ≡ true)
      → Reads known n include
      → (p : Parser) (line : List ℕ) → p.recursive_include_guard ≡ true
      → unseen p.included_files known < suc n
      → IsRead known (unseen p.included_files known) (read_line regexes files include p line)
  unfolding read_line IsRead
  read_line-IsRead n include listed reads p [] on enough = (on, omega arith)
  read_line-IsRead n include listed reads p (c ∷ text) on enough =
      elim (Option-cases (regexes.includes (c ∷ text))) [
        | inr (path, e) ↦
            rw (e, read_line) (include_file-IsRead n include listed reads p path on enough)
        | inl e ↦ elim (Option-cases (regexes.defines (c ∷ text))) [
          | inl e' ↦ rw (e, e', read_line) (on, omega arith)
          | inr (pair, e') ↦ rw (e, e', read_line) (on, omega arith)
        ]
      ]

  read_lines-IsRead :
      (n : ℕ) (include : Parser → List ℕ → Option (Parser × List (List ℕ)))
      → ((f : List ℕ) → files.exists f ≡ true → seen f known ≡ true)
      → Reads known n include
      → (p : Parser) (lines : List (List ℕ)) → p.recursive_include_guard ≡ true
      → unseen p.included_files known < suc n
      → IsRead known (unseen p.included_files known) (read_lines regexes files include p lines)
  unfolding read_lines IsRead
  read_lines-IsRead n include listed reads p [] on enough = (on, omega arith)
  read_lines-IsRead n include listed reads p (line ∷ lines) on enough =
      first (λ q. read_lines-IsRead n include listed reads q lines)
        (read_line regexes files include p (cleaned line)) refl
        (read_line-IsRead n include listed reads p (cleaned line) on enough)
    where
      rest :
          (q : Parser) (out : List (List ℕ)) (r : Option (Parser × List (List ℕ)))
          → read_line regexes files include p (cleaned line) ≡ some (q, out)
          → read_lines regexes files include q lines ≡ r
          → IsRead known (unseen p.included_files known) r
          → IsRead known
              (unseen p.included_files known)
              (read_lines regexes files include p (line ∷ lines))
      rest q out none e e' bad = absurd (ground (arith, bad))
      rest q out (some (q', more)) e e' here = rw (read_lines, e, e') here

      first :
          ((q : Parser)
            → q.recursive_include_guard ≡ true
            → unseen q.included_files known < suc n
            → IsRead known
                (unseen q.included_files known)
                (read_lines regexes files include q lines))
          → (r : Option (Parser × List (List ℕ)))
          → read_line regexes files include p (cleaned line) ≡ r
          → IsRead known (unseen p.included_files known) r
          → IsRead known
              (unseen p.included_files known)
              (read_lines regexes files include p (line ∷ lines))
      first again none e bad = absurd (ground (arith, bad))
      first again (some (q, out)) e (on', fewer) =
          rest q out (read_lines regexes files include q lines) e refl (
            IsRead-weaken known _ _ (read_lines regexes files include q lines) fewer
              (again q on' (omega (arith, fewer, enough))))

  -- With the guard on, a parser reads every file to its end: a depth above the number of files that
  -- exist and have not been included suffices. The list `known` has the files that exist.
  pub read_sfz_file-IsRead :
      (depth : ℕ) (p : Parser) (path : List ℕ)
      → ((f : List ℕ) → files.exists f ≡ true → seen f known ≡ true)
      → p.recursive_include_guard ≡ true
      → unseen p.included_files known < depth
      → IsRead known (unseen p.included_files known) (read_sfz_file regexes files depth p path)
  unfolding read_sfz_file IsRead Reads
  read_sfz_file-IsRead zero p path listed on enough = absurd (omega (arith, enough))
  read_sfz_file-IsRead (suc depth) p path listed on enough =
      elim (Option-cases (files.lines path)) [
        | inl e ↦ rw (e, read_sfz_file) (on, omega arith)
        | inr (lines, e) ↦
            rw (e, read_sfz_file)
              (read_lines-IsRead depth (read_sfz_file regexes files depth) listed
                (λ q file on' enough'. read_sfz_file-IsRead depth q file listed on' enough') p lines
                on enough)
      ]
