-- ===== src/Parser/Includes.antt =====
-- Parser.cpp, `readSfzFile`: files that include files.
use sfizz.Base.{
  ℕ, zero, suc, ◌≡◌, refl, Bool, true, false, List, [], ◌∷◌, ◌++◌, ◌∙◌, Option, none, some, arith,
  if◌then◌else◌, Bool-cases, inl, inr,
}
use sfizz.Parser.{
  Regexes, Files, Parser, seen, cleaned, slashes, include_file, read_line, read_lines,
  read_sfz_file,
}

if_off : {A : Type 0} (b : Bool) (x y : A) → b ≡ false → (if b then x else y) ≡ y
if_off true x y e = absurd (ground (arith, e))
if_off false x y e = refl

module _ (regexes : Regexes) (files : Files) where
  include_file-none :
      (include : Parser → List ℕ → Option (Parser × List (List ℕ)))
      → (p : Parser) (path name : List ℕ) → p.recursive_include_guard ≡ false
      → files.join p.root_directory (slashes name) ≡ path
      → files.exists path ≡ true
      → include p path ≡ none
      → include (record p { included_files = p.included_files ++ (path ∷ []) }) path ≡ none
      → include_file regexes files include p name ≡ none
  unfolding include_file
  include_file-none include p path name off same there again first =
      elim (Bool-cases (seen path p.included_files)) [
        | inl e ↦
            rw (same, there, e, include_file) (if_off p.recursive_include_guard _ _ off ∙ again)
        | inr e ↦ rw (same, there, e, include_file) first
      ]

  -- Without the guard, which is off by default, a file whose first line includes the file itself is
  -- read to no end: no depth of nesting suffices.
  pub read_sfz_file-loop :
      (depth : ℕ) (p : Parser) (path line : List ℕ) (lines : List (List ℕ)) (c : ℕ)
      (text name : List ℕ)
      → p.recursive_include_guard ≡ false
      → files.lines path ≡ some (line ∷ lines)
      → cleaned line ≡ c ∷ text
      → regexes.includes (c ∷ text) ≡ some name
      → files.join p.root_directory (slashes name) ≡ path
      → files.exists path ≡ true
      → read_sfz_file regexes files depth p path ≡ none
  unfolding read_sfz_file read_lines read_line
  read_sfz_file-loop zero p path line lines c text name off has clean inc same there = refl
  read_sfz_file-loop (suc depth) p path line lines c text name off has clean inc same there =
      let loop =
        include_file-none (read_sfz_file regexes files depth) p path name off same there
          (read_sfz_file-loop depth p path line lines c text name off has clean inc same there)
          (read_sfz_file-loop depth (record p { included_files = p.included_files ++ (path ∷ []) })
            path line lines c text name off has clean inc same there) in
      rw (read_sfz_file, has, read_lines, clean, read_line, inc, loop) refl
