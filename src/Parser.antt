-- ===== src/Parser.antt =====
-- sfizz/Parser.h and sfizz/Parser.cpp. The regular expressions of sfizz/Regexes.h, `std::ifstream`
-- and the paths are parameters. A text is the list of its characters.

pub mod Includes
pub mod Guarded
use sfizz.Base.{
  ℕ, zero, suc, ◌-◌, Bool, true, false, not, ◌||◌, List, [], ◌∷◌, ◌++◌, Option, none, some, ◌==◌,
  if◌then◌else◌, map, length, take,
}
use sfizz.StringView.{codes, trim, remove_comment_on_line, is_same}
use sfizz.Opcode
use sfizz.Opcode.{Numbers, Opcode}

-- The matches of the four expressions in use, by their groups.
pub record Regexes : Type 0 where
  pub includes : List ℕ → Option (List ℕ)
  pub defines : List ℕ → Option (List ℕ × List ℕ)
  pub headers : List ℕ → List (List ℕ × List ℕ)
  pub members : List ℕ → List (List ℕ × List ℕ)

-- `lines` is `none` where the stream cannot be opened.
pub record Files : Type 0 where
  pub lines : List ℕ → Option (List (List ℕ))
  pub exists : List ℕ → Bool
  pub join : List ℕ → List ℕ → List ℕ
  pub parent_path : List ℕ → List ℕ
  pub is_absolute : List ℕ → Bool

-- The order of the definitions does not matter: their names differ.
pub record Parser : Type 0 where
  pub root_directory : List ℕ
  pub recursive_include_guard : Bool
  pub defines : List (List ℕ × List ℕ)
  pub included_files : List (List ℕ)

unfoldable pub enable_recursive_include_guard : Parser → Parser
enable_recursive_include_guard p = record p { recursive_include_guard = true }

unfoldable pub disable_recursive_include_guard : Parser → Parser
disable_recursive_include_guard p = record p { recursive_include_guard = false }

unfoldable pub seen : List ℕ → List (List ℕ) → Bool
unfolding is_same
seen path [] = false
seen path (other ∷ paths) = is_same other path || seen path paths

-- `defines[name] = value`.
unfoldable pub define : List ℕ → List ℕ → List (List ℕ × List ℕ) → List (List ℕ × List ℕ)
unfolding is_same
define name value [] = (name, value) ∷ []
define name value ((other, old) ∷ rest) =
    if is_same other name then (other, value) ∷ rest else (other, old) ∷ define name value rest

unfoldable pub defined : List ℕ → List (List ℕ × List ℕ) → Option (List ℕ)
unfolding is_same
defined name [] = none
defined name ((other, value) ∷ rest) = if is_same other name then some value else defined name rest

-- `"= \r\t\n\f\v"`, by their codes.
abbrev ends_define : ℕ → Bool
ends_define c = c == 61 || c == 32 || c == 13 || c == 9 || c == 10 || c == 12 || c == 11

-- The candidate up to a character that ends it.
unfoldable pub candidate : List ℕ → List ℕ
candidate [] = []
candidate (c ∷ text) = if ends_define c then [] else c ∷ candidate text

-- `config::defineCharacter`.
abbrev pub define_character : ℕ
define_character = 36

-- The loop over the text; `skip` characters of a name that was replaced are passed over. A `$` that
-- begins no name stays.
unfoldable pub replace_from : List (List ℕ × List ℕ) → ℕ → List ℕ → List ℕ
unfolding defined candidate
replace_from defines skip [] = []
replace_from defines (suc skip) (c ∷ text) = replace_from defines skip text
replace_from defines zero (c ∷ text) =
    let name = c ∷ candidate text in
    let kept = c ∷ replace_from defines zero text in
    let rest = replace_from defines (length (candidate text)) text in
    if c == define_character
    then elim (defined name defines) [ none ↦ kept | some value ↦ value ++ rest ]
    else kept

-- `std::replace` of backslashes.
abbrev pub slashes : List ℕ → List ℕ
slashes path = map (λ c. if c == 92 then 47 else c) path

-- A line, without its comment and the spaces around it.
abbrev pub cleaned : List ℕ → List ℕ
cleaned line = trim (remove_comment_on_line line)

module _ (regexes : Regexes) (files : Files) where
  -- `include` reads another file.
  unfoldable pub include_file :
      (Parser → List ℕ → Option (Parser × List (List ℕ)))
      → Parser
      → List ℕ
      → Option (Parser × List (List ℕ))
  unfolding seen
  include_file include p path =
      let file = files.join p.root_directory (slashes path) in
      let added = record p { included_files = p.included_files ++ (file ∷ []) } in
      if files.exists file
      then if seen file p.included_files
        then if p.recursive_include_guard then some (p, []) else include p file
        else include added file
      else some (p, [])

  -- What a line does, and the lines that it adds.
  unfoldable pub read_line :
      (Parser → List ℕ → Option (Parser × List (List ℕ)))
      → Parser
      → List ℕ
      → Option (Parser × List (List ℕ))
  unfolding include_file define replace_from
  read_line include p [] = some (p, [])
  read_line include p (c ∷ text) = elim (regexes.includes (c ∷ text)) [
    | some path ↦ include_file include p path
    | none ↦ elim (regexes.defines (c ∷ text)) [
      | some (name, value) ↦ some (record p { defines = define name value p.defines }, [])
      | none ↦ some (p, replace_from p.defines 0 (c ∷ text) ∷ [])
    ]
  ]

  unfoldable pub read_lines :
      (Parser → List ℕ → Option (Parser × List (List ℕ)))
      → Parser
      → List (List ℕ)
      → Option (Parser × List (List ℕ))
  unfolding read_line
  read_lines include p [] = some (p, [])
  read_lines include p (line ∷ lines) = elim (read_line include p (cleaned line)) [
    | none ↦ none
    | some (p', out) ↦ elim (read_lines include p' lines) [
      | none ↦ none
      | some (p'', more) ↦ some (p'', out ++ more)
    ]
  ]

  -- `readSfzFile`, by the depth to which files may include others: `none` is a deeper nesting.
  unfoldable pub read_sfz_file : ℕ → Parser → List ℕ → Option (Parser × List (List ℕ))
  unfolding read_lines
  read_sfz_file zero p path = none
  read_sfz_file (suc depth) p path = elim (files.lines path) [
    | none ↦ some (p, [])
    | some lines ↦ read_lines (read_sfz_file depth) p lines
  ]

  -- `absl::StrJoin(lines, " ")`.
  unfoldable pub str_join : List (List ℕ) → List ℕ
  str_join [] = []
  str_join (line ∷ []) = line
  str_join (line ∷ next ∷ lines) = line ++ (32 ∷ str_join (next ∷ lines))

  module _ {F : Type 0} (numbers : Numbers F) where
    -- The headers with their opcodes, in the order of the calls of `callback`.
    unfoldable pub headers_of : List (List ℕ × List ℕ) → List (List ℕ × List Opcode)
    headers_of [] = []
    headers_of ((header, members) ∷ rest) =
        (
          header,
          map (λ (m : List ℕ × List ℕ). Opcode.make numbers m.0 m.1) (regexes.members members),
        )
        ∷ headers_of rest

    -- `loadSfzFile` gives the parser, and what it calls back with if the file is there.
    unfoldable pub load_sfz_file :
        ℕ → Parser → List ℕ → Option (Parser × Option (List (List ℕ × List Opcode)))
    unfolding read_sfz_file headers_of str_join
    load_sfz_file depth p file =
        let path = if files.is_absolute file then file else files.join p.root_directory file in
        let rooted = record p { root_directory = files.parent_path file } in
        if files.exists path
        then elim (read_sfz_file depth rooted file) [
          | none ↦ none
          | some (p', lines) ↦ some (p', some (headers_of (regexes.headers (str_join lines))))
        ]
        else some (p, none)
