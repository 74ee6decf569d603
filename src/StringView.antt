-- ===== src/StringView.antt =====
-- sfizz/StringViewHelpers.h, and `removeCommentOnLine` of sfizz/Parser.cpp. A view is the list of
-- its bytes.
pub mod Trim
pub mod Same
use Prim.Native.Char.{code}
use Prim.Native.String.{String}
use Prim.Native.Nat.{bit_xor}
use sfizz.Base.{
  ℕ, true, false, suc, ◌+◌, ◌-◌, ◌*◌, ◌%◌, ◌^◌, Bool, ◌||◌, not, List, [], ◌∷◌, Option, none, some,
  ltb, ◌==◌, ◌&&◌, if◌then◌else◌, length, take, drop,
}

abbrev pub codes : String → List ℕ
codes String.[] = []
codes (String.◌∷◌ c s) = code c ∷ codes s

-- " \r\t\n\f\v".
abbrev pub is_space : ℕ → Bool
is_space c = c == 32 || c == 13 || c == 9 || c == 10 || c == 12 || c == 11

abbrev pub is_digit : ℕ → Bool
is_digit c = ltb 47 c && ltb c 58

-- The position of the first byte that satisfies the test; `none` is `npos`.
unfoldable pub find_first : (ℕ → Bool) → List ℕ → Option ℕ
find_first p [] = none
find_first p (c ∷ s) =
    if p c then some 0 else elim (find_first p s) [ none ↦ none | some i ↦ some (suc i) ]

-- The position of the last such byte.
unfoldable pub find_last : (ℕ → Bool) → List ℕ → Option ℕ
find_last p [] = none
find_last p (c ∷ s) = elim (find_last p s) [
  | none ↦ if p c then some 0 else none
  | some i ↦ some (suc i)
]

abbrev pub is_other : ℕ → Bool
is_other c = not (is_space c)

-- `remove_suffix(size - right - 1)`.
trim_right : List ℕ → List ℕ
trim_right s = elim (find_last is_other s) [ none ↦ s | some right ↦ take (suc right) s ]

-- `trim`, and what `trimInPlace` stores.
unfoldable pub trim : List ℕ → List ℕ
unfolding find_first find_last trim_right
trim s = elim (find_first is_other s) [ none ↦ [] | some left ↦ trim_right (drop left s) ]

-- A `char` is signed: a byte from 128 on is extended by ones to 64 bits.
unfoldable pub extend_char : ℕ → ℕ
extend_char c = if ltb c 128 then c else 2 ^ 64 - 256 + c

abbrev fnv1a_basis : ℕ
fnv1a_basis = 0x811C9DC5

abbrev fnv1a_prime : ℕ
fnv1a_prime = 0x01000193

hash_from : List ℕ → ℕ → ℕ
unfolding extend_char
hash_from [] h = h
hash_from (c ∷ s) h = hash_from s (bit_xor h (extend_char c) * fnv1a_prime % 2 ^ 64)

unfoldable pub hash : List ℕ → ℕ
unfolding hash_from
hash s = hash_from s fnv1a_basis

-- `case hash(label)` of a switch on the hash of a view.
unfoldable pub is_case : List ℕ → String → Bool
unfolding hash
is_case s label = hash s == hash (codes label)

-- The position of the first "//".
find_comment : List ℕ → Option ℕ
find_comment [] = none
find_comment (c ∷ []) = none
find_comment (c ∷ d ∷ s) =
    if c == 47 && d == 47
    then some 0
    else elim (find_comment (d ∷ s)) [ none ↦ none | some i ↦ some (suc i) ]

unfoldable pub remove_comment_on_line : List ℕ → List ℕ
unfolding find_comment
remove_comment_on_line line = elim (find_comment line) [
  | none ↦ line
  | some position ↦ take position line
]

-- `==` on views.
unfoldable pub is_same : List ℕ → List ℕ → Bool
is_same [] [] = true
is_same (c ∷ s) (d ∷ t) = c == d && is_same s t
is_same _ _ = false
