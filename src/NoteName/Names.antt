-- ===== src/NoteName/Names.antt =====
-- SfzHelpers.cpp: the names of the notes against their description, pitch class and octave.
use sfizz.Base.{
  ℕ, ◌+◌, ◌-◌, ◌/◌, ◌%◌, ◌<◌, ◌≡◌, refl, Bool, true, ◌&&◌, List, [], ◌∷◌, ◌++◌, Option, none, some,
  arith, ◌==◌, ==_iff, get_or, if◌then◌else◌, holds_below, at-holds_below, ltb, All, is_just, map,
}
use Prim.Native.String.{String}
use sfizz.StringView.{codes, hash}
use sfizz.NoteName.{note_cases, switch, read_note_value}

abbrev pub pitch_classes : List String
pitch_classes = "c" ∷ "c#" ∷ "d" ∷ "d#" ∷ "e" ∷ "f" ∷ "f#" ∷ "g" ∷ "g#" ∷ "a" ∷ "a#" ∷ "b" ∷ []

abbrev pub capital : ℕ → ℕ
capital c = if ltb 96 c && ltb c 123 then c - 32 else c

-- Twelve notes to the octave, from octave -1.
abbrev pub octave : ℕ → List ℕ
octave n = if n / 12 == 0 then codes "-1" else (47 + n / 12) ∷ []

abbrev pub note_name : ℕ → List ℕ
note_name n = codes (get_or pitch_classes (n % 12) "") ++ octave n

abbrev pub capital_name : ℕ → List ℕ
capital_name n = map capital (note_name n)

names_table :
    holds_below
      (λ n.
        is_just (read_note_value (note_name n)) n && is_just (read_note_value (capital_name n)) n)
      128
    ≡ true
unfolding holds_below read_note_value
names_table = refl

is_just-eq : (o : Option ℕ) (n : ℕ) → is_just o n ≡ true → o ≡ some n
is_just-eq none n h = cc
is_just-eq (some k) n h = ground (arith, ==_iff k n)

&&-parts : (a b : Bool) → (a && b) ≡ true → (a ≡ true) × (b ≡ true)
&&-parts a b h = ground arith

-- Each of the 128 notes is read back from its name, in lower case and in capitals.
pub read_note_value-note_name :
    (n : ℕ)
    → n < 128
    → (read_note_value (note_name n) ≡ some n) × (read_note_value (capital_name n) ≡ some n)
read_note_value-note_name n h =
    let (lower, upper) = &&-parts _ _ (at-holds_below _ 128 n names_table h) in
    (is_just-eq _ n lower, is_just-eq _ n upper)

switch-lt :
    (cases : List (String × String × ℕ)) (h n : ℕ)
    → All (λ c. c.2 < 128) cases
    → switch cases h ≡ some n
    → n < 128
unfolding switch
switch-lt [] h n a e = cc
switch-lt (c ∷ cases) h n a e = ground (arith, switch-lt cases h n a.1)

-- Whatever text is read as a note, the note is below 128.
pub read_note_value-lt : (s : List ℕ) (n : ℕ) → read_note_value s ≡ some n → n < 128
unfolding read_note_value
read_note_value-lt s n e = switch-lt note_cases (hash s) n (omega arith) e
