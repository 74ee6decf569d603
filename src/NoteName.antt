-- ===== src/NoteName.antt =====
-- `readNoteValue` of sfizz/SfzHelpers.cpp: the names of the 128 notes, each in two spellings.
pub mod Names
use Prim.Native.String.{String}
use sfizz.Base.{ℕ, ◌||◌, List, [], ◌∷◌, ◌++◌, Option, none, some, ◌==◌, if◌then◌else◌}
use sfizz.StringView.{codes, hash}

abbrev octave0 : List (String × String × ℕ)
octave0 =
    ("c-1", "C-1", 0)
    ∷ ("c#-1", "C#-1", 1)
    ∷ ("d-1", "D-1", 2)
    ∷ ("d#-1", "D#-1", 3)
    ∷ ("e-1", "E-1", 4)
    ∷ ("f-1", "F-1", 5)
    ∷ ("f#-1", "F#-1", 6)
    ∷ ("g-1", "G-1", 7)
    ∷ ("g#-1", "G#-1", 8)
    ∷ ("a-1", "A-1", 9)
    ∷ ("a#-1", "A#-1", 10)
    ∷ ("b-1", "B-1", 11)
    ∷ []

abbrev octave1 : List (String × String × ℕ)
octave1 =
    ("c0", "C0", 12)
    ∷ ("c#0", "C#0", 13)
    ∷ ("d0", "D0", 14)
    ∷ ("d#0", "D#0", 15)
    ∷ ("e0", "E0", 16)
    ∷ ("f0", "F0", 17)
    ∷ ("f#0", "F#0", 18)
    ∷ ("g0", "G0", 19)
    ∷ ("g#0", "G#0", 20)
    ∷ ("a0", "A0", 21)
    ∷ ("a#0", "A#0", 22)
    ∷ ("b0", "B0", 23)
    ∷ []

abbrev octave2 : List (String × String × ℕ)
octave2 =
    ("c1", "C1", 24)
    ∷ ("c#1", "C#1", 25)
    ∷ ("d1", "D1", 26)
    ∷ ("d#1", "D#1", 27)
    ∷ ("e1", "E1", 28)
    ∷ ("f1", "F1", 29)
    ∷ ("f#1", "F#1", 30)
    ∷ ("g1", "G1", 31)
    ∷ ("g#1", "G#1", 32)
    ∷ ("a1", "A1", 33)
    ∷ ("a#1", "A#1", 34)
    ∷ ("b1", "B1", 35)
    ∷ []

abbrev octave3 : List (String × String × ℕ)
octave3 =
    ("c2", "C2", 36)
    ∷ ("c#2", "C#2", 37)
    ∷ ("d2", "D2", 38)
    ∷ ("d#2", "D#2", 39)
    ∷ ("e2", "E2", 40)
    ∷ ("f2", "F2", 41)
    ∷ ("f#2", "F#2", 42)
    ∷ ("g2", "G2", 43)
    ∷ ("g#2", "G#2", 44)
    ∷ ("a2", "A2", 45)
    ∷ ("a#2", "A#2", 46)
    ∷ ("b2", "B2", 47)
    ∷ []

abbrev octave4 : List (String × String × ℕ)
octave4 =
    ("c3", "C3", 48)
    ∷ ("c#3", "C#3", 49)
    ∷ ("d3", "D3", 50)
    ∷ ("d#3", "D#3", 51)
    ∷ ("e3", "E3", 52)
    ∷ ("f3", "F3", 53)
    ∷ ("f#3", "F#3", 54)
    ∷ ("g3", "G3", 55)
    ∷ ("g#3", "G#3", 56)
    ∷ ("a3", "A3", 57)
    ∷ ("a#3", "A#3", 58)
    ∷ ("b3", "B3", 59)
    ∷ []

abbrev octave5 : List (String × String × ℕ)
octave5 =
    ("c4", "C4", 60)
    ∷ ("c#4", "C#4", 61)
    ∷ ("d4", "D4", 62)
    ∷ ("d#4", "D#4", 63)
    ∷ ("e4", "E4", 64)
    ∷ ("f4", "F4", 65)
    ∷ ("f#4", "F#4", 66)
    ∷ ("g4", "G4", 67)
    ∷ ("g#4", "G#4", 68)
    ∷ ("a4", "A4", 69)
    ∷ ("a#4", "A#4", 70)
    ∷ ("b4", "B4", 71)
    ∷ []

abbrev octave6 : List (String × String × ℕ)
octave6 =
    ("c5", "C5", 72)
    ∷ ("c#5", "C#5", 73)
    ∷ ("d5", "D5", 74)
    ∷ ("d#5", "D#5", 75)
    ∷ ("e5", "E5", 76)
    ∷ ("f5", "F5", 77)
    ∷ ("f#5", "F#5", 78)
    ∷ ("g5", "G5", 79)
    ∷ ("g#5", "G#5", 80)
    ∷ ("a5", "A5", 81)
    ∷ ("a#5", "A#5", 82)
    ∷ ("b5", "B5", 83)
    ∷ []

abbrev octave7 : List (String × String × ℕ)
octave7 =
    ("c6", "C6", 84)
    ∷ ("c#6", "C#6", 85)
    ∷ ("d6", "D6", 86)
    ∷ ("d#6", "D#6", 87)
    ∷ ("e6", "E6", 88)
    ∷ ("f6", "F6", 89)
    ∷ ("f#6", "F#6", 90)
    ∷ ("g6", "G6", 91)
    ∷ ("g#6", "G#6", 92)
    ∷ ("a6", "A6", 93)
    ∷ ("a#6", "A#6", 94)
    ∷ ("b6", "B6", 95)
    ∷ []

abbrev octave8 : List (String × String × ℕ)
octave8 =
    ("c7", "C7", 96)
    ∷ ("c#7", "C#7", 97)
    ∷ ("d7", "D7", 98)
    ∷ ("d#7", "D#7", 99)
    ∷ ("e7", "E7", 100)
    ∷ ("f7", "F7", 101)
    ∷ ("f#7", "F#7", 102)
    ∷ ("g7", "G7", 103)
    ∷ ("g#7", "G#7", 104)
    ∷ ("a7", "A7", 105)
    ∷ ("a#7", "A#7", 106)
    ∷ ("b7", "B7", 107)
    ∷ []

abbrev octave9 : List (String × String × ℕ)
octave9 =
    ("c8", "C8", 108)
    ∷ ("c#8", "C#8", 109)
    ∷ ("d8", "D8", 110)
    ∷ ("d#8", "D#8", 111)
    ∷ ("e8", "E8", 112)
    ∷ ("f8", "F8", 113)
    ∷ ("f#8", "F#8", 114)
    ∷ ("g8", "G8", 115)
    ∷ ("g#8", "G#8", 116)
    ∷ ("a8", "A8", 117)
    ∷ ("a#8", "A#8", 118)
    ∷ ("b8", "B8", 119)
    ∷ []

abbrev octave10 : List (String × String × ℕ)
octave10 =
    ("c9", "C9", 120)
    ∷ ("c#9", "C#9", 121)
    ∷ ("d9", "D9", 122)
    ∷ ("d#9", "D#9", 123)
    ∷ ("e9", "E9", 124)
    ∷ ("f9", "F9", 125)
    ∷ ("f#9", "F#9", 126)
    ∷ ("g9", "G9", 127)
    ∷ []

abbrev note_cases : List (String × String × ℕ)
note_cases =
    octave0
    ++ (octave1
        ++ (octave2
            ++ (octave3
                ++ (octave4
                    ++ (octave5 ++ (octave6 ++ (octave7 ++ (octave8 ++ (octave9 ++ octave10)))))))))

-- The cases of the switch, on the hash of the view.
switch : List (String × String × ℕ) → ℕ → Option ℕ
unfolding hash
switch [] h = none
switch ((lower, upper, n) ∷ cases) h =
    if h == hash (codes lower) || h == hash (codes upper) then some n else switch cases h

unfoldable pub read_note_value : List ℕ → Option ℕ
unfolding switch
read_note_value s = switch note_cases (hash s)
