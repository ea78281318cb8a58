-- ===== src/Smpp/Coding.antt =====
-- The GSM 7-bit alphabet of smpp/coding.go with its lengths, DetectCoding, and the codings with one
-- byte for a character. A text is the list of the runes that `range` yields.
pub mod Detect
use go_smsc.Prelude.{
  ℕ, suc, ◌+◌, Bool, true, false, List, [], ◌∷◌, Option, none, some, ltb, ◌==◌, if◌then◌else◌,
}

-- gsm7Default: the rune of each value from 0 on. The value 0x1B is the escape.
abbrev pub gsm7_default : List ℕ
gsm7_default =
    64 ∷ 0xA3 ∷ 36 ∷ 0xA5 ∷ 0xE8 ∷ 0xE9 ∷ 0xF9 ∷ 0xEC ∷ 0xF2 ∷ 0xC7 ∷ 10 ∷ 0xD8 ∷ 0xF8 ∷ 13 ∷ 0xC5
    ∷ 0xE5 ∷ 0x394 ∷ 95 ∷ 0x3A6 ∷ 0x393 ∷ 0x39B ∷ 0x3A9 ∷ 0x3A0 ∷ 0x3A8 ∷ 0x3A3 ∷ 0x398 ∷ 0x39E
    ∷ 0x1B ∷ 0xC6 ∷ 0xE6 ∷ 0xDF ∷ 0xC9 ∷ 32 ∷ 33 ∷ 34 ∷ 35 ∷ 0xA4 ∷ 37 ∷ 38 ∷ 39 ∷ 40 ∷ 41 ∷ 42 ∷ 43
    ∷ 44 ∷ 45 ∷ 46 ∷ 47 ∷ 48 ∷ 49 ∷ 50 ∷ 51 ∷ 52 ∷ 53 ∷ 54 ∷ 55 ∷ 56 ∷ 57 ∷ 58 ∷ 59 ∷ 60 ∷ 61 ∷ 62
    ∷ 63 ∷ 0xA1 ∷ 65 ∷ 66 ∷ 67 ∷ 68 ∷ 69 ∷ 70 ∷ 71 ∷ 72 ∷ 73 ∷ 74 ∷ 75 ∷ 76 ∷ 77 ∷ 78 ∷ 79 ∷ 80 ∷ 81
    ∷ 82 ∷ 83 ∷ 84 ∷ 85 ∷ 86 ∷ 87 ∷ 88 ∷ 89 ∷ 90 ∷ 0xC4 ∷ 0xD6 ∷ 0xD1 ∷ 0xDC ∷ 0xA7 ∷ 0xBF ∷ 97 ∷ 98
    ∷ 99 ∷ 100 ∷ 101 ∷ 102 ∷ 103 ∷ 104 ∷ 105 ∷ 106 ∷ 107 ∷ 108 ∷ 109 ∷ 110 ∷ 111 ∷ 112 ∷ 113 ∷ 114
    ∷ 115 ∷ 116 ∷ 117 ∷ 118 ∷ 119 ∷ 120 ∷ 121 ∷ 122 ∷ 0xE4 ∷ 0xF6 ∷ 0xF1 ∷ 0xFC ∷ 0xE0 ∷ []

-- gsm7Extension: the value behind the escape, and its rune.
abbrev pub gsm7_extension : List (ℕ × ℕ)
gsm7_extension =
    (0x0A, 12)
    ∷ (0x14, 94)
    ∷ (0x28, 123)
    ∷ (0x29, 125)
    ∷ (0x2F, 92)
    ∷ (0x3C, 91)
    ∷ (0x3D, 126)
    ∷ (0x3E, 93)
    ∷ (0x40, 124)
    ∷ (0x65, 0x20AC)
    ∷ []

-- The position of a rune from `i` on; the escape is left out.
unfoldable pub position_of : ℕ → ℕ → List ℕ → Option ℕ
position_of r i [] = none
position_of r i (c ∷ cs) =
    if i == 0x1B
    then position_of r (i + 1) cs
    else if c == r
    then some i
    else position_of r (i + 1) cs

unfoldable pub code_of : ℕ → List (ℕ × ℕ) → Option ℕ
code_of r [] = none
code_of r ((code, c) ∷ es) = if c == r then some code else code_of r es

-- The two maps that init builds.
unfoldable pub unicode_to_gsm7 : ℕ → Option ℕ
unfolding position_of
unicode_to_gsm7 r = position_of r 0 gsm7_default

unfoldable pub unicode_to_gsm7_ext : ℕ → Option ℕ
unfolding code_of
unicode_to_gsm7_ext r = code_of r gsm7_extension

unfoldable pub is_gsm7 : ℕ → Bool
unfolding unicode_to_gsm7 unicode_to_gsm7_ext
is_gsm7 r = elim (unicode_to_gsm7 r) [
  | some code ↦ true
  | none ↦ elim (unicode_to_gsm7_ext r) [ some code ↦ true | none ↦ false ]
]

-- `none` is the source's -1.
unfoldable pub gsm7_len : ℕ → Option ℕ
unfolding unicode_to_gsm7 unicode_to_gsm7_ext
gsm7_len r = elim (unicode_to_gsm7 r) [
  | some code ↦ some 1
  | none ↦ elim (unicode_to_gsm7_ext r) [ some code ↦ some 2 | none ↦ none ]
]

abbrev pub data_coding_default : ℕ
data_coding_default = 0x00

abbrev pub data_coding_ucs2 : ℕ
data_coding_ucs2 = 0x08

unfoldable pub detect_coding : List ℕ → ℕ
unfolding is_gsm7
detect_coding [] = data_coding_default
detect_coding (r ∷ text) = if is_gsm7 r then detect_coding text else data_coding_ucs2

-- EncodeLatin1 and EncodeIA5 differ in the last rune they take.
unfoldable pub encode_up_to : ℕ → List ℕ → Option (List ℕ)
encode_up_to last [] = some []
encode_up_to last (r ∷ text) = elim (encode_up_to last text) [
  | none ↦ none
  | some rest ↦ if ltb last r then none else some (r ∷ rest)
]

pub encode_latin1 : List ℕ → Option (List ℕ)
unfolding encode_up_to
encode_latin1 text = encode_up_to 0xFF text

pub encode_ia5 : List ℕ → Option (List ℕ)
unfolding encode_up_to
encode_ia5 text = encode_up_to 0x7F text
