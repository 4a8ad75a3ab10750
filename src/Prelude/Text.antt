-- ===== src/Prelude/Text.antt =====
-- Text: whole texts are native strings; a program that walks a text walks its code points.
use Prim.Native.Nat.{ℕ, zero, suc, ◌+◌, ◌/◌, ◌%◌}
use Prim.Native.Char.{code}
use Prim.Native.String.{String, ◌++◌ as str_append}
use mathlib.Core.Bool.{Bool, true, false, ◌&&◌, ◌||◌}
use mathlib.Core.List.{List, [], ◌∷◌, ◌++◌, map}
use text.Mathlib.Text.{◌==◌}
use merita.Prelude.Tests.{ltb, leb, eqb, if◌then◌else◌}

-- The code points of a text.
abbrev pub codes : String → List ℕ
codes String.[] = []
codes (String.◌∷◌ c s) = code c ∷ codes s

-- An f-string, as the list of its parts.
abbrev pub concat : List String → String
concat [] = ""
concat (s ∷ rest) = str_append s (concat rest)

-- `s[:n]`, which counts code points.
unfoldable pub take_text : ℕ → String → String
take_text zero s = ""
take_text (suc n) String.[] = ""
take_text (suc n) (String.◌∷◌ c s) = String.◌∷◌ c (take_text n s)

-- `lower()` on ASCII, which is `bytes.lower` exactly.
unfoldable pub lower_code : ℕ → ℕ
lower_code c = if leb b'A' c && leb c b'Z' then c + 32 else c

unfoldable pub lower : List ℕ → List ℕ
unfolding lower_code
lower = map lower_code

abbrev pub codes_eq : List ℕ → List ℕ → Bool
codes_eq [] [] = true
codes_eq (a ∷ xs) (b ∷ ys) = eqb a b && codes_eq xs ys
codes_eq _ _ = false

abbrev pub prefix_of : List ℕ → List ℕ → Bool
prefix_of [] t = true
prefix_of (a ∷ s) [] = false
prefix_of (a ∷ s) (b ∷ t) = eqb a b && prefix_of s t

-- Python's `s in t`.
unfoldable pub contains : List ℕ → List ℕ → Bool
contains s [] = prefix_of s []
contains s (b ∷ t) = prefix_of s (b ∷ t) || contains s t

-- The UTF-8 bytes of a code point, and of a text: `str.encode()`.
unfoldable pub utf8_code : ℕ → List ℕ
utf8_code c =
    if ltb c 0x80
    then c ∷ []
    else if ltb c 0x800
    then (0xc0 + c / 64) ∷ (0x80 + c % 64) ∷ []
    else if ltb c 0x10000
    then (0xe0 + c / 4096) ∷ (0x80 + c / 64 % 64) ∷ (0x80 + c % 64) ∷ []
    else (0xf0 + c / 262144) ∷ (0x80 + c / 4096 % 64) ∷ (0x80 + c / 64 % 64) ∷ (0x80 + c % 64) ∷ []

unfoldable pub encode_codes : List ℕ → List ℕ
encode_codes [] = []
encode_codes (c ∷ cs) = utf8_code c ++ encode_codes cs

unfoldable pub encode : String → List ℕ
unfolding encode_codes utf8_code
encode s = encode_codes (codes s)

-- The characters that Python's `strip` takes off and `split` cuts at.
abbrev pub is_space : ℕ → Bool
is_space c =
    (leb 9 c && leb c 13)
    || (leb 28 c && leb c 32)
    || eqb c 0x85
    || eqb c 0xa0
    || eqb c 0x1680
    || (leb 0x2000 c && leb c 0x200a)
    || eqb c 0x2028
    || eqb c 0x2029
    || eqb c 0x202f
    || eqb c 0x205f
    || eqb c 0x3000

-- `s.strip()` on a text.
unfoldable pub strip_start : String → String
strip_start String.[] = ""
strip_start (String.◌∷◌ c s) = if is_space (code c) then strip_start s else String.◌∷◌ c s

unfoldable pub strip_end : String → String
strip_end String.[] = ""
strip_end (String.◌∷◌ c s) =
    let rest = strip_end s in if is_space (code c) && rest == "" then "" else String.◌∷◌ c rest

unfoldable pub strip_text : String → String
unfolding strip_start strip_end
strip_text s = strip_end (strip_start s)

-- Whether every code point of a text is below 128.
unfoldable pub is_ascii : String → Bool
is_ascii String.[] = true
is_ascii (String.◌∷◌ c s) = ltb (code c) 0x80 && is_ascii s
