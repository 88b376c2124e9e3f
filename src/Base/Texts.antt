-- ===== src/Base/Texts.antt =====
-- `String` and `str` as lists of code points, with the standard library's functions on them.
-- A length in bytes is that of the UTF-8 encoding.
use Prim.Native.Nat.{ℕ, ◌+◌, ◌≤◌}
use Prim.Native.Char.{code}
use Prim.Native.String.{String}
use mathlib.Core.Path.{◌≡◌, refl}
use mathlib.Core.Bool.{Bool, true, false, ◌&&◌, ◌||◌}
use mathlib.Core.List.{List, [], ◌∷◌, ◌++◌, reverse}
use native.Mathlib.Omega.{arith}
use code_mentat.Base.Tests.{leb, ltb, nat_beq, if◌then◌else◌}
use code_mentat.Base.Lists.{is_empty}

abbrev pub Text : Type 0
Text = List ℕ

-- A literal of the source.
abbrev pub codes : String → Text
codes String.[] = []
codes (String.◌∷◌ c s) = code c ∷ codes s

unfoldable pub char_len : ℕ → ℕ
char_len c = if ltb c 0x80 then 1 else if ltb c 0x800 then 2 else if ltb c 0x10000 then 3 else 4

-- `str::len`.
unfoldable pub byte_len : Text → ℕ
byte_len [] = 0
byte_len (c ∷ t) = char_len c + byte_len t

unfoldable pub is_whitespace : ℕ → Bool
is_whitespace c =
    (leb 9 c && leb c 13)
    || nat_beq c 0x20
    || nat_beq c 0x85
    || nat_beq c 0xA0
    || nat_beq c 0x1680
    || (leb 0x2000 c && leb c 0x200A)
    || nat_beq c 0x2028
    || nat_beq c 0x2029
    || nat_beq c 0x202F
    || nat_beq c 0x205F
    || nat_beq c 0x3000

unfoldable pub trim_start : Text → Text
trim_start [] = []
trim_start (c ∷ t) = let rest = trim_start t in if is_whitespace c then rest else c ∷ t

unfoldable pub trim : Text → Text
unfolding trim_start is_whitespace
trim t = reverse (trim_start (reverse (trim_start t)))

unfoldable pub trim_start_char : ℕ → Text → Text
trim_start_char k [] = []
trim_start_char k (c ∷ t) = let rest = trim_start_char k t in if nat_beq c k then rest else c ∷ t

-- `str::trim_end_matches` of one character.
unfoldable pub trim_end_char : ℕ → Text → Text
unfolding trim_start_char
trim_end_char k t = reverse (trim_start_char k (reverse t))

-- `str::starts_with`.
unfoldable pub starts_with : Text → Text → Bool
starts_with [] t = true
starts_with (p ∷ ps) [] = false
starts_with (p ∷ ps) (c ∷ t) = nat_beq p c && starts_with ps t

-- `str::contains`.
unfoldable pub has_substring : Text → Text → Bool
unfolding starts_with
has_substring q [] = is_empty q
has_substring q (c ∷ t) = starts_with q (c ∷ t) || has_substring q t

-- `str::replace` of one character by another.
unfoldable pub replace_char : ℕ → ℕ → Text → Text
replace_char a b [] = []
replace_char a b (c ∷ t) = (if nat_beq c a then b else c) ∷ replace_char a b t

abbrev prepend : ℕ → List Text → List Text
prepend c [] = (c ∷ []) ∷ []
prepend c (l ∷ ls) = (c ∷ l) ∷ ls

-- `str::lines`: a line ends at "\n" or "\r\n", and the last ending is optional.
unfoldable pub lines : Text → List Text
lines [] = []
lines (c ∷ []) = if nat_beq c 10 then [] ∷ [] else (c ∷ []) ∷ []
lines (c ∷ d ∷ t) =
    let rest = lines (d ∷ t) in
    if nat_beq c 10
    then [] ∷ rest
    else if nat_beq c 13 && nat_beq d 10
    then rest
    else prepend c rest

-- `[&str]::join("\n")`.
unfoldable pub join_lines : List Text → Text
join_lines [] = []
join_lines (l ∷ []) = l
join_lines (l ∷ m ∷ ls) = l ++ (10 ∷ join_lines (m ∷ ls))

pub char_len-pos : (c : ℕ) → (1 ≤ char_len c) × (char_len c ≤ 4)
unfolding char_len
char_len-pos c = ground arith

pub byte_len-append : (s t : Text) → byte_len (s ++ t) ≡ byte_len s + byte_len t
unfolding byte_len
byte_len-append [] t = omega arith
byte_len-append (c ∷ s) t = omega (arith, byte_len-append s t)

lines_test : lines (codes "a\nbc\n\nd") ≡ codes "a" ∷ codes "bc" ∷ [] ∷ codes "d" ∷ []
unfolding lines
lines_test = refl

trim_test : trim (codes "  a b ") ≡ codes "a b"
unfolding trim
trim_test = refl

crlf_test : lines (13 ∷ 10 ∷ 97 ∷ []) ≡ [] ∷ (97 ∷ []) ∷ []
unfolding lines
crlf_test = refl
