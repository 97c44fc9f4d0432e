-- ===== src/Text.antt =====
-- The functions of Go's `strings` and `fmt` that the program calls, on texts of code points.
-- `strings.ToLower` maps the ASCII letters here; what it does to other letters is the argument
-- `lower_rune`, the simple case mapping of Unicode's tables.
pub mod Laws
pub mod Base64
pub mod Base32
pub mod Utf8
use Prim.Native.Char.{Char, code}
use Prim.Native.String.{[], ◌∷◌, char_at, ◌++◌}
use mathlib.Core.List
use delta_uptime.Prelude.{
  ℕ, ◌-◌, ◌/◌, ◌%◌, String, Bool, true, false, ◌&&◌, ◌||◌, List, Option, none, some, ltb, leb, ◌==◌,
  if◌then◌else◌,
}

abbrev pub is_between : ℕ → ℕ → ℕ → Bool
is_between lo hi n = leb lo n && leb n hi

-- `unicode.IsSpace`
unfoldable pub is_space : Char → Bool
is_space c =
    is_between 9 13 (code c)
    || code c == 32
    || code c == 0x85
    || code c == 0xa0
    || code c == 0x1680
    || is_between 0x2000 0x200a (code c)
    || is_between 0x2028 0x2029 (code c)
    || code c == 0x202f
    || code c == 0x205f
    || code c == 0x3000

abbrev pub is_empty : String → Bool
is_empty [] = true
is_empty (c ∷ s) = false

unfoldable pub trim_left : String → String
unfolding is_space
trim_left [] = []
trim_left (c ∷ s) = if is_space c then trim_left s else c ∷ s

unfoldable pub trim_right : String → String
unfolding is_space
trim_right [] = []
trim_right (c ∷ s) = let t = trim_right s in if is_space c && is_empty t then [] else c ∷ t

-- `strings.TrimSpace`
unfoldable pub trim_space : String → String
unfolding trim_left trim_right
trim_space s = trim_right (trim_left s)

unfoldable pub lower_char : (Char → Char) → Char → Char
lower_char lower_rune c =
    if ltb (code c) 128
    then (if is_between b'A' b'Z' (code c)
        then char_at "abcdefghijklmnopqrstuvwxyz" (code c - b'A')
        else c)
    else lower_rune c

-- `strings.ToLower`
unfoldable pub to_lower : (Char → Char) → String → String
unfolding lower_char
to_lower lower_rune [] = []
to_lower lower_rune (c ∷ s) = lower_char lower_rune c ∷ to_lower lower_rune s

-- `strings.ReplaceAll(s, old, new)` for texts of one character.
unfoldable pub replace_all : String → Char → Char → String
replace_all [] old new = []
replace_all (c ∷ s) old new = (if code c == code old then new else c) ∷ replace_all s old new

abbrev prepend : Char → List String → List String
prepend c List.[] = List.◌∷◌ (c ∷ []) List.[]
prepend c (List.◌∷◌ part parts) = List.◌∷◌ (c ∷ part) parts

-- `strings.Split(s, sep)` for a separator of one character.
unfoldable pub split : String → Char → List String
split [] sep = List.◌∷◌ [] List.[]
split (c ∷ s) sep =
    let parts = split s sep in if code c == code sep then List.◌∷◌ [] parts else prepend c parts

-- `strings.CutPrefix(s, prefix)`: what `HasPrefix` tests and `TrimPrefix` leaves.
unfoldable pub cut_prefix : String → String → Option String
cut_prefix s [] = some s
cut_prefix [] (p ∷ prefix) = none
cut_prefix (c ∷ s) (p ∷ prefix) =
    let rest = cut_prefix s prefix in if code c == code p then rest else none

abbrev hex_digit : ℕ → Char
hex_digit n = char_at "0123456789abcdef" n

-- `fmt.Sprintf("%x", buf)`
unfoldable pub hex : List ℕ → String
hex List.[] = []
hex (List.◌∷◌ b bs) = hex_digit (b / 16 % 16) ∷ (hex_digit (b % 16) ∷ hex bs)
