-- ===== src/Text/Base64/Padded.antt =====
-- `base64.StdEncoding.DecodeString`: groups of four characters, the last one padded.
use Prim.Native.Char.{code}
use Prim.Native.String.{String, [], ◌∷◌}
use delta_uptime.Prelude.{
  ℕ, ◌+◌, ◌*◌, ◌/◌, ◌%◌, List, Option, none, some, ◌==◌, ◌||◌, if◌then◌else◌,
}
use delta_uptime.Text.Base64.{std_value, push_bytes}

pub data Symbol : Type 0 where
  digit : ℕ → Symbol
  pad bad : Symbol

abbrev symbol_of : Option ℕ → Symbol
symbol_of none = bad
symbol_of (some v) = digit v

-- The characters that are no line ends.
unfoldable pub symbols : String → List Symbol
symbols [] = List.[]
symbols (c ∷ s) =
    let rest = symbols s in
    if code c == 10 || code c == 13
    then rest
    else List.◌∷◌ (if code c == b'=' then pad else symbol_of (std_value c)) rest

unfoldable pub pack_padded : List Symbol → Option (List ℕ)
pack_padded List.[] = some List.[]
pack_padded (List.◌∷◌ (digit p) (List.◌∷◌ (digit q) (List.◌∷◌ pad (List.◌∷◌ pad List.[])))) =
    some (List.◌∷◌ (p * 4 + q / 16) List.[])
pack_padded (List.◌∷◌ (digit p) (List.◌∷◌ (digit q) (List.◌∷◌ (digit r) (List.◌∷◌ pad List.[])))) =
    some (List.◌∷◌ (p * 4 + q / 16) (List.◌∷◌ (q % 16 * 16 + r / 4) List.[]))
pack_padded
      (List.◌∷◌ (digit p) (List.◌∷◌ (digit q) (List.◌∷◌ (digit r) (List.◌∷◌ (digit t) rest)))) =
    push_bytes
      (List.◌∷◌ (p * 4 + q / 16)
        (List.◌∷◌ (q % 16 * 16 + r / 4) (List.◌∷◌ (r % 4 * 64 + t) List.[])))
      (pack_padded rest)
pack_padded _ = none

unfoldable pub std_decode : String → Option (List ℕ)
unfolding symbols pack_padded
std_decode s = pack_padded (symbols s)
