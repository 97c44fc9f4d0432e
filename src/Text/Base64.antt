-- ===== src/Text/Base64.antt =====
-- `encoding/base64` without padding, `RawURLEncoding` and `RawStdEncoding`: three bytes in four
-- characters. The decoder skips line ends and does not look at the bits that are left over.
pub mod RoundTrip
pub mod Padded
use Prim.Native.Char.{Char, code}
use Prim.Native.String.{String, [], ◌∷◌, char_at}
use delta_uptime.Prelude.{
  ℕ, ◌+◌, ◌-◌, ◌*◌, ◌/◌, ◌%◌, List, ◌++◌ as append, Option, none, some, ltb, ◌==◌, ◌||◌,
  if◌then◌else◌, map,
}
use delta_uptime.Text.{is_between}

abbrev pub url_alphabet : String
url_alphabet = "ABCDEFGHIJKLMNOPQRSTUVWXYZabcdefghijklmnopqrstuvwxyz0123456789-_"

abbrev pub std_alphabet : String
std_alphabet = "ABCDEFGHIJKLMNOPQRSTUVWXYZabcdefghijklmnopqrstuvwxyz0123456789+/"

abbrev pub digit : String → ℕ → Char
digit alphabet n = char_at alphabet (n % 64)

unfoldable pub raw_encode : String → List ℕ → String
raw_encode alphabet List.[] = []
raw_encode alphabet (List.◌∷◌ a List.[]) = digit alphabet (a / 4) ∷ (digit alphabet (a * 16) ∷ [])
raw_encode alphabet (List.◌∷◌ a (List.◌∷◌ b List.[])) =
    digit alphabet (a / 4) ∷ (digit alphabet (a * 16 + b / 16) ∷ (digit alphabet (b * 4) ∷ []))
raw_encode alphabet (List.◌∷◌ a (List.◌∷◌ b (List.◌∷◌ c bytes))) =
    digit alphabet (a / 4)
    ∷ (digit alphabet (a * 16 + b / 16)
        ∷ (digit alphabet (b * 4 + c / 64) ∷ (digit alphabet c ∷ raw_encode alphabet bytes)))

unfoldable pub raw_url_encode : List ℕ → String
unfolding raw_encode
raw_url_encode bytes = raw_encode url_alphabet bytes

unfoldable pub raw_std_encode : List ℕ → String
unfolding raw_encode
raw_std_encode bytes = raw_encode std_alphabet bytes

-- The place of a character in the standard alphabet.
unfoldable pub std_value : Char → Option ℕ
std_value c =
    let n = code c in
    if is_between b'A' b'Z' n
    then some (n - b'A')
    else if is_between b'a' b'z' n
    then some (n - b'a' + 26)
    else if is_between b'0' b'9' n
    then some (n - b'0' + 52)
    else if n == b'+'
    then some 62
    else if n == b'/'
    then some 63
    else none

-- The values of the characters that are no line ends; `none` if one stands for nothing.
abbrev push_value : Option ℕ → Option (List ℕ) → Option (List ℕ)
push_value none vs = none
push_value (some v) vs = elim vs [ none ↦ none | some vs' ↦ some (List.◌∷◌ v vs') ]

unfoldable pub std_values : String → Option (List ℕ)
unfolding std_value
std_values [] = some List.[]
std_values (c ∷ s) =
    let vs = std_values s in
    if code c == 10 || code c == 13 then vs else push_value (std_value c) vs

abbrev pub push_bytes : List ℕ → Option (List ℕ) → Option (List ℕ)
push_bytes bytes none = none
push_bytes bytes (some rest) = some (append bytes rest)

-- Four values are three bytes; a single value at the end is an error.
unfoldable pub pack : List ℕ → Option (List ℕ)
pack List.[] = some List.[]
pack (List.◌∷◌ p List.[]) = none
pack (List.◌∷◌ p (List.◌∷◌ q List.[])) = some (List.◌∷◌ (p * 4 + q / 16) List.[])
pack (List.◌∷◌ p (List.◌∷◌ q (List.◌∷◌ r List.[]))) =
    some (List.◌∷◌ (p * 4 + q / 16) (List.◌∷◌ (q % 16 * 16 + r / 4) List.[]))
pack (List.◌∷◌ p (List.◌∷◌ q (List.◌∷◌ r (List.◌∷◌ t vs)))) =
    push_bytes
      (List.◌∷◌ (p * 4 + q / 16)
        (List.◌∷◌ (q % 16 * 16 + r / 4) (List.◌∷◌ (r % 4 * 64 + t) List.[])))
      (pack vs)

abbrev packed : Option (List ℕ) → Option (List ℕ)
packed none = none
packed (some vs) = pack vs

unfoldable pub raw_std_decode : String → Option (List ℕ)
unfolding std_values pack
raw_std_decode s = packed (std_values s)
