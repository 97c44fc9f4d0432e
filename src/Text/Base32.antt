-- ===== src/Text/Base32.antt =====
-- `encoding/base32` with the standard alphabet: five bytes in eight characters, without padding.
-- The decoder skips line ends; characters at the end that make no whole byte count for nothing.
pub mod RoundTrip
use Prim.Native.Char.{Char, code}
use Prim.Native.String.{String, [], ◌∷◌, char_at}
use delta_uptime.Prelude.{
  ℕ, ◌+◌, ◌-◌, ◌*◌, ◌/◌, ◌%◌, List, ◌++◌ as append, Option, none, some, ltb, ◌==◌, ◌||◌,
  if◌then◌else◌,
}
use delta_uptime.Text.{is_between}

abbrev pub alphabet : String
alphabet = "ABCDEFGHIJKLMNOPQRSTUVWXYZ234567"

abbrev pub digit : ℕ → Char
digit n = char_at alphabet (n % 32)

-- `EncodeToString` with the padding trimmed.
unfoldable pub encode : List ℕ → String
encode List.[] = []
encode (List.◌∷◌ a List.[]) = digit (a / 8) ∷ (digit (a * 4) ∷ [])
encode (List.◌∷◌ a (List.◌∷◌ b List.[])) =
    digit (a / 8) ∷ (digit (a * 4 + b / 64) ∷ (digit (b / 2) ∷ (digit (b * 16) ∷ [])))
encode (List.◌∷◌ a (List.◌∷◌ b (List.◌∷◌ c List.[]))) =
    digit (a / 8)
    ∷ (digit (a * 4 + b / 64) ∷ (digit (b / 2) ∷ (digit (b * 16 + c / 16) ∷ (digit (c * 2) ∷ []))))
encode (List.◌∷◌ a (List.◌∷◌ b (List.◌∷◌ c (List.◌∷◌ d List.[])))) =
    digit (a / 8)
    ∷ (digit (a * 4 + b / 64)
        ∷ (digit (b / 2)
            ∷ (digit (b * 16 + c / 16)
                ∷ (digit (c * 2 + d / 128) ∷ (digit (d / 4) ∷ (digit (d * 8) ∷ []))))))
encode (List.◌∷◌ a (List.◌∷◌ b (List.◌∷◌ c (List.◌∷◌ d (List.◌∷◌ e bytes))))) =
    digit (a / 8)
    ∷ (digit (a * 4 + b / 64)
        ∷ (digit (b / 2)
            ∷ (digit (b * 16 + c / 16)
                ∷ (digit (c * 2 + d / 128)
                    ∷ (digit (d / 4) ∷ (digit (d * 8 + e / 32) ∷ (digit e ∷ encode bytes)))))))

-- The place of a character in the alphabet.
unfoldable pub value : Char → Option ℕ
value c =
    let n = code c in
    if is_between b'A' b'Z' n
    then some (n - b'A')
    else if is_between b'2' b'7' n
    then some (n - b'2' + 26)
    else none

abbrev push_value : Option ℕ → Option (List ℕ) → Option (List ℕ)
push_value none vs = none
push_value (some v) vs = elim vs [ none ↦ none | some vs' ↦ some (List.◌∷◌ v vs') ]

unfoldable pub values : String → Option (List ℕ)
unfolding value
values [] = some List.[]
values (c ∷ s) =
    let vs = values s in if code c == 10 || code c == 13 then vs else push_value (value c) vs

-- Eight values are five bytes; one, three or six values at the end give nothing.
unfoldable pub pack : List ℕ → List ℕ
pack (List.◌∷◌ p (List.◌∷◌ q List.[])) = List.◌∷◌ (p * 8 + q / 4) List.[]
pack (List.◌∷◌ p (List.◌∷◌ q (List.◌∷◌ r (List.◌∷◌ t List.[])))) =
    List.◌∷◌ (p * 8 + q / 4) (List.◌∷◌ (q % 4 * 64 + r * 2 + t / 16) List.[])
pack (List.◌∷◌ p (List.◌∷◌ q (List.◌∷◌ r (List.◌∷◌ t (List.◌∷◌ u List.[]))))) =
    List.◌∷◌ (p * 8 + q / 4)
      (List.◌∷◌ (q % 4 * 64 + r * 2 + t / 16) (List.◌∷◌ (t % 16 * 16 + u / 2) List.[]))
pack
      (List.◌∷◌ p
        (List.◌∷◌ q (List.◌∷◌ r (List.◌∷◌ t (List.◌∷◌ u (List.◌∷◌ v (List.◌∷◌ x List.[]))))))) =
    List.◌∷◌ (p * 8 + q / 4) (
      List.◌∷◌ (q % 4 * 64 + r * 2 + t / 16)
        (List.◌∷◌ (t % 16 * 16 + u / 2) (List.◌∷◌ (u % 2 * 128 + v * 4 + x / 8) List.[])))
pack
      (List.◌∷◌ p (
        List.◌∷◌ q
          (List.◌∷◌ r (List.◌∷◌ t (List.◌∷◌ u (List.◌∷◌ v (List.◌∷◌ x (List.◌∷◌ y vs)))))))) =
    List.◌∷◌ (p * 8 + q / 4) (
      List.◌∷◌ (q % 4 * 64 + r * 2 + t / 16) (
        List.◌∷◌ (t % 16 * 16 + u / 2)
          (List.◌∷◌ (u % 2 * 128 + v * 4 + x / 8) (List.◌∷◌ (x % 8 * 32 + y) (pack vs)))))
pack _ = List.[]

abbrev packed : Option (List ℕ) → Option (List ℕ)
packed none = none
packed (some vs) = some (pack vs)

-- `WithPadding(base32.NoPadding).DecodeString`
unfoldable pub decode : String → Option (List ℕ)
decode s = packed (values s)
