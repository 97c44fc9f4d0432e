-- ===== src/Text/Base64/RoundTrip.antt =====
-- What is encoded in base64 is decoded again.
use Prim.Native.Char.{code}
use Prim.Native.String.{String, [], ◌∷◌, char_at}
use delta_uptime.Prelude.{
  ℕ, ◌+◌, ◌*◌, ◌/◌, ◌%◌, ◌<◌, ◌≡◌, refl, List, Option, none, some, ◌==◌, not, ◌&&◌, ◌||◌, All,
  arith, Bool, true, false, fails_below, fails_below-none,
}
use delta_uptime.Text.Base64.{
  raw_encode, raw_std_encode, raw_std_decode, std_alphabet, std_value, std_values, pack, digit,
}

-- A byte string.
abbrev pub AllBytes : List ℕ → Type 0
AllBytes = All (λ b. b < 256)

abbrev is_value : Option ℕ → ℕ → Bool
is_value none n = false
is_value (some v) n = v == n

-- A character of the alphabet is no line end, and has its place as its value.
abbrev reads_digit : ℕ → Bool
reads_digit n =
    is_value (std_value (char_at std_alphabet n)) n
    && not (code (char_at std_alphabet n) == 10 || code (char_at std_alphabet n) == 13)

digit_table : fails_below reads_digit 64 ≡ false
unfolding fails_below std_value
digit_table = refl

is_value_lem : (o : Option ℕ) (n : ℕ) → is_value o n ≡ true → o ≡ some n
is_value_lem none n e = cc e
is_value_lem (some v) n e = ground (arith, e)

reads : (n : ℕ) → reads_digit (n % 64) ≡ true
reads n = fails_below-none reads_digit 64 (n % 64) (omega arith) digit_table

std_value-digit : (n : ℕ) → std_value (digit std_alphabet n) ≡ some (n % 64)
std_value-digit n =
    is_value_lem (std_value (digit std_alphabet n)) (n % 64) (ground (arith, reads n))

values-cons :
    (n : ℕ) (s : String) (vs : List ℕ)
    → std_values s ≡ some vs
    → std_values (digit std_alphabet n ∷ s) ≡ some (List.◌∷◌ (n % 64) vs)
unfolding std_values
values-cons n s vs e = ground (arith, std_value-digit n, reads n, e)

std_values-nil : std_values [] ≡ some List.[]
unfolding std_values
std_values-nil = refl

-- The values of the characters that encode the bytes.
values_of : List ℕ → List ℕ
values_of List.[] = List.[]
values_of (List.◌∷◌ a List.[]) = List.◌∷◌ (a / 4 % 64) (List.◌∷◌ (a * 16 % 64) List.[])
values_of (List.◌∷◌ a (List.◌∷◌ b List.[])) =
    List.◌∷◌ (a / 4 % 64) (List.◌∷◌ ((a * 16 + b / 16) % 64) (List.◌∷◌ (b * 4 % 64) List.[]))
values_of (List.◌∷◌ a (List.◌∷◌ b (List.◌∷◌ c bytes))) = List.◌∷◌ (a / 4 % 64) (
    List.◌∷◌ ((a * 16 + b / 16) % 64)
      (List.◌∷◌ ((b * 4 + c / 64) % 64) (List.◌∷◌ (c % 64) (values_of bytes))))

std_values-raw_encode :
    (bytes : List ℕ) → std_values (raw_encode std_alphabet bytes) ≡ some (values_of bytes)
unfolding raw_encode values_of
std_values-raw_encode List.[] = std_values-nil
std_values-raw_encode (List.◌∷◌ a List.[]) =
    values-cons (a / 4) _ _ (values-cons (a * 16) _ _ std_values-nil)
std_values-raw_encode (List.◌∷◌ a (List.◌∷◌ b List.[])) =
    values-cons (a / 4) _ _
      (values-cons (a * 16 + b / 16) _ _ (values-cons (b * 4) _ _ std_values-nil))
std_values-raw_encode (List.◌∷◌ a (List.◌∷◌ b (List.◌∷◌ c bytes))) = values-cons (a / 4) _ _ (
    values-cons (a * 16 + b / 16) _ _
      (values-cons (b * 4 + c / 64) _ _ (values-cons c _ _ (std_values-raw_encode bytes))))

pack-values_of : (bytes : List ℕ) → AllBytes bytes → pack (values_of bytes) ≡ some bytes
unfolding pack values_of
pack-values_of List.[] h = refl
pack-values_of (List.◌∷◌ a List.[]) h = ground (arith, h.0)
pack-values_of (List.◌∷◌ a (List.◌∷◌ b List.[])) h = ground (arith, h.0, h.1.0)
pack-values_of (List.◌∷◌ a (List.◌∷◌ b (List.◌∷◌ c bytes))) h =
    rw (pack-values_of bytes h.1.1.1) (ground (arith, h.0, h.1.0, h.1.1.0))

-- Decoding what was encoded gives the bytes back.
pub raw_std_decode-encode :
    (bytes : List ℕ) → AllBytes bytes → raw_std_decode (raw_std_encode bytes) ≡ some bytes
unfolding raw_std_decode raw_std_encode
raw_std_decode-encode bytes h = rw (std_values-raw_encode bytes) (pack-values_of bytes h)
