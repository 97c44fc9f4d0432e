-- ===== src/Totp.antt =====
-- apps/control-plane/internal/auth/totp.go: `TOTPManager`, over HMAC-SHA-1. The secret is a base32
-- text, the code of a counter six decimal digits. Its `VerifyCode` is in Service/Session.
pub mod Laws
pub mod Links
use Prim.Native.Char.{Char, code}
use Prim.Native.String.{String, [], ◌∷◌, char_at, ◌++◌}
use delta_uptime.Prelude.{
  ℕ, zero, suc, ◌+◌, ◌-◌, ◌*◌, ◌/◌, ◌%◌, ◌^◌, Bool, List, Option, none, some, ltb, ◌==◌, str_eq,
  if◌then◌else◌, length, drop,
}
use delta_uptime.Text.{is_between, trim_space}
use delta_uptime.Text.Base32.{encode, decode}

-- `NewTOTPManager`: the issuer.
unfoldable pub new_totp_manager : String → String
new_totp_manager issuer = if str_eq (trim_space issuer) "" then "DeltaUptime" else issuer

-- `strings.ToUpper`; what it does to letters that are not ASCII is the argument.
unfoldable pub upper_char : (Char → Char) → Char → Char
upper_char upper_rune c =
    if ltb (code c) 128
    then (if is_between b'a' b'z' (code c)
        then char_at "ABCDEFGHIJKLMNOPQRSTUVWXYZ" (code c - b'a')
        else c)
    else upper_rune c

unfoldable pub to_upper : (Char → Char) → String → String
unfolding upper_char
to_upper upper_rune [] = []
to_upper upper_rune (c ∷ s) = upper_char upper_rune c ∷ to_upper upper_rune s

-- `GenerateSecret`, for the 20 random bytes that it draws.
unfoldable pub generate_secret : List ℕ → String
unfolding encode
generate_secret bytes = encode bytes

-- `binary.BigEndian.PutUint64`
unfoldable pub put_uint64 : ℕ → List ℕ
put_uint64 n = List.◌∷◌ (n / 2 ^ 56 % 256) (
    List.◌∷◌ (n / 2 ^ 48 % 256) (
      List.◌∷◌ (n / 2 ^ 40 % 256) (
        List.◌∷◌ (n / 2 ^ 32 % 256) (
          List.◌∷◌ (n / 2 ^ 24 % 256) (
            List.◌∷◌ (n / 2 ^ 16 % 256)
              (List.◌∷◌ (n / 2 ^ 8 % 256) (List.◌∷◌ (n % 256) List.[])))))))

-- `binary.BigEndian.Uint32` of the first four bytes.
unfoldable pub big_endian_uint32 : List ℕ → ℕ
big_endian_uint32 (List.◌∷◌ a (List.◌∷◌ b (List.◌∷◌ c (List.◌∷◌ d bytes)))) =
    a * 2 ^ 24 + b * 2 ^ 16 + c * 2 ^ 8 + d
big_endian_uint32 _ = 0

abbrev last_of : List ℕ → ℕ
last_of List.[] = 0
last_of (List.◌∷◌ b List.[]) = b
last_of (List.◌∷◌ b (List.◌∷◌ c bytes)) = last_of (List.◌∷◌ c bytes)

-- The number that is printed: the four bytes at the offset that the last byte gives, less the top
-- bit, and its last six digits. A sum has twenty bytes, so the four are there.
unfoldable pub truncated : List ℕ → ℕ
unfolding big_endian_uint32
truncated sum =
    let offset = last_of sum % 16 in big_endian_uint32 (drop offset sum) % 2 ^ 31 % 1000000

abbrev pub decimal_digit : ℕ → Char
decimal_digit n = char_at "0123456789" (n % 10)

-- `fmt.Sprintf("%06d", n)` for a number of at most six digits.
unfoldable pub six_digits : ℕ → String
six_digits n =
    decimal_digit (n / 100000)
    ∷ (decimal_digit (n / 10000)
        ∷ (decimal_digit (n / 1000)
            ∷ (decimal_digit (n / 100) ∷ (decimal_digit (n / 10) ∷ (decimal_digit n ∷ [])))))

module _ (hmac_sha1 : List ℕ → List ℕ → List ℕ) where
  -- The code of a key at a counter.
  unfoldable pub hotp : List ℕ → ℕ → String
  hotp key counter = six_digits (truncated (hmac_sha1 key (put_uint64 counter)))

  abbrev code_of_key : Option (List ℕ) → ℕ → String
  code_of_key none counter = ""
  code_of_key (some key) counter = hotp key counter

  -- `codeAt`: the empty text where the secret is no base32 text.
  unfoldable pub code_at : (Char → Char) → String → ℕ → String
  code_at upper_rune secret counter = code_of_key (decode (to_upper upper_rune secret)) counter
