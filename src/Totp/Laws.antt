-- ===== src/Totp/Laws.antt =====
-- apps/control-plane/internal/auth/totp.go: the codes of a generated secret.
use Prim.Native.Char.{Char, code, len_utf8}
use Prim.Native.String.{String, [], ◌∷◌, char_at, len}
use Prim.Native.String.len
use delta_uptime.Prelude.{
  ℕ, ◌+◌, ◌*◌, ◌/◌, ◌%◌, ◌≡◌, refl, ◌∙◌, List, ◌==◌, not, ◌&&◌, arith, Bool, true, false,
  fails_below, fails_below-none, ltb,
}
use delta_uptime.Text.{is_between, is_space, trim_right, trim_space}
use delta_uptime.Text.Laws.{trim_left_of_StartsSolid}
use delta_uptime.Text.Base64.RoundTrip.{AllBytes}
use delta_uptime.Text.Base32.{alphabet, digit, encode}
use delta_uptime.Text.Base32.RoundTrip.{decode-encode}
use delta_uptime.Totp.{
  upper_char, to_upper, generate_secret, six_digits, decimal_digit, hotp, code_at,
}

-- A decimal digit takes one byte and is no white space.
abbrev is_plain_digit : ℕ → Bool
is_plain_digit n = len_utf8 (char_at "0123456789" n) == 1 && not (is_space (char_at "0123456789" n))

plain_table : fails_below is_plain_digit 10 ≡ false
unfolding fails_below is_space
plain_table = refl

plain : (n : ℕ) → is_plain_digit (n % 10) ≡ true
plain n = fails_below-none is_plain_digit 10 (n % 10) (omega arith) plain_table

digit_solid : (n : ℕ) → is_space (decimal_digit n) ≡ false
digit_solid n = ground (arith, plain n)

digit_byte : (n : ℕ) → len_utf8 (decimal_digit n) ≡ 1
digit_byte n = ground (arith, plain n)

len-digit : (n : ℕ) (s : String) {k : ℕ} → len s ≡ k → len (decimal_digit n ∷ s) ≡ 1 + k
len-digit n s e = len.cons (decimal_digit n) s ∙ rw (digit_byte n, e) refl

-- A code has six bytes, and trimming leaves it as it is.
pub len-six_digits : (n : ℕ) → len (six_digits n) ≡ 6
unfolding six_digits
len-six_digits n = len-digit (n / 100000) _ (
    len-digit (n / 10000) _ (
      len-digit (n / 1000) _
        (len-digit (n / 100) _ (len-digit (n / 10) _ (len-digit (n) _ len.nil)))))

trim_right-digit :
    (n : ℕ) (s : String) → trim_right s ≡ s → trim_right (decimal_digit n ∷ s) ≡ decimal_digit n ∷ s
unfolding trim_right
trim_right-digit n s e = rw (e, digit_solid n) refl

trim_right-nil : trim_right [] ≡ []
unfolding trim_right
trim_right-nil = refl

pub trim_space-six_digits : (n : ℕ) → trim_space (six_digits n) ≡ six_digits n
unfolding six_digits trim_space
trim_space-six_digits n = rw (trim_left_of_StartsSolid (six_digits n) (digit_solid (n / 100000))) (
    trim_right-digit (n / 100000) _ (
      trim_right-digit (n / 10000) _ (
        trim_right-digit (n / 1000) _ (
          trim_right-digit (n / 100) _
            (trim_right-digit (n / 10) _ (trim_right-digit (n) _ trim_right-nil))))))

-- The alphabet of base32 has no lower-case letters.
abbrev is_upper : ℕ → Bool
is_upper n =
    ltb (code (char_at alphabet n)) 128 && not (is_between b'a' b'z' (code (char_at alphabet n)))

upper_table : fails_below is_upper 32 ≡ false
unfolding fails_below
upper_table = refl

module _ (upper_rune : Char → Char) where
  upper_char-digit : (n : ℕ) → upper_char upper_rune (digit n) ≡ digit n
  unfolding upper_char
  upper_char-digit n =
      ground (arith, fails_below-none is_upper 32 (n % 32) (omega arith) upper_table)

  to_upper-cons :
      (n : ℕ) (s : String)
      → to_upper upper_rune s ≡ s
      → to_upper upper_rune (digit n ∷ s) ≡ digit n ∷ s
  unfolding to_upper
  to_upper-cons n s same = rw (upper_char-digit n, same) refl

  to_upper-nil : to_upper upper_rune [] ≡ []
  unfolding to_upper
  to_upper-nil = refl

  to_upper-encode : (bytes : List ℕ) → to_upper upper_rune (encode bytes) ≡ encode bytes
  unfolding encode
  to_upper-encode List.[] = to_upper-nil
  to_upper-encode (List.◌∷◌ a List.[]) =
      to_upper-cons (a / 8) _ (to_upper-cons (a * 4) _ to_upper-nil)
  to_upper-encode (List.◌∷◌ a (List.◌∷◌ b List.[])) = to_upper-cons (a / 8) _ (
      to_upper-cons (a * 4 + b / 64) _
        (to_upper-cons (b / 2) _ (to_upper-cons (b * 16) _ to_upper-nil)))
  to_upper-encode (List.◌∷◌ a (List.◌∷◌ b (List.◌∷◌ c List.[]))) = to_upper-cons (a / 8) _ (
      to_upper-cons (a * 4 + b / 64) _ (
        to_upper-cons (b / 2) _
          (to_upper-cons (b * 16 + c / 16) _ (to_upper-cons (c * 2) _ to_upper-nil))))
  to_upper-encode (List.◌∷◌ a (List.◌∷◌ b (List.◌∷◌ c (List.◌∷◌ d List.[])))) =
      to_upper-cons (a / 8) _ (
        to_upper-cons (a * 4 + b / 64) _ (
          to_upper-cons (b / 2) _ (
            to_upper-cons (b * 16 + c / 16) _ (
              to_upper-cons (c * 2 + d / 128) _
                (to_upper-cons (d / 4) _ (to_upper-cons (d * 8) _ to_upper-nil))))))
  to_upper-encode (List.◌∷◌ a (List.◌∷◌ b (List.◌∷◌ c (List.◌∷◌ d (List.◌∷◌ e bytes))))) =
      to_upper-cons (a / 8) _ (
        to_upper-cons (a * 4 + b / 64) _ (
          to_upper-cons (b / 2) _ (
            to_upper-cons (b * 16 + c / 16) _ (
              to_upper-cons (c * 2 + d / 128) _ (
                to_upper-cons (d / 4) _ (
                  to_upper-cons (d * 8 + e / 32) _
                    (to_upper-cons (e) _ (to_upper-encode bytes))))))))

  -- The codes of a secret that was generated from random bytes are the codes of those bytes as a
  -- key: the secret is read back, case and alphabet included.
  pub code_at-generate_secret :
      (hmac_sha1 : List ℕ → List ℕ → List ℕ) (bytes : List ℕ) (counter : ℕ)
      → AllBytes bytes
      → code_at hmac_sha1 upper_rune (generate_secret bytes) counter ≡ hotp hmac_sha1 bytes counter
  unfolding code_at generate_secret
  code_at-generate_secret hmac_sha1 bytes counter h =
      rw (to_upper-encode bytes, decode-encode bytes h) refl
