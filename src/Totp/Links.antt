-- ===== src/Totp/Links.antt =====
-- apps/control-plane/internal/auth/totp.go: `OTPAuthURL`, with the escapes of `net/url`.
use Prim.Native.Char.{Char, code}
use Prim.Native.String.{String, [], ◌∷◌, char_at, ◌++◌}
use delta_uptime.Prelude.{ℕ, ◌/◌, ◌%◌, Bool, List, ◌==◌, ◌||◌, if◌then◌else◌}
use delta_uptime.Text.{is_between}
use delta_uptime.Text.Utf8.{utf8_bytes}

-- Letters, digits and `-_.~`.
abbrev pub is_unreserved : ℕ → Bool
is_unreserved b =
    is_between b'a' b'z' b
    || is_between b'A' b'Z' b
    || is_between b'0' b'9' b
    || b == b'-'
    || b == b'_'
    || b == b'.'
    || b == b'~'

-- What stands unescaped in a segment of a path too: `$&+:=@`.
abbrev pub is_path_byte : ℕ → Bool
is_path_byte b =
    is_unreserved b || b == b'$' || b == b'&' || b == b'+' || b == b':' || b == b'=' || b == b'@'

abbrev upper_hex : ℕ → Char
upper_hex n = char_at "0123456789ABCDEF" (n % 16)

abbrev percent : ℕ → String → String
percent b rest = "%" ∷ (upper_hex (b / 16) ∷ (upper_hex b ∷ rest))

-- The escaped bytes before the rest; a byte that stays is its own character.
unfoldable pub escape_bytes : (ℕ → Bool) → Char → List ℕ → String → String
escape_bytes stays c List.[] rest = rest
escape_bytes stays c (List.◌∷◌ b bytes) rest =
    if stays b then c ∷ rest else percent b (escape_bytes stays c bytes rest)

-- `url.PathEscape`
unfoldable pub path_escape : String → String
unfolding escape_bytes utf8_bytes
path_escape [] = []
path_escape (c ∷ s) = escape_bytes is_path_byte c (utf8_bytes (code c)) (path_escape s)

-- `url.QueryEscape`: a blank is written as a plus sign.
unfoldable pub query_escape : String → String
unfolding escape_bytes utf8_bytes
query_escape [] = []
query_escape (c ∷ s) =
    let rest = query_escape s in
    if code c == 32 then "+" ∷ rest else escape_bytes is_unreserved c (utf8_bytes (code c)) rest

-- `url.Values.Encode` writes the keys in order.
unfoldable pub otpauth_url : String → String → String → String
unfolding path_escape query_escape
otpauth_url issuer account_name secret =
    "otpauth://totp/"
    ++ (path_escape (issuer ++ (":" ++ account_name))
        ++ ("?algorithm=SHA1&digits=6&issuer="
            ++ (query_escape issuer ++ ("&period=30&secret=" ++ query_escape secret))))
