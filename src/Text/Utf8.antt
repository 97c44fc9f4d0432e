-- ===== src/Text/Utf8.antt =====
-- The bytes of a text: UTF-8.
use Prim.Native.Char.{code}
use Prim.Native.String.{String, [], ◌∷◌}
use delta_uptime.Prelude.{ℕ, ◌+◌, ◌/◌, ◌%◌, List, ◌++◌ as append, ltb, if◌then◌else◌}

unfoldable pub utf8_bytes : ℕ → List ℕ
utf8_bytes n =
    if ltb n 0x80
    then List.◌∷◌ n List.[]
    else if ltb n 0x800
    then List.◌∷◌ (0xc0 + n / 64) (List.◌∷◌ (0x80 + n % 64) List.[])
    else if ltb n 0x10000
    then List.◌∷◌ (0xe0 + n / 4096)
        (List.◌∷◌ (0x80 + n / 64 % 64) (List.◌∷◌ (0x80 + n % 64) List.[]))
    else List.◌∷◌ (0xf0 + n / 262144) (
        List.◌∷◌ (0x80 + n / 4096 % 64)
          (List.◌∷◌ (0x80 + n / 64 % 64) (List.◌∷◌ (0x80 + n % 64) List.[])))

-- `[]byte(s)`
unfoldable pub text_bytes : String → List ℕ
unfolding utf8_bytes
text_bytes [] = List.[]
text_bytes (c ∷ s) = append (utf8_bytes (code c)) (text_bytes s)
