-- ===== src/Http/Numbers.antt =====
-- The query parameter `limit` of apps/control-plane/internal/auth/http.go: `strconv.Atoi`, and the
-- conversion of its 64-bit result to `int32`.
use Prim.Native.Char.{code}
use Prim.Native.String.{String, [], ◌∷◌}
use delta_uptime.Prelude.{
  ℕ, ◌+◌, ◌-◌, ◌*◌, ◌%◌, ◌^◌, Bool, true, false, Option, none, some, ltb, leb, ◌==◌, if◌then◌else◌,
}
use delta_uptime.Text.{is_between}

-- The decimal number that the digits continue; `none` at any other character.
unfoldable pub digits_from : ℕ → String → Option ℕ
digits_from acc [] = some acc
digits_from acc (c ∷ s) =
    let rest = digits_from (acc * 10 + (code c - b'0')) s in
    if is_between b'0' b'9' (code c) then rest else none

unfoldable pub magnitude : String → Option ℕ
unfolding digits_from
magnitude [] = none
magnitude (c ∷ s) = digits_from 0 (c ∷ s)

-- Whether the number is negative, and its magnitude, which fits in 64 bits.
abbrev fits_int64 : Bool → Option ℕ → Option (Bool × ℕ)
fits_int64 negative none = none
fits_int64 true (some m) = if leb m (2 ^ 63) then some (true, m) else none
fits_int64 false (some m) = if ltb m (2 ^ 63) then some (false, m) else none

unfoldable pub atoi : String → Option (Bool × ℕ)
unfolding magnitude
atoi [] = none
atoi (c ∷ s) =
    if code c == b'-'
    then fits_int64 true (magnitude s)
    else if code c == b'+'
    then fits_int64 false (magnitude s)
    else fits_int64 false (magnitude (c ∷ s))

-- `int32(value)`: the low 32 bits as a signed number, where a negative one is given as 0.
abbrev low_bits : Bool × ℕ → ℕ
low_bits (true, m) = (2 ^ 32 - m % 2 ^ 32) % 2 ^ 32
low_bits (false, m) = m % 2 ^ 32

unfoldable pub int32 : Option (Bool × ℕ) → Option ℕ
int32 none = none
int32 (some value) = if ltb (low_bits value) (2 ^ 31) then some (low_bits value) else some 0
