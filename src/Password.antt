-- ===== src/Password.antt =====
-- apps/control-plane/internal/auth/password.go: `PasswordHasher`, over `argon2.IDKey`.
pub mod Parts
pub mod Laws
use Prim.Native.Char.{Char, code}
use Prim.Native.String.{String, [], ◌∷◌, char_at, ◌++◌}
use delta_uptime.Prelude.{
  ℕ, zero, suc, ◌+◌, ◌-◌, ◌*◌, ◌/◌, ◌%◌, ◌^◌, Bool, true, false, not, ◌||◌, Option, none, some,
  List, ltb, ◌==◌, str_eq, if◌then◌else◌, length,
}
use delta_uptime.Errors.{Error, Result, ok, err, sentinel, fault, both, invalid_input}
use delta_uptime.Text.{is_space, is_between, split, cut_prefix}
use delta_uptime.Text.Base64.{raw_std_encode, raw_std_decode}
use delta_uptime.Input.{invalid}
use delta_uptime.Database.Identity.{same_bytes}

abbrev pub argon_memory : ℕ
argon_memory = 64 * 1024

abbrev pub argon_iterations : ℕ
argon_iterations = 3

abbrev pub argon_parallelism : ℕ
argon_parallelism = 2

abbrev pub argon_salt_length : ℕ
argon_salt_length = 16

abbrev pub argon_key_length : ℕ
argon_key_length = 32

-- `%d` of `fmt.Sprintf`: the digits of the number before the text. The number itself is fuel
-- enough, since every round divides it by ten.
unfoldable pub decimal_loop : ℕ → ℕ → String → String
decimal_loop zero n text = text
decimal_loop (suc fuel) n text =
    let longer = char_at "0123456789" (n % 10) ∷ text in
    let more = decimal_loop fuel (n / 10) longer in if ltb n 10 then longer else more

unfoldable pub decimal : ℕ → String
unfolding decimal_loop
decimal n = decimal_loop (n + 1) n []

-- The digits at the start of a text continue a number.
unfoldable pub scan_digits : ℕ → String → ℕ × String
scan_digits acc [] = (acc, [])
scan_digits acc (c ∷ s) =
    let rest = scan_digits (acc * 10 + (code c - b'0')) s in
    if is_between b'0' b'9' (code c) then rest else (acc, c ∷ s)

abbrev pub starts_with_digit : String → Bool
starts_with_digit [] = false
starts_with_digit (c ∷ s) = is_between b'0' b'9' (code c)

-- The white space that `fmt.Sscanf` skips before a number; a line end is an error.
unfoldable pub skip_space : String → Option String
skip_space [] = some []
skip_space (c ∷ s) =
    let rest = skip_space s in
    if code c == 10 then none else if is_space c then rest else some (c ∷ s)

-- `%d` of `fmt.Sscanf` into an unsigned integer of `bits` bits.
abbrev pub in_range : ℕ → ℕ × String → Option (ℕ × String)
in_range bits (n, rest) = if ltb n (2 ^ bits) then some (n, rest) else none

abbrev pub scan_number : ℕ → Option String → Option (ℕ × String)
scan_number bits none = none
scan_number bits (some s) = if starts_with_digit s then in_range bits (scan_digits 0 s) else none

unfoldable pub scan_uint : ℕ → String → Option (ℕ × String)
unfolding scan_digits skip_space
scan_uint bits s = scan_number bits (skip_space s)

abbrev pub scan_after : ℕ → Option String → Option (ℕ × String)
scan_after bits none = none
scan_after bits (some rest) = scan_uint bits rest

-- The memory, the iterations and the parallelism.
pub record HashParams : Type 0 where
  pub memory : ℕ
  pub iterations : ℕ
  pub parallelism : ℕ

abbrev pub scan_parallelism : ℕ → ℕ → Option (ℕ × String) → Option HashParams
scan_parallelism memory iterations none = none
scan_parallelism memory iterations (some (parallelism, rest)) =
    some (record { memory = memory; iterations = iterations; parallelism = parallelism })

abbrev pub scan_iterations : ℕ → Option (ℕ × String) → Option HashParams
scan_iterations memory none = none
scan_iterations memory (some (iterations, rest)) =
    scan_parallelism memory iterations (scan_after 8 (cut_prefix rest ",p="))

abbrev pub scan_memory : Option (ℕ × String) → Option HashParams
scan_memory none = none
scan_memory (some (memory, rest)) = scan_iterations memory (scan_after 32 (cut_prefix rest ",t="))

-- `fmt.Sscanf(s, "m=%d,t=%d,p=%d", …)`: what follows the last number is not read.
unfoldable pub scan_params : String → Option HashParams
unfolding scan_uint
scan_params s = scan_memory (scan_after 32 (cut_prefix s "m="))

-- The text of a hash with its salt.
unfoldable pub hash_text : List ℕ → List ℕ → String
hash_text salt hash =
    "$argon2id$v=19$m="
    ++ (decimal argon_memory
        ++ (",t="
            ++ (decimal argon_iterations
                ++ (",p="
                    ++ (decimal argon_parallelism
                        ++ ("$" ++ (raw_std_encode salt ++ ("$" ++ raw_std_encode hash))))))))

abbrev pub malformed : {A : Type 0} → String → Result A
malformed what = err (both (sentinel invalid_input) what (fault "malformed"))

-- `id_key`: the password, the salt, the iterations, the memory, the parallelism and the length.
module _ (id_key : String → List ℕ → ℕ → ℕ → ℕ → ℕ → List ℕ) where
  -- `HashPassword` with the salt that it draws.
  unfoldable pub hash_password : String → List ℕ → String
  hash_password password salt =
      hash_text salt
        (id_key password salt argon_iterations argon_memory argon_parallelism argon_key_length)

  abbrev pub compared : String → HashParams → List ℕ → Option (List ℕ) → Result Bool
  compared password params salt none = malformed "decode hash"
  compared password params salt (some expected) = ok (
      same_bytes
        (id_key password salt params.iterations params.memory params.parallelism
          (length expected % 2 ^ 32))
        expected)

  abbrev pub with_salt : String → String → HashParams → Option (List ℕ) → Result Bool
  with_salt password hash params none = malformed "decode salt"
  with_salt password hash params (some salt) = compared password params salt (raw_std_decode hash)

  abbrev pub with_params : String → String → String → Option HashParams → Result Bool
  with_params password salt hash none = malformed "parse hash params"
  with_params password salt hash (some params) =
      with_salt password hash params (raw_std_decode salt)

  -- `len(parts) != 6 || parts[1] != "argon2id"`
  abbrev pub verify_parts : String → List String → Result Bool
  verify_parts password
        (List.◌∷◌ _
          (List.◌∷◌ kind (List.◌∷◌ _ (List.◌∷◌ params (List.◌∷◌ salt (List.◌∷◌ hash List.[])))))) =
      if str_eq kind "argon2id"
      then with_params password salt hash (scan_params params)
      else err (invalid "malformed hash")
  verify_parts password _ = err (invalid "malformed hash")

  unfoldable pub verify_password : String → String → Result Bool
  verify_password encoded_hash password = verify_parts password (split encoded_hash "$")
