-- ===== src/Password/Laws.antt =====
-- apps/control-plane/internal/auth/password.go: which passwords a hash accepts.
use delta_uptime.Prelude.{
  ℕ, ◌≡◌, ◌%◌, ◌^◌, Bool, String, refl, ap, ◌∙◌, List, some, true, length, str_eq,
}
use delta_uptime.Errors.{ok}
use delta_uptime.Text.Base64.{raw_std_decode}
use delta_uptime.Text.Base64.RoundTrip.{AllBytes, raw_std_decode-encode}
use delta_uptime.Database.Identity.{same_bytes, same_bytes_refl}
use delta_uptime.Password.{
  hash_text, hash_password, verify_password, scan_params, argon_memory, argon_iterations,
  argon_parallelism, argon_key_length, HashParams,
}
use delta_uptime.Password.Parts.{split-hash_text, params_scanned}

module _ (id_key : String → List ℕ → ℕ → ℕ → ℕ → ℕ → List ℕ) where
  -- What argon2 promises: a key of bytes, of the length that is asked for.
  abbrev pub MakesKeys : Type 0
  MakesKeys =
      (password : String) (salt : List ℕ) (iterations memory parallelism size : ℕ)
      → AllBytes (id_key password salt iterations memory parallelism size)
        × (length (id_key password salt iterations memory parallelism size) ≡ size)

  -- The key of a password under the parameters of new hashes.
  abbrev pub key_of : String → List ℕ → List ℕ
  key_of password salt =
      id_key password salt argon_iterations argon_memory argon_parallelism argon_key_length

  hash_accepts :
      (salt hash : List ℕ) (other : String)
      → AllBytes salt
      → AllBytes hash
      → length hash ≡ argon_key_length
      → verify_password id_key (hash_text salt hash) other
        ≡ ok (same_bytes (key_of other salt) hash)
  unfolding verify_password
  hash_accepts salt hash other salt_bytes hash_bytes size =
      rw
        (
          split-hash_text salt hash,
          params_scanned,
          raw_std_decode-encode salt salt_bytes,
          raw_std_decode-encode hash hash_bytes,
          size,
        )
        refl

  -- A hash of a password accepts exactly the passwords that have the same key under its salt and
  -- the parameters of new hashes; in particular its own.
  pub verify_password-hash_password :
      (password other : String) (salt : List ℕ)
      → MakesKeys
      → AllBytes salt
      → (verify_password id_key (hash_password id_key password salt) other
          ≡ ok (same_bytes (key_of other salt) (key_of password salt)))
        × (verify_password id_key (hash_password id_key password salt) password ≡ ok true)
  unfolding hash_password
  verify_password-hash_password password other salt makes bytes =
      let key = key_of password salt in
      let (key_bytes, size) =
        makes password salt argon_iterations argon_memory argon_parallelism argon_key_length in
      (
        hash_accepts salt key other bytes key_bytes size,
        hash_accepts salt key password bytes key_bytes size ∙ ap ok (same_bytes_refl key),
      )

  -- The parts of a hash: the kind, the parameters, the salt and the key are read.
  abbrev pub ReadsAs : List String → HashParams → List ℕ → List ℕ → Type 0
  ReadsAs parts params salt expected =
      (x kind y m a h : String) × (parts
        ≡ List.◌∷◌ x (List.◌∷◌ kind (List.◌∷◌ y (List.◌∷◌ m (List.◌∷◌ a (List.◌∷◌ h List.[]))))))
      × (str_eq kind "argon2id" ≡ true)
      × (scan_params m ≡ some params)
      × (raw_std_decode a ≡ some salt)
      × (raw_std_decode h ≡ some expected)

  -- Whether the password has the key that is expected.
  abbrev pub matches : String → HashParams → List ℕ → List ℕ → Bool
  matches password params salt expected =
      same_bytes
        (id_key password salt params.iterations params.memory params.parallelism
          (length expected % 2 ^ 32))
        expected

  -- No parameters, no salt and no key can be read from the parts.
  abbrev pub IsUnreadable : List String → Type 0
  IsUnreadable parts =
      (params : HashParams) (salt expected : List ℕ) → ReadsAs parts params salt expected → ⊥
