-- ===== src/Password/Parts.antt =====
-- apps/control-plane/internal/auth/password.go: the text of a hash and its parts.
use Prim.Native.Char.{Char, code}
use Prim.Native.String.{String, [], ◌∷◌, char_at, ◌++◌}
use text.Mathlib.TextLemmas.{nil-append, cons-append}
use delta_uptime.Prelude.{
  ℕ, ◌+◌, ◌*◌, ◌/◌, ◌%◌, ◌≡◌, refl, sym, ◌∙◌, List, some, ◌==◌, not, ◌&&◌, arith, Bool, true, false,
  fails_below, fails_below-none,
}
use delta_uptime.Text.{split, cut_prefix, is_space}
use delta_uptime.Text.Laws.{Lacks, split-append, split_of_Lacks}
use delta_uptime.Text.Base64.{raw_std_encode, raw_encode, std_alphabet, digit}
use delta_uptime.Password.{
  hash_text, scan_params, decimal, argon_memory, argon_iterations, argon_parallelism,
}

append_assoc : (a b c : String) → (a ++ b) ++ c ≡ a ++ (b ++ c)
append_assoc [] b c = rw (nil-append b, nil-append (b ++ c)) refl
append_assoc (x ∷ a) b c =
    rw (cons-append x a b, cons-append x (a ++ b) c, cons-append x a (b ++ c), append_assoc a b c)
      refl

-- The encoder writes no dollar sign.
is_no_dollar : ℕ → Bool
is_no_dollar n = not (code (char_at std_alphabet n) == b'$')

dollar_table : fails_below is_no_dollar 64 ≡ false
unfolding fails_below is_no_dollar
dollar_table = refl

digit_lacks : (n : ℕ) → (code (digit std_alphabet n) == b'$') ≡ false
unfolding is_no_dollar
digit_lacks n = ground (arith, fails_below-none is_no_dollar 64 (n % 64) (omega arith) dollar_table)

raw_encode-Lacks : (bytes : List ℕ) → Lacks "$" (raw_encode std_alphabet bytes)
unfolding raw_encode
raw_encode-Lacks List.[] = tt
raw_encode-Lacks (List.◌∷◌ a List.[]) = (digit_lacks (a / 4), (digit_lacks (a * 16), tt))
raw_encode-Lacks (List.◌∷◌ a (List.◌∷◌ b List.[])) =
    (digit_lacks (a / 4), (digit_lacks (a * 16 + b / 16), (digit_lacks (b * 4), tt)))
raw_encode-Lacks (List.◌∷◌ a (List.◌∷◌ b (List.◌∷◌ c bytes))) = (
  digit_lacks (a / 4),
  (
    digit_lacks (a * 16 + b / 16),
    (digit_lacks (b * 4 + c / 64), (digit_lacks c, raw_encode-Lacks bytes)),
  ),
)

raw_std_encode-Lacks : (bytes : List ℕ) → Lacks "$" (raw_std_encode bytes)
unfolding raw_std_encode
raw_std_encode-Lacks bytes = raw_encode-Lacks bytes

dollar_append : (t : String) → "$" ++ t ≡ "$" ∷ t
dollar_append t = rw (cons-append, nil-append) refl

split_at : (s t : String) → Lacks "$" s → split (s ++ ("$" ++ t)) "$" ≡ List.◌∷◌ s (split t "$")
split_at s t lacks = rw (dollar_append t) (split-append s t "$" lacks)

decimal_table :
    (decimal argon_memory ≡ "65536")
    × (decimal argon_iterations ≡ "3")
    × (decimal argon_parallelism ≡ "2")
unfolding decimal
decimal_table = (refl, refl, refl)

lacks : Char → String → Bool
lacks sep [] = true
lacks sep (c ∷ s) = not (code c == code sep) && lacks sep s

lacks-Lacks : (sep : Char) (s : String) → lacks sep s ≡ true → Lacks sep s
unfolding lacks
lacks-Lacks sep [] e = tt
lacks-Lacks sep (c ∷ s) e = (ground (arith, e), lacks-Lacks sep s (ground (arith, e)))

literals_lack :
    (lacks "$" "argon2id" ≡ true) × (lacks "$" "v=19" ≡ true) × (lacks "$" "m=65536,t=3,p=2" ≡ true)
unfolding lacks
literals_lack = (refl, refl, refl)

-- Texts in a row, bracketed to the left.
flat_seven :
    (a b c d e f g t : String)
    → a ++ (b ++ (c ++ (d ++ (e ++ (f ++ (g ++ t))))))
      ≡ ((((((a ++ b) ++ c) ++ d) ++ e) ++ f) ++ g) ++ t
flat_seven a b c d e f g t = simp append_assoc

-- The text of a hash by its parts.
hash_text_parts :
    (salt hash : List ℕ)
    → hash_text salt hash
      ≡ "$"
        ++ ("argon2id"
            ++ ("$"
                ++ ("v=19"
                    ++ ("$"
                        ++ ("m=65536,t=3,p=2"
                            ++ ("$" ++ (raw_std_encode salt ++ ("$" ++ raw_std_encode hash))))))))
unfolding hash_text
hash_text_parts salt hash =
    let rest = raw_std_encode salt ++ ("$" ++ raw_std_encode hash) in
    rw (decimal_table.0, decimal_table.1, decimal_table.2)
      (flat_seven "$argon2id$v=19$m=" "65536" ",t=" "3" ",p=" "2" "$" rest
        ∙ sym (flat_seven "$" "argon2id" "$" "v=19" "$" "m=65536,t=3,p=2" "$" rest))

pub split-hash_text :
    (salt hash : List ℕ)
    → split (hash_text salt hash) "$"
      ≡ List.◌∷◌ "" (
          List.◌∷◌ "argon2id" (
            List.◌∷◌ "v=19" (
              List.◌∷◌ "m=65536,t=3,p=2"
                (List.◌∷◌ (raw_std_encode salt) (List.◌∷◌ (raw_std_encode hash) List.[])))))
split-hash_text salt hash =
    let last = raw_std_encode salt ++ ("$" ++ raw_std_encode hash) in
    rw
      (
        hash_text_parts salt hash,
        first ("argon2id" ++ ("$" ++ ("v=19" ++ ("$" ++ ("m=65536,t=3,p=2" ++ ("$" ++ last)))))),
        split_at "argon2id" ("v=19" ++ ("$" ++ ("m=65536,t=3,p=2" ++ ("$" ++ last))))
            (lacks-Lacks "$" "argon2id" literals_lack.0),
        split_at "v=19" ("m=65536,t=3,p=2" ++ ("$" ++ last))
            (lacks-Lacks "$" "v=19" literals_lack.1),
        split_at "m=65536,t=3,p=2" last (lacks-Lacks "$" "m=65536,t=3,p=2" literals_lack.2),
        split_at (raw_std_encode salt) (raw_std_encode hash) (raw_std_encode-Lacks salt),
        split_of_Lacks (raw_std_encode hash) "$" (raw_std_encode-Lacks hash),
      )
      refl
  where
    first : (t : String) → split ("$" ++ t) "$" ≡ List.◌∷◌ "" (split t "$")
    first t = rw (← nil-append ("$" ++ t)) (split_at "" t tt)

pub params_scanned :
    scan_params "m=65536,t=3,p=2"
    ≡ some (record { memory = 65536; iterations = 3; parallelism = 2 })
unfolding scan_params cut_prefix is_space
params_scanned = refl
