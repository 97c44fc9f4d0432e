-- ===== src/Text/Base32/RoundTrip.antt =====
-- What is encoded in base32 is decoded again.
use Prim.Native.Char.{code}
use Prim.Native.String.{String, [], ◌∷◌, char_at}
use delta_uptime.Prelude.{
  ℕ, ◌+◌, ◌*◌, ◌/◌, ◌%◌, ◌<◌, ◌≡◌, refl, ap, ◌∙◌, List, Option, none, some, ◌==◌, not, ◌&&◌, ◌||◌,
  arith, Bool, true, false, fails_below, fails_below-none,
}
use delta_uptime.Text.Base64.RoundTrip.{AllBytes}
use delta_uptime.Text.Base32.{alphabet, digit, encode, value, values, pack, decode}

abbrev is_value : Option ℕ → ℕ → Bool
is_value none n = false
is_value (some v) n = v == n

-- A character of the alphabet is no line end, and has its place as its value.
abbrev reads_digit : ℕ → Bool
reads_digit n =
    is_value (value (char_at alphabet n)) n
    && not (code (char_at alphabet n) == 10 || code (char_at alphabet n) == 13)

digit_table : fails_below reads_digit 32 ≡ false
unfolding fails_below value
digit_table = refl

is_value_lem : (o : Option ℕ) (n : ℕ) → is_value o n ≡ true → o ≡ some n
is_value_lem none n e = cc e
is_value_lem (some v) n e = ground (arith, e)

reads : (n : ℕ) → reads_digit (n % 32) ≡ true
reads n = fails_below-none reads_digit 32 (n % 32) (omega arith) digit_table

value-digit : (n : ℕ) → value (digit n) ≡ some (n % 32)
value-digit n = is_value_lem (value (digit n)) (n % 32) (ground (arith, reads n))

values-cons :
    (n : ℕ) (s : String) (vs : List ℕ)
    → values s ≡ some vs
    → values (digit n ∷ s) ≡ some (List.◌∷◌ (n % 32) vs)
unfolding values
values-cons n s vs e = ground (arith, value-digit n, reads n, e)

values-nil : values [] ≡ some List.[]
unfolding values
values-nil = refl

-- The text has the values, and the values are packed to the bytes.
abbrev Reads : String → List ℕ → Type 0
Reads s bytes = (vs : List ℕ) × (values s ≡ some vs) × (pack vs ≡ bytes)

pack-nil : pack List.[] ≡ List.[]
unfolding pack
pack-nil = refl

-- One lemma for each number of bytes in the last group.
pack_1 :
    (a : ℕ)
    → a < 256
    → pack (List.◌∷◌ ((a / 8) % 32) (List.◌∷◌ ((a * 4) % 32) List.[])) ≡ (List.◌∷◌ a List.[])
unfolding pack
pack_1 a ha = ground arith

pack_2 :
    (a b : ℕ)
    → a < 256
    → b < 256
    → pack (
        List.◌∷◌ ((a / 8) % 32) (
          List.◌∷◌
            ((a * 4 + b / 64) % 32)
            (List.◌∷◌ ((b / 2) % 32) (List.◌∷◌ ((b * 16) % 32) List.[]))))
      ≡ (List.◌∷◌ a (List.◌∷◌ b List.[]))
unfolding pack
pack_2 a b ha hb = ground arith

pack_3 :
    (a b c : ℕ)
    → a < 256
    → b < 256
    → c < 256
    → pack (
        List.◌∷◌ ((a / 8) % 32) (
          List.◌∷◌ ((a * 4 + b / 64) % 32) (
            List.◌∷◌
              ((b / 2) % 32)
              (List.◌∷◌ ((b * 16 + c / 16) % 32) (List.◌∷◌ ((c * 2) % 32) List.[])))))
      ≡ (List.◌∷◌ a (List.◌∷◌ b (List.◌∷◌ c List.[])))
unfolding pack
pack_3 a b c ha hb hc = ground arith

pack_4 :
    (a b c d : ℕ)
    → a < 256
    → b < 256
    → c < 256
    → d < 256
    → pack (
        List.◌∷◌ ((a / 8) % 32) (
          List.◌∷◌ ((a * 4 + b / 64) % 32) (
            List.◌∷◌ ((b / 2) % 32) (
              List.◌∷◌ ((b * 16 + c / 16) % 32) (
                List.◌∷◌
                  ((c * 2 + d / 128) % 32)
                  (List.◌∷◌ ((d / 4) % 32) (List.◌∷◌ ((d * 8) % 32) List.[])))))))
      ≡ (List.◌∷◌ a (List.◌∷◌ b (List.◌∷◌ c (List.◌∷◌ d List.[]))))
unfolding pack
pack_4 a b c d ha hb hc hd = ground arith

pack_group :
    (a b c d e : ℕ) (vs : List ℕ)
    → a < 256
    → b < 256
    → c < 256
    → d < 256
    → e < 256
    → pack (
        List.◌∷◌ ((a / 8) % 32) (
          List.◌∷◌ ((a * 4 + b / 64) % 32) (
            List.◌∷◌ ((b / 2) % 32) (
              List.◌∷◌ ((b * 16 + c / 16) % 32) (
                List.◌∷◌ ((c * 2 + d / 128) % 32) (
                  List.◌∷◌
                    ((d / 4) % 32)
                    (List.◌∷◌ ((d * 8 + e / 32) % 32) (List.◌∷◌ ((e) % 32) vs))))))))
      ≡ (List.◌∷◌ a (List.◌∷◌ b (List.◌∷◌ c (List.◌∷◌ d (List.◌∷◌ e (pack vs))))))
unfolding pack
pack_group a b c d e vs ha hb hc hd he = ground arith

encode-Reads : (bytes : List ℕ) → AllBytes bytes → Reads (encode bytes) bytes
unfolding encode
encode-Reads List.[] h = (List.[], values-nil, pack-nil)
encode-Reads (List.◌∷◌ a List.[]) h =
    (_, values-cons (a / 8) _ _ (values-cons (a * 4) _ _ values-nil), pack_1 a h.0)
encode-Reads (List.◌∷◌ a (List.◌∷◌ b List.[])) h = (
  _,
  values-cons (a / 8) _ _ (
      values-cons (a * 4 + b / 64) _ _
        (values-cons (b / 2) _ _ (values-cons (b * 16) _ _ values-nil))),
  pack_2 a b h.0 h.1.0,
)
encode-Reads (List.◌∷◌ a (List.◌∷◌ b (List.◌∷◌ c List.[]))) h = (
  _,
  values-cons (a / 8) _ _ (
      values-cons (a * 4 + b / 64) _ _ (
        values-cons (b / 2) _ _
          (values-cons (b * 16 + c / 16) _ _ (values-cons (c * 2) _ _ values-nil)))),
  pack_3 a b c h.0 h.1.0 h.1.1.0,
)
encode-Reads (List.◌∷◌ a (List.◌∷◌ b (List.◌∷◌ c (List.◌∷◌ d List.[])))) h = (
  _,
  values-cons (a / 8) _ _ (
      values-cons (a * 4 + b / 64) _ _ (
        values-cons (b / 2) _ _ (
          values-cons (b * 16 + c / 16) _ _ (
            values-cons (c * 2 + d / 128) _ _
              (values-cons (d / 4) _ _ (values-cons (d * 8) _ _ values-nil)))))),
  pack_4 a b c d h.0 h.1.0 h.1.1.0 h.1.1.1.0,
)
encode-Reads (List.◌∷◌ a (List.◌∷◌ b (List.◌∷◌ c (List.◌∷◌ d (List.◌∷◌ e bytes))))) h =
    let (vs, reads_rest, packs_rest) = encode-Reads bytes h.1.1.1.1.1 in
    (
      _,
      values-cons (a / 8) _ _ (
          values-cons (a * 4 + b / 64) _ _ (
            values-cons (b / 2) _ _ (
              values-cons (b * 16 + c / 16) _ _ (
                values-cons (c * 2 + d / 128) _ _ (
                  values-cons (d / 4) _ _
                    (values-cons (d * 8 + e / 32) _ _ (values-cons (e) _ _ reads_rest))))))),
      pack_group a b c d e vs h.0 h.1.0 h.1.1.0 h.1.1.1.0 h.1.1.1.1.0
          ∙ ap (λ rest. List.◌∷◌ a (List.◌∷◌ b (List.◌∷◌ c (List.◌∷◌ d (List.◌∷◌ e rest)))))
              packs_rest,
    )

-- Decoding what was encoded gives the bytes back.
pub decode-encode : (bytes : List ℕ) → AllBytes bytes → decode (encode bytes) ≡ some bytes
unfolding decode
decode-encode bytes h =
    let (vs, reads_all, packs_all) = encode-Reads bytes h in rw reads_all (ap some packs_all)
