-- ===== src/Text/Laws.antt =====
-- What trimming, splitting and the hexadecimal printer guarantee.
use Prim.Native.Char.{Char, code}
use Prim.Native.String.{[], ◌∷◌, ◌++◌}
use text.Mathlib.TextLemmas.{nil-append, cons-append}
use delta_uptime.Prelude.{
  not, fails_below, fails_below-none, ◌/◌, ◌%◌, ◌<◌, if◌then◌else◌, ◌&&◌, String, ◌≡◌, refl, Bool,
  false, List, ℕ, arith, ◌==◌, ==_refl, Bool-cases, inl, inr,
}
use delta_uptime.Text.{is_space, is_empty, trim_left, trim_right, trim_space, split, hex_digit, hex}

-- The text does not start with white space.
abbrev pub StartsSolid : String → Type 0
StartsSolid [] = Unit
StartsSolid (c ∷ s) = is_space c ≡ false

trim_left-StartsSolid : (s : String) → StartsSolid (trim_left s)
unfolding trim_left
trim_left-StartsSolid [] = tt
trim_left-StartsSolid (c ∷ s) = elim (Bool-cases (is_space c)) [
  | inl blank ↦ rw blank (trim_left-StartsSolid s)
  | inr solid ↦ rw solid solid
]

pub trim_left_of_StartsSolid : (s : String) → StartsSolid s → trim_left s ≡ s
unfolding trim_left
trim_left_of_StartsSolid [] h = refl
trim_left_of_StartsSolid (c ∷ s) h = rw h

-- Trimming the right end leaves a solid first character where it is.
trim_right-StartsSolid : (s : String) → StartsSolid s → StartsSolid (trim_right s)
unfolding trim_right
trim_right-StartsSolid [] h = tt
trim_right-StartsSolid (c ∷ s) h = rw h h

abbrev cons_trimmed : Char → String → String
cons_trimmed c t = if is_space c && is_empty t then [] else c ∷ t

trim_right_idempotent : (s : String) → trim_right (trim_right s) ≡ trim_right s
unfolding trim_right
trim_right_idempotent [] = refl
trim_right_idempotent (c ∷ s) = elim (Bool-cases (is_space c && is_empty (trim_right s))) [
  | inl blank ↦ rw blank refl
  | inr solid ↦ rw solid (rw (trim_right_idempotent s, solid) refl)
]

-- `strings.TrimSpace` applied a second time changes nothing.
pub trim_space_idempotent : (s : String) → trim_space (trim_space s) ≡ trim_space s
unfolding trim_space
trim_space_idempotent s =
    rw
      (trim_left_of_StartsSolid (trim_right (trim_left s))
        (trim_right-StartsSolid (trim_left s) (trim_left-StartsSolid s)))
      (trim_right_idempotent (trim_left s))

-- No character of the text is the separator.
abbrev pub Lacks : Char → String → Type 0
Lacks sep [] = Unit
Lacks sep (c ∷ s) = ((code c == code sep) ≡ false) × Lacks sep s

pub split_of_Lacks : (s : String) (sep : Char) → Lacks sep s → split s sep ≡ List.◌∷◌ s List.[]
unfolding split
split_of_Lacks [] sep h = refl
split_of_Lacks (c ∷ s) sep h = rw (h.0, split_of_Lacks s sep h.1)

-- Splitting at the first separator.
pub split-append :
    (s t : String) (sep : Char)
    → Lacks sep s
    → split (s ++ (sep ∷ t)) sep ≡ List.◌∷◌ s (split t sep)
unfolding split
split-append [] t sep h = rw (nil-append (sep ∷ t), split, ==_refl (code sep))
split-append (c ∷ s) t sep h = rw (cons-append c s (sep ∷ t), split, h.0, split-append s t sep h.1)

-- The hexadecimal printer writes no underscore.
abbrev is_no_underscore : ℕ → Bool
is_no_underscore n = not (code (hex_digit n) == b'_')

hex_digit_table : fails_below is_no_underscore 16 ≡ false
unfolding fails_below
hex_digit_table = refl

hex_digit_lacks : (n : ℕ) → n < 16 → (code (hex_digit n) == b'_') ≡ false
hex_digit_lacks n h = ground (arith, fails_below-none is_no_underscore 16 n h hex_digit_table)

pub hex-Lacks : (bs : List ℕ) → Lacks "_" (hex bs)
unfolding hex
hex-Lacks List.[] = tt
hex-Lacks (List.◌∷◌ b bs) = (
  hex_digit_lacks (b / 16 % 16) (omega arith),
  (hex_digit_lacks (b % 16) (omega arith), hex-Lacks bs),
)
