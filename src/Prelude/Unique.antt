-- ===== src/Prelude/Unique.antt =====
-- Tables with a column that no two rows share: what a UNIQUE constraint keeps.
use mathlib.Core.Path.{◌≡◌, refl, sym, ap, ◌∙◌}
use mathlib.Core.Logic.{inl, inr}
use mathlib.Core.Bool.{Bool, true, false, ◌||◌}
use mathlib.Core.Option.{some}
use mathlib.Core.List.{List, [], ◌∷◌, ◌++◌}
use native.Mathlib.Omega.{arith}
use Prim.Native.String.{String}
use text.Mathlib.Text.{◌==◌ as str_eq}
use text.Mathlib.TextEquality.{eq_iff}
use text.Mathlib.TextPositions.{eq_refl}
use delta_uptime.Prelude.Tests.{if◌then◌else◌, Bool-cases}
use delta_uptime.Prelude.Lists.{find, exists, update_where}

module _ {ℓ} {A : Type ℓ} where
  pub exists-update_where :
      (p q : A → Bool) (f : A → A) (xs : List A)
      → ((y : A) → p (f y) ≡ p y)
      → exists p (update_where q f xs) ≡ exists p xs
  unfolding exists update_where
  exists-update_where p q f [] h = refl
  exists-update_where p q f (x ∷ xs) h = ground (arith, h x, exists-update_where p q f xs h)

  exists_of_find :
      (p q : A → Bool) (xs : List A) (x : A) → find q xs ≡ some x → p x ≡ true → exists p xs ≡ true
  unfolding find exists
  exists_of_find p q [] x e h = cc e
  exists_of_find p q (y ∷ ys) x e h = ground (arith, exists_of_find p q ys x, h)

  pub exists_left :
      (p q : A → Bool) (xs : List A) → exists (λ x. p x || q x) xs ≡ false → exists p xs ≡ false
  unfolding exists
  exists_left p q [] e = refl
  exists_left p q (x ∷ xs) e = ground (arith, exists_left p q xs, e)

  exists-append_one :
      (p : A → Bool) (xs : List A) (x : A)
      → exists p xs ≡ false
      → p x ≡ false
      → exists p (xs ++ x ∷ []) ≡ false
  unfolding exists
  exists-append_one p [] x e h = ground (arith, h)
  exists-append_one p (y ∷ ys) x e h = ground (arith, exists-append_one p ys x, h)

or_false : (a b : Bool) → (a || b) ≡ false → (a ≡ false) × (b ≡ false)
or_false true b e = cc e
or_false false b e = (refl, e)

str_eq_swap : (s t : String) → str_eq s t ≡ false → str_eq t s ≡ false
str_eq_swap s t e = elim (Bool-cases (str_eq t s)) [
  | inl same ↦
      let equal : t ≡ s = (eq_iff t s).0 same in
      let other : str_eq s t ≡ true = rw (sym equal) (eq_refl t) in cc (sym e ∙ other)
  | inr apart ↦ apart
]

module _ {ℓ} {A : Type ℓ} (key : A → String) where
  abbrev pub has_key : String → A → Bool
  has_key k x = str_eq (key x) k

  abbrev pub DistinctBy : List A → Type 0
  DistinctBy [] = Unit
  DistinctBy (x ∷ xs) = (exists (has_key (key x)) xs ≡ false) × DistinctBy xs

  kept_key :
      (b : Bool) (f : A → A) (x : A)
      → ((y : A) → key (f y) ≡ key y)
      → key (if b then f x else x) ≡ key x
  kept_key true f x h = h x
  kept_key false f x h = refl

  pub DistinctBy-update_where :
      (q : A → Bool) (f : A → A) (xs : List A)
      → ((y : A) → key (f y) ≡ key y)
      → DistinctBy xs
      → DistinctBy (update_where q f xs)
  unfolding update_where
  DistinctBy-update_where q f [] h d = tt
  DistinctBy-update_where q f (x ∷ xs) h (apart, d) = (
    rw (kept_key (q x) f x h) (
        exists-update_where (has_key (key x)) q f xs (λ y. ap (λ k. str_eq k (key x)) (h y))
        ∙ apart),
    DistinctBy-update_where q f xs h d,
  )

  pub DistinctBy-append :
      (xs : List A) (x : A)
      → DistinctBy xs
      → exists (has_key (key x)) xs ≡ false
      → DistinctBy (xs ++ x ∷ [])
  unfolding exists
  DistinctBy-append [] x d new = (refl, tt)
  DistinctBy-append (y ∷ ys) x (apart, d) new = (
    exists-append_one (has_key (key y)) ys x apart
        (str_eq_swap (key y) (key x) (or_false (has_key (key x) y) _ new).0),
    DistinctBy-append ys x d (or_false (has_key (key x) y) _ new).1,
  )

  -- The row that a test finds is the row that its key finds.
  pub find-DistinctBy :
      (q : A → Bool) (xs : List A) (x : A)
      → DistinctBy xs
      → find q xs ≡ some x
      → find (has_key (key x)) xs ≡ some x
  unfolding find
  find-DistinctBy q [] x d e = cc e
  find-DistinctBy q (y ∷ ys) x (apart, d) e = elim (Bool-cases (q y)) [
    | inl hit ↦ let same : y ≡ x = cc (rw hit at e) in ground (arith, eq_refl (key y), same)
    | inr miss ↦ elim (Bool-cases (has_key (key x) y)) [
      | inl equal ↦
          let again =
            exists_of_find (has_key (key y)) q ys x (rw miss at e)
              (rw ((eq_iff (key y) (key x)).0 equal) (eq_refl (key x))) in
          cc (sym apart ∙ again)
      | inr other ↦ rw (other, find) (find-DistinctBy q ys x d (rw miss at e))
    ]
  ]
