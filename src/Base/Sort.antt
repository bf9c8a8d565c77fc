-- ===== src/Base/Sort.antt =====
-- Python's `sorted` for a total preorder: stable, by insertion. Keys are compared lexicographically.
use Prim.Native.Nat.{suc}
use mathlib.Core.Path.{◌≡◌, refl}
use mathlib.Core.Logic.{◌↔◌, ◌⊎◌, inl, inr}
use mathlib.Core.Bool.{Bool, true, false}
use mathlib.Core.List.{List, [], ◌∷◌}
use native.Mathlib.Omega.{arith}
use python_arch_testing.Base.Tests.{if◌then◌else◌, Bool-cases, leb, nat_eq}
use python_arch_testing.Base.Equality.{Eq, ◌==◌, Text}
use python_arch_testing.Base.Lists.{In, Nodup, length}

module _ {A : Type 0} (le : A → A → Bool) where
  unfoldable pub insert_by : A → List A → List A
  insert_by x [] = x ∷ []
  insert_by x (y ∷ ys) = if le x y then x ∷ y ∷ ys else y ∷ insert_by x ys

  unfoldable pub sort_by : List A → List A
  unfolding insert_by
  sort_by [] = []
  sort_by (x ∷ xs) = insert_by x (sort_by xs)

  In-insert_by : (a x : A) (xs : List A) → In a (insert_by x xs) ↔ ((a ≡ x) ⊎ In a xs)
  unfolding insert_by
  In-insert_by a x [] = ground arith
  In-insert_by a x (y ∷ ys) = elim (Bool-cases (le x y)) [
    | inl p ↦ rw p (ground arith)
    | inr p ↦ rw p (ground (arith, In-insert_by a x ys))
  ]

  pub In-sort_by : (a : A) (xs : List A) → In a (sort_by xs) ↔ In a xs
  unfolding sort_by
  In-sort_by a [] = ground arith
  In-sort_by a (x ∷ xs) = ground (arith, In-insert_by a x (sort_by xs), In-sort_by a xs)

  length-insert_by : (x : A) (xs : List A) → length (insert_by x xs) ≡ suc (length xs)
  unfolding insert_by
  length-insert_by x [] = refl
  length-insert_by x (y ∷ ys) = ground (arith, length-insert_by x ys)

  pub length-sort_by : (xs : List A) → length (sort_by xs) ≡ length xs
  unfolding sort_by
  length-sort_by [] = refl
  length-sort_by (x ∷ xs) = omega (arith, length-insert_by x (sort_by xs), length-sort_by xs)

  Nodup-insert_by : (x : A) (xs : List A) → ¬ In x xs → Nodup xs → Nodup (insert_by x xs)
  unfolding insert_by
  Nodup-insert_by x [] n d = ground arith
  Nodup-insert_by x (y ∷ ys) n d = elim (Bool-cases (le x y)) [
    | inl p ↦ rw p (n, d)
    | inr p ↦
        rw p (λ m. ground (arith, In-insert_by y x ys), Nodup-insert_by x ys (λ m. n (inr m)) d.1)
  ]

  pub Nodup-sort_by : (xs : List A) → Nodup xs → Nodup (sort_by xs)
  unfolding sort_by
  Nodup-sort_by [] d = tt
  Nodup-sort_by (x ∷ xs) d =
      Nodup-insert_by x (sort_by xs) (λ m. d.0 ((In-sort_by x xs).0 m)) (Nodup-sort_by xs d.1)

-- Python's order of two `str`: by code points.
abbrev pub text_le : Text → Text → Bool
text_le [] t = true
text_le (a ∷ s) [] = false
text_le (a ∷ s) (b ∷ t) = if nat_eq a b then text_le s t else leb a b

-- The order of tuples: by the first component that differs.
module _ {A B : Type 0} ⦃e : Eq A⦄ where
  abbrev pub lex : (A → A → Bool) → (B → B → Bool) → A × B → A × B → Bool
  lex le le' (a, b) (c, d) = if a == c then le' b d else le a c

abbrev pub bool_le : Bool → Bool → Bool
bool_le false b = true
bool_le true b = b
