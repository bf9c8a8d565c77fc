-- ===== src/Matching/Metrics/Paths.antt =====
-- matching/metrics.py, `module_distance`: the common prefix of the parts of dotted names.
use python_arch_testing.Base.{
  Bool-cases, List, Text, [], ap₂, arith, eq_text, false, if◌then◌else◌, inl, inr, length, refl,
  suc, text_eq_iff, true, ◌*◌, ◌+◌, ◌==◌, ◌↔◌, ◌∷◌, ◌≡◌, ◌≤◌, ◌⊎◌,
}
use python_arch_testing.Matching.Metrics.{module_distance, common_prefix, parts}

common-le :
    (xs ys : List Text) → (common_prefix xs ys ≤ length xs) × (common_prefix xs ys ≤ length ys)
unfolding common_prefix
common-le [] ys = ground arith
common-le (x ∷ xs) [] = ground arith
common-le (x ∷ xs) (y ∷ ys) = ground (arith, common-le xs ys)

common_comm : (xs ys : List Text) → common_prefix xs ys ≡ common_prefix ys xs
unfolding common_prefix
common_comm [] [] = refl
common_comm [] (y ∷ ys) = refl
common_comm (x ∷ xs) [] = refl
common_comm (x ∷ xs) (y ∷ ys) = ground (arith, text_eq_iff x y, text_eq_iff y x, common_comm xs ys)

common_all : (xs ys : List Text) → length xs + length ys ≤ 2 * common_prefix xs ys → xs ≡ ys
unfolding common_prefix
common_all [] [] h = refl
common_all [] (y ∷ ys) h = let no : ⊥ = omega arith in absurd no
common_all (x ∷ xs) [] h = let no : ⊥ = omega arith in absurd no
common_all (x ∷ xs) (y ∷ ys) h = elim (Bool-cases (x == y)) [
  | inl p ↦ ap₂ (λ a b. a ∷ b) ((text_eq_iff x y).0 p) (common_all xs ys (shorter p h))
  | inr p ↦ absurd (none p h)
]
  where
    shorter :
        (x == y) ≡ true
        → suc (length xs) + suc (length ys) ≤ 2 * (if x == y then suc (common_prefix xs ys) else 0)
        → length xs + length ys ≤ 2 * common_prefix xs ys
    shorter p h = ground arith

    none :
        (x == y) ≡ false
        → suc (length xs) + suc (length ys) ≤ 2 * (if x == y then suc (common_prefix xs ys) else 0)
        → ⊥
    none p h = ground arith

common_same : (xs : List Text) → common_prefix xs xs ≡ length xs
unfolding common_prefix
common_same [] = refl
common_same (x ∷ xs) = ground (arith, text_eq_iff x x, common_same xs)

common_between :
    (xs ys zs : List Text)
    → (common_prefix xs ys ≤ common_prefix xs zs) ⊎ (common_prefix ys zs ≤ common_prefix xs zs)
unfolding common_prefix
common_between [] ys zs = inl (omega arith)
common_between (x ∷ xs) [] zs = inl (omega arith)
common_between (x ∷ xs) (y ∷ ys) [] = inr (omega arith)
common_between (x ∷ xs) (y ∷ ys) (z ∷ zs) =
    ground (arith, text_eq_iff x y, text_eq_iff y z, text_eq_iff x z, common_between xs ys zs)

-- The distance of two module names is symmetric, is zero just for names with the same parts, and
-- obeys the triangle inequality.
pub module_distance_metric :
    (a b c : Text)
    → (module_distance a b ≡ module_distance b a)
      × ((module_distance a b ≡ 0) ↔ (parts a ≡ parts b))
      × (module_distance a c ≤ module_distance a b + module_distance b c)
unfolding module_distance
module_distance_metric a b c = (
  omega (arith, common_comm (parts a) (parts b)),
  (
    λ h. common_all (parts a) (parts b) (omega arith),
    λ p. rw p (omega (arith, common_same (parts b))),
  ),
  elim (common_between (parts a) (parts b) (parts c)) [
    | inl h ↦ omega (
      arith,
      common-le (parts a) (parts b),
      common-le (parts b) (parts c),
      common-le (parts a) (parts c),
    )
    | inr h ↦ omega (
      arith,
      common-le (parts a) (parts b),
      common-le (parts b) (parts c),
      common-le (parts a) (parts c),
    )
  ],
)
