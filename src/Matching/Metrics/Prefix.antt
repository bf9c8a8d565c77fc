-- ===== src/Matching/Metrics/Prefix.antt =====
-- matching/metrics.py, `module_distance`: the steps to a common package.
use python_arch_testing.Base.{
  Bool-cases, List, Text, [], ap, arith, eq_text, inl, inr, length, length-append, refl, suc, sym,
  text_eq_iff, ◌++◌, ◌+◌, ◌==◌, ◌∙◌, ◌∷◌, ◌≡◌, ◌≤◌,
}
use python_arch_testing.Matching.Metrics.{module_distance, common_prefix, parts}

-- What the loop counts is the length of a prefix of both lists.
common_split :
    (xs ys : List Text)
    → (p : List Text) × (us : List Text) × (vs : List Text) × (xs ≡ p ++ us)
      × (ys ≡ p ++ vs)
      × (length p ≡ common_prefix xs ys)
unfolding common_prefix
common_split [] ys = ([], [], ys, refl, refl, refl)
common_split (x ∷ xs) [] = ([], x ∷ xs, [], refl, refl, refl)
common_split (x ∷ xs) (y ∷ ys) = elim (Bool-cases (x == y)) [
  | inl h ↦
      let (p, us, vs, a, b, n) = common_split xs ys in
      let same = (text_eq_iff x y).0 h in
      (
        x ∷ p,
        us,
        vs,
        ap (λ z. x ∷ z) a,
        ap (λ z. z ∷ ys) (sym same) ∙ ap (λ z. x ∷ z) b,
        rw (h, common_prefix) (ap suc n),
      )
  | inr h ↦ ([], x ∷ xs, y ∷ ys, refl, refl, rw (h, common_prefix) refl)
]

-- No prefix of both lists is longer.
le-common_prefix : (p us vs : List Text) → length p ≤ common_prefix (p ++ us) (p ++ vs)
unfolding common_prefix
le-common_prefix [] us vs = omega arith
le-common_prefix (x ∷ p) us vs = ground (arith, text_eq_iff x x, le-common_prefix p us vs)

-- The distance of two module names is the least number of steps from the one up to a common package
-- and down to the other: the parts that are left on both sides of some common prefix of their parts,
-- and no more than those left of any other.
pub module_distance_least :
    (a b : Text)
    → ((p : List Text) × (us : List Text) × (vs : List Text) × (parts a ≡ p ++ us)
        × (parts b ≡ p ++ vs)
        × (module_distance a b ≡ length us + length vs))
      × ((p us vs : List Text)
          → parts a ≡ p ++ us
          → parts b ≡ p ++ vs
          → module_distance a b ≤ length us + length vs)
unfolding module_distance
module_distance_least a b = (
  (let (p, us, vs, x, y, n) = common_split (parts a) (parts b) in
      (
        p,
        us,
        vs,
        x,
        y,
        omega (arith, n, ap length x ∙ length-append p us, ap length y ∙ length-append p vs),
      )),
  λ p us vs x y.
      rw (x, y) (omega (arith, le-common_prefix p us vs, length-append p us, length-append p vs)),
)
