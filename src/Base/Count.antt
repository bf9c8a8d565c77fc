-- ===== src/Base/Count.antt =====
-- A list without duplicates is no longer than a list that holds its elements.
use Prim.Native.Nat.{suc, ◌≤◌}
use mathlib.Core.Path.{◌≡◌, refl, subst}
use mathlib.Core.Logic.{◌⊎◌, inl, inr}
use mathlib.Core.List.{List, [], ◌∷◌}
use native.Mathlib.Omega.{arith}
use python_arch_testing.Base.Lists.{In, Nodup, Subset, length}

module _ {A : Type 0} where
  without :
      (x : A) (ys : List A)
      → In x ys
      → (zs : List A) × (length ys ≡ suc (length zs)) × ((y : A) → In y ys → (y ≡ x) ⊎ In y zs)
  without x [] m = absurd m
  without x (y ∷ ys) (inl p) = (ys, refl, λ z n. elim n [ inl q ↦ inl (cc (p, q)) | inr k ↦ inr k ])
  without x (y ∷ ys) (inr m) =
      let (zs, e, rest) = without x ys m in
      (
        y ∷ zs,
        omega (arith, e),
        λ z n. elim n [
          | inl q ↦ inr (inl q)
          | inr k ↦ elim (rest z k) [ inl q ↦ inl q | inr j ↦ inr (inr j) ]
        ],
      )

  pub length-Subset : (xs ys : List A) → Nodup xs → Subset xs ys → length xs ≤ length ys
  length-Subset [] ys d s = omega arith
  length-Subset (x ∷ xs) ys d s =
      let (zs, e, rest) = without x ys (s x (inl refl)) in
      omega (
        arith,
        e,
        length-Subset xs zs d.1 (λ y m. elim (rest y (s y (inr m))) [
          | inl p ↦ absurd (d.0 (subst (λ z. In z xs) p m))
          | inr n ↦ n
        ]),
      )
