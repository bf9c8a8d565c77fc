-- ===== src/Signatures/Compare/Errors.antt =====
-- The lists of errors of execution/evaluators/signature_comparison.py: when one is empty.
use python_arch_testing.Base.{
  Bool, List, Option, Text, [], arith, false, get_elem?, none, not, refl, some, subst, suc, true,
  zero, ℕ, ◌++◌, ◌↔◌, ◌∷◌, ◌≡◌,
}
use python_arch_testing.Signatures.Params.{Param, ParamKind, kind_eq, kwonly, pos_or_kw, posonly}
use python_arch_testing.Signatures.Compare.{
  SignatureError, Comparison, Variance, annotation_error, error_if, over_pairs,
}

pub append-nil_iff {ℓ} : {A : Type ℓ} (xs ys : List A) → (xs ++ ys ≡ []) ↔ ((xs ≡ []) × (ys ≡ []))
append-nil_iff [] ys = ground arith
append-nil_iff (x ∷ xs) ys = ground arith

pub error_if-nil : (c : Bool) (e : SignatureError) → (error_if c e ≡ []) ↔ (c ≡ false)
error_if-nil true e = ground arith
error_if-nil false e = ground arith

pub kind_eq_iff : (k l : ParamKind) → (kind_eq k l ≡ true) ↔ (k ≡ l)
kind_eq_iff posonly posonly = ground arith
kind_eq_iff posonly pos_or_kw = ground arith
kind_eq_iff posonly kwonly = ground arith
kind_eq_iff pos_or_kw posonly = ground arith
kind_eq_iff pos_or_kw pos_or_kw = ground arith
kind_eq_iff pos_or_kw kwonly = ground arith
kind_eq_iff kwonly posonly = ground arith
kind_eq_iff kwonly pos_or_kw = ground arith
kind_eq_iff kwonly kwonly = ground arith

pub not-false_iff : (b : Bool) → (not b ≡ false) ↔ (b ≡ true)
not-false_iff true = ground arith
not-false_iff false = ground arith

pub over_pairs-nil :
    (f : Param → Param → List SignatureError) (expected found : List Param)
    → (over_pairs f expected found ≡ []) ↔ (
        (i : ℕ) (p q : Param)
        → get_elem? expected i ≡ some p
        → get_elem? found i ≡ some q
        → f p q ≡ [])
unfolding over_pairs
over_pairs-nil f [] found = (λ h i p q k. absurd (cc k), λ h. refl)
over_pairs-nil f (exp ∷ expected) [] = (λ h i p q k l. absurd (cc l), λ h. refl)
over_pairs-nil f (exp ∷ expected) (got ∷ found) = (
  λ h.
      at_index (((append-nil_iff _ _).0 h).0)
        ((over_pairs-nil f expected found).0 (((append-nil_iff _ _).0 h).1)),
  λ h.
      (append-nil_iff _ _).1
        (h 0 exp got refl refl, (over_pairs-nil f expected found).1 (λ i p q. h (suc i) p q)),
)
  where
    at_index :
        f exp got ≡ []
        → ((i : ℕ) (p q : Param)
            → get_elem? expected i ≡ some p
            → get_elem? found i ≡ some q
            → f p q ≡ [])
        → (i : ℕ) (p q : Param) → get_elem? (exp ∷ expected) i ≡ some p
        → get_elem? (got ∷ found) i ≡ some q
        → f p q ≡ []
    at_index h k zero p q a b = subst (λ z. f z q ≡ []) (cc a) (subst (λ z. f exp z ≡ []) (cc b) h)
    at_index h k (suc i) p q a b = k i p q a b

module _ (compare : Option Text → Option Text → Variance → Comparison) where
  -- What is declared for a parameter is compatible with what is found.
  abbrev pub Fits : Variance → Option Text → Option Text → Type 0
  Fits variance expected found =
      (t : Text) → expected ≡ some t → (compare (some t) found variance).compatible ≡ true

  pub annotation_error-nil :
      (v : Variance) (e : Option Text → Option Text → SignatureError) (a b : Option Text)
      → (annotation_error compare v e a b ≡ []) ↔ Fits v a b
  annotation_error-nil v e none b = (λ h t k. absurd (cc k), λ h. refl)
  annotation_error-nil v e (some a) b = (
    λ h t k.
        subst (λ z. (compare (some z) b v).compatible ≡ true) (cc k)
          ((not-false_iff _).0 ((error_if-nil _ _).0 h)),
    λ h. (error_if-nil _ _).1 ((not-false_iff _).1 (h a refl)),
  )
