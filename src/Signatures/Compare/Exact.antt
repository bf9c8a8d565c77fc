-- ===== src/Signatures/Compare/Exact.antt =====
-- execution/evaluators/signature_comparison.py, `exact_compare`: when two lists of parameters agree.
use python_arch_testing.Base.{
  Bool-cases, List, Option, Text, [], arith, bool_beq, bool_beq_iff, eq_text, get_elem?, inl, inr,
  length, nat_eq, nat_eq_iff, not, some, text_eq_iff, ℕ, ◌++◌, ◌==◌, ◌↔◌, ◌≡◌,
}
use python_arch_testing.Signatures.Params.{Param, kind_eq}
use python_arch_testing.Signatures.Compare.{
  Variance, Comparison, annotation_error, annotation_mismatch, error_if, exact_compare, exact_one,
  invariant, kind_mismatch, name_mismatch, required_mismatch,
}
use python_arch_testing.Signatures.Compare.Errors.{
  Fits, annotation_error-nil, append-nil_iff, error_if-nil, kind_eq_iff, not-false_iff,
  over_pairs-nil,
}

module _ (compare : Option Text → Option Text → Variance → Comparison) where
  abbrev pub Agrees : Param → Param → Type 0
  Agrees p q =
      (p.name ≡ q.name)
      × (p.kind ≡ q.kind)
      × (p.required ≡ q.required)
      × Fits compare invariant p.annotation q.annotation

  exact_one-nil : (p q : Param) → (exact_one compare p q ≡ []) ↔ Agrees p q
  exact_one-nil p q = ground (
    arith,
    append-nil_iff (error_if (not (p.name == q.name)) (name_mismatch p.name q.name)) (
        error_if (not (kind_eq p.kind q.kind)) (kind_mismatch p.name p.kind q.kind)
        ++ error_if (not (bool_beq p.required q.required)) (required_mismatch p.name)
        ++ annotation_error compare invariant (annotation_mismatch p.name) p.annotation
            q.annotation),
    append-nil_iff (error_if (not (kind_eq p.kind q.kind)) (kind_mismatch p.name p.kind q.kind)) (
        error_if (not (bool_beq p.required q.required)) (required_mismatch p.name)
        ++ annotation_error compare invariant (annotation_mismatch p.name) p.annotation
            q.annotation),
    append-nil_iff (error_if (not (bool_beq p.required q.required)) (required_mismatch p.name))
        (annotation_error compare invariant (annotation_mismatch p.name) p.annotation q.annotation),
    annotation_error-nil compare invariant (annotation_mismatch p.name) p.annotation q.annotation,
    error_if-nil (not (p.name == q.name)) (name_mismatch p.name q.name),
    error_if-nil (not (kind_eq p.kind q.kind)) (kind_mismatch p.name p.kind q.kind),
    error_if-nil (not (bool_beq p.required q.required)) (required_mismatch p.name),
    not-false_iff (p.name == q.name),
    not-false_iff (kind_eq p.kind q.kind),
    not-false_iff (bool_beq p.required q.required),
    text_eq_iff p.name q.name,
    kind_eq_iff p.kind q.kind,
    bool_beq_iff p.required q.required,
  )

  -- The exact comparison finds no error exactly when there are as many parameters on both sides and
  -- those at one position have the same name, kind and obligation, and an annotation, where the
  -- reference declares one, that compares as compatible.
  pub exact_compare-nil :
      (expected found : List Param)
      → (exact_compare compare expected found ≡ []) ↔ (
          (length expected ≡ length found)
          × ((i : ℕ) (p q : Param)
              → get_elem? expected i ≡ some p
              → get_elem? found i ≡ some q
              → Agrees p q))
  unfolding exact_compare
  exact_compare-nil expected found = elim (Bool-cases (nat_eq (length expected) (length found))) [
    | inl e ↦ rw e (
      λ h. (
        (nat_eq_iff _ _).0 e,
        λ i p q a b. (exact_one-nil p q).0 ((over_pairs-nil _ _ _).0 h i p q a b),
      ),
      λ h. (over_pairs-nil _ _ _).1 (λ i p q a b. (exact_one-nil p q).1 (h.1 i p q a b)),
    )
    | inr e ↦ rw e (
      λ h. absurd (cc h),
      λ h. absurd (cc (e, (nat_eq_iff (length expected) (length found)).1 h.0)),
    )
  ]
