-- ===== src/Signatures/Compare/Loose.antt =====
-- execution/evaluators/signature_comparison.py, `compatible_compare` under `allow_param_rename`.
use python_arch_testing.Base.{
  Bool, Bool-cases, List, Option, Text, [], arith, filter, get_elem?, inl, inr, length, ltb, not,
  some, true, ℕ, ◌↔◌, ◌≡◌, ◌≤◌,
}
use python_arch_testing.Signatures.Params.{Param, kind_eq, kwonly}
use python_arch_testing.Signatures.Compare.{
  Variance, Comparison, SignatureError, annotation_error, compatible_compare, contravariant,
  error_if, fewer_kwonly, fewer_or, fewer_positional, is_kwonly, kwonly_one,
  position_annotation_mismatch, position_kind_mismatch, positional_one, renamed_compare,
}
use python_arch_testing.Signatures.Compare.Errors.{
  Fits, annotation_error-nil, append-nil_iff, error_if-nil, kind_eq_iff, not-false_iff,
  over_pairs-nil,
}

-- Enough parameters are found, and each stands as `R` says for the expected one of its position.
abbrev pub InPlace : (Param → Param → Type 0) → List Param → List Param → Type 0
InPlace R expected found =
    (length expected ≤ length found)
    × ((i : ℕ) (p q : Param) → get_elem? expected i ≡ some p → get_elem? found i ≡ some q → R p q)

abbrev pub by_keyword : List Param → List Param
by_keyword = filter (λ p. kind_eq p.kind kwonly)

abbrev pub by_position : List Param → List Param
by_position = filter (λ p. not (kind_eq p.kind kwonly))

fewer_or-nil :
    (R : Param → Param → Type 0) (error : SignatureError) (f : Param → Param → List SignatureError)
    (expected found : List Param)
    → ((p q : Param) → (f p q ≡ []) ↔ R p q)
    → (fewer_or error f expected found ≡ []) ↔ InPlace R expected found
fewer_or-nil R error f expected found each =
    elim (Bool-cases (ltb (length found) (length expected))) [
      | inl e ↦ rw e (λ h. absurd (cc h), λ h. let no : ⊥ = ground (arith, e, h.0) in absurd no)
      | inr e ↦ rw e (
        λ h. (
          ground (arith, e),
          λ i p q a b. (each p q).0 ((over_pairs-nil f expected found).0 h i p q a b),
        ),
        λ h. (over_pairs-nil f expected found).1 (λ i p q a b. (each p q).1 (h.1 i p q a b)),
      )
    ]

module _ (compare : Option Text → Option Text → Variance → Comparison) where
  -- What the comparison asks of a parameter by position, and of one by keyword.
  abbrev pub Replaces : Param → Param → Type 0
  Replaces p q = (p.kind ≡ q.kind) × Fits compare contravariant p.annotation q.annotation

  abbrev pub ReplacesKeyword : Param → Param → Type 0
  ReplacesKeyword p q = Fits compare contravariant p.annotation q.annotation

  positional_one-nil : (p q : Param) → (positional_one compare p q ≡ []) ↔ Replaces p q
  positional_one-nil p q = ground (
    arith,
    append-nil_iff (error_if (not (kind_eq p.kind q.kind)) (position_kind_mismatch p.kind q.kind)) (
        annotation_error compare contravariant position_annotation_mismatch p.annotation
          q.annotation),
    annotation_error-nil compare contravariant position_annotation_mismatch p.annotation
        q.annotation,
    error_if-nil (not (kind_eq p.kind q.kind)) (position_kind_mismatch p.kind q.kind),
    not-false_iff (kind_eq p.kind q.kind),
    kind_eq_iff p.kind q.kind,
  )

  -- Under renaming, the comparison finds no error exactly when the target has no fewer parameters by
  -- position and no fewer by keyword, and at each place of the one and of the other sort the
  -- annotations are compatible and, by position, the kinds are equal: names and obligations, further
  -- parameters and whether extra ones are allowed play no part.
  pub renamed_compare-nil :
      (allow_extra_params : Bool) (expected found : List Param)
      → (compatible_compare compare allow_extra_params true expected found ≡ []) ↔ (
          InPlace Replaces (by_position expected) (by_position found)
          × InPlace ReplacesKeyword (by_keyword expected) (by_keyword found))
  unfolding compatible_compare renamed_compare is_kwonly
  renamed_compare-nil allow expected found = (
    λ h. let parts = (append-nil_iff _ _).0 h in (positions.0 parts.0, keywords.0 parts.1),
    λ h. (append-nil_iff _ _).1 (positions.1 h.0, keywords.1 h.1),
  )
    where
      positions :
          (fewer_or fewer_positional
              (positional_one compare)
              (by_position expected)
              (by_position found)
            ≡ [])
          ↔ InPlace Replaces (by_position expected) (by_position found)
      positions =
          fewer_or-nil Replaces fewer_positional (positional_one compare) _ _ positional_one-nil

      keywords :
          (fewer_or fewer_kwonly (kwonly_one compare) (by_keyword expected) (by_keyword found) ≡ [])
          ↔ InPlace ReplacesKeyword (by_keyword expected) (by_keyword found)
      keywords = fewer_or-nil ReplacesKeyword fewer_kwonly (kwonly_one compare) _ _ (λ p q.
          annotation_error-nil compare contravariant position_annotation_mismatch p.annotation
            q.annotation)
