-- ===== src/Signatures/Compare/Compatible.antt =====
-- execution/evaluators/signature_comparison.py, `compatible_compare` without `allow_param_rename`.
use python_arch_testing.Base.{
  Bool, Bool-cases, In, List, Nodup, Option, Text, [], arith, contains, contains_iff, eq_text,
  false, inl, inr, mem_map, none, not, not_contains, refl, some, subst, sym, true, ◌&&◌, ◌++◌, ◌↔◌,
  ◌∙◌, ◌∷◌, ◌≡◌, ◌≢◌,
}
use python_arch_testing.Signatures.Params.{Param, kind_eq, posonly}
use python_arch_testing.Signatures.Compare.{
  Variance, Comparison, annotation_error, annotation_mismatch, became_required, compatible_compare,
  contravariant, error_if, found_by_name, kind_mismatch, named_one, over_named,
}
use python_arch_testing.Signatures.Compare.Errors.{
  Fits, annotation_error-nil, append-nil_iff, error_if-nil, kind_eq_iff, not-false_iff,
}
use python_arch_testing.Signatures.Compare.Named.{
  names, In-extra_params, extra_errors-nil, found_by_name-In, found_by_name-some,
}

module _ (compare : Option Text → Option Text → Variance → Comparison) where
  -- The parameter found under the name of a parameter may stand for it.
  abbrev pub StandsFor : Param → Param → Type 0
  StandsFor q p =
      (p.kind ≡ q.kind)
      × (p.required ≡ false → q.required ≡ false)
      × Fits compare contravariant p.annotation q.annotation

  named_one-nil :
      (p : Param) (o : Option Param)
      → (named_one compare p o ≡ []) ↔ ((q : Param) × (o ≡ some q) × StandsFor q p)
  named_one-nil p none = (λ h. absurd (cc h), λ w. absurd (cc w.1))
  named_one-nil p (some q) = (
    λ h. (q, refl, fits.0 h),
    λ w. let back : w.0 ≡ q = cc w.1 in fits.1 (subst (λ z. StandsFor z p) back w.2),
  )
    where
      weaker : (a b : Bool) → (not a && b ≡ false) ↔ (a ≡ false → b ≡ false)
      weaker a b = ground arith

      fits : (named_one compare p (some q) ≡ []) ↔ StandsFor q p
      fits = ground (
        arith,
        append-nil_iff (error_if (not (kind_eq p.kind q.kind)) (kind_mismatch p.name p.kind q.kind))
            (error_if (not p.required && q.required) (became_required p.name)
              ++ annotation_error compare contravariant (annotation_mismatch p.name) p.annotation
                  q.annotation),
        append-nil_iff (error_if (not p.required && q.required) (became_required p.name)) (
            annotation_error compare contravariant (annotation_mismatch p.name) p.annotation
              q.annotation),
        annotation_error-nil compare contravariant (annotation_mismatch p.name) p.annotation
            q.annotation,
        error_if-nil (not (kind_eq p.kind q.kind)) (kind_mismatch p.name p.kind q.kind),
        error_if-nil (not p.required && q.required) (became_required p.name),
        not-false_iff (kind_eq p.kind q.kind),
        weaker p.required q.required,
        kind_eq_iff p.kind q.kind,
      )

  abbrev pub HasNamed : List Param → Param → Type 0
  HasNamed found p = (q : Param) × (found_by_name p.name found ≡ some q) × StandsFor q p

  over_named-nil :
      (expected found : List Param)
      → (over_named compare expected found ≡ []) ↔ ((p : Param) → In p expected → HasNamed found p)
  unfolding over_named
  over_named-nil [] found = (λ h p i. absurd i, λ h. refl)
  over_named-nil (e ∷ expected) found = (
    λ h p i. elim i [
      | inl k ↦
          subst (HasNamed found) (sym k) ((named_one-nil e _).0 (((append-nil_iff _ _).0 h).0))
      | inr j ↦ (over_named-nil expected found).0 (((append-nil_iff _ _).0 h).1) p j
    ],
    λ h. (append-nil_iff _ _).1 (
      (named_one-nil e _).1 (h e (inl refl)),
      (over_named-nil expected found).1 (λ p i. h p (inr i)),
    ),
  )

  -- Without renaming, the comparison by name finds no error exactly when every expected parameter
  -- has one of its name in the target, of its kind, not required where it is optional and with a
  -- compatible annotation, and every other parameter of the target is allowed and optional.
  pub compatible_compare-nil :
      (allow_extra_params : Bool) (expected found : List Param)
      → (compatible_compare compare allow_extra_params false expected found ≡ []) ↔ (
          ((p : Param) → In p expected → HasNamed found p)
          × ((p : Param)
              → In p found
              → ¬ In p.name (names expected)
              → (allow_extra_params ≡ true) × (p.required ≡ false)))
  unfolding compatible_compare
  compatible_compare-nil allow expected found = (
    λ h. (
      (over_named-nil expected found).0 (((append-nil_iff _ _).0 h).0),
      λ p i n.
          (extra_errors-nil allow _).0 (((append-nil_iff _ _).0 h).1) p
            ((In-extra_params p expected found).1 (i, n)),
    ),
    λ h. (append-nil_iff _ _).1 (
      (over_named-nil expected found).1 h.0,
      (extra_errors-nil allow _).1
          (λ p i. let (j, n) = (In-extra_params p expected found).0 i in h.1 p j n),
    ),
  )

  -- A call that passes keyword arguments only: each is a parameter that takes a keyword, and no
  -- required parameter is left out.
  abbrev pub AcceptsKeywords : List Param → List Text → Type 0
  AcceptsKeywords params keywords =
      ((n : Text) → In n keywords → (p : Param) × In p params × (p.name ≡ n) × (p.kind ≢ posonly))
      × ((p : Param) → In p params → p.required ≡ true → In p.name keywords)

  -- Every call by keywords alone that the expected parameters accept is accepted by the found ones,
  -- when the comparison without renaming finds no error and no two found parameters share a name.
  pub compatible_compare_safe :
      (allow_extra_params : Bool) (expected found : List Param) (keywords : List Text)
      → Nodup (names found)
      → compatible_compare compare allow_extra_params false expected found ≡ []
      → AcceptsKeywords expected keywords
      → AcceptsKeywords found keywords
  compatible_compare_safe allow expected found keywords once clean accepts = (
    λ n i.
        let (p, j, e, k) = accepts.0 n i in
        let (q, l, s) = (compared.0 p j) in
        let (m, r) = found_by_name-some p.name found q l in (q, m, r ∙ e, λ x. k (s.0 ∙ x)),
    λ q i r. elim (Bool-cases (contains (names expected) q.name)) [
      | inl c ↦
          let (p, j, e) = mem_map (λ p. p.name) q.name expected ((contains_iff _ _).0 c) in
          subst (λ n. In n keywords) (sym e) (accepts.1 p j (still_required p q j i r e))
      | inr c ↦ absurd (cc (r, (compared.1 q i (not_contains _ _ c)).1))
    ],
  )
    where
      compared :
          ((p : Param) → In p expected → HasNamed found p)
          × ((p : Param)
              → In p found
              → ¬ In p.name (names expected)
              → (allow ≡ true) × (p.required ≡ false))
      compared = (compatible_compare-nil allow expected found).0 clean

      still_required :
          (p q : Param)
          → In p expected
          → In q found
          → q.required ≡ true
          → q.name ≡ p.name
          → p.required ≡ true
      still_required p q j i r e = elim (Bool-cases p.required) [
        | inl h ↦ h
        | inr h ↦
            let (t, l, s) = compared.0 p j in
            let same =
              found_by_name-In found q t once i
                (subst (λ n. found_by_name n found ≡ some t) (sym e) l) in
            absurd (cc (r, s.1 h, same))
      ]
