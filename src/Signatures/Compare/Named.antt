-- ===== src/Signatures/Compare/Named.antt =====
-- execution/evaluators/signature_comparison.py, `compatible_compare`: the comparison by name.
use python_arch_testing.Base.{
  Bool, Bool-cases, In, In-filter, In-map_of, List, Nodup, Option-cases, Text, [], arith,
  contains_iff, eq_text, false, inl, inr, map, none, not, refl, some, subst, sym, text_eq_iff, true,
  ◌↔◌, ◌∷◌, ◌≡◌, ◌≢◌,
}
use python_arch_testing.Signatures.Params.{Param}
use python_arch_testing.Signatures.Compare.{
  SignatureError, extra_errors, extra_params, found_by_name, named_in, names_error,
  extra_parameters, extra_required,
}
use python_arch_testing.Signatures.Compare.Errors.{not-false_iff}

abbrev pub names : List Param → List Text
names params = map (λ p. p.name) params

pub found_by_name-some :
    (name : Text) (found : List Param) (q : Param)
    → found_by_name name found ≡ some q
    → In q found × (q.name ≡ name)
unfolding found_by_name
found_by_name-some name [] q h = absurd (cc h)
found_by_name-some name (p ∷ found) q h = elim (Option-cases (found_by_name name found)) [
  | inl e ↦ ground (arith, text_eq_iff p.name name)
  | inr (r, e) ↦ ground (arith, found_by_name-some name found q)
]

pub found_by_name-none :
    (name : Text) (found : List Param)
    → found_by_name name found ≡ none
    → (q : Param) → In q found
    → q.name ≢ name
unfolding found_by_name
found_by_name-none name [] h q i = absurd i
found_by_name-none name (p ∷ found) h q i = elim (Option-cases (found_by_name name found)) [
  | inl e ↦ ground (arith, text_eq_iff p.name name, found_by_name-none name found e q)
  | inr (r, e) ↦ ground arith
]

same_name :
    (found : List Param) (p q : Param)
    → Nodup (names found)
    → In p found
    → In q found
    → p.name ≡ q.name
    → p ≡ q
same_name [] p q n i j h = absurd i
same_name (r ∷ found) p q n (inl a) (inl b) h = cc (a, b)
same_name (r ∷ found) p q n (inl a) (inr b) h =
    absurd (n.0 (subst (λ z. In z (names found)) (sym (cc (a, h))) (In-map_of _ q found b)))
same_name (r ∷ found) p q n (inr a) (inl b) h =
    absurd (n.0 (subst (λ z. In z (names found)) (cc (b, h)) (In-map_of _ p found a)))
same_name (r ∷ found) p q n (inr a) (inr b) h = same_name found p q n.1 a b h

-- With no name twice, a parameter is found under its name.
pub found_by_name-In :
    (found : List Param) (p q : Param)
    → Nodup (names found)
    → In p found
    → found_by_name p.name found ≡ some q
    → p ≡ q
found_by_name-In found p q n i h =
    let (j, e) = found_by_name-some p.name found q h in same_name found p q n i j (sym e)

names_error-nil :
    (error : List Text → SignatureError) (params : List Param)
    → (names_error error params ≡ []) ↔ ((p : Param) → ¬ In p params)
names_error-nil error [] = (λ h p i. i, λ h. refl)
names_error-nil error (p ∷ params) = (λ h. absurd (cc h), λ h. absurd (h p (inl refl)))

pub extra_errors-nil :
    (allow : Bool) (extra : List Param)
    → (extra_errors allow extra ≡ [])
      ↔ ((p : Param) → In p extra → (allow ≡ true) × (p.required ≡ false))
extra_errors-nil true extra = (
  λ h p i. (
    refl,
    elim (Bool-cases p.required) [
      | inl r ↦ absurd ((names_error-nil extra_required _).0 h p ((In-filter _ p extra).1 (i, r)))
      | inr r ↦ r
    ],
  ),
  λ h.
      (names_error-nil extra_required _).1
        (λ p i. let (j, r) = (In-filter _ p extra).0 i in absurd (cc (r, (h p j).1))),
)
extra_errors-nil false extra = (
  λ h p i. absurd ((names_error-nil extra_parameters _).0 h p i),
  λ h. (names_error-nil extra_parameters _).1 (λ p i. absurd (cc ((h p i).0))),
)

pub In-extra_params :
    (p : Param) (expected found : List Param)
    → In p (extra_params expected found) ↔ (In p found × ¬ In p.name (names expected))
unfolding extra_params
In-extra_params p expected found = ground (
  arith,
  In-filter (λ p. not (named_in expected p)) p found,
  contains_iff (names expected) p.name,
  not-false_iff (named_in expected p),
)
