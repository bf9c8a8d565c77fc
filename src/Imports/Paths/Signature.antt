-- ===== src/Imports/Paths/Signature.antt =====
-- execution/import_policy_paths.py: the key under which a violation is remembered.
use python_arch_testing.Base.{
  Bool-cases, In, In-append, In-map_of, List, Nodup, [], arith, contains, contains_iff, eq_text,
  inl, inr, map, map-append, not_contains, refl, subst, ◌++◌, ◌↔◌, ◌∷◌, ◌≡◌, ◌⊎◌,
}
use python_arch_testing.Imports.Paths.{
  ImportPathStep, ReachableImportViolation, step_sort_key, signature, Found, report, eq_signature,
  eq_step_key,
}

step_sort_key_injective : (a b : ImportPathStep) → step_sort_key a ≡ step_sort_key b → a ≡ b
unfolding step_sort_key
step_sort_key_injective a b h = ground arith

step_keys_injective :
    (xs ys : List ImportPathStep) → map step_sort_key xs ≡ map step_sort_key ys → xs ≡ ys
step_keys_injective [] [] h = refl
step_keys_injective [] (y ∷ ys) h = cc
step_keys_injective (x ∷ xs) [] h = cc
step_keys_injective (x ∷ xs) (y ∷ ys) h =
    ground (arith, step_sort_key_injective x y, step_keys_injective xs ys)

signature_injective : (a b : ReachableImportViolation) → signature a ≡ signature b → a ≡ b
unfolding signature
signature_injective a b h = ground (arith, step_keys_injective a.steps b.steps)

-- The signatures seen are those of the violations found, and no violation is kept twice.
pub record Tracks (st : Found) : Type 0 where
  pub seen : st.seen_violations ≡ map signature st.violations
  pub once : Nodup st.violations

mem_of_signature :
    (v : ReachableImportViolation) (vs : List ReachableImportViolation)
    → In (signature v) (map signature vs)
    → In v vs
mem_of_signature v [] m = m
mem_of_signature v (w ∷ vs) (inl e) = inl (signature_injective v w e)
mem_of_signature v (w ∷ vs) (inr m) = inr (mem_of_signature v vs m)

Nodup-concat :
    (v : ReachableImportViolation) (vs : List ReachableImportViolation)
    → Nodup vs
    → ¬ In v vs
    → Nodup (vs ++ v ∷ [])
Nodup-concat v [] d n = ground arith
Nodup-concat v (w ∷ vs) d n =
    (λ m. ground (arith, In-append w vs (v ∷ [])), Nodup-concat v vs d.1 (λ m. n (inr m)))

pub report_lem :
    (v : ReachableImportViolation) (st : Found)
    → Tracks st
    → Tracks (report v st)
      × ((w : ReachableImportViolation)
          → In w (report v st).violations ↔ (In w st.violations ⊎ (w ≡ v)))
unfolding report
report_lem v st t =
    elim (Bool-cases (contains ⦃e = eq_signature⦄ st.seen_violations (signature v))) [
      | inl h ↦
          let m = mem_of_signature v st.violations (
            subst (In (signature v)) t.seen
              ((contains_iff ⦃e = eq_signature⦄ st.seen_violations (signature v)).0 h)) in
          rw h (t, λ w. (inl, λ c. elim c [ inl old ↦ old | inr e ↦ rw e m ]))
      | inr h ↦
          let fresh = λ (m : In v st.violations).
            not_contains ⦃e = eq_signature⦄ st.seen_violations (signature v) h
              (rw t.seen (In-map_of signature v st.violations m)) in
          rw h (
            record {
              seen = rw (t.seen, map-append);
              once = Nodup-concat v st.violations t.once fresh;
            },
            λ w. ground (arith, In-append w st.violations (v ∷ [])),
          )
    ]
