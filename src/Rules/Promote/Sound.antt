-- ===== src/Rules/Promote/Sound.antt =====
-- core/evaluation.py: which entity `_promote_low_confidence_target` may choose.
use python_arch_testing.Base.{
  Bool, In, List, Option, [], ap, arith, codes, eq_pair, eq_text, false, if-some, if◌then◌else◌,
  inl, inr, lookup, none, not, refl, some, subst, sym, text_eq_iff, true, ◌&&◌, ◌==◌, ◌||◌, ◌∙◌,
  ◌∷◌, ◌≡◌, ◌⊎◌,
}
use python_arch_testing.Entities.{Entity, values_of}
use python_arch_testing.Entities.Keys.{is_extras_only_divergence, is_param_rename_only_divergence}
use python_arch_testing.Rules.Models.{
  MatchResult, MatchStatus, Rule, ambiguous, is_low_confidence, low_confidence, matched, unmatched,
}
use python_arch_testing.Rules.Promote.{
  Setup, admitted, first_in_pool, target_of_id, admits_extras, admits_rename, first_admissible,
  promote_low_confidence_target, admits_protocol, admits_signature,
}

if-either :
    {A : Type 0} (b : Bool) (t : A) (o p : Option A)
    → (if b then o else p) ≡ some t
    → ((b ≡ true) × (o ≡ some t)) ⊎ ((b ≡ false) × (p ≡ some t))
if-either true t o p h = inl (refl, h)
if-either false t o p h = inr (refl, h)

either_test :
    (a b c d e : Bool)
    → a && (b && c || d && e) ≡ true
    → (a ≡ true) × (((b ≡ true) × (c ≡ true)) ⊎ ((d ≡ true) × (e ≡ true)))
either_test a b c d e h = ground arith

both_tests : (a b : Bool) → a && b ≡ true → (a ≡ true) × (b ≡ true)
both_tests a b h = ground arith

if_none-some :
    {A : Type 0} (b : Bool) (t : A) (o : Option A)
    → (if b then none else o) ≡ some t
    → (b ≡ false) × (o ≡ some t)
if_none-some true t o h = absurd (cc h)
if_none-some false t o h = (refl, h)

module _ {X C V : Type 0} (setup : Setup X C V) where
  -- The target of the match, or an entity of the source's kind and name in the target's index.
  abbrev pub Candidate : Entity X → MatchResult C → Entity X → Type 0
  Candidate source m t =
      (target_of_id setup m.target_id ≡ some t)
      ⊎ In t (values_of (lookup (source.kind, source.name) setup.ctx.target_index.by_name))

  first_in_pool-some :
      (pool : List (Entity X)) (admits : Entity X → Bool) (t : Entity X)
      → first_in_pool pool admits ≡ some t
      → In t pool × (admits t ≡ true)
  unfolding first_in_pool
  first_in_pool-some [] admits t h = absurd (cc h)
  first_in_pool-some (e ∷ pool) admits t h = elim (if-some (admits e) e t _ h) [
    | inl (a, q) ↦ (inl (sym q), subst (λ z. admits z ≡ true) q a)
    | inr (a, k) ↦ let (i, b) = first_in_pool-some pool admits t k in (inr i, b)
  ]

  admitted-some :
      (o : Option (Entity X)) (admits : Entity X → Bool) (t : Entity X)
      → admitted o admits ≡ some t
      → (o ≡ some t) × (admits t ≡ true)
  admitted-some none admits t h = absurd (cc h)
  admitted-some (some e) admits t h = elim (if-some (admits e) e t _ h) [
    | inl (a, q) ↦ (ap (λ z. some z) q, subst (λ z. admits z ≡ true) q a)
    | inr (a, k) ↦ absurd (cc k)
  ]

  first_admissible-some :
      (source : Entity X) (m : MatchResult C) (admits : Entity X → Bool) (t : Entity X)
      → first_admissible setup source m admits ≡ some t
      → Candidate source m t × (admits t ≡ true)
  unfolding first_admissible
  first_admissible-some source m admits t h =
      chosen (admitted (target_of_id setup m.target_id) admits) refl h
    where
      chosen :
          (o : Option (Entity X))
          → admitted (target_of_id setup m.target_id) admits ≡ o
          → (elim o [
            | none ↦
                first_in_pool
                  (values_of (lookup (source.kind, source.name) setup.ctx.target_index.by_name))
                  admits
            | some e ↦ some e
          ])
            ≡ some t
          → Candidate source m t × (admits t ≡ true)
      chosen none e k = let (i, a) = first_in_pool-some _ admits t k in (inr i, a)
      chosen (some u) e k =
          let (i, a) = admitted-some (target_of_id setup m.target_id) admits t (e ∙ k) in (inl i, a)

  signature_test :
      (rule : Rule V) (source t : Entity X)
      → admits_signature setup rule source t ≡ (
          t.name == source.name
          && (admits_extras setup rule
                && is_extras_only_divergence setup.to_int source.signature_key t.signature_key
              || admits_rename setup rule
                && is_param_rename_only_divergence setup.to_int source.signature_key
                    t.signature_key))
  unfolding admits_signature
  signature_test rule source t = refl

  -- Why a target is promoted.
  abbrev pub Promoted : Rule V → Entity X → MatchResult C → Entity X → Type 0
  Promoted rule source m t =
      (m.status ≡ low_confidence)
      × (t.name ≡ source.name)
      × Candidate source m t
      × (((rule.rule_type ≡ codes "api_signature")
            × (((admits_extras setup rule ≡ true)
                  × (is_extras_only_divergence setup.to_int source.signature_key t.signature_key
                      ≡ true))
                ⊎ ((admits_rename setup rule ≡ true)
                    × (is_param_rename_only_divergence setup.to_int source.signature_key
                          t.signature_key
                        ≡ true))))
          ⊎ ((rule.rule_type ≡ codes "protocol_conformance") × (t.kind ≡ source.kind)))

  is_low_confidence_lem : (s : MatchStatus) → is_low_confidence s ≡ true → s ≡ low_confidence
  is_low_confidence_lem matched h = absurd (cc h)
  is_low_confidence_lem unmatched h = absurd (cc h)
  is_low_confidence_lem ambiguous h = absurd (cc h)
  is_low_confidence_lem low_confidence h = refl

  -- A target is promoted only for a match of low confidence, to an entity of the source's name that
  -- is the match's target or stands in the target's index; for a signature rule the keys then differ
  -- in allowed extras or names only, for a protocol rule the kinds are the same.
  pub promote_low_confidence_sound :
      (rule : Rule V) (source : Entity X) (m : MatchResult C) (t : Entity X)
      → promote_low_confidence_target setup rule source m ≡ some t
      → Promoted rule source m t
  unfolding promote_low_confidence_target
  promote_low_confidence_sound rule source m t h =
      let (low, r) = if_none-some (not (is_low_confidence m.status)) t _ h in
      elim (if-either (rule.rule_type == codes "api_signature") t _ _ r) [
        | inl (k, q) ↦
            let (i, a) =
              first_admissible-some source m (admits_signature setup rule source) t
                (if_none-some _ t _ q).1 in
            let (e, o) = either_test _ _ _ _ _ (sym (signature_test rule source t) ∙ a) in
            (status low, (text_eq_iff _ _).0 e, i, inl ((text_eq_iff _ _).0 k, o))
        | inr (k, q) ↦ elim (if-either (rule.rule_type == codes "protocol_conformance") t _ _ q) [
          | inl (l, q') ↦
              let (i, a) =
                first_admissible-some source m (admits_protocol setup source) t
                  (if_none-some _ t _ q').1 in
              let (e, o) = both_tests _ _ a in
              (
                status low,
                (text_eq_iff _ _).0 o,
                i,
                inr ((text_eq_iff _ _).0 l, (text_eq_iff _ _).0 e),
              )
          | inr (l, q') ↦ absurd (cc q')
        ]
      ]
    where
      status : not (is_low_confidence m.status) ≡ false → m.status ≡ low_confidence
      status low = is_low_confidence_lem m.status (not-false low)
        where
          not-false : {b : Bool} → not b ≡ false → b ≡ true
          not-false {b} k = ground arith
