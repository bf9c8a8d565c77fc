-- ===== src/Rules/Promote/Calls.antt =====
-- core/evaluation.py and entities.py: the calls that a promoted target takes.
use python_arch_testing.Base.{
  All, Text, codes, false, inl, inr, some, subst, sym, text_eq, text_eq_iff, true, ℕ, ◌∙◌, ◌≡◌,
}
use python_arch_testing.Entities.{Entity, SignatureInfo}
use python_arch_testing.Entities.Keys.{
  signature_key_from_info, is_extras_only_divergence, is_param_rename_only_divergence,
}
use python_arch_testing.Entities.Keys.Printed.{Digit}
use python_arch_testing.Entities.Keys.Divergence.{
  TakesPositional, is_extras_only_safe, is_param_rename_only_iff,
}
use python_arch_testing.Rules.Models.{MatchResult, Rule}
use python_arch_testing.Rules.Promote.{Setup, promote_low_confidence_target}
use python_arch_testing.Rules.Promote.Sound.{promote_low_confidence_sound}

other_type : ¬ (codes "api_signature" ≡ codes "protocol_conformance")
unfolding text_eq
other_type e = differ ((text_eq_iff (codes "api_signature") (codes "protocol_conformance")).1 e)
  where
    differ : ¬ (false ≡ true)
    differ h = absurd (cc h)

module _ {X C V : Type 0} (setup : Setup X C V) (decimal : ℕ → Text) where
  -- A target that is promoted for a signature rule takes every number of positional arguments that the
  -- source takes, where the keys of both are those of their signatures; the decimal form of a number is
  -- assumed to consist of digits and to be read as this number.
  pub promoted_takes :
      ((n : ℕ) → All Digit (decimal n))
      → ((n : ℕ) → setup.to_int (decimal n) ≡ some n)
      → (rule : Rule V) (source : Entity X) (m : MatchResult C) (t : Entity X)
      → (s u : SignatureInfo) (n : ℕ) → rule.rule_type ≡ codes "api_signature"
      → source.signature_key ≡ signature_key_from_info decimal (some s)
      → t.signature_key ≡ signature_key_from_info decimal (some u)
      → promote_low_confidence_target setup rule source m ≡ some t
      → TakesPositional s n
      → TakesPositional u n
  promoted_takes digits reads rule source m t s u n api k l h takes =
      elim (promote_low_confidence_sound setup rule source m t h).3 [
        | inl p ↦ elim p.1 [
          | inl e ↦
              (is_extras_only_safe decimal digits setup.to_int reads s u n (
                  subst
                    (λ z.
                      is_extras_only_divergence setup.to_int z
                        (signature_key_from_info decimal (some u))
                      ≡ true)
                    k
                    (subst
                      (λ z. is_extras_only_divergence setup.to_int source.signature_key z ≡ true) l
                      e.1))).0
                takes
          | inr e ↦
              subst (λ z. TakesPositional z n)
                ((is_param_rename_only_iff decimal digits setup.to_int reads s u).0 (
                  subst
                    (λ z.
                      is_param_rename_only_divergence setup.to_int z
                        (signature_key_from_info decimal (some u))
                      ≡ true)
                    k
                    (subst
                      (λ z.
                        is_param_rename_only_divergence setup.to_int source.signature_key z ≡ true)
                      l e.1)))
                takes
        ]
        | inr p ↦ absurd (other_type (sym api ∙ p.0))
      ]
