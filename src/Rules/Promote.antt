-- ===== src/Rules/Promote.antt =====
-- core/evaluation.py: `_first_admissible` and `_promote_low_confidence_target`. Parameters: `int`
-- and the tests on the values of a rule's parameters.
pub mod Sound
pub mod Calls
use python_arch_testing.Base.{
  Bool, List, Option, Text, [], codes, contains, eq_pair, eq_text, false, if◌then◌else◌, lookup,
  none, not, some, true, ℕ, ◌&&◌, ◌==◌, ◌||◌, ◌∷◌,
}
use python_arch_testing.Entities.{Entity, values_of}
use python_arch_testing.Entities.Keys.{is_extras_only_divergence, is_param_rename_only_divergence}
use python_arch_testing.Rules.Models.{EvalContext, MatchResult, Rule, is_low_confidence}

-- A value of a rule's parameters, as far as the evaluation tests it: `value is True`, `bool(value)`
-- and `str(value).lower()`.
pub record ValueTests (V : Type 0) : Type 0 where
  pub is_true : V → Bool
  pub truth : V → Bool
  pub lowered : V → Text

-- `params.get(key, default)`, under a test that the default has the value of.
abbrev pub param_test : {V B : Type 0} → (V → B) → B → Option V → B
param_test f default none = default
param_test f default (some v) = f v

module _ {X : Type 0} where
  pub first_in_pool : List (Entity X) → (Entity X → Bool) → Option (Entity X)
  first_in_pool [] admits = none
  first_in_pool (e ∷ pool) admits = if admits e then some e else first_in_pool pool admits

  abbrev pub admitted : Option (Entity X) → (Entity X → Bool) → Option (Entity X)
  admitted none admits = none
  admitted (some e) admits = if admits e then some e else none

-- What an evaluation is given: the context, and what Python does.
pub record Setup (X C V : Type 0) : Type 0 where
  pub ctx : EvalContext X C
  pub tests : ValueTests V
  pub to_int : Text → Option ℕ

module _ {X C V : Type 0} (setup : Setup X C V) where
  abbrev pub target_of_id : Option Text → Option (Entity X)
  target_of_id none = none
  target_of_id (some id) = lookup id setup.ctx.target_by_id

  pub first_admissible : Entity X → MatchResult C → (Entity X → Bool) → Option (Entity X)
  unfolding first_in_pool
  first_admissible source m admits =
      let pool = values_of (lookup (source.kind, source.name) setup.ctx.target_index.by_name) in
      let rest = first_in_pool pool admits in
      elim (admitted (target_of_id m.target_id) admits) [ none ↦ rest | some e ↦ some e ]

  abbrev pub admits_extras : Rule V → Bool
  admits_extras rule =
      param_test setup.tests.is_true true (lookup (codes "allow_extra_params") rule.params)

  abbrev pub admits_rename : Rule V → Bool
  admits_rename rule =
      param_test setup.tests.is_true false (lookup (codes "allow_param_rename") rule.params)

  -- `admits` of an api_signature rule.
  pub admits_signature : Rule V → Entity X → Entity X → Bool
  admits_signature rule source candidate =
      candidate.name == source.name
      && (admits_extras rule
            && is_extras_only_divergence setup.to_int source.signature_key candidate.signature_key
          || admits_rename rule
            && is_param_rename_only_divergence setup.to_int source.signature_key
                candidate.signature_key)

  abbrev pub admits_protocol : Entity X → Entity X → Bool
  admits_protocol source candidate = candidate.kind == source.kind && candidate.name == source.name

  abbrev pub signature_mode : Rule V → Text
  signature_mode rule =
      param_test setup.tests.lowered (codes "compatible")
        (lookup (codes "signature_mode") rule.params)

  unfoldable pub promote_low_confidence_target :
      Rule V → Entity X → MatchResult C → Option (Entity X)
  unfolding first_admissible admits_signature
  promote_low_confidence_target rule source m =
      if not (is_low_confidence m.status)
      then none
      else if rule.rule_type == codes "api_signature"
      then (if not (admits_extras rule || admits_rename rule)
          then none
          else first_admissible source m (admits_signature rule source))
      else if rule.rule_type == codes "protocol_conformance"
      then (if not (contains (codes "compatible" ∷ codes "any" ∷ []) (signature_mode rule))
          then none
          else first_admissible source m (admits_protocol source))
      else none
