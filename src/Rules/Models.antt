-- ===== src/Rules/Models.antt =====
-- core/models.py (`Rule`, `RuleResult`, `EvalContext`) and matching/models.py (`MatchStatus`,
-- `MatchResult`). The confidence of a match is a number of any type `C`, the value of a parameter
-- of a rule is of any type `V`, the evidence and the details of an evaluator are of any type `D`.
use python_arch_testing.Base.{Bool, Dict, Option, Text, false, true}
use python_arch_testing.Entities.{Entity, EntityIndex}

pub data MatchStatus : Type 0 where
  matched unmatched ambiguous low_confidence : MatchStatus

pub data RuleStatus : Type 0 where
  status_ok status_failed status_skipped status_error : RuleStatus

-- `reasons` and `candidates` are not read by the evaluation.
pub record MatchResult (C : Type 0) : Type 0 where
  pub source_id : Text
  pub status : MatchStatus
  pub target_id : Option Text
  pub confidence : C

pub record Rule (V : Type 0) : Type 0 where
  pub rule_id : Text
  pub rule_type : Text
  pub name : Text
  pub evidence_type : Text
  pub source_entity_id : Text
  pub params : Dict Text V
  pub enabled : Bool

-- What a result says: that of an evaluator, or one of the messages of core/evaluation.py.
pub data Details (D : Type 0) : Type 0 where
  evaluated : D → Details D
  disabled unsupported required_target_missing skipped_by_match not_in_index : Details D
  evaluation_error : Text → Details D

pub record RuleResult (C D : Type 0) : Type 0 where
  pub rule_id : Text
  pub status : RuleStatus
  pub source_entity_id : Text
  pub target_entity_id : Option Text
  pub match_status : MatchStatus
  pub confidence : C
  pub details : Details D

pub record ErrorEntry : Type 0 where
  pub rule_id : Text
  pub error : Text
  pub source_entity : Text

-- The stores of evidence that evaluators fill are the state of the evaluation.
pub record EvalContext (X C : Type 0) : Type 0 where
  pub source_index : EntityIndex X
  pub target_index : EntityIndex X
  pub matches : Dict Text (MatchResult C)
  pub source_by_id : Dict Text (Entity X)
  pub target_by_id : Dict Text (Entity X)
  pub target_root : Option Text

abbrev pub is_matched : MatchStatus → Bool
is_matched matched = true
is_matched s = false

abbrev pub is_low_confidence : MatchStatus → Bool
is_low_confidence low_confidence = true
is_low_confidence s = false
