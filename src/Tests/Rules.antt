-- ===== src/Tests/Rules.antt =====
-- The evaluation of rules at a small context: one function, and a target with one more parameter.
use python_arch_testing.Base.{
  All, Bool, In, List, Option, Text, [], ap, arith, codes, eq_nat, eq_pair, eq_text, false,
  if◌then◌else◌, inl, insert, length, lookup, map, none, refl, some, suc, sym, text_eq, true, zero,
  ℕ, ◌+◌, ◌==◌, ◌↔◌, ◌∙◌, ◌∷◌, ◌≡◌,
}
use python_arch_testing.Names.{starts_with}
use python_arch_testing.Entities.{Entity, EntityIndex, SignatureInfo, build_entity_index}
use python_arch_testing.Entities.Index.Exact.{IndexExact, build_entity_index_exact}
use python_arch_testing.Entities.Keys.{
  signature_key_from_info, is_extras_only_divergence, parse_signature_key,
}
use python_arch_testing.Entities.Keys.Printed.{Digit, counts_of, parse-signature_key_from_info}
use python_arch_testing.Entities.Keys.Divergence.{TakesPositional}
use python_arch_testing.Rules.Models.{
  MatchResult, Rule, ErrorEntry, evaluated, low_confidence, status_ok, RuleResult,
}
use python_arch_testing.Rules.Promote.{Setup, promote_low_confidence_target}
use python_arch_testing.Rules.Promote.Calls.{promoted_takes}
use python_arch_testing.Rules.Evaluate.{
  Registry, evaluate_rule, evaluate_rules, raises, returned, Evaluation,
}
use python_arch_testing.Rules.Evaluate.Verdicts.{Verdict, evaluate_rule_verdict}
use python_arch_testing.Rules.Evaluate.Runs.{KeepsId, Picks, evaluate_rules_one_each}
use python_arch_testing.Rules.Evaluate.Failures.{Raised, Recorded, evaluate_rules_errors}

-- Numbers as that many ones, and their reading: digits that are read back.
abbrev ones : ℕ → Text
ones zero = []
ones (suc n) = b'1' ∷ ones n

abbrev count_digits : Text → Option ℕ
count_digits t = some (length t)

digits : (n : ℕ) → All Digit (ones n)
digits zero = tt
digits (suc n) = ((omega arith, omega arith), digits n)

length-ones : (n : ℕ) → length (ones n) ≡ n
length-ones zero = refl
length-ones (suc n) = ap suc (length-ones n)

reads : (n : ℕ) → count_digits (ones n) ≡ some n
reads n = ap (λ z. some z) (length-ones n)

abbrev one_parameter : SignatureInfo
one_parameter = record {
  posonly = 0;
  pos = 1;
  vararg = false;
  kwonly = 0;
  kwarg = false;
  defaults = 0;
  kw_defaults = 0;
}

abbrev with_default : SignatureInfo
with_default = record one_parameter { pos = 2; defaults = 1 }

parse-signature_key_from_info_example :
    ((s : SignatureInfo)
      → parse_signature_key count_digits (signature_key_from_info ones (some s))
        ≡ some (counts_of s))
    × (parse_signature_key count_digits (signature_key_from_info ones none) ≡ none)
parse-signature_key_from_info_example = parse-signature_key_from_info ones digits count_digits reads

abbrev entity_of : Text → SignatureInfo → Entity Unit
entity_of role s = record {
  role = role;
  kind = codes "function";
  root_label = role;
  module_path = codes "app";
  qualname = codes "load";
  name = codes "load";
  filepath_rel = codes "app.py";
  lineno = 3;
  signature = some s;
  signature_key = signature_key_from_info ones (some s);
  ast_fingerprint = [];
  source_hash = [];
  doc_hash = none;
  canonical_id = role;
  extras = tt;
}

abbrev origin : Entity Unit
origin = entity_of (codes "source") one_parameter

abbrev target : Entity Unit
target = entity_of (codes "target") with_default

build_entity_index_exact_example :
    IndexExact (origin ∷ target ∷ []) (build_entity_index (origin ∷ target ∷ []))
build_entity_index_exact_example = build_entity_index_exact (origin ∷ target ∷ [])

abbrev low : MatchResult ℕ
low = record {
  source_id = codes "source";
  status = low_confidence;
  target_id = some (codes "target");
  confidence = 60;
}

abbrev rule : Rule Bool
rule = record {
  rule_id = codes "r1";
  rule_type = codes "api_signature";
  name = codes "signature";
  evidence_type = codes "static";
  source_entity_id = codes "source";
  params = [];
  enabled = true;
}

abbrev empty_index : EntityIndex Unit
empty_index = record { by_core = []; by_name = []; by_sig = []; by_fp = []; all_sorted = [] }

abbrev setup : Setup Unit ℕ Bool
setup = record {
  ctx = record {
    source_index = empty_index;
    target_index = empty_index;
    matches = (codes "source", low) ∷ [];
    source_by_id = (codes "source", origin) ∷ [];
    target_by_id = (codes "target", target) ∷ [];
    target_root = none;
  };
  tests = record { is_true = λ b. b; truth = λ b. b; lowered = λ b. [] };
  to_int = count_digits;
}

promoted : promote_low_confidence_target setup rule origin low ≡ some target
unfolding promote_low_confidence_target text_eq lookup signature_key_from_info
    is_extras_only_divergence starts_with insert
promoted = refl

takes_one : TakesPositional one_parameter 1
takes_one = (omega arith, inl (omega arith))

promoted_takes_example : TakesPositional with_default 1
promoted_takes_example =
    promoted_takes setup ones digits reads rule origin low target one_parameter with_default 1 refl
      refl refl promoted takes_one

-- One evaluator, which counts its calls in the state; it raises for a rule that is not `signature`.
abbrev success : Rule Bool → Entity Unit → MatchResult ℕ → RuleResult ℕ Unit
success rule source m = record {
  rule_id = rule.rule_id;
  status = status_ok;
  source_entity_id = source.canonical_id;
  target_entity_id = none;
  match_status = m.status;
  confidence = m.confidence;
  details = evaluated tt;
}

abbrev check : Rule Bool → Entity Unit → Option (Entity Unit) → MatchResult ℕ → Evaluation ℕ Unit ℕ
check rule source t m s = (
  if rule.name == codes "signature"
      then returned (success rule source m)
      else raises (codes "boom"),
  s + 1,
)

abbrev registry : Registry Unit ℕ Bool Unit ℕ
registry rule_type = some check

evaluate_rule_verdict_example :
    Verdict setup registry rule origin low (evaluate_rule setup registry rule origin low)
evaluate_rule_verdict_example = evaluate_rule_verdict setup registry rule origin low

one_evaluator : {A : Type 0} (f g : A) → some f ≡ some g → f ≡ g
one_evaluator f g h = cc h

result_id :
    (rule : Rule Bool) (q r : RuleResult ℕ Unit) (b : Bool)
    → q.rule_id ≡ rule.rule_id
    → (if b then returned q else raises (codes "boom")) ≡ returned r
    → r.rule_id ≡ rule.rule_id
result_id rule q r true h e = let same : q ≡ r = cc e in ap (λ z. z.rule_id) (sym same) ∙ h
result_id rule q r false h e = absurd (cc e)

keeps_id : KeepsId setup registry
keeps_id f rule source t m s r h e =
    let same = one_evaluator check f h in
    result_id rule (success rule source m) r (rule.name == codes "signature") refl
      (ap (λ g. (g rule source t m s).0) same ∙ e)

-- A rule whose evaluator raises, and one that is not enabled.
abbrev imports : Rule Bool
imports = record rule {
  rule_id = codes "r2";
  rule_type = codes "import_policy";
  name = codes "imports";
}

abbrev off : Rule Bool
off = record rule { rule_id = codes "r3"; enabled = false }

abbrev rules : List (Rule Bool)
rules = imports ∷ off ∷ rule ∷ []

evaluate_rules_one_each_example :
    (due : List (Rule Bool)) × Picks setup registry rules due
    × (map (λ r. r.rule_id) (evaluate_rules setup registry rules 0).0
        ≡ map (λ rule. rule.rule_id) due)
evaluate_rules_one_each_example = evaluate_rules_one_each setup registry keeps_id rules 0

abbrev boom : ErrorEntry
boom = record { rule_id = codes "r2"; error = codes "boom"; source_entity = codes "source" }

evaluate_rules_errors_example :
    ((entry : ErrorEntry)
      → In entry (evaluate_rules setup registry rules 0).1 ↔ Raised setup registry rules 0 entry)
    × Recorded setup registry (evaluate_rules setup registry rules 0)
evaluate_rules_errors_example = evaluate_rules_errors setup registry rules 0

-- The first rule is reported, and the last one still has a result.
one_error : (evaluate_rules setup registry rules 0).1 ≡ boom ∷ []
unfolding evaluate_rules text_eq lookup promote_low_confidence_target is_extras_only_divergence
    signature_key_from_info starts_with insert
one_error = refl
