-- ===== src/Flow/Stages.antt =====
-- execution/evaluators/runtime_flow.py: `_stage_order`. The list `called` from `position` on is
-- passed in place of the position; the text of the failure is left out, its stage and name are kept.
use python_arch_testing.Base.{
  List, Option, Text, [], eq_text, if◌then◌else◌, map, none, some, ◌++◌, ◌==◌, ◌∷◌,
}
pub mod Order

-- The `while` loop and the step past the call: what follows the next call of `name`.
pub after_call : Text → List Text → Option (List Text)
after_call name [] = none
after_call name (c ∷ called) = if c == name then some called else after_call name called

pub data Ran : Type 0 where
  failed : Text → Ran
  ran : List Text → Ran

-- The inner loop, over the names that a stage expects.
pub run_names : List Text → List Text → Ran
unfolding after_call
run_names [] called = ran called
run_names (name ∷ names) called = elim (after_call name called) [
  | none ↦ failed name
  | some rest ↦ run_names names rest
]

pub record StageResult : Type 0 where
  pub reached : List Text
  pub failure : Option (Text × Text)

module _ {C : Type 0} (translate : C → Text) where
  -- The loop over the stages, each with the calls that the reference makes in it.
  pub run_stages : List (Text × List C) → List Text → List Text → StageResult
  unfolding run_names
  run_stages [] called reached = record { reached = reached; failure = none }
  run_stages ((stage, []) ∷ stages) called reached = run_stages stages called reached
  run_stages ((stage, call ∷ calls) ∷ stages) called reached =
      elim (run_names (map translate (call ∷ calls)) called) [
        | failed name ↦ record { reached = reached; failure = some (stage, name) }
        | ran rest ↦ run_stages stages rest (reached ++ stage ∷ [])
      ]

  pub stage_order : List (Text × List C) → List Text → StageResult
  unfolding run_stages
  stage_order stages called = run_stages stages called []
