-- ===== src/Signatures/Compare/Whole.antt =====
-- execution/evaluators/signature_comparison.py, `evaluate_method_compatibility`: when it finds
-- nothing, in each mode.
use python_arch_testing.Base.{
  Bool, In, List, Option, Text, [], codes, eq_text, false, get_elem?, length, some, true, ℕ, ◌≡◌,
  ◌≢◌,
}
use python_arch_testing.Signatures.Params.{
  Param, Callable, param_model, strip_method_receiver, ParamModel,
}
use python_arch_testing.Signatures.Wrappers.{is_async, method_kind}
use python_arch_testing.Signatures.Compare.{Variance, Comparison, covariant}
use python_arch_testing.Signatures.Compare.Errors.{Fits}
use python_arch_testing.Signatures.Compare.Exact.{Agrees}
use python_arch_testing.Signatures.Compare.Named.{names}
use python_arch_testing.Signatures.Compare.Compatible.{HasNamed}

-- A text that is there and is not empty.
abbrev pub Given : Option Text → Type 0
Given o = (t : Text) × (o ≡ some t) × (t ≢ [])

-- The parameters that are compared.
abbrev pub compared : Callable → List Param
compared entity = strip_method_receiver (param_model entity).params entity

-- Both are `async` or neither is, and their kinds of method are equal where that is asked.
abbrev pub SameSort : Bool → Callable → Callable → Type 0
SameSort enforce_method_kind source target =
    (is_async source ≡ is_async target)
    × (enforce_method_kind ≡ true → method_kind source false ≡ method_kind target false)

module _ (compare : Option Text → Option Text → Variance → Comparison) where
  abbrev pub SameParams : List Param → List Param → Type 0
  SameParams expected found =
      (length expected ≡ length found)
      × ((i : ℕ) (p q : Param)
          → get_elem? expected i ≡ some p
          → get_elem? found i ≡ some q
          → Agrees compare p q)

  abbrev pub NamedParams : List Param → List Param → Type 0
  NamedParams expected found =
      ((p : Param) → In p expected → HasNamed compare found p)
      × ((p : Param) → In p found → ¬ In p.name (names expected) → p.required ≡ false)

  -- What the mode asks of the parameters.
  abbrev pub ParamsAccepted : Text → Callable → Callable → Type 0
  ParamsAccepted mode source target =
      mode ≢ codes "any"
      → (mode ≡ codes "exact" → SameParams (compared source) (compared target))
        × (mode ≢ codes "exact" → NamedParams (compared source) (compared target))
        × (Given (param_model source).vararg → Given (param_model target).vararg)
        × (Given (param_model source).kwarg → Given (param_model target).kwarg)

  abbrev pub ReturnAccepted : Bool → ParamModel → ParamModel → Type 0
  ReturnAccepted check_return source target =
      check_return ≡ true
      → Given source.return_annotation
      → Fits compare covariant source.return_annotation target.return_annotation
