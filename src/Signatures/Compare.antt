-- ===== src/Signatures/Compare.antt =====
-- execution/evaluators/signature_comparison.py: `method_nonparam_errors`, `return_errors`,
-- `exact_compare`, `compatible_compare` and `evaluate_method_compatibility`. An error keeps what its
-- message prints; `compare_annotation_text` (annotation_compatibility.py) is a parameter.
pub mod Errors
pub mod Exact
pub mod Named
pub mod Compatible
pub mod Loose
pub mod Whole
use python_arch_testing.Base.{
  Bool, List, Option, Text, [], bool_beq, codes, contains, eq_text, false, filter, if◌then◌else◌,
  length, ltb, map, nat_eq, none, not, some, sort_by, text_le, true, ℕ, ◌&&◌, ◌++◌, ◌==◌, ◌∷◌,
}
use python_arch_testing.Signatures.Params.{
  Param, Callable, ParamKind, ParamModel, kind_eq, kwonly, param_model, strip_method_receiver,
}
use python_arch_testing.Signatures.Wrappers.{MethodKind, is_async, method_kind, method_kind_eq}

pub data Variance : Type 0 where
  covariant invariant contravariant : Variance

pub record Comparison : Type 0 where
  pub compatible : Bool
  pub expected : Option Text
  pub found : Option Text

pub data SignatureError : Type 0 where
  count_mismatch : ℕ → ℕ → SignatureError
  name_mismatch : Text → Text → SignatureError
  kind_mismatch : Text → ParamKind → ParamKind → SignatureError
  required_mismatch : Text → SignatureError
  annotation_mismatch : Text → Option Text → Option Text → SignatureError
  fewer_positional fewer_kwonly : SignatureError
  position_kind_mismatch : ParamKind → ParamKind → SignatureError
  position_annotation_mismatch : Option Text → Option Text → SignatureError
  missing_parameter became_required : Text → SignatureError
  extra_parameters extra_required : List Text → SignatureError
  missing_args missing_kwargs async_mismatch : SignatureError
  method_kind_mismatch : MethodKind → MethodKind → SignatureError
  return_mismatch : Option Text → Option Text → SignatureError

pub record Compatibility : Type 0 where
  pub errors : List SignatureError
  pub return_errors : List SignatureError
  pub expected : ParamModel
  pub found : ParamModel

-- `if condition: errors.append(error)`.
abbrev pub error_if : Bool → SignatureError → List SignatureError
error_if condition error = if condition then error ∷ [] else []

pub is_kwonly : Param → Bool
is_kwonly p = kind_eq p.kind kwonly

-- `found_by_name.get(name)`: of equal names the last parameter stays.
pub found_by_name : Text → List Param → Option Param
found_by_name name [] = none
found_by_name name (p ∷ found) =
    let later = found_by_name name found in
    elim later [ none ↦ if p.name == name then some p else none | some q ↦ some q ]

pub method_nonparam_errors : Callable → Callable → Bool → List SignatureError
method_nonparam_errors source target enforce_method_kind =
    error_if (not (bool_beq (is_async source) (is_async target))) async_mismatch
    ++ error_if
        (enforce_method_kind
          && not (method_kind_eq (method_kind source false) (method_kind target false)))
        (method_kind_mismatch (method_kind source false) (method_kind target false))

-- The truth value of an optional text.
abbrev pub is_given : Option Text → Bool
is_given none = false
is_given (some t) = not (t == [])

-- A loop over `zip(expected, found)`.
pub over_pairs :
    (Param → Param → List SignatureError) → List Param → List Param → List SignatureError
over_pairs f [] found = []
over_pairs f (exp ∷ expected) [] = []
over_pairs f (exp ∷ expected) (got ∷ found) = f exp got ++ over_pairs f expected found

abbrev pub named_in : List Param → Param → Bool
named_in expected p = contains (map (λ q. q.name) expected) p.name

pub extra_params : List Param → List Param → List Param
extra_params expected found = filter (λ p. not (named_in expected p)) found

abbrev pub names_error : (List Text → SignatureError) → List Param → List SignatureError
names_error error [] = []
names_error error (p ∷ params) = error (sort_by text_le (map (λ q. q.name) (p ∷ params))) ∷ []

abbrev pub extra_errors : Bool → List Param → List SignatureError
extra_errors allow_extra_params extra =
    if not allow_extra_params
    then names_error extra_parameters extra
    else names_error extra_required (filter (λ p. p.required) extra)

abbrev pub fewer_or :
    SignatureError
    → (Param → Param → List SignatureError)
    → List Param
    → List Param
    → List SignatureError
fewer_or error f expected found =
    if ltb (length found) (length expected) then error ∷ [] else over_pairs f expected found

module _ (compare_annotation_text : Option Text → Option Text → Variance → Comparison) where
  abbrev pub annotation_error :
      Variance
      → (Option Text → Option Text → SignatureError)
      → Option Text
      → Option Text
      → List SignatureError
  annotation_error variance error none found = []
  annotation_error variance error (some t) found =
      let comparison = compare_annotation_text (some t) found variance in
      error_if (not comparison.compatible) (error comparison.expected comparison.found)

  pub return_errors : ParamModel → ParamModel → List SignatureError
  return_errors source target =
      if is_given source.return_annotation
      then annotation_error covariant return_mismatch source.return_annotation
          target.return_annotation
      else []

  abbrev pub exact_one : Param → Param → List SignatureError
  exact_one exp got =
      error_if (not (exp.name == got.name)) (name_mismatch exp.name got.name)
      ++ error_if (not (kind_eq exp.kind got.kind)) (kind_mismatch exp.name exp.kind got.kind)
      ++ error_if (not (bool_beq exp.required got.required)) (required_mismatch exp.name)
      ++ annotation_error invariant (annotation_mismatch exp.name) exp.annotation got.annotation

  pub exact_compare : List Param → List Param → List SignatureError
  unfolding over_pairs
  exact_compare expected found =
      if not (nat_eq (length expected) (length found))
      then count_mismatch (length expected) (length found) ∷ []
      else over_pairs exact_one expected found

  abbrev pub positional_one : Param → Param → List SignatureError
  positional_one exp got =
      error_if (not (kind_eq exp.kind got.kind)) (position_kind_mismatch exp.kind got.kind)
      ++ annotation_error contravariant position_annotation_mismatch exp.annotation got.annotation

  abbrev pub kwonly_one : Param → Param → List SignatureError
  kwonly_one exp got =
      annotation_error contravariant position_annotation_mismatch exp.annotation got.annotation

  -- `compatible_compare` under `allow_param_rename`, which returns early.
  pub renamed_compare : List Param → List Param → List SignatureError
  unfolding is_kwonly over_pairs
  renamed_compare expected found =
      fewer_or fewer_positional positional_one (filter (λ p. not (is_kwonly p)) expected)
        (filter (λ p. not (is_kwonly p)) found)
      ++ fewer_or fewer_kwonly kwonly_one (filter is_kwonly expected) (filter is_kwonly found)

  abbrev pub named_one : Param → Option Param → List SignatureError
  named_one exp none = missing_parameter exp.name ∷ []
  named_one exp (some q) =
      error_if (not (kind_eq exp.kind q.kind)) (kind_mismatch exp.name exp.kind q.kind)
      ++ error_if (not exp.required && q.required) (became_required exp.name)
      ++ annotation_error contravariant (annotation_mismatch exp.name) exp.annotation q.annotation

  pub over_named : List Param → List Param → List SignatureError
  unfolding found_by_name
  over_named [] found = []
  over_named (exp ∷ expected) found =
      named_one exp (found_by_name exp.name found) ++ over_named expected found

  unfoldable pub compatible_compare : Bool → Bool → List Param → List Param → List SignatureError
  unfolding renamed_compare over_named extra_params
  compatible_compare allow_extra_params allow_param_rename expected found =
      if allow_param_rename
      then renamed_compare expected found
      else over_named expected found
        ++ extra_errors allow_extra_params (extra_params expected found)

  -- `mode`: `any`, `exact` or another text, which is read as `compatible`.
  abbrev pub param_errors : Text → Callable → Callable → List SignatureError
  param_errors mode source target =
      let source_model = param_model source in
      let target_model = param_model target in
      let expected = strip_method_receiver source_model.params source in
      let found = strip_method_receiver target_model.params target in
      if mode == codes "any"
      then []
      else (if mode == codes "exact"
          then exact_compare expected found
          else compatible_compare true false expected found)
        ++ error_if (is_given source_model.vararg && not (is_given target_model.vararg))
            missing_args
        ++ error_if (is_given source_model.kwarg && not (is_given target_model.kwarg))
            missing_kwargs

  pub evaluate_method_compatibility : Text → Bool → Bool → Callable → Callable → Compatibility
  unfolding method_nonparam_errors return_errors
  evaluate_method_compatibility mode enforce_method_kind check_return source target = record {
    errors =
        param_errors mode source target ++ method_nonparam_errors source target enforce_method_kind;
    return_errors =
        if check_return then return_errors (param_model source) (param_model target) else [];
    expected = param_model source;
    found = param_model target;
  }
