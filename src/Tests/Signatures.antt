-- ===== src/Tests/Signatures.antt =====
-- The comparison of signatures at two small functions.
use python_arch_testing.Base.{
  Nodup, Option, Text, [], ap, codes, eq_option, eq_text, false, get_elem?, inl, inr, length, map,
  none, refl, some, sym, text_eq, text_eq_iff, true, ℕ, ◌+◌, ◌<◌, ◌==◌, ◌↔◌, ◌∷◌, ◌≡◌, ◌≢◌,
}
use python_arch_testing.Signatures.Params.{
  Param, Arguments, Callable, FunctionNode, call_node, kwonly, more_nodes, name_node, no_nodes,
  node_params, pos_or_kw,
}
use python_arch_testing.Signatures.Wrappers.{MethodKind, class_method, instance_method, method_kind}
use python_arch_testing.Signatures.Wrappers.Kind.{Wraps, method_kind_detected}
use python_arch_testing.Signatures.Params.Required.{params_of_node}
use python_arch_testing.Signatures.Compare.{
  Variance, Comparison, Compatibility, compatible_compare, evaluate_method_compatibility,
  exact_compare,
}
use python_arch_testing.Signatures.Compare.Exact.{Agrees, exact_compare-nil}
use python_arch_testing.Signatures.Compare.Named.{names}
use python_arch_testing.Signatures.Compare.Compatible.{AcceptsKeywords, compatible_compare_safe}
use python_arch_testing.Signatures.Compare.Loose.{
  InPlace, Replaces, ReplacesKeyword, by_keyword, by_position, renamed_compare-nil,
}

-- Annotations that are compatible when they are equal.
abbrev compare : Option Text → Option Text → Variance → Comparison
compare a b v = record { compatible = a == b; expected = a; found = b }

abbrev path : Param
path = record { name = codes "path"; kind = pos_or_kw; required = true; annotation = none }

abbrev mode : Param
mode = record {
  name = codes "mode";
  kind = kwonly;
  required = false;
  annotation = some (codes "str");
}

abbrev limit : Param
limit = record { name = codes "limit"; kind = kwonly; required = false; annotation = none }

abbrev extra : Param
extra = record { name = codes "extra"; kind = pos_or_kw; required = true; annotation = none }

exact_compare-nil_example : (exact_compare compare (path ∷ mode ∷ []) (path ∷ limit ∷ []) ≡ []) ↔ (
    (length (path ∷ mode ∷ []) ≡ length (path ∷ limit ∷ []))
    × ((i : ℕ) (p q : Param)
        → get_elem? (path ∷ mode ∷ []) i ≡ some p
        → get_elem? (path ∷ limit ∷ []) i ≡ some q
        → Agrees compare p q))
exact_compare-nil_example = exact_compare-nil compare (path ∷ mode ∷ []) (path ∷ limit ∷ [])

differ : {s t : Text} → text_eq s t ≡ false → s ≢ t
differ {s} {t} h e = absurd (cc (h, (text_eq_iff s t).1 e))

once : Nodup (names (path ∷ limit ∷ []))
unfolding text_eq
once = (
  λ i. elim i [ inl e ↦ differ {s = codes "path"} {t = codes "limit"} refl e | inr n ↦ n ],
  ((λ n. n), tt),
)

clean : compatible_compare compare true false (path ∷ []) (path ∷ limit ∷ []) ≡ []
unfolding compatible_compare text_eq
clean = refl

accepts : AcceptsKeywords compare (path ∷ []) (codes "path" ∷ [])
accepts = (
  λ n i. elim i [ inl e ↦ (path, inl refl, sym e, (λ k. absurd (cc k))) | inr k ↦ absurd k ],
  λ p i r. elim i [ inl e ↦ inl (ap (λ z. z.name) e) | inr k ↦ absurd k ],
)

compatible_compare_safe_example : AcceptsKeywords compare (path ∷ limit ∷ []) (codes "path" ∷ [])
compatible_compare_safe_example =
    compatible_compare_safe compare true (path ∷ []) (path ∷ limit ∷ []) (codes "path" ∷ []) once
      clean accepts

abbrev label : Param
label = record { name = codes "label"; kind = pos_or_kw; required = true; annotation = none }

renamed_compare-nil_example :
    (compatible_compare compare false true (path ∷ mode ∷ []) (label ∷ extra ∷ mode ∷ []) ≡ []) ↔ (
      InPlace
        (Replaces compare)
        (by_position (path ∷ mode ∷ []))
        (by_position (label ∷ extra ∷ mode ∷ []))
      × InPlace
          (ReplacesKeyword compare)
          (by_keyword (path ∷ mode ∷ []))
          (by_keyword (label ∷ extra ∷ mode ∷ [])))
renamed_compare-nil_example =
    renamed_compare-nil compare false (path ∷ mode ∷ []) (label ∷ extra ∷ mode ∷ [])

-- A new name and a further required parameter are no errors.
loose : compatible_compare compare false true (path ∷ mode ∷ []) (label ∷ extra ∷ mode ∷ []) ≡ []
unfolding compatible_compare text_eq
loose = refl

abbrev arguments : Arguments
arguments = record {
  posonlyargs = codes "self" ∷ [];
  args = codes "path" ∷ codes "mode" ∷ [];
  defaults = codes "'r'" ∷ [];
  kwonlyargs = (codes "limit", some (codes "3")) ∷ [];
  vararg = none;
  kwarg = none;
}

params_of_node_example :
    (map (λ p. p.name) (node_params [] arguments)
      ≡ codes "self" ∷ codes "path" ∷ codes "mode" ∷ codes "limit" ∷ [])
    × ((i : ℕ) (p : Param)
        → i < 3
        → get_elem? (node_params [] arguments) i ≡ some p
        → (p.required ≡ true) ↔ (i + 1 < 3))
params_of_node_example = params_of_node [] arguments

abbrev function : FunctionNode
function = record {
  arguments = arguments;
  is_async = false;
  decorator_list =
      call_node (name_node (codes "wraps")) (more_nodes (name_node (codes "classmethod")) no_nodes)
      ∷ [];
}

abbrev method : Callable
method = record {
  is_method = true;
  synthetic_param_model = none;
  ast_node = some function;
  annotations = none;
  method_kind = none;
}

method_kind_detected_example :
    ((method_kind method true ≡ class_method) ↔ (
      Wraps class_method function.decorator_list
      × ((j : MethodKind) → Wraps j function.decorator_list → j ≡ class_method)))
    × (method_kind method false ≡ instance_method)
method_kind_detected_example =
    method_kind_detected method function class_method refl refl (λ e. absurd (cc e))

-- The same method with one more optional parameter.
abbrev longer : Callable
longer = record method {
  ast_node = some (record function {
    arguments = record arguments {
      kwonlyargs = (codes "limit", some (codes "3")) ∷ (codes "depth", some (codes "1")) ∷ [];
    };
  });
}

abbrev compatibility : Compatibility
compatibility = evaluate_method_compatibility compare (codes "compatible") true true method longer
