-- ===== src/Signatures/Wrappers.antt =====
-- execution/evaluators/signature_comparison.py: `_decorator_ref_name`,
-- `_decorator_contains_builtin_method_wrapper`, `method_kind` and `is_async`.
pub mod Reading
pub mod Kind
use python_arch_testing.Base.{
  Bool, List, Option, Text, [], codes, eq_text, false, if◌then◌else◌, nat_eq, none, some, true,
  ◌==◌, ◌∷◌,
}
use python_arch_testing.Signatures.Params.{
  Node, Callable, FunctionNode, Nodes, attribute_node, call_node, more_nodes, name_node, no_nodes,
  other_node,
}

pub data MethodKind : Type 0 where
  instance_method class_method static_method : MethodKind

abbrev pub method_kind_eq : MethodKind → MethodKind → Bool
method_kind_eq instance_method instance_method = true
method_kind_eq class_method class_method = true
method_kind_eq static_method static_method = true
method_kind_eq k l = false

-- `classmethod` and `staticmethod`, by the kind that they make; no other name is one.
abbrev pub wrapper_kind : Text → Option MethodKind
wrapper_kind t =
    if t == codes "classmethod"
    then some class_method
    else if t == codes "staticmethod"
    then some static_method
    else none

-- `name.rsplit(".", 1)[-1]`, from the part after the last dot so far.
pub last_part : Text → Text → Text
last_part part [] = part
last_part part (c ∷ s) =
    let next = last_part s s in let more = last_part part s in if nat_eq c b'.' then next else more

-- The name that a node refers to, of the node that is called where it is a call.
abbrev pub target_name : Node → Option Text
target_name (name_node id) = some id
target_name (attribute_node text children) = some text
target_name (call_node f arguments) = none
target_name (other_node children) = none

abbrev pub decorator_ref_name : Node → Option Text
decorator_ref_name (call_node f arguments) = target_name f
decorator_ref_name (name_node id) = some id
decorator_ref_name (attribute_node text children) = some text
decorator_ref_name (other_node children) = none

abbrev pub direct_wrapper : Option Text → Option MethodKind
unfolding last_part
direct_wrapper none = none
direct_wrapper (some t) = wrapper_kind (last_part t t)

abbrev pub or_else : Option MethodKind → Option MethodKind → Option MethodKind
or_else none b = b
or_else (some k) b = some k

mutual
  pub contains_wrapper : Node → Option MethodKind
  contains_wrapper (name_node id) = direct_wrapper (some id)
  contains_wrapper (attribute_node text children) =
      or_else (direct_wrapper (some text)) (nested_wrapper children)
  contains_wrapper (call_node f arguments) =
      or_else (direct_wrapper (target_name f))
        (or_else (contains_wrapper f) (nested_wrapper arguments))
  contains_wrapper (other_node children) = nested_wrapper children

  pub nested_wrapper : Nodes → Option MethodKind
  nested_wrapper no_nodes = none
  nested_wrapper (more_nodes node nodes) = or_else (contains_wrapper node) (nested_wrapper nodes)

-- One pass of the loop over the decorators: the kind detected so far, or the early `return`.
abbrev pub Detected : Type 0
Detected = Option (Option MethodKind)

abbrev pub detect_one : Option MethodKind → Option MethodKind → Detected
detect_one detected none = some detected
detect_one none (some k) = some (some k)
detect_one (some detected) (some k) = if method_kind_eq detected k then some (some k) else none

abbrev pub kind_or_instance : Option MethodKind → MethodKind
kind_or_instance none = instance_method
kind_or_instance (some k) = k

pub detect_kind : Option MethodKind → List Node → MethodKind
unfolding contains_wrapper
detect_kind detected [] = kind_or_instance detected
detect_kind detected (decorator ∷ decorators) =
    elim (detect_one detected (contains_wrapper decorator)) [
      | none ↦ instance_method
      | some next ↦ detect_kind next decorators
    ]

abbrev pub extended_kind : Bool → Option FunctionNode → MethodKind
extended_kind false function = instance_method
extended_kind true none = instance_method
extended_kind true (some function) = detect_kind none function.decorator_list

-- The kind that the surface metadata names: `static`, `class` or another text.
abbrev pub declared_kind : Option Text → Option MethodKind
declared_kind none = none
declared_kind (some t) =
    if t == codes "static"
    then some static_method
    else if t == codes "class"
    then some class_method
    else none

pub method_kind : Callable → Bool → MethodKind
method_kind entity extended = elim (declared_kind entity.method_kind) [
  | none ↦ extended_kind extended entity.ast_node
  | some k ↦ k
]

abbrev pub node_is_async : Option FunctionNode → Bool
node_is_async none = false
node_is_async (some function) = function.is_async

abbrev pub is_async : Callable → Bool
is_async entity = node_is_async entity.ast_node
