-- ===== src/Signatures/Params.antt =====
-- execution/evaluators/signature_comparison.py: `param_model` and `strip_method_receiver`. The part
-- of an entity that they read is `Callable`; an argument of Python's `ast` stands with its default.
pub mod Required
use python_arch_testing.Base.{
  Bool, List, Option, Text, [], codes, eq_text, false, get_elem?, if◌then◌else◌, length, ltb, none,
  not, some, suc, true, ℕ, ◌&&◌, ◌++◌, ◌+◌, ◌-◌, ◌==◌, ◌||◌, ◌∷◌,
}

pub data ParamKind : Type 0 where
  posonly pos_or_kw kwonly : ParamKind

abbrev pub kind_eq : ParamKind → ParamKind → Bool
kind_eq posonly posonly = true
kind_eq pos_or_kw pos_or_kw = true
kind_eq kwonly kwonly = true
kind_eq k l = false

pub record Param : Type 0 where
  pub name : Text
  pub kind : ParamKind
  pub required : Bool
  pub annotation : Option Text

pub record ParamModel : Type 0 where
  pub params : List Param
  pub vararg : Option Text
  pub kwarg : Option Text
  pub return_annotation : Option Text
  pub has_node : Bool

-- `ast.arguments`: `kwonlyargs` has each keyword-only argument with its entry of `kw_defaults`,
-- which Python keeps equally long.
pub record Arguments : Type 0 where
  pub posonlyargs : List Text
  pub args : List Text
  pub defaults : List Text
  pub kwonlyargs : List (Text × Option Text)
  pub vararg : Option Text
  pub kwarg : Option Text

-- `extras["annotations"]`.
pub record Annotations : Type 0 where
  pub args : List (Option Text)
  pub returns : Option Text

-- A node of a decorator, as far as the search for wrappers tells nodes apart: `ast.Name` with its
-- id, `ast.Attribute` with its printed form, `ast.Call` with what it calls, any other node.
mutual
  pub data Node : Type 0 where
    name_node : Text → Node
    attribute_node : Text → Nodes → Node
    call_node : Node → Nodes → Node
    other_node : Nodes → Node

  pub data Nodes : Type 0 where
    no_nodes : Nodes
    more_nodes : Node → Nodes → Nodes

pub record FunctionNode : Type 0 where
  pub arguments : Arguments
  pub is_async : Bool
  pub decorator_list : List Node

pub record Callable : Type 0 where
  pub is_method : Bool
  pub synthetic_param_model : Option ParamModel
  pub ast_node : Option FunctionNode
  pub annotations : Option Annotations
  pub method_kind : Option Text

abbrev pub annotation_args : Option Annotations → List (Option Text)
annotation_args none = []
annotation_args (some a) = a.args

abbrev pub return_of : Option Annotations → Option Text
return_of none = none
return_of (some a) = a.returns

-- An annotation past the end of the list is `None`.
pub param_annotation : List (Option Text) → ℕ → Option Text
param_annotation annotations index = elim (get_elem? annotations index) [ none ↦ none | some a ↦ a ]

-- The two loops over positional arguments: `index` is both `pos_index` and `param_index`.
pub positional_params : ParamKind → List (Option Text) → ℕ → ℕ → List Text → List Param
unfolding param_annotation
positional_params k annotations required_pos index [] = []
positional_params k annotations required_pos index (arg ∷ args) =
    record {
      name = arg;
      kind = k;
      required = ltb index required_pos;
      annotation = param_annotation annotations index;
    }
    ∷ positional_params k annotations required_pos (suc index) args

abbrev pub is_missing : Option Text → Bool
is_missing none = true
is_missing (some v) = false

pub kwonly_params : List (Option Text) → ℕ → List (Text × Option Text) → List Param
unfolding param_annotation
kwonly_params annotations index [] = []
kwonly_params annotations index ((arg, default) ∷ args) =
    record {
      name = arg;
      kind = kwonly;
      required = is_missing default;
      annotation = param_annotation annotations index;
    }
    ∷ kwonly_params annotations (suc index) args

-- `total_pos - len(args.defaults)`; below 0 no argument is required, as at 0.
pub node_params : List (Option Text) → Arguments → List Param
unfolding positional_params kwonly_params
node_params annotations a =
    let total_pos = length a.posonlyargs + length a.args in
    let required_pos = total_pos - length a.defaults in
    positional_params posonly annotations required_pos 0 a.posonlyargs
    ++ positional_params pos_or_kw annotations required_pos (length a.posonlyargs) a.args
    ++ kwonly_params annotations total_pos a.kwonlyargs

abbrev pub model_of_node : Option Annotations → Option FunctionNode → ParamModel
model_of_node annotations none = record {
  params = [];
  vararg = none;
  kwarg = none;
  return_annotation = return_of annotations;
  has_node = false;
}
model_of_node annotations (some node) = record {
  params = node_params (annotation_args annotations) node.arguments;
  vararg = node.arguments.vararg;
  kwarg = node.arguments.kwarg;
  return_annotation = return_of annotations;
  has_node = true;
}

unfoldable pub param_model : Callable → ParamModel
param_model entity = elim entity.synthetic_param_model [
  | none ↦ model_of_node entity.annotations entity.ast_node
  | some synthetic ↦ synthetic
]

abbrev pub is_receiver : Param → Bool
is_receiver p = (p.name == codes "self" || p.name == codes "cls") && not (kind_eq p.kind kwonly)

unfoldable pub strip_method_receiver : List Param → Callable → List Param
strip_method_receiver [] entity = []
strip_method_receiver (head ∷ params) entity =
    if not entity.is_method
    then head ∷ params
    else if is_receiver head
    then params
    else head ∷ params
