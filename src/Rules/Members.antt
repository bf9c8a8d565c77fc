-- ===== src/Rules/Members.antt =====
-- execution/evaluators/member_name_resolution.py: `_enclosing_class_qualname`, `_find_class_entity`,
-- `source_parent_class`, `target_parent_class` and `matched_target_parent_class`.
use python_arch_testing.Base.{
  List, Option, Text, [], codes, eq_text, if◌then◌else◌, lookup, nat_eq, none, some, ◌&&◌, ◌==◌,
  ◌∷◌,
}
use python_arch_testing.Names.{dot}
use python_arch_testing.Entities.{Entity}
use python_arch_testing.Rules.Models.{EvalContext, MatchResult, is_matched}

-- `qualname.rsplit(".", 1)[0]`, or nothing where there is no dot.
pub before_last_dot : Text → Option Text
before_last_dot [] = none
before_last_dot (c ∷ s) = elim (before_last_dot s) [
  | none ↦ if nat_eq c dot then some [] else none
  | some p ↦ some (c ∷ p)
]

module _ {X : Type 0} where
  pub enclosing_class_qualname : Entity X → Option Text
  unfolding before_last_dot
  enclosing_class_qualname e = if e.kind == codes "method" then before_last_dot e.qualname else none

  pub find_class_entity : List (Entity X) → Text → Text → Option (Entity X)
  find_class_entity [] module_path qualname = none
  find_class_entity (e ∷ entities) module_path qualname =
      if e.kind == codes "class" && (e.module_path == module_path && e.qualname == qualname)
      then some e
      else find_class_entity entities module_path qualname

  abbrev pub class_around : List (Entity X) → Entity X → Option Text → Option (Entity X)
  class_around entities e none = none
  class_around entities e (some qualname) = find_class_entity entities e.module_path qualname

  module _ {C : Type 0} (ctx : EvalContext X C) where
    pub source_parent_class : Entity X → Option (Entity X)
    unfolding enclosing_class_qualname find_class_entity
    source_parent_class source_method =
        class_around ctx.source_index.all_sorted source_method
          (enclosing_class_qualname source_method)

    pub target_parent_class : Entity X → Option (Entity X)
    unfolding enclosing_class_qualname find_class_entity
    target_parent_class target_method =
        class_around ctx.target_index.all_sorted target_method
          (enclosing_class_qualname target_method)

    -- The target's entity of a match, if the match is one and the entity is a class.
    abbrev pub class_of_entity : Option (Entity X) → Option (Entity X)
    class_of_entity none = none
    class_of_entity (some e) = if e.kind == codes "class" then some e else none

    abbrev pub class_of_id : Option Text → Option (Entity X)
    class_of_id none = none
    class_of_id (some []) = none
    class_of_id (some (c ∷ id)) = class_of_entity (lookup (c ∷ id) ctx.target_by_id)

    abbrev pub class_of_match : Option (MatchResult C) → Option (Entity X)
    class_of_match none = none
    class_of_match (some m) = if is_matched m.status then class_of_id m.target_id else none

    abbrev pub matched_class : Option (Entity X) → Option (Entity X)
    matched_class none = none
    matched_class (some e) = class_of_match (lookup e.canonical_id ctx.matches)

    pub matched_target_parent_class : Entity X → Option (Entity X)
    unfolding source_parent_class
    matched_target_parent_class source_method = matched_class (source_parent_class source_method)
