-- ===== src/Imports/Canonical.antt =====
-- execution/import_edges.py: `collect_canonical_module_entities`, which picks the entity that stands
-- for each module. Whether a file is ignored is a parameter, since the patterns are compiled to
-- regular expressions; of an entity only what the function reads is kept.
use python_arch_testing.Base.{
  Bool, Dict, List, Option, Text, [], codes, contains, eq_text, if◌then◌else◌, insert, keys, lookup,
  none, not, some, sort_by, text_le, true, ◌&&◌, ◌==◌, ◌∷◌,
}
pub mod Chosen

pub record Entity : Type 0 where
  pub module_path : Text
  pub filepath_rel : Text
  pub kind : Text
  pub has_ast_node : Bool

abbrev pub is_module : Entity → Bool
is_module entity = entity.kind == codes "module"

-- `[selected[name] for name in names]`.
pub values_at : List Text → Dict Text Entity → List Entity
values_at [] selected = []
values_at (name ∷ names) selected = elim (lookup name selected) [
  | none ↦ values_at names selected
  | some entity ↦ entity ∷ values_at names selected
]

module _ (ignored : Text → Bool) (scope_modules : Option (List Text)) where
  -- The three guards of the loop.
  pub admits : Entity → Bool
  admits entity =
      elim scope_modules [ none ↦ true | some modules ↦ contains modules entity.module_path ]
      && not (ignored entity.filepath_rel)
      && entity.has_ast_node

  -- The body of the loop.
  pub select_entity : Entity → Dict Text Entity → Dict Text Entity
  unfolding admits
  select_entity entity selected =
      if not (admits entity) then selected else elim (lookup entity.module_path selected) [
        | none ↦ insert entity.module_path entity selected
        | some existing ↦
            if is_module entity && not (is_module existing)
            then insert entity.module_path entity selected
            else selected
      ]

  pub select_entities : List Entity → Dict Text Entity → Dict Text Entity
  unfolding select_entity
  select_entities [] selected = selected
  select_entities (entity ∷ entities) selected =
      select_entities entities (select_entity entity selected)

  pub collect_canonical_module_entities : List Entity → List Entity
  unfolding select_entities values_at
  collect_canonical_module_entities entities =
      let selected = select_entities entities [] in
      values_at (sort_by text_le (keys selected)) selected
