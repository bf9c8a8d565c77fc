-- ===== src/Tests/Chosen.antt =====
-- The entities that stand for modules.
use python_arch_testing.Base.{Bool, In, List, Text, [], codes, eq_text, false, none, true, ◌∷◌, ◌≡◌}
use python_arch_testing.Imports.Canonical.{
  Entity, admits, collect_canonical_module_entities, is_module,
}
use python_arch_testing.Imports.Canonical.Chosen.{canonical_entities}

abbrev entity_of : Text → Text → Entity
entity_of name kind = record {
  module_path = name;
  filepath_rel = name;
  kind = kind;
  has_ast_node = true;
}

abbrev entities : List Entity
entities =
    entity_of (codes "shop") (codes "class")
    ∷ entity_of (codes "shop") (codes "module")
    ∷ entity_of (codes "cart") (codes "function")
    ∷ []

abbrev nothing_ignored : Text → Bool
nothing_ignored path = false

canonical_entities_example :
    ((c : Entity)
      → In c (collect_canonical_module_entities nothing_ignored none entities)
      → In c entities × (admits nothing_ignored none c ≡ true))
    × ((e : Entity)
        → In e entities
        → admits nothing_ignored none e ≡ true
        → (c : Entity) × In c (collect_canonical_module_entities nothing_ignored none entities)
          × (c.module_path ≡ e.module_path)
          × (is_module e ≡ true → is_module c ≡ true))
    × ((c d : Entity)
        → In c (collect_canonical_module_entities nothing_ignored none entities)
        → In d (collect_canonical_module_entities nothing_ignored none entities)
        → c.module_path ≡ d.module_path
        → c ≡ d)
canonical_entities_example = canonical_entities nothing_ignored none entities
