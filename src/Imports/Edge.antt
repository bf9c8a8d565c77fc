-- ===== src/Imports/Edge.antt =====
-- execution/import_edges.py: the record of one import between two modules.
use python_arch_testing.Base.{
  Bool, Eq, Text, arith, bool_beq, bool_beq_iff, eq_text, nat_eq, text_eq_iff, true, ℕ, ◌&&◌, ◌==◌,
  ◌↔◌, ◌≡◌,
}

pub record NormalizedImportEdge : Type 0 where
  pub importer_module : Text
  pub imported_module : Text
  pub filepath_rel : Text
  pub lineno : ℕ
  pub in_type_checking : Bool
  pub is_top_level : Bool

-- The equality that a frozen dataclass gets from its fields.
pub edge_beq : NormalizedImportEdge → NormalizedImportEdge → Bool
edge_beq a b =
    a.importer_module == b.importer_module
    && a.imported_module == b.imported_module
    && a.filepath_rel == b.filepath_rel
    && nat_eq a.lineno b.lineno
    && bool_beq a.in_type_checking b.in_type_checking
    && bool_beq a.is_top_level b.is_top_level

pub edge_beq_iff : (a b : NormalizedImportEdge) → (edge_beq a b ≡ true) ↔ (a ≡ b)
unfolding edge_beq
edge_beq_iff a b = ground (
  arith,
  text_eq_iff a.importer_module b.importer_module,
  text_eq_iff a.imported_module b.imported_module,
  text_eq_iff a.filepath_rel b.filepath_rel,
  bool_beq_iff a.in_type_checking b.in_type_checking,
  bool_beq_iff a.is_top_level b.is_top_level,
)

instance abbrev pub eq_edge : Eq NormalizedImportEdge
eq_edge = record { beq = edge_beq; beq_iff = edge_beq_iff }
