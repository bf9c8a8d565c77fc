-- ===== src/Entities.antt =====
-- entities.py: entities, the keys of their signatures and the index of entities. `str(int)` and
-- `int(str)` are parameters where keys are printed and read.
use python_arch_testing.Base.{
  Bool, Dict, Eq, List, Option, Text, [], codes, eq_nat, eq_pair, eq_text, if◌then◌else◌, insert,
  leb, lex, lookup, none, some, sort_by, text_le, ℕ, ◌++◌, ◌==◌, ◌∷◌,
}
pub mod Keys
pub mod Index

pub record SignatureInfo : Type 0 where
  pub posonly : ℕ
  pub pos : ℕ
  pub vararg : Bool
  pub kwonly : ℕ
  pub kwarg : Bool
  pub defaults : ℕ
  pub kw_defaults : ℕ

-- `extras` stands for `extras`, `decorators_meta` and `annotation_declarations`.
pub record Entity (X : Type 0) : Type 0 where
  pub role : Text
  pub kind : Text
  pub root_label : Text
  pub module_path : Text
  pub qualname : Text
  pub name : Text
  pub filepath_rel : Text
  pub lineno : ℕ
  pub signature : Option SignatureInfo
  pub signature_key : Text
  pub ast_fingerprint : Text
  pub source_hash : Text
  pub doc_hash : Option Text
  pub canonical_id : Text
  pub extras : X

pub record EntityIndex (X : Type 0) : Type 0 where
  pub by_core : Dict Text (List (Entity X))
  pub by_name : Dict (Text × Text) (List (Entity X))
  pub by_sig : Dict (Text × Text) (List (Entity X))
  pub by_fp : Dict (Text × Text) (List (Entity X))
  pub all_sorted : List (Entity X)

pub build_canonical_id : Text → Text → Text → Text → Text → Text → Text
build_canonical_id role root_label module_path qualname kind signature_key =
    role
    ++ codes ":"
    ++ root_label
    ++ codes ":"
    ++ module_path
    ++ codes ":"
    ++ qualname
    ++ codes ":"
    ++ kind
    ++ codes ":"
    ++ signature_key

module _ {X : Type 0} where
  -- The tuple that entities are sorted by.
  pub sort_key : Entity X → Text × (Text × (Text × (Text × (Text × (ℕ × Text)))))
  sort_key e = (
    e.module_path,
    (e.qualname, (e.kind, (e.signature_key, (e.filepath_rel, (e.lineno, e.canonical_id))))),
  )

  pub entity_le : Entity X → Entity X → Bool
  unfolding sort_key
  entity_le a b =
      lex text_le (lex text_le (lex text_le (lex text_le (lex text_le (lex leb text_le)))))
        (sort_key a) (sort_key b)

  pub sort_entities : List (Entity X) → List (Entity X)
  unfolding entity_le
  sort_entities entities = sort_by entity_le entities

  abbrev pub values_of : Option (List (Entity X)) → List (Entity X)
  values_of none = []
  values_of (some entities) = entities

  -- `index.setdefault(key, []).append(entity)`.
  pub append_at :
      {K : Type 0} ⦃e : Eq K⦄ → K → Entity X → Dict K (List (Entity X)) → Dict K (List (Entity X))
  append_at key entity index = insert key (values_of (lookup key index) ++ entity ∷ []) index

  pub sort_index_lists : {K : Type 0} → Dict K (List (Entity X)) → Dict K (List (Entity X))
  unfolding sort_entities
  sort_index_lists [] = []
  sort_index_lists ((key, entities) ∷ index) =
      (key, sort_entities entities) ∷ sort_index_lists index

  abbrev pub core_key : Entity X → Text
  core_key e =
      e.module_path
      ++ codes ":"
      ++ e.qualname
      ++ codes ":"
      ++ e.kind
      ++ codes ":"
      ++ e.signature_key

  -- One pass of the loop over the entities.
  pub add_entity : Entity X → EntityIndex X → EntityIndex X
  unfolding append_at
  add_entity e index = record index {
    by_core = append_at (core_key e) e index.by_core;
    by_name = append_at (e.kind, e.name) e index.by_name;
    by_sig = append_at (e.kind, e.signature_key) e index.by_sig;
    by_fp =
        if e.ast_fingerprint == []
        then index.by_fp
        else append_at (e.kind, e.ast_fingerprint) e index.by_fp;
  }

  pub add_entities : List (Entity X) → EntityIndex X → EntityIndex X
  unfolding add_entity
  add_entities [] index = index
  add_entities (e ∷ entities) index = add_entities entities (add_entity e index)

  pub build_entity_index : List (Entity X) → EntityIndex X
  unfolding add_entities sort_index_lists sort_entities
  build_entity_index entities =
      let index =
        add_entities entities
          (record { by_core = []; by_name = []; by_sig = []; by_fp = []; all_sorted = [] }) in
      record {
        by_core = sort_index_lists index.by_core;
        by_name = sort_index_lists index.by_name;
        by_sig = sort_index_lists index.by_sig;
        by_fp = sort_index_lists index.by_fp;
        all_sorted = sort_entities entities;
      }
