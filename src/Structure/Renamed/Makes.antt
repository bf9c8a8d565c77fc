-- ===== src/Structure/Renamed/Makes.antt =====
-- Which imports make an edge between modules of the project.
use python_arch_testing.Base.{
  Bool, Bool-cases, Dict, In, In-sort_by, List, Option, Option-cases, Text, [], any_of_iff, ap,
  arith, beq_false, eq_text, false, if◌then◌else◌, inl, inr, keys, lookup, none, not, refl, some,
  sort_by, subst, sym, text-cases, text_eq_iff, true, ◌&&◌, ◌==◌, ◌↔◌, ◌∙◌, ◌≡◌, ◌≢◌,
}
use python_arch_testing.Names.{module_of, dotted, starts_with}
use python_arch_testing.Imports.Edge.{NormalizedImportEdge}
use python_arch_testing.Architecture.Edges.{Edge}
use python_arch_testing.Structure.Renamed.{
  import_module_edges, imports_inside, statement_key, StatementKey, edge_of, is_another, names_of,
  import_order, statements_of,
}
use python_arch_testing.Structure.Renamed.Exact.{Sibling, statements_iff, In-add_module_edges}

-- What an import that makes an edge is: at run time or not ignored, of a name whose most specific
-- module is another one of the project, and not of a package of which the statement also imports a submodule.
pub record Makes (edges : List NormalizedImportEdge) (modules : List Text) (ignore : Bool)
    (e : NormalizedImportEdge) (p : Edge) : Type 0 where
  pub from_importer : p.0 ≡ e.importer_module
  pub to_module_of : module_of e.imported_module modules ≡ some p.1
  pub other_module : p.1 ≢ p.0
  pub counted : ¬ ((ignore ≡ true) × (e.in_type_checking ≡ true))
  pub no_submodule :
      e.imported_module ≡ p.1
      → (other m : Text) → Sibling edges (statement_key e) other
      → starts_with other (dotted p.1) ≡ true
      → module_of other modules ≡ some m
      → m ≡ p.1

is_another_iff :
    (o : Option Text) (target : Text)
    → (is_another o target ≡ true) ↔ ((m : Text) × (o ≡ some m) × (m ≢ target))
is_another_iff none target = (λ h. cc, λ w. cc w.1)
is_another_iff (some m) target = (λ h. (m, refl, λ p. differs p h), λ w. same w.0 w.1 w.2)
  where
    differs : m ≡ target → not (m == target) ≡ true → ⊥
    differs p h = ground (arith, text_eq_iff m target)

    same : (k : Text) → some m ≡ some k → k ≢ target → not (m == target) ≡ true
    same k p n = ground (arith, text_eq_iff m target)

inside_iff :
    (modules : List Text) (target : Text) (siblings : List Text)
    → (imports_inside modules target siblings ≡ true) ↔ (
        (other : Text) × In other siblings
        × (starts_with other (dotted target) ≡ true)
        × (is_another (module_of other modules) target ≡ true))
unfolding imports_inside
inside_iff modules target siblings = (
  λ h.
      let (other, i, t) =
        (any_of_iff
            (λ other.
              starts_with other (dotted target) && is_another (module_of other modules) target)
            siblings).0
          h in
      let (a, b) = (both other).0 t in (other, i, a, b),
  λ w.
      (any_of_iff
          (λ other.
            starts_with other (dotted target) && is_another (module_of other modules) target)
          siblings).1
        (w.0, w.1, (both w.0).1 (w.2, w.3)),
)
  where
    both :
        (other : Text)
        → (starts_with other (dotted target) && is_another (module_of other modules) target ≡ true)
          ↔ ((starts_with other (dotted target) ≡ true)
              × (is_another (module_of other modules) target ≡ true))
    both other = ground arith

module _ (edges : List NormalizedImportEdge) (modules : List Text) (ignore : Bool)
    (statements : Dict StatementKey (List Text))
    (complete : (key : StatementKey) (other : Text)
      → In other (names_of key statements) ↔ Sibling edges key other) where
  guarded :
      (e : NormalizedImportEdge) (target : Text)
      → module_of e.imported_module modules ≡ some target
      → edge_of modules ignore statements e ≡ (
          if ignore && e.in_type_checking
          then none
          else if target == e.importer_module
          then none
          else if e.imported_module == target
              && imports_inside modules target (names_of (statement_key e) statements)
          then none
          else some (e.importer_module, target))
  unfolding edge_of
  guarded e target h = rw (h, edge_of) refl

  not_guarded :
      (e : NormalizedImportEdge)
      → module_of e.imported_module modules ≡ none
      → edge_of modules ignore statements e ≡ none
  unfolding edge_of
  not_guarded e h = elim (Bool-cases (ignore && e.in_type_checking)) [
    | inl k ↦ rw (k, edge_of) refl
    | inr k ↦ rw (k, h, edge_of) refl
  ]

  guards_iff :
      (i t s m b : Bool) (o : Edge) (p : Edge)
      → ((if i && t then none else if s then none else if m && b then none else some o) ≡ some p)
        ↔ ((o ≡ p) × (s ≡ false) × (¬ ((i ≡ true) × (t ≡ true))) × (m ≡ true → b ≡ false))
  guards_iff i t s m b o p = ground arith

  abbrev inside : NormalizedImportEdge → Text → Bool
  inside e target = imports_inside modules target (names_of (statement_key e) statements)

  -- No submodule is imported along, in words and as the test.
  none_inside :
      (e : NormalizedImportEdge) (target : Text)
      → (inside e target ≡ false) ↔ (
          (other m : Text)
          → Sibling edges (statement_key e) other
          → starts_with other (dotted target) ≡ true
          → module_of other modules ≡ some m
          → m ≡ target)
  none_inside e target = (
    λ h other m sib st mo. elim (text-cases m target) [
      | inl p ↦ p
      | inr n ↦ absurd (
          cc (
            h,
            (inside_iff modules target (names_of (statement_key e) statements)).1 (
              other,
              (complete (statement_key e) other).1 sib,
              st,
              (is_another_iff (module_of other modules) target).1 (m, mo, n),
            ),
          ))
    ],
    λ all. elim (Bool-cases (inside e target)) [
      | inl h ↦
          let (other, i, st, a) =
            (inside_iff modules target (names_of (statement_key e) statements)).0 h in
          let (m, mo, n) = (is_another_iff (module_of other modules) target).0 a in
          absurd (n (all other m ((complete (statement_key e) other).0 i) st mo))
      | inr h ↦ h
    ],
  )

  Makes-of :
      (e : NormalizedImportEdge) (p : Edge) (target : Text)
      → module_of e.imported_module modules ≡ some target
      → edge_of modules ignore statements e ≡ some p
      → Makes edges modules ignore e p
  Makes-of e p target mo h =
      let (q, s, c, b) =
        (guards_iff ignore e.in_type_checking (target == e.importer_module)
            (e.imported_module == target) (inside e target) (e.importer_module, target) p).0
          (sym (guarded e target mo) ∙ h) in
      subst (Makes edges modules ignore e) q (record {
        from_importer = refl;
        to_module_of = mo;
        other_module = beq_false target e.importer_module s;
        counted = c;
        no_submodule =
            λ same. (none_inside e target).0 (b ((text_eq_iff e.imported_module target).1 same));
      })

  edge_of-Makes :
      (e : NormalizedImportEdge) (p : Edge)
      → (edge_of modules ignore statements e ≡ some p) ↔ Makes edges modules ignore e p
  edge_of-Makes e p = (
    λ h. elim (Option-cases (module_of e.imported_module modules)) [
      | inl mo ↦ absurd (cc (not_guarded e mo, h))
      | inr (target, mo) ↦ Makes-of e p target mo h
    ],
    λ k.
        guarded e p.1 k.to_module_of
        ∙ (guards_iff ignore e.in_type_checking (p.1 == e.importer_module)
              (e.imported_module == p.1) (inside e p.1) (e.importer_module, p.1) p).1
            (
              ap (λ o. (o, p.1)) (sym k.from_importer),
              differs k.other_module k.from_importer,
              k.counted,
              λ m. (none_inside e p.1).1 (k.no_submodule ((text_eq_iff e.imported_module p.1).0 m)),
            ),
  )
    where
      differs : p.1 ≢ p.0 → p.0 ≡ e.importer_module → (p.1 == e.importer_module) ≡ false
      differs n q = elim (Bool-cases (p.1 == e.importer_module)) [
        | inl h ↦ absurd (n ((text_eq_iff p.1 e.importer_module).0 h ∙ sym q))
        | inr h ↦ h
      ]

Sibling-sorted :
    (edges : List NormalizedImportEdge) (key : StatementKey) (other : Text)
    → Sibling (sort_by import_order edges) key other ↔ Sibling edges key other
Sibling-sorted edges key other = (
  λ w. (w.0, (In-sort_by import_order w.0 edges).0 w.1, w.2, w.3),
  λ w. (w.0, (In-sort_by import_order w.0 edges).1 w.1, w.2, w.3),
)

-- The module graph has an edge just for each pair of different modules such that an import, not
-- under TYPE_CHECKING where such imports are ignored, stands in the one, and the other is the most
-- specific of the modules that the imported name is or lies in, unless the import names this other
-- module itself in a statement that also imports a name which begins with its name and a dot and
-- for which another module is the most specific one.
pub import_module_edges_iff :
    (edges : List NormalizedImportEdge) (modules : List Text) (ignore : Bool) (p : Edge)
    → In p (keys (import_module_edges edges modules ignore))
      ↔ ((e : NormalizedImportEdge) × In e edges × Makes edges modules ignore e p)
unfolding import_module_edges lookup
import_module_edges_iff edges modules ignore p = (
  λ m. elim ((In-add_module_edges modules ignore (statements_of ordered []) ordered [] p).0 m) [
    | inl n ↦ absurd n
    | inr w ↦ (
      w.0,
      (In-sort_by import_order w.0 edges).0 w.1,
      (edge_of-Makes edges modules ignore (statements_of ordered []) complete w.0 p).0 w.2,
    )
  ],
  λ w. (In-add_module_edges modules ignore (statements_of ordered []) ordered [] p).1 (
      inr (
        w.0,
        (In-sort_by import_order w.0 edges).1 w.1,
        (edge_of-Makes edges modules ignore (statements_of ordered []) complete w.0 p).1 w.2,
      )),
)
  where
    ordered : List NormalizedImportEdge
    ordered = sort_by import_order edges

    complete :
        (key : StatementKey) (other : Text)
        → In other (names_of key (statements_of (sort_by import_order edges) []))
          ↔ Sibling edges key other
    complete key other = (
      λ m. elim ((statements_iff (sort_by import_order edges) [] key other).0 m) [
        | inl n ↦ absurd n
        | inr w ↦ (Sibling-sorted edges key other).0 w
      ],
      λ w.
          (statements_iff (sort_by import_order edges) [] key other).1
            (inr ((Sibling-sorted edges key other).1 w)),
    )
