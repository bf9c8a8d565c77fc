-- ===== src/Signatures/Wrappers/Reading/Search.antt =====
-- execution/evaluators/signature_comparison.py, `_decorator_contains_builtin_method_wrapper`: what
-- its search of a decorator finds.
use python_arch_testing.Base.{
  In, List, Option, Option-cases, Text, [], ap, ap₂, eq_text, inl, inr, none, refl, some, subst,
  sym, ◌++◌, ◌↔◌, ◌∙◌, ◌∷◌, ◌≡◌, ◌⊎◌,
}
use python_arch_testing.Signatures.Params.{
  Node, Nodes, attribute_node, call_node, more_nodes, name_node, no_nodes, other_node,
}
use python_arch_testing.Signatures.Wrappers.{
  MethodKind, contains_wrapper, direct_wrapper, nested_wrapper, or_else, target_name,
}
use python_arch_testing.Signatures.Wrappers.Reading.{
  First, Refers, direct_wrapper_iff, names_in, names_in_all,
}

-- The first wrapper of a list of names, as the search finds it.
first_wrapper : List Text → Option MethodKind
first_wrapper [] = none
first_wrapper (name ∷ names) = or_else (direct_wrapper (some name)) (first_wrapper names)

or_else-none : (o : Option MethodKind) → or_else o none ≡ o
or_else-none none = refl
or_else-none (some k) = refl

or_else_again : (o q : Option MethodKind) → or_else o (or_else o q) ≡ or_else o q
or_else_again none q = refl
or_else_again (some k) q = refl

or_else_assoc : (o p q : Option MethodKind) → or_else (or_else o p) q ≡ or_else o (or_else p q)
or_else_assoc none p q = refl
or_else_assoc (some k) p q = refl

first_wrapper-append :
    (xs ys : List Text) → first_wrapper (xs ++ ys) ≡ or_else (first_wrapper xs) (first_wrapper ys)
unfolding first_wrapper
first_wrapper-append [] ys = refl
first_wrapper-append (x ∷ xs) ys =
    ap (or_else (direct_wrapper (some x))) (first_wrapper-append xs ys)
    ∙ sym (or_else_assoc (direct_wrapper (some x)) (first_wrapper xs) (first_wrapper ys))

-- The name of what is called comes first among the names in it.
target_first :
    (f : Node)
    → or_else (direct_wrapper (target_name f)) (first_wrapper (names_in f))
      ≡ first_wrapper (names_in f)
unfolding names_in first_wrapper direct_wrapper
target_first (name_node id) = or_else_again (direct_wrapper (some id)) none
target_first (attribute_node text children) = or_else_again (direct_wrapper (some text)) _
target_first (call_node f arguments) = refl
target_first (other_node children) = refl

mutual
  unfolding contains_wrapper names_in first_wrapper

  contains_wrapper_lem : (d : Node) → contains_wrapper d ≡ first_wrapper (names_in d)
  contains_wrapper_lem (name_node id) = sym (or_else-none (direct_wrapper (some id)))
  contains_wrapper_lem (attribute_node text children) =
      ap (or_else (direct_wrapper (some text))) (nested_wrapper_lem children)
  contains_wrapper_lem (call_node f arguments) =
      ap₂ (λ a b. or_else (direct_wrapper (target_name f)) (or_else a b)) (contains_wrapper_lem f)
        (nested_wrapper_lem arguments)
      ∙ sym (or_else_assoc (direct_wrapper (target_name f)) (first_wrapper (names_in f)) _)
      ∙ ap (λ o. or_else o (first_wrapper (names_in_all arguments))) (target_first f)
      ∙ sym (first_wrapper-append (names_in f) (names_in_all arguments))
  contains_wrapper_lem (other_node children) = nested_wrapper_lem children

  nested_wrapper_lem : (ns : Nodes) → nested_wrapper ns ≡ first_wrapper (names_in_all ns)
  nested_wrapper_lem no_nodes = refl
  nested_wrapper_lem (more_nodes node nodes) =
      ap₂ or_else (contains_wrapper_lem node) (nested_wrapper_lem nodes)
      ∙ sym (first_wrapper-append (names_in node) (names_in_all nodes))

one_kind : (name : Text) (j k : MethodKind) → Refers name j → Refers name k → j ≡ k
one_kind name j k a b = cc ((direct_wrapper_iff name j).1 a, (direct_wrapper_iff name k).1 b)

not_wrapper : (name : Text) → direct_wrapper (some name) ≡ none → (j : MethodKind) → ¬ Refers name j
not_wrapper name e j r = absurd (cc (e, (direct_wrapper_iff name j).1 r))

First-cons :
    (x : Text) (names : List Text) (k : MethodKind)
    → First (x ∷ names) k ↔ (Refers x k ⊎ (((j : MethodKind) → ¬ Refers x j) × First names k))
First-cons x names k = (
  λ w. split w.0 w.1 w.2 w.3 w.4 w.5,
  λ o. elim o [
    | inl r ↦ ([], x, names, refl, r, λ other j i f. i)
    | inr p ↦ (
      x ∷ p.1.0,
      p.1.1,
      p.1.2,
      ap (λ z. x ∷ z) p.1.3,
      p.1.4,
      λ other j i f. elim i [
        | inl q ↦ p.0 j (subst (λ z. Refers z j) q f)
        | inr m ↦ p.1.5 other j m f
      ],
    )
  ],
)
  where
    split :
        (before : List Text) (name : Text) (after : List Text)
        → x ∷ names ≡ before ++ name ∷ after
        → Refers name k
        → ((other : Text) (j : MethodKind) → In other before → ¬ Refers other j)
        → Refers x k ⊎ (((j : MethodKind) → ¬ Refers x j) × First names k)
    split [] name after q r n = let same : name ≡ x = cc q in inl (subst (λ z. Refers z k) same r)
    split (b ∷ before) name after q r n = inr (
      λ j f. n x j (inl (cc q)) f,
      (before, name, after, cc q, r, λ other j i. n other j (inr i)),
    )

no_First : (k : MethodKind) → ¬ First [] k
no_First k ([], name, after, q, r, n) = absurd (cc q)
no_First k (b ∷ before, name, after, q, r, n) = absurd (cc q)

first_wrapper-First :
    (names : List Text) (k : MethodKind) → (first_wrapper names ≡ some k) ↔ First names k
unfolding first_wrapper
first_wrapper-First [] k = (λ h. absurd (cc h), λ w. absurd (no_First k w))
first_wrapper-First (x ∷ names) k = elim (Option-cases (direct_wrapper (some x))) [
  | inl e ↦
      let rest = ap (λ o. or_else o (first_wrapper names)) e in
      (
        λ h.
            (First-cons x names k).1
              (inr (not_wrapper x e, (first_wrapper-First names k).0 (sym rest ∙ h))),
        λ w. rest ∙ elim ((First-cons x names k).0 w) [
          | inl r ↦ absurd (not_wrapper x e k r)
          | inr p ↦ (first_wrapper-First names k).1 p.1
        ],
      )
  | inr (j, e) ↦
      let found = ap (λ o. or_else o (first_wrapper names)) e in
      let here = (direct_wrapper_iff x j).0 e in
      (
        λ h. (First-cons x names k).1 (inl ((direct_wrapper_iff x k).0 (e ∙ sym found ∙ h))),
        λ w.
            found
            ∙ ap (λ z. some z)
                (elim ((First-cons x names k).0 w) [
                  | inl r ↦ one_kind x j k here r
                  | inr p ↦ absurd (p.0 j here)
                ]),
      )
]

-- The search of a decorator finds the first wrapper of its names.
pub contains_wrapper-First :
    (d : Node) (k : MethodKind) → (contains_wrapper d ≡ some k) ↔ First (names_in d) k
contains_wrapper-First d k = (
  λ h. (first_wrapper-First (names_in d) k).0 (sym (contains_wrapper_lem d) ∙ h),
  λ w. contains_wrapper_lem d ∙ (first_wrapper-First (names_in d) k).1 w,
)
