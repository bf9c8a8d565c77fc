-- ===== src/Signatures/Wrappers/Reading.antt =====
-- execution/evaluators/signature_comparison.py, `_decorator_contains_builtin_method_wrapper`: the
-- names of a decorator in reading order, and the first of them that is a wrapper's.
pub mod Search
use python_arch_testing.Base.{
  Bool, Bool-cases, In, List, Option, Text, [], ap, arith, codes, eq_text, if◌then◌else◌, inl, inr,
  nat_eq, nat_eq_iff, none, refl, some, subst, sym, text_eq, text_eq_iff, ◌++◌, ◌==◌, ◌↔◌, ◌∙◌, ◌∷◌,
  ◌≡◌, ◌⊎◌,
}
use python_arch_testing.Signatures.Params.{
  Node, Nodes, attribute_node, call_node, more_nodes, name_node, no_nodes, other_node,
}
use python_arch_testing.Signatures.Wrappers.{
  MethodKind, class_method, direct_wrapper, last_part, static_method, wrapper_kind,
}

-- The names that a node refers to, itself and everything in it, in reading order.
mutual
  pub names_in : Node → List Text
  names_in (name_node id) = id ∷ []
  names_in (attribute_node text children) = text ∷ names_in_all children
  names_in (call_node f arguments) = names_in f ++ names_in_all arguments
  names_in (other_node children) = names_in_all children

  pub names_in_all : Nodes → List Text
  names_in_all no_nodes = []
  names_in_all (more_nodes node nodes) = names_in node ++ names_in_all nodes

-- The word of a kind of wrapper, and a name that is the word or ends with a dot and the word.
pub data Word : MethodKind → Text → Type 0 where
  class_word : Word class_method (codes "classmethod")
  static_word : Word static_method (codes "staticmethod")

abbrev pub Refers : Text → MethodKind → Type 0
Refers name k = (w : Text) × Word k w × ((name ≡ w) ⊎ ((p : Text) × (name ≡ p ++ b'.' ∷ w)))

-- `k` is the kind of the first name of the list that refers to a wrapper.
abbrev pub First : List Text → MethodKind → Type 0
First names k =
    (before : List Text) × (name : Text) × (after : List Text) × (names ≡ before ++ name ∷ after)
    × Refers name k
    × ((other : Text) (j : MethodKind) → In other before → ¬ Refers other j)

abbrev NoDot : Text → Type 0
NoDot t = ¬ In b'.' t

-- What is left of the last dot.
last_part-none : (part s : Text) → NoDot s → last_part part s ≡ part
unfolding last_part
last_part-none part [] n = refl
last_part-none part (c ∷ s) n = elim (Bool-cases (nat_eq c b'.')) [
  | inl h ↦ absurd (n (inl (sym ((nat_eq_iff c b'.').0 h))))
  | inr h ↦ rw (h, last_part) (last_part-none part s (λ i. n (inr i)))
]

last_part-dot : (part p w : Text) → NoDot w → last_part part (p ++ b'.' ∷ w) ≡ w
unfolding last_part
last_part-dot part [] w n = last_part-none w w n
last_part-dot part (c ∷ p) w n = elim (Bool-cases (nat_eq c b'.')) [
  | inl h ↦ rw (h, last_part) (last_part-dot (p ++ b'.' ∷ w) p w n)
  | inr h ↦ rw (h, last_part) (last_part-dot part p w n)
]

last_part-cases :
    (part s w : Text) → last_part part s ≡ w → (part ≡ w) ⊎ ((p : Text) × (s ≡ p ++ b'.' ∷ w))
unfolding last_part
last_part-cases part [] w h = inl h
last_part-cases part (c ∷ s) w h = elim (Bool-cases (nat_eq c b'.')) [
  | inl e ↦
      elim (last_part-cases s s w
        (sym (ap (λ b. if b then last_part s s else last_part part s) e) ∙ h)) [
          | inl k ↦ inr ([], ap (λ z. z ∷ s) ((nat_eq_iff c b'.').0 e) ∙ ap (λ z. b'.' ∷ z) k)
          | inr q ↦ inr (c ∷ q.0, ap (λ z. c ∷ z) q.1)
        ]
  | inr e ↦
      elim (last_part-cases part s w
        (sym (ap (λ b. if b then last_part s s else last_part part s) e) ∙ h)) [
          | inl k ↦ inl k
          | inr q ↦ inr (c ∷ q.0, ap (λ z. c ∷ z) q.1)
        ]
]

Word-NoDot : (k : MethodKind) (w : Text) → Word k w → NoDot w
Word-NoDot k w class_word = λ i. ground (arith, i)
Word-NoDot k w static_word = λ i. ground (arith, i)

wrapper_kind-Word : (k : MethodKind) (t : Text) → Word k t → wrapper_kind t ≡ some k
unfolding text_eq
wrapper_kind-Word k t class_word = refl
wrapper_kind-Word k t static_word = refl

Word-wrapper_kind : (t : Text) (k : MethodKind) → wrapper_kind t ≡ some k → Word k t
Word-wrapper_kind t k h = elim (Bool-cases (t == codes "classmethod")) [
  | inl e ↦
      word (codes "classmethod") class_method class_word ((text_eq_iff t (codes "classmethod")).0 e)
        (some_kind (sym (ap first e) ∙ h))
  | inr e ↦ elim (Bool-cases (t == codes "staticmethod")) [
    | inl f ↦
        word (codes "staticmethod") static_method static_word
          ((text_eq_iff t (codes "staticmethod")).0 f)
          (some_kind (sym (ap first e ∙ ap second f) ∙ h))
    | inr f ↦ absurd (nothing (sym (ap first e ∙ ap second f) ∙ h))
  ]
]
  where
    second : Bool → Option MethodKind
    second b = if b then some static_method else none

    first : Bool → Option MethodKind
    first b = if b then some class_method else second (t == codes "staticmethod")

    some_kind : {i j : MethodKind} → some i ≡ some j → i ≡ j
    some_kind e = cc e

    nothing : {j : MethodKind} → ¬ (none ≡ some j)
    nothing e = absurd (cc e)

    word : (w : Text) (i : MethodKind) → Word i w → t ≡ w → i ≡ k → Word k t
    word w i x p q = subst (λ z. Word k z) (sym p) (subst (λ z. Word z w) q x)

pub direct_wrapper_iff :
    (name : Text) (k : MethodKind) → (direct_wrapper (some name) ≡ some k) ↔ Refers name k
unfolding last_part
direct_wrapper_iff name k = (
  λ h. (
    last_part name name,
    Word-wrapper_kind _ k h,
    elim (last_part-cases name name _ refl) [ inl e ↦ inl e | inr q ↦ inr q ],
  ),
  λ r.
      ap wrapper_kind (elim r.2 [
        | inl e ↦
            subst (λ z. last_part z z ≡ r.0) (sym e) (last_part-none r.0 r.0 (Word-NoDot k r.0 r.1))
        | inr q ↦
            subst (λ z. last_part z z ≡ r.0) (sym q.1)
              (last_part-dot (q.0 ++ b'.' ∷ r.0) q.0 r.0 (Word-NoDot k r.0 r.1))
      ])
      ∙ wrapper_kind-Word k r.0 r.1,
)
