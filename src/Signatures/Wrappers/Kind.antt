-- ===== src/Signatures/Wrappers/Kind.antt =====
-- execution/evaluators/signature_comparison.py, `method_kind`: what its loop detects.
use python_arch_testing.Base.{
  Bool, Bool-cases, In, List, Option-cases, [], ap, arith, false, inl, inr, none, refl, some, subst,
  sym, true, ◌↔◌, ◌∙◌, ◌∷◌, ◌≡◌, ◌≢◌, ◌⊎◌,
}
use python_arch_testing.Signatures.Params.{Node, Callable, FunctionNode}
use python_arch_testing.Signatures.Wrappers.Reading.{First, names_in}
use python_arch_testing.Signatures.Wrappers.Reading.Search.{contains_wrapper-First}
use python_arch_testing.Signatures.Wrappers.{
  MethodKind, class_method, contains_wrapper, declared_kind, detect_kind, extended_kind,
  instance_method, method_kind, method_kind_eq, static_method,
}

-- A decorator of the list of which the first wrapper in reading order is of this kind.
abbrev pub Wraps : MethodKind → List Node → Type 0
Wraps k decorators = (d : Node) × In d decorators × First (names_in d) k

Wraps-cons :
    (k : MethodKind) (d : Node) (ds : List Node)
    → Wraps k (d ∷ ds) ↔ ((contains_wrapper d ≡ some k) ⊎ Wraps k ds)
Wraps-cons k d ds = (
  λ w. elim w.1 [
    | inl e ↦
        inl (subst (λ z. contains_wrapper z ≡ some k) e ((contains_wrapper-First w.0 k).1 w.2))
    | inr i ↦ inr (w.0, i, w.2)
  ],
  λ o. elim o [
    | inl h ↦ (d, inl refl, (contains_wrapper-First d k).0 h)
    | inr w ↦ (w.0, inr w.1, w.2)
  ],
)

pub method_kind_eq_iff : (j k : MethodKind) → (method_kind_eq j k ≡ true) ↔ (j ≡ k)
method_kind_eq_iff instance_method instance_method = ground arith
method_kind_eq_iff instance_method class_method = ground arith
method_kind_eq_iff instance_method static_method = ground arith
method_kind_eq_iff class_method instance_method = ground arith
method_kind_eq_iff class_method class_method = ground arith
method_kind_eq_iff class_method static_method = ground arith
method_kind_eq_iff static_method instance_method = ground arith
method_kind_eq_iff static_method class_method = ground arith
method_kind_eq_iff static_method static_method = ground arith

abbrev Only : MethodKind → List Node → Type 0
Only k ds = (j : MethodKind) → Wraps j ds → j ≡ k

Only-cons :
    (k : MethodKind) (d : Node) (ds : List Node)
    → Only k (d ∷ ds) ↔ (((j : MethodKind) → contains_wrapper d ≡ some j → j ≡ k) × Only k ds)
Only-cons k d ds = (
  λ h. (λ j e. h j ((Wraps-cons j d ds).1 (inl e)), λ j w. h j ((Wraps-cons j d ds).1 (inr w))),
  λ h j w. elim ((Wraps-cons j d ds).0 w) [ inl e ↦ h.0 j e | inr v ↦ h.1 j v ],
)

detect_from :
    (j k : MethodKind) (ds : List Node)
    → k ≢ instance_method
    → (detect_kind (some j) ds ≡ k) ↔ ((j ≡ k) × Only j ds)
unfolding detect_kind
detect_from j k [] n = (λ h. (h, λ i w. absurd w.1), λ h. h.0)
detect_from j k (d ∷ ds) n = elim (Option-cases (contains_wrapper d)) [
  | inl e ↦
      rw (e, detect_kind)
        (
          λ h. (
            ((detect_from j k ds n).0 h).0,
            (Only-cons j d ds).1 (λ i f. absurd (cc (e, f)), ((detect_from j k ds n).0 h).1),
          ),
          λ h. (detect_from j k ds n).1 (h.0, ((Only-cons j d ds).0 h.1).1),
        )
  | inr (i, e) ↦ elim (Bool-cases (method_kind_eq j i)) [
    | inl s ↦
        let same : j ≡ i = (method_kind_eq_iff j i).0 s in
        rw (e, s, detect_kind)
          (
            λ h. (
              same ∙ ((detect_from i k ds n).0 h).0,
              (Only-cons j d ds).1 (
                λ l f. cc (e, f, same),
                subst (λ z. Only z ds) (sym same) ((detect_from i k ds n).0 h).1,
              ),
            ),
            λ h.
                (detect_from i k ds n).1
                  (sym same ∙ h.0, subst (λ z. Only z ds) same ((Only-cons j d ds).0 h.1).1),
          )
    | inr s ↦
        rw (e, s, detect_kind)
          (
            λ h. absurd (n (sym h)),
            λ h.
                absurd
                  (cc (s, (method_kind_eq_iff j i).1 (sym (((Only-cons j d ds).0 h.1).0 i e)))),
          )
  ]
]

detect_none :
    (k : MethodKind) (ds : List Node)
    → k ≢ instance_method
    → (detect_kind none ds ≡ k) ↔ (Wraps k ds × Only k ds)
unfolding detect_kind
detect_none k [] n = (λ h. absurd (n (sym h)), λ h. absurd h.0.1)
detect_none k (d ∷ ds) n = elim (Option-cases (contains_wrapper d)) [
  | inl e ↦
      rw (e, detect_kind)
        (
          λ h.
              let (w, o) = (detect_none k ds n).0 h in
              ((Wraps-cons k d ds).1 (inr w), (Only-cons k d ds).1 (λ i f. absurd (cc (e, f)), o)),
          λ h. (detect_none k ds n).1 (
            elim ((Wraps-cons k d ds).0 h.0) [ inl f ↦ absurd (cc (e, f)) | inr w ↦ w ],
            ((Only-cons k d ds).0 h.1).1,
          ),
        )
  | inr (i, e) ↦
      rw (e, detect_kind)
        (
          λ h.
              let (s, o) = (detect_from i k ds n).0 h in
              (
                (Wraps-cons k d ds).1 (inl (e ∙ ap (λ z. some z) s)),
                (Only-cons k d ds).1 (λ l f. cc (e, f, s), subst (λ z. Only z ds) s o),
              ),
          λ h.
              let s : i ≡ k = ((Only-cons k d ds).0 h.1).0 i e in
              (detect_from i k ds n).1
                (s, subst (λ z. Only z ds) (sym s) ((Only-cons k d ds).0 h.1).1),
        )
]

-- Where the metadata names no kind and the function's node is known, the extended detection says
-- class (or static) method exactly when that is the kind of the first wrapper of some decorator and
-- no decorator has a first wrapper of another kind; a wrapper is a name, anywhere in the decorator
-- and in reading order, that is `classmethod` or `staticmethod` or ends with a dot and one of them.
-- The strict detection says instance method.
pub method_kind_detected :
    (entity : Callable) (function : FunctionNode) (k : MethodKind)
    → declared_kind entity.method_kind ≡ none
    → entity.ast_node ≡ some function
    → k ≢ instance_method
    → ((method_kind entity true ≡ k) ↔ (
        Wraps k function.decorator_list
        × ((j : MethodKind) → Wraps j function.decorator_list → j ≡ k)))
      × (method_kind entity false ≡ instance_method)
unfolding method_kind
method_kind_detected entity function k undeclared node n = (
  subst (λ m. (m ≡ k) ↔ (Wraps k function.decorator_list × Only k function.decorator_list))
      (sym (reads true)) (detect_none k function.decorator_list n),
  reads false,
)
  where
    reads : (b : Bool) → method_kind entity b ≡ extended_kind b (some function)
    reads b = rw (undeclared, method_kind) (ap (extended_kind b) node)
