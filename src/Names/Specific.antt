-- ===== src/Names/Specific.antt =====
-- execution/module_structure.py, `module_of`: the most specific module around a name.
use python_arch_testing.Base.{
  Bool-cases, In, In-filter, List, Option-cases, Subset, Text, [], ap, arith, false, filter,
  if◌then◌else◌, inl, inr, length, ltb, none, refl, some, subst, text_eq_iff, true, ◌∙◌, ◌∷◌, ◌≡◌,
  ◌≤◌, ◌⊎◌,
}
use python_arch_testing.Names.Text.{in_module, longest_from, longest, module_of, dotted}
use python_arch_testing.Names.Laws.{
  Inside-nested, in_module-Inside, Inside-in_module, in_module_order, length-starts_with,
  length-dotted,
}

abbrev IsLongest : Text → Text → List Text → Type 0
IsLongest r best xs =
    ((r ≡ best) ⊎ In r xs) × (length best ≤ length r) × ((x : Text) → In x xs → length x ≤ length r)

abbrev longer : Text → Text → Text
longer best y = if ltb (length best) (length y) then y else best

IsLongest-cons :
    (r best y : Text) (ys : List Text) → IsLongest r (longer best y) ys → IsLongest r best (y ∷ ys)
IsLongest-cons r best y ys (member, above, all) = (
  member_of (Bool-cases (ltb (length best) (length y))),
  ground arith,
  λ x m. elim m [ inl p ↦ rw p (ground arith) | inr n ↦ all x n ],
)
  where
    member_of :
        (ltb (length best) (length y) ≡ true) ⊎ (ltb (length best) (length y) ≡ false)
        → (r ≡ best) ⊎ (r ≡ y) ⊎ In r ys
    member_of (inl e) = elim member [ inl p ↦ inr (inl (p ∙ (rw e))) | inr m ↦ inr (inr m) ]
    member_of (inr e) = elim member [ inl p ↦ inl (p ∙ (rw e)) | inr m ↦ inr (inr m) ]

longest_from_lem : (best : Text) (xs : List Text) → IsLongest (longest_from best xs) best xs
unfolding longest_from
longest_from_lem best [] = (inl refl, omega arith, λ x m. absurd m)
longest_from_lem best (y ∷ ys) =
    IsLongest-cons (longest_from (longer best y) ys) best y ys (longest_from_lem (longer best y) ys)

longest-some :
    (xs : List Text) (b : Text)
    → longest xs ≡ some b
    → In b xs × ((x : Text) → In x xs → length x ≤ length b)
unfolding longest
longest-some [] b h = cc
longest-some (y ∷ ys) b h =
    let (where_from, above, all) = longest_from_lem y ys in
    let e : longest_from y ys ≡ b = cc in
    subst (λ r. In r (y ∷ ys) × ((x : Text) → In x (y ∷ ys) → length x ≤ length r)) e
      (where_from, λ x m. elim m [ inl p ↦ rw p above | inr n ↦ all x n ])

longest-none : (xs : List Text) → longest xs ≡ none → xs ≡ []
unfolding longest
longest-none [] h = refl
longest-none (y ∷ ys) h = cc

nested :
    (name a b : Text)
    → in_module name a ≡ true
    → in_module name b ≡ true
    → length b ≤ length a
    → in_module a b ≡ true
nested name a [] h k l = elim (in_module-Inside name a h) [
  | inl p ↦ rw p at k
  | inr s ↦
      let e = Inside-empty name k in
      absurd (omega (arith, length-starts_with name (dotted a) s, length-dotted a, ap length e))
]
  where
    Inside-empty : (name : Text) → in_module name [] ≡ true → name ≡ []
    Inside-empty name k = unfold in_module in (text_eq_iff name []).0 k
nested name a (c ∷ b) h k l =
    Inside-in_module a (c ∷ b) (λ e. cc)
      (Inside-nested name a (c ∷ b) (in_module-Inside name a h) (in_module-Inside name (c ∷ b) k) l)

-- The module that `module_of` finds is one of the modules, contains the name, and lies inside
-- every other module of the list that contains the name.
pub module_of_specific :
    (name : Text) (modules : List Text) (m : Text)
    → module_of name modules ≡ some m
    → In m modules
      × (in_module name m ≡ true)
      × ((other : Text) → In other modules → in_module name other ≡ true → in_module m other ≡ true)
unfolding module_of
module_of_specific name modules m h =
    let (found, most) = longest-some (filter (in_module name) modules) m h in
    let (listed, holds) = (In-filter (in_module name) m modules).0 found in
    (
      listed,
      holds,
      λ other o t.
          nested name m other holds t
            (most other ((In-filter (in_module name) other modules).1 (o, t))),
    )

pub module_of-none :
    (name : Text) (modules : List Text)
    → module_of name modules ≡ none
    → (m : Text) → In m modules
    → in_module name m ≡ false
unfolding module_of
module_of-none name modules h m i = elim (Bool-cases (in_module name m)) [
  | inl e ↦
      let empty = longest-none (filter (in_module name) modules) h in
      absurd (subst (In m) empty ((In-filter (in_module name) m modules).1 (i, e)))
  | inr e ↦ e
]

-- `module_of` depends on which modules there are, and not on their order or repetitions.
pub module_of_order :
    (name : Text) (ms ns : List Text)
    → Subset ms ns
    → Subset ns ms
    → module_of name ms ≡ module_of name ns
module_of_order name ms ns to from = elim (Option-cases (module_of name ms)) [
  | inl p ↦ elim (Option-cases (module_of name ns)) [
    | inl q ↦ cc
    | inr (b, q) ↦
        let (i, h, _) = module_of_specific name ns b q in
        let e = module_of-none name ms p b (from b i) in cc
  ]
  | inr (a, p) ↦ elim (Option-cases (module_of name ns)) [
    | inl q ↦
        let (i, h, _) = module_of_specific name ms a p in
        let e = module_of-none name ns q a (to a i) in cc
    | inr (b, q) ↦
        let (i, h, above) = module_of_specific name ms a p in
        let (j, k, below) = module_of_specific name ns b q in
        let e : a ≡ b = (in_module_order a b a).2 (above b (from b j) k) (below a (to a i) h) in cc
  ]
]
