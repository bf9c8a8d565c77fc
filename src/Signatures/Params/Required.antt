-- ===== src/Signatures/Params/Required.antt =====
-- execution/evaluators/signature_comparison.py, `param_model`: the parameters of a function's node.
use python_arch_testing.Base.{
  List, Option, Text, [], ap, ap₂, arith, get_elem?, inl, inr, length, length-append, ltb, map,
  refl, some, subst, suc, true, zero, ℕ, ◌++◌, ◌+◌, ◌-◌, ◌<◌, ◌↔◌, ◌∙◌, ◌∷◌, ◌≡◌, ◌⊎◌,
}
use python_arch_testing.Signatures.Params.{
  Param, ParamKind, kwonly_params, positional_params, Arguments, node_params, pos_or_kw, posonly,
}

get_elem?-append_left :
    {A : Type 0} (xs ys : List A) (i : ℕ) → i < length xs → get_elem? (xs ++ ys) i ≡ get_elem? xs i
get_elem?-append_left [] ys i h = let no : ⊥ = omega (arith, h) in absurd no
get_elem?-append_left (x ∷ xs) ys zero h = refl
get_elem?-append_left (x ∷ xs) ys (suc i) h = get_elem?-append_left xs ys i (omega (arith, h))

positional_names :
    (k : ParamKind) (annotations : List (Option Text)) (r i : ℕ) (args : List Text)
    → map (λ p. p.name) (positional_params k annotations r i args) ≡ args
unfolding positional_params
positional_names k annotations r i [] = refl
positional_names k annotations r i (arg ∷ args) =
    ap (λ z. arg ∷ z) (positional_names k annotations r (suc i) args)

kwonly_names :
    (annotations : List (Option Text)) (i : ℕ) (args : List (Text × Option Text))
    → map (λ p. p.name) (kwonly_params annotations i args) ≡ map (λ a. a.0) args
unfolding kwonly_params
kwonly_names annotations i [] = refl
kwonly_names annotations i ((arg, default) ∷ args) =
    ap (λ z. arg ∷ z) (kwonly_names annotations (suc i) args)

first_of : (a b : Param) → some a ≡ some b → a ≡ b
first_of a b h = cc h

-- What a list of positional parameters says at a position.
positional_at :
    (k : ParamKind) (annotations : List (Option Text)) (r i : ℕ) (args : List Text) (j : ℕ)
    (p : Param)
    → get_elem? (positional_params k annotations r i args) j ≡ some p
    → (j < length args) × (p.kind ≡ k) × (p.required ≡ ltb (i + j) r)
unfolding positional_params
positional_at k annotations r i [] j p h = absurd (cc h)
positional_at k annotations r i (arg ∷ args) zero p h =
    subst (λ z. (0 < suc (length args)) × (z.kind ≡ k) × (z.required ≡ ltb (i + 0) r))
      (first_of _ p h) (omega arith, refl, ap (λ n. ltb n r) (omega arith))
positional_at k annotations r i (arg ∷ args) (suc j) p h =
    let (a, b, c) = positional_at k annotations r (suc i) args j p h in
    (omega (arith, a), b, c ∙ ap (λ n. ltb n r) (omega arith))

map_name-append :
    (xs ys : List Param)
    → map (λ p. p.name) (xs ++ ys) ≡ map (λ p. p.name) xs ++ map (λ p. p.name) ys
map_name-append [] ys = refl
map_name-append (x ∷ xs) ys = ap (λ z. x.name ∷ z) (map_name-append xs ys)

three_parts :
    (xs ys zs : List Param) (a b c : List Text)
    → map (λ p. p.name) xs ≡ a
    → map (λ p. p.name) ys ≡ b
    → map (λ p. p.name) zs ≡ c
    → map (λ p. p.name) ((xs ++ ys) ++ zs) ≡ (a ++ b) ++ c
three_parts xs ys zs a b c h k l =
    map_name-append (xs ++ ys) zs
    ∙ ap₂ (λ x y. x ++ y) (map_name-append xs ys ∙ ap₂ (λ x y. x ++ y) h k) l

-- Where a list of positional parameters ends and the next begins.
at_append :
    (xs ys : List Param) (i : ℕ) (p : Param)
    → get_elem? (xs ++ ys) i ≡ some p
    → ((i < length xs) × (get_elem? xs i ≡ some p))
      ⊎ ((j : ℕ) × (i ≡ length xs + j) × (get_elem? ys j ≡ some p))
at_append [] ys i p h = inr (i, omega arith, h)
at_append (x ∷ xs) ys zero p h = inl (omega arith, h)
at_append (x ∷ xs) ys (suc i) p h = elim (at_append xs ys i p h) [
  | inl (a, b) ↦ inl (omega (arith, a), b)
  | inr (j, a, b) ↦ inr (j, omega (arith, a), b)
]

length-positional :
    (k : ParamKind) (annotations : List (Option Text)) (r i : ℕ) (args : List Text)
    → length (positional_params k annotations r i args) ≡ length args
unfolding positional_params
length-positional k annotations r i [] = refl
length-positional k annotations r i (arg ∷ args) =
    ap suc (length-positional k annotations r (suc i) args)

abbrev required_pos : Arguments → ℕ
required_pos a = length a.posonlyargs + length a.args - length a.defaults

abbrev only : List (Option Text) → Arguments → List Param
only annotations a = positional_params posonly annotations (required_pos a) 0 a.posonlyargs

abbrev either : List (Option Text) → Arguments → List Param
either annotations a =
    positional_params pos_or_kw annotations (required_pos a) (length a.posonlyargs) a.args

-- The parameters of a node are named as its arguments, positional only first and keyword only last;
-- and the defaults are those of the last positional parameters: the one at position i, among the
-- positional ones, is required exactly when i and the number of defaults are together below the
-- number of positional ones.
pub params_of_node :
    (annotations : List (Option Text)) (a : Arguments)
    → (map (λ p. p.name) (node_params annotations a)
        ≡ (a.posonlyargs ++ a.args) ++ map (λ b. b.0) a.kwonlyargs)
      × ((i : ℕ) (p : Param)
          → i < length a.posonlyargs + length a.args
          → get_elem? (node_params annotations a) i ≡ some p
          → (p.required ≡ true) ↔ (i + length a.defaults < length a.posonlyargs + length a.args))
unfolding node_params
params_of_node annotations a = (
  three_parts (only annotations a) (either annotations a)
      (kwonly_params annotations (length a.posonlyargs + length a.args) a.kwonlyargs) a.posonlyargs
      a.args (map (λ b. b.0) a.kwonlyargs)
      (positional_names posonly annotations (required_pos a) 0 a.posonlyargs)
      (positional_names pos_or_kw annotations (required_pos a) (length a.posonlyargs) a.args)
      (kwonly_names annotations (length a.posonlyargs + length a.args) a.kwonlyargs),
  λ i p l h. elim (at_append (only annotations a ++ either annotations a) _ i p h) [
    | inl (m, e) ↦ elim (at_append (only annotations a) (either annotations a) i p e) [
      | inl (n, f) ↦ position i (0 + i) p (positional_at _ _ _ _ _ i p f).2 (omega arith)
      | inr (j, n, f) ↦
          position i (length a.posonlyargs + j) p (positional_at _ _ _ _ _ j p f).2 (
            omega
              (arith, n, length-positional posonly annotations (required_pos a) 0 a.posonlyargs))
    ]
    | inr (j, m, e) ↦
        let no : ⊥ = omega (
          arith,
          l,
          m,
          length-append (only annotations a) (either annotations a),
          length-positional posonly annotations (required_pos a) 0 a.posonlyargs,
          length-positional pos_or_kw annotations (required_pos a) (length a.posonlyargs) a.args,
        ) in
        absurd no
  ],
)
  where
    position :
        (i n : ℕ) (p : Param)
        → p.required ≡ ltb n (required_pos a)
        → i ≡ n
        → (p.required ≡ true) ↔ (i + length a.defaults < length a.posonlyargs + length a.args)
    position i n p h e = ground (arith, h, e)
