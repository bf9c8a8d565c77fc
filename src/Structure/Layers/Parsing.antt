-- ===== src/Structure/Layers/Parsing.antt =====
-- What a list of layers that `parse_layers` accepts is like.
use python_arch_testing.Base.{
  Bool, Bool-cases, In, List, Nodup, Text, [], all_of, any_of, any_of_iff, ap, arith, beq_refl,
  contains, contains_iff, eq_text, false, if◌then◌else◌, inl, inr, length, ltb, not, refl, subst,
  suc, sym, text_eq_iff, true, ℕ, ◌&&◌, ◌==◌, ◌↔◌, ◌∷◌, ◌≡◌, ◌≢◌, ◌≤◌,
}
use python_arch_testing.Structure.Layers.{
  Layer, count, parse_entries, parse_layer, parsed, LayerError, Parsed, check_layers, closed_lowest,
  cons_parsed, empty_module, layer_of, lowest_closed, mixed_delimiters, named_modules, parse_layers,
  raised, repeated_module, then_parsed, unknown_closed,
}

-- What is checked of one layer.
pub record WellNamed (closed : List Text) (layer : Layer) : Type 0 where
  pub no_empty : (m : Text) → In m layer.modules → m ≢ []
  pub closed_iff : (layer.closed ≡ true) ↔ ((m : Text) × In m layer.modules × In m closed)

all_of-true :
    {A : Type 0} (p : A → Bool) (xs : List A) → all_of p xs ≡ true → (a : A) → In a xs → p a ≡ true
all_of-true p [] h a m = absurd m
all_of-true p (x ∷ xs) h a (inl e) =
    subst (λ z. p z ≡ true) (sym e) (head_true (p x) (all_of p xs) h)
  where
    head_true : (b c : Bool) → b && c ≡ true → b ≡ true
    head_true b c h = ground arith
all_of-true p (x ∷ xs) h a (inr m) = all_of-true p xs (tail_true (p x) (all_of p xs) h) a m
  where
    tail_true : (b c : Bool) → b && c ≡ true → c ≡ true
    tail_true b c h = ground arith

any_closed_iff :
    (closed names : List Text)
    → (any_of (contains closed) names ≡ true) ↔ ((m : Text) × In m names × In m closed)
any_closed_iff closed names = (
  λ h.
      let (m, i, c) = (any_of_iff (contains closed) names).0 h in
      (m, i, (contains_iff closed m).0 c),
  λ w. (any_of_iff (contains closed) names).1 (w.0, w.1, (contains_iff closed w.0).1 w.2),
)

In-count : (m : Text) (ns : List Text) → In m ns → 1 ≤ count m ns
unfolding count
In-count m [] i = absurd i
In-count m (n ∷ ns) i = ground (arith, text_eq_iff n m, In-count m ns)

count-cons-le : (m n : Text) (ns : List Text) → count m ns ≤ count m (n ∷ ns)
unfolding count
count-cons-le m n ns = ground arith

count_self : (n : Text) (ns : List Text) → count n (n ∷ ns) ≡ suc (count n ns)
unfolding count
count_self n ns = rw (beq_refl n) refl

count-Nodup : (ns : List Text) → ((m : Text) → In m ns → count m ns ≤ 1) → Nodup ns
count-Nodup [] h = tt
count-Nodup (n ∷ ns) h = (
  λ i. let no : ⊥ = omega (arith, h n (inl refl), In-count n ns i, count_self n ns) in absurd no,
  count-Nodup ns (λ m i. omega (arith, h m (inr i), count-cons-le m n ns)),
)

any_of-false :
    {A : Type 0} (p : A → Bool) (xs : List A)
    → any_of p xs ≡ false
    → (a : A) → In a xs
    → p a ≡ false
any_of-false p xs h a m = elim (Bool-cases (p a)) [
  | inl t ↦ absurd (cc (h, (any_of_iff p xs).1 (a, m, t)))
  | inr f ↦ f
]

-- A guard that did not raise.
past_guard :
    {A : Type 0} (b : Bool) (e : LayerError) (x : Parsed A) (r : A)
    → (if b then raised e else x) ≡ parsed r
    → (b ≡ false) × (x ≡ parsed r)
past_guard true e x r h = cc
past_guard false e x r h = (refl, h)

parsed_inj : {A : Type 0} (a b : A) → ◌≡◌ {A = Parsed A} (parsed a) (parsed b) → a ≡ b
parsed_inj a b h = cc h

cons_parsed_lem :
    (l : Parsed Layer) (ls : Parsed (List Layer)) (r : List Layer)
    → cons_parsed l ls ≡ parsed r
    → (a : Layer) × (rest : List Layer) × (l ≡ parsed a) × (ls ≡ parsed rest) × (r ≡ a ∷ rest)
cons_parsed_lem (raised e) ls r h = cc
cons_parsed_lem (parsed a) (raised e) r h = cc
cons_parsed_lem (parsed a) (parsed rest) r h =
    (a, rest, refl, refl, sym (parsed_inj (a ∷ rest) r h))

then_parsed_lem :
    {A B : Type 0} (p : Parsed A) (f : A → Parsed B) (r : B)
    → then_parsed p f ≡ parsed r
    → (a : A) × (p ≡ parsed a) × (f a ≡ parsed r)
then_parsed_lem (raised e) f r h = cc
then_parsed_lem (parsed a) f r h = (a, refl, h)

layer_of-WellNamed :
    (closed : List Text) (siblings : Bool) (names : List Text) (layer : Layer)
    → layer_of closed siblings names ≡ parsed layer
    → WellNamed closed layer
unfolding layer_of
layer_of-WellNamed closed siblings names layer h =
    let (full, e) = past_guard (not (all_of (λ m. not (m == [])) names)) empty_module _ layer h in
    subst (WellNamed closed) (parsed_inj _ layer e) (record {
      no_empty = λ m i p.
          not_empty m
            (all_of-true (λ m. not (m == [])) names
              (not_false (all_of (λ m. not (m == [])) names) full) m i)
            p;
      closed_iff = any_closed_iff closed names;
    })
  where
    not_false : (b : Bool) → not b ≡ false → b ≡ true
    not_false b k = ground arith

    not_empty : (m : Text) → not (m == []) ≡ true → m ≢ []
    not_empty m k p = ground (arith, text_eq_iff m [])

-- What the whole list is checked for.
pub record WellLayered (closed : List Text) (layers : List Layer) : Type 0 where
  pub named_once : Nodup (named_modules layers)
  pub closed_named : (m : Text) → In m closed → In m (named_modules layers)
  pub lowest_open : lowest_closed layers ≡ false

check_layers-WellLayered :
    (closed : List Text) (layers r : List Layer)
    → check_layers closed layers ≡ parsed r
    → (layers ≡ r) × WellLayered closed layers
unfolding check_layers
check_layers-WellLayered closed layers r h =
    let (once, h₁) = past_guard _ repeated_module _ r h in
    let (known, h₂) = past_guard _ unknown_closed _ r h₁ in
    let (open_end, h₃) = past_guard _ closed_lowest _ r h₂ in
    (
      parsed_inj layers r h₃,
      record {
        named_once = count-Nodup (named_modules layers) (λ m i.
            at_most (count m (named_modules layers)) (
              any_of-false (λ m. ltb 1 (count m (named_modules layers))) (named_modules layers) once
                m i));
        closed_named = λ m i.
            named_of m
              (any_of-false (λ m. not (contains (named_modules layers) m)) closed known m i);
        lowest_open = open_end;
      },
    )
  where
    at_most : (n : ℕ) → ltb 1 n ≡ false → n ≤ 1
    at_most n k = ground arith

    named_of :
        (m : Text) → not (contains (named_modules layers) m) ≡ false → In m (named_modules layers)
    named_of m k = ground (arith, contains_iff (named_modules layers) m)

module _ (is_space : ℕ → Bool) where
  parse_layer-WellNamed :
      (closed : List Text) (entry : Text) (layer : Layer)
      → parse_layer is_space closed entry ≡ parsed layer
      → WellNamed closed layer
  unfolding parse_layer
  parse_layer-WellNamed closed entry layer h =
      layer_of-WellNamed closed _ _ layer ((past_guard _ mixed_delimiters _ layer h).1)

  parse_entries-WellNamed :
      (closed raw : List Text) (layers : List Layer)
      → parse_entries is_space closed raw ≡ parsed layers
      → (length layers ≡ length raw) × ((layer : Layer) → In layer layers → WellNamed closed layer)
  unfolding parse_entries
  parse_entries-WellNamed closed [] layers h =
      subst (λ ls. (length ls ≡ 0) × ((layer : Layer) → In layer ls → WellNamed closed layer))
        (parsed_inj [] layers h) (refl, λ layer m. absurd m)
  parse_entries-WellNamed closed (entry ∷ raw) layers h =
      let (a, rest, p, q, e) =
        cons_parsed_lem (parse_layer is_space closed entry) (parse_entries is_space closed raw)
          layers h in
      let (n, all) = parse_entries-WellNamed closed raw rest q in
      subst
        (λ ls.
          (length ls ≡ suc (length raw)) × ((layer : Layer) → In layer ls → WellNamed closed layer))
        (sym e)
        (
          ap suc n,
          λ layer m. elim m [
            | inl r ↦ subst (WellNamed closed) (sym r) (parse_layer-WellNamed closed entry a p)
            | inr i ↦ all layer i
          ],
        )

  -- A list of layers that is accepted has a layer for each entry, whose modules have names and
  -- which is closed just when one of them is named so; no module stands in two layers or twice in
  -- one, every module named closed is in a layer, and the lowest layer is not closed.
  pub parse_layers_accepts :
      (raw closed : List Text) (layers : List Layer)
      → parse_layers is_space raw closed ≡ parsed layers
      → (length layers ≡ length raw)
        × ((layer : Layer) → In layer layers → WellNamed closed layer)
        × WellLayered closed layers
  unfolding parse_layers
  parse_layers_accepts raw closed layers h =
      let (found, p, c) =
        then_parsed_lem (parse_entries is_space closed raw) (check_layers closed) layers h in
      let (same, well) = check_layers-WellLayered closed found layers c in
      let (n, all) = parse_entries-WellNamed closed raw found p in
      subst
        (λ ls.
          (length ls ≡ length raw)
          × ((layer : Layer) → In layer ls → WellNamed closed layer)
          × WellLayered closed ls)
        same (n, all, well)
