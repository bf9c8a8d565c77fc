-- ===== src/Structure/Layers/Kinds.antt =====
-- Which uses between two places the order of the layers forbids.
use python_arch_testing.Base.{
  Bool, Bool-cases, List, Option, Text, [], ap, arith, drop, eq_text, false, get_elem?,
  if◌then◌else◌, inl, inr, ltb, nat_eq, nat_eq_iff, none, refl, some, suc, sym, take, true, zero, ℕ,
  ◌+◌, ◌-◌, ◌<◌, ◌↔◌, ◌∙◌, ◌∷◌, ◌≡◌,
}
use python_arch_testing.Structure.Layers.{
  Layer, first_closed, ViolationKind, kind_of, sibling, skip, upward, sibling_kind, skip_kind,
}

module _ {A : Type 0} where
  get-drop : (n i : ℕ) (xs : List A) → get_elem? (drop n xs) i ≡ get_elem? xs (n + i)
  get-drop zero i xs = ap (get_elem? xs) (zero_plus i)
    where
      zero_plus : (i : ℕ) → i ≡ 0 + i
      zero_plus i = omega arith
  get-drop (suc n) i [] = refl
  get-drop (suc n) i (x ∷ xs) = get-drop n i xs ∙ ap (get_elem? (x ∷ xs)) (suc_plus n i)
    where
      suc_plus : (n i : ℕ) → suc (n + i) ≡ suc n + i
      suc_plus n i = omega arith

  get-take :
      (n i : ℕ) (xs : List A) → get_elem? (take n xs) i ≡ (if ltb i n then get_elem? xs i else none)
  get-take zero i xs = ground arith
  get-take (suc n) i [] = ground arith
  get-take (suc n) zero (x ∷ xs) = ground arith
  get-take (suc n) (suc i) (x ∷ xs) = ground (arith, get-take n i xs)

-- A closed layer at an index.
abbrev pub ClosedAt : List Layer → ℕ → Type 0
ClosedAt layers i = (layer : Layer) × (get_elem? layers i ≡ some layer) × (layer.closed ≡ true)

first_here :
    (layer : Layer) (layers : List Layer)
    → layer.closed ≡ true
    → first_closed (layer ∷ layers) ≡ some layer
unfolding first_closed
first_here layer layers h = ap (λ b. if b then some layer else first_closed layers) h

first_later :
    (layer : Layer) (layers : List Layer)
    → layer.closed ≡ false
    → first_closed (layer ∷ layers) ≡ first_closed layers
unfolding first_closed
first_later layer layers h = ap (λ b. if b then some layer else first_closed layers) h

no_closed : (l : Layer) → ¬ (first_closed [] ≡ some l)
unfolding first_closed
no_closed l h = cc h

first_closed_iff :
    (layers : List Layer)
    → ((layer : Layer) × (first_closed layers ≡ some layer)) ↔ ((i : ℕ) × ClosedAt layers i)
first_closed_iff [] = (λ w. absurd (no_closed w.0 w.1), λ w. cc w.1.1)
first_closed_iff (layer ∷ layers) = elim (Bool-cases layer.closed) [
  | inl h ↦ (λ _. (0, (layer, refl, h)), λ _. (layer, first_here layer layers h))
  | inr h ↦ (
    λ w.
        let (i, c) = (first_closed_iff layers).0 (w.0, sym (first_later layer layers h) ∙ w.1) in
        (suc i, c),
    λ w.
        let (l, e) = (first_closed_iff layers).1 (later h w.0 w.1) in
        (l, first_later layer layers h ∙ e),
  )
]
  where
    later :
        layer.closed ≡ false → (i : ℕ) → ClosedAt (layer ∷ layers) i → (j : ℕ) × ClosedAt layers j
    later h zero (l, e, c) =
        absurd (cc (h, c, ap (λ o. elim o [ none ↦ false | some k ↦ k.closed ]) e))
    later h (suc i) c = (i, c)

abbrev between : ℕ → ℕ → List Layer → List Layer
between low high layers = drop (suc low) (take high layers)

get-between :
    (low high i : ℕ) (layers : List Layer)
    → get_elem? (between low high layers) i
      ≡ (if ltb (suc low + i) high then get_elem? layers (suc low + i) else none)
get-between low high i layers =
    get-drop (suc low) i (take high layers) ∙ get-take high (suc low + i) layers

between_iff :
    (low high : ℕ) (layers : List Layer)
    → ((i : ℕ) × ClosedAt (between low high layers) i)
      ↔ ((i : ℕ) × (low < i) × (i < high) × ClosedAt layers i)
between_iff low high layers = (to, from)
  where
    to :
        (i : ℕ) × ClosedAt (between low high layers) i
        → (i : ℕ) × (low < i) × (i < high) × ClosedAt layers i
    to (i, (l, e, c)) = elim (Bool-cases (ltb (suc low + i) high)) [
      | inl h ↦ (
        suc low + i,
        above low i,
        below (suc low + i) high h,
        (
          l,
          ap (λ b. if b then get_elem? layers (suc low + i) else none) (sym h)
              ∙ sym (get-between low high i layers)
              ∙ e,
          c,
        ),
      )
      | inr h ↦ absurd (
          nothing (
            ap (λ b. if b then get_elem? layers (suc low + i) else none) (sym h)
            ∙ sym (get-between low high i layers)
            ∙ e))
    ]
      where
        nothing : ◌≡◌ {A = Option Layer} none (some l) → ⊥
        nothing h = cc h

        above : (low i : ℕ) → low < suc low + i
        above low i = omega arith

        below : (a b : ℕ) → ltb a b ≡ true → a < b
        below a b h = ground arith

    from :
        (i : ℕ) × (low < i) × (i < high) × ClosedAt layers i
        → (i : ℕ) × ClosedAt (between low high layers) i
    from (i, lo, hi, (l, e, c)) = (
      i - suc low,
      (
        l,
        get-between low high (i - suc low) layers
            ∙ ap (λ j. if ltb j high then get_elem? layers j else none) (back low i lo)
            ∙ ap (λ b. if b then get_elem? layers i else none) (test i high hi)
            ∙ e,
        c,
      ),
    )
      where
        back : (low i : ℕ) → low < i → suc low + (i - suc low) ≡ i
        back low i lo = omega arith

        test : (i high : ℕ) → i < high → ltb i high ≡ true
        test i high hi = ground arith

-- The uses that the order forbids.
abbrev pub Forbids : ℕ → ℕ → List Layer → ViolationKind → Type 0
Forbids origin target layers upward = target < origin
Forbids origin target layers sibling =
    (target ≡ origin)
    × ((layer : Layer) × (get_elem? layers origin ≡ some layer) × (layer.independent ≡ true))
Forbids origin target layers skip =
    (origin < target) × ((i : ℕ) × (origin < i) × (i < target) × ClosedAt layers i)

abbrev Gives : Option (ViolationKind × Text) → ViolationKind → Type 0
Gives o k = (s : Text) × (o ≡ some (k, s))

Gives-some : (k j : ViolationKind) (s : Text) → Gives (some (k, s)) j ↔ (k ≡ j)
Gives-some k j s = (λ w. cc w.1, λ p. (s, ap (λ z. some (z, s)) p))

Gives-none : (j : ViolationKind) → ¬ Gives none j
Gives-none j w = cc w.1

abbrev independent_of : Option Layer → Bool
independent_of none = false
independent_of (some layer) = layer.independent

iff_trans : {A B C : Type 0} → A ↔ B → B ↔ C → A ↔ C
iff_trans f g = (λ a. g.0 (f.0 a), λ c. f.1 (g.1 c))

only_upward :
    (o t : ℕ) (layers : List Layer)
    → t < o
    → (k : ViolationKind) → (upward ≡ k) ↔ Forbids o t layers k
only_upward o t layers h upward = (λ _. h, λ _. refl)
only_upward o t layers h sibling = (λ p. cc p, λ f. let no : ⊥ = omega (arith, h, f.0) in absurd no)
only_upward o t layers h skip = (λ p. cc p, λ f. let no : ⊥ = omega (arith, h, f.0) in absurd no)

only_sibling :
    (o t : ℕ) (layers : List Layer)
    → t ≡ o
    → (k : ViolationKind) → (found : Option Layer) → get_elem? layers o ≡ found
    → Gives (sibling_kind found) k ↔ Forbids o t layers k
unfolding sibling_kind
only_sibling o t layers h upward none g =
    (λ w. cc w.1, λ f. let no : ⊥ = omega (arith, h, f) in absurd no)
only_sibling o t layers h sibling none g = (λ w. cc w.1, λ f. absurd (cc (g, f.1.1)))
only_sibling o t layers h skip none g =
    (λ w. cc w.1, λ f. let no : ⊥ = omega (arith, h, f.0) in absurd no)
only_sibling o t layers h k (some layer) g = elim (Bool-cases layer.independent) [
  | inl i ↦ iff_trans (independent i) (iff_trans (Gives-some sibling k []) (is_sibling i k))
  | inr i ↦ (
    λ w.
        absurd (Gives-none k (w.0, sym (ap (λ b. if b then some (sibling, []) else none) i) ∙ w.1)),
    λ f. absurd (dependent i k f),
  )
]
  where
    independent :
        layer.independent ≡ true
        → Gives (if layer.independent then some (sibling, []) else none) k
          ↔ Gives (some (sibling, [])) k
    independent i = (
      λ w. (w.0, sym (ap (λ b. if b then some (sibling, []) else none) i) ∙ w.1),
      λ w. (w.0, ap (λ b. if b then some (sibling, []) else none) i ∙ w.1),
    )

    is_sibling :
        layer.independent ≡ true → (k : ViolationKind) → (sibling ≡ k) ↔ Forbids o t layers k
    is_sibling i upward = (λ p. cc p, λ f. let no : ⊥ = omega (arith, h, f) in absurd no)
    is_sibling i sibling = (λ _. (h, (layer, g, i)), λ _. refl)
    is_sibling i skip = (λ p. cc p, λ f. let no : ⊥ = omega (arith, h, f.0) in absurd no)

    dependent : layer.independent ≡ false → (k : ViolationKind) → ¬ Forbids o t layers k
    dependent i upward f = let no : ⊥ = omega (arith, h, f) in no
    dependent i sibling (p, (l, e, j)) = cc (i, j, ap independent_of (sym g ∙ e))
    dependent i skip f = let no : ⊥ = omega (arith, h, f.0) in no

only_skip :
    (o t : ℕ) (layers : List Layer)
    → o < t
    → (k : ViolationKind) → (found : Option Layer) → first_closed (between o t layers) ≡ found
    → Gives (skip_kind found) k ↔ Forbids o t layers k
unfolding skip_kind
only_skip o t layers h k none g = (λ w. cc w.1, λ f. absurd (open_between k f))
  where
    open_between : (k : ViolationKind) → ¬ Forbids o t layers k
    open_between upward f = let no : ⊥ = omega (arith, h, f) in no
    open_between sibling f = let no : ⊥ = omega (arith, h, f.0) in no
    open_between skip f =
        let (l, e) = (first_closed_iff (between o t layers)).1 ((between_iff o t layers).1 f.1) in
        cc (g, e)
only_skip o t layers h k (some layer) g = iff_trans (Gives-some skip k _) (is_skip k)
  where
    is_skip : (k : ViolationKind) → (skip ≡ k) ↔ Forbids o t layers k
    is_skip upward = (λ p. cc p, λ f. let no : ⊥ = omega (arith, h, f) in absurd no)
    is_skip sibling = (λ p. cc p, λ f. let no : ⊥ = omega (arith, h, f.0) in absurd no)
    is_skip skip = (
      λ _. (h, (between_iff o t layers).0 ((first_closed_iff (between o t layers)).0 (layer, g))),
      λ _. refl,
    )

-- A use of one place by another is a violation of a kind just when the order forbids it so: the
-- user is below, both are independent siblings, or a closed layer lies strictly between them.
pub kind_of_iff :
    (origin target : ℕ × Text) (layers : List Layer) (k : ViolationKind)
    → ((s : Text) × (kind_of origin target layers ≡ some (k, s)))
      ↔ Forbids origin.0 target.0 layers k
unfolding kind_of
kind_of_iff origin target layers k = elim (Bool-cases (ltb target.0 origin.0)) [
  | inl h ↦
      rw h (iff_trans (Gives-some upward k []) (only_upward origin.0 target.0 layers (lt h) k))
  | inr h ↦ elim (Bool-cases (nat_eq target.0 origin.0)) [
    | inl q ↦
        rw (h, q)
          (only_sibling origin.0 target.0 layers ((nat_eq_iff target.0 origin.0).0 q) k
            (get_elem? layers origin.0) refl)
    | inr q ↦
        rw (h, q)
          (only_skip origin.0 target.0 layers (gt h q) k
            (first_closed (drop (suc origin.0) (take target.0 layers))) refl)
  ]
]
  where
    lt : ltb target.0 origin.0 ≡ true → target.0 < origin.0
    lt h = ground arith

    gt : ltb target.0 origin.0 ≡ false → nat_eq target.0 origin.0 ≡ false → origin.0 < target.0
    gt h q = ground arith
