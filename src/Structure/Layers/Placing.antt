-- ===== src/Structure/Layers/Placing.antt =====
-- execution/module_structure.py, `_placement`: where a module is placed.
use python_arch_testing.Base.{
  Bool-cases, In, List, Option, Option-cases, Text, [], ap, arith, eq_text, false, if◌then◌else◌,
  inl, inr, length, ltb, none, some, subst, suc, sym, true, ℕ, ◌&&◌, ◌↔◌, ◌∷◌, ◌≡◌, ◌≤◌, ◌⊎◌,
}
use python_arch_testing.Names.{in_module}
use python_arch_testing.Structure.Layers.{Layer, place_members, is_better, place_layers, placement}

-- A placement is one of these: the member of a layer at a position, that contains the name.
abbrev pub Member : Text → ℕ → List Layer → ℕ × Text → Type 0
Member name position [] b = ⊥
Member name position (layer ∷ layers) b =
    (b.0 ≡ position) × In b.1 layer.modules × (in_module name b.1 ≡ true)
    ⊎ Member name (suc position) layers b

abbrev LongestYet : Option (ℕ × Text) → ℕ → Type 0
LongestYet none n = ⊥
LongestYet (some b) n = n ≤ length b.1

abbrev IsBest : Option (ℕ × Text) → Option (ℕ × Text) → (ℕ × Text → Type 0) → Type 0
IsBest best result P =
    ((b : ℕ × Text) → result ≡ some b → (best ≡ some b) ⊎ P b)
    × ((b : ℕ × Text) → (best ≡ some b) ⊎ P b → LongestYet result (length b.1))

LongestYet-le : (r : Option (ℕ × Text)) (m n : ℕ) → m ≤ n → LongestYet r n → LongestYet r m
LongestYet-le none m n h k = k
LongestYet-le (some b) m n h k = omega (arith, h, k)

compose :
    (a b c : Option (ℕ × Text)) (P Q : ℕ × Text → Type 0)
    → IsBest a b P
    → IsBest b c Q
    → IsBest a c (λ x. P x ⊎ Q x)
compose a b c P Q h k = (
  λ x e. elim (k.0 x e) [
    | inl p ↦ elim (h.0 x p) [ inl q ↦ inl q | inr q ↦ inr (inl q) ]
    | inr q ↦ inr (inr q)
  ],
  λ x o. elim o [
    | inl p ↦ through x (h.1 x (inl p))
    | inr q ↦ elim q [ inl p ↦ through x (h.1 x (inr p)) | inr r ↦ k.1 x (inr r) ]
  ],
)
  where
    through : (x : ℕ × Text) → LongestYet b (length x.1) → LongestYet c (length x.1)
    through x l = elim (Option-cases b) [
      | inl e ↦ absurd (subst (λ o. LongestYet o (length x.1)) e l)
      | inr (y, e) ↦
          LongestYet-le c (length x.1) (length y.1) (subst (λ o. LongestYet o (length x.1)) e l)
            (k.1 y (inl e))
    ]

same_best :
    (a b : Option (ℕ × Text)) (P Q : ℕ × Text → Type 0)
    → ((x : ℕ × Text) → P x ↔ Q x)
    → IsBest a b P
    → IsBest a b Q
same_best a b P Q s h = (
  λ x e. elim (h.0 x e) [ inl p ↦ inl p | inr p ↦ inr ((s x).0 p) ],
  λ x o. h.1 x (elim o [ inl p ↦ inl p | inr q ↦ inr ((s x).1 q) ]),
)

stay :
    (a : Option (ℕ × Text)) (P : ℕ × Text → Type 0)
    → ((x : ℕ × Text) → P x → LongestYet a (length x.1))
    → IsBest a a P
stay a P h = (
  λ x e. inl e,
  λ x o. elim o [
    | inl p ↦ subst (λ o. LongestYet o (length x.1)) (sym p) (self (length x.1))
    | inr q ↦ h x q
  ],
)
  where
    self : (n : ℕ) → n ≤ n
    self n = omega arith

ltb-le : (a b : ℕ) → ltb a b ≡ true → a ≤ b
ltb-le a b h = ground arith

not_better :
    (m : Text) (best : Option (ℕ × Text)) → is_better m best ≡ false → LongestYet best (length m)
not_better m none h = cc
not_better m (some b) h = ground arith

place_one :
    (name : Text) (position : ℕ) (m : Text) (best : Option (ℕ × Text))
    → IsBest best
        (if in_module name m && is_better m best then some (position, m) else best)
        (λ b. (b.0 ≡ position) × (b.1 ≡ m) × (in_module name b.1 ≡ true))
place_one name position m best = elim (Bool-cases (in_module name m)) [
  | inl i ↦ elim (Bool-cases (is_better m best)) [
    | inl h ↦
        rw (i, h)
          (
            λ x e. inr (
              ap (λ z. z.0) (taken e),
              ap (λ z. z.1) (taken e),
              subst (λ z. in_module name z ≡ true) (sym (ap (λ z. z.1) (taken e))) i,
            ),
            λ x o. elim o [ inl p ↦ shorter x p h | inr q ↦ same_length x q.1 ],
          )
    | inr h ↦ rw (i, h) (stay best _ (λ x q. no_better x q.1 h))
  ]
  | inr i ↦ rw i (stay best _ (λ x q. absurd (cc (i, q.2, ap (in_module name) q.1))))
]
  where
    taken : {x : ℕ × Text} → some (position, m) ≡ some x → x ≡ (position, m)
    taken e = cc e

    shorter : (x : ℕ × Text) → best ≡ some x → is_better m best ≡ true → length x.1 ≤ length m
    shorter x p h = ltb-le (length x.1) (length m) (subst (λ o. is_better m o ≡ true) p h)

    same_length : (x : ℕ × Text) → x.1 ≡ m → length x.1 ≤ length m
    same_length x p = omega (arith, ap length p)

    no_better : (x : ℕ × Text) → x.1 ≡ m → is_better m best ≡ false → LongestYet best (length x.1)
    no_better x p h = subst (λ z. LongestYet best (length z)) (sym p) (not_better m best h)

place_members_lem :
    (name : Text) (position : ℕ) (members : List Text) (best : Option (ℕ × Text))
    → IsBest best
        (place_members name position members best)
        (λ b. (b.0 ≡ position) × In b.1 members × (in_module name b.1 ≡ true))
unfolding place_members
place_members_lem name position [] best = stay best _ (λ x q. absurd q.1)
place_members_lem name position (m ∷ members) best =
    same_best best _ _ _ (λ x. split x)
      (compose best _ _ _ _ (place_one name position m best)
        (place_members_lem name position members _))
  where
    split :
        (b : ℕ × Text)
        → ((b.0 ≡ position) × (b.1 ≡ m) × (in_module name b.1 ≡ true)
            ⊎ (b.0 ≡ position) × In b.1 members × (in_module name b.1 ≡ true))
          ↔ ((b.0 ≡ position) × In b.1 (m ∷ members) × (in_module name b.1 ≡ true))
    split b = (
      λ c. elim c [ inl q ↦ (q.0, inl q.1, q.2) | inr q ↦ (q.0, inr q.1, q.2) ],
      λ q. elim q.1 [ inl p ↦ inl (q.0, p, q.2) | inr p ↦ inr (q.0, p, q.2) ],
    )

place_layers_lem :
    (name : Text) (position : ℕ) (layers : List Layer) (best : Option (ℕ × Text))
    → IsBest best (place_layers name position layers best) (Member name position layers)
unfolding place_layers
place_layers_lem name position [] best = stay best _ (λ x q. absurd q)
place_layers_lem name position (layer ∷ layers) best =
    compose best _ _ _ _ (place_members_lem name position layer.modules best)
      (place_layers_lem name (suc position) layers _)

-- The placement of a module is at a member of a layer that the module is or lies in, and no other
-- such member is longer; without a placement there is no such member.
pub placement_longest :
    (name : Text) (layers : List Layer)
    → ((b : ℕ × Text)
        → placement name layers ≡ some b
        → Member name 0 layers b
          × ((c : ℕ × Text) → Member name 0 layers c → length c.1 ≤ length b.1))
      × (placement name layers ≡ none → (c : ℕ × Text) → ¬ Member name 0 layers c)
unfolding placement
placement_longest name layers = (
  λ b e. (
    elim ((place_layers_lem name 0 layers none).0 b e) [ inl p ↦ absurd (cc p) | inr m ↦ m ],
    λ c m.
        subst (λ o. LongestYet o (length c.1)) e
          ((place_layers_lem name 0 layers none).1 c (inr m)),
  ),
  λ e c m.
      subst (λ o. LongestYet o (length c.1)) e ((place_layers_lem name 0 layers none).1 c (inr m)),
)
