-- ===== src/Architecture/Fold/Step.antt =====
-- One turn of the loop of `fold_new_modules`: the edges that it leaves.
use python_arch_testing.Base.{
  Bool-cases, Dict, In, In-distinct, In-keys-set_default, List, Text, [], ap, arith, beq_false,
  eq_text, false, filter, if◌then◌else◌, inl, inr, keys, map, not, refl, set_default, subst, sym,
  text_eq_iff, ◌&&◌, ◌==◌, ◌↔◌, ◌∙◌, ◌∷◌, ◌≡◌, ◌≢◌, ◌⊎◌,
}
use python_arch_testing.Architecture.Edges.{Edge, eq_arrow}
use python_arch_testing.Architecture.Fold.{add_starts, fold_edges, users_of}

-- An edge that the turn makes from an edge of `items`.
abbrev Taken : Text → List Text → Text → Text → Text → Type 0
Taken x users o a b = (b ≢ x) × (a ≢ b) × ((o ≢ x) × (a ≡ o) ⊎ (o ≡ x) × In a users)

module _ {T : Type 0} where
  In-add_starts :
      (starts : List Text) (end : Text) (value : T) (folded : Dict Edge T) (a b : Text)
      → In (a, b) (keys (add_starts starts end value folded))
        ↔ (In (a, b) (keys folded) ⊎ In a starts × (b ≡ end) × (a ≢ b))
  unfolding add_starts
  In-add_starts [] end value folded a b = ground arith
  In-add_starts (s ∷ starts) end value folded a b = elim (Bool-cases (s == end)) [
    | inl h ↦ rw h (ground (arith, text_eq_iff s end, In-add_starts starts end value folded a b))
    | inr h ↦ rw h (
        ground (
          arith,
          text_eq_iff s end,
          In-add_starts starts end value (set_default ⦃e = eq_arrow⦄ (s, end) value folded) a b,
          In-keys-set_default ⦃e = eq_arrow⦄ (s, end) (a, b) value folded,
        ))
  ]

  Taken-iff :
      (x o : Text) (users : List Text) (end : Text) (value : T) (folded : Dict Edge T) (a b : Text)
      → end ≢ x
      → In (a, b) (keys (add_starts (if o == x then users else o ∷ []) end value folded))
        ↔ (In (a, b) (keys folded) ⊎ (b ≡ end) × Taken x users o a b)
  Taken-iff x o users end value folded a b n = elim (Bool-cases (o == x)) [
    | inl h ↦ rw h (ground (arith, text_eq_iff o x, In-add_starts users end value folded a b))
    | inr h ↦ rw h (ground (arith, text_eq_iff o x, In-add_starts (o ∷ []) end value folded a b))
  ]

  abbrev Takes : Text → List Text → Dict Edge T → Text → Text → Type 0
  Takes x users items a b = (o : Text) × In (o, b) (keys items) × Taken x users o a b

  Takes-cons :
      (x : Text) (users : List Text) (o e : Text) (v : T) (items : Dict Edge T) (a b : Text)
      → Takes x users (((o, e), v) ∷ items) a b
        ↔ ((b ≡ e) × Taken x users o a b ⊎ Takes x users items a b)
  Takes-cons x users o e v items a b = (split, join)
    where
      split :
          Takes x users (((o, e), v) ∷ items) a b
          → (b ≡ e) × Taken x users o a b ⊎ Takes x users items a b
      split (w, inl p, t) =
          inl (ap (λ z. z.1) p, subst (λ z. Taken x users z a b) (ap (λ z. z.0) p) t)
      split (w, inr m, t) = inr (w, m, t)

      join :
          (b ≡ e) × Taken x users o a b ⊎ Takes x users items a b
          → Takes x users (((o, e), v) ∷ items) a b
      join (inl (q, t)) = (o, inl (rw q refl), t)
      join (inr (w, m, t)) = (w, inr m, t)

  In-fold_edges :
      (x : Text) (users : List Text) (items folded : Dict Edge T) (a b : Text)
      → In (a, b) (keys (fold_edges x users items folded))
        ↔ (In (a, b) (keys folded) ⊎ Takes x users items a b)
  unfolding fold_edges
  In-fold_edges x users [] folded a b = (inl, λ c. elim c [ inl m ↦ m | inr w ↦ absurd w.1 ])
  In-fold_edges x users (((o, e), v) ∷ items) folded a b = elim (Bool-cases (e == x)) [
    | inl h ↦ rw h (
      λ m. elim ((In-fold_edges x users items folded a b).0 m) [
        | inl n ↦ inl n
        | inr t ↦ inr ((Takes-cons x users o e v items a b).1 (inr t))
      ],
      λ c. (In-fold_edges x users items folded a b).1 (elim c [
        | inl n ↦ inl n
        | inr t ↦ elim ((Takes-cons x users o e v items a b).0 t) [
          | inl (q, k) ↦ absurd (k.0 (q ∙ (text_eq_iff e x).0 h))
          | inr t ↦ inr t
        ]
      ]),
    )
    | inr h ↦ rw h (
      λ m. elim ((In-fold_edges x users items (next h) a b).0 m) [
        | inl n ↦ elim ((made h).0 n) [
          | inl old ↦ inl old
          | inr t ↦ inr ((Takes-cons x users o e v items a b).1 (inl t))
        ]
        | inr t ↦ inr ((Takes-cons x users o e v items a b).1 (inr t))
      ],
      λ c. (In-fold_edges x users items (next h) a b).1 (elim c [
        | inl old ↦ inl ((made h).1 (inl old))
        | inr t ↦ elim ((Takes-cons x users o e v items a b).0 t) [
          | inl k ↦ inl ((made h).1 (inr k))
          | inr k ↦ inr k
        ]
      ]),
    )
  ]
    where
      next : (e == x) ≡ false → Dict Edge T
      next h = add_starts (if o == x then users else o ∷ []) e v folded

      made :
          (e == x) ≡ false
          → In (a, b) (keys (add_starts (if o == x then users else o ∷ []) e v folded))
            ↔ (In (a, b) (keys folded) ⊎ (b ≡ e) × Taken x users o a b)
      made h = Taken-iff x o users e v folded a b (beq_false e x h)

  origins_of_uses :
      (x a : Text) (current : Dict Edge T)
      → In a
          (map (λ item. item.0.0) (filter (λ item. item.0.1 == x && not (item.0.0 == x)) current))
        ↔ (In (a, x) (keys current) × (a ≢ x))
  origins_of_uses x a [] = ground arith
  origins_of_uses x a (((o, e), v) ∷ items) = elim (Bool-cases (e == x && not (o == x))) [
    | inl h ↦ rw h (ground (arith, text_eq_iff e x, text_eq_iff o x, origins_of_uses x a items))
    | inr h ↦ rw h (ground (arith, text_eq_iff e x, text_eq_iff o x, origins_of_uses x a items))
  ]

  In-users_of :
      (x a : Text) (current : Dict Edge T)
      → In a (users_of x current) ↔ (In (a, x) (keys current) × (a ≢ x))
  unfolding users_of
  In-users_of x a current = ground (
    arith,
    origins_of_uses x a current,
    In-distinct a
        (map (λ item. item.0.0) (filter (λ item. item.0.1 == x && not (item.0.0 == x)) current)),
  )

  -- The edges after the turn that folds `x` away.
  pub turn_iff :
      (x : Text) (current : Dict Edge T) (a b : Text)
      → In (a, b) (keys (fold_edges x (users_of x current) current [])) ↔ (
          (a ≢ x)
          × (b ≢ x)
          × (a ≢ b)
          × (In (a, b) (keys current) ⊎ In (a, x) (keys current) × In (x, b) (keys current)))
  turn_iff x current a b = (split, join)
    where
      split :
          In (a, b) (keys (fold_edges x (users_of x current) current []))
          → (a ≢ x)
            × (b ≢ x)
            × (a ≢ b)
            × (In (a, b) (keys current) ⊎ In (a, x) (keys current) × In (x, b) (keys current))
      split m = elim ((In-fold_edges x (users_of x current) current [] a b).0 m) [
        | inl n ↦ absurd n
        | inr (o, n, (bx, ab, inl (ox, ao))) ↦
            (λ p. ox (sym ao ∙ p), bx, ab, inl (subst (λ z. In (z, b) (keys current)) (sym ao) n))
        | inr (o, n, (bx, ab, inr (ox, u))) ↦
            let (ax, away) = (In-users_of x a current).0 u in
            (away, bx, ab, inr (ax, subst (λ z. In (z, b) (keys current)) ox n))
      ]

      join :
          (a ≢ x)
            × (b ≢ x)
            × (a ≢ b)
            × (In (a, b) (keys current) ⊎ In (a, x) (keys current) × In (x, b) (keys current))
          → In (a, b) (keys (fold_edges x (users_of x current) current []))
      join (ax, bx, ab, inl m) =
          (In-fold_edges x (users_of x current) current [] a b).1
            (inr (a, m, (bx, ab, inl (ax, refl))))
      join (ax, bx, ab, inr (m, n)) =
          (In-fold_edges x (users_of x current) current [] a b).1
            (inr (x, n, (bx, ab, inr (refl, (In-users_of x a current).1 (m, ax)))))
