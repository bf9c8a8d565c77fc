-- ===== src/Architecture/Fold/Turns.antt =====
-- architecture/compare.py, `fold_new_modules`: the new modules that are left, turn by turn.
use python_arch_testing.Base.{
  Bool-cases, Dict, In, In-distinct, In-filter, In-sort_by, List, List-cases, Nodup, Nodup-sort_by,
  Text, [], ap, arith, contains, contains_iff, distinct, distinct-Nodup, eq_text, false, filter,
  inl, inr, keys, length, length-Subset, not, not_contains, refl, subst, suc, sym, text_le, true,
  zero, ℕ, ◌↔◌, ◌∷◌, ◌≡◌, ◌≢◌, ◌≤◌, ◌⊎◌,
}
use python_arch_testing.Architecture.Edges.{Edge}
use python_arch_testing.Architecture.Fold.{new_modules, endpoints, fold_edges, fold_loop, users_of}
use python_arch_testing.Architecture.Fold.Step.{turn_iff}
use python_arch_testing.Architecture.Fold.Paths.{Via, unfold_chain, fold_chain}

-- A module at one end of an edge.
abbrev pub Touches : List Edge → Text → Type 0
Touches edges m = (w : Text) × (In (m, w) edges ⊎ In (w, m) edges)

module _ {T : Type 0} where
  In-endpoints :
      (m : Text) (current : Dict Edge T) → In m (endpoints current) ↔ Touches (keys current) m
  unfolding endpoints
  In-endpoints m [] = (λ n. absurd n, λ t. elim t.1 [ inl n ↦ n | inr n ↦ n ])
  In-endpoints m (((o, e), v) ∷ items) =
      (split (In-endpoints m items).0, join (In-endpoints m items).1)
    where
      split :
          (In m (endpoints items) → Touches (keys items) m)
          → In m (endpoints (((o, e), v) ∷ items))
          → Touches (keys (((o, e), v) ∷ items)) m
      split ih (inl p) = (e, inl (inl (rw p refl)))
      split ih (inr (inl p)) = (o, inr (inl (rw p refl)))
      split ih (inr (inr n)) =
          let (w, t) = ih n in (w, elim t [ inl k ↦ inl (inr k) | inr k ↦ inr (inr k) ])

      join :
          (Touches (keys items) m → In m (endpoints items))
          → Touches (keys (((o, e), v) ∷ items)) m
          → In m (endpoints (((o, e), v) ∷ items))
      join ih (w, inl (inl p)) = inl (ap (λ z. z.0) p)
      join ih (w, inl (inr k)) = inr (inr (ih (w, inl k)))
      join ih (w, inr (inl p)) = inr (inl (ap (λ z. z.1) p))
      join ih (w, inr (inr k)) = inr (inr (ih (w, inr k)))

module _ {T : Type 0} (known : List Text) where
  pub In-new_modules :
      (m : Text) (current : Dict Edge T)
      → In m (new_modules known current) ↔ (Touches (keys current) m × (¬ In m known))
  unfolding new_modules
  In-new_modules m current = (
    λ n.
        let k = (In-filter (λ x. not (contains known x)) m (endpoints current)).0 (
          (In-distinct m (filter (λ x. not (contains known x)) (endpoints current))).0 (
            (In-sort_by text_le m
                (distinct (filter (λ x. not (contains known x)) (endpoints current)))).0
              n)) in
        ((In-endpoints m current).0 k.0, not_contains known m (unknown k.1)),
    λ t.
        (In-sort_by text_le m
            (distinct (filter (λ x. not (contains known x)) (endpoints current)))).1
          ((In-distinct m (filter (λ x. not (contains known x)) (endpoints current))).1 (
            (In-filter (λ x. not (contains known x)) m (endpoints current)).1
              ((In-endpoints m current).1 t.0, not_known t.1))),
  )
    where
      unknown : not (contains known m) ≡ true → contains known m ≡ false
      unknown h = ground arith

      not_known : ¬ In m known → not (contains known m) ≡ true
      not_known n = ground (arith, contains_iff known m)

  pub new_modules-Nodup : (current : Dict Edge T) → Nodup (new_modules known current)
  unfolding new_modules
  new_modules-Nodup current =
      Nodup-sort_by text_le (distinct (filter (λ x. not (contains known x)) (endpoints current)))
        (distinct-Nodup (filter (λ x. not (contains known x)) (endpoints current)))

  abbrev turn : Text → Dict Edge T → Dict Edge T
  turn x current = fold_edges x (users_of x current) current []

  turn-Touches :
      (x m : Text) (current : Dict Edge T)
      → Touches (keys (turn x current)) m
      → (m ≢ x) × Touches (keys current) m
  turn-Touches x m current (w, inl n) =
      let (mx, _, _, t) = (turn_iff x current m w).0 n in
      (mx, elim t [ inl k ↦ (w, inl k) | inr (k, _) ↦ (x, inl k) ])
  turn-Touches x m current (w, inr n) =
      let (_, mx, _, t) = (turn_iff x current w m).0 n in
      (mx, elim t [ inl k ↦ (w, inr k) | inr (_, k) ↦ (x, inr k) ])

  turn_shrinks :
      (x : Text) (rest : List Text) (current : Dict Edge T)
      → new_modules known current ≡ x ∷ rest
      → length (new_modules known (turn x current)) ≤ length rest
  turn_shrinks x rest current h = omega (
    arith,
    length-Subset (x ∷ new_modules known (turn x current)) (x ∷ rest)
        (
          λ m. ((turn-Touches x x current (((In-new_modules x (turn x current)).0 m).0)).0) refl,
          new_modules-Nodup (turn x current),
        )
        (λ a m. elim m [
          | inl p ↦ inl p
          | inr n ↦
              let (t, new) = (In-new_modules a (turn x current)).0 n in
              subst (In a) h ((In-new_modules a current).1 ((turn-Touches x a current t).1, new))
        ]),
  )

  -- What the loop leaves: known modules only, and the chains between them.
  pub record Folds (current final : Dict Edge T) : Type 0 where
    pub all_known : (m : Text) → Touches (keys final) m → In m known
    pub shorten :
        (a b : Text)
        → In a known
        → In b known
        → a ≢ b
        → Via known (keys current) a b
        → Via known (keys final) a b
    pub lengthen : (a b : Text) → Via known (keys final) a b → Via known (keys current) a b

  no_new : (current : Dict Edge T) → new_modules known current ≡ [] → Folds current current
  no_new current h = record {
    all_known = λ m t. elim (Bool-cases (contains known m)) [
      | inl k ↦ (contains_iff known m).0 k
      | inr k ↦ absurd (subst (In m) h ((In-new_modules m current).1 (t, not_contains known m k)))
    ];
    shorten = λ a b _ _ _ c. c;
    lengthen = λ a b c. c;
  }

  loop_done :
      (n : ℕ) (current : Dict Edge T)
      → new_modules known current ≡ []
      → fold_loop n known current ≡ current
  unfolding fold_loop
  loop_done zero current h = refl
  loop_done (suc n) current h = rw (h, fold_loop) refl

  loop_turn :
      (n : ℕ) (current : Dict Edge T) (x : Text) (rest : List Text)
      → new_modules known current ≡ x ∷ rest
      → fold_loop (suc n) known current ≡ fold_loop n known (turn x current)
  unfolding fold_loop
  loop_turn n current x rest h = rw (h, fold_loop) refl

  after_turn :
      (x : Text) (current final : Dict Edge T)
      → ¬ In x known
      → Folds (turn x current) final
      → Folds current final
  after_turn x current final new f = record {
    all_known = f.all_known;
    shorten = λ a b ka kb ab c. f.shorten a b ka kb ab (still a b ka kb ab c);
    lengthen = λ a b c.
        unfold_chain known x (keys current) (keys (turn x current)) (turn_iff x current) new
          (f.lengthen a b c);
  }
    where
      stays : (a : Text) → In a known → a ≢ x
      stays a k p = new (subst (λ z. In z known) p k)

      still :
          (a b : Text)
          → In a known
          → In b known
          → a ≢ b
          → Via known (keys current) a b
          → Via known (keys (turn x current)) a b
      still a b ka kb ab c =
          elim ((fold_chain known x (keys current) (keys (turn x current)) (turn_iff x current)
              (stays b kb) c).0
            (stays a ka)) [ inl p ↦ absurd (ab p) | inr d ↦ d ]

  pub fold_loop-Folds :
      (n : ℕ) (current : Dict Edge T)
      → length (new_modules known current) ≤ n
      → Folds current (fold_loop n known current)
  fold_loop-Folds zero current enough = elim (List-cases (new_modules known current)) [
    | inl h ↦ subst (Folds current) (sym (loop_done zero current h)) (no_new current h)
    | inr (x, rest, h) ↦ let no : ⊥ = omega (arith, ap length h) in absurd no
  ]
  fold_loop-Folds (suc n) current enough = elim (List-cases (new_modules known current)) [
    | inl h ↦ subst (Folds current) (sym (loop_done (suc n) current h)) (no_new current h)
    | inr (x, rest, h) ↦ subst (Folds current) (sym (loop_turn n current x rest h)) (
        after_turn x current _ (is_new x rest h) (
          fold_loop-Folds n (turn x current)
            (omega (arith, turn_shrinks x rest current h, ap length h))))
  ]
    where
      is_new : (x : Text) (rest : List Text) → new_modules known current ≡ x ∷ rest → ¬ In x known
      is_new x rest h = ((In-new_modules x current).0 (subst (In x) (sym h) (inl refl))).1
