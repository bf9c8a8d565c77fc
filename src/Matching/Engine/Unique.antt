-- ===== src/Matching/Engine/Unique.antt =====
-- matching/engine.py, `_one_to_one`: which targets are held at the end.
use python_arch_testing.Base.{
  Bool-cases, Dict, Eq, In, In-append, In-map_of, In-sort_by, List, Option, Option-cases, Text, [],
  ap, arith, eq_text, inl, inr, insert, length, lookup, lookup-insert, lookup_mem, nat_eq,
  nat_eq_iff, none, refl, some, sort_by, subst, suc, sym, text_eq_iff, true, ℕ, ◌++◌, ◌==◌, ◌∙◌,
  ◌∷◌, ◌≡◌, ◌⊎◌,
}
use python_arch_testing.Matching.Engine.{
  MatchResult, Scores, add_holder, add_holders, behind_first, group_of, held_target, losers_of,
  ranks_before, replace_losers,
}

pub group_in :
    {A : Type 0} (a b : A) (xs : List A) → nat_eq (length xs) 1 ≡ true → In a xs → In b xs → a ≡ b
group_in a b [] h i j = absurd i
group_in a b (x ∷ []) h i j = elim i [
  | inl p ↦ elim j [ inl q ↦ p ∙ sym q | inr n ↦ absurd n ]
  | inr n ↦ absurd n
]
group_in a b (x ∷ y ∷ xs) h i j = absurd (no (length xs) h)
  where
    no : (n : ℕ) → ¬ (nat_eq (suc (suc n)) 1 ≡ true)
    no n h = let no : ⊥ = omega (arith, (nat_eq_iff (suc (suc n)) 1).0 h) in no

module _ {C : Type 0} ⦃e : Eq C⦄ (scores : Scores C) where
  abbrev pub Holds : Dict Text (List (MatchResult C)) → Text → MatchResult C → Type 0
  Holds holders t m = In m (group_of scores (lookup t holders))

  Holds-insert :
      (d : Dict Text (List (MatchResult C))) (t u : Text) (m a : MatchResult C)
      → Holds d t m ⊎ ((u ≡ t) × (m ≡ a))
      → Holds (insert u (group_of scores (lookup u d) ++ a ∷ []) d) t m
  Holds-insert d t u m a o = elim (Bool-cases (u == t)) [
    | inl h ↦
        let q = (text_eq_iff u t).0 h in
        rw (lookup-insert u t (group_of scores (lookup u d) ++ a ∷ []) d, h)
          ((In-append m (group_of scores (lookup u d)) (a ∷ [])).1
            (elim o [ inl i ↦ inl (subst (λ z. Holds d z m) (sym q) i) | inr p ↦ inr (inl p.1) ]))
    | inr h ↦
        rw (lookup-insert u t (group_of scores (lookup u d) ++ a ∷ []) d, h)
          (elim o [ inl i ↦ i | inr p ↦ absurd (cc (h, (text_eq_iff u t).1 p.0)) ])
  ]

  Holds-add_holder :
      (d : Dict Text (List (MatchResult C))) (t : Text) (o : Option Text) (m a : MatchResult C)
      → Holds d t m ⊎ ((o ≡ some t) × (m ≡ a))
      → Holds (add_holder scores o a d) t m
  Holds-add_holder d t none m a x = elim x [ inl i ↦ i | inr p ↦ absurd (cc p.0) ]
  Holds-add_holder d t (some u) m a x =
      Holds-insert d t u m a (elim x [ inl i ↦ inl i | inr p ↦ inr (cc p.0, p.1) ])

  pub Holds-add_holders :
      (results : List (MatchResult C)) (d : Dict Text (List (MatchResult C))) (t : Text)
      (m : MatchResult C)
      → Holds d t m ⊎ (In m results × (held_target scores m ≡ some t))
      → Holds (add_holders scores results d) t m
  unfolding add_holders
  Holds-add_holders [] d t m o = elim o [ inl i ↦ i | inr p ↦ absurd p.0 ]
  Holds-add_holders (a ∷ results) d t m o =
      Holds-add_holders results (add_holder scores (held_target scores a) a d) t m (elim o [
        | inl i ↦ inl (Holds-add_holder d t (held_target scores a) m a (inl i))
        | inr p ↦ elim p.0 [
          | inl q ↦ inl (
              Holds-add_holder d t (held_target scores a) m a
                (inr (ap (held_target scores) (sym q) ∙ p.1, q)))
          | inr j ↦ inr (j, p.1)
        ]
      ])

  abbrev pub Loses : Dict Text (List (MatchResult C)) → MatchResult C → Type 0
  Loses holders m = (w : MatchResult C) × In (m, w) (losers_of scores holders)

  abbrev Behind : List (MatchResult C) → MatchResult C → Type 0
  Behind group m = (w : MatchResult C) × In (m, w) (behind_first scores group)

  two-Behind :
      (group : List (MatchResult C)) (m n : MatchResult C)
      → In m group
      → In n group
      → (m ≡ n) ⊎ (Behind group m ⊎ Behind group n)
  two-Behind [] m n i j = absurd i
  two-Behind (winner ∷ others) m n (inl p) (inl q) = inl (p ∙ sym q)
  two-Behind (winner ∷ others) m n (inr i) j =
      inr (inl (winner, In-map_of (λ loser. (loser, winner)) m others i))
  two-Behind (winner ∷ others) m n (inl p) (inr j) =
      inr (inr (winner, In-map_of (λ loser. (loser, winner)) n others j))

  losers_group :
      (holders : Dict Text (List (MatchResult C))) (t : Text) (group : List (MatchResult C))
      (p : MatchResult C × MatchResult C)
      → In (t, group) holders
      → In p (behind_first scores (sort_by (ranks_before scores) group))
      → In p (losers_of scores holders)
  unfolding losers_of
  losers_group [] t group p i j = absurd i
  losers_group ((u, other) ∷ holders) t group p (inl q) j =
      (In-append p (behind_first scores (sort_by (ranks_before scores) other))
          (losers_of scores holders)).1
        (inl (
          subst (λ g. In p (behind_first scores (sort_by (ranks_before scores) g)))
            (ap (λ z. z.1) q) j))
  losers_group ((u, other) ∷ holders) t group p (inr i) j =
      (In-append p (behind_first scores (sort_by (ranks_before scores) other))
          (losers_of scores holders)).1
        (inr (losers_group holders t group p i j))

  -- Two matches that hold one target: the same one, or one of them loses.
  pub two_hold :
      (holders : Dict Text (List (MatchResult C))) (t : Text) (m n : MatchResult C)
      → Holds holders t m
      → Holds holders t n
      → (m ≡ n) ⊎ (Loses holders m ⊎ Loses holders n)
  two_hold holders t m n i j = elim (Option-cases (lookup t holders)) [
    | inl h ↦ absurd (subst (λ o. In m (group_of scores o)) h i)
    | inr (group, h) ↦
        let sorted = sort_by (ranks_before scores) group in
        let there = lookup_mem t group holders h in
        elim (two-Behind sorted m n
          ((In-sort_by (ranks_before scores) m group).1 (subst (λ o. In m (group_of scores o)) h i))
          ((In-sort_by (ranks_before scores) n group).1
            (subst (λ o. In n (group_of scores o)) h j))) [
              | inl q ↦ inl q
              | inr o ↦ inr (elim o [
                | inl (w, k) ↦ inl (w, losers_group holders t group (m, w) there k)
                | inr (w, k) ↦ inr (w, losers_group holders t group (n, w) there k)
              ])
            ]
  ]

  abbrev pub Changes : Type 0
  Changes = Dict Text (MatchResult C)

  abbrev pub Has : Changes → Text → Type 0
  Has changed k = (v : MatchResult C) × (lookup k changed ≡ some v)

  pub Has-insert :
      (changed : Changes) (k j : Text) (v : MatchResult C)
      → Has changed k ⊎ (j ≡ k)
      → Has (insert j v changed) k
  Has-insert changed k j v o = elim (Bool-cases (j == k)) [
    | inl h ↦ (v, rw (lookup-insert j k v changed, h) refl)
    | inr h ↦ elim o [
      | inl (w, q) ↦ (w, rw (lookup-insert j k v changed, h) q)
      | inr q ↦ absurd (cc (h, (text_eq_iff j k).1 q))
    ]
  ]

  pub Has-replace_losers :
      (losers : List (MatchResult C × MatchResult C)) (taken : List Text) (changed : Changes)
      (k : Text)
      → Has changed k
        ⊎ ((m : MatchResult C) × (w : MatchResult C) × In (m, w) losers × (m.source_id ≡ k))
      → Has (replace_losers scores losers taken changed) k
  unfolding replace_losers
  Has-replace_losers [] taken changed k o = elim o [ inl h ↦ h | inr p ↦ absurd p.2 ]
  Has-replace_losers ((loser, winner) ∷ losers) taken changed k o =
      Has-replace_losers losers _ (insert loser.source_id _ changed) k (elim o [
        | inl h ↦ inl (Has-insert changed k loser.source_id _ (inl h))
        | inr (m, w, i, q) ↦ elim i [
          | inl p ↦
              inl
                (Has-insert changed k loser.source_id _ (inr (ap (λ z. z.0.source_id) (sym p) ∙ q)))
          | inr j ↦ inr (m, w, j, q)
        ]
      ])
