-- ===== src/Matching/Engine/Distinct.antt =====
-- matching/engine.py, `_one_to_one`: a target has one match.
use python_arch_testing.Base.{
  Bool, Bool-cases, Eq, In, In-sort_by, List, Option, Option-cases, Text, [], all_of, ap, ap₂,
  eq_text, if◌then◌else◌, inl, inr, key_of_lookup, keys, length, lookup, lookup_mem, map, mem_map,
  nat_eq, none, refl, some, sort_by, subst, sym, true, ◌∙◌, ◌∷◌, ◌≡◌, ◌⊎◌,
}
use python_arch_testing.Matching.Engine.{
  MatchResult, Scores, add_holders, changed_or, group_of, held_target, losers_of, one_to_one,
  ranks_before, replace_losers,
}
use python_arch_testing.Matching.Engine.Unique.{
  Changes, Has-replace_losers, Holds-add_holders, Loses, group_in, two_hold,
}
use python_arch_testing.Matching.Engine.OneToOne.{Fresh, Fresh-replace_losers, all_of-holds}

module _ {C : Type 0} ⦃e : Eq C⦄ (scores : Scores C) where
  after_of :
      (changed : Changes scores) (results : List (MatchResult C)) (m : MatchResult C)
      → In m (map (λ r. changed_or scores r (lookup r.source_id changed)) results)
      → (In m results × (lookup m.source_id changed ≡ none))
        ⊎ ((k : Text) × (lookup k changed ≡ some m))
  after_of changed results m i =
      let (r, j, q) = mem_map (λ r. changed_or scores r (lookup r.source_id changed)) m results i in
      elim (Option-cases (lookup r.source_id changed)) [
        | inl h ↦
            let p = q ∙ ap (changed_or scores r) h in
            inl (subst (λ z. In z results × (lookup z.source_id changed ≡ none)) (sym p) (j, h))
        | inr (v, h) ↦
            let p = q ∙ ap (changed_or scores r) h in inr (r.source_id, h ∙ ap some (sym p))
      ]

  -- The group of the target that a match holds.
  held_group :
      (results : List (MatchResult C)) (t : Text) (m : MatchResult C)
      → In m results
      → held_target scores m ≡ some t
      → (g : List (MatchResult C)) × (lookup t (add_holders scores results []) ≡ some g) × In m g
  held_group results t m i h =
      let there = Holds-add_holders scores results [] t m (inr (i, h)) in
      elim (Option-cases (lookup t (add_holders scores results []))) [
        | inl absent ↦ absurd (subst (λ o. In m (group_of scores o)) absent there)
        | inr (g, present) ↦ (g, present, subst (λ o. In m (group_of scores o)) present there)
      ]

  abbrev changes_of : List (MatchResult C) → Changes scores
  changes_of results =
      replace_losers scores
        (sort_by (λ a b. ranks_before scores a.0 b.0)
          (losers_of scores (add_holders scores results [])))
        (keys (add_holders scores results [])) []

  Has-changes_of :
      (results : List (MatchResult C)) (m : MatchResult C)
      → Loses scores (add_holders scores results []) m
      → ¬ (lookup m.source_id (changes_of results) ≡ none)
  Has-changes_of results m (w, i) absent =
      let losers = losers_of scores (add_holders scores results []) in
      let (v, h) =
        Has-replace_losers scores (sort_by (λ a b. ranks_before scores a.0 b.0) losers)
          (keys (add_holders scores results [])) [] m.source_id
          (inr (m, w, (In-sort_by (λ a b. ranks_before scores a.0 b.0) (m, w) losers).1 i, refl)) in
      absurd (cc (absent, h))

  nothing_found : {A : Type 0} (k : Text) (v : MatchResult C) → lookup k [] ≡ some v → A
  unfolding lookup
  nothing_found k v h = absurd (cc h)

  Fresh-changes_of :
      (results : List (MatchResult C))
      → (after : List Text) × Fresh scores
          (keys (add_holders scores results []))
          after
          (changes_of results)
  Fresh-changes_of results =
      let holders = add_holders scores results [] in
      Fresh-replace_losers scores (keys holders)
        (sort_by (λ a b. ranks_before scores a.0 b.0) (losers_of scores holders)) (keys holders) []
        (
          λ t i. i,
          λ k t v h held. nothing_found k v h,
          λ k j t v w h i a b. nothing_found k v h,
          λ k v h. nothing_found k v h,
        )

  -- Where every target had one match at the start.
  single_hold :
      (results : List (MatchResult C)) (t : Text) (m n : MatchResult C)
      → all_of (λ h. nat_eq (length h.1) 1) (add_holders scores results []) ≡ true
      → In m results
      → In n results
      → held_target scores m ≡ some t
      → held_target scores n ≡ some t
      → m ≡ n
  single_hold results t m n single i j a b =
      let holders = add_holders scores results [] in
      let (g, present, mine) = held_group results t m i a in
      let (k, found, other) = held_group results t n j b in
      let same : k ≡ g = cc (present, found) in
      group_in m n g
        (all_of-holds (λ h. nat_eq (length h.1) 1) holders (t, g) single
          (lookup_mem t g holders present))
        mine (subst (λ z. In n z) same other)

  -- One match was there at the start, and the other one was made by the loop.
  mixed_hold :
      (results : List (MatchResult C)) (t k : Text) (m n : MatchResult C)
      → In m results
      → lookup k (changes_of results) ≡ some n
      → held_target scores m ≡ some t
      → ¬ (held_target scores n ≡ some t)
  mixed_hold results t k m n i h a b =
      let (after, fresh) = Fresh-changes_of results in
      let (g, present, mine) = held_group results t m i a in
      absurd ((fresh.1 k t n h b).1 (key_of_lookup t g (add_holders scores results []) present))

  unchanged_hold :
      (results : List (MatchResult C)) (t : Text) (m n : MatchResult C)
      → In m results × (lookup m.source_id (changes_of results) ≡ none)
      → In n results × (lookup n.source_id (changes_of results) ≡ none)
      → held_target scores m ≡ some t
      → held_target scores n ≡ some t
      → m.source_id ≡ n.source_id
  unchanged_hold results t m n (i, x) (j, y) a b =
      elim (two_hold scores (add_holders scores results []) t m n
        (Holds-add_holders scores results [] t m (inr (i, a)))
        (Holds-add_holders scores results [] t n (inr (j, b)))) [
          | inl q ↦ ap (λ z. z.source_id) q
          | inr (inl l) ↦ absurd (Has-changes_of results m l x)
          | inr (inr l) ↦ absurd (Has-changes_of results n l y)
        ]

  abbrev chosen : List (MatchResult C) → Bool → List (MatchResult C)
  chosen results single =
      if single
      then results
      else map (λ r. changed_or scores r (lookup r.source_id (changes_of results))) results

  chosen_at :
      (results : List (MatchResult C)) (z : MatchResult C) {c d : Bool}
      → c ≡ d
      → In z (chosen results c)
      → In z (chosen results d)
  chosen_at results z h i = subst (λ b. In z (chosen results b)) h i

  -- Two matches of what `_one_to_one` returns that both have the status `matched` and the same
  -- target are of the same source: no two sources are matched to one target.
  pub one_to_one_unique :
      (results : List (MatchResult C)) (t : Text) (m n : MatchResult C)
      → In m (one_to_one scores results)
      → In n (one_to_one scores results)
      → held_target scores m ≡ some t
      → held_target scores n ≡ some t
      → m.source_id ≡ n.source_id
  unfolding one_to_one
  one_to_one_unique results t m n i j a b =
      let holders = add_holders scores results [] in
      elim (Bool-cases (all_of (λ h. nat_eq (length h.1) 1) holders)) [
        | inl single ↦
            ap (λ z. z.source_id)
              (single_hold results t m n single (chosen_at results m single i)
                (chosen_at results n single j) a b)
        | inr several ↦
            elim (after_of (changes_of results) results m (chosen_at results m several i)) [
              | inl x ↦
                  elim (after_of (changes_of results) results n (chosen_at results n several j)) [
                    | inl y ↦ unchanged_hold results t m n x y a b
                    | inr (k, h) ↦ absurd (mixed_hold results t k m n x.0 h a b)
                  ]
              | inr (k, h) ↦
                  elim (after_of (changes_of results) results n (chosen_at results n several j)) [
                    | inl y ↦ absurd (mixed_hold results t k n m y.0 h b a)
                    | inr (l, g) ↦
                        let (after, fresh) = Fresh-changes_of results in
                        fresh.3 k m h ∙ fresh.2 k l t m n h g a b ∙ sym (fresh.3 l n g)
                  ]
            ]
      ]

  keeps_source :
      (changed : Changes scores) (r : MatchResult C) (o : Option (MatchResult C))
      → ((k : Text) (v : MatchResult C) → lookup k changed ≡ some v → v.source_id ≡ k)
      → lookup r.source_id changed ≡ o
      → (changed_or scores r o).source_id ≡ r.source_id
  keeps_source changed r none keep h = refl
  keeps_source changed r (some v) keep h = keep r.source_id v h

  sources_kept :
      (changed : Changes scores) (results : List (MatchResult C))
      → ((k : Text) (v : MatchResult C) → lookup k changed ≡ some v → v.source_id ≡ k)
      → map (λ z. z.source_id) (map (λ r. changed_or scores r (lookup r.source_id changed)) results)
        ≡ map (λ z. z.source_id) results
  sources_kept changed [] keep = refl
  sources_kept changed (r ∷ results) keep =
      ap₂ (λ a b. a ∷ b) (keeps_source changed r (lookup r.source_id changed) keep refl)
        (sources_kept changed results keep)

  -- The matches that `_one_to_one` returns are of the same sources, in the same order.
  one_to_one_sources :
      (results : List (MatchResult C))
      → map (λ z. z.source_id) (one_to_one scores results) ≡ map (λ z. z.source_id) results
  unfolding one_to_one
  one_to_one_sources results =
      let (after, fresh) = Fresh-changes_of results in
      elim (Bool-cases (all_of (λ h. nat_eq (length h.1) 1) (add_holders scores results []))) [
        | inl single ↦ ap (λ c. map (λ z. z.source_id) (chosen results c)) single
        | inr several ↦
            ap (λ c. map (λ z. z.source_id) (chosen results c)) several
            ∙ sources_kept (changes_of results) results fresh.3
      ]
