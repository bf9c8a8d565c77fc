-- ===== src/Matching/Engine/OneToOne.antt =====
-- matching/engine.py, `_one_to_one`: the matches after the step.
use python_arch_testing.Base.{
  Bool, Bool-cases, Eq, In, In-filter, List, Option, Subset, Text, [], all_of, ap, arith, contains,
  contains_iff, eq_text, if◌then◌else◌, inl, inr, insert, lookup, lookup-insert, none, not, refl,
  some, subst, sym, text_eq_iff, true, ◌&&◌, ◌==◌, ◌∙◌, ◌∷◌, ◌≡◌, ◌≢◌, ◌⊎◌,
}
use python_arch_testing.Rules.Models.{MatchStatus, ambiguous, low_confidence, matched, unmatched}
use python_arch_testing.Matching.Engine.{
  MatchResult, Scores, Candidate, add_taken, free_candidates, held_target, replace_losers, replaced,
  status_of_free, target_unless_unmatched,
}
use python_arch_testing.Matching.Engine.Unique.{Changes}

pub all_of-holds :
    {A : Type 0} (p : A → Bool) (xs : List A) (a : A) → all_of p xs ≡ true → In a xs → p a ≡ true
all_of-holds p [] a h i = absurd i
all_of-holds p (x ∷ xs) a h i = elim i [
  | inl q ↦ subst (λ z. p z ≡ true) (sym q) (both_true (p x) _ h).0
  | inr j ↦ all_of-holds p xs a (both_true (p x) _ h).1 j
]
  where
    both_true : (a b : Bool) → a && b ≡ true → (a ≡ true) × (b ≡ true)
    both_true a b h = ground arith

module _ {C : Type 0} ⦃e : Eq C⦄ (scores : Scores C) where
  replaced-source :
      (loser winner : MatchResult C) (free : List (Candidate C))
      → (replaced scores loser winner free).source_id ≡ loser.source_id
  unfolding replaced
  replaced-source loser winner [] = refl
  replaced-source loser winner (best ∷ others) = refl

  held_best :
      (s r : MatchStatus) (u t : Text)
      → (elim s [
        | matched ↦ target_unless_unmatched scores r u
        | unmatched ↦ none
        | ambiguous ↦ none
        | low_confidence ↦ none
      ])
        ≡ some t
      → u ≡ t
  held_best matched matched u t h = cc h
  held_best matched unmatched u t h = absurd (cc h)
  held_best matched ambiguous u t h = cc h
  held_best matched low_confidence u t h = cc h
  held_best unmatched r u t h = absurd (cc h)
  held_best ambiguous r u t h = absurd (cc h)
  held_best low_confidence r u t h = absurd (cc h)

  replaced-free :
      (loser winner : MatchResult C) (free : List (Candidate C)) (t : Text)
      → held_target scores (replaced scores loser winner free) ≡ some t
      → (c : Candidate C) × In c free × (c.target_id ≡ t)
  unfolding replaced
  replaced-free loser winner [] t h = absurd (cc h)
  replaced-free loser winner (best ∷ others) t h = (
    best,
    inl refl,
    held_best (status_of_free scores best others) (status_of_free scores best others) best.target_id
        t h,
  )

  free-not_taken :
      (taken : List Text) (loser : MatchResult C) (c : Candidate C)
      → In c (free_candidates scores taken loser)
      → ¬ In c.target_id taken
  free-not_taken taken loser c i j =
      let (k, h) = (In-filter (λ c. not (contains taken c.target_id)) c loser.candidates).0 i in
      absurd (cc (h, (contains_iff taken c.target_id).1 j))

  -- The targets that replaced matches hold are taken, but were not at the start, and differ.
  abbrev pub Fresh : List Text → List Text → Changes scores → Type 0
  Fresh initial taken changed =
      Subset initial taken
      × ((k t : Text) (v : MatchResult C)
          → lookup k changed ≡ some v
          → held_target scores v ≡ some t
          → In t taken × ¬ In t initial)
      × ((k j t : Text) (v w : MatchResult C)
          → lookup k changed ≡ some v
          → lookup j changed ≡ some w
          → held_target scores v ≡ some t
          → held_target scores w ≡ some t
          → k ≡ j)
      × ((k : Text) (v : MatchResult C) → lookup k changed ≡ some v → v.source_id ≡ k)

  one_match : (a b : MatchResult C) → some a ≡ some b → a ≡ b
  one_match a b h = cc h

  -- What is found after an insertion.
  found_after :
      (changed : Changes scores) (j k : Text) (n v : MatchResult C)
      → lookup k (insert j n changed) ≡ some v
      → ((j ≡ k) × (v ≡ n)) ⊎ ((j ≢ k) × (lookup k changed ≡ some v))
  found_after changed j k n v h = elim (Bool-cases (j == k)) [
    | inl q ↦ inl (
      (text_eq_iff j k).0 q,
      one_match v n (
          sym h ∙ lookup-insert j k n changed ∙ ap (λ b. if b then some n else lookup k changed) q),
    )
    | inr q ↦ inr (
      (λ p. absurd (cc (q, (text_eq_iff j k).1 p))),
      sym (lookup-insert j k n changed ∙ ap (λ b. if b then some n else lookup k changed) q) ∙ h,
    )
  ]

  add_taken-old : (o : Option Text) (taken : List Text) → Subset taken (add_taken scores o taken)
  add_taken-old none taken t i = i
  add_taken-old (some u) taken t i = inr i

  add_taken-new :
      (o : Option Text) (taken : List Text) (t : Text)
      → o ≡ some t
      → In t (add_taken scores o taken)
  add_taken-new none taken t h = absurd (cc h)
  add_taken-new (some u) taken t h = inl (cc h)

  Fresh-insert :
      (initial taken : List Text) (changed : Changes scores) (j : Text) (n : MatchResult C)
      → Fresh initial taken changed
      → n.source_id ≡ j
      → ((t : Text) → held_target scores n ≡ some t → ¬ In t taken)
      → Fresh initial (add_taken scores (held_target scores n) taken) (insert j n changed)
  Fresh-insert initial taken changed j n f same free = (
    λ t i. add_taken-old (held_target scores n) taken t (f.0 t i),
    λ k t v h held. elim (found_after changed j k n v h) [
      | inl p ↦
          let now = ap (held_target scores) (sym p.1) ∙ held in
          (add_taken-new (held_target scores n) taken t now, λ i. free t now (f.0 t i))
      | inr p ↦
          let (i, x) = f.1 k t v p.1 held in (add_taken-old (held_target scores n) taken t i, x)
    ],
    λ k l t v w h i a b. elim (found_after changed j k n v h) [
      | inl p ↦ elim (found_after changed j l n w i) [
        | inl q ↦ sym p.0 ∙ q.0
        | inr q ↦ absurd (free t (ap (held_target scores) (sym p.1) ∙ a) (f.1 l t w q.1 b).0)
      ]
      | inr p ↦ elim (found_after changed j l n w i) [
        | inl q ↦ absurd (free t (ap (held_target scores) (sym q.1) ∙ b) (f.1 k t v p.1 a).0)
        | inr q ↦ f.2 k l t v w p.1 q.1 a b
      ]
    ],
    λ k v h. elim (found_after changed j k n v h) [
      | inl p ↦ ap (λ z. z.source_id) p.1 ∙ same ∙ p.0
      | inr p ↦ f.3 k v p.1
    ],
  )

  pub Fresh-replace_losers :
      (initial : List Text) (losers : List (MatchResult C × MatchResult C)) (taken : List Text)
      (changed : Changes scores)
      → Fresh initial taken changed
      → (after : List Text) × Fresh initial after (replace_losers scores losers taken changed)
  unfolding replace_losers
  Fresh-replace_losers initial [] taken changed f = (taken, f)
  Fresh-replace_losers initial ((loser, winner) ∷ losers) taken changed f =
      Fresh-replace_losers initial losers _ _ (
        Fresh-insert initial taken changed loser.source_id
          (replaced scores loser winner (free_candidates scores taken loser)) f
          (replaced-source loser winner (free_candidates scores taken loser))
          (λ t h i.
            let (c, k, q) = replaced-free loser winner (free_candidates scores taken loser) t h in
            free-not_taken taken loser c k (subst (λ z. In z taken) (sym q) i)))
