-- ===== src/Architecture/Compare/Diff.antt =====
-- What the comparisons report, list by list.
use python_arch_testing.Base.{
  Dict, In, In-append, In-distinct, In-filter, In-sort_by, List, Text, [], arith, contains,
  contains_iff, distinct, eq_text, false, filter, keys, not, refl, some, true, ◌++◌, ◌↔◌, ◌∷◌, ◌≡◌,
  ◌≢◌, ◌⊎◌,
}
use python_arch_testing.Architecture.Edges.{Edge, edge_order, eq_arrow, covered, reachable}
use python_arch_testing.Architecture.Edges.Reach.{reachable_iff, Reaches}
use python_arch_testing.Architecture.Fold.{fold_new_modules}
use python_arch_testing.Architecture.Compare.{
  Policy, strict, layered, allow_new_modules, Lists, Verdict, converges, diverges, ignores, permits,
  put, sort_out, sorted_edges, undecides, Policy, edge_verdict, layered, policy_is_layered,
  EdgeDiff, compare_edges, judged_edges, no_edges, policy_of,
}

abbrev bucket : Verdict → Lists → List Edge
bucket converges l = l.convergent_edges
bucket diverges l = l.divergent_edges
bucket permits l = l.allowed_edges
bucket undecides l = l.undecided_edges
bucket ignores l = []

In-concat : (p q : Edge) (xs : List Edge) → In p (xs ++ q ∷ []) ↔ (In p xs ⊎ (p ≡ q))
In-concat p q xs = ground (arith, In-append p xs (q ∷ []))

put_lem :
    (v w : Verdict) (p q : Edge) (l : Lists)
    → v ≢ ignores
    → In p (bucket v (put w q l)) ↔ (In p (bucket v l) ⊎ (p ≡ q) × (w ≡ v))
put_lem converges w p q l k = ground (arith, In-concat p q l.convergent_edges)
put_lem diverges w p q l k = ground (arith, In-concat p q l.divergent_edges)
put_lem permits w p q l k = ground (arith, In-concat p q l.allowed_edges)
put_lem undecides w p q l k = ground (arith, In-concat p q l.undecided_edges)
put_lem ignores w p q l k = absurd (k refl)

-- The list of a verdict holds what it had and the edges of that verdict.
sort_out_lem :
    (verdict : Edge → Verdict) (edges : List Edge) (l : Lists) (v : Verdict) (p : Edge)
    → v ≢ ignores
    → In p (bucket v (sort_out verdict edges l))
      ↔ (In p (bucket v l) ⊎ In p edges × (verdict p ≡ v))
unfolding sort_out
sort_out_lem verdict [] l v p k = ground arith
sort_out_lem verdict (q ∷ edges) l v p k =
    ground
      (arith, sort_out_lem verdict edges (put (verdict q) q l) v p k, put_lem v (verdict q) p q l k)

sorted_edges_lem : (p : Edge) (xs : List Edge) → In p (sorted_edges xs) ↔ In p xs
unfolding sorted_edges
sorted_edges_lem p xs =
    ground
      (arith, In-sort_by edge_order p (distinct ⦃e = eq_arrow⦄ xs), In-distinct ⦃e = eq_arrow⦄ p xs)

-- What each list is meant to hold.
module _ (policy : Policy) (accepted allow forbid : List Edge) where
  abbrev pub Judged : Edge → Verdict → Type 0
  Judged p converges = (covered p forbid ≡ false) × (covered p allow ≡ false) × In p accepted
  Judged p diverges =
      (covered p forbid ≡ true)
      ⊎ (covered p forbid ≡ false)
        × (covered p allow ≡ false)
        × (¬ In p accepted)
        × (policy ≡ layered → Reaches accepted p.1 p.0)
  Judged p permits = (covered p forbid ≡ false) × (covered p allow ≡ true)
  Judged p undecides =
      (covered p forbid ≡ false)
      × (covered p allow ≡ false)
      × (¬ In p accepted)
      × (policy ≡ layered)
      × (¬ Reaches accepted p.1 p.0)
  Judged p ignores = ⊥

  layered_iff : (policy_is_layered policy ≡ true) ↔ (policy ≡ layered)
  layered_iff = ground arith

  edge_verdict_iff :
      (p : Edge) (v : Verdict) → (edge_verdict policy accepted allow forbid p ≡ v) ↔ Judged p v
  unfolding edge_verdict
  edge_verdict_iff p v = ground (
    arith,
    layered_iff,
    contains_iff ⦃e = eq_arrow⦄ accepted p,
    contains_iff (reachable p.1 accepted) p.0,
    reachable_iff p.1 accepted p.0,
  )

-- What a comparison reports, given the edges that it judges and those set apart.
pub record Reports (Holds : Edge → Verdict → Type 0) (edges apart reference : List Edge)
    (d : EdgeDiff) : Type 0 where
  pub convergent_iff : (p : Edge) → In p d.convergent ↔ (In p edges × Holds p converges)
  pub divergent_iff : (p : Edge) → In p d.divergent ↔ (In p edges × Holds p diverges)
  pub allowed_iff : (p : Edge) → In p d.allowed ↔ (In p edges × Holds p permits)
  pub undecided_iff : (p : Edge) → In p d.undecided ↔ (In p apart ⊎ In p edges × Holds p undecides)
  pub absent_iff : (p : Edge) → In p d.absent ↔ (In p reference × (¬ In p edges))

sorted_out_lem :
    (verdict : Edge → Verdict) (edges apart : List Edge) (v : Verdict) (p : Edge) (Holds : Type 0)
    → v ≢ ignores
    → (verdict p ≡ v) ↔ Holds
    → In p (sorted_edges (bucket v (sort_out verdict edges (no_edges apart))))
      ↔ (In p (bucket v (no_edges apart)) ⊎ In p edges × Holds)
sorted_out_lem verdict edges apart v p Holds k same = ground (
  arith,
  sort_out_lem verdict edges (no_edges apart) v p k,
  sorted_edges_lem p (bucket v (sort_out verdict edges (no_edges apart))),
)

-- Which edges are judged and which are set apart: under `strict` all and none, else what the folding
-- of new modules gives.
abbrev pub Chosen : {T : Type 0} → Policy → Dict Edge T → List Text → Type 0
Chosen policy target known =
    (policy ≡ strict → judged_edges policy target known ≡ (keys target, []))
    × (policy ≢ strict
        → judged_edges policy target known
          ≡ (keys (fold_new_modules target known).0, keys (fold_new_modules target known).1))

judged_edges-Chosen :
    {T : Type 0} (policy : Policy) (target : Dict Edge T) (known : List Text)
    → Chosen policy target known
unfolding judged_edges
judged_edges-Chosen strict target known = (λ h. refl, λ n. absurd (n refl))
judged_edges-Chosen allow_new_modules target known = (λ h. absurd (cc h), λ n. refl)
judged_edges-Chosen layered target known = (λ h. absurd (cc h), λ n. refl)

-- The difference that the loop and the sorting make.
abbrev pub diff_of : (Edge → Verdict) → List Edge → List Edge → List Edge → EdgeDiff
diff_of verdict edges apart expected =
    let l = sort_out verdict edges (no_edges apart) in
    record {
      convergent = sorted_edges l.convergent_edges;
      divergent = sorted_edges l.divergent_edges;
      absent = sorted_edges (filter (λ pair. not (contains ⦃e = eq_arrow⦄ edges pair)) expected);
      undecided = sorted_edges l.undecided_edges;
      allowed = sorted_edges l.allowed_edges;
      reference = some (sorted_edges expected);
    }

pub diff_of_lem :
    (verdict : Edge → Verdict) (Holds : Edge → Verdict → Type 0) (edges apart expected : List Edge)
    → ((p : Edge) (v : Verdict) → (verdict p ≡ v) ↔ Holds p v)
    → Reports Holds edges apart expected (diff_of verdict edges apart expected)
diff_of_lem verdict Holds edges apart expected same = record {
  convergent_iff = λ p. ground (
    arith,
    sorted_out_lem verdict edges apart converges p (Holds p converges) (λ e. cc) (same p converges),
  );
  divergent_iff = λ p. ground (
    arith,
    sorted_out_lem verdict edges apart diverges p (Holds p diverges) (λ e. cc) (same p diverges),
  );
  allowed_iff = λ p. ground (
    arith,
    sorted_out_lem verdict edges apart permits p (Holds p permits) (λ e. cc) (same p permits),
  );
  undecided_iff = λ p.
      sorted_out_lem verdict edges apart undecides p (Holds p undecides) (λ e. cc)
        (same p undecides);
  absent_iff = λ p. ground (
    arith,
    sorted_edges_lem p (filter (λ pair. not (contains ⦃e = eq_arrow⦄ edges pair)) expected),
    In-filter (λ pair. not (contains ⦃e = eq_arrow⦄ edges pair)) p expected,
    contains_iff ⦃e = eq_arrow⦄ edges p,
  );
}

module _ {T : Type 0} (reference : List Edge) (target : Dict Edge T) (name : Text) where
  -- Under a known policy, `compare_edges` returns a difference in which each judged edge stands in
  -- the list that the exceptions, the accepted edges (those of the reference and the permitted
  -- ones) and, for `layered`, the chains of accepted edges decide; the edges set apart are
  -- undecided, and the edges of the reference that are not judged are absent. Under `strict` all
  -- edges of the target are judged and none is set apart, else those that the folding of new modules
  -- gives.
  pub compare_edges_exact :
      (policy : Policy) (known : List Text) (allow forbid permitted : List Edge)
      → policy_of name ≡ some policy
      → (d : EdgeDiff) × (compare_edges reference target name known allow forbid permitted ≡ some d)
        × Reports
            (Judged policy (reference ++ permitted) allow forbid)
            ((judged_edges policy target known).0)
            ((judged_edges policy target known).1)
            reference
            d
        × Chosen policy target known
  unfolding compare_edges
  compare_edges_exact policy known allow forbid permitted h = (
    diff_of (edge_verdict policy (reference ++ permitted) allow forbid)
        ((judged_edges policy target known).0) ((judged_edges policy target known).1) reference,
    rw (h, compare_edges) refl,
    diff_of_lem (edge_verdict policy (reference ++ permitted) allow forbid)
        (Judged policy (reference ++ permitted) allow forbid) ((judged_edges policy target known).0)
        ((judged_edges policy target known).1) reference
        (edge_verdict_iff policy (reference ++ permitted) allow forbid),
    judged_edges-Chosen policy target known,
  )
