-- ===== src/Architecture/Compare.antt =====
-- architecture/compare.py: `compare_edges`, `compare_instances` and `compare_packages`.
use python_arch_testing.Base.{
  Bool, Dict, List, Option, Text, [], codes, contains, distinct, eq_nat, eq_text, false, filter,
  if◌then◌else◌, keys, none, not, some, sort_by, true, ◌&&◌, ◌++◌, ◌==◌, ◌||◌, ◌∷◌,
}
pub mod Diff
pub mod Others
use python_arch_testing.Names.{dotted, dot, longest_from, starts_with}
use python_arch_testing.Architecture.Edges.{Edge, covered, edge_order, eq_arrow, reachable}
use python_arch_testing.Architecture.Fold.{fold_new_modules}

pub data Policy : Type 0 where
  allow_new_modules strict layered : Policy

-- A policy by its name; `none` is the `ValueError` for any other.
unfoldable pub policy_of : Text → Option Policy
policy_of name =
    if name == codes "allow_new_modules"
    then some allow_new_modules
    else if name == codes "strict"
    then some strict
    else if name == codes "layered"
    then some layered
    else none

pub record EdgeDiff : Type 0 where
  pub convergent : List Edge
  pub divergent : List Edge
  pub absent : List Edge
  pub undecided : List Edge
  pub allowed : List Edge
  pub reference : Option (List Edge)

-- `sorted(set(edges))`.
pub sorted_edges : List Edge → List Edge
sorted_edges edges = sort_by edge_order (distinct ⦃e = eq_arrow⦄ edges)

-- The list that a branch of the loop appends to, or none.
pub data Verdict : Type 0 where
  converges diverges permits undecides ignores : Verdict

pub record Lists : Type 0 where
  pub convergent_edges : List Edge
  pub divergent_edges : List Edge
  pub allowed_edges : List Edge
  pub undecided_edges : List Edge

abbrev pub put : Verdict → Edge → Lists → Lists
put converges pair l = record l { convergent_edges = l.convergent_edges ++ pair ∷ [] }
put diverges pair l = record l { divergent_edges = l.divergent_edges ++ pair ∷ [] }
put permits pair l = record l { allowed_edges = l.allowed_edges ++ pair ∷ [] }
put undecides pair l = record l { undecided_edges = l.undecided_edges ++ pair ∷ [] }
put ignores pair l = l

-- The loop over the edges.
pub sort_out : (Edge → Verdict) → List Edge → Lists → Lists
sort_out verdict [] l = l
sort_out verdict (pair ∷ edges) l = sort_out verdict edges (put (verdict pair) pair l)

abbrev pub policy_is_layered : Policy → Bool
policy_is_layered layered = true
policy_is_layered allow_new_modules = false
policy_is_layered strict = false

pub edge_verdict : Policy → List Edge → List Edge → List Edge → Edge → Verdict
unfolding covered reachable
edge_verdict policy accepted allow forbid pair =
    if covered pair forbid
    then diverges
    else if covered pair allow
    then permits
    else if contains ⦃e = eq_arrow⦄ accepted pair
    then converges
    else if policy_is_layered policy && not (contains (reachable pair.1 accepted) pair.0)
    then undecides
    else diverges

-- The edges that are judged, and those set apart.
pub judged_edges : {T : Type 0} → Policy → Dict Edge T → List Text → List Edge × List Edge
unfolding fold_new_modules
judged_edges strict target known = (keys target, [])
judged_edges allow_new_modules target known =
    let folded = fold_new_modules target known in (keys folded.0, keys folded.1)
judged_edges layered target known =
    let folded = fold_new_modules target known in (keys folded.0, keys folded.1)

abbrev pub no_edges : List Edge → Lists
no_edges undecided = record {
  convergent_edges = [];
  divergent_edges = [];
  allowed_edges = [];
  undecided_edges = undecided;
}

pub compare_edges :
    {T : Type 0}
    → List Edge
    → Dict Edge T
    → Text
    → List Text
    → List Edge
    → List Edge
    → List Edge
    → Option EdgeDiff
unfolding judged_edges edge_verdict sort_out sorted_edges
compare_edges reference target policy known allow forbid permitted = elim (policy_of policy) [
  | none ↦ none
  | some p ↦
      let judged = judged_edges p target known in
      let l =
        sort_out (edge_verdict p (reference ++ permitted) allow forbid) judged.0
          (no_edges judged.1) in
      some (record {
        convergent = sorted_edges l.convergent_edges;
        divergent = sorted_edges l.divergent_edges;
        absent =
            sorted_edges (filter (λ pair. not (contains ⦃e = eq_arrow⦄ judged.0 pair)) reference);
        undecided = sorted_edges l.undecided_edges;
        allowed = sorted_edges l.allowed_edges;
        reference = some (sorted_edges reference);
      })
]

-- `name.rpartition(".")[0]`: what stands before the last dot, nothing without one.
pub before_last_dot : Text → Text
before_last_dot [] = []
before_last_dot (c ∷ name) =
    let rest = before_last_dot name in if contains ⦃e = eq_nat⦄ name dot then c ∷ rest else []

-- `found`, then `max(found, key=len)`, the first of the longest.
pub class_module : Text → List Text → Text
unfolding before_last_dot longest_from
class_module name modules =
    let found = filter (λ m. not (m == []) && starts_with name (dotted m)) modules in
    elim found [ [] ↦ before_last_dot name | m ∷ ms ↦ longest_from m ms ]

pub instance_verdict :
    Policy → List Edge → List Edge → List Text → List Edge → List Edge → Edge → Verdict
unfolding covered reachable class_module
instance_verdict policy expected reference_calls modules allow forbid pair =
    let by_module : Edge = (pair.0, class_module pair.1 modules) in
    if contains ⦃e = eq_arrow⦄ forbid pair || covered by_module forbid
    then diverges
    else if contains ⦃e = eq_arrow⦄ allow pair || covered by_module allow
    then permits
    else if contains ⦃e = eq_arrow⦄ expected pair
    then converges
    else if policy_is_layered policy
        && not (contains (reachable by_module.1 reference_calls) pair.0)
    then undecides
    else diverges

pub compare_instances :
    {T : Type 0}
    → List Edge
    → Dict Edge T
    → Text
    → List Edge
    → List Edge
    → List Edge
    → List Text
    → Option EdgeDiff
unfolding instance_verdict sort_out sorted_edges
compare_instances reference target policy reference_calls allow forbid modules =
    elim (policy_of policy) [
      | none ↦ none
      | some p ↦
          let l =
            sort_out (instance_verdict p reference reference_calls modules allow forbid)
              (keys target) (no_edges []) in
          some (record {
            convergent = sorted_edges l.convergent_edges;
            divergent = sorted_edges l.divergent_edges;
            absent =
                sorted_edges
                  (filter (λ pair. not (contains ⦃e = eq_arrow⦄ (keys target) pair)) reference);
            undecided = sorted_edges l.undecided_edges;
            allowed = sorted_edges l.allowed_edges;
            reference = some (sorted_edges reference);
          })
    ]

pub package_verdict : List Text → List Text → List Edge → List Edge → Edge → Verdict
unfolding covered
package_verdict used ignored allow forbid pair =
    if covered pair forbid
    then diverges
    else if contains ignored pair.1
    then ignores
    else if covered pair allow
    then permits
    else if contains used pair.1
    then converges
    else diverges

pub compare_packages :
    {T : Type 0} → List Text → Dict Edge T → List Text → List Edge → List Edge → EdgeDiff
unfolding package_verdict sort_out sorted_edges
compare_packages reference target ignore allow forbid =
    let l = sort_out (package_verdict reference ignore allow forbid) (keys target) (no_edges []) in
    record {
      convergent = sorted_edges l.convergent_edges;
      divergent = sorted_edges l.divergent_edges;
      absent = [];
      undecided = [];
      allowed = sorted_edges l.allowed_edges;
      reference = none;
    }
