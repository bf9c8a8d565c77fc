-- ===== src/Imports/Paths/Room.antt =====
-- How deep the search can go: the internal modules that are not on the path.
use python_arch_testing.Base.{
  In, List, Option-cases, Text, [], arith, contains, eq_text, false, if◌then◌else◌, inl, inr,
  key_of_lookup, keys, length, lookup, none, not, suc, text_eq_iff, true, ℕ, ◌&&◌, ◌<◌, ◌∷◌, ◌≡◌,
  ◌≤◌,
}
use python_arch_testing.Imports.Graph.{ModuleDependencyGraph, is_internal_node}

module _ (graph : ModuleDependencyGraph) where
  -- The internal modules among `names` that are not on the path.
  pub unvisited : List Text → List Text → ℕ
  unvisited path_modules [] = 0
  unvisited path_modules (n ∷ names) =
      if is_internal_node graph n && not (contains path_modules n)
      then suc (unvisited path_modules names)
      else unvisited path_modules names

  pub unvisited-le-length :
      (path : List Text) (names : List Text) → unvisited path names ≤ length names
  unfolding unvisited
  unvisited-le-length path [] = omega arith
  unvisited-le-length path (n ∷ names) = ground (arith, unvisited-le-length path names)

  pub unvisited-cons-le :
      (x : Text) (path names : List Text) → unvisited (x ∷ path) names ≤ unvisited path names
  unfolding unvisited
  unvisited-cons-le x path [] = omega arith
  unvisited-cons-le x path (n ∷ names) = ground (arith, unvisited-cons-le x path names)

  pub unvisited-cons-lt :
      (x : Text) (path names : List Text)
      → In x names
      → is_internal_node graph x ≡ true
      → contains path x ≡ false
      → unvisited (x ∷ path) names < unvisited path names
  unfolding unvisited
  unvisited-cons-lt x path [] m i n = absurd m
  unvisited-cons-lt x path (y ∷ names) m i n =
      ground
        (arith, text_eq_iff y x, unvisited-cons-le x path names, unvisited-cons-lt x path names)

  pub internal_key : (x : Text) → is_internal_node graph x ≡ true → In x (keys graph.nodes)
  internal_key x h = elim (Option-cases (lookup x graph.nodes)) [
    | inl e ↦ absurd (none_lem e)
    | inr (n, e) ↦ key_of_lookup x n graph.nodes e
  ]
    where
      none_lem : lookup x graph.nodes ≡ none → ⊥
      none_lem e = unfold is_internal_node in ground arith

  abbrev pub room : List Text → ℕ
  room path = unvisited path (keys graph.nodes)
