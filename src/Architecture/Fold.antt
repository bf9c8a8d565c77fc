-- ===== src/Architecture/Fold.antt =====
-- architecture/compare.py: `fold_new_modules`, which takes the modules that the reference does not
-- have for parts of their users. `T` is what an edge is mapped to.
use python_arch_testing.Base.{
  Bool, Dict, List, Text, [], contains, distinct, eq_text, filter, if◌then◌else◌, keys, length, map,
  not, set_default, sort_by, suc, text_le, zero, ℕ, ◌&&◌, ◌++◌, ◌==◌, ◌∷◌,
}
pub mod Step
pub mod Paths
pub mod Turns
pub mod Exact
use python_arch_testing.Architecture.Edges.{Edge, eq_arrow, reachable}

-- The known origins, then the modules that they reach.
pub reached_from : List Text → List Edge → List Text → List Text
unfolding reachable
reached_from [] edges known = []
reached_from (o ∷ origins) edges known =
    let rest = reached_from origins edges known in
    if contains known o then reachable o edges ++ rest else rest

module _ {T : Type 0} where
  -- Whether `fold_new_modules` sets an edge apart: neither known nor reached from a known module.
  pub is_dropped : List Text → List Text → Edge × T → Bool
  is_dropped known reached item = not (contains known item.0.0) && not (contains reached item.0.0)

  pub endpoints : Dict Edge T → List Text
  endpoints [] = []
  endpoints (item ∷ items) = item.0.0 ∷ item.0.1 ∷ endpoints items

  -- `sorted({module for pair in current for module in pair} - known)`.
  pub new_modules : List Text → Dict Edge T → List Text
  unfolding endpoints
  new_modules known current =
      sort_by text_le (distinct (filter (λ x. not (contains known x)) (endpoints current)))

  -- The users of a module, itself discarded.
  pub users_of : Text → Dict Edge T → List Text
  users_of x current =
      distinct
        (map (λ item. item.0.0) (filter (λ item. item.0.1 == x && not (item.0.0 == x)) current))

  -- The loop over the starts that take an edge over.
  pub add_starts : List Text → Text → T → Dict Edge T → Dict Edge T
  add_starts [] end value folded = folded
  add_starts (start ∷ starts) end value folded =
      if start == end
      then add_starts starts end value folded
      else add_starts starts end value (set_default ⦃e = eq_arrow⦄ (start, end) value folded)

  pub fold_edges : Text → List Text → Dict Edge T → Dict Edge T → Dict Edge T
  unfolding add_starts
  fold_edges x users [] folded = folded
  fold_edges x users (((origin, end), value) ∷ items) folded =
      if end == x
      then fold_edges x users items folded
      else fold_edges x users items
          (add_starts (if origin == x then users else origin ∷ []) end value folded)

  -- The bounded loop of `fold_new_modules`.
  pub fold_loop : ℕ → List Text → Dict Edge T → Dict Edge T
  unfolding new_modules users_of fold_edges
  fold_loop zero known current = current
  fold_loop (suc n) known current = elim (new_modules known current) [
    | [] ↦ current
    | x ∷ _ ↦ fold_loop n known (fold_edges x (users_of x current) current [])
  ]

  unfoldable pub fold_new_modules : Dict Edge T → List Text → Dict Edge T × Dict Edge T
  unfolding reached_from is_dropped fold_loop
  fold_new_modules edges known =
      let reached = reached_from (map (λ item. item.0.0) edges) (keys edges) known in
      let current = filter (λ item. not (is_dropped known reached item)) edges in
      (fold_loop (suc (length current)) known current, filter (is_dropped known reached) edges)
