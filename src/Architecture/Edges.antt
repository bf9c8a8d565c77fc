-- ===== src/Architecture/Edges.antt =====
-- architecture/compare.py: edges between modules, exceptions and `_reachable`. A Python `set` is a
-- list of its elements; where the source iterates over a set, the order is the list's.
use python_arch_testing.Base.{
  Bool, Dict, Eq, List, Text, [], any_of, contains, eq_pair, eq_text, if◌then◌else◌, insert, length,
  lex, lookup, none, some, suc, text_le, zero, ℕ, ◌&&◌, ◌++◌, ◌∷◌,
}
pub mod Reach
use python_arch_testing.Names.{within}

abbrev pub Edge : Type 0
Edge = Text × Text

instance abbrev pub eq_arrow : Eq Edge
eq_arrow = eq_pair ⦃e = eq_text⦄ ⦃f = eq_text⦄

abbrev pub edge_order : Edge → Edge → Bool
edge_order = lex ⦃e = eq_text⦄ text_le text_le

-- `s.add(a)`, for its effect on `s`.
unfoldable pub add : Text → List Text → List Text
add a s = if contains s a then s else s ++ a ∷ []

unfoldable pub covered : Edge → List Edge → Bool
covered pair exceptions = any_of (λ x. within pair.0 x.0 && within pair.1 x.1) exceptions

-- `following.get(x, ())`.
unfoldable pub get_ends : Text → Dict Text (List Text) → List Text
get_ends x following = elim (lookup x following) [ none ↦ [] | some ends ↦ ends ]

-- The dictionary of `_reachable`: the ends of the edges from each origin.
pub following_of : List Edge → Dict Text (List Text) → Dict Text (List Text)
unfolding add get_ends
following_of [] following = following
following_of ((origin, end) ∷ edges) following =
    following_of edges (insert origin (add end (get_ends origin following)) following)

-- The inner loop of `_reachable`; the top of the stack is the head of the list.
pub push_new : List Text → List Text → List Text → List Text × List Text
push_new [] seen stack = (seen, stack)
push_new (nxt ∷ ends) seen stack =
    if contains seen nxt then push_new ends seen stack else push_new ends (nxt ∷ seen) (nxt ∷ stack)

pub reach_loop : ℕ → Dict Text (List Text) → List Text → List Text → List Text
unfolding get_ends push_new
reach_loop fuel following seen [] = seen
reach_loop zero following seen (x ∷ stack) = seen
reach_loop (suc fuel) following seen (x ∷ stack) =
    let next = push_new (get_ends x following) seen stack in reach_loop fuel following next.0 next.1

-- A module is pushed once, and is the start or the end of an edge, which bounds the loop.
unfoldable pub reachable : Text → List Edge → List Text
unfolding reach_loop following_of
reachable start edges =
    reach_loop (suc (length edges)) (following_of edges []) (start ∷ []) (start ∷ [])
