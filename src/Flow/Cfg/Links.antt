-- ===== src/Flow/Cfg/Links.antt =====
-- execution/flow_cfg.py: the state of the builder while nodes and successors are added.
use python_arch_testing.Base.{
  Bool, Bool-cases, Dict, In, In-append, List, Option, Text, [], ap, arith, eq_nat, eq_pair,
  eq_text, false, if◌then◌else◌, inl, inr, insert, lookup, lookup-insert, nat_eq, nat_eq_iff, none,
  refl, some, subst, suc, sym, true, ℕ, ◌<◌, ◌∙◌, ◌∷◌, ◌≡◌, ◌≤◌, ◌⊎◌,
}
use python_arch_testing.Flow.Variable.{CfgNode, FlowMarker}
use python_arch_testing.Flow.Cfg.{
  Builder, Ends, Position, add_successor, is_return, link_exits, new_node, with_successor,
  link_back, link_entry, link_to,
}

-- Every id that was given has a node, and every successor is such an id.
abbrev pub IsLinked : Builder → Type 0
IsLinked b =
    ((i : ℕ) → i < b.next_node_id → (node : CfgNode) × (lookup i b.nodes ≡ some node))
    × ((i : ℕ) (node : CfgNode) (s : ℕ)
        → lookup i b.nodes ≡ some node
        → In s node.successors
        → s < b.next_node_id)

abbrev pub Below : List ℕ → ℕ → Type 0
Below xs n = (x : ℕ) → In x xs → x < n

abbrev pub EndsBelow : Ends → ℕ → Type 0
EndsBelow ends n = ((e : ℕ) → ends.0 ≡ some e → e < n) × Below ends.1 n

abbrev pub Grown : Builder → Builder → Type 0
Grown b c = IsLinked c × (b.next_node_id ≤ c.next_node_id)

one_node : (a c : CfgNode) → some a ≡ some c → a ≡ c
one_node a c h = cc h

-- One node put under an id, with successors below a bound.
insert-IsLinked :
    (b : Builder) (id n : ℕ) (node : CfgNode)
    → IsLinked b
    → b.next_node_id ≤ n
    → ((i : ℕ) → i < n → (i ≡ id) ⊎ (i < b.next_node_id))
    → Below node.successors n
    → IsLinked (record { nodes = insert id node b.nodes; next_node_id = n })
insert-IsLinked b id n node w l new below = (
  λ i h. elim (Bool-cases (nat_eq id i)) [
    | inl e ↦ (node, at_key i e)
    | inr e ↦ elim (new i h) [
      | inl q ↦ absurd (cc (e, (nat_eq_iff id i).1 (sym q)))
      | inr k ↦ let (old, p) = w.0 i k in (old, other_key i e ∙ p)
    ]
  ],
  λ i m s h j. elim (Bool-cases (nat_eq id i)) [
    | inl e ↦ below s (subst (λ z. In s z.successors) (one_node m node (sym h ∙ at_key i e)) j)
    | inr e ↦ let k = w.1 i m s (sym (other_key i e) ∙ h) j in omega (arith, k, l)
  ],
)
  where
    at_key : (i : ℕ) → nat_eq id i ≡ true → lookup i (insert id node b.nodes) ≡ some node
    at_key i e =
        lookup-insert id i node b.nodes ∙ ap (λ c. if c then some node else lookup i b.nodes) e

    other_key : (i : ℕ) → nat_eq id i ≡ false → lookup i (insert id node b.nodes) ≡ lookup i b.nodes
    other_key i e =
        lookup-insert id i node b.nodes ∙ ap (λ c. if c then some node else lookup i b.nodes) e

new_node-IsLinked :
    (flow : Dict Position (List FlowMarker)) (at : Position) (k : Text) (b : Builder)
    → IsLinked b
    → IsLinked (new_node flow at k b)
unfolding new_node
new_node-IsLinked flow at k b w =
    insert-IsLinked b b.next_node_id (suc b.next_node_id) _ w (omega arith)
      (λ i h. elim (Bool-cases (nat_eq i b.next_node_id)) [
        | inl e ↦ inl ((nat_eq_iff _ _).0 e)
        | inr e ↦ inr (ground (arith, h, e))
      ])
      (λ x i. absurd i)

pub new_node-Grown :
    (flow : Dict Position (List FlowMarker)) (at : Position) (k : Text) (b : Builder)
    → IsLinked b
    → Grown b (new_node flow at k b) × (b.next_node_id < (new_node flow at k b).next_node_id)
unfolding new_node
new_node-Grown flow at k b w = ((new_node-IsLinked flow at k b w, omega arith), omega arith)

add_successor-IsLinked :
    (id s : ℕ) (b : Builder) → IsLinked b → s < b.next_node_id → IsLinked (add_successor id s b)
unfolding add_successor
add_successor-IsLinked id s b w l = put (lookup id b.nodes) refl
  where
    put :
        (o : Option CfgNode)
        → lookup id b.nodes ≡ o
        → IsLinked (record { nodes = with_successor id o s b.nodes; next_node_id = b.next_node_id })
    put none e = w
    put (some node) e =
        insert-IsLinked b id b.next_node_id _ w (omega arith) (λ i h. inr h)
          (λ x i. elim ((In-append x node.successors (s ∷ [])).0 i) [
            | inl j ↦ w.1 id node x e j
            | inr j ↦ elim j [ inl q ↦ omega (arith, q, l) | inr n ↦ absurd n ]
          ])

pub link_exits-Grown :
    (exits : List ℕ) (s : ℕ) (b : Builder)
    → IsLinked b
    → s < b.next_node_id
    → Grown b (link_exits exits s b)
unfolding link_exits add_successor
link_exits-Grown [] s b w l = (w, omega arith)
link_exits-Grown (id ∷ exits) s b w l =
    on_kind (link_exits-Grown exits s) (is_return (lookup id b.nodes))
  where
    on_kind :
        ((c : Builder) → IsLinked c → s < c.next_node_id → Grown c (link_exits exits s c))
        → (k : Bool) → Grown b (link_exits exits s (if k then b else add_successor id s b))
    on_kind rest true = rest b w l
    on_kind rest false = rest (add_successor id s b) (add_successor-IsLinked id s b w l) l

pub Grown-trans : (b c d : Builder) → Grown b c → Grown c d → Grown b d
Grown-trans b c d h k = (k.0, omega (arith, h.1, k.1))

pub EndsBelow-le : (ends : Ends) (n m : ℕ) → n ≤ m → EndsBelow ends n → EndsBelow ends m
EndsBelow-le ends n m l h = ((λ e q. omega (arith, l, h.0 e q)), λ x i. omega (arith, l, h.1 x i))

pub link_entry-Grown :
    (id : ℕ) (o : Option ℕ) (b : Builder)
    → IsLinked b
    → ((e : ℕ) → o ≡ some e → e < b.next_node_id)
    → Grown b (link_entry id o b)
unfolding add_successor
link_entry-Grown id none b w h = (w, omega arith)
link_entry-Grown id (some e) b w h = (add_successor-IsLinked id e b w (h e refl), omega arith)

pub link_to-Grown :
    (exits : List ℕ) (o : Option ℕ) (b : Builder)
    → IsLinked b
    → ((e : ℕ) → o ≡ some e → e < b.next_node_id)
    → Grown b (link_to exits o b)
link_to-Grown exits none b w h = (w, omega arith)
link_to-Grown exits (some e) b w h = link_exits-Grown exits e b w (h e refl)

pub link_back-Grown :
    (ends : Ends) (id : ℕ) (b : Builder)
    → IsLinked b
    → id < b.next_node_id
    → Grown b (link_back ends id b)
link_back-Grown (none, exits) id b w l = (w, omega arith)
link_back-Grown (some e, exits) id b w l = link_exits-Grown exits id b w l

pub fresh_below : (n : ℕ) → EndsBelow (none, []) n
fresh_below n = ((λ e q. absurd (cc q)), λ x i. absurd i)
