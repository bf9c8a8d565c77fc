-- ===== src/Architecture/Metrics/Coupled.antt =====
-- architecture/views.py, `metrics`: the two dictionaries of sets, edge by edge.
use python_arch_testing.Base.{
  Bool, Bool-cases, Dict, In, In-append, In-keys-insert, In-keys-set_default, In-map_of, In-sort_by,
  List, Nodup, Text, [], ap, arith, beq_refl, contains, eq_text, false, if◌then◌else◌, inl, inr,
  keys, length, lookup, lookup-set_default, map, mem_map, not_contains, refl, set_default, sort_by,
  subst, sym, text-cases, text_eq_iff, text_le, true, ◌++◌, ◌==◌, ◌↔◌, ◌∙◌, ◌∷◌, ◌≡◌, ◌≢◌, ◌⊎◌,
}
use python_arch_testing.Architecture.Edges.{Edge, add, get_ends}
use python_arch_testing.Architecture.Edges.Reach.{In-add, get_ends-insert}
use python_arch_testing.Architecture.Metrics.{
  Couplings, add_at, couple, couplings, ModuleMetrics, metrics,
}

get_ends-default :
    (k x : Text) (d : Dict Text (List Text)) → get_ends x (set_default k [] d) ≡ get_ends x d
unfolding get_ends
get_ends-default k x d = ground (arith, text_eq_iff k x, lookup-set_default k x [] d)

In-add_at :
    (key a x y : Text) (d : Dict Text (List Text))
    → In y (get_ends x (add_at key a d)) ↔ (In y (get_ends x d) ⊎ (x ≡ key) × (y ≡ a))
unfolding add_at
In-add_at key a x y d = elim (text-cases key x) [
  | inl p ↦
      subst (λ z. In y (get_ends z (add_at key a d)) ↔ (In y (get_ends z d) ⊎ (z ≡ key) × (y ≡ a)))
        p
        (ground (
          arith,
          beq_refl key,
          get_ends-insert key key (add a (get_ends key d)) d,
          In-add a y (get_ends key d),
        ))
  | inr n ↦ ground (arith, text_eq_iff key x, get_ends-insert key x (add a (get_ends key d)) d)
]

-- The couplings after an edge between two modules.
abbrev coupled : Text → Text → Couplings → Couplings
coupled a b c = record {
  users = set_default a [] (add_at b a c.users);
  used = set_default b [] (add_at a b c.used);
}

couple_loop : (a b : Text) (c : Couplings) → (a == b) ≡ true → couple (a, b) c ≡ c
unfolding couple
couple_loop a b c h = ap (λ t. if t then c else coupled a b c) h

couple_other : (a b : Text) (c : Couplings) → (a == b) ≡ false → couple (a, b) c ≡ coupled a b c
unfolding couple
couple_other a b c h = ap (λ t. if t then c else coupled a b c) h

-- The module at the other end of an edge into `m`, and of one out of `m`.
abbrev pub Into : List Edge → Text → Text → Type 0
Into edges m o = In (o, m) edges × (o ≢ m)

abbrev pub Out : List Edge → Text → Text → Type 0
Out edges m o = In (m, o) edges × (m ≢ o)

couple_users :
    (a b : Text) (c : Couplings) (m o : Text)
    → In o (get_ends m (couple (a, b) c).users)
      ↔ (In o (get_ends m c.users) ⊎ ((o ≡ a) × (m ≡ b)) × (o ≢ m))
couple_users a b c m o = elim (Bool-cases (a == b)) [
  | inl h ↦
      subst
        (λ z.
          In o (get_ends m z.users) ↔ (In o (get_ends m c.users) ⊎ ((o ≡ a) × (m ≡ b)) × (o ≢ m)))
        (sym (couple_loop a b c h)) (ground (arith, text_eq_iff a b))
  | inr h ↦
      subst
        (λ z.
          In o (get_ends m z.users) ↔ (In o (get_ends m c.users) ⊎ ((o ≡ a) × (m ≡ b)) × (o ≢ m)))
        (sym (couple_other a b c h))
        (subst (λ z. In o z ↔ (In o (get_ends m c.users) ⊎ ((o ≡ a) × (m ≡ b)) × (o ≢ m)))
          (sym (get_ends-default a m (add_at b a c.users)))
          (ground (arith, text_eq_iff a b, In-add_at b a m o c.users)))
]

couple_used :
    (a b : Text) (c : Couplings) (m o : Text)
    → In o (get_ends m (couple (a, b) c).used)
      ↔ (In o (get_ends m c.used) ⊎ ((m ≡ a) × (o ≡ b)) × (m ≢ o))
couple_used a b c m o = elim (Bool-cases (a == b)) [
  | inl h ↦
      subst
        (λ z. In o (get_ends m z.used) ↔ (In o (get_ends m c.used) ⊎ ((m ≡ a) × (o ≡ b)) × (m ≢ o)))
        (sym (couple_loop a b c h)) (ground (arith, text_eq_iff a b))
  | inr h ↦
      subst
        (λ z. In o (get_ends m z.used) ↔ (In o (get_ends m c.used) ⊎ ((m ≡ a) × (o ≡ b)) × (m ≢ o)))
        (sym (couple_other a b c h))
        (subst (λ z. In o z ↔ (In o (get_ends m c.used) ⊎ ((m ≡ a) × (o ≡ b)) × (m ≢ o)))
          (sym (get_ends-default b m (add_at a b c.used)))
          (ground (arith, text_eq_iff a b, In-add_at a b m o c.used)))
]

couplings_users :
    (edges : List Edge) (c : Couplings) (m o : Text)
    → In o (get_ends m (couplings edges c).users) ↔ (In o (get_ends m c.users) ⊎ Into edges m o)
unfolding couplings
couplings_users [] c m o = ground arith
couplings_users ((a, b) ∷ edges) c m o =
    ground (arith, couplings_users edges (couple (a, b) c) m o, couple_users a b c m o)

couplings_used :
    (edges : List Edge) (c : Couplings) (m o : Text)
    → In o (get_ends m (couplings edges c).used) ↔ (In o (get_ends m c.used) ⊎ Out edges m o)
unfolding couplings
couplings_used [] c m o = ground arith
couplings_used ((a, b) ∷ edges) c m o =
    ground (arith, couplings_used edges (couple (a, b) c) m o, couple_used a b c m o)

Nodup-add : (a : Text) (s : List Text) → Nodup s → Nodup (add a s)
unfolding add
Nodup-add a s d = elim (Bool-cases (contains s a)) [
  | inl h ↦ rw h d
  | inr h ↦ rw h (one_more a s d (not_contains s a h))
]
  where
    one_more : (a : Text) (s : List Text) → Nodup s → ¬ In a s → Nodup (s ++ a ∷ [])
    one_more a [] d n = (λ m. m, tt)
    one_more a (x ∷ s) d n = (
      λ m. elim ((In-append x s (a ∷ [])).0 m) [
        | inl i ↦ d.0 i
        | inr i ↦ elim i [ inl p ↦ n (inl (sym p)) | inr b ↦ b ]
      ],
      one_more a s d.1 (λ m. n (inr m)),
    )

-- Every set of the dictionary is without duplicates.
abbrev Sets : Dict Text (List Text) → Type 0
Sets d = (m : Text) → Nodup (get_ends m d)

Sets-add_at : (key a : Text) (d : Dict Text (List Text)) → Sets d → Sets (add_at key a d)
unfolding add_at
Sets-add_at key a d h m =
    subst Nodup (sym (get_ends-insert key m (add a (get_ends key d)) d)) (either (key == m))
  where
    either : (b : Bool) → Nodup (if b then add a (get_ends key d) else get_ends m d)
    either true = Nodup-add a (get_ends key d) (h key)
    either false = h m

abbrev AllSets : Couplings → Type 0
AllSets c = Sets c.users × Sets c.used

couple-AllSets : (a b : Text) (c : Couplings) → AllSets c → AllSets (couple (a, b) c)
couple-AllSets a b c h = elim (Bool-cases (a == b)) [
  | inl t ↦ subst AllSets (sym (couple_loop a b c t)) h
  | inr t ↦ subst AllSets (sym (couple_other a b c t)) (
    λ m.
        subst Nodup (sym (get_ends-default a m (add_at b a c.users)))
          (Sets-add_at b a c.users h.0 m),
    λ m.
        subst Nodup (sym (get_ends-default b m (add_at a b c.used))) (Sets-add_at a b c.used h.1 m),
  )
]

couplings-AllSets : (edges : List Edge) (c : Couplings) → AllSets c → AllSets (couplings edges c)
unfolding couplings
couplings-AllSets [] c h = h
couplings-AllSets ((a, b) ∷ edges) c h =
    couplings-AllSets edges (couple (a, b) c) (couple-AllSets a b c h)

-- A module at an end of an edge between two modules.
abbrev pub Touched : List Edge → Text → Type 0
Touched edges m = (p : Edge) × In p edges × (p.0 ≢ p.1) × ((m ≡ p.0) ⊎ (m ≡ p.1))

couple-keys :
    (a b : Text) (c : Couplings) (m : Text)
    → In m (keys (couple (a, b) c).users) ↔ (In m (keys c.users) ⊎ (a ≢ b) × ((m ≡ a) ⊎ (m ≡ b)))
couple-keys a b c m = elim (Bool-cases (a == b)) [
  | inl h ↦
      subst (λ z. In m (keys z.users) ↔ (In m (keys c.users) ⊎ (a ≢ b) × ((m ≡ a) ⊎ (m ≡ b))))
        (sym (couple_loop a b c h)) (ground (arith, text_eq_iff a b))
  | inr h ↦
      subst (λ z. In m (keys z.users) ↔ (In m (keys c.users) ⊎ (a ≢ b) × ((m ≡ a) ⊎ (m ≡ b))))
        (sym (couple_other a b c h))
        (ground (
          arith,
          text_eq_iff a b,
          In-keys-set_default a m [] (add_at b a c.users),
          keys_add_at b a m c.users,
        ))
]
  where
    keys_add_at :
        (key a m : Text) (d : Dict Text (List Text))
        → In m (keys (add_at key a d)) ↔ ((m ≡ key) ⊎ In m (keys d))
    keys_add_at key a m d = unfold add_at in In-keys-insert key m (add a (get_ends key d)) d

couplings-keys :
    (edges : List Edge) (c : Couplings) (m : Text)
    → In m (keys (couplings edges c).users) ↔ (In m (keys c.users) ⊎ Touched edges m)
unfolding couplings
couplings-keys [] c m = (inl, λ x. elim x [ inl i ↦ i | inr w ↦ absurd w.1 ])
couplings-keys ((a, b) ∷ edges) c m =
    let ih = couplings-keys edges (couple (a, b) c) m in
    let one = couple-keys a b c m in
    (
      λ i. elim (ih.0 i) [
        | inl j ↦ elim (one.0 j) [ inl old ↦ inl old | inr q ↦ inr ((a, b), inl refl, q.0, q.1) ]
        | inr w ↦ inr (w.0, inr w.1, w.2, w.3)
      ],
      λ x. ih.1 (elim x [
        | inl old ↦ inl (one.1 (inl old))
        | inr w ↦ elim w.1 [
          | inl p ↦ inl (one.1 (inr (ends_of w.0 p w.2 w.3)))
          | inr j ↦ inr (w.0, j, w.2, w.3)
        ]
      ]),
    )
  where
    ends_of :
        (p : Edge) → p ≡ (a, b) → p.0 ≢ p.1 → (m ≡ p.0) ⊎ (m ≡ p.1) → (a ≢ b) × ((m ≡ a) ⊎ (m ≡ b))
    ends_of p q n e = subst (λ z. (z.0 ≢ z.1) × ((m ≡ z.0) ⊎ (m ≡ z.1))) q (n, e)

-- The numbers that `metrics` gives a module.
pub record Counts (edges : List Edge) (m : Text) (x : ModuleMetrics) : Type 0 where
  pub ins : List Text
  pub ins_once : Nodup ins
  pub ins_iff : (o : Text) → In o ins ↔ Into edges m o
  pub fan_in_length : x.fan_in ≡ length ins
  pub outs : List Text
  pub outs_once : Nodup outs
  pub outs_iff : (o : Text) → In o outs ↔ Out edges m o
  pub fan_out_length : x.fan_out ≡ length outs

-- `metrics` has an entry just for each module at an end of an edge between two modules, and its
-- fan-in and fan-out are the numbers of the different other modules that use it and that it uses.
pub metrics_exact :
    (edges : List Edge) (m : Text)
    → (In m (keys (metrics edges)) ↔ Touched edges m)
      × ((x : ModuleMetrics) → In (m, x) (metrics edges) → Counts edges m x)
unfolding metrics
metrics_exact edges m = (
  (
    λ i.
        let (e, j, p) = mem_map (λ z. z.0) m (map row (sort_by text_le (keys last.users))) i in
        let (n, k, q) = mem_map row e (sort_by text_le (keys last.users)) j in
        touched m (
          subst (λ z. In z (keys last.users)) (sym (p ∙ ap (λ z. z.0) q))
            ((In-sort_by text_le n (keys last.users)).0 k)),
    λ w.
        In-map_of (λ z. z.0) (row m) (map row (sort_by text_le (keys last.users)))
          (In-map_of row m (sort_by text_le (keys last.users)) (
            (In-sort_by text_le m (keys last.users)).1 ((couplings-keys edges empty m).1 (inr w)))),
  ),
  λ x i.
      let (n, k, q) = mem_map row (m, x) (sort_by text_le (keys last.users)) i in
      subst (Counts edges m) (sym (ap (λ z. z.1) q ∙ ap (λ z. (row z).1) (sym (ap (λ z. z.0) q))))
        (record {
          ins = get_ends m last.users;
          ins_once = (couplings-AllSets edges empty none_yet).0 m;
          ins_iff = λ o. ground (arith, couplings_users edges empty m o, no_ends m o);
          fan_in_length = refl;
          outs = get_ends m last.used;
          outs_once = (couplings-AllSets edges empty none_yet).1 m;
          outs_iff = λ o. ground (arith, couplings_used edges empty m o, no_ends m o);
          fan_out_length = refl;
        }),
)
  where
    empty : Couplings
    empty = record { users = []; used = [] }

    last : Couplings
    last = couplings edges (record { users = []; used = [] })

    row : Text → Text × ModuleMetrics
    row m = (
      m,
      record { fan_in = length (get_ends m last.users); fan_out = length (get_ends m last.used) },
    )

    touched : (m : Text) → In m (keys last.users) → Touched edges m
    touched m i = elim ((couplings-keys edges empty m).0 i) [ inl b ↦ absurd b | inr w ↦ w ]

    none_yet : AllSets empty
    none_yet =
        (λ m. unfold get_ends in unfold lookup in tt, λ m. unfold get_ends in unfold lookup in tt)

    no_ends : (m o : Text) → ¬ In o (get_ends m [])
    no_ends m o i = unfold get_ends in unfold lookup in i
