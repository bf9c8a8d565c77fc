-- ===== src/Architecture/Edges/Reach.antt =====
-- architecture/compare.py, `_reachable`: chains of edges, and the loop over the stack.
use python_arch_testing.Base.{
  Bool-cases, Dict, In, In-append, List, Text, [], ap, arith, contains, contains_iff, eq_text,
  false, if◌then◌else◌, inl, inr, insert, length, lookup, lookup-insert, refl, subst, suc,
  text_eq_iff, zero, ℕ, ◌+◌, ◌<◌, ◌==◌, ◌↔◌, ◌∷◌, ◌≡◌, ◌≤◌, ◌⊎◌,
}
use python_arch_testing.Architecture.Edges.{
  Edge, add, following_of, get_ends, push_new, reach_loop, reachable,
}

-- A chain of edges, possibly empty.
pub data Reaches (edges : List Edge) : Text → Text → Type 0 where
  here : {a : Text} → Reaches edges a a
  step : {a b c : Text} → Reaches edges a b → In (b, c) edges → Reaches edges a c

pub In-add : (a x : Text) (s : List Text) → In x (add a s) ↔ (In x s ⊎ (x ≡ a))
unfolding add
In-add a x s = elim (Bool-cases (contains s a)) [
  | inl h ↦ rw h (inl, λ c. elim c [ inl m ↦ m | inr e ↦ rw e ((contains_iff s a).0 h) ])
  | inr h ↦ rw h (ground (arith, In-append x s (a ∷ [])))
]

pub get_ends-insert :
    (o x : Text) (ends : List Text) (d : Dict Text (List Text))
    → get_ends x (insert o ends d) ≡ (if o == x then ends else get_ends x d)
unfolding get_ends
get_ends-insert o x ends d = ground (arith, lookup-insert o x ends d)

following_iff :
    (edges : List Edge) (d : Dict Text (List Text)) (x y : Text)
    → In y (get_ends x (following_of edges d)) ↔ (In y (get_ends x d) ⊎ In (x, y) edges)
unfolding following_of
following_iff [] d x y = ground arith
following_iff ((o, e) ∷ edges) d x y = elim (Bool-cases (o == x)) [
  | inl h ↦ ground (
    arith,
    text_eq_iff o x,
    following_iff edges (insert o (add e (get_ends o d)) d) x y,
    get_ends-insert o x (add e (get_ends o d)) d,
    In-add e y (get_ends o d),
  )
  | inr h ↦ ground (
    arith,
    text_eq_iff o x,
    following_iff edges (insert o (add e (get_ends o d)) d) x y,
    get_ends-insert o x (add e (get_ends o d)) d,
  )
]

no_ends : (x y : Text) → ¬ In y (get_ends x [])
unfolding get_ends lookup
no_ends x y m = m

ends_iff :
    (edges : List Edge) (x y : Text) → In y (get_ends x (following_of edges [])) ↔ In (x, y) edges
ends_iff edges x y = ground (arith, following_iff edges [] x y, no_ends x y)

push-seen :
    (ends seen stack : List Text) (x : Text)
    → In x ((push_new ends seen stack).0) ↔ (In x seen ⊎ In x ends)
unfolding push_new
push-seen [] seen stack x = ground arith
push-seen (e ∷ ends) seen stack x = elim (Bool-cases (contains seen e)) [
  | inl h ↦ rw h (ground (arith, push-seen ends seen stack x, contains_iff seen e))
  | inr h ↦ rw h (ground (arith, push-seen ends (e ∷ seen) (e ∷ stack) x))
]

push-stack :
    (ends seen stack : List Text) (x : Text) → In x stack → In x ((push_new ends seen stack).1)
unfolding push_new
push-stack [] seen stack x m = m
push-stack (e ∷ ends) seen stack x m = elim (Bool-cases (contains seen e)) [
  | inl h ↦ rw h (push-stack ends seen stack x m)
  | inr h ↦ rw h (push-stack ends (e ∷ seen) (e ∷ stack) x (inr m))
]

push_fresh :
    (ends seen stack : List Text) (x : Text)
    → In x ((push_new ends seen stack).0)
    → In x seen ⊎ In x ((push_new ends seen stack).1)
unfolding push_new
push_fresh [] seen stack x m = inl m
push_fresh (e ∷ ends) seen stack x m = elim (Bool-cases (contains seen e)) [
  | inl h ↦ rw h (push_fresh ends seen stack x (rw h at m))
  | inr h ↦ rw h (elim (push_fresh ends (e ∷ seen) (e ∷ stack) x (rw h at m)) [
    | inl k ↦ elim k [
      | inl p ↦ inr (push-stack ends (e ∷ seen) (e ∷ stack) x (inl p))
      | inr n ↦ inl n
    ]
    | inr k ↦ inr k
  ])
]

pushed-seen :
    (ends seen stack : List Text)
    → ((w : Text) → In w stack → In w seen)
    → (y : Text) → In y ((push_new ends seen stack).1)
    → In y ((push_new ends seen stack).0)
unfolding push_new
pushed-seen [] seen stack sub y m = sub y m
pushed-seen (e ∷ ends) seen stack sub y m = elim (Bool-cases (contains seen e)) [
  | inl h ↦ rw h (pushed-seen ends seen stack sub y (rw h at m))
  | inr h ↦ rw h (
      pushed-seen ends (e ∷ seen) (e ∷ stack)
        (λ w n. elim n [ inl p ↦ inl p | inr q ↦ inr (sub w q) ]) y (rw h at m))
]

-- The edges whose end has not been seen.
unseen : List Text → List Edge → ℕ
unseen seen [] = 0
unseen seen (p ∷ edges) = if contains seen (p.1) then unseen seen edges else suc (unseen seen edges)

unseen-cons-le :
    (e : Text) (seen : List Text) (edges : List Edge) → unseen (e ∷ seen) edges ≤ unseen seen edges
unfolding unseen
unseen-cons-le e seen [] = omega arith
unseen-cons-le e seen (p ∷ edges) = ground (arith, unseen-cons-le e seen edges)

unseen-cons-lt :
    (o e : Text) (seen : List Text) (edges : List Edge)
    → In (o, e) edges
    → contains seen e ≡ false
    → unseen (e ∷ seen) edges < unseen seen edges
unfolding unseen
unseen-cons-lt o e seen [] m n = absurd m
unseen-cons-lt o e seen ((a, b) ∷ edges) (inl p) n =
    let q : e ≡ b = ap (λ x. x.1) p in ground (arith, text_eq_iff b e, unseen-cons-le e seen edges)
unseen-cons-lt o e seen ((a, b) ∷ edges) (inr m) n =
    ground (arith, text_eq_iff b e, unseen-cons-lt o e seen edges m n)

push_measure :
    (edges : List Edge) (x : Text) (ends seen stack : List Text)
    → ((y : Text) → In y ends → In (x, y) edges)
    → length ((push_new ends seen stack).1) + unseen ((push_new ends seen stack).0) edges
      ≤ length stack + unseen seen edges
unfolding push_new
push_measure edges x [] seen stack sub = omega arith
push_measure edges x (e ∷ ends) seen stack sub = elim (Bool-cases (contains seen e)) [
  | inl h ↦ rw h (push_measure edges x ends seen stack (λ y m. sub y (inr m)))
  | inr h ↦ rw h (
      omega (
        arith,
        push_measure edges x ends (e ∷ seen) (e ∷ stack) (λ y m. sub y (inr m)),
        unseen-cons-lt x e seen edges (sub e (inl refl)) h,
      ))
]

-- Seen modules are reached; the edges out of those that are done lead to seen modules.
record Loop (start : Text) (edges : List Edge) (seen stack : List Text) : Type 0 where
  started : In start seen
  reached : (x : Text) → In x seen → Reaches edges start x
  stacked : (x : Text) → In x stack → In x seen
  done : (x y : Text) → In x seen → In (x, y) edges → In x stack ⊎ In y seen

reach_lem :
    (start : Text) (edges : List Edge) (fuel : ℕ) (seen stack : List Text)
    → Loop start edges seen stack
    → length stack + unseen seen edges ≤ fuel
    → (x : Text) → In x (reach_loop fuel (following_of edges []) seen stack) ↔ Reaches edges start x
unfolding reach_loop
reach_lem start edges fuel seen [] inv enough x = (inv.reached x, complete)
  where
    complete : {y : Text} → Reaches edges start y → In y seen
    complete here = inv.started
    complete (step {b = b} {c = c} r m) = elim (inv.done b c (complete r) m) [
      | inl n ↦ absurd n
      | inr n ↦ n
    ]
reach_lem start edges zero seen (z ∷ stack) inv enough x = let no : ⊥ = omega arith in absurd no
reach_lem start edges (suc fuel) seen (z ∷ stack) inv enough x =
    reach_lem start edges fuel ((push_new ends seen stack).0) ((push_new ends seen stack).1)
      (record {
        started = (push-seen ends seen stack start).1 (inl inv.started);
        reached = λ y m. elim ((push-seen ends seen stack y).0 m) [
          | inl n ↦ inv.reached y n
          | inr n ↦ step (inv.reached z (inv.stacked z (inl refl))) ((ends_iff edges z y).0 n)
        ];
        stacked = λ y m. pushed-seen ends seen stack (λ w n. inv.stacked w (inr n)) y m;
        done = λ a b m n. elim ((push-seen ends seen stack a).0 m) [
          | inl k ↦ elim (inv.done a b k n) [
            | inl q ↦ elim q [
              | inl p ↦ inr (
                  (push-seen ends seen stack b).1
                    (inr ((ends_iff edges z b).1 (subst (λ w. In (w, b) edges) p n))))
              | inr q ↦ inl (push-stack ends seen stack a q)
            ]
            | inr q ↦ inr ((push-seen ends seen stack b).1 (inl q))
          ]
          | inr k ↦ elim (push_fresh ends seen stack a m) [
            | inl q ↦ elim (inv.done a b q n) [
              | inl s ↦ elim s [
                | inl p ↦ inr (
                    (push-seen ends seen stack b).1
                      (inr ((ends_iff edges z b).1 (subst (λ w. In (w, b) edges) p n))))
                | inr s ↦ inl (push-stack ends seen stack a s)
              ]
              | inr s ↦ inr ((push-seen ends seen stack b).1 (inl s))
            ]
            | inr q ↦ inl q
          ]
        ];
      })
      (omega (arith, push_measure edges z ends seen stack (λ y m. (ends_iff edges z y).0 m))) x
  where
    ends : List Text
    ends = get_ends z (following_of edges [])

unseen-le-length : (seen : List Text) (edges : List Edge) → unseen seen edges ≤ length edges
unfolding unseen
unseen-le-length seen [] = omega arith
unseen-le-length seen (p ∷ edges) = ground (arith, unseen-le-length seen edges)

-- The modules that `_reachable` returns are just those that a chain of edges, possibly empty,
-- leads to from the start: the loop ends within its fuel.
pub reachable_iff :
    (start : Text) (edges : List Edge) (x : Text)
    → In x (reachable start edges) ↔ Reaches edges start x
unfolding reachable
reachable_iff start edges =
    reach_lem start edges (suc (length edges)) (start ∷ []) (start ∷ [])
      (record {
        started = inl refl;
        reached = λ x m. elim m [ inl p ↦ rw p here | inr n ↦ absurd n ];
        stacked = λ x m. m;
        done = λ x y m n. inl m;
      })
      (omega (arith, unseen-le-length (start ∷ []) edges))
