-- ===== src/Architecture/Fold/Paths.antt =====
-- architecture/compare.py, `fold_new_modules`: chains through new modules, before and after a turn.
use python_arch_testing.Base.{In, List, Text, inl, inr, subst, sym, text-cases, ◌↔◌, ◌≡◌, ◌≢◌, ◌⊎◌}
use python_arch_testing.Architecture.Edges.{Edge}

-- A chain of edges whose inner modules are not known.
pub data Via (known : List Text) (edges : List Edge) : Text → Text → Type 0 where
  direct : {a b : Text} → In (a, b) edges → Via known edges a b
  via : {a n b : Text} → In (a, n) edges → ¬ In n known → Via known edges n b → Via known edges a b

module _ (known : List Text) (x : Text) (E F : List Edge) where
  -- `F` is `E` with `x` folded into its users.
  abbrev pub Turns : Type 0
  Turns =
      (a b : Text)
      → In (a, b) F ↔ ((a ≢ x) × (b ≢ x) × (a ≢ b) × (In (a, b) E ⊎ In (a, x) E × In (x, b) E))

  module _ (turns : Turns) where
    unfold_edge : (a b : Text) → ¬ In x known → In (a, b) F → Via known E a b
    unfold_edge a b new m = elim (((turns a b).0 m).3) [
      | inl n ↦ direct n
      | inr (n, k) ↦ via n new (direct k)
    ]

    join_chain : {a n b : Text} → Via known E a n → ¬ In n known → Via known E n b → Via known E a b
    join_chain (direct m) new rest = via m new rest
    join_chain (via m k chain) new rest = via m k (join_chain chain new rest)

    pub unfold_chain : {a b : Text} → ¬ In x known → Via known F a b → Via known E a b
    unfold_chain new (direct {a = a} {b = b} m) = unfold_edge a b new m
    unfold_chain new (via {a = a} {n = n} m k chain) =
        join_chain (unfold_edge a n new m) k (unfold_chain new chain)

    -- From a module that stays, and from the users of the one that does not.
    abbrev Folded : Text → Text → Type 0
    Folded a b =
        (a ≢ x → (a ≡ b) ⊎ Via known F a b)
        × (a ≡ x → (u : Text) → In (u, x) E → u ≢ x → (u ≡ b) ⊎ Via known F u b)

    fold_direct : (a b : Text) → In (a, b) E → b ≢ x → Folded a b
    fold_direct a b m bx = (
      λ ax. elim (text-cases a b) [
        | inl p ↦ inl p
        | inr ab ↦ inr (direct ((turns a b).1 (ax, bx, ab, inl m)))
      ],
      λ p u n ux. elim (text-cases u b) [
        | inl q ↦ inl q
        | inr ub ↦ inr (direct ((turns u b).1 (ux, bx, ub, inr (n, subst (λ z. In (z, b) E) p m))))
      ],
    )

    extend :
        (a n b : Text)
        → a ≢ x
        → n ≢ x
        → ¬ In n known
        → In (a, n) E ⊎ In (a, x) E × In (x, n) E
        → (n ≡ b) ⊎ Via known F n b
        → (a ≡ b) ⊎ Via known F a b
    extend a n b ax nx new m rest = elim (text-cases a n) [
      | inl p ↦ subst (λ z. (z ≡ b) ⊎ Via known F z b) (sym p) rest
      | inr an ↦ elim rest [
        | inl q ↦ inr (subst (Via known F a) q (direct ((turns a n).1 (ax, nx, an, m))))
        | inr chain ↦ inr (via ((turns a n).1 (ax, nx, an, m)) new chain)
      ]
    ]

    fold_via : (a n b : Text) → In (a, n) E → ¬ In n known → Folded n b → Folded a b
    fold_via a n b m new rest = elim (text-cases n x) [
      | inl p ↦ (λ ax. rest.1 p a (subst (λ z. In (a, z) E) p m) ax, λ q u k ux. rest.1 p u k ux)
      | inr nx ↦ (
        λ ax. extend a n b ax nx new (inl m) (rest.0 nx),
        λ q u k ux. extend u n b ux nx new (inr (k, subst (λ z. In (z, n) E) q m)) (rest.0 nx),
      )
    ]

    pub fold_chain : {a b : Text} → b ≢ x → Via known E a b → Folded a b
    fold_chain bx (direct {a = a} {b = b} m) = fold_direct a b m bx
    fold_chain bx (via {a = a} {n = n} {b = b} m new chain) =
        fold_via a n b m new (fold_chain bx chain)
