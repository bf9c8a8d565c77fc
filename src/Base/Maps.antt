-- ===== src/Base/Maps.antt =====
-- A Python `dict`: an association list in insertion order, where a new value keeps its key's place.
use mathlib.Core.Path.{◌≡◌, refl}
use mathlib.Core.Logic.{◌↔◌, ◌⊎◌, inl, inr}
use mathlib.Core.Option.{Option, none, some}
use mathlib.Core.List.{List, [], ◌∷◌, map}
use native.Mathlib.Omega.{arith}
use python_arch_testing.Base.Tests.{if◌then◌else◌, Bool-cases, Option-cases}
use python_arch_testing.Base.Equality.{Eq, ◌==◌}
use python_arch_testing.Base.Lists.{In, length}

abbrev pub Dict : Type 0 → Type 0 → Type 0
Dict K V = List (K × V)

module _ {K V : Type 0} where
  abbrev pub keys : Dict K V → List K
  keys = map (λ p. p.0)

  pub length-keys : (d : Dict K V) → length (keys d) ≡ length d
  length-keys [] = refl
  length-keys (p ∷ d) = omega (arith, length-keys d)

module _ {K V : Type 0} ⦃e : Eq K⦄ where
  -- `d.get(k)`.
  unfoldable pub lookup : K → Dict K V → Option V
  lookup k [] = none
  lookup k ((j, v) ∷ d) = if j == k then some v else lookup k d

  -- `d[k] = v`.
  unfoldable pub insert : K → V → Dict K V → Dict K V
  insert k v [] = (k, v) ∷ []
  insert k v ((j, w) ∷ d) = if j == k then (j, v) ∷ d else (j, w) ∷ insert k v d

  -- `d.setdefault(k, v)`, for its effect on `d`.
  unfoldable pub set_default : K → V → Dict K V → Dict K V
  set_default k v d = elim (lookup k d) [ none ↦ insert k v d | some _ ↦ d ]

  pub lookup-insert :
      (k j : K) (v : V) (d : Dict K V)
      → lookup j (insert k v d) ≡ (if k == j then some v else lookup j d)
  unfolding lookup insert
  lookup-insert k j v [] = refl
  lookup-insert k j v ((i, w) ∷ d) =
      ground (arith, e.beq_iff k j, e.beq_iff i k, e.beq_iff i j, lookup-insert k j v d)

  pub lookup-set_default :
      (k j : K) (v : V) (d : Dict K V)
      → lookup j (set_default k v d)
        ≡ (if k == j then elim (lookup k d) [ none ↦ some v | some w ↦ some w ] else lookup j d)
  unfolding set_default
  lookup-set_default k j v d = ground (arith, e.beq_iff k j, lookup-insert k j v d)

  pub lookup_mem : (k : K) (v : V) (d : Dict K V) → lookup k d ≡ some v → In (k, v) d
  unfolding lookup
  lookup_mem k v [] h = cc
  lookup_mem k v ((j, w) ∷ d) h = ground (arith, e.beq_iff j k, lookup_mem k v d)

  pub lookup_of_key : (k : K) (d : Dict K V) → In k (keys d) → (v : V) × (lookup k d ≡ some v)
  unfolding lookup
  lookup_of_key k [] m = absurd m
  lookup_of_key k ((j, w) ∷ d) m = elim (Bool-cases (j == k)) [
    | inl p ↦ (w, rw p)
    | inr p ↦ let (v, q) = lookup_of_key k d (ground (arith, e.beq_iff j k)) in (v, rw p q)
  ]

  pub key_of_lookup : (k : K) (v : V) (d : Dict K V) → lookup k d ≡ some v → In k (keys d)
  unfolding lookup
  key_of_lookup k v [] h = cc
  key_of_lookup k v ((j, w) ∷ d) h = ground (arith, e.beq_iff j k, key_of_lookup k v d)

  pub In-keys-insert :
      (k j : K) (v : V) (d : Dict K V) → In j (keys (insert k v d)) ↔ ((j ≡ k) ⊎ In j (keys d))
  unfolding insert
  In-keys-insert k j v [] = ground arith
  In-keys-insert k j v ((i, w) ∷ d) = elim (Bool-cases (i == k)) [
    | inl p ↦ rw p (ground (arith, e.beq_iff i k))
    | inr p ↦ rw p (ground (arith, In-keys-insert k j v d))
  ]

  pub In-keys-set_default :
      (k j : K) (v : V) (d : Dict K V) → In j (keys (set_default k v d)) ↔ ((j ≡ k) ⊎ In j (keys d))
  unfolding set_default
  In-keys-set_default k j v d = elim (Option-cases (lookup k d)) [
    | inl e ↦ rw (e, set_default) (In-keys-insert k j v d)
    | inr (w, e) ↦
        rw (e, set_default) (inr, λ c. elim c [ inl p ↦ rw p (key_of_lookup k w d e) | inr m ↦ m ])
  ]
