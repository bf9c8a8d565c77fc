-- ===== src/Base/Lists.antt =====
-- Lists under native numbers: membership with its test, and Python's operations on sequences.
use Prim.Native.Nat.{ℕ, zero, suc, ◌+◌}
use mathlib.Core.Path.{◌≡◌, refl, ap}
use mathlib.Core.Logic.{◌↔◌, ◌⊎◌, inl, inr}
use mathlib.Core.Bool.{Bool, true, false, ◌&&◌, ◌||◌}
use mathlib.Core.Option.{Option, none, some}
use mathlib.Core.List.{List, [], ◌∷◌, ◌++◌, map}
use native.Mathlib.Omega.{arith}
use python_arch_testing.Base.Tests.{if◌then◌else◌, Bool-cases}
use python_arch_testing.Base.Equality.{Eq, ◌==◌}

module _ {ℓ} {A : Type ℓ} where
  abbrev pub length : List A → ℕ
  length [] = 0
  length (x ∷ xs) = suc (length xs)

  abbrev pub get_elem? : List A → ℕ → Option A
  get_elem? [] i = none
  get_elem? (x ∷ xs) zero = some x
  get_elem? (x ∷ xs) (suc i) = get_elem? xs i

  abbrev pub drop : ℕ → List A → List A
  drop zero xs = xs
  drop (suc n) [] = []
  drop (suc n) (x ∷ xs) = drop n xs

  abbrev pub take : ℕ → List A → List A
  take zero xs = []
  take (suc n) [] = []
  take (suc n) (x ∷ xs) = x ∷ take n xs

  pub length-append : (xs ys : List A) → length (xs ++ ys) ≡ length xs + length ys
  length-append [] ys = omega arith
  length-append (x ∷ xs) ys = omega (arith, length-append xs ys)

  abbrev pub All {κ} : (A → Type κ) → List A → Type κ
  All P [] = Unit
  All P (x ∷ xs) = P x × All P xs

  -- Python's `any` and `all` over a test.
  abbrev pub any_of : (A → Bool) → List A → Bool
  any_of p [] = false
  any_of p (x ∷ xs) = p x || any_of p xs

  abbrev pub all_of : (A → Bool) → List A → Bool
  all_of p [] = true
  all_of p (x ∷ xs) = p x && all_of p xs

  -- `[x for x in xs if p(x)]`.
  abbrev pub filter : (A → Bool) → List A → List A
  filter p [] = []
  filter p (x ∷ xs) = if p x then x ∷ filter p xs else filter p xs

  pub List-cases : (xs : List A) → (xs ≡ []) ⊎ ((x : A) × (rest : List A) × (xs ≡ x ∷ rest))
  List-cases [] = inl refl
  List-cases (x ∷ xs) = inr (x, xs, refl)

-- Membership in the data of the program.
module _ {A : Type 0} where
  abbrev pub In : A → List A → Type 0
  In a [] = ⊥
  In a (x ∷ xs) = (a ≡ x) ⊎ In a xs

  abbrev pub Nodup : List A → Type 0
  Nodup [] = Unit
  Nodup (x ∷ xs) = (¬ In x xs) × Nodup xs

  abbrev pub Subset : List A → List A → Type 0
  Subset xs ys = (a : A) → In a xs → In a ys

  pub In-append : (a : A) (xs ys : List A) → In a (xs ++ ys) ↔ (In a xs ⊎ In a ys)
  In-append a [] ys = ground arith
  In-append a (x ∷ xs) ys = ground (arith, In-append a xs ys)

  pub In-filter :
      (p : A → Bool) (a : A) (xs : List A) → In a (filter p xs) ↔ (In a xs × (p a ≡ true))
  In-filter p a [] = ground arith
  In-filter p a (x ∷ xs) = elim (Bool-cases (p x)) [
    | inl e ↦ rw e (ground (arith, In-filter p a xs))
    | inr e ↦ rw e (ground (arith, In-filter p a xs))
  ]

  pub All_at {κ} : (P : A → Type κ) (a : A) (xs : List A) → All P xs → In a xs → P a
  All_at P a [] h m = absurd m
  All_at P a (x ∷ xs) h (inl e) = rw e h.0
  All_at P a (x ∷ xs) h (inr m) = All_at P a xs h.1 m

  pub All-of {κ} : (P : A → Type κ) (xs : List A) → ((a : A) → In a xs → P a) → All P xs
  All-of P [] h = tt
  All-of P (x ∷ xs) h = (h x (inl refl), All-of P xs (λ a m. h a (inr m)))

  pub any_of_iff :
      (p : A → Bool) (xs : List A) → (any_of p xs ≡ true) ↔ ((a : A) × In a xs × (p a ≡ true))
  any_of_iff p [] = (λ h. cc, λ w. absurd w.1)
  any_of_iff p (x ∷ xs) =
      (any_of_cons p x xs (any_of_iff p xs).0, cons_any_of p x xs (any_of_iff p xs).1)
    where
      any_of_cons :
          (p : A → Bool) (x : A) (xs : List A)
          → (any_of p xs ≡ true → (a : A) × In a xs × (p a ≡ true))
          → any_of p (x ∷ xs) ≡ true
          → (a : A) × In a (x ∷ xs) × (p a ≡ true)
      any_of_cons p x xs ih h = elim (Bool-cases (p x)) [
        | inl e ↦ (x, inl refl, e)
        | inr e ↦ let (a, m, t) = ih (rw e at h) in (a, inr m, t)
      ]

      cons_any_of :
          (p : A → Bool) (x : A) (xs : List A)
          → ((a : A) × In a xs × (p a ≡ true) → any_of p xs ≡ true)
          → (a : A) × In a (x ∷ xs) × (p a ≡ true)
          → any_of p (x ∷ xs) ≡ true
      cons_any_of p x xs ih (a, inl e, t) = rw (← e, t)
      cons_any_of p x xs ih (a, inr m, t) = rw (ih (a, m, t)) (ground arith)

module _ {A B : Type 0} where
  pub mem_map : (f : A → B) (b : B) (xs : List A) → In b (map f xs) → (a : A) × In a xs × (b ≡ f a)
  mem_map f b [] m = absurd m
  mem_map f b (x ∷ xs) (inl e) = (x, inl refl, e)
  mem_map f b (x ∷ xs) (inr m) = let (a, n, e) = mem_map f b xs m in (a, inr n, e)

  pub In-map_of : (f : A → B) (a : A) (xs : List A) → In a xs → In (f a) (map f xs)
  In-map_of f a [] m = m
  In-map_of f a (x ∷ xs) (inl e) = inl (ap f e)
  In-map_of f a (x ∷ xs) (inr m) = inr (In-map_of f a xs m)

-- `x in xs`, and `set(xs)` as the list of its first occurrences.
module _ {A : Type 0} ⦃e : Eq A⦄ where
  abbrev pub contains : List A → A → Bool
  contains [] a = false
  contains (x ∷ xs) a = a == x || contains xs a

  pub contains_iff : (xs : List A) (a : A) → (contains xs a ≡ true) ↔ In a xs
  contains_iff [] a = (λ h. cc, λ m. absurd m)
  contains_iff (x ∷ xs) a = ground (arith, e.beq_iff a x, contains_iff xs a)

  pub not_contains : (xs : List A) (a : A) → contains xs a ≡ false → ¬ In a xs
  not_contains xs a h m = cc ((contains_iff xs a).1 m)

  unfoldable pub distinct : List A → List A
  distinct [] = []
  distinct (x ∷ xs) = if contains xs x then distinct xs else x ∷ distinct xs

  pub In-distinct : (a : A) (xs : List A) → In a (distinct xs) ↔ In a xs
  unfolding distinct
  In-distinct a [] = ground arith
  In-distinct a (x ∷ xs) = elim (Bool-cases (contains xs x)) [
    | inl h ↦ rw h (
      λ m. inr ((In-distinct a xs).0 m),
      λ m. elim m [
        | inl p ↦ rw p ((In-distinct x xs).1 ((contains_iff xs x).0 h))
        | inr n ↦ (In-distinct a xs).1 n
      ],
    )
    | inr h ↦ rw h (ground (arith, In-distinct a xs))
  ]

  pub distinct-Nodup : (xs : List A) → Nodup (distinct xs)
  unfolding distinct
  distinct-Nodup [] = tt
  distinct-Nodup (x ∷ xs) = elim (Bool-cases (contains xs x)) [
    | inl h ↦ rw h (distinct-Nodup xs)
    | inr h ↦ rw h (λ m. not_contains xs x h ((In-distinct x xs).0 m), distinct-Nodup xs)
  ]
