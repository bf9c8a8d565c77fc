-- ===== src/Names/Laws.antt =====
-- How the tests on dotted names nest.
use python_arch_testing.Base.{
  Bool-cases, In, List, Text, [], ap, arith, eq_nat, false, inl, inr, length, length-append, none,
  refl, some, suc, text_eq_iff, true, ◌++◌, ◌↔◌, ◌∷◌, ◌≡◌, ◌≤◌, ◌⊎◌,
}
use python_arch_testing.Names.Text.{dot, starts_with, dotted, in_module, within, matches_prefix}

starts_with_self : (s : Text) → starts_with s s ≡ true
unfolding starts_with
starts_with_self [] = refl
starts_with_self (a ∷ s) = ground (arith, starts_with_self s)

pub starts_with-append : (s p q : Text) → starts_with s (p ++ q) ≡ true → starts_with s p ≡ true
unfolding starts_with
starts_with-append s [] q h = refl
starts_with-append [] (b ∷ p) q h = cc
starts_with-append (a ∷ s) (b ∷ p) q h = ground (arith, starts_with-append s p q)

pub starts_with_nested :
    (s p q : Text)
    → starts_with s p ≡ true
    → starts_with s q ≡ true
    → length q ≤ length p
    → starts_with p q ≡ true
unfolding starts_with
starts_with_nested s p [] h k l = refl
starts_with_nested s [] (c ∷ q) h k l = absurd (omega arith)
starts_with_nested [] (b ∷ p) (c ∷ q) h k l = cc
starts_with_nested (a ∷ s) (b ∷ p) (c ∷ q) h k l = ground (arith, starts_with_nested s p q)

pub length-starts_with : (s p : Text) → starts_with s p ≡ true → length p ≤ length s
unfolding starts_with
length-starts_with s [] h = omega arith
length-starts_with [] (b ∷ p) h = cc
length-starts_with (a ∷ s) (b ∷ p) h = ground (arith, length-starts_with s p)

pub starts_with_antisymm : (s p : Text) → starts_with s p ≡ true → length s ≤ length p → s ≡ p
unfolding starts_with
starts_with_antisymm [] [] h l = refl
starts_with_antisymm (a ∷ s) [] h l = absurd (omega arith)
starts_with_antisymm [] (b ∷ p) h l = cc
starts_with_antisymm (a ∷ s) (b ∷ p) h l = ground (arith, starts_with_antisymm s p)

pub starts_with_trans :
    (s p q : Text) → starts_with s p ≡ true → starts_with p q ≡ true → starts_with s q ≡ true
unfolding starts_with
starts_with_trans s p [] h k = refl
starts_with_trans s [] (c ∷ q) h k = cc
starts_with_trans [] (b ∷ p) (c ∷ q) h k = cc
starts_with_trans (a ∷ s) (b ∷ p) (c ∷ q) h k = ground (arith, starts_with_trans s p q)

pub length-dotted : (p : Text) → length (dotted p) ≡ suc (length p)
length-dotted p = omega (arith, length-append p (dot ∷ []))

-- A package and what lies inside it: equal names, or a prefix that ends at a dot.
abbrev pub Inside : Text → Text → Type 0
Inside name module' = (name ≡ module') ⊎ (starts_with name (dotted module') ≡ true)

pub within_iff : (name prefix : Text) → (within name prefix ≡ true) ↔ Inside name prefix
unfolding within
within_iff name prefix = ground (arith, text_eq_iff name prefix)

pub Inside-trans : (a b c : Text) → Inside a b → Inside b c → Inside a c
Inside-trans a b c (inl p) k = rw p k
Inside-trans a b c (inr h) (inl q) = inr (rw (← q) h)
Inside-trans a b c (inr h) (inr k) =
    inr (starts_with_trans a b (dotted c) (starts_with-append a b (dot ∷ []) h) k)

pub Inside-antisymm : (a b : Text) → Inside a b → Inside b a → a ≡ b
Inside-antisymm a b (inl p) k = p
Inside-antisymm a b (inr h) (inl q) = cc
Inside-antisymm a b (inr h) (inr k) = absurd (
    omega (
      arith,
      length-starts_with a (dotted b) h,
      length-starts_with b (dotted a) k,
      length-dotted a,
      length-dotted b,
    ))

-- Two packages around one name: the one with the longer name lies inside the other.
pub Inside-nested :
    (name a b : Text) → Inside name a → Inside name b → length b ≤ length a → Inside a b
Inside-nested name a b (inl p) k l = rw (← p) k
Inside-nested name a b (inr h) (inl q) l =
    absurd (omega (arith, length-starts_with name (dotted a) h, length-dotted a, ap length q))
Inside-nested name a b (inr h) (inr k) l = elim (Bool-cases (starts_with a (dotted b))) [
  | inl e ↦ inr e
  | inr e ↦ inl (same e)
]
  where
    shorter : starts_with a b ≡ true
    shorter =
        starts_with_nested name a b (starts_with-append name a (dot ∷ []) h)
          (starts_with-append name b (dot ∷ []) k) l

    deeper : length (dotted b) ≤ length a → starts_with a (dotted b) ≡ true
    deeper m = starts_with_nested name a (dotted b) (starts_with-append name a (dot ∷ []) h) k m

    same : starts_with a (dotted b) ≡ false → a ≡ b
    same e = starts_with_antisymm a b shorter (ground (arith, deeper, length-dotted b))

pub in_module-Inside : (name module' : Text) → in_module name module' ≡ true → Inside name module'
unfolding in_module
in_module-Inside name [] h = inl ((text_eq_iff name []).0 h)
in_module-Inside name (c ∷ m) h = ground (arith, text_eq_iff name (c ∷ m))

-- The root package, whose name is empty, contains only itself for `in_module`.
pub Inside-in_module :
    (name module' : Text) → ¬ (module' ≡ []) → Inside name module' → in_module name module' ≡ true
unfolding in_module
Inside-in_module name [] n h = absurd (n refl)
Inside-in_module name (c ∷ m) n h = ground (arith, text_eq_iff name (c ∷ m))

-- A package never lies strictly inside itself, and to be inside is a partial order on names:
-- what `in_module` accepts is reflexive, transitive and antisymmetric.
pub in_module_order :
    (a b c : Text)
    → (in_module a a ≡ true)
      × (in_module a b ≡ true → in_module b c ≡ true → in_module a c ≡ true)
      × (in_module a b ≡ true → in_module b a ≡ true → a ≡ b)
in_module_order a b c = (self a, trans a b c, antisymm)
  where
    self : (m : Text) → in_module m m ≡ true
    self [] = unfold in_module in (text_eq_iff [] []).1 refl
    self (x ∷ m) = Inside-in_module (x ∷ m) (x ∷ m) (λ e. cc) (inl refl)

    empty : (n : Text) → in_module n [] ≡ true → n ≡ []
    empty n h = unfold in_module in (text_eq_iff n []).0 h

    trans : (a b c : Text) → in_module a b ≡ true → in_module b c ≡ true → in_module a c ≡ true
    trans a b [] h k = rw (empty b k) at h
    trans a b (x ∷ c) h k =
        Inside-in_module a (x ∷ c) (λ e. cc)
          (Inside-trans a b (x ∷ c) (in_module-Inside a b h) (in_module-Inside b (x ∷ c) k))

    antisymm : in_module a b ≡ true → in_module b a ≡ true → a ≡ b
    antisymm h k = Inside-antisymm a b (in_module-Inside a b h) (in_module-Inside b a k)

-- The first prefix around the name, or none of them is.
pub matches_prefix-some :
    (name : Text) (prefixes : List Text) (p : Text)
    → matches_prefix name prefixes ≡ some p
    → In p prefixes × Inside name p
unfolding matches_prefix
matches_prefix-some name [] p h = cc
matches_prefix-some name (q ∷ qs) p h = elim (Bool-cases (within name q)) [
  | inl e ↦ ground (arith, within_iff name q)
  | inr e ↦ let (m, i) = matches_prefix-some name qs p (rw e at h) in (inr m, i)
]

pub matches_prefix-none :
    (name : Text) (prefixes : List Text)
    → (matches_prefix name prefixes ≡ none) ↔ ((p : Text) → In p prefixes → ¬ Inside name p)
unfolding matches_prefix
matches_prefix-none name [] = (λ h p m. absurd m, λ h. refl)
matches_prefix-none name (q ∷ qs) = elim (Bool-cases (within name q)) [
  | inl e ↦ rw e (λ h. cc, λ h. absurd (h q (inl refl) ((within_iff name q).0 e)))
  | inr e ↦ rw e (
    λ h p m i. elim m [
      | inl p≡q ↦ cc ((within_iff name q).1 (rw p≡q at i))
      | inr m' ↦ (matches_prefix-none name qs).0 h p m' i
    ],
    λ h. (matches_prefix-none name qs).1 (λ p m. h p (inr m)),
  )
]
