-- ===== src/Entities/Keys/Divergence.antt =====
-- entities.py: `is_extras_only_divergence` and `is_param_rename_only_divergence` on printed keys.
use python_arch_testing.Base.{
  All, Bool, Dict, List, Option, Text, [], all_of, ap₂, arith, eq_text, false, inl, inr, leb,
  lookup, nat_eq, nat_eq_iff, refl, some, subst, sym, text_eq, true, ℕ, ◌&&◌, ◌+◌, ◌↔◌, ◌∙◌, ◌∷◌,
  ◌≡◌, ◌≤◌, ◌⊎◌,
}
use python_arch_testing.Entities.{SignatureInfo}
use python_arch_testing.Entities.Keys.{
  adds_extras_only, both, flag, is_extras_only_divergence, signature_key_from_info, component,
  is_param_rename_only_divergence, signature_key_prefixes,
}
use python_arch_testing.Entities.Keys.Printed.{Digit, counts_of, parse-signature_key_from_info}

-- A call with this many positional arguments fits the signature.
abbrev pub TakesPositional : SignatureInfo → ℕ → Type 0
TakesPositional s n =
    (s.posonly + s.pos ≤ n + s.defaults) × ((n ≤ s.posonly + s.pos) ⊎ (s.vararg ≡ true))

flag-le : (a b : Bool) → leb (flag a) (flag b) ≡ true → a ≡ true → b ≡ true
flag-le true true h k = refl
flag-le true false h k = absurd (cc h)
flag-le false b h k = absurd (cc k)

flag-eq : (a b : Bool) → nat_eq (flag a) (flag b) ≡ true → a ≡ b
flag-eq true true h = refl
flag-eq true false h = absurd (cc h)
flag-eq false true h = absurd (cc h)
flag-eq false false h = refl

abbrev Extras : SignatureInfo → SignatureInfo → Type 0
Extras s t =
    (s.posonly + s.pos + t.defaults ≡ t.posonly + t.pos + s.defaults)
    × (s.kwonly + t.kw_defaults ≡ t.kwonly + s.kw_defaults)
    × (s.posonly + s.pos ≤ t.posonly + t.pos)
    × (s.kwonly ≤ t.kwonly)
    × (s.vararg ≡ true → t.vararg ≡ true)
    × (s.kwarg ≡ true → t.kwarg ≡ true)

abbrev tests_of : SignatureInfo → SignatureInfo → Bool
tests_of s t =
    nat_eq (s.posonly + s.pos + t.defaults) (t.posonly + t.pos + s.defaults)
    && nat_eq (s.kwonly + t.kw_defaults) (t.kwonly + s.kw_defaults)
    && leb (s.posonly + s.pos) (t.posonly + t.pos)
    && leb s.kwonly t.kwonly
    && leb (flag s.vararg) (flag t.vararg)
    && leb (flag s.kwarg) (flag t.kwarg)

counts_tests : (s t : SignatureInfo) → adds_extras_only (counts_of s) (counts_of t) ≡ tests_of s t
unfolding adds_extras_only lookup text_eq
counts_tests s t = refl

tests_of-Extras : (s t : SignatureInfo) → tests_of s t ≡ true → Extras s t
tests_of-Extras s t h = ground (arith, h, flag-le s.vararg t.vararg, flag-le s.kwarg t.kwarg)

abbrev Fields : SignatureInfo → SignatureInfo → Type 0
Fields s t =
    (s.posonly ≡ t.posonly)
    × (s.pos ≡ t.pos)
    × (nat_eq (flag s.vararg) (flag t.vararg) ≡ true)
    × (s.kwonly ≡ t.kwonly)
    × (nat_eq (flag s.kwarg) (flag t.kwarg) ≡ true)
    × (s.defaults ≡ t.defaults)
    × (s.kw_defaults ≡ t.kw_defaults)

fields :
    (s t : SignatureInfo)
    → (nat_eq s.posonly t.posonly
        && (nat_eq s.pos t.pos
            && (nat_eq (flag s.vararg) (flag t.vararg)
                && (nat_eq s.kwonly t.kwonly
                    && (nat_eq (flag s.kwarg) (flag t.kwarg)
                        && (nat_eq s.defaults t.defaults
                            && (nat_eq s.kw_defaults t.kw_defaults && true)))))))
      ≡ true
    → Fields s t
fields s t h = ground (arith, h)

all_same :
    (d : Dict Text ℕ) (prefixes : List Text)
    → all_of (λ prefix. nat_eq (component prefix d) (component prefix d)) prefixes ≡ true
all_same d [] = refl
all_same d (prefix ∷ prefixes) =
    let same : nat_eq (component prefix d) (component prefix d) ≡ true = (nat_eq_iff _ _).1 refl in
    rw same (all_same d prefixes)

same_counts :
    (s t : SignatureInfo)
    → all_of
        (λ prefix. nat_eq (component prefix (counts_of s)) (component prefix (counts_of t)))
        signature_key_prefixes
      ≡ true
    → s ≡ t
unfolding component lookup text_eq
same_counts s t h =
    let e = fields s t h in
    cc (e.0, e.1, flag-eq s.vararg t.vararg e.2, e.3, flag-eq s.kwarg t.kwarg e.4, e.5, e.6)

module _ (decimal : ℕ → Text) (digits : (n : ℕ) → All Digit (decimal n)) where
  module _ (to_int : Text → Option ℕ) (reads : (n : ℕ) → to_int (decimal n) ≡ some n) where
    extras_counts :
        (s t : SignatureInfo)
        → is_extras_only_divergence to_int
            (signature_key_from_info decimal (some s))
            (signature_key_from_info decimal (some t))
          ≡ adds_extras_only (counts_of s) (counts_of t)
    unfolding is_extras_only_divergence
    extras_counts s t =
        ap₂ (λ a b. both a b adds_extras_only)
          ((parse-signature_key_from_info decimal digits to_int reads).0 s)
          ((parse-signature_key_from_info decimal digits to_int reads).0 t)

    rename_counts :
        (s t : SignatureInfo)
        → is_param_rename_only_divergence to_int
            (signature_key_from_info decimal (some s))
            (signature_key_from_info decimal (some t))
          ≡ all_of
              (λ prefix. nat_eq (component prefix (counts_of s)) (component prefix (counts_of t)))
              signature_key_prefixes
    unfolding is_param_rename_only_divergence
    rename_counts s t =
        ap₂
          (λ a b. both a b (λ s t.
            all_of (λ prefix. nat_eq (component prefix s) (component prefix t))
              signature_key_prefixes))
          ((parse-signature_key_from_info decimal digits to_int reads).0 s)
          ((parse-signature_key_from_info decimal digits to_int reads).0 t)

    -- Where the keys of two signatures differ in extras only, the target takes every number of
    -- positional arguments that the source takes, requires as many keyword-only parameters and has
    -- `**kwargs` where the source has; the decimal form of a number is assumed to consist of digits
    -- and to be read as this number.
    pub is_extras_only_safe :
        (s t : SignatureInfo) (n : ℕ)
        → is_extras_only_divergence to_int
            (signature_key_from_info decimal (some s))
            (signature_key_from_info decimal (some t))
          ≡ true
        → (TakesPositional s n → TakesPositional t n)
          × (s.kwonly + t.kw_defaults ≡ t.kwonly + s.kw_defaults)
          × (s.kwarg ≡ true → t.kwarg ≡ true)
    is_extras_only_safe s t n h =
        let e = tests_of-Extras s t (sym (counts_tests s t) ∙ sym (extras_counts s t) ∙ h) in
        (λ takes. takes_more e takes, e.1, e.5)
      where
        takes_more : Extras s t → TakesPositional s n → TakesPositional t n
        takes_more e takes = (
          omega (arith, e.0, takes.0),
          elim takes.1 [ inl l ↦ inl (omega (arith, l, e.2)) | inr v ↦ inr (e.4 v) ],
        )

    -- The keys of two signatures differ at most in the names of parameters exactly when the
    -- signatures have the same counts and flags; the decimal form of a number is assumed to consist
    -- of digits and to be read as this number.
    pub is_param_rename_only_iff :
        (s t : SignatureInfo)
        → (is_param_rename_only_divergence to_int
              (signature_key_from_info decimal (some s))
              (signature_key_from_info decimal (some t))
            ≡ true)
          ↔ (s ≡ t)
    is_param_rename_only_iff s t = (
      λ h. same_counts s t (sym (rename_counts s t) ∙ h),
      λ e.
          subst
            (λ z.
              is_param_rename_only_divergence to_int (signature_key_from_info decimal (some s))
                (signature_key_from_info decimal (some z))
              ≡ true)
            e (rename_counts s s ∙ all_same (counts_of s) signature_key_prefixes),
    )
