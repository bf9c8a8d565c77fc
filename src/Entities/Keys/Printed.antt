-- ===== src/Entities/Keys/Printed.antt =====
-- entities.py: what `parse_signature_key` reads in a key that `signature_key_from_info` printed.
use python_arch_testing.Base.{
  All, Bool-cases, Dict, List, Option, Text, [], ap, append-nil, arith, codes, contains, eq_nat,
  eq_text, false, inl, inr, insert, nat_eq, nat_eq_iff, none, refl, some, text_eq, true, ℕ, ◌++◌,
  ◌∙◌, ◌∷◌, ◌≡◌, ◌≢◌, ◌≤◌,
}
use mathlib.Core.List.{reverse_aux}
use python_arch_testing.Names.{starts_with}
use python_arch_testing.Structure.Layers.{split_on}
use python_arch_testing.Entities.{SignatureInfo}
use python_arch_testing.Entities.Keys.{
  dash, flag, parse_token, parse_tokens, signature_key_from_info, complete, parse_signature_key,
}

abbrev pub Plain : Text → Type 0
Plain s = All (λ c. c ≢ dash) s

split_last : (part s : Text) → Plain s → split_on dash part s ≡ reverse_aux part s ∷ []
unfolding split_on
split_last part [] h = refl
split_last part (c ∷ s) h = elim (Bool-cases (nat_eq c dash)) [
  | inl e ↦ absurd (h.0 ((nat_eq_iff c dash).0 e))
  | inr e ↦ rw e (split_last (c ∷ part) s h.1)
]

split_next :
    (part s rest : Text)
    → Plain s
    → split_on dash part (s ++ dash ∷ rest) ≡ reverse_aux part s ∷ split_on dash [] rest
unfolding split_on
split_next part [] rest h = refl
split_next part (c ∷ s) rest h = elim (Bool-cases (nat_eq c dash)) [
  | inl e ↦ absurd (h.0 ((nat_eq_iff c dash).0 e))
  | inr e ↦ rw e (split_next (c ∷ part) s rest h.1)
]

abbrev pub Digit : ℕ → Type 0
Digit c = (48 ≤ c) × (c ≤ 57)

digits-Plain : (s : Text) → All Digit s → Plain s
digits-Plain [] h = tt
digits-Plain (c ∷ s) h = (λ e. let no : ⊥ = omega (arith, e, h.0) in no, digits-Plain s h.1)

-- Digits do not start with a `d`.
no_kd : (c : ℕ) (s : Text) → All Digit s → starts_with (c ∷ s) (codes "kd") ≡ false
unfolding starts_with
no_kd c [] d = ground arith
no_kd c (x ∷ s) d = ground (arith, d.0)

one_letter :
    (to_int : Text → Option ℕ) (c n : ℕ) (s : Text)
    → contains ⦃e = eq_nat⦄ (codes "pavkwd") c ≡ true
    → All Digit s
    → to_int s ≡ some n
    → parse_token to_int (c ∷ s) ≡ some (c ∷ [], n)
unfolding parse_token
one_letter to_int c n s h d e = rw (no_kd c s d, h, e) refl

parse_kd :
    (to_int : Text → Option ℕ) (n : ℕ) (s : Text)
    → to_int s ≡ some n
    → parse_token to_int (codes "kd" ++ s) ≡ some (codes "kd", n)
unfolding parse_token starts_with
parse_kd to_int n s e = rw e refl

-- The counts of a signature, under the prefixes of its key.
abbrev pub counts_of : SignatureInfo → Dict Text ℕ
counts_of s =
    (codes "p", s.posonly)
    ∷ (codes "a", s.pos)
    ∷ (codes "v", flag s.vararg)
    ∷ (codes "k", s.kwonly)
    ∷ (codes "w", flag s.kwarg)
    ∷ (codes "d", s.defaults)
    ∷ (codes "kd", s.kw_defaults)
    ∷ []

parse_cons :
    (to_int : Text → Option ℕ) (t : Text) (ts : List Text) (p : Text) (n : ℕ) (d : Dict Text ℕ)
    → parse_token to_int t ≡ some (p, n)
    → parse_tokens to_int (t ∷ ts) d ≡ parse_tokens to_int ts (insert p n d)
unfolding parse_tokens
parse_cons to_int t ts p n d e = rw (e, parse_tokens) refl

-- The counts as the loop over the tokens collects them.
abbrev inserted : SignatureInfo → Dict Text ℕ
inserted s = insert (codes "kd") s.kw_defaults (
    insert (codes "d") s.defaults (
      insert (codes "w") (flag s.kwarg) (
        insert (codes "k") s.kwonly (
          insert (codes "v") (flag s.vararg)
            (insert (codes "a") s.pos (insert (codes "p") s.posonly []))))))

module _ (decimal : ℕ → Text) (digits : (n : ℕ) → All Digit (decimal n)) where
  token_then :
      (c n : ℕ) (rest : Text) (ts : List Text)
      → c ≢ dash
      → split_on dash [] rest ≡ ts
      → split_on dash [] (c ∷ (decimal n ++ dash ∷ rest)) ≡ (c ∷ decimal n) ∷ ts
  token_then c n rest ts h e =
      split_next [] (c ∷ decimal n) rest (h, digits-Plain (decimal n) (digits n))
      ∙ ap (λ z. (c ∷ decimal n) ∷ z) e

  last_token :
      (n : ℕ) → split_on dash [] (codes "kd" ++ (decimal n ++ [])) ≡ (codes "kd" ++ decimal n) ∷ []
  last_token n =
      ap (λ z. split_on dash [] (codes "kd" ++ z)) (append-nil (decimal n))
      ∙ split_last [] (codes "kd" ++ decimal n)
          ((λ e. cc e), ((λ e. cc e), digits-Plain (decimal n) (digits n)))

  key_tokens :
      (s : SignatureInfo)
      → split_on dash [] (signature_key_from_info decimal (some s))
        ≡ (b'p' ∷ decimal s.posonly)
          ∷ (b'a' ∷ decimal s.pos)
          ∷ (b'v' ∷ decimal (flag s.vararg))
          ∷ (b'k' ∷ decimal s.kwonly)
          ∷ (b'w' ∷ decimal (flag s.kwarg))
          ∷ (b'd' ∷ decimal s.defaults)
          ∷ (b'k' ∷ b'd' ∷ decimal s.kw_defaults)
          ∷ []
  unfolding signature_key_from_info
  key_tokens s =
      token_then b'p' s.posonly _ _ (λ e. cc e)
        (token_then b'a' s.pos _ _ (λ e. cc e)
          (token_then b'v' (flag s.vararg) _ _ (λ e. cc e)
            (token_then b'k' s.kwonly _ _ (λ e. cc e)
              (token_then b'w' (flag s.kwarg) _ _ (λ e. cc e)
                (token_then b'd' s.defaults _ _ (λ e. cc e) (last_token s.kw_defaults))))))

  letter :
      (to_int : Text → Option ℕ)
      → ((n : ℕ) → to_int (decimal n) ≡ some n)
      → (c n : ℕ) (ts : List Text) (d : Dict Text ℕ)
      → contains ⦃e = eq_nat⦄ (codes "pavkwd") c ≡ true
      → parse_tokens to_int ((c ∷ decimal n) ∷ ts) d ≡ parse_tokens to_int ts (insert (c ∷ []) n d)
  letter to_int reads c n ts d h =
      parse_cons to_int _ ts _ n d (one_letter to_int c n (decimal n) h (digits n) (reads n))

  all_tokens :
      (to_int : Text → Option ℕ)
      → ((n : ℕ) → to_int (decimal n) ≡ some n)
      → (s : SignatureInfo)
      → parse_tokens to_int
          ((b'p' ∷ decimal s.posonly)
            ∷ (b'a' ∷ decimal s.pos)
            ∷ (b'v' ∷ decimal (flag s.vararg))
            ∷ (b'k' ∷ decimal s.kwonly)
            ∷ (b'w' ∷ decimal (flag s.kwarg))
            ∷ (b'd' ∷ decimal s.defaults)
            ∷ (b'k' ∷ b'd' ∷ decimal s.kw_defaults)
            ∷ [])
          []
        ≡ parse_tokens to_int [] (inserted s)
  all_tokens to_int reads s =
      letter to_int reads b'p' s.posonly _ _ refl
      ∙ letter to_int reads b'a' s.pos _ _ refl
      ∙ letter to_int reads b'v' (flag s.vararg) _ _ refl
      ∙ letter to_int reads b'k' s.kwonly _ _ refl
      ∙ letter to_int reads b'w' (flag s.kwarg) _ _ refl
      ∙ letter to_int reads b'd' s.defaults _ _ refl
      ∙ parse_cons to_int (codes "kd" ++ decimal s.kw_defaults) [] (codes "kd") s.kw_defaults _
          (parse_kd to_int s.kw_defaults (decimal s.kw_defaults) (reads s.kw_defaults))

  -- What was printed is read back: the key of a signature parses into its counts, in the order of the
  -- prefixes, and the key of no signature into nothing. It is assumed that the decimal form of a
  -- number consists of digits and that it is read as this number.
  pub parse-signature_key_from_info :
      (to_int : Text → Option ℕ)
      → ((n : ℕ) → to_int (decimal n) ≡ some n)
      → ((s : SignatureInfo)
          → parse_signature_key to_int (signature_key_from_info decimal (some s))
            ≡ some (counts_of s))
        × (parse_signature_key to_int (signature_key_from_info decimal none) ≡ none)
  unfolding parse_signature_key insert text_eq signature_key_from_info
  parse-signature_key_from_info to_int reads = (
    λ s.
        ap (λ ts. complete to_int (parse_tokens to_int ts [])) (key_tokens s)
        ∙ ap (complete to_int) (all_tokens to_int reads s),
    refl,
  )
