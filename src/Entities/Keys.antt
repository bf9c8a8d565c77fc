-- ===== src/Entities/Keys.antt =====
-- entities.py: `signature_key_from_info`, `parse_signature_key`, `is_extras_only_divergence` and
-- `is_param_rename_only_divergence`. `decimal` is `str` of an `int` and `to_int` is `int` of a token,
-- none for a `ValueError`; no token has a minus sign.
pub mod Printed
pub mod Divergence
use python_arch_testing.Base.{
  Bool, Dict, List, Option, String, Text, [], all_of, codes, contains, drop, eq_nat, eq_text, false,
  if◌then◌else◌, insert, keys, leb, lookup, nat_eq, none, some, ℕ, ◌&&◌, ◌++◌, ◌+◌, ◌==◌, ◌∷◌,
}
use python_arch_testing.Names.{starts_with}
use python_arch_testing.Structure.Layers.{split_on}
use python_arch_testing.Entities.{SignatureInfo}

abbrev pub dash : ℕ
dash = b'-'

abbrev pub flag : Bool → ℕ
flag b = if b then 1 else 0

abbrev pub signature_key_prefixes : List Text
signature_key_prefixes =
    codes "p" ∷ codes "a" ∷ codes "v" ∷ codes "k" ∷ codes "w" ∷ codes "d" ∷ codes "kd" ∷ []

-- `source[prefix]`, for a prefix that the parsed key has.
pub component : Text → Dict Text ℕ → ℕ
component prefix counts = elim (lookup prefix counts) [ none ↦ 0 | some n ↦ n ]

-- The comparison of two parsed keys; integers are compared with what is subtracted on the other side.
pub adds_extras_only : Dict Text ℕ → Dict Text ℕ → Bool
unfolding component
adds_extras_only s t =
    nat_eq (component (codes "p") s + component (codes "a") s + component (codes "d") t)
      (component (codes "p") t + component (codes "a") t + component (codes "d") s)
    && nat_eq (component (codes "k") s + component (codes "kd") t)
        (component (codes "k") t + component (codes "kd") s)
    && leb (component (codes "p") s + component (codes "a") s)
        (component (codes "p") t + component (codes "a") t)
    && leb (component (codes "k") s) (component (codes "k") t)
    && leb (component (codes "v") s) (component (codes "v") t)
    && leb (component (codes "w") s) (component (codes "w") t)

abbrev pub both :
    Option (Dict Text ℕ) → Option (Dict Text ℕ) → (Dict Text ℕ → Dict Text ℕ → Bool) → Bool
both none t f = false
both (some s) none f = false
both (some s) (some t) f = f s t

module _ (decimal : ℕ → Text) where
  abbrev pub field : String → ℕ → Text → Text
  field prefix n rest = codes prefix ++ (decimal n ++ rest)

  unfoldable pub signature_key_from_info : Option SignatureInfo → Text
  signature_key_from_info none = codes "-"
  signature_key_from_info (some s) = field "p" s.posonly (
      field "-a" s.pos (
        field "-v" (flag s.vararg) (
          field "-k" s.kwonly
            (field "-w" (flag s.kwarg) (field "-d" s.defaults (field "-kd" s.kw_defaults []))))))

module _ (to_int : Text → Option ℕ) where
  abbrev pub number : Text → Option ℕ → Option (Text × ℕ)
  number prefix none = none
  number prefix (some n) = some (prefix, n)

  abbrev pub parse_letter : Text → Option (Text × ℕ)
  parse_letter [] = none
  parse_letter (c ∷ value) =
      if contains ⦃e = eq_nat⦄ (codes "pavkwd") c then number (c ∷ []) (to_int value) else none

  pub parse_token : Text → Option (Text × ℕ)
  parse_token token =
      if starts_with token (codes "kd")
      then number (codes "kd") (to_int (drop 2 token))
      else parse_letter token

  -- The loop over the tokens, which returns None at a token that does not parse.
  pub parse_tokens : List Text → Dict Text ℕ → Option (Dict Text ℕ)
  unfolding parse_token
  parse_tokens [] counts = some counts
  parse_tokens (token ∷ tokens) counts = elim (parse_token token) [
    | none ↦ none
    | some (prefix, n) ↦ parse_tokens tokens (insert prefix n counts)
  ]

  abbrev pub complete : Option (Dict Text ℕ) → Option (Dict Text ℕ)
  complete none = none
  complete (some counts) =
      if all_of (contains (keys counts)) signature_key_prefixes then some counts else none

  pub parse_signature_key : Text → Option (Dict Text ℕ)
  unfolding parse_tokens split_on
  parse_signature_key key =
      if key == codes "-" then none else complete (parse_tokens (split_on dash [] key) [])

  unfoldable pub is_extras_only_divergence : Text → Text → Bool
  unfolding parse_signature_key adds_extras_only
  is_extras_only_divergence source_key target_key =
      both (parse_signature_key source_key) (parse_signature_key target_key) adds_extras_only

  pub is_param_rename_only_divergence : Text → Text → Bool
  unfolding parse_signature_key component
  is_param_rename_only_divergence source_key target_key =
      both (parse_signature_key source_key) (parse_signature_key target_key) (λ s t.
        all_of (λ prefix. nat_eq (component prefix s) (component prefix t)) signature_key_prefixes)
