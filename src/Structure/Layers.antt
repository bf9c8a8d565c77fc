-- ===== src/Structure/Layers.antt =====
-- execution/module_structure.py: `parse_layers`, `_placement` and `_kind`. Which characters
-- `str.strip` takes for white space is a parameter.
use python_arch_testing.Base.{
  Bool, List, Option, Text, [], all_of, any_of, codes, contains, drop, eq_nat, eq_text, false,
  get_elem?, if◌then◌else◌, length, ltb, map, nat_eq, none, not, reverse, some, suc, take, true, ℕ,
  ◌&&◌, ◌++◌, ◌==◌, ◌∷◌,
}
pub mod Placing
pub mod Kinds
mod Samples
pub mod Parsing
use python_arch_testing.Names.{in_module}

pub record Layer : Type 0 where
  pub modules : List Text
  pub independent : Bool
  pub closed : Bool

pub data ViolationKind : Type 0 where
  upward sibling skip : ViolationKind

-- `best is None or len(member) > len(best[1])`.
abbrev pub is_better : Text → Option (ℕ × Text) → Bool
is_better member none = true
is_better member (some best) = ltb (length best.1) (length member)

-- The loop over one layer's members, from the best placement so far.
pub place_members : Text → ℕ → List Text → Option (ℕ × Text) → Option (ℕ × Text)
place_members name position [] best = best
place_members name position (member ∷ members) best =
    place_members name position members
      (if in_module name member && is_better member best then some (position, member) else best)

pub place_layers : Text → ℕ → List Layer → Option (ℕ × Text) → Option (ℕ × Text)
unfolding place_members
place_layers name position [] best = best
place_layers name position (layer ∷ layers) best =
    place_layers name (suc position) layers (place_members name position layer.modules best)

pub placement : Text → List Layer → Option (ℕ × Text)
unfolding place_layers
placement name layers = place_layers name 0 layers none

-- `" | ".join(modules)`.
pub joined : List Text → Text
joined [] = []
joined (m ∷ []) = m
joined (m ∷ n ∷ ms) = m ++ codes " | " ++ joined (n ∷ ms)

-- The first closed layer of a slice.
pub first_closed : List Layer → Option Layer
first_closed [] = none
first_closed (layer ∷ layers) = if layer.closed then some layer else first_closed layers

-- A use within one layer. `_placement` gives positions in the list only; at another one, where the
-- source raises an IndexError, it is `none`.
pub sibling_kind : Option Layer → Option (ViolationKind × Text)
sibling_kind none = none
sibling_kind (some layer) = if layer.independent then some (sibling, []) else none

-- A use past a closed layer.
pub skip_kind : Option Layer → Option (ViolationKind × Text)
unfolding joined
skip_kind none = none
skip_kind (some between) = some (skip, joined between.modules)

pub kind_of : ℕ × Text → ℕ × Text → List Layer → Option (ViolationKind × Text)
unfolding first_closed sibling_kind skip_kind
kind_of origin target layers =
    if ltb target.0 origin.0
    then some (upward, [])
    else if nat_eq target.0 origin.0
    then sibling_kind (get_elem? layers origin.0)
    else skip_kind (first_closed (drop (suc origin.0) (take target.0 layers)))

pub data LayerError : Type 0 where
  mixed_delimiters empty_module repeated_module unknown_closed closed_lowest : LayerError

pub data Parsed {ℓ} (A : Type ℓ) : Type ℓ where
  raised : LayerError → Parsed A
  parsed : A → Parsed A

-- `entry.split(delimiter)`, with the characters of the part already read, last one first.
unfoldable pub split_on : ℕ → Text → Text → List Text
split_on delimiter part [] = reverse part ∷ []
split_on delimiter part (c ∷ s) =
    let next = split_on delimiter [] s in
    let more = split_on delimiter (c ∷ part) s in
    if nat_eq c delimiter then reverse part ∷ next else more

pub named_modules : List Layer → List Text
named_modules [] = []
named_modules (layer ∷ layers) = layer.modules ++ named_modules layers

-- `named.count(module)`.
pub count : Text → List Text → ℕ
count m [] = 0
count m (n ∷ ns) = if n == m then suc (count m ns) else count m ns

pub lowest_closed : List Layer → Bool
lowest_closed [] = false
lowest_closed (layer ∷ []) = layer.closed
lowest_closed (layer ∷ next ∷ layers) = lowest_closed (next ∷ layers)

-- The layer of an entry, of which the parts are given.
pub layer_of : List Text → Bool → List Text → Parsed Layer
layer_of closed siblings names =
    if not (all_of (λ m. not (m == [])) names)
    then raised empty_module
    else parsed (record {
      modules = names;
      independent = not siblings;
      closed = any_of (contains closed) names;
    })

-- The list with one more layer; an error of an earlier entry is raised first.
abbrev pub cons_parsed : Parsed Layer → Parsed (List Layer) → Parsed (List Layer)
cons_parsed (raised e) rest = raised e
cons_parsed (parsed layer) (raised e) = raised e
cons_parsed (parsed layer) (parsed layers) = parsed (layer ∷ layers)

-- The checks of the whole list.
pub check_layers : List Text → List Layer → Parsed (List Layer)
unfolding named_modules count lowest_closed
check_layers closed layers =
    let named = named_modules layers in
    if any_of (λ m. ltb 1 (count m named)) named
    then raised repeated_module
    else if any_of (λ m. not (contains named m)) closed
    then raised unknown_closed
    else if lowest_closed layers
    then raised closed_lowest
    else parsed layers

abbrev pub then_parsed {ℓ κ} : {A : Type ℓ} {B : Type κ} → Parsed A → (A → Parsed B) → Parsed B
then_parsed (raised e) f = raised e
then_parsed (parsed a) f = f a

module _ (is_space : ℕ → Bool) where
  pub strip_left : Text → Text
  strip_left [] = []
  strip_left (c ∷ s) = if is_space c then strip_left s else c ∷ s

  pub strip : Text → Text
  unfolding strip_left
  strip s = reverse (strip_left (reverse (strip_left s)))

  -- One entry of the list, with the names of the closed layers.
  pub parse_layer : List Text → Text → Parsed Layer
  unfolding strip split_on layer_of
  parse_layer closed entry =
      let siblings = contains ⦃e = eq_nat⦄ entry b':' in
      if contains ⦃e = eq_nat⦄ entry b'|' && siblings
      then raised mixed_delimiters
      else layer_of closed siblings
          (map strip (split_on (if siblings then b':' else b'|') [] entry))

  pub parse_entries : List Text → List Text → Parsed (List Layer)
  unfolding parse_layer
  parse_entries closed [] = parsed []
  parse_entries closed (entry ∷ raw) =
      cons_parsed (parse_layer closed entry) (parse_entries closed raw)

  pub parse_layers : List Text → List Text → Parsed (List Layer)
  unfolding parse_entries check_layers
  parse_layers raw closed = then_parsed (parse_entries closed raw) (check_layers closed)
