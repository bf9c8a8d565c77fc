-- ===== src/Structure/Layers/Samples.antt =====
-- The theorems on layers at a list of three.
use python_arch_testing.Base.{
  Bool, In, List, Text, [], codes, eq_text, false, length, nat_eq, none, refl, some, text_eq, true,
  ℕ, ◌↔◌, ◌∷◌, ◌≡◌, ◌≤◌,
}
use python_arch_testing.Structure.Layers.{
  Layer, check_layers, count, kind_of, layer_of, lowest_closed, named_modules, parse_entries,
  parse_layer, parse_layers, parsed, placement, skip, split_on, strip, strip_left,
}
use python_arch_testing.Structure.Layers.Placing.{placement_longest, Member}
use python_arch_testing.Structure.Layers.Kinds.{kind_of_iff, Forbids}
use python_arch_testing.Structure.Layers.Parsing.{parse_layers_accepts, WellLayered, WellNamed}

abbrev is_blank : ℕ → Bool
is_blank c = nat_eq c 32

abbrev raw : List Text
raw = codes "web | cli" ∷ codes "core" ∷ codes "store" ∷ []

abbrev closed_names : List Text
closed_names = codes "core" ∷ []

abbrev three_layers : List Layer
three_layers =
    record { modules = codes "web" ∷ codes "cli" ∷ []; independent = true; closed = false }
    ∷ record { modules = codes "core" ∷ []; independent = true; closed = true }
    ∷ record { modules = codes "store" ∷ []; independent = true; closed = false }
    ∷ []

accepted : parse_layers is_blank raw closed_names ≡ parsed three_layers
unfolding parse_layers parse_entries parse_layer layer_of check_layers named_modules count
    lowest_closed split_on strip strip_left text_eq
accepted = refl

parse_layers_accepts_example :
    (length three_layers ≡ length raw)
    × ((layer : Layer) → In layer three_layers → WellNamed closed_names layer)
    × WellLayered closed_names three_layers
parse_layers_accepts_example = parse_layers_accepts is_blank raw closed_names three_layers accepted

placement_longest_example :
    ((b : ℕ × Text)
      → placement (codes "core.rules") three_layers ≡ some b
      → Member (codes "core.rules") 0 three_layers b
        × ((c : ℕ × Text) → Member (codes "core.rules") 0 three_layers c → length c.1 ≤ length b.1))
    × (placement (codes "core.rules") three_layers ≡ none
        → (c : ℕ × Text) → ¬ Member (codes "core.rules") 0 three_layers c)
placement_longest_example = placement_longest (codes "core.rules") three_layers

abbrev web : ℕ × Text
web = (0, codes "web")

abbrev store : ℕ × Text
store = (2, codes "store")

kind_of_iff_example :
    ((s : Text) × (kind_of web store three_layers ≡ some (skip, s))) ↔ Forbids 0 2 three_layers skip
kind_of_iff_example = kind_of_iff web store three_layers skip
