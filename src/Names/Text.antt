-- ===== src/Names/Text.antt =====
-- The tests on dotted names, over texts as lists of code points.
use python_arch_testing.Base.{
  Bool, List, Option, Text, [], eq_text, false, filter, if◌then◌else◌, length, ltb, nat_eq, none,
  some, true, ℕ, ◌&&◌, ◌++◌, ◌==◌, ◌||◌, ◌∷◌,
}

abbrev pub dot : ℕ
dot = b'.'

-- `s.startswith(prefix)`.
unfoldable pub starts_with : Text → Text → Bool
starts_with s [] = true
starts_with [] (b ∷ p) = false
starts_with (a ∷ s) (b ∷ p) = nat_eq a b && starts_with s p

-- `prefix + "."`.
abbrev pub dotted : Text → Text
dotted prefix = prefix ++ dot ∷ []

unfoldable pub in_module : Text → Text → Bool
in_module name [] = name == []
in_module name (c ∷ module') = name == c ∷ module' || starts_with name (dotted (c ∷ module'))

-- `max(found, key=len)` after the first element: the first of the longest.
unfoldable pub longest_from : Text → List Text → Text
longest_from best [] = best
longest_from best (x ∷ xs) = longest_from (if ltb (length best) (length x) then x else best) xs

unfoldable pub longest : List Text → Option Text
unfolding longest_from
longest [] = none
longest (x ∷ xs) = some (longest_from x xs)

unfoldable pub module_of : Text → List Text → Option Text
unfolding longest in_module
module_of name modules = longest (filter (in_module name) modules)

-- `name == prefix or name.startswith(prefix + ".")`.
unfoldable pub within : Text → Text → Bool
unfolding starts_with
within name prefix = name == prefix || starts_with name (dotted prefix)

unfoldable pub matches_prefix : Text → List Text → Option Text
unfolding within
matches_prefix name [] = none
matches_prefix name (prefix ∷ prefixes) =
    if within name prefix then some prefix else matches_prefix name prefixes
