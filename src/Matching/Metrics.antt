-- ===== src/Matching/Metrics.antt =====
-- matching/metrics.py: the distances of module paths and of names. The quotients that turn them
-- into similarities are floats and not modelled.
use python_arch_testing.Base.{
  List, Text, [], eq_text, filter, if◌then◌else◌, length, min, nat_eq, not, reverse, suc, zero, ℕ,
  ◌*◌, ◌+◌, ◌-◌, ◌==◌, ◌∷◌,
}
pub mod Edits
pub mod Levenshtein
pub mod Paths
pub mod Prefix
use python_arch_testing.Names.{dot}

abbrev pub range_from : ℕ → ℕ → List ℕ
range_from n zero = []
range_from n (suc k) = n ∷ range_from (suc n) k

-- The inner loop: `curr[j - 1]`, `prev[j - 1]`, the rest of `b`, and `prev` from `j` on.
pub next_cells : ℕ → ℕ → ℕ → Text → List ℕ → List ℕ
next_cells ca left diagonal [] prev = []
next_cells ca left diagonal (cb ∷ b) [] = []
next_cells ca left diagonal (cb ∷ b) (up ∷ prev) =
    let cost = if nat_eq ca cb then 0 else 1 in
    let cell = min (min (up + 1) (left + 1)) (diagonal + cost) in
    cell ∷ next_cells ca cell up b prev

pub next_row : ℕ → ℕ → Text → List ℕ → List ℕ
unfolding next_cells
next_row ca i b [] = i ∷ []
next_row ca i b (diagonal ∷ prev) = i ∷ next_cells ca i diagonal b prev

-- The outer loop, from row `i` on.
pub rows : ℕ → Text → Text → List ℕ → List ℕ
unfolding next_row
rows i [] b prev = prev
rows i (ca ∷ a) b prev = rows (suc i) a b (next_row ca i b prev)

-- `xs[-1]`; a row is never empty.
pub last_of : List ℕ → ℕ
last_of [] = 0
last_of (x ∷ []) = x
last_of (x ∷ y ∷ xs) = last_of (y ∷ xs)

pub levenshtein_distance : Text → Text → ℕ
unfolding rows last_of
levenshtein_distance a b =
    if a == b
    then 0
    else if a == []
    then length b
    else if b == []
    then length a
    else last_of (rows 1 a b (range_from 0 (length b + 1)))

-- `path.split(".")`, given the characters of the first part already read, last one first.
pub split_dot : Text → Text → List Text
split_dot part [] = reverse part ∷ []
split_dot part (c ∷ s) =
    let next = split_dot [] s in
    let more = split_dot (c ∷ part) s in if nat_eq c dot then reverse part ∷ next else more

-- `_parts`: the parts that are not empty.
pub parts : Text → List Text
unfolding split_dot
parts path = filter (λ p. not (p == [])) (split_dot [] path)

-- The loop over `zip`, up to the first difference.
pub common_prefix : List Text → List Text → ℕ
common_prefix [] ys = 0
common_prefix (x ∷ xs) [] = 0
common_prefix (x ∷ xs) (y ∷ ys) = let rest = common_prefix xs ys in if x == y then suc rest else 0

pub module_distance : Text → Text → ℕ
unfolding parts common_prefix
module_distance source target =
    length (parts source) + length (parts target) - 2 * common_prefix (parts source) (parts target)
