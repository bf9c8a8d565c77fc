-- ===== src/Tests/Rest.antt =====
-- Names, their distances, and exit codes.
use python_arch_testing.Base.{
  In, List, Text, [], codes, eq_text, length, none, some, true, ℕ, ◌++◌, ◌+◌, ◌↔◌, ◌∷◌, ◌≡◌, ◌≢◌,
  ◌≤◌, ◌⊎◌,
}
use python_arch_testing.Matching.Metrics.{levenshtein_distance, module_distance, parts}
use python_arch_testing.Matching.Metrics.Edits.{Edit}
use python_arch_testing.Matching.Metrics.Levenshtein.{levenshtein_shortest}
use python_arch_testing.Matching.Metrics.Prefix.{module_distance_least}
use python_arch_testing.Report.Policy.{
  ResultRow, compute_aggregate_exit_code, compute_target_exit_code, count_failed,
}
use python_arch_testing.Report.Policy.Laws.{exit_code_iff, aggregate_iff, Fails}

levenshtein_shortest_example :
    Edit (codes "load") (codes "loads") (levenshtein_distance (codes "load") (codes "loads"))
    × ((n : ℕ)
        → Edit (codes "load") (codes "loads") n
        → levenshtein_distance (codes "load") (codes "loads") ≤ n)
levenshtein_shortest_example = levenshtein_shortest (codes "load") (codes "loads")

module_distance_least_example :
    ((p : List Text) × (us : List Text) × (vs : List Text) × (parts (codes "a.b.c") ≡ p ++ us)
      × (parts (codes "a.d.c") ≡ p ++ vs)
      × (module_distance (codes "a.b.c") (codes "a.d.c") ≡ length us + length vs))
    × ((p us vs : List Text)
        → parts (codes "a.b.c") ≡ p ++ us
        → parts (codes "a.d.c") ≡ p ++ vs
        → module_distance (codes "a.b.c") (codes "a.d.c") ≤ length us + length vs)
module_distance_least_example = module_distance_least (codes "a.b.c") (codes "a.d.c")

abbrev results : List ResultRow
results =
    record { status = some (codes "OK"); severity = none }
    ∷ record { status = some (codes "WARNING"); severity = some (codes "warning") }
    ∷ []

exit_code_iff_example :
    ((compute_target_exit_code results true ≡ 0) ⊎ (compute_target_exit_code results true ≡ 1))
    × ((compute_target_exit_code results true ≡ 1)
        ↔ ((r : ResultRow) × In r results × Fails true r))
exit_code_iff_example = exit_code_iff results true

abbrev exit_codes : List ℕ
exit_codes = 0 ∷ 1 ∷ []

aggregate_iff_example :
    (codes "threshold" ≡ codes "all_fail"
      → (compute_aggregate_exit_code exit_codes (codes "threshold") 2 ≡ 1)
        ↔ ((exit_codes ≢ []) × ((c : ℕ) → In c exit_codes → c ≡ 1)))
    × (codes "threshold" ≡ codes "threshold"
        → (compute_aggregate_exit_code exit_codes (codes "threshold") 2 ≡ 1)
          ↔ (2 ≤ count_failed exit_codes))
    × (codes "threshold" ≢ codes "all_fail"
        → codes "threshold" ≢ codes "threshold"
        → (compute_aggregate_exit_code exit_codes (codes "threshold") 2 ≡ 1) ↔ In 1 exit_codes)
aggregate_iff_example = aggregate_iff exit_codes (codes "threshold") 2
