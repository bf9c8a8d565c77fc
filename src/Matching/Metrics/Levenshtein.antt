-- ===== src/Matching/Metrics/Levenshtein.antt =====
-- matching/metrics.py, `levenshtein_distance`: the rows of its table, and its last cell.
use python_arch_testing.Base.{
  Bool-cases, List, Text, [], ap, append-nil, arith, eq_text, if◌then◌else◌, inl, inr, length, refl,
  subst, suc, sym, text_eq_iff, ℕ, ◌+◌, ◌==◌, ◌∙◌, ◌∷◌, ◌≡◌, ◌≤◌,
}
use python_arch_testing.Matching.Metrics.{
  levenshtein_distance, last_of, next_cells, next_row, range_from, rows,
}
use python_arch_testing.Matching.Metrics.Edits.{
  Edit, keep, done, edit, onto, Edit-onto, edit-Edit, edit_shortest, onto-onto, edit-empty,
}

-- The row of a prefix, which is read backwards as are those of `b`: the cells after `v`.
abbrev cells : Text → Text → Text → List ℕ
cells u v [] = []
cells u v (d ∷ b) = edit u (d ∷ v) ∷ cells u (d ∷ v) b

next_cells_lem :
    (c : ℕ) (u v b : Text)
    → next_cells c (edit (c ∷ u) v) (edit u v) b (cells u v b) ≡ cells (c ∷ u) v b
unfolding next_cells edit
next_cells_lem c u v [] = refl
next_cells_lem c u v (d ∷ b) = ap (λ r. edit (c ∷ u) (d ∷ v) ∷ r) (next_cells_lem c u (d ∷ v) b)

rows_lem :
    (a u b : Text)
    → rows (suc (length u)) a b (edit u [] ∷ cells u [] b)
      ≡ edit (onto u a) [] ∷ cells (onto u a) [] b
unfolding rows next_row edit
rows_lem [] u b = refl
rows_lem (c ∷ a) u b =
    ap (λ r. rows (suc (suc (length u))) a b (suc (length u) ∷ r)) (next_cells_lem c u [] b)
    ∙ rows_lem a (c ∷ u) b

first_row : (v b : Text) → cells [] v b ≡ range_from (suc (length v)) (length b)
unfolding edit
first_row v [] = refl
first_row v (d ∷ b) = ap (λ r. suc (length v) ∷ r) (first_row (d ∷ v) b)

last_cell : (u v b : Text) → last_of (edit u v ∷ cells u v b) ≡ edit u (onto v b)
unfolding last_of
last_cell u v [] = refl
last_cell u v (d ∷ b) = last_cell u (d ∷ v) b

table_lem :
    (a b : Text) → last_of (rows 1 a b (range_from 0 (length b + 1))) ≡ edit (onto [] a) (onto [] b)
unfolding edit
table_lem a b =
    ap (λ n. last_of (rows 1 a b (range_from 0 n))) (plus_one (length b))
    ∙ ap (λ r. last_of (rows 1 a b (0 ∷ r))) (sym (first_row [] b))
    ∙ ap last_of (rows_lem a [] b)
    ∙ last_cell (onto [] a) [] b
  where
    plus_one : (n : ℕ) → n + 1 ≡ suc n
    plus_one n = omega arith

-- The shortest script has a property of the distance.
abbrev IsShortest : Text → Text → ℕ → Type 0
IsShortest a b d = Edit a b d × ((n : ℕ) → Edit a b n → d ≤ n)

backwards : {a b : Text} {n : ℕ} → Edit a b n → Edit (onto [] a) (onto [] b) n
backwards {n = n} e = subst (Edit _ _) (plus_zero n) (Edit-onto e done)
  where
    plus_zero : (n : ℕ) → n + 0 ≡ n
    plus_zero n = omega arith

twice : (a : Text) → onto [] (onto [] a) ≡ a
twice a = onto-onto a [] [] ∙ append-nil a

forwards : {a b : Text} {n : ℕ} → Edit (onto [] a) (onto [] b) n → Edit a b n
forwards {a = a} {b = b} {n = n} e =
    subst (λ z. Edit z b n) (twice a)
      (subst (λ z. Edit (onto [] (onto [] a)) z n) (twice b) (backwards e))

table-IsShortest : (a b : Text) → IsShortest a b (edit (onto [] a) (onto [] b))
table-IsShortest a b =
    (forwards (edit-Edit (onto [] a) (onto [] b)), λ n e. edit_shortest (backwards e))

edit-IsShortest : (a b : Text) → IsShortest a b (edit a b)
edit-IsShortest a b = (edit-Edit a b, λ n e. edit_shortest e)

empty_or_table :
    (a b : Text)
    → IsShortest a b (
        if a == []
        then length b
        else if b == []
        then length a
        else last_of (rows 1 a b (range_from 0 (length b + 1))))
empty_or_table a b = elim (Bool-cases (a == [])) [
  | inl h ↦
      rw h (subst (IsShortest a b) (first_empty ((text_eq_iff a []).0 h)) (edit-IsShortest a b))
  | inr h ↦ elim (Bool-cases (b == [])) [
    | inl k ↦
        rw (h, k)
          (subst (IsShortest a b) (second_empty ((text_eq_iff b []).0 k)) (edit-IsShortest a b))
    | inr k ↦ rw (h, k) (subst (IsShortest a b) (sym (table_lem a b)) (table-IsShortest a b))
  ]
]
  where
    first_empty : a ≡ [] → edit a b ≡ length b
    first_empty p = ap (λ z. edit z b) p ∙ unfold edit in refl

    second_empty : b ≡ [] → edit a b ≡ length a
    second_empty p = ap (edit a) p ∙ edit-empty a

-- The distance is the length of a shortest script of edits (insertions, deletions, replacements)
-- that turns the one name into the other.
pub levenshtein_shortest :
    (a b : Text)
    → Edit a b (levenshtein_distance a b) × ((n : ℕ) → Edit a b n → levenshtein_distance a b ≤ n)
unfolding levenshtein_distance
levenshtein_shortest a b = elim (Bool-cases (a == b)) [
  | inl h ↦ rw h (subst (λ z. Edit a z 0) ((text_eq_iff a b).0 h) (kept a), λ n e. omega arith)
  | inr h ↦ rw h (empty_or_table a b)
]
  where
    kept : (a : Text) → Edit a a 0
    kept [] = done
    kept (c ∷ a) = keep c (kept a)
