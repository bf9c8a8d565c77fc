-- ===== src/Matching/Metrics/Edits.antt =====
-- What an edit distance is: scripts of edits, and the recursion that finds the length of a
-- shortest one.
use python_arch_testing.Base.{
  Bool-cases, Text, [], arith, false, if◌then◌else◌, inl, inr, length, min, nat_eq, nat_eq_iff,
  refl, subst, suc, sym, true, ℕ, ◌++◌, ◌+◌, ◌∙◌, ◌∷◌, ◌≡◌, ◌≤◌, ◌⊎◌,
}

-- A script that turns one text into another, by the number of its edits.
pub data Edit : Text → Text → ℕ → Type 0 where
  done : Edit [] [] 0
  keep : {a b : Text} {n : ℕ} (c : ℕ) → Edit a b n → Edit (c ∷ a) (c ∷ b) n
  replace : {a b : Text} {n : ℕ} (c d : ℕ) → Edit a b n → Edit (c ∷ a) (d ∷ b) (suc n)
  delete : {a b : Text} {n : ℕ} (c : ℕ) → Edit a b n → Edit (c ∷ a) b (suc n)
  insert_char : {a b : Text} {n : ℕ} (d : ℕ) → Edit a b n → Edit a (d ∷ b) (suc n)

abbrev pub cost : ℕ → ℕ → ℕ
cost c d = if nat_eq c d then 0 else 1

unfoldable pub edit : Text → Text → ℕ
edit [] b = length b
edit (c ∷ a) [] = suc (length a)
edit (c ∷ a) (d ∷ b) = min (min (edit a (d ∷ b) + 1) (edit (c ∷ a) b + 1)) (edit a b + cost c d)

pub edit-empty : (a : Text) → edit a [] ≡ length a
unfolding edit
edit-empty [] = refl
edit-empty (c ∷ a) = refl

inserts : (b : Text) → Edit [] b (length b)
inserts [] = done
inserts (d ∷ b) = insert_char d (inserts b)

deletes : (a : Text) → Edit a [] (length a)
deletes [] = done
deletes (c ∷ a) = delete c (deletes a)

min-cases : (x y : ℕ) → (min x y ≡ x) ⊎ (min x y ≡ y)
min-cases x y = ground arith

min_three : (P : ℕ → Type 0) (x y z : ℕ) → P x → P y → P z → P (min (min x y) z)
min_three P x y z px py pz = elim (min-cases (min x y) z) [
  | inl p ↦ elim (min-cases x y) [
    | inl q ↦ subst P (sym (p ∙ q)) px
    | inr q ↦ subst P (sym (p ∙ q)) py
  ]
  | inr p ↦ subst P (sym p) pz
]

keep_or_replace : (c d : ℕ) (a b : Text) (n : ℕ) → Edit a b n → Edit (c ∷ a) (d ∷ b) (n + cost c d)
keep_or_replace c d a b n e = elim (Bool-cases (nat_eq c d)) [
  | inl h ↦
      subst (Edit (c ∷ a) (d ∷ b)) (same h)
        (subst (λ z. Edit (c ∷ a) (z ∷ b) n) ((nat_eq_iff c d).0 h) (keep c e))
  | inr h ↦ subst (Edit (c ∷ a) (d ∷ b)) (one_more h) (replace c d e)
]
  where
    same : nat_eq c d ≡ true → n ≡ n + cost c d
    same h = ground arith

    one_more : nat_eq c d ≡ false → suc n ≡ n + cost c d
    one_more h = ground arith

plus_one : (n : ℕ) → suc n ≡ n + 1
plus_one n = omega arith

-- There is a script of `edit a b` edits.
pub edit-Edit : (a b : Text) → Edit a b (edit a b)
unfolding edit
edit-Edit [] b = inserts b
edit-Edit (c ∷ a) [] = deletes (c ∷ a)
edit-Edit (c ∷ a) (d ∷ b) =
    min_three (Edit (c ∷ a) (d ∷ b)) (edit a (d ∷ b) + 1) (edit (c ∷ a) b + 1) (edit a b + cost c d)
      (subst (Edit (c ∷ a) (d ∷ b)) (plus_one (edit a (d ∷ b))) (delete c (edit-Edit a (d ∷ b))))
      (subst (Edit (c ∷ a) (d ∷ b)) (plus_one (edit (c ∷ a) b))
        (insert_char d (edit-Edit (c ∷ a) b)))
      (keep_or_replace c d a b (edit a b) (edit-Edit a b))

edit-delete : (c : ℕ) (a b : Text) → edit (c ∷ a) b ≤ suc (edit a b)
unfolding edit
edit-delete c a [] = omega (arith, edit-empty a)
edit-delete c a (d ∷ b) = omega arith

edit-insert : (d : ℕ) (a b : Text) → edit a (d ∷ b) ≤ suc (edit a b)
unfolding edit
edit-insert d [] b = omega arith
edit-insert d (c ∷ a) b = omega arith

edit-replace : (c d : ℕ) (a b : Text) → edit (c ∷ a) (d ∷ b) ≤ edit a b + cost c d
unfolding edit
edit-replace c d a b = ground arith

cost_le : (c d : ℕ) → cost c d ≤ 1
cost_le c d = ground arith

cost_same : (c : ℕ) → cost c c ≡ 0
cost_same c = ground arith

-- And none with fewer.
pub edit_shortest : {a b : Text} {n : ℕ} → Edit a b n → edit a b ≤ n
edit_shortest done = unfold edit in omega arith
edit_shortest (keep {a = a} {b = b} c e) =
    omega (arith, edit_shortest e, edit-replace c c a b, cost_same c)
edit_shortest (replace {a = a} {b = b} c d e) =
    omega (arith, edit_shortest e, edit-replace c d a b, cost_le c d)
edit_shortest (delete {a = a} {b = b} c e) = omega (arith, edit_shortest e, edit-delete c a b)
edit_shortest (insert_char {a = a} {b = b} d e) = omega (arith, edit_shortest e, edit-insert d a b)

-- A text put in front of another, last character first.
abbrev pub onto : Text → Text → Text
onto u [] = u
onto u (c ∷ a) = onto (c ∷ u) a

pub onto-onto : (a u w : Text) → onto w (onto u a) ≡ onto (a ++ w) u
onto-onto [] u w = refl
onto-onto (c ∷ a) u w = onto-onto a (c ∷ u) w

shift : (n m : ℕ) → n + suc m ≡ suc n + m
shift n m = omega arith

zero_plus : (m : ℕ) → m ≡ 0 + m
zero_plus m = omega arith

-- Scripts read backwards.
pub Edit-onto :
    {a b u v : Text} {n m : ℕ} → Edit a b n → Edit u v m → Edit (onto u a) (onto v b) (n + m)
Edit-onto {m = m} done f = subst (Edit _ _) (zero_plus m) f
Edit-onto (keep c e) f = Edit-onto e (keep c f)
Edit-onto {m = m} (replace {n = n} c d e) f =
    subst (Edit _ _) (shift n m) (Edit-onto e (replace c d f))
Edit-onto {m = m} (delete {n = n} c e) f = subst (Edit _ _) (shift n m) (Edit-onto e (delete c f))
Edit-onto {m = m} (insert_char {n = n} d e) f =
    subst (Edit _ _) (shift n m) (Edit-onto e (insert_char d f))
