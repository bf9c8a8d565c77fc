-- ===== src/Structure/Renamed/Exact.antt =====
-- Which edges the imports make, and which the renaming leaves.
use python_arch_testing.Base.{
  Bool, Bool-cases, Dict, In, In-append, In-keys-set_default, List, Option-cases, Text, [], ap,
  arith, beq_false, eq_text, if◌then◌else◌, inl, inr, insert, keys, lookup-insert, none, refl,
  set_default, some, subst, sym, text_eq_iff, ◌++◌, ◌==◌, ◌↔◌, ◌∙◌, ◌∷◌, ◌≡◌, ◌≢◌, ◌⊎◌,
}
use python_arch_testing.Imports.Edge.{NormalizedImportEdge}
use python_arch_testing.Architecture.Edges.{Edge, eq_arrow}
use python_arch_testing.Structure.Renamed.{
  StatementKey, add_renamed, eq_statement, names_of, statement_key, statements_of, add_module_edges,
  edge_of, rename_edges,
}

names_of-insert :
    (key k : StatementKey) (names : List Text) (d : Dict StatementKey (List Text))
    → names_of k (insert ⦃e = eq_statement⦄ key names d)
      ≡ (if eq_statement.beq key k then names else names_of k d)
unfolding names_of
names_of-insert key k names d = ground (arith, lookup-insert ⦃e = eq_statement⦄ key k names d)

-- Another import of the same statement.
abbrev pub Sibling : List NormalizedImportEdge → StatementKey → Text → Type 0
Sibling edges key other =
    (e : NormalizedImportEdge) × In e edges × (statement_key e ≡ key) × (e.imported_module ≡ other)

Sibling-cons :
    (e : NormalizedImportEdge) (edges : List NormalizedImportEdge) (key : StatementKey)
    (other : Text)
    → Sibling (e ∷ edges) key other
      ↔ ((statement_key e ≡ key) × (e.imported_module ≡ other) ⊎ Sibling edges key other)
Sibling-cons e edges key other = (
  λ w. elim w.1 [
    | inl p ↦ inl (ap statement_key (sym p) ∙ w.2, ap (λ z. z.imported_module) (sym p) ∙ w.3)
    | inr m ↦ inr (w.0, m, w.2, w.3)
  ],
  λ c. elim c [ inl h ↦ (e, inl refl, h.0, h.1) | inr w ↦ (w.0, inr w.1, w.2, w.3) ],
)

names_step :
    (e : NormalizedImportEdge) (d : Dict StatementKey (List Text)) (key : StatementKey)
    (other : Text)
    → In other (
        names_of key (
          insert ⦃e = eq_statement⦄
            (statement_key e)
            (names_of (statement_key e) d ++ e.imported_module ∷ [])
            d))
      ↔ (In other (names_of key d) ⊎ (statement_key e ≡ key) × (e.imported_module ≡ other))
names_step e d key other = elim (Bool-cases (eq_statement.beq (statement_key e) key)) [
  | inl h ↦
      rw
        (
          names_of-insert (statement_key e) key
              (names_of (statement_key e) d ++ e.imported_module ∷ []) d,
          h,
        )
        (let p = (eq_statement.beq_iff (statement_key e) key).0 h in
          (
            λ m.
                elim ((In-append other (names_of (statement_key e) d) (e.imported_module ∷ [])).0
                  m) [
                    | inl n ↦ inl (subst (λ k. In other (names_of k d)) p n)
                    | inr n ↦ elim n [ inl q ↦ inr (p, sym q) | inr b ↦ absurd b ]
                  ],
            λ c.
                (In-append other (names_of (statement_key e) d) (e.imported_module ∷ [])).1
                  (elim c [
                    | inl n ↦ inl (subst (λ k. In other (names_of k d)) (sym p) n)
                    | inr q ↦ inr (inl (sym q.1))
                  ]),
          ))
  | inr h ↦
      rw
        (
          names_of-insert (statement_key e) key
              (names_of (statement_key e) d ++ e.imported_module ∷ []) d,
          h,
        )
        (
          inl,
          λ c. elim c [
            | inl n ↦ n
            | inr q ↦ absurd (beq_false ⦃e = eq_statement⦄ (statement_key e) key h q.0)
          ],
        )
]

pub statements_iff :
    (edges : List NormalizedImportEdge) (d : Dict StatementKey (List Text)) (key : StatementKey)
    (other : Text)
    → In other (names_of key (statements_of edges d))
      ↔ (In other (names_of key d) ⊎ Sibling edges key other)
unfolding statements_of
statements_iff [] d key other = (inl, λ c. elim c [ inl m ↦ m | inr w ↦ absurd w.1 ])
statements_iff (e ∷ edges) d key other =
    let ih =
      statements_iff edges
        (insert ⦃e = eq_statement⦄ (statement_key e)
          (names_of (statement_key e) d ++ e.imported_module ∷ []) d)
        key other in
    let one = names_step e d key other in
    let cons = Sibling-cons e edges key other in
    (
      λ m. elim (ih.0 m) [
        | inl n ↦ elim (one.0 n) [ inl old ↦ inl old | inr q ↦ inr (cons.1 (inl q)) ]
        | inr w ↦ inr (cons.1 (inr w))
      ],
      λ c. ih.1 (elim c [
        | inl old ↦ inl (one.1 (inl old))
        | inr w ↦ elim (cons.0 w) [ inl q ↦ inl (one.1 (inr q)) | inr v ↦ inr v ]
      ]),
    )

pub In-add_module_edges :
    (modules : List Text) (ignore : Bool) (statements : Dict StatementKey (List Text))
    (edges : List NormalizedImportEdge) (graph : Dict Edge NormalizedImportEdge) (p : Edge)
    → In p (keys (add_module_edges modules ignore statements edges graph)) ↔ (
        In p (keys graph)
        ⊎ ((e : NormalizedImportEdge) × In e edges
            × (edge_of modules ignore statements e ≡ some p)))
unfolding add_module_edges
In-add_module_edges modules ignore statements [] graph p =
    (inl, λ c. elim c [ inl m ↦ m | inr w ↦ absurd w.1 ])
In-add_module_edges modules ignore statements (e ∷ edges) graph p =
    elim (Option-cases (edge_of modules ignore statements e)) [
      | inl h ↦
          rw (h, add_module_edges)
            (let ih = In-add_module_edges modules ignore statements edges graph p in
              (
                λ m. elim (ih.0 m) [ inl n ↦ inl n | inr w ↦ inr (w.0, inr w.1, w.2) ],
                λ c. ih.1 (elim c [
                  | inl n ↦ inl n
                  | inr w ↦ elim w.1 [
                    | inl q ↦ absurd (cc (h, w.2, ap (edge_of modules ignore statements) q))
                    | inr m ↦ inr (w.0, m, w.2)
                  ]
                ]),
              ))
      | inr (q, h) ↦
          rw (h, add_module_edges)
            (let ih =
                In-add_module_edges modules ignore statements edges
                  (set_default ⦃e = eq_arrow⦄ q e graph) p in
              let new = In-keys-set_default ⦃e = eq_arrow⦄ q p e graph in
              (
                λ m. elim (ih.0 m) [
                  | inl n ↦ elim (new.0 n) [
                    | inl r ↦ inr (e, inl refl, h ∙ ap some (sym r))
                    | inr old ↦ inl old
                  ]
                  | inr w ↦ inr (w.0, inr w.1, w.2)
                ],
                λ c. ih.1 (elim c [
                  | inl n ↦ inl (new.1 (inr n))
                  | inr w ↦ elim w.1 [
                    | inl r ↦
                        inl (new.1 (inl (cc (h, w.2, ap (edge_of modules ignore statements) r))))
                    | inr m ↦ inr (w.0, m, w.2)
                  ]
                ]),
              ))
    ]

In-add_renamed :
    {T : Type 0} (rename rename_end : Text → Text) (edges renamed : Dict Edge T) (p : Edge)
    → In p (keys (add_renamed rename rename_end edges renamed)) ↔ (
        In p (keys renamed)
        ⊎ ((q : Edge) × In q (keys edges) × (p ≡ (rename q.0, rename_end q.1)) × (p.0 ≢ p.1)))
unfolding add_renamed
In-add_renamed rename rename_end [] renamed p =
    (inl, λ c. elim c [ inl m ↦ m | inr w ↦ absurd w.1 ])
In-add_renamed rename rename_end (((o, t), v) ∷ edges) renamed p =
    elim (Bool-cases (rename o == rename_end t)) [
      | inl h ↦ rw h (
          let ih = In-add_renamed rename rename_end edges renamed p in
          (
            λ m. elim (ih.0 m) [ inl n ↦ inl n | inr w ↦ inr (w.0, inr w.1, w.2, w.3) ],
            λ c. ih.1 (elim c [
              | inl n ↦ inl n
              | inr w ↦ elim w.1 [
                | inl q ↦ absurd (
                    w.3 (
                      ap (λ z. z.0) w.2
                      ∙ ap (λ z. rename z.0) q
                      ∙ (text_eq_iff (rename o) (rename_end t)).0 h
                      ∙ ap (λ z. rename_end z.1) (sym q)
                      ∙ ap (λ z. z.1) (sym w.2)))
                | inr m ↦ inr (w.0, m, w.2, w.3)
              ]
            ]),
          ))
      | inr h ↦ rw h (
          let ih =
            In-add_renamed rename rename_end edges
              (set_default ⦃e = eq_arrow⦄ (rename o, rename_end t) v renamed) p in
          let new = In-keys-set_default ⦃e = eq_arrow⦄ (rename o, rename_end t) p v renamed in
          (
            λ m. elim (ih.0 m) [
              | inl n ↦ elim (new.0 n) [
                | inl q ↦ inr (
                  (o, t),
                  inl refl,
                  q,
                  λ r.
                      beq_false (rename o) (rename_end t) h
                        (ap (λ z. z.0) (sym q) ∙ r ∙ ap (λ z. z.1) q),
                )
                | inr old ↦ inl old
              ]
              | inr w ↦ inr (w.0, inr w.1, w.2, w.3)
            ],
            λ c. ih.1 (elim c [
              | inl n ↦ inl (new.1 (inr n))
              | inr w ↦ elim w.1 [
                | inl q ↦ inl (new.1 (inl (w.2 ∙ ap (λ z. (rename z.0, rename_end z.1)) q)))
                | inr m ↦ inr (w.0, m, w.2, w.3)
              ]
            ]),
          ))
    ]

-- The renamed edges are the images of the edges under the two renamings, but for those whose ends
-- become the same module.
pub rename_edges_iff :
    {T : Type 0} (edges : Dict Edge T) (rename end : Text → Text) (p : Edge)
    → (In p (keys (rename_edges edges rename (some end)))
        ↔ ((q : Edge) × In q (keys edges) × (p ≡ (rename q.0, end q.1)) × (p.0 ≢ p.1)))
      × (rename_edges edges rename none ≡ rename_edges edges rename (some rename))
unfolding rename_edges
rename_edges_iff edges rename end p = (
  (
    λ m. elim ((In-add_renamed rename end edges [] p).0 m) [ inl n ↦ absurd n | inr w ↦ w ],
    λ w. (In-add_renamed rename end edges [] p).1 (inr w),
  ),
  refl,
)
