-- ===== src/Prisma/Laws.antt =====
-- What follows from the laws of the client: whether a query finds a row is a fact of the table.
use synapse_hub.Base.{
  Bool, List, All, ◌≡◌, false, any, [], refl, ◌∷◌, arith, none, ◌↔◌, Option-cases, inl, inr,
  is_some, sym, Bool-cases, some, ◌∙◌, true, ◌≢◌, ◌++◌, any-append, All-append, ap,
}
use synapse_hub.Prisma.{Prisma, Query}

module _ (prisma : Prisma) {R : Type 0} where
  pub any-of_none :
      (p : R → Bool) (rows : List R) → All (λ r. p r ≡ false) rows → any p rows ≡ false
  any-of_none p [] h = refl
  any-of_none p (r ∷ rows) h = rw h.0 (any-of_none p rows h.1)

  pub none-of_any :
      (p : R → Bool) (rows : List R) → any p rows ≡ false → All (λ r. p r ≡ false) rows
  none-of_any p [] h = tt
  none-of_any p (r ∷ rows) h = (ground arith, none-of_any p rows (ground arith))

  pub find_unique-none_iff :
      (p : R → Bool) (rows : List R) → (prisma.find_unique p rows ≡ none) ↔ (any p rows ≡ false)
  find_unique-none_iff p rows = (
    (λ e. any-of_none p rows (prisma.find_unique_none p rows e)),
    (λ e. elim (Option-cases (prisma.find_unique p rows)) [
      | inl empty ↦ empty
      | inr (r, found) ↦
          let (hit, inside) = prisma.find_unique_some p rows r found in
          let miss = inside (λ x. p x ≡ false) (none-of_any p rows e) in cc (hit, miss)
    ]),
  )

  pub find_unique-any :
      (p : R → Bool) (rows : List R) → is_some (prisma.find_unique p rows) ≡ any p rows
  find_unique-any p rows = elim (Option-cases (prisma.find_unique p rows)) [
    | inl empty ↦ rw empty (sym ((find_unique-none_iff p rows).0 empty))
    | inr (r, found) ↦ elim (Bool-cases (any p rows)) [
      | inl some_row ↦ rw (found, some_row)
      | inr no_row ↦
          let empty = (find_unique-none_iff p rows).1 no_row in
          let clash : some r ≡ none = sym found ∙ empty in cc clash
    ]
  ]

  -- A row that a query by a predicate returns satisfies it.
  pub find_unique_matches :
      (p : R → Bool) (rows : List R) (r : R) → prisma.find_unique p rows ≡ some r → p r ≡ true
  find_unique_matches p rows r h = (prisma.find_unique_some p rows r h).0

  -- A query with no cursor returns nothing exactly when no row matches.
  pub find_many-nil_iff :
      (q : Query R) (rows : List R)
      → q.cursor ≡ none
      → q.limit ≢ some 0
      → (prisma.find_many q rows ≡ []) ↔ (any q.matches rows ≡ false)
  find_many-nil_iff q rows c l = (
    (λ e. any-of_none q.matches rows (prisma.find_many_empty q rows c l e)),
    (λ e.
        nothing (prisma.find_many q rows) (prisma.find_many_matches q rows)
          (prisma.find_many_rows q rows (λ r. q.matches r ≡ false) (none-of_any q.matches rows e))),
  )
    where
      nothing :
          (l : List R) → All (λ r. q.matches r ≡ true) l → All (λ r. q.matches r ≡ false) l → l ≡ []
      nothing [] h k = refl
      nothing (x ∷ l) h k = let a = h.0 in let b = k.0 in cc (a, b)

  -- The row that a search finds where only the last one passes.
  pub find_last :
      (p : R → Bool) (r : R) (rows : List R)
      → any p rows ≡ false
      → p r ≡ true
      → prisma.find_unique p (rows ++ r ∷ []) ≡ some r
  find_last p r rows none_before hit = elim (Option-cases (prisma.find_unique p (rows ++ r ∷ []))) [
    | inl gone ↦
        let nothing = (find_unique-none_iff p (rows ++ r ∷ [])).0 gone in
        let split = any-append p rows (r ∷ []) in ground arith
    | inr (x, found) ↦
        let (passes, inside) = prisma.find_unique_some p (rows ++ r ∷ []) x found in
        let only =
          inside (λ y. p y ≡ true → y ≡ r)
            (All-append (λ y. p y ≡ true → y ≡ r) rows (r ∷ []) (skipped rows none_before)
              ((λ h. refl), tt)) in
        found ∙ ap some (only passes)
  ]
    where
      skipped : (l : List R) → any p l ≡ false → All (λ y. p y ≡ true → y ≡ r) l
      skipped [] h = tt
      skipped (y ∷ l) h = ((λ e. ground arith), skipped l (ground arith))
