-- ===== src/Prisma/Memory.antt =====
-- A client over lists in memory, at which the theorems that assume a client are applied. It keeps
-- rows in the order of their insertion, which the laws of the client allow.
use native.Mathlib.Nat.{le_refl}
use synapse_hub.Base.{
  Bool, List, Option, [], none, ◌∷◌, true, some, false, ℕ, leb, take, keep, ◌≡◌, All, Bool-cases,
  inl, arith, all, inr, Option-cases, ◌≤◌, zero, suc, length, ◌≢◌, refl, count, map_where, not,
}
use synapse_hub.Prisma.{Query, Prisma, create_by, violated}

module _ {R : Type 0} where
  abbrev pub first : (R → Bool) → List R → Option R
  first p [] = none
  first p (r ∷ rows) = elim (p r) [ true ↦ some r | false ↦ first p rows ]

  abbrev pub better : (R → ℕ) → R → Option R → R
  better key r none = r
  better key r (some s) = elim (leb (key s) (key r)) [ true ↦ r | false ↦ s ]

  abbrev pub greatest : (R → Bool) → (R → ℕ) → List R → Option R
  greatest p key [] = none
  greatest p key (r ∷ rows) = elim (p r) [
    | true ↦ some (better key r (greatest p key rows))
    | false ↦ greatest p key rows
  ]

  abbrev pub after : (R → Bool) → List R → List R
  after p [] = []
  after p (r ∷ rows) = elim (p r) [ true ↦ rows | false ↦ after p rows ]

  abbrev pub from_cursor : Option (R → Bool) → List R → List R
  from_cursor none rows = rows
  from_cursor (some p) rows = after p rows

  abbrev pub up_to : Option ℕ → List R → List R
  up_to none rows = rows
  up_to (some n) rows = take n rows

  abbrev pub page : Query R → List R → List R
  page q rows = up_to q.limit (from_cursor q.cursor (keep q.matches rows))

  pub first-some :
      (p : R → Bool) (rows : List R) (r : R)
      → first p rows ≡ some r
      → (p r ≡ true) × ((P : R → Type 0) → All P rows → P r)
  first-some p [] r h = cc
  first-some p (x ∷ rows) r h = elim (Bool-cases (p x)) [
    | inl hit ↦ let same : x ≡ r = ground arith in (rw (← same) hit, λ P all. rw (← same) all.0)
    | inr miss ↦
        let (passes, inside) = first-some p rows r (ground arith) in
        (passes, λ P all. inside P all.1)
  ]

  pub first-none :
      (p : R → Bool) (rows : List R) → first p rows ≡ none → All (λ r. p r ≡ false) rows
  first-none p [] h = tt
  first-none p (x ∷ rows) h = elim (Bool-cases (p x)) [
    | inl hit ↦ ground arith
    | inr miss ↦ (miss, first-none p rows (ground arith))
  ]

  pub greatest-none :
      (p : R → Bool) (key : R → ℕ) (rows : List R)
      → greatest p key rows ≡ none
      → All (λ r. p r ≡ false) rows
  greatest-none p key [] h = tt
  greatest-none p key (x ∷ rows) h = elim (Bool-cases (p x)) [
    | inl hit ↦ ground arith
    | inr miss ↦ (miss, greatest-none p key rows (ground arith))
  ]

  pub greatest-row :
      (p : R → Bool) (key : R → ℕ) (rows : List R) (r : R)
      → greatest p key rows ≡ some r
      → (P : R → Type 0) → All P rows
      → P r
  greatest-row p key [] r h P all = cc h
  greatest-row p key (x ∷ rows) r h P all = elim (Bool-cases (p x)) [
    | inr miss ↦ greatest-row p key rows r (ground arith) P all.1
    | inl hit ↦ elim (Option-cases (greatest p key rows)) [
      | inl empty ↦ let same : x ≡ r = ground arith in rw (← same) all.0
      | inr (s, found) ↦ elim (Bool-cases (leb (key s) (key x))) [
        | inl win ↦ let same : x ≡ r = ground arith in rw (← same) all.0
        | inr lose ↦
            let same : s ≡ r = ground arith in rw (← same) (greatest-row p key rows s found P all.1)
      ]
    ]
  ]

  abbrev Below : (R → Bool) → (R → ℕ) → R → List R → Type 0
  Below p key r rows = All (λ x. p x ≡ true → key x ≤ key r) rows

  Below-none :
      (p : R → Bool) (key : R → ℕ) (r : R) (rows : List R)
      → All (λ x. p x ≡ false) rows
      → Below p key r rows
  Below-none p key r [] h = tt
  Below-none p key r (x ∷ rows) h = ((λ e. ground arith), Below-none p key r rows h.1)

  Below-mono :
      (p : R → Bool) (key : R → ℕ) (r s : R) (rows : List R)
      → key r ≤ key s
      → Below p key r rows
      → Below p key s rows
  Below-mono p key r s [] le h = tt
  Below-mono p key r s (x ∷ rows) le h =
      ((λ e. let low : key x ≤ key r = h.0 e in omega arith), Below-mono p key r s rows le h.1)

  pub greatest-some :
      (p : R → Bool) (key : R → ℕ) (rows : List R) (r : R)
      → greatest p key rows ≡ some r
      → (p r ≡ true) × Below p key r rows
  greatest-some p key [] r h = cc
  greatest-some p key (x ∷ rows) r h = elim (Bool-cases (p x)) [
    | inr miss ↦
        let (passes, below) = greatest-some p key rows r (ground arith) in
        (passes, ((λ e. ground arith), below))
    | inl hit ↦ elim (Option-cases (greatest p key rows)) [
      | inl empty ↦
          let same : x ≡ r = ground arith in
          (
            rw (← same) hit,
            (
              (λ e. rw same (le_refl (key r))),
              Below-none p key r rows (greatest-none p key rows empty),
            ),
          )
      | inr (s, found) ↦
          let (passes, below) = greatest-some p key rows s found in
          elim (Bool-cases (leb (key s) (key x))) [
            | inl win ↦
                let same : x ≡ r = ground arith in
                (
                  rw (← same) hit,
                  (
                    (λ e. rw same (le_refl (key r))),
                    Below-mono p key s r rows (rw (← same) (ground arith)) below,
                  ),
                )
            | inr lose ↦
                let same : s ≡ r = ground arith in
                (
                  rw (← same) passes,
                  (
                    (λ e. rw (← same) (ground arith)),
                    Below-mono p key s r rows (rw same (le_refl (key r))) below,
                  ),
                )
          ]
    ]
  ]

  pub keep_matches : (p : R → Bool) (rows : List R) → All (λ r. p r ≡ true) (keep p rows)
  keep_matches p [] = tt
  keep_matches p (x ∷ rows) = elim (Bool-cases (p x)) [
    | inl hit ↦ rw (hit, keep) (hit, keep_matches p rows)
    | inr miss ↦ rw (miss, keep) (keep_matches p rows)
  ]

  pub All-keep : (P : R → Type 0) (p : R → Bool) (rows : List R) → All P rows → All P (keep p rows)
  All-keep P p [] h = tt
  All-keep P p (x ∷ rows) h = elim (Bool-cases (p x)) [
    | inl hit ↦ rw (hit, keep) (h.0, All-keep P p rows h.1)
    | inr miss ↦ rw (miss, keep) (All-keep P p rows h.1)
  ]

  All-after : (P : R → Type 0) (p : R → Bool) (rows : List R) → All P rows → All P (after p rows)
  All-after P p [] h = tt
  All-after P p (x ∷ rows) h = elim (Bool-cases (p x)) [
    | inl hit ↦ rw (hit, after) h.1
    | inr miss ↦ rw (miss, after) (All-after P p rows h.1)
  ]

  All-take : (P : R → Type 0) (n : ℕ) (rows : List R) → All P rows → All P (take n rows)
  All-take P zero rows h = tt
  All-take P (suc n) [] h = tt
  All-take P (suc n) (x ∷ rows) h = (h.0, All-take P n rows h.1)

  pub All-from_cursor :
      (P : R → Type 0) (c : Option (R → Bool)) (rows : List R)
      → All P rows
      → All P (from_cursor c rows)
  All-from_cursor P none rows h = h
  All-from_cursor P (some p) rows h = All-after P p rows h

  pub All-up_to :
      (P : R → Type 0) (n : Option ℕ) (rows : List R) → All P rows → All P (up_to n rows)
  All-up_to P none rows h = h
  All-up_to P (some n) rows h = All-take P n rows h

  pub length-take_le : (n : ℕ) (rows : List R) → length (take n rows) ≤ n
  length-take_le zero rows = omega arith
  length-take_le (suc n) [] = omega arith
  length-take_le (suc n) (x ∷ rows) = omega (arith, length-take_le n rows)

  keep_empty : (p : R → Bool) (rows : List R) → keep p rows ≡ [] → All (λ r. p r ≡ false) rows
  keep_empty p [] h = tt
  keep_empty p (x ∷ rows) h = elim (Bool-cases (p x)) [
    | inl hit ↦ ground arith
    | inr miss ↦ (miss, keep_empty p rows (ground arith))
  ]

  up_to_empty : (n : Option ℕ) (rows : List R) → n ≢ some 0 → up_to n rows ≡ [] → rows ≡ []
  up_to_empty none rows ne h = h
  up_to_empty (some zero) rows ne h = absurd (ne refl)
  up_to_empty (some (suc n)) [] ne h = refl
  up_to_empty (some (suc n)) (x ∷ rows) ne h = cc

  pub page_empty :
      (q : Query R) (rows : List R)
      → q.cursor ≡ none
      → q.limit ≢ some 0
      → page q rows ≡ []
      → All (λ r. q.matches r ≡ false) rows
  page_empty q rows c l h =
      keep_empty q.matches rows
        (rw c at (up_to_empty q.limit (from_cursor q.cursor (keep q.matches rows)) l h))

abbrev pub memory : Prisma
memory = record {
  find_unique = first;
  find_greatest = greatest;
  find_many = page;
  update_many = λ p f rows. (count p rows, map_where p f rows);
  delete_many = λ p rows. (count p rows, keep (λ r. not (p r)) rows);
  create = λ keys r rows. create_by (violated keys r rows) r rows;
  count_rows = count;
  find_unique_some = first-some;
  find_unique_none = first-none;
  find_greatest_some = greatest-some;
  find_greatest_none = greatest-none;
  find_greatest_row = greatest-row;
  find_many_matches = λ q rows.
      All-up_to (λ r. q.matches r ≡ true) q.limit (from_cursor q.cursor (keep q.matches rows))
        (All-from_cursor (λ r. q.matches r ≡ true) q.cursor (keep q.matches rows)
          (keep_matches q.matches rows));
  find_many_rows = λ q rows P h.
      All-up_to P q.limit (from_cursor q.cursor (keep q.matches rows))
        (All-from_cursor P q.cursor (keep q.matches rows) (All-keep P q.matches rows h));
  find_many_limit =
      λ q rows n e. rw e (length-take_le n (from_cursor q.cursor (keep q.matches rows)));
  find_many_complete = λ q rows c l p. rw (c, l);
  find_many_empty = page_empty;
  update_many_lem = λ p f rows. refl;
  delete_many_lem = λ p rows. refl;
  create_lem = λ keys r rows. refl;
  count_rows_lem = λ p rows. refl;
}
