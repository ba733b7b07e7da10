-- ===== src/Prisma.antt =====
-- The client library `@prisma/client`, which the services call and do not implement: a parameter.
-- A table is the list of its rows. Each field is one query of the client, and the laws say what
-- its documentation promises: which rows a query returns, which rows a write touches, and that a
-- unique key is enforced. What a query does to the order of equal rows is left open.
pub mod Memory
pub mod Laws
use synapse_hub.Base.{
  List, Bool, Option, [], none, ◌∷◌, any, true, some, false, ℕ, ◌++◌, ◌≡◌, All, ◌≤◌, length, keep,
  ◌≢◌, count, map_where, not,
}
use synapse_hub.Text.{Text}

-- `error.meta?.target` of a violated unique key.
pub data Target : Type 0 where
  fields : List Text → Target
  index : Text → Target
  absent : Target

-- A unique key of a table: what the client reports, and which rows clash with a new one.
pub record Key (R : Type 0) : Type 0 where
  pub target : Target
  pub clashes : R → R → Bool

-- The key of the rows of a table that a new row violates first.
abbrev pub violated : {R : Type 0} → List (Key R) → R → List R → Option Target
violated [] r rows = none
violated (k ∷ ks) r rows = elim (any (k.clashes r) rows) [
  | true ↦ some k.target
  | false ↦ violated ks r rows
]

-- `findMany({ where, orderBy, cursor, skip: 1, take })`; a cursor names the row to start after.
pub record Query (R : Type 0) : Type 0 where
  pub matches : R → Bool
  pub precedes : R → R → Bool
  pub cursor : Option (R → Bool)
  pub limit : Option ℕ

-- What `create` does: the table with the row added, or the key that it violates (code P2002).
pub data Created (R : Type 0) : Type 0 where
  stored : List R → Created R
  conflict : Target → Created R

abbrev pub create_by : {R : Type 0} → Option Target → R → List R → Created R
create_by none r rows = stored (rows ++ r ∷ [])
create_by (some t) r rows = conflict t

-- `find_unique` is also `findFirst` with no order. `find_greatest` is `findFirst` in descending
-- order of a numeric column.
pub record Prisma : Type 1 where
  pub find_unique : {R : Type 0} → (R → Bool) → List R → Option R
  pub find_greatest : {R : Type 0} → (R → Bool) → (R → ℕ) → List R → Option R
  pub find_many : {R : Type 0} → Query R → List R → List R
  pub update_many : {R : Type 0} → (R → Bool) → (R → R) → List R → ℕ × List R
  pub delete_many : {R : Type 0} → (R → Bool) → List R → ℕ × List R
  pub create : {R : Type 0} → List (Key R) → R → List R → Created R
  pub count_rows : {R : Type 0} → (R → Bool) → List R → ℕ
  pub find_unique_some :
      {R : Type 0} (p : R → Bool) (rows : List R) (r : R)
      → find_unique p rows ≡ some r
      → (p r ≡ true) × ((P : R → Type 0) → All P rows → P r)
  pub find_unique_none :
      {R : Type 0} (p : R → Bool) (rows : List R)
      → find_unique p rows ≡ none
      → All (λ r. p r ≡ false) rows
  pub find_greatest_some :
      {R : Type 0} (p : R → Bool) (key : R → ℕ) (rows : List R) (r : R)
      → find_greatest p key rows ≡ some r
      → (p r ≡ true) × All (λ x. p x ≡ true → key x ≤ key r) rows
  pub find_greatest_none :
      {R : Type 0} (p : R → Bool) (key : R → ℕ) (rows : List R)
      → find_greatest p key rows ≡ none
      → All (λ r. p r ≡ false) rows
  pub find_greatest_row :
      {R : Type 0} (p : R → Bool) (key : R → ℕ) (rows : List R) (r : R)
      → find_greatest p key rows ≡ some r
      → (P : R → Type 0) → All P rows
      → P r
  pub find_many_matches :
      {R : Type 0} (q : Query R) (rows : List R) → All (λ r. q.matches r ≡ true) (find_many q rows)
  pub find_many_rows :
      {R : Type 0} (q : Query R) (rows : List R) (P : R → Type 0)
      → All P rows
      → All P (find_many q rows)
  pub find_many_limit :
      {R : Type 0} (q : Query R) (rows : List R) (n : ℕ)
      → q.limit ≡ some n
      → length (find_many q rows) ≤ n
  pub find_many_complete :
      {R : Type 0} (q : Query R) (rows : List R)
      → q.cursor ≡ none
      → q.limit ≡ none
      → (p : R → Bool) → any p (find_many q rows) ≡ any p (keep q.matches rows)
  pub find_many_empty :
      {R : Type 0} (q : Query R) (rows : List R)
      → q.cursor ≡ none
      → q.limit ≢ some 0
      → find_many q rows ≡ []
      → All (λ r. q.matches r ≡ false) rows
  pub update_many_lem :
      {R : Type 0} (p : R → Bool) (f : R → R) (rows : List R)
      → update_many p f rows ≡ (count p rows, map_where p f rows)
  pub delete_many_lem :
      {R : Type 0} (p : R → Bool) (rows : List R)
      → delete_many p rows ≡ (count p rows, keep (λ r. not (p r)) rows)
  pub create_lem :
      {R : Type 0} (keys : List (Key R)) (r : R) (rows : List R)
      → create keys r rows ≡ create_by (violated keys r rows) r rows
  pub count_rows_lem :
      {R : Type 0} (p : R → Bool) (rows : List R) → count_rows p rows ≡ count p rows
