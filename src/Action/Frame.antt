-- ===== src/Action/Frame.antt =====
-- What an action leaves alone: a part of the database that it has after it what it had before,
-- whether it returns or throws. The rules follow the shape of an action.
use mathlib.Core.Path.{subst}
use synapse_hub.Action.{
  Action, ◌>>=◌, Reply, ok, err, Failure, throw_if, or_throw, pure, World, new_id, Table,
  find_unique, find_many, create_row, p2002, update_many, delete_many, update_row, p2025,
  background, transaction,
}
use synapse_hub.Base.{
  ◌≡◌, ◌∙◌, Bool, if◌then◌else◌, true, false, refl, Option, none, some, ℕ, ◌+◌, List, sym, ◌++◌,
  ◌∷◌, [], ◌⊎◌, Option-cases, inl, arith, inr,
}
use synapse_hub.Prisma.{Query, Key, Created, stored, conflict, violated, Target}
use synapse_hub.Schema.{Db}

abbrev pub Keeps {ℓ} : {X : Type ℓ} {A : Type 0} → (Db → X) → Action A → Type ℓ
Keeps view m = (db : Db) → view (m db).1 ≡ view db

module _ {ℓ} {X : Type ℓ} (view : Db → X) where
  pub Keeps-bind :
      {A B : Type 0} (m : Action A) (f : A → Action B)
      → Keeps view m
      → ((a : A) → Keeps view (f a))
      → Keeps view (m >>= f)
  Keeps-bind {A = A} {B = B} m f km kf db = go (m db).0 (m db).1 (km db)
    where
      go :
          (r : Reply A) (db' : Db)
          → view db' ≡ view db
          → view (◌>>=◌ {A = A} {B = B} (λ d. (r, d)) f db').1 ≡ view db
      go (ok a) db' h = kf a db' ∙ h
      go (err e) db' h = h

  pub Keeps-if :
      {A : Type 0} (b : Bool) (m n : Action A)
      → Keeps view m
      → Keeps view n
      → Keeps view (if b then m else n)
  Keeps-if true m n km kn = km
  Keeps-if false m n km kn = kn

  pub Keeps-throw_if : (b : Bool) (e : Failure) → Keeps view (throw_if b e)
  Keeps-throw_if true e db = refl
  Keeps-throw_if false e db = refl

  pub Keeps-or_throw : {A : Type 0} (o : Option A) (e : Failure) → Keeps view (or_throw o e)
  Keeps-or_throw none e db = refl
  Keeps-or_throw (some a) e db = refl

  pub Keeps-pure : {A : Type 0} (a : A) → Keeps view (pure a)
  Keeps-pure a db = refl

  module _ ⦃w : World⦄ where
    -- A view that does not look at the ids handed out.
    abbrev pub SkipsIds : Type ℓ
    SkipsIds = (n : ℕ) (db : Db) → view (record db { issued = n }) ≡ view db

    pub Keeps-new_id : SkipsIds → Keeps view new_id
    Keeps-new_id skips db = skips (db.issued + 1) db

    module _ {R : Type 0} (t : Table R) where
      -- A view that does not look at a table.
      abbrev pub Skips : Type ℓ
      Skips = (l : List R) (db : Db) → view (t.put l db) ≡ view db

      pub Keeps-find_unique : (p : R → Bool) → Keeps view (find_unique t p)
      Keeps-find_unique p db = refl

      pub Keeps-find_many : (q : Query R) → Keeps view (find_many t q)
      Keeps-find_many q db = refl

      pub Keeps-create_row :
          (keys : List (Key R)) (r : R) → Skips → Keeps view (create_row t keys r)
      Keeps-create_row keys r skips db = go (w.prisma.create keys r (t.rows db))
        where
          go :
              (c : Created R)
              → view
                  (let result : Reply R × Db = elim c [
                    | stored rows ↦ (ok r, t.put rows db)
                    | conflict target ↦ (err (p2002 target), db)
                  ] in
                    result).1
                ≡ view db
          go (stored rows) = skips rows db
          go (conflict target) = refl

      pub Keeps-update_many : (p : R → Bool) (f : R → R) → Skips → Keeps view (update_many t p f)
      Keeps-update_many p f skips db = skips (w.prisma.update_many p f (t.rows db)).1 db

      pub Keeps-delete_many : (p : R → Bool) → Skips → Keeps view (delete_many t p)
      Keeps-delete_many p skips db = skips (w.prisma.delete_many p (t.rows db)).1 db

      pub Keeps-update_row : (p : R → Bool) (f : R → R) → Skips → Keeps view (update_row t p f)
      Keeps-update_row p f skips db = go (w.prisma.find_unique p (t.rows db))
        where
          go :
              (o : Option R)
              → view
                  (let result : Reply R × Db = elim o [
                    | none ↦ (err p2025, db)
                    | some r ↦ (ok (f r), t.put (w.prisma.update_many p f (t.rows db)).1 db)
                  ] in
                    result).1
                ≡ view db
          go none = refl
          go (some r) = skips (w.prisma.update_many p f (t.rows db)).1 db

  pub Keeps-background : {A : Type 0} (m : Action A) → Keeps view m → Keeps view (background m)
  unfolding background
  Keeps-background m km db = km db

  pub Keeps-transaction : {A : Type 0} (m : Action A) → Keeps view m → Keeps view (transaction m)
  unfolding transaction
  Keeps-transaction {A = A} m km db = go (m db).0 (m db).1 (km db)
    where
      go :
          (r : Reply A) (db' : Db)
          → view db' ≡ view db
          → view (transaction (λ (d : Db). (r, db')) db).1 ≡ view db
      go (ok a) db' h = h
      go (err e) db' h = refl

-- An invariant that holds after an action if it held before, whether it returns or throws.
abbrev pub Preserves {ℓ} : {A : Type 0} → (Db → Type ℓ) → Action A → Type ℓ
Preserves Inv m = (db : Db) → Inv db → Inv (m db).1

module _ {ℓ} (Inv : Db → Type ℓ) where
  pub Preserves-bind :
      {A B : Type 0} (m : Action A) (f : A → Action B)
      → Preserves Inv m
      → ((a : A) → Preserves Inv (f a))
      → Preserves Inv (m >>= f)
  Preserves-bind {A = A} {B = B} m f km kf db h = go (m db).0 (m db).1 (km db h)
    where
      go : (r : Reply A) (db' : Db) → Inv db' → Inv (◌>>=◌ {A = A} {B = B} (λ d. (r, d)) f db').1
      go (ok a) db' h' = kf a db' h'
      go (err e) db' h' = h'

  pub Preserves-if :
      {A : Type 0} (b : Bool) (m n : Action A)
      → Preserves Inv m
      → Preserves Inv n
      → Preserves Inv (if b then m else n)
  Preserves-if true m n pm pn = pm
  Preserves-if false m n pm pn = pn

  pub Preserves-throw_if : (b : Bool) (e : Failure) → Preserves Inv (throw_if b e)
  Preserves-throw_if true e db h = h
  Preserves-throw_if false e db h = h

  pub Preserves-or_throw : {A : Type 0} (o : Option A) (e : Failure) → Preserves Inv (or_throw o e)
  Preserves-or_throw none e db h = h
  Preserves-or_throw (some a) e db h = h

  pub Preserves-transaction :
      {A : Type 0} (m : Action A) → Preserves Inv m → Preserves Inv (transaction m)
  unfolding transaction
  Preserves-transaction {A = A} m pm db h = go (m db).0 (m db).1 (pm db h)
    where
      go : (r : Reply A) (db' : Db) → Inv db' → Inv (transaction (λ (d : Db). (r, db')) db).1
      go (ok a) db' h' = h'
      go (err e) db' h' = h

-- What an action keeps, it preserves every property of.
pub Preserves-Keeps {ℓ κ} :
    {X : Type ℓ} (P : X → Type κ) (view : Db → X) {A : Type 0} (m : Action A)
    → Keeps view m
    → Preserves (λ db. P (view db)) m
Preserves-Keeps P view m km db h = subst P (sym (km db)) h

module _ ⦃w : World⦄ {R : Type 0} (t : Table R) where
  -- A row that violates a key is refused, and any other is added behind the others.
  pub create_row_cases :
      (keys : List (Key R)) (r : R) (db : Db)
      → ((violated keys r (t.rows db) ≡ none)
          × (create_row t keys r db ≡ (ok r, t.put (t.rows db ++ r ∷ []) db)))
        ⊎ ((k : Target) × (violated keys r (t.rows db) ≡ some k)
            × (create_row t keys r db ≡ (err (p2002 k), db)))
  create_row_cases keys r db = elim (Option-cases (violated keys r (t.rows db))) [
    | inl free ↦ inl (free, ground (arith, w.prisma.create_lem keys r (t.rows db)))
    | inr (k, taken) ↦ inr (k, taken, ground (arith, w.prisma.create_lem keys r (t.rows db)))
  ]

  pub Preserves-create_row {ℓ} :
      (Inv : Db → Type ℓ) (keys : List (Key R)) (r : R)
      → ((db : Db)
          → violated keys r (t.rows db) ≡ none
          → Inv db
          → Inv (t.put (t.rows db ++ r ∷ []) db))
      → Preserves Inv (create_row t keys r)
  Preserves-create_row Inv keys r step db h = elim (create_row_cases keys r db) [
    | inl (free, e) ↦ subst (λ (x : Reply R × Db). Inv x.1) (sym e) (step db free h)
    | inr (k, taken, e) ↦ subst (λ (x : Reply R × Db). Inv x.1) (sym e) h
  ]
