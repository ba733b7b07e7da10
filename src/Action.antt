-- ===== src/Action.antt =====
-- How a service method runs: it reads and writes the database, and returns a value or throws.
-- What was written before a throw stays written. `World` is what a method meets outside the
-- repository: the database client, the clock, the ids that the database gives to new rows, and
-- `rival k`, what the other clients do to the table of messages between the reading and the
-- write of the k-th attempt of a loop that retries; `client_message` is the text of an
-- error that the client throws.
pub mod Frame
pub mod Tables
use Prim.Native.String.{String}
use synapse_hub.Base.{ℕ, List, Bool, true, false, Option, none, some, ◌+◌}
use synapse_hub.Prisma.{Target, Prisma, Query, Key, stored, conflict}
use synapse_hub.Schema.{Message, Db}
use synapse_hub.Text.{Text}

-- The exceptions of `@nestjs/common`, and those of the client: a violated unique key (P2002) and
-- an update of a row that is not there (P2025).
pub data Failure : Type 0 where
  bad_request forbidden not_found unauthorized conflicting internal unavailable ws_exception :
      String → Failure
  p2002 : Target → Failure
  p2025 : Failure

pub record World : Type 1 where
  pub prisma : Prisma
  pub now : ℕ
  pub uuid : ℕ → Text
  pub rival : ℕ → List Message → List Message
  pub client_message : Failure → Text

pub data Reply (A : Type 0) : Type 0 where
  ok : A → Reply A
  err : Failure → Reply A

abbrev pub is_ok : {A : Type 0} → Reply A → Bool
is_ok (ok a) = true
is_ok (err e) = false

abbrev pub Action : Type 0 → Type 0
Action A = Db → Reply A × Db

infixl 5 ◌>>=◌ ◌>>◌
abbrev pub ◌>>=◌ : {A B : Type 0} → Action A → (A → Action B) → Action B
◌>>=◌ m f db = let (r, db') = m db in elim r [ ok a ↦ f a db' | err e ↦ (err e, db') ]

abbrev pub ◌>>◌ : {A B : Type 0} → Action A → Action B → Action B
m >> k = m >>= λ _. k

abbrev pub pure : {A : Type 0} → A → Action A
pure a db = (ok a, db)

abbrev pub throw : {A : Type 0} → Failure → Action A
throw e db = (err e, db)

-- `if (b) { throw e }`
abbrev pub throw_if : Bool → Failure → Action (Unit {0})
throw_if true e = throw e
throw_if false e = pure tt

-- `if (!o) { throw e }`
abbrev pub or_throw : {A : Type 0} → Option A → Failure → Action A
or_throw none e = throw e
or_throw (some a) e = pure a

-- `prisma.$transaction`: what was written is undone if an exception is thrown.
unfoldable pub transaction : {A : Type 0} → Action A → Action A
transaction m db = let (r, db') = m db in elim r [ ok a ↦ (ok a, db') | err e ↦ (err e, db) ]

-- `void m().catch(...)`: what `m` writes is kept, and what it throws is only logged.
unfoldable pub background : {A : Type 0} → Action A → Action (Unit {0})
background m db = (ok tt, (m db).1)

-- `prisma.message` and the like: where a table stands in the database.
pub record Table (R : Type 0) : Type 0 where
  pub rows : Db → List R
  pub put : List R → Db → Db

module _ ⦃w : World⦄ where
  -- The id of the next row.
  abbrev pub new_id : Action Text
  new_id db = (ok (w.uuid db.issued), record db { issued = db.issued + 1 })

  -- The next value of a source of randomness.
  abbrev pub draw : Action ℕ
  draw db = (ok db.issued, record db { issued = db.issued + 1 })

  module _ {R : Type 0} (t : Table R) where
    abbrev pub find_unique : (R → Bool) → Action (Option R)
    find_unique p db = (ok (w.prisma.find_unique p (t.rows db)), db)

    abbrev pub find_many : Query R → Action (List R)
    find_many q db = (ok (w.prisma.find_many q (t.rows db)), db)

    abbrev pub count_rows : (R → Bool) → Action ℕ
    count_rows p db = (ok (w.prisma.count_rows p (t.rows db)), db)

    abbrev pub update_many : (R → Bool) → (R → R) → Action ℕ
    update_many p f db =
        let (n, rows) = w.prisma.update_many p f (t.rows db) in (ok n, t.put rows db)

    abbrev pub delete_many : (R → Bool) → Action ℕ
    delete_many p db = let (n, rows) = w.prisma.delete_many p (t.rows db) in (ok n, t.put rows db)

    -- `update` by a unique key: the row as it is afterwards, or P2025.
    abbrev pub update_row : (R → Bool) → (R → R) → Action R
    update_row p f db = elim (w.prisma.find_unique p (t.rows db)) [
      | none ↦ (err p2025, db)
      | some r ↦ (ok (f r), t.put (w.prisma.update_many p f (t.rows db)).1 db)
    ]

    abbrev pub create_row : List (Key R) → R → Action R
    create_row keys r db = elim (w.prisma.create keys r (t.rows db)) [
      | stored rows ↦ (ok r, t.put rows db)
      | conflict target ↦ (err (p2002 target), db)
    ]

    -- `upsert` by a unique key.
    abbrev pub upsert : (R → Bool) → List (Key R) → Action R → (R → R) → Action R
    upsert p keys fresh f db = elim (w.prisma.find_unique p (t.rows db)) [
      | none ↦ (fresh >>= create_row keys) db
      | some r ↦ update_row p f db
    ]
