-- ===== src/Messaging/Threads/Laws.antt =====
-- A message has one thread, however often it is asked for.

use synapse_hub.Action.{World, ok, Failure, err}
use synapse_hub.Action.Tables.{root_key}
use synapse_hub.Base.{
  List, Bool, any, ◌++◌, ◌∷◌, [], ◌+◌, ◌≡◌, true, arith, any-append, Option, none, some, refl,
  map_where_id, false, ◌⊎◌, Bool-cases, inr, inl, Option-cases, ap, ◌∙◌,
}
use synapse_hub.Messaging.Access.{ensure_channel_access}
use synapse_hub.Messaging.Access.Laws.{
  Allowed, message_found, ensure_channel_access_iff, ensure_channel_access_cases,
}
use synapse_hub.Messaging.Threads.{thread_of, thread_at_root, canonical_root, create_thread}
use synapse_hub.Prisma.Laws.{find_unique-any}
use synapse_hub.Schema.{Thread, Message, Db}
use synapse_hub.Text.{Text, text_eq, text_eq_refl}

module _ ⦃w : World⦄ where
  abbrev has_root : Text → List Thread → Bool
  has_root root_id rows = any (λ t. text_eq t.root_message_id root_id) rows

  abbrev with_thread : Message → Text → Text → Db → Db
  with_thread r channel_id user_id db = record db {
    threads =
        db.threads
        ++ record {
          id = w.uuid db.issued;
          workspace_id = r.workspace_id;
          channel_id = channel_id;
          root_message_id = r.id;
          created_by_id = user_id;
        }
          ∷ [];
    issued = db.issued + 1;
  }

  root_of_new :
      (r : Message) (channel_id user_id : Text) (db : Db)
      → has_root r.id (with_thread r channel_id user_id db).threads ≡ true
  root_of_new r channel_id user_id db =
      let row : Thread = record {
        id = w.uuid db.issued;
        workspace_id = r.workspace_id;
        channel_id = channel_id;
        root_message_id = r.id;
        created_by_id = user_id;
      } in
      ground (
        arith,
        text_eq_refl r.id,
        any-append (λ t. text_eq t.root_message_id r.id) db.threads (row ∷ []),
      )

  -- The thread that a message is in, where there is one.
  abbrev thread_row : Option Text → Db → Option Thread
  thread_row none db = none
  thread_row (some []) db = none
  thread_row (some (c ∷ s)) db = w.prisma.find_unique (λ t. text_eq t.id (c ∷ s)) db.threads

  thread_of_lem : (id : Option Text) (db : Db) → thread_of id db ≡ (ok (thread_row id db), db)
  unfolding thread_of
  thread_of_lem none db = refl
  thread_of_lem (some []) db = refl
  thread_of_lem (some (c ∷ s)) db = refl

  thread_at_root_again :
      (root_id channel_id user_id : Text) (db : Db) (r : Message)
      → w.prisma.find_unique (λ m. text_eq m.id root_id) db.messages ≡ some r
      → has_root r.id db.threads ≡ true
      → (thread_at_root root_id channel_id user_id db).1 ≡ db
  unfolding thread_at_root
  thread_at_root_again root_id channel_id user_id db r found there =
      let p = λ (t : Thread). text_eq t.root_message_id r.id in
      ground (
        arith,
        find_unique-any w.prisma p db.threads,
        w.prisma.update_many_lem p (λ t. t) db.threads,
        map_where_id p db.threads,
      )

  thread_at_root_new :
      (root_id channel_id user_id : Text) (db : Db) (r : Message)
      → w.prisma.find_unique (λ m. text_eq m.id root_id) db.messages ≡ some r
      → has_root r.id db.threads ≡ false
      → ((thread_at_root root_id channel_id user_id db).1 ≡ db)
        ⊎ ((thread_at_root root_id channel_id user_id db).1 ≡ record db {
          threads =
              db.threads
              ++ record {
                id = w.uuid db.issued;
                workspace_id = r.workspace_id;
                channel_id = channel_id;
                root_message_id = r.id;
                created_by_id = user_id;
              }
                ∷ [];
          issued = db.issued + 1;
        })
  unfolding thread_at_root
  thread_at_root_new root_id channel_id user_id db r found gone =
      let p = λ (t : Thread). text_eq t.root_message_id r.id in
      let row : Thread = record {
        id = w.uuid db.issued;
        workspace_id = r.workspace_id;
        channel_id = channel_id;
        root_message_id = r.id;
        created_by_id = user_id;
      } in
      elim (Bool-cases (text_eq r.channel_id channel_id)) [
        | inr other ↦ inl (ground arith)
        | inl own ↦ inr (
            ground (
              arith,
              find_unique-any w.prisma p db.threads,
              w.prisma.create_lem (root_key ∷ []) row db.threads,
            ))
      ]

  thread_at_root_missing :
      (root_id channel_id user_id : Text) (db : Db)
      → w.prisma.find_unique (λ m. text_eq m.id root_id) db.messages ≡ none
      → (thread_at_root root_id channel_id user_id db).1 ≡ db
  unfolding thread_at_root
  thread_at_root_missing root_id channel_id user_id db gone = ground arith

  -- Once the root of a message has a thread, asking for the thread of the message changes nothing.
  thread_there :
      (x channel_id user_id : Text) (db : Db) (m r : Message)
      → Allowed channel_id user_id db
      → message_found x db ≡ some m
      → message_found (canonical_root m) db ≡ some r
      → has_root r.id db.threads ≡ true
      → (create_thread x channel_id user_id db).1 ≡ db
  unfolding create_thread
  thread_there x channel_id user_id db m r (ch, row, may) found root there =
      let granted = (ensure_channel_access_iff channel_id user_id db ch row).1 may in
      let again = thread_at_root_again (canonical_root m) channel_id user_id db r root there in
      elim (Bool-cases (text_eq m.channel_id channel_id)) [
        | inr other ↦ ground arith
        | inl own ↦ elim (Option-cases (thread_row m.thread_id db)) [
          | inl none_yet ↦ ground (arith, thread_of_lem m.thread_id db)
          | inr (t, old) ↦ ground (arith, thread_of_lem m.thread_id db)
        ]
      ]

  -- The first call either changes nothing, or adds the thread of the root.
  thread_first :
      (x channel_id user_id : Text) (db : Db) (m : Message)
      → Allowed channel_id user_id db
      → message_found x db ≡ some m
      → ((create_thread x channel_id user_id db).1 ≡ db)
        ⊎ ((create_thread x channel_id user_id db).1
            ≡ (thread_at_root (canonical_root m) channel_id user_id db).1)
  unfolding create_thread
  thread_first x channel_id user_id db m (ch, row, may) found =
      let granted = (ensure_channel_access_iff channel_id user_id db ch row).1 may in
      elim (Bool-cases (text_eq m.channel_id channel_id)) [
        | inr other ↦ inl (ground arith)
        | inl own ↦ elim (Option-cases (thread_row m.thread_id db)) [
          | inl none_yet ↦ inr (ground (arith, thread_of_lem m.thread_id db))
          | inr (t, old) ↦ inl (ground (arith, thread_of_lem m.thread_id db))
        ]
      ]

  no_message :
      (x channel_id user_id : Text) (db : Db)
      → Allowed channel_id user_id db
      → message_found x db ≡ none
      → (create_thread x channel_id user_id db).1 ≡ db
  unfolding create_thread
  no_message x channel_id user_id db (ch, row, may) gone =
      let granted = (ensure_channel_access_iff channel_id user_id db ch row).1 may in ground arith

  no_access :
      (x channel_id user_id : Text) (db : Db) (e : Failure)
      → ensure_channel_access channel_id user_id db ≡ (err e, db)
      → (create_thread x channel_id user_id db).1 ≡ db
  unfolding create_thread
  no_access x channel_id user_id db e denied = ground arith

  -- What stands after the thread of a root has been asked for, if it changed the database.
  root_effect :
      (root_id channel_id user_id : Text) (db : Db)
      → ((thread_at_root root_id channel_id user_id db).1 ≡ db)
        ⊎ ((r : Message) × (message_found root_id db ≡ some r)
            × ((thread_at_root root_id channel_id user_id db).1
                ≡ with_thread r channel_id user_id db))
  root_effect root_id channel_id user_id db = elim (Option-cases (message_found root_id db)) [
    | inl gone ↦ inl (thread_at_root_missing root_id channel_id user_id db gone)
    | inr (r, found) ↦ elim (Bool-cases (has_root r.id db.threads)) [
      | inl there ↦ inl (thread_at_root_again root_id channel_id user_id db r found there)
      | inr missing ↦ elim (thread_at_root_new root_id channel_id user_id db r found missing) [
        | inl same ↦ inl same
        | inr added ↦ inr (r, found, added)
      ]
    ]
  ]

  -- Asking a second time for the thread of a message changes nothing, whether the first call made
  -- it, found it or threw.
  pub create_thread_twice :
      (x channel_id user_id : Text) (db : Db)
      → let once = (create_thread x channel_id user_id db).1 in
        (create_thread x channel_id user_id once).1 ≡ once
  create_thread_twice x channel_id user_id db =
      let f = λ (d : Db). (create_thread x channel_id user_id d).1 in
      elim (ensure_channel_access_cases channel_id user_id db) [
        | inr (e, denied) ↦ ap f (no_access x channel_id user_id db e denied)
        | inl allowed ↦ elim (Option-cases (message_found x db)) [
          | inl gone ↦ ap f (no_message x channel_id user_id db allowed gone)
          | inr (m, found) ↦ elim (thread_first x channel_id user_id db m allowed found) [
            | inl same ↦ ap f same
            | inr at_root ↦ elim (root_effect (canonical_root m) channel_id user_id db) [
              | inl same ↦ ap f (at_root ∙ same)
              | inr (r, root, added) ↦ rw (at_root ∙ added) (
                  thread_there x channel_id user_id (with_thread r channel_id user_id db) m r
                    allowed found root (root_of_new r channel_id user_id db))
            ]
          ]
        ]
      ]
