-- ===== src/Messaging/Messages/Content.antt =====
-- What editing and deleting do to the table of messages.

use synapse_hub.Action.{World, Failure, err, ok, forbidden, bad_request}
use synapse_hub.Base.{
  ℕ, some, map_where, ◌≡◌, arith, ◌⊎◌, true, none, false, inr, inl, Bool-cases, ◌≢◌, refl,
  map_where_hit,
}
use synapse_hub.Messaging.Access.{
  get_serialized_message, serialize_message, ensure_message_access, is_empty,
}
use synapse_hub.Messaging.Access.Laws.{
  message_found, Allowed, ensure_message_access_cases, message_granted,
}
use synapse_hub.Messaging.Messages.{edit_message, delete_message}
use synapse_hub.Schema.{Message, Db}
use synapse_hub.Text.{Text, trim, codes, text_eq, text_eq_iff}

module _ ⦃w : World⦄ where
  abbrev pub edited : Text → ℕ → Message → Message
  edited content now m = record m { content = trim content; edited_at = some now }

  abbrev pub erased : ℕ → Message → Message
  erased now m = record m { deleted_at = some now; content = codes "[deleted]" }

  -- The database with a change of the messages of an id.
  abbrev pub with_messages : Text → (Message → Message) → Db → Db
  with_messages message_id f db = record db {
    messages = map_where (λ m. text_eq m.id message_id) f db.messages;
  }

  pub get_serialized_message_reads :
      (message_id : Text) (db : Db) → (get_serialized_message message_id db).1 ≡ db
  unfolding get_serialized_message serialize_message
  get_serialized_message_reads message_id db = ground arith

  edit_message_denied :
      (message_id content editor_id : Text) (db : Db) (e : Failure)
      → ensure_message_access message_id editor_id db ≡ (err e, db)
      → (edit_message message_id content editor_id db).1 ≡ db
  unfolding edit_message
  edit_message_denied message_id content editor_id db e denied = ground arith

  edit_message_granted :
      (message_id content editor_id : Text) (db : Db) (m : Message)
      → ensure_message_access message_id editor_id db ≡ (ok m, db)
      → message_found message_id db ≡ some m
      → ((edit_message message_id content editor_id db).1 ≡ db)
        ⊎ ((text_eq m.author_id editor_id ≡ true)
            × (m.deleted_at ≡ none)
            × (is_empty (trim content) ≡ false)
            × ((edit_message message_id content editor_id db).1
                ≡ with_messages message_id (edited content w.now) db))
  unfolding edit_message
  edit_message_granted message_id content editor_id db m granted found = ground (
    arith,
    w.prisma.update_many_lem (λ m. text_eq m.id message_id) (edited content w.now) db.messages,
    get_serialized_message_reads message_id (with_messages message_id (edited content w.now) db),
  )

  -- An edit changes nothing, or it sets the trimmed content and the time of the edit on the
  -- message of that id and nothing else; then the message exists, is not deleted and has the
  -- editor for its author, who may use its channel, and the new content is not blank.
  pub edit_message_changes :
      (message_id content editor_id : Text) (db : Db)
      → ((edit_message message_id content editor_id db).1 ≡ db)
        ⊎ ((m : Message) × (message_found message_id db ≡ some m)
            × Allowed m.channel_id editor_id db
            × (m.author_id ≡ editor_id)
            × (m.deleted_at ≡ none)
            × (is_empty (trim content) ≡ false)
            × ((edit_message message_id content editor_id db).1
                ≡ with_messages message_id (edited content w.now) db))
  edit_message_changes message_id content editor_id db =
      elim (ensure_message_access_cases message_id editor_id db) [
        | inr (e, denied) ↦ inl (edit_message_denied message_id content editor_id db e denied)
        | inl (m, found, allowed, granted) ↦
            elim (edit_message_granted message_id content editor_id db m granted found) [
              | inl same ↦ inl same
              | inr (author, kept, given, done) ↦ inr (
                m,
                found,
                allowed,
                (text_eq_iff m.author_id editor_id).0 author,
                kept,
                given,
                done,
              )
            ]
      ]

  -- The author of a message who may use its channel can edit it while it is not deleted: the
  -- trimmed content and the time of the edit are set on it, and nothing else changes.
  pub edit_message_sets :
      (message_id content editor_id : Text) (db : Db) (m : Message)
      → message_found message_id db ≡ some m
      → Allowed m.channel_id editor_id db
      → m.author_id ≡ editor_id
      → m.deleted_at ≡ none
      → is_empty (trim content) ≡ false
      → (edit_message message_id content editor_id db).1
        ≡ with_messages message_id (edited content w.now) db
  unfolding edit_message
  edit_message_sets message_id content editor_id db m found allowed author kept given = ground (
    arith,
    (text_eq_iff m.author_id editor_id).1 author,
    message_granted message_id editor_id db m found allowed,
    w.prisma.update_many_lem (λ m. text_eq m.id message_id) (edited content w.now) db.messages,
    get_serialized_message_reads message_id (with_messages message_id (edited content w.now) db),
  )

  delete_message_denied :
      (message_id user_id : Text) (db : Db) (e : Failure)
      → ensure_message_access message_id user_id db ≡ (err e, db)
      → (delete_message message_id user_id db).1 ≡ db
  unfolding delete_message
  delete_message_denied message_id user_id db e denied = ground arith

  delete_message_granted :
      (message_id user_id : Text) (db : Db) (m : Message)
      → ensure_message_access message_id user_id db ≡ (ok m, db)
      → message_found message_id db ≡ some m
      → ((text_eq m.author_id user_id ≡ false)
          × (delete_message message_id user_id db
              ≡ (err (forbidden "Only author can delete message"), db)))
        ⊎ ((text_eq m.author_id user_id ≡ true)
            × ((delete_message message_id user_id db).1
                ≡ with_messages message_id (erased w.now) db))
  unfolding delete_message
  delete_message_granted message_id user_id db m granted found = ground (
    arith,
    w.prisma.update_many_lem (λ m. text_eq m.id message_id) (erased w.now) db.messages,
    get_serialized_message_reads message_id (with_messages message_id (erased w.now) db),
  )

  -- A deletion changes nothing, or it replaces the content of the message of that id by
  -- "[deleted]" and marks it as deleted, and nothing else; then the user is its author and may use
  -- its channel.
  pub delete_message_changes :
      (message_id user_id : Text) (db : Db)
      → ((delete_message message_id user_id db).1 ≡ db)
        ⊎ ((m : Message) × (message_found message_id db ≡ some m)
            × Allowed m.channel_id user_id db
            × (m.author_id ≡ user_id)
            × ((delete_message message_id user_id db).1
                ≡ with_messages message_id (erased w.now) db))
  delete_message_changes message_id user_id db =
      elim (ensure_message_access_cases message_id user_id db) [
        | inr (e, denied) ↦ inl (delete_message_denied message_id user_id db e denied)
        | inl (m, found, allowed, granted) ↦
            elim (delete_message_granted message_id user_id db m granted found) [
              | inl (other, refused) ↦ inl (λ i. (refused i).1)
              | inr (author, done) ↦
                  inr (m, found, allowed, (text_eq_iff m.author_id user_id).0 author, done)
            ]
      ]

  edit_message_deleted :
      (message_id content editor_id : Text) (db : Db) (m : Message) (t : ℕ)
      → ensure_message_access message_id editor_id db ≡ (ok m, db)
      → m.deleted_at ≡ some t
      → (e : Failure) × (edit_message message_id content editor_id db ≡ (err e, db))
  unfolding edit_message
  edit_message_deleted message_id content editor_id db m t granted deleted =
      elim (Bool-cases (text_eq m.author_id editor_id)) [
        | inl author ↦ (bad_request "Cannot edit deleted message", ground arith)
        | inr other ↦ (forbidden "Only author can edit message", ground arith)
      ]

  edit_message_refused :
      (message_id content editor_id : Text) (db : Db) (e : Failure)
      → ensure_message_access message_id editor_id db ≡ (err e, db)
      → edit_message message_id content editor_id db ≡ (err e, db)
  unfolding edit_message
  edit_message_refused message_id content editor_id db e denied = ground arith

  -- After a deletion that changed the database, no edit of that message by anybody succeeds or
  -- changes anything.
  pub delete_message_final :
      (message_id user_id content editor_id : Text) (db : Db)
      → (delete_message message_id user_id db).1 ≢ db
      → let db' = (delete_message message_id user_id db).1 in
        (e : Failure) × (edit_message message_id content editor_id db' ≡ (err e, db'))
  delete_message_final message_id user_id content editor_id db changed =
      elim (delete_message_changes message_id user_id db) [
        | inl same ↦ absurd (changed same)
        | inr (m, found, allowed, author, done) ↦
            rw done (after (with_messages message_id (erased w.now) db) refl)
      ]
    where
      after :
          (db' : Db)
          → db'.messages ≡ map_where (λ m. text_eq m.id message_id) (erased w.now) db.messages
          → (e : Failure) × (edit_message message_id content editor_id db' ≡ (err e, db'))
      after db' same = elim (ensure_message_access_cases message_id editor_id db') [
        | inr (e, denied) ↦ (e, edit_message_refused message_id content editor_id db' e denied)
        | inl (m, found, allowed, granted) ↦
            let marked =
              map_where_hit (λ (x : Message). x.deleted_at ≡ some w.now)
                (λ m. text_eq m.id message_id) (erased w.now) db.messages (λ x. refl) in
            let (hit, inside) =
              w.prisma.find_unique_some (λ m. text_eq m.id message_id) db'.messages m found in
            let deleted =
              inside (λ x. text_eq x.id message_id ≡ true → x.deleted_at ≡ some w.now)
                (rw same marked) hit in
            edit_message_deleted message_id content editor_id db' m w.now granted deleted
      ]
