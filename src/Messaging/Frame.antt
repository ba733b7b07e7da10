-- ===== src/Messaging/Frame.antt =====
-- What posting a message leaves alone. `Posting` is a part of the database that lies outside the
-- tables of messages, notifications and files and does not show the ids handed out.
pub mod Reads
pub mod Delivery
use synapse_hub.Action.{World, new_id, create_row, ◌>>◌, pure}
use synapse_hub.Action.Frame.{Keeps, Keeps-bind, Keeps-new_id, Keeps-create_row}
use synapse_hub.Action.Tables.{messages, notifications, files, same_place}
use synapse_hub.Base.{
  ℕ, ◌≡◌, List, zero, refl, suc, Bool-cases, any, inl, ◌∙◌, ◌+◌, inr, ◌++◌, ◌∷◌, [], Option, none,
  some,
}
use synapse_hub.Messaging.Access.{is_empty}
use synapse_hub.Messaging.Mentions.{extract_mention_handles}
use synapse_hub.Messaging.Notify.{
  notify, notify_each, mention_row, emit_mention_notifications, notify_replied, reply_row,
  activity_row, notify_author, emit_thread_reply_notification,
}
use synapse_hub.Messaging.Sequence.{
  MessageInput, create_rounds, interfere, create_message_with_sequence,
}
use synapse_hub.Messaging.Sequence.Allocation.{
  candidate, create_rounds_taken, without_message, create_rounds_free,
}
use synapse_hub.Schema.{Db, Message, Notification, File, ChannelType}
use synapse_hub.Text.{Text, text_eq}

module _ ⦃w : World⦄ {X : Type 0} (view : Db → X) where
  -- A view that does not look at what the posting of a message writes.
  pub record Posting : Type 0 where
    pub ids : (n : ℕ) (db : Db) → view (record db { issued = n }) ≡ view db
    pub of_messages : (l : List Message) (db : Db) → view (record db { messages = l }) ≡ view db
    pub of_notifications :
        (l : List Notification) (db : Db) → view (record db { notifications = l }) ≡ view db
    pub of_files : (l : List File) (db : Db) → view (record db { files = l }) ≡ view db

  -- A view that does not look at what a notification writes.
  pub record Notifying : Type 0 where
    pub ids : (n : ℕ) (db : Db) → view (record db { issued = n }) ≡ view db
    pub of_notifications :
        (l : List Notification) (db : Db) → view (record db { notifications = l }) ≡ view db

  pub notifying : Posting → Notifying
  notifying p = record { ids = p.ids; of_notifications = p.of_notifications }

module _ ⦃w : World⦄ {X : Type 0} (view : Db → X) (p : Posting view) where
  create_rounds-Keeps :
      (rounds attempt : ℕ) (input : MessageInput) → Keeps view (create_rounds rounds attempt input)
  create_rounds-Keeps zero attempt input db = unfold create_rounds in refl
  create_rounds-Keeps (suc rounds) attempt input db =
      elim (Bool-cases (any (same_place (candidate input db)) (w.rival attempt db.messages))) [
        | inl taken ↦ rw (create_rounds_taken rounds attempt input db taken) (
            create_rounds-Keeps rounds (suc attempt) input (without_message attempt db)
            ∙ p.ids (db.issued + 1) (interfere attempt db)
            ∙ p.of_messages (w.rival attempt db.messages) db)
        | inr free ↦ rw (create_rounds_free rounds attempt input db free) (
            p.ids (db.issued + 1)
              (record db { messages = w.rival attempt db.messages ++ candidate input db ∷ [] })
            ∙ p.of_messages (w.rival attempt db.messages ++ candidate input db ∷ []) db)
      ]

  pub create_message-Keeps :
      (input : MessageInput) → Keeps view (create_message_with_sequence input)
  unfolding create_message_with_sequence
  create_message-Keeps input = create_rounds-Keeps 6 0 input

module _ ⦃w : World⦄ {X : Type 0} (view : Db → X) (p : Notifying view) where
  notify-Keeps : (row : Text → Notification) → Keeps view (notify row)
  unfolding notify
  notify-Keeps row =
      Keeps-bind view new_id (λ id. create_row notifications [] (row id)) (Keeps-new_id view p.ids)
        (λ id. Keeps-create_row view notifications [] (row id) p.of_notifications)

  notify_each-Keeps :
      (workspace_id message_id : Text) (l : List Text)
      → Keeps view (notify_each workspace_id message_id l)
  unfolding notify_each
  notify_each-Keeps workspace_id message_id [] db = refl
  notify_each-Keeps workspace_id message_id (user_id ∷ rest) db =
      let row = λ (id : Text). mention_row workspace_id message_id id w.now user_id in
      Keeps-bind view (notify row) (λ r. notify_each workspace_id message_id rest)
        (notify-Keeps row) (λ r. notify_each-Keeps workspace_id message_id rest) db

  pub emit_mention-Keeps :
      (workspace_id channel_id : Text) (t : ChannelType) (actor_id message_id content : Text)
      → Keeps view
          (emit_mention_notifications workspace_id channel_id t actor_id message_id content)
  unfolding emit_mention_notifications
  emit_mention-Keeps workspace_id channel_id t actor_id message_id content db =
      elim (Bool-cases (is_empty (extract_mention_handles content))) [
        | inl quiet ↦ rw quiet
        | inr some_handle ↦ rw some_handle (notify_each-Keeps workspace_id message_id _ db)
      ]

  notify_replied-Keeps :
      (workspace_id thread_id author_id message_id : Text)
      → Keeps view (notify_replied workspace_id thread_id author_id message_id)
  unfolding notify_replied
  notify_replied-Keeps workspace_id thread_id author_id message_id =
      let reply = λ (id : Text). reply_row workspace_id thread_id id w.now author_id in
      let activity = λ (id : Text). activity_row workspace_id message_id id w.now author_id in
      Keeps-bind view (notify reply) (λ r. notify activity >> pure tt) (notify-Keeps reply)
        λ r. Keeps-bind view (notify activity) (λ s. pure tt) (notify-Keeps activity) λ s db. refl

  notify_author-Keeps :
      (workspace_id thread_id : Text) (root : Option Message) (actor_id message_id : Text)
      → Keeps view (notify_author workspace_id thread_id root actor_id message_id)
  notify_author-Keeps workspace_id thread_id none actor_id message_id db = refl
  notify_author-Keeps workspace_id thread_id (some root) actor_id message_id db =
      elim (Bool-cases (text_eq root.author_id actor_id)) [
        | inl own ↦ rw own
        | inr other ↦
            rw other (notify_replied-Keeps workspace_id thread_id root.author_id message_id db)
      ]

  pub emit_thread_reply-Keeps :
      (workspace_id thread_id root_id actor_id message_id : Text)
      → Keeps view
          (emit_thread_reply_notification workspace_id thread_id root_id actor_id message_id)
  unfolding emit_thread_reply_notification
  emit_thread_reply-Keeps workspace_id thread_id root_id actor_id message_id db =
      notify_author-Keeps workspace_id thread_id
        (w.prisma.find_unique (λ m. text_eq m.id root_id) db.messages) actor_id message_id db
