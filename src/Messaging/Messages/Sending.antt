-- ===== src/Messaging/Messages/Sending.antt =====
-- What `sendMessage` as a whole does to the messages of a channel.

use synapse_hub.Action.{World, Action, ◌>>=◌, ◌>>◌, pure, bad_request, throw_if, ok, Reply}
use synapse_hub.Action.Frame.{
  Keeps, Keeps-bind, Keeps-if, Keeps-pure, Preserves, Preserves-bind, Keeps-throw_if,
}
use synapse_hub.Base.{
  List, refl, arith, Option, none, some, ap, if◌then◌else◌, ℕ, ◌≡◌, false, ◌++◌, ◌∷◌, [], ◌+◌, ◌∙◌,
}
use synapse_hub.Messaging.Access.{
  get_serialized_message, ChannelAccess, SerializedMessage, is_empty, ensure_channel_access,
}
use synapse_hub.Messaging.Access.Laws.{channel_row, MayUse, access_of, ensure_channel_access_iff}
use synapse_hub.Messaging.Frame.{Notifying, emit_thread_reply-Keeps, emit_mention-Keeps}
use synapse_hub.Messaging.Frame.Reads.{access-Keeps, thread_if_given-Keeps}
use synapse_hub.Messaging.Messages.{
  attach_files_to_message, reply_if_thread, SendMessage, or_empty, id_of, root_of, send_message,
  thread_if_given,
}
use synapse_hub.Messaging.Messages.Content.{get_serialized_message_reads}
use synapse_hub.Messaging.Notify.{emit_mention_notifications}
use synapse_hub.Messaging.Sequence.{MessageInput, create_message_with_sequence}
use synapse_hub.Messaging.Sequence.Allocation.{
  create_message-Numbered, candidate, create_message_alone,
}
use synapse_hub.Messaging.Sequence.Laws.{Numbered, Holds}
use synapse_hub.Schema.{Db, Message, Thread, Channel}
use synapse_hub.Text.{Text, trim}

module _ ⦃w : World⦄ where
  abbrev rows_of : Db → List Message
  rows_of db = db.messages

  rows-Notifying : Notifying rows_of
  rows-Notifying = record { ids = λ n db. refl; of_notifications = λ l db. refl }

  attach-Keeps :
      (file_ids : List Text) (message_id channel_id workspace_id uploader_id : Text)
      → Keeps rows_of
          (attach_files_to_message file_ids message_id channel_id workspace_id uploader_id)
  unfolding attach_files_to_message
  attach-Keeps file_ids message_id channel_id workspace_id uploader_id db = ground arith

  reply-Keeps :
      (workspace_id : Text) (t : Option Thread) (actor_id message_id : Text)
      → Keeps rows_of (reply_if_thread workspace_id t actor_id message_id)
  reply-Keeps workspace_id none actor_id message_id db = refl
  reply-Keeps workspace_id (some t) actor_id message_id db =
      emit_thread_reply-Keeps rows_of rows-Notifying workspace_id t.id t.root_message_id actor_id
        message_id db

  pub read-Keeps : (id : Text) → Keeps rows_of (get_serialized_message id)
  read-Keeps id db = ap rows_of (get_serialized_message_reads id db)

  -- `sendMessage` after the message has been created.
  abbrev announce :
      SendMessage → Text → ChannelAccess → Option Thread → Message → Action SerializedMessage
  announce dto user_id channel thread message = do
    if is_empty (or_empty dto.file_ids)
        then pure tt
        else attach_files_to_message (or_empty dto.file_ids) message.id channel.id
            channel.workspace_id user_id
    emit_mention_notifications channel.workspace_id channel.id channel.type user_id message.id
        dto.content
    reply_if_thread channel.workspace_id thread user_id message.id
    get_serialized_message message.id

  announce-Keeps :
      (dto : SendMessage) (user_id : Text) (channel : ChannelAccess) (thread : Option Thread)
      (message : Message)
      → Keeps rows_of (announce dto user_id channel thread message)
  announce-Keeps dto user_id channel thread message =
      let ids = or_empty dto.file_ids in
      let attach = attach_files_to_message ids message.id channel.id channel.workspace_id user_id in
      let mentions =
        emit_mention_notifications channel.workspace_id channel.id channel.type user_id message.id
          dto.content in
      let reply = reply_if_thread channel.workspace_id thread user_id message.id in
      let read = get_serialized_message message.id in
      Keeps-bind rows_of (if is_empty ids then pure tt else attach)
        (λ _. mentions >> (reply >> read))
        (Keeps-if rows_of (is_empty ids) (pure tt) attach (Keeps-pure rows_of tt)
          (attach-Keeps ids message.id channel.id channel.workspace_id user_id))
        λ _.
          Keeps-bind rows_of mentions (λ _. reply >> read)
            (emit_mention-Keeps rows_of rows-Notifying channel.workspace_id channel.id channel.type
              user_id message.id dto.content)
            λ _.
              Keeps-bind rows_of reply (λ _. read)
                (reply-Keeps channel.workspace_id thread user_id message.id)
                λ _. read-Keeps message.id

  Numbered-of_Keeps :
      {A : Type 0} (m : Action A) → Keeps rows_of m → Preserves (λ db. Numbered db.messages) m
  Numbered-of_Keeps m keeps db h = rw (keeps db) h

  abbrev input_of : SendMessage → Text → ChannelAccess → Option Thread → MessageInput
  input_of dto user_id channel thread = record {
    workspace_id = channel.workspace_id;
    channel_id = channel.id;
    author_id = user_id;
    content = trim dto.content;
    thread_id = id_of thread;
    parent_message_id = root_of thread;
  }

  -- The whole of sendMessage, whether it returns or throws, keeps the sequences of every channel
  -- 1, 2 and so on without a gap or a repetition, as long as the other clients keep the channels
  -- so numbered and remove no place that is held.
  pub send_message-Numbered :
      (dto : SendMessage) (user_id : Text) (db : Db)
      → ((k : ℕ) (l : List Message) → Numbered l → Numbered (w.rival k l))
      → ((k : ℕ) (l : List Message) → Holds l (w.rival k l))
      → Numbered db.messages
      → Numbered (send_message dto user_id db).1.messages
  unfolding send_message
  send_message-Numbered dto user_id db fair more h =
      let Inv = λ (x : Db). Numbered x.messages in
      let create = λ (c : ChannelAccess) (t : Option Thread).
        create_message_with_sequence (input_of dto user_id c t) in
      let blank = bad_request "Message content is required" in
      let check : Action (Unit {0}) = throw_if (is_empty (trim dto.content)) blank in
      let post =
        λ (c : ChannelAccess) (t : Option Thread). create c t >>= announce dto user_id c t in
      Preserves-bind Inv (ensure_channel_access dto.channel_id user_id)
        (λ c. thread_if_given dto.thread_id dto.channel_id >>= λ t. check >> post c t)
        (Numbered-of_Keeps (ensure_channel_access dto.channel_id user_id)
          (access-Keeps rows_of dto.channel_id user_id))
        (λ c.
          Preserves-bind Inv (thread_if_given dto.thread_id dto.channel_id) (λ t. check >> post c t)
            (Numbered-of_Keeps (thread_if_given dto.thread_id dto.channel_id)
              (thread_if_given-Keeps rows_of dto.thread_id dto.channel_id))
            (λ t.
              Preserves-bind Inv check (λ _. post c t)
                (Numbered-of_Keeps check
                  (Keeps-throw_if rows_of (is_empty (trim dto.content)) blank))
                (λ _.
                  Preserves-bind Inv (create c t) (announce dto user_id c t)
                    (λ x k. create_message-Numbered (input_of dto user_id c t) x fair more k)
                    (λ m.
                      Numbered-of_Keeps (announce dto user_id c t m)
                        (announce-Keeps dto user_id c t m)))))
        db h

  send_message_step :
      (dto : SendMessage) (user_id : Text) (db db1 : Db) (a : ChannelAccess) (m : Message)
      → ensure_channel_access dto.channel_id user_id db ≡ (ok a, db)
      → dto.thread_id ≡ none
      → is_empty (trim dto.content) ≡ false
      → create_message_with_sequence (input_of dto user_id a none) db ≡ (ok m, db1)
      → send_message dto user_id db ≡ announce dto user_id a none m db1
  unfolding send_message thread_if_given
  send_message_step dto user_id db db1 a m granted whole filled created = ground arith

  -- A user who may use a channel and sends a text that is not blank, outside of any thread and
  -- with no other client writing before the first attempt, adds one message with the trimmed text
  -- to the messages, and nothing else of what sendMessage does changes them.
  pub send_message_posts :
      (dto : SendMessage) (user_id : Text) (db : Db) (ch : Channel)
      → channel_row dto.channel_id db ≡ some ch
      → MayUse ch user_id db
      → dto.thread_id ≡ none
      → is_empty (trim dto.content) ≡ false
      → w.rival 0 db.messages ≡ db.messages
      → let input = input_of dto user_id (access_of ch) none in
        (send_message dto user_id db).1.messages ≡ db.messages ++ candidate input db ∷ []
  send_message_posts dto user_id db ch found may whole filled alone =
      let a = access_of ch in
      let granted = (ensure_channel_access_iff dto.channel_id user_id db ch found).1 may in
      let m = candidate (input_of dto user_id a none) db in
      let db1 : Db = record db { messages = db.messages ++ m ∷ []; issued = db.issued + 1 } in
      let created = (create_message_alone (input_of dto user_id a none) db alone).0 in
      ap (λ (r : Reply SerializedMessage × Db). r.1.messages)
        (send_message_step dto user_id db db1 a m granted whole filled created)
      ∙ announce-Keeps dto user_id a none m db1
