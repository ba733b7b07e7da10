-- ===== src/Messaging/Numbering.antt =====
-- The sequences of the channels through everything that writes a message.
pub mod Changes
pub mod Delivery
use synapse_hub.Action.{World, Action, ◌>>=◌, ◌>>◌, bad_request, throw_if, not_found, or_throw}
use synapse_hub.Action.Frame.{
  Preserves, Keeps, Keeps-bind, Preserves-bind, Keeps-or_throw, Keeps-throw_if,
}
use synapse_hub.Base.{Bool, ◌≡◌, [], inl, inr, refl, ℕ, List, arith, none}
use synapse_hub.Bots.{
  create_bot_message, ensure_channel_in_workspace, create_bot_message_with_retry,
}
use synapse_hub.Bots.Posting.{create_bot_message-Numbered}
use synapse_hub.Messaging.Access.{
  SerializedMessage, get_channel_type, get_serialized_message, is_empty, ensure_channel_access,
}
use synapse_hub.Messaging.Frame.{emit_mention-Keeps, emit_thread_reply-Keeps}
use synapse_hub.Messaging.Frame.Reads.{get_channel_type-Keeps, access-Keeps}
use synapse_hub.Messaging.Messages.{SendMessage, send_message, edit_message, delete_message}
use synapse_hub.Messaging.Messages.Content.{
  edit_message_changes, edited, delete_message_changes, erased,
}
use synapse_hub.Messaging.Messages.Sending.{read-Keeps, send_message-Numbered}
use synapse_hub.Messaging.Notify.{emit_mention_notifications, emit_thread_reply_notification}
use synapse_hub.Messaging.Numbering.Changes.{Numbered-changed}
use synapse_hub.Messaging.Numbering.Delivery.{
  IsNumbered, notices, kept, create-Numbered, tick-Numbered,
}
use synapse_hub.Messaging.Scheduled.{process_due_scheduled_messages}
use synapse_hub.Messaging.Scheduled.Posting.{table_of}
use synapse_hub.Messaging.Sequence.{create_message_with_sequence, MessageInput}
use synapse_hub.Messaging.Sequence.Laws.{Numbered, Holds}
use synapse_hub.Messaging.Threads.{reply_in_thread, reply_input}
use synapse_hub.Schema.{Db, Message, Thread, ChannelType, create}
use synapse_hub.Text.{Text, text_eq, trim}

-- A step of the database: a call that writes a message, or anything that leaves the messages alone.
pub data Write ⦃w : World⦄ : Db → Db → Type 0 where
  sending :
      (dto : SendMessage) (user_id : Text) (db : Db) → Write db (send_message dto user_id db).1
  replying :
      (thread_id user_id content : Text) (db : Db)
      → Write db (reply_in_thread thread_id user_id content db).1
  editing :
      (message_id content user_id : Text) (db : Db)
      → Write db (edit_message message_id content user_id db).1
  deleting :
      (message_id user_id : Text) (db : Db) → Write db (delete_message message_id user_id db).1
  ticking : (in_flight : Bool) (db : Db) → Write db (process_due_scheduled_messages in_flight db).1
  speaking :
      (workspace_id channel_id author_id content : Text) (db : Db)
      → Write db (create_bot_message workspace_id channel_id author_id content db).1
  elsewhere : (db db' : Db) → db'.messages ≡ db.messages → Write db db'

-- The databases that come of one without messages.
pub data History ⦃w : World⦄ : Db → Type 0 where
  from_none : (db : Db) → db.messages ≡ [] → History db
  after_write : (db db' : Db) → History db → Write db db' → History db'

module _ ⦃w : World⦄ where
  edit-Numbered :
      (message_id content user_id : Text)
      → Preserves IsNumbered (edit_message message_id content user_id)
  edit-Numbered message_id content user_id db h =
      elim (edit_message_changes message_id content user_id db) [
        | inl same ↦ rw same h
        | inr (m, found, allowed, author, fresh, full, e) ↦ rw e (
            Numbered-changed (λ x. text_eq x.id message_id) (edited content w.now) db.messages
              ((λ x y. refl), (λ x y. refl), (λ c n x. refl), (λ rows x k. k)) h)
      ]

  delete-Numbered :
      (message_id user_id : Text) → Preserves IsNumbered (delete_message message_id user_id)
  delete-Numbered message_id user_id db h = elim (delete_message_changes message_id user_id db) [
    | inl same ↦ rw same h
    | inr (m, found, allowed, author, e) ↦ rw e (
        Numbered-changed (λ x. text_eq x.id message_id) (erased w.now) db.messages
          ((λ x y. refl), (λ x y. refl), (λ c n x. refl), (λ rows x k. k)) h)
  ]

  module _ (lawful : (k : ℕ) (l : List Message) → Numbered l → Numbered (w.rival k l))
      (more : (k : ℕ) (l : List Message) → Holds l (w.rival k l)) where
    -- `replyInThread` after the reply has been created.
    abbrev told : Thread → Text → Text → Message → Action SerializedMessage
    told thread user_id content reply = do
      channel_type ← get_channel_type thread.channel_id
      emit_mention_notifications thread.workspace_id thread.channel_id channel_type user_id reply.id
          content
      emit_thread_reply_notification thread.workspace_id thread.id thread.root_message_id user_id
          reply.id
      get_serialized_message reply.id

    told-Keeps :
        (thread : Thread) (user_id content : Text) (reply : Message)
        → Keeps table_of (told thread user_id content reply)
    told-Keeps thread user_id content reply =
        let read = get_serialized_message reply.id in
        let back =
          emit_thread_reply_notification thread.workspace_id thread.id thread.root_message_id
            user_id reply.id in
        let mentions = λ (t : ChannelType).
          emit_mention_notifications thread.workspace_id thread.channel_id t user_id reply.id
            content in
        Keeps-bind table_of (get_channel_type thread.channel_id) (λ t. mentions t >> (back >> read))
          (get_channel_type-Keeps table_of thread.channel_id)
          λ t.
            Keeps-bind table_of (mentions t) (λ _. back >> read)
              (emit_mention-Keeps table_of notices thread.workspace_id thread.channel_id t user_id
                reply.id content)
              λ _.
                Keeps-bind table_of back (λ _. read)
                  (emit_thread_reply-Keeps table_of notices thread.workspace_id thread.id
                    thread.root_message_id user_id reply.id)
                  λ _. read-Keeps reply.id

    reply-Numbered :
        (thread_id user_id content : Text)
        → Preserves IsNumbered (reply_in_thread thread_id user_id content)
    unfolding reply_in_thread
    reply-Numbered thread_id user_id content db h =
        let blank = bad_request "Reply content is required" in
        let check : Action (Unit {0}) = throw_if (is_empty (trim content)) blank in
        let create =
          λ (t : Thread). create_message_with_sequence (reply_input t user_id (trim content)) in
        let post = λ (t : Thread). create t >>= told t user_id content in
        let row = w.prisma.find_unique (λ (t : Thread). text_eq t.id thread_id) db.threads in
        let missing = not_found "Thread not found" in
        Preserves-bind IsNumbered (or_throw row missing)
          (λ t. ensure_channel_access t.channel_id user_id >> (check >> post t))
          (kept (or_throw row missing) (Keeps-or_throw table_of row missing))
          (λ t.
            Preserves-bind IsNumbered (ensure_channel_access t.channel_id user_id)
              (λ _. check >> post t)
              (kept (ensure_channel_access t.channel_id user_id)
                (access-Keeps table_of t.channel_id user_id))
              (λ _.
                Preserves-bind IsNumbered check (λ _. post t)
                  (kept check (Keeps-throw_if table_of (is_empty (trim content)) blank))
                  (λ _.
                    Preserves-bind IsNumbered (create t) (told t user_id content)
                      (create-Numbered lawful more (reply_input t user_id (trim content)))
                      (λ m. kept (told t user_id content m) (told-Keeps t user_id content m)))))
          db h

    bot_channel-Keeps :
        (channel_id workspace_id : Text)
        → Keeps table_of (ensure_channel_in_workspace channel_id workspace_id)
    unfolding ensure_channel_in_workspace
    bot_channel-Keeps channel_id workspace_id db = ground arith

    abbrev bot_input : Text → Text → Text → Text → MessageInput
    bot_input workspace_id channel_id author_id content = record {
      workspace_id = workspace_id;
      channel_id = channel_id;
      author_id = author_id;
      content = content;
      thread_id = none;
      parent_message_id = none;
    }

    say-Numbered :
        (workspace_id channel_id author_id content : Text)
        → Preserves IsNumbered (create_bot_message workspace_id channel_id author_id content)
    unfolding create_bot_message
    say-Numbered workspace_id channel_id author_id content =
        let check = ensure_channel_in_workspace channel_id workspace_id in
        let input = bot_input workspace_id channel_id author_id content in
        Preserves-bind IsNumbered check (λ _. create_bot_message_with_retry input)
          (kept check (bot_channel-Keeps channel_id workspace_id))
          (λ _ db h. create_bot_message-Numbered input db lawful more h)

    Write-Numbered : (db db' : Db) → Write db db' → IsNumbered db → IsNumbered db'
    Write-Numbered db _ (sending dto user_id _) h =
        send_message-Numbered dto user_id db lawful more h
    Write-Numbered db _ (replying thread_id user_id content _) h =
        reply-Numbered thread_id user_id content db h
    Write-Numbered db _ (editing message_id content user_id _) h =
        edit-Numbered message_id content user_id db h
    Write-Numbered db _ (deleting message_id user_id _) h = delete-Numbered message_id user_id db h
    Write-Numbered db _ (ticking in_flight _) h = tick-Numbered lawful more in_flight db h
    Write-Numbered db _ (speaking workspace_id channel_id author_id content _) h =
        say-Numbered workspace_id channel_id author_id content db h
    Write-Numbered db db' (elsewhere _ _ same) h = rw same h

  -- In every database that comes of one without messages by any sequence of sendMessage,
  -- replyInThread, editMessage, deleteMessage, ticks of the scheduler and messages of bots, by
  -- anybody and whether they return or throw, and of changes that leave the messages alone, the
  -- sequences of every channel are 1, 2 and so on without a gap or a repetition, as long as the
  -- other clients, whatever they write during an attempt, keep the channels so numbered and remove
  -- no place that is held.
  pub History-Numbered :
      (db : Db)
      → ((k : ℕ) (l : List Message) → Numbered l → Numbered (w.rival k l))
      → ((k : ℕ) (l : List Message) → Holds l (w.rival k l))
      → History db
      → Numbered db.messages
  History-Numbered _ lawful more (from_none db e) = rw e (tt, tt)
  History-Numbered _ lawful more (after_write db db' before step) =
      Write-Numbered lawful more db db' step (History-Numbered db lawful more before)
