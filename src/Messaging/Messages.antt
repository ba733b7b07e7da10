-- ===== src/Messaging/Messages.antt =====
-- Sending, listing, editing and deleting messages, reactions and pins: the methods `sendMessage`
-- to `typing` of messaging.service.ts, with `attachFilesToMessage`.
pub mod Access
pub mod Content
pub mod Marks
pub mod Sending
use synapse_hub.Action.{
  World, Action, pure, ◌>>=◌, ◌>>◌, find_many, update_many, throw_if, bad_request, ok, forbidden,
  update_row, upsert, find_unique, delete_many,
}
use synapse_hub.Action.Tables.{
  files, messages, reactions, is_reaction, reaction_key, users, pins, pin_key,
}
use synapse_hub.Base.{
  Option, List, Bool, ℕ, [], ◌∷◌, none, some, ltb, ◌||◌, ◌==◌, ◌&&◌, false, map, keep,
  if◌then◌else◌, not, is_some, true,
}
use synapse_hub.Messaging.Access.{
  SerializedMessage, ensure_thread_in_channel, is_empty, ensure_channel_access,
  get_serialized_message, serialize_message, ensure_message_access,
}
use synapse_hub.Messaging.Mentions.{add}
use synapse_hub.Messaging.Notify.{has, emit_thread_reply_notification, emit_mention_notifications}
use synapse_hub.Messaging.Sequence.{create_message_with_sequence}
use synapse_hub.Pagination.{cursor_row, Number, Page, bounded_limit, page_cursor}
use synapse_hub.Prisma.{Query}
use synapse_hub.Prisma.Memory.{first}
use synapse_hub.Schema.{MessagePin, User, Thread, Message, File, Reaction}
use synapse_hub.Text.{Text, text_eq, trim, codes}

pub record SendMessage : Type 0 where
  pub channel_id : Text
  pub content : Text
  pub file_ids : Option (List Text)
  pub thread_id : Option Text

-- What `pinMessage` and `listPins` return of a pin.
pub record PinView : Type 0 where
  pub pin : MessagePin
  pub pinned_by : Option User
  pub message : Option SerializedMessage

pub record Typing : Type 0 where
  pub channel_id : Text
  pub user_id : Text
  pub typing : Bool
  pub timestamp : ℕ

-- `[...new Set(ids)]`
unfoldable pub unique_from : List Text → List Text → List Text
unique_from [] found = found
unique_from (x ∷ l) found = unique_from l (add x found)

abbrev pub root_of : Option Thread → Option Text
root_of none = none
root_of (some t) = some t.root_message_id

abbrev pub id_of : Option Thread → Option Text
id_of none = none
id_of (some t) = some t.id

abbrev pub or_empty : Option (List Text) → List Text
or_empty none = []
or_empty (some l) = l

-- `where: { channelId }`, in ascending order of the sequence
abbrev pub channel_page : Text → Option Text → ℕ → Query Message
channel_page channel_id cursor limit = record {
  matches = λ m. text_eq m.channel_id channel_id;
  precedes = λ a b.
      ltb a.sequence b.sequence || (a.sequence == b.sequence && ltb a.created_at b.created_at);
  cursor = cursor_row (λ m. m.id) cursor;
  limit = some limit;
}

-- `where: { channelId }`, the latest pin first
abbrev pub channel_pins : Text → Query MessagePin
channel_pins channel_id = record {
  matches = λ p. text_eq p.channel_id channel_id;
  precedes = λ a b. ltb b.created_at a.created_at;
  cursor = none;
  limit = none;
}

-- `where: { id: { in: ids } }`
abbrev pub files_among : List Text → Query File
files_among ids = record {
  matches = λ f. has ids f.id;
  precedes = λ a b. false;
  cursor = none;
  limit = none;
}

-- `file.workspaceId === workspaceId && file.uploaderId === uploaderId`
abbrev pub may_attach : Text → Text → File → Bool
may_attach workspace_id uploader_id f =
    text_eq f.workspace_id workspace_id && text_eq f.uploader_id uploader_id

abbrev pub attach_to : Text → Text → File → File
attach_to message_id channel_id f = record f {
  message_id = some message_id;
  channel_id = some channel_id;
}

module _ ⦃w : World⦄ where
  -- `threadId ? await this.ensureThreadInChannel(threadId, channelId) : null`
  unfoldable pub thread_if_given : Option Text → Text → Action (Option Thread)
  thread_if_given none channel_id = pure none
  thread_if_given (some []) channel_id = pure none
  thread_if_given (some (c ∷ s)) channel_id = do
    thread ← ensure_thread_in_channel (c ∷ s) channel_id
    pure (some thread)

  unfoldable pub attach_files_to_message : List Text → Text → Text → Text → Text → Action (Unit {0})
  attach_files_to_message file_ids message_id channel_id workspace_id uploader_id = do
    rows ← find_many files (files_among (unique_from file_ids []))
    let allowed = map (λ f. f.id) (keep (may_attach workspace_id uploader_id) rows)
    if is_empty allowed
        then pure tt
        else (update_many files (λ f. has allowed f.id) (attach_to message_id channel_id) >>= λ _.
            pure tt)

  -- `if (thread) { await this.emitThreadReplyNotification(...) }`
  abbrev pub reply_if_thread : Text → Option Thread → Text → Text → Action (Unit {0})
  reply_if_thread workspace_id none actor_id message_id = pure tt
  reply_if_thread workspace_id (some t) actor_id message_id =
      emit_thread_reply_notification workspace_id t.id t.root_message_id actor_id message_id

  unfoldable pub send_message : SendMessage → Text → Action SerializedMessage
  send_message dto user_id = do
    channel ← ensure_channel_access dto.channel_id user_id
    thread ← thread_if_given dto.thread_id dto.channel_id
    let content = trim dto.content
    throw_if (is_empty content) (bad_request "Message content is required")
    message ← create_message_with_sequence (record {
      workspace_id = channel.workspace_id;
      channel_id = channel.id;
      author_id = user_id;
      content = content;
      thread_id = id_of thread;
      parent_message_id = root_of thread;
    })
    if is_empty (or_empty dto.file_ids)
        then pure tt
        else attach_files_to_message (or_empty dto.file_ids) message.id channel.id
            channel.workspace_id user_id
    emit_mention_notifications channel.workspace_id channel.id channel.type user_id message.id
        dto.content
    reply_if_thread channel.workspace_id thread user_id message.id
    get_serialized_message message.id

  -- `data.map((message) => this.serializeMessage(message))`
  unfoldable pub serialize_all : List Message → Action (List SerializedMessage)
  serialize_all [] db = (ok [], db)
  serialize_all (m ∷ rows) db =
      (serialize_message m >>= λ first. serialize_all rows >>= λ rest. pure (first ∷ rest)) db

  unfoldable pub list_messages :
      Text → Text → Option Text → Number → Action (Page SerializedMessage)
  list_messages channel_id user_id cursor limit = do
    ensure_channel_access channel_id user_id
    let bounded = bounded_limit limit 50 200
    rows ← find_many messages (channel_page channel_id cursor bounded)
    views ← serialize_all rows
    pure (record { rows = views; cursor = page_cursor (λ m. m.id) rows bounded; limit = bounded })

  unfoldable pub edit_message : Text → Text → Text → Action SerializedMessage
  edit_message message_id content editor_id = do
    existing ← ensure_message_access message_id editor_id
    throw_if (not (text_eq existing.author_id editor_id)) (forbidden "Only author can edit message")
    throw_if (is_some existing.deleted_at) (bad_request "Cannot edit deleted message")
    throw_if (is_empty (trim content)) (bad_request "Message content is required")
    update_row messages (λ m. text_eq m.id message_id)
        (λ m. record m { content = trim content; edited_at = some w.now })
    get_serialized_message message_id

  unfoldable pub delete_message : Text → Text → Action SerializedMessage
  delete_message message_id user_id = do
    existing ← ensure_message_access message_id user_id
    throw_if (not (text_eq existing.author_id user_id)) (forbidden "Only author can delete message")
    update_row messages (λ m. text_eq m.id message_id)
        (λ m. record m { deleted_at = some w.now; content = codes "[deleted]" })
    get_serialized_message message_id

  unfoldable pub react_to_message : Text → Text → Text → Action Reaction
  react_to_message message_id user_id emoji = do
    ensure_message_access message_id user_id
    upsert reactions (is_reaction message_id user_id emoji) (reaction_key ∷ [])
        (pure (record { message_id = message_id; user_id = user_id; emoji = emoji })) (λ r. r)

  -- `include: { message: { include: { author } } }`
  unfoldable pub included_message : Text → Action (Option SerializedMessage)
  included_message message_id db =
      elim (w.prisma.find_unique (λ m. text_eq m.id message_id) db.messages) [
        | none ↦ (ok none, db)
        | some m ↦ (serialize_message m >>= λ view. pure (some view)) db
      ]

  unfoldable pub view_pin : MessagePin → Action PinView
  view_pin pin = do
    pinned_by ← find_unique users (λ u. text_eq u.id pin.pinned_by_id)
    message ← included_message pin.message_id
    pure (record { pin = pin; pinned_by = pinned_by; message = message })

  unfoldable pub pin_message : Text → Text → Action PinView
  pin_message message_id user_id = do
    message ← ensure_message_access message_id user_id
    pin ←
        upsert pins (λ p. text_eq p.message_id message_id) (pin_key ∷ [])
          (pure (record {
            workspace_id = message.workspace_id;
            channel_id = message.channel_id;
            message_id = message_id;
            pinned_by_id = user_id;
            created_at = w.now;
          }))
          (λ p. record p { pinned_by_id = user_id })
    view_pin pin

  unfoldable pub unpin_message : Text → Text → Action (Text × Bool)
  unpin_message message_id user_id = do
    ensure_message_access message_id user_id
    removed ← delete_many pins (λ p. text_eq p.message_id message_id)
    pure (message_id, ltb 0 removed)

  unfoldable pub view_pins : List MessagePin → Action (List PinView)
  view_pins [] db = (ok [], db)
  view_pins (p ∷ rows) db =
      (view_pin p >>= λ first. view_pins rows >>= λ rest. pure (first ∷ rest)) db

  unfoldable pub list_pins : Text → Text → Action (List PinView)
  list_pins channel_id user_id = do
    ensure_channel_access channel_id user_id
    rows ← find_many pins (channel_pins channel_id)
    view_pins rows

  unfoldable pub typing : Text → Text → Action Typing
  typing channel_id user_id = do
    ensure_channel_access channel_id user_id
    pure (record { channel_id = channel_id; user_id = user_id; typing = true; timestamp = w.now })
