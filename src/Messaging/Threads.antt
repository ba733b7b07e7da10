-- ===== src/Messaging/Threads.antt =====
-- `createThread`, `replyInThread` and `getThread` of messaging.service.ts.
pub mod Laws
use mathlib.Core.Option
use synapse_hub.Action.{
  Action, throw, not_found, throw_if, ◌>>◌, pure, World, find_unique, ◌>>=◌, upsert, new_id,
  or_throw, bad_request, find_many,
}
use synapse_hub.Action.Tables.{threads, messages, root_key}
use synapse_hub.Base.{Option, none, some, not, ltb, ◌||◌, ◌==◌, ◌&&◌, [], ◌∷◌, List}
use synapse_hub.Messaging.Access.{
  ensure_channel_access, SerializedMessage, get_channel_type, get_serialized_message, is_empty,
}
use synapse_hub.Messaging.Messages.{serialize_all}
use synapse_hub.Messaging.Notify.{emit_mention_notifications, emit_thread_reply_notification}
use synapse_hub.Messaging.Sequence.{MessageInput, create_message_with_sequence}
use synapse_hub.Prisma.{Query}
use synapse_hub.Schema.{Message, Thread}
use synapse_hub.Text.{Text, text_eq, is_text, trim}

-- `!message || message.channelId !== channelId`
abbrev pub message_in : Text → Option Message → Action Message
message_in channel_id none = throw (not_found "Root message not found")
message_in channel_id (some m) =
    throw_if (not (text_eq m.channel_id channel_id)) (not_found "Root message not found") >> pure m

-- `sourceMessage.parentMessageId ?? sourceMessage.id`
abbrev pub canonical_root : Message → Text
canonical_root m = Option.get_or m.parent_message_id m.id

-- `where: { threadId }`, in ascending order of the sequence
abbrev pub replies_of : Text → Query Message
replies_of thread_id = record {
  matches = λ m. is_text m.thread_id thread_id;
  precedes = λ a b.
      ltb a.sequence b.sequence || (a.sequence == b.sequence && ltb a.created_at b.created_at);
  cursor = none;
  limit = none;
}

abbrev pub reply_input : Thread → Text → Text → MessageInput
reply_input thread user_id content = record {
  workspace_id = thread.workspace_id;
  channel_id = thread.channel_id;
  author_id = user_id;
  content = content;
  thread_id = some thread.id;
  parent_message_id = some thread.root_message_id;
}

module _ ⦃w : World⦄ where
  -- The thread that a message is in: `if (sourceMessage.threadId) { ... }`
  unfoldable pub thread_of : Option Text → Action (Option Thread)
  thread_of none = pure none
  thread_of (some []) = pure none
  thread_of (some (c ∷ s)) = find_unique threads (λ t. text_eq t.id (c ∷ s))

  -- The rest of `createThread` for a message that is in no thread.
  unfoldable pub thread_at_root : Text → Text → Text → Action Thread
  thread_at_root root_id channel_id user_id = do
    row ← find_unique messages (λ m. text_eq m.id root_id)
    root ← message_in channel_id row
    upsert threads (λ t. text_eq t.root_message_id root.id) (root_key ∷ [])
        (new_id >>= λ id. pure (record {
          id = id;
          workspace_id = root.workspace_id;
          channel_id = channel_id;
          root_message_id = root.id;
          created_by_id = user_id;
        }))
        (λ t. t)

  abbrev pub or_else_thread : Option Thread → Action Thread → Action Thread
  or_else_thread none again = again
  or_else_thread (some t) again = pure t

  unfoldable pub create_thread : Text → Text → Text → Action Thread
  create_thread root_message_id channel_id user_id = do
    ensure_channel_access channel_id user_id
    row ← find_unique messages (λ m. text_eq m.id root_message_id)
    source ← message_in channel_id row
    existing ← thread_of source.thread_id
    or_else_thread existing (thread_at_root (canonical_root source) channel_id user_id)

  unfoldable pub reply_in_thread : Text → Text → Text → Action SerializedMessage
  reply_in_thread thread_id user_id content = do
    row ← find_unique threads (λ t. text_eq t.id thread_id)
    thread ← or_throw row (not_found "Thread not found")
    ensure_channel_access thread.channel_id user_id
    throw_if (is_empty (trim content)) (bad_request "Reply content is required")
    reply ← create_message_with_sequence (reply_input thread user_id (trim content))
    channel_type ← get_channel_type thread.channel_id
    emit_mention_notifications thread.workspace_id thread.channel_id channel_type user_id reply.id
        content
    emit_thread_reply_notification thread.workspace_id thread.id thread.root_message_id user_id
        reply.id
    get_serialized_message reply.id

  unfoldable pub get_thread : Text → Text → Action (Thread × List SerializedMessage)
  get_thread thread_id user_id = do
    row ← find_unique threads (λ t. text_eq t.id thread_id)
    thread ← or_throw row (not_found "Thread not found")
    ensure_channel_access thread.channel_id user_id
    rows ← find_many messages (replies_of thread_id)
    replies ← serialize_all rows
    pure (thread, replies)
