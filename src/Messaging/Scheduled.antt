-- ===== src/Messaging/Scheduled.antt =====
-- Scheduled messages: `scheduleMessage`, `listScheduledMessages`, `cancelScheduledMessage`,
-- `processDueScheduledMessages` and `deliverScheduledMessage` of messaging.service.ts. The tick of
-- the scheduler is cut into the database calls between which other requests may run.
pub mod Claim
pub mod Posting
pub mod Evidence
pub mod Lifecycle
use synapse_hub.Action.{
  World, Action, ◌>>=◌, ◌>>◌, new_id, create_row, throw_if, bad_request, or_throw, ok, find_unique,
  pure, find_many, not_found, forbidden, update_row, update_many, Failure, unauthorized,
  conflicting, internal, unavailable, ws_exception, p2002, p2025, Reply, err,
}
use synapse_hub.Action.Tables.{scheduled, channels}
use synapse_hub.Base.{
  Option, Bool, true, false, none, some, ℕ, ◌&&◌, ltb, leb, [], ◌+◌, List, ◌∷◌, not, if◌then◌else◌,
  take, count, ◌==◌,
}
use synapse_hub.Messaging.Access.{
  ChannelAccess, ensure_channel_access, is_empty, ensure_workspace_member, get_channel_type,
}
use synapse_hub.Messaging.Bookmarks.{matches_if_given, channel_label, access_if_given}
use synapse_hub.Messaging.Messages.{id_of, root_of, thread_if_given}
use synapse_hub.Messaging.Notify.{emit_thread_reply_notification, emit_mention_notifications}
use synapse_hub.Messaging.Sequence.{MessageInput, create_message_with_sequence}
use synapse_hub.Pagination.{cursor_row, Number, Page, bounded_limit, page_cursor}
use synapse_hub.Prisma.{Query}
use synapse_hub.Schema.{
  ScheduledMessage, ScheduledMessageStatus, pending, processing, sent, canceled, failed, is_pending,
  Thread, Message, Db,
}
use synapse_hub.Text.{Text, text_eq, trim, codes}

-- A scheduled message of a list, with its `channel: { id, name }`.
pub record ListedScheduled : Type 0 where
  pub message : ScheduledMessage
  pub channel : Option (Text × Text)

abbrev pub same_status : ScheduledMessageStatus → ScheduledMessageStatus → Bool
same_status pending pending = true
same_status processing processing = true
same_status sent sent = true
same_status canceled canceled = true
same_status failed failed = true
same_status _ _ = false

-- `status ? { status } : {}`
abbrev pub status_if_given : Option ScheduledMessageStatus → ScheduledMessageStatus → Bool
status_if_given none x = true
status_if_given (some s) x = same_status x s

-- The earliest first; `id`, which breaks ties in the source, is left to the client.
abbrev pub scheduled_page :
    Text
    → Text
    → Option Text
    → Option ScheduledMessageStatus
    → Option Text
    → ℕ
    → Query ScheduledMessage
scheduled_page user_id workspace_id channel_id status cursor limit = record {
  matches = λ m.
      text_eq m.author_id user_id
      && text_eq m.workspace_id workspace_id
      && matches_if_given channel_id m.channel_id
      && status_if_given status m.status;
  precedes = λ a b. ltb a.send_at b.send_at;
  cursor = cursor_row (λ m. m.id) cursor;
  limit = some limit;
}

-- The pending messages whose time has come, the earliest first, twenty at most.
abbrev pub due_messages : ℕ → Query ScheduledMessage
due_messages now = record {
  matches = λ m. is_pending m.status && leb m.send_at now;
  precedes = λ a b. ltb a.send_at b.send_at;
  cursor = none;
  limit = some 20;
}

abbrev pub has_id : Text → ScheduledMessage → Bool
has_id id m = text_eq m.id id

-- `status === CANCELED || status === SENT`
abbrev pub is_final : ScheduledMessageStatus → Bool
is_final canceled = true
is_final sent = true
is_final _ = false

abbrev pub cancel_at : ℕ → ScheduledMessage → ScheduledMessage
cancel_at now m = record m { status = canceled; canceled_at = some now }

abbrev pub start_processing : ScheduledMessage → ScheduledMessage
start_processing m = record m { status = processing }

abbrev pub sent_as : Text → ℕ → ScheduledMessage → ScheduledMessage
sent_as message_id now m = record m {
  status = sent;
  sent_message_id = some message_id;
  sent_at = some now;
  error_message = none;
}

abbrev pub failed_with : Text → ScheduledMessage → ScheduledMessage
failed_with message m = record m { status = failed; error_message = some message }

-- `parentMessageId`, or the root of the thread where there is one.
abbrev pub root_for : Option Text → Option Thread → Option Text
root_for parent none = parent
root_for parent (some t) = some t.root_message_id

abbrev pub scheduled_input : ScheduledMessage → Option Text → MessageInput
scheduled_input m root = record {
  workspace_id = m.workspace_id;
  channel_id = m.channel_id;
  author_id = m.author_id;
  content = m.content;
  thread_id = m.thread_id;
  parent_message_id = root;
}

module _ ⦃w : World⦄ where
  -- The row that `prisma.scheduledMessage.create` is given.
  abbrev pub scheduled_row :
      ChannelAccess → Text → Text → Option Thread → Text → ℕ → Text → ScheduledMessage
  scheduled_row channel channel_id user_id thread content send_at id = record {
    id = id;
    workspace_id = channel.workspace_id;
    channel_id = channel_id;
    author_id = user_id;
    thread_id = id_of thread;
    parent_message_id = root_of thread;
    content = content;
    send_at = send_at;
    status = pending;
    sent_message_id = none;
    error_message = none;
    canceled_at = none;
    sent_at = none;
  }

  unfoldable pub store_scheduled :
      ChannelAccess → Text → Text → Text → ℕ → Option Thread → Action ScheduledMessage
  store_scheduled channel channel_id user_id content time thread = do
    id ← new_id
    create_row scheduled [] (scheduled_row channel channel_id user_id thread content time id)

  -- `send_at` is the time of `new Date(sendAt)`, or `none` where it is no date.
  unfoldable pub schedule_message :
      Text → Text → Text → Option ℕ → Option Text → Action ScheduledMessage
  schedule_message user_id channel_id content send_at thread_id = do
    channel ← ensure_channel_access channel_id user_id
    throw_if (is_empty (trim content)) (bad_request "Message content is required")
    time ← or_throw send_at (bad_request "Invalid sendAt timestamp")
    throw_if (ltb time (w.now + 5000))
        (bad_request "sendAt must be at least 5 seconds in the future")
    thread ← thread_if_given thread_id channel_id
    store_scheduled channel channel_id user_id (trim content) time thread

  unfoldable pub label_scheduled : List ScheduledMessage → Action (List ListedScheduled)
  label_scheduled [] db = (ok [], db)
  label_scheduled (m ∷ rows) db =
      (do
        channel ← find_unique channels (λ c. text_eq c.id m.channel_id)
        rest ← label_scheduled rows
        pure (record { message = m; channel = channel_label channel } ∷ rest))
        db

  unfoldable pub list_scheduled_messages :
      Text
      → Text
      → Option Text
      → Option ScheduledMessageStatus
      → Option Text
      → Number
      → Action (Page ListedScheduled)
  list_scheduled_messages user_id workspace_id channel_id status cursor limit = do
    ensure_workspace_member workspace_id user_id
    access_if_given channel_id user_id
    let bounded = bounded_limit limit 50 200
    rows ←
        find_many scheduled (scheduled_page user_id workspace_id channel_id status cursor bounded)
    views ← label_scheduled rows
    pure (record { rows = views; cursor = page_cursor (λ m. m.id) rows bounded; limit = bounded })

  -- The result is the id and the status that the caller is told.
  unfoldable pub cancel_scheduled_message : Text → Text → Action (Text × ScheduledMessageStatus)
  cancel_scheduled_message id user_id = do
    row ← find_unique scheduled (has_id id)
    message ← or_throw row (not_found "Scheduled message not found")
    throw_if (not (text_eq message.author_id user_id))
        (forbidden "Cannot cancel another user scheduled message")
    if is_final message.status
        then pure (message.id, message.status)
        else (update_row scheduled (has_id id) (cancel_at w.now) >>= λ m. pure (m.id, m.status))

  -- The claim of a due message: the number of rows that it took.
  unfoldable pub claim : Text → Action ℕ
  claim id = update_many scheduled (λ m. has_id id m && is_pending m.status) start_processing

  -- `if (scheduled.threadId && rootMessageId) { ... }`
  abbrev pub reply_if_both : Option Text → Option Text → Text → Text → Text → Action (Unit {0})
  reply_if_both (some (d ∷ t)) (some (c ∷ s)) workspace_id actor_id message_id =
      emit_thread_reply_notification workspace_id (d ∷ t) (c ∷ s) actor_id message_id
  reply_if_both _ _ workspace_id actor_id message_id = pure tt

  -- The notifications of a delivered message.
  unfoldable pub announce_scheduled : ScheduledMessage → Option Text → Message → Action (Unit {0})
  announce_scheduled m root message = do
    channel_type ← get_channel_type m.channel_id
    emit_mention_notifications m.workspace_id m.channel_id channel_type m.author_id message.id
        m.content
    reply_if_both m.thread_id root m.workspace_id m.author_id message.id

  -- `deliverScheduledMessage` once the root of the thread is known.
  unfoldable pub post_scheduled : ScheduledMessage → Option Text → Action Message
  post_scheduled m root = do
    message ← create_message_with_sequence (scheduled_input m root)
    announce_scheduled m root message
    pure message

  -- `deliverScheduledMessage` once the row is known.
  unfoldable pub deliver_row : ScheduledMessage → Action Message
  deliver_row m = do
    ensure_channel_access m.channel_id m.author_id
    thread ← thread_if_given m.thread_id m.channel_id
    post_scheduled m (root_for m.parent_message_id thread)

  unfoldable pub deliver_scheduled_message : Text → Action Message
  deliver_scheduled_message id = do
    row ← find_unique scheduled (has_id id)
    m ← or_throw row (not_found "Scheduled message not found")
    deliver_row m

  -- `error.message.slice(0, 500)`; each of these is an `Error`.
  abbrev pub error_message : Failure → Text
  error_message (bad_request s) = take 500 (codes s)
  error_message (forbidden s) = take 500 (codes s)
  error_message (not_found s) = take 500 (codes s)
  error_message (unauthorized s) = take 500 (codes s)
  error_message (conflicting s) = take 500 (codes s)
  error_message (internal s) = take 500 (codes s)
  error_message (unavailable s) = take 500 (codes s)
  error_message (ws_exception s) = take 500 (codes s)
  error_message (p2002 target) = take 500 (w.client_message (p2002 target))
  error_message p2025 = take 500 (w.client_message p2025)

  abbrev pub mark_sent : Text → Text → Action ScheduledMessage
  mark_sent id message_id = update_row scheduled (has_id id) (sent_as message_id w.now)

  abbrev pub mark_failed : Text → Failure → Action ScheduledMessage
  mark_failed id e = update_row scheduled (has_id id) (failed_with (error_message e))

  -- `catch (error)`: what was written stays.
  abbrev pub caught : {A : Type 0} → Reply A × Db → (Failure → Action A) → Reply A × Db
  caught (ok a, db) handler = (ok a, db)
  caught (err e, db) handler = handler e db

  -- The delivery of a claimed message, and the record of how it ended.
  unfoldable pub finish : Text → Action (Unit {0})
  finish id db =
      caught
        ((deliver_scheduled_message id >>= λ message. mark_sent id message.id >>= λ row. pure tt)
          db)
        (λ e. mark_failed id e >>= λ row. pure tt)

  -- One round of the loop of the tick.
  unfoldable pub process_one : Text → Action (Unit {0})
  process_one id = do count ← claim id; if count == 1 then finish id else pure tt

  unfoldable pub process_each : List ScheduledMessage → Action (Unit {0})
  process_each [] db = (ok tt, db)
  process_each (m ∷ rows) db = (process_one m.id >> process_each rows) db

  -- The tick. The flag is `schedulerTickInFlight`; it is down again afterwards, `finally`.
  unfoldable pub process_due_scheduled_messages : Bool → Db → Bool × Db
  process_due_scheduled_messages true db = (true, db)
  process_due_scheduled_messages false db =
      let (reply, db') =
        (find_many scheduled (due_messages w.now) >>= λ rows. process_each rows) db in
      (false, db')
