-- ===== src/Messaging/Frame/Delivery.antt =====
-- Delivering a scheduled message leaves alone all that lies outside the tables of messages,
-- notifications and files.

use synapse_hub.Action.{World, ◌>>◌, pure, ◌>>=◌, or_throw, not_found}
use synapse_hub.Action.Frame.{Keeps, Keeps-bind}
use synapse_hub.Base.{Option, some, ◌∷◌, [], refl, none}
use synapse_hub.Messaging.Access.{get_channel_type, ensure_channel_access}
use synapse_hub.Messaging.Frame.{
  Notifying, emit_thread_reply-Keeps, emit_mention-Keeps, Posting, create_message-Keeps, notifying,
}
use synapse_hub.Messaging.Frame.Reads.{get_channel_type-Keeps, access-Keeps, thread_if_given-Keeps}
use synapse_hub.Messaging.Messages.{thread_if_given}
use synapse_hub.Messaging.Notify.{emit_mention_notifications}
use synapse_hub.Messaging.Scheduled.{
  reply_if_both, announce_scheduled, post_scheduled, scheduled_input, deliver_row, root_for,
  deliver_scheduled_message, has_id,
}
use synapse_hub.Messaging.Sequence.{create_message_with_sequence}
use synapse_hub.Schema.{Db, ScheduledMessage, Message, ChannelType, Thread}
use synapse_hub.Text.{Text}

module _ ⦃w : World⦄ {X : Type 0} (view : Db → X) (n : Notifying view) where
  reply_if_both-Keeps :
      (thread_id root : Option Text) (workspace_id actor_id message_id : Text)
      → Keeps view (reply_if_both thread_id root workspace_id actor_id message_id)
  reply_if_both-Keeps (some (d ∷ t)) (some (c ∷ s)) workspace_id actor_id message_id db =
      emit_thread_reply-Keeps view n workspace_id (d ∷ t) (c ∷ s) actor_id message_id db
  reply_if_both-Keeps (some (d ∷ t)) (some []) workspace_id actor_id message_id db = refl
  reply_if_both-Keeps (some (d ∷ t)) none workspace_id actor_id message_id db = refl
  reply_if_both-Keeps (some []) root workspace_id actor_id message_id db = refl
  reply_if_both-Keeps none root workspace_id actor_id message_id db = refl

  pub announce-Keeps :
      (m : ScheduledMessage) (root : Option Text) (message : Message)
      → Keeps view (announce_scheduled m root message)
  unfolding announce_scheduled
  announce-Keeps m root message =
      let mentions = λ (t : ChannelType).
        emit_mention_notifications m.workspace_id m.channel_id t m.author_id message.id m.content in
      let reply = reply_if_both m.thread_id root m.workspace_id m.author_id message.id in
      Keeps-bind view (get_channel_type m.channel_id) (λ t. mentions t >> reply)
        (get_channel_type-Keeps view m.channel_id)
        λ t.
          Keeps-bind view (mentions t) (λ r. reply)
            (emit_mention-Keeps view n m.workspace_id m.channel_id t m.author_id message.id
              m.content)
            λ r. reply_if_both-Keeps m.thread_id root m.workspace_id m.author_id message.id

module _ ⦃w : World⦄ {X : Type 0} (view : Db → X) (p : Posting view) where
  post-Keeps : (m : ScheduledMessage) (root : Option Text) → Keeps view (post_scheduled m root)
  unfolding post_scheduled
  post-Keeps m root =
      Keeps-bind view (create_message_with_sequence (scheduled_input m root))
        (λ message. announce_scheduled m root message >> pure message)
        (create_message-Keeps view p (scheduled_input m root))
        λ message.
          Keeps-bind view (announce_scheduled m root message) (λ r. pure message)
            (announce-Keeps view (notifying view p) m root message) λ r db. refl

  deliver_row-Keeps : (m : ScheduledMessage) → Keeps view (deliver_row m)
  unfolding deliver_row
  deliver_row-Keeps m =
      let post = λ (t : Option Thread). post_scheduled m (root_for m.parent_message_id t) in
      Keeps-bind view (ensure_channel_access m.channel_id m.author_id)
        (λ a. thread_if_given m.thread_id m.channel_id >>= post)
        (access-Keeps view m.channel_id m.author_id)
        λ a.
          Keeps-bind view (thread_if_given m.thread_id m.channel_id) post
            (thread_if_given-Keeps view m.thread_id m.channel_id)
            λ t. post-Keeps m (root_for m.parent_message_id t)

  deliver_found-Keeps :
      (row : Option ScheduledMessage)
      → Keeps view (or_throw row (not_found "Scheduled message not found") >>= deliver_row)
  deliver_found-Keeps none db = refl
  deliver_found-Keeps (some m) db = deliver_row-Keeps m db

  pub deliver-Keeps : (id : Text) → Keeps view (deliver_scheduled_message id)
  unfolding deliver_scheduled_message
  deliver-Keeps id db = deliver_found-Keeps (w.prisma.find_unique (has_id id) db.scheduled) db
