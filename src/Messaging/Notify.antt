-- ===== src/Messaging/Notify.antt =====
-- `emitMentionNotifications` and `emitThreadReplyNotification` of messaging.service.ts.
pub mod Laws
use synapse_hub.Action.{
  World, Action, new_id, ◌>>=◌, create_row, ok, ◌>>◌, find_many, pure, find_unique,
}
use synapse_hub.Action.Tables.{is_in_channel, notifications, workspace_members, messages}
use synapse_hub.Base.{
  ◌&&◌, ◌||◌, any, false, none, List, Bool, [], ◌∷◌, Option, some, if◌then◌else◌, ℕ,
}
use synapse_hub.Messaging.Access.{is_empty}
use synapse_hub.Messaging.Mentions.{build_mention_handle, add, extract_mention_handles}
use synapse_hub.Prisma.{Query}
use synapse_hub.Schema.{
  ChannelType, Db, WorkspaceMember, is_public, User, Notification, mention, delivered, thread_reply,
  channel_activity, Message,
}
use synapse_hub.Text.{Text, text_eq, codes}

-- `members.where` of `emitMentionNotifications`: every member of the workspace in a public
-- channel, and of those the members of the channel in any other.
abbrev pub audience : Text → Text → ChannelType → Db → Query WorkspaceMember
audience workspace_id channel_id channel_type db = record {
  matches = λ m.
      text_eq m.workspace_id workspace_id
      && (is_public channel_type || any (is_in_channel channel_id m.user_id) db.channel_members);
  precedes = λ a b. false;
  cursor = none;
  limit = none;
}

-- `handles.has(handle)`
unfoldable pub has : List Text → Text → Bool
has [] x = false
has (y ∷ l) x = text_eq y x || has l x

-- One round of the loop over the members, on the user that the member names.
unfoldable pub note_member : List Text → Text → Option User → List Text → List Text
note_member handles actor_id none found = found
note_member handles actor_id (some u) found =
    if text_eq u.id actor_id
    then found
    else if has handles (build_mention_handle u.display_name u.email)
    then add u.id found
    else found

abbrev pub mention_row : Text → Text → Text → ℕ → Text → Notification
mention_row workspace_id message_id id now user_id = record {
  id = id;
  user_id = user_id;
  workspace_id = some workspace_id;
  type = mention;
  title = codes "You were mentioned";
  body = codes "Someone mentioned you in a channel conversation.";
  entity_type = codes "message";
  entity_id = some message_id;
  is_read = false;
  read_at = none;
  delivery_status = delivered;
  created_at = now;
}

abbrev pub reply_row : Text → Text → Text → ℕ → Text → Notification
reply_row workspace_id thread_id id now user_id = record {
  id = id;
  user_id = user_id;
  workspace_id = some workspace_id;
  type = thread_reply;
  title = codes "New thread reply";
  body = codes "Someone replied in a thread you participated in.";
  entity_type = codes "thread";
  entity_id = some thread_id;
  is_read = false;
  read_at = none;
  delivery_status = delivered;
  created_at = now;
}

abbrev pub activity_row : Text → Text → Text → ℕ → Text → Notification
activity_row workspace_id message_id id now user_id = record {
  id = id;
  user_id = user_id;
  workspace_id = some workspace_id;
  type = channel_activity;
  title = codes "Thread updated";
  body = codes "There is new activity in a thread.";
  entity_type = codes "message";
  entity_id = some message_id;
  is_read = false;
  read_at = none;
  delivery_status = delivered;
  created_at = now;
}

module _ ⦃w : World⦄ where
  -- `prisma.notification.create`
  unfoldable pub notify : (Text → Notification) → Action Notification
  notify row = new_id >>= λ id. create_row notifications [] (row id)

  -- `mentionedUserIds` after the loop over the members.
  unfoldable pub mentioned_from :
      List Text → Text → List User → List WorkspaceMember → List Text → List Text
  mentioned_from handles actor_id people [] found = found
  mentioned_from handles actor_id people (m ∷ members) found =
      mentioned_from handles actor_id people members (
        note_member handles actor_id (w.prisma.find_unique (λ u. text_eq u.id m.user_id) people)
          found)

  -- `createMany`, a row for each user
  unfoldable pub notify_each : Text → Text → List Text → Action (Unit {0})
  notify_each workspace_id message_id [] db = (ok tt, db)
  notify_each workspace_id message_id (user_id ∷ rest) db =
      (notify (λ id. mention_row workspace_id message_id id w.now user_id)
          >> notify_each workspace_id message_id rest)
        db

  unfoldable pub emit_mention_notifications :
      Text → Text → ChannelType → Text → Text → Text → Action (Unit {0})
  emit_mention_notifications workspace_id channel_id channel_type actor_id message_id content db =
      let handles = extract_mention_handles content in
      if is_empty handles
      then (ok tt, db)
      else (do
        members ← find_many workspace_members (audience workspace_id channel_id channel_type db)
        notify_each workspace_id message_id (mentioned_from handles actor_id db.users members []))
          db

  -- The two notifications of a reply.
  unfoldable pub notify_replied : Text → Text → Text → Text → Action (Unit {0})
  notify_replied workspace_id thread_id author_id message_id = do
    notify (λ id. reply_row workspace_id thread_id id w.now author_id)
    notify (λ id. activity_row workspace_id message_id id w.now author_id)
    pure tt

  -- `!rootMessage || rootMessage.authorId === actorId`
  abbrev pub notify_author : Text → Text → Option Message → Text → Text → Action (Unit {0})
  notify_author workspace_id thread_id none actor_id message_id = pure tt
  notify_author workspace_id thread_id (some root) actor_id message_id =
      if text_eq root.author_id actor_id
      then pure tt
      else notify_replied workspace_id thread_id root.author_id message_id

  unfoldable pub emit_thread_reply_notification :
      Text → Text → Text → Text → Text → Action (Unit {0})
  emit_thread_reply_notification workspace_id thread_id root_message_id actor_id message_id = do
    root ← find_unique messages (λ m. text_eq m.id root_message_id)
    notify_author workspace_id thread_id root actor_id message_id
