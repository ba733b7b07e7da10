-- ===== src/Messaging/Access.antt =====
-- The access checks of messaging.service.ts, and what its methods return of a message.
pub mod Laws
use synapse_hub.Action.{
  World, Action, ◌>>=◌, ◌>>◌, find_unique, or_throw, forbidden, pure, not_found, find_many,
  throw_if, throw,
}
use synapse_hub.Action.Tables.{
  is_in_channel, workspace_members, is_member, channels, channel_members, messages, threads, users,
}
use synapse_hub.Base.{Option, List, Bool, [], true, ◌∷◌, false, none, some, not, ◌&&◌}
use synapse_hub.Prisma.{Query}
use synapse_hub.Schema.{ChannelType, Message, ChannelMember, User, WorkspaceRole, is_public, Thread}
use synapse_hub.Text.{Text, text_eq}

pub record ChannelAccess : Type 0 where
  pub id : Text
  pub workspace_id : Text
  pub type : ChannelType

-- `MessageAuthor`
pub record MessageAuthor : Type 0 where
  pub id : Text
  pub display_name : Text
  pub email : Text
  pub avatar_url : Option Text

-- What `serializeMessage` returns. A sequence is a number below 2 ^ 53, where `Number` is exact.
pub record SerializedMessage : Type 0 where
  pub message : Message
  pub author : Option MessageAuthor

abbrev pub is_empty {ℓ} : {A : Type ℓ} → List A → Bool
is_empty [] = true
is_empty (_ ∷ _) = false

-- The members of a channel with the id of a user, `take: 1`.
abbrev pub members_of : Text → Text → Query ChannelMember
members_of channel_id user_id = record {
  matches = is_in_channel channel_id user_id;
  precedes = λ a b. false;
  cursor = none;
  limit = some 1;
}

abbrev pub author_of : User → MessageAuthor
author_of u = record {
  id = u.id;
  display_name = u.display_name;
  email = u.email;
  avatar_url = u.avatar_url;
}

abbrev pub serialize : Message → Option User → SerializedMessage
serialize m none = record { message = m; author = none }
serialize m (some u) = record { message = m; author = some (author_of u) }

module _ ⦃w : World⦄ where
  unfoldable pub ensure_workspace_member : Text → Text → Action WorkspaceRole
  ensure_workspace_member workspace_id user_id = do
    membership ← find_unique workspace_members (is_member workspace_id user_id)
    found ← or_throw membership (forbidden "User is not a member of this workspace")
    pure found.role

  unfoldable pub ensure_channel_access : Text → Text → Action ChannelAccess
  unfolding ensure_workspace_member
  ensure_channel_access channel_id user_id = do
    row ← find_unique channels (λ c. text_eq c.id channel_id)
    channel ← or_throw row (not_found "Channel not found")
    members ← find_many channel_members (members_of channel.id user_id)
    throw_if channel.is_archived (forbidden "Channel is archived")
    ensure_workspace_member channel.workspace_id user_id
    throw_if (not (is_public channel.type) && is_empty members)
        (forbidden "User is not a member of this channel")
    pure (record { id = channel.id; workspace_id = channel.workspace_id; type = channel.type })

  unfoldable pub get_channel_type : Text → Action ChannelType
  get_channel_type channel_id = do
    row ← find_unique channels (λ c. text_eq c.id channel_id)
    channel ← or_throw row (not_found "Channel not found")
    pure channel.type

  unfoldable pub ensure_message_access : Text → Text → Action Message
  ensure_message_access message_id user_id = do
    row ← find_unique messages (λ m. text_eq m.id message_id)
    message ← or_throw row (not_found "Message not found")
    ensure_channel_access message.channel_id user_id
    pure message

  -- `!thread || thread.channelId !== channelId`
  abbrev pub thread_in : Text → Option Thread → Action Thread
  thread_in channel_id none = throw (not_found "Thread not found")
  thread_in channel_id (some thread) =
      throw_if (not (text_eq thread.channel_id channel_id)) (not_found "Thread not found")
      >> pure thread

  unfoldable pub ensure_thread_in_channel : Text → Text → Action Thread
  ensure_thread_in_channel thread_id channel_id = do
    row ← find_unique threads (λ t. text_eq t.id thread_id)
    thread_in channel_id row

  -- `include: { author }`, then `serializeMessage`
  unfoldable pub serialize_message : Message → Action SerializedMessage
  serialize_message message = do
    author ← find_unique users (λ u. text_eq u.id message.author_id)
    pure (serialize message author)

  unfoldable pub get_serialized_message : Text → Action SerializedMessage
  get_serialized_message message_id = do
    row ← find_unique messages (λ m. text_eq m.id message_id)
    message ← or_throw row (not_found "Message not found")
    serialize_message message
