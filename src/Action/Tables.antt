-- ===== src/Action/Tables.antt =====
-- The tables of packages/shared/prisma/schema.prisma, and their unique keys.
use synapse_hub.Action.{Table}
use synapse_hub.Base.{Bool, ◌&&◌, ◌==◌, ◌∷◌, []}
use synapse_hub.Prisma.{Key, fields}
use synapse_hub.Schema.{
  User, Workspace, WorkspaceMember, Channel, ChannelMember, Message, Thread, Reaction, File,
  MessagePin, Bookmark, MessageDraft, ScheduledMessage, Notification, WorkspaceInviteLink,
  WorkspaceInviteAcceptance, AuditLog, Token, Bot, BotEvent, Integration,
}
use synapse_hub.Text.{text_eq, codes, Text}

abbrev pub users : Table User
users = record { rows = λ db. db.users; put = λ l db. record db { users = l } }

abbrev pub workspaces : Table Workspace
workspaces = record { rows = λ db. db.workspaces; put = λ l db. record db { workspaces = l } }

abbrev pub workspace_members : Table WorkspaceMember
workspace_members = record {
  rows = λ db. db.workspace_members;
  put = λ l db. record db { workspace_members = l };
}

abbrev pub channels : Table Channel
channels = record { rows = λ db. db.channels; put = λ l db. record db { channels = l } }

abbrev pub channel_members : Table ChannelMember
channel_members = record {
  rows = λ db. db.channel_members;
  put = λ l db. record db { channel_members = l };
}

abbrev pub messages : Table Message
messages = record { rows = λ db. db.messages; put = λ l db. record db { messages = l } }

abbrev pub threads : Table Thread
threads = record { rows = λ db. db.threads; put = λ l db. record db { threads = l } }

abbrev pub reactions : Table Reaction
reactions = record { rows = λ db. db.reactions; put = λ l db. record db { reactions = l } }

abbrev pub files : Table File
files = record { rows = λ db. db.files; put = λ l db. record db { files = l } }

abbrev pub pins : Table MessagePin
pins = record { rows = λ db. db.pins; put = λ l db. record db { pins = l } }

abbrev pub bookmarks : Table Bookmark
bookmarks = record { rows = λ db. db.bookmarks; put = λ l db. record db { bookmarks = l } }

abbrev pub drafts : Table MessageDraft
drafts = record { rows = λ db. db.drafts; put = λ l db. record db { drafts = l } }

abbrev pub scheduled : Table ScheduledMessage
scheduled = record { rows = λ db. db.scheduled; put = λ l db. record db { scheduled = l } }

abbrev pub notifications : Table Notification
notifications = record {
  rows = λ db. db.notifications;
  put = λ l db. record db { notifications = l };
}

abbrev pub invite_links : Table WorkspaceInviteLink
invite_links = record { rows = λ db. db.invite_links; put = λ l db. record db { invite_links = l } }

abbrev pub acceptances : Table WorkspaceInviteAcceptance
acceptances = record { rows = λ db. db.acceptances; put = λ l db. record db { acceptances = l } }

abbrev pub audit_logs : Table AuditLog
audit_logs = record { rows = λ db. db.audit_logs; put = λ l db. record db { audit_logs = l } }

abbrev pub refresh_tokens : Table Token
refresh_tokens = record {
  rows = λ db. db.refresh_tokens;
  put = λ l db. record db { refresh_tokens = l };
}

abbrev pub verification_tokens : Table Token
verification_tokens = record {
  rows = λ db. db.verification_tokens;
  put = λ l db. record db { verification_tokens = l };
}

abbrev pub reset_tokens : Table Token
reset_tokens = record { rows = λ db. db.reset_tokens; put = λ l db. record db { reset_tokens = l } }

abbrev pub bots : Table Bot
bots = record { rows = λ db. db.bots; put = λ l db. record db { bots = l } }

abbrev pub bot_events : Table BotEvent
bot_events = record { rows = λ db. db.bot_events; put = λ l db. record db { bot_events = l } }

abbrev pub integrations : Table Integration
integrations = record { rows = λ db. db.integrations; put = λ l db. record db { integrations = l } }

-- `@@unique([channelId, sequence])`
abbrev pub same_place : Message → Message → Bool
same_place a b = text_eq a.channel_id b.channel_id && a.sequence == b.sequence

abbrev pub sequence_key : Key Message
sequence_key = record {
  target = fields (codes "channelId" ∷ codes "sequence" ∷ []);
  clashes = same_place;
}

-- `@@unique([workspaceId, userId])`
abbrev pub is_member : Text → Text → WorkspaceMember → Bool
is_member workspace_id user_id m = text_eq m.workspace_id workspace_id && text_eq m.user_id user_id

abbrev pub member_key : Key WorkspaceMember
member_key = record {
  target = fields (codes "workspaceId" ∷ codes "userId" ∷ []);
  clashes = λ a b. is_member a.workspace_id a.user_id b;
}

-- `@@unique([channelId, userId])`
abbrev pub is_in_channel : Text → Text → ChannelMember → Bool
is_in_channel channel_id user_id m = text_eq m.channel_id channel_id && text_eq m.user_id user_id

abbrev pub channel_member_key : Key ChannelMember
channel_member_key = record {
  target = fields (codes "channelId" ∷ codes "userId" ∷ []);
  clashes = λ a b. is_in_channel a.channel_id a.user_id b;
}

-- `@@unique([workspaceId, name])`
abbrev pub channel_name_key : Key Channel
channel_name_key = record {
  target = fields (codes "workspaceId" ∷ codes "name" ∷ []);
  clashes = λ a b. text_eq a.workspace_id b.workspace_id && text_eq a.name b.name;
}

-- `rootMessageId @unique`
abbrev pub root_key : Key Thread
root_key = record {
  target = fields (codes "rootMessageId" ∷ []);
  clashes = λ a b. text_eq b.root_message_id a.root_message_id;
}

-- `@@unique([messageId, userId, emoji])`
abbrev pub is_reaction : Text → Text → Text → Reaction → Bool
is_reaction message_id user_id emoji r =
    text_eq r.message_id message_id && text_eq r.user_id user_id && text_eq r.emoji emoji

abbrev pub reaction_key : Key Reaction
reaction_key = record {
  target = fields (codes "messageId" ∷ codes "userId" ∷ codes "emoji" ∷ []);
  clashes = λ a b. is_reaction a.message_id a.user_id a.emoji b;
}

-- `messageId @unique`
abbrev pub pin_key : Key MessagePin
pin_key = record {
  target = fields (codes "messageId" ∷ []);
  clashes = λ a b. text_eq b.message_id a.message_id;
}

-- `@@unique([userId, messageId])`
abbrev pub is_bookmark : Text → Text → Bookmark → Bool
is_bookmark user_id message_id b = text_eq b.user_id user_id && text_eq b.message_id message_id

abbrev pub bookmark_key : Key Bookmark
bookmark_key = record {
  target = fields (codes "userId" ∷ codes "messageId" ∷ []);
  clashes = λ a b. is_bookmark a.user_id a.message_id b;
}

-- `@@unique([userId, channelId, threadKey])`
abbrev pub is_draft : Text → Text → Text → MessageDraft → Bool
is_draft user_id channel_id thread_key d =
    text_eq d.user_id user_id && text_eq d.channel_id channel_id && text_eq d.thread_key thread_key

abbrev pub draft_key : Key MessageDraft
draft_key = record {
  target = fields (codes "userId" ∷ codes "channelId" ∷ codes "threadKey" ∷ []);
  clashes = λ a b. is_draft a.user_id a.channel_id a.thread_key b;
}

-- `slug @unique`
abbrev pub slug_key : Key Workspace
slug_key = record { target = fields (codes "slug" ∷ []); clashes = λ a b. text_eq b.slug a.slug }

-- `email @unique`
abbrev pub email_key : Key User
email_key = record {
  target = fields (codes "email" ∷ []);
  clashes = λ a b. text_eq b.email a.email;
}

-- `code @unique`
abbrev pub code_key : Key WorkspaceInviteLink
code_key = record { target = fields (codes "code" ∷ []); clashes = λ a b. text_eq b.code a.code }

-- `@@unique([inviteLinkId, userId])`
abbrev pub is_acceptance : Text → Text → WorkspaceInviteAcceptance → Bool
is_acceptance link_id user_id a = text_eq a.invite_link_id link_id && text_eq a.user_id user_id

abbrev pub acceptance_key : Key WorkspaceInviteAcceptance
acceptance_key = record {
  target = fields (codes "inviteLinkId" ∷ codes "userId" ∷ []);
  clashes = λ a b. is_acceptance a.invite_link_id a.user_id b;
}

-- `@@unique([workspaceId, name])` of bots and of integrations
abbrev pub bot_key : Key Bot
bot_key = record {
  target = fields (codes "workspaceId" ∷ codes "name" ∷ []);
  clashes = λ a b. text_eq b.workspace_id a.workspace_id && text_eq b.name a.name;
}

abbrev pub integration_key : Key Integration
integration_key = record {
  target = fields (codes "workspaceId" ∷ codes "name" ∷ []);
  clashes = λ a b. text_eq b.workspace_id a.workspace_id && text_eq b.name a.name;
}

-- `tokenHash @unique`
abbrev pub token_key : Key Token
token_key = record {
  target = fields (codes "tokenHash" ∷ []);
  clashes = λ a b. text_eq b.token_hash a.token_hash;
}
