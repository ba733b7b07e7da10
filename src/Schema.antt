-- ===== src/Schema.antt =====
-- The data model, packages/shared/prisma/schema.prisma: one record for each model that the services
-- read or write, with the columns that they use. Ids are texts, times are milliseconds, `String?`
-- and `DateTime?` are options. `Db` is what the database holds; `outbox` is
-- what has left by mail, and `issued` counts the ids and random values handed out.
use synapse_hub.Base.{Option, ℕ, Bool, List, true, false}
use synapse_hub.Text.{Text}

pub data WorkspaceRole : Type 0 where
  owner admin member guest : WorkspaceRole

pub data ChannelType : Type 0 where
  public_channel private_channel direct : ChannelType

pub data MessageType : Type 0 where
  text system bot : MessageType

pub data NotificationType : Type 0 where
  mention direct_message thread_reply channel_activity system_notice : NotificationType

pub data DeliveryStatus : Type 0 where
  queued delivered undelivered : DeliveryStatus

pub data ScheduledMessageStatus : Type 0 where
  pending processing sent canceled failed : ScheduledMessageStatus

pub data AuditAction : Type 0 where
  create update delete invite login logout role_change bot_command integration_event : AuditAction

pub data BotEventType : Type 0 where
  message_created message_reaction channel_joined slash_command : BotEventType

pub data IntegrationType : Type 0 where
  github webhook custom : IntegrationType

pub record User : Type 0 where
  pub id : Text
  pub email : Text
  pub password_hash : Option Text
  pub email_verified_at : Option ℕ
  pub display_name : Text
  pub avatar_url : Option Text
  pub title : Option Text
  pub timezone : Option Text
  pub is_active : Bool
  pub last_seen_at : Option ℕ
  pub updated_at : ℕ

pub record Workspace : Type 0 where
  pub id : Text
  pub name : Text
  pub slug : Text
  pub owner_id : Text

pub record WorkspaceMember : Type 0 where
  pub workspace_id : Text
  pub user_id : Text
  pub role : WorkspaceRole
  pub invited_by_id : Option Text
  pub joined_at : ℕ

pub record Channel : Type 0 where
  pub id : Text
  pub workspace_id : Text
  pub created_by_id : Text
  pub name : Text
  pub topic : Option Text
  pub type : ChannelType
  pub is_archived : Bool
  pub created_at : ℕ

pub record ChannelMember : Type 0 where
  pub channel_id : Text
  pub user_id : Text

pub record Message : Type 0 where
  pub id : Text
  pub workspace_id : Text
  pub channel_id : Text
  pub author_id : Text
  pub thread_id : Option Text
  pub parent_message_id : Option Text
  pub type : MessageType
  pub content : Text
  pub sequence : ℕ
  pub edited_at : Option ℕ
  pub deleted_at : Option ℕ
  pub created_at : ℕ

pub record Thread : Type 0 where
  pub id : Text
  pub workspace_id : Text
  pub channel_id : Text
  pub root_message_id : Text
  pub created_by_id : Text

pub record Reaction : Type 0 where
  pub message_id : Text
  pub user_id : Text
  pub emoji : Text

pub record File : Type 0 where
  pub id : Text
  pub workspace_id : Text
  pub uploader_id : Text
  pub channel_id : Option Text
  pub message_id : Option Text
  pub filename : Text
  pub mime_type : Text
  pub size : ℕ
  pub bucket : Text
  pub object_key : Text
  pub url : Text
  pub created_at : ℕ
  pub deleted_at : Option ℕ

pub record MessagePin : Type 0 where
  pub workspace_id : Text
  pub channel_id : Text
  pub message_id : Text
  pub pinned_by_id : Text
  pub created_at : ℕ

pub record Bookmark : Type 0 where
  pub id : Text
  pub user_id : Text
  pub workspace_id : Text
  pub channel_id : Text
  pub message_id : Text
  pub updated_at : ℕ

pub record MessageDraft : Type 0 where
  pub user_id : Text
  pub workspace_id : Text
  pub channel_id : Text
  pub thread_id : Option Text
  pub thread_key : Text
  pub content : Text
  pub updated_at : ℕ

pub record ScheduledMessage : Type 0 where
  pub id : Text
  pub workspace_id : Text
  pub channel_id : Text
  pub author_id : Text
  pub thread_id : Option Text
  pub parent_message_id : Option Text
  pub content : Text
  pub send_at : ℕ
  pub status : ScheduledMessageStatus
  pub sent_message_id : Option Text
  pub error_message : Option Text
  pub canceled_at : Option ℕ
  pub sent_at : Option ℕ

pub record Notification : Type 0 where
  pub id : Text
  pub user_id : Text
  pub workspace_id : Option Text
  pub type : NotificationType
  pub title : Text
  pub body : Text
  pub entity_type : Text
  pub entity_id : Option Text
  pub is_read : Bool
  pub read_at : Option ℕ
  pub delivery_status : DeliveryStatus
  pub created_at : ℕ

pub record WorkspaceInviteLink : Type 0 where
  pub id : Text
  pub workspace_id : Text
  pub invited_by_id : Text
  pub code : Text
  pub invited_email : Option Text
  pub role : WorkspaceRole
  pub max_uses : Option ℕ
  pub use_count : ℕ
  pub expires_at : ℕ
  pub allowed_domain : Option Text
  pub is_revoked : Bool
  pub created_at : ℕ

pub record WorkspaceInviteAcceptance : Type 0 where
  pub invite_link_id : Text
  pub workspace_id : Text
  pub user_id : Text

pub record AuditLog : Type 0 where
  pub workspace_id : Text
  pub actor_id : Option Text
  pub action : AuditAction
  pub target_type : Text
  pub target_id : Option Text

-- `RefreshToken`, `EmailVerificationToken` and `PasswordResetToken` have the same columns; the
-- last is `revokedAt` in the first, and `usedAt` in the others.
pub record Token : Type 0 where
  pub id : Text
  pub user_id : Text
  pub token_hash : Text
  pub expires_at : ℕ
  pub closed_at : Option ℕ

-- A JSON column is a text.
pub record Bot : Type 0 where
  pub id : Text
  pub workspace_id : Text
  pub created_by_id : Text
  pub name : Text
  pub description : Option Text
  pub token_hash : Text
  pub scopes : List Text
  pub is_active : Bool
  pub created_at : ℕ

pub record BotEvent : Type 0 where
  pub workspace_id : Text
  pub bot_id : Text
  pub actor_id : Option Text
  pub type : BotEventType
  pub payload : Text

pub record Integration : Type 0 where
  pub id : Text
  pub workspace_id : Text
  pub created_by_id : Text
  pub type : IntegrationType
  pub name : Text
  pub config : Text
  pub secret : Option Text
  pub is_active : Bool
  pub created_at : ℕ

-- What the mail services hand to a provider over HTTP.
pub record Mail : Type 0 where
  pub to : Text
  pub subject : Text
  pub body : Text
  pub html : Option Text

pub data Provider : Type 0 where
  postmark resend : Provider

pub record Dispatch : Type 0 where
  pub provider : Provider
  pub sender : Text
  pub reply_to : Option Text
  pub mail : Mail

pub record Db : Type 0 where
  pub users : List User
  pub workspaces : List Workspace
  pub workspace_members : List WorkspaceMember
  pub channels : List Channel
  pub channel_members : List ChannelMember
  pub messages : List Message
  pub threads : List Thread
  pub reactions : List Reaction
  pub files : List File
  pub pins : List MessagePin
  pub bookmarks : List Bookmark
  pub drafts : List MessageDraft
  pub scheduled : List ScheduledMessage
  pub notifications : List Notification
  pub invite_links : List WorkspaceInviteLink
  pub acceptances : List WorkspaceInviteAcceptance
  pub audit_logs : List AuditLog
  pub refresh_tokens : List Token
  pub verification_tokens : List Token
  pub reset_tokens : List Token
  pub bots : List Bot
  pub bot_events : List BotEvent
  pub integrations : List Integration
  pub outbox : List Dispatch
  pub issued : ℕ

abbrev pub is_public : ChannelType → Bool
is_public public_channel = true
is_public _ = false

abbrev pub is_direct : ChannelType → Bool
is_direct direct = true
is_direct _ = false

abbrev pub is_owner : WorkspaceRole → Bool
is_owner owner = true
is_owner _ = false

abbrev pub is_admin : WorkspaceRole → Bool
is_admin admin = true
is_admin _ = false

abbrev pub is_pending : ScheduledMessageStatus → Bool
is_pending pending = true
is_pending _ = false
