-- ===== src/Files.antt =====
-- services/file-service/src/files/files.service.ts: what the database keeps of a file, and who may
-- see and remove it. The bytes themselves go to an object store that the service does not call.
pub mod Reading
use synapse_hub.Action.{
  World, Action, ◌>>=◌, ◌>>◌, find_unique, or_throw, forbidden, pure, throw, not_found, throw_if,
  update_row, new_id, create_row,
}
use synapse_hub.Action.Tables.{
  workspace_members, is_member, channel_members, is_in_channel, channels, messages, files,
}
use synapse_hub.Base.{
  ℕ, Option, Bool, some, none, false, not, ◌||◌, if◌then◌else◌, true, is_some, ◌++◌, [],
}
use synapse_hub.Schema.{File, WorkspaceMember, Channel, is_public, Message}
use synapse_hub.Text.{Text, text_eq, given, or_else, codes, decimal}
use synapse_hub.Workspaces.{manages}

pub record UploadFile : Type 0 where
  pub workspace_id : Text
  pub filename : Text
  pub mime_type : Text
  pub size : ℕ
  pub channel_id : Option Text
  pub message_id : Option Text

-- `process.env`
pub record StoreSettings : Type 0 where
  pub s3_bucket : Option Text
  pub s3_endpoint : Option Text

-- What `remove` returns.
pub record Removal : Type 0 where
  pub id : Text
  pub deleted : Bool
  pub deleted_at : Option ℕ

abbrev pub removed_at : ℕ → File → File
removed_at now f = record f { deleted_at = some now }

-- `member?.role === OWNER || member?.role === ADMIN`
abbrev pub manages_as : Option WorkspaceMember → Bool
manages_as none = false
manages_as (some m) = manages m.role

module _ ⦃w : World⦄ where
  -- `ensureWorkspaceMember` of this service.
  unfoldable pub ensure_file_member : Text → Text → Action (Unit {0})
  ensure_file_member workspace_id user_id = do
    membership ← find_unique workspace_members (is_member workspace_id user_id)
    or_throw membership (forbidden "User is not a member of this workspace")
    pure tt

  -- `!channel || channel.workspaceId !== workspaceId || channel.isArchived`
  abbrev pub open_channel_in : Text → Option Channel → Action Channel
  open_channel_in workspace_id none = throw (not_found "Channel not found in workspace")
  open_channel_in workspace_id (some c) =
      throw_if (not (text_eq c.workspace_id workspace_id) || c.is_archived)
        (not_found "Channel not found in workspace")
      >> pure c

  unfoldable pub ensure_channel_member : Text → Text → Action (Unit {0})
  ensure_channel_member channel_id user_id = do
    membership ← find_unique channel_members (is_in_channel channel_id user_id)
    or_throw membership (forbidden "User is not a member of this channel")
    pure tt

  -- `ensureChannelAccess` of this service.
  unfoldable pub ensure_file_channel_access : Text → Text → Text → Action (Unit {0})
  ensure_file_channel_access workspace_id channel_id user_id = do
    row ← find_unique channels (λ c. text_eq c.id channel_id)
    channel ← open_channel_in workspace_id row
    if is_public channel.type then pure tt else ensure_channel_member channel_id user_id

  -- `if (channelId) { ... }`
  abbrev pub ensure_given_channel : Text → Option Text → Text → Action (Unit {0})
  ensure_given_channel workspace_id channel_id user_id = elim (given channel_id) [
    | none ↦ pure tt
    | some c ↦ ensure_file_channel_access workspace_id c user_id
  ]

  -- `channelId && message.channelId !== channelId`
  abbrev pub is_elsewhere : Option Text → Message → Bool
  is_elsewhere channel_id m = elim (given channel_id) [
    | none ↦ false
    | some c ↦ not (text_eq m.channel_id c)
  ]

  abbrev pub message_placed : Text → Option Text → Option Message → Action (Unit {0})
  message_placed workspace_id channel_id none =
      throw (not_found "Message not found in workspace/channel")
  message_placed workspace_id channel_id (some m) =
      throw_if (not (text_eq m.workspace_id workspace_id) || is_elsewhere channel_id m)
        (not_found "Message not found in workspace/channel")

  unfoldable pub ensure_message : Text → Text → Option Text → Action (Unit {0})
  ensure_message workspace_id message_id channel_id = do
    row ← find_unique messages (λ m. text_eq m.id message_id)
    message_placed workspace_id channel_id row

  -- `if (dto.messageId) { ... }`
  abbrev pub ensure_given_message : Text → Option Text → Option Text → Action (Unit {0})
  ensure_given_message workspace_id message_id channel_id = elim (given message_id) [
    | none ↦ pure tt
    | some m ↦ ensure_message workspace_id m channel_id
  ]

  unfoldable pub ensure_file_access : Text → Option Text → Text → Action (Unit {0})
  ensure_file_access workspace_id channel_id user_id = do
    ensure_file_member workspace_id user_id
    ensure_given_channel workspace_id channel_id user_id

  unfoldable pub can_delete_file : Text → Text → Text → Action Bool
  can_delete_file workspace_id uploader_id user_id =
      if text_eq uploader_id user_id
      then pure true
      else (find_unique workspace_members (is_member workspace_id user_id) >>= λ row.
          pure (manages_as row))

  -- `!file || file.deletedAt`
  abbrev pub kept_file : Option File → Action File
  kept_file none = throw (not_found "File not found")
  kept_file (some f) = throw_if (is_some f.deleted_at) (not_found "File not found") >> pure f

  unfoldable pub get_file : Text → Text → Action File
  get_file file_id requester_id = do
    row ← find_unique files (λ f. text_eq f.id file_id)
    file ← kept_file row
    ensure_file_access file.workspace_id file.channel_id requester_id
    pure file

  unfoldable pub remove_file : Text → Text → Action Removal
  remove_file file_id requester_id = do
    row ← find_unique files (λ f. text_eq f.id file_id)
    file ← kept_file row
    ensure_file_access file.workspace_id file.channel_id requester_id
    may ← can_delete_file file.workspace_id file.uploader_id requester_id
    throw_if (not may) (forbidden "Only uploader, admin, or owner can delete file")
    removed ← update_row files (λ f. text_eq f.id file_id) (removed_at w.now)
    pure (record { id = removed.id; deleted = true; deleted_at = removed.deleted_at })

  module _ ⦃s : StoreSettings⦄ where
    unfoldable pub bucket_name : Text
    bucket_name = or_else s.s3_bucket (codes "synapsehub-files")

    -- `${uploaderUserId}/${Date.now()}-${dto.filename}`
    unfoldable pub object_key_for : Text → Text → Text
    object_key_for uploader_id filename =
        uploader_id ++ codes "/" ++ decimal w.now ++ codes "-" ++ filename

    abbrev pub file_row : UploadFile → Text → Text → File
    file_row dto uploader_id id = record {
      id = id;
      workspace_id = dto.workspace_id;
      uploader_id = uploader_id;
      channel_id = dto.channel_id;
      message_id = dto.message_id;
      filename = dto.filename;
      mime_type = dto.mime_type;
      size = dto.size;
      bucket = bucket_name;
      object_key = object_key_for uploader_id dto.filename;
      url =
          or_else s.s3_endpoint (codes "http://localhost:9000")
          ++ codes "/"
          ++ bucket_name
          ++ codes "/"
          ++ object_key_for uploader_id dto.filename;
      created_at = w.now;
      deleted_at = none;
    }

    unfoldable pub upload_file : UploadFile → Text → Action File
    upload_file dto uploader_id = do
      ensure_file_member dto.workspace_id uploader_id
      ensure_given_channel dto.workspace_id dto.channel_id uploader_id
      ensure_given_message dto.workspace_id dto.message_id dto.channel_id
      id ← new_id
      create_row files [] (file_row dto uploader_id id)
