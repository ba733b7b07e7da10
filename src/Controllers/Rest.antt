-- ===== src/Controllers/Rest.antt =====
-- messaging.controller.ts, channels.controller.ts, workspaces.controller.ts, files.controller.ts and
-- search.controller.ts: every route asks for the user first.
use synapse_hub.Action.{World, Action, ◌>>=◌}
use synapse_hub.Base.{Option, ℕ, Bool, List, some}
use synapse_hub.Channels.{
  CreateChannel, ChannelView, Membership, create_channel, create_direct_channel, list_channels,
  join_channel, leave_channel, archive_channel,
}
use synapse_hub.Controllers.{require_user_id, limit_or}
use synapse_hub.Email.{MailSettings}
use synapse_hub.Files.{UploadFile, Removal, StoreSettings, upload_file, get_file, remove_file}
use synapse_hub.Messaging.Access.{SerializedMessage}
use synapse_hub.Messaging.Bookmarks.{
  BookmarkView, ListedBookmark, create_bookmark, delete_bookmark, list_bookmarks,
}
use synapse_hub.Messaging.Drafts.{DraftReply, DraftRemoval, upsert_draft, list_drafts, delete_draft}
use synapse_hub.Messaging.Messages.{
  SendMessage, PinView, Typing, send_message, list_messages, edit_message, delete_message,
  pin_message, unpin_message, list_pins, typing, react_to_message,
}
use synapse_hub.Messaging.Scheduled.{
  ListedScheduled, schedule_message, list_scheduled_messages, cancel_scheduled_message,
}
use synapse_hub.Messaging.Threads.{create_thread, reply_in_thread, get_thread}
use synapse_hub.Pagination.{Number, Page}
use synapse_hub.Schema.{
  ScheduledMessageStatus, WorkspaceRole, Reaction, Thread, MessageDraft, ScheduledMessage, Channel,
  Workspace, WorkspaceInviteLink, WorkspaceMember, File,
}
use synapse_hub.Search.{
  IndexDocument, SearchType, Indexing, SearchPage, index_document, search_workspace,
}
use synapse_hub.Text.{Text}
use synapse_hub.Workspaces.{Acceptance, revoke_invite_link, accept_invite_link, set_role}
use synapse_hub.Workspaces.Creating.{
  CreateWorkspace, WorkspaceView, WorkspaceMemberView, create_workspace, list_workspaces,
  list_members,
}
use synapse_hub.Workspaces.Links.{
  CreateInviteLink, Invitation, InviteLinkView, LinkSettings, invite_to_workspace, role_or_member,
  create_invite_link, list_invite_links,
}

pub data MessagingRequest : Type 0 where
  post_message : SendMessage → MessagingRequest
  get_messages : Text → Option Text → Option Number → MessagingRequest
  patch_message : Text → Text → MessagingRequest
  delete_message_route post_pin delete_pin get_pins post_typing : Text → MessagingRequest
  post_reaction : Text → Text → MessagingRequest
  post_thread post_reply : Text → Text → MessagingRequest
  get_thread_route post_bookmark delete_bookmark_route : Text → MessagingRequest
  get_bookmarks : Text → Option Text → Option Text → Option Number → MessagingRequest
  put_draft : Text → Text → Option Text → MessagingRequest
  get_drafts : Text → Option Text → MessagingRequest
  delete_draft_route : Text → Option Text → MessagingRequest
  post_scheduled_message : Text → Text → Option ℕ → Option Text → MessagingRequest
  get_scheduled_messages :
      Text
      → Option Text
      → Option ScheduledMessageStatus
      → Option Text
      → Option Number
      → MessagingRequest
  post_scheduled_cancel : Text → MessagingRequest

pub data ChannelsRequest : Type 0 where
  post_channel : CreateChannel → ChannelsRequest
  post_direct : Text → Text → ChannelsRequest
  get_channels : Text → Option Text → Option Number → ChannelsRequest
  post_join post_leave post_archive : Text → ChannelsRequest

pub data WorkspacesRequest : Type 0 where
  post_workspace : CreateWorkspace → WorkspacesRequest
  get_workspaces : Option Text → Option Number → WorkspacesRequest
  get_members : Text → WorkspacesRequest
  post_invite : Text → Text → Option WorkspaceRole → WorkspacesRequest
  post_invite_link : Text → CreateInviteLink → WorkspacesRequest
  get_invite_links : Text → WorkspacesRequest
  post_revoke : Text → Text → WorkspacesRequest
  post_accept : Text → WorkspacesRequest
  patch_role : Text → Text → WorkspaceRole → WorkspacesRequest

pub data FilesRequest : Type 0 where
  post_upload : UploadFile → FilesRequest
  get_file_route delete_file_route : Text → FilesRequest

pub data SearchRequest : Type 0 where
  post_index : IndexDocument → SearchRequest
  get_search : Text → Text → Option SearchType → Option Text → Option Number → SearchRequest

-- What a route answers.
abbrev pub MessagingAnswer : MessagingRequest → Type 0
MessagingAnswer (post_message dto) = SerializedMessage
MessagingAnswer (get_messages c cursor limit) = Page SerializedMessage
MessagingAnswer (patch_message m content) = SerializedMessage
MessagingAnswer (delete_message_route m) = SerializedMessage
MessagingAnswer (post_pin m) = PinView
MessagingAnswer (delete_pin m) = Text × Bool
MessagingAnswer (get_pins c) = List PinView
MessagingAnswer (post_typing c) = Typing
MessagingAnswer (post_reaction m emoji) = Reaction
MessagingAnswer (post_thread m c) = Thread
MessagingAnswer (post_reply t content) = SerializedMessage
MessagingAnswer (get_thread_route t) = Thread × List SerializedMessage
MessagingAnswer (post_bookmark m) = BookmarkView
MessagingAnswer (delete_bookmark_route b) = Text × Bool
MessagingAnswer (get_bookmarks x c cursor limit) = Page ListedBookmark
MessagingAnswer (put_draft c content t) = DraftReply
MessagingAnswer (get_drafts x c) = List (MessageDraft × Option (Text × Text))
MessagingAnswer (delete_draft_route c t) = DraftRemoval
MessagingAnswer (post_scheduled_message c content at t) = ScheduledMessage
MessagingAnswer (get_scheduled_messages x c status cursor limit) = Page ListedScheduled
MessagingAnswer (post_scheduled_cancel m) = Text × ScheduledMessageStatus

abbrev pub ChannelsAnswer : ChannelsRequest → Type 0
ChannelsAnswer (post_channel dto) = Channel
ChannelsAnswer (post_direct x u) = ChannelView
ChannelsAnswer (get_channels x cursor limit) = Page ChannelView
ChannelsAnswer (post_join c) = Membership
ChannelsAnswer (post_leave c) = Membership
ChannelsAnswer (post_archive c) = Channel

abbrev pub WorkspacesAnswer : WorkspacesRequest → Type 0
WorkspacesAnswer (post_workspace dto) = Workspace
WorkspacesAnswer (get_workspaces cursor limit) = Page WorkspaceView
WorkspacesAnswer (get_members x) = List WorkspaceMemberView
WorkspacesAnswer (post_invite x email role) = Invitation
WorkspacesAnswer (post_invite_link x dto) = InviteLinkView
WorkspacesAnswer (get_invite_links x) = List InviteLinkView
WorkspacesAnswer (post_revoke x l) = WorkspaceInviteLink
WorkspacesAnswer (post_accept c) = Acceptance
WorkspacesAnswer (patch_role x u role) = WorkspaceMember

abbrev pub FilesAnswer : FilesRequest → Type 0
FilesAnswer (post_upload dto) = File
FilesAnswer (get_file_route f) = File
FilesAnswer (delete_file_route f) = Removal

abbrev pub SearchAnswer : SearchRequest → Type 0
SearchAnswer (post_index dto) = Indexing
SearchAnswer (get_search x q type cursor limit) = SearchPage

module _ ⦃w : World⦄ where
  unfoldable pub handle_messaging :
      Option Text → (r : MessagingRequest) → Action (MessagingAnswer r)
  handle_messaging user_id (post_message dto) = require_user_id user_id >>= λ u. send_message dto u
  handle_messaging user_id (get_messages c cursor limit) =
      require_user_id user_id >>= λ u. list_messages c u cursor (limit_or limit 50)
  handle_messaging user_id (patch_message m content) =
      require_user_id user_id >>= λ u. edit_message m content u
  handle_messaging user_id (delete_message_route m) =
      require_user_id user_id >>= λ u. delete_message m u
  handle_messaging user_id (post_pin m) = require_user_id user_id >>= λ u. pin_message m u
  handle_messaging user_id (delete_pin m) = require_user_id user_id >>= λ u. unpin_message m u
  handle_messaging user_id (get_pins c) = require_user_id user_id >>= λ u. list_pins c u
  handle_messaging user_id (post_typing c) = require_user_id user_id >>= λ u. typing c u
  handle_messaging user_id (post_reaction m emoji) =
      require_user_id user_id >>= λ u. react_to_message m u emoji
  handle_messaging user_id (post_thread m c) = require_user_id user_id >>= λ u. create_thread m c u
  handle_messaging user_id (post_reply t content) =
      require_user_id user_id >>= λ u. reply_in_thread t u content
  handle_messaging user_id (get_thread_route t) = require_user_id user_id >>= λ u. get_thread t u
  handle_messaging user_id (post_bookmark m) = require_user_id user_id >>= λ u. create_bookmark m u
  handle_messaging user_id (delete_bookmark_route b) =
      require_user_id user_id >>= λ u. delete_bookmark b u
  handle_messaging user_id (get_bookmarks x c cursor limit) =
      require_user_id user_id >>= λ u. list_bookmarks x u c cursor (limit_or limit 50)
  handle_messaging user_id (put_draft c content t) =
      require_user_id user_id >>= λ u. upsert_draft u c content t
  handle_messaging user_id (get_drafts x c) = require_user_id user_id >>= λ u. list_drafts u x c
  handle_messaging user_id (delete_draft_route c t) =
      require_user_id user_id >>= λ u. delete_draft u c t
  handle_messaging user_id (post_scheduled_message c content at t) =
      require_user_id user_id >>= λ u. schedule_message u c content at t
  handle_messaging user_id (get_scheduled_messages x c status cursor limit) =
      require_user_id user_id >>= λ u.
      list_scheduled_messages u x c status cursor (limit_or limit 50)
  handle_messaging user_id (post_scheduled_cancel m) =
      require_user_id user_id >>= λ u. cancel_scheduled_message m u

  unfoldable pub handle_files :
      ⦃s : StoreSettings⦄ → Option Text → (r : FilesRequest) → Action (FilesAnswer r)
  handle_files user_id (post_upload dto) = require_user_id user_id >>= λ u. upload_file dto u
  handle_files user_id (get_file_route f) = require_user_id user_id >>= λ u. get_file f u
  handle_files user_id (delete_file_route f) = require_user_id user_id >>= λ u. remove_file f u

  -- The order of texts of `localeCompare`, that of the database, and its search for a text.
  module _ (comes_after before finds : Text → Text → Bool) where
    unfoldable pub handle_channels : Option Text → (r : ChannelsRequest) → Action (ChannelsAnswer r)
    handle_channels user_id (post_channel dto) =
        require_user_id user_id >>= λ u. create_channel dto u
    handle_channels user_id (post_direct x target) =
        require_user_id user_id >>= λ u. create_direct_channel comes_after x u target
    handle_channels user_id (get_channels x cursor limit) =
        require_user_id user_id >>= λ u. list_channels before x u cursor (limit_or limit 50)
    handle_channels user_id (post_join c) = require_user_id user_id >>= λ u. join_channel c u
    handle_channels user_id (post_leave c) = require_user_id user_id >>= λ u. leave_channel c u
    handle_channels user_id (post_archive c) = require_user_id user_id >>= λ u. archive_channel c u

    unfoldable pub handle_search : Option Text → (r : SearchRequest) → Action (SearchAnswer r)
    handle_search user_id (post_index dto) =
        require_user_id user_id >>= λ u. index_document finds before dto u
    handle_search user_id (get_search x q type cursor limit) = require_user_id user_id >>= λ u.
        search_workspace finds before x q type cursor (limit_or limit 20) (some u)

    module _ ⦃s : LinkSettings⦄ ⦃m : MailSettings⦄ where
      unfoldable pub handle_workspaces :
          Option Text → (r : WorkspacesRequest) → Action (WorkspacesAnswer r)
      handle_workspaces user_id (post_workspace dto) =
          require_user_id user_id >>= λ u. create_workspace dto u
      handle_workspaces user_id (get_workspaces cursor limit) =
          require_user_id user_id >>= λ u. list_workspaces before u cursor (limit_or limit 20)
      handle_workspaces user_id (get_members x) = require_user_id user_id >>= λ u. list_members x u
      handle_workspaces user_id (post_invite x email role) =
          require_user_id user_id >>= λ u. invite_to_workspace x email (role_or_member role) u
      handle_workspaces user_id (post_invite_link x dto) =
          require_user_id user_id >>= λ u. create_invite_link x u dto
      handle_workspaces user_id (get_invite_links x) =
          require_user_id user_id >>= λ u. list_invite_links x u
      handle_workspaces user_id (post_revoke x l) =
          require_user_id user_id >>= λ u. revoke_invite_link x l u
      handle_workspaces user_id (post_accept c) =
          require_user_id user_id >>= λ u. accept_invite_link c u
      handle_workspaces user_id (patch_role x target role) =
          require_user_id user_id >>= λ u. set_role x target role u
