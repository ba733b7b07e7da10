-- ===== src/Controllers/Headers.antt =====
-- What the headers of a request decide.
use synapse_hub.Action.{Failure, unauthorized, World, Action, ◌>>=◌, err, forbidden, ok}
use synapse_hub.Base.{
  Bool, Option, ◌≡◌, none, arith, some, true, false, ◌⊎◌, All, count, Bool-cases, inr, inl, ltb,
  refl,
}
use synapse_hub.Channels.{
  create_channel, create_direct_channel, list_channels, join_channel, leave_channel,
  archive_channel,
}
use synapse_hub.Controllers.{require_user_id, limit_or}
use synapse_hub.Controllers.People.{
  handle_notifications, get_notifications, handle_users, get_user, patch_user,
}
use synapse_hub.Controllers.Rest.{
  MessagingRequest, handle_messaging, post_message, get_messages, patch_message,
  delete_message_route, post_pin, delete_pin, get_pins, post_typing, post_reaction, post_thread,
  post_reply, get_thread_route, post_bookmark, delete_bookmark_route, get_bookmarks, put_draft,
  get_drafts, delete_draft_route, post_scheduled_message, get_scheduled_messages,
  post_scheduled_cancel, ChannelsRequest, handle_channels, post_channel, post_direct, get_channels,
  post_join, post_leave, post_archive, WorkspacesRequest, handle_workspaces, post_workspace,
  get_workspaces, get_members, post_invite, post_invite_link, get_invite_links, post_revoke,
  post_accept, patch_role, FilesRequest, handle_files, post_upload, get_file_route,
  delete_file_route, SearchRequest, handle_search, post_index, get_search,
}
use synapse_hub.Email.{MailSettings}
use synapse_hub.Files.{StoreSettings, upload_file, get_file, remove_file}
use synapse_hub.Messaging.Bookmarks.{create_bookmark, delete_bookmark, list_bookmarks}
use synapse_hub.Messaging.Drafts.{upsert_draft, list_drafts, delete_draft}
use synapse_hub.Messaging.Messages.{
  send_message, list_messages, edit_message, delete_message, pin_message, unpin_message, list_pins,
  typing, react_to_message,
}
use synapse_hub.Messaging.Scheduled.{
  schedule_message, list_scheduled_messages, cancel_scheduled_message,
}
use synapse_hub.Messaging.Threads.{create_thread, reply_in_thread, get_thread}
use synapse_hub.Notifications.{Inbox, is_unread_of, list_notifications}
use synapse_hub.Pagination.{Number, bounded_limit, cursor_row, page_cursor}
use synapse_hub.Prisma.{Query}
use synapse_hub.Schema.{Db, Notification, User}
use synapse_hub.Search.{index_document, search_workspace}
use synapse_hub.Text.{Text, given, truthy, text_eq, given-truthy, text_eq_sound}
use synapse_hub.Users.{UpdateUser, get_user_by_id}
use synapse_hub.Workspaces.{revoke_invite_link, accept_invite_link, set_role}
use synapse_hub.Workspaces.Creating.{create_workspace, list_workspaces, list_members}
use synapse_hub.Workspaces.Links.{
  LinkSettings, invite_to_workspace, role_or_member, create_invite_link, list_invite_links,
}

abbrev pub missing_user : Failure
missing_user = unauthorized "Missing x-user-id header"

module _ ⦃w : World⦄ (comes_after before finds : Text → Text → Bool) where
  unnamed :
      {A : Type 0} (user_id : Option Text) (f : Text → Action A) (db : Db)
      → given user_id ≡ none
      → (require_user_id user_id >>= f) db ≡ (err missing_user, db)
  unfolding require_user_id
  unnamed user_id f db nobody = ground arith

  -- Every route of messaging.controller.ts asks for the user.
  unnamed_messaging :
      (user_id : Option Text) (r : MessagingRequest) (db : Db)
      → given user_id ≡ none
      → handle_messaging user_id r db ≡ (err missing_user, db)
  unfolding handle_messaging
  unnamed_messaging user_id (post_message dto) db nobody =
      unnamed user_id (λ u. send_message dto u) db nobody
  unnamed_messaging user_id (get_messages c cursor limit) db nobody =
      unnamed user_id (λ u. list_messages c u cursor (limit_or limit 50)) db nobody
  unnamed_messaging user_id (patch_message m content) db nobody =
      unnamed user_id (λ u. edit_message m content u) db nobody
  unnamed_messaging user_id (delete_message_route m) db nobody =
      unnamed user_id (λ u. delete_message m u) db nobody
  unnamed_messaging user_id (post_pin m) db nobody =
      unnamed user_id (λ u. pin_message m u) db nobody
  unnamed_messaging user_id (delete_pin m) db nobody =
      unnamed user_id (λ u. unpin_message m u) db nobody
  unnamed_messaging user_id (get_pins c) db nobody = unnamed user_id (λ u. list_pins c u) db nobody
  unnamed_messaging user_id (post_typing c) db nobody = unnamed user_id (λ u. typing c u) db nobody
  unnamed_messaging user_id (post_reaction m emoji) db nobody =
      unnamed user_id (λ u. react_to_message m u emoji) db nobody
  unnamed_messaging user_id (post_thread m c) db nobody =
      unnamed user_id (λ u. create_thread m c u) db nobody
  unnamed_messaging user_id (post_reply t content) db nobody =
      unnamed user_id (λ u. reply_in_thread t u content) db nobody
  unnamed_messaging user_id (get_thread_route t) db nobody =
      unnamed user_id (λ u. get_thread t u) db nobody
  unnamed_messaging user_id (post_bookmark m) db nobody =
      unnamed user_id (λ u. create_bookmark m u) db nobody
  unnamed_messaging user_id (delete_bookmark_route b) db nobody =
      unnamed user_id (λ u. delete_bookmark b u) db nobody
  unnamed_messaging user_id (get_bookmarks x c cursor limit) db nobody =
      unnamed user_id (λ u. list_bookmarks x u c cursor (limit_or limit 50)) db nobody
  unnamed_messaging user_id (put_draft c content t) db nobody =
      unnamed user_id (λ u. upsert_draft u c content t) db nobody
  unnamed_messaging user_id (get_drafts x c) db nobody =
      unnamed user_id (λ u. list_drafts u x c) db nobody
  unnamed_messaging user_id (delete_draft_route c t) db nobody =
      unnamed user_id (λ u. delete_draft u c t) db nobody
  unnamed_messaging user_id (post_scheduled_message c content at t) db nobody =
      unnamed user_id (λ u. schedule_message u c content at t) db nobody
  unnamed_messaging user_id (get_scheduled_messages x c status cursor limit) db nobody =
      unnamed user_id (λ u. list_scheduled_messages u x c status cursor (limit_or limit 50)) db
        nobody
  unnamed_messaging user_id (post_scheduled_cancel m) db nobody =
      unnamed user_id (λ u. cancel_scheduled_message m u) db nobody

  -- Every route of channels.controller.ts asks for the user.
  unnamed_channels :
      (user_id : Option Text) (r : ChannelsRequest) (db : Db)
      → given user_id ≡ none
      → handle_channels comes_after before finds user_id r db ≡ (err missing_user, db)
  unfolding handle_channels
  unnamed_channels user_id (post_channel dto) db nobody =
      unnamed user_id (λ u. create_channel dto u) db nobody
  unnamed_channels user_id (post_direct x target) db nobody =
      unnamed user_id (λ u. create_direct_channel comes_after x u target) db nobody
  unnamed_channels user_id (get_channels x cursor limit) db nobody =
      unnamed user_id (λ u. list_channels before x u cursor (limit_or limit 50)) db nobody
  unnamed_channels user_id (post_join c) db nobody =
      unnamed user_id (λ u. join_channel c u) db nobody
  unnamed_channels user_id (post_leave c) db nobody =
      unnamed user_id (λ u. leave_channel c u) db nobody
  unnamed_channels user_id (post_archive c) db nobody =
      unnamed user_id (λ u. archive_channel c u) db nobody

  -- Every route of workspaces.controller.ts asks for the user.
  unnamed_workspaces :
      ⦃s : LinkSettings⦄ ⦃m : MailSettings⦄ (user_id : Option Text) (r : WorkspacesRequest)
      (db : Db)
      → given user_id ≡ none
      → handle_workspaces comes_after before finds user_id r db ≡ (err missing_user, db)
  unfolding handle_workspaces
  unnamed_workspaces user_id (post_workspace dto) db nobody =
      unnamed user_id (λ u. create_workspace dto u) db nobody
  unnamed_workspaces user_id (get_workspaces cursor limit) db nobody =
      unnamed user_id (λ u. list_workspaces before u cursor (limit_or limit 20)) db nobody
  unnamed_workspaces user_id (get_members x) db nobody =
      unnamed user_id (λ u. list_members x u) db nobody
  unnamed_workspaces user_id (post_invite x email role) db nobody =
      unnamed user_id (λ u. invite_to_workspace x email (role_or_member role) u) db nobody
  unnamed_workspaces user_id (post_invite_link x dto) db nobody =
      unnamed user_id (λ u. create_invite_link x u dto) db nobody
  unnamed_workspaces user_id (get_invite_links x) db nobody =
      unnamed user_id (λ u. list_invite_links x u) db nobody
  unnamed_workspaces user_id (post_revoke x l) db nobody =
      unnamed user_id (λ u. revoke_invite_link x l u) db nobody
  unnamed_workspaces user_id (post_accept c) db nobody =
      unnamed user_id (λ u. accept_invite_link c u) db nobody
  unnamed_workspaces user_id (patch_role x target role) db nobody =
      unnamed user_id (λ u. set_role x target role u) db nobody

  -- Every route of files.controller.ts asks for the user.
  unnamed_files :
      ⦃s : StoreSettings⦄ (user_id : Option Text) (r : FilesRequest) (db : Db)
      → given user_id ≡ none
      → handle_files user_id r db ≡ (err missing_user, db)
  unfolding handle_files
  unnamed_files user_id (post_upload dto) db nobody =
      unnamed user_id (λ u. upload_file dto u) db nobody
  unnamed_files user_id (get_file_route f) db nobody = unnamed user_id (λ u. get_file f u) db nobody
  unnamed_files user_id (delete_file_route f) db nobody =
      unnamed user_id (λ u. remove_file f u) db nobody

  -- Every route of search.controller.ts asks for the user.
  unnamed_search :
      (user_id : Option Text) (r : SearchRequest) (db : Db)
      → given user_id ≡ none
      → handle_search comes_after before finds user_id r db ≡ (err missing_user, db)
  unfolding handle_search
  unnamed_search user_id (post_index dto) db nobody =
      unnamed user_id (λ u. index_document finds before dto u) db nobody
  unnamed_search user_id (get_search x q type cursor limit) db nobody =
      unnamed user_id
        (λ u. search_workspace finds before x q type cursor (limit_or limit 20) (some u)) db nobody

  -- A request without the header of the user, or with an empty one, is refused by each of the 41
  -- routes of the messaging, channel, workspace, file and search services, and changes nothing.
  pub unnamed_changes_nothing :
      ⦃l : LinkSettings⦄ ⦃m : MailSettings⦄ ⦃s : StoreSettings⦄ (user_id : Option Text)
      (a : MessagingRequest) (b : ChannelsRequest) (c : WorkspacesRequest) (d : FilesRequest)
      (e : SearchRequest) (db : Db)
      → given user_id ≡ none
      → (handle_messaging user_id a db ≡ (err missing_user, db))
        × (handle_channels comes_after before finds user_id b db ≡ (err missing_user, db))
        × (handle_workspaces comes_after before finds user_id c db ≡ (err missing_user, db))
        × (handle_files user_id d db ≡ (err missing_user, db))
        × (handle_search comes_after before finds user_id e db ≡ (err missing_user, db))
  unnamed_changes_nothing user_id a b c d e db nobody = (
    unnamed_messaging user_id a db nobody,
    unnamed_channels user_id b db nobody,
    unnamed_workspaces user_id c db nobody,
    unnamed_files user_id d db nobody,
    unnamed_search user_id e db nobody,
  )

module _ ⦃w : World⦄ where
  -- A user lists only their own notifications: for another user's the route refuses, and for their
  -- own it shows rows of theirs only and counts how many of theirs are unread. Nothing changes.
  pub get_notifications_own :
      (requester u : Text) (cursor : Option Text) (limit : Option Number) (db : Db)
      → truthy requester ≡ true
      → ((text_eq requester u ≡ false)
          × (handle_notifications (some requester) (get_notifications u cursor limit) db
              ≡ (err (forbidden "Cannot access notifications of another user"), db)))
        ⊎ ((requester ≡ u)
            × (inbox : Inbox) × (handle_notifications
                  (some requester)
                  (get_notifications u cursor limit)
                  db
                ≡ (ok inbox, db))
            × All (λ n. text_eq n.user_id u ≡ true) inbox.page.rows
            × (inbox.unread_count ≡ count (is_unread_of u) db.notifications))
  unfolding handle_notifications require_user_id list_notifications
  get_notifications_own requester u cursor limit db named =
      let known = given-truthy requester named in
      elim (Bool-cases (text_eq requester u)) [
        | inr other ↦ inl (other, ground arith)
        | inl own ↦
            let bounded = bounded_limit (limit_or limit 20) 20 100 in
            let q : Query Notification = record {
              matches = λ n. text_eq n.user_id u;
              precedes = λ a b. ltb b.created_at a.created_at;
              cursor = cursor_row (λ n. n.id) cursor;
              limit = some bounded;
            } in
            let rows = w.prisma.find_many q db.notifications in
            let inbox : Inbox = record {
              page = record {
                rows = rows;
                cursor = page_cursor (λ n. n.id) rows bounded;
                limit = bounded;
              };
              unread_count = w.prisma.count_rows (is_unread_of u) db.notifications;
            } in
            inr (
              text_eq_sound requester u own,
              inbox,
              ground arith,
              w.prisma.find_many_matches q db.notifications,
              w.prisma.count_rows_lem (is_unread_of u) db.notifications,
            )
      ]

  -- A request that names no user reads the whole row of any user, the hash of the password with it,
  -- while the change of a profile is refused to it.
  pub unnamed_reads_hash :
      (finds before : Text → Text → Bool) (id : Text) (dto : UpdateUser) (u : User) (secret : Text)
      (db : Db)
      → w.prisma.find_unique (λ x. text_eq x.id id) db.users ≡ some u
      → u.password_hash ≡ some secret
      → ((row : User) × (handle_users finds before none (get_user id) db ≡ (ok row, db))
          × (row.password_hash ≡ some secret))
        × (handle_users finds before none (patch_user id dto) db ≡ (err missing_user, db))
  unfolding handle_users get_user_by_id require_user_id
  unnamed_reads_hash finds before id dto u secret db found hash = ((u, ground arith, hash), refl)
