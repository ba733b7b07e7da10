-- ===== src/Tests/Services.antt =====
-- Files, notifications, profiles and searches on the sample.
use synapse_hub.Action.{Failure, err, ok, forbidden}
use synapse_hub.Action.Tables.{is_member, is_in_channel}
use synapse_hub.Base.{
  some, none, ◌∷◌, [], ◌≡◌, false, ◌⊎◌, is_some, true, refl, count, ◌+◌, if◌then◌else◌, any, All,
  ◌≢◌,
}
use synapse_hub.Files.{
  get_file, ensure_file_access, ensure_file_member, ensure_file_channel_access,
  ensure_channel_member,
}
use synapse_hub.Files.Reading.{is_readable, file_found, may_read, get_file_cases, channel_with_id}
use synapse_hub.Messaging.Access.{is_empty}
use synapse_hub.Notifications.{EmitNotification, is_unread_of, emit_notification}
use synapse_hub.Notifications.Unread.{emit_unread}
use synapse_hub.Pagination.{not_finite, Page, natural, page_cursor, cursor_row, bounded_limit}
use synapse_hub.Schema.{File, Db, mention, User, WorkspaceRole}
use synapse_hub.Search.{
  SearchPage, message_result, search_workspace, ensure_requester, search_all, search_messages,
  search_channels, search_users, search_files, view_found, sort_newest, put_newest, chunk_of,
  file_matches, file_hit, SearchResult, of_file,
}
use synapse_hub.Search.Finding.{search_files_reveals}
use synapse_hub.Tests.Sample.{office, quiet, greeting, general, alice, member_of, secret}
use synapse_hub.Text.{codes, text_eq, truthy, trim, drop_space, is_space}
use synapse_hub.Users.{find_users}
use synapse_hub.Users.Profiles.{find_users_members}

-- A file in the private channel, where only alice is.
abbrev plans : File
plans = record {
  id = codes "f";
  workspace_id = codes "w";
  uploader_id = codes "a";
  channel_id = some (codes "s");
  message_id = none;
  filename = codes "plans";
  mime_type = codes "text/plain";
  size = 12;
  bucket = codes "hub";
  object_key = codes "a/1-plans";
  url = codes "http://hub/a/1-plans";
  created_at = 6;
  deleted_at = none;
}

abbrev archive : Db
archive = record office { files = plans ∷ [] }

get_file_cases_example :
    ((is_readable ⦃w = quiet⦄ (codes "a") (file_found ⦃w = quiet⦄ (codes "f") archive) archive
        ≡ false)
      × (e : Failure) × (get_file ⦃w = quiet⦄ (codes "f") (codes "a") archive ≡ (err e, archive)))
    ⊎ ((f : File) × (file_found ⦃w = quiet⦄ (codes "f") archive ≡ some f)
        × (is_some f.deleted_at ≡ false)
        × (may_read ⦃w = quiet⦄ f.workspace_id f.channel_id (codes "a") archive ≡ true)
        × (get_file ⦃w = quiet⦄ (codes "f") (codes "a") archive ≡ (ok f, archive)))
get_file_cases_example = get_file_cases ⦃w = quiet⦄ (codes "f") (codes "a") archive

abbrev hello_bob : EmitNotification
hello_bob = record { user_id = codes "b"; type = mention; message = codes "hi"; entity_id = none }

bob_there :
    is_some ((quiet.prisma).find_unique (λ (x : User). text_eq x.id (codes "b")) office.users)
    ≡ true
unfolding text_eq
bob_there = refl

emit_unread_example :
    count
      (is_unread_of (codes "b"))
      (emit_notification ⦃w = quiet⦄ hello_bob office).1.notifications
    ≡ count (is_unread_of (codes "b")) office.notifications
      + (if text_eq (codes "b") (codes "b") then 1 else 0)
emit_unread_example = emit_unread ⦃w = quiet⦄ hello_bob (codes "b") office bob_there

w_given : truthy (codes "w") ≡ true
unfolding truthy
w_given = refl

b_given : truthy (codes "b") ≡ true
unfolding truthy
b_given = refl

-- A database that finds the texts that are equal.
find_users_members_example :
    ((any (is_member (codes "w") (codes "b")) office.workspace_members ≡ false)
      × (find_users ⦃w = quiet⦄ text_eq text_eq none none not_finite
            (some (codes "w"))
            (some (codes "b"))
            office
          ≡ (err (forbidden "User is not a member of this workspace"), office)))
    ⊎ ((any (is_member (codes "w") (codes "b")) office.workspace_members ≡ true)
        × (page : Page User) × (find_users ⦃w = quiet⦄ text_eq text_eq none none not_finite
              (some (codes "w"))
              (some (codes "b"))
              office
            ≡ (ok page, office))
        × All (λ u. any (is_member (codes "w") u.id) office.workspace_members ≡ true) page.rows)
find_users_members_example =
    find_users_members ⦃w = quiet⦄ text_eq text_eq none none not_finite (codes "w") (codes "b")
      office w_given b_given

abbrev greeting_page : SearchPage
greeting_page = record {
  results = message_result greeting (some general) (some alice) ∷ [];
  cursor = some (codes "m");
  limit = 1;
  total = 1;
}

greeting_found :
    (search_workspace ⦃w = quiet⦄ text_eq text_eq
      (codes "w")
      (codes "hello")
      none
      none
      (natural 1)
      (some (codes "a"))
      office).0
    ≡ ok greeting_page
unfolding search_workspace ensure_requester search_all search_messages search_channels search_users
    search_files view_found sort_newest put_newest chunk_of page_cursor cursor_row bounded_limit
    trim drop_space is_space text_eq
greeting_found = refl

plans_asked : is_empty (trim (codes "plans")) ≡ false
unfolding trim drop_space is_space
plans_asked = refl

plans_match : any (file_matches text_eq (codes "w") (trim (codes "plans"))) archive.files ≡ true
unfolding trim drop_space is_space text_eq
plans_match = refl

bob_inside :
    (quiet.prisma).find_unique (is_member (codes "w") (codes "b")) archive.workspace_members
    ≡ some (member_of "b" WorkspaceRole.member)
unfolding text_eq
bob_inside = refl

plans_found : file_found ⦃w = quiet⦄ (codes "f") archive ≡ some plans
unfolding text_eq
plans_found = refl

secret_found : channel_with_id ⦃w = quiet⦄ (codes "s") archive ≡ some secret
unfolding text_eq
secret_found = refl

bob_outside : any (is_in_channel (codes "s") (codes "b")) archive.channel_members ≡ false
unfolding text_eq
bob_outside = refl

search_files_reveals_example :
    ((page : SearchPage) × (search_workspace ⦃w = quiet⦄ text_eq text_eq
          (codes "w")
          (codes "plans")
          (some file_hit)
          none
          (natural 5)
          (some (codes "b"))
          archive
        ≡ (ok page, archive))
      × (page.results ≢ [])
      × All
          (λ (r : SearchResult).
            (r.id ≡ plans.id)
            × (r.metadata ≡ of_file plans.mime_type plans.size plans.channel_id plans.url))
          page.results)
    × ((e : Failure) × (get_file ⦃w = quiet⦄ (codes "f") (codes "b") archive ≡ (err e, archive)))
search_files_reveals_example =
    search_files_reveals ⦃w = quiet⦄ text_eq text_eq (codes "plans") (natural 5) plans secret
      (member_of "b" WorkspaceRole.member) (codes "b") (codes "s") archive plans_asked b_given
      bob_inside plans_match ((λ e. refl), tt) plans_found refl secret_found refl bob_outside

alice_reads : get_file ⦃w = quiet⦄ (codes "f") (codes "a") archive ≡ (ok plans, archive)
unfolding get_file ensure_file_access ensure_file_member ensure_file_channel_access
    ensure_channel_member text_eq
alice_reads = refl
