-- ===== src/Files/Reading.antt =====
-- Who may read and remove a file.
use synapse_hub.Action.{World, Action, ok, Failure, err, forbidden, not_found}
use synapse_hub.Action.Tables.{is_in_channel, is_member}
use synapse_hub.Auth.Cases.{refused}
use synapse_hub.Base.{
  Option, Bool, none, false, some, ◌&&◌, not, ◌||◌, any, true, ◌≡◌, ◌⊎◌, Option-cases, inl, inr,
  arith, Bool-cases, is_some, map_where,
}
use synapse_hub.Files.{
  ensure_file_member, ensure_channel_member, ensure_file_channel_access, ensure_file_access,
  get_file, manages_as, can_delete_file, removed_at, remove_file,
}
use synapse_hub.Prisma.Laws.{find_unique-any}
use synapse_hub.Schema.{Db, Channel, is_public, File}
use synapse_hub.Text.{Text, text_eq, given}

module _ ⦃w : World⦄ where
  abbrev pub channel_with_id : Text → Db → Option Channel
  channel_with_id channel_id db = w.prisma.find_unique (λ c. text_eq c.id channel_id) db.channels

  -- A channel of the workspace that is not archived, and public or with the user as a member.
  abbrev pub admits : Text → Text → Text → Db → Option Channel → Bool
  admits workspace_id channel_id user_id db none = false
  admits workspace_id channel_id user_id db (some c) =
      text_eq c.workspace_id workspace_id
      && not c.is_archived
      && (is_public c.type || any (is_in_channel channel_id user_id) db.channel_members)

  -- The user is a member of the workspace, and a channel that is given admits them.
  abbrev pub may_read : Text → Option Text → Text → Db → Bool
  may_read workspace_id channel_id user_id db =
      any (is_member workspace_id user_id) db.workspace_members && elim (given channel_id) [
        | none ↦ true
        | some c ↦ admits workspace_id c user_id db (channel_with_id c db)
      ]

  -- A check that passes exactly where a test holds, and changes nothing.
  abbrev pub Checks : Action (Unit {0}) → Bool → Db → Type 0
  Checks m b db =
      ((b ≡ true) × (m db ≡ (ok tt, db))) ⊎ ((b ≡ false) × (e : Failure) × (m db ≡ (err e, db)))

  file_member-Checks :
      (workspace_id user_id : Text) (db : Db)
      → Checks
          (ensure_file_member workspace_id user_id)
          (any (is_member workspace_id user_id) db.workspace_members)
          db
  unfolding ensure_file_member
  file_member-Checks workspace_id user_id db =
      let any_row =
        find_unique-any w.prisma (is_member workspace_id user_id) db.workspace_members in
      elim (Option-cases
        (w.prisma.find_unique (is_member workspace_id user_id) db.workspace_members)) [
          | inl out ↦
              inr (ground arith, forbidden "User is not a member of this workspace", ground arith)
          | inr (m, found) ↦ inl (ground arith, ground arith)
        ]

  channel_member-Checks :
      (channel_id user_id : Text) (db : Db)
      → Checks
          (ensure_channel_member channel_id user_id)
          (any (is_in_channel channel_id user_id) db.channel_members)
          db
  unfolding ensure_channel_member
  channel_member-Checks channel_id user_id db =
      let any_row =
        find_unique-any w.prisma (is_in_channel channel_id user_id) db.channel_members in
      elim (Option-cases
        (w.prisma.find_unique (is_in_channel channel_id user_id) db.channel_members)) [
          | inl out ↦
              inr (ground arith, forbidden "User is not a member of this channel", ground arith)
          | inr (m, found) ↦ inl (ground arith, ground arith)
        ]

  file_channel-Checks :
      (workspace_id channel_id user_id : Text) (db : Db)
      → Checks
          (ensure_file_channel_access workspace_id channel_id user_id)
          (admits workspace_id channel_id user_id db (channel_with_id channel_id db))
          db
  unfolding ensure_file_channel_access
  file_channel-Checks workspace_id channel_id user_id db =
      elim (Option-cases (channel_with_id channel_id db)) [
        | inl gone ↦ inr (ground arith, not_found "Channel not found in workspace", ground arith)
        | inr (c, found) ↦
            elim (Bool-cases (not (text_eq c.workspace_id workspace_id) || c.is_archived)) [
              | inl shut ↦
                  inr (ground arith, not_found "Channel not found in workspace", ground arith)
              | inr fine ↦ elim (Bool-cases (is_public c.type)) [
                | inl everybody ↦ inl (ground arith, ground arith)
                | inr closed ↦ elim (channel_member-Checks channel_id user_id db) [
                  | inl (inside, e) ↦ inl (ground arith, ground arith)
                  | inr (outside, f, e) ↦ inr (ground arith, f, ground arith)
                ]
              ]
            ]
      ]

  pub ensure_file_access-Checks :
      (workspace_id : Text) (channel_id : Option Text) (user_id : Text) (db : Db)
      → Checks
          (ensure_file_access workspace_id channel_id user_id)
          (may_read workspace_id channel_id user_id db)
          db
  unfolding ensure_file_access
  ensure_file_access-Checks workspace_id channel_id user_id db =
      elim (file_member-Checks workspace_id user_id db) [
        | inr (out, f, e) ↦ inr (ground arith, f, ground arith)
        | inl (in_it, e) ↦ elim (Option-cases (given channel_id)) [
          | inl no_channel ↦ inl (ground arith, ground arith)
          | inr (c, there) ↦ elim (file_channel-Checks workspace_id c user_id db) [
            | inl (shown, g) ↦ inl (ground arith, ground arith)
            | inr (shut, f, g) ↦ inr (ground arith, f, ground arith)
          ]
        ]
      ]

  abbrev pub file_found : Text → Db → Option File
  file_found file_id db = w.prisma.find_unique (λ f. text_eq f.id file_id) db.files

  -- The file is there, not deleted, and the user may read it.
  abbrev pub is_readable : Text → Option File → Db → Bool
  is_readable user_id none db = false
  is_readable user_id (some f) db =
      not (is_some f.deleted_at) && may_read f.workspace_id f.channel_id user_id db

  -- Asking for a file changes nothing. It gives the row of the file where the file is there, not
  -- deleted, and the user may read it: they are a member of its workspace and, where it is in a
  -- channel, that channel is of the workspace, open, and public or with the user as a member.
  -- Otherwise it throws.
  pub get_file_cases :
      (file_id user_id : Text) (db : Db)
      → ((is_readable user_id (file_found file_id db) db ≡ false)
          × (e : Failure) × (get_file file_id user_id db ≡ (err e, db)))
        ⊎ ((f : File) × (file_found file_id db ≡ some f)
            × (is_some f.deleted_at ≡ false)
            × (may_read f.workspace_id f.channel_id user_id db ≡ true)
            × (get_file file_id user_id db ≡ (ok f, db)))
  unfolding get_file
  get_file_cases file_id user_id db = elim (Option-cases (file_found file_id db)) [
    | inl gone ↦ inl (ground arith, not_found "File not found", ground arith)
    | inr (f, found) ↦ elim (Bool-cases (is_some f.deleted_at)) [
      | inl removed ↦ inl (ground arith, not_found "File not found", ground arith)
      | inr kept ↦ elim (ensure_file_access-Checks f.workspace_id f.channel_id user_id db) [
        | inl (may, e) ↦ inr (f, found, kept, may, ground arith)
        | inr (may_not, g, e) ↦ inl (ground arith, g, ground arith)
      ]
    ]
  ]

  -- The uploader, or an owner or administrator of the workspace.
  abbrev pub may_delete : File → Text → Db → Bool
  may_delete f user_id db =
      text_eq f.uploader_id user_id
      || manages_as (w.prisma.find_unique (is_member f.workspace_id user_id) db.workspace_members)

  can_delete_lem :
      (f : File) (user_id : Text) (db : Db)
      → can_delete_file f.workspace_id f.uploader_id user_id db ≡ (ok (may_delete f user_id db), db)
  unfolding can_delete_file
  can_delete_lem f user_id db = ground arith

  abbrev pub without_file : Text → Db → Db
  without_file file_id db = record db {
    files = map_where (λ f. text_eq f.id file_id) (removed_at w.now) db.files;
  }

  -- Removing a file either throws and changes nothing, or the user may read the file and is its
  -- uploader or manages its workspace, and then it is marked as removed and nothing else changes.
  pub remove_file_cases :
      (file_id user_id : Text) (db : Db)
      → ((e : Failure) × (remove_file file_id user_id db ≡ (err e, db)))
        ⊎ ((f : File) × (file_found file_id db ≡ some f)
            × (may_read f.workspace_id f.channel_id user_id db ≡ true)
            × (may_delete f user_id db ≡ true)
            × ((remove_file file_id user_id db).1 ≡ without_file file_id db))
  unfolding remove_file
  remove_file_cases file_id user_id db = elim (Option-cases (file_found file_id db)) [
    | inl gone ↦ inl (not_found "File not found", ground arith)
    | inr (f, found) ↦ elim (Bool-cases (is_some f.deleted_at)) [
      | inl removed ↦ inl (not_found "File not found", ground arith)
      | inr kept ↦ elim (ensure_file_access-Checks f.workspace_id f.channel_id user_id db) [
        | inr (may_not, g, e) ↦ inl (g, ground arith)
        | inl (may, e) ↦
            let asked = can_delete_lem f user_id db in
            elim (Bool-cases (may_delete f user_id db)) [
              | inr refused ↦
                  inl (forbidden "Only uploader, admin, or owner can delete file", ground arith)
              | inl allowed ↦ inr (
                f,
                found,
                may,
                allowed,
                ground (
                  arith,
                  w.prisma.update_many_lem (λ (x : File). text_eq x.id file_id) (removed_at w.now)
                      db.files,
                ),
              )
            ]
      ]
    ]
  ]
