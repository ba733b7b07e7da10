-- ===== src/Channels/Archiving.antt =====
-- Who may archive a channel, and what that does to the access to its messages.

use synapse_hub.Action.{World, ok, err, not_found, bad_request, forbidden, Failure, Reply}
use synapse_hub.Action.Tables.{is_member}
use synapse_hub.Base.{
  ◌≡◌, some, false, true, map_where, arith, none, ◌⊎◌, Bool-cases, inl, inr, Option-cases, ap, All,
  sym, ◌∙◌, map_where_hit, refl,
}
use synapse_hub.Channels.{can_archive, archive_channel, ensure_channel}
use synapse_hub.Messaging.Access.{ensure_channel_access}
use synapse_hub.Messaging.Access.Laws.{channel_row, ensure_channel_access_cases}
use synapse_hub.Prisma.Memory.{after}
use synapse_hub.Schema.{Db, Channel, WorkspaceMember, is_direct}
use synapse_hub.Text.{Text, text_eq}

module _ ⦃w : World⦄ where
  archive_step :
      (channel_id actor_id : Text) (db : Db) (c : Channel) (m : WorkspaceMember)
      → channel_row channel_id db ≡ some c
      → is_direct c.type ≡ false
      → w.prisma.find_unique (is_member c.workspace_id actor_id) db.workspace_members ≡ some m
      → can_archive m.role actor_id c ≡ true
      → archive_channel channel_id actor_id db ≡ (
        ok (record c { is_archived = true }),
        record db {
          channels =
              map_where
                (λ x. text_eq x.id channel_id)
                (λ x. record x { is_archived = true })
                db.channels;
        },
      )
  unfolding archive_channel ensure_channel
  archive_step channel_id actor_id db c m found kind row may = ground (
    arith,
    w.prisma.update_many_lem (λ x. text_eq x.id channel_id) (λ x. record x { is_archived = true })
        db.channels,
  )

  archive_missing :
      (channel_id actor_id : Text) (db : Db)
      → channel_row channel_id db ≡ none
      → archive_channel channel_id actor_id db ≡ (err (not_found "Channel not found"), db)
  unfolding archive_channel ensure_channel
  archive_missing channel_id actor_id db missing = ground arith

  archive_direct :
      (channel_id actor_id : Text) (db : Db) (c : Channel)
      → channel_row channel_id db ≡ some c
      → is_direct c.type ≡ true
      → archive_channel channel_id actor_id db
        ≡ (err (bad_request "Direct channels cannot be archived"), db)
  unfolding archive_channel ensure_channel
  archive_direct channel_id actor_id db c found kind = ground arith

  archive_stranger :
      (channel_id actor_id : Text) (db : Db) (c : Channel)
      → channel_row channel_id db ≡ some c
      → is_direct c.type ≡ false
      → w.prisma.find_unique (is_member c.workspace_id actor_id) db.workspace_members ≡ none
      → archive_channel channel_id actor_id db
        ≡ (err (forbidden "User is not a member of this workspace"), db)
  unfolding archive_channel ensure_channel
  archive_stranger channel_id actor_id db c found kind row = ground arith

  archive_unprivileged :
      (channel_id actor_id : Text) (db : Db) (c : Channel) (m : WorkspaceMember)
      → channel_row channel_id db ≡ some c
      → is_direct c.type ≡ false
      → w.prisma.find_unique (is_member c.workspace_id actor_id) db.workspace_members ≡ some m
      → can_archive m.role actor_id c ≡ false
      → archive_channel channel_id actor_id db
        ≡ (err (forbidden "Only admins, owners, or channel creator can archive"), db)
  unfolding archive_channel ensure_channel
  archive_unprivileged channel_id actor_id db c m found kind row may = ground arith

  -- The actor is a member of the workspace of the channel, which is not direct, and is an owner or
  -- an administrator of it or the creator of the channel.
  abbrev pub MayArchive : Text → Text → Db → Type 0
  MayArchive channel_id actor_id db =
      (c : Channel) × (m : WorkspaceMember) × (channel_row channel_id db ≡ some c)
      × (is_direct c.type ≡ false)
      × (w.prisma.find_unique (is_member c.workspace_id actor_id) db.workspace_members ≡ some m)
      × (can_archive m.role actor_id c ≡ true)

  archive_cases_of :
      (channel_id actor_id : Text) (db : Db) (c : Channel)
      → channel_row channel_id db ≡ some c
      → MayArchive channel_id actor_id db
        ⊎ ((e : Failure) × (archive_channel channel_id actor_id db ≡ (err e, db)))
  archive_cases_of channel_id actor_id db c found =
      let row = w.prisma.find_unique (is_member c.workspace_id actor_id) db.workspace_members in
      elim (Bool-cases (is_direct c.type)) [
        | inl kind ↦ inr (
          bad_request "Direct channels cannot be archived",
          archive_direct channel_id actor_id db c found kind,
        )
        | inr kind ↦ elim (Option-cases row) [
          | inl out ↦ inr (
            forbidden "User is not a member of this workspace",
            archive_stranger channel_id actor_id db c found kind out,
          )
          | inr (m, inside) ↦ elim (Bool-cases (can_archive m.role actor_id c)) [
            | inl may ↦ inl (c, m, found, kind, inside, may)
            | inr may ↦ inr (
              forbidden "Only admins, owners, or channel creator can archive",
              archive_unprivileged channel_id actor_id db c m found kind inside may,
            )
          ]
        ]
      ]

  -- Archiving a channel either throws and changes nothing, or the actor may archive it, and then
  -- it flags the rows with that id and changes nothing else.
  pub archive_channel_cases :
      (channel_id actor_id : Text) (db : Db)
      → (MayArchive channel_id actor_id db
          × ((archive_channel channel_id actor_id db).1 ≡ record db {
            channels =
                map_where
                  (λ x. text_eq x.id channel_id)
                  (λ x. record x { is_archived = true })
                  db.channels;
          }))
        ⊎ ((e : Failure) × (archive_channel channel_id actor_id db ≡ (err e, db)))
  archive_channel_cases channel_id actor_id db = elim (Option-cases (channel_row channel_id db)) [
    | inl missing ↦
        inr (not_found "Channel not found", archive_missing channel_id actor_id db missing)
    | inr (c, found) ↦ elim (archive_cases_of channel_id actor_id db c found) [
      | inr denied ↦ inr denied
      | inl (c', m, found', kind, inside, may) ↦ inl (
        (c', m, found', kind, inside, may),
        ap (λ (r : Reply Channel × Db). r.1)
            (archive_step channel_id actor_id db c' m found' kind inside may),
      )
    ]
  ]

  archived_closed :
      (channel_id user_id : Text) (db : Db)
      → All (λ c. text_eq c.id channel_id ≡ true → c.is_archived ≡ true) db.channels
      → (e : Failure) × (ensure_channel_access channel_id user_id db ≡ (err e, db))
  archived_closed channel_id user_id db flagged =
      elim (ensure_channel_access_cases channel_id user_id db) [
        | inr denied ↦ denied
        | inl (ch, found, usable) ↦
            let (hit, inside) =
              w.prisma.find_unique_some (λ c. text_eq c.id channel_id) db.channels ch found in
            let shut =
              inside (λ c. text_eq c.id channel_id ≡ true → c.is_archived ≡ true) flagged in
            let closed = shut hit in let live = usable.0 in cc (live, closed)
      ]

  -- Once a channel has been archived, the messaging service refuses everybody the access to it.
  pub archived_channel_closed :
      (channel_id actor_id user_id : Text) (db : Db) (c : Channel)
      → (archive_channel channel_id actor_id db).0 ≡ ok c
      → let db' = (archive_channel channel_id actor_id db).1 in
        (e : Failure) × (ensure_channel_access channel_id user_id db' ≡ (err e, db'))
  archived_channel_closed channel_id actor_id user_id db c done =
      elim (archive_channel_cases channel_id actor_id db) [
        | inr (e, denied) ↦
            let clash : ok c ≡ err e = sym done ∙ ap (λ (r : Reply Channel × Db). r.0) denied in
            cc clash
        | inl (may, after) ↦
            let p = λ (x : Channel). text_eq x.id channel_id in
            let f = λ (x : Channel). record x { is_archived = true } in
            archived_closed channel_id user_id (archive_channel channel_id actor_id db).1
              (rw after (map_where_hit (λ x. x.is_archived ≡ true) p f db.channels (λ x. refl)))
      ]
