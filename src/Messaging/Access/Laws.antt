-- ===== src/Messaging/Access/Laws.antt =====
-- Who may use a channel, and that the checks change nothing.

use synapse_hub.Action.{World, ok, err, not_found, Reply, Failure}
use synapse_hub.Action.Tables.{is_member, is_in_channel}
use synapse_hub.Base.{
  Option, ◌≡◌, false, any, true, ◌⊎◌, is_some, not, refl, Bool-cases, List, [], ◌↔◌, ◌∷◌, inl, inr,
  some, arith, none, Option-cases,
}
use synapse_hub.Messaging.Access.{
  ChannelAccess, is_empty, members_of, ensure_channel_access, ensure_message_access,
}
use synapse_hub.Prisma.Laws.{find_unique-any, find_many-nil_iff}
use synapse_hub.Schema.{Db, Channel, is_public, ChannelMember, Message}
use synapse_hub.Text.{Text, text_eq}

module _ ⦃w : World⦄ where
  -- The row that the check of a channel reads.
  abbrev pub channel_row : Text → Db → Option Channel
  channel_row channel_id db = w.prisma.find_unique (λ c. text_eq c.id channel_id) db.channels

  abbrev pub access_of : Channel → ChannelAccess
  access_of ch = record { id = ch.id; workspace_id = ch.workspace_id; type = ch.type }

  -- The user belongs to the workspace, and to the channel if it is not public.
  abbrev pub MayUse : Channel → Text → Db → Type 0
  MayUse ch user_id db =
      (ch.is_archived ≡ false)
      × (any (is_member ch.workspace_id user_id) db.workspace_members ≡ true)
      × ((is_public ch.type ≡ true) ⊎ (any (is_in_channel ch.id user_id) db.channel_members ≡ true))

  pub member_found :
      (workspace_id user_id : Text) (db : Db)
      → is_some (w.prisma.find_unique (is_member workspace_id user_id) db.workspace_members)
        ≡ any (is_member workspace_id user_id) db.workspace_members
  member_found workspace_id user_id db =
      find_unique-any w.prisma (is_member workspace_id user_id) db.workspace_members

  empty-any :
      (channel_id user_id : Text) (db : Db)
      → is_empty (w.prisma.find_many (members_of channel_id user_id) db.channel_members)
        ≡ not (any (is_in_channel channel_id user_id) db.channel_members)
  empty-any channel_id user_id db =
      let q = members_of channel_id user_id in
      let iff = find_many-nil_iff w.prisma q db.channel_members refl (λ e. cc) in
      go (w.prisma.find_many q db.channel_members) iff
        (Bool-cases (any (is_in_channel channel_id user_id) db.channel_members))
    where
      go :
          (l : List ChannelMember)
          → ((l ≡ []) ↔ (any (is_in_channel channel_id user_id) db.channel_members ≡ false))
          → ((any (is_in_channel channel_id user_id) db.channel_members ≡ true)
              ⊎ (any (is_in_channel channel_id user_id) db.channel_members ≡ false))
          → is_empty l ≡ not (any (is_in_channel channel_id user_id) db.channel_members)
      go [] iff c = rw (iff.0 refl)
      go (x ∷ l) iff (inl e) = rw e
      go (x ∷ l) iff (inr e) = let h = iff.1 e in cc h

  -- The check passes for a user of a channel that exists exactly when it is not archived, the user
  -- is a member of its workspace, and the channel is public or has the user as a member; it
  -- returns the id, the workspace and the type of the channel, and leaves the database alone.
  pub ensure_channel_access_iff :
      (channel_id user_id : Text) (db : Db) (ch : Channel)
      → channel_row channel_id db ≡ some ch
      → (ensure_channel_access channel_id user_id db ≡ (ok (access_of ch), db))
        ↔ MayUse ch user_id db
  unfolding ensure_channel_access
  ensure_channel_access_iff channel_id user_id db ch found = (
    (λ e. ground (arith, member_found ch.workspace_id user_id db, empty-any ch.id user_id db)),
    (λ h. ground (arith, member_found ch.workspace_id user_id db, empty-any ch.id user_id db)),
  )

  -- The check of a channel writes nothing, whether it passes or throws.
  pub ensure_channel_access_reads :
      (channel_id user_id : Text) (db : Db) → (ensure_channel_access channel_id user_id db).1 ≡ db
  unfolding ensure_channel_access
  ensure_channel_access_reads channel_id user_id db = ground arith

  -- The channel exists, and the user may use it.
  abbrev pub Allowed : Text → Text → Db → Type 0
  Allowed channel_id user_id db =
      (ch : Channel) × (channel_row channel_id db ≡ some ch) × MayUse ch user_id db

  access_missing :
      (channel_id user_id : Text) (db : Db)
      → channel_row channel_id db ≡ none
      → ensure_channel_access channel_id user_id db ≡ (err (not_found "Channel not found"), db)
  unfolding ensure_channel_access
  access_missing channel_id user_id db missing = ground arith

  access_granted :
      (channel_id user_id : Text) (db : Db) (ch : Channel) (a : ChannelAccess)
      → channel_row channel_id db ≡ some ch
      → (ensure_channel_access channel_id user_id db).0 ≡ ok a
      → ensure_channel_access channel_id user_id db ≡ (ok (access_of ch), db)
  unfolding ensure_channel_access
  access_granted channel_id user_id db ch a found granted = ground arith

  access_verdict :
      (channel_id user_id : Text) (db : Db) (ch : Channel) (r : Reply ChannelAccess)
      → channel_row channel_id db ≡ some ch
      → (ensure_channel_access channel_id user_id db).0 ≡ r
      → Allowed channel_id user_id db
        ⊎ ((e : Failure) × (ensure_channel_access channel_id user_id db ≡ (err e, db)))
  access_verdict channel_id user_id db ch (err e) found h =
      inr (e, λ i. (h i, ensure_channel_access_reads channel_id user_id db i))
  access_verdict channel_id user_id db ch (ok a) found h = inl (
    ch,
    found,
    (ensure_channel_access_iff channel_id user_id db ch found).0
        (access_granted channel_id user_id db ch a found h),
  )

  -- The check either finds the user allowed or throws, and then nothing has changed.
  pub ensure_channel_access_cases :
      (channel_id user_id : Text) (db : Db)
      → Allowed channel_id user_id db
        ⊎ ((e : Failure) × (ensure_channel_access channel_id user_id db ≡ (err e, db)))
  ensure_channel_access_cases channel_id user_id db =
      elim (Option-cases (channel_row channel_id db)) [
        | inl missing ↦
            inr (not_found "Channel not found", access_missing channel_id user_id db missing)
        | inr (ch, found) ↦
            access_verdict channel_id user_id db ch (ensure_channel_access channel_id user_id db).0
              found refl
      ]

  abbrev pub message_found : Text → Db → Option Message
  message_found message_id db = w.prisma.find_unique (λ m. text_eq m.id message_id) db.messages

  message_missing :
      (message_id user_id : Text) (db : Db)
      → message_found message_id db ≡ none
      → ensure_message_access message_id user_id db ≡ (err (not_found "Message not found"), db)
  unfolding ensure_message_access
  message_missing message_id user_id db missing = ground arith

  message_denied :
      (message_id user_id : Text) (db : Db) (m : Message) (e : Failure)
      → message_found message_id db ≡ some m
      → ensure_channel_access m.channel_id user_id db ≡ (err e, db)
      → ensure_message_access message_id user_id db ≡ (err e, db)
  unfolding ensure_message_access
  message_denied message_id user_id db m e found denied = ground arith

  pub message_granted :
      (message_id user_id : Text) (db : Db) (m : Message)
      → message_found message_id db ≡ some m
      → Allowed m.channel_id user_id db
      → ensure_message_access message_id user_id db ≡ (ok m, db)
  unfolding ensure_message_access
  message_granted message_id user_id db m found (ch, row, may) =
      let granted = (ensure_channel_access_iff m.channel_id user_id db ch row).1 may in ground arith

  -- A message is given only to a user who may use its channel, and nothing changes; in every other
  -- case the check throws, and nothing changes either.
  pub ensure_message_access_cases :
      (message_id user_id : Text) (db : Db)
      → ((m : Message) × (message_found message_id db ≡ some m)
          × Allowed m.channel_id user_id db
          × (ensure_message_access message_id user_id db ≡ (ok m, db)))
        ⊎ ((e : Failure) × (ensure_message_access message_id user_id db ≡ (err e, db)))
  ensure_message_access_cases message_id user_id db =
      elim (Option-cases (message_found message_id db)) [
        | inl missing ↦
            inr (not_found "Message not found", message_missing message_id user_id db missing)
        | inr (m, found) ↦ elim (ensure_channel_access_cases m.channel_id user_id db) [
          | inl allowed ↦
              inl (m, found, allowed, message_granted message_id user_id db m found allowed)
          | inr (e, denied) ↦ inr (e, message_denied message_id user_id db m e found denied)
        ]
      ]
