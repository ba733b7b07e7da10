-- ===== src/Messaging/Notify/Laws.antt =====
-- Who is notified of a mention and of a reply.

use mathlib.Core.List.{append-nil, append_assoc}
use mathlib.Core.Path.{subst}
use synapse_hub.Action.{World, ok, Reply, ◌>>=◌}
use synapse_hub.Action.Tables.{is_member, is_in_channel}
use synapse_hub.Base.{
  List, Option, ◌≡◌, some, false, true, All, none, Bool-cases, inl, inr, refl, any, ◌||◌, arith, [],
  ◌∷◌, all, sym, ◌++◌, ◌+◌, ap, ◌∙◌, if◌then◌else◌,
}
use synapse_hub.Messaging.Access.{is_empty}
use synapse_hub.Messaging.Mentions.{build_mention_handle, extract_mention_handles}
use synapse_hub.Messaging.Mentions.Handles.{All-add}
use synapse_hub.Messaging.Notify.{
  has, note_member, audience, mentioned_from, notify, notify_each, mention_row,
  emit_mention_notifications, emit_thread_reply_notification, reply_row, activity_row,
  notify_replied,
}
use synapse_hub.Prisma.Laws.{none-of_any, find_unique_matches}
use synapse_hub.Schema.{
  User, ChannelType, Db, is_public, WorkspaceMember, Notification, mention, Message,
}
use synapse_hub.Text.{Text, text_eq, text_eq_refl, text_eq_iff}

note_member-All :
    (P : Text → Type 0) (handles : List Text) (actor_id : Text) (o : Option User)
    (found : List Text)
    → ((u : User)
        → o ≡ some u
        → text_eq u.id actor_id ≡ false
        → has handles (build_mention_handle u.display_name u.email) ≡ true
        → P u.id)
    → All P found
    → All P (note_member handles actor_id o found)
unfolding note_member
note_member-All P handles actor_id none found adds h = h
note_member-All P handles actor_id (some u) found adds h =
    elim (Bool-cases (text_eq u.id actor_id)) [
      | inl own ↦ rw own h
      | inr other ↦ elim (Bool-cases (has handles (build_mention_handle u.display_name u.email))) [
        | inl named ↦ rw (other, named) (All-add P u.id found (adds u refl other named) h)
        | inr unnamed ↦ rw (other, unnamed) h
      ]
    ]

module _ ⦃w : World⦄ where
  -- Who may be told of a mention: a user of the database who is not the actor, whose handle the
  -- content names, and who has a row as a member of the workspace and, unless the channel is
  -- public, one as a member of the channel.
  abbrev pub Recipient : Text → Text → ChannelType → Db → List Text → Text → Text → Type 0
  Recipient workspace_id channel_id channel_type db handles actor_id user_id =
      (any (is_member workspace_id user_id) db.workspace_members ≡ true)
      × ((is_public channel_type || any (is_in_channel channel_id user_id) db.channel_members)
          ≡ true)
      × (text_eq user_id actor_id ≡ false)
      × (u : User) × (w.prisma.find_unique (λ x. text_eq x.id user_id) db.users ≡ some u)
      × (has handles (build_mention_handle u.display_name u.email) ≡ true)

  module _ (workspace_id channel_id : Text) (channel_type : ChannelType) (db : Db)
      (handles : List Text) (actor_id : Text) where
    -- A row of the query, which is one of the table, makes its user a member.
    audience_member :
        (m : WorkspaceMember)
        → (audience workspace_id channel_id channel_type db).matches m ≡ true
        → ((P : WorkspaceMember → Type 0) → All P db.workspace_members → P m)
        → any (is_member workspace_id m.user_id) db.workspace_members ≡ true
    audience_member m fits row =
        elim (Bool-cases (any (is_member workspace_id m.user_id) db.workspace_members)) [
          | inl there ↦ there
          | inr outside ↦
              let missed : is_member workspace_id m.user_id m ≡ false =
                row (λ x. is_member workspace_id m.user_id x ≡ false)
                  (none-of_any w.prisma (is_member workspace_id m.user_id) db.workspace_members
                    outside) in
              let own = text_eq_refl m.user_id in ground arith
        ]

    mentioned_from-Recipient :
        (members : List WorkspaceMember) (found : List Text)
        → All (λ m. (audience workspace_id channel_id channel_type db).matches m ≡ true) members
        → ((P : WorkspaceMember → Type 0) → All P db.workspace_members → All P members)
        → All (Recipient workspace_id channel_id channel_type db handles actor_id) found
        → All
            (Recipient workspace_id channel_id channel_type db handles actor_id)
            (mentioned_from handles actor_id db.users members found)
    unfolding mentioned_from
    mentioned_from-Recipient [] found k rows h = h
    mentioned_from-Recipient (m ∷ members) found (k, ks) rows h =
        let P = Recipient workspace_id channel_id channel_type db handles actor_id in
        let o = w.prisma.find_unique (λ u. text_eq u.id m.user_id) db.users in
        mentioned_from-Recipient members (note_member handles actor_id o found) ks
          (λ Q all. (rows Q all).1)
          (note_member-All P handles actor_id o found
            (λ u e other named.
              let same : u.id ≡ m.user_id =
                (text_eq_iff u.id m.user_id).0
                  (find_unique_matches w.prisma (λ x. text_eq x.id m.user_id) db.users u e) in
              let known = audience_member m k (λ Q all. (rows Q all).0) in
              let near : (is_public channel_type
                    || any (is_in_channel channel_id m.user_id) db.channel_members)
                  ≡ true =
                ground arith in
              let far : text_eq m.user_id actor_id ≡ false =
                subst (λ t. text_eq t actor_id ≡ false) same other in
              subst P (sym same) (known, near, far, u, e, named))
            h)

  notify_lem :
      (row : Text → Notification) (db : Db)
      → notify row db ≡ (
        ok (row (w.uuid db.issued)),
        record db {
          notifications = db.notifications ++ row (w.uuid db.issued) ∷ [];
          issued = db.issued + 1;
        },
      )
  unfolding notify
  notify_lem row db =
      ground (arith, w.prisma.create_lem [] (row (w.uuid db.issued)) db.notifications)

  -- A mention of a message for a recipient.
  abbrev pub IsMentionOf : Text → Text → (Text → Type 0) → Notification → Type 0
  IsMentionOf workspace_id message_id P n =
      (n.type ≡ mention)
      × (n.workspace_id ≡ some workspace_id)
      × (n.entity_id ≡ some message_id)
      × P n.user_id

  abbrev pub Adds : (Notification → Type 0) → Db → Db → Type 0
  Adds Q db db' =
      (rows : List Notification) × (db'.notifications ≡ db.notifications ++ rows) × All Q rows

  notify_each_step :
      (workspace_id message_id user_id : Text) (l : List Text) (db : Db)
      → notify_each workspace_id message_id (user_id ∷ l) db
        ≡ notify_each workspace_id message_id l (record db {
          notifications =
              db.notifications
              ++ mention_row workspace_id message_id (w.uuid db.issued) w.now user_id ∷ [];
          issued = db.issued + 1;
        })
  unfolding notify_each
  notify_each_step workspace_id message_id user_id l db =
      let row = λ (id : Text). mention_row workspace_id message_id id w.now user_id in
      ap
        (λ (r : Reply Notification × Db).
          ◌>>=◌ {B = Unit {0}} (λ d. r) (λ n. notify_each workspace_id message_id l) db)
        (notify_lem row db)

  notify_each-Adds :
      (workspace_id message_id : Text) (P : Text → Type 0) (l : List Text) (db : Db)
      → All P l
      → Adds (IsMentionOf workspace_id message_id P) db (notify_each workspace_id message_id l db).1
  unfolding notify_each
  notify_each-Adds workspace_id message_id P [] db h = ([], sym (append-nil db.notifications), tt)
  notify_each-Adds workspace_id message_id P (user_id ∷ l) db h =
      let n = mention_row workspace_id message_id (w.uuid db.issued) w.now user_id in
      let db1 = record db { notifications = db.notifications ++ n ∷ []; issued = db.issued + 1 } in
      let (rows, same, all) = notify_each-Adds workspace_id message_id P l db1 h.1 in
      (
        n ∷ rows,
        ap (λ (r : Reply (Unit {0}) × Db). r.1.notifications)
              (notify_each_step workspace_id message_id user_id l db)
            ∙ same
            ∙ append_assoc db.notifications (n ∷ []) rows,
        ((refl, refl, refl, h.0), all),
      )

  -- A message tells of its mentions only users of the database whose handle it names, never its
  -- author, and only those with a row as a member of the workspace and, unless the channel is
  -- public, a row as a member of the channel. The notifications are added behind the others, which
  -- stay as they are.
  pub emit_mention_recipients :
      (workspace_id channel_id : Text) (channel_type : ChannelType)
      (actor_id message_id content : Text) (db : Db)
      → Adds
          (IsMentionOf workspace_id message_id (
            Recipient workspace_id channel_id channel_type db
              (extract_mention_handles content)
              actor_id))
          db
          (emit_mention_notifications workspace_id channel_id channel_type actor_id message_id
            content db).1
  unfolding emit_mention_notifications
  emit_mention_recipients workspace_id channel_id channel_type actor_id message_id content db =
      let handles = extract_mention_handles content in
      let q = audience workspace_id channel_id channel_type db in
      let members = w.prisma.find_many q db.workspace_members in
      let P = Recipient workspace_id channel_id channel_type db handles actor_id in
      elim (Bool-cases (is_empty handles)) [
        | inl quiet ↦ rw quiet ([], sym (append-nil db.notifications), tt)
        | inr some_handle ↦ rw some_handle (
            notify_each-Adds workspace_id message_id P
              (mentioned_from handles actor_id db.users members []) db
              (mentioned_from-Recipient workspace_id channel_id channel_type db handles actor_id
                members [] (w.prisma.find_many_matches q db.workspace_members)
                (λ P all. w.prisma.find_many_rows q db.workspace_members P all) tt))
      ]

  -- A reply in a thread tells the author of its root, once of the reply and once of the activity,
  -- behind the other notifications and with nothing else changed, unless the author replies to
  -- themselves; then it tells nobody.
  pub emit_thread_reply_lem :
      (workspace_id thread_id root_id actor_id message_id : Text) (db : Db) (m : Message)
      → w.prisma.find_unique (λ x. text_eq x.id root_id) db.messages ≡ some m
      → emit_thread_reply_notification workspace_id thread_id root_id actor_id message_id db ≡ (
          if text_eq m.author_id actor_id then (ok tt, db) else (
            ok tt,
            record db {
              notifications =
                  (db.notifications
                    ++ reply_row workspace_id thread_id (w.uuid db.issued) w.now m.author_id ∷ [])
                  ++ activity_row workspace_id message_id (w.uuid (db.issued + 1)) w.now m.author_id
                    ∷ [];
              issued = db.issued + 1 + 1;
            },
          ))
  unfolding emit_thread_reply_notification notify_replied
  emit_thread_reply_lem workspace_id thread_id root_id actor_id message_id db m found =
      let reply = λ (id : Text). reply_row workspace_id thread_id id w.now m.author_id in
      let activity = λ (id : Text). activity_row workspace_id message_id id w.now m.author_id in
      let db1 = record db {
        notifications = db.notifications ++ reply (w.uuid db.issued) ∷ [];
        issued = db.issued + 1;
      } in
      ground (arith, notify_lem reply db, notify_lem activity db1)
