-- ===== src/Channels/Leaving.antt =====
-- Joining and leaving a channel, and what leaving does to the access to its messages.

use synapse_hub.Action.{World, Failure, err, not_found, forbidden, ok, Reply}
use synapse_hub.Action.Tables.{is_in_channel, is_member, channel_member_key}
use synapse_hub.Auth.{usable}
use synapse_hub.Base.{
  ◌≡◌, true, false, refl, sym, Bool, List, any, keep, not, ◌++◌, ◌∷◌, [], arith, some, none, ◌⊎◌,
  inl, inr, ◌∙◌, ap, Bool-cases, any-keep-not,
}
use synapse_hub.Channels.{leave_channel, ensure_channel, join_channel, Membership}
use synapse_hub.Messaging.Access.{ensure_channel_access}
use synapse_hub.Messaging.Access.Laws.{channel_row, member_found, ensure_channel_access_cases}
use synapse_hub.Prisma.Laws.{find_unique-none_iff, find_unique_matches}
use synapse_hub.Schema.{
  ChannelType, is_public, is_direct, public_channel, private_channel, direct, ChannelMember, Db,
  Channel,
}
use synapse_hub.Text.{Text, text_eq_refl, text_eq, text_eq_iff}

pub public_not_direct : (t : ChannelType) → is_public t ≡ true → is_direct t ≡ false
public_not_direct public_channel e = refl
public_not_direct private_channel e = refl
public_not_direct direct e = sym e

keep-not_append :
    (p : ChannelMember → Bool) (l : List ChannelMember) (m : ChannelMember)
    → any p l ≡ false
    → p m ≡ true
    → keep (λ x. not (p x)) (l ++ m ∷ []) ≡ l
keep-not_append p [] m out own = ground arith
keep-not_append p (x ∷ l) m out own = ground (arith, keep-not_append p l m (ground arith) own)

module _ ⦃w : World⦄ where
  pub leave_step :
      (channel_id user_id : Text) (db : Db) (c : Channel)
      → channel_row channel_id db ≡ some c
      → is_direct c.type ≡ false
      → (leave_channel channel_id user_id db).1 ≡ record db {
        channel_members = keep (λ m. not (is_in_channel channel_id user_id m)) db.channel_members;
      }
  unfolding leave_channel ensure_channel
  leave_step channel_id user_id db c found can =
      ground (arith, w.prisma.delete_many_lem (is_in_channel channel_id user_id) db.channel_members)

  leave_denied :
      (channel_id user_id : Text) (db : Db)
      → (channel_row channel_id db ≡ none)
        ⊎ ((c : Channel) × (channel_row channel_id db ≡ some c) × (is_direct c.type ≡ true))
      → (e : Failure) × (leave_channel channel_id user_id db ≡ (err e, db))
  unfolding leave_channel ensure_channel
  leave_denied channel_id user_id db (inl missing) = (not_found "Channel not found", ground arith)
  leave_denied channel_id user_id db (inr (c, found, kind)) =
      (forbidden "Direct channels cannot be left", ground arith)

  pub join_step :
      (channel_id user_id : Text) (db : Db) (c : Channel)
      → channel_row channel_id db ≡ some c
      → is_public c.type ≡ true
      → any (is_member c.workspace_id user_id) db.workspace_members ≡ true
      → any (is_in_channel channel_id user_id) db.channel_members ≡ false
      → (join_channel channel_id user_id db).1 ≡ record db {
        channel_members =
            db.channel_members ++ record { channel_id = channel_id; user_id = user_id } ∷ [];
      }
  unfolding join_channel ensure_channel
  join_step channel_id user_id db c found public inside out =
      let row : ChannelMember = record { channel_id = channel_id; user_id = user_id } in
      ground (
        arith,
        member_found c.workspace_id user_id db,
        (find_unique-none_iff w.prisma (is_in_channel channel_id user_id) db.channel_members).1 out,
        w.prisma.create_lem (channel_member_key ∷ []) row db.channel_members,
      )

  -- Leaving a channel right after joining it puts the database back as it was, where the channel
  -- is public and the user is a member of its workspace and not yet of the channel.
  pub join_leave :
      (channel_id user_id : Text) (db : Db) (c : Channel)
      → channel_row channel_id db ≡ some c
      → is_public c.type ≡ true
      → any (is_member c.workspace_id user_id) db.workspace_members ≡ true
      → any (is_in_channel channel_id user_id) db.channel_members ≡ false
      → (leave_channel channel_id user_id (join_channel channel_id user_id db).1).1 ≡ db
  join_leave channel_id user_id db c found public inside out =
      let row : ChannelMember = record { channel_id = channel_id; user_id = user_id } in
      let joined : Db = record db { channel_members = db.channel_members ++ row ∷ [] } in
      let p = is_in_channel channel_id user_id in
      let own : p row ≡ true = ground (arith, text_eq_refl channel_id, text_eq_refl user_id) in
      rw (join_step channel_id user_id db c found public inside out) (
        leave_step channel_id user_id joined c found (public_not_direct c.type public)
        ∙ ap (λ (l : List ChannelMember). record db { channel_members = l })
            (keep-not_append p db.channel_members row out own))

  left_closed :
      (channel_id user_id : Text) (db : Db) (c : Channel)
      → channel_row channel_id db ≡ some c
      → is_public c.type ≡ false
      → any (is_in_channel channel_id user_id) db.channel_members ≡ false
      → (e : Failure) × (ensure_channel_access channel_id user_id db ≡ (err e, db))
  left_closed channel_id user_id db c found kind out =
      elim (ensure_channel_access_cases channel_id user_id db) [
        | inr denied ↦ denied
        | inl (ch, found', (live, inside, usable)) ↦
            let same : some c ≡ some ch = sym found ∙ found' in
            let hit =
              find_unique_matches w.prisma (λ x. text_eq x.id channel_id) db.channels ch found' in
            let id = (text_eq_iff ch.id channel_id).0 hit in
            elim usable [
              | inl public ↦ cc (same, kind, public)
              | inr joined ↦
                  let in_it : any (is_in_channel channel_id user_id) db.channel_members ≡ true =
                    rw id at joined in
                  cc (in_it, out)
            ]
      ]

  leave_direct_clash :
      (channel_id user_id : Text) (db : Db) (c : Channel) (r : Membership)
      → channel_row channel_id db ≡ some c
      → (leave_channel channel_id user_id db).0 ≡ ok r
      → is_direct c.type ≡ false
  leave_direct_clash channel_id user_id db c r found done = elim (Bool-cases (is_direct c.type)) [
    | inr kind ↦ kind
    | inl kind ↦
        let (e, denied) = leave_denied channel_id user_id db (inr (c, found, kind)) in
        let clash : ok r ≡ err e = sym done ∙ ap (λ (x : Reply Membership × Db). x.0) denied in
        cc clash
  ]

  -- Whoever has left a channel that is not public is refused the access to its messages.
  pub left_channel_closed :
      (channel_id user_id : Text) (db : Db) (c : Channel) (r : Membership)
      → channel_row channel_id db ≡ some c
      → is_public c.type ≡ false
      → (leave_channel channel_id user_id db).0 ≡ ok r
      → let db' = (leave_channel channel_id user_id db).1 in
        (e : Failure) × (ensure_channel_access channel_id user_id db' ≡ (err e, db'))
  left_channel_closed channel_id user_id db c r found kind done =
      let p = is_in_channel channel_id user_id in
      let after =
        leave_step channel_id user_id db c found
          (leave_direct_clash channel_id user_id db c r found done) in
      rw after (
        left_closed channel_id user_id
          (record db { channel_members = keep (λ m. not (p m)) db.channel_members }) c found kind
          (any-keep-not p db.channel_members))
