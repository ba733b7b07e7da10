-- ===== src/Channels/Visits.antt =====
-- The members of a public channel as a set: joining and leaving refine adding and removing.
use mathlib.Core.Path.{subst}
use synapse_hub.Action.{World}
use synapse_hub.Action.Tables.{is_in_channel, is_member}
use synapse_hub.Base.{
  List, [], ◌∷◌, Bool, ◌&&◌, ◌||◌, not, any, keep, ◌≡◌, arith, Bool-cases, inl, ap, inr, some, true,
  map_where_id, false, ◌++◌, any-append, ◌∙◌, refl,
}
use synapse_hub.Channels.{join_channel, leave_channel, ensure_channel}
use synapse_hub.Channels.Leaving.{leave_step, public_not_direct, join_step}
use synapse_hub.Messaging.Access.Laws.{channel_row}
use synapse_hub.Prisma.Laws.{find_unique-any}
use synapse_hub.Schema.{Db, ChannelMember, Channel, is_public}
use synapse_hub.Text.{Text, text_eq, text_eq_sound, text_eq_comm, text_eq_refl}

pub data Visit : Type 0 where
  enters exits : Text → Visit

-- Visits of a channel one after the other, each by its own user.
module _ ⦃w : World⦄ where
  unfoldable pub visit : Text → Visit → Db → Db
  visit channel_id (enters u) db = (join_channel channel_id u db).1
  visit channel_id (exits u) db = (leave_channel channel_id u db).1

  unfoldable pub visit_all : Text → List Visit → Db → Db
  visit_all channel_id [] db = db
  visit_all channel_id (v ∷ l) db = visit_all channel_id l (visit channel_id v db)

-- The abstract view: the set of the members. Only users of the workspace get in.
abbrev pub replay_visit : (Text → Bool) → Visit → (Text → Bool) → Text → Bool
replay_visit may (enters u) s x = (text_eq u x && may u) || s x
replay_visit may (exits u) s x = not (text_eq u x) && s x

unfoldable pub replay : (Text → Bool) → List Visit → (Text → Bool) → Text → Bool
replay may [] s = s
replay may (v ∷ l) s = replay may l (replay_visit may v s)

any-exit :
    (channel_id u x : Text) (l : List ChannelMember)
    → any (is_in_channel channel_id x) (keep (λ m. not (is_in_channel channel_id u m)) l)
      ≡ (not (text_eq u x) && any (is_in_channel channel_id x) l)
any-exit channel_id u x [] = ground arith
any-exit channel_id u x (m ∷ l) =
    let rest = any-exit channel_id u x l in
    elim (Bool-cases (text_eq m.user_id u)) [
      | inl own ↦
          let swap : text_eq m.user_id x ≡ text_eq u x =
            ap (λ t. text_eq t x) (text_eq_sound m.user_id u own) in
          ground (arith, rest)
      | inr other ↦ elim (Bool-cases (text_eq m.user_id x)) [
        | inr miss ↦ ground (arith, rest)
        | inl hit ↦
            let swap : text_eq m.user_id u ≡ text_eq x u =
              ap (λ t. text_eq t u) (text_eq_sound m.user_id x hit) in
            let turn = text_eq_comm u x in ground (arith, rest)
      ]
    ]

module _ ⦃w : World⦄ where
  abbrev pub members_set : Text → Db → Text → Bool
  members_set channel_id db x = any (is_in_channel channel_id x) db.channel_members

  abbrev pub workspace_set : Text → Db → Text → Bool
  workspace_set workspace_id db u = any (is_member workspace_id u) db.workspace_members

  -- What a visit leaves: other rows of channel members, and the set that they make.
  abbrev Refines : Text → Text → Visit → Db → Type 0
  Refines channel_id workspace_id v db =
      (l : List ChannelMember) × (visit channel_id v db ≡ record db { channel_members = l })
      × ((x : Text)
          → any (is_in_channel channel_id x) l
            ≡ replay_visit (workspace_set workspace_id db) v (members_set channel_id db) x)

  join_known :
      (channel_id u : Text) (db : Db) (c : Channel)
      → channel_row channel_id db ≡ some c
      → any (is_in_channel channel_id u) db.channel_members ≡ true
      → (join_channel channel_id u db).1 ≡ db
  unfolding join_channel ensure_channel
  join_known channel_id u db c found inside =
      let there = find_unique-any w.prisma (is_in_channel channel_id u) db.channel_members in
      let same =
        w.prisma.update_many_lem (is_in_channel channel_id u) (λ m. m) db.channel_members in
      let kept = map_where_id (is_in_channel channel_id u) db.channel_members in ground arith

  join_outsider :
      (channel_id u : Text) (db : Db) (c : Channel)
      → channel_row channel_id db ≡ some c
      → any (is_member c.workspace_id u) db.workspace_members ≡ false
      → (join_channel channel_id u db).1 ≡ db
  unfolding join_channel ensure_channel
  join_outsider channel_id u db c found outside =
      let there = find_unique-any w.prisma (is_member c.workspace_id u) db.workspace_members in
      ground arith

  entered :
      (channel_id u x : Text) (l : List ChannelMember)
      → any (is_in_channel channel_id x) (l ++ record { channel_id = channel_id; user_id = u } ∷ [])
        ≡ (text_eq u x || any (is_in_channel channel_id x) l)
  entered channel_id u x l =
      let own = text_eq_refl channel_id in
      any-append (is_in_channel channel_id x) l
        (record { channel_id = channel_id; user_id = u } ∷ [])
      ∙ ground arith

  -- Somebody who is in the set already is not added by another entry.
  inside-set :
      (channel_id u x : Text) (l : List ChannelMember)
      → any (is_in_channel channel_id u) l ≡ true
      → text_eq u x ≡ true
      → any (is_in_channel channel_id x) l ≡ true
  inside-set channel_id u x l inside same =
      subst (λ t. any (is_in_channel channel_id t) l ≡ true) (text_eq_sound u x same) inside

  visit-Refines :
      (channel_id : Text) (v : Visit) (db : Db) (c : Channel)
      → channel_row channel_id db ≡ some c
      → is_public c.type ≡ true
      → Refines channel_id c.workspace_id v db
  unfolding visit
  visit-Refines channel_id (exits u) db c found public = (
    keep (λ m. not (is_in_channel channel_id u m)) db.channel_members,
    leave_step channel_id u db c found (public_not_direct c.type public),
    λ x. any-exit channel_id u x db.channel_members,
  )
  visit-Refines channel_id (enters u) db c found public =
      elim (Bool-cases (any (is_member c.workspace_id u) db.workspace_members)) [
        | inr outside ↦
            (db.channel_members, join_outsider channel_id u db c found outside, λ x. ground arith)
        | inl allowed ↦ elim (Bool-cases (any (is_in_channel channel_id u) db.channel_members)) [
          | inl inside ↦ (
            db.channel_members,
            join_known channel_id u db c found inside,
            λ x. elim (Bool-cases (text_eq u x)) [
              | inl same ↦
                  let there = inside-set channel_id u x db.channel_members inside same in
                  ground arith
              | inr other ↦ ground arith
            ],
          )
          | inr out ↦ (
            db.channel_members ++ record { channel_id = channel_id; user_id = u } ∷ [],
            join_step channel_id u db c found public allowed out,
            λ x. entered channel_id u x db.channel_members ∙ ground arith,
          )
        ]
      ]

  replay-same :
      (may : Text → Bool) (l : List Visit) (s t : Text → Bool)
      → ((x : Text) → s x ≡ t x)
      → (x : Text) → replay may l s x ≡ replay may l t x
  unfolding replay
  replay-same may [] s t e x = e x
  replay-same may (enters u ∷ l) s t e x =
      replay-same may l (replay_visit may (enters u) s) (replay_visit may (enters u) t)
        (λ y. ap (λ b. (text_eq u y && may u) || b) (e y)) x
  replay-same may (exits u ∷ l) s t e x =
      replay-same may l (replay_visit may (exits u) s) (replay_visit may (exits u) t)
        (λ y. ap (λ b. not (text_eq u y) && b) (e y)) x

  -- For a public channel that exists, any sequence of calls of join and leave by any users refines
  -- a set of members: who is a member after it is what the same sequence gives on the set, where
  -- joining adds a user of the workspace and nobody else, and leaving removes.
  pub visit_all-refines-replay :
      (channel_id : Text) (visits : List Visit) (db : Db) (c : Channel) (x : Text)
      → channel_row channel_id db ≡ some c
      → is_public c.type ≡ true
      → members_set channel_id (visit_all channel_id visits db) x
        ≡ replay (workspace_set c.workspace_id db) visits (members_set channel_id db) x
  unfolding visit_all replay
  visit_all-refines-replay channel_id [] db c x found public = refl
  visit_all-refines-replay channel_id (v ∷ l) db c x found public =
      let (rows, e, same) = visit-Refines channel_id v db c found public in
      let next : Db = record db { channel_members = rows } in
      ap (λ d. members_set channel_id (visit_all channel_id l d) x) e
      ∙ visit_all-refines-replay channel_id l next c x found public
      ∙ replay-same (workspace_set c.workspace_id db) l (members_set channel_id next)
          (replay_visit (workspace_set c.workspace_id db) v (members_set channel_id db)) same x
