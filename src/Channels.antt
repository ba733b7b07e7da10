-- ===== src/Channels.antt =====
-- services/channel-service/src/channels/channels.service.ts: creating, listing, joining, leaving
-- and archiving channels. A text order that JavaScript or the database supplies is an argument.
pub mod Archiving
pub mod Leaving
pub mod Visits
pub mod Direct
use mathlib.Core.Option
use synapse_hub.Action.{
  World, Action, ◌>>=◌, ◌>>◌, find_many, throw_if, not_found, find_unique, or_throw, err, p2002, ok,
  Reply, bad_request, forbidden, pure, new_id, count_rows, Failure, throw, upsert, delete_many,
  update_row,
}
use synapse_hub.Action.Tables.{
  is_in_channel, workspace_members, channels, channel_member_key, channel_name_key, channel_members,
  is_member, users, messages,
}
use synapse_hub.Base.{
  Option, Bool, List, ℕ, keep, not, map, [], some, true, false, none, ◌∷◌, if◌then◌else◌, ◌++◌,
  ◌&&◌, any, ◌||◌, ltb, ◌==◌, length,
}
use synapse_hub.Messaging.Access.{MessageAuthor, is_empty, author_of}
use synapse_hub.Messaging.Messages.{unique_from}
use synapse_hub.Messaging.Notify.{has}
use synapse_hub.Pagination.{cursor_row, Number, Page, bounded_limit, page_cursor}
use synapse_hub.Prisma.{Query, Created, stored, conflict}
use synapse_hub.Schema.{
  ChannelMember, Channel, ChannelType, private_channel, public_channel, WorkspaceMember, is_direct,
  is_public, direct, WorkspaceRole, owner, admin, Db, User,
}
use synapse_hub.Text.{Text, text_eq, trim, codes}

pub record CreateChannel : Type 0 where
  pub workspace_id : Text
  pub name : Text
  pub topic : Option Text
  pub is_private : Option Bool
  pub member_ids : Option (List Text)

-- A member with `user: { id, displayName, email, avatarUrl }`.
pub record MemberView : Type 0 where
  pub member : ChannelMember
  pub user : Option MessageAuthor

-- A channel with `_count` and `members`.
pub record ChannelView : Type 0 where
  pub channel : Channel
  pub member_count : ℕ
  pub message_count : ℕ
  pub members : List MemberView

-- What `join` and `leave` return.
pub record Membership : Type 0 where
  pub channel_id : Text
  pub user_id : Text
  pub joined : Bool
  pub members : ℕ

-- `ids.map((id) => id.trim())` without repetitions, empty ids and the creator
unfoldable pub requested_member_ids : List Text → Text → List Text
requested_member_ids ids creator_id =
    keep (λ id. not (text_eq id creator_id))
      (keep (λ id. not (is_empty id)) (unique_from (map trim ids) []))

-- `requestedMemberIds.length > 0 || dto.isPrivate ? 'PRIVATE' : 'PUBLIC'`
unfoldable pub channel_type_for : List Text → Option Bool → ChannelType
channel_type_for [] (some true) = private_channel
channel_type_for [] (some false) = public_channel
channel_type_for [] none = public_channel
channel_type_for (_ ∷ _) _ = private_channel

-- `dto.topic?.trim() || null`
abbrev pub non_empty : Text → Option Text
non_empty [] = none
non_empty (c ∷ s) = some (c ∷ s)

unfoldable pub topic_of : Option Text → Option Text
topic_of none = none
topic_of (some s) = non_empty (trim s)

-- `[userA, userB].sort((a, b) => a.localeCompare(b))`, then `dm:${left}:${right}`. The argument
-- tells whether `a.localeCompare(b)` is positive.
unfoldable pub direct_channel_name : (Text → Text → Bool) → Text → Text → Text
direct_channel_name comes_after a b =
    if comes_after a b
    then codes "dm:" ++ b ++ codes ":" ++ a
    else codes "dm:" ++ a ++ codes ":" ++ b

-- `where: { workspaceId, userId: { in: ids } }`
abbrev pub members_among : Text → List Text → Query WorkspaceMember
members_among workspace_id ids = record {
  matches = λ m. text_eq m.workspace_id workspace_id && has ids m.user_id;
  precedes = λ a b. false;
  cursor = none;
  limit = none;
}

-- `where` of `findDirectChannel`
unfoldable pub is_direct_between : Text → Text → Text → List ChannelMember → Channel → Bool
is_direct_between workspace_id a b members c =
    text_eq c.workspace_id workspace_id
    && is_direct c.type
    && not c.is_archived
    && any (is_in_channel c.id a) members
    && any (is_in_channel c.id b) members
    && not (any (λ m. text_eq m.channel_id c.id && not (has (a ∷ b ∷ []) m.user_id)) members)

-- The channels that `list` shows: not archived, and public or with the user among the members.
unfoldable pub is_listed : Text → Text → List ChannelMember → Channel → Bool
is_listed workspace_id user_id members c =
    text_eq c.workspace_id workspace_id
    && not c.is_archived
    && (is_public c.type || any (is_in_channel c.id user_id) members)

-- The order of the constructors of the enum, which the database sorts by.
abbrev pub type_rank : ChannelType → ℕ
type_rank public_channel = 0
type_rank private_channel = 1
type_rank direct = 2

-- `orderBy: [{ type: 'asc' }, { name: 'asc' }, { id: 'asc' }]`; the argument is the order of texts
-- in the database.
abbrev pub listed_before : (Text → Text → Bool) → Channel → Channel → Bool
listed_before before a b =
    ltb (type_rank a.type) (type_rank b.type)
    || (type_rank a.type == type_rank b.type
        && (before a.name b.name || (text_eq a.name b.name && before a.id b.id)))

-- `where: { channelId: { in: ids } }`
abbrev pub members_in : List Text → Query ChannelMember
members_in ids = record {
  matches = λ m. has ids m.channel_id;
  precedes = λ a b. false;
  cursor = none;
  limit = none;
}

-- `directMembersByChannel.get(channel.id) ?? []` for a direct channel
abbrev pub members_shown : Channel → List MemberView → List MemberView
members_shown c views =
    if is_direct c.type then keep (λ v. text_eq v.member.channel_id c.id) views else []

-- `OWNER`, `ADMIN` or the creator
unfoldable pub can_archive : WorkspaceRole → Text → Channel → Bool
can_archive owner actor_id c = true
can_archive admin actor_id c = true
can_archive _ actor_id c = text_eq c.created_by_id actor_id

module _ ⦃w : World⦄ where
  unfoldable pub ensure_workspace_users : Text → List Text → Action (Unit {0})
  ensure_workspace_users workspace_id user_ids = do
    let ids = unique_from user_ids []
    members ← find_many workspace_members (members_among workspace_id ids)
    throw_if (not (length members == length ids))
        (not_found "One or more selected users are not in this workspace")

  unfoldable pub ensure_channel : Text → Action Channel
  ensure_channel channel_id = do
    channel ← find_unique channels (λ c. text_eq c.id channel_id)
    or_throw channel (not_found "Channel not found")

  -- `members: { create: [...] }` of a new channel
  unfoldable pub create_members : Text → List Text → List ChannelMember → Created ChannelMember
  create_members channel_id [] rows = stored rows
  create_members channel_id (u ∷ l) rows =
      elim (w.prisma.create (channel_member_key ∷ [])
        (record { channel_id = channel_id; user_id = u }) rows) [
          | stored rows' ↦ create_members channel_id l rows'
          | conflict target ↦ conflict target
        ]

  -- `prisma.channel.create` with its members: all of it or nothing.
  unfoldable pub insert_channel : Channel → List Text → Action Channel
  insert_channel c ids db = elim (w.prisma.create (channel_name_key ∷ []) c db.channels) [
    | conflict target ↦ (err (p2002 target), db)
    | stored rows ↦ elim (create_members c.id ids db.channel_members) [
      | conflict target ↦ (err (p2002 target), db)
      | stored members ↦ (ok c, record db { channels = rows; channel_members = members })
    ]
  ]

  -- `catch (error)` of `create`
  abbrev pub name_taken : {A : Type 0} → Reply A × Db → Reply A × Db
  name_taken (err (p2002 target), db) =
      (err (bad_request "Channel name already exists in this workspace"), db)
  name_taken (r, db) = (r, db)

  unfoldable pub create_channel : CreateChannel → Text → Action Channel
  create_channel dto creator_id = do
    membership ← find_unique workspace_members (is_member dto.workspace_id creator_id)
    or_throw membership (forbidden "User is not a member of this workspace")
    let ids = requested_member_ids (Option.get_or dto.member_ids []) creator_id
    if is_empty ids then pure tt else ensure_workspace_users dto.workspace_id ids
    id ← new_id
    λ db. name_taken (
        insert_channel
          (record {
            id = id;
            workspace_id = dto.workspace_id;
            created_by_id = creator_id;
            name = trim dto.name;
            topic = topic_of dto.topic;
            type = channel_type_for ids dto.is_private;
            is_archived = false;
            created_at = w.now;
          })
          (creator_id ∷ ids) db)

  abbrev pub member_user : Option User → Option MessageAuthor
  member_user none = none
  member_user (some u) = some (author_of u)

  unfoldable pub view_members : List ChannelMember → Action (List MemberView)
  view_members [] db = (ok [], db)
  view_members (m ∷ rows) db =
      (do
        user ← find_unique users (λ u. text_eq u.id m.user_id)
        rest ← view_members rows
        pure (record { member = m; user = member_user user } ∷ rest))
        db

  -- `include: { _count, members }`
  unfoldable pub view_channel : Channel → List MemberView → Action ChannelView
  view_channel c members = do
    member_count ← count_rows channel_members (λ m. text_eq m.channel_id c.id)
    message_count ← count_rows messages (λ m. text_eq m.channel_id c.id)
    pure (record {
      channel = c;
      member_count = member_count;
      message_count = message_count;
      members = members;
    })

  unfoldable pub view_direct : Channel → Action ChannelView
  view_direct c = do
    rows ← find_many channel_members (members_in (c.id ∷ []))
    members ← view_members rows
    view_channel c members

  unfoldable pub find_direct_channel : Text → Text → Text → Action (Option Channel)
  find_direct_channel workspace_id a b db =
      find_unique channels (is_direct_between workspace_id a b db.channel_members) db

  abbrev pub direct_row : (Text → Text → Bool) → Text → Text → Text → Text → Channel
  direct_row comes_after workspace_id a b id = record {
    id = id;
    workspace_id = workspace_id;
    created_by_id = a;
    name = direct_channel_name comes_after a b;
    topic = none;
    type = direct;
    is_archived = false;
    created_at = w.now;
  }

  -- `if (channel) { return channel; }`, else `throw error`
  abbrev pub direct_or_throw : Failure → Option Channel → Action Channel
  direct_or_throw e none = throw e
  direct_or_throw e (some c) = pure c

  -- `catch (error)` of `createDirectChannel`: another request may have created the channel.
  abbrev pub direct_taken : Text → Text → Text → Reply Channel × Db → Reply Channel × Db
  direct_taken workspace_id a b (err (p2002 target), db) =
      (find_direct_channel workspace_id a b >>= direct_or_throw (p2002 target)) db
  direct_taken workspace_id a b (r, db) = (r, db)

  abbrev pub or_create_direct :
      (Text → Text → Bool) → Text → Text → Text → Option Channel → Action Channel
  or_create_direct comes_after workspace_id a b (some c) = pure c
  or_create_direct comes_after workspace_id a b none = do
    id ← new_id
    λ db.
        direct_taken workspace_id a b
          (insert_channel (direct_row comes_after workspace_id a b id) (a ∷ b ∷ []) db)

  -- The channel that `createDirectChannel` answers with.
  unfoldable pub direct_channel_row : (Text → Text → Bool) → Text → Text → Text → Action Channel
  direct_channel_row comes_after workspace_id requester_id target_user_id = do
    let target = trim target_user_id
    throw_if (is_empty target) (bad_request "targetUserId is required")
    throw_if (text_eq target requester_id)
        (bad_request "Cannot create direct channel with yourself")
    ensure_workspace_users workspace_id (requester_id ∷ target ∷ [])
    existing ← find_direct_channel workspace_id requester_id target
    or_create_direct comes_after workspace_id requester_id target existing

  unfoldable pub create_direct_channel :
      (Text → Text → Bool) → Text → Text → Text → Action ChannelView
  create_direct_channel comes_after workspace_id requester_id target_user_id = do
    c ← direct_channel_row comes_after workspace_id requester_id target_user_id
    view_direct c

  unfoldable pub view_listed : List MemberView → List Channel → Action (List ChannelView)
  view_listed views [] db = (ok [], db)
  view_listed views (c ∷ rows) db =
      (do
        head ← view_channel c (members_shown c views)
        rest ← view_listed views rows
        pure (head ∷ rest))
        db

  unfoldable pub listed_channels :
      (Text → Text → Bool) → Text → Text → Option Text → ℕ → Action (List Channel)
  listed_channels before workspace_id user_id cursor limit db =
      find_many channels
        (record {
          matches = is_listed workspace_id user_id db.channel_members;
          precedes = listed_before before;
          cursor = cursor_row (λ c. c.id) cursor;
          limit = some limit;
        })
        db

  unfoldable pub list_channels :
      (Text → Text → Bool) → Text → Text → Option Text → Number → Action (Page ChannelView)
  list_channels before workspace_id user_id cursor limit = do
    let bounded = bounded_limit limit 50 200
    member ← find_unique workspace_members (is_member workspace_id user_id)
    or_throw member (forbidden "User is not a member of this workspace")
    rows ← listed_channels before workspace_id user_id cursor bounded
    let direct_ids = map (λ c. c.id) (keep (λ c. is_direct c.type) rows)
    members ←
        if is_empty direct_ids then pure [] else find_many channel_members (members_in direct_ids)
    views ← view_members members
    shown ← view_listed views rows
    pure (record { rows = shown; cursor = page_cursor (λ c. c.id) rows bounded; limit = bounded })

  unfoldable pub join_channel : Text → Text → Action Membership
  join_channel channel_id user_id = do
    channel ← ensure_channel channel_id
    throw_if (not (is_public channel.type))
        (forbidden "Private and direct channels cannot be joined directly")
    member ← find_unique workspace_members (is_member channel.workspace_id user_id)
    or_throw member (forbidden "User is not a member of this workspace")
    upsert channel_members (is_in_channel channel_id user_id) (channel_member_key ∷ [])
        (pure (record { channel_id = channel_id; user_id = user_id })) (λ m. m)
    members ← count_rows channel_members (λ m. text_eq m.channel_id channel_id)
    pure (record { channel_id = channel_id; user_id = user_id; joined = true; members = members })

  unfoldable pub leave_channel : Text → Text → Action Membership
  leave_channel channel_id user_id = do
    channel ← ensure_channel channel_id
    throw_if (is_direct channel.type) (forbidden "Direct channels cannot be left")
    delete_many channel_members (is_in_channel channel_id user_id)
    members ← count_rows channel_members (λ m. text_eq m.channel_id channel_id)
    pure (record { channel_id = channel_id; user_id = user_id; joined = false; members = members })

  unfoldable pub archive_channel : Text → Text → Action Channel
  archive_channel channel_id actor_id = do
    channel ← ensure_channel channel_id
    throw_if (is_direct channel.type) (bad_request "Direct channels cannot be archived")
    row ← find_unique workspace_members (is_member channel.workspace_id actor_id)
    member ← or_throw row (forbidden "User is not a member of this workspace")
    throw_if (not (can_archive member.role actor_id channel))
        (forbidden "Only admins, owners, or channel creator can archive")
    update_row channels (λ c. text_eq c.id channel_id) (λ c. record c { is_archived = true })
