-- ===== src/Workspaces/Creating.antt =====
-- services/workspace-service/src/workspaces/workspaces.service.ts: `create`, `list` and `members`.
use mathlib.Core.Option
use synapse_hub.Action.{
  Reply, err, bad_request, World, Action, transaction, ◌>>=◌, ◌>>◌, create_row, pure, new_id,
  find_unique, or_throw, not_found, ok, count_rows, find_many,
}
use synapse_hub.Action.Tables.{
  workspaces, slug_key, workspace_members, member_key, audit_logs, users, channels, is_member,
}
use synapse_hub.Base.{ℕ, Option, Bool, ltb, ◌||◌, ◌==◌, ◌&&◌, ◌∷◌, [], none, List, any, some}
use synapse_hub.Messaging.Access.{MessageAuthor, author_of}
use synapse_hub.Pagination.{cursor_row, Number, Page, bounded_limit, page_cursor}
use synapse_hub.Schema.{
  Workspace, WorkspaceMember, WorkspaceRole, owner, admin, guest, Db, AuditAction,
}
use synapse_hub.Text.{Text, codes, text_eq}
use synapse_hub.Workspaces.{audit_row, ensure_membership}

pub record CreateWorkspace : Type 0 where
  pub name : Text
  pub slug : Text

-- A workspace with `_count`.
pub record WorkspaceView : Type 0 where
  pub workspace : Workspace
  pub member_count : ℕ
  pub channel_count : ℕ

-- A member with `user: { id, email, displayName, avatarUrl }`.
pub record WorkspaceMemberView : Type 0 where
  pub membership : WorkspaceMember
  pub profile : Option MessageAuthor

-- The order of the constructors of the enum, which the database sorts by.
abbrev pub role_rank : WorkspaceRole → ℕ
role_rank owner = 0
role_rank admin = 1
role_rank WorkspaceRole.member = 2
role_rank guest = 3

-- `orderBy: [{ role: 'asc' }, { joinedAt: 'asc' }]`
abbrev pub joined_before : WorkspaceMember → WorkspaceMember → Bool
joined_before a b =
    ltb (role_rank a.role) (role_rank b.role)
    || (role_rank a.role == role_rank b.role && ltb a.joined_at b.joined_at)

-- `catch { throw ... }`: whatever went wrong is taken for a slug in use.
abbrev pub slug_taken : {A : Type 0} → Reply A × Db → Reply A × Db
slug_taken (err e, db) = (err (bad_request "Workspace slug already exists"), db)
slug_taken (r, db) = (r, db)

module _ ⦃w : World⦄ where
  -- `prisma.workspace.create` with its first member: both or nothing.
  unfoldable pub insert_workspace : Workspace → Action Workspace
  insert_workspace x = transaction (do
    create_row workspaces (slug_key ∷ []) x
    create_row workspace_members (member_key ∷ []) (record {
      workspace_id = x.id;
      user_id = x.owner_id;
      role = owner;
      invited_by_id = none;
      joined_at = w.now;
    })
    pure x)

  unfoldable pub store_workspace : CreateWorkspace → Text → Action Workspace
  store_workspace dto owner_id = do
    id ← new_id
    x ← insert_workspace (record { id = id; name = dto.name; slug = dto.slug; owner_id = owner_id })
    create_row audit_logs [] (audit_row x.id owner_id AuditAction.create (codes "workspace") x.id)
    pure x

  unfoldable pub create_workspace : CreateWorkspace → Text → Action Workspace
  create_workspace dto owner_id = do
    row ← find_unique users (λ u. text_eq u.id owner_id)
    person ← or_throw row (not_found "Owner user not found")
    λ db. slug_taken (store_workspace dto person.id db)

  unfoldable pub view_workspaces : List Workspace → Action (List WorkspaceView)
  view_workspaces [] db = (ok [], db)
  view_workspaces (x ∷ rows) db =
      (do
        member_count ← count_rows workspace_members (λ m. text_eq m.workspace_id x.id)
        channel_count ← count_rows channels (λ c. text_eq c.workspace_id x.id)
        rest ← view_workspaces rows
        pure (
            record { workspace = x; member_count = member_count; channel_count = channel_count }
            ∷ rest))
        db

  -- `where: { members: { some: { userId } } }, orderBy: { id: 'asc' }`; the argument is the order
  -- of texts in the database.
  unfoldable pub joined_workspaces :
      (Text → Text → Bool) → Text → Option Text → ℕ → Action (List Workspace)
  joined_workspaces before user_id cursor limit db =
      find_many workspaces
        (record {
          matches = λ x. any (is_member x.id user_id) db.workspace_members;
          precedes = λ a b. before a.id b.id;
          cursor = cursor_row (λ x. x.id) cursor;
          limit = some limit;
        })
        db

  unfoldable pub list_workspaces :
      (Text → Text → Bool) → Text → Option Text → Number → Action (Page WorkspaceView)
  list_workspaces before user_id cursor limit = do
    let bounded = bounded_limit limit 20 100
    rows ← joined_workspaces before user_id cursor bounded
    shown ← view_workspaces rows
    pure (record { rows = shown; cursor = page_cursor (λ x. x.id) rows bounded; limit = bounded })

  unfoldable pub view_workspace_members : List WorkspaceMember → Action (List WorkspaceMemberView)
  view_workspace_members [] db = (ok [], db)
  view_workspace_members (m ∷ rows) db =
      (do
        user ← find_unique users (λ u. text_eq u.id m.user_id)
        rest ← view_workspace_members rows
        pure (record { membership = m; profile = Option.map author_of user } ∷ rest))
        db

  unfoldable pub list_members : Text → Text → Action (List WorkspaceMemberView)
  list_members workspace_id requester_id = do
    ensure_membership workspace_id requester_id
    rows ← find_many workspace_members (record {
      matches = λ m. text_eq m.workspace_id workspace_id;
      precedes = joined_before;
      cursor = none;
      limit = none;
    })
    view_workspace_members rows
