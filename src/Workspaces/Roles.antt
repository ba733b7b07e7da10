-- ===== src/Workspaces/Roles.antt =====
-- Who may change the role of a member of a workspace.

use synapse_hub.Action.{World, ok, Failure, err, forbidden, not_found, Reply}
use synapse_hub.Action.Tables.{is_member}
use synapse_hub.Base.{
  Option, ◌≡◌, some, true, ◌&&◌, not, false, map_where, arith, ◌⊎◌, Bool-cases, inr, inl,
  Option-cases, none, ap,
}
use synapse_hub.Schema.{Db, Workspace, WorkspaceMember, is_owner, WorkspaceRole, admin, owner}
use synapse_hub.Text.{Text, text_eq}
use synapse_hub.Workspaces.{
  manages, set_role, ensure_membership, ensure_workspace, ensure_can_manage_members,
  ensure_workspace_manager,
}

module _ ⦃w : World⦄ where
  abbrev pub workspace_found : Text → Db → Option Workspace
  workspace_found workspace_id db =
      w.prisma.find_unique (λ x. text_eq x.id workspace_id) db.workspaces

  abbrev pub membership_of : Text → Text → Db → Option WorkspaceMember
  membership_of workspace_id user_id db =
      w.prisma.find_unique (is_member workspace_id user_id) db.workspace_members

  -- The actor manages the workspace, and is an owner of it if the member is one.
  abbrev pub MaySet : Text → Text → Text → Db → Type 0
  MaySet workspace_id user_id actor_id db =
      (actor : WorkspaceMember) × (target : WorkspaceMember) × (membership_of workspace_id actor_id
          db
        ≡ some actor)
      × (membership_of workspace_id user_id db ≡ some target)
      × (manages actor.role ≡ true)
      × ((is_owner target.role && not (is_owner actor.role)) ≡ false)

  abbrev pub with_role : Text → Text → WorkspaceRole → Db → Db
  with_role workspace_id user_id role db = record db {
    workspace_members =
        map_where (is_member workspace_id user_id) (λ m. record m { role = role })
          db.workspace_members;
  }

  set_role_granted :
      (workspace_id user_id actor_id : Text) (role : WorkspaceRole) (db : Db) (x : Workspace)
      (actor target : WorkspaceMember)
      → workspace_found workspace_id db ≡ some x
      → membership_of workspace_id actor_id db ≡ some actor
      → membership_of workspace_id user_id db ≡ some target
      → manages actor.role ≡ true
      → (is_owner target.role && not (is_owner actor.role)) ≡ false
      → set_role workspace_id user_id role actor_id db
        ≡ (ok (record target { role = role }), with_role workspace_id user_id role db)
  unfolding set_role ensure_membership ensure_workspace ensure_can_manage_members
  set_role_granted workspace_id user_id actor_id role db x actor target here mine theirs may
        allowed =
      ground (
        arith,
        w.prisma.update_many_lem (is_member workspace_id user_id) (λ m. record m { role = role })
            db.workspace_members,
      )

  set_role_refused :
      (workspace_id user_id actor_id : Text) (role : WorkspaceRole) (db : Db) (x : Workspace)
      (actor : WorkspaceMember)
      → workspace_found workspace_id db ≡ some x
      → membership_of workspace_id actor_id db ≡ some actor
      → MaySet workspace_id user_id actor_id db
        ⊎ ((e : Failure) × (set_role workspace_id user_id role actor_id db ≡ (err e, db)))
  unfolding set_role ensure_membership ensure_workspace ensure_can_manage_members
  set_role_refused workspace_id user_id actor_id role db x actor here mine =
      elim (Bool-cases (manages actor.role)) [
        | inr low ↦ inr (forbidden "User does not have permission to manage members", ground arith)
        | inl may ↦ elim (Option-cases (membership_of workspace_id user_id db)) [
          | inl nobody ↦ inr (forbidden "User is not a member of this workspace", ground arith)
          | inr (target, theirs) ↦
              elim (Bool-cases (is_owner target.role && not (is_owner actor.role))) [
                | inl above ↦ inr (forbidden "Only owner can update owner role", ground arith)
                | inr allowed ↦ inl (actor, target, mine, theirs, may, allowed)
              ]
        ]
      ]

  set_role_no_workspace :
      (workspace_id user_id actor_id : Text) (role : WorkspaceRole) (db : Db)
      → workspace_found workspace_id db ≡ none
      → set_role workspace_id user_id role actor_id db ≡ (err (not_found "Workspace not found"), db)
  unfolding set_role ensure_membership ensure_workspace
  set_role_no_workspace workspace_id user_id actor_id role db gone = ground arith

  set_role_no_actor :
      (workspace_id user_id actor_id : Text) (role : WorkspaceRole) (db : Db) (x : Workspace)
      → workspace_found workspace_id db ≡ some x
      → membership_of workspace_id actor_id db ≡ none
      → set_role workspace_id user_id role actor_id db
        ≡ (err (forbidden "User is not a member of this workspace"), db)
  unfolding set_role ensure_membership ensure_workspace
  set_role_no_actor workspace_id user_id actor_id role db x here out = ground arith

  -- Setting a role either throws and changes nothing, or the actor is an owner or administrator of
  -- the workspace, and an owner if the member is one, and then the role of that member is set and
  -- nothing else changes.
  pub set_role_cases :
      (workspace_id user_id actor_id : Text) (role : WorkspaceRole) (db : Db)
      → (MaySet workspace_id user_id actor_id db
          × ((set_role workspace_id user_id role actor_id db).1
              ≡ with_role workspace_id user_id role db))
        ⊎ ((e : Failure) × (set_role workspace_id user_id role actor_id db ≡ (err e, db)))
  set_role_cases workspace_id user_id actor_id role db =
      elim (Option-cases (workspace_found workspace_id db)) [
        | inl gone ↦ inr (
          not_found "Workspace not found",
          set_role_no_workspace workspace_id user_id actor_id role db gone,
        )
        | inr (x, here) ↦ elim (Option-cases (membership_of workspace_id actor_id db)) [
          | inl out ↦ inr (
            forbidden "User is not a member of this workspace",
            set_role_no_actor workspace_id user_id actor_id role db x here out,
          )
          | inr (actor, mine) ↦
              elim (set_role_refused workspace_id user_id actor_id role db x actor here mine) [
                | inr refused ↦ inr refused
                | inl (a, t, own, theirs, may, allowed) ↦ inl (
                  (a, t, own, theirs, may, allowed),
                  ap (λ (r : Reply WorkspaceMember × Db). r.1)
                      (set_role_granted workspace_id user_id actor_id role db x a t here own theirs
                        may allowed),
                )
              ]
        ]
      ]

  -- An administrator of a workspace makes themselves its owner by setting their own role, while
  -- the check of invitations refuses them to invite an owner.
  pub set_role_escalates :
      (workspace_id actor_id : Text) (db : Db) (x : Workspace) (actor : WorkspaceMember)
      → workspace_found workspace_id db ≡ some x
      → membership_of workspace_id actor_id db ≡ some actor
      → actor.role ≡ admin
      → (set_role workspace_id actor_id owner actor_id db
          ≡ (ok (record actor { role = owner }), with_role workspace_id actor_id owner db))
        × ((ensure_workspace_manager workspace_id actor_id owner db).0
            ≡ err (forbidden "Only owner can invite another owner"))
  unfolding ensure_workspace_manager ensure_membership ensure_workspace ensure_can_manage_members
  set_role_escalates workspace_id actor_id db x actor here mine rank = (
    set_role_granted workspace_id actor_id actor_id owner db x actor actor here mine mine
        (ground arith) (ground arith),
    ground arith,
  )
