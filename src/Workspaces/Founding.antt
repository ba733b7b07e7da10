-- ===== src/Workspaces/Founding.antt =====
-- What a new workspace starts with.
use synapse_hub.Action.{World, Failure, err, ok, transaction, p2002, not_found, bad_request}
use synapse_hub.Action.Frame.{create_row_cases}
use synapse_hub.Action.Tables.{workspaces, workspace_members, slug_key, member_key}
use synapse_hub.Base.{
  none, ◌++◌, ◌∷◌, [], ◌≡◌, ◌⊎◌, any, false, inr, inl, arith, ℕ, true, ◌+◌, Option-cases,
}
use synapse_hub.Prisma.Laws.{find_unique_matches}
use synapse_hub.Schema.{WorkspaceMember, owner, Db, Workspace, AuditLog, AuditAction, User}
use synapse_hub.Text.{Text, text_eq, codes}
use synapse_hub.Workspaces.{audit_row}
use synapse_hub.Workspaces.Creating.{
  CreateWorkspace, insert_workspace, create_workspace, store_workspace,
}

module _ ⦃w : World⦄ where
  abbrev pub founder : Text → Text → WorkspaceMember
  founder workspace_id user_id = record {
    workspace_id = workspace_id;
    user_id = user_id;
    role = owner;
    invited_by_id = none;
    joined_at = w.now;
  }

  abbrev pub founded : CreateWorkspace → Text → Db → Workspace
  founded dto owner_id db = record {
    id = w.uuid db.issued;
    name = dto.name;
    slug = dto.slug;
    owner_id = owner_id;
  }

  abbrev pub with_workspace : Workspace → Db → Db
  with_workspace x db = record db {
    workspaces = db.workspaces ++ x ∷ [];
    workspace_members = db.workspace_members ++ founder x.id x.owner_id ∷ [];
  }

  insert_workspace_cases :
      (x : Workspace) (db : Db)
      → ((e : Failure) × (insert_workspace x db ≡ (err e, db)))
        ⊎ ((any (λ y. text_eq y.slug x.slug) db.workspaces ≡ false)
            × (insert_workspace x db ≡ (ok x, with_workspace x db)))
  unfolding insert_workspace transaction
  insert_workspace_cases x db = elim (create_row_cases workspaces (slug_key ∷ []) x db) [
    | inr (k, taken, e) ↦ inl (p2002 k, ground arith)
    | inl (free, e) ↦
        elim (create_row_cases workspace_members (member_key ∷ []) (founder x.id x.owner_id)
          (record db { workspaces = db.workspaces ++ x ∷ [] })) [
            | inr (k, taken, f) ↦ inl (p2002 k, ground arith)
            | inl (alone, f) ↦ inr (ground arith, ground arith)
          ]
  ]

  abbrev pub founding_row : Workspace → AuditLog
  founding_row x = audit_row x.id x.owner_id AuditAction.create (codes "workspace") x.id

  -- Creating a workspace either throws and changes no table, or the slug was free, and then the
  -- workspace, its owner as the one member with the role OWNER and a row of the audit log are added,
  -- and nothing else changes.
  pub create_workspace_cases :
      (dto : CreateWorkspace) (owner_id : Text) (db : Db)
      → ((e : Failure) × (n : ℕ) × (create_workspace dto owner_id db
            ≡ (err e, record db { issued = n })))
        ⊎ ((u : User) × (text_eq u.id owner_id ≡ true)
            × (any (λ y. text_eq y.slug dto.slug) db.workspaces ≡ false)
            × (create_workspace dto owner_id db ≡ (
              ok (founded dto u.id db),
              record (with_workspace (founded dto u.id db) db) {
                audit_logs = db.audit_logs ++ founding_row (founded dto u.id db) ∷ [];
                issued = db.issued + 1;
              },
            )))
  unfolding create_workspace store_workspace
  create_workspace_cases dto owner_id db =
      elim (Option-cases (w.prisma.find_unique (λ (u : User). text_eq u.id owner_id) db.users)) [
        | inl gone ↦ inl (not_found "Owner user not found", db.issued, ground arith)
        | inr (u, found) ↦
            let hit =
              find_unique_matches w.prisma (λ (y : User). text_eq y.id owner_id) db.users u found in
            elim (insert_workspace_cases (founded dto u.id db)
              (record db { issued = db.issued + 1 })) [
                | inl (e, fails) ↦
                    inl (bad_request "Workspace slug already exists", db.issued + 1, ground arith)
                | inr (free, stores) ↦ inr (
                  u,
                  hit,
                  free,
                  ground (
                    arith,
                    w.prisma.create_lem [] (founding_row (founded dto u.id db)) db.audit_logs,
                  ),
                )
              ]
      ]
