-- ===== src/Workspaces/Inviting.antt =====
-- What comes of an invitation, the codes of links, and a new workspace.
use mathlib.Core.Path.{subst}
use synapse_hub.Action.{World, ok, Reply, background, err, forbidden}
use synapse_hub.Action.Tables.{is_member}
use synapse_hub.Auth.{has_email, normalize_email}
use synapse_hub.Base.{
  Bool, ℕ, ◌+◌, any, ◌≡◌, false, suc, ◌⊎◌, true, Option-cases, inl, arith, inr, ◌<◌, zero, ap, ◌∙◌,
  some, map_where, refl,
}
use synapse_hub.Email.{MailSettings}
use synapse_hub.Email.Untouched.{send_mail-Keeps}
use synapse_hub.Prisma.Laws.{find_unique-any}
use synapse_hub.Schema.{
  WorkspaceInviteLink, Db, WorkspaceRole, WorkspaceMember, User, Workspace, admin, guest, owner,
}
use synapse_hub.Text.{Text, text_eq}
use synapse_hub.Workspaces.{
  ensure_membership, ensure_workspace, ensure_can_manage_members, set_role,
}
use synapse_hub.Workspaces.Links.{
  LinkSettings, code_rounds, generate_unique_invite_code, add_member, invite_person,
  member_added_mail, invite_to_workspace, Invitation,
}
use synapse_hub.Workspaces.Roles.{membership_of, workspace_found}

module _ ⦃w : World⦄ ⦃s : LinkSettings⦄ where
  abbrev pub has_code : Text → WorkspaceInviteLink → Bool
  has_code x l = text_eq l.code x

  -- The code that the round after `j` others draws.
  abbrev pub drawn : ℕ → Db → Text
  drawn j db = s.random_code (db.issued + j)

  abbrev pub is_used_code : Text → Db → Bool
  is_used_code x db = any (has_code x) db.invite_links

  code_rounds_step :
      (n : ℕ) (db : Db)
      → ((is_used_code (s.random_code db.issued) db ≡ false)
          × (code_rounds (suc n) db
              ≡ (ok (s.random_code db.issued), record db { issued = db.issued + 1 })))
        ⊎ ((is_used_code (s.random_code db.issued) db ≡ true)
            × (code_rounds (suc n) db ≡ code_rounds n (record db { issued = db.issued + 1 })))
  unfolding code_rounds
  code_rounds_step n db =
      let any_row = find_unique-any w.prisma (has_code (s.random_code db.issued)) db.invite_links in
      elim (Option-cases
        (w.prisma.find_unique (has_code (s.random_code db.issued)) db.invite_links)) [
          | inl free ↦ inl (ground arith, ground arith)
          | inr (l, found) ↦ inr (ground arith, ground arith)
        ]

  code_rounds_live :
      (n j : ℕ) (db : Db)
      → j < n
      → is_used_code (drawn j db) db ≡ false
      → (x : Text) × ((code_rounds n db).0 ≡ ok x) × (is_used_code x db ≡ false)
  code_rounds_live zero j db less free = let clash : zero ≡ suc zero = omega arith in cc clash
  code_rounds_live (suc n) zero db less free = elim (code_rounds_step n db) [
    | inl (unused, e) ↦ (s.random_code db.issued, ap (λ (r : Reply Text × Db). r.0) e, unused)
    | inr (used, e) ↦
        let here : db.issued + zero ≡ db.issued = omega arith in
        let unused : is_used_code (s.random_code db.issued) db ≡ false =
          subst (λ i. is_used_code (s.random_code i) db ≡ false) here free in
        cc (used, unused)
  ]
  code_rounds_live (suc n) (suc j) db less free = elim (code_rounds_step n db) [
    | inl (unused, e) ↦ (s.random_code db.issued, ap (λ (r : Reply Text × Db). r.0) e, unused)
    | inr (used, e) ↦
        let there : db.issued + suc j ≡ db.issued + 1 + j = omega arith in
        let next : is_used_code (s.random_code (db.issued + 1 + j)) db ≡ false =
          subst (λ i. is_used_code (s.random_code i) db ≡ false) there free in
        let (x, gives, unused) =
          code_rounds_live n j (record db { issued = db.issued + 1 }) (omega arith) next in
        (x, ap (λ (r : Reply Text × Db). r.0) e ∙ gives, unused)
  ]

  -- If one of the next five random codes is not in use, the loop returns a code, and the code that
  -- it returns is not in use.
  pub generate_unique_invite_code_live :
      (j : ℕ) (db : Db)
      → j < 5
      → is_used_code (drawn j db) db ≡ false
      → (x : Text) × ((generate_unique_invite_code db).0 ≡ ok x) × (is_used_code x db ≡ false)
  unfolding generate_unique_invite_code
  generate_unique_invite_code_live j db less free = code_rounds_live 5 j db less free

  module _ ⦃m : MailSettings⦄ where
    abbrev pub reinvited : WorkspaceRole → Text → WorkspaceMember → WorkspaceMember
    reinvited role actor_id x = record x { role = role; invited_by_id = some actor_id }

    add_member_again :
        (workspace_id user_id actor_id : Text) (role : WorkspaceRole) (db : Db)
        (target : WorkspaceMember)
        → membership_of workspace_id user_id db ≡ some target
        → add_member workspace_id user_id role actor_id db ≡ (
          ok (reinvited role actor_id target),
          record db {
            workspace_members =
                map_where
                  (is_member workspace_id user_id)
                  (reinvited role actor_id)
                  db.workspace_members;
          },
        )
    unfolding add_member
    add_member_again workspace_id user_id actor_id role db target found = ground (
      arith,
      w.prisma.update_many_lem (is_member workspace_id user_id) (reinvited role actor_id)
          db.workspace_members,
    )

    invited_members :
        (workspace_id name email actor_id : Text) (role : WorkspaceRole) (db : Db) (u : User)
        (target : WorkspaceMember)
        → membership_of workspace_id u.id db ≡ some target
        → (invite_person workspace_id name email role actor_id (some u) db).1.workspace_members
          ≡ map_where (is_member workspace_id u.id) (reinvited role actor_id) db.workspace_members
    unfolding invite_person background
    invited_members workspace_id name email actor_id role db u target theirs =
        let added = add_member_again workspace_id u.id actor_id role db target theirs in
        let changed : Db = record db {
          workspace_members =
              map_where (is_member workspace_id u.id) (reinvited role actor_id)
                db.workspace_members;
        } in
        let mailed =
          send_mail-Keeps (λ d. d.workspace_members) (member_added_mail email name) (λ l d. refl)
            changed in
        ground arith

    invite_known :
        (workspace_id email actor_id : Text) (db : Db) (x : Workspace) (actor : WorkspaceMember)
        (u : User)
        → workspace_found workspace_id db ≡ some x
        → membership_of workspace_id actor_id db ≡ some actor
        → actor.role ≡ admin
        → w.prisma.find_unique (has_email (normalize_email email)) db.users ≡ some u
        → invite_to_workspace workspace_id email guest actor_id db
          ≡ invite_person workspace_id x.name (normalize_email email) guest actor_id (some u) db
    unfolding invite_to_workspace ensure_membership ensure_workspace ensure_can_manage_members
    invite_known workspace_id email actor_id db x actor u here mine rank known = ground arith

    -- An administrator who invites the email of an owner of the workspace as a guest makes that
    -- owner a guest, while setRole refuses the same administrator the same change. The workspace,
    -- both members and the user of the email are in the database.
    pub invite_demotes_owner :
        (workspace_id email actor_id : Text) (db : Db) (x : Workspace)
        (actor target : WorkspaceMember) (u : User)
        → workspace_found workspace_id db ≡ some x
        → membership_of workspace_id actor_id db ≡ some actor
        → actor.role ≡ admin
        → w.prisma.find_unique (has_email (normalize_email email)) db.users ≡ some u
        → membership_of workspace_id u.id db ≡ some target
        → target.role ≡ owner
        → ((invite_to_workspace workspace_id email guest actor_id db).1.workspace_members
            ≡ map_where
                (is_member workspace_id u.id)
                (reinvited guest actor_id)
                db.workspace_members)
          × (set_role workspace_id u.id guest actor_id db
              ≡ (err (forbidden "Only owner can update owner role"), db))
    unfolding set_role ensure_membership ensure_workspace ensure_can_manage_members
    invite_demotes_owner workspace_id email actor_id db x actor target u here mine rank known theirs
          high =
        (
          ap (λ (r : Reply Invitation × Db). r.1.workspace_members)
                (invite_known workspace_id email actor_id db x actor u here mine rank known)
              ∙ invited_members workspace_id x.name (normalize_email email) actor_id guest db u
                  target theirs,
          ground arith,
        )
