-- ===== src/Workspaces.antt =====
-- services/workspace-service/src/workspaces/workspaces.service.ts: the checks of the service,
-- accepting and revoking invite links, and changing the role of a member. The modules below have
-- the other methods. A link is what the database keeps of it; the metadata of the audit log is left
-- out.
pub mod Creating
pub mod Links
pub mod Inviting
pub mod Founding
pub mod Invites
pub mod Roles
use Prim.Native.Char.{code}
use synapse_hub.Action.{
  World, Action, ◌>>=◌, ◌>>◌, find_unique, or_throw, not_found, forbidden, throw_if, pure, throw,
  update_row, create_row, bad_request, upsert, update_many, transaction,
}
use synapse_hub.Action.Tables.{
  workspaces, workspace_members, is_member, invite_links, audit_logs, member_key, acceptances,
  acceptance_key, users, is_acceptance,
}
use synapse_hub.Base.{
  Bool, true, false, none, some, leb, Option, ℕ, [], ◌∷◌, if◌then◌else◌, ◌==◌, ◌&&◌, not, ltb,
  is_some, ◌||◌, ◌+◌, count,
}
use synapse_hub.Messaging.Access.{is_empty}
use synapse_hub.Messaging.Mentions.{local_part}
use synapse_hub.Schema.{
  WorkspaceRole, owner, admin, WorkspaceInviteLink, Workspace, WorkspaceMember, is_owner,
  AuditAction, AuditLog,
}
use synapse_hub.Text.{Text, text_eq, codes, to_lower_case, trim}

-- What `acceptInviteLink` returns of an acceptance.
pub record Acceptance : Type 0 where
  pub already_accepted : Bool
  pub workspace_id : Text
  pub role : WorkspaceRole

-- `role === OWNER || role === ADMIN`
abbrev pub manages : WorkspaceRole → Bool
manages owner = true
manages admin = true
manages _ = false

-- `maxUses !== null && useCount >= maxUses`
unfoldable pub is_used_up : WorkspaceInviteLink → Bool
is_used_up l = elim l.max_uses [ none ↦ false | some n ↦ leb n l.use_count ]

-- `maxUses ?? 0`
abbrev pub uses_or_zero : Option ℕ → ℕ
uses_or_zero none = 0
uses_or_zero (some n) = n

-- `email.split('@')[1] ?? ''`
unfoldable pub domain_of : Text → Text
domain_of [] = []
domain_of (c ∷ s) = if c == 64 then local_part s else domain_of s

-- `where` of the reservation
abbrev pub is_reservable : ℕ → WorkspaceInviteLink → WorkspaceInviteLink → Bool
is_reservable now link l =
    text_eq l.id link.id
    && not l.is_revoked
    && ltb now l.expires_at
    && (not (is_some l.max_uses) || ltb l.use_count (uses_or_zero link.max_uses))

abbrev pub count_use : WorkspaceInviteLink → WorkspaceInviteLink
count_use l = record l { use_count = l.use_count + 1 }

abbrev pub revoke : WorkspaceInviteLink → WorkspaceInviteLink
revoke l = record l { is_revoked = true }

module _ ⦃w : World⦄ where
  unfoldable pub ensure_workspace : Text → Action Workspace
  ensure_workspace workspace_id = do
    workspace ← find_unique workspaces (λ x. text_eq x.id workspace_id)
    or_throw workspace (not_found "Workspace not found")

  -- `ensureWorkspaceMember` of this service.
  unfoldable pub ensure_membership : Text → Text → Action WorkspaceMember
  ensure_membership workspace_id user_id = do
    ensure_workspace workspace_id
    membership ← find_unique workspace_members (is_member workspace_id user_id)
    or_throw membership (forbidden "User is not a member of this workspace")

  unfoldable pub ensure_can_manage_members : WorkspaceRole → Action (Unit {0})
  ensure_can_manage_members role =
      throw_if (not (manages role)) (forbidden "User does not have permission to manage members")

  unfoldable pub ensure_workspace_manager : Text → Text → WorkspaceRole → Action WorkspaceMember
  ensure_workspace_manager workspace_id user_id invite_role = do
    membership ← ensure_membership workspace_id user_id
    ensure_can_manage_members membership.role
    throw_if (is_owner invite_role && not (is_owner membership.role))
        (forbidden "Only owner can invite another owner")
    pure membership

  -- `!inviteLink || inviteLink.workspaceId !== workspaceId`
  abbrev pub link_in : Text → Option WorkspaceInviteLink → Action WorkspaceInviteLink
  link_in workspace_id none = throw (not_found "Invite link not found")
  link_in workspace_id (some l) =
      throw_if (not (text_eq l.workspace_id workspace_id)) (not_found "Invite link not found")
      >> pure l

  abbrev pub audit_row : Text → Text → AuditAction → Text → Text → AuditLog
  audit_row workspace_id actor_id action target_type target_id = record {
    workspace_id = workspace_id;
    actor_id = some actor_id;
    action = action;
    target_type = target_type;
    target_id = some target_id;
  }

  unfoldable pub revoke_invite_link : Text → Text → Text → Action WorkspaceInviteLink
  revoke_invite_link workspace_id invite_link_id actor_id = do
    actor ← ensure_workspace_manager workspace_id actor_id WorkspaceRole.member
    row ← find_unique invite_links (λ l. text_eq l.id invite_link_id)
    link ← link_in workspace_id row
    throw_if (is_owner link.role && not (is_owner actor.role))
        (forbidden "Only owner can revoke owner invite links")
    updated ← update_row invite_links (λ l. text_eq l.id invite_link_id) revoke
    create_row audit_logs [] (
        audit_row workspace_id actor_id AuditAction.update (codes "workspace_invite_link")
          invite_link_id)
    pure updated

  unfoldable pub ensure_invite_link_can_be_accepted : WorkspaceInviteLink → Action (Unit {0})
  ensure_invite_link_can_be_accepted link = do
    throw_if link.is_revoked (bad_request "Invite link has been revoked")
    throw_if (leb link.expires_at w.now) (bad_request "Invite link has expired")
    throw_if (is_used_up link) (bad_request "Invite link usage limit reached")

  -- `inviteLink.invitedEmail && inviteLink.invitedEmail !== normalizedEmail`
  abbrev pub differs_if_given : Option Text → Text → Bool
  differs_if_given none x = false
  differs_if_given (some []) x = false
  differs_if_given (some (c ∷ s)) x = not (text_eq (c ∷ s) x)

  -- `if (inviteLink.allowedDomain) { ... }`
  abbrev pub outside_domain : Option Text → Text → Bool
  outside_domain none email = false
  outside_domain (some []) email = false
  outside_domain (some (c ∷ s)) email =
      not (text_eq (to_lower_case (domain_of email)) (to_lower_case (c ∷ s)))

  unfoldable pub ensure_invite_recipient_matches : WorkspaceInviteLink → Text → Action (Unit {0})
  ensure_invite_recipient_matches link user_email = do
    let email = to_lower_case (trim user_email)
    throw_if (differs_if_given link.invited_email email)
        (forbidden "Invite link is limited to a different email address")
    throw_if (outside_domain link.allowed_domain email)
        (forbidden "Invite link is restricted to a specific email domain")

  unfoldable pub join_workspace : WorkspaceInviteLink → Text → Action WorkspaceMember
  join_workspace link user_id =
      upsert workspace_members (is_member link.workspace_id user_id) (member_key ∷ [])
        (pure (record {
          workspace_id = link.workspace_id;
          user_id = user_id;
          role = link.role;
          invited_by_id = some link.invited_by_id;
          joined_at = w.now;
        }))
        (λ m. m)

  -- `reserve`: the number of links that have one more use.
  unfoldable pub reserve : WorkspaceInviteLink → Action ℕ
  reserve link = update_many invite_links (is_reservable w.now link) count_use

  -- The transaction after the reservation.
  unfoldable pub admit : WorkspaceInviteLink → Text → ℕ → Action WorkspaceMember
  admit link user_id count = do
    throw_if (not (count == 1)) (bad_request "Invite link is unavailable")
    membership ← join_workspace link user_id
    create_row acceptances (acceptance_key ∷ [])
        (record { invite_link_id = link.id; workspace_id = link.workspace_id; user_id = user_id })
    create_row audit_logs [] (
        audit_row link.workspace_id user_id AuditAction.invite (codes "workspace_invite_accept")
          link.id)
    pure membership

  -- The transaction, on the link as it was read before.
  unfoldable pub accept_reserved : WorkspaceInviteLink → Text → Action WorkspaceMember
  accept_reserved link user_id = transaction (reserve link >>= admit link user_id)

  abbrev pub accepted_as : Bool → WorkspaceMember → Acceptance
  accepted_as again m = record {
    already_accepted = again;
    workspace_id = m.workspace_id;
    role = m.role;
  }

  unfoldable pub accept_invite_link : Text → Text → Action Acceptance
  accept_invite_link code user_id = do
    throw_if (is_empty (trim code)) (bad_request "Invite code is required")
    row ← find_unique invite_links (λ l. text_eq l.code (trim code))
    link ← or_throw row (not_found "Invite link not found")
    person ← find_unique users (λ u. text_eq u.id user_id)
    user ← or_throw person (not_found "User not found")
    ensure_invite_link_can_be_accepted link
    ensure_invite_recipient_matches link user.email
    existing ← find_unique acceptances (is_acceptance link.id user_id)
    if is_some existing
        then (join_workspace link user_id >>= λ m. pure (accepted_as true m))
        else (accept_reserved link user_id >>= λ m. pure (accepted_as false m))

  unfoldable pub set_role : Text → Text → WorkspaceRole → Text → Action WorkspaceMember
  set_role workspace_id user_id role actor_id = do
    actor ← ensure_membership workspace_id actor_id
    ensure_can_manage_members actor.role
    target ← ensure_membership workspace_id user_id
    throw_if (is_owner target.role && not (is_owner actor.role))
        (forbidden "Only owner can update owner role")
    update_row workspace_members (is_member workspace_id user_id) (λ m. record m { role = role })
