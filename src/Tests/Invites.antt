-- ===== src/Tests/Invites.antt =====
-- Invite links and roles on the sample.

use synapse_hub.Action.{ok, Failure, err, forbidden, transaction}
use synapse_hub.Base.{none, some, false, ◌∷◌, [], All, refl, arith, ◌≡◌, true, ◌⊎◌}
use synapse_hub.Schema.{Workspace, WorkspaceInviteLink, WorkspaceRole, Db, owner, admin, guest}
use synapse_hub.Tests.Sample.{office, member_of, quiet}
use synapse_hub.Text.{codes, text_eq, trim, drop_space, is_space}
use synapse_hub.Workspaces.{
  accept_reserved, revoke_invite_link, ensure_workspace_manager, ensure_membership,
  ensure_workspace, ensure_can_manage_members, accept_invite_link, set_role,
  ensure_invite_link_can_be_accepted, ensure_invite_recipient_matches, is_used_up, reserve, admit,
  join_workspace,
}
use synapse_hub.Workspaces.Invites.{Bounded, accept_reserved-Bounded, revoke_closes}
use synapse_hub.Workspaces.Roles.{
  MaySet, with_role, set_role_cases, workspace_found, membership_of, set_role_escalates,
}

abbrev pub acme : Workspace
acme = record { id = codes "w"; name = codes "Acme"; slug = codes "acme"; owner_id = codes "a" }

abbrev once : WorkspaceInviteLink
once = record {
  id = codes "l";
  workspace_id = codes "w";
  invited_by_id = codes "a";
  code = codes "join";
  invited_email = none;
  role = WorkspaceRole.member;
  max_uses = some 1;
  use_count = 0;
  expires_at = 20000;
  allowed_domain = none;
  is_revoked = false;
  created_at = 4;
}

-- The sample with a link for one use, and bob an administrator.
abbrev pub open_office : Db
open_office = record office {
  workspaces = acme ∷ [];
  workspace_members = member_of "a" owner ∷ member_of "b" admin ∷ [];
  invite_links = once ∷ [];
}

accept_reserved-Bounded_example :
    All Bounded (accept_reserved ⦃w = quiet⦄ once (codes "c") open_office).1.invite_links
accept_reserved-Bounded_example =
    accept_reserved-Bounded ⦃w = quiet⦄ once (codes "c") open_office ((λ e. refl), tt)
      ((λ n e. omega arith), tt)

alice_revokes :
    (revoke_invite_link ⦃w = quiet⦄ (codes "w") (codes "l") (codes "a") open_office).0
    ≡ ok (record once { is_revoked = true })
unfolding revoke_invite_link ensure_workspace_manager ensure_membership ensure_workspace
    ensure_can_manage_members text_eq
alice_revokes = refl

revoked_found :
    quiet.prisma.find_unique
      (λ x. text_eq x.code (trim (codes "join")))
      (revoke_invite_link ⦃w = quiet⦄
        (codes "w")
        (codes "l")
        (codes "a")
        open_office).1.invite_links
    ≡ some (record once { is_revoked = true })
unfolding revoke_invite_link ensure_workspace_manager ensure_membership ensure_workspace
    ensure_can_manage_members text_eq trim drop_space is_space
revoked_found = refl

revoke_closes_example :
    let db' = (revoke_invite_link ⦃w = quiet⦄ (codes "w") (codes "l") (codes "a") open_office).1 in
    (e : Failure) × (accept_invite_link ⦃w = quiet⦄ (codes "join") (codes "c") db' ≡ (err e, db'))
revoke_closes_example =
    revoke_closes ⦃w = quiet⦄ (codes "w") (codes "l") (codes "a") (codes "join") (codes "c")
      open_office (record once { is_revoked = true }) (record once { is_revoked = true })
      alice_revokes revoked_found refl

set_role_cases_example :
    (MaySet ⦃w = quiet⦄ (codes "w") (codes "b") (codes "a") open_office
      × ((set_role ⦃w = quiet⦄ (codes "w") (codes "b") guest (codes "a") open_office).1
          ≡ with_role ⦃w = quiet⦄ (codes "w") (codes "b") guest open_office))
    ⊎ ((e : Failure) × (set_role ⦃w = quiet⦄ (codes "w") (codes "b") guest (codes "a") open_office
          ≡ (err e, open_office)))
set_role_cases_example =
    set_role_cases ⦃w = quiet⦄ (codes "w") (codes "b") (codes "a") guest open_office

acme_found : workspace_found ⦃w = quiet⦄ (codes "w") open_office ≡ some acme
unfolding text_eq
acme_found = refl

bob_is_admin :
    membership_of ⦃w = quiet⦄ (codes "w") (codes "b") open_office ≡ some (member_of "b" admin)
unfolding text_eq
bob_is_admin = refl

set_role_escalates_example :
    (set_role ⦃w = quiet⦄ (codes "w") (codes "b") owner (codes "b") open_office
      ≡ (ok (member_of "b" owner), with_role ⦃w = quiet⦄ (codes "w") (codes "b") owner open_office))
    × ((ensure_workspace_manager ⦃w = quiet⦄ (codes "w") (codes "b") owner open_office).0
        ≡ err (forbidden "Only owner can invite another owner"))
set_role_escalates_example =
    set_role_escalates ⦃w = quiet⦄ (codes "w") (codes "b") open_office acme (member_of "b" admin)
      acme_found bob_is_admin refl

carol_joins :
    (accept_invite_link ⦃w = quiet⦄ (codes " join ") (codes "c") open_office).0
    ≡ ok
        (record { already_accepted = false; workspace_id = codes "w"; role = WorkspaceRole.member })
unfolding accept_invite_link ensure_invite_link_can_be_accepted ensure_invite_recipient_matches
    is_used_up accept_reserved transaction reserve admit join_workspace trim drop_space is_space
    text_eq
carol_joins = refl
