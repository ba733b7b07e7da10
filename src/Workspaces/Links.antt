-- ===== src/Workspaces/Links.antt =====
-- services/workspace-service/src/workspaces/workspaces.service.ts: inviting somebody, and the links
-- that a workspace hands out. The environment and the random codes are parameters.
use mathlib.Core.Option
use synapse_hub.Action.{
  World, Action, pure, throw, bad_request, ◌>>=◌, ◌>>◌, draw, find_unique, new_id, create_row, ok,
  find_many, upsert, background, throw_if, forbidden, or_throw, not_found,
}
use synapse_hub.Action.Tables.{
  invite_links, code_key, audit_logs, users, workspace_members, is_member, member_key, workspaces,
}
use synapse_hub.Auth.{web_url, escape_html, normalize_email, has_email}
use synapse_hub.Base.{
  Option, ℕ, Bool, [], ◌∷◌, if◌then◌else◌, ◌==◌, none, some, ◌++◌, zero, suc, ◌+◌, ◌*◌, false, List,
  ltb, ◌&&◌, not,
}
use synapse_hub.Email.{MailSettings, send_mail}
use synapse_hub.Schema.{
  WorkspaceRole, WorkspaceMember, User, WorkspaceInviteLink, Mail, AuditAction, is_owner,
}
use synapse_hub.Text.{Text, given, to_lower_case, trim, codes, text_eq}
use synapse_hub.Workspaces.{
  audit_row, ensure_workspace_manager, ensure_membership, ensure_can_manage_members,
}

-- `process.env.PUBLIC_WEB_URL`, and `randomBytes(18).toString('base64url')` by the count of values
-- drawn before.
pub record LinkSettings : Type 0 where
  pub public_base : Option Text
  pub random_code : ℕ → Text

pub record CreateInviteLink : Type 0 where
  pub role : Option WorkspaceRole
  pub expires_in_hours : Option ℕ
  pub max_uses : Option ℕ
  pub allowed_domain : Option Text

pub record LinkOptions : Type 0 where
  pub role : WorkspaceRole
  pub expires_in_hours : ℕ
  pub max_uses : Option ℕ
  pub invited_email : Option Text
  pub allowed_domain : Option Text

pub record Inviter : Type 0 where
  pub id : Text
  pub email : Text
  pub display_name : Text

-- What `serializeInviteLink` returns; `updatedAt` is left out.
pub record InviteLinkView : Type 0 where
  pub id : Text
  pub workspace_id : Text
  pub role : WorkspaceRole
  pub max_uses : Option ℕ
  pub use_count : ℕ
  pub expires_at : ℕ
  pub allowed_domain : Option Text
  pub invited_email : Option Text
  pub is_revoked : Bool
  pub created_at : ℕ
  pub invite_url : Text
  pub invited_by : Option Inviter

-- What `invite` returns.
pub data Invitation : Type 0 where
  member_added : WorkspaceMember → Option Inviter → Invitation
  link_sent : Text → InviteLinkView → Invitation

-- `.replace(/^@/, '')`
unfoldable pub without_at : Text → Text
without_at [] = []
without_at (c ∷ s) = if c == 64 then s else c ∷ s

unfoldable pub normalize_domain : Option Text → Option Text
normalize_domain domain = elim (given domain) [
  | none ↦ none
  | some d ↦ given (some (without_at (to_lower_case (trim d))))
]

abbrev pub inviter_of : User → Inviter
inviter_of u = record { id = u.id; email = u.email; display_name = u.display_name }

-- `dto.role ?? 'MEMBER'`
abbrev pub role_or_member : Option WorkspaceRole → WorkspaceRole
role_or_member none = WorkspaceRole.member
role_or_member (some r) = r

abbrev pub hours_or : Option ℕ → ℕ → ℕ
hours_or none n = n
hours_or (some h) n = h

module _ ⦃s : LinkSettings⦄ where
  unfoldable pub invite_url_for : Text → Text
  invite_url_for link_code = web_url s.public_base ++ codes "/invite/" ++ link_code

  unfoldable pub serialize_invite_link : WorkspaceInviteLink → Option Inviter → InviteLinkView
  serialize_invite_link l invited_by = record {
    id = l.id;
    workspace_id = l.workspace_id;
    role = l.role;
    max_uses = l.max_uses;
    use_count = l.use_count;
    expires_at = l.expires_at;
    allowed_domain = l.allowed_domain;
    invited_email = l.invited_email;
    is_revoked = l.is_revoked;
    created_at = l.created_at;
    invite_url = invite_url_for l.code;
    invited_by = invited_by;
  }

  -- `<a href="${url}">${url}</a></p>`
  abbrev pub anchor_to : Text → Text
  anchor_to url = codes "<a href=\"" ++ url ++ codes "\">" ++ url ++ codes "</a></p>"

  unfoldable pub invite_mail : Text → Text → Text → Mail
  invite_mail email workspace_name link_code = record {
    to = email;
    subject = codes "Invitation to join " ++ workspace_name ++ codes " on SynapseHub";
    body =
        codes "You were invited to join "
        ++ workspace_name
        ++ codes ". Accept invitation: "
        ++ invite_url_for link_code;
    html = some (
        codes "<p>You were invited to join <strong>"
        ++ escape_html workspace_name
        ++ codes "</strong>.</p><p>Accept invitation: "
        ++ anchor_to (invite_url_for link_code));
  }

  unfoldable pub member_added_mail : Text → Text → Mail
  member_added_mail email workspace_name = record {
    to = email;
    subject = codes "You were added to " ++ workspace_name ++ codes " on SynapseHub";
    body =
        codes "You were added to "
        ++ workspace_name
        ++ codes ". Open workspace settings: "
        ++ web_url s.public_base
        ++ codes "/workspace";
    html = some (
        codes "<p>You were added to <strong>"
        ++ escape_html workspace_name
        ++ codes "</strong>.</p><p>Open workspace settings: "
        ++ anchor_to (web_url s.public_base ++ codes "/workspace"));
  }

module _ ⦃w : World⦄ ⦃s : LinkSettings⦄ where
  -- `if (!existing) { return link_code; }`, else the rounds that are left
  abbrev pub code_or_retry : Text → Option WorkspaceInviteLink → Action Text → Action Text
  code_or_retry link_code none rest = pure link_code
  code_or_retry link_code (some l) rest = rest

  unfoldable pub code_rounds : ℕ → Action Text
  code_rounds zero = throw (bad_request "Unable to generate invite link")
  code_rounds (suc n) = do
    k ← draw
    existing ← find_unique invite_links (λ l. text_eq l.code (s.random_code k))
    code_or_retry (s.random_code k) existing (code_rounds n)

  unfoldable pub generate_unique_invite_code : Action Text
  generate_unique_invite_code = code_rounds 5

  abbrev pub link_row : Text → Text → LinkOptions → Text → Text → WorkspaceInviteLink
  link_row workspace_id actor_id options link_code id = record {
    id = id;
    workspace_id = workspace_id;
    invited_by_id = actor_id;
    code = link_code;
    invited_email = Option.map normalize_email (given options.invited_email);
    role = options.role;
    max_uses = options.max_uses;
    use_count = 0;
    expires_at = w.now + options.expires_in_hours * 60 * 60 * 1000;
    allowed_domain = normalize_domain options.allowed_domain;
    is_revoked = false;
    created_at = w.now;
  }

  unfoldable pub create_invite_link_entity : Text → Text → LinkOptions → Action WorkspaceInviteLink
  create_invite_link_entity workspace_id actor_id options = do
    link_code ← generate_unique_invite_code
    id ← new_id
    link ←
        create_row invite_links (code_key ∷ [])
          (link_row workspace_id actor_id options link_code id)
    create_row audit_logs []
        (audit_row workspace_id actor_id AuditAction.invite (codes "workspace_invite_link") link.id)
    pure link

  unfoldable pub create_invite_link : Text → Text → CreateInviteLink → Action InviteLinkView
  create_invite_link workspace_id actor_id dto = do
    ensure_workspace_manager workspace_id actor_id (role_or_member dto.role)
    link ← create_invite_link_entity workspace_id actor_id (record {
      role = role_or_member dto.role;
      expires_in_hours = hours_or dto.expires_in_hours 72;
      max_uses = dto.max_uses;
      invited_email = none;
      allowed_domain = dto.allowed_domain;
    })
    pure (serialize_invite_link link none)

  unfoldable pub view_links : List WorkspaceInviteLink → Action (List InviteLinkView)
  view_links [] db = (ok [], db)
  view_links (l ∷ rows) db =
      (do
        person ← find_unique users (λ u. text_eq u.id l.invited_by_id)
        rest ← view_links rows
        pure (serialize_invite_link l (Option.map inviter_of person) ∷ rest))
        db

  unfoldable pub list_invite_links : Text → Text → Action (List InviteLinkView)
  list_invite_links workspace_id actor_id = do
    ensure_workspace_manager workspace_id actor_id WorkspaceRole.member
    rows ← find_many invite_links (record {
      matches = λ l. text_eq l.workspace_id workspace_id;
      precedes = λ a b. ltb b.created_at a.created_at;
      cursor = none;
      limit = none;
    })
    view_links rows

  module _ ⦃m : MailSettings⦄ where
    -- `upsert` of a member with a role
    unfoldable pub add_member : Text → Text → WorkspaceRole → Text → Action WorkspaceMember
    add_member workspace_id user_id role actor_id =
        upsert workspace_members (is_member workspace_id user_id) (member_key ∷ [])
          (pure (record {
            workspace_id = workspace_id;
            user_id = user_id;
            role = role;
            invited_by_id = some actor_id;
            joined_at = w.now;
          }))
          (λ x. record x { role = role; invited_by_id = some actor_id })

    -- `if (existingUser) { ... }`, else a link for one use
    unfoldable pub invite_person :
        Text → Text → Text → WorkspaceRole → Text → Option User → Action Invitation
    invite_person workspace_id name email role actor_id (some u) = do
      membership ← add_member workspace_id u.id role actor_id
      background (send_mail (member_added_mail email name))
      pure (member_added membership (some (inviter_of u)))
    invite_person workspace_id name email role actor_id none = do
      link ← create_invite_link_entity workspace_id actor_id (record {
        role = role;
        expires_in_hours = 72;
        max_uses = some 1;
        invited_email = some email;
        allowed_domain = none;
      })
      background (send_mail (invite_mail email name link.code))
      pure (link_sent email (serialize_invite_link link none))

    unfoldable pub invite_to_workspace : Text → Text → WorkspaceRole → Text → Action Invitation
    invite_to_workspace workspace_id email role actor_id = do
      actor ← ensure_membership workspace_id actor_id
      ensure_can_manage_members actor.role
      throw_if (is_owner role && not (is_owner actor.role))
          (forbidden "Only owner can invite another owner")
      row ← find_unique workspaces (λ x. text_eq x.id workspace_id)
      x ← or_throw row (not_found "Workspace not found")
      existing ← find_unique users (has_email (normalize_email email))
      invite_person workspace_id x.name (normalize_email email) role actor_id existing
