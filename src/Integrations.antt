-- ===== src/Integrations.antt =====
-- services/workspace-service/src/integrations/integrations.service.ts: webhooks and custom events.
-- sha256 and `randomUUID` are those of the bots. The metadata of the audit log is left out.
pub mod Secrets
use synapse_hub.Action.{
  World, Action, ◌>>=◌, ◌>>◌, find_unique, or_throw, forbidden, throw_if, find_many, pure,
  not_found, draw, new_id, create_row,
}
use synapse_hub.Action.Tables.{
  workspace_members, is_member, integrations, integration_key, audit_logs,
}
use synapse_hub.Base.{
  Option, Bool, true, false, none, ◌||◌, some, not, List, ◌&&◌, ltb, map, ◌∷◌, [],
}
use synapse_hub.Bots.{BotSecrets}
use synapse_hub.Schema.{IntegrationType, Integration, webhook, custom, github, AuditAction}
use synapse_hub.Text.{Text, text_eq, given, or_else, codes}
use synapse_hub.Workspaces.{manages, audit_row}

pub record CreateIntegration : Type 0 where
  pub workspace_id : Text
  pub created_by_id : Option Text
  pub type : IntegrationType
  pub name : Text
  pub config : Text
  pub secret : Option Text

-- `{ ...publicIntegration, signingSecret }`
pub record NewIntegration : Type 0 where
  pub integration : Integration
  pub signing_secret : Text

pub record Accepted : Type 0 where
  pub provider : Text
  pub event : Option Text
  pub integration_id : Text

abbrev pub is_webhook : IntegrationType → Bool
is_webhook webhook = true
is_webhook _ = false

abbrev pub is_custom : IntegrationType → Bool
is_custom custom = true
is_custom _ = false

abbrev pub is_github : IntegrationType → Bool
is_github github = true
is_github _ = false

-- `type: type ?? { in: [WEBHOOK, CUSTOM] }`
abbrev pub is_of_type : Option IntegrationType → IntegrationType → Bool
is_of_type none t = is_webhook t || is_custom t
is_of_type (some webhook) t = is_webhook t
is_of_type (some custom) t = is_custom t
is_of_type (some github) t = is_github t

-- The row without its secret.
abbrev pub without_secret : Integration → Integration
without_secret i = record i { secret = none }

module _ ⦃w : World⦄ where
  -- `ensureWorkspaceAdminOrOwner` of integrations.service.ts.
  unfoldable pub ensure_integration_manager : Text → Text → Action (Unit {0})
  ensure_integration_manager workspace_id user_id = do
    row ← find_unique workspace_members (is_member workspace_id user_id)
    membership ← or_throw row (forbidden "User is not a member of this workspace")
    throw_if (not (manages membership.role))
        (forbidden "Only owner or admin can manage integrations")

  unfoldable pub list_integrations :
      Text → Text → Option IntegrationType → Action (List Integration)
  list_integrations workspace_id requester_id type = do
    ensure_integration_manager workspace_id requester_id
    rows ← find_many integrations (record {
      matches = λ i. text_eq i.workspace_id workspace_id && is_of_type type i.type;
      precedes = λ a b. ltb b.created_at a.created_at;
      cursor = none;
      limit = none;
    })
    pure (map without_secret rows)

  module _ ⦃s : BotSecrets⦄ where
    unfoldable pub ensure_integration : Text → Text → Action Integration
    ensure_integration integration_id provided_secret = do
      row ← find_unique integrations (λ i. text_eq i.id integration_id)
      found ← or_throw row (not_found "Integration not found or inactive")
      throw_if (not found.is_active) (not_found "Integration not found or inactive")
      kept ← or_throw (given found.secret) (forbidden "Integration secret is not configured")
      throw_if (not (text_eq kept (s.digest provided_secret)))
          (forbidden "Invalid integration secret")
      pure found

    abbrev pub insert_integration : CreateIntegration → Text → Action NewIntegration
    insert_integration dto actor_id = do
      ensure_integration_manager dto.workspace_id actor_id
      n ← draw
      id ← new_id
      let signing_secret = or_else dto.secret (s.random_id n)
      row ← create_row integrations (integration_key ∷ []) (record {
        id = id;
        workspace_id = dto.workspace_id;
        created_by_id = actor_id;
        type = dto.type;
        name = dto.name;
        config = dto.config;
        secret = some (s.digest signing_secret);
        is_active = true;
        created_at = w.now;
      })
      pure (record { integration = without_secret row; signing_secret = signing_secret })

    unfoldable pub create_integration : CreateIntegration → Action NewIntegration
    create_integration dto = do
      actor_id ← or_throw (given dto.created_by_id) (forbidden "Missing actor user id")
      insert_integration dto actor_id

    unfoldable pub handle_webhook_event : Text → Text → Action Accepted
    handle_webhook_event integration_id provided_secret = do
      found ← ensure_integration integration_id provided_secret
      create_row audit_logs [] (
          audit_row found.workspace_id found.created_by_id AuditAction.integration_event
            (codes "integration:webhook") found.id)
      pure (record { provider = codes "webhook"; event = none; integration_id = integration_id })

    unfoldable pub handle_custom_event : Text → Text → Text → Action Accepted
    handle_custom_event integration_id event provided_secret = do
      found ← ensure_integration integration_id provided_secret
      create_row audit_logs [] (
          audit_row found.workspace_id found.created_by_id AuditAction.integration_event
            (codes "integration:custom") found.id)
      pure (record {
        provider = codes "custom";
        event = some event;
        integration_id = integration_id;
      })
