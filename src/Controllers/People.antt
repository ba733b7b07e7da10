-- ===== src/Controllers/People.antt =====
-- users.controller.ts, notifications.controller.ts, bots.controller.ts and
-- integrations.controller.ts: routes that ask for the user, for another header, or for none.
use synapse_hub.Action.{Action, or_throw, unauthorized, World, ◌>>=◌, throw_if, forbidden, ◌>>◌}
use synapse_hub.Base.{Option, List, Bool, not, some}
use synapse_hub.Bots.{
  CreateBot, BotEventInput, NewBot, BotView, CommandResult, BotSecrets, create_bot, list_bots,
  record_event, run_slash_command, send_bot_message,
}
use synapse_hub.Controllers.{require_user_id, limit_or}
use synapse_hub.Integrations.{
  CreateIntegration, NewIntegration, Accepted, create_integration, list_integrations,
  handle_webhook_event, handle_custom_event,
}
use synapse_hub.Notifications.{
  EmitNotification, Emission, Inbox, emit_notification, list_notifications, mark_read,
}
use synapse_hub.Pagination.{Number, Page}
use synapse_hub.Schema.{IntegrationType, User, Notification, BotEvent, Message, Integration}
use synapse_hub.Text.{Text, given, text_eq, or_else, codes}
use synapse_hub.Users.{
  UpdateUser, get_or_create_user, get_user_by_id, update_user_by_id, find_users,
}

pub data UsersRequest : Type 0 where
  get_me : UsersRequest
  get_user : Text → UsersRequest
  patch_user : Text → UpdateUser → UsersRequest
  get_users : Option Text → Option Text → Option Number → Option Text → UsersRequest

pub data NotificationsRequest : Type 0 where
  post_emit : EmitNotification → NotificationsRequest
  get_notifications : Text → Option Text → Option Number → NotificationsRequest
  patch_read : Text → NotificationsRequest

pub data BotsRequest : Type 0 where
  post_bot : CreateBot → BotsRequest
  get_bots : Text → BotsRequest
  post_event : Text → BotEventInput → BotsRequest
  post_command post_bot_message : Text → Text → Text → BotsRequest

pub data IntegrationsRequest : Type 0 where
  post_integration : CreateIntegration → IntegrationsRequest
  get_integrations : Text → Option IntegrationType → IntegrationsRequest
  post_webhook_event : Text → IntegrationsRequest
  post_custom_event : Text → Option Text → IntegrationsRequest

abbrev pub UsersAnswer : UsersRequest → Type 0
UsersAnswer get_me = User
UsersAnswer (get_user id) = User
UsersAnswer (patch_user id dto) = User
UsersAnswer (get_users q cursor limit x) = Page User

abbrev pub NotificationsAnswer : NotificationsRequest → Type 0
NotificationsAnswer (post_emit dto) = Emission
NotificationsAnswer (get_notifications u cursor limit) = Inbox
NotificationsAnswer (patch_read n) = Notification

abbrev pub BotsAnswer : BotsRequest → Type 0
BotsAnswer (post_bot dto) = NewBot
BotsAnswer (get_bots x) = List BotView
BotsAnswer (post_event b dto) = BotEvent
BotsAnswer (post_command b c command) = CommandResult
BotsAnswer (post_bot_message b c content) = Message

abbrev pub IntegrationsAnswer : IntegrationsRequest → Type 0
IntegrationsAnswer (post_integration dto) = NewIntegration
IntegrationsAnswer (get_integrations x type) = List Integration
IntegrationsAnswer (post_webhook_event i) = Accepted
IntegrationsAnswer (post_custom_event i event) = Accepted

-- `requireBotToken` and `requireIntegrationSecret`
unfoldable pub require_bot_token : Option Text → Action Text
require_bot_token token = or_throw (given token) (unauthorized "Missing x-bot-token header")

unfoldable pub require_integration_secret : Option Text → Action Text
require_integration_secret secret =
    or_throw (given secret) (unauthorized "Missing x-integration-secret header")

module _ ⦃w : World⦄ where
  unfoldable pub handle_users :
      (Text → Text → Bool)
      → (Text → Text → Bool)
      → Option Text
      → (r : UsersRequest) → Action (UsersAnswer r)
  handle_users finds before user_id get_me = require_user_id user_id >>= get_or_create_user
  handle_users finds before user_id (get_user id) = get_user_by_id id
  handle_users finds before user_id (patch_user id dto) = require_user_id user_id >>= λ current.
      throw_if (not (text_eq current id)) (forbidden "Users can only update their own profile")
      >> update_user_by_id id dto
  handle_users finds before user_id (get_users q cursor limit x) =
      find_users finds before q cursor (limit_or limit 20) x user_id

  unfoldable pub handle_notifications :
      Option Text → (r : NotificationsRequest) → Action (NotificationsAnswer r)
  handle_notifications user_id (post_emit dto) = emit_notification dto
  handle_notifications user_id (get_notifications u cursor limit) =
      require_user_id user_id >>= λ current.
      throw_if (not (text_eq current u)) (forbidden "Cannot access notifications of another user")
      >> list_notifications u cursor (limit_or limit 20)
  handle_notifications user_id (patch_read n) = require_user_id user_id >>= mark_read n

  module _ ⦃s : BotSecrets⦄ where
    -- The headers are `x-user-id` and `x-bot-token`.
    unfoldable pub handle_bots :
        Option Text → Option Text → (r : BotsRequest) → Action (BotsAnswer r)
    handle_bots user_id token (post_bot dto) =
        require_user_id user_id >>= λ u. create_bot (record dto { created_by_id = some u })
    handle_bots user_id token (get_bots x) = require_user_id user_id >>= list_bots x
    handle_bots user_id token (post_event b dto) = require_bot_token token >>= record_event b dto
    handle_bots user_id token (post_command b c command) =
        require_bot_token token >>= run_slash_command b c command
    handle_bots user_id token (post_bot_message b c content) =
        require_bot_token token >>= send_bot_message b c content

    -- The headers are `x-user-id` and `x-integration-secret`.
    unfoldable pub handle_integrations :
        Option Text → Option Text → (r : IntegrationsRequest) → Action (IntegrationsAnswer r)
    handle_integrations user_id secret (post_integration dto) =
        require_user_id user_id >>= λ u. create_integration (record dto { created_by_id = some u })
    handle_integrations user_id secret (get_integrations x type) =
        require_user_id user_id >>= λ u. list_integrations x u type
    handle_integrations user_id secret (post_webhook_event i) =
        require_integration_secret secret >>= handle_webhook_event i
    handle_integrations user_id secret (post_custom_event i event) =
        require_integration_secret secret
        >>= handle_custom_event i (or_else event (codes "custom.event"))
