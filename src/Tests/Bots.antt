-- ===== src/Tests/Bots.antt =====
-- Bots, integrations and visits of a channel on the sample.
use synapse_hub.Action.{Failure, err, is_ok}
use synapse_hub.Action.Tables.{same_place}
use synapse_hub.Base.{◌∷◌, [], none, true, some, refl, ◌≡◌, false, ◌⊎◌, List, any, arith}
use synapse_hub.Bots.{
  BotSecrets, default_scopes, create_bot_message_with_retry, BotEventInput, record_event,
  send_bot_message, run_slash_command,
}
use synapse_hub.Bots.Posting.{
  create_bot_message-Numbered, bot_found, is_authentic, unauthentic_changes_nothing,
}
use synapse_hub.Channels.Visits.{
  Visit, enters, exits, members_set, visit_all, replay, workspace_set, visit_all-refines-replay,
}
use synapse_hub.Integrations.{handle_webhook_event, handle_custom_event}
use synapse_hub.Integrations.Secrets.{
  integration_found, lets_in, logged, event_row, handle_event_cases,
}
use synapse_hub.Messaging.Access.Laws.{channel_row}
use synapse_hub.Messaging.Sequence.{latest_sequence, create_message_with_sequence}
use synapse_hub.Messaging.Sequence.Allocation.{candidate, create_message_live}
use synapse_hub.Messaging.Sequence.Laws.{Numbered, no_clash, latest_sequence-bounds}
use synapse_hub.Schema.{Bot, Integration, webhook, Db, message_created}
use synapse_hub.Tests.Sample.{office, quiet, note, general}
use synapse_hub.Text.{codes, text_eq, Text}

abbrev open_secrets : BotSecrets
open_secrets = record { digest = λ t. 7 ∷ t; random_id = λ n. n ∷ []; json_of = λ l. [] }

abbrev robot : Bot
robot = record {
  id = codes "r";
  workspace_id = codes "w";
  created_by_id = codes "a";
  name = codes "Robot";
  description = none;
  token_hash = 7 ∷ codes "shb_1";
  scopes = default_scopes;
  is_active = true;
  created_at = 4;
}

abbrev hook : Integration
hook = record {
  id = codes "i";
  workspace_id = codes "w";
  created_by_id = codes "a";
  type = webhook;
  name = codes "Hook";
  config = [];
  secret = some (7 ∷ codes "key");
  is_active = true;
  created_at = 4;
}

abbrev lab : Db
lab = record office { bots = robot ∷ []; integrations = hook ∷ [] }

create_bot_message-Numbered_example :
    Numbered (create_bot_message_with_retry ⦃w = quiet⦄ note office).1.messages
create_bot_message-Numbered_example =
    create_bot_message-Numbered ⦃w = quiet⦄ note office (λ k l h. h) (λ k l c n h. h)
      ((refl, tt), ((0, refl, refl), tt))

robot_found : bot_found ⦃w = quiet⦄ ⦃s = open_secrets⦄ (codes "r") lab ≡ some robot
unfolding text_eq
robot_found = refl

wrong_token :
    (scope : Text) → is_authentic ⦃w = quiet⦄ ⦃s = open_secrets⦄ robot (codes "guess") scope ≡ false
unfolding text_eq
wrong_token scope = refl

abbrev ping : BotEventInput
ping = record { type = message_created; payload = []; actor_id = none }

unauthentic_changes_nothing_example :
    ((e : Failure) × (record_event ⦃w = quiet⦄ ⦃s = open_secrets⦄
          (codes "r")
          ping
          (codes "guess")
          lab
        ≡ (err e, lab)))
    × ((e : Failure) × (send_bot_message ⦃w = quiet⦄ ⦃s = open_secrets⦄
            (codes "r")
            (codes "g")
            (codes "hi")
            (codes "guess")
            lab
          ≡ (err e, lab)))
    × ((e : Failure) × (run_slash_command ⦃w = quiet⦄ ⦃s = open_secrets⦄
            (codes "r")
            (codes "g")
            (codes "hi")
            (codes "guess")
            lab
          ≡ (err e, lab)))
unauthentic_changes_nothing_example =
    unauthentic_changes_nothing ⦃w = quiet⦄ ⦃s = open_secrets⦄ (codes "r") (codes "guess")
      (codes "g") (codes "hi") ping robot lab robot_found (wrong_token (codes "events:read"))
      (wrong_token (codes "messages:write")) (wrong_token (codes "commands:execute"))

hook_found : integration_found ⦃w = quiet⦄ ⦃s = open_secrets⦄ (codes "i") lab ≡ some hook
unfolding text_eq
hook_found = refl

handle_event_cases_example :
    ((lets_in ⦃w = quiet⦄ ⦃s = open_secrets⦄ hook (codes "key") ≡ true)
      × ((handle_webhook_event ⦃w = quiet⦄ ⦃s = open_secrets⦄ (codes "i") (codes "key") lab).1
          ≡ logged ⦃w = quiet⦄ ⦃s = open_secrets⦄
              (event_row ⦃w = quiet⦄ ⦃s = open_secrets⦄ hook (codes "integration:webhook"))
              lab)
      × ((handle_custom_event ⦃w = quiet⦄ ⦃s = open_secrets⦄
            (codes "i")
            (codes "ping")
            (codes "key")
            lab).1
          ≡ logged ⦃w = quiet⦄ ⦃s = open_secrets⦄
              (event_row ⦃w = quiet⦄ ⦃s = open_secrets⦄ hook (codes "integration:custom"))
              lab))
    ⊎ ((lets_in ⦃w = quiet⦄ ⦃s = open_secrets⦄ hook (codes "key") ≡ false)
        × (e : Failure) × (handle_webhook_event ⦃w = quiet⦄ ⦃s = open_secrets⦄
              (codes "i")
              (codes "key")
              lab
            ≡ (err e, lab))
        × (handle_custom_event ⦃w = quiet⦄ ⦃s = open_secrets⦄
              (codes "i")
              (codes "ping")
              (codes "key")
              lab
            ≡ (err e, lab)))
handle_event_cases_example =
    handle_event_cases ⦃w = quiet⦄ ⦃s = open_secrets⦄ (codes "i") (codes "ping") (codes "key") hook
      lab hook_found

general_row : channel_row ⦃w = quiet⦄ (codes "g") office ≡ some general
unfolding text_eq
general_row = refl

-- bob comes and goes, and carol, who is not of the workspace, is refused.
abbrev three_visits : List Visit
three_visits = enters (codes "b") ∷ enters (codes "c") ∷ exits (codes "b") ∷ []

visit_all-refines-replay_example :
    members_set ⦃w = quiet⦄
      (codes "g")
      (visit_all ⦃w = quiet⦄ (codes "g") three_visits office)
      (codes "b")
    ≡ replay
        (workspace_set ⦃w = quiet⦄ (codes "w") office)
        three_visits
        (members_set ⦃w = quiet⦄ (codes "g") office)
        (codes "b")
visit_all-refines-replay_example =
    visit_all-refines-replay ⦃w = quiet⦄ (codes "g") three_visits office general (codes "b")
      general_row refl

-- Nobody writes before the third attempt.
no_rival_place :
    (x : Db) → any (same_place (candidate ⦃w = quiet⦄ note x)) ((quiet.rival) 2 x.messages) ≡ false
no_rival_place x =
    no_clash (candidate ⦃w = quiet⦄ note x) (latest_sequence ⦃w = quiet⦄ (codes "g") x) x.messages
      (latest_sequence-bounds ⦃w = quiet⦄ (codes "g") x) refl

create_message_live_example : is_ok (create_message_with_sequence ⦃w = quiet⦄ note office).0 ≡ true
create_message_live_example =
    create_message_live ⦃w = quiet⦄ 2 note office (omega arith) no_rival_place
