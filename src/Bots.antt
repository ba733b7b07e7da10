-- ===== src/Bots.antt =====
-- services/workspace-service/src/bots: bots.service.ts and command-runner.ts. sha256, `randomUUID`
-- without its dashes, and the text of a JSON value are parameters.
pub mod Posting
use Prim.Native.String.{String}
use synapse_hub.Action.{
  Failure, p2002, World, Action, ◌>>=◌, ◌>>◌, find_unique, or_throw, not_found, throw_if, pure,
  forbidden, throw, new_id, create_row, Reply, ok, err, internal, find_many, draw,
}
use synapse_hub.Action.Tables.{
  bots, workspace_members, is_member, channels, messages, sequence_key, bot_key, bot_events,
}
use synapse_hub.Base.{
  ℕ, List, Option, Bool, zero, suc, [], ◌∷◌, if◌then◌else◌, ◌++◌, length, none, some, true, false,
  not, ◌||◌, ◌+◌, ltb, map,
}
use synapse_hub.Messaging.Notify.{has}
use synapse_hub.Messaging.Sequence.{
  starts_with, MessageInput, message_row, latest_sequence, interfere,
}
use synapse_hub.Schema.{
  Bot, BotEventType, Message, MessageType, Channel, Db, BotEvent, slash_command,
}
use synapse_hub.Text.{Text, trim, codes, text_eq, given}
use synapse_hub.Workspaces.{manages}

pub record BotSecrets : Type 0 where
  pub digest : Text → Text
  pub random_id : ℕ → Text
  pub json_of : List (Text × Text) → Text

pub record CreateBot : Type 0 where
  pub workspace_id : Text
  pub created_by_id : Option Text
  pub name : Text
  pub description : Option Text
  pub scopes : Option (List Text)

-- `{ ...bot, token }`
pub record NewBot : Type 0 where
  pub bot : Bot
  pub token : Text

-- What `list` selects: everything but the hash of the token.
pub record BotView : Type 0 where
  pub id : Text
  pub workspace_id : Text
  pub created_by_id : Text
  pub name : Text
  pub description : Option Text
  pub scopes : List Text
  pub is_active : Bool
  pub created_at : ℕ

abbrev pub view_bot : Bot → BotView
view_bot b = record {
  id = b.id;
  workspace_id = b.workspace_id;
  created_by_id = b.created_by_id;
  name = b.name;
  description = b.description;
  scopes = b.scopes;
  is_active = b.is_active;
  created_at = b.created_at;
}

pub record BotEventInput : Type 0 where
  pub type : BotEventType
  pub payload : Text
  pub actor_id : Option Text

pub record CommandResult : Type 0 where
  pub command : Text
  pub output : Text
  pub message : Message

abbrev pub drop_text : ℕ → Text → Text
drop_text zero s = s
drop_text (suc n) [] = []
drop_text (suc n) (c ∷ s) = drop_text n s

-- `s.replace(p, by)`: the first place only
unfoldable pub replace_first : Text → Text → Text → Text
replace_first p by [] = if starts_with p [] then by else []
replace_first p by (c ∷ s) =
    let rest = replace_first p by s in
    if starts_with p (c ∷ s) then by ++ drop_text (length p) (c ∷ s) else c ∷ rest

unfoldable pub execute_slash_command : Text → Text
execute_slash_command command =
    let trimmed = trim command in
    if starts_with (codes "/echo ") trimmed
    then replace_first (codes "/echo ") [] trimmed
    else (if text_eq trimmed (codes "/status")
        then codes "SynapseHub bot subsystem is operational."
        else (if text_eq trimmed (codes "/help")
            then codes "Available commands: /echo, /status, /help"
            else codes "Unknown command: " ++ trimmed))

abbrev pub default_scopes : List Text
default_scopes = codes "messages:write" ∷ codes "events:read" ∷ codes "commands:execute" ∷ []

abbrev pub scopes_or_default : Option (List Text) → List Text
scopes_or_default none = default_scopes
scopes_or_default (some l) = l

-- `error.code === 'P2002'`
abbrev pub is_conflict : Failure → Bool
is_conflict (p2002 t) = true
is_conflict _ = false

abbrev pub bot_row : MessageInput → Text → ℕ → ℕ → Message
bot_row input id sequence now = record (message_row input id sequence now) {
  type = MessageType.bot;
}

module _ ⦃w : World⦄ where
  unfoldable pub ensure_bot : Text → Action Bot
  ensure_bot bot_id = do
    row ← find_unique bots (λ b. text_eq b.id bot_id)
    bot ← or_throw row (not_found "Bot not found or inactive")
    throw_if (not bot.is_active) (not_found "Bot not found or inactive")
    pure bot

  -- `ensureWorkspaceAdminOrOwner` of bots.service.ts.
  unfoldable pub ensure_bot_manager : Text → Text → Action (Unit {0})
  ensure_bot_manager workspace_id user_id = do
    row ← find_unique workspace_members (is_member workspace_id user_id)
    membership ← or_throw row (forbidden "User is not a member of this workspace")
    throw_if (not (manages membership.role)) (forbidden "Only owner or admin can manage bots")

  abbrev pub live_channel_in : Text → Option Channel → Action (Unit {0})
  live_channel_in workspace_id none = throw (not_found "Channel not found in workspace")
  live_channel_in workspace_id (some c) =
      throw_if (not (text_eq c.workspace_id workspace_id) || c.is_archived)
        (not_found "Channel not found in workspace")

  unfoldable pub ensure_channel_in_workspace : Text → Text → Action (Unit {0})
  ensure_channel_in_workspace channel_id workspace_id = do
    row ← find_unique channels (λ c. text_eq c.id channel_id)
    live_channel_in workspace_id row

  unfoldable pub next_sequence : Text → Db → ℕ
  next_sequence channel_id db = latest_sequence channel_id db + 1

  -- One round of the loop: the reading, the others, the write.
  unfoldable pub try_bot_message : ℕ → MessageInput → Action Message
  try_bot_message attempt input db =
      let sequence = next_sequence input.channel_id db in
      (do id ← new_id; create_row messages (sequence_key ∷ []) (bot_row input id sequence w.now))
        (interfere attempt db)

  -- The `catch` of the loop: the last round throws what it met.
  abbrev pub or_next_round : ℕ → Reply Message → Db → Action Message → Reply Message × Db
  or_next_round left (ok m) db again = (ok m, db)
  or_next_round zero (err e) db again = (err e, db)
  or_next_round (suc n) (err e) db again = if is_conflict e then again db else (err e, db)

  unfoldable pub bot_rounds : ℕ → ℕ → MessageInput → Action Message
  bot_rounds zero attempt input db = throw (internal "Unable to allocate bot message sequence") db
  bot_rounds (suc rounds) attempt input db =
      let (reply, db') = try_bot_message attempt input db in
      or_next_round rounds reply db' (bot_rounds rounds (suc attempt) input)

  unfoldable pub create_bot_message_with_retry : MessageInput → Action Message
  create_bot_message_with_retry input = bot_rounds 5 1 input

  unfoldable pub create_bot_message : Text → Text → Text → Text → Action Message
  create_bot_message workspace_id channel_id author_id content = do
    ensure_channel_in_workspace channel_id workspace_id
    create_bot_message_with_retry (record {
      workspace_id = workspace_id;
      channel_id = channel_id;
      author_id = author_id;
      content = content;
      thread_id = none;
      parent_message_id = none;
    })

  unfoldable pub list_bots : Text → Text → Action (List BotView)
  list_bots workspace_id requester_id = do
    ensure_bot_manager workspace_id requester_id
    rows ← find_many bots (record {
      matches = λ b. text_eq b.workspace_id workspace_id;
      precedes = λ a b. ltb b.created_at a.created_at;
      cursor = none;
      limit = none;
    })
    pure (map view_bot rows)

  module _ ⦃s : BotSecrets⦄ where
    unfoldable pub authenticate_bot : Text → Text → Text → String → Action Bot
    authenticate_bot bot_id bot_token required_scope complaint = do
      bot ← ensure_bot bot_id
      throw_if (not (text_eq (s.digest bot_token) bot.token_hash)) (forbidden "Invalid bot token")
      throw_if (not (has bot.scopes required_scope)) (forbidden complaint)
      pure bot

    -- `shb_${randomUUID().replace(/-/g, '')}`
    abbrev pub new_token : ℕ → Text
    new_token n = codes "shb_" ++ s.random_id n

    abbrev pub insert_bot : CreateBot → Text → Action NewBot
    insert_bot dto actor_id = do
      ensure_bot_manager dto.workspace_id actor_id
      n ← draw
      id ← new_id
      bot ← create_row bots (bot_key ∷ []) (record {
        id = id;
        workspace_id = dto.workspace_id;
        created_by_id = actor_id;
        name = dto.name;
        description = dto.description;
        token_hash = s.digest (new_token n);
        scopes = scopes_or_default dto.scopes;
        is_active = true;
        created_at = w.now;
      })
      pure (record { bot = bot; token = new_token n })

    unfoldable pub create_bot : CreateBot → Action NewBot
    create_bot dto = do
      actor_id ← or_throw (given dto.created_by_id) (forbidden "Missing actor user id")
      insert_bot dto actor_id

    unfoldable pub record_event : Text → BotEventInput → Text → Action BotEvent
    record_event bot_id dto bot_token = do
      bot ←
          authenticate_bot bot_id bot_token (codes "events:read")
            "Bot does not have required scope: events:read"
      create_row bot_events [] (record {
        workspace_id = bot.workspace_id;
        bot_id = bot.id;
        actor_id = dto.actor_id;
        type = dto.type;
        payload = dto.payload;
      })

    unfoldable pub run_slash_command : Text → Text → Text → Text → Action CommandResult
    run_slash_command bot_id channel_id command bot_token = do
      bot ←
          authenticate_bot bot_id bot_token (codes "commands:execute")
            "Bot does not have required scope: commands:execute"
      let output = execute_slash_command command
      message ← create_bot_message bot.workspace_id channel_id bot.created_by_id output
      create_row bot_events [] (record {
        workspace_id = bot.workspace_id;
        bot_id = bot.id;
        actor_id = none;
        type = slash_command;
        payload = s.json_of (
            (codes "command", command)
            ∷ (codes "output", output)
            ∷ (codes "channelId", channel_id)
            ∷ []);
      })
      pure (record { command = command; output = output; message = message })

    unfoldable pub send_bot_message : Text → Text → Text → Text → Action Message
    send_bot_message bot_id channel_id content bot_token = do
      bot ←
          authenticate_bot bot_id bot_token (codes "messages:write")
            "Bot does not have required scope: messages:write"
      create_bot_message bot.workspace_id channel_id bot.created_by_id content
