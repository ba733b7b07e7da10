-- ===== src/Bots/Posting.antt =====
-- What the messages of bots keep, and what a bot needs to act.
use Prim.Native.String.{String}
use synapse_hub.Action.{World, ok, err, p2002, Reply, Failure, not_found, forbidden}
use synapse_hub.Action.Tables.{same_place, sequence_key}
use synapse_hub.Auth.Cases.{refused}
use synapse_hub.Base.{
  ◌+◌, ℕ, ◌++◌, ◌∷◌, [], any, ◌≡◌, false, ◌⊎◌, Bool-cases, inr, inl, arith, List, suc, zero, refl,
  Option, Bool, ◌&&◌, some,
}
use synapse_hub.Bots.{
  bot_row, try_bot_message, next_sequence, bot_rounds, create_bot_message_with_retry, BotSecrets,
  authenticate_bot, ensure_bot, BotEventInput, record_event, send_bot_message, run_slash_command,
  execute_slash_command, replace_first,
}
use synapse_hub.Messaging.Notify.{has}
use synapse_hub.Messaging.Sequence.{MessageInput, latest_sequence}
use synapse_hub.Messaging.Sequence.Allocation.{without_message}
use synapse_hub.Messaging.Sequence.Laws.{Numbered, Holds, Numbered-append}
use synapse_hub.Schema.{Db, Message, MessageType, Bot}
use synapse_hub.Text.{Text, text_eq, codes, trim}

module _ ⦃w : World⦄ where
  abbrev pub bot_candidate : MessageInput → Db → Message
  bot_candidate input db =
      bot_row input (w.uuid db.issued) (latest_sequence input.channel_id db + 1) w.now

  abbrev with_bot_message : ℕ → MessageInput → Db → Db
  with_bot_message attempt input db = record db {
    messages = w.rival attempt db.messages ++ bot_candidate input db ∷ [];
    issued = db.issued + 1;
  }

  -- A round of the loop stores the message, or meets a conflict.
  bot_round_cases :
      (attempt : ℕ) (input : MessageInput) (db : Db)
      → ((any (same_place (bot_candidate input db)) (w.rival attempt db.messages) ≡ false)
          × (try_bot_message attempt input db
              ≡ (ok (bot_candidate input db), with_bot_message attempt input db)))
        ⊎ (try_bot_message attempt input db
            ≡ (err (p2002 sequence_key.target), without_message attempt db))
  unfolding try_bot_message next_sequence
  bot_round_cases attempt input db =
      elim (Bool-cases (any (same_place (bot_candidate input db)) (w.rival attempt db.messages))) [
        | inr free ↦ inl (
          free,
          ground (
            arith,
            w.prisma.create_lem (sequence_key ∷ []) (bot_candidate input db)
                (w.rival attempt db.messages),
          ),
        )
        | inl taken ↦ inr (
            ground (
              arith,
              w.prisma.create_lem (sequence_key ∷ []) (bot_candidate input db)
                  (w.rival attempt db.messages),
            ))
      ]

  -- What a call may have done: a new message of a bot stands last in the table, at a place that no
  -- other message of its channel holds; or the last round met a conflict.
  abbrev pub Posted : MessageInput → Reply Message × Db → Type 0
  Posted input (ok m, db') =
      (rows : List Message) × (db'.messages ≡ rows ++ m ∷ [])
      × (any (same_place m) rows ≡ false)
      × (m.channel_id ≡ input.channel_id)
      × (m.author_id ≡ input.author_id)
      × (m.content ≡ input.content)
      × (m.type ≡ MessageType.bot)
  Posted input (err e, db') = e ≡ p2002 sequence_key.target

  bot_rounds-Posted :
      (rounds attempt : ℕ) (input : MessageInput) (db : Db)
      → Posted input (bot_rounds (suc rounds) attempt input db)
  unfolding bot_rounds
  bot_rounds-Posted zero attempt input db = elim (bot_round_cases attempt input db) [
    | inl (free, e) ↦ rw e (w.rival attempt db.messages, refl, free, refl, refl, refl, refl)
    | inr e ↦ rw e refl
  ]
  bot_rounds-Posted (suc rounds) attempt input db =
      let rest = bot_rounds-Posted rounds (suc attempt) input (without_message attempt db) in
      elim (bot_round_cases attempt input db) [
        | inl (free, e) ↦ rw e (w.rival attempt db.messages, refl, free, refl, refl, refl, refl)
        | inr e ↦ rw e rest
      ]

  -- Whatever the other clients do between the reading and the write of each round, a call for a bot
  -- either adds one message of type BOT with the input's fields, at a place of its channel that no
  -- other message holds, or throws the violated key of its last round; it never gets to the
  -- exception that stands behind the loop.
  pub create_bot_message-Posted :
      (input : MessageInput) (db : Db) → Posted input (create_bot_message_with_retry input db)
  unfolding create_bot_message_with_retry
  create_bot_message-Posted input db = bot_rounds-Posted 4 1 input db

  bot_rounds-Numbered :
      (rounds attempt : ℕ) (input : MessageInput) (db : Db)
      → ((k : ℕ) (l : List Message) → Numbered l → Numbered (w.rival k l))
      → ((k : ℕ) (l : List Message) → Holds l (w.rival k l))
      → Numbered db.messages
      → Numbered (bot_rounds (suc rounds) attempt input db).1.messages
  unfolding bot_rounds
  bot_rounds-Numbered zero attempt input db lawful more h =
      let h' = lawful attempt db.messages h in
      elim (bot_round_cases attempt input db) [
        | inl (free, e) ↦ rw e (
            Numbered-append db (w.rival attempt db.messages) (bot_candidate input db) h'
              (more attempt db.messages) refl free)
        | inr e ↦ rw e h'
      ]
  bot_rounds-Numbered (suc rounds) attempt input db lawful more h =
      let h' = lawful attempt db.messages h in
      let rest =
        bot_rounds-Numbered rounds (suc attempt) input (without_message attempt db) lawful more
          h' in
      elim (bot_round_cases attempt input db) [
        | inl (free, e) ↦ rw e (
            Numbered-append db (w.rival attempt db.messages) (bot_candidate input db) h'
              (more attempt db.messages) refl free)
        | inr e ↦ rw e rest
      ]

  -- The posting of a bot, whether it succeeds or not, keeps the sequences of every channel 1, 2
  -- and so on without a gap or a repetition, as long as the other clients keep the channels so
  -- numbered and remove no place that is held.
  pub create_bot_message-Numbered :
      (input : MessageInput) (db : Db)
      → ((k : ℕ) (l : List Message) → Numbered l → Numbered (w.rival k l))
      → ((k : ℕ) (l : List Message) → Holds l (w.rival k l))
      → Numbered db.messages
      → Numbered (create_bot_message_with_retry input db).1.messages
  unfolding create_bot_message_with_retry
  create_bot_message-Numbered input db lawful more h =
      bot_rounds-Numbered 4 1 input db lawful more h

  module _ ⦃s : BotSecrets⦄ where
    abbrev pub bot_found : Text → Db → Option Bot
    bot_found bot_id db = w.prisma.find_unique (λ b. text_eq b.id bot_id) db.bots

    -- The bot is active, the token is its own, and it has the scope.
    abbrev pub is_authentic : Bot → Text → Text → Bool
    is_authentic b bot_token scope =
        b.is_active && text_eq (s.digest bot_token) b.token_hash && has b.scopes scope

    authenticate_bot_refused :
        (bot_id bot_token scope : Text) (complaint : String) (b : Bot) (db : Db)
        → bot_found bot_id db ≡ some b
        → is_authentic b bot_token scope ≡ false
        → (e : Failure) × (authenticate_bot bot_id bot_token scope complaint db ≡ (err e, db))
    unfolding authenticate_bot ensure_bot
    authenticate_bot_refused bot_id bot_token scope complaint b db found refused =
        elim (Bool-cases b.is_active) [
          | inr asleep ↦ (not_found "Bot not found or inactive", ground arith)
          | inl awake ↦ elim (Bool-cases (text_eq (s.digest bot_token) b.token_hash)) [
            | inr wrong ↦ (forbidden "Invalid bot token", ground arith)
            | inl right ↦ (forbidden complaint, ground arith)
          ]
        ]

    -- Where a token does not authenticate a bot for any of the three scopes, because it is the
    -- wrong one, the scope is missing or the bot is inactive, recording an event, posting a
    -- message and running a command all throw and change nothing. The bot exists.
    pub unauthentic_changes_nothing :
        (bot_id bot_token channel_id content : Text) (dto : BotEventInput) (b : Bot) (db : Db)
        → bot_found bot_id db ≡ some b
        → is_authentic b bot_token (codes "events:read") ≡ false
        → is_authentic b bot_token (codes "messages:write") ≡ false
        → is_authentic b bot_token (codes "commands:execute") ≡ false
        → ((e : Failure) × (record_event bot_id dto bot_token db ≡ (err e, db)))
          × ((e : Failure) × (send_bot_message bot_id channel_id content bot_token db
                ≡ (err e, db)))
          × ((e : Failure) × (run_slash_command bot_id channel_id content bot_token db
                ≡ (err e, db)))
    unfolding record_event send_bot_message run_slash_command
    unauthentic_changes_nothing bot_id bot_token channel_id content dto b db found no_events
          no_posts no_commands =
        let (e1, h1) =
          authenticate_bot_refused bot_id bot_token (codes "events:read")
            "Bot does not have required scope: events:read" b db found no_events in
        let (e2, h2) =
          authenticate_bot_refused bot_id bot_token (codes "messages:write")
            "Bot does not have required scope: messages:write" b db found no_posts in
        let (e3, h3) =
          authenticate_bot_refused bot_id bot_token (codes "commands:execute")
            "Bot does not have required scope: commands:execute" b db found no_commands in
        ((e1, ground arith), (e2, ground arith), (e3, ground arith))

-- `/echo` answers with what stands behind it, where the command without the spaces around it begins
-- with the word and a space.
pub execute_echo :
    (command rest : Text)
    → trim command ≡ codes "/echo " ++ rest
    → execute_slash_command command ≡ rest
unfolding execute_slash_command replace_first
execute_echo command rest e = rw e refl
