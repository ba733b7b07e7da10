-- ===== src/Messaging/Sequence.antt =====
-- `createMessageWithSequence` and `isMessageSequenceConflict` of messaging.service.ts. A message
-- takes the next sequence of its channel; another client may take it between the reading and the
-- write, and then the method tries again, six times in all.
pub mod Laws
pub mod Allocation
use synapse_hub.Action.{
  Failure, p2002, World, Action, ◌>>=◌, ◌>>◌, new_id, create_row, Reply, ok, err, throw,
  bad_request,
}
use synapse_hub.Action.Tables.{messages, sequence_key}
use synapse_hub.Base.{
  Option, List, Bool, [], false, ◌∷◌, ◌||◌, true, ◌==◌, ◌&&◌, ℕ, none, some, ◌+◌, if◌then◌else◌,
  zero, suc,
}
use synapse_hub.Prisma.{fields, index, absent}
use synapse_hub.Schema.{Message, MessageType, Db}
use synapse_hub.Text.{Text, text_eq, codes}

pub record MessageInput : Type 0 where
  pub workspace_id : Text
  pub channel_id : Text
  pub author_id : Text
  pub content : Text
  pub thread_id : Option Text
  pub parent_message_id : Option Text

-- `target.includes(name)` on an array
abbrev pub includes : List Text → Text → Bool
includes [] name = false
includes (s ∷ l) name = text_eq s name || includes l name

-- `target.includes(name)` on a string
abbrev pub starts_with : Text → Text → Bool
starts_with [] s = true
starts_with (c ∷ t) [] = false
starts_with (c ∷ t) (d ∷ s) = c == d && starts_with t s

abbrev pub contains : Text → Text → Bool
contains t [] = starts_with t []
contains t (d ∷ s) = starts_with t (d ∷ s) || contains t s

unfoldable pub is_message_sequence_conflict : Failure → Bool
unfolding text_eq
is_message_sequence_conflict (p2002 (fields l)) =
    includes l (codes "channelId") && includes l (codes "sequence")
is_message_sequence_conflict (p2002 (index s)) =
    contains (codes "channelId") s && contains (codes "sequence") s
is_message_sequence_conflict (p2002 absent) = true
is_message_sequence_conflict _ = false

-- `latest?.sequence ?? BigInt(0)`
abbrev pub sequence_of : Option Message → ℕ
sequence_of none = 0
sequence_of (some m) = m.sequence

abbrev pub in_channel : Text → Message → Bool
in_channel channel_id m = text_eq m.channel_id channel_id

-- The row that `prisma.message.create` is given.
abbrev pub message_row : MessageInput → Text → ℕ → ℕ → Message
message_row input id sequence now = record {
  id = id;
  workspace_id = input.workspace_id;
  channel_id = input.channel_id;
  author_id = input.author_id;
  thread_id = input.thread_id;
  parent_message_id = input.parent_message_id;
  type = MessageType.text;
  content = input.content;
  sequence = sequence;
  edited_at = none;
  deleted_at = none;
  created_at = now;
}

module _ ⦃w : World⦄ where
  abbrev pub latest_sequence : Text → Db → ℕ
  latest_sequence channel_id db =
      sequence_of (w.prisma.find_greatest (in_channel channel_id) (λ m. m.sequence) db.messages)

  -- What the other clients do before the write of an attempt.
  abbrev pub interfere : ℕ → Db → Db
  interfere attempt db = record db { messages = w.rival attempt db.messages }

  -- One round of the loop: the reading, the others, the write.
  unfoldable pub try_create : ℕ → MessageInput → Action Message
  try_create attempt input db =
      let sequence = latest_sequence input.channel_id db + 1 in
      (do
        id ← new_id
        create_row messages (sequence_key ∷ []) (message_row input id sequence w.now))
        (interfere attempt db)

  -- The `catch` of the loop, with the rounds that follow.
  abbrev pub or_retry : Reply Message → Db → Action Message → Reply Message × Db
  or_retry (ok m) db again = (ok m, db)
  or_retry (err e) db again = if is_message_sequence_conflict e then again db else (err e, db)

  unfoldable pub create_rounds : ℕ → ℕ → MessageInput → Action Message
  unfolding try_create is_message_sequence_conflict
  create_rounds zero attempt input db = throw (bad_request "Unable to allocate message sequence") db
  create_rounds (suc rounds) attempt input db =
      let (reply, db') = try_create attempt input db in
      or_retry reply db' (create_rounds rounds (suc attempt) input)

  unfoldable pub create_message_with_sequence : MessageInput → Action Message
  unfolding create_rounds
  create_message_with_sequence input = create_rounds 6 0 input
