-- ===== src/Tests/Sample.antt =====
-- A workspace of three users with a public and a private channel, and the worlds of the tests.

-- No other client interferes, and the ids are texts of one character.
use Prim.Native.String.{String}
use synapse_hub.Action.{World}
use synapse_hub.Base.{◌∷◌, [], List, ◌++◌, none, true, false, ◌+◌}
use synapse_hub.Messaging.Sequence.{MessageInput, message_row, sequence_of, in_channel}
use synapse_hub.Prisma.Memory.{memory, greatest}
use synapse_hub.Schema.{
  Message, User, Channel, public_channel, private_channel, WorkspaceRole, WorkspaceMember,
  MessageType, ScheduledMessage, pending, Db, owner,
}
use synapse_hub.Text.{codes}

abbrev pub quiet : World
quiet = record {
  prisma = memory;
  now = 10000;
  uuid = λ n. n ∷ [];
  rival = λ k l. l;
  client_message = λ e. codes "failed";
}

-- Another client writes a message between the reading and the write of the first attempt.
abbrev pub pushed : Message → List Message → List Message
pushed m l = l ++ m ∷ []

abbrev pub alice : User
alice = record {
  id = codes "a";
  email = codes "alice@x.io";
  password_hash = none;
  email_verified_at = none;
  display_name = codes "Alice";
  avatar_url = none;
  title = none;
  timezone = none;
  is_active = true;
  last_seen_at = none;
  updated_at = 1;
}

abbrev pub bob : User
bob = record alice { id = codes "b"; email = codes "bob@x.io"; display_name = codes "Bob" }

abbrev pub carol : User
carol = record alice { id = codes "c"; email = codes "carol@x.io"; display_name = codes "Carol" }

abbrev pub general : Channel
general = record {
  id = codes "g";
  workspace_id = codes "w";
  created_by_id = codes "a";
  name = codes "general";
  topic = none;
  type = public_channel;
  is_archived = false;
  created_at = 2;
}

abbrev pub secret : Channel
secret = record general { id = codes "s"; name = codes "secret"; type = private_channel }

abbrev pub member_of : String → WorkspaceRole → WorkspaceMember
member_of user_id role = record {
  workspace_id = codes "w";
  user_id = codes user_id;
  role = role;
  invited_by_id = none;
  joined_at = 3;
}

abbrev pub greeting : Message
greeting = record {
  id = codes "m";
  workspace_id = codes "w";
  channel_id = codes "g";
  author_id = codes "a";
  thread_id = none;
  parent_message_id = none;
  type = MessageType.text;
  content = codes "hello";
  sequence = 1;
  edited_at = none;
  deleted_at = none;
  created_at = 5;
}

abbrev pub planned : ScheduledMessage
planned = record {
  id = codes "p";
  workspace_id = codes "w";
  channel_id = codes "g";
  author_id = codes "a";
  thread_id = none;
  parent_message_id = none;
  content = codes "later";
  send_at = 9000;
  status = pending;
  sent_message_id = none;
  error_message = none;
  canceled_at = none;
  sent_at = none;
}

abbrev pub office : Db
office = record {
  users = alice ∷ bob ∷ carol ∷ [];
  workspaces = [];
  workspace_members = member_of "a" owner ∷ member_of "b" WorkspaceRole.member ∷ [];
  channels = general ∷ secret ∷ [];
  channel_members = record { channel_id = codes "s"; user_id = codes "a" } ∷ [];
  messages = greeting ∷ [];
  threads = [];
  reactions = [];
  files = [];
  pins = [];
  bookmarks = [];
  drafts = [];
  scheduled = planned ∷ [];
  notifications = [];
  invite_links = [];
  acceptances = [];
  audit_logs = [];
  refresh_tokens = [];
  verification_tokens = [];
  reset_tokens = [];
  bots = [];
  bot_events = [];
  integrations = [];
  outbox = [];
  issued = 200;
}

abbrev pub note : MessageInput
note = record {
  workspace_id = codes "w";
  channel_id = codes "g";
  author_id = codes "a";
  content = codes "hi";
  thread_id = none;
  parent_message_id = none;
}

-- Another client always takes the place above the latest message of the channel.
abbrev pub racing : World
racing = record quiet {
  rival = λ k l.
      l
      ++ message_row note (codes "r")
          (sequence_of (greatest (in_channel (codes "g")) (λ m. m.sequence) l) + 1) 0
        ∷ [];
}
