-- ===== src/Realtime.antt =====
-- apps/api/src/realtime: realtime.gateway.ts, with the calls of messaging-client.service.ts, which
-- go to the messaging service in the name of the user of the socket. A socket is what the gateway
-- keeps of it: the user and the rooms. `published` is what went to Redis, whose subscribers hand
-- each event to the sockets in its room. The check of an access token is a parameter; the log, the
-- address of a client and the reason of a disconnection are left out.
pub mod Rooms
pub mod Receiving
use Prim.Native.String.{String}
use synapse_hub.Action.{Reply, ok, err, Action, ws_exception, World}
use synapse_hub.Base.{
  Option, List, ℕ, Bool, true, false, [], none, ◌∷◌, if◌then◌else◌, some, ◌++◌, keep, not,
  map_where, ◌&&◌,
}
use synapse_hub.Bots.{drop_text}
use synapse_hub.Messaging.Access.{SerializedMessage}
use synapse_hub.Messaging.Mentions.{add}
use synapse_hub.Messaging.Messages.{
  list_messages, SendMessage, send_message, edit_message, delete_message, react_to_message,
}
use synapse_hub.Messaging.Notify.{has}
use synapse_hub.Messaging.Sequence.{starts_with}
use synapse_hub.Messaging.Threads.{create_thread, reply_in_thread}
use synapse_hub.Pagination.{natural}
use synapse_hub.Schema.{Reaction, Thread, Db}
use synapse_hub.Text.{Text, text_eq, given, codes, truthy}

pub record SocketClient : Type 0 where
  pub id : Text
  pub user_id : Option Text
  pub rooms : List Text

-- The payload of an event.
pub data EventPayload : Type 0 where
  of_serialized : SerializedMessage → EventPayload
  of_reaction : Text → Text → Reaction → EventPayload
  of_thread : Thread → EventPayload
  of_typing : Text → Text → ℕ → EventPayload

-- `RealtimeEventEnvelope`
pub record RealtimeEvent : Type 0 where
  pub room : Text
  pub event : Text
  pub payload : EventPayload

pub record Hub : Type 0 where
  pub db : Db
  pub sockets : List SocketClient
  pub published : List RealtimeEvent

-- The handshake of a client: `auth.token` and the `authorization` header.
pub record Handshake : Type 0 where
  pub auth_token : Option Text
  pub authorization : Option Text

-- `verify` of jsonwebtoken with the access secret: the `sub` of a valid token.
pub record TokenCheck : Type 0 where
  pub verify_access : Text → Option (Option Text)

-- A handler: a method of the gateway on what it keeps.
abbrev pub Live : Type 0 → Type 0
Live A = Hub → Reply A × Hub

abbrev pub and_then : {A B : Type 0} → Live A → (A → Live B) → Live B
and_then m f h = let (r, h') = m h in elim r [ ok a ↦ f a h' | err e ↦ (err e, h') ]

-- A request to a service, in the name of a user.
abbrev pub call : {A : Type 0} → Action A → Live A
call m h = let (r, db) = m h.db in (r, record h { db = db })

abbrev pub reply_with : {A : Type 0} → A → Live A
reply_with a h = (ok a, h)

-- `ensurePayload`
abbrev pub ensure_payload : Bool → String → Live (Unit {0})
ensure_payload true complaint h = (ok tt, h)
ensure_payload false complaint h = (err (ws_exception complaint), h)

abbrev pub is_socket : Text → SocketClient → Bool
is_socket id s = text_eq s.id id

-- The client of a request.
abbrev pub client_of : Text → List SocketClient → Option SocketClient
client_of id [] = none
client_of id (s ∷ l) = if is_socket id s then some s else client_of id l

abbrev pub user_or_unauthorized : Option SocketClient → Reply Text
user_or_unauthorized none = err (ws_exception "Unauthorized socket client")
user_or_unauthorized (some s) = elim (given s.user_id) [
  | none ↦ err (ws_exception "Unauthorized socket client")
  | some u ↦ ok u
]

-- `getUserId`
abbrev pub get_user_id : Text → Live Text
get_user_id client h = (user_or_unauthorized (client_of client h.sockets), h)

-- What most handlers begin with: the check of the payload, and the user of the client.
abbrev pub guarded : {A : Type 0} → Bool → String → Text → (Text → Live A) → Live A
guarded b complaint client f =
    and_then (ensure_payload b complaint) (λ _. and_then (get_user_id client) f)

unfoldable pub channel_room : Text → Text
channel_room channel_id = codes "channel:" ++ channel_id

unfoldable pub user_room : Text → Text
user_room user_id = codes "user:" ++ user_id

-- `client.join(room)` and `client.leave(room)`
abbrev pub join_room : Text → SocketClient → SocketClient
join_room room s = record s { rooms = add room s.rooms }

abbrev pub leave_room : Text → SocketClient → SocketClient
leave_room room s = record s { rooms = keep (λ r. not (text_eq r room)) s.rooms }

abbrev pub update_client : Text → (SocketClient → SocketClient) → Live (Unit {0})
update_client client f h = (ok tt, record h { sockets = map_where (is_socket client) f h.sockets })

-- `redisPubSub.publish`
abbrev pub publish : RealtimeEvent → Live (Unit {0})
publish e h = (ok tt, record h { published = h.published ++ e ∷ [] })

-- The clients that get an event.
abbrev pub receivers : Text → Hub → List SocketClient
receivers room h = keep (λ s. has s.rooms room) h.sockets

-- `extractAccessToken`
unfoldable pub extract_access_token : Handshake → Option Text
extract_access_token x = elim (given x.auth_token) [
  | some t ↦ some t
  | none ↦ elim x.authorization [
    | none ↦ none
    | some s ↦ if starts_with (codes "Bearer ") s then some (drop_text 7 s) else none
  ]
]

-- A client whose token names a user.
abbrev pub verified_user : (Text → Option (Option Text)) → Option Text → Option Text
verified_user check none = none
verified_user check (some token) = elim (given (some token)) [
  | none ↦ none
  | some t ↦ elim (check t) [ none ↦ none | some sub ↦ given sub ]
]

abbrev pub admitted : Text → Option Text → List SocketClient → List SocketClient
admitted client none l = l
admitted client (some u) l =
    l ++ record { id = client; user_id = some u; rooms = user_room u ∷ [] } ∷ []

-- `handleConnection`: a client without a valid token is disconnected.
unfoldable pub handle_connection : ⦃k : TokenCheck⦄ → Text → Handshake → Hub → Hub
handle_connection ⦃k⦄ client x h = record h {
  sockets = admitted client (verified_user k.verify_access (extract_access_token x)) h.sockets;
}

unfoldable pub handle_disconnect : Text → Hub → Hub
handle_disconnect client h = record h { sockets = keep (λ s. not (is_socket client s)) h.sockets }

abbrev pub is_given : Text → Bool
is_given t = truthy t

module _ ⦃w : World⦄ where
  -- `catch { throw new WsException('Forbidden channel access') }`
  abbrev pub or_forbidden : {A : Type 0} → Reply A × Hub → Reply (Unit {0}) × Hub
  or_forbidden (ok a, h) = (ok tt, h)
  or_forbidden (err e, h) = (err (ws_exception "Forbidden channel access"), h)

  -- `assertChannelAccess`: the client lists the messages of the channel, `limit: 1`.
  unfoldable pub assert_channel_access : Text → Text → Live (Unit {0})
  assert_channel_access channel_id user_id h =
      or_forbidden (call (list_messages channel_id user_id none (natural 1)) h)

  unfoldable pub socket_join_channel : Text → Text → Live (Text × Bool)
  socket_join_channel client channel_id =
      and_then (ensure_payload (is_given channel_id) "channelId is required") (λ _.
        and_then (get_user_id client) (λ user_id.
          and_then (assert_channel_access channel_id user_id) (λ _.
            and_then (update_client client (join_room (channel_room channel_id)))
              (λ _. reply_with (channel_id, true)))))

  unfoldable pub socket_leave_channel : Text → Text → Live (Text × Bool)
  socket_leave_channel client channel_id =
      and_then (ensure_payload (is_given channel_id) "channelId is required") (λ _.
        and_then (update_client client (leave_room (channel_room channel_id)))
          (λ _. reply_with (channel_id, false)))

  -- The event of a message, to the room of its channel.
  abbrev pub announce : String → SerializedMessage → Live SerializedMessage
  announce event m =
      and_then
        (publish (record {
          room = channel_room m.message.channel_id;
          event = codes event;
          payload = of_serialized m;
        }))
        (λ _. reply_with m)

  unfoldable pub socket_send_message : Text → SendMessage → Live SerializedMessage
  socket_send_message client dto =
      and_then
        (ensure_payload (is_given dto.channel_id && is_given dto.content)
          "channelId and content are required")
        (λ _.
          and_then (get_user_id client)
            (λ user_id. and_then (call (send_message dto user_id)) (announce "message:created")))

  unfoldable pub socket_edit_message : Text → Text → Text → Live SerializedMessage
  socket_edit_message client message_id content =
      and_then
        (ensure_payload (is_given message_id && is_given content)
          "messageId and content are required")
        (λ _. and_then (get_user_id client) (λ user_id.
          and_then (call (edit_message message_id content user_id)) (announce "message:updated")))

  unfoldable pub socket_delete_message : Text → Text → Live SerializedMessage
  socket_delete_message client message_id =
      and_then (ensure_payload (is_given message_id) "messageId is required") (λ _.
        and_then (get_user_id client) (λ user_id.
          and_then (call (delete_message message_id user_id)) (announce "message:deleted")))

  abbrev pub thread_event : Text → Thread → RealtimeEvent
  thread_event channel_id t = record {
    room = channel_room channel_id;
    event = codes "thread:created";
    payload = of_thread t;
  }

  abbrev pub typing_event : Text → Text → RealtimeEvent
  typing_event channel_id user_id = record {
    room = channel_room channel_id;
    event = codes "typing:update";
    payload = of_typing channel_id user_id w.now;
  }

  abbrev pub reaction_event : Text → Text → Reaction → RealtimeEvent
  reaction_event message_id channel_id r = record {
    room = channel_room channel_id;
    event = codes "message:reacted";
    payload = of_reaction channel_id message_id r;
  }

  unfoldable pub socket_react_to_message : Text → Text → Text → Text → Live Reaction
  socket_react_to_message client message_id channel_id emoji =
      and_then
        (ensure_payload (is_given message_id && is_given emoji && is_given channel_id)
          "messageId, channelId and emoji are required")
        (λ _. and_then (get_user_id client) (λ user_id.
          and_then (call (react_to_message message_id user_id emoji))
            (λ r. and_then (publish (reaction_event message_id channel_id r)) (λ _. reply_with r))))

  unfoldable pub socket_create_thread : Text → Text → Text → Live Thread
  socket_create_thread client root_message_id channel_id =
      and_then
        (ensure_payload (is_given root_message_id && is_given channel_id)
          "rootMessageId and channelId are required")
        (λ _. and_then (get_user_id client) (λ user_id.
          and_then (call (create_thread root_message_id channel_id user_id))
            (λ t. and_then (publish (thread_event channel_id t)) (λ _. reply_with t))))

  unfoldable pub socket_reply_to_thread : Text → Text → Text → Live SerializedMessage
  socket_reply_to_thread client thread_id content =
      and_then
        (ensure_payload (is_given thread_id && is_given content)
          "threadId and content are required")
        (λ _. and_then (get_user_id client) (λ user_id.
          and_then (call (reply_in_thread thread_id user_id content)) (announce "thread:reply")))

  unfoldable pub socket_typing_start : Text → Text → Live (Text × Text × ℕ)
  socket_typing_start client channel_id =
      and_then (ensure_payload (is_given channel_id) "channelId is required") (λ _.
        and_then (get_user_id client) (λ user_id.
          and_then (assert_channel_access channel_id user_id) (λ _.
            and_then (publish (typing_event channel_id user_id))
              (λ _. reply_with (channel_id, user_id, w.now)))))

-- What a client asks for, by the name of the event.
pub data SocketRequest : Type 0 where
  channel_join channel_leave message_delete typing_start : Text → SocketRequest
  message_send : SendMessage → SocketRequest
  message_edit thread_create thread_reply_to : Text → Text → SocketRequest
  message_react : Text → Text → Text → SocketRequest

module _ ⦃w : World⦄ where
  -- The gateway after a request.
  unfoldable pub handle_request : Text → SocketRequest → Hub → Hub
  handle_request client (channel_join c) h = (socket_join_channel client c h).1
  handle_request client (channel_leave c) h = (socket_leave_channel client c h).1
  handle_request client (message_delete m) h = (socket_delete_message client m h).1
  handle_request client (typing_start c) h = (socket_typing_start client c h).1
  handle_request client (message_send dto) h = (socket_send_message client dto h).1
  handle_request client (message_edit m content) h = (socket_edit_message client m content h).1
  handle_request client (thread_create m c) h = (socket_create_thread client m c h).1
  handle_request client (thread_reply_to t content) h =
      (socket_reply_to_thread client t content h).1
  handle_request client (message_react m c emoji) h = (socket_react_to_message client m c emoji h).1
