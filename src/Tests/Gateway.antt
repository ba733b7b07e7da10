-- ===== src/Tests/Gateway.antt =====
-- The gateway and the headers of requests on the sample.
use synapse_hub.Action.{ok, err, forbidden, ws_exception}
use synapse_hub.Base.{some, ◌∷◌, [], none, ◌≡◌, true, refl, false, any}
use synapse_hub.Channels.{leave_channel, ensure_channel}
use synapse_hub.Controllers.Headers.{missing_user, unnamed_changes_nothing}
use synapse_hub.Controllers.Rest.{
  handle_messaging, delete_message_route, handle_channels, post_archive, handle_workspaces,
  post_accept, handle_files, delete_file_route, handle_search, get_search,
}
use synapse_hub.Email.{MailSettings}
use synapse_hub.Files.{StoreSettings}
use synapse_hub.Messaging.Access.{
  ensure_message_access, ensure_channel_access, ensure_workspace_member,
}
use synapse_hub.Messaging.Access.Laws.{channel_row}
use synapse_hub.Messaging.Messages.{react_to_message}
use synapse_hub.Messaging.Notify.{has}
use synapse_hub.Realtime.{
  TokenCheck, SocketClient, Hub, Handshake, handle_connection, client_of, socket_react_to_message,
  reaction_event, socket_typing_start, is_socket, receivers, channel_room, call,
  assert_channel_access,
}
use synapse_hub.Realtime.Receiving.{react_reaches_any_room, left_still_receives}
use synapse_hub.Realtime.Rooms.{Reachable, goes_on, starts, connects, AllKnown, Reachable-AllKnown}
use synapse_hub.Tests.Sample.{office, quiet, secret}
use synapse_hub.Text.{codes, truthy, text_eq}
use synapse_hub.Workspaces.Links.{LinkSettings}

-- Every token is the id of its user.
abbrev trusting : TokenCheck
trusting = record { verify_access = λ t. some (some t) }

-- bob and alice are connected, and alice is in the room of the private channel.
abbrev bob_socket : SocketClient
bob_socket = record { id = codes "1"; user_id = some (codes "b"); rooms = codes "user:b" ∷ [] }

abbrev alice_socket : SocketClient
alice_socket = record { id = codes "2"; user_id = some (codes "a"); rooms = codes "channel:s" ∷ [] }

abbrev lobby : Hub
lobby = record { db = office; sockets = bob_socket ∷ alice_socket ∷ []; published = [] }

-- A client connects with a token and says something.
abbrev empty_hub : Hub
empty_hub = record { db = office; sockets = []; published = [] }

abbrev greeting_client : Handshake
greeting_client = record { auth_token = some (codes "b"); authorization = none }

connected :
    Reachable ⦃w = quiet⦄ ⦃k = trusting⦄
      (handle_connection ⦃k = trusting⦄ (codes "1") greeting_client empty_hub)
connected =
    goes_on empty_hub (handle_connection ⦃k = trusting⦄ (codes "1") greeting_client empty_hub)
      (starts office) (connects (codes "1") greeting_client empty_hub)

Reachable-AllKnown_example :
    AllKnown ⦃k = trusting⦄ (handle_connection ⦃k = trusting⦄ (codes "1") greeting_client empty_hub)
Reachable-AllKnown_example =
    Reachable-AllKnown ⦃w = quiet⦄ ⦃k = trusting⦄
      (handle_connection ⦃k = trusting⦄ (codes "1") greeting_client empty_hub) connected

a_given : truthy (codes "m") ≡ true
unfolding truthy
a_given = refl

s_given : truthy (codes "s") ≡ true
unfolding truthy
s_given = refl

bob_here : client_of (codes "1") lobby.sockets ≡ some bob_socket
unfolding text_eq
bob_here = refl

bob_reacts :
    (react_to_message ⦃w = quiet⦄ (codes "m") (codes "b") (codes "m") office).0
    ≡ ok (record { message_id = codes "m"; user_id = codes "b"; emoji = codes "m" })
unfolding react_to_message ensure_message_access ensure_channel_access ensure_workspace_member
    text_eq
bob_reacts = refl

bob_refused :
    ensure_channel_access ⦃w = quiet⦄ (codes "s") (codes "b") office
    ≡ (err (forbidden "User is not a member of this channel"), office)
unfolding ensure_channel_access ensure_workspace_member text_eq
bob_refused = refl

react_reaches_any_room_example :
    ((socket_react_to_message ⦃w = quiet⦄
        (codes "1")
        (codes "m")
        (codes "s")
        (codes "m")
        lobby).1.published
      ≡ reaction_event ⦃w = quiet⦄
          (codes "m")
          (codes "s")
          (record { message_id = codes "m"; user_id = codes "b"; emoji = codes "m" })
        ∷ [])
    × ((socket_typing_start ⦃w = quiet⦄ (codes "1") (codes "s") lobby).0
        ≡ err (ws_exception "Forbidden channel access"))
react_reaches_any_room_example =
    react_reaches_any_room ⦃w = quiet⦄ (codes "1") (codes "m") (codes "s") (codes "m") (codes "b")
      lobby bob_socket (record { message_id = codes "m"; user_id = codes "b"; emoji = codes "m" })
      (forbidden "User is not a member of this channel") a_given a_given s_given bob_here refl
      bob_reacts bob_refused

secret_row : channel_row ⦃w = quiet⦄ (codes "s") office ≡ some secret
unfolding text_eq
secret_row = refl

alice_leaves :
    (leave_channel ⦃w = quiet⦄ (codes "s") (codes "a") office).0
    ≡ ok (record { channel_id = codes "s"; user_id = codes "a"; joined = false; members = 0 })
unfolding leave_channel ensure_channel text_eq
alice_leaves = refl

alice_in_room : any (is_socket (codes "2")) (receivers (channel_room (codes "s")) lobby) ≡ true
unfolding channel_room text_eq has
alice_in_room = refl

left_still_receives_example :
    (any (is_socket (codes "2")) (
        receivers
          (channel_room (codes "s"))
          (call (leave_channel ⦃w = quiet⦄ (codes "s") (codes "a")) lobby).1)
      ≡ true)
    × ((assert_channel_access ⦃w = quiet⦄
          (codes "s")
          (codes "a")
          (call (leave_channel ⦃w = quiet⦄ (codes "s") (codes "a")) lobby).1).0
        ≡ err (ws_exception "Forbidden channel access"))
left_still_receives_example =
    left_still_receives ⦃w = quiet⦄ (codes "2") (codes "s") (codes "a") lobby secret
      (record { channel_id = codes "s"; user_id = codes "a"; joined = false; members = 0 })
      secret_row refl alice_leaves alice_in_room

abbrev plain_site : LinkSettings
plain_site = record { public_base = none; random_code = λ n. n ∷ [] }

abbrev no_mail : MailSettings
no_mail = record {
  email_provider = none;
  postmark_server_token = none;
  resend_api_key = none;
  email_from = none;
  email_reply_to = none;
  accepts = λ p m. true;
}

abbrev plain_store : StoreSettings
plain_store = record { s3_bucket = none; s3_endpoint = none }

unnamed_changes_nothing_example :
    (handle_messaging ⦃w = quiet⦄ (some []) (delete_message_route (codes "m")) office
      ≡ (err missing_user, office))
    × (handle_channels ⦃w = quiet⦄ text_eq text_eq text_eq
          (some [])
          (post_archive (codes "g"))
          office
        ≡ (err missing_user, office))
    × (handle_workspaces ⦃w = quiet⦄ text_eq text_eq text_eq ⦃s = plain_site⦄ ⦃m = no_mail⦄
          (some [])
          (post_accept (codes "x"))
          office
        ≡ (err missing_user, office))
    × (handle_files ⦃w = quiet⦄ ⦃s = plain_store⦄ (some []) (delete_file_route (codes "f")) office
        ≡ (err missing_user, office))
    × (handle_search ⦃w = quiet⦄ text_eq text_eq text_eq
          (some [])
          (get_search (codes "w") (codes "q") none none none)
          office
        ≡ (err missing_user, office))
unnamed_changes_nothing_example =
    unnamed_changes_nothing ⦃w = quiet⦄ text_eq text_eq text_eq ⦃l = plain_site⦄ ⦃m = no_mail⦄
      ⦃s = plain_store⦄ (some []) (delete_message_route (codes "m")) (post_archive (codes "g"))
      (post_accept (codes "x")) (delete_file_route (codes "f"))
      (get_search (codes "w") (codes "q") none none none) office refl
