-- ===== src/Realtime/Receiving.antt =====
-- What reaches a room, and who is refused it.
use synapse_hub.Action.{World, Failure, err, ws_exception, ok, Reply}
use synapse_hub.Auth.Cases.{refused}
use synapse_hub.Base.{◌≡◌, none, arith, true, some, ◌++◌, ◌∷◌, [], false, any, ap}
use synapse_hub.Channels.{Membership, leave_channel}
use synapse_hub.Channels.Leaving.{left_channel_closed}
use synapse_hub.Messaging.Access.{ensure_channel_access}
use synapse_hub.Messaging.Access.Laws.{channel_row}
use synapse_hub.Messaging.Messages.{list_messages, react_to_message}
use synapse_hub.Pagination.{natural}
use synapse_hub.Realtime.{
  Hub, assert_channel_access, SocketClient, client_of, socket_react_to_message, reaction_event,
  socket_typing_start, is_socket, receivers, channel_room, call,
}
use synapse_hub.Schema.{Db, Reaction, Channel, is_public}
use synapse_hub.Text.{Text, truthy, given}

module _ ⦃w : World⦄ where
  list_refused :
      (channel_id user_id : Text) (db : Db) (e : Failure)
      → ensure_channel_access channel_id user_id db ≡ (err e, db)
      → list_messages channel_id user_id none (natural 1) db ≡ (err e, db)
  unfolding list_messages
  list_refused channel_id user_id db e refused = ground arith

  access_refused :
      (channel_id user_id : Text) (h : Hub) (e : Failure)
      → ensure_channel_access channel_id user_id h.db ≡ (err e, h.db)
      → assert_channel_access channel_id user_id h
        ≡ (err (ws_exception "Forbidden channel access"), h)
  unfolding assert_channel_access
  access_refused channel_id user_id h e refused =
      let listed = list_refused channel_id user_id h.db e refused in ground arith

  -- A client who may react to a message has the event of the reaction published to whatever
  -- channel the payload names, also to one whose access check refuses them, where the same client
  -- is refused the typing event.
  pub react_reaches_any_room :
      (client message_id channel_id emoji u : Text) (h : Hub) (s : SocketClient) (r : Reaction)
      (e : Failure)
      → truthy message_id ≡ true
      → truthy emoji ≡ true
      → truthy channel_id ≡ true
      → client_of client h.sockets ≡ some s
      → given s.user_id ≡ some u
      → (react_to_message message_id u emoji h.db).0 ≡ ok r
      → ensure_channel_access channel_id u h.db ≡ (err e, h.db)
      → ((socket_react_to_message client message_id channel_id emoji h).1.published
          ≡ h.published ++ reaction_event message_id channel_id r ∷ [])
        × ((socket_typing_start client channel_id h).0
            ≡ err (ws_exception "Forbidden channel access"))
  unfolding socket_react_to_message socket_typing_start
  react_reaches_any_room client message_id channel_id emoji u h s r e m_given e_given c_given there
        known reacts shut =
      let refused = access_refused channel_id u h e shut in (ground arith, ground arith)

  -- A client who is in the room of a channel that is not public still gets its events after its
  -- user has left the channel through the channel service, although from then on the access check
  -- of the gateway refuses that user.
  pub left_still_receives :
      (client channel_id user_id : Text) (h : Hub) (c : Channel) (r : Membership)
      → channel_row channel_id h.db ≡ some c
      → is_public c.type ≡ false
      → (leave_channel channel_id user_id h.db).0 ≡ ok r
      → any (is_socket client) (receivers (channel_room channel_id) h) ≡ true
      → let after = (call (leave_channel channel_id user_id) h).1 in
        (any (is_socket client) (receivers (channel_room channel_id) after) ≡ true)
        × ((assert_channel_access channel_id user_id after).0
            ≡ err (ws_exception "Forbidden channel access"))
  left_still_receives client channel_id user_id h c r found kind done inside =
      let (e, shut) = left_channel_closed channel_id user_id h.db c r found kind done in
      let after = (call (leave_channel channel_id user_id) h).1 in
      (
        inside,
        ap (λ (x : Reply (Unit {0}) × Hub). x.0) (access_refused channel_id user_id after e shut),
      )
