-- ===== src/Realtime/Rooms.antt =====
-- Which sockets are in a room, and what is sent there.
use Prim.Native.String.{String}
use mathlib.Core.Path.{subst}
use synapse_hub.Action.{World, Reply, ok, err, Action}
use synapse_hub.Base.{
  [], ◌≡◌, some, true, All, Bool, false, All-map_where, List, keep, ◌∷◌, Option, none, ◌∙◌, ap,
  refl, All-append, sym, ◌&&◌, ℕ, not,
}
use synapse_hub.Messaging.Access.{SerializedMessage}
use synapse_hub.Messaging.Messages.{
  list_messages, delete_message, SendMessage, send_message, edit_message, react_to_message,
}
use synapse_hub.Messaging.Threads.{reply_in_thread, create_thread}
use synapse_hub.Pagination.{natural}
use synapse_hub.Realtime.{
  TokenCheck, Hub, Handshake, handle_connection, handle_disconnect, SocketRequest, handle_request,
  SocketClient, Live, and_then, ensure_payload, update_client, is_socket, verified_user, admitted,
  user_room, or_forbidden, assert_channel_access, announce, guarded, get_user_id, call,
  socket_join_channel, is_given, join_room, channel_room, reply_with, socket_leave_channel,
  leave_room, socket_delete_message, socket_send_message, socket_edit_message,
  socket_reply_to_thread, socket_create_thread, publish, thread_event, socket_react_to_message,
  reaction_event, socket_typing_start, typing_event, channel_join, channel_leave, message_delete,
  typing_start, message_send, message_edit, thread_create, thread_reply_to, message_react,
  extract_access_token,
}
use synapse_hub.Schema.{Db, Thread, Reaction}
use synapse_hub.Text.{Text, truthy, given}

-- What happens to the gateway: clients come and go and ask, and the other services write.
pub data Step ⦃w : World⦄ ⦃k : TokenCheck⦄ : Hub → Hub → Type 0 where
  connects : (client : Text) (x : Handshake) (h : Hub) → Step h (handle_connection client x h)
  disconnects : (client : Text) (h : Hub) → Step h (handle_disconnect client h)
  asks : (client : Text) (r : SocketRequest) (h : Hub) → Step h (handle_request client r h)
  writes : (db : Db) (h : Hub) → Step h (record h { db = db })

pub data Reachable ⦃w : World⦄ ⦃k : TokenCheck⦄ : Hub → Type 0 where
  starts : (db : Db) → Reachable (record { db = db; sockets = []; published = [] })
  goes_on : (h h' : Hub) → Reachable h → Step h h' → Reachable h'

module _ ⦃k : TokenCheck⦄ where
  -- The user of the socket is the one that a valid token names.
  abbrev pub IsKnown : SocketClient → Type 0
  IsKnown s =
      (token u : Text) × (k.verify_access token ≡ some (some u))
      × (s.user_id ≡ some u)
      × (truthy u ≡ true)

  abbrev pub AllKnown : Hub → Type 0
  AllKnown h = All IsKnown h.sockets

  -- A handler that keeps the users of the sockets known.
  abbrev KeepsKnown : {A : Type 0} → Live A → Type 0
  KeepsKnown m = (h : Hub) → AllKnown h → AllKnown (m h).1

  known-then :
      {A B : Type 0} (m : Live A) (f : A → Live B)
      → KeepsKnown m
      → ((a : A) → KeepsKnown (f a))
      → KeepsKnown (and_then m f)
  known-then {A = A} {B = B} m f km kf h k = go (m h).0 (m h).1 (km h k)
    where
      go :
          (r : Reply A) (h' : Hub)
          → AllKnown h'
          → AllKnown (and_then {A = A} {B = B} (λ x. (r, h')) f h).1
      go (ok a) h' k' = kf a h' k'
      go (err e) h' k' = k'

  known-payload : (b : Bool) (complaint : String) → KeepsKnown (ensure_payload b complaint)
  known-payload true complaint h k = k
  known-payload false complaint h k = k

  known-update :
      (client : Text) (f : SocketClient → SocketClient)
      → ((s : SocketClient) → IsKnown s → IsKnown (f s))
      → KeepsKnown (update_client client f)
  known-update client f same h k = All-map_where IsKnown (is_socket client) f h.sockets same k

  All-keep :
      (p : SocketClient → Bool) (l : List SocketClient) → All IsKnown l → All IsKnown (keep p l)
  All-keep p [] k = tt
  All-keep p (s ∷ l) k = go (p s) (All-keep p l k.1)
    where
      go :
          (b : Bool)
          → All IsKnown (keep p l)
          → All IsKnown (elim b [ true ↦ s ∷ keep p l | false ↦ keep p l ])
      go true rest = (k.0, rest)
      go false rest = rest

  -- What a valid token gives.
  abbrev IsNamedBy : Text → Text → Type 0
  IsNamedBy t u = (k.verify_access t ≡ some (some u)) × (truthy u ≡ true)

  sub-IsNamedBy :
      (t : Text) (o : Option (Option Text)) (u : Text)
      → k.verify_access t ≡ o
      → elim o [ none ↦ none | some sub ↦ given sub ] ≡ some u
      → IsNamedBy t u
  sub-IsNamedBy t none u e h = cc h
  sub-IsNamedBy t (some none) u e h = cc h
  sub-IsNamedBy t (some (some [])) u e h = cc h
  sub-IsNamedBy t (some (some (c ∷ s))) [] e h = cc h
  sub-IsNamedBy t (some (some (c ∷ s))) (d ∷ u) e h =
      let same : c ∷ s ≡ d ∷ u = cc h in
      (e ∙ ap (λ (x : Text). some (some x)) same, unfold truthy in refl)

  verified_user-IsNamedBy :
      (token : Option Text) (u : Text)
      → verified_user k.verify_access token ≡ some u
      → (t : Text) × IsNamedBy t u
  verified_user-IsNamedBy none u e = cc e
  verified_user-IsNamedBy (some []) u e = cc e
  verified_user-IsNamedBy (some (c ∷ s)) u e =
      (c ∷ s, sub-IsNamedBy (c ∷ s) (k.verify_access (c ∷ s)) u refl e)

  admitted-IsKnown :
      (client : Text) (o : Option Text) (l : List SocketClient)
      → ((u : Text) → o ≡ some u → (t : Text) × IsNamedBy t u)
      → All IsKnown l
      → All IsKnown (admitted client o l)
  admitted-IsKnown client none l good known = known
  admitted-IsKnown client (some u) l good known =
      let (t, (named, full)) = good u refl in
      All-append IsKnown l (record { id = client; user_id = some u; rooms = user_room u ∷ [] } ∷ [])
        known ((t, u, named, refl, full), tt)

module _ ⦃w : World⦄ ⦃k : TokenCheck⦄ where
  or_forbidden-sockets :
      {A : Type 0} (r : Reply A) (h : Hub) → (or_forbidden (r, h)).1.sockets ≡ h.sockets
  or_forbidden-sockets (ok a) h = refl
  or_forbidden-sockets (err e) h = refl

  known-access : (channel_id user_id : Text) → KeepsKnown (assert_channel_access channel_id user_id)
  unfolding assert_channel_access
  known-access channel_id user_id h k =
      let m = list_messages channel_id user_id none (natural 1) h.db in
      subst (λ l. All IsKnown l) (sym (or_forbidden-sockets m.0 (record h { db = m.1 }))) k

  known-announce : (event : String) (m : SerializedMessage) → KeepsKnown (announce event m)
  known-announce event m h k = k

  known-guarded :
      {A : Type 0} (b : Bool) (complaint : String) (client : Text) (f : Text → Live A)
      → ((u : Text) → KeepsKnown (f u))
      → KeepsKnown (guarded b complaint client f)
  known-guarded b complaint client f kf =
      known-then (ensure_payload b complaint) (λ _. and_then (get_user_id client) f)
        (known-payload b complaint) (λ _. known-then (get_user_id client) f (λ h k. k) kf)

  -- A request to a service, and what is sent of its answer.
  known-call :
      {A B : Type 0} (m : Action A) (f : A → Live B)
      → ((a : A) → KeepsKnown (f a))
      → KeepsKnown (and_then (call m) f)
  known-call m f kf = known-then (call m) f (λ h k. k) kf

  join-known : (client c : Text) → KeepsKnown (socket_join_channel client c)
  unfolding socket_join_channel
  join-known client c =
      known-guarded {A = Text × Bool} (is_given c) "channelId is required" client
        (λ u. and_then (assert_channel_access c u) (λ _.
          and_then (update_client client (join_room (channel_room c))) (λ _. reply_with (c, true))))
        (λ u.
          known-then {B = Text × Bool} (assert_channel_access c u)
            (λ _.
              and_then (update_client client (join_room (channel_room c)))
                (λ _. reply_with (c, true)))
            (known-access c u)
            (λ _.
              known-then {B = Text × Bool} (update_client client (join_room (channel_room c)))
                (λ _. reply_with (c, true))
                (known-update client (join_room (channel_room c)) (λ s k. k)) (λ _ h k. k)))

  leave-known : (client c : Text) → KeepsKnown (socket_leave_channel client c)
  unfolding socket_leave_channel
  leave-known client c =
      known-then {B = Text × Bool} (ensure_payload (is_given c) "channelId is required")
        (λ _.
          and_then (update_client client (leave_room (channel_room c)))
            (λ _. reply_with (c, false)))
        (known-payload (is_given c) "channelId is required")
        (λ _.
          known-then {B = Text × Bool} (update_client client (leave_room (channel_room c)))
            (λ _. reply_with (c, false))
            (known-update client (leave_room (channel_room c)) (λ s k. k)) (λ _ h k. k))

  delete-known : (client m : Text) → KeepsKnown (socket_delete_message client m)
  unfolding socket_delete_message
  delete-known client m =
      known-guarded {A = SerializedMessage} (is_given m) "messageId is required" client
        (λ u. and_then (call (delete_message m u)) (announce "message:deleted"))
        (λ u.
          known-call (delete_message m u) (announce "message:deleted")
            (known-announce "message:deleted"))

  send-known : (client : Text) (dto : SendMessage) → KeepsKnown (socket_send_message client dto)
  unfolding socket_send_message
  send-known client dto =
      known-guarded {A = SerializedMessage} (is_given dto.channel_id && is_given dto.content)
        "channelId and content are required" client
        (λ u. and_then (call (send_message dto u)) (announce "message:created"))
        (λ u.
          known-call (send_message dto u) (announce "message:created")
            (known-announce "message:created"))

  edit-known : (client m content : Text) → KeepsKnown (socket_edit_message client m content)
  unfolding socket_edit_message
  edit-known client m content =
      known-guarded {A = SerializedMessage} (is_given m && is_given content)
        "messageId and content are required" client
        (λ u. and_then (call (edit_message m content u)) (announce "message:updated"))
        (λ u.
          known-call (edit_message m content u) (announce "message:updated")
            (known-announce "message:updated"))

  reply-known : (client t content : Text) → KeepsKnown (socket_reply_to_thread client t content)
  unfolding socket_reply_to_thread
  reply-known client t content =
      known-guarded {A = SerializedMessage} (is_given t && is_given content)
        "threadId and content are required" client
        (λ u. and_then (call (reply_in_thread t u content)) (announce "thread:reply"))
        (λ u.
          known-call (reply_in_thread t u content) (announce "thread:reply")
            (known-announce "thread:reply"))

  thread-known : (client m c : Text) → KeepsKnown (socket_create_thread client m c)
  unfolding socket_create_thread
  thread-known client m c =
      known-guarded {A = Thread} (is_given m && is_given c)
        "rootMessageId and channelId are required" client
        (λ u.
          and_then (call (create_thread m c u))
            (λ t. and_then (publish (thread_event c t)) (λ _. reply_with t)))
        (λ u.
          known-call {B = Thread} (create_thread m c u)
            (λ t. and_then (publish (thread_event c t)) (λ _. reply_with t)) (λ t h k. k))

  react-known : (client m c emoji : Text) → KeepsKnown (socket_react_to_message client m c emoji)
  unfolding socket_react_to_message
  react-known client m c emoji =
      known-guarded {A = Reaction} (is_given m && is_given emoji && is_given c)
        "messageId, channelId and emoji are required" client
        (λ u.
          and_then (call (react_to_message m u emoji))
            (λ r. and_then (publish (reaction_event m c r)) (λ _. reply_with r)))
        (λ u.
          known-call {B = Reaction} (react_to_message m u emoji)
            (λ r. and_then (publish (reaction_event m c r)) (λ _. reply_with r)) (λ r h k. k))

  typing-known : (client c : Text) → KeepsKnown (socket_typing_start client c)
  unfolding socket_typing_start
  typing-known client c =
      known-guarded {A = Text × Text × ℕ} (is_given c) "channelId is required" client
        (λ u.
          and_then (assert_channel_access c u)
            (λ _. and_then (publish (typing_event c u)) (λ _. reply_with (c, u, w.now))))
        (λ u.
          known-then {B = Text × Text × ℕ} (assert_channel_access c u)
            (λ _. and_then (publish (typing_event c u)) (λ _. reply_with (c, u, w.now)))
            (known-access c u) (λ _ h k. k))

  handle-known :
      (client : Text) (r : SocketRequest) (h : Hub)
      → AllKnown h
      → AllKnown (handle_request client r h)
  unfolding handle_request
  handle-known client (channel_join c) = join-known client c
  handle-known client (channel_leave c) = leave-known client c
  handle-known client (message_delete m) = delete-known client m
  handle-known client (typing_start c) = typing-known client c
  handle-known client (message_send dto) = send-known client dto
  handle-known client (message_edit m content) = edit-known client m content
  handle-known client (thread_create m c) = thread-known client m c
  handle-known client (thread_reply_to t content) = reply-known client t content
  handle-known client (message_react m c emoji) = react-known client m c emoji

module _ ⦃w : World⦄ ⦃k : TokenCheck⦄ where
  Step-AllKnown : (h h' : Hub) → Step h h' → AllKnown h → AllKnown h'
  unfolding handle_connection handle_disconnect
  Step-AllKnown h _ (connects client x _) known =
      admitted-IsKnown client (verified_user k.verify_access (extract_access_token x)) h.sockets
        (verified_user-IsNamedBy (extract_access_token x)) known
  Step-AllKnown h _ (disconnects client _) known =
      All-keep (λ s. not (is_socket client s)) h.sockets known
  Step-AllKnown h _ (asks client r _) known = handle-known client r h known
  Step-AllKnown h _ (writes db _) known = known

  -- In every state that the gateway reaches, by connections, disconnections, requests of its
  -- clients and changes of the database by others, every socket that it keeps is of a user whom
  -- some token names that the check of access tokens accepts.
  pub Reachable-AllKnown : (h : Hub) → Reachable h → AllKnown h
  Reachable-AllKnown _ (starts db) = tt
  Reachable-AllKnown _ (goes_on h h' r s) = Step-AllKnown h h' s (Reachable-AllKnown h r)
