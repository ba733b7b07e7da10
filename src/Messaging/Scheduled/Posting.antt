-- ===== src/Messaging/Scheduled/Posting.antt =====
-- The message that a delivery posts for a scheduled one.

-- A message of an id with the workspace, the channel and the author of a scheduled one.
use synapse_hub.Action.{World, Action, ◌>>=◌, Reply, ok, err, ◌>>◌, pure, not_found}
use synapse_hub.Action.Frame.{Keeps}
use synapse_hub.Action.Tables.{same_place}
use synapse_hub.Base.{
  Bool, ◌&&◌, List, any, ◌≡◌, true, ◌++◌, ◌∷◌, [], any-append, arith, ℕ, zero, suc, Bool-cases, inl,
  inr, Option, refl, ◌⊎◌, some, Option-cases,
}
use synapse_hub.Messaging.Access.{ensure_channel_access}
use synapse_hub.Messaging.Frame.Delivery.{announce-Keeps}
use synapse_hub.Messaging.Frame.Reads.{access-Keeps, thread_if_given-Keeps}
use synapse_hub.Messaging.Messages.{thread_if_given}
use synapse_hub.Messaging.Scheduled.{
  announce_scheduled, post_scheduled, scheduled_input, deliver_row, root_for,
  deliver_scheduled_message, has_id,
}
use synapse_hub.Messaging.Sequence.{MessageInput, create_rounds, create_message_with_sequence}
use synapse_hub.Messaging.Sequence.Allocation.{
  candidate, create_rounds_taken, without_message, create_rounds_free, create_message-Allocated,
  Allocated,
}
use synapse_hub.Schema.{ScheduledMessage, Message, Db, Thread}
use synapse_hub.Text.{Text, text_eq, text_eq_refl}

abbrev pub is_posting : Text → ScheduledMessage → Message → Bool
is_posting id m x =
    text_eq x.id id
    && text_eq x.workspace_id m.workspace_id
    && text_eq x.channel_id m.channel_id
    && text_eq x.author_id m.author_id

-- The messages of one table are in another, with what `is_posting` asks for.
abbrev pub Stays : List Message → List Message → Type 0
Stays l l' =
    (id : Text) (m : ScheduledMessage)
    → any (is_posting id m) l ≡ true
    → any (is_posting id m) l' ≡ true

append-Stays : (l : List Message) (r : Message) → Stays l (l ++ r ∷ [])
append-Stays l r id m h =
    let split = any-append (is_posting id m) l (r ∷ []) in ground (arith, split, h)

last_posting :
    (l : List Message) (r : Message) (m : ScheduledMessage)
    → r.workspace_id ≡ m.workspace_id
    → r.channel_id ≡ m.channel_id
    → r.author_id ≡ m.author_id
    → any (is_posting r.id m) (l ++ r ∷ []) ≡ true
last_posting l r m workspace channel author =
    let split = any-append (is_posting r.id m) l (r ∷ []) in
    let a = text_eq_refl r.id in
    let b : text_eq r.workspace_id m.workspace_id ≡ true =
      rw workspace (text_eq_refl m.workspace_id) in
    let c : text_eq r.channel_id m.channel_id ≡ true = rw channel (text_eq_refl m.channel_id) in
    let d : text_eq r.author_id m.author_id ≡ true = rw author (text_eq_refl m.author_id) in
    ground (arith, split, a, b, c, d)

module _ ⦃w : World⦄ where
  abbrev pub table_of : Db → List Message
  table_of db = db.messages

  -- An action that removes no message.
  abbrev pub Grows : {A : Type 0} → Action A → Type 0
  Grows m = (db : Db) → Stays db.messages (m db).1.messages

  pub Keeps-Grows : {A : Type 0} (m : Action A) → Keeps table_of m → Grows m
  Keeps-Grows m keeps db id s h = rw (keeps db) h

  Grows-bind :
      {A B : Type 0} (m : Action A) (f : A → Action B)
      → Grows m
      → ((a : A) → Grows (f a))
      → Grows (m >>= f)
  Grows-bind {A = A} {B = B} m f gm gf db id s h = go (m db).0 (m db).1 (gm db id s h)
    where
      go :
          (r : Reply A) (db' : Db)
          → any (is_posting id s) db'.messages ≡ true
          → any (is_posting id s) (◌>>=◌ {A = A} {B = B} (λ d. (r, d)) f db').1.messages ≡ true
      go (ok a) db' there = gf a db' id s there
      go (err e) db' there = there

  -- A reply, where it is a message, is the one posted for a scheduled message.
  abbrev pub Posts : ScheduledMessage → Reply Message × Db → Type 0
  Posts m (ok x, db) = any (is_posting x.id m) db.messages ≡ true
  Posts m (err e, db) = Unit

  Posts-bind :
      {A : Type 0} (m : ScheduledMessage) (n : Action A) (f : A → Action Message)
      → ((a : A) (db : Db) → Posts m (f a db))
      → (db : Db) → Posts m ((n >>= f) db)
  Posts-bind {A = A} m n f each db = go (n db).0 (n db).1
    where
      go : (r : Reply A) (db' : Db) → Posts m (◌>>=◌ {A = A} {B = Message} (λ d. (r, d)) f db')
      go (ok a) db' = each a db'
      go (err e) db' = tt

  module _ (others : (k : ℕ) (l : List Message) → Stays l (w.rival k l)) where
    create_rounds-Grows :
        (rounds attempt : ℕ) (input : MessageInput) → Grows (create_rounds rounds attempt input)
    create_rounds-Grows zero attempt input db id s h = unfold create_rounds in h
    create_rounds-Grows (suc rounds) attempt input db id s h =
        let h' = others attempt db.messages id s h in
        elim (Bool-cases (any (same_place (candidate input db)) (w.rival attempt db.messages))) [
          | inl taken ↦
              rw (create_rounds_taken rounds attempt input db taken) (
                create_rounds-Grows rounds (suc attempt) input (without_message attempt db) id s h')
          | inr free ↦
              rw (create_rounds_free rounds attempt input db free)
                (append-Stays (w.rival attempt db.messages) (candidate input db) id s h')
        ]

    create_message-Grows : (input : MessageInput) → Grows (create_message_with_sequence input)
    unfolding create_message_with_sequence
    create_message-Grows input = create_rounds-Grows 6 0 input

    tell-Keeps :
        (m : ScheduledMessage) (root : Option Text) (x : Message)
        → Keeps table_of (announce_scheduled m root x)
    tell-Keeps m root x =
        announce-Keeps table_of (record { ids = λ n db. refl; of_notifications = λ l db. refl }) m
          root x

    post-Grows : (m : ScheduledMessage) (root : Option Text) → Grows (post_scheduled m root)
    unfolding post_scheduled
    post-Grows m root =
        Grows-bind (create_message_with_sequence (scheduled_input m root))
          (λ x. announce_scheduled m root x >> pure x)
          (create_message-Grows (scheduled_input m root))
          (λ x.
            Grows-bind (announce_scheduled m root x) (λ _. pure x)
              (Keeps-Grows (announce_scheduled m root x) (tell-Keeps m root x)) (λ _ db id s h. h))

    -- What was created stays while it is announced.
    told-Posts :
        (m : ScheduledMessage) (root : Option Text) (x : Message) (db : Db)
        → any (is_posting x.id m) db.messages ≡ true
        → Posts m ((announce_scheduled m root x >> pure x) db)
    told-Posts m root x db there =
        go (announce_scheduled m root x db).0 (announce_scheduled m root x db).1
          (tell-Keeps m root x db)
      where
        go :
            (r : Reply (Unit {0})) (db' : Db)
            → db'.messages ≡ db.messages
            → Posts m (◌>>=◌ {A = Unit {0}} {B = Message} (λ d. (r, d)) (λ _. pure x) db')
        go (ok a) db' same = rw same there
        go (err e) db' same = tt

    post-Posts :
        (m : ScheduledMessage) (root : Option Text) (db : Db) → Posts m (post_scheduled m root db)
    unfolding post_scheduled
    post-Posts m root db =
        let r = create_message_with_sequence (scheduled_input m root) db in
        go r.0 r.1 (create_message-Allocated (scheduled_input m root) db)
      where
        go :
            (r : Reply Message) (db' : Db)
            → Allocated (scheduled_input m root) (r, db')
            → Posts m (
                ◌>>=◌ {A = Message} {B = Message}
                  (λ d. (r, d))
                  (λ x. announce_scheduled m root x >> pure x)
                  db')
        go (err e) db' done = tt
        go (ok x) db' (rows, e, free, workspace, channel, author, content, thread, parent) =
            told-Posts m root x db' (rw e (last_posting rows x m workspace channel author))

    deliver_row-Grows : (m : ScheduledMessage) → Grows (deliver_row m)
    unfolding deliver_row
    deliver_row-Grows m =
        let post = λ (t : Option Thread). post_scheduled m (root_for m.parent_message_id t) in
        Grows-bind (ensure_channel_access m.channel_id m.author_id)
          (λ a. thread_if_given m.thread_id m.channel_id >>= post)
          (Keeps-Grows (ensure_channel_access m.channel_id m.author_id)
            (access-Keeps table_of m.channel_id m.author_id))
          (λ a.
            Grows-bind (thread_if_given m.thread_id m.channel_id) post
              (Keeps-Grows (thread_if_given m.thread_id m.channel_id)
                (thread_if_given-Keeps table_of m.thread_id m.channel_id))
              (λ t. post-Grows m (root_for m.parent_message_id t)))

    deliver_row-Posts : (m : ScheduledMessage) (db : Db) → Posts m (deliver_row m db)
    unfolding deliver_row
    deliver_row-Posts m =
        let post = λ (t : Option Thread). post_scheduled m (root_for m.parent_message_id t) in
        Posts-bind m (ensure_channel_access m.channel_id m.author_id)
          (λ a. thread_if_given m.thread_id m.channel_id >>= post)
          (λ a.
            Posts-bind m (thread_if_given m.thread_id m.channel_id) post
              (λ t. post-Posts m (root_for m.parent_message_id t)))

    -- A delivery removes no message, and gives the one that it posted for the row of its id.
    pub deliver_cases :
        (id : Text) (db : Db)
        → (deliver_scheduled_message id db ≡ (err (not_found "Scheduled message not found"), db))
          ⊎ ((m : ScheduledMessage) × (w.prisma.find_unique (has_id id) db.scheduled ≡ some m)
              × Stays db.messages (deliver_scheduled_message id db).1.messages
              × Posts m (deliver_scheduled_message id db))
    unfolding deliver_scheduled_message
    deliver_cases id db = elim (Option-cases (w.prisma.find_unique (has_id id) db.scheduled)) [
      | inl gone ↦ inl (rw gone refl)
      | inr (m, found) ↦
          inr (m, found, rw found (deliver_row-Grows m db), rw found (deliver_row-Posts m db))
    ]
