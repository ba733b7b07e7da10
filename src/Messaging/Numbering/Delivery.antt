-- ===== src/Messaging/Numbering/Delivery.antt =====
-- The numbering of the channels through the tick of the scheduler.

use synapse_hub.Action.{World, Action, ◌>>◌, pure, ◌>>=◌, update_row, Failure, Reply, ok, err}
use synapse_hub.Action.Frame.{Keeps, Preserves, Preserves-bind, Keeps-update_row}
use synapse_hub.Action.Tables.{scheduled}
use synapse_hub.Base.{
  refl, ℕ, List, Option, Option-cases, inl, inr, [], ◌∷◌, if◌then◌else◌, ◌==◌, Bool-cases, Bool,
  true, false,
}
use synapse_hub.Messaging.Access.{ensure_channel_access}
use synapse_hub.Messaging.Frame.{Notifying}
use synapse_hub.Messaging.Frame.Delivery.{announce-Keeps}
use synapse_hub.Messaging.Frame.Reads.{access-Keeps, thread_if_given-Keeps}
use synapse_hub.Messaging.Messages.{thread_if_given}
use synapse_hub.Messaging.Scheduled.{
  post_scheduled, scheduled_input, announce_scheduled, deliver_row, root_for,
  deliver_scheduled_message, has_id, mark_failed, failed_with, error_message, finish, mark_sent,
  sent_as, caught, process_each, process_one, claim, process_due_scheduled_messages, due_messages,
}
use synapse_hub.Messaging.Scheduled.Posting.{table_of}
use synapse_hub.Messaging.Sequence.{MessageInput, create_message_with_sequence}
use synapse_hub.Messaging.Sequence.Allocation.{create_message-Numbered}
use synapse_hub.Messaging.Sequence.Laws.{Numbered, Holds}
use synapse_hub.Schema.{Db, Message, ScheduledMessage, Thread}
use synapse_hub.Text.{Text}

module _ ⦃w : World⦄ where
  abbrev pub IsNumbered : Db → Type 0
  IsNumbered db = Numbered db.messages

  pub kept : {A : Type 0} (m : Action A) → Keeps table_of m → Preserves IsNumbered m
  kept m keeps db h = rw (keeps db) h

  pub notices : Notifying table_of
  notices = record { ids = λ n db. refl; of_notifications = λ l db. refl }

  module _ (lawful : (k : ℕ) (l : List Message) → Numbered l → Numbered (w.rival k l))
      (more : (k : ℕ) (l : List Message) → Holds l (w.rival k l)) where
    pub create-Numbered :
        (input : MessageInput) → Preserves IsNumbered (create_message_with_sequence input)
    create-Numbered input db h = create_message-Numbered input db lawful more h

    post-Numbered :
        (m : ScheduledMessage) (root : Option Text) → Preserves IsNumbered (post_scheduled m root)
    unfolding post_scheduled
    post-Numbered m root =
        Preserves-bind IsNumbered (create_message_with_sequence (scheduled_input m root))
          (λ x. announce_scheduled m root x >> pure x) (create-Numbered (scheduled_input m root))
          (λ x.
            Preserves-bind IsNumbered (announce_scheduled m root x) (λ _. pure x)
              (kept (announce_scheduled m root x) (announce-Keeps table_of notices m root x))
              (λ _ db h. h))

    deliver_row-Numbered : (m : ScheduledMessage) → Preserves IsNumbered (deliver_row m)
    unfolding deliver_row
    deliver_row-Numbered m =
        let post = λ (t : Option Thread). post_scheduled m (root_for m.parent_message_id t) in
        Preserves-bind IsNumbered (ensure_channel_access m.channel_id m.author_id)
          (λ a. thread_if_given m.thread_id m.channel_id >>= post)
          (kept (ensure_channel_access m.channel_id m.author_id)
            (access-Keeps table_of m.channel_id m.author_id))
          (λ a.
            Preserves-bind IsNumbered (thread_if_given m.thread_id m.channel_id) post
              (kept (thread_if_given m.thread_id m.channel_id)
                (thread_if_given-Keeps table_of m.thread_id m.channel_id))
              (λ t. post-Numbered m (root_for m.parent_message_id t)))

    deliver-Numbered : (id : Text) → Preserves IsNumbered (deliver_scheduled_message id)
    unfolding deliver_scheduled_message
    deliver-Numbered id db h = elim (Option-cases (w.prisma.find_unique (has_id id) db.scheduled)) [
      | inl gone ↦ rw gone h
      | inr (m, found) ↦ rw found (deliver_row-Numbered m db h)
    ]

    update_scheduled-Numbered :
        (id : Text) (f : ScheduledMessage → ScheduledMessage)
        → Preserves IsNumbered (update_row scheduled (has_id id) f)
    update_scheduled-Numbered id f =
        kept (update_row scheduled (has_id id) f)
          (Keeps-update_row table_of scheduled (has_id id) f (λ l db. refl))

    fail-Numbered :
        (id : Text) (e : Failure) → Preserves IsNumbered (mark_failed id e >>= λ row. pure tt)
    fail-Numbered id e =
        Preserves-bind IsNumbered (mark_failed id e) (λ row. pure tt)
          (update_scheduled-Numbered id (failed_with (error_message e))) (λ row d k. k)

    finish-Numbered : (id : Text) → Preserves IsNumbered (finish id)
    unfolding finish
    finish-Numbered id db h =
        let done = λ (x : Message). mark_sent id x.id >>= λ row. pure tt in
        settled ((deliver_scheduled_message id >>= done) db).0
          ((deliver_scheduled_message id >>= done) db).1
          (Preserves-bind IsNumbered (deliver_scheduled_message id) done (deliver-Numbered id)
            (λ x.
              Preserves-bind IsNumbered (mark_sent id x.id) (λ row. pure tt)
                (update_scheduled-Numbered id (sent_as x.id w.now)) (λ row d k. k))
            db h)
      where
        settled :
            (r : Reply (Unit {0})) (d : Db)
            → IsNumbered d
            → IsNumbered (caught (r, d) (λ e. mark_failed id e >>= λ row. pure tt)).1
        settled (ok a) d k = k
        settled (err e) d k = fail-Numbered id e d k

    process_each-Numbered :
        (rows : List ScheduledMessage) → Preserves IsNumbered (process_each rows)
    unfolding process_each process_one claim
    process_each-Numbered [] db h = h
    process_each-Numbered (m ∷ rows) db h =
        Preserves-bind IsNumbered (process_one m.id) (λ _. process_each rows)
          (Preserves-bind IsNumbered (claim m.id) (λ n. if n == 1 then finish m.id else pure tt)
            (λ d k. k)
            (λ n d k. elim (Bool-cases (n == 1)) [
              | inl one ↦ rw one (finish-Numbered m.id d k)
              | inr other ↦ rw other k
            ]))
          (λ _. process_each-Numbered rows) db h

    pub tick-Numbered :
        (in_flight : Bool) (db : Db)
        → IsNumbered db
        → IsNumbered (process_due_scheduled_messages in_flight db).1
    unfolding process_due_scheduled_messages
    tick-Numbered true db h = h
    tick-Numbered false db h =
        process_each-Numbered (w.prisma.find_many (due_messages w.now) db.scheduled) db h
