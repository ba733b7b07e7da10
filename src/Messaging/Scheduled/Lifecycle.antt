-- ===== src/Messaging/Scheduled/Lifecycle.antt =====
-- The status of a scheduled message comes with its evidence, through every operation.

use mathlib.Core.Path.{subst}
use synapse_hub.Action.{
  World, Action, update_many, update_row, Reply, err, p2025, ok, bad_request, ◌>>=◌, throw_if, ◌>>◌,
  or_throw, Failure, pure, not_found,
}
use synapse_hub.Action.Frame.{Keeps, Preserves, Preserves-bind, Keeps-throw_if, Keeps-or_throw}
use synapse_hub.Action.Tables.{scheduled}
use synapse_hub.Base.{
  List, All, sym, Bool, All-map_where, ◌≡◌, true, Option, none, some, ◌⊎◌, arith, inl, inr, refl, ℕ,
  All-append, ◌∷◌, [], ltb, ◌+◌, any, if◌then◌else◌, ◌==◌, Bool-cases, false,
}
use synapse_hub.Messaging.Access.{ChannelAccess, ensure_channel_access, is_empty}
use synapse_hub.Messaging.Frame.Delivery.{deliver-Keeps}
use synapse_hub.Messaging.Frame.Reads.{access-Keeps, thread_if_given-Keeps}
use synapse_hub.Messaging.Messages.{thread_if_given}
use synapse_hub.Messaging.Scheduled.{
  cancel_scheduled_message, has_id, cancel_at, store_scheduled, scheduled_row, schedule_message,
  mark_failed, failed_with, error_message, mark_sent, sent_as, deliver_scheduled_message, caught,
  finish, process_one, claim, start_processing, process_each, process_due_scheduled_messages,
  due_messages,
}
use synapse_hub.Messaging.Scheduled.Claim.{claimable}
use synapse_hub.Messaging.Scheduled.Evidence.{
  AllWellFormed, WellFormed, KeepsKey, Sound, All-changed, OneRowEach-changed, Alike, All-Stays,
  OneRowEach,
}
use synapse_hub.Messaging.Scheduled.Posting.{is_posting, Posts, Stays, deliver_cases}
use synapse_hub.Prisma.Laws.{find_unique_matches}
use synapse_hub.Schema.{Db, ScheduledMessage, Message, Thread}
use synapse_hub.Text.{Text, trim, text_eq, text_eq_sound, text_eq_refl}

module _ ⦃w : World⦄ where
  abbrev tables : Db → List ScheduledMessage × List Message
  tables db = (db.scheduled, db.messages)

  reads : {A : Type 0} (m : Action A) → Keeps tables m → Preserves AllWellFormed m
  reads m keeps db h =
      subst (λ (t : List ScheduledMessage × List Message). All (WellFormed t.1) t.0)
        (sym (keeps db)) h

  update_many-WellFormed :
      (p : ScheduledMessage → Bool) (f : ScheduledMessage → ScheduledMessage)
      → ((l : List Message) (m : ScheduledMessage) → WellFormed l (f m))
      → Preserves AllWellFormed (update_many scheduled p f)
  update_many-WellFormed p f sets db h =
      rw (w.prisma.update_many_lem p f db.scheduled)
        (All-map_where (WellFormed db.messages) p f db.scheduled (λ m _. sets db.messages m) h)

  -- An update of one row, where a row that passes the test becomes well formed.
  update_row-Sound :
      (p : ScheduledMessage → Bool) (f : ScheduledMessage → ScheduledMessage)
      (Q : ScheduledMessage → Type 0) (db : Db)
      → KeepsKey f
      → ((m : ScheduledMessage) → p m ≡ true → Q m → WellFormed db.messages (f m))
      → All Q db.scheduled
      → Sound db
      → Sound (update_row scheduled p f db).1
  update_row-Sound p f Q db keeps sets known h = go (w.prisma.find_unique p db.scheduled)
    where
      go :
          (o : Option ScheduledMessage)
          → Sound
              (let r : Reply ScheduledMessage × Db = elim o [
                | none ↦ (err p2025, db)
                | some r ↦ (ok (f r), scheduled.put (w.prisma.update_many p f db.scheduled).1 db)
              ] in
                r).1
      go none = h
      go (some r) = rw (w.prisma.update_many_lem p f db.scheduled) (
        All-changed (WellFormed db.messages) Q p f db.scheduled sets known h.0,
        OneRowEach-changed p f db.scheduled keeps h.1,
      )

  cancel_effect :
      (id user_id : Text) (db : Db)
      → ((cancel_scheduled_message id user_id db).1 ≡ db)
        ⊎ ((cancel_scheduled_message id user_id db).1
            ≡ (update_many scheduled (has_id id) (cancel_at w.now) db).1)
  unfolding cancel_scheduled_message
  cancel_effect id user_id db = ground arith

  -- Cancelling keeps the rows well formed, whether it succeeds or throws.
  pub cancel-WellFormed :
      (id user_id : Text) (db : Db)
      → AllWellFormed db
      → AllWellFormed (cancel_scheduled_message id user_id db).1
  cancel-WellFormed id user_id db h = elim (cancel_effect id user_id db) [
    | inl same ↦ rw same h
    | inr changed ↦
        rw changed (update_many-WellFormed (has_id id) (cancel_at w.now) (λ l m. refl) db h)
  ]

  store-WellFormed :
      (channel : ChannelAccess) (channel_id user_id content : Text) (time : ℕ)
      (thread : Option Thread)
      → Preserves AllWellFormed (store_scheduled channel channel_id user_id content time thread)
  unfolding store_scheduled
  store-WellFormed channel channel_id user_id content time thread db h =
      let row = scheduled_row channel channel_id user_id thread content time (w.uuid db.issued) in
      let added = All-append (WellFormed db.messages) db.scheduled (row ∷ []) h (tt, tt) in
      ground (arith, w.prisma.create_lem [] row db.scheduled)

  -- Scheduling keeps the rows well formed, whether it succeeds or throws.
  pub schedule-WellFormed :
      (user_id channel_id content : Text) (send_at : Option ℕ) (thread_id : Option Text) (db : Db)
      → AllWellFormed db
      → AllWellFormed (schedule_message user_id channel_id content send_at thread_id db).1
  unfolding schedule_message
  schedule-WellFormed user_id channel_id content send_at thread_id =
      let store = λ (a : ChannelAccess) (time : ℕ) (t : Option Thread).
        store_scheduled a channel_id user_id (trim content) time t in
      let late = bad_request "sendAt must be at least 5 seconds in the future" in
      let blank = bad_request "Message content is required" in
      let no_date = bad_request "Invalid sendAt timestamp" in
      let in_thread =
        λ (a : ChannelAccess) (time : ℕ). thread_if_given thread_id channel_id >>= store a time in
      let at_time = λ (a : ChannelAccess) (time : ℕ).
        throw_if (ltb time (w.now + 5000)) late >> in_thread a time in
      let dated = λ (a : ChannelAccess). or_throw send_at no_date >>= at_time a in
      Preserves-bind AllWellFormed (ensure_channel_access channel_id user_id)
        (λ a. throw_if (is_empty (trim content)) blank >> dated a)
        (reads (ensure_channel_access channel_id user_id) (access-Keeps tables channel_id user_id))
        λ a.
          Preserves-bind AllWellFormed (throw_if (is_empty (trim content)) blank) (λ r. dated a)
            (reads (throw_if (is_empty (trim content)) blank)
              (Keeps-throw_if tables (is_empty (trim content)) blank))
            λ r.
              Preserves-bind AllWellFormed (or_throw send_at no_date) (at_time a)
                (reads (or_throw send_at no_date) (Keeps-or_throw tables send_at no_date))
                λ time.
                  Preserves-bind AllWellFormed (throw_if (ltb time (w.now + 5000)) late)
                    (λ s. in_thread a time)
                    (reads (throw_if (ltb time (w.now + 5000)) late)
                      (Keeps-throw_if tables (ltb time (w.now + 5000)) late))
                    λ s.
                      Preserves-bind AllWellFormed (thread_if_given thread_id channel_id)
                        (store a time)
                        (reads (thread_if_given thread_id channel_id)
                          (thread_if_given-Keeps tables thread_id channel_id))
                        λ t. store-WellFormed a channel_id user_id (trim content) time t

  mark_failed-Sound : (id : Text) (e : Failure) → Preserves Sound (mark_failed id e)
  mark_failed-Sound id e db h =
      update_row-Sound (has_id id) (failed_with (error_message e)) (WellFormed db.messages) db
        (λ a b. ((λ t. t), (λ t. t))) (λ m hit old. refl) h.0 h

  -- The row of a delivered message becomes one of the message that was posted for it.
  mark_sent-Sound :
      (id : Text) (x : Message) (m : ScheduledMessage) (db : Db)
      → text_eq m.id id ≡ true
      → All (Alike m) db.scheduled
      → any (is_posting x.id m) db.messages ≡ true
      → Sound db
      → Sound (mark_sent id x.id db).1
  mark_sent-Sound id x m db own alike there h =
      update_row-Sound (has_id id) (sent_as x.id w.now) (Alike m) db (λ a b. ((λ t. t), (λ t. t)))
        (λ r hit like.
          let near : m.id ≡ id = text_eq_sound m.id id own in
          let far : r.id ≡ id = text_eq_sound r.id id hit in
          let same : text_eq m.id r.id ≡ true = rw (near, far) (text_eq_refl id) in
          let (workspace, channel, author) = like same in
          let posted : any (is_posting x.id (sent_as x.id w.now r)) db.messages ≡ true =
            rw (← workspace, ← channel, ← author) there in
          (x.id, refl, posted, refl, refl))
        alike h

  deliver-scheduled :
      (id : Text) (db : Db) → (deliver_scheduled_message id db).1.scheduled ≡ db.scheduled
  deliver-scheduled id db =
      deliver-Keeps (λ d. d.scheduled)
        (record {
          ids = λ n d. refl;
          of_messages = λ l d. refl;
          of_notifications = λ l d. refl;
          of_files = λ l d. refl;
        })
        id db

  abbrev settle : Text → Reply Message × Db → Reply (Unit {0}) × Db
  settle id (r, db) =
      caught
        (◌>>=◌ {A = Message} {B = Unit {0}} (λ d. (r, d))
          (λ message. mark_sent id message.id >>= λ row. pure tt) db)
        (λ e. mark_failed id e >>= λ row. pure tt)

  failed-Sound : (id : Text) (e : Failure) → Preserves Sound (mark_failed id e >>= λ row. pure tt)
  failed-Sound id e =
      Preserves-bind Sound (mark_failed id e) (λ row. pure tt) (mark_failed-Sound id e)
        (λ row d k. k)

  -- The record of how a delivery ended, after the delivery.
  settle-Sound :
      (id : Text) (m : ScheduledMessage) (r : Reply Message) (db : Db)
      → text_eq m.id id ≡ true
      → All (Alike m) db.scheduled
      → Posts m (r, db)
      → Sound db
      → Sound (settle id (r, db)).1
  settle-Sound id m (err e) db own alike there h = failed-Sound id e db h
  settle-Sound id m (ok x) db own alike there h =
      go (mark_sent id x.id db).0 (mark_sent id x.id db).1
        (mark_sent-Sound id x m db own alike there h)
    where
      go :
          (r : Reply ScheduledMessage) (db' : Db)
          → Sound db'
          → Sound
              (caught
                (◌>>=◌ {A = ScheduledMessage} {B = Unit {0}} (λ d. (r, d)) (λ row. pure tt) db')
                (λ e. mark_failed id e >>= λ row. pure tt)).1
      go (ok row) db' k = k
      go (err e) db' k = failed-Sound id e db' k

  module _ (others : (k : ℕ) (l : List Message) → Stays l (w.rival k l)) where
    finish-Sound : (id : Text) → Preserves Sound (finish id)
    unfolding finish
    finish-Sound id db h = elim (deliver_cases others id db) [
      | inl none_there ↦
          subst (λ (r : Reply Message × Db). Sound (settle id r).1) (sym none_there)
            (failed-Sound id (not_found "Scheduled message not found") db h)
      | inr (m, found, stays, posts) ↦
          let d = deliver_scheduled_message id db in
          let rows = deliver-scheduled id db in
          let own = find_unique_matches w.prisma (has_id id) db.scheduled m found in
          let alike : All (Alike m) db.scheduled =
            (w.prisma.find_unique_some (has_id id) db.scheduled m found).1
              (λ a. All (Alike a) db.scheduled) h.1 in
          let whole : All (WellFormed d.1.messages) db.scheduled =
            All-Stays db.messages d.1.messages db.scheduled stays h.0 in
          settle-Sound id m d.0 d.1 own (subst (λ l. All (Alike m) l) (sym rows) alike) posts (
            subst (λ l. All (WellFormed d.1.messages) l) (sym rows) whole,
            subst OneRowEach (sym rows) h.1,
          )
    ]

    process_one-Sound : (id : Text) → Preserves Sound (process_one id)
    unfolding process_one claim
    process_one-Sound id =
        Preserves-bind Sound (claim id) (λ n. if n == 1 then finish id else pure tt)
          (λ db h. (
            update_many-WellFormed (claimable id) start_processing (λ l m. tt) db h.0,
            rw (w.prisma.update_many_lem (claimable id) start_processing db.scheduled) (
                OneRowEach-changed (claimable id) start_processing db.scheduled
                  (λ a b. ((λ t. t), (λ t. t))) h.1),
          ))
          (λ n db h. elim (Bool-cases (n == 1)) [
            | inl one ↦ rw one (finish-Sound id db h)
            | inr other ↦ rw other h
          ])

    process_each-Sound : (rows : List ScheduledMessage) → Preserves Sound (process_each rows)
    unfolding process_each
    process_each-Sound [] db h = h
    process_each-Sound (m ∷ rows) db h =
        Preserves-bind Sound (process_one m.id) (λ r. process_each rows) (process_one-Sound m.id)
          (λ r. process_each-Sound rows) db h

  -- A tick of the scheduler keeps every row well formed: a SENT row names a message of the table
  -- that has its workspace, channel and author, and carries the time and no error; a FAILED one
  -- carries its error; a CANCELED one the time. Rows of one id are of one workspace, channel and
  -- author, and the other clients remove no message.
  pub tick-WellFormed :
      (in_flight : Bool) (db : Db)
      → ((k : ℕ) (l : List Message) → Stays l (w.rival k l))
      → OneRowEach db.scheduled
      → AllWellFormed db
      → AllWellFormed (process_due_scheduled_messages in_flight db).1
  unfolding process_due_scheduled_messages
  tick-WellFormed true db others one h = h
  tick-WellFormed false db others one h =
      (process_each-Sound others (w.prisma.find_many (due_messages w.now) db.scheduled) db
        (h, one)).0
