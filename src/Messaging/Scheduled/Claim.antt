-- ===== src/Messaging/Scheduled/Claim.antt =====
-- A due message is claimed by one worker at most, and cancelling reaches it only before the claim.
use synapse_hub.Action.{World, ok, err, forbidden}
use synapse_hub.Base.{
  Bool, List, any, ◌≡◌, false, map_where, [], refl, ◌∷◌, arith, count, ◌&&◌, Option, some, ◌≢◌,
  Bool-cases, inl, inr, true, All, map_where_hit,
}
use synapse_hub.Messaging.Scheduled.{
  has_id, claim, start_processing, process_one, is_final, cancel_scheduled_message, cancel_at,
  process_due_scheduled_messages, deliver_scheduled_message, finish, sent_as,
}
use synapse_hub.Schema.{ScheduledMessage, is_pending, Db, canceled, Message, processing, sent}
use synapse_hub.Text.{Text, text_eq_iff, text_eq}

module _ {A : Type 0} where
  map_where_none :
      (p : A → Bool) (f : A → A) (xs : List A) → any p xs ≡ false → map_where p f xs ≡ xs
  map_where_none p f [] h = refl
  map_where_none p f (x ∷ xs) h = ground (arith, map_where_none p f xs)

  count_none : (p : A → Bool) (xs : List A) → any p xs ≡ false → count p xs ≡ 0
  count_none p [] h = refl
  count_none p (x ∷ xs) h = ground (arith, count_none p xs)

module _ ⦃w : World⦄ where
  abbrev pub claimable : Text → ScheduledMessage → Bool
  claimable id m = has_id id m && is_pending m.status

  abbrev pub with_scheduled :
      (ScheduledMessage → Bool) → (ScheduledMessage → ScheduledMessage) → Db → Db
  with_scheduled p f db = record db { scheduled = map_where p f db.scheduled }

  claim_lem :
      (id : Text) (db : Db)
      → claim id db ≡ (
        ok (count (claimable id) db.scheduled),
        with_scheduled (claimable id) start_processing db,
      )
  unfolding claim
  claim_lem id db =
      ground (arith, w.prisma.update_many_lem (claimable id) start_processing db.scheduled)

  -- A worker that meets a message which is not pending does nothing with it.
  pub process_one_skips :
      (id : Text) (db : Db)
      → any (claimable id) db.scheduled ≡ false
      → process_one id db ≡ (ok tt, db)
  unfolding process_one
  process_one_skips id db none_there = ground (
    arith,
    claim_lem id db,
    count_none (claimable id) db.scheduled none_there,
    map_where_none (claimable id) start_processing db.scheduled none_there,
  )

  claimed_none :
      (id : Text) (rows : List ScheduledMessage)
      → any (claimable id) (map_where (claimable id) start_processing rows) ≡ false
  claimed_none id [] = refl
  claimed_none id (m ∷ rows) = ground (arith, claimed_none id rows)

  -- Once a worker has claimed a message, a second round of the loop for it, by that or another
  -- worker, returns at once and changes nothing.
  pub claim_excludes :
      (id : Text) (db : Db) → let db' = (claim id db).1 in process_one id db' ≡ (ok tt, db')
  claim_excludes id db = rw (claim_lem id db) (
      process_one_skips id (with_scheduled (claimable id) start_processing db)
        (claimed_none id db.scheduled))

  abbrev pub scheduled_found : Text → Db → Option ScheduledMessage
  scheduled_found id db = w.prisma.find_unique (has_id id) db.scheduled

  -- The author of a scheduled message that is neither sent nor canceled cancels it, and is told
  -- so.
  pub cancel_lem :
      (id user_id : Text) (db : Db) (m : ScheduledMessage)
      → scheduled_found id db ≡ some m
      → m.author_id ≡ user_id
      → is_final m.status ≡ false
      → cancel_scheduled_message id user_id db
        ≡ (ok (m.id, canceled), with_scheduled (has_id id) (cancel_at w.now) db)
  unfolding cancel_scheduled_message
  cancel_lem id user_id db m found author active = ground (
    arith,
    (text_eq_iff m.author_id user_id).1 author,
    w.prisma.update_many_lem (has_id id) (cancel_at w.now) db.scheduled,
  )

  canceled_none :
      (id : Text) (rows : List ScheduledMessage)
      → any (claimable id) (map_where (has_id id) (cancel_at w.now) rows) ≡ false
  canceled_none id [] = refl
  canceled_none id (m ∷ rows) = ground (arith, canceled_none id rows)

  -- A cancellation by the author of a message that is neither sent nor canceled answers CANCELED,
  -- and a round of the loop that starts after it does nothing with the message.
  pub cancel_prevents_delivery :
      (id user_id : Text) (db : Db) (m : ScheduledMessage)
      → scheduled_found id db ≡ some m
      → m.author_id ≡ user_id
      → is_final m.status ≡ false
      → let (reply, db') = cancel_scheduled_message id user_id db in
        (reply ≡ ok (m.id, canceled)) × (process_one id db' ≡ (ok tt, db'))
  cancel_prevents_delivery id user_id db m found author active =
      rw (cancel_lem id user_id db m found author active) (
        refl,
        process_one_skips id (with_scheduled (has_id id) (cancel_at w.now) db)
            (canceled_none id db.scheduled),
      )

  -- Nobody but the author can cancel a scheduled message, and the attempt changes nothing.
  pub cancel_foreign :
      (id user_id : Text) (db : Db) (m : ScheduledMessage)
      → scheduled_found id db ≡ some m
      → m.author_id ≢ user_id
      → cancel_scheduled_message id user_id db
        ≡ (err (forbidden "Cannot cancel another user scheduled message"), db)
  unfolding cancel_scheduled_message
  cancel_foreign id user_id db m found other = elim (Bool-cases (text_eq m.author_id user_id)) [
    | inl same ↦ absurd (other ((text_eq_iff m.author_id user_id).0 same))
    | inr differs ↦ ground arith
  ]

  -- A tick while another one runs does nothing, and a tick that runs leaves the flag down.
  pub tick_flag :
      (db : Db)
      → (process_due_scheduled_messages true db ≡ (true, db))
        × ((process_due_scheduled_messages false db).0 ≡ false)
  unfolding process_due_scheduled_messages
  tick_flag db = (refl, refl)

  finish_sent :
      (id : Text) (db : Db) (message : Message)
      → (deliver_scheduled_message id db).0 ≡ ok message
      → (finish id db).0 ≡ ok tt
      → let db' = (deliver_scheduled_message id db).1 in
        (finish id db).1 ≡ with_scheduled (has_id id) (sent_as message.id w.now) db'
  unfolding finish
  finish_sent id db message posted recorded = ground (
    arith,
    w.prisma.update_many_lem (has_id id) (sent_as message.id w.now)
        (deliver_scheduled_message id db).1.scheduled,
  )

  -- If a worker has claimed a message that its author then cancels, the author is told CANCELED,
  -- and yet, where the delivery goes through, its row ends as SENT with the id of the posted
  -- message.
  pub cancel_too_late :
      (id user_id : Text) (db : Db) (m : ScheduledMessage) (message : Message)
      → scheduled_found id db ≡ some m
      → m.author_id ≡ user_id
      → m.status ≡ processing
      → (deliver_scheduled_message id (cancel_scheduled_message id user_id db).1).0 ≡ ok message
      → (finish id (cancel_scheduled_message id user_id db).1).0 ≡ ok tt
      → let (reply, db') = cancel_scheduled_message id user_id db in
        (reply ≡ ok (m.id, canceled))
        × All
            (λ x. has_id id x ≡ true → (x.status ≡ sent) × (x.sent_message_id ≡ some message.id))
            (finish id db').1.scheduled
  cancel_too_late id user_id db m message found author claimed posted recorded =
      let active : is_final m.status ≡ false = rw claimed in
      let told = cancel_lem id user_id db m found author active in
      let db' = (cancel_scheduled_message id user_id db).1 in
      (
        (λ i. (told i).0),
        rw (finish_sent id db' message posted recorded) (
            map_where_hit (λ x. (x.status ≡ sent) × (x.sent_message_id ≡ some message.id))
              (has_id id) (sent_as message.id w.now) (deliver_scheduled_message id db').1.scheduled
              (λ x. (refl, refl))),
      )
