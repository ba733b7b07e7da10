-- ===== src/Notifications/Unread.antt =====
-- The unread notifications of a user.
use synapse_hub.Action.{World, Failure, err, ok, not_found, forbidden}
use synapse_hub.Base.{
  map_where, ◌++◌, ◌∷◌, [], ◌+◌, ◌≡◌, some, any-append, arith, is_some, true, count, if◌then◌else◌,
  Option-cases, inl, inr, count-map_where, refl, ◌∙◌, count-append, Option, ◌⊎◌, Bool-cases,
}
use synapse_hub.Notifications.{
  EmitNotification, sent_off, emitted_row, emit_notification, is_unread_of, mark_read, read_at_time,
}
use synapse_hub.Prisma.Laws.{find_unique-any}
use synapse_hub.Schema.{Db, User, Notification}
use synapse_hub.Text.{text_eq, text_eq_refl, Text, text_eq_sound}

module _ ⦃w : World⦄ where
  abbrev pub with_emission : EmitNotification → Db → Db
  with_emission dto db = record db {
    notifications =
        map_where (λ n. text_eq n.id (w.uuid db.issued)) sent_off
          (db.notifications ++ emitted_row dto (w.uuid db.issued) ∷ []);
    issued = db.issued + 1;
  }

  emit_known :
      (dto : EmitNotification) (db : Db) (u : User)
      → w.prisma.find_unique (λ x. text_eq x.id dto.user_id) db.users ≡ some u
      → (emit_notification dto db).1 ≡ with_emission dto db
  unfolding emit_notification
  emit_known dto db u found =
      let row = emitted_row dto (w.uuid db.issued) in
      let own = λ (n : Notification). text_eq n.id (w.uuid db.issued) in
      let there = find_unique-any w.prisma own (db.notifications ++ row ∷ []) in
      let split = any-append own db.notifications (row ∷ []) in
      let same = text_eq_refl (w.uuid db.issued) in
      ground (
        arith,
        w.prisma.create_lem [] row db.notifications,
        w.prisma.update_many_lem own sent_off (db.notifications ++ row ∷ []),
        there,
        split,
        same,
      )

  -- Emitting a notification to a known user adds one to the number of their unread notifications
  -- and leaves that of everybody else as it was.
  pub emit_unread :
      (dto : EmitNotification) (user_id : Text) (db : Db)
      → is_some (w.prisma.find_unique (λ x. text_eq x.id dto.user_id) db.users) ≡ true
      → count (is_unread_of user_id) (emit_notification dto db).1.notifications
        ≡ count (is_unread_of user_id) db.notifications
          + (if text_eq dto.user_id user_id then 1 else 0)
  emit_unread dto user_id db known =
      elim (Option-cases (w.prisma.find_unique (λ (x : User). text_eq x.id dto.user_id) db.users)) [
        | inl gone ↦ ground arith
        | inr (u, found) ↦
            let row = emitted_row dto (w.uuid db.issued) in
            let e = emit_known dto db u found in
            rw e (
              count-map_where (is_unread_of user_id) (λ n. text_eq n.id (w.uuid db.issued)) sent_off
                (db.notifications ++ row ∷ []) (λ n. refl)
              ∙ count-append (is_unread_of user_id) db.notifications (row ∷ [])
              ∙ ground arith)
      ]

  abbrev pub notification_found : Text → Db → Option Notification
  notification_found notification_id db =
      w.prisma.find_unique (λ n. text_eq n.id notification_id) db.notifications

  -- Marking a notification as read either throws and changes nothing, or it is one of the requester,
  -- and then it is read, with the time, and nothing else changes.
  pub mark_read_cases :
      (notification_id requester_id : Text) (db : Db)
      → ((e : Failure) × (mark_read notification_id requester_id db ≡ (err e, db)))
        ⊎ ((n : Notification) × (notification_found notification_id db ≡ some n)
            × (n.user_id ≡ requester_id)
            × (mark_read notification_id requester_id db ≡ (
              ok (read_at_time w.now n),
              record db {
                notifications =
                    map_where
                      (λ x. text_eq x.id notification_id)
                      (read_at_time w.now)
                      db.notifications;
              },
            )))
  unfolding mark_read
  mark_read_cases notification_id requester_id db =
      elim (Option-cases (notification_found notification_id db)) [
        | inl gone ↦ inl (not_found "Notification not found", ground arith)
        | inr (n, found) ↦ elim (Bool-cases (text_eq n.user_id requester_id)) [
          | inr other ↦
              inl (forbidden "Cannot mark another user notification as read", ground arith)
          | inl own ↦ inr (
            n,
            found,
            text_eq_sound n.user_id requester_id own,
            ground (
              arith,
              w.prisma.update_many_lem (λ (x : Notification). text_eq x.id notification_id)
                  (read_at_time w.now) db.notifications,
            ),
          )
        ]
      ]
