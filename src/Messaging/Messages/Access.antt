-- ===== src/Messaging/Messages/Access.antt =====
-- A user who may not use a channel changes nothing in it.

use synapse_hub.Action.{World, Failure, err}
use synapse_hub.Base.{Option, ℕ, List, ◌≡◌, inl, inr, arith}
use synapse_hub.Messaging.Access.Laws.{Allowed, ensure_channel_access_cases}
use synapse_hub.Messaging.Drafts.{upsert_draft, delete_draft}
use synapse_hub.Messaging.Messages.{send_message, typing}
use synapse_hub.Messaging.Scheduled.{schedule_message}
use synapse_hub.Messaging.Threads.{create_thread}
use synapse_hub.Schema.{Db}
use synapse_hub.Text.{Text}

module _ ⦃w : World⦄ where
  -- Where a user may not use a channel, sending or scheduling a message, saving or deleting a
  -- draft, opening a thread and announcing that one types all throw the same exception, and none
  -- of them changes the database.
  pub outsider_changes_nothing :
      (channel_id user_id content root : Text) (send_at : Option ℕ) (thread_id : Option Text)
      (file_ids : Option (List Text)) (db : Db)
      → ¬ (Allowed channel_id user_id db)
      → (e : Failure) × (send_message
            (record {
              channel_id = channel_id;
              content = content;
              file_ids = file_ids;
              thread_id = thread_id;
            })
            user_id
            db
          ≡ (err e, db))
        × (schedule_message user_id channel_id content send_at thread_id db ≡ (err e, db))
        × (upsert_draft user_id channel_id content thread_id db ≡ (err e, db))
        × (delete_draft user_id channel_id thread_id db ≡ (err e, db))
        × (create_thread root channel_id user_id db ≡ (err e, db))
        × (typing channel_id user_id db ≡ (err e, db))
  outsider_changes_nothing channel_id user_id content root send_at thread_id file_ids db outside =
      elim (ensure_channel_access_cases channel_id user_id db) [
        | inl inside ↦ absurd (outside inside)
        | inr (e, h) ↦ (
          e,
          unfold send_message in (ground arith),
          unfold schedule_message in (ground arith),
          unfold upsert_draft in (ground arith),
          unfold delete_draft in (ground arith),
          unfold create_thread in (ground arith),
          unfold typing in (ground arith),
        )
      ]
