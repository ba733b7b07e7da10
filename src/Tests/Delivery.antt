-- ===== src/Tests/Delivery.antt =====
-- Scheduled messages on the sample.

use synapse_hub.Action.{ok}
use synapse_hub.Base.{◌≡◌, some, refl, ◌∷◌, [], All, true, false}
use synapse_hub.Messaging.Access.{ensure_channel_access, ensure_workspace_member, get_channel_type}
use synapse_hub.Messaging.Mentions.{extract_mention_handles, scan, match_handle, greedy}
use synapse_hub.Messaging.Messages.{thread_if_given}
use synapse_hub.Messaging.Notify.{emit_mention_notifications, emit_thread_reply_notification}
use synapse_hub.Messaging.Scheduled.{
  claim, process_one, cancel_scheduled_message, deliver_scheduled_message, deliver_row,
  post_scheduled, announce_scheduled, finish, has_id, process_due_scheduled_messages,
}
use synapse_hub.Messaging.Scheduled.Claim.{
  scheduled_found, claim_excludes, cancel_prevents_delivery, cancel_too_late,
}
use synapse_hub.Messaging.Scheduled.Evidence.{AllWellFormed}
use synapse_hub.Messaging.Scheduled.Lifecycle.{tick-WellFormed}
use synapse_hub.Messaging.Sequence.{
  create_message_with_sequence, create_rounds, try_create, is_message_sequence_conflict,
}
use synapse_hub.Schema.{Db, processing, canceled, Message, sent}
use synapse_hub.Tests.Sample.{quiet, office, planned, greeting}
use synapse_hub.Text.{codes, text_eq, is_space}

planned_found : scheduled_found ⦃w = quiet⦄ (codes "p") office ≡ some planned
unfolding text_eq
planned_found = refl

-- The sample once a worker has claimed the planned message.
abbrev claimed : Db
claimed = record office { scheduled = record planned { status = processing } ∷ [] }

claimed_found :
    scheduled_found ⦃w = quiet⦄ (codes "p") claimed ≡ some (record planned { status = processing })
unfolding text_eq
claimed_found = refl

claim_excludes_example :
    let db' = (claim ⦃w = quiet⦄ (codes "p") office).1 in
    process_one ⦃w = quiet⦄ (codes "p") db' ≡ (ok tt, db')
claim_excludes_example = claim_excludes ⦃w = quiet⦄ (codes "p") office

cancel_prevents_delivery_example :
    let (reply, db') = cancel_scheduled_message ⦃w = quiet⦄ (codes "p") (codes "a") office in
    (reply ≡ ok (codes "p", canceled)) × (process_one ⦃w = quiet⦄ (codes "p") db' ≡ (ok tt, db'))
cancel_prevents_delivery_example =
    cancel_prevents_delivery ⦃w = quiet⦄ (codes "p") (codes "a") office planned planned_found refl
      refl

abbrev posted : Message
posted = record greeting {
  id = 200 ∷ [];
  content = codes "later";
  sequence = 2;
  created_at = 10000;
}

canceled_delivered :
    (deliver_scheduled_message ⦃w = quiet⦄
      (codes "p")
      (cancel_scheduled_message ⦃w = quiet⦄ (codes "p") (codes "a") claimed).1).0
    ≡ ok posted
unfolding text_eq cancel_scheduled_message deliver_scheduled_message deliver_row post_scheduled
    announce_scheduled ensure_channel_access ensure_workspace_member thread_if_given
    get_channel_type emit_mention_notifications extract_mention_handles scan
    create_message_with_sequence create_rounds try_create is_message_sequence_conflict finish
    emit_thread_reply_notification is_space match_handle greedy
canceled_delivered = refl

canceled_finished :
    (finish ⦃w = quiet⦄
      (codes "p")
      (cancel_scheduled_message ⦃w = quiet⦄ (codes "p") (codes "a") claimed).1).0
    ≡ ok tt
unfolding text_eq cancel_scheduled_message deliver_scheduled_message deliver_row post_scheduled
    announce_scheduled ensure_channel_access ensure_workspace_member thread_if_given
    get_channel_type emit_mention_notifications extract_mention_handles scan
    create_message_with_sequence create_rounds try_create is_message_sequence_conflict finish
    emit_thread_reply_notification is_space match_handle greedy
canceled_finished = refl

cancel_too_late_example :
    let (reply, db') = cancel_scheduled_message ⦃w = quiet⦄ (codes "p") (codes "a") claimed in
    (reply ≡ ok (codes "p", canceled))
    × All
        (λ x.
          has_id (codes "p") x ≡ true → (x.status ≡ sent) × (x.sent_message_id ≡ some (200 ∷ [])))
        (finish ⦃w = quiet⦄ (codes "p") db').1.scheduled
cancel_too_late_example =
    cancel_too_late ⦃w = quiet⦄ (codes "p") (codes "a") claimed
      (record planned { status = processing }) posted claimed_found refl refl canceled_delivered
      canceled_finished

tick-WellFormed_example : AllWellFormed (process_due_scheduled_messages ⦃w = quiet⦄ false office).1
tick-WellFormed_example =
    tick-WellFormed ⦃w = quiet⦄ false office (λ k l id m h. h) (((λ e. (refl, refl, refl)), tt), tt)
      (tt, tt)
