-- ===== src/Tests/Posts.antt =====
-- Messages, reactions, pins and threads on the sample.

use synapse_hub.Action.{Failure, err}
use synapse_hub.Base.{◌≡◌, some, refl, Option, none, [], ◌∷◌, ◌≢◌, ap, last?, sym, ◌∙◌}
use synapse_hub.Messaging.Access.{
  ensure_message_access, ensure_channel_access, ensure_workspace_member, get_serialized_message,
  serialize_message,
}
use synapse_hub.Messaging.Access.Laws.{message_found}
use synapse_hub.Messaging.Messages.{delete_message, edit_message}
use synapse_hub.Messaging.Messages.Content.{delete_message_final}
use synapse_hub.Messaging.Threads.{create_thread, thread_of, thread_at_root}
use synapse_hub.Schema.{Message, Db}
use synapse_hub.Tests.Sample.{quiet, office, greeting}
use synapse_hub.Text.{codes, text_eq, Text}

greeting_found : message_found ⦃w = quiet⦄ (codes "m") office ≡ some greeting
unfolding text_eq
greeting_found = refl

abbrev content_of : Option Message → Text
content_of none = []
content_of (some m) = m.content

greeting_deleted : (delete_message ⦃w = quiet⦄ (codes "m") (codes "a") office).1 ≡ record office {
  messages = record greeting { deleted_at = some 10000; content = codes "[deleted]" } ∷ [];
}
unfolding delete_message ensure_message_access ensure_channel_access ensure_workspace_member
    get_serialized_message serialize_message text_eq
greeting_deleted = refl

deletion_changes : (delete_message ⦃w = quiet⦄ (codes "m") (codes "a") office).1 ≢ office
deletion_changes same =
    let gone : greeting.content ≡ codes "[deleted]" =
      ap (λ (db : Db). content_of (last? db.messages)) (sym same ∙ greeting_deleted) in
    cc gone

delete_message_final_example :
    let db' = (delete_message ⦃w = quiet⦄ (codes "m") (codes "a") office).1 in
    (e : Failure) × (edit_message ⦃w = quiet⦄ (codes "m") (codes "back") (codes "b") db'
      ≡ (err e, db'))
delete_message_final_example =
    delete_message_final ⦃w = quiet⦄ (codes "m") (codes "a") (codes "back") (codes "b") office
      deletion_changes

greeting_gets_thread :
    (create_thread ⦃w = quiet⦄ (codes "m") (codes "g") (codes "a") office).1.threads
    ≡ record {
      id = 200 ∷ [];
      workspace_id = codes "w";
      channel_id = codes "g";
      root_message_id = codes "m";
      created_by_id = codes "a";
    }
      ∷ []
unfolding create_thread thread_of thread_at_root ensure_channel_access ensure_workspace_member
    text_eq
greeting_gets_thread = refl
