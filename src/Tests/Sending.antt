-- ===== src/Tests/Sending.antt =====
-- Access, sending and drafts on the sample.

use synapse_hub.Action.{err, forbidden, ok, Failure}
use synapse_hub.Base.{◌≡◌, refl, inl, some, ◌↔◌, none, [], false, ◌∷◌}
use synapse_hub.Messaging.Access.{ensure_channel_access, ensure_workspace_member, is_empty}
use synapse_hub.Messaging.Access.Laws.{
  Allowed, ensure_channel_access_iff, channel_row, access_of, MayUse,
}
use synapse_hub.Messaging.Drafts.{upsert_draft, delete_draft}
use synapse_hub.Messaging.Messages.{send_message, typing, SendMessage}
use synapse_hub.Messaging.Messages.Access.{outsider_changes_nothing}
use synapse_hub.Messaging.Messages.Sending.{send_message_posts}
use synapse_hub.Messaging.Numbering.{History-Numbered, after_write, from_none, sending, ticking}
use synapse_hub.Messaging.Scheduled.{schedule_message, process_due_scheduled_messages}
use synapse_hub.Messaging.Sequence.{create_message_with_sequence}
use synapse_hub.Messaging.Sequence.Allocation.{
  Allocated, create_message-Allocated, create_message-Numbered, candidate,
}
use synapse_hub.Messaging.Sequence.Laws.{Numbered}
use synapse_hub.Messaging.Threads.{create_thread}
use synapse_hub.Schema.{Db}
use synapse_hub.Tests.Sample.{quiet, office, general, racing, note, greeting}
use synapse_hub.Text.{codes, text_eq, trim, drop_space, is_space}

bob_denied :
    ensure_channel_access ⦃w = quiet⦄ (codes "s") (codes "b") office
    ≡ (err (forbidden "User is not a member of this channel"), office)
unfolding ensure_channel_access ensure_workspace_member text_eq
bob_denied = refl

bob_outside : ¬ (Allowed ⦃w = quiet⦄ (codes "s") (codes "b") office)
bob_outside (ch, found, may) =
    let granted =
      (ensure_channel_access_iff ⦃w = quiet⦄ (codes "s") (codes "b") office ch found).1 may in
    let denied = bob_denied in cc (granted, denied)

pub alice-Allowed : Allowed ⦃w = quiet⦄ (codes "g") (codes "a") office
unfolding text_eq
alice-Allowed = (general, refl, (refl, refl, inl refl))

create_message-Allocated_example :
    Allocated ⦃w = racing⦄ note (create_message_with_sequence ⦃w = racing⦄ note office)
create_message-Allocated_example = create_message-Allocated ⦃w = racing⦄ note office

office-Numbered : Numbered office.messages
office-Numbered = ((refl, tt), ((0, refl, refl), tt))

create_message-Numbered_example :
    Numbered (create_message_with_sequence ⦃w = quiet⦄ note office).1.messages
create_message-Numbered_example =
    create_message-Numbered ⦃w = quiet⦄ note office (λ k l h. h) (λ k l c n h. h) office-Numbered

general_found : channel_row ⦃w = quiet⦄ (codes "g") office ≡ some general
unfolding text_eq
general_found = refl

ensure_channel_access_iff_example :
    (ensure_channel_access ⦃w = quiet⦄ (codes "g") (codes "a") office
      ≡ (ok (access_of ⦃w = quiet⦄ general), office))
    ↔ MayUse ⦃w = quiet⦄ general (codes "a") office
ensure_channel_access_iff_example =
    ensure_channel_access_iff ⦃w = quiet⦄ (codes "g") (codes "a") office general general_found

outsider_changes_nothing_example :
    (e : Failure) × (send_message ⦃w = quiet⦄
        (record {
          channel_id = codes "s";
          content = codes "psst";
          file_ids = none;
          thread_id = none;
        })
        (codes "b")
        office
      ≡ (err e, office))
    × (schedule_message ⦃w = quiet⦄ (codes "b") (codes "s") (codes "psst") (some 99999) none office
        ≡ (err e, office))
    × (upsert_draft ⦃w = quiet⦄ (codes "b") (codes "s") (codes "psst") none office
        ≡ (err e, office))
    × (delete_draft ⦃w = quiet⦄ (codes "b") (codes "s") none office ≡ (err e, office))
    × (create_thread ⦃w = quiet⦄ (codes "m") (codes "s") (codes "b") office ≡ (err e, office))
    × (typing ⦃w = quiet⦄ (codes "s") (codes "b") office ≡ (err e, office))
outsider_changes_nothing_example =
    outsider_changes_nothing ⦃w = quiet⦄ (codes "s") (codes "b") (codes "psst") (codes "m")
      (some 99999) none none office bob_outside

abbrev morning : SendMessage
morning = record {
  channel_id = codes "g";
  content = codes " good morning ";
  file_ids = none;
  thread_id = none;
}

-- The sample before anybody has written: alice writes, and the scheduler runs.
abbrev hollow : Db
hollow = record office { messages = [] }

abbrev first_words : Db
first_words = (send_message ⦃w = quiet⦄ morning (codes "a") hollow).1

abbrev later_on : Db
later_on = (process_due_scheduled_messages ⦃w = quiet⦄ false first_words).1

History-Numbered_example : Numbered later_on.messages
History-Numbered_example =
    History-Numbered ⦃w = quiet⦄ later_on (λ k l h. h) (λ k l c n h. h)
      (after_write first_words later_on
        (after_write hollow first_words (from_none hollow refl)
          (sending morning (codes "a") hollow))
        (ticking false first_words))

morning_not_blank : is_empty (trim (codes " good morning ")) ≡ false
unfolding trim drop_space is_space
morning_not_blank = refl

alice-MayUse : MayUse ⦃w = quiet⦄ general (codes "a") office
unfolding text_eq
alice-MayUse = (refl, refl, inl refl)

send_message_posts_example :
    (send_message ⦃w = quiet⦄ morning (codes "a") office).1.messages
    ≡ greeting
      ∷ candidate ⦃w = quiet⦄ (record note { content = trim (codes " good morning ") }) office
      ∷ []
send_message_posts_example =
    send_message_posts ⦃w = quiet⦄ morning (codes "a") office general general_found alice-MayUse
      refl morning_not_blank refl
