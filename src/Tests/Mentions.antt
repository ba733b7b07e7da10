-- ===== src/Tests/Mentions.antt =====
-- Mentions, notifications and pages on the sample.

use synapse_hub.Base.{refl, ◌++◌, ◌∷◌, ◌≡◌, some, ◌↔◌, true, arith, []}
use synapse_hub.Messaging.Mentions.{
  extract_mention_handles, is_handle_char, is_plain, match_handle, scan, greedy, is_word, add,
  build_mention_handle, keep_plain, dash_spaces, local_part,
}
use synapse_hub.Messaging.Mentions.Matching.{AllHandleChars, ends_word, match_handle_iff}
use synapse_hub.Messaging.Notify.{emit_mention_notifications}
use synapse_hub.Messaging.Notify.Laws.{Adds, IsMentionOf, Recipient, emit_mention_recipients}
use synapse_hub.Schema.{public_channel}
use synapse_hub.Tests.Sample.{quiet, office}
use synapse_hub.Text.{codes, is_space, to_lower_case, lower_char, text_eq, trim, drop_space}

emit_mention_recipients_example :
    Adds ⦃w = quiet⦄
      (IsMentionOf ⦃w = quiet⦄ (codes "w") (codes "m") (
        Recipient ⦃w = quiet⦄
          (codes "w")
          (codes "g")
          public_channel
          office
          (extract_mention_handles (codes "@bob hi"))
          (codes "a")))
      office
      (emit_mention_notifications ⦃w = quiet⦄
        (codes "w")
        (codes "g")
        public_channel
        (codes "a")
        (codes "m")
        (codes "@bob hi")
        office).1
emit_mention_recipients_example =
    emit_mention_recipients ⦃w = quiet⦄ (codes "w") (codes "g") public_channel (codes "a")
      (codes "m") (codes "@bob hi") office

bob_dot_chars : AllHandleChars (codes "bob.")
unfolding is_handle_char is_plain
bob_dot_chars = (refl, (refl, (refl, (refl, tt))))

match_handle_iff_example :
    (match_handle (codes "bob." ++ 32 ∷ codes "hi") ≡ some (codes "bob."))
    ↔ (ends_word (codes "bob.") ≡ true)
match_handle_iff_example =
    match_handle_iff (codes "bob.") (codes "hi") bob_dot_chars (omega arith) (omega arith)

handles_of_content :
    extract_mention_handles (codes "hi @Bob, @al.ice. x@no @b @bob")
    ≡ codes "bob" ∷ codes "al.ice" ∷ []
unfolding extract_mention_handles scan match_handle greedy is_handle_char is_plain is_word is_space
    add to_lower_case lower_char text_eq
handles_of_content = refl

handle_of_user : build_mention_handle (codes " Bob  B. ") (codes "a@b") ≡ codes "bob-b."
unfolding build_mention_handle keep_plain dash_spaces is_plain is_space trim drop_space
    to_lower_case lower_char local_part
handle_of_user = refl
