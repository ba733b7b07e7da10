-- ===== src/Tests/Channels.antt =====
-- Channels on the sample.

use synapse_hub.Action.{ok}
use synapse_hub.Action.Tables.{is_member, is_in_channel}
use synapse_hub.Base.{◌≡◌, some, refl, any, true, false}
use synapse_hub.Channels.{leave_channel, join_channel, ensure_channel}
use synapse_hub.Channels.Leaving.{join_leave}
use synapse_hub.Messaging.Access.Laws.{channel_row}
use synapse_hub.Tests.Sample.{quiet, office, general}
use synapse_hub.Text.{codes, text_eq}

general_there : channel_row ⦃w = quiet⦄ (codes "g") office ≡ some general
unfolding text_eq
general_there = refl

bob_in_workspace : any (is_member (codes "w") (codes "b")) office.workspace_members ≡ true
unfolding text_eq
bob_in_workspace = refl

bob_not_in_general : any (is_in_channel (codes "g") (codes "b")) office.channel_members ≡ false
unfolding text_eq
bob_not_in_general = refl

join_leave_example :
    (leave_channel ⦃w = quiet⦄
      (codes "g")
      (codes "b")
      (join_channel ⦃w = quiet⦄ (codes "g") (codes "b") office).1).1
    ≡ office
join_leave_example =
    join_leave ⦃w = quiet⦄ (codes "g") (codes "b") office general general_there refl
      bob_in_workspace bob_not_in_general

alice_leaves :
    (leave_channel ⦃w = quiet⦄ (codes "s") (codes "a") office).0
    ≡ ok (record { channel_id = codes "s"; user_id = codes "a"; joined = false; members = 0 })
unfolding leave_channel ensure_channel text_eq
alice_leaves = refl
