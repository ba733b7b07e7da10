-- ===== src/Messaging/Frame/Reads.antt =====
-- The checks that only read.

use synapse_hub.Action.{World, ◌>>=◌, pure, or_throw, not_found}
use synapse_hub.Action.Frame.{Keeps}
use synapse_hub.Base.{ap, Option, none, refl, some, [], ◌∷◌, ◌≡◌, arith}
use synapse_hub.Messaging.Access.{
  ensure_channel_access, ensure_thread_in_channel, thread_in, get_channel_type,
}
use synapse_hub.Messaging.Access.Laws.{ensure_channel_access_reads}
use synapse_hub.Messaging.Messages.{thread_if_given}
use synapse_hub.Schema.{Db, Thread, Channel, ChannelType}
use synapse_hub.Text.{Text, text_eq}

module _ ⦃w : World⦄ {X : Type 0} (view : Db → X) where
  pub access-Keeps :
      (channel_id user_id : Text) → Keeps view (ensure_channel_access channel_id user_id)
  access-Keeps channel_id user_id db = ap view (ensure_channel_access_reads channel_id user_id db)

  pub thread_if_given-Keeps :
      (thread_id : Option Text) (channel_id : Text)
      → Keeps view (thread_if_given thread_id channel_id)
  unfolding thread_if_given ensure_thread_in_channel
  thread_if_given-Keeps none channel_id db = refl
  thread_if_given-Keeps (some []) channel_id db = refl
  thread_if_given-Keeps (some (c ∷ s)) channel_id db =
      ap view (same (w.prisma.find_unique (λ t. text_eq t.id (c ∷ s)) db.threads))
    where
      same :
          (row : Option Thread)
          → (◌>>=◌ {B = Option Thread}
              (thread_in channel_id row)
              (λ thread. pure (some thread))
              db).1
            ≡ db
      same none = refl
      same (some t) = ground arith

  pub get_channel_type-Keeps : (channel_id : Text) → Keeps view (get_channel_type channel_id)
  unfolding get_channel_type
  get_channel_type-Keeps channel_id db =
      ap view (same (w.prisma.find_unique (λ c. text_eq c.id channel_id) db.channels))
    where
      same :
          (row : Option Channel)
          → (◌>>=◌ {B = ChannelType}
              (or_throw row (not_found "Channel not found"))
              (λ c. pure c.type)
              db).1
            ≡ db
      same none = refl
      same (some c) = refl
