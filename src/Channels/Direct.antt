-- ===== src/Channels/Direct.antt =====
-- The name of a direct channel.

-- The name of a direct channel does not depend on who opens it, where the order of texts puts one
-- of the two users after the other.
use synapse_hub.Base.{Bool, ◌≡◌, not, Bool-cases, inl, inr}
use synapse_hub.Channels.{direct_channel_name}
use synapse_hub.Text.{Text}

-- The name of a direct channel does not depend on who opens it, where the order of texts puts one
-- of the two users after the other.
pub direct_channel_name_lem :
    (comes_after : Text → Text → Bool) (a b : Text)
    → comes_after b a ≡ not (comes_after a b)
    → direct_channel_name comes_after a b ≡ direct_channel_name comes_after b a
unfolding direct_channel_name
direct_channel_name_lem comes_after a b strict = elim (Bool-cases (comes_after a b)) [
  | inl e ↦ rw (e, strict, e)
  | inr e ↦ rw (e, strict, e)
]
