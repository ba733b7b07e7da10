-- ===== src/Controllers.antt =====
-- The HTTP controllers of the services, *.controller.ts: a request is a route with its parameters,
-- its body and its query; the header that names the user comes beside it. What a route answers
-- depends on the route.
pub mod Rest
pub mod People
pub mod Headers
use synapse_hub.Action.{Action, or_throw, unauthorized}
use synapse_hub.Base.{Option, ℕ, none, some}
use synapse_hub.Pagination.{Number, natural}
use synapse_hub.Text.{Text, given}

-- `requireUserId`
unfoldable pub require_user_id : Option Text → Action Text
require_user_id user_id = or_throw (given user_id) (unauthorized "Missing x-user-id header")

-- `Number(query.limit ?? ...)`
abbrev pub limit_or : Option Number → ℕ → Number
limit_or none n = natural n
limit_or (some x) n = x
