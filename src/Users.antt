-- ===== src/Users.antt =====
-- services/user-service/src/users/users.service.ts: the profile of a user, and finding users. How
-- the database looks for a text without regard to case, and its order of texts, are arguments.
pub mod Profiles
use mathlib.Core.Option
use synapse_hub.Action.{
  World, Action, ◌>>=◌, ◌>>◌, find_unique, or_throw, not_found, update_row, new_id, create_row,
  forbidden, pure, find_many,
}
use synapse_hub.Action.Tables.{is_member, users, email_key, workspace_members}
use synapse_hub.Base.{Option, none, some, ℕ, Bool, true, ◌||◌, List, any, ◌&&◌, ◌∷◌, []}
use synapse_hub.Messaging.Sequence.{includes}
use synapse_hub.Pagination.{cursor_row, Number, Page, bounded_limit, page_cursor}
use synapse_hub.Prisma.{Query}
use synapse_hub.Schema.{User, WorkspaceMember, Db}
use synapse_hub.Text.{Text, or_else, given, text_eq}

pub record UpdateUser : Type 0 where
  pub display_name : Option Text
  pub title : Option Text
  pub timezone : Option Text

-- A column that is left as it is where the new value is `undefined`.
abbrev pub or_keep : Option Text → Option Text → Option Text
or_keep none old = old
or_keep (some x) old = some x

abbrev pub with_profile : UpdateUser → ℕ → User → User
with_profile dto now u = record u {
  display_name = or_else dto.display_name u.display_name;
  title = or_keep dto.title u.title;
  timezone = or_keep dto.timezone u.timezone;
  updated_at = now;
}

-- `{ contains: q, mode: 'insensitive' }` of the name or the email, where `q` is given
abbrev pub is_asked_for : (Text → Text → Bool) → Option Text → User → Bool
is_asked_for includes q u = elim (given q) [
  | none ↦ true
  | some x ↦ includes u.display_name x || includes u.email x
]

abbrev pub is_of_workspace : Option Text → List WorkspaceMember → User → Bool
is_of_workspace workspace_id members u = elim (given workspace_id) [
  | none ↦ true
  | some x ↦ any (is_member x u.id) members
]

-- The query of `search`; the arguments are the search without regard to case and the order of texts.
abbrev pub users_query :
    (Text → Text → Bool)
    → (Text → Text → Bool)
    → Option Text
    → Option Text
    → ℕ
    → Option Text
    → Db
    → Query User
users_query includes before q cursor limit workspace_id db = record {
  matches = λ u. is_asked_for includes q u && is_of_workspace workspace_id db.workspace_members u;
  precedes = λ a b. before a.id b.id;
  cursor = cursor_row (λ u. u.id) cursor;
  limit = some limit;
}

module _ ⦃w : World⦄ where
  unfoldable pub get_user_by_id : Text → Action User
  get_user_by_id id = do
    user ← find_unique users (λ u. text_eq u.id id)
    or_throw user (not_found "User not found")

  unfoldable pub get_or_create_user : Text → Action User
  get_or_create_user user_id = do
    user ← find_unique users (λ u. text_eq u.id user_id)
    or_throw user (not_found "User not found")
    update_row users (λ u. text_eq u.id user_id)
        (λ u. record u { last_seen_at = some w.now; updated_at = w.now })

  unfoldable pub create_internal : Text → Text → Action User
  create_internal email display_name = do
    id ← new_id
    create_row users (email_key ∷ []) (record {
      id = id;
      email = email;
      password_hash = none;
      email_verified_at = none;
      display_name = display_name;
      avatar_url = none;
      title = none;
      timezone = none;
      is_active = true;
      last_seen_at = none;
      updated_at = w.now;
    })

  unfoldable pub update_user_by_id : Text → UpdateUser → Action User
  update_user_by_id id dto = do
    get_user_by_id id
    update_row users (λ u. text_eq u.id id) (with_profile dto w.now)

  -- `ensureWorkspaceMember` of this service.
  unfoldable pub ensure_searcher : Text → Text → Action (Unit {0})
  ensure_searcher workspace_id user_id = do
    membership ← find_unique workspace_members (is_member workspace_id user_id)
    or_throw membership (forbidden "User is not a member of this workspace")
    pure tt

  -- `if (workspaceId && requesterId) { ... }`
  abbrev pub ensure_if_asked : Option Text → Option Text → Action (Unit {0})
  ensure_if_asked none requester_id = pure tt
  ensure_if_asked (some x) none = pure tt
  ensure_if_asked (some x) (some u) = ensure_searcher x u

  unfoldable pub matching_users :
      (Text → Text → Bool)
      → (Text → Text → Bool)
      → Option Text
      → Option Text
      → ℕ
      → Option Text
      → Action (List User)
  matching_users includes before q cursor limit workspace_id db =
      find_many users (users_query includes before q cursor limit workspace_id db) db

  unfoldable pub find_users :
      (Text → Text → Bool)
      → (Text → Text → Bool)
      → Option Text
      → Option Text
      → Number
      → Option Text
      → Option Text
      → Action (Page User)
  find_users includes before q cursor limit workspace_id requester_id = do
    let bounded = bounded_limit limit 20 100
    ensure_if_asked (given workspace_id) (given requester_id)
    rows ← matching_users includes before q cursor bounded workspace_id
    pure (record { rows = rows; cursor = page_cursor (λ u. u.id) rows bounded; limit = bounded })
