-- ===== src/Messaging/Bookmarks.antt =====
-- `createBookmark`, `listBookmarks` and `deleteBookmark` of messaging.service.ts.
use synapse_hub.Action.{
  World, Action, pure, ◌>>=◌, ◌>>◌, upsert, new_id, ok, find_unique, find_many, or_throw, not_found,
  throw_if, forbidden, delete_many,
}
use synapse_hub.Action.Tables.{bookmarks, is_bookmark, bookmark_key, channels}
use synapse_hub.Base.{Option, Bool, none, true, some, [], ◌∷◌, ℕ, ◌&&◌, ltb, List, not}
use synapse_hub.Messaging.Access.{
  SerializedMessage, ensure_channel_access, ensure_message_access, ensure_workspace_member,
}
use synapse_hub.Messaging.Messages.{included_message}
use synapse_hub.Pagination.{cursor_row, Number, Page, bounded_limit, page_cursor}
use synapse_hub.Prisma.{Query}
use synapse_hub.Schema.{Bookmark, Channel}
use synapse_hub.Text.{Text, text_eq}

pub record BookmarkView : Type 0 where
  pub bookmark : Bookmark
  pub message : Option SerializedMessage

-- A bookmark of a list, with its `channel: { id, name }`.
pub record ListedBookmark : Type 0 where
  pub bookmark : Bookmark
  pub channel : Option (Text × Text)
  pub message : Option SerializedMessage

-- `channelId ? { channelId } : {}`
abbrev pub matches_if_given : Option Text → Text → Bool
matches_if_given none x = true
matches_if_given (some []) x = true
matches_if_given (some (c ∷ s)) x = text_eq x (c ∷ s)

-- The latest first; `id`, which breaks ties in the source, is left to the client.
abbrev pub bookmark_page : Text → Text → Option Text → Option Text → ℕ → Query Bookmark
bookmark_page user_id workspace_id channel_id cursor limit = record {
  matches = λ b.
      text_eq b.user_id user_id
      && text_eq b.workspace_id workspace_id
      && matches_if_given channel_id b.channel_id;
  precedes = λ a b. ltb b.updated_at a.updated_at;
  cursor = cursor_row (λ b. b.id) cursor;
  limit = some limit;
}

abbrev pub channel_label : Option Channel → Option (Text × Text)
channel_label none = none
channel_label (some c) = some (c.id, c.name)

module _ ⦃w : World⦄ where
  -- `if (channelId) { await this.ensureChannelAccess(channelId, userId) }`
  unfoldable pub access_if_given : Option Text → Text → Action (Unit {0})
  access_if_given none user_id = pure tt
  access_if_given (some []) user_id = pure tt
  access_if_given (some (c ∷ s)) user_id = ensure_channel_access (c ∷ s) user_id >>= λ _. pure tt

  unfoldable pub create_bookmark : Text → Text → Action BookmarkView
  create_bookmark message_id user_id = do
    message ← ensure_message_access message_id user_id
    bookmark ←
        upsert bookmarks (is_bookmark user_id message_id) (bookmark_key ∷ [])
          (new_id >>= λ id. pure (record {
            id = id;
            user_id = user_id;
            workspace_id = message.workspace_id;
            channel_id = message.channel_id;
            message_id = message_id;
            updated_at = w.now;
          }))
          (λ b. record b { updated_at = w.now })
    view ← included_message bookmark.message_id
    pure (record { bookmark = bookmark; message = view })

  unfoldable pub view_bookmarks : List Bookmark → Action (List ListedBookmark)
  view_bookmarks [] db = (ok [], db)
  view_bookmarks (b ∷ rows) db =
      (do
        channel ← find_unique channels (λ c. text_eq c.id b.channel_id)
        message ← included_message b.message_id
        rest ← view_bookmarks rows
        pure (record { bookmark = b; channel = channel_label channel; message = message } ∷ rest))
        db

  unfoldable pub list_bookmarks :
      Text → Text → Option Text → Option Text → Number → Action (Page ListedBookmark)
  list_bookmarks workspace_id user_id channel_id cursor limit = do
    ensure_workspace_member workspace_id user_id
    access_if_given channel_id user_id
    let bounded = bounded_limit limit 50 200
    rows ← find_many bookmarks (bookmark_page user_id workspace_id channel_id cursor bounded)
    views ← view_bookmarks rows
    pure (record { rows = views; cursor = page_cursor (λ b. b.id) rows bounded; limit = bounded })

  unfoldable pub delete_bookmark : Text → Text → Action (Text × Bool)
  delete_bookmark bookmark_id user_id = do
    row ← find_unique bookmarks (λ b. text_eq b.id bookmark_id)
    bookmark ← or_throw row (not_found "Bookmark not found")
    throw_if (not (text_eq bookmark.user_id user_id))
        (forbidden "Cannot delete another user bookmark")
    delete_many bookmarks (λ b. text_eq b.id bookmark_id)
    pure (bookmark_id, true)
