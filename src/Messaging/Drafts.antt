-- ===== src/Messaging/Drafts.antt =====
-- `upsertDraft`, `listDrafts` and `deleteDraft` of messaging.service.ts.
pub mod Laws
use synapse_hub.Action.{
  World, Action, ◌>>=◌, ◌>>◌, find_unique, pure, delete_many, upsert, ok, find_many,
}
use synapse_hub.Action.Tables.{channels, drafts, is_draft, draft_key}
use synapse_hub.Base.{Option, Bool, none, [], some, ◌&&◌, ltb, ℕ, ◌∷◌, List, count}
use synapse_hub.Messaging.Access.{ensure_channel_access, ensure_workspace_member}
use synapse_hub.Messaging.Bookmarks.{matches_if_given, channel_label, access_if_given}
use synapse_hub.Messaging.Messages.{thread_if_given}
use synapse_hub.Prisma.{Query}
use synapse_hub.Schema.{MessageDraft}
use synapse_hub.Text.{Text, text_eq, trim}

-- What `upsertDraft` returns: the draft as stored, or that there is none.
pub data DraftReply : Type 0 where
  no_draft : Text → Option Text → DraftReply
  stored_draft : MessageDraft → Option (Text × Text) → DraftReply

-- What `deleteDraft` returns.
pub record DraftRemoval : Type 0 where
  pub deleted : Bool
  pub channel_id : Text
  pub thread_id : Option Text

-- `threadId ?? ''`
abbrev pub thread_key_of : Option Text → Text
thread_key_of none = []
thread_key_of (some t) = t

abbrev pub drafts_of : Text → Text → Option Text → Query MessageDraft
drafts_of user_id workspace_id channel_id = record {
  matches = λ d.
      text_eq d.user_id user_id
      && text_eq d.workspace_id workspace_id
      && matches_if_given channel_id d.channel_id;
  precedes = λ a b. ltb b.updated_at a.updated_at;
  cursor = none;
  limit = none;
}

abbrev pub draft_row : Text → Text → Text → Option Text → Text → ℕ → MessageDraft
draft_row user_id workspace_id channel_id thread_id content now = record {
  user_id = user_id;
  workspace_id = workspace_id;
  channel_id = channel_id;
  thread_id = thread_id;
  thread_key = thread_key_of thread_id;
  content = content;
  updated_at = now;
}

module _ ⦃w : World⦄ where
  -- `include: { channel: { id, name } }`
  abbrev pub label_of : Text → Action (Option (Text × Text))
  label_of channel_id = do
    channel ← find_unique channels (λ c. text_eq c.id channel_id)
    pure (channel_label channel)

  -- The last step of `upsertDraft`, on the trimmed content.
  unfoldable pub store_draft : Text → Text → Text → Option Text → Text → Action DraftReply
  store_draft user_id workspace_id channel_id thread_id [] = do
    delete_many drafts (is_draft user_id channel_id (thread_key_of thread_id))
    pure (no_draft channel_id thread_id)
  store_draft user_id workspace_id channel_id thread_id (c ∷ s) = do
    draft ←
        upsert drafts (is_draft user_id channel_id (thread_key_of thread_id)) (draft_key ∷ [])
          (pure (draft_row user_id workspace_id channel_id thread_id (c ∷ s) w.now))
          (λ d. record d { content = c ∷ s; thread_id = thread_id; updated_at = w.now })
    label ← label_of channel_id
    pure (stored_draft draft label)

  unfoldable pub upsert_draft : Text → Text → Text → Option Text → Action DraftReply
  upsert_draft user_id channel_id content thread_id = do
    channel ← ensure_channel_access channel_id user_id
    thread_if_given thread_id channel_id
    store_draft user_id channel.workspace_id channel_id thread_id (trim content)

  unfoldable pub label_drafts :
      List MessageDraft → Action (List (MessageDraft × Option (Text × Text)))
  label_drafts [] db = (ok [], db)
  label_drafts (d ∷ rows) db =
      (do label ← label_of d.channel_id; rest ← label_drafts rows; pure ((d, label) ∷ rest)) db

  unfoldable pub list_drafts :
      Text → Text → Option Text → Action (List (MessageDraft × Option (Text × Text)))
  list_drafts user_id workspace_id channel_id = do
    ensure_workspace_member workspace_id user_id
    access_if_given channel_id user_id
    rows ← find_many drafts (drafts_of user_id workspace_id channel_id)
    label_drafts rows

  unfoldable pub delete_draft : Text → Text → Option Text → Action DraftRemoval
  delete_draft user_id channel_id thread_id = do
    ensure_channel_access channel_id user_id
    count ← delete_many drafts (is_draft user_id channel_id (thread_key_of thread_id))
    pure (record { deleted = ltb 0 count; channel_id = channel_id; thread_id = thread_id })
