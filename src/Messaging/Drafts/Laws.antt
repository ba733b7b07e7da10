-- ===== src/Messaging/Drafts/Laws.antt =====
-- A draft that is saved is found again, and a blank one is removed.

use synapse_hub.Action.{World, ok}
use synapse_hub.Action.Tables.{is_draft, draft_key}
use synapse_hub.Base.{
  Bool, List, any, ◌≡◌, false, All, true, [], ◌∷◌, arith, sym, ◌∙◌, Option, some, Option-cases, inl,
  inr, if◌then◌else◌, map_where, ◌++◌, ℕ, none, Bool-cases, any-map_where, refl, any-append,
  map_where_hit, All-append, keep, not, any-keep-not,
}
use synapse_hub.Messaging.Access.{ChannelAccess, ensure_channel_access}
use synapse_hub.Messaging.Access.Laws.{channel_row, MayUse, ensure_channel_access_iff, access_of}
use synapse_hub.Messaging.Drafts.{thread_key_of, draft_row, store_draft, upsert_draft}
use synapse_hub.Messaging.Messages.{thread_if_given}
use synapse_hub.Prisma.Laws.{find_unique-none_iff, find_unique-any}
use synapse_hub.Schema.{MessageDraft, Db, Channel}
use synapse_hub.Text.{Text, trim, text_eq_refl}

All-of_none :
    (P : MessageDraft → Type 0) (p : MessageDraft → Bool) (rows : List MessageDraft)
    → any p rows ≡ false
    → All (λ d. p d ≡ true → P d) rows
All-of_none P p [] h = tt
All-of_none P p (d ∷ rows) h =
    let miss : p d ≡ false = ground arith in
    (
      (λ e. let clash : true ≡ false = sym e ∙ miss in cc clash),
      All-of_none P p rows (ground arith),
    )

module _ ⦃w : World⦄ where
  abbrev pub draft_found : Text → Text → Option Text → Db → Option MessageDraft
  draft_found user_id channel_id thread_id db =
      w.prisma.find_unique (is_draft user_id channel_id (thread_key_of thread_id)) db.drafts

  -- What the database has of a draft that has the content.
  abbrev pub Saved : Text → Text → Option Text → Text → Db → Type 0
  Saved user_id channel_id thread_id content db =
      (d : MessageDraft) × (draft_found user_id channel_id thread_id db ≡ some d)
      × (d.content ≡ content)

  set-Saved :
      (user_id channel_id : Text) (thread_id : Option Text) (content : Text) (db : Db)
      → any (is_draft user_id channel_id (thread_key_of thread_id)) db.drafts ≡ true
      → All
          (λ d.
            is_draft user_id channel_id (thread_key_of thread_id) d ≡ true → d.content ≡ content)
          db.drafts
      → Saved user_id channel_id thread_id content db
  set-Saved user_id channel_id thread_id content db there set =
      let p = is_draft user_id channel_id (thread_key_of thread_id) in
      elim (Option-cases (w.prisma.find_unique p db.drafts)) [
        | inl gone ↦
            let clash : true ≡ false =
              sym there ∙ (find_unique-none_iff w.prisma p db.drafts).0 gone in
            cc clash
        | inr (d, found) ↦
            let (hit, inside) = w.prisma.find_unique_some p db.drafts d found in
            (d, found, inside (λ x. p x ≡ true → x.content ≡ content) set hit)
      ]

  abbrev saved_rows :
      Text → Text → Text → Option Text → Text → List MessageDraft → List MessageDraft
  saved_rows user_id workspace_id channel_id thread_id content rows =
      let p = is_draft user_id channel_id (thread_key_of thread_id) in
      if any p rows
      then map_where p
          (λ d. record d { content = content; thread_id = thread_id; updated_at = w.now }) rows
      else rows ++ draft_row user_id workspace_id channel_id thread_id content w.now ∷ []

  store_draft_lem :
      (user_id workspace_id channel_id : Text) (thread_id : Option Text) (c : ℕ) (s : Text)
      (db : Db)
      → (store_draft user_id workspace_id channel_id thread_id (c ∷ s) db).1 ≡ record db {
        drafts = saved_rows user_id workspace_id channel_id thread_id (c ∷ s) db.drafts;
      }
  unfolding store_draft
  store_draft_lem user_id workspace_id channel_id thread_id c s db =
      let p = is_draft user_id channel_id (thread_key_of thread_id) in
      let f = λ (d : MessageDraft). record d {
        content = c ∷ s;
        thread_id = thread_id;
        updated_at = w.now;
      } in
      let row = draft_row user_id workspace_id channel_id thread_id (c ∷ s) w.now in
      ground (
        arith,
        find_unique-any w.prisma p db.drafts,
        w.prisma.update_many_lem p f db.drafts,
        w.prisma.create_lem (draft_key ∷ []) row db.drafts,
      )

  upsert_draft_step :
      (user_id channel_id content : Text) (db : Db) (a : ChannelAccess)
      → ensure_channel_access channel_id user_id db ≡ (ok a, db)
      → upsert_draft user_id channel_id content none db
        ≡ store_draft user_id a.workspace_id channel_id none (trim content) db
  unfolding upsert_draft thread_if_given
  upsert_draft_step user_id channel_id content db a granted = ground arith

  saved_rows-any :
      (user_id workspace_id channel_id : Text) (thread_id : Option Text) (content : Text)
      (rows : List MessageDraft)
      → any
          (is_draft user_id channel_id (thread_key_of thread_id))
          (saved_rows user_id workspace_id channel_id thread_id content rows)
        ≡ true
  saved_rows-any user_id workspace_id channel_id thread_id content rows =
      let p = is_draft user_id channel_id (thread_key_of thread_id) in
      let f = λ (d : MessageDraft). record d {
        content = content;
        thread_id = thread_id;
        updated_at = w.now;
      } in
      let row = draft_row user_id workspace_id channel_id thread_id content w.now in
      let own : p row ≡ true = ground (
        arith,
        text_eq_refl user_id,
        text_eq_refl channel_id,
        text_eq_refl (thread_key_of thread_id),
      ) in
      elim (Bool-cases (any p rows)) [
        | inl there ↦ rw there (any-map_where p p f rows (λ d. refl) ∙ there)
        | inr gone ↦ rw gone (any-append p rows (row ∷ []) ∙ (ground (arith, own)))
      ]

  saved_rows-All :
      (user_id workspace_id channel_id : Text) (thread_id : Option Text) (content : Text)
      (rows : List MessageDraft)
      → All
          (λ d.
            is_draft user_id channel_id (thread_key_of thread_id) d ≡ true → d.content ≡ content)
          (saved_rows user_id workspace_id channel_id thread_id content rows)
  saved_rows-All user_id workspace_id channel_id thread_id content rows =
      let p = is_draft user_id channel_id (thread_key_of thread_id) in
      let f = λ (d : MessageDraft). record d {
        content = content;
        thread_id = thread_id;
        updated_at = w.now;
      } in
      let row = draft_row user_id workspace_id channel_id thread_id content w.now in
      elim (Bool-cases (any p rows)) [
        | inl there ↦ rw there (map_where_hit (λ d. d.content ≡ content) p f rows (λ d. refl))
        | inr gone ↦ rw gone (
            All-append (λ d. p d ≡ true → d.content ≡ content) rows (row ∷ [])
              (All-of_none (λ d. d.content ≡ content) p rows gone) ((λ e. refl), tt))
      ]

  -- What is found of a draft after its content has been set: nothing if that is empty.
  abbrev pub DraftIs : Text → Text → Option Text → Text → Db → Type 0
  DraftIs user_id channel_id thread_id [] db = draft_found user_id channel_id thread_id db ≡ none
  DraftIs user_id channel_id thread_id (c ∷ s) db = Saved user_id channel_id thread_id (c ∷ s) db

  store_draft-DraftIs :
      (user_id workspace_id channel_id : Text) (thread_id : Option Text) (t : Text) (db : Db)
      → DraftIs user_id channel_id thread_id t
          (store_draft user_id workspace_id channel_id thread_id t db).1
  unfolding store_draft
  store_draft-DraftIs user_id workspace_id channel_id thread_id [] db =
      let p = is_draft user_id channel_id (thread_key_of thread_id) in
      rw (w.prisma.delete_many_lem p db.drafts) (
        (find_unique-none_iff w.prisma p (keep (λ d. not (p d)) db.drafts)).1
          (any-keep-not p db.drafts))
  store_draft-DraftIs user_id workspace_id channel_id thread_id (c ∷ s) db =
      let rows = saved_rows user_id workspace_id channel_id thread_id (c ∷ s) db.drafts in
      rw (store_draft_lem user_id workspace_id channel_id thread_id c s db) (
        set-Saved user_id channel_id thread_id (c ∷ s) (record db { drafts = rows })
          (saved_rows-any user_id workspace_id channel_id thread_id (c ∷ s) db.drafts)
          (saved_rows-All user_id workspace_id channel_id thread_id (c ∷ s) db.drafts))

  -- After a user who may use a channel has saved a draft for it, outside of any thread, that draft
  -- is found with the trimmed content; and if that is empty, no such draft is found.
  pub upsert_draft-DraftIs :
      (user_id channel_id content : Text) (db : Db) (ch : Channel)
      → channel_row channel_id db ≡ some ch
      → MayUse ch user_id db
      → DraftIs user_id channel_id none
          (trim content)
          (upsert_draft user_id channel_id content none db).1
  upsert_draft-DraftIs user_id channel_id content db ch found may =
      let granted = (ensure_channel_access_iff channel_id user_id db ch found).1 may in
      rw (upsert_draft_step user_id channel_id content db (access_of ch) granted)
        (store_draft-DraftIs user_id ch.workspace_id channel_id none (trim content) db)
