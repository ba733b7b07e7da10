-- ===== src/Search.antt =====
-- services/search-service/src/search/search.service.ts: finding messages, channels, users and files
-- of a workspace. How the database looks for a text without regard to case, and its order of texts,
-- are arguments. A time stays a number, which `toISOString` prints and `getTime` reads back.
pub mod Finding
use mathlib.Core.Option
use synapse_hub.Action.{
  World, Action, ◌>>=◌, ◌>>◌, find_unique, or_throw, forbidden, pure, ok, find_many, count_rows,
}
use synapse_hub.Action.Tables.{
  is_in_channel, is_member, workspace_members, channels, users, messages, files,
}
use synapse_hub.Base.{
  Option, ℕ, List, Bool, any, ◌&&◌, none, true, some, ◌||◌, false, not, is_some, ◌++◌, [], ◌∷◌,
  if◌then◌else◌, leb, max, ◌+◌, ◌/◌, ltb, map, take,
}
use synapse_hub.Messaging.Access.{is_empty}
use synapse_hub.Messaging.Sequence.{includes}
use synapse_hub.Pagination.{page_cursor, cursor_row, Number, bounded_limit}
use synapse_hub.Prisma.{Query}
use synapse_hub.Schema.{ChannelType, Channel, Db, is_public, Message, User, File}
use synapse_hub.Text.{Text, text_eq, codes, given, trim}

pub data SearchType : Type 0 where
  message_hit channel_hit user_hit file_hit : SearchType

-- The metadata of a result, by its type.
pub data Metadata : Type 0 where
  of_message : Text → Option Text → Text → Option Text → Metadata
  of_channel : Text → ChannelType → Metadata
  of_user : Text → Text → Option Text → Metadata
  of_file : Text → ℕ → Option Text → Text → Metadata

pub record SearchResult : Type 0 where
  pub id : Text
  pub type : SearchType
  pub content : Text
  pub metadata : Metadata
  pub created_at : ℕ
  pub cursor : Text

pub record SearchPage : Type 0 where
  pub results : List SearchResult
  pub cursor : Option Text
  pub limit : ℕ
  pub total : ℕ

pub record IndexDocument : Type 0 where
  pub type : SearchType
  pub id : Text
  pub workspace_id : Text

-- What `index` returns.
pub record Indexing : Type 0 where
  pub indexed : Bool
  pub id : Text
  pub type : SearchType

-- Whether the channel of an id passes a test.
abbrev pub channel_is : (Channel → Bool) → Text → Db → Bool
channel_is p channel_id db = any (λ c. text_eq c.id channel_id && p c) db.channels

-- `where.OR` of `searchMessages`, if the requester is given
abbrev pub is_shown_to : Option Text → Text → Db → Bool
is_shown_to none channel_id db = true
is_shown_to (some u) channel_id db =
    channel_is (λ c. is_public c.type) channel_id db
    || any (is_in_channel channel_id u) db.channel_members

abbrev pub topic_contains : (Text → Text → Bool) → Option Text → Text → Bool
topic_contains includes none q = false
topic_contains includes (some t) q = includes t q

abbrev pub channel_matches : (Text → Text → Bool) → Text → Option Text → Text → Db → Channel → Bool
channel_matches includes workspace_id requester q db c =
    text_eq c.workspace_id workspace_id
    && not c.is_archived
    && (includes c.name q || topic_contains includes c.topic q)
    && elim requester [
      | none ↦ true
      | some u ↦ is_public c.type || any (is_in_channel c.id u) db.channel_members
    ]

abbrev pub message_matches : (Text → Text → Bool) → Text → Option Text → Text → Db → Message → Bool
message_matches includes workspace_id requester q db m =
    text_eq m.workspace_id workspace_id
    && not (is_some m.deleted_at)
    && includes m.content q
    && is_shown_to requester m.channel_id db

abbrev pub user_matches : (Text → Text → Bool) → Text → Text → Db → User → Bool
user_matches includes workspace_id q db u =
    any (is_member workspace_id u.id) db.workspace_members
    && (includes u.display_name q || includes u.email q)

abbrev pub file_matches : (Text → Text → Bool) → Text → Text → File → Bool
file_matches includes workspace_id q f =
    text_eq f.workspace_id workspace_id
    && not (is_some f.deleted_at)
    && (includes f.filename q || includes f.mime_type q)

-- `` `#${row.name}${row.topic ? ` - ${row.topic}` : ''}` ``
unfoldable pub channel_line : Channel → Text
channel_line c =
    codes "#" ++ c.name ++ elim (given c.topic) [ none ↦ [] | some t ↦ codes " - " ++ t ]

abbrev pub channel_result : Channel → SearchResult
channel_result c = record {
  id = c.id;
  type = channel_hit;
  content = channel_line c;
  metadata = of_channel c.workspace_id c.type;
  created_at = c.created_at;
  cursor = c.id;
}

abbrev pub user_result : User → SearchResult
user_result u = record {
  id = u.id;
  type = user_hit;
  content = u.display_name ++ codes " (" ++ u.email ++ codes ")";
  metadata = of_user u.email u.display_name u.avatar_url;
  created_at = u.updated_at;
  cursor = u.id;
}

abbrev pub file_result : File → SearchResult
file_result f = record {
  id = f.id;
  type = file_hit;
  content = f.filename;
  metadata = of_file f.mime_type f.size f.channel_id f.url;
  created_at = f.created_at;
  cursor = f.id;
}

abbrev pub message_result : Message → Option Channel → Option User → SearchResult
message_result m c u = record {
  id = m.id;
  type = message_hit;
  content = m.content;
  metadata =
      of_message m.channel_id (Option.map (λ (x : Channel). x.name) c) m.author_id
        (Option.map (λ (x : User). x.display_name) u);
  created_at = m.created_at;
  cursor = m.id;
}

abbrev pub page_of : List SearchResult → ℕ → ℕ → SearchPage
page_of rows limit total = record {
  results = rows;
  cursor = page_cursor (λ (r : SearchResult). r.cursor) rows limit;
  limit = limit;
  total = total;
}

-- `[...].sort((left, right) => right.createdAt - left.createdAt)`, which keeps the order of equals
unfoldable pub put_newest : SearchResult → List SearchResult → List SearchResult
put_newest x [] = x ∷ []
put_newest x (y ∷ l) =
    let rest = put_newest x l in if leb y.created_at x.created_at then x ∷ (y ∷ l) else y ∷ rest

unfoldable pub sort_newest : List SearchResult → List SearchResult
sort_newest [] = []
sort_newest (x ∷ l) = put_newest x (sort_newest l)

-- `Math.max(1, Math.ceil(boundedLimit / 4))`
unfoldable pub chunk_of : ℕ → ℕ
chunk_of limit = max 1 ((limit + 3) / 4)

abbrev pub search_query :
    {R : Type 0} → (R → Bool) → (R → R → Bool) → (R → Text) → Option Text → ℕ → Query R
search_query p precedes id cursor limit = record {
  matches = p;
  precedes = precedes;
  cursor = cursor_row id cursor;
  limit = some limit;
}

module _ ⦃w : World⦄ (includes before : Text → Text → Bool) where
  -- `ensureWorkspaceMember` of this service.
  unfoldable pub ensure_requester : Text → Text → Action (Unit {0})
  ensure_requester workspace_id user_id = do
    membership ← find_unique workspace_members (is_member workspace_id user_id)
    or_throw membership (forbidden "User is not a member of this workspace")
    pure tt

  unfoldable pub index_document : IndexDocument → Text → Action Indexing
  index_document dto requester_id = do
    ensure_requester dto.workspace_id requester_id
    pure (record { indexed = false; id = dto.id; type = dto.type })

  unfoldable pub view_found : List Message → Action (List SearchResult)
  view_found [] db = (ok [], db)
  view_found (m ∷ rows) db =
      (do
        channel ← find_unique channels (λ c. text_eq c.id m.channel_id)
        author ← find_unique users (λ u. text_eq u.id m.author_id)
        rest ← view_found rows
        pure (message_result m channel author ∷ rest))
        db

  unfoldable pub search_messages : Text → Option Text → Text → Option Text → ℕ → Action SearchPage
  search_messages workspace_id requester q cursor limit db =
      (do
        let p = message_matches includes workspace_id requester q db
        rows ←
            find_many messages
              (search_query p (λ a b. ltb b.created_at a.created_at) (λ m. m.id) cursor limit)
        total ← count_rows messages p
        shown ← view_found rows
        pure (page_of shown limit total))
        db

  unfoldable pub search_channels : Text → Option Text → Text → Option Text → ℕ → Action SearchPage
  search_channels workspace_id requester q cursor limit db =
      (do
        let p = channel_matches includes workspace_id requester q db
        rows ←
            find_many channels
              (search_query p (λ a b. ltb b.created_at a.created_at) (λ c. c.id) cursor limit)
        total ← count_rows channels p
        pure (page_of (map channel_result rows) limit total))
        db

  unfoldable pub search_users : Text → Text → Option Text → ℕ → Action SearchPage
  search_users workspace_id q cursor limit db =
      (do
        let p = user_matches includes workspace_id q db
        rows ← find_many users (search_query p (λ a b. before a.id b.id) (λ u. u.id) cursor limit)
        total ← count_rows users p
        pure (page_of (map user_result rows) limit total))
        db

  unfoldable pub search_files : Text → Text → Option Text → ℕ → Action SearchPage
  search_files workspace_id q cursor limit = do
    let p = file_matches includes workspace_id q
    rows ←
        find_many files
          (search_query p (λ a b. ltb b.created_at a.created_at) (λ f. f.id) cursor limit)
    total ← count_rows files p
    pure (page_of (map file_result rows) limit total)

  -- The results of every type, a quarter of the limit of each.
  unfoldable pub search_all : Text → Option Text → Text → ℕ → Action SearchPage
  search_all workspace_id requester q limit = do
    let chunk = chunk_of limit
    m ← search_messages workspace_id requester q none chunk
    c ← search_channels workspace_id requester q none chunk
    u ← search_users workspace_id q none chunk
    f ← search_files workspace_id q none chunk
    let merged = take limit (sort_newest (m.results ++ c.results ++ u.results ++ f.results))
    pure (page_of merged limit (m.total + c.total + u.total + f.total))

  abbrev pub ensure_requester_given : Text → Option Text → Action (Unit {0})
  ensure_requester_given workspace_id none = pure tt
  ensure_requester_given workspace_id (some u) = ensure_requester workspace_id u

  abbrev pub search_by :
      Option SearchType → Text → Option Text → Text → Option Text → ℕ → Action SearchPage
  search_by (some message_hit) workspace_id requester q cursor limit =
      search_messages workspace_id requester q cursor limit
  search_by (some channel_hit) workspace_id requester q cursor limit =
      search_channels workspace_id requester q cursor limit
  search_by (some user_hit) workspace_id requester q cursor limit =
      search_users workspace_id q cursor limit
  search_by (some file_hit) workspace_id requester q cursor limit =
      search_files workspace_id q cursor limit
  search_by none workspace_id requester q cursor limit = search_all workspace_id requester q limit

  unfoldable pub search_workspace :
      Text → Text → Option SearchType → Option Text → Number → Option Text → Action SearchPage
  search_workspace workspace_id query type cursor limit requester = do
    let bounded = bounded_limit limit 20 100
    let q = trim query
    ensure_requester_given workspace_id (given requester)
    if is_empty q
        then pure (page_of [] bounded 0)
        else search_by type workspace_id (given requester) q cursor bounded
