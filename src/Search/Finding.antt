-- ===== src/Search/Finding.antt =====
-- What a search shows, and in which order.
use mathlib.Core.Path.{subst}
use synapse_hub.Action.{World, ok, Action, Failure, err}
use synapse_hub.Action.Tables.{is_in_channel, is_member}
use synapse_hub.Auth.Cases.{refused}
use synapse_hub.Base.{
  List, [], ◌∷◌, All, ◌≤◌, ℕ, arith, Bool-cases, leb, inl, inr, take, zero, suc, length, Bool,
  count, ◌≡◌, refl, Option, ltb, none, ◌++◌, ◌+◌, true, map, ◌≢◌, any, some, false, sym, ◌∙◌,
}
use synapse_hub.Files.{get_file}
use synapse_hub.Files.Reading.{file_found, channel_with_id, get_file_cases, may_read}
use synapse_hub.Messaging.Access.{is_empty}
use synapse_hub.Pagination.{Number, bounded_limit, not_finite, negative, natural, cursor_row}
use synapse_hub.Prisma.{Query}
use synapse_hub.Prisma.Laws.{any-of_none}
use synapse_hub.Prisma.Memory.{after}
use synapse_hub.Schema.{Message, Db, File, Channel, is_public, WorkspaceMember}
use synapse_hub.Search.{
  SearchResult, put_newest, sort_newest, message_result, view_found, SearchPage, search_messages,
  message_matches, search_query, page_of, search_channels, search_users, search_files, search_all,
  chunk_of, search_workspace, file_matches, of_file, file_result, file_hit, ensure_requester,
}
use synapse_hub.Text.{Text, text_eq, given, trim, truthy, given-truthy}

-- Each result is at least as new as those behind it.
abbrev pub NewestFirst : List SearchResult → Type 0
NewestFirst [] = Unit
NewestFirst (x ∷ l) = All (λ y. y.created_at ≤ x.created_at) l × NewestFirst l

All-weaken :
    (a b : ℕ) (l : List SearchResult)
    → a ≤ b
    → All (λ y. y.created_at ≤ a) l
    → All (λ y. y.created_at ≤ b) l
All-weaken a b [] h k = tt
All-weaken a b (y ∷ l) h k = let now = k.0 in (omega arith, All-weaken a b l h k.1)

All-put :
    (b : ℕ) (x : SearchResult) (l : List SearchResult)
    → x.created_at ≤ b
    → All (λ y. y.created_at ≤ b) l
    → All (λ y. y.created_at ≤ b) (put_newest x l)
unfolding put_newest
All-put b x [] h k = (h, tt)
All-put b x (y ∷ l) h k = elim (Bool-cases (leb y.created_at x.created_at)) [
  | inl before ↦ rw before (h, k)
  | inr after ↦ rw after (k.0, All-put b x l h k.1)
]

put-NewestFirst :
    (x : SearchResult) (l : List SearchResult) → NewestFirst l → NewestFirst (put_newest x l)
unfolding put_newest
put-NewestFirst x [] h = (tt, tt)
put-NewestFirst x (y ∷ l) h = elim (Bool-cases (leb y.created_at x.created_at)) [
  | inl before ↦
      let less : y.created_at ≤ x.created_at = ground arith in
      rw before ((less, All-weaken y.created_at x.created_at l less h.0), h)
  | inr after ↦
      let less : x.created_at ≤ y.created_at = ground arith in
      rw after (All-put y.created_at x l less h.0, put-NewestFirst x l h.1)
]

sort-NewestFirst : (l : List SearchResult) → NewestFirst (sort_newest l)
unfolding sort_newest
sort-NewestFirst [] = tt
sort-NewestFirst (x ∷ l) = put-NewestFirst x (sort_newest l) (sort-NewestFirst l)

All-take : (P : SearchResult → Type 0) (n : ℕ) (l : List SearchResult) → All P l → All P (take n l)
All-take P zero l h = tt
All-take P (suc n) [] h = tt
All-take P (suc n) (x ∷ l) h = (h.0, All-take P n l h.1)

take-NewestFirst : (n : ℕ) (l : List SearchResult) → NewestFirst l → NewestFirst (take n l)
take-NewestFirst zero l h = tt
take-NewestFirst (suc n) [] h = tt
take-NewestFirst (suc n) (x ∷ l) h =
    (All-take (λ y. y.created_at ≤ x.created_at) n l h.0, take-NewestFirst n l h.1)

length-take_le : (n : ℕ) (l : List SearchResult) → length (take n l) ≤ n
length-take_le zero l = omega arith
length-take_le (suc n) [] = omega arith
length-take_le (suc n) (x ∷ l) = omega (arith, length-take_le n l)

count-put :
    (p : SearchResult → Bool) (x : SearchResult) (l : List SearchResult)
    → count p (put_newest x l) ≡ count p (x ∷ l)
unfolding put_newest
count-put p x [] = refl
count-put p x (y ∷ l) = ground (arith, count-put p x l)

-- Sorting the results puts the newest first and keeps every one of them as often as it was there.
pub sort_newest_lem :
    (l : List SearchResult) (p : SearchResult → Bool)
    → NewestFirst (sort_newest l) × (count p (sort_newest l) ≡ count p l)
unfolding sort_newest
sort_newest_lem l p = (sort-NewestFirst l, same l)
  where
    same : (m : List SearchResult) → count p (sort_newest m) ≡ count p m
    same [] = refl
    same (x ∷ m) = let rest = same m in let put = count-put p x (sort_newest m) in ground arith

module _ ⦃w : World⦄ (includes before : Text → Text → Bool) where
  abbrev shown_results : List Message → Db → List SearchResult
  shown_results [] db = []
  shown_results (m ∷ rows) db =
      message_result m (w.prisma.find_unique (λ c. text_eq c.id m.channel_id) db.channels)
        (w.prisma.find_unique (λ u. text_eq u.id m.author_id) db.users)
      ∷ shown_results rows db

  view_found_lem :
      (rows : List Message) (db : Db)
      → view_found includes before rows db ≡ (ok (shown_results rows db), db)
  unfolding view_found
  view_found_lem [] db = refl
  view_found_lem (m ∷ rows) db = let rest = view_found_lem rows db in ground arith

  -- An answer that leaves the database alone.
  abbrev Answers : Action SearchPage → Db → Type 0
  Answers m db = (r : SearchPage) × (m db ≡ (ok r, db))

  search_messages-Answers :
      (workspace_id : Text) (requester : Option Text) (q : Text) (cursor : Option Text) (limit : ℕ)
      (db : Db)
      → Answers (search_messages includes before workspace_id requester q cursor limit) db
  unfolding search_messages
  search_messages-Answers workspace_id requester q cursor limit db =
      let p = message_matches includes workspace_id requester q db in
      let query = search_query p (λ a b. ltb b.created_at a.created_at) (λ m. m.id) cursor limit in
      let rows = w.prisma.find_many query db.messages in
      let shown = view_found_lem rows db in
      (page_of (shown_results rows db) limit (w.prisma.count_rows p db.messages), ground arith)

  search_channels-Answers :
      (workspace_id : Text) (requester : Option Text) (q : Text) (cursor : Option Text) (limit : ℕ)
      (db : Db)
      → Answers (search_channels includes before workspace_id requester q cursor limit) db
  unfolding search_channels
  search_channels-Answers workspace_id requester q cursor limit db = (_, refl)

  search_users-Answers :
      (workspace_id q : Text) (cursor : Option Text) (limit : ℕ) (db : Db)
      → Answers (search_users includes before workspace_id q cursor limit) db
  unfolding search_users
  search_users-Answers workspace_id q cursor limit db = (_, refl)

  search_files-Answers :
      (workspace_id q : Text) (cursor : Option Text) (limit : ℕ) (db : Db)
      → Answers (search_files includes before workspace_id q cursor limit) db
  unfolding search_files
  search_files-Answers workspace_id q cursor limit db = (_, refl)

  -- A search of every type returns, and changes nothing; it shows at most as many results as the
  -- limit, the newest first.
  pub search_all_newest :
      (workspace_id : Text) (requester : Option Text) (q : Text) (limit : ℕ) (db : Db)
      → (r : SearchPage) × (search_all includes before workspace_id requester q limit db
          ≡ (ok r, db))
        × (length r.results ≤ limit)
        × NewestFirst r.results
  unfolding search_all
  search_all_newest workspace_id requester q limit db =
      let chunk = chunk_of limit in
      let (m, em) = search_messages-Answers workspace_id requester q none chunk db in
      let (c, ec) = search_channels-Answers workspace_id requester q none chunk db in
      let (u, eu) = search_users-Answers workspace_id q none chunk db in
      let (f, ef) = search_files-Answers workspace_id q none chunk db in
      let sorted = sort_newest (m.results ++ c.results ++ u.results ++ f.results) in
      (
        page_of (take limit sorted) limit (m.total + c.total + u.total + f.total),
        ground arith,
        length-take_le limit sorted,
        take-NewestFirst limit sorted
            (sort-NewestFirst (m.results ++ c.results ++ u.results ++ f.results)),
      )

  -- The cursor of a search of every type leads nowhere: the page that it asks for is the page that
  -- it came with.
  pub search_pages_repeat :
      (workspace_id query : Text) (limit : Number) (requester : Option Text) (r : SearchPage)
      (db : Db)
      → (search_workspace includes before workspace_id query none none limit requester db).0 ≡ ok r
      → (search_workspace includes before workspace_id query none r.cursor limit requester db).0
        ≡ ok r
  unfolding search_workspace
  search_pages_repeat workspace_id query limit requester r db e = e

  All-of_file :
      (q : Text) (f : File) (l : List File)
      → All (λ x. file_matches includes f.workspace_id q x ≡ true) l
      → All (λ x. file_matches includes f.workspace_id q x ≡ true → x ≡ f) l
      → All
          (λ (r : SearchResult).
            (r.id ≡ f.id) × (r.metadata ≡ of_file f.mime_type f.size f.channel_id f.url))
          (map file_result l)
  All-of_file q f [] h k = tt
  All-of_file q f (x ∷ l) h k =
      let same = k.0 h.0 in (rw same (refl, refl), All-of_file q f l h.1 k.1)

  abbrev files_query : Text → Text → ℕ → Query File
  files_query workspace_id q limit =
      search_query (file_matches includes workspace_id q) (λ a b. ltb b.created_at a.created_at)
        (λ f. f.id) none limit

  mapped-nonempty : (l : List File) → l ≢ [] → map file_result l ≢ []
  mapped-nonempty [] h e = h refl
  mapped-nonempty (x ∷ l) h e = cc e

  bounded_positive : (limit : Number) → 1 ≤ bounded_limit limit 20 100
  unfolding bounded_limit
  bounded_positive not_finite = omega arith
  bounded_positive negative = omega arith
  bounded_positive (natural n) = omega arith

  files_found :
      (q : Text) (limit : ℕ) (f : File) (db : Db)
      → 1 ≤ limit
      → any (file_matches includes f.workspace_id q) db.files ≡ true
      → w.prisma.find_many (files_query f.workspace_id q limit) db.files ≢ []
  unfolding cursor_row
  files_found q limit f db some_room hit empty =
      let no_limit : some limit ≢ some 0 = λ e. let zero_limit : limit ≡ 0 = cc e in omega arith in
      let none_match =
        w.prisma.find_many_empty (files_query f.workspace_id q limit) db.files refl no_limit
          empty in
      let nothing =
        any-of_none w.prisma (file_matches includes f.workspace_id q) db.files none_match in
      cc (hit, nothing)

  file_refused :
      (f : File) (c : Channel) (u channel_id : Text) (db : Db)
      → file_found f.id db ≡ some f
      → given f.channel_id ≡ some channel_id
      → channel_with_id channel_id db ≡ some c
      → is_public c.type ≡ false
      → any (is_in_channel channel_id u) db.channel_members ≡ false
      → (e : Failure) × (get_file f.id u db ≡ (err e, db))
  file_refused f c u channel_id db found there chan closed out = elim (get_file_cases f.id u db) [
    | inl (unreadable, e, refused) ↦ (e, refused)
    | inr (g, found', kept, may, e) ↦
        let twice : some g ≡ some f = sym found' ∙ found in
        let same : g ≡ f = cc twice in
        let may_f : may_read f.workspace_id f.channel_id u db ≡ true =
          subst (λ (x : File). may_read x.workspace_id x.channel_id u db ≡ true) same may in
        ground arith
  ]

  -- A search for files shows a member of the workspace a file of a channel that is not public and
  -- of which they are not a member, its address included, while the file service refuses them that
  -- file. The file is the only one that matches, and the query is not blank.
  pub search_files_reveals :
      (query : Text) (limit : Number) (f : File) (c : Channel) (m : WorkspaceMember)
      (u channel_id : Text) (db : Db)
      → is_empty (trim query) ≡ false
      → truthy u ≡ true
      → w.prisma.find_unique (is_member f.workspace_id u) db.workspace_members ≡ some m
      → any (file_matches includes f.workspace_id (trim query)) db.files ≡ true
      → All (λ x. file_matches includes f.workspace_id (trim query) x ≡ true → x ≡ f) db.files
      → file_found f.id db ≡ some f
      → given f.channel_id ≡ some channel_id
      → channel_with_id channel_id db ≡ some c
      → is_public c.type ≡ false
      → any (is_in_channel channel_id u) db.channel_members ≡ false
      → ((page : SearchPage) × (search_workspace includes before f.workspace_id query
              (some file_hit)
              none
              limit
              (some u)
              db
            ≡ (ok page, db))
          × (page.results ≢ [])
          × All
              (λ (r : SearchResult).
                (r.id ≡ f.id) × (r.metadata ≡ of_file f.mime_type f.size f.channel_id f.url))
              page.results)
        × ((e : Failure) × (get_file f.id u db ≡ (err e, db)))
  unfolding search_workspace ensure_requester search_files
  search_files_reveals query limit f c m u channel_id db asked person inside hit only found there
        chan closed out =
      let bounded = bounded_limit limit 20 100 in
      let q = trim query in
      let rows = w.prisma.find_many (files_query f.workspace_id q bounded) db.files in
      let page =
        page_of (map file_result rows) bounded
          (w.prisma.count_rows (file_matches includes f.workspace_id q) db.files) in
      let known = given-truthy u person in
      (
        (
          page,
          ground arith,
          mapped-nonempty rows (files_found q bounded f db (bounded_positive limit) hit),
          All-of_file q f rows
              (w.prisma.find_many_matches (files_query f.workspace_id q bounded) db.files)
              (w.prisma.find_many_rows (files_query f.workspace_id q bounded) db.files
                (λ x. file_matches includes f.workspace_id q x ≡ true → x ≡ f) only),
        ),
        file_refused f c u channel_id db found there chan closed out,
      )
