-- ===== src/Users/Profiles.antt =====
-- What a change of a profile writes, and whom a search shows.
use synapse_hub.Action.{World, err, not_found, ok, forbidden}
use synapse_hub.Action.Tables.{is_member}
use synapse_hub.Base.{
  any, ◌≡◌, false, ◌⊎◌, true, map_where, Option-cases, inl, arith, inr, Bool, Option, some, All,
  List, ◌&&◌, [], ◌∷◌,
}
use synapse_hub.Messaging.Sequence.{includes}
use synapse_hub.Pagination.{Number, Page, bounded_limit, page_cursor}
use synapse_hub.Prisma.Laws.{find_unique-any, find_unique_matches}
use synapse_hub.Schema.{Db, User}
use synapse_hub.Text.{Text, text_eq, truthy, given-truthy, given}
use synapse_hub.Users.{
  UpdateUser, update_user_by_id, with_profile, get_user_by_id, find_users, ensure_searcher,
  matching_users, users_query, is_asked_for, is_of_workspace,
}

module _ ⦃w : World⦄ where
  -- Changing a profile sets the fields that are given on the user of that id, who is there, and
  -- nothing else changes; it throws, and changes nothing, exactly when there is no such user.
  pub update_user_by_id_cases :
      (id : Text) (dto : UpdateUser) (db : Db)
      → ((any (λ u. text_eq u.id id) db.users ≡ false)
          × (update_user_by_id id dto db ≡ (err (not_found "User not found"), db)))
        ⊎ ((u : User) × (text_eq u.id id ≡ true)
            × (update_user_by_id id dto db ≡ (
              ok (with_profile dto w.now u),
              record db {
                users = map_where (λ x. text_eq x.id id) (with_profile dto w.now) db.users;
              },
            )))
  unfolding update_user_by_id get_user_by_id
  update_user_by_id_cases id dto db =
      let there = find_unique-any w.prisma (λ (x : User). text_eq x.id id) db.users in
      elim (Option-cases (w.prisma.find_unique (λ (x : User). text_eq x.id id) db.users)) [
        | inl gone ↦ inl (ground arith, ground arith)
        | inr (u, found) ↦
            let hit =
              find_unique_matches w.prisma (λ (x : User). text_eq x.id id) db.users u found in
            inr (
              u,
              hit,
              ground (
                arith,
                w.prisma.update_many_lem (λ (x : User). text_eq x.id id) (with_profile dto w.now)
                    db.users,
              ),
            )
      ]

  -- A search for the users of a workspace in the name of a requester is refused, and changes
  -- nothing, where the requester is not a member; where they are, it succeeds without a change and
  -- every user on the page is a member of the workspace. The workspace and the requester are
  -- given.
  pub find_users_members :
      (includes before : Text → Text → Bool) (q cursor : Option Text) (limit : Number)
      (workspace_id requester_id : Text) (db : Db)
      → truthy workspace_id ≡ true
      → truthy requester_id ≡ true
      → ((any (is_member workspace_id requester_id) db.workspace_members ≡ false)
          × (find_users includes before q cursor limit (some workspace_id) (some requester_id) db
              ≡ (err (forbidden "User is not a member of this workspace"), db)))
        ⊎ ((any (is_member workspace_id requester_id) db.workspace_members ≡ true)
            × (page : Page User) × (find_users includes before q cursor limit
                  (some workspace_id)
                  (some requester_id)
                  db
                ≡ (ok page, db))
            × All (λ u. any (is_member workspace_id u.id) db.workspace_members ≡ true) page.rows)
  unfolding find_users ensure_searcher matching_users
  find_users_members includes before q cursor limit workspace_id requester_id db place person =
      let where_given = given-truthy workspace_id place in
      let who_given = given-truthy requester_id person in
      let there =
        find_unique-any w.prisma (is_member workspace_id requester_id) db.workspace_members in
      elim (Option-cases
        (w.prisma.find_unique (is_member workspace_id requester_id) db.workspace_members)) [
          | inl out ↦ inl (ground arith, ground arith)
          | inr (m, found) ↦
              let bounded = bounded_limit limit 20 100 in
              let query = users_query includes before q cursor bounded (some workspace_id) db in
              let rows = w.prisma.find_many query db.users in
              let page : Page User = record {
                rows = rows;
                cursor = page_cursor (λ u. u.id) rows bounded;
                limit = bounded;
              } in
              inr (
                ground arith,
                page,
                ground arith,
                all_members workspace_id rows where_given
                    (w.prisma.find_many_matches query db.users),
              )
        ]
    where
      all_members :
          (x : Text) (l : List User)
          → given (some x) ≡ some x
          → All
              (λ u.
                (is_asked_for includes q u && is_of_workspace (some x) db.workspace_members u)
                ≡ true)
              l
          → All (λ u. any (is_member x u.id) db.workspace_members ≡ true) l
      all_members x [] e h = tt
      all_members x (u ∷ l) e h = let now = h.0 in (ground arith, all_members x l e h.1)
