-- ===== src/Workspaces/Invites.antt =====
-- How often an invite link is used, and that a revoked one is refused.

use Prim.Native.Char.{code}
use synapse_hub.Action.{
  Action, transaction, Reply, ok, err, World, throw_if, bad_request, create_row, pure, ◌>>◌, ◌>>=◌,
  Failure, not_found,
}
use synapse_hub.Action.Frame.{Keeps, Keeps-bind, Keeps-throw_if, Keeps-create_row, Keeps-pure}
use synapse_hub.Action.Tables.{acceptances, acceptance_key, audit_logs}
use synapse_hub.Base.{
  ℕ, ◌≡◌, some, ◌≤◌, ◌⊎◌, inr, refl, inl, true, arith, sym, ◌∙◌, false, Bool-cases, List, All,
  count, map_where, [], ◌∷◌, not, ◌==◌, ap, Option-cases, map_where_hit,
}
use synapse_hub.Messaging.Access.{is_empty}
use synapse_hub.Schema.{
  WorkspaceInviteLink, Db, WorkspaceInviteAcceptance, AuditLog, AuditAction, WorkspaceMember,
}
use synapse_hub.Text.{text_eq, Text, codes, trim, given, text_eq_iff}
use synapse_hub.Workspaces.{
  is_reservable, count_use, join_workspace, admit, audit_row, reserve, accept_reserved,
  accept_invite_link, ensure_invite_link_can_be_accepted, revoke_invite_link, revoke,
  ensure_workspace_manager, ensure_membership, ensure_workspace, ensure_can_manage_members,
}

abbrev pub Bounded : WorkspaceInviteLink → Type 0
Bounded l = (n : ℕ) → l.max_uses ≡ some n → l.use_count ≤ n

transaction_cases :
    {A : Type 0} (m : Action A) (db : Db)
    → ((transaction m db).1 ≡ db) ⊎ ((transaction m db).1 ≡ (m db).1)
unfolding transaction
transaction_cases {A} m db = go (m db)
  where
    go :
        (r : Reply A × Db)
        → ((transaction (λ d. r) db).1 ≡ db) ⊎ ((transaction (λ d. r) db).1 ≡ r.1)
    go (ok a, db') = inr refl
    go (err e, db') = inl refl

-- A use that is reserved stays within the bound of the link, whose bound is the one that was read.
count_use-Bounded :
    (now : ℕ) (link l : WorkspaceInviteLink)
    → is_reservable now link l ≡ true
    → (text_eq l.id link.id ≡ true → l.max_uses ≡ link.max_uses)
    → Bounded (count_use l)
count_use-Bounded now link l can same n e =
    let hit : text_eq l.id link.id ≡ true = ground arith in
    let most : link.max_uses ≡ some n = sym (same hit) ∙ e in ground (arith, e, most)

not_reservable :
    (now n : ℕ) (link l : WorkspaceInviteLink)
    → link.max_uses ≡ some n
    → (text_eq l.id link.id ≡ true → (l.max_uses ≡ some n) × (n ≤ l.use_count))
    → is_reservable now link l ≡ false
not_reservable now n link l most full = elim (Bool-cases (text_eq l.id link.id)) [
  | inr other ↦ ground arith
  | inl own ↦ let (bound, used) = full own in ground arith
]

none_reservable :
    (now n : ℕ) (link : WorkspaceInviteLink) (rows : List WorkspaceInviteLink)
    → link.max_uses ≡ some n
    → All (λ l. text_eq l.id link.id ≡ true → (l.max_uses ≡ some n) × (n ≤ l.use_count)) rows
    → (count (is_reservable now link) rows ≡ 0)
      × (map_where (is_reservable now link) count_use rows ≡ rows)
none_reservable now n link [] most full = (refl, refl)
none_reservable now n link (l ∷ rows) most full =
    let (zero_rest, same_rest) = none_reservable now n link rows most full.1 in
    let shut : is_reservable now link l ≡ false = not_reservable now n link l most full.0 in
    (ground arith, ground arith)

All-reserved :
    (now : ℕ) (link : WorkspaceInviteLink) (rows : List WorkspaceInviteLink)
    → All (λ l. text_eq l.id link.id ≡ true → l.max_uses ≡ link.max_uses) rows
    → All Bounded rows
    → All Bounded (map_where (is_reservable now link) count_use rows)
All-reserved now link [] same h = tt
All-reserved now link (l ∷ rows) same h = (
  elim (Bool-cases (is_reservable now link l)) [
    | inl can ↦ rw can (count_use-Bounded now link l can same.0)
    | inr not_now ↦ rw not_now h.0
  ],
  All-reserved now link rows same.1 h.1,
)

module _ ⦃w : World⦄ where
  abbrev links : Db → List WorkspaceInviteLink
  links db = db.invite_links

  join-Keeps :
      (link : WorkspaceInviteLink) (user_id : Text) → Keeps links (join_workspace link user_id)
  unfolding join_workspace
  join-Keeps link user_id db = ground arith

  admit-Keeps :
      (link : WorkspaceInviteLink) (user_id : Text) (count : ℕ)
      → Keeps links (admit link user_id count)
  unfolding admit
  admit-Keeps link user_id count =
      Keeps-bind links (throw_if (not (count == 1)) (bad_request "Invite link is unavailable"))
        (λ _. joined)
        (Keeps-throw_if links (not (count == 1)) (bad_request "Invite link is unavailable"))
        (λ _.
          Keeps-bind links (join_workspace link user_id) record_it (join-Keeps link user_id) (λ m.
            Keeps-bind links (create_row acceptances (acceptance_key ∷ []) accepted)
              (λ _. audited m)
              (Keeps-create_row links acceptances (acceptance_key ∷ []) accepted (λ l db. refl))
              (λ _.
                Keeps-bind links (create_row audit_logs [] row) (λ _. pure m)
                  (Keeps-create_row links audit_logs [] row (λ l db. refl))
                  (λ _. Keeps-pure links m))))
    where
      accepted : WorkspaceInviteAcceptance
      accepted = record {
        invite_link_id = link.id;
        workspace_id = link.workspace_id;
        user_id = user_id;
      }

      row : AuditLog
      row =
          audit_row link.workspace_id user_id AuditAction.invite (codes "workspace_invite_accept")
            link.id

      audited : WorkspaceMember → Action WorkspaceMember
      audited m = create_row audit_logs [] row >> pure m

      record_it : WorkspaceMember → Action WorkspaceMember
      record_it m = create_row acceptances (acceptance_key ∷ []) accepted >> audited m

      joined : Action WorkspaceMember
      joined = join_workspace link user_id >>= record_it

  reserve_lem :
      (link : WorkspaceInviteLink) (user_id : Text) (db : Db)
      → (reserve link >>= admit link user_id) db
        ≡ admit link user_id (count (is_reservable w.now link) db.invite_links) (record db {
          invite_links = map_where (is_reservable w.now link) count_use db.invite_links;
        })
  unfolding reserve
  reserve_lem link user_id db =
      ap
        (λ (r : ℕ × List WorkspaceInviteLink).
          admit link user_id r.0 (record db { invite_links = r.1 }))
        (w.prisma.update_many_lem (is_reservable w.now link) count_use db.invite_links)

  -- Where the links are used at most as often as they allow, they are so after the transaction of
  -- an acceptance too, however long ago the link was read and whether or not the transaction goes
  -- through, as long as the bound of the link is still the one that was read.
  pub accept_reserved-Bounded :
      (link : WorkspaceInviteLink) (user_id : Text) (db : Db)
      → All (λ l. text_eq l.id link.id ≡ true → l.max_uses ≡ link.max_uses) db.invite_links
      → All Bounded db.invite_links
      → All Bounded (accept_reserved link user_id db).1.invite_links
  unfolding accept_reserved
  accept_reserved-Bounded link user_id db same h =
      elim (transaction_cases (reserve link >>= admit link user_id) db) [
        | inl undone ↦ rw undone h
        | inr done ↦
            let p = is_reservable w.now link in
            let after : Db = record db { invite_links = map_where p count_use db.invite_links } in
            rw
              (
                done,
                reserve_lem link user_id db,
                admit-Keeps link user_id (count p db.invite_links) after,
              )
              (All-reserved w.now link db.invite_links same h)
      ]

  -- If others have taken all the uses of a link since it was read, the transaction of an
  -- acceptance throws "Invite link is unavailable" and changes nothing.
  pub accept_reserved_full :
      (link : WorkspaceInviteLink) (user_id : Text) (db : Db) (n : ℕ)
      → link.max_uses ≡ some n
      → All
          (λ l. text_eq l.id link.id ≡ true → (l.max_uses ≡ some n) × (n ≤ l.use_count))
          db.invite_links
      → accept_reserved link user_id db ≡ (err (bad_request "Invite link is unavailable"), db)
  unfolding accept_reserved transaction admit reserve
  accept_reserved_full link user_id db n most full =
      let (none_left, same) = none_reservable w.now n link db.invite_links most full in
      ground (
        arith,
        none_left,
        w.prisma.update_many_lem (is_reservable w.now link) count_use db.invite_links,
      )

  accept_revoked :
      (code user_id : Text) (db : Db) (l : WorkspaceInviteLink)
      → w.prisma.find_unique (λ x. text_eq x.code (trim code)) db.invite_links ≡ some l
      → l.is_revoked ≡ true
      → (e : Failure) × (accept_invite_link code user_id db ≡ (err e, db))
  unfolding accept_invite_link ensure_invite_link_can_be_accepted
  accept_revoked code user_id db l found gone = elim (Bool-cases (is_empty (trim code))) [
    | inl blank ↦ (bad_request "Invite code is required", ground arith)
    | inr given ↦ elim (Option-cases (w.prisma.find_unique (λ u. text_eq u.id user_id) db.users)) [
      | inl nobody ↦ (not_found "User not found", ground arith)
      | inr (u, somebody) ↦ (bad_request "Invite link has been revoked", ground arith)
    ]
  ]

  revoke_effect :
      (workspace_id link_id actor_id : Text) (db : Db) (r : WorkspaceInviteLink)
      → (revoke_invite_link workspace_id link_id actor_id db).0 ≡ ok r
      → (revoke_invite_link workspace_id link_id actor_id db).1.invite_links
        ≡ map_where (λ x. text_eq x.id link_id) revoke db.invite_links
  unfolding revoke_invite_link ensure_workspace_manager ensure_membership ensure_workspace
      ensure_can_manage_members
  revoke_effect workspace_id link_id actor_id db r done =
      ground (arith, w.prisma.update_many_lem (λ x. text_eq x.id link_id) revoke db.invite_links)

  -- Once an invite link has been revoked, an acceptance by its code throws for every user and
  -- changes nothing.
  pub revoke_closes :
      (workspace_id link_id actor_id code user_id : Text) (db : Db) (l r : WorkspaceInviteLink)
      → (revoke_invite_link workspace_id link_id actor_id db).0 ≡ ok r
      → let db' = (revoke_invite_link workspace_id link_id actor_id db).1 in
        w.prisma.find_unique (λ x. text_eq x.code (trim code)) db'.invite_links ≡ some l
        → l.id ≡ link_id
        → (e : Failure) × (accept_invite_link code user_id db' ≡ (err e, db'))
  revoke_closes workspace_id link_id actor_id code user_id db l r done found same =
      let q = λ (x : WorkspaceInviteLink). text_eq x.id link_id in
      let db' = (revoke_invite_link workspace_id link_id actor_id db).1 in
      let flagged : All (λ x. q x ≡ true → x.is_revoked ≡ true) db'.invite_links =
        rw (revoke_effect workspace_id link_id actor_id db r done)
          (map_where_hit (λ x. x.is_revoked ≡ true) q revoke db.invite_links (λ x. refl)) in
      let (hit, inside) =
        w.prisma.find_unique_some (λ x. text_eq x.code (trim code)) db'.invite_links l found in
      accept_revoked code user_id db' l found
        (inside (λ x. q x ≡ true → x.is_revoked ≡ true) flagged ((text_eq_iff l.id link_id).1 same))
