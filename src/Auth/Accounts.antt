-- ===== src/Auth/Accounts.antt =====
-- Opening an account, and the sessions of one second.
use mathlib.Core.Path.{subst}
use synapse_hub.Action.{World, err, conflicting, ok, background, p2002, Reply}
use synapse_hub.Action.Frame.{Keeps, Keeps-bind}
use synapse_hub.Action.Tables.{email_key, token_key}
use synapse_hub.Auth.{
  Crypto, RegisterInput, normalize_email, new_user, name_or_local_part, has_email, create_account,
  create_email_verification_token, send_verification_email, verification_mail, Session, register,
  session_for, session_user, SessionUser, requires_email_verification, has_hash, login_user,
  hash_token, Claims, has_user_id, refresh, close_at, create_password_reset_token, open_of_user,
  token_row, forgot_password, mail_reset_link,
}
use synapse_hub.Auth.Cases.{
  with_session, issue_tokens_cases, next_hash, login_user_in, hash_taken, session_row,
  session_found, login_user_cases, issue_tokens_taken, LiveSession, user_found, numbered, closed_by,
  refresh_live, rotate_found,
}
use synapse_hub.Auth.Requests.{at_time}
use synapse_hub.Base.{
  ◌+◌, ◌++◌, ◌∷◌, [], any, ◌≡◌, true, ◌⊎◌, false, Bool-cases, inl, arith, inr, List, sym, ap, ◌∙◌,
  ℕ, some, refl, any-append, any-map_where, keep, not, ◌*◌, any-keep-none, Option-cases,
}
use synapse_hub.Email.{MailSettings, send_mail, send_via_postmark, send_via_resend}
use synapse_hub.Prisma.Laws.{find_unique-any, find_last}
use synapse_hub.Schema.{Db, User, Mail, Token}
use synapse_hub.Text.{Text, text_eq_refl, given-truthy}

module _ ⦃w : World⦄ ⦃c : Crypto⦄ where
  abbrev account_of : RegisterInput → Db → User
  account_of dto db =
      let email = normalize_email dto.email in
      new_user (w.uuid (db.issued + 1)) email (c.hash db.issued dto.password)
        (name_or_local_part dto.display_name email)

  abbrev opened : RegisterInput → Db → Db
  opened dto db = record db {
    users = db.users ++ account_of dto db ∷ [];
    issued = db.issued + 1 + 1;
  }

  -- An account is opened exactly when no user has the email.
  pub create_account_cases :
      (dto : RegisterInput) (db : Db)
      → ((any (has_email (normalize_email dto.email)) db.users ≡ true)
          × (create_account dto db ≡ (err (conflicting "Email already exists"), db)))
        ⊎ ((any (has_email (normalize_email dto.email)) db.users ≡ false)
            × (create_account dto db ≡ (
              ok (account_of dto db),
              record db { users = db.users ++ account_of dto db ∷ []; issued = db.issued + 1 + 1 },
            )))
  unfolding create_account
  create_account_cases dto db =
      elim (Bool-cases (any (has_email (normalize_email dto.email)) db.users)) [
        | inl taken ↦ inl (
          taken,
          ground (arith, find_unique-any w.prisma (has_email (normalize_email dto.email)) db.users),
        )
        | inr free ↦ inr (
          free,
          ground (
            arith,
            find_unique-any w.prisma (has_email (normalize_email dto.email)) db.users,
            w.prisma.create_lem (email_key ∷ []) (account_of dto db) db.users,
          ),
        )
      ]

  abbrev people : Db → List User
  people db = db.users

  verification_token-Keeps-people :
      (user_id : Text) → Keeps people (create_email_verification_token user_id)
  unfolding create_email_verification_token
  verification_token-Keeps-people user_id db = ground arith

  module _ ⦃s : MailSettings⦄ where
    mail-Keeps-people : (mail : Mail) → Keeps people (send_mail mail)
    unfolding send_mail send_via_postmark send_via_resend
    mail-Keeps-people mail db = ground arith

    verification-Keeps-people :
        (id email name : Text) → Keeps people (send_verification_email id email name)
    unfolding send_verification_email
    verification-Keeps-people id email name =
        Keeps-bind people (create_email_verification_token id)
          (λ token. send_mail (verification_mail email name token))
          (verification_token-Keeps-people id)
          (λ token. mail-Keeps-people (verification_mail email name token))

    -- What a registration that answers has done: the email was free, the session is that of the
    -- new account, and the account is the only new user.
    register_done :
        (dto : RegisterInput) (db : Db) (x : Session)
        → (register dto db).0 ≡ ok x
        → (any (has_email (normalize_email dto.email)) db.users ≡ false)
          × (x ≡ session_for (session_user (account_of dto db)))
          × ((register dto db).1.users ≡ db.users ++ account_of dto db ∷ [])
    unfolding register background
    register_done dto db x gives = elim (create_account_cases dto db) [
      | inl (taken, e) ↦
          let stops : (register dto db).0 ≡ err (conflicting "Email already exists") =
            ground (arith, e) in
          cc (stops, gives)
      | inr (free, e) ↦
          let u = account_of dto db in
          let next = with_session (session_user u) (opened dto db) in
          elim (issue_tokens_cases (session_user u) (opened dto db)) [
            | inr (again, fails) ↦
                let stops : (register dto db).0 ≡ err (p2002 token_key.target) =
                  ground (arith, e, fails) in
                cc (stops, gives)
            | inl (fresh, opens) ↦
                let ends : register dto db ≡ (
                  ok (session_for (session_user u)),
                  (send_verification_email u.id u.email u.display_name next).1,
                ) =
                  ground (arith, e, opens) in
                let same : ok (session_for (session_user u)) ≡ ok x =
                  sym (ap (λ (r : Reply Session × Db). r.0) ends) ∙ gives in
                (
                  free,
                  cc same,
                  ap (λ (r : Reply Session × Db). r.1.users) ends
                      ∙ verification-Keeps-people u.id u.email u.display_name next,
                )
          ]
    ]

-- A login after a registration, at its own time.
module _ (w : World) ⦃c : Crypto⦄ ⦃s : MailSettings⦄ where
  -- The hash of the refresh token that a user gets at a time.
  abbrev pub hash_at : ℕ → SessionUser → Text
  hash_at t user = next_hash ⦃w = at_time w t⦄ user

  -- Where the verification of the email is not required, the email and the password of a
  -- registration that answered sign in to the account that it opened: a login after it, at a time
  -- whose refresh token for that user is not in the table yet, answers with a new session of the
  -- user of the registration, whose email is the normalized one.
  pub register_login :
      (dto : RegisterInput) (db : Db) (x : Session) (t : ℕ)
      → (register ⦃w = w⦄ dto db).0 ≡ ok x
      → requires_email_verification ≡ false
      → any (has_hash (hash_at t x.user)) (register ⦃w = w⦄ dto db).1.refresh_tokens ≡ false
      → (x.user.email ≡ normalize_email dto.email)
        × ((login_user ⦃w = at_time w t⦄ dto.email dto.password (register ⦃w = w⦄ dto db).1).0
            ≡ ok (session_for ⦃w = at_time w t⦄ x.user))
  unfolding session_for
  register_login dto db x t gives lax fresh =
      let (free, who, rows) = register_done ⦃w = w⦄ dto db x gives in
      let u = account_of ⦃w = w⦄ dto db in
      let after = (register ⦃w = w⦄ dto db).1 in
      let secret = c.hash db.issued dto.password in
      let named : x.user ≡ session_user u = ap (λ (y : Session). y.user) who in
      let found : w.prisma.find_unique (has_email (normalize_email dto.email)) after.users
          ≡ some u =
        rw rows (
          find_last w.prisma (has_email (normalize_email dto.email)) u db.users free
            (text_eq_refl (normalize_email dto.email))) in
      let enters = login_user_in ⦃w = at_time w t⦄ dto.email dto.password u after (
        secret,
        found,
        given-truthy secret (c.hash_truthy db.issued dto.password),
        c.compare_hash db.issued dto.password,
        rw lax refl,
      ) in
      let unused : any (has_hash (hash_at t (session_user u))) after.refresh_tokens ≡ false =
        subst (λ y. any (has_hash (hash_at t y)) after.refresh_tokens ≡ false) named fresh in
      (
        ap (λ (y : SessionUser). y.email) named,
        elim (issue_tokens_cases ⦃w = at_time w t⦄ (session_user u) after) [
          | inl (new, opens) ↦
              ap (λ (r : Reply Session × Db). r.0) (enters ∙ opens)
              ∙ ap (λ (y : SessionUser). ok (session_for ⦃w = at_time w t⦄ y)) (sym named)
          | inr (taken, fails) ↦ absurd (cc (unused, taken))
        ],
      )

module _ ⦃w : World⦄ ⦃c : Crypto⦄ where
  -- The token of a session that this second's sign-in gave the user.
  abbrev token_now : User → Text
  token_now u = (session_for (session_user u)).refresh_token

  now_taken :
      (user : SessionUser) (db : Db) → hash_taken (next_hash user) (with_session user db) ≡ true
  now_taken user db =
      let split =
        any-append (has_hash (next_hash user)) db.refresh_tokens
          (session_row user (w.uuid db.issued) ∷ []) in
      let same = text_eq_refl (next_hash user) in ground (arith, split, same)

  row_there :
      (token : Text) (t : Token) (db : Db)
      → session_found token db ≡ some t
      → hash_taken (hash_token token) db ≡ true
  row_there token t db found =
      let e = find_unique-any w.prisma (has_hash (hash_token token)) db.refresh_tokens in
      ground (arith, found, e)

  -- A second login within the same reading of the clock fails: its refresh token is the same text
  -- as that of the first, so its row violates the unique key of the hash, and the client's P2002
  -- is what the method throws.
  pub login_again :
      (email password : Text) (db : Db) (x : Session)
      → (login_user email password db).0 ≡ ok x
      → (login_user email password (login_user email password db).1).0
        ≡ err (p2002 token_key.target)
  login_again email password db x gives = elim (login_user_cases email password db) [
    | inl (f, e) ↦
        let clash : err f ≡ ok x = sym (ap (λ (r : Reply Session × Db). r.0) e) ∙ gives in cc clash
    | inr (u, lets, e) ↦ elim (issue_tokens_cases (session_user u) db) [
      | inr (taken, fails) ↦
          let clash : err (p2002 token_key.target) ≡ ok x =
            sym (ap (λ (r : Reply Session × Db). r.0) (e ∙ fails)) ∙ gives in
          cc clash
      | inl (fresh, gets) ↦
          let next = with_session (session_user u) db in
          rw (e, gets, login_user_in email password u next lets)
            (ap (λ (r : Reply Session × Db). r.0)
              (issue_tokens_taken (session_user u) next (now_taken (session_user u) db)))
    ]
  ]

  -- A token that is exchanged in the second in which it was given is lost: the exchange closes its
  -- session and then fails to open another, whose token would be the same.
  pub refresh_same_second :
      (payload : Claims) (t : Token) (u : User) (db : Db)
      → LiveSession (token_now u) payload t db
      → user_found (has_user_id payload.sub) db ≡ some u
      → refresh (token_now u) db
        ≡ (err (p2002 token_key.target), numbered (closed_by (token_now u) db))
  refresh_same_second payload t u db live there =
      let taken : hash_taken (next_hash (session_user u)) (closed_by (token_now u) db) ≡ true =
        any-map_where (has_hash (hash_token (token_now u))) (has_hash (hash_token (token_now u)))
          (close_at w.now) db.refresh_tokens (λ x. refl)
        ∙ row_there (token_now u) t db live.1 in
      refresh_live (token_now u) payload t db live
      ∙ rotate_found (token_now u) payload t u db live.1 there
      ∙ issue_tokens_taken (session_user u) (closed_by (token_now u) db) taken

  reset_token_created :
      (user_id : Text) (db : Db)
      → any (has_hash (hash_token (c.random_hex db.issued))) db.reset_tokens ≡ false
      → (create_password_reset_token user_id db).0 ≡ ok (c.random_hex db.issued)
  unfolding create_password_reset_token
  reset_token_created user_id db fresh =
      let raw = c.random_hex db.issued in
      let left = keep (λ t. not (open_of_user user_id t)) db.reset_tokens in
      let row = token_row user_id raw (60 * 60 * 1000) (w.uuid (db.issued + 1)) in
      let absent =
        any-keep-none (has_hash (hash_token raw)) (λ t. not (open_of_user user_id t))
          db.reset_tokens fresh in
      ground (
        arith,
        w.prisma.delete_many_lem (open_of_user user_id) db.reset_tokens,
        w.prisma.create_lem (token_key ∷ []) row left,
      )

  module _ ⦃s : MailSettings⦄ where
    -- The answer to a forgotten password is the same whether or not somebody has the email, where
    -- the random value of a token is not one that is in the table.
    pub forgot_password_answers :
        (email : Text) (db : Db)
        → any (has_hash (hash_token (c.random_hex db.issued))) db.reset_tokens ≡ false
        → (forgot_password email db).0 ≡ ok tt
    unfolding forgot_password mail_reset_link background
    forgot_password_answers email db fresh =
        elim (Option-cases (user_found (has_email (normalize_email email)) db)) [
          | inl nobody ↦ ground arith
          | inr (u, found) ↦ elim (Bool-cases u.is_active) [
            | inr asleep ↦ ground arith
            | inl active ↦ let made = reset_token_created u.id db fresh in ground arith
          ]
        ]
