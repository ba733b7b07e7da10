-- ===== src/Auth/Cases.antt =====
-- What each way through the service writes: the sessions that it opens and closes.
use synapse_hub.Action.{Failure, unauthorized, World, ok, err, p2002}
use synapse_hub.Action.Tables.{token_key}
use synapse_hub.Auth.{
  Crypto, SessionUser, token_row, session_for, has_hash, hash_token, issue_tokens, has_email,
  normalize_email, requires_email_verification, login_user, session_user, Claims, seconds, is_live,
  refresh, rotate, find_session, close_at, has_user_id,
}
use synapse_hub.Base.{
  ◌*◌, Bool, any, ◌+◌, ◌++◌, ◌∷◌, [], ◌≡◌, false, ◌⊎◌, true, Bool-cases, inr, inl, arith, Option,
  some, ◌&&◌, not, is_some, Option-cases, map_where,
}
use synapse_hub.Schema.{Token, Db, User}
use synapse_hub.Text.{Text, given}

abbrev pub refused : Failure
refused = unauthorized "Invalid refresh token"

module _ ⦃w : World⦄ ⦃c : Crypto⦄ where
  abbrev pub session_row : SessionUser → Text → Token
  session_row user id =
      token_row user.id (session_for user).refresh_token (30 * 24 * 60 * 60 * 1000) id

  abbrev pub hash_taken : Text → Db → Bool
  hash_taken hash db = any (has_hash hash) db.refresh_tokens

  -- The hash of the token that the user gets in this second.
  abbrev pub next_hash : SessionUser → Text
  next_hash user = hash_token (session_for user).refresh_token

  abbrev pub numbered : Db → Db
  numbered db = record db { issued = db.issued + 1 }

  abbrev pub with_session : SessionUser → Db → Db
  with_session user db = record db {
    refresh_tokens = db.refresh_tokens ++ session_row user (w.uuid db.issued) ∷ [];
    issued = db.issued + 1;
  }

  -- A session is opened unless its token is in the table already.
  pub issue_tokens_cases :
      (user : SessionUser) (db : Db)
      → ((hash_taken (next_hash user) db ≡ false)
          × (issue_tokens user db ≡ (ok (session_for user), with_session user db)))
        ⊎ ((hash_taken (next_hash user) db ≡ true)
            × (issue_tokens user db ≡ (err (p2002 token_key.target), numbered db)))
  unfolding issue_tokens
  issue_tokens_cases user db = elim (Bool-cases (hash_taken (next_hash user) db)) [
    | inr free ↦ inl (
      free,
      ground (
        arith,
        w.prisma.create_lem (token_key ∷ []) (session_row user (w.uuid db.issued))
            db.refresh_tokens,
      ),
    )
    | inl taken ↦ inr (
      taken,
      ground (
        arith,
        w.prisma.create_lem (token_key ∷ []) (session_row user (w.uuid db.issued))
            db.refresh_tokens,
      ),
    )
  ]

  -- No second session has the token of a first.
  pub issue_tokens_taken :
      (user : SessionUser) (db : Db)
      → hash_taken (next_hash user) db ≡ true
      → issue_tokens user db ≡ (err (p2002 token_key.target), numbered db)
  issue_tokens_taken user db taken = elim (issue_tokens_cases user db) [
    | inl (fresh, e) ↦ cc (taken, fresh)
    | inr (again, e) ↦ e
  ]

  abbrev pub user_found : (User → Bool) → Db → Option User
  user_found p db = w.prisma.find_unique p db.users

  -- The user whom the credentials let in.
  abbrev pub LetsIn : Text → Text → User → Db → Type 0
  LetsIn email password u db =
      (secret : Text) × (user_found (has_email (normalize_email email)) db ≡ some u)
      × (given u.password_hash ≡ some secret)
      × (c.compare password secret ≡ true)
      × ((requires_email_verification && not (is_some u.email_verified_at)) ≡ false)

  pub login_user_cases :
      (email password : Text) (db : Db)
      → ((e : Failure) × (login_user email password db ≡ (err e, db)))
        ⊎ ((u : User) × LetsIn email password u db
            × (login_user email password db ≡ issue_tokens (session_user u) db))
  unfolding login_user
  login_user_cases email password db =
      elim (Option-cases (user_found (has_email (normalize_email email)) db)) [
        | inl gone ↦ inl (unauthorized "Invalid credentials", ground arith)
        | inr (u, found) ↦ elim (Option-cases (given u.password_hash)) [
          | inl bare ↦ inl (unauthorized "Invalid credentials", ground arith)
          | inr (secret, kept) ↦ elim (Bool-cases (c.compare password secret)) [
            | inr wrong ↦ inl (unauthorized "Invalid credentials", ground arith)
            | inl right ↦
                elim (Bool-cases
                  (requires_email_verification && not (is_some u.email_verified_at))) [
                    | inl unverified ↦
                        inl (unauthorized "Email verification is required", ground arith)
                    | inr fine ↦ inr (u, (secret, found, kept, right, fine), ground arith)
                  ]
          ]
        ]
      ]

  pub login_user_in :
      (email password : Text) (u : User) (db : Db)
      → LetsIn email password u db
      → login_user email password db ≡ issue_tokens (session_user u) db
  unfolding login_user
  login_user_in email password u db (secret, found, kept, right, fine) = ground arith

  abbrev pub session_found : Text → Db → Option Token
  session_found token db = w.prisma.find_unique (has_hash (hash_token token)) db.refresh_tokens

  -- A token is verified, its row is found, and the row is neither closed nor out of date.
  abbrev pub LiveSession : Text → Claims → Token → Db → Type 0
  LiveSession token payload t db =
      (c.verify_refresh token seconds ≡ some payload)
      × (session_found token db ≡ some t)
      × (is_live t ≡ true)

  pub refresh_cases :
      (token : Text) (db : Db)
      → (refresh token db ≡ (err refused, db))
        ⊎ ((payload : Claims) × (t : Token) × LiveSession token payload t db
            × (refresh token db ≡ rotate token payload db))
  unfolding refresh find_session
  refresh_cases token db = elim (Option-cases (c.verify_refresh token seconds)) [
    | inl forged ↦ inl (ground arith)
    | inr (payload, signed) ↦ elim (Option-cases (session_found token db)) [
      | inl gone ↦ inl (ground arith)
      | inr (t, found) ↦ elim (Bool-cases (is_live t)) [
        | inl live ↦ inr (payload, t, (signed, found, live), ground arith)
        | inr dead ↦ inl (ground arith)
      ]
    ]
  ]

  pub refresh_live :
      (token : Text) (payload : Claims) (t : Token) (db : Db)
      → LiveSession token payload t db
      → refresh token db ≡ rotate token payload db
  unfolding refresh find_session
  refresh_live token payload t db (signed, found, live) = ground arith

  abbrev pub closed_by : Text → Db → Db
  closed_by token db = record db {
    refresh_tokens = map_where (has_hash (hash_token token)) (close_at w.now) db.refresh_tokens;
  }

  pub rotate_found :
      (token : Text) (payload : Claims) (t : Token) (u : User) (db : Db)
      → session_found token db ≡ some t
      → user_found (has_user_id payload.sub) db ≡ some u
      → rotate token payload db ≡ issue_tokens (session_user u) (closed_by token db)
  unfolding rotate
  rotate_found token payload t u db found there = ground (
    arith,
    w.prisma.update_many_lem (has_hash (hash_token token)) (close_at w.now) db.refresh_tokens,
  )

  -- A rotation closes the row of the token, and then opens a session if the user is there.
  pub rotate_cases :
      (token : Text) (payload : Claims) (t : Token) (db : Db)
      → session_found token db ≡ some t
      → (rotate token payload db ≡ (err refused, closed_by token db))
        ⊎ ((u : User) × (user_found (has_user_id payload.sub) db ≡ some u)
            × (rotate token payload db ≡ issue_tokens (session_user u) (closed_by token db)))
  unfolding rotate
  rotate_cases token payload t db found =
      elim (Option-cases (user_found (has_user_id payload.sub) db)) [
        | inl gone ↦ inl (
            ground (
              arith,
              w.prisma.update_many_lem (has_hash (hash_token token)) (close_at w.now)
                  db.refresh_tokens,
            ))
        | inr (u, there) ↦ inr (
          u,
          there,
          ground (
            arith,
            w.prisma.update_many_lem (has_hash (hash_token token)) (close_at w.now)
                db.refresh_tokens,
          ),
        )
      ]
