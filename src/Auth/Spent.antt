-- ===== src/Auth/Spent.antt =====
-- A refresh token that has been closed stays closed, whatever is asked of the service.
use mathlib.Core.Path.{subst}
use synapse_hub.Action.{World, create_row, update_many, Action, ◌>>◌, pure, background, ◌>>=◌}
use synapse_hub.Action.Frame.{
  Preserves, Preserves-create_row, Keeps, Preserves-Keeps, Preserves-bind, Keeps-background,
}
use synapse_hub.Action.Tables.{token_key, refresh_tokens}
use synapse_hub.Auth.{
  has_hash, open_with_hash, close_at, Crypto, SessionUser, issue_tokens, login_user, session_user,
  Claims, rotate, refresh, hash_token, logout_session, reset_password, usable, open_of_user,
  RegisterInput, register, create_account, send_verification_email, Session, forgot_password,
  verify_email, resend_verification,
}
use synapse_hub.Auth.Cases.{
  issue_tokens_cases, session_row, login_user_cases, session_found, closed_by, rotate_cases,
  refresh_cases,
}
use synapse_hub.Auth.Requests.{
  AuthReply, AuthRequest, answer, post_register, with_session_of, post_login, post_refresh,
  post_logout, success, post_forgot_password, post_reset_password, post_verify_email,
  post_resend_verification,
}
use synapse_hub.Auth.Resets.{reset_password_cases}
use synapse_hub.Auth.Untouched.{
  sessions, account-Keeps, send_verification-Keeps, forgot-Keeps, verify_email-Keeps, resend-Keeps,
}
use synapse_hub.Base.{
  List, any, ◌≡◌, true, false, Bool, ℕ, map_where, any-map_where, refl, ◌∙◌, any-map_where-shrinks,
  arith, [], ◌∷◌, ◌++◌, any-append, Bool-cases, inr, inl, some,
}
use synapse_hub.Email.{MailSettings}
use synapse_hub.Schema.{Token, Db, User}
use synapse_hub.Text.{Text, text_eq_sound}

-- The table has the hash, and no open row has it.
abbrev pub SpentIn : Text → List Token → Type 0
SpentIn hash rows = (any (has_hash hash) rows ≡ true) × (any (open_with_hash hash) rows ≡ false)

abbrev pub Spent : Text → Db → Type 0
Spent hash db = SpentIn hash (sessions db)

SpentIn-close :
    (hash : Text) (p : Token → Bool) (now : ℕ) (rows : List Token)
    → SpentIn hash rows
    → SpentIn hash (map_where p (close_at now) rows)
SpentIn-close hash p now rows (there, shut) = (
  any-map_where (has_hash hash) p (close_at now) rows (λ t. refl) ∙ there,
  any-map_where-shrinks (open_with_hash hash) p (close_at now) rows (λ t. ground arith) shut,
)

-- Closing every row with the hash spends it.
pub close-SpentIn :
    (hash : Text) (now : ℕ) (rows : List Token)
    → any (has_hash hash) rows ≡ true
    → SpentIn hash (map_where (has_hash hash) (close_at now) rows)
close-SpentIn hash now rows there = (
  any-map_where (has_hash hash) (has_hash hash) (close_at now) rows (λ t. refl) ∙ there,
  all_shut rows,
)
  where
    all_shut :
        (l : List Token)
        → any (open_with_hash hash) (map_where (has_hash hash) (close_at now) l) ≡ false
    all_shut [] = refl
    all_shut (t ∷ l) = ground (arith, all_shut l)

pub close_open-SpentIn :
    (hash : Text) (now : ℕ) (rows : List Token)
    → any (has_hash hash) rows ≡ true
    → SpentIn hash (map_where (open_with_hash hash) (close_at now) rows)
close_open-SpentIn hash now rows there = (
  any-map_where (has_hash hash) (open_with_hash hash) (close_at now) rows (λ t. refl) ∙ there,
  all_shut rows,
)
  where
    all_shut :
        (l : List Token)
        → any (open_with_hash hash) (map_where (open_with_hash hash) (close_at now) l) ≡ false
    all_shut [] = refl
    all_shut (t ∷ l) = ground (arith, all_shut l)

SpentIn-append :
    (hash : Text) (t : Token) (rows : List Token)
    → has_hash hash t ≡ false
    → SpentIn hash rows
    → SpentIn hash (rows ++ t ∷ [])
SpentIn-append hash t rows other (there, shut) = (
  any-append (has_hash hash) rows (t ∷ []) ∙ ground arith,
  any-append (open_with_hash hash) rows (t ∷ []) ∙ ground arith,
)

-- A row that violates no key has another hash.
SpentIn-other :
    (hash : Text) (t : Token) (rows : List Token)
    → SpentIn hash rows
    → any (token_key.clashes t) rows ≡ false
    → has_hash hash t ≡ false
SpentIn-other hash t rows (there, shut) fresh = elim (Bool-cases (has_hash hash t)) [
  | inr other ↦ other
  | inl same ↦
      let e : t.token_hash ≡ hash = text_eq_sound t.token_hash hash same in
      let clash : any (has_hash hash) rows ≡ false =
        subst (λ h. any (has_hash h) rows ≡ false) e fresh in
      ground arith
]

module _ ⦃w : World⦄ (hash : Text) where
  Spent-create : (t : Token) → Preserves (Spent hash) (create_row refresh_tokens (token_key ∷ []) t)
  Spent-create t = Preserves-create_row refresh_tokens (Spent hash) (token_key ∷ []) t (λ db free h.
      SpentIn-append hash t db.refresh_tokens
        (SpentIn-other hash t db.refresh_tokens h (ground arith)) h)

  Spent-update :
      (p : Token → Bool) (now : ℕ)
      → Preserves (Spent hash) (update_many refresh_tokens p (close_at now))
  Spent-update p now db h =
      rw (w.prisma.update_many_lem p (close_at now) db.refresh_tokens)
        (SpentIn-close hash p now db.refresh_tokens h)

  Spent-skip : {A : Type 0} (m : Action A) → Keeps sessions m → Preserves (Spent hash) m
  Spent-skip m k = Preserves-Keeps (SpentIn hash) sessions m k

  module _ ⦃c : Crypto⦄ where
    issue-Preserves : (user : SessionUser) → Preserves (Spent hash) (issue_tokens user)
    issue-Preserves user db h = elim (issue_tokens_cases user db) [
      | inl (fresh, e) ↦
          let row = session_row user (w.uuid db.issued) in
          let other = SpentIn-other hash row db.refresh_tokens h fresh in
          rw e (SpentIn-append hash row db.refresh_tokens other h)
      | inr (taken, e) ↦ rw e h
    ]

    login-Preserves : (email password : Text) → Preserves (Spent hash) (login_user email password)
    login-Preserves email password db h = elim (login_user_cases email password db) [
      | inl (f, e) ↦ rw e h
      | inr (u, in_by, e) ↦ rw e (issue-Preserves (session_user u) db h)
    ]

    pub rotate-Preserves :
        (token : Text) (payload : Claims) (t : Token) (db : Db)
        → session_found token db ≡ some t
        → Spent hash (closed_by token db)
        → Spent hash (rotate token payload db).1
    rotate-Preserves token payload t db found h = elim (rotate_cases token payload t db found) [
      | inl e ↦ rw e h
      | inr (u, there, e) ↦ rw e (issue-Preserves (session_user u) (closed_by token db) h)
    ]

    refresh-Preserves : (token : Text) → Preserves (Spent hash) (refresh token)
    refresh-Preserves token db h = elim (refresh_cases token db) [
      | inl e ↦ rw e h
      | inr (payload, t, live, e) ↦
          let closed = SpentIn-close hash (has_hash (hash_token token)) w.now db.refresh_tokens h in
          rw e (rotate-Preserves token payload t db live.1 closed)
    ]

    logout-Preserves : (token : Text) → Preserves (Spent hash) (logout_session token)
    unfolding logout_session
    logout-Preserves token db h = Spent-update (open_with_hash (hash_token token)) w.now db h

    reset-Preserves :
        (token new_password : Text) → Preserves (Spent hash) (reset_password token new_password)
    reset-Preserves token new_password db h = elim (reset_password_cases token new_password db) [
      | inl (off, f, n, e) ↦ rw e h
      | inr (t, found, usable, known, e) ↦
          rw e (SpentIn-close hash (open_of_user t.user_id) w.now db.refresh_tokens h)
    ]

    module _ ⦃s : MailSettings⦄ where
      register-Preserves : (dto : RegisterInput) → Preserves (Spent hash) (register dto)
      unfolding register
      register-Preserves dto =
          Preserves-bind (Spent hash) (create_account dto) opened
            (Spent-skip (create_account dto) (account-Keeps dto))
            (λ u.
              Preserves-bind (Spent hash) (issue_tokens (session_user u)) (λ x. mailed u >> pure x)
                (issue-Preserves (session_user u))
                (λ x.
                  Preserves-bind (Spent hash) (mailed u) (λ _. pure x)
                    (Spent-skip (mailed u) (
                      Keeps-background sessions _
                        (send_verification-Keeps u.id u.email u.display_name)))
                    (λ _ db h. h)))
        where
          mailed : User → Action (Unit {0})
          mailed u = background (send_verification_email u.id u.email u.display_name)

          opened : User → Action Session
          opened u = issue_tokens (session_user u) >>= λ x. mailed u >> pure x

      replied :
          {A : Type 0} (m : Action A) (f : A → AuthReply)
          → Preserves (Spent hash) m
          → Preserves (Spent hash) (m >>= λ x. pure (f x))
      replied m f p = Preserves-bind (Spent hash) m (λ x. pure (f x)) p (λ x db h. h)

      pub answer-Preserves : (r : AuthRequest) → Preserves (Spent hash) (answer r)
      unfolding answer
      answer-Preserves (post_register dto) =
          replied (register dto) with_session_of (register-Preserves dto)
      answer-Preserves (post_login email password) =
          replied (login_user email password) with_session_of (login-Preserves email password)
      answer-Preserves (post_refresh token) =
          replied (refresh token) with_session_of (refresh-Preserves token)
      answer-Preserves (post_logout token) =
          replied (logout_session token) (λ _. success) (logout-Preserves token)
      answer-Preserves (post_forgot_password email) =
          replied (forgot_password email) (λ _. success)
            (Spent-skip (forgot_password email) (forgot-Keeps email))
      answer-Preserves (post_reset_password token password) =
          replied (reset_password token password) (λ _. success) (reset-Preserves token password)
      answer-Preserves (post_verify_email token) =
          replied (verify_email token) (λ _. success)
            (Spent-skip (verify_email token) (verify_email-Keeps token))
      answer-Preserves (post_resend_verification email) =
          replied (resend_verification email) (λ _. success)
            (Spent-skip (resend_verification email) (resend-Keeps email))
