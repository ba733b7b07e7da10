-- ===== src/Auth.antt =====
-- services/auth-service/src/auth/auth.service.ts: accounts, sessions and the tokens sent by mail.
-- bcrypt, sha256, JSON web tokens, `randomBytes`, `encodeURIComponent` and `process.env` are
-- parameters. A random value is a function of the count of values drawn before it. The answer to a
-- database without tables (P2021) is left out. A mail is sent before the method returns, not beside
-- it.
pub mod Escape
pub mod Cases
pub mod Resets
pub mod Requests
pub mod Untouched
pub mod Spent
pub mod Rotation
pub mod Accounts
use Prim.Native.String.{String}
use synapse_hub.Action.{
  World, Action, ◌>>=◌, ◌>>◌, new_id, create_row, pure, draw, delete_many, throw, unauthorized,
  throw_if, find_unique, update_row, or_throw, update_many, bad_request, transaction, conflicting,
  background,
}
use synapse_hub.Action.Tables.{
  refresh_tokens, token_key, verification_tokens, reset_tokens, users, email_key,
}
use synapse_hub.Base.{
  ℕ, Bool, Option, ◌≡◌, true, [], ◌∷◌, if◌then◌else◌, ◌==◌, ◌++◌, ◌&&◌, not, is_some, some, ◌/◌,
  ◌+◌, none, ◌*◌, leb, ◌||◌,
}
use synapse_hub.Email.{MailSettings, send_mail}
use synapse_hub.Messaging.Mentions.{local_part}
use synapse_hub.Schema.{User, Token, Mail}
use synapse_hub.Text.{
  Text, truthy, to_lower_case, trim, codes, or_else, text_eq, given, or_if_empty,
}

-- What a token of the session says.
pub record Claims : Type 0 where
  pub sub : Text
  pub email : Text
  pub display_name : Text

-- Times of JSON web tokens are in seconds.
pub record Crypto : Type 0 where
  pub hash : ℕ → Text → Text
  pub compare : Text → Text → Bool
  pub sha256 : Text → Text
  pub random_hex : ℕ → Text
  pub sign_access : Claims → ℕ → Text
  pub sign_refresh : Claims → ℕ → Text
  pub verify_refresh : Text → ℕ → Option Claims
  pub encode_uri : Text → Text
  pub public_web_url : Option Text
  pub require_email_verification : Option Text
  pub compare_hash : (n : ℕ) (p : Text) → compare p (hash n p) ≡ true
  pub hash_truthy : (n : ℕ) (p : Text) → truthy (hash n p) ≡ true

pub record RegisterInput : Type 0 where
  pub email : Text
  pub password : Text
  pub display_name : Option Text

pub record SessionUser : Type 0 where
  pub id : Text
  pub email : Text
  pub display_name : Text
  pub email_verified_at : Option ℕ

pub record Session : Type 0 where
  pub user : SessionUser
  pub access_token : Text
  pub refresh_token : Text
  pub token_type : Text
  pub expires_in : ℕ

unfoldable pub normalize_email : Text → Text
normalize_email email = to_lower_case (trim email)

-- `value.replaceAll(c, by)` for a single character
unfoldable pub replace_all : ℕ → Text → Text → Text
replace_all c by [] = []
replace_all c by (d ∷ s) = if d == c then by ++ replace_all c by s else d ∷ replace_all c by s

unfoldable pub escape_html : Text → Text
escape_html value = replace_all 39 (codes "&#39;") (
    replace_all 34 (codes "&quot;") (
      replace_all 62 (codes "&gt;")
        (replace_all 60 (codes "&lt;") (replace_all 38 (codes "&amp;") value))))

-- `url.endsWith('/') ? url.slice(0, -1) : url`
unfoldable pub without_slash : Text → Text
without_slash [] = []
without_slash (c ∷ []) = if c == 47 then [] else c ∷ []
without_slash (c ∷ (d ∷ s)) = c ∷ without_slash (d ∷ s)

unfoldable pub web_url : Option Text → Text
web_url base = without_slash (or_else base (codes "http://localhost:3000"))

abbrev pub session_user : User → SessionUser
session_user u = record {
  id = u.id;
  email = u.email;
  display_name = u.display_name;
  email_verified_at = u.email_verified_at;
}

abbrev pub claims_of : SessionUser → Claims
claims_of u = record { sub = u.id; email = u.email; display_name = u.display_name }

abbrev pub has_email : Text → User → Bool
has_email email u = text_eq u.email email

abbrev pub has_user_id : Text → User → Bool
has_user_id id u = text_eq u.id id

abbrev pub has_hash : Text → Token → Bool
has_hash hash t = text_eq t.token_hash hash

-- `{ tokenHash, revokedAt: null }`, `{ userId, usedAt: null }`
abbrev pub open_with_hash : Text → Token → Bool
open_with_hash hash t = has_hash hash t && not (is_some t.closed_at)

abbrev pub open_of_user : Text → Token → Bool
open_of_user user_id t = text_eq t.user_id user_id && not (is_some t.closed_at)

abbrev pub close_at : ℕ → Token → Token
close_at now t = record t { closed_at = some now }

module _ ⦃c : Crypto⦄ where
  unfoldable pub hash_token : Text → Text
  hash_token token = c.sha256 token

  unfoldable pub public_web_url : Text
  public_web_url = web_url c.public_web_url

  unfoldable pub requires_email_verification : Bool
  requires_email_verification =
      text_eq (normalize_email (or_else c.require_email_verification (codes "false")))
        (codes "true")

  unfoldable pub verify_url : Text → Text
  verify_url token = public_web_url ++ codes "/verify-email?token=" ++ c.encode_uri token

  unfoldable pub reset_url : Text → Text
  reset_url token = public_web_url ++ codes "/reset-password?token=" ++ c.encode_uri token

  -- `<p><a href="${url}">${url}</a></p>`
  abbrev pub link_to : Text → Text
  link_to url = codes "<p><a href=\"" ++ url ++ codes "\">" ++ url ++ codes "</a></p>"

  unfoldable pub verification_mail : Text → Text → Text → Mail
  verification_mail to name token = record {
    to = to;
    subject = codes "Verify your SynapseHub email";
    body = codes "Hi " ++ name ++ codes ", verify your email by opening: " ++ verify_url token;
    html = some (
        codes "<p>Hi "
        ++ escape_html name
        ++ codes ",</p><p>Verify your email by opening this link:</p>"
        ++ link_to (verify_url token));
  }

  unfoldable pub password_reset_mail : Text → Text → Text → Mail
  password_reset_mail to name token = record {
    to = to;
    subject = codes "Reset your SynapseHub password";
    body = codes "Hi " ++ name ++ codes ", reset your password using: " ++ reset_url token;
    html = some (
        codes "<p>Hi "
        ++ escape_html name
        ++ codes ",</p><p>Reset your password using this link:</p>"
        ++ link_to (reset_url token));
  }

module _ ⦃w : World⦄ ⦃c : Crypto⦄ where
  unfoldable pub seconds : ℕ
  seconds = w.now / 1000

  abbrev pub token_row : Text → Text → ℕ → Text → Token
  token_row user_id token lifetime id = record {
    id = id;
    user_id = user_id;
    token_hash = hash_token token;
    expires_at = w.now + lifetime;
    closed_at = none;
  }

  unfoldable pub session_for : SessionUser → Session
  session_for user = record {
    user = user;
    access_token = c.sign_access (claims_of user) seconds;
    refresh_token = c.sign_refresh (claims_of user) seconds;
    token_type = codes "Bearer";
    expires_in = 900;
  }

  unfoldable pub issue_tokens : SessionUser → Action Session
  issue_tokens user = do
    let session = session_for user
    id ← new_id
    create_row refresh_tokens (token_key ∷ [])
        (token_row user.id session.refresh_token (30 * 24 * 60 * 60 * 1000) id)
    pure session

  unfoldable pub create_email_verification_token : Text → Action Text
  create_email_verification_token user_id = do
    n ← draw
    id ← new_id
    create_row verification_tokens (token_key ∷ [])
        (token_row user_id (c.random_hex n) (24 * 60 * 60 * 1000) id)
    pure (c.random_hex n)

  unfoldable pub create_password_reset_token : Text → Action Text
  create_password_reset_token user_id = do
    n ← draw
    delete_many reset_tokens (open_of_user user_id)
    id ← new_id
    create_row reset_tokens (token_key ∷ [])
        (token_row user_id (c.random_hex n) (60 * 60 * 1000) id)
    pure (c.random_hex n)

  -- What `refresh` does before it writes: the row of the token.
  unfoldable pub is_live : Token → Bool
  is_live t = not (is_some t.closed_at) && leb w.now t.expires_at

  abbrev pub live_session : Option Token → Action Token
  live_session none = throw (unauthorized "Invalid refresh token")
  live_session (some t) =
      throw_if (not (is_live t)) (unauthorized "Invalid refresh token") >> pure t

  unfoldable pub find_session : Text → Action Token
  find_session refresh_token = do
    row ← find_unique refresh_tokens (has_hash (hash_token refresh_token))
    live_session row

  -- What it writes then.
  unfoldable pub rotate : Text → Claims → Action Session
  rotate refresh_token payload = do
    update_row refresh_tokens (has_hash (hash_token refresh_token)) (close_at w.now)
    person ← find_unique users (has_user_id payload.sub)
    user ← or_throw person (unauthorized "Invalid refresh token")
    issue_tokens (session_user user)

  unfoldable pub refresh : Text → Action Session
  refresh refresh_token = do
    payload ←
        or_throw (c.verify_refresh refresh_token seconds) (unauthorized "Invalid refresh token")
    find_session refresh_token
    rotate refresh_token payload

  unfoldable pub login_user : Text → Text → Action Session
  login_user email password = do
    row ← find_unique users (has_email (normalize_email email))
    user ← or_throw row (unauthorized "Invalid credentials")
    password_hash ← or_throw (given user.password_hash) (unauthorized "Invalid credentials")
    throw_if (not (c.compare password password_hash)) (unauthorized "Invalid credentials")
    throw_if (requires_email_verification && not (is_some user.email_verified_at))
        (unauthorized "Email verification is required")
    issue_tokens (session_user user)

  unfoldable pub logout_session : Text → Action (Unit {0})
  logout_session refresh_token = do
    update_many refresh_tokens (open_with_hash (hash_token refresh_token)) (close_at w.now)
    pure tt

  -- `!token || token.usedAt || token.expiresAt <= new Date()`
  abbrev pub usable : Option Token → String → Action Token
  usable none reason = throw (bad_request reason)
  usable (some t) reason =
      throw_if (is_some t.closed_at || leb t.expires_at w.now) (bad_request reason) >> pure t

  -- The transaction of `resetPassword`.
  unfoldable pub commit_reset : Token → Text → Action (Unit {0})
  commit_reset token password_hash = transaction (do
    update_row users (has_user_id token.user_id)
        (λ u. record u { password_hash = some password_hash; updated_at = w.now })
    update_row reset_tokens (λ t. text_eq t.id token.id) (close_at w.now)
    update_many refresh_tokens (open_of_user token.user_id) (close_at w.now)
    pure tt)

  unfoldable pub reset_password : Text → Text → Action (Unit {0})
  reset_password token new_password = do
    row ← find_unique reset_tokens (has_hash (hash_token token))
    reset_token ← usable row "Invalid or expired reset token"
    n ← draw
    commit_reset reset_token (c.hash n new_password)

  -- The transaction of `verifyEmail`.
  unfoldable pub commit_verification : Token → Action (Unit {0})
  commit_verification token = transaction (do
    update_row users (has_user_id token.user_id)
        (λ u. record u { email_verified_at = some w.now; updated_at = w.now })
    update_row verification_tokens (λ t. text_eq t.id token.id) (close_at w.now)
    pure tt)

  unfoldable pub verify_email : Text → Action (Unit {0})
  verify_email token = do
    row ← find_unique verification_tokens (has_hash (hash_token token))
    verification_token ← usable row "Invalid or expired verification token"
    commit_verification verification_token

  abbrev pub new_user : Text → Text → Text → Text → User
  new_user id email password_hash display_name = record {
    id = id;
    email = email;
    password_hash = some password_hash;
    email_verified_at = none;
    display_name = display_name;
    avatar_url = none;
    title = none;
    timezone = none;
    is_active = true;
    last_seen_at = none;
    updated_at = w.now;
  }

  -- `dto.displayName?.trim() || email.split('@')[0]`
  unfoldable pub name_or_local_part : Option Text → Text → Text
  name_or_local_part name email = or_if_empty (trim (or_else name [])) (local_part email)

  unfoldable pub create_account : RegisterInput → Action User
  create_account dto = do
    let email = normalize_email dto.email
    existing ← find_unique users (has_email email)
    throw_if (is_some existing) (conflicting "Email already exists")
    n ← draw
    id ← new_id
    create_row users (email_key ∷ [])
        (new_user id email (c.hash n dto.password) (name_or_local_part dto.display_name email))

  module _ ⦃s : MailSettings⦄ where
    unfoldable pub send_verification_email : Text → Text → Text → Action (Unit {0})
    send_verification_email id email display_name = do
      token ← create_email_verification_token id
      send_mail (verification_mail email display_name token)

    unfoldable pub send_password_reset_email : Text → Text → Text → Action (Unit {0})
    send_password_reset_email email display_name token =
        send_mail (password_reset_mail email display_name token)

    unfoldable pub register : RegisterInput → Action Session
    register dto = do
      user ← create_account dto
      session ← issue_tokens (session_user user)
      background (send_verification_email user.id user.email user.display_name)
      pure session

    -- `if (user && user.isActive) { ... }`
    unfoldable pub mail_reset_link : Option User → Action (Unit {0})
    mail_reset_link none = pure tt
    mail_reset_link (some user) =
        if user.is_active
        then (create_password_reset_token user.id >>= λ token.
            background (send_password_reset_email user.email user.display_name token))
        else pure tt

    unfoldable pub forgot_password : Text → Action (Unit {0})
    forgot_password email = do
      user ← find_unique users (has_email (normalize_email email))
      mail_reset_link user

    -- `if (user && !user.emailVerifiedAt) { ... }`
    unfoldable pub mail_verification_link : Option User → Action (Unit {0})
    mail_verification_link none = pure tt
    mail_verification_link (some user) =
        if is_some user.email_verified_at
        then pure tt
        else (delete_many verification_tokens (open_of_user user.id)
            >> background (send_verification_email user.id user.email user.display_name))

    unfoldable pub resend_verification : Text → Action (Unit {0})
    resend_verification email = do
      user ← find_unique users (has_email (normalize_email email))
      mail_verification_link user
