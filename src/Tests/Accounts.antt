-- ===== src/Tests/Accounts.antt =====
-- Accounts and sessions on the sample.
use synapse_hub.Action.{ok, err, transaction, Failure, background, p2002}
use synapse_hub.Action.Tables.{token_key}
use synapse_hub.Auth.{
  Claims, Crypto, Session, session_user, refresh, find_session, is_live, rotate, issue_tokens,
  session_for, seconds, hash_token, has_hash, logout_session, reset_password, commit_reset,
  has_user_id, RegisterInput, requires_email_verification, normalize_email, register,
  create_account, name_or_local_part, send_verification_email, create_email_verification_token,
  login_user, escape_html,
}
use synapse_hub.Auth.Accounts.{hash_at, register_login, login_again}
use synapse_hub.Auth.Cases.{refused}
use synapse_hub.Auth.Escape.{escape_each, is_inert, escape_html_lem}
use synapse_hub.Auth.Requests.{
  AuthRequest, post_login, post_logout, post_forgot_password, at_time, serve,
}
use synapse_hub.Auth.Resets.{reset_found, is_resettable, is_over, reset_db, reset_password_cases}
use synapse_hub.Auth.Rotation.{refresh_once, logout_final, Owned, reset_final}
use synapse_hub.Base.{
  Bool, [], false, ◌∷◌, ℕ, ◌≡◌, true, refl, Option, none, some, List, any, ◌⊎◌, All,
}
use synapse_hub.Email.{MailSettings, send_mail, provider_name}
use synapse_hub.Messaging.Mentions.{local_part}
use synapse_hub.Schema.{Token, Db}
use synapse_hub.Tests.Sample.{office, alice, bob, quiet}
use synapse_hub.Text.{
  Text, text_eq, text_eq_refl, truthy, codes, to_lower_case, lower_char, trim, drop_space, is_space,
}

-- A cipher that hides nothing: each value is the text it stands for behind a mark.
unfoldable opens : Text → Text → Bool
opens p [] = false
opens p (d ∷ h) = text_eq p h

opens-sealed : (n : ℕ) (p : Text) → opens p (1 ∷ p) ≡ true
unfolding opens
opens-sealed n p = text_eq_refl p

sealed-truthy : (n : ℕ) (p : Text) → truthy (1 ∷ p) ≡ true
unfolding truthy
sealed-truthy n p = refl

abbrev claims_in : Text → Option Claims
claims_in [] = none
claims_in (s ∷ id) = some (record { sub = id; email = []; display_name = [] })

abbrev plain : Crypto
plain = record {
  hash = λ n p. 1 ∷ p;
  compare = opens;
  sha256 = λ t. 7 ∷ t;
  random_hex = λ n. n ∷ n ∷ [];
  sign_access = λ x s. 2 ∷ x.sub;
  sign_refresh = λ x s. s ∷ x.sub;
  verify_refresh = λ t s. claims_in t;
  encode_uri = λ t. t;
  public_web_url = none;
  require_email_verification = none;
  compare_hash = opens-sealed;
  hash_truthy = sealed-truthy;
}

abbrev console : MailSettings
console = record {
  email_provider = none;
  postmark_server_token = none;
  resend_api_key = none;
  email_from = none;
  email_reply_to = none;
  accepts = λ p m. true;
}

-- The token that alice was given in the fifth second.
abbrev old_token : Text
old_token = 5 ∷ codes "a"

abbrev old_session : Token
old_session = record {
  id = codes "t";
  user_id = codes "a";
  token_hash = 7 ∷ old_token;
  expires_at = 90000;
  closed_at = none;
}

-- The token of a mail to alice.
abbrev mailed_token : Token
mailed_token = record old_session { id = codes "k"; token_hash = 7 ∷ codes "reset" }

abbrev club : Db
club = record office {
  users = record alice { password_hash = some (1 ∷ codes "sesame") } ∷ bob ∷ [];
  refresh_tokens = old_session ∷ [];
  reset_tokens = mailed_token ∷ [];
}

-- Later, alice signs in, signs out and asks for a new password.
abbrev later_requests : List (ℕ × AuthRequest)
later_requests =
    (20000, post_login (codes "alice@x.io") (codes "sesame"))
    ∷ (21000, post_logout (20 ∷ codes "a"))
    ∷ (22000, post_forgot_password (codes "alice@x.io"))
    ∷ []

abbrev new_session : Session
new_session = record {
  user = session_user (record alice { password_hash = some (1 ∷ codes "sesame") });
  access_token = 2 ∷ codes "a";
  refresh_token = 10 ∷ codes "a";
  token_type = codes "Bearer";
  expires_in = 900;
}

alice_refreshes : (refresh ⦃w = quiet⦄ ⦃c = plain⦄ old_token club).0 ≡ ok new_session
unfolding refresh find_session is_live rotate issue_tokens session_for seconds hash_token text_eq
alice_refreshes = refl

refresh_once_example :
    refresh ⦃w = at_time quiet 30000⦄ ⦃c = plain⦄ old_token (
      serve quiet ⦃c = plain⦄ ⦃s = console⦄ later_requests
        (refresh ⦃w = quiet⦄ ⦃c = plain⦄ old_token club).1)
    ≡ (
      err refused,
      serve quiet ⦃c = plain⦄ ⦃s = console⦄ later_requests
          (refresh ⦃w = quiet⦄ ⦃c = plain⦄ old_token club).1,
    )
refresh_once_example =
    refresh_once quiet ⦃c = plain⦄ ⦃s = console⦄ old_token club new_session later_requests 30000
      alice_refreshes

old_token_known : any (has_hash (hash_token ⦃c = plain⦄ old_token)) club.refresh_tokens ≡ true
unfolding hash_token text_eq
old_token_known = refl

logout_final_example :
    refresh ⦃w = at_time quiet 30000⦄ ⦃c = plain⦄ old_token (
      serve quiet ⦃c = plain⦄ ⦃s = console⦄ later_requests
        (logout_session ⦃w = quiet⦄ ⦃c = plain⦄ old_token club).1)
    ≡ (
      err refused,
      serve quiet ⦃c = plain⦄ ⦃s = console⦄ later_requests
          (logout_session ⦃w = quiet⦄ ⦃c = plain⦄ old_token club).1,
    )
logout_final_example =
    logout_final quiet ⦃c = plain⦄ ⦃s = console⦄ old_token club later_requests 30000 old_token_known

alice_resets :
    (reset_password ⦃w = quiet⦄ ⦃c = plain⦄ (codes "reset") (codes "open") club).0 ≡ ok tt
unfolding reset_password commit_reset transaction hash_token text_eq
alice_resets = refl

reset_link_found : reset_found ⦃w = quiet⦄ ⦃c = plain⦄ (codes "reset") club ≡ some mailed_token
unfolding hash_token text_eq
reset_link_found = refl

old_is_hers :
    Owned ⦃w = quiet⦄ ⦃c = plain⦄ (hash_token ⦃c = plain⦄ old_token) mailed_token.user_id club
old_is_hers = ((λ h. text_eq_refl (codes "a")), tt)

reset_final_example :
    refresh ⦃w = at_time quiet 30000⦄ ⦃c = plain⦄ old_token (
      serve quiet ⦃c = plain⦄ ⦃s = console⦄ later_requests
        (reset_password ⦃w = quiet⦄ ⦃c = plain⦄ (codes "reset") (codes "open") club).1)
    ≡ (
      err refused,
      serve quiet ⦃c = plain⦄ ⦃s = console⦄ later_requests
          (reset_password ⦃w = quiet⦄ ⦃c = plain⦄ (codes "reset") (codes "open") club).1,
    )
reset_final_example =
    reset_final quiet ⦃c = plain⦄ ⦃s = console⦄ (codes "reset") (codes "open") old_token club
      mailed_token later_requests 30000 reset_link_found alice_resets old_token_known old_is_hers

reset_password_cases_example :
    ((is_resettable ⦃w = quiet⦄ ⦃c = plain⦄
          (reset_found ⦃w = quiet⦄ ⦃c = plain⦄ (codes "reset") club)
          club
        ≡ false)
      × (e : Failure) × (n : ℕ) × (reset_password ⦃w = quiet⦄ ⦃c = plain⦄
            (codes "reset")
            (codes "open")
            club
          ≡ (err e, record club { issued = n })))
    ⊎ ((t : Token) × (reset_found ⦃w = quiet⦄ ⦃c = plain⦄ (codes "reset") club ≡ some t)
        × (is_over ⦃w = quiet⦄ ⦃c = plain⦄ t ≡ false)
        × (any (has_user_id t.user_id) club.users ≡ true)
        × (reset_password ⦃w = quiet⦄ ⦃c = plain⦄ (codes "reset") (codes "open") club
            ≡ (ok tt, reset_db ⦃w = quiet⦄ ⦃c = plain⦄ t (1 ∷ codes "open") club)))
reset_password_cases_example =
    reset_password_cases ⦃w = quiet⦄ ⦃c = plain⦄ (codes "reset") (codes "open") club

abbrev dave : RegisterInput
dave = record { email = codes " Dave@x.io"; password = codes "sesame"; display_name = none }

not_strict : requires_email_verification ⦃c = plain⦄ ≡ false
unfolding requires_email_verification normalize_email to_lower_case lower_char trim drop_space
    is_space text_eq
not_strict = refl

-- What dave is told when he registers.
abbrev dave_session : Session
dave_session = session_for ⦃w = quiet⦄ ⦃c = plain⦄ (record {
  id = 201 ∷ [];
  email = codes "dave@x.io";
  display_name = codes "dave";
  email_verified_at = none;
})

dave_registers : (register ⦃w = quiet⦄ ⦃c = plain⦄ ⦃s = console⦄ dave club).0 ≡ ok dave_session
unfolding register background create_account normalize_email to_lower_case lower_char trim
    drop_space is_space name_or_local_part local_part text_eq issue_tokens session_for seconds
    hash_token
dave_registers = refl

-- He has no session of the time 20000 yet.
dave_is_new :
    any
      (has_hash (hash_at quiet ⦃c = plain⦄ ⦃s = console⦄ 20000 dave_session.user))
      (register ⦃w = quiet⦄ ⦃c = plain⦄ ⦃s = console⦄ dave club).1.refresh_tokens
    ≡ false
unfolding register background create_account normalize_email to_lower_case lower_char trim
    drop_space is_space name_or_local_part local_part text_eq issue_tokens session_for seconds
    hash_token send_verification_email create_email_verification_token send_mail provider_name
dave_is_new = refl

register_login_example :
    (dave_session.user.email ≡ normalize_email dave.email)
    × ((login_user ⦃w = at_time quiet 20000⦄ ⦃c = plain⦄ dave.email dave.password
          (register ⦃w = quiet⦄ ⦃c = plain⦄ ⦃s = console⦄ dave club).1).0
        ≡ ok (session_for ⦃w = at_time quiet 20000⦄ ⦃c = plain⦄ dave_session.user))
register_login_example =
    register_login quiet ⦃c = plain⦄ ⦃s = console⦄ dave club dave_session 20000 dave_registers
      not_strict dave_is_new

alice_signs_in :
    (login_user ⦃w = quiet⦄ ⦃c = plain⦄ (codes "alice@x.io") (codes "sesame") club).0
    ≡ ok new_session
unfolding login_user normalize_email to_lower_case lower_char trim drop_space is_space text_eq opens
    requires_email_verification issue_tokens session_for seconds hash_token
alice_signs_in = refl

login_again_example :
    (login_user ⦃w = quiet⦄ ⦃c = plain⦄
      (codes "alice@x.io")
      (codes "sesame")
      (login_user ⦃w = quiet⦄ ⦃c = plain⦄ (codes "alice@x.io") (codes "sesame") club).1).0
    ≡ err (p2002 token_key.target)
login_again_example =
    login_again ⦃w = quiet⦄ ⦃c = plain⦄ (codes "alice@x.io") (codes "sesame") club new_session
      alice_signs_in

escape_html_example :
    (escape_html (codes "<b>") ≡ escape_each (codes "<b>"))
    × All (λ d. is_inert d ≡ true) (escape_html (codes "<b>"))
escape_html_example = escape_html_lem (codes "<b>")
