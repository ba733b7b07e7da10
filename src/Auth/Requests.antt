-- ===== src/Auth/Requests.antt =====
-- services/auth-service/src/auth/auth.controller.ts: the requests that the service answers.
use synapse_hub.Action.{World, Action, pure, ◌>>=◌}
use synapse_hub.Auth.{
  RegisterInput, Session, Crypto, register, login_user, refresh, logout_session, forgot_password,
  reset_password, verify_email, resend_verification,
}
use synapse_hub.Base.{ℕ, List, [], ◌∷◌}
use synapse_hub.Email.{MailSettings}
use synapse_hub.Schema.{Db}
use synapse_hub.Text.{Text}

pub data AuthRequest : Type 0 where
  post_register : RegisterInput → AuthRequest
  post_login : Text → Text → AuthRequest
  post_refresh : Text → AuthRequest
  post_logout : Text → AuthRequest
  post_forgot_password : Text → AuthRequest
  post_reset_password : Text → Text → AuthRequest
  post_verify_email : Text → AuthRequest
  post_resend_verification : Text → AuthRequest

-- What the service answers.
pub data AuthReply : Type 0 where
  with_session_of : Session → AuthReply
  success : AuthReply

module _ ⦃w : World⦄ ⦃c : Crypto⦄ ⦃s : MailSettings⦄ where
  abbrev session_reply : Session → Action AuthReply
  session_reply x = pure (with_session_of x)

  abbrev success_reply : Unit {0} → Action AuthReply
  success_reply x = pure success

  unfoldable pub answer : AuthRequest → Action AuthReply
  answer (post_register dto) = register dto >>= session_reply
  answer (post_login email password) = login_user email password >>= session_reply
  answer (post_refresh token) = refresh token >>= session_reply
  answer (post_logout token) = logout_session token >>= success_reply
  answer (post_forgot_password email) = forgot_password email >>= success_reply
  answer (post_reset_password token password) = reset_password token password >>= success_reply
  answer (post_verify_email token) = verify_email token >>= success_reply
  answer (post_resend_verification email) = resend_verification email >>= success_reply

abbrev pub at_time : World → ℕ → World
at_time w t = record w { now = t }

-- Requests one after the other, each at its time.
module _ (w : World) ⦃c : Crypto⦄ ⦃s : MailSettings⦄ where
  unfoldable pub serve : List (ℕ × AuthRequest) → Db → Db
  serve [] db = db
  serve ((t, r) ∷ requests) db = serve requests (answer ⦃w = at_time w t⦄ r db).1
