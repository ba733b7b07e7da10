-- ===== src/Auth/Untouched.antt =====
-- The requests that neither open nor close a session.
use synapse_hub.Action.{World, transaction, ◌>>=◌, pure, Action, background, delete_many}
use synapse_hub.Action.Frame.{
  Keeps, Keeps-bind, Keeps-if, Keeps-background, Keeps-pure, Keeps-delete_many,
}
use synapse_hub.Action.Tables.{verification_tokens}
use synapse_hub.Auth.{
  Crypto, create_email_verification_token, create_password_reset_token, RegisterInput,
  create_account, verify_email, commit_verification, send_verification_email, verification_mail,
  send_password_reset_email, password_reset_mail, mail_reset_link, forgot_password, has_email,
  normalize_email, mail_verification_link, open_of_user, resend_verification,
}
use synapse_hub.Base.{List, arith, Option, none, refl, some, is_some, ℕ}
use synapse_hub.Email.{MailSettings, send_mail, send_via_postmark, send_via_resend}
use synapse_hub.Schema.{Db, Token, Mail, User}
use synapse_hub.Text.{Text}

abbrev pub sessions : Db → List Token
sessions db = db.refresh_tokens

module _ ⦃w : World⦄ ⦃c : Crypto⦄ where
  verification_token-Keeps :
      (user_id : Text) → Keeps sessions (create_email_verification_token user_id)
  unfolding create_email_verification_token
  verification_token-Keeps user_id db = ground arith

  reset_token-Keeps : (user_id : Text) → Keeps sessions (create_password_reset_token user_id)
  unfolding create_password_reset_token
  reset_token-Keeps user_id db = ground arith

  pub account-Keeps : (dto : RegisterInput) → Keeps sessions (create_account dto)
  unfolding create_account
  account-Keeps dto db = ground arith

  pub verify_email-Keeps : (token : Text) → Keeps sessions (verify_email token)
  unfolding verify_email commit_verification transaction
  verify_email-Keeps token db = ground arith

  module _ ⦃s : MailSettings⦄ where
    send-Keeps : (mail : Mail) → Keeps sessions (send_mail mail)
    unfolding send_mail send_via_postmark send_via_resend
    send-Keeps mail db = ground arith

    pub send_verification-Keeps :
        (id email name : Text) → Keeps sessions (send_verification_email id email name)
    unfolding send_verification_email
    send_verification-Keeps id email name =
        Keeps-bind sessions (create_email_verification_token id)
          (λ token. send_mail (verification_mail email name token)) (verification_token-Keeps id)
          (λ token. send-Keeps (verification_mail email name token))

    send_reset-Keeps :
        (email name token : Text) → Keeps sessions (send_password_reset_email email name token)
    unfolding send_password_reset_email
    send_reset-Keeps email name token = send-Keeps (password_reset_mail email name token)

    mail_reset-Keeps : (user : Option User) → Keeps sessions (mail_reset_link user)
    unfolding mail_reset_link
    mail_reset-Keeps none = λ db. refl
    mail_reset-Keeps (some u) =
        Keeps-if sessions u.is_active (create_password_reset_token u.id >>= mailed) (pure tt)
          (Keeps-bind sessions (create_password_reset_token u.id) mailed (reset_token-Keeps u.id)
            (λ token.
              Keeps-background sessions (send_password_reset_email u.email u.display_name token)
                (send_reset-Keeps u.email u.display_name token)))
          (Keeps-pure sessions tt)
      where
        mailed : Text → Action (Unit {0})
        mailed token = background (send_password_reset_email u.email u.display_name token)

    pub forgot-Keeps : (email : Text) → Keeps sessions (forgot_password email)
    unfolding forgot_password
    forgot-Keeps email db =
        mail_reset-Keeps (w.prisma.find_unique (has_email (normalize_email email)) db.users) db

    mail_verification-Keeps : (user : Option User) → Keeps sessions (mail_verification_link user)
    unfolding mail_verification_link
    mail_verification-Keeps none = λ db. refl
    mail_verification-Keeps (some u) =
        Keeps-if sessions (is_some u.email_verified_at) (pure tt)
          (delete_many verification_tokens (open_of_user u.id) >>= mailed) (Keeps-pure sessions tt)
          (Keeps-bind sessions (delete_many verification_tokens (open_of_user u.id)) mailed
            (Keeps-delete_many sessions verification_tokens (open_of_user u.id) (λ l db. refl))
            (λ n.
              Keeps-background sessions (send_verification_email u.id u.email u.display_name)
                (send_verification-Keeps u.id u.email u.display_name)))
      where
        mailed : ℕ → Action (Unit {0})
        mailed n = background (send_verification_email u.id u.email u.display_name)

    pub resend-Keeps : (email : Text) → Keeps sessions (resend_verification email)
    unfolding resend_verification
    resend-Keeps email db =
        mail_verification-Keeps (w.prisma.find_unique (has_email (normalize_email email)) db.users)
          db
