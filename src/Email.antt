-- ===== src/Email.antt =====
-- services/auth-service/src/auth/email-delivery.service.ts, and its copy in the workspace service:
-- choosing the provider and handing it the mail. The environment, and whether the provider accepts
-- a mail, are parameters; what is written to the log is left out.

pub mod Untouched
use synapse_hub.Action.{Action, ok, err, internal, ◌>>=◌, ◌>>◌, or_throw, pure}
use synapse_hub.Base.{Option, Bool, if◌then◌else◌, ◌++◌, ◌∷◌, []}
use synapse_hub.Schema.{Provider, Mail, postmark, resend}
use synapse_hub.Text.{Text, or_else, codes, given, to_lower_case, trim, text_eq}

-- `process.env`, and whether a request to the provider is answered with success.
pub record MailSettings : Type 0 where
  pub email_provider : Option Text
  pub postmark_server_token : Option Text
  pub resend_api_key : Option Text
  pub email_from : Option Text
  pub email_reply_to : Option Text
  pub accepts : Provider → Mail → Bool

module _ ⦃s : MailSettings⦄ where
  unfoldable pub resolve_from_address : Text
  resolve_from_address = or_else s.email_from (codes "SynapseHub <no-reply@synapsehub.local>")

  -- `fetch`: the request leaves, and an answer that is not a success throws.
  abbrev pub fetch : Provider → Option Text → Mail → Action (Unit {0})
  fetch provider reply_to mail db = (
    (if s.accepts provider mail then ok tt else err (internal "request failed")),
    record db {
      outbox =
          db.outbox
          ++ record {
            provider = provider;
            sender = resolve_from_address;
            reply_to = reply_to;
            mail = mail;
          }
            ∷ [];
    },
  )

  unfoldable pub send_via_postmark : Mail → Action (Unit {0})
  send_via_postmark mail = do
    or_throw (given s.postmark_server_token) (internal "POSTMARK_SERVER_TOKEN is not configured")
    fetch postmark s.email_reply_to mail

  unfoldable pub send_via_resend : Mail → Action (Unit {0})
  send_via_resend mail = do
    or_throw (given s.resend_api_key) (internal "RESEND_API_KEY is not configured")
    fetch resend (given s.email_reply_to) mail

  unfoldable pub provider_name : Text
  provider_name = to_lower_case (trim (or_else s.email_provider (codes "console")))

  unfoldable pub send_mail : Mail → Action (Unit {0})
  send_mail mail =
      if text_eq provider_name (codes "postmark")
      then send_via_postmark mail
      else (if text_eq provider_name (codes "resend") then send_via_resend mail else pure tt)
