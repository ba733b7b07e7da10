-- ===== src/Email/Untouched.antt =====
-- Sending a mail leaves the database alone.
use synapse_hub.Action.{pure}
use synapse_hub.Action.Frame.{Keeps, Keeps-if}
use synapse_hub.Base.{List, ◌≡◌, Option, ◌++◌, ◌∷◌, [], Option-cases, inl, refl, inr, if◌then◌else◌}
use synapse_hub.Email.{
  MailSettings, fetch, resolve_from_address, send_via_postmark, send_via_resend, send_mail,
  provider_name,
}
use synapse_hub.Schema.{Db, Dispatch, Provider, Mail, postmark, resend}
use synapse_hub.Text.{Text, given, text_eq, codes}

module _ {ℓ} {X : Type ℓ} (view : Db → X) ⦃s : MailSettings⦄ where
  -- A view that does not look at what has left by mail.
  abbrev pub SkipsOutbox : Type ℓ
  SkipsOutbox = (l : List Dispatch) (db : Db) → view (record db { outbox = l }) ≡ view db

  fetch-Keeps :
      (provider : Provider) (reply_to : Option Text) (mail : Mail)
      → SkipsOutbox
      → Keeps view (fetch provider reply_to mail)
  fetch-Keeps provider reply_to mail skips db =
      skips
        (db.outbox
          ++ record {
            provider = provider;
            sender = resolve_from_address;
            reply_to = reply_to;
            mail = mail;
          }
            ∷ [])
        db

  send_via_postmark-Keeps : (mail : Mail) → SkipsOutbox → Keeps view (send_via_postmark mail)
  unfolding send_via_postmark
  send_via_postmark-Keeps mail skips db = elim (Option-cases (given s.postmark_server_token)) [
    | inl unset ↦ rw unset refl
    | inr (token, set) ↦ rw set (fetch-Keeps postmark s.email_reply_to mail skips db)
  ]

  send_via_resend-Keeps : (mail : Mail) → SkipsOutbox → Keeps view (send_via_resend mail)
  unfolding send_via_resend
  send_via_resend-Keeps mail skips db = elim (Option-cases (given s.resend_api_key)) [
    | inl unset ↦ rw unset refl
    | inr (key, set) ↦ rw set (fetch-Keeps resend (given s.email_reply_to) mail skips db)
  ]

  pub send_mail-Keeps : (mail : Mail) → SkipsOutbox → Keeps view (send_mail mail)
  unfolding send_mail
  send_mail-Keeps mail skips =
      Keeps-if view (text_eq provider_name (codes "postmark")) (send_via_postmark mail)
        (if text_eq provider_name (codes "resend") then send_via_resend mail else pure tt)
        (send_via_postmark-Keeps mail skips)
        (Keeps-if view (text_eq provider_name (codes "resend")) (send_via_resend mail) (pure tt)
          (send_via_resend-Keeps mail skips) (λ db. refl))
