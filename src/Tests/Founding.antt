-- ===== src/Tests/Founding.antt =====
-- New workspaces and invitations on the sample.
use synapse_hub.Action.{ok, err, forbidden, transaction}
use synapse_hub.Action.Tables.{is_member}
use synapse_hub.Auth.{has_email, normalize_email}
use synapse_hub.Base.{none, ◌∷◌, [], true, ◌≡◌, false, refl, arith, some, map_where}
use synapse_hub.Email.{MailSettings}
use synapse_hub.Schema.{admin, owner, guest}
use synapse_hub.Tests.Invites.{open_office, acme}
use synapse_hub.Tests.Sample.{quiet, alice, member_of}
use synapse_hub.Text.{text_eq, Text, codes, to_lower_case, lower_char, trim, drop_space, is_space}
use synapse_hub.Workspaces.{set_role}
use synapse_hub.Workspaces.Creating.{
  CreateWorkspace, create_workspace, store_workspace, insert_workspace,
}
use synapse_hub.Workspaces.Inviting.{
  is_used_code, generate_unique_invite_code_live, reinvited, invite_demotes_owner,
}
use synapse_hub.Workspaces.Links.{LinkSettings, generate_unique_invite_code, invite_to_workspace}
use synapse_hub.Workspaces.Roles.{workspace_found, membership_of}

abbrev local_site : LinkSettings
local_site = record { public_base = none; random_code = λ n. n ∷ [] }

abbrev quiet_mail : MailSettings
quiet_mail = record {
  email_provider = none;
  postmark_server_token = none;
  resend_api_key = none;
  email_from = none;
  email_reply_to = none;
  accepts = λ p m. true;
}

third_is_free : is_used_code ⦃w = quiet⦄ ⦃s = local_site⦄ (202 ∷ []) open_office ≡ false
unfolding text_eq
third_is_free = refl

generate_unique_invite_code_live_example :
    (x : Text) × ((generate_unique_invite_code ⦃w = quiet⦄ ⦃s = local_site⦄ open_office).0 ≡ ok x)
    × (is_used_code ⦃w = quiet⦄ ⦃s = local_site⦄ x open_office ≡ false)
generate_unique_invite_code_live_example =
    generate_unique_invite_code_live ⦃w = quiet⦄ ⦃s = local_site⦄ 2 open_office (omega arith)
      third_is_free

alice_known :
    (quiet.prisma).find_unique (has_email (normalize_email (codes "alice@x.io"))) open_office.users
    ≡ some alice
unfolding normalize_email to_lower_case lower_char trim drop_space is_space text_eq
alice_known = refl

office_known : workspace_found ⦃w = quiet⦄ (codes "w") open_office ≡ some acme
unfolding text_eq
office_known = refl

bob_known :
    membership_of ⦃w = quiet⦄ (codes "w") (codes "b") open_office ≡ some (member_of "b" admin)
unfolding text_eq
bob_known = refl

alice_owns :
    membership_of ⦃w = quiet⦄ (codes "w") (codes "a") open_office ≡ some (member_of "a" owner)
unfolding text_eq
alice_owns = refl

invite_demotes_owner_example :
    ((invite_to_workspace ⦃w = quiet⦄ ⦃s = local_site⦄ ⦃m = quiet_mail⦄
        (codes "w")
        (codes "alice@x.io")
        guest
        (codes "b")
        open_office).1.workspace_members
      ≡ map_where
          (is_member (codes "w") (codes "a"))
          (reinvited ⦃w = quiet⦄ ⦃s = local_site⦄ ⦃m = quiet_mail⦄ guest (codes "b"))
          open_office.workspace_members)
    × (set_role ⦃w = quiet⦄ (codes "w") (codes "a") guest (codes "b") open_office
        ≡ (err (forbidden "Only owner can update owner role"), open_office))
invite_demotes_owner_example =
    invite_demotes_owner ⦃w = quiet⦄ ⦃s = local_site⦄ ⦃m = quiet_mail⦄ (codes "w")
      (codes "alice@x.io") (codes "b") open_office acme (member_of "b" admin) (member_of "a" owner)
      alice office_known bob_known refl alice_known alice_owns refl

abbrev beta : CreateWorkspace
beta = record { name = codes "Beta"; slug = codes "beta" }

beta_founded :
    (create_workspace ⦃w = quiet⦄ beta (codes "a") open_office).0
    ≡ ok (record { id = 200 ∷ []; name = codes "Beta"; slug = codes "beta"; owner_id = codes "a" })
unfolding create_workspace store_workspace insert_workspace transaction text_eq
beta_founded = refl
