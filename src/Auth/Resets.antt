-- ===== src/Auth/Resets.antt =====
-- What setting a new password and confirming an address write.
use synapse_hub.Action.{World, Failure, bad_request, err, p2025, ok, transaction}
use synapse_hub.Auth.{
  Crypto, has_hash, hash_token, has_user_id, close_at, open_of_user, commit_reset, reset_password,
  usable, commit_verification, verify_email,
}
use synapse_hub.Base.{
  Option, Bool, is_some, ◌||◌, leb, some, map_where, ◌+◌, any, ◌≡◌, false, ◌⊎◌, true, Option-cases,
  inl, arith, inr, sym, ◌∙◌, refl, Bool-cases, none, not, ◌&&◌, ℕ,
}
use synapse_hub.Prisma.Laws.{find_unique-none_iff, find_unique-any, none-of_any}
use synapse_hub.Schema.{Db, Token, User}
use synapse_hub.Text.{Text, text_eq, text_eq_refl}

module _ ⦃w : World⦄ ⦃c : Crypto⦄ where
  abbrev pub reset_found : Text → Db → Option Token
  reset_found token db = w.prisma.find_unique (has_hash (hash_token token)) db.reset_tokens

  abbrev pub is_over : Token → Bool
  is_over t = is_some t.closed_at || leb t.expires_at w.now

  abbrev pub with_password : Text → User → User
  with_password hash u = record u { password_hash = some hash; updated_at = w.now }

  -- A new password for the user, the token used, and every session of the user closed.
  abbrev pub reset_db : Token → Text → Db → Db
  reset_db t hash db = record db {
    users = map_where (has_user_id t.user_id) (with_password hash) db.users;
    reset_tokens = map_where (λ x. text_eq x.id t.id) (close_at w.now) db.reset_tokens;
    refresh_tokens = map_where (open_of_user t.user_id) (close_at w.now) db.refresh_tokens;
    issued = db.issued + 1;
  }

  invalid : Failure
  invalid = bad_request "Invalid or expired reset token"

  commit_reset_cases :
      (t : Token) (hash : Text) (db : Db)
      → (((any (has_user_id t.user_id) db.users ≡ false)
            ⊎ (any (λ (x : Token). text_eq x.id t.id) db.reset_tokens ≡ false))
          × (commit_reset t hash db ≡ (err p2025, db)))
        ⊎ ((any (has_user_id t.user_id) db.users ≡ true)
            × (commit_reset t hash db
                ≡ (ok tt, record (reset_db t hash db) { issued = db.issued })))
  unfolding commit_reset transaction
  commit_reset_cases t hash db =
      elim (Option-cases (w.prisma.find_unique (has_user_id t.user_id) db.users)) [
        | inl nobody ↦ inl (
          inl ((find_unique-none_iff w.prisma (has_user_id t.user_id) db.users).0 nobody),
          ground arith,
        )
        | inr (u, there) ↦
            elim (Option-cases
              (w.prisma.find_unique (λ (x : Token). text_eq x.id t.id) db.reset_tokens)) [
                | inl gone ↦ inl (
                  inr (
                      (find_unique-none_iff w.prisma (λ (x : Token). text_eq x.id t.id)
                          db.reset_tokens).0
                        gone),
                  ground arith,
                )
                | inr (x, here) ↦ inr (
                  sym (find_unique-any w.prisma (has_user_id t.user_id) db.users) ∙ rw there refl,
                  ground (
                    arith,
                    w.prisma.update_many_lem (has_user_id t.user_id) (with_password hash) db.users,
                    w.prisma.update_many_lem (λ (x : Token). text_eq x.id t.id) (close_at w.now)
                        db.reset_tokens,
                    w.prisma.update_many_lem (open_of_user t.user_id) (close_at w.now)
                        db.refresh_tokens,
                  ),
                )
              ]
      ]

  -- A token that is found is among the tokens.
  found_by_id :
      (token : Text) (db : Db) (t : Token)
      → reset_found token db ≡ some t
      → any (λ (x : Token). text_eq x.id t.id) db.reset_tokens ≡ true
  found_by_id token db t found =
      elim (Bool-cases (any (λ (x : Token). text_eq x.id t.id) db.reset_tokens)) [
        | inl there ↦ there
        | inr gone ↦
            let missed : text_eq t.id t.id ≡ false =
              (w.prisma.find_unique_some (has_hash (hash_token token)) db.reset_tokens t found).1
                (λ (x : Token). text_eq x.id t.id ≡ false)
                (none-of_any w.prisma (λ (x : Token). text_eq x.id t.id) db.reset_tokens gone) in
            let own = text_eq_refl t.id in cc (missed, own)
      ]

  -- The token is there, unused and not over, and its user is there.
  abbrev pub is_resettable : Option Token → Db → Bool
  is_resettable none db = false
  is_resettable (some t) db = not (is_over t) && any (has_user_id t.user_id) db.users

  -- A reset of a password, where the reset token is there, unused and not over and its user is
  -- there, does all three writes: the hash of the new password, the use of the token, and the end
  -- of every open session of the user. Otherwise it throws and changes no row.
  pub reset_password_cases :
      (token new_password : Text) (db : Db)
      → ((is_resettable (reset_found token db) db ≡ false)
          × (e : Failure) × (n : ℕ) × (reset_password token new_password db
              ≡ (err e, record db { issued = n })))
        ⊎ ((t : Token) × (reset_found token db ≡ some t)
            × (is_over t ≡ false)
            × (any (has_user_id t.user_id) db.users ≡ true)
            × (reset_password token new_password db
                ≡ (ok tt, reset_db t (c.hash db.issued new_password) db)))
  unfolding reset_password
  reset_password_cases token new_password db = elim (Option-cases (reset_found token db)) [
    | inl gone ↦
        inl (ground arith, bad_request "Invalid or expired reset token", db.issued, ground arith)
    | inr (t, found) ↦ elim (Bool-cases (is_over t)) [
      | inl over ↦
          inl (ground arith, bad_request "Invalid or expired reset token", db.issued, ground arith)
      | inr usable ↦
          elim (commit_reset_cases t (c.hash db.issued new_password)
            (record db { issued = db.issued + 1 })) [
              | inl (inl nobody, fails) ↦ inl (ground arith, p2025, db.issued + 1, ground arith)
              | inl (inr gone, fails) ↦
                  let there = found_by_id token db t found in absurd (cc (gone, there))
              | inr (known, sets) ↦ inr (t, found, usable, known, ground arith)
            ]
    ]
  ]

  abbrev pub verification_found : Text → Db → Option Token
  verification_found token db =
      w.prisma.find_unique (has_hash (hash_token token)) db.verification_tokens

  abbrev pub confirmed : User → User
  confirmed u = record u { email_verified_at = some w.now; updated_at = w.now }

  abbrev pub verified_db : Token → Db → Db
  verified_db t db = record db {
    users = map_where (has_user_id t.user_id) confirmed db.users;
    verification_tokens =
        map_where (λ x. text_eq x.id t.id) (close_at w.now) db.verification_tokens;
  }

  commit_verification_cases :
      (t : Token) (db : Db)
      → (commit_verification t db ≡ (err p2025, db))
        ⊎ (commit_verification t db ≡ (ok tt, verified_db t db))
  unfolding commit_verification transaction
  commit_verification_cases t db =
      elim (Option-cases (w.prisma.find_unique (has_user_id t.user_id) db.users)) [
        | inl nobody ↦ inl (ground arith)
        | inr (u, there) ↦
            elim (Option-cases
              (w.prisma.find_unique (λ (x : Token). text_eq x.id t.id) db.verification_tokens)) [
                | inl gone ↦ inl (ground arith)
                | inr (x, here) ↦ inr (
                    ground (
                      arith,
                      w.prisma.update_many_lem (has_user_id t.user_id) confirmed db.users,
                      w.prisma.update_many_lem (λ (x : Token). text_eq x.id t.id) (close_at w.now)
                          db.verification_tokens,
                    ))
              ]
      ]

  -- Confirming an address either throws and changes nothing, or the token was found open and in
  -- time, and then the user of the token is verified, the token is used, and nothing else changes.
  pub verify_email_cases :
      (token : Text) (db : Db)
      → ((e : Failure) × (verify_email token db ≡ (err e, db)))
        ⊎ ((t : Token) × (verification_found token db ≡ some t)
            × (is_over t ≡ false)
            × (verify_email token db ≡ (ok tt, verified_db t db)))
  unfolding verify_email
  verify_email_cases token db = elim (Option-cases (verification_found token db)) [
    | inl gone ↦ inl (bad_request "Invalid or expired verification token", ground arith)
    | inr (t, found) ↦ elim (Bool-cases (is_over t)) [
      | inl over ↦ inl (bad_request "Invalid or expired verification token", ground arith)
      | inr usable ↦ elim (commit_verification_cases t db) [
        | inl fails ↦ inl (p2025, ground arith)
        | inr sets ↦ inr (t, found, usable, ground arith)
      ]
    ]
  ]
