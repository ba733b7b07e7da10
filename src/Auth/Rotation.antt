-- ===== src/Auth/Rotation.antt =====
-- A refresh token serves once, and none outlives the closing of its session.
use synapse_hub.Action.{World, err, ok, Reply}
use synapse_hub.Auth.{
  Crypto, hash_token, is_live, open_with_hash, has_hash, refresh, Claims, rotate, Session,
  logout_session, close_at, open_of_user, reset_password, usable,
}
use synapse_hub.Auth.Cases.{session_found, refused, refresh_cases}
use synapse_hub.Auth.Requests.{AuthRequest, serve, answer, at_time}
use synapse_hub.Auth.Resets.{reset_found, reset_password_cases}
use synapse_hub.Auth.Spent.{
  Spent, answer-Preserves, rotate-Preserves, close-SpentIn, close_open-SpentIn,
}
use synapse_hub.Base.{
  List, ℕ, [], ◌∷◌, ◌≡◌, some, false, arith, inl, inr, any, true, sym, ap, ◌∙◌, All, map_where,
  refl, Bool-cases, any-map_where,
}
use synapse_hub.Email.{MailSettings}
use synapse_hub.Prisma.Laws.{none-of_any, find_unique-any}
use synapse_hub.Schema.{Db, Token}
use synapse_hub.Text.{Text, text_eq}

module _ (w : World) ⦃c : Crypto⦄ ⦃s : MailSettings⦄ where
  serve-Spent :
      (hash : Text) (requests : List (ℕ × AuthRequest)) (db : Db)
      → Spent hash db
      → Spent hash (serve w requests db)
  unfolding serve
  serve-Spent hash [] db h = h
  serve-Spent hash ((t, r) ∷ requests) db h =
      serve-Spent hash requests (answer ⦃w = at_time w t⦄ r db).1
        (answer-Preserves ⦃w = at_time w t⦄ hash r db h)

module _ ⦃w : World⦄ ⦃c : Crypto⦄ where
  -- The row of a spent token is closed.
  Spent-row :
      (token : Text) (db : Db) (t : Token)
      → Spent (hash_token token) db
      → session_found token db ≡ some t
      → is_live t ≡ false
  unfolding is_live
  Spent-row token db t (there, shut) found =
      let hash = hash_token token in
      let none_open = none-of_any w.prisma (open_with_hash hash) db.refresh_tokens shut in
      let (hit, inside) = w.prisma.find_unique_some (has_hash hash) db.refresh_tokens t found in
      let shut_here : open_with_hash hash t ≡ false =
        inside (λ x. open_with_hash hash x ≡ false) none_open in
      ground arith

  Spent-refused :
      (token : Text) (db : Db) → Spent (hash_token token) db → refresh token db ≡ (err refused, db)
  Spent-refused token db h = elim (refresh_cases token db) [
    | inl e ↦ e
    | inr (payload, t, (signed, found, live), e) ↦
        let dead = Spent-row token db t h found in cc (live, dead)
  ]

  found-any :
      (token : Text) (db : Db) (t : Token)
      → session_found token db ≡ some t
      → any (has_hash (hash_token token)) db.refresh_tokens ≡ true
  found-any token db t found =
      let e = find_unique-any w.prisma (has_hash (hash_token token)) db.refresh_tokens in
      ground (arith, found, e)

  rotate-Spent :
      (token : Text) (payload : Claims) (t : Token) (db : Db)
      → session_found token db ≡ some t
      → Spent (hash_token token) (rotate token payload db).1
  rotate-Spent token payload t db found =
      rotate-Preserves (hash_token token) token payload t db found
        (close-SpentIn (hash_token token) w.now db.refresh_tokens (found-any token db t found))

  refresh-Spent :
      (token : Text) (db : Db) (x : Session)
      → (refresh token db).0 ≡ ok x
      → Spent (hash_token token) (refresh token db).1
  refresh-Spent token db x gives = elim (refresh_cases token db) [
    | inl e ↦
        let clash : err refused ≡ ok x = sym (ap (λ (r : Reply Session × Db). r.0) e) ∙ gives in
        cc clash
    | inr (payload, t, (signed, found, live), e) ↦ rw e (rotate-Spent token payload t db found)
  ]

  logout-Spent :
      (token : Text) (db : Db)
      → any (has_hash (hash_token token)) db.refresh_tokens ≡ true
      → Spent (hash_token token) (logout_session token db).1
  unfolding logout_session
  logout-Spent token db there =
      let hash = hash_token token in
      let e = w.prisma.update_many_lem (open_with_hash hash) (close_at w.now) db.refresh_tokens in
      let spent = close_open-SpentIn hash w.now db.refresh_tokens there in rw e spent

  -- Every row of the hash is one of the user.
  abbrev pub Owned : Text → Text → Db → Type 0
  Owned hash user_id db =
      All (λ t. has_hash hash t ≡ true → text_eq t.user_id user_id ≡ true) db.refresh_tokens

  owned_shut :
      (hash user_id : Text) (l : List Token)
      → All (λ t. has_hash hash t ≡ true → text_eq t.user_id user_id ≡ true) l
      → any (open_with_hash hash) (map_where (open_of_user user_id) (close_at w.now) l) ≡ false
  owned_shut hash user_id [] h = refl
  owned_shut hash user_id (t ∷ l) h =
      let rest = owned_shut hash user_id l h.1 in
      elim (Bool-cases (has_hash hash t)) [
        | inl hit ↦ let own = h.0 hit in ground arith
        | inr miss ↦ ground arith
      ]

  reset-Spent :
      (hash token new_password : Text) (db : Db) (r : Token)
      → reset_found token db ≡ some r
      → (reset_password token new_password db).0 ≡ ok tt
      → any (has_hash hash) db.refresh_tokens ≡ true
      → Owned hash r.user_id db
      → Spent hash (reset_password token new_password db).1
  reset-Spent hash token new_password db r found goes there own =
      elim (reset_password_cases token new_password db) [
        | inl (off, f, n, e) ↦
            let clash : err f ≡ ok tt = sym (ap (λ (x : Reply (Unit {0}) × Db). x.0) e) ∙ goes in
            cc clash
        | inr (t, here, usable, known, e) ↦
            let same : some t ≡ some r = sym here ∙ found in
            let who : t.user_id ≡ r.user_id = cc same in
            rw (e, who)
              (
                any-map_where (has_hash hash) (open_of_user r.user_id) (close_at w.now)
                      db.refresh_tokens (λ x. refl)
                    ∙ there,
                owned_shut hash r.user_id db.refresh_tokens own,
              )
      ]

module _ (w : World) ⦃c : Crypto⦄ ⦃s : MailSettings⦄ where
  Spent-for_good :
      (token : Text) (db : Db) (requests : List (ℕ × AuthRequest)) (t : ℕ)
      → Spent (hash_token token) db
      → refresh ⦃w = at_time w t⦄ token (serve w requests db) ≡ (err refused, serve w requests db)
  Spent-for_good token db requests t h =
      Spent-refused ⦃w = at_time w t⦄ token (serve w requests db)
        (serve-Spent w (hash_token token) requests db h)

  -- Once a refresh token has been exchanged for a session, it is refused for good: whatever
  -- requests the service answers after that, each at its time, a refresh with the same token at
  -- any time answers that the token is invalid and changes nothing.
  pub refresh_once :
      (token : Text) (db : Db) (x : Session) (requests : List (ℕ × AuthRequest)) (t : ℕ)
      → (refresh ⦃w = w⦄ token db).0 ≡ ok x
      → refresh ⦃w = at_time w t⦄ token (serve w requests (refresh ⦃w = w⦄ token db).1)
        ≡ (err refused, serve w requests (refresh ⦃w = w⦄ token db).1)
  refresh_once token db x requests t gives =
      Spent-for_good token (refresh ⦃w = w⦄ token db).1 requests t
        (refresh-Spent ⦃w = w⦄ token db x gives)

  -- Once the session of a known refresh token has been logged out, the token is refused for good:
  -- whatever requests the service answers after that, a refresh with it at any time answers that
  -- the token is invalid and changes nothing.
  pub logout_final :
      (token : Text) (db : Db) (requests : List (ℕ × AuthRequest)) (t : ℕ)
      → any (has_hash (hash_token token)) db.refresh_tokens ≡ true
      → refresh ⦃w = at_time w t⦄ token (serve w requests (logout_session ⦃w = w⦄ token db).1)
        ≡ (err refused, serve w requests (logout_session ⦃w = w⦄ token db).1)
  logout_final token db requests t there =
      Spent-for_good token (logout_session ⦃w = w⦄ token db).1 requests t
        (logout-Spent ⦃w = w⦄ token db there)

  -- Once a password has been reset, a refresh token whose row belonged to that user is refused for
  -- good: whatever requests the service answers after that, a refresh with it at any time answers
  -- that the token is invalid and changes nothing. The row of the token exists, and every row with
  -- its hash is the user's.
  pub reset_final :
      (token new_password old : Text) (db : Db) (r : Token) (requests : List (ℕ × AuthRequest))
      (t : ℕ)
      → reset_found ⦃w = w⦄ token db ≡ some r
      → (reset_password ⦃w = w⦄ token new_password db).0 ≡ ok tt
      → any (has_hash (hash_token old)) db.refresh_tokens ≡ true
      → Owned ⦃w = w⦄ (hash_token old) r.user_id db
      → refresh ⦃w = at_time w t⦄ old
          (serve w requests (reset_password ⦃w = w⦄ token new_password db).1)
        ≡ (err refused, serve w requests (reset_password ⦃w = w⦄ token new_password db).1)
  reset_final token new_password old db r requests t found goes there own =
      Spent-for_good old (reset_password ⦃w = w⦄ token new_password db).1 requests t
        (reset-Spent ⦃w = w⦄ (hash_token old) token new_password db r found goes there own)
